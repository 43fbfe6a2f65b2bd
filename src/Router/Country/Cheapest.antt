-- ===== src/Router/Country/Cheapest.antt =====
-- `dijkstra` of country_router.go finds a shortest route.
use vibranium_quadsquad.Base.{
  ◌≤◌, String, true, false, Option, some, none, List, ◌≡◌, refl, ◌⊎◌, inl, inr, has,
}
use vibranium_quadsquad.Base.Float.{Float, AddLaws}
use vibranium_quadsquad.Router.Search.{Found}
use vibranium_quadsquad.Router.Search.Relax.{IsPositive}
use vibranium_quadsquad.Router.Search.Walk.{Walk, length_of}
use vibranium_quadsquad.Router.Search.Paths.{IsShortest, Returns, search-Returns}
use vibranium_quadsquad.Router.Mesh.{keys, targets_of}
use vibranium_quadsquad.Router.Country.{
  CountryGraph, CountryEdge, CountryPath, tradable, trade_weight, country_dijkstra, path_of,
}

module _ (f : Float) (laws : AddLaws f) (pow : f.F → f.F → f.F) (g : CountryGraph f.F)
    (excluded_edges excluded_nodes : List String) (source target : String) where
  -- No edge that may be used has a negative weight.
  abbrev pub NoneNegative : Type 0
  NoneNegative =
      IsPositive f (keys g.nodes) (targets_of g.edges)
        (tradable f pow excluded_edges excluded_nodes) (trade_weight f pow g) source laws

  -- A route with its edges and nodes, last one first.
  abbrev pub Way : List (CountryEdge f.F) → List String → Type 0
  Way =
      Walk f (keys g.nodes) (targets_of g.edges) (tradable f pow excluded_edges excluded_nodes)
        (trade_weight f pow g) source target

  abbrev pub cost : List (CountryEdge f.F) → f.F
  cost =
      length_of f (keys g.nodes) (targets_of g.edges) (tradable f pow excluded_edges excluded_nodes)
        (trade_weight f pow g)

  module _ (positive : NoneNegative) (source_known : has source (keys g.nodes) ≡ true)
      (named : has "" (keys g.nodes) ≡ false) where
    -- The route is a way through usable edges, of least cost.
    abbrev pub IsCheapest : CountryPath f.F → Type 0
    IsCheapest r =
        (es : List (CountryEdge f.F)) × IsShortest f (keys g.nodes) (targets_of g.edges)
          (tradable f pow excluded_edges excluded_nodes) (trade_weight f pow g) source laws positive
          source_known named target (record { nodes = r.nodes; edges = es; total = r.total_weight })

    -- A path that is cheapest, or none, and then every way there has infinite cost.
    abbrev pub FindsCheapest : Option (Option (CountryPath f.F)) → Type 0
    FindsCheapest o =
        ((o ≡ some none)
          × ((es : List (CountryEdge f.F)) (ns : List String)
              → Way es ns
              → f.rank f.inf ≤ f.rank (cost es)))
        ⊎ ((r : CountryPath f.F) × (o ≡ some (some r)) × IsCheapest r)

    path_cases :
        (o : Option (Option (Found f.F (CountryEdge f.F))))
        → Returns f
            (keys g.nodes)
            (targets_of g.edges)
            (tradable f pow excluded_edges excluded_nodes)
            (trade_weight f pow g)
            source
            laws
            positive
            source_known
            named
            target
            o
        → FindsCheapest (path_of f pow o)
    path_cases none r = absurd r
    path_cases (some none) r = inl (refl, r)
    path_cases (some (some p)) r = inr (_, refl, (_, r))

    -- Between two nodes of the graph that are not excluded, when no node is named by the empty
    -- string and no usable edge has a negative weight, `dijkstra` ends; it returns a route over
    -- usable edges of least cost, or no route, and then every way
    -- there has infinite cost.
    pub country_dijkstra-IsCheapest :
        has target (keys g.nodes) ≡ true
        → has source excluded_nodes ≡ false
        → has target excluded_nodes ≡ false
        → FindsCheapest (country_dijkstra f pow g source target excluded_edges excluded_nodes)
    unfolding country_dijkstra
    country_dijkstra-IsCheapest known s_in t_in =
        rw (s_in, t_in)
          (path_cases _ (
            search-Returns f (keys g.nodes) (targets_of g.edges)
              (tradable f pow excluded_edges excluded_nodes) (trade_weight f pow g) source laws
              positive source_known named target known))
