-- ===== src/Router/Mesh/Shortest.antt =====
-- `dijkstra` of yen.go finds a shortest route.
use vibranium_quadsquad.Base.{
  ◌≤◌, String, true, false, Option, some, none, List, ◌≡◌, refl, ◌⊎◌, inl, inr, has,
}
use vibranium_quadsquad.Base.Float.{Float, AddLaws}
use vibranium_quadsquad.Router.Search.{Found}
use vibranium_quadsquad.Router.Search.Relax.{IsPositive}
use vibranium_quadsquad.Router.Search.Walk.{Walk, length_of}
use vibranium_quadsquad.Router.Search.Paths.{IsShortest, Returns, search-Returns}
use vibranium_quadsquad.Router.Mesh.{
  Graph, Edge, Route, keys, targets_of, usable, edge_weight, dijkstra, route_of, fee_back,
  latency_back,
}

module _ (f : Float) (laws : AddLaws f) (g : Graph f) (excluded_edges excluded_nodes : List String)
    (source target : String) where
  -- No edge that may be used has a negative weight.
  abbrev pub NoneNegative : Type 0
  NoneNegative =
      IsPositive f (keys g.nodes) (targets_of g.edges) (usable f g excluded_edges excluded_nodes)
        (edge_weight f g) source laws

  -- A route with its edges and nodes, last one first.
  abbrev pub Way : List (Edge f.F) → List String → Type 0
  Way =
      Walk f (keys g.nodes) (targets_of g.edges) (usable f g excluded_edges excluded_nodes)
        (edge_weight f g) source target

  abbrev pub cost : List (Edge f.F) → f.F
  cost =
      length_of f (keys g.nodes) (targets_of g.edges) (usable f g excluded_edges excluded_nodes)
        (edge_weight f g)

  module _ (positive : NoneNegative) (source_known : has source (keys g.nodes) ≡ true)
      (named : has "" (keys g.nodes) ≡ false) where
    -- The route is a way through usable edges, of least cost, and its totals are those of its edges.
    abbrev pub IsBest : Route f.F → Type 0
    IsBest r =
        IsShortest f (keys g.nodes) (targets_of g.edges) (usable f g excluded_edges excluded_nodes)
          (edge_weight f g) source laws positive source_known named target
          (record { nodes = r.nodes; edges = r.edges; total = r.total_weight })
        × (r.total_fee ≡ fee_back f r.edges)
        × (r.total_latency ≡ latency_back f r.edges)

    -- A route that is best, or none, and then every way there has infinite cost.
    abbrev pub FindsBest : Option (Option (Route f.F)) → Type 0
    FindsBest o =
        ((o ≡ some none)
          × ((es : List (Edge f.F)) (ns : List String)
              → Way es ns
              → f.rank f.inf ≤ f.rank (cost es)))
        ⊎ ((r : Route f.F) × (o ≡ some (some r)) × IsBest r)

    route_cases :
        (o : Option (Option (Found f.F (Edge f.F))))
        → Returns f
            (keys g.nodes)
            (targets_of g.edges)
            (usable f g excluded_edges excluded_nodes)
            (edge_weight f g)
            source
            laws
            positive
            source_known
            named
            target
            o
        → FindsBest (route_of f o)
    route_cases none r = absurd r
    route_cases (some none) r = inl (refl, r)
    route_cases (some (some p)) r = inr (_, refl, (r, refl, refl))

    -- Between two nodes of the graph that are not excluded, when no node is named by the empty
    -- string and no usable edge has a negative weight, `dijkstra` ends; it returns a route over
    -- usable edges of least cost, with the totals of its edges, or no route, and then every way
    -- there has infinite cost.
    pub dijkstra-IsBest :
        has target (keys g.nodes) ≡ true
        → has source excluded_nodes ≡ false
        → has target excluded_nodes ≡ false
        → FindsBest (dijkstra f g source target excluded_edges excluded_nodes)
    unfolding dijkstra
    dijkstra-IsBest known s_in t_in =
        rw (s_in, t_in)
          (route_cases _ (
            search-Returns f (keys g.nodes) (targets_of g.edges)
              (usable f g excluded_edges excluded_nodes) (edge_weight f g) source laws positive
              source_known named target known))
