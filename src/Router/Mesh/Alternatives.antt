-- ===== src/Router/Mesh/Alternatives.antt =====
-- `FindKShortestPaths` of yen.go: what the routes that it returns have in common.
use vibranium_quadsquad.Base.{
  ℕ, ◌+◌, ◌-◌, ◌≤◌, String, Bool, true, false, Option, some, none, List, [], ◌∷◌, ◌≡◌, refl, sym,
  ap, subst, ◌∙◌, ◌⊎◌, inl, inr, arith, has, length, Bool-cases, ◌||◌, if◌then◌else◌,
}
use vibranium_quadsquad.Base.Float.{Float, AddLaws}
use vibranium_quadsquad.Router.Search.Walk.{In, Walk, reverse_onto}
use vibranium_quadsquad.Router.Search.Chain.{Link, nodes-Leads}
use vibranium_quadsquad.Router.Yen.Chains.{Begins, Leads, Leads-map, Leads-link, spur-Leads}
use vibranium_quadsquad.Router.Yen.Distinct.{All, Distinct}
use vibranium_quadsquad.Router.Yen.Rounds.{Extendable, nothing, spur_path, rounds-Returns}
use vibranium_quadsquad.Router.Mesh.{
  Graph, Edge, Route, Error, keys, targets_of, usable, edge_weight, dijkstra, combine_paths,
  no_path, with_first, cancelled, find_k_shortest_paths, outcome,
}
use vibranium_quadsquad.Router.Mesh.Shortest.{IsBest, dijkstra-IsBest}

module _ (f : Float) (laws : AddLaws f) (g : Graph f) (source target : String)
    (positive : (u v : String) (e : Edge f.F)
      → In (v, e) (targets_of g.edges u)
      → f.rank f.zero ≤ f.rank (edge_weight f g e))
    (source_known : has source (keys g.nodes) ≡ true)
    (target_known : has target (keys g.nodes) ≡ true) (named : has "" (keys g.nodes) ≡ false) where
  -- An edge of the graph that is active, as its end is.
  abbrev pub Hop : String → String → Type 0
  Hop = Link f (keys g.nodes) (targets_of g.edges) (usable f g [] []) (edge_weight f g)

  -- A route from the source to the target along active edges.
  abbrev pub Joins : Route f.F → Type 0
  Joins r = Begins source r.nodes × Leads Hop target r.nodes

  usable_free :
      (edges_out nodes_out : List String) (u v : String) (e : Edge f.F)
      → usable f g edges_out nodes_out u v e ≡ true
      → usable f g [] [] u v e ≡ true
  unfolding usable
  usable_free edges_out nodes_out u v e h = ground arith

  found-Leads :
      (edges_out nodes_out : List String) (spur : String)
      → has spur (keys g.nodes) ≡ true
      → (es : List (Edge f.F)) (ns : List String)
      → Walk f
          (keys g.nodes)
          (targets_of g.edges)
          (usable f g edges_out nodes_out)
          (edge_weight f g)
          spur
          target
          es
          ns
      → Begins spur (reverse_onto ns []) × Leads Hop target (reverse_onto ns [])
  found-Leads edges_out nodes_out spur known es ns w =
      let (begins, leads) =
        nodes-Leads f (keys g.nodes) (targets_of g.edges) (usable f g edges_out nodes_out)
          (edge_weight f g) spur known target es ns w in
      (
        begins,
        Leads-map
            (Link f (keys g.nodes) (targets_of g.edges) (usable f g edges_out nodes_out)
              (edge_weight f g))
            Hop target
            (λ u v l. record {
              from_known = l.from_known;
              edge = l.edge;
              arc = record {
                listed = l.arc.listed;
                allowed = usable_free edges_out nodes_out u v l.edge l.arc.allowed;
                known = l.arc.known;
              };
            })
            (reverse_onto ns []) leads,
      )

  dijkstra_excluded :
      (edges_out nodes_out : List String) (spur : String)
      → (has spur nodes_out || has target nodes_out) ≡ true
      → dijkstra f g spur target edges_out nodes_out ≡ some none
  unfolding dijkstra
  dijkstra_excluded edges_out nodes_out spur h = ground arith

  -- A search from a known node ends: with nothing, or with a best route along active edges.
  dijkstra-Leads :
      (edges_out nodes_out : List String) (spur : String)
      → has spur (keys g.nodes) ≡ true
      → (dijkstra f g spur target edges_out nodes_out ≡ some none)
        ⊎ ((r : Route f.F) × (dijkstra f g spur target edges_out nodes_out ≡ some (some r))
            × (Begins spur r.nodes × Leads Hop target r.nodes))
  dijkstra-Leads edges_out nodes_out spur known =
      elim (Bool-cases (has spur nodes_out || has target nodes_out)) [
        | inl shut ↦ inl (dijkstra_excluded edges_out nodes_out spur shut)
        | inr free ↦
            elim (dijkstra-IsBest f laws g edges_out nodes_out spur target
              (λ u v e m _. positive u v e m) known named target_known (ground arith)
              (ground arith)) [
                | inl (none_, _) ↦ inl none_
                | inr (r, e, (best, _, _)) ↦ inr (
                  r,
                  e,
                  subst (λ (ns : List String). Begins spur ns × Leads Hop target ns)
                      (sym best.same_nodes)
                      (found-Leads edges_out nodes_out spur known best.walk_edges best.walk_nodes
                        best.is_walk),
                )
              ]
      ]

  abbrev Search_again : List String → List String → String → Option (Option (Route f.F))
  Search_again edges_out nodes_out spur = dijkstra f g spur target edges_out nodes_out

  spur-Joins :
      (done : ℕ → Bool)
      → Extendable f
          (λ r. r.nodes)
          (λ r. r.total_weight)
          (combine_paths f g)
          Search_again
          done
          Joins
  unfolding combine_paths
  spur-Joins done last before spur next rest excluded (begins, leads) e =
      let begins' = subst (Begins source) e begins in
      let leads' = subst (Leads Hop target) e leads in
      elim (dijkstra-Leads excluded before spur
        (Leads-link Hop target before spur next rest leads').from_known) [
          | inl n ↦ nothing n
          | inr (r, found, (first, way)) ↦
              spur_path r found (
                spur-Leads Hop source target before spur next rest r.nodes begins' leads' first way)
        ]

  -- What a call for `k` routes returns: a best route first, then other routes along active edges, no
  -- two with the same nodes, `k` at most; or none, and then there is no route of finite cost.
  pub record Offers (k : ℕ) (o : Option (List (Route f.F) × Option (Error f))) : Type 0 where
    pub first : Route f.F
    pub more : List (Route f.F)
    pub error : Option (Error f)
    pub returned : o ≡ some (first ∷ more, error)
    pub first_best :
        IsBest f laws g [] [] source target (λ u v e m _. positive u v e m) source_known named first
    pub all_join : All Joins (first ∷ more)
    pub all_distinct : Distinct f (λ r. r.nodes) (λ r. r.total_weight) (first ∷ more)
    pub at_most : length (first ∷ more) ≤ 1 + (k - 1)

  -- Whether the loop was cancelled, as the error that is returned.
  flag : Bool → Option (Error f)
  flag b = if b then some cancelled else none

  outcome-flag : (rs : List (Route f.F)) (b : Bool) → outcome f (some (rs, b)) ≡ some (rs, flag b)
  unfolding flag
  outcome-flag rs true = refl
  outcome-flag rs false = refl

  with_first-Offers :
      (k : ℕ) (done : ℕ → Bool) (r : Route f.F)
      → dijkstra f g source target [] [] ≡ some (some r)
      → IsBest f laws g [] [] source target (λ u v e m _. positive u v e m) source_known named r
      → Offers k (with_first f g done k target (some (some r)))
  with_first-Offers k done r e best =
      let j : Joins r =
        subst (λ (ns : List String). Begins source ns × Leads Hop target ns) (sym best.0.same_nodes)
          (found-Leads [] [] source source_known best.0.walk_edges best.0.walk_nodes
            best.0.is_walk) in
      let all =
        rounds-Returns f (λ r. r.nodes) (λ r. r.total_weight) (combine_paths f g) Search_again done
          Joins (spur-Joins done) (k - 1) (r ∷ []) [] r j
          (record {
            good = (j, tt);
            good_candidates = tt;
            distinct = (tt, tt);
            distinct_candidates = tt;
            apart = tt;
          }) in
      (record {
        first = r;
        more = all.more;
        error = flag all.cancelled;
        returned =
            ap (outcome f) all.returned
            ∙ outcome-flag all.paths all.cancelled
            ∙ ap (λ z. some (z, flag all.cancelled)) all.kept;
        first_best = best;
        all_join = subst (All Joins) all.kept all.all_good;
        all_distinct =
            subst (Distinct f (λ r. r.nodes) (λ r. r.total_weight)) all.kept all.all_distinct;
        at_most = subst (λ (l : List (Route f.F)). length l ≤ 1 + (k - 1)) all.kept all.at_most;
      })

  -- Between two nodes of the graph, when no node is named by the empty string and no edge has a
  -- negative weight, `FindKShortestPaths` ends: it returns a route of least cost first, then other
  -- routes from the source to the target along active edges, no two with the same nodes, `k` in all
  -- at most (one, if `k` is 0); or it reports that there is no path, when the first search finds none.
  pub find_k_shortest_paths-Offers :
      (k : ℕ) (done : ℕ → Bool)
      → ((find_k_shortest_paths f g k done source target ≡ some ([], some no_path))
          × (dijkstra f g source target [] [] ≡ some none))
        ⊎ Offers k (find_k_shortest_paths f g k done source target)
  unfolding find_k_shortest_paths
  find_k_shortest_paths-Offers k done =
      rw (source_known, target_known)
        (elim (dijkstra-IsBest f laws g [] [] source target (λ u v e m _. positive u v e m)
          source_known named target_known refl refl) [
            | inl (n, _) ↦ inl (ap (with_first f g done k target) n, n)
            | inr (r, e, best) ↦ inr (
                subst
                  (λ (o : Option (Option (Route f.F))). Offers k (with_first f g done k target o))
                  (sym e) (with_first-Offers k done r e best))
          ])
