-- ===== src/Router/Country/Alternatives.antt =====
-- `FindKShortestPaths` of country_router.go: what the paths that it returns have in common.
use vibranium_quadsquad.Base.{
  ℕ, ◌+◌, ◌-◌, ◌≤◌, String, Bool, true, false, Option, some, none, List, [], ◌∷◌, ◌++◌, ◌≡◌, refl,
  sym, ap, subst, ◌∙◌, ◌⊎◌, inl, inr, arith, has, length, Bool-cases, ◌||◌, if◌then◌else◌,
}
use vibranium_quadsquad.Base.Int.{pos, sub_ℕ, leb_ℤ}
use vibranium_quadsquad.Base.Float.{Float, AddLaws}
use vibranium_quadsquad.Router.Search.Walk.{In, Walk, reverse_onto}
use vibranium_quadsquad.Router.Search.Chain.{Link, nodes-Leads}
use vibranium_quadsquad.Router.Yen.Chains.{Begins, Leads, Leads-map, Leads-link, spur-Leads}
use vibranium_quadsquad.Router.Yen.Distinct.{All, Distinct}
use vibranium_quadsquad.Router.Yen.Rounds.{Extendable, nothing, spur_path, rounds-Returns}
use vibranium_quadsquad.Router.Mesh.{keys, targets_of}
use vibranium_quadsquad.Router.Country.{
  CountryGraph, CountryEdge, CountryPath, CountryError, tradable, trade_weight, country_dijkstra,
  combine_country_paths, calculate_path_fees, hop_fee_percent, no_path, cancelled, from_first,
  find_country_paths, answer,
}
use vibranium_quadsquad.Router.Country.Cheapest.{IsCheapest, country_dijkstra-IsCheapest}

has-append : (v : String) (a b : List String) → has v (a ++ b) ≡ (has v a || has v b)
has-append v [] b = refl
has-append v (x ∷ a) b = ground (arith, has-append v a b)

abbrev no_hops : (f : Float) → CountryPath f.F → CountryPath f.F
no_hops f p = record p {
  hop_count = sub_ℕ (length p.nodes) 1;
  final_amount = f.lit 1 0;
  total_fee_percent = f.zero;
}

abbrev some_hops : (f : Float) → (f.F → f.F → f.F) → CountryPath f.F → CountryPath f.F
some_hops f pow p =
    let final =
      pow (f.sub (f.lit 1 0) (hop_fee_percent f pow)) (f.of_ℤ (sub_ℕ (length p.nodes) 1)) in
    record p {
      hop_count = sub_ℕ (length p.nodes) 1;
      final_amount = final;
      total_fee_percent = f.mul (f.sub (f.lit 1 0) final) (f.lit 100 0);
    }

fees_cases :
    (f : Float) (pow : f.F → f.F → f.F) (p : CountryPath f.F)
    → ((calculate_path_fees f pow p ≡ no_hops f p)
        × (calculate_path_fees f pow (no_hops f p) ≡ no_hops f p))
      ⊎ ((calculate_path_fees f pow p ≡ some_hops f pow p)
          × (calculate_path_fees f pow (some_hops f pow p) ≡ some_hops f pow p))
unfolding calculate_path_fees
fees_cases f pow p = elim (Bool-cases (leb_ℤ (sub_ℕ (length p.nodes) 1) (pos 0))) [
  | inl short ↦ inl (rw short refl, rw short refl)
  | inr long ↦ inr (rw long refl, rw long refl)
]

-- The fees depend on the nodes alone: working them out again changes nothing.
fees_again :
    (f : Float) (pow : f.F → f.F → f.F) (p : CountryPath f.F)
    → calculate_path_fees f pow (calculate_path_fees f pow p) ≡ calculate_path_fees f pow p
fees_again f pow p = elim (fees_cases f pow p) [
  | inl (e, again) ↦ ap (calculate_path_fees f pow) e ∙ again ∙ sym e
  | inr (e, again) ↦ ap (calculate_path_fees f pow) e ∙ again ∙ sym e
]

fees-nodes :
    (f : Float) (pow : f.F → f.F → f.F) (p : CountryPath f.F)
    → (calculate_path_fees f pow p).nodes ≡ p.nodes
fees-nodes f pow p = elim (fees_cases f pow p) [
  | inl (e, _) ↦ ap (λ r. r.nodes) e
  | inr (e, _) ↦ ap (λ r. r.nodes) e
]

module _ (f : Float) (laws : AddLaws f) (pow : f.F → f.F → f.F) (g : CountryGraph f.F)
    (source target : String) (blocked_codes : List String)
    (positive : (u v : String) (e : CountryEdge f.F)
      → In (v, e) (targets_of g.edges u)
      → f.rank f.zero ≤ f.rank (trade_weight f pow g e))
    (source_known : has source (keys g.nodes) ≡ true)
    (target_known : has target (keys g.nodes) ≡ true) (named : has "" (keys g.nodes) ≡ false)
    (source_open : has source (blocked_codes ++ g.blocked) ≡ false)
    (target_open : has target (blocked_codes ++ g.blocked) ≡ false) where
  abbrev pub blocked : List String
  blocked = blocked_codes ++ g.blocked

  -- An active trade to a country that is not blocked.
  abbrev pub Hop : String → String → Type 0
  Hop =
      Link f (keys g.nodes) (targets_of g.edges) (tradable f pow [] blocked) (trade_weight f pow g)

  -- A path from the source to the target along such trades, with the fees of its hops.
  abbrev pub Joins : CountryPath f.F → Type 0
  Joins r = (Begins source r.nodes × Leads Hop target r.nodes) × (calculate_path_fees f pow r ≡ r)

  priced-Joins :
      (r : CountryPath f.F)
      → Begins source r.nodes × Leads Hop target r.nodes
      → Joins (calculate_path_fees f pow r)
  priced-Joins r h = (
    subst (λ (ns : List String). Begins source ns × Leads Hop target ns) (sym (fees-nodes f pow r))
        h,
    fees_again f pow r,
  )

  tradable_free :
      (edges_out nodes_out : List String) (u v : String) (e : CountryEdge f.F)
      → tradable f pow edges_out (blocked ++ nodes_out) u v e ≡ true
      → tradable f pow [] blocked u v e ≡ true
  unfolding tradable
  tradable_free edges_out nodes_out u v e h = ground (arith, has-append v blocked nodes_out)

  found-Leads :
      (edges_out nodes_out : List String) (spur : String)
      → has spur (keys g.nodes) ≡ true
      → (es : List (CountryEdge f.F)) (ns : List String)
      → Walk f
          (keys g.nodes)
          (targets_of g.edges)
          (tradable f pow edges_out (blocked ++ nodes_out))
          (trade_weight f pow g)
          spur
          target
          es
          ns
      → Begins spur (reverse_onto ns []) × Leads Hop target (reverse_onto ns [])
  found-Leads edges_out nodes_out spur known es ns w =
      let (begins, leads) =
        nodes-Leads f (keys g.nodes) (targets_of g.edges)
          (tradable f pow edges_out (blocked ++ nodes_out)) (trade_weight f pow g) spur known target
          es ns w in
      (
        begins,
        Leads-map
            (Link f (keys g.nodes) (targets_of g.edges)
              (tradable f pow edges_out (blocked ++ nodes_out)) (trade_weight f pow g))
            Hop target
            (λ u v l. record {
              from_known = l.from_known;
              edge = l.edge;
              arc = record {
                listed = l.arc.listed;
                allowed = tradable_free edges_out nodes_out u v l.edge l.arc.allowed;
                known = l.arc.known;
              };
            })
            (reverse_onto ns []) leads,
      )

  country_dijkstra_excluded :
      (edges_out nodes_out : List String) (spur : String)
      → (has spur nodes_out || has target nodes_out) ≡ true
      → country_dijkstra f pow g spur target edges_out nodes_out ≡ some none
  unfolding country_dijkstra
  country_dijkstra_excluded edges_out nodes_out spur h = ground arith

  -- A search from a known country ends: with nothing, or with a path along trades.
  country_dijkstra-Leads :
      (edges_out nodes_out : List String) (spur : String)
      → has spur (keys g.nodes) ≡ true
      → (country_dijkstra f pow g spur target edges_out (blocked ++ nodes_out) ≡ some none)
        ⊎ ((r : CountryPath f.F) × (country_dijkstra f pow g spur target edges_out
                (blocked ++ nodes_out)
              ≡ some (some r))
            × (Begins spur r.nodes × Leads Hop target r.nodes))
  country_dijkstra-Leads edges_out nodes_out spur known =
      let shut = blocked ++ nodes_out in
      elim (Bool-cases (has spur shut || has target shut)) [
        | inl out ↦ inl (country_dijkstra_excluded edges_out shut spur out)
        | inr free ↦
            elim (country_dijkstra-IsCheapest f laws pow g edges_out shut spur target
              (λ u v e m _. positive u v e m) known named target_known (ground arith)
              (ground arith)) [
                | inl (none_, _) ↦ inl none_
                | inr (r, e, (es, best)) ↦ inr (
                  r,
                  e,
                  subst (λ (ns : List String). Begins spur ns × Leads Hop target ns)
                      (sym best.same_nodes)
                      (found-Leads edges_out nodes_out spur known best.walk_edges best.walk_nodes
                        best.is_walk),
                )
              ]
      ]

  abbrev Search_again : List String → List String → String → Option (Option (CountryPath f.F))
  Search_again edges_out nodes_out spur =
      country_dijkstra f pow g spur target edges_out (blocked ++ nodes_out)

  abbrev Combine : List String → CountryPath f.F → CountryPath f.F
  Combine root spur = calculate_path_fees f pow (combine_country_paths f pow g root spur)

  spur-Joins :
      (done : ℕ → Bool)
      → Extendable f (λ r. r.nodes) (λ r. r.total_weight) Combine Search_again done Joins
  unfolding combine_country_paths
  spur-Joins done last before spur next rest excluded ((begins, leads), _) e =
      let begins' = subst (Begins source) e begins in
      let leads' = subst (Leads Hop target) e leads in
      elim (country_dijkstra-Leads excluded before spur
        (Leads-link Hop target before spur next rest leads').from_known) [
          | inl n ↦ nothing n
          | inr (r, found, (first, way)) ↦ spur_path r found (
              priced-Joins (combine_country_paths f pow g (before ++ spur ∷ []) r) (
                spur-Leads Hop source target before spur next rest r.nodes begins' leads' first
                  way))
        ]

  -- What a call for `k` paths returns: a cheapest path first, with its fees, then other paths along
  -- trades between countries that are not blocked, no two with the same countries, `k` at most.
  pub record Offers (k : ℕ) (o : Option (List (CountryPath f.F) × Option (CountryError f pow)))
      : Type 0 where
    pub first : CountryPath f.F
    pub more : List (CountryPath f.F)
    pub error : Option (CountryError f pow)
    pub returned : o ≡ some (calculate_path_fees f pow first ∷ more, error)
    pub first_cheapest :
        IsCheapest f laws pow g [] blocked source target
          (λ u v e m _. positive u v e m)
          source_known
          named
          first
    pub all_join : All Joins (calculate_path_fees f pow first ∷ more)
    pub all_distinct :
        Distinct f (λ r. r.nodes) (λ r. r.total_weight) (calculate_path_fees f pow first ∷ more)
    pub at_most : length (calculate_path_fees f pow first ∷ more) ≤ 1 + (k - 1)

  -- Whether the loop was cancelled, as the error that is returned.
  flag : Bool → Option (CountryError f pow)
  flag b = if b then some cancelled else none

  answer-flag :
      (rs : List (CountryPath f.F)) (b : Bool) → answer f pow (some (rs, b)) ≡ some (rs, flag b)
  unfolding flag
  answer-flag rs true = refl
  answer-flag rs false = refl

  from_first-Offers :
      (k : ℕ) (done : ℕ → Bool) (r : CountryPath f.F)
      → IsCheapest f laws pow g [] blocked source target
          (λ u v e m _. positive u v e m)
          source_known
          named
          r
      → Offers k (from_first f pow g blocked done k target (some (some r)))
  from_first-Offers k done r best =
      let p : CountryPath f.F = calculate_path_fees f pow r in
      let way : Begins source r.nodes × Leads Hop target r.nodes =
        subst (λ (ns : List String). Begins source ns × Leads Hop target ns) (sym best.1.same_nodes)
          (nodes-Leads f (keys g.nodes) (targets_of g.edges) (tradable f pow [] blocked)
            (trade_weight f pow g) source source_known target best.1.walk_edges best.1.walk_nodes
            best.1.is_walk) in
      let j : Joins p = priced-Joins r way in
      let all =
        rounds-Returns f (λ r. r.nodes) (λ r. r.total_weight) Combine Search_again done Joins
          (spur-Joins done) (k - 1) (p ∷ []) [] p j
          (record {
            good = (j, tt);
            good_candidates = tt;
            distinct = (tt, tt);
            distinct_candidates = tt;
            apart = tt;
          }) in
      (record {
        first = r;
        more = all.more;
        error = flag all.cancelled;
        returned =
            ap (answer f pow) all.returned
            ∙ answer-flag all.paths all.cancelled
            ∙ ap (λ z. some (z, flag all.cancelled)) all.kept;
        first_cheapest = best;
        all_join = subst (All Joins) all.kept all.all_good;
        all_distinct =
            subst (Distinct f (λ r. r.nodes) (λ r. r.total_weight)) all.kept all.all_distinct;
        at_most =
            subst (λ (l : List (CountryPath f.F)). length l ≤ 1 + (k - 1)) all.kept all.at_most;
      })

  -- Between two countries of the graph that are not blocked, when no country has the empty code and
  -- no trade has a negative weight, `FindKShortestPaths` ends: it returns a path of least weight
  -- first, then other paths from the source to the target along active trades to countries that are
  -- not blocked, each with the fees of its hops, no two with the same countries, `k` in all at most
  -- (one, if `k` is 0); or it reports that there is no path, when the first search finds none.
  pub find_country_paths-Offers :
      (k : ℕ) (done : ℕ → Bool)
      → ((find_country_paths f pow g k done source target blocked_codes ≡ some ([], some no_path))
          × (country_dijkstra f pow g source target [] blocked ≡ some none))
        ⊎ Offers k (find_country_paths f pow g k done source target blocked_codes)
  unfolding find_country_paths
  find_country_paths-Offers k done =
      rw (source_open, target_open, source_known, target_known)
        (elim (country_dijkstra-IsCheapest f laws pow g [] blocked source target
          (λ u v e m _. positive u v e m) source_known named target_known source_open target_open) [
            | inl (n, _) ↦ inl (ap (from_first f pow g blocked done k target) n, n)
            | inr (r, e, best) ↦ inr (
                subst
                  (λ (o : Option (Option (CountryPath f.F))).
                    Offers k (from_first f pow g blocked done k target o))
                  (sym e) (from_first-Offers k done r best))
          ])
