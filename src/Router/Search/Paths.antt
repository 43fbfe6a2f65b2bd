-- ===== src/Router/Search/Paths.antt =====
-- What the search returns: a shortest walk over usable edges, or nothing when there is none.
use vibranium_quadsquad.Base.{
  ℕ, zero, suc, ◌≤◌, String, Bool, true, false, Option, some, none, List, [], ◌∷◌, ◌≡◌, ◌≢◌, refl,
  sym, ap, ◌∙◌, subst, ◌⊎◌, inl, inr, arith, has, str_eq, eq_iff, Bool-cases, length, ◌==◌, eq→same,
}
use vibranium_quadsquad.Base.Float.{Float, AddLaws}
use vibranium_quadsquad.Router.Search.{
  Search, Found, trace, conclude, search, loop, start, degrees, first_dist,
}
use vibranium_quadsquad.Router.Search.Walk.{
  Arc, Walk, here, step, length_of, reverse_onto, Walk-known,
}
use vibranium_quadsquad.Router.Search.Invariant.{Ordered, Rooted}
use vibranium_quadsquad.Router.Search.Relax.{IsPositive}
use vibranium_quadsquad.Router.Search.Loop.{Final, search_loop-ends}

module _ (f : Float) {E : Type 0} (nodes : List String) (out : String → List (String × E))
    (usable : String → String → E → Bool) (weight : E → f.F) (source : String) (laws : AddLaws f)
    (positive : IsPositive f nodes out usable weight source laws)
    (source_known : has source nodes ≡ true) (named : has "" nodes ≡ false) where
  abbrev pub Way : String → List E → List String → Type 0
  Way v es ns = Walk f nodes out usable weight source v es ns

  abbrev pub total_of : List E → f.F
  total_of = length_of f nodes out usable weight

  first_inf :
      (x : String)
      → x ≢ source
      → has x nodes ≡ true
      → f.rank (first_dist f nodes out usable weight source x) ≡ f.rank f.inf
  first_inf x ne k = ground (arith, eq_iff source x)

  module _ (target : String) (t : Search f.F E)
      (final : Final f nodes out usable weight source laws positive target t) where
    -- A walk is no shorter than the distance of its end, or than that of the target.
    abbrev Bounded : String → f.F → Type 0
    Bounded v l = (f.rank (t.dist v) ≤ f.rank l) ⊎ (f.rank (t.dist target) ≤ f.rank l)

    Bounded-step :
        (u v : String) (e : E) (l : f.F)
        → has u nodes ≡ true
        → Arc f nodes out usable weight u v e
        → Bounded u l
        → Bounded v (f.add l (weight e))
    Bounded-step u v e l known a (inr far) =
        inr (omega (arith, laws.le-add l (weight e) (positive u v e a.listed a.allowed)))
    Bounded-step u v e l known a (inl near) =
        let grows = laws.le-add l (weight e) (positive u v e a.listed a.allowed) in
        elim (Bool-cases (str_eq u target)) [
          | inl same ↦
              inr (omega (arith, grows, ap (λ z. f.rank (t.dist z)) ((eq_iff u target).0 same)))
          | inr other ↦ elim (final.inv.covered u) [
            | inl y ↦ inl (
                omega (
                  arith,
                  final.closed u v e y (λ p. absurd (ground (arith, eq_iff u target))) a.listed
                      a.allowed,
                  laws.add_mono (t.dist u) l (weight e) near,
                ))
            | inr (inl (c, m, p)) ↦ inr (omega (arith, grows, (final.beyond u c m).1, ap f.rank p))
            | inr (inr fresh) ↦ inl (
                omega (
                  arith,
                  grows,
                  final.inv.finite v a.known,
                  ap f.rank fresh.2,
                  first_inf u fresh.0 known,
                ))
          ]
        ]

    walk-Bounded :
        (v : String) (es : List E) (ns : List String) → Way v es ns → Bounded v (total_of es)
    walk-Bounded v _ _ (here e) = inl (omega (arith, ap f.rank (ap t.dist e ∙ final.inv.at_source)))
    walk-Bounded v _ _ (step {u} {e} {es} {ns} w a) =
        Bounded-step u v e (total_of es)
          (Walk-known f nodes out usable weight source source_known u es ns w) a
          (walk-Bounded u es ns w)

    Traces : (x : String) → ℕ → List String → List E → Type 0
    Traces x n ns es =
        (ws : List String) × (cs : List E) × (trace f nodes out usable weight n t.prev t.prev_edge x
            ns es
          ≡ some (reverse_onto ws ns, reverse_onto cs es))
        × Way x cs ws
        × (total_of cs ≡ t.dist x)

    named_lem : (x : String) → has x t.visited ≡ true → str_eq x "" ≡ false
    named_lem x h = elim (Bool-cases (str_eq x "")) [
      | inr n ↦ n
      | inl y ↦
          absurd
            (ground (arith, final.inv.visited_known x h, ap (λ z. has z nodes) ((eq_iff x "").0 y)))
    ]

    -- One step back: from the source, or along an edge whose start can be traced.
    Traces-step :
        (x : String) (n : ℕ) (ns : List String) (es : List E)
        → has x t.visited ≡ true
        → Rooted f nodes out usable weight source t x
        → ((e : E) → has (t.prev x) t.visited ≡ true → Traces (t.prev x) (suc n) (x ∷ ns) (e ∷ es))
        → Traces x (suc (suc n)) ns es
    unfolding Traces trace
    Traces-step x n ns es h (inl r) before =
        (x ∷ [], [], ground (arith, named_lem x h, eq_iff (t.prev x) ""), here r.0, sym r.3)
    Traces-step x n ns es h (inr (e, r)) before =
        let (ws, cs, p, w, l) = before e r.1 in
        (
          x ∷ ws,
          e ∷ cs,
          ground (arith, named_lem x h),
          step w r.2,
          ap (λ z. f.add z (weight e)) l ∙ sym r.3,
        )

    -- Back along `prev`, from a visited node.
    visited-Traces :
        (vs : List String) (x : String) (n : ℕ) (ns : List String) (es : List E)
        → ((y : String) → has y vs ≡ true → has y t.visited ≡ true)
        → Ordered t.prev vs
        → has x vs ≡ true
        → length vs ≤ n
        → Traces x (suc n) ns es
    visited-Traces [] x n ns es sub o h fuel = absurd (ground arith)
    visited-Traces (y ∷ vs) x zero ns es sub o h fuel = absurd (omega arith)
    visited-Traces (y ∷ vs) x (suc n) ns es sub o h fuel = elim (Bool-cases (str_eq y x)) [
      | inr other ↦
          visited-Traces vs x (suc n) ns es (λ z k. sub z (ground arith)) o.1 (ground arith)
            (omega arith)
      | inl same ↦ Traces-step x n ns es (sub x h) (final.inv.visited_rooted x (sub x h)) λ e k.
          visited-Traces vs (t.prev x) n (x ∷ ns) (e ∷ es) (λ z k'. sub z (ground arith)) o.1
            (ground (
              arith,
              o.0,
              named_lem (t.prev x) k,
              ap t.prev ((eq_iff y x).0 same),
              eq_iff (t.prev x) "",
            ))
            (omega arith)
    ]

  -- What the search returns for a target: a shortest walk to it, or nothing when every walk to it
  -- is infinitely long.
  pub record IsShortest (target : String) (p : Found f.F E) : Type 0 where
    pub walk_edges : List E
    pub walk_nodes : List String
    pub is_walk : Way target walk_edges walk_nodes
    pub same_nodes : p.nodes ≡ reverse_onto walk_nodes []
    pub same_edges : p.edges ≡ reverse_onto walk_edges []
    pub same_total : p.total ≡ total_of walk_edges
    pub optimal :
        (es : List E) (ns : List String) → Way target es ns → f.rank p.total ≤ f.rank (total_of es)

  abbrev pub Returns : String → Option (Option (Found f.F E)) → Type 0
  Returns target none = ⊥
  Returns target (some none) =
      (es : List E) (ns : List String) → Way target es ns → f.rank f.inf ≤ f.rank (total_of es)
  Returns target (some (some p)) = IsShortest target p

  module _ (target : String) (t : Search f.F E)
      (final : Final f nodes out usable weight source laws positive target t) where
    no_shorter :
        (es : List E) (ns : List String)
        → Way target es ns
        → f.rank (t.dist target) ≤ f.rank (total_of es)
    no_shorter es ns w = elim (walk-Bounded target t final target es ns w) [ inl h ↦ h | inr h ↦ h ]

    -- A target at a finite distance was visited.
    target_visited :
        has target nodes ≡ true
        → (f.rank (t.dist target) == f.rank f.inf) ≡ false
        → has target t.visited ≡ true
    target_visited known ends = elim (final.inv.covered target) [
      | inl y ↦ y
      | inr (inl (c, m, p)) ↦ (final.beyond target c m).0
      | inr (inr fresh) ↦ absurd (ground (arith, ap f.rank fresh.2, first_inf target fresh.0 known))
    ]

    conclude-Returns :
        has target nodes ≡ true → Returns target (conclude f nodes out usable weight target t)
    unfolding conclude Traces
    conclude-Returns known = elim (Bool-cases (f.rank (t.dist target) == f.rank f.inf)) [
      | inl far ↦ rw far (λ es ns w. omega (arith, no_shorter es ns w, eq→same _ _ far))
      | inr near ↦
          let (ws, cs, p, w, l) =
            visited-Traces target t final t.visited target (length t.visited) [] [] (λ z k. k)
              final.inv.ordered (target_visited known near) (omega arith) in
          rw (near, p)
            (record {
              walk_edges = cs;
              walk_nodes = ws;
              is_walk = w;
              same_nodes = refl;
              same_edges = refl;
              same_total = sym l;
              optimal = no_shorter;
            })
    ]

  search-eq-conclude :
      (target : String) (t : Search f.F E)
      → loop f nodes out usable weight
          (suc (suc (degrees f nodes out usable weight nodes)))
          target
          (start f nodes out usable weight source)
        ≡ some t
      → search f nodes out usable weight source target ≡ conclude f nodes out usable weight target t
  unfolding search
  search-eq-conclude target t e = ground (arith, e)

  -- The search returns, within its fuel, a shortest walk or the fact that there is none.
  pub search-Returns :
      (target : String)
      → has target nodes ≡ true
      → Returns target (search f nodes out usable weight source target)
  search-Returns target known =
      let (t, e, final) =
        search_loop-ends f nodes out usable weight source laws positive target source_known in
      subst (Returns target) (sym (search-eq-conclude target t e))
        (conclude-Returns target t final known)
