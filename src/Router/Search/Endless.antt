-- ===== src/Router/Search/Endless.antt =====
-- The predecessors that a search leaves, whatever the weights, and when the way back along them has
-- no end. No law of floats is used here.
use vibranium_quadsquad.Base.{
  ℕ, zero, suc, ◌<◌, String, Bool, true, false, none, some, List, [], ◌∷◌, ◌≡◌, refl, sym, ap, ◌∙◌,
  subst, ◌⊎◌, inl, inr, arith, has, str_eq, eq_iff, Bool-cases, Option-cases,
}
use vibranium_quadsquad.Base.Float.{Float, lt}
use vibranium_quadsquad.Router.Search.{
  Search, visit, pop_min, improved, relax, relax_edge, loop, start, trace,
}
use vibranium_quadsquad.Router.Search.Walk.{In}
use vibranium_quadsquad.Router.Search.Ends.{relax_edge-visited}
use vibranium_quadsquad.Router.Search.Heap.{Pops, pop_min-Pops}

abbrev pub IsNamed : String → Type 0
IsNamed x = str_eq x "" ≡ false

module _ (f : Float) {E : Type 0} (nodes : List String) (out : String → List (String × E))
    (usable : String → String → E → Bool) (weight : E → f.F) (source : String) where
  -- Reached from another node, or the source.
  abbrev HasBack : Search f.F E → String → Type 0
  HasBack s x = (source ≡ x) ⊎ IsNamed (s.prev x)

  -- Nodes that were reached have a predecessor, but for the source, which has one once its distance
  -- is below zero; predecessors were visited.
  record Chained (s : Search f.F E) : Type 0 where
    queued : (x : String) (d : f.F) → In (x, d) s.queue → IsNamed x × HasBack s x
    reached : (x : String) → has x s.visited ≡ true → IsNamed x × HasBack s x
    back : (x : String) → IsNamed (s.prev x) → has (s.prev x) s.visited ≡ true
    lowered : f.rank (s.dist source) < f.rank f.zero → IsNamed (s.prev source)

  start-Chained : IsNamed source → Chained (start f nodes out usable weight source)
  unfolding start
  start-Chained h = record {
    queued = λ x d m. elim m [
      | inl e ↦
          subst (λ (z : String). IsNamed z × HasBack (start f nodes out usable weight source) z)
            (sym (ap (λ (z : String × f.F). z.0) e)) (h, inl refl)
      | inr none_left ↦ absurd none_left
    ];
    reached = λ x v. absurd (ground arith);
    back = λ x k. absurd (ground arith);
    lowered = λ k. absurd (ground (arith, eq_iff source source));
  }

  module _ (u v : String) (e : E) (d : f.F) (s : Search f.F E) (c : Chained s)
      (target_named : IsNamed v) (is_visited : has u s.visited ≡ true) where
    abbrev better : Search f.F E
    better = improved f nodes out usable weight u v e d s

    u-IsNamed : IsNamed u
    u-IsNamed = (c.reached u is_visited).0

    better-HasBack : (x : String) → HasBack s x → HasBack better x
    better-HasBack x b = elim (Bool-cases (str_eq v x)) [
      | inl same ↦ inr (rw same u-IsNamed)
      | inr other ↦ elim b [ inl e ↦ inl e | inr k ↦ inr (rw other k) ]
    ]

    better-Chained : Chained better
    better-Chained = record {
      queued = λ x w m. elim m [
        | inl e ↦
            subst (λ (z : String). IsNamed z × HasBack better z)
              (sym (ap (λ (z : String × f.F). z.0) e))
              (target_named, inr (rw ((eq_iff v v).1 refl) u-IsNamed))
        | inr m' ↦ ((c.queued x w m').0, better-HasBack x (c.queued x w m').1)
      ];
      reached = λ x y. ((c.reached x y).0, better-HasBack x (c.reached x y).1);
      back = λ x. elim (Bool-cases (str_eq v x)) [
        | inl same ↦ rw same (λ k. is_visited)
        | inr other ↦ rw other (λ k. c.back x k)
      ];
      lowered = elim (Bool-cases (str_eq v source)) [
        | inl same ↦ rw same (λ k. u-IsNamed)
        | inr other ↦ rw other (λ k. c.lowered k)
      ];
    }

  relax_edge-Chained :
      (u v : String) (e : E) (s : Search f.F E)
      → Chained s
      → IsNamed v
      → has u s.visited ≡ true
      → Chained (relax_edge f nodes out usable weight u v e s)
  unfolding relax_edge
  relax_edge-Chained u v e s c target_named seen = elim (Bool-cases (usable u v e)) [
    | inr skip ↦ rw skip c
    | inl take ↦ elim (Bool-cases (lt f (f.add (s.dist u) (weight e)) (s.dist v))) [
      | inr longer ↦ rw (take, longer) c
      | inl shorter ↦
          rw (take, shorter)
            (better-Chained u v e (f.add (s.dist u) (weight e)) s c target_named seen)
    ]
  ]

  relax-Chained :
      (u : String) (es : List (String × E)) (s : Search f.F E)
      → ((v : String) (e : E) → In (v, e) es → IsNamed v)
      → Chained s
      → has u s.visited ≡ true
      → Chained (relax f nodes out usable weight u es s)
  unfolding relax
  relax-Chained u [] s names c seen = c
  relax-Chained u ((v, e) ∷ es) s names c seen =
      relax-Chained u es (relax_edge f nodes out usable weight u v e s) (λ w b m. names w b (inr m))
        (relax_edge-Chained u v e s c (names v e (inl refl)) seen)
        (ap (has u) (relax_edge-visited f nodes out usable weight u v e s) ∙ seen)

  skip-Chained :
      (s : Search f.F E) (x : String × f.F) (q : List (String × f.F))
      → Pops f s.queue x q
      → Chained s
      → Chained (record s { queue = q })
  skip-Chained s x q pops c = record {
    queued = λ y d m. c.queued y d (pops.rest_inside (y, d) m);
    reached = c.reached;
    back = c.back;
    lowered = c.lowered;
  }

  visit-Chained :
      (s : Search f.F E) (u : String) (d : f.F) (q : List (String × f.F))
      → Pops f s.queue (u, d) q
      → Chained s
      → Chained (visit f nodes out usable weight u q s)
  visit-Chained s u d q pops c = record {
    queued = λ y w m. c.queued y w (pops.rest_inside (y, w) m);
    reached = λ x y. elim (Bool-cases (str_eq u x)) [
      | inl same ↦
          subst (λ (z : String). IsNamed z × HasBack s z) ((eq_iff u x).0 same)
            (c.queued u d pops.inside)
      | inr other ↦ c.reached x (ground (arith, eq_iff u x, eq_iff x u))
    ];
    back = λ x k. ground (arith, c.back x k);
    lowered = c.lowered;
  }

  -- On the way back from a visited node there is always another one.
  goes_on :
      (t : Search f.F E)
      → Chained t
      → IsNamed (t.prev source)
      → (x : String) → has x t.visited ≡ true
      → (fuel : ℕ) (ns : List String) (es : List E)
      → trace f nodes out usable weight fuel t.prev t.prev_edge x ns es ≡ none
  unfolding trace
  goes_on t c first x seen zero ns es = refl
  goes_on t c first x seen (suc fuel) ns es =
      let (x_named, b) = c.reached x seen in
      let before : IsNamed (t.prev x) = elim b [
        | inl e ↦ subst (λ z. IsNamed (t.prev z)) e first
        | inr k ↦ k
      ] in
      rw x_named (
        goes_on t c first (t.prev x) (c.back x before) fuel (x ∷ ns)
          (elim (t.prev_edge x) [ none ↦ es | some e ↦ e ∷ es ]))

  module _ (names : (u v : String) (e : E) → In (v, e) (out u) → IsNamed v) where
    loop-Chained :
        (n : ℕ) (target : String) (s t : Search f.F E)
        → Chained s
        → loop f nodes out usable weight n target s ≡ some t
        → Chained t
    unfolding loop
    loop-Chained zero target s t c ended = absurd (ground arith)
    loop-Chained (suc n) target s t c ended = elim (Option-cases (pop_min f s.queue)) [
      | inl none_left ↦ subst Chained (ground arith) c
      | inr (((u, d), q), popped) ↦
          let pops : Pops f s.queue (u, d) q = pop_min-Pops f s.queue q (u, d) popped in
          elim (Bool-cases (has u s.visited)) [
            | inl old ↦
                loop-Chained n target (record s { queue = q }) t (skip-Chained s (u, d) q pops c)
                  (ground arith)
            | inr new ↦
                let at_u = visit f nodes out usable weight u q s in
                let chained = visit-Chained s u d q pops c in
                elim (Bool-cases (str_eq u target)) [
                  | inl hit ↦ subst Chained (ground arith) chained
                  | inr miss ↦
                      loop-Chained n target (relax f nodes out usable weight u (out u) at_u) t
                        (relax-Chained u (out u) at_u (names u) chained
                          (ground (arith, eq_iff u u)))
                        (ground arith)
                ]
          ]
    ]

    -- When a search, in a graph none of whose edges leads to the empty name and from a source
    -- that is not empty either, has made the distance of its source negative, then the path to a
    -- target that it visited is never complete, whatever the fuel: the way back along the
    -- predecessors has no end.
    pub trace-endless :
        IsNamed source
        → (n : ℕ) (target : String) (t : Search f.F E)
        → loop f nodes out usable weight n target (start f nodes out usable weight source) ≡ some t
        → f.rank (t.dist source) < f.rank f.zero
        → has target t.visited ≡ true
        → (fuel : ℕ) (ns : List String) (es : List E)
        → trace f nodes out usable weight fuel t.prev t.prev_edge target ns es ≡ none
    trace-endless source_named n target t ended below =
        let c =
          loop-Chained n target (start f nodes out usable weight source) t
            (start-Chained source_named) ended in
        goes_on t c (c.lowered below) target
