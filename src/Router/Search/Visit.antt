-- ===== src/Router/Search/Visit.antt =====
-- One round of the main loop: the least entry of the queue is taken, and skipped or visited.
use vibranium_quadsquad.Base.{
  ◌≤◌, String, Bool, true, false, List, ◌∷◌, ◌≡◌, sym, ap, subst, ◌⊎◌, inl, inr, arith, has, str_eq,
  eq_iff, Bool-cases,
}
use vibranium_quadsquad.Base.Float.{Float}
use vibranium_quadsquad.Router.Search.{Search, visit}
use vibranium_quadsquad.Router.Search.Walk.{In}
use vibranium_quadsquad.Router.Search.Heap.{Pops}
use vibranium_quadsquad.Router.Search.Invariant.{Rooted, Queued, Covered, Inv, Active}

module _ (f : Float) {E : Type 0} (nodes : List String) (out : String → List (String × E))
    (usable : String → String → E → Bool) (weight : E → f.F) (source : String) (s : Search f.F E)
    (inv : Inv f nodes out usable weight source s) (u : String) (d : f.F) (q : List (String × f.F))
    (pops : Pops f s.queue (u, d) q) where
  -- An entry of a node that was visited before is dropped.
  Covered-skip :
      (x : String)
      → has u s.visited ≡ true
      → Covered f nodes out usable weight source (record s { queue = q }) x
  Covered-skip x old = elim (inv.covered x) [
    | inl y ↦ inl y
    | inr (inr fresh) ↦ inr (inr fresh)
    | inr (inl (c, m, p)) ↦ elim (pops.kept (x, c) m) [
      | inl same ↦
          inl (subst (λ z. has z s.visited ≡ true) (sym (ap (λ (r : String × f.F). r.0) same)) old)
      | inr m' ↦ inr (inl (c, m', p))
    ]
  ]

  pub skip-Inv :
      has u s.visited ≡ true → Inv f nodes out usable weight source (record s { queue = q })
  skip-Inv old = record {
    visited_rooted = inv.visited_rooted;
    visited_known = inv.visited_known;
    queued = λ x c m.
        let k : Queued f nodes out usable weight source s x c =
          inv.queued x c (pops.rest_inside (x, c) m) in
        record {
          rooted = k.rooted;
          known = k.known;
          above = k.above;
          positive = k.positive;
          settled = k.settled;
        };
    covered = λ x. Covered-skip x old;
    ordered = inv.ordered;
    at_source = inv.at_source;
    finite = inv.finite;
  }

  first : Queued f nodes out usable weight source s u d
  first = inv.queued u d pops.inside

  -- The least entry of a node that is not visited holds its distance.
  pub least-dist : has u s.visited ≡ false → f.rank d ≤ f.rank (s.dist u)
  least-dist new = elim (inv.covered u) [
    | inl y ↦ absurd (ground arith)
    | inr (inl (c, m, p)) ↦ omega (arith, ap f.rank p, pops.least (u, c) m)
    | inr (inr fresh) ↦ elim (first.rooted) [
      | inl r ↦ absurd (fresh.0 r.0)
      | inr (e, r) ↦ absurd (ground arith)
    ]
  ]

  Rooted-visit :
      (x : String)
      → Rooted f nodes out usable weight source s x
      → Rooted f nodes out usable weight source (visit f nodes out usable weight u q s) x
  Rooted-visit x (inl r) = inl r
  Rooted-visit x (inr (e, r)) = inr (e, (r.0, ground arith, r.2, r.3))

  Covered-visit :
      (x : String)
      → Covered f nodes out usable weight source (visit f nodes out usable weight u q s) x
  Covered-visit x = elim (inv.covered x) [
    | inl y ↦ inl (ground arith)
    | inr (inr fresh) ↦ inr (inr fresh)
    | inr (inl (c, m, p)) ↦ elim (pops.kept (x, c) m) [
      | inl same ↦ inl (ground (arith, ap (λ (r : String × f.F). r.0) same, eq_iff u x))
      | inr m' ↦ inr (inl (c, m', p))
    ]
  ]

  -- In the visited set after the visit: `u`, or visited before.
  pub visited_cases :
      (x : String) → has x (u ∷ s.visited) ≡ true → (u ≡ x) ⊎ (has x s.visited ≡ true)
  visited_cases x y = elim (Bool-cases (str_eq u x)) [
    | inl same ↦ inl ((eq_iff u x).0 same)
    | inr other ↦ inr (ground arith)
  ]

  pub visit-Inv :
      has u s.visited ≡ false
      → Inv f nodes out usable weight source (visit f nodes out usable weight u q s)
  visit-Inv new = record {
    visited_rooted = λ x y. Rooted-visit x (elim (visited_cases x y) [
      | inl same ↦ subst (Rooted f nodes out usable weight source s) same first.rooted
      | inr old ↦ inv.visited_rooted x old
    ]);
    visited_known = λ x y. elim (visited_cases x y) [
      | inl same ↦ subst (λ z. has z nodes ≡ true) same first.known
      | inr old ↦ inv.visited_known x old
    ];
    queued = λ x c m.
        let k : Queued f nodes out usable weight source s x c =
          inv.queued x c (pops.rest_inside (x, c) m) in
        record {
          rooted = Rooted-visit x k.rooted;
          known = k.known;
          above = k.above;
          positive = k.positive;
          settled = λ w y. elim (visited_cases w y) [
            | inl same ↦ omega (
              arith,
              ap (λ z. f.rank (s.dist z)) same,
              first.above,
              pops.least (x, c) (pops.rest_inside (x, c) m),
            )
            | inr old ↦ k.settled w old
          ];
        };
    covered = Covered-visit;
    ordered = (elim (first.rooted) [ inl r ↦ inl r.1 | inr (e, r) ↦ inr r.1 ], inv.ordered);
    at_source = inv.at_source;
    finite = inv.finite;
  }

  pub visit-Active :
      has u s.visited ≡ false
      → Active f nodes out usable weight source u (visit f nodes out usable weight u q s)
  visit-Active new = record {
    is_visited = ground (arith, eq_iff u u);
    highest = λ w y. elim (visited_cases w y) [
      | inl same ↦ omega (arith, ap (λ z. f.rank (s.dist z)) same)
      | inr old ↦ omega (arith, first.settled w old, least-dist new)
    ];
    positive = omega (arith, first.positive, least-dist new);
  }

  -- What is left in the queue is not nearer than `u`.
  pub rest-far : (x : String) (c : f.F) → In (x, c) q → f.rank (s.dist u) ≤ f.rank c
  rest-far x c m = omega (arith, first.above, pops.least (x, c) (pops.rest_inside (x, c) m))
