-- ===== src/Router/Search/Improve.antt =====
-- A shorter way to a neighbour is recorded: the invariant is kept.
use vibranium_quadsquad.Base.{
  ◌≤◌, ◌<◌, String, Bool, true, false, List, ◌≡◌, ◌≢◌, refl, sym, ap, subst, ◌∙◌, inl, inr, arith,
  has, str_eq, eq_iff, Bool-cases,
}
use vibranium_quadsquad.Base.Float.{Float, AddLaws}
use vibranium_quadsquad.Router.Search.{Search, improved}
use vibranium_quadsquad.Router.Search.Walk.{In}
use vibranium_quadsquad.Router.Search.Invariant.{
  Ordered-update, has_ne, Rooted, Queued, Covered, Inv, Active,
}

module _ (f : Float) {E : Type 0} (nodes : List String) (out : String → List (String × E))
    (usable : String → String → E → Bool) (weight : E → f.F) (source : String) (laws : AddLaws f)
    (u v : String) (e : E) (s : Search f.F E) (inv : Inv f nodes out usable weight source s)
    (active : Active f nodes out usable weight source u s) (listed : In (v, e) (out u))
    (allowed : usable u v e ≡ true) (positive : f.rank f.zero ≤ f.rank (weight e))
    (shorter : f.rank (f.add (s.dist u) (weight e)) < f.rank (s.dist v)) where
  d : f.F
  d = f.add (s.dist u) (weight e)

  grows : f.rank (s.dist u) ≤ f.rank d
  unfolding d
  grows = laws.le-add (s.dist u) (weight e) positive

  not_visited : has v s.visited ≡ false
  unfolding d
  not_visited = elim (Bool-cases (has v s.visited)) [
    | inr n ↦ n
    | inl y ↦ absurd (omega (arith, active.highest v y, grows))
  ]

  not_source : v ≢ source
  unfolding d
  not_source p =
      absurd (omega (arith, grows, active.positive, ap f.rank (ap s.dist p ∙ inv.at_source)))

  v_known : has v nodes ≡ true
  unfolding d
  v_known = elim (inv.covered v) [
    | inl y ↦ inv.visited_known v y
    | inr (inl (c, m, _)) ↦ (inv.queued v c m).known
    | inr (inr (_, _, q)) ↦ elim (Bool-cases (has v nodes)) [
      | inl y ↦ y
      | inr n ↦ absurd (ground (arith, grows, active.positive, q, eq_iff source v, not_source))
    ]
  ]

  abbrev s' : Search f.F E
  s' = improved f nodes out usable weight u v e (f.add (s.dist u) (weight e)) s

  -- What was rooted stays so, but for `v`.
  Rooted-improved :
      (x : String)
      → str_eq v x ≡ false
      → Rooted f nodes out usable weight source s x
      → Rooted f nodes out usable weight source s' x
  Rooted-improved x ne (inl r) = inl (ground arith)
  Rooted-improved x ne (inr (c, r)) =
      let other : str_eq v (s.prev x) ≡ false = has_ne (s.prev x) v s.visited r.1 not_visited in
      inr (c, ground arith)

  Rooted-v : Rooted f nodes out usable weight source s' v
  Rooted-v =
      let self : str_eq v v ≡ true = (eq_iff v v).1 refl in
      let other : str_eq v u ≡ false = has_ne u v s.visited active.is_visited not_visited in
      rw self (
        inr (
          e,
          (
            refl,
            active.is_visited,
            record { listed = listed; allowed = allowed; known = v_known },
            rw other,
          ),
        ))

  Rooted-all :
      (x : String)
      → (str_eq v x ≡ false → Rooted f nodes out usable weight source s x)
      → Rooted f nodes out usable weight source s' x
  Rooted-all x r = elim (Bool-cases (str_eq v x)) [
    | inl same ↦ subst (Rooted f nodes out usable weight source s') ((eq_iff v x).0 same) Rooted-v
    | inr other ↦ Rooted-improved x other (r other)
  ]

  -- A visited node keeps its distance.
  pub dist-improved_visited : (x : String) → has x s.visited ≡ true → s'.dist x ≡ s.dist x
  dist-improved_visited x h =
      let other : str_eq v x ≡ false = has_ne x v s.visited h not_visited in rw other

  -- No distance grows.
  pub dist-improved-le : (x : String) → f.rank (s'.dist x) ≤ f.rank (s.dist x)
  dist-improved-le x = ground (arith, eq_iff v x, shorter)

  Queued-improved :
      (x : String) (c : f.F) → In (x, c) s.queue → Queued f nodes out usable weight source s' x c
  Queued-improved x c m =
      let q : Queued f nodes out usable weight source s x c = inv.queued x c m in
      record {
        rooted = Rooted-all x (λ _. q.rooted);
        known = q.known;
        above = omega (arith, dist-improved-le x, q.above);
        positive = q.positive;
        settled = λ w y. omega (arith, ap f.rank (dist-improved_visited w y), q.settled w y);
      }

  pub dist-v : s'.dist v ≡ f.add (s.dist u) (weight e)
  dist-v = let self : str_eq v v ≡ true = (eq_iff v v).1 refl in rw self

  Queued-v : Queued f nodes out usable weight source s' v (f.add (s.dist u) (weight e))
  unfolding d
  Queued-v = record {
    rooted = Rooted-v;
    known = v_known;
    above = omega (arith, ap f.rank dist-v);
    positive = omega (arith, active.positive, grows);
    settled =
        λ w y. omega (arith, ap f.rank (dist-improved_visited w y), active.highest w y, grows);
  }

  Queued-of_eq :
      (x : String) (c : f.F)
      → ◌≡◌ {A = String × f.F} (x, c) (v, f.add (s.dist u) (weight e))
      → Queued f nodes out usable weight source s' x c
  Queued-of_eq x c p =
      subst (λ (r : String × f.F). Queued f nodes out usable weight source s' r.0 r.1) (sym p)
        Queued-v

  Covered-v : Covered f nodes out usable weight source s' v
  Covered-v = inr (inl (f.add (s.dist u) (weight e), inl refl, sym dist-v))

  Covered-improved : (x : String) → Covered f nodes out usable weight source s' x
  Covered-improved x = elim (Bool-cases (str_eq v x)) [
    | inl same ↦ subst (Covered f nodes out usable weight source s') ((eq_iff v x).0 same) Covered-v
    | inr other ↦ rw other (elim (inv.covered x) [
      | inl y ↦ inl y
      | inr (inl (c, m, p)) ↦ inr (inl (c, inr m, p))
      | inr (inr fresh) ↦ inr (inr fresh)
    ])
  ]

  pub improved-Inv : Inv f nodes out usable weight source s'
  unfolding d
  improved-Inv = record {
    visited_rooted = λ x y. Rooted-all x (λ _. inv.visited_rooted x y);
    visited_known = inv.visited_known;
    queued = λ x c m. elim m [ inl p ↦ Queued-of_eq x c p | inr m' ↦ Queued-improved x c m' ];
    covered = Covered-improved;
    ordered = Ordered-update s.prev v u s.visited not_visited inv.ordered;
    at_source = ground (arith, eq_iff v source, not_source, inv.at_source);
    finite = λ x k. omega (arith, dist-improved-le x, inv.finite x k);
  }

  pub improved-Active : Active f nodes out usable weight source u s'
  improved-Active =
      let kept : s'.dist u ≡ s.dist u = dist-improved_visited u active.is_visited in
      record {
        is_visited = active.is_visited;
        highest = λ w y.
            omega
              (arith, ap f.rank (dist-improved_visited w y), ap f.rank kept, active.highest w y);
        positive = omega (arith, ap f.rank kept, active.positive);
      }
