-- ===== src/Router/Search/Relax.antt =====
-- The loop over a node's neighbours.
use vibranium_quadsquad.Base.{
  ◌+◌, ◌≤◌, ◌<◌, String, Bool, true, List, [], ◌∷◌, ◌≡◌, refl, sym, ap, ◌∙◌, subst, inl, inr, arith,
  has, Bool-cases, length, ltb→lt, ltb-false,
}
use vibranium_quadsquad.Base.Float.{Float, AddLaws, lt}
use vibranium_quadsquad.Router.Search.{Search, improved, relax_edge, relax}
use vibranium_quadsquad.Router.Search.Walk.{In}
use vibranium_quadsquad.Router.Search.Invariant.{Inv, Active}
use vibranium_quadsquad.Router.Search.Improve.{
  improved-Inv, improved-Active, dist-improved_visited, dist-improved-le, dist-v,
}

module _ (f : Float) {E : Type 0} (nodes : List String) (out : String → List (String × E))
    (usable : String → String → E → Bool) (weight : E → f.F) (source : String)
    (laws : AddLaws f) where
  -- No edge that may be taken has a negative weight.
  abbrev pub IsPositive : Type 0
  IsPositive =
      (u v : String) (e : E)
      → In (v, e) (out u)
      → usable u v e ≡ true
      → f.rank f.zero ≤ f.rank (weight e)

  -- What the loop over the neighbours `es` of `u` does to the maps.
  pub record Relaxed (u : String) (es : List (String × E)) (s s' : Search f.F E) : Type 0 where
    pub inv : Inv f nodes out usable weight source s'
    pub active : Active f nodes out usable weight source u s'
    pub same_visited : s'.visited ≡ s.visited
    pub kept : (x : String) → has x s.visited ≡ true → s'.dist x ≡ s.dist x
    pub lower : (x : String) → f.rank (s'.dist x) ≤ f.rank (s.dist x)
    pub done :
        (v : String) (e : E)
        → In (v, e) es
        → usable u v e ≡ true
        → f.rank (s'.dist v) ≤ f.rank (f.add (s.dist u) (weight e))
    pub grown : length s'.queue ≤ length s.queue + length es

  idle :
      (u v : String) (e : E) (s : Search f.F E)
      → Inv f nodes out usable weight source s
      → Active f nodes out usable weight source u s
      → (usable u v e ≡ true → f.rank (s.dist v) ≤ f.rank (f.add (s.dist u) (weight e)))
      → Relaxed u ((v, e) ∷ []) s s
  idle u v e s inv active done = record {
    inv = inv;
    active = active;
    same_visited = refl;
    kept = λ x y. refl;
    lower = λ x. omega arith;
    done = λ w c m a. elim m [ inl p ↦ only w c p a | inr n ↦ absurd n ];
    grown = omega arith;
  }
    where
      only :
          (w : String) (c : E)
          → ◌≡◌ {A = String × E} (w, c) (v, e)
          → usable u w c ≡ true
          → f.rank (s.dist w) ≤ f.rank (f.add (s.dist u) (weight c))
      only w c p =
          subst
            (λ (r : String × E).
              usable u r.0 r.1 ≡ true
              → f.rank (s.dist r.0) ≤ f.rank (f.add (s.dist u) (weight r.1)))
            (sym p) done

  improves :
      (u v : String) (e : E) (s : Search f.F E)
      → Inv f nodes out usable weight source s
      → Active f nodes out usable weight source u s
      → In (v, e) (out u)
      → usable u v e ≡ true
      → f.rank f.zero ≤ f.rank (weight e)
      → f.rank (f.add (s.dist u) (weight e)) < f.rank (s.dist v)
      → Relaxed u
          ((v, e) ∷ [])
          s
          (improved f nodes out usable weight u v e (f.add (s.dist u) (weight e)) s)
  improves u v e s inv active listed allowed positive shorter = record {
    inv =
        improved-Inv f nodes out usable weight source laws u v e s inv active listed allowed
          positive shorter;
    active =
        improved-Active f nodes out usable weight source laws u v e s inv active listed allowed
          positive shorter;
    same_visited = refl;
    kept =
        dist-improved_visited f nodes out usable weight source laws u v e s inv active listed
          allowed positive shorter;
    lower =
        dist-improved-le f nodes out usable weight source laws u v e s inv active listed allowed
          positive shorter;
    done = λ w c m a. elim m [ inl p ↦ only w c p | inr n ↦ absurd n ];
    grown = omega arith;
  }
    where
      here :
          f.rank ((improved f nodes out usable weight u v e (f.add (s.dist u) (weight e)) s).dist v)
          ≤ f.rank (f.add (s.dist u) (weight e))
      here = omega (
        arith,
        ap f.rank (
            dist-v f nodes out usable weight source laws u v e s inv active listed allowed positive
              shorter),
      )

      only :
          (w : String) (c : E)
          → ◌≡◌ {A = String × E} (w, c) (v, e)
          → f.rank
              ((improved f nodes out usable weight u v e (f.add (s.dist u) (weight e)) s).dist w)
            ≤ f.rank (f.add (s.dist u) (weight c))
      only w c p =
          subst
            (λ (r : String × E).
              f.rank (
                (improved f nodes out usable weight u v e (f.add (s.dist u) (weight e)) s).dist r.0)
              ≤ f.rank (f.add (s.dist u) (weight r.1)))
            (sym p) here

  relax_edge-Relaxed :
      (u v : String) (e : E) (s : Search f.F E)
      → Inv f nodes out usable weight source s
      → Active f nodes out usable weight source u s
      → In (v, e) (out u)
      → IsPositive
      → Relaxed u ((v, e) ∷ []) s (relax_edge f nodes out usable weight u v e s)
  unfolding relax_edge
  relax_edge-Relaxed u v e s inv active listed positive = elim (Bool-cases (usable u v e)) [
    | inr skip ↦ rw skip (idle u v e s inv active (λ a. absurd (ground arith)))
    | inl take ↦ elim (Bool-cases (lt f (f.add (s.dist u) (weight e)) (s.dist v))) [
      | inr longer ↦ rw (take, longer) (idle u v e s inv active (λ a. ltb-false _ _ longer))
      | inl shorter ↦
          rw (take, shorter)
            (improves u v e s inv active listed take (positive u v e listed take)
              (ltb→lt _ _ shorter))
    ]
  ]

  then_relax :
      (u v : String) (e : E) (es : List (String × E)) (s m t : Search f.F E)
      → Relaxed u ((v, e) ∷ []) s m
      → Relaxed u es m t
      → has u s.visited ≡ true
      → Relaxed u ((v, e) ∷ es) s t
  then_relax u v e es s m t a b is_visited = record {
    inv = b.inv;
    active = b.active;
    same_visited = b.same_visited ∙ a.same_visited;
    kept = λ x y. b.kept x (rw a.same_visited y) ∙ a.kept x y;
    lower = λ x. omega (arith, a.lower x, b.lower x);
    done = λ w c i ok. elim i [
      | inl p ↦ omega (arith, a.done w c (inl p) ok, b.lower w)
      | inr i' ↦
          subst (λ (z : f.F). f.rank (t.dist w) ≤ f.rank (f.add z (weight c))) (a.kept u is_visited)
            (b.done w c i' ok)
    ];
    grown = omega (arith, a.grown, b.grown);
  }

  -- The loop over all neighbours.
  pub relax-Relaxed :
      (u : String) (es : List (String × E)) (s : Search f.F E)
      → Inv f nodes out usable weight source s
      → Active f nodes out usable weight source u s
      → ((v : String) (e : E) → In (v, e) es → In (v, e) (out u))
      → IsPositive
      → Relaxed u es s (relax f nodes out usable weight u es s)
  unfolding relax
  relax-Relaxed u [] s inv active sub positive = record {
    inv = inv;
    active = active;
    same_visited = refl;
    kept = λ x y. refl;
    lower = λ x. omega arith;
    done = λ v e m. absurd m;
    grown = omega arith;
  }
  relax-Relaxed u ((v, e) ∷ es) s inv active sub positive =
      let first = relax_edge-Relaxed u v e s inv active (sub v e (inl refl)) positive in
      then_relax u v e es s (relax_edge f nodes out usable weight u v e s)
        (relax f nodes out usable weight u es (relax_edge f nodes out usable weight u v e s)) first
        (relax-Relaxed u es (relax_edge f nodes out usable weight u v e s) first.inv first.active
          (λ w c m. sub w c (inr m)) positive)
        active.is_visited
