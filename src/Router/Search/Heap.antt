-- ===== src/Router/Search/Heap.antt =====
-- heap.Pop: what the search relies on.
use vibranium_quadsquad.Base.{
  suc, ◌≤◌, String, List, [], ◌∷◌, some, none, ◌≡◌, refl, sym, subst, ◌⊎◌, inl, inr, arith, length,
  Bool-cases, Option-cases, ltb-false,
}
use vibranium_quadsquad.Base.Float.{Float, lt}
use vibranium_quadsquad.Router.Search.{pop_min}
use vibranium_quadsquad.Router.Search.Walk.{In}

-- Pop takes an entry that is least, and leaves the others.
pub record Pops (f : Float) (q : List (String × f.F)) (x : String × f.F) (q' : List (String × f.F))
    : Type 0 where
  pub inside : In x q
  pub least : (y : String × f.F) → In y q → f.rank x.1 ≤ f.rank y.1
  pub rest_inside : (y : String × f.F) → In y q' → In y q
  pub kept : (y : String × f.F) → In y q → (y ≡ x) ⊎ In y q'
  pub shorter : suc (length q') ≡ length q

pub pop_min-none : (f : Float) (q : List (String × f.F)) → pop_min f q ≡ none → q ≡ []
unfolding pop_min
pop_min-none f [] e = refl
pop_min-none f (a ∷ q) e = elim (Option-cases (pop_min f q)) [
  | inl h ↦ absurd (ground arith)
  | inr ((y, r), h) ↦ absurd (ground arith)
]

Pops-first :
    (f : Float) (a y : String × f.F) (q r : List (String × f.F))
    → Pops f q y r
    → f.rank y.1 ≤ f.rank a.1
    → Pops f (a ∷ q) y (a ∷ r)
Pops-first f a y q r p h = record {
  inside = inr p.inside;
  least = λ z m. elim m [ inl e ↦ ground arith | inr m' ↦ p.least z m' ];
  rest_inside = λ z m. elim m [ inl e ↦ inl e | inr m' ↦ inr (p.rest_inside z m') ];
  kept = λ z m. elim m [
    | inl e ↦ inr (inl e)
    | inr m' ↦ elim (p.kept z m') [ inl e ↦ inl e | inr k ↦ inr (inr k) ]
  ];
  shorter = omega (arith, p.shorter);
}

Pops-head :
    (f : Float) (a : String × f.F) (q : List (String × f.F))
    → ((z : String × f.F) → In z q → f.rank a.1 ≤ f.rank z.1)
    → Pops f (a ∷ q) a q
Pops-head f a q h = record {
  inside = inl refl;
  least = λ z m. elim m [ inl e ↦ ground arith | inr m' ↦ h z m' ];
  rest_inside = λ z m. inr m;
  kept = λ z m. m;
  shorter = refl;
}

Pops-of_eq :
    (f : Float) (q : List (String × f.F)) (p p' : (String × f.F) × List (String × f.F))
    → p ≡ p'
    → Pops f q p.0 p.1
    → Pops f q p'.0 p'.1
Pops-of_eq f q p p' e = subst (λ (r : (String × f.F) × List (String × f.F)). Pops f q r.0 r.1) e

pub pop_min-Pops :
    (f : Float) (q r : List (String × f.F)) (x : String × f.F)
    → pop_min f q ≡ some (x, r)
    → Pops f q x r
unfolding pop_min
pop_min-Pops f [] r x e = cc
pop_min-Pops f (a ∷ q) r x e = elim (Option-cases (pop_min f q)) [
  | inl h ↦
      let empty : q ≡ [] = pop_min-none f q h in
      Pops-of_eq f (a ∷ q) (a, []) (x, r) (ground arith)
        (subst (λ (l : List (String × f.F)). Pops f (a ∷ l) a []) (sym empty)
          (Pops-head f a [] λ z m. absurd m))
  | inr ((y, l), h) ↦ elim (Bool-cases (lt f y.1 a.1)) [
    | inl below ↦
        Pops-of_eq f (a ∷ q) (y, a ∷ l) (x, r) (ground arith)
          (Pops-first f a y q l (pop_min-Pops f q l y h) (ground arith))
    | inr above ↦
        Pops-of_eq f (a ∷ q) (a, q) (x, r) (ground arith)
          (Pops-head f a q
            λ z m. omega (arith, (pop_min-Pops f q l y h).least z m, ltb-false _ _ above))
  ]
]
