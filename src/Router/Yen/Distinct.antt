-- ===== src/Router/Yen/Distinct.antt =====
-- Lists of paths with different nodes: what the tests of Yen's algorithm and its heap keep.
use vibranium_quadsquad.Base.{
  String, true, false, some, List, [], ◌∷◌, ◌++◌, ◌≡◌, ◌≢◌, refl, sym, ap, subst, arith, length,
  eq_iff, Bool-cases, Option-cases, inl, inr,
}
use vibranium_quadsquad.Base.Float.{Float, lt}
use vibranium_quadsquad.Router.Yen.{same_entries, paths_equal, contains_path, pop_path}

abbrev pub All {ℓ} : {A : Type 0} → (A → Type ℓ) → List A → Type ℓ
All Q [] = Unit
All Q (x ∷ xs) = Q x × All Q xs

pub All-snoc {ℓ} :
    {A : Type 0} (Q : A → Type ℓ) (xs : List A) (x : A) → All Q xs → Q x → All Q (xs ++ x ∷ [])
All-snoc Q [] x h k = (k, tt)
All-snoc Q (y ∷ ys) x h k = (h.0, All-snoc Q ys x h.1 k)

same_entries_refl : (a : List String) → same_entries a a ≡ true
same_entries_refl [] = refl
same_entries_refl (x ∷ a) = ground (arith, eq_iff x x, same_entries_refl a)

pub paths_equal_refl : (a b : List String) → a ≡ b → paths_equal a b ≡ true
unfolding paths_equal
paths_equal_refl a b e = ground (arith, e, same_entries_refl a, ap length e, ap (same_entries a) e)

module _ (f : Float) {P : Type 0} (nodes_of : P → List String) (weight_of : P → f.F) where
  abbrev pub Absent : P → List P → Type 0
  Absent p = All (λ q. nodes_of q ≢ nodes_of p)

  abbrev pub Distinct : List P → Type 0
  Distinct [] = Unit
  Distinct (p ∷ ps) = Absent p ps × Distinct ps

  pub contains-Absent :
      (ps : List P) (p : P) → contains_path f nodes_of weight_of ps p ≡ false → Absent p ps
  unfolding contains_path
  contains-Absent [] p h = tt
  contains-Absent (q ∷ qs) p h = (
    λ e. ground (arith, paths_equal_refl (nodes_of q) (nodes_of p) e),
    contains-Absent qs p (ground (arith, h)),
  )

  pub Distinct-snoc : (ps : List P) (p : P) → Distinct ps → Absent p ps → Distinct (ps ++ p ∷ [])
  Distinct-snoc [] p d a = (tt, tt)
  Distinct-snoc (q ∷ qs) p d a = (
    All-snoc (λ x. nodes_of x ≢ nodes_of q) qs p d.0 (λ e. a.0 (sym e)),
    Distinct-snoc qs p d.1 a.1,
  )

  -- What Pop takes out of the heap and what it leaves: nothing is added.
  pub pop-All :
      (Q : P → Type 0) (ps : List P) (b : P) (r : List P)
      → pop_path f nodes_of weight_of ps ≡ some (b, r)
      → All Q ps
      → Q b × All Q r
  unfolding pop_path
  pop-All Q [] b r e h = absurd (ground arith)
  pop-All Q (p ∷ ps) b r e h =
      let from : (x y : P × List P) → x ≡ y → Q x.0 × All Q x.1 → Q y.0 × All Q y.1 =
        λ x y same. subst (λ (z : P × List P). Q z.0 × All Q z.1) same in
      elim (Option-cases (pop_path f nodes_of weight_of ps)) [
        | inl n ↦ from (p, []) (b, r) (ground arith) (h.0, tt)
        | inr ((q, qs), k) ↦
            let (x, xs) = pop-All Q ps q qs k h.1 in
            elim (Bool-cases (lt f (weight_of q) (weight_of p))) [
              | inl less ↦ from (q, p ∷ qs) (b, r) (ground arith) (x, (h.0, xs))
              | inr more ↦ from (p, ps) (b, r) (ground arith) h
            ]
      ]

  pub pop-Distinct :
      (ps : List P) (b : P) (r : List P)
      → pop_path f nodes_of weight_of ps ≡ some (b, r)
      → Distinct ps
      → Absent b r × Distinct r
  unfolding pop_path
  pop-Distinct [] b r e d = absurd (ground arith)
  pop-Distinct (p ∷ ps) b r e d =
      let from : (x y : P × List P)
          → x ≡ y
          → Absent x.0 x.1 × Distinct x.1
          → Absent y.0 y.1 × Distinct y.1 =
        λ x y same. subst (λ (z : P × List P). Absent z.0 z.1 × Distinct z.1) same in
      elim (Option-cases (pop_path f nodes_of weight_of ps)) [
        | inl n ↦ from (p, []) (b, r) (ground arith) (tt, tt)
        | inr ((q, qs), k) ↦
            let (away, apart) = pop-Distinct ps q qs k d.1 in
            let (other, others) = pop-All (λ x. nodes_of x ≢ nodes_of p) ps q qs k d.0 in
            elim (Bool-cases (lt f (weight_of q) (weight_of p))) [
              | inl less ↦
                  from (q, p ∷ qs) (b, r) (ground arith)
                    ((λ e'. other (sym e'), away), (others, apart))
              | inr more ↦ from (p, ps) (b, r) (ground arith) d
            ]
      ]
