-- ===== src/Base/Slots.antt =====
-- The places of a list: reading one, writing one, and what the two make of each other.
use Prim.Native.Nat.{ℕ, zero, suc, ◌<◌, ◌≤◌}
use mathlib.Core.Path.{◌≡◌, refl, ap}
use mathlib.Core.Logic.{◌⊎◌, inl, inr}
use mathlib.Core.List.{List, [], ◌∷◌, map}
use mathlib.Core.Option.{Option, none, some}
use native.Mathlib.Omega.{arith}
use vibranium_quadsquad.Base.Tests.{if◌then◌else◌, ◌==◌}
use vibranium_quadsquad.Base.Lists.{length}

abbrev pub get_elem? : {A : Type 0} → List A → ℕ → Option A
get_elem? [] i = none
get_elem? (x ∷ xs) zero = some x
get_elem? (x ∷ xs) (suc i) = get_elem? xs i

-- A write to a slot of a slice.
abbrev pub set_elem : {A : Type 0} → List A → ℕ → A → List A
set_elem [] i v = []
set_elem (x ∷ xs) zero v = v ∷ xs
set_elem (x ∷ xs) (suc i) v = x ∷ set_elem xs i v

pub get_elem?-set_elem :
    {A : Type 0} (xs : List A) (j i : ℕ) (v : A)
    → j < length xs
    → get_elem? (set_elem xs j v) i ≡ (if j == i then some v else get_elem? xs i)
get_elem?-set_elem [] j i v h = absurd (omega arith)
get_elem?-set_elem (x ∷ xs) zero zero v h = refl
get_elem?-set_elem (x ∷ xs) zero (suc i) v h = ground arith
get_elem?-set_elem (x ∷ xs) (suc j) zero v h = ground arith
get_elem?-set_elem (x ∷ xs) (suc j) (suc i) v h =
    ground (arith, get_elem?-set_elem xs j i v (omega arith))

pub length-set_elem :
    {A : Type 0} (xs : List A) (i : ℕ) (v : A) → length (set_elem xs i v) ≡ length xs
length-set_elem [] i v = refl
length-set_elem (x ∷ xs) zero v = refl
length-set_elem (x ∷ xs) (suc i) v = ap suc (length-set_elem xs i v)

pub get_elem?-some :
    {A : Type 0} (xs : List A) (i : ℕ) (x : A) → get_elem? xs i ≡ some x → i < length xs
get_elem?-some [] i x e = absurd (ground (arith, e))
get_elem?-some (y ∷ ys) zero x e = omega arith
get_elem?-some (y ∷ ys) (suc i) x e = omega (arith, get_elem?-some ys i x e)

-- Lists that agree at every place are the same.
pub get_elem?-ext :
    {A : Type 0} (xs ys : List A) → ((i : ℕ) → get_elem? xs i ≡ get_elem? ys i) → xs ≡ ys
get_elem?-ext [] [] h = refl
get_elem?-ext [] (y ∷ ys) h = absurd (ground (arith, h 0))
get_elem?-ext (x ∷ xs) [] h = absurd (ground (arith, h 0))
get_elem?-ext (x ∷ xs) (y ∷ ys) h =
    let same : x ≡ y = ground (arith, h 0) in
    let rest = get_elem?-ext xs ys λ i. h (suc i) in rw (same, rest) refl

pub get_elem?-none : {A : Type 0} (xs : List A) (i : ℕ) → length xs ≤ i → get_elem? xs i ≡ none
get_elem?-none [] i h = refl
get_elem?-none (x ∷ xs) zero h = absurd (omega arith)
get_elem?-none (x ∷ xs) (suc i) h = get_elem?-none xs i (omega arith)

-- A place within a list holds something.
pub get_elem?-within :
    {A : Type 0} (xs : List A) (i : ℕ) → (length xs ≤ i) ⊎ ((x : A) × (get_elem? xs i ≡ some x))
get_elem?-within [] i = inl (omega arith)
get_elem?-within (x ∷ xs) zero = inr (x, refl)
get_elem?-within (x ∷ xs) (suc i) = elim (get_elem?-within xs i) [
  | inl h ↦ inl (omega (arith, h))
  | inr found ↦ inr found
]

pub length-map : {A B : Type 0} (h : A → B) (xs : List A) → length (map h xs) ≡ length xs
length-map h [] = refl
length-map h (x ∷ xs) = ap suc (length-map h xs)

pub get_elem?-map :
    {A B : Type 0} (h : A → B) (xs : List A) (i : ℕ) (x : A)
    → get_elem? xs i ≡ some x
    → get_elem? (map h xs) i ≡ some (h x)
get_elem?-map h [] i x e = absurd (ground (arith, e))
get_elem?-map h (y ∷ ys) zero x e = ground (arith, e)
get_elem?-map h (y ∷ ys) (suc i) x e = get_elem?-map h ys i x e
