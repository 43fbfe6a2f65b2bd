-- ===== src/Base/Float.antt =====
-- The float64 values of the program, without NaN. `rank` is a value's place in their order
-- (-0 and +0 have one place), so `a < b` compares ranks, and no law of real arithmetic is assumed:
-- a theorem that needs one takes it as a hypothesis that IEEE 754 rounding satisfies.
use Prim.Native.Nat.{ℕ, ◌+◌, ◌-◌, ◌*◌, ◌/◌, ◌^◌, ◌≤◌}
use mathlib.Core.Bool.{Bool}
use native.Mathlib.Omega.{arith}
use vibranium_quadsquad.Base.Tests.{ltb}
use vibranium_quadsquad.Base.Int.{ℤ, pos, pos_part}

pub record Float : Type 1 where
  pub F : Type 0
  pub rank : F → ℕ
  pub zero : F
  pub inf : F
  pub add : F → F → F
  pub sub : F → F → F
  pub mul : F → F → F
  pub div : F → F → F
  pub log2 : F → F
  -- float64 of an int64
  pub of_ℤ : ℤ → F
  -- int64 of a float64
  pub trunc : F → ℤ
  -- the constant `a / 10 ^ b`, as the compiler rounds it
  pub lit : ℕ → ℕ → F

abbrev pub lt : (f : Float) → f.F → f.F → Bool
lt f a b = ltb (f.rank a) (f.rank b)

-- What rounding to nearest keeps of addition: it is monotone, and adding a value that is not
-- negative does not go below the other summand; infinity is positive.
pub record AddLaws (f : Float) : Type 0 where
  pub add_mono : (a b w : f.F) → f.rank a ≤ f.rank b → f.rank (f.add a w) ≤ f.rank (f.add b w)
  pub zero-le-inf : f.rank f.zero ≤ f.rank f.inf
  pub le-add : (a w : f.F) → f.rank f.zero ≤ f.rank w → f.rank a ≤ f.rank (f.add a w)

-- Natural numbers with a large bound for infinity: an instance for tests.
abbrev pub nat_float : Float
nat_float = record {
  F = ℕ;
  rank = λ a. a;
  zero = 0;
  inf = 1_000_000_000;
  add = λ a b. a + b;
  sub = λ a b. a - b;
  mul = λ a b. a * b;
  div = λ a b. a / b;
  log2 = λ a. a;
  of_ℤ = pos_part;
  trunc = pos;
  lit = λ a b. a / 10 ^ b;
}

pub nat_float-AddLaws : AddLaws nat_float
nat_float-AddLaws = record {
  add_mono = λ a b w h. omega arith;
  zero-le-inf = omega arith;
  le-add = λ a w h. omega arith;
}
