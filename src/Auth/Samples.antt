-- ===== src/Auth/Samples.antt =====
-- A user, and an encryption that knows the claims of that user alone, for tests.
use vibranium_quadsquad.Base.{
  zero, suc, ap, ◌&&◌, ◌==◌, ℕ, ◌+◌, ◌≡◌, refl, String, Bool, true, Option, none, some, [], arith,
  if◌then◌else◌, str_eq, eq_iff, Bool-cases, inl, inr,
}
use vibranium_quadsquad.Auth.{User, TokenClaims, Paseto, TokenManager}

abbrev pub ann : User
ann = record {
  id = "u1";
  email = "ann@plm.local";
  username = "ann";
  role = "USER";
  full_name = "Ann";
  organization = "";
  is_active = true;
  created_at = 0;
}

abbrev pub manager : TokenManager
manager = record { symmetric_key = []; issuer = "plm"; token_ttl = 100 }

abbrev pub other_manager : TokenManager
other_manager = record manager { issuer = "other" }

abbrev pub claims_at : ℕ → TokenClaims
claims_at now = record {
  token_id = "id";
  user_id = "u1";
  email = "ann@plm.local";
  username = "ann";
  role = "USER";
  issued_at = now;
  not_before = now;
  expires_at = now + 100;
  issuer = "plm";
}

-- The claims of this user, told apart by the time of issue alone.
abbrev pub is_known : TokenClaims → Bool
is_known c =
    str_eq c.token_id "id"
    && str_eq c.user_id "u1"
    && str_eq c.email "ann@plm.local"
    && str_eq c.username "ann"
    && str_eq c.role "USER"
    && c.not_before == c.issued_at
    && c.expires_at == c.issued_at + 100
    && str_eq c.issuer "plm"

and-elim : (a b : Bool) → (a && b) ≡ true → (a ≡ true) × (b ≡ true)
and-elim a b e = (ground arith, ground arith)

is_known-eq : (c : TokenClaims) → is_known c ≡ true → claims_at c.issued_at ≡ c
is_known-eq c e = ground (
  arith,
  eq_iff c.token_id "id",
  eq_iff c.user_id "u1",
  eq_iff c.email "ann@plm.local",
  eq_iff c.username "ann",
  eq_iff c.role "USER",
  eq_iff c.issuer "plm",
)

-- A number as a string of as many strokes.
abbrev pub tally : ℕ → String
tally zero = String.[]
tally (suc n) = String.◌∷◌ "1" (tally n)

abbrev pub strokes : String → ℕ
strokes String.[] = 0
strokes (String.◌∷◌ c s) = suc (strokes s)

strokes-tally : (n : ℕ) → strokes (tally n) ≡ n
strokes-tally zero = refl
strokes-tally (suc n) = ap suc (strokes-tally n)

abbrev pub seal : TokenClaims → Option String
seal c = if is_known c then some (tally c.issued_at) else none

pub open-seal :
    (c : TokenClaims) (t : String) → seal c ≡ some t → some (claims_at (strokes t)) ≡ some c
open-seal c t e = elim (Bool-cases (is_known c)) [
  | inr unknown ↦ absurd (ground arith)
  | inl known ↦ ground (arith, strokes-tally c.issued_at, is_known-eq c known)
]

-- An encryption for those claims, which looks at no key.
abbrev pub sealed : Paseto
sealed = record {
  encrypt = λ k c n. seal c;
  decrypt = λ t k. some (claims_at (strokes t));
  decrypt-encrypt = λ k c n t e. open-seal c t e;
}
