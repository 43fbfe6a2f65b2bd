-- ===== src/Auth.antt =====
-- auth/token.go, the roles of auth/password.go, and api/middleware/auth.go. Times are nanoseconds since
-- Go's zero time. PASETO (github.com/o1egl/paseto) is a parameter.
pub mod Tokens
pub mod Hashing
pub mod Access
pub mod Samples
mod Tests
use Prim.Native.Char.{Char, code}
use Prim.Native.String
use vibranium_quadsquad.Base.{
  ℕ, ◌+◌, ◌*◌, ◌≡◌, String, Bool, true, false, not, ◌&&◌, ◌||◌, Option, none, some, List, [], ◌∷◌,
  if◌then◌else◌, str_eq, ltb, leb, ◌==◌, length,
}

abbrev pub role_admin : String
role_admin = "ADMIN"

pub record User : Type 0 where
  pub id : String
  pub email : String
  pub username : String
  pub role : String
  pub full_name : String
  pub organization : String
  pub is_active : Bool
  pub created_at : ℕ

unfoldable pub has_permission : User → String → Bool
has_permission u required = if str_eq u.role role_admin then true else str_eq u.role required

unfoldable pub is_admin : User → Bool
is_admin u = str_eq u.role role_admin

pub record TokenClaims : Type 0 where
  pub token_id : String
  pub user_id : String
  pub email : String
  pub username : String
  pub role : String
  pub issued_at : ℕ
  pub not_before : ℕ
  pub expires_at : ℕ
  pub issuer : String

pub data TokenError : Type 0 where
  invalid_token expired_token not_yet_valid issued_in_future wrong_issuer : TokenError

abbrev pub minute : ℕ
minute = 60 * 1_000_000_000

unfoldable pub valid : ℕ → TokenClaims → Option TokenError
valid now c =
    if ltb c.expires_at now
    then some expired_token
    else if not (c.not_before == 0) && ltb now c.not_before
    then some not_yet_valid
    else if ltb (now + minute) c.issued_at
    then some issued_in_future
    else none

-- Authenticated encryption of claims under a key; the last number is the nonce.
pub record Paseto : Type 0 where
  pub encrypt : List ℕ → TokenClaims → ℕ → Option String
  pub decrypt : String → List ℕ → Option TokenClaims
  pub decrypt-encrypt :
      (k : List ℕ) (c : TokenClaims) (n : ℕ) (t : String)
      → encrypt k c n ≡ some t
      → decrypt t k ≡ some c

pub record TokenManager : Type 0 where
  pub symmetric_key : List ℕ
  pub issuer : String
  pub token_ttl : ℕ

-- NewTokenManager of a given configuration: the key has exactly 32 bytes.
unfoldable pub new_token_manager : List ℕ → String → ℕ → Option TokenManager
new_token_manager key issuer ttl =
    if length key == 32
    then some (record { symmetric_key = key; issuer = issuer; token_ttl = ttl })
    else none

pub data Checked : Type 0 where
  accepted : TokenClaims → Checked
  refused : TokenError → Checked

abbrev pub refused_or : Option TokenError → Checked → Checked
refused_or none r = r
refused_or (some e) r = refused e

module _ (p : Paseto) where
  abbrev pub claims_for : TokenManager → User → ℕ → String → TokenClaims
  claims_for tm u now token_id = record {
    token_id = token_id;
    user_id = u.id;
    email = u.email;
    username = u.username;
    role = u.role;
    issued_at = now;
    not_before = now;
    expires_at = now + tm.token_ttl;
    issuer = tm.issuer;
  }

  -- `none` when PASETO fails; `token_id` is what the random source gives.
  unfoldable pub generate_token :
      TokenManager → User → ℕ → String → ℕ → Option (String × TokenClaims)
  generate_token tm u now token_id nonce =
      elim (p.encrypt tm.symmetric_key (claims_for tm u now token_id) nonce) [
        | none ↦ none
        | some t ↦ some (t, claims_for tm u now token_id)
      ]

  unfoldable pub verify_token : TokenManager → ℕ → String → Checked
  unfolding valid
  verify_token tm now token = elim (p.decrypt token tm.symmetric_key) [
    | none ↦ refused invalid_token
    | some c ↦
        refused_or (valid now c)
          (if str_eq c.issuer tm.issuer then accepted c else refused wrong_issuer)
  ]

  abbrev pub user_of : TokenClaims → User
  user_of c = record {
    id = c.user_id;
    email = c.email;
    username = c.username;
    role = c.role;
    full_name = "";
    organization = "";
    is_active = false;
    created_at = 0;
  }

  unfoldable pub refresh_token :
      TokenManager → TokenClaims → ℕ → String → ℕ → Option (String × TokenClaims)
  unfolding generate_token
  refresh_token tm c now token_id nonce = generate_token tm (user_of c) now token_id nonce

  -- What a middleware does with a request: an error response, or the next handler.
  pub data Response : Type 0 where
    missing_header bad_header token_expired token_invalid unauthorized forbidden : Response
    served : Option User → Response

  -- strings.SplitN(s, " ", 2), when there are two parts.
  unfoldable pub split_space : String → Option (String × String)
  split_space String.[] = none
  split_space (String.◌∷◌ c s) =
      let rest = split_space s in
      if code c == b' '
      then some ("", s)
      else elim rest [ none ↦ none | some (a, b) ↦ some (String.◌∷◌ c a, b) ]

  -- strings.ToLower, compared with "bearer": ASCII letters are what matters there.
  abbrev pub lower_codes : String → List ℕ
  lower_codes String.[] = []
  lower_codes (String.◌∷◌ c s) =
      (if leb b'A' (code c) && leb (code c) b'Z' then code c + 32 else code c) ∷ lower_codes s

  abbrev pub same_codes : List ℕ → List ℕ → Bool
  same_codes [] [] = true
  same_codes (a ∷ as_) (b ∷ bs) = a == b && same_codes as_ bs
  same_codes _ _ = false

  abbrev pub is_bearer : String → Bool
  is_bearer s = same_codes (lower_codes s) (lower_codes "bearer")

  abbrev pub respond : (User → Response) → Checked → Response
  respond next (accepted c) = next (record (user_of c) { is_active = true })
  respond next (refused expired_token) = token_expired
  respond next (refused _) = token_invalid

  unfoldable pub authenticate : TokenManager → ℕ → String → (User → Response) → Response
  unfolding verify_token split_space
  authenticate tm now header next =
      if str_eq header "" then missing_header else elim (split_space header) [
        | none ↦ bad_header
        | some (scheme, token) ↦
            if is_bearer scheme then respond next (verify_token tm now token) else bad_header
      ]

  unfoldable pub require_role : String → (User → Response) → Option User → Response
  unfolding has_permission
  require_role role next none = unauthorized
  require_role role next (some u) = if has_permission u role then next u else forbidden

  unfoldable pub require_admin : (User → Response) → Option User → Response
  unfolding require_role
  require_admin = require_role role_admin

  unfoldable pub require_user : (User → Response) → Option User → Response
  require_user next none = unauthorized
  require_user next (some u) = if str_eq u.role role_admin then forbidden else next u
