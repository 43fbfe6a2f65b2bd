-- ===== src/Handlers/Accounts.antt =====
-- The authentication endpoints of api/handlers/protected.go, over the user store and the token
-- manager. Ids, salts, nonces and the clock are arguments. `none` stands for a panic.
pub mod Registers
mod Tests
use Prim.Native.Char.{Char, code}
use Prim.Native.String
use Prim.Native.String.{len}
use vibranium_quadsquad.Base.{
  ℕ, ◌+◌, String, Bool, true, false, not, ◌&&◌, ◌||◌, Option, none, some, List, [], ◌∷◌,
  if◌then◌else◌, str_eq, ltb, leb, ◌==◌,
}
use vibranium_quadsquad.Auth.{User, TokenManager, TokenClaims, Paseto, role_admin, generate_token}
use vibranium_quadsquad.Http.{Request, Response, refuse, answer}
use vibranium_quadsquad.Users.{
  Store, StoredUser, Passwords, Result, Error, ok, err, user_not_found, email_exists,
  username_exists, invalid_credentials, hash_failed, panics, authenticate, create_user, to_user,
}

-- The user store may be missing (demo mode).
pub record AuthHandler : Type 0 where
  pub token_manager : TokenManager
  pub user_store : Option Store

pub record LoginRequest : Type 0 where
  pub email : String
  pub password : String

pub record LoginResponse : Type 0 where
  pub token : String
  pub expires_at : ℕ
  pub user : User

pub record RegisterRequest : Type 0 where
  pub email : String
  pub password : String
  pub username : String

-- What a call draws: the clock, the id and the salt of a new user, the id and the nonce of a token.
pub record Fresh : Type 0 where
  pub now : ℕ
  pub user_id : String
  pub salt : ℕ
  pub token_id : String
  pub nonce : ℕ

-- The text of an error of the store; hashing has its own.
abbrev pub error_text : Error → String
error_text user_not_found = "user not found"
error_text email_exists = "email already exists"
error_text username_exists = "username already exists"
error_text invalid_credentials = "invalid credentials"
error_text hash_failed = "hash failed"
error_text panics = ""

-- A letter, a digit or an underscore, all ASCII.
abbrev pub is_word_char : ℕ → Bool
is_word_char c =
    (leb b'a' c && leb c b'z')
    || (leb b'A' c && leb c b'Z')
    || (leb b'0' c && leb c b'9')
    || c == b'_'

abbrev pub all_word_chars : String → Bool
all_word_chars String.[] = true
all_word_chars (String.◌∷◌ c s) = is_word_char (code c) && all_word_chars s

-- `^[a-zA-Z0-9_]+$`
unfoldable pub is_username : String → Bool
is_username s = not (str_eq s "") && all_word_chars s

-- `s[:strings.Index(s, "@")]`, which panics without an "@".
unfoldable pub before_at : String → Option String
before_at String.[] = none
before_at (String.◌∷◌ c s) =
    let rest = before_at s in
    if code c == b'@' then some "" else elim rest [ none ↦ none | some t ↦ some (String.◌∷◌ c t) ]

abbrev pub demo_user : String → String → User
demo_user email name = record {
  id = "demo-user-id";
  email = email;
  username = name;
  role = if str_eq email "admin@plm.local" then role_admin else "USER";
  full_name = "";
  organization = "";
  is_active = true;
  created_at = 0;
}

module _ (p : Paseto) (w : Passwords) where
  -- The token and the response for a user.
  abbrev pub sign_in : AuthHandler → ℕ → Fresh → User → Response LoginResponse
  sign_in h status x u = elim (generate_token p h.token_manager u x.now x.token_id x.nonce) [
    | none ↦ refuse 500 "failed to generate token"
    | some (t, c) ↦ answer status (record { token = t; expires_at = c.expires_at; user = u })
  ]

  abbrev pub login_stored :
      AuthHandler → Fresh → Result StoredUser → Option (Response LoginResponse)
  login_stored h x (err panics) = none
  login_stored h x (err e) = some (refuse 401 "invalid email or password")
  login_stored h x (ok u) = some (sign_in h 200 x (to_user u))

  abbrev pub login_demo : AuthHandler → Fresh → LoginRequest → Option (Response LoginResponse)
  login_demo h x q = elim (before_at q.email) [
    | none ↦ none
    | some name ↦ some (sign_in h 200 x (demo_user q.email name))
  ]

  unfoldable pub handle_login :
      AuthHandler → Request LoginRequest → Fresh → Option (Response LoginResponse)
  unfolding authenticate generate_token to_user before_at
  handle_login h r x =
      if not (str_eq r.method "POST") then some (refuse 405 "method not allowed") else elim r.body [
        | none ↦ some (refuse 400 "invalid request body")
        | some q ↦ elim h.user_store [
          | none ↦ login_demo h x q
          | some s ↦ login_stored h x (authenticate w s q.email q.password)
        ]
      ]

  abbrev pub registered :
      AuthHandler → Fresh → Result StoredUser × Store → Response LoginResponse × AuthHandler
  registered h x (err e, s) = (refuse 409 (error_text e), record h { user_store = some s })
  registered h x (ok u, s) = (sign_in h 201 x (to_user u), record h { user_store = some s })

  -- Why a request to register is refused before the store is asked.
  unfoldable pub invalid : RegisterRequest → Option String
  unfolding is_username
  invalid q =
      if str_eq q.email "" || str_eq q.password "" || str_eq q.username ""
      then some "email, password, and username are required"
      else if ltb (len q.password) 6
      then some "password must be at least 6 characters"
      else if not (is_username q.username)
      then some "username can only contain letters, numbers, and underscores"
      else if ltb (len q.username) 3 || ltb 30 (len q.username)
      then some "username must be between 3 and 30 characters"
      else none

  unfoldable pub handle_register :
      AuthHandler → Request RegisterRequest → Fresh → Response LoginResponse × AuthHandler
  unfolding create_user generate_token to_user invalid
  handle_register h r x =
      if not (str_eq r.method "POST")
      then (refuse 405 "method not allowed", h)
      else elim h.user_store [
        | none ↦ (refuse 503 "registration not available", h)
        | some s ↦ elim r.body [
          | none ↦ (refuse 400 "invalid request body", h)
          | some q ↦ elim (invalid q) [
            | some message ↦ (refuse 400 message, h)
            | none ↦
                registered h x
                  (create_user w s x.user_id x.salt x.now q.email q.password q.username "USER")
          ]
        ]
      ]
