-- ===== src/Users.antt =====
-- storage/users/store.go. Password hashing (auth/password.go over golang.org/x/crypto/argon2) is a
-- parameter, as are the random ids. `panics` stands for a nil dereference.
pub mod Consistency
pub mod Hashed
pub mod Samples
mod Tests
use vibranium_quadsquad.Base.{
  ℕ, ◌≡◌, String, Bool, true, false, not, Option, none, some, List, [], ◌∷◌, if◌then◌else◌, lookup,
  insert,
}
use vibranium_quadsquad.Auth.{User, role_admin}

pub record StoredUser : Type 0 where
  pub id : String
  pub email : String
  pub username : String
  pub password_hash : String
  pub role : String
  pub full_name : String
  pub organization : String
  pub is_active : Bool
  pub created_at : ℕ
  pub updated_at : ℕ

unfoldable pub to_user : StoredUser → User
to_user u = record {
  id = u.id;
  email = u.email;
  username = u.username;
  role = u.role;
  full_name = u.full_name;
  organization = u.organization;
  is_active = u.is_active;
  created_at = u.created_at;
}

-- A hash depends on a random salt, and may fail; a password verifies against its own hash.
pub record Passwords : Type 0 where
  pub hash : String → ℕ → Option String
  pub verify : String → String → Bool
  pub verify-hash :
      (password : String) (salt : ℕ) (h : String)
      → hash password salt ≡ some h
      → verify password h ≡ true

pub record Store : Type 0 where
  pub users : List (String × StoredUser)
  pub by_email : List (String × String)
  pub by_name : List (String × String)

pub data Error : Type 0 where
  user_not_found email_exists username_exists invalid_credentials hash_failed panics : Error

pub data Result (A : Type 0) : Type 0 where
  ok : A → Result A
  err : Error → Result A

abbrev pub put : Store → StoredUser → Store
put s u = record {
  users = insert u.id u s.users;
  by_email = insert u.email u.id s.by_email;
  by_name = insert u.username u.id s.by_name;
}

abbrev pub default_user : String → String → String → String → String → ℕ → StoredUser
default_user id email username role hash now = record {
  id = id;
  email = email;
  username = username;
  password_hash = hash;
  role = role;
  full_name = "";
  organization = "";
  is_active = true;
  created_at = now;
  updated_at = now;
}

-- The two default users; a hash that fails is ignored, and leaves the empty string.
unfoldable pub new_store : String → String → ℕ → Store
new_store admin_hash user_hash now =
    put
      (put (record { users = []; by_email = []; by_name = [] })
        (default_user "admin-default-001" "admin@plm.local" "admin" role_admin admin_hash now))
      (default_user "user-default-001" "user@plm.local" "user" "USER" user_hash now)

module _ (p : Passwords) where
  abbrev pub create_hashed :
      Store → String → String → String → String → ℕ → Option String → Result StoredUser × Store
  create_hashed s id email username role now none = (err hash_failed, s)
  create_hashed s id email username role now (some h) = (
    ok (default_user id email username role h now),
    put s (default_user id email username role h now),
  )

  unfoldable pub create_user :
      Store → String → ℕ → ℕ → String → String → String → String → Result StoredUser × Store
  create_user s id salt now email password username role = elim (lookup email s.by_email) [
    | some _ ↦ (err email_exists, s)
    | none ↦ elim (lookup username s.by_name) [
      | some _ ↦ (err username_exists, s)
      | none ↦ create_hashed s id email username role now (p.hash password salt)
    ]
  ]

  -- The pointer that is returned may be nil, as in the source.
  unfoldable pub get_by_email : Store → String → Result (Option StoredUser)
  get_by_email s email = elim (lookup email s.by_email) [
    | none ↦ err user_not_found
    | some id ↦ ok (lookup id s.users)
  ]

  unfoldable pub get_by_id : Store → String → Result StoredUser
  get_by_id s id = elim (lookup id s.users) [ none ↦ err user_not_found | some u ↦ ok u ]

  unfoldable pub authenticate : Store → String → String → Result StoredUser
  authenticate s email password = elim (lookup email s.by_email) [
    | none ↦ err invalid_credentials
    | some id ↦ elim (lookup id s.users) [
      | none ↦ err panics
      | some u ↦
          if not u.is_active
          then err invalid_credentials
          else if not (p.verify password u.password_hash)
          then err invalid_credentials
          else ok u
    ]
  ]

  abbrev pub users_of : List (String × StoredUser) → List User
  users_of [] = []
  users_of ((_, u) ∷ m) = to_user u ∷ users_of m

  unfoldable pub list_users : Store → List User
  unfolding to_user
  list_users s = users_of s.users
