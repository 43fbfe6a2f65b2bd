-- ===== src/Http.antt =====
-- What the handlers of api/handlers use of net/http: the parts of a request that they read, and the
-- response that they write. A body is what encoding/json makes of it, `none` when decoding fails.
use vibranium_quadsquad.Base.{
  ℕ, String, Bool, false, Option, none, some, List, [], ◌∷◌, if◌then◌else◌, str_eq,
}
use vibranium_quadsquad.Auth.{User}

-- http.Error with a status and a message, or a status with an encoded value.
pub data Response (A : Type 0) : Type 0 where
  refuse : ℕ → String → Response A
  answer : ℕ → A → Response A

-- A key of a context is a value of its own type: the middleware's `ContextKey`, the type that is local
-- to getUserIDFromContext, or a plain string.
pub data ContextKey : Type 0 where
  middleware_key : String → ContextKey
  handler_key : String → ContextKey
  plain_key : String → ContextKey

abbrev pub same_key : ContextKey → ContextKey → Bool
same_key (middleware_key a) (middleware_key b) = str_eq a b
same_key (handler_key a) (handler_key b) = str_eq a b
same_key (plain_key a) (plain_key b) = str_eq a b
same_key _ _ = false

-- A value: the user of the middleware, which has no method GetID, or something that has one.
pub data ContextValue : Type 0 where
  auth_user : User → ContextValue
  identified : String → ContextValue

abbrev pub Context : Type 0
Context = List (ContextKey × ContextValue)

abbrev pub value_of : Context → ContextKey → Option ContextValue
value_of [] k = none
value_of ((j, v) ∷ c) k = let rest = value_of c k in if same_key j k then some v else rest

-- context.WithValue
abbrev pub with_value : Context → ContextKey → ContextValue → Context
with_value c k v = (k, v) ∷ c

pub record Request (B : Type 0) : Type 0 where
  pub method : String
  pub context : Context
  pub user_header : String
  pub query_id : String
  pub path : String
  pub body : Option B

-- middleware.GetUserFromContext
unfoldable pub user_in : Context → Option User
user_in c = elim (value_of c (middleware_key "user")) [ some (auth_user u) ↦ some u | _ ↦ none ]
