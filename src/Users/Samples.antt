-- ===== src/Users/Samples.antt =====
-- A store of users, whose passwords are their own hashes, for tests.
use vibranium_quadsquad.Base.{◌≡◌, String, true, some, arith, str_eq, eq_iff}
use vibranium_quadsquad.Users.{Passwords, Store, new_store}

pub str_eq_refl : (w : String) (h : String) → some w ≡ some h → str_eq w h ≡ true
str_eq_refl w h e = ground (arith, eq_iff w h)

abbrev pub plain : Passwords
plain = record {
  hash = λ w salt. some w;
  verify = λ w h. str_eq w h;
  verify-hash = λ w salt h e. str_eq_refl w h e;
}

abbrev pub two_users : Store
two_users = new_store "admin123" "user123" 5
