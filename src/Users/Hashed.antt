-- ===== src/Users/Hashed.antt =====
-- The hashing of auth/password.go as the one that the user store of storage/users/store.go needs.
use vibranium_quadsquad.Base.{ℕ, ap, Bool, true, false, Option, none, some, List}
use vibranium_quadsquad.Auth.Hashing.{
  Library, HashError, hash_password, verify_password, verify_password-hash_password,
}
use vibranium_quadsquad.Users.{Passwords}

abbrev pub is_verified : Option HashError → Bool
is_verified none = true
is_verified (some e) = false

-- `salt_of` is what the random source gives.
abbrev pub hashed_passwords : Library → (ℕ → Option (List ℕ)) → Passwords
hashed_passwords l salt_of = record {
  hash = λ password salt. hash_password l password (salt_of salt);
  verify = λ password encoded. is_verified (verify_password l password encoded);
  verify-hash = λ password salt encoded e.
      ap is_verified (verify_password-hash_password l password (salt_of salt) encoded e);
}
