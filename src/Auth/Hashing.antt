-- ===== src/Auth/Hashing.antt =====
-- HashPassword and VerifyPassword of auth/password.go. Argon2 and base64 are parameters, with the
-- length of a key and that decoding reverses encoding; so is fmt.Sscanf, with what it reads from the
-- two fields that HashPassword writes.
mod Tests
use Prim.Native.Char.{Char, code}
use Prim.Native.String
use vibranium_quadsquad.Base.{
  ℕ, ◌≡◌, refl, ap, sym, subst, ◌∙◌, String, Bool, true, false, not, ◌&&◌, ◌||◌, Option, none, some,
  List, [], ◌∷◌, if◌then◌else◌, length, str_eq, ◌==◌, arith,
}

abbrev pub append : String → String → String
append String.[] t = t
append (String.◌∷◌ c s) t = String.◌∷◌ c (append s t)

abbrev pub has_no_dollar : String → Bool
has_no_dollar String.[] = true
has_no_dollar (String.◌∷◌ c s) = not (code c == b'$') && has_no_dollar s

pub record Library : Type 0 where
  -- password, salt, iterations, memory, parallelism, length
  pub id_key : String → List ℕ → ℕ → ℕ → ℕ → ℕ → List ℕ
  pub encode : List ℕ → String
  pub decode : String → Option (List ℕ)
  pub scan_version : String → Option ℕ
  pub scan_costs : String → Option (ℕ × ℕ × ℕ)
  pub length-id_key :
      (p : String) (salt : List ℕ) (t m k n : ℕ) → length (id_key p salt t m k n) ≡ n
  pub decode-encode : (b : List ℕ) → decode (encode b) ≡ some b
  pub encode-has_no_dollar : (b : List ℕ) → has_no_dollar (encode b) ≡ true
  pub scan_version-written : scan_version "v=19" ≡ some 19
  pub scan_costs-written : scan_costs "m=65536,t=3,p=4" ≡ some (65536, 3, 4)

-- The fields with a dollar between any two.
abbrev pub join : List String → String
join [] = ""
join (x ∷ []) = x
join (x ∷ y ∷ r) = append x (String.◌∷◌ "$" (join (y ∷ r)))

-- strings.Split at the dollars: the first part, and the others.
unfoldable pub split : String → String × List String
split String.[] = ("", [])
split (String.◌∷◌ c s) =
    let (first, rest) = split s in
    if code c == b'$' then ("", first ∷ rest) else (String.◌∷◌ c first, rest)

abbrev pub same_bytes : List ℕ → List ℕ → Bool
same_bytes [] [] = true
same_bytes [] (b ∷ bs) = false
same_bytes (a ∷ as_) [] = false
same_bytes (a ∷ as_) (b ∷ bs) = a == b && same_bytes as_ bs

-- `panics` is no error: argon2.IDKey panics on no iterations or no parallelism.
pub data HashError : Type 0 where
  invalid_hash mismatched_password panics : HashError

module _ (l : Library) where
  -- `$argon2id$v=19$m=65536,t=3,p=4$<salt>$<hash>`; the salt is what the random source gives.
  unfoldable pub hash_password : String → Option (List ℕ) → Option String
  hash_password password none = none
  hash_password password (some salt) = some (
      join (
        ""
        ∷ "argon2id"
        ∷ "v=19"
        ∷ "m=65536,t=3,p=4"
        ∷ l.encode salt
        ∷ l.encode (l.id_key password salt 3 65536 4 32)
        ∷ []))

  -- The password against a salt and a hash that were read.
  abbrev pub compare_hash :
      String → Option (ℕ × ℕ × ℕ) → Option (List ℕ) → Option (List ℕ) → Option HashError
  compare_hash password none salt hash = some invalid_hash
  compare_hash password (some costs) none hash = some invalid_hash
  compare_hash password (some costs) (some salt) none = some invalid_hash
  compare_hash password (some (memory, iterations, parallelism)) (some salt) (some hash) =
      if iterations == 0 || parallelism == 0
      then some panics
      else if same_bytes hash (l.id_key password salt iterations memory parallelism (length hash))
      then none
      else some mismatched_password

  -- The parts of an encoded hash, of which there must be six.
  abbrev pub verify_parts : String → String × List String → Option HashError
  verify_parts password (first, kind ∷ version ∷ costs ∷ salt ∷ hash ∷ []) =
      if not (str_eq kind "argon2id") then some invalid_hash else elim (l.scan_version version) [
        | none ↦ some invalid_hash
        | some v ↦ compare_hash password (l.scan_costs costs) (l.decode salt) (l.decode hash)
      ]
  verify_parts password _ = some invalid_hash

  -- The error, if there is one.
  unfoldable pub verify_password : String → String → Option HashError
  unfolding split
  verify_password password encoded = verify_parts password (split encoded)

  split-append :
      (s rest : String)
      → has_no_dollar s ≡ true
      → split (append s (String.◌∷◌ "$" rest)) ≡ (s, (split rest).0 ∷ (split rest).1)
  unfolding split
  split-append String.[] rest e = refl
  split-append (String.◌∷◌ c s) rest e =
      let other : (code c == b'$') ≡ false = ground (arith, e) in
      rw (split-append s rest (ground (arith, e)), other) refl

  split-last : (s : String) → has_no_dollar s ≡ true → split s ≡ (s, [])
  unfolding split
  split-last String.[] e = refl
  split-last (String.◌∷◌ c s) e =
      let other : (code c == b'$') ≡ false = ground (arith, e) in
      rw (split-last s (ground (arith, e)), other) refl

  same_bytes_refl : (b : List ℕ) → same_bytes b b ≡ true
  same_bytes_refl [] = refl
  same_bytes_refl (x ∷ xs) = ground (arith, same_bytes_refl xs)

  abbrev NoDollars : List String → Type 0
  NoDollars [] = Unit
  NoDollars (x ∷ xs) = (has_no_dollar x ≡ true) × NoDollars xs

  split-join :
      (x : String) (xs : List String) → NoDollars (x ∷ xs) → split (join (x ∷ xs)) ≡ (x, xs)
  split-join x [] h = split-last x h.0
  split-join x (y ∷ r) h =
      split-append x (join (y ∷ r)) h.0
      ∙ ap (λ (p : String × List String). (x, p.0 ∷ p.1)) (split-join y r h.1)

  compare_hash-written :
      (password : String) (salt : List ℕ)
      → let hash = l.id_key password salt 3 65536 4 32 in
        compare_hash password
          (l.scan_costs "m=65536,t=3,p=4")
          (l.decode (l.encode salt))
          (l.decode (l.encode hash))
        ≡ none
  compare_hash-written password salt =
      let hash : List ℕ = l.id_key password salt 3 65536 4 32 in
      rw
        (
          l.scan_costs-written,
          l.decode-encode salt,
          l.decode-encode hash,
          l.length-id_key password salt 3 65536 4 32,
          same_bytes_refl hash,
        )
        refl

  -- A password verifies against each hash that was made of it.
  pub verify_password-hash_password :
      (password : String) (salt : Option (List ℕ)) (encoded : String)
      → hash_password password salt ≡ some encoded
      → verify_password password encoded ≡ none
  unfolding hash_password verify_password
  verify_password-hash_password password none encoded e = absurd (ground (arith, e))
  verify_password-hash_password password (some salt) encoded e =
      let hash : String = l.encode (l.id_key password salt 3 65536 4 32) in
      let fields : List String =
        "argon2id" ∷ "v=19" ∷ "m=65536,t=3,p=4" ∷ l.encode salt ∷ hash ∷ [] in
      let written : join ("" ∷ fields) ≡ encoded = ground (arith, e) in
      let parts : split encoded ≡ ("", fields) =
        ap split (sym written)
        ∙ split-join "" fields (
          refl,
          (
            refl,
            (
              refl,
              (
                refl,
                (
                  l.encode-has_no_dollar salt,
                  (l.encode-has_no_dollar (l.id_key password salt 3 65536 4 32), tt),
                ),
              ),
            ),
          ),
        ) in
      subst (λ z. verify_parts password z ≡ none) (sym parts)
        (rw l.scan_version-written (compare_hash-written password salt))
