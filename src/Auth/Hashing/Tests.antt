-- ===== src/Auth/Hashing/Tests.antt =====
-- Hashing with a key of zeros, and numbers written in strokes.
use Prim.Native.Char.{code}
use vibranium_quadsquad.Base.{
  ℕ, zero, suc, ◌≡◌, refl, ap, ◌∙◌, String, true, none, some, List, [], ◌∷◌, if◌then◌else◌, length,
  str_eq, ◌==◌,
}
use vibranium_quadsquad.Auth.Hashing.{
  Library, has_no_dollar, hash_password, verify_password, join, verify_password-hash_password,
}

abbrev zeros : ℕ → List ℕ
zeros zero = []
zeros (suc n) = 0 ∷ zeros n

length-zeros : (n : ℕ) → length (zeros n) ≡ n
length-zeros zero = refl
length-zeros (suc n) = ap suc (length-zeros n)

abbrev strokes_before : ℕ → String → String
strokes_before zero s = String.◌∷◌ "," s
strokes_before (suc n) s = String.◌∷◌ "1" (strokes_before n s)

abbrev in_strokes : List ℕ → String
in_strokes [] = String.[]
in_strokes (b ∷ bs) = strokes_before b (in_strokes bs)

abbrev one_more : List ℕ → List ℕ
one_more [] = []
one_more (b ∷ bs) = suc b ∷ bs

abbrev count_strokes : String → List ℕ
count_strokes String.[] = []
count_strokes (String.◌∷◌ c s) =
    let rest = count_strokes s in if code c == b',' then 0 ∷ rest else one_more rest

count_strokes-strokes_before :
    (n : ℕ) (s : String) → count_strokes (strokes_before n s) ≡ n ∷ count_strokes s
count_strokes-strokes_before zero s = refl
count_strokes-strokes_before (suc n) s = ap one_more (count_strokes-strokes_before n s)

count_strokes-in_strokes : (b : List ℕ) → count_strokes (in_strokes b) ≡ b
count_strokes-in_strokes [] = refl
count_strokes-in_strokes (b ∷ bs) =
    count_strokes-strokes_before b (in_strokes bs) ∙ ap (λ z. b ∷ z) (count_strokes-in_strokes bs)

strokes_before-has_no_dollar :
    (n : ℕ) (s : String) → has_no_dollar s ≡ true → has_no_dollar (strokes_before n s) ≡ true
strokes_before-has_no_dollar zero s e = e
strokes_before-has_no_dollar (suc n) s e = strokes_before-has_no_dollar n s e

in_strokes-has_no_dollar : (b : List ℕ) → has_no_dollar (in_strokes b) ≡ true
in_strokes-has_no_dollar [] = refl
in_strokes-has_no_dollar (b ∷ bs) =
    strokes_before-has_no_dollar b (in_strokes bs) (in_strokes-has_no_dollar bs)

library : Library
library = record {
  id_key = λ p salt t m k n. zeros n;
  encode = in_strokes;
  decode = λ s. some (count_strokes s);
  scan_version = λ s. if str_eq s "v=19" then some 19 else none;
  scan_costs = λ s. if str_eq s "m=65536,t=3,p=4" then some (65536, 3, 4) else none;
  length-id_key = λ p salt t m k n. length-zeros n;
  decode-encode = λ b. ap some (count_strokes-in_strokes b);
  encode-has_no_dollar = in_strokes-has_no_dollar;
  scan_version-written = refl;
  scan_costs-written = refl;
}

abbrev encoded : String
encoded = join (
    ""
    ∷ "argon2id"
    ∷ "v=19"
    ∷ "m=65536,t=3,p=4"
    ∷ in_strokes (7 ∷ 2 ∷ [])
    ∷ in_strokes (zeros 32)
    ∷ [])

verify_password-hash_password_example : verify_password library "secret" encoded ≡ none
unfolding hash_password library
verify_password-hash_password_example =
    verify_password-hash_password library "secret" (some (7 ∷ 2 ∷ [])) encoded refl
