-- ===== src/Security/Clean.antt =====
-- What SanitizeInput lets through.
use Prim.Native.Char.{Char, code}
use vibranium_quadsquad.Base.{
  ℕ, ◌≡◌, refl, String, Bool, true, false, not, ◌&&◌, ◌==◌, arith, Bool-cases, inl, inr,
}
use vibranium_quadsquad.Security.{
  is_removed, escape_char, escape_string, sanitize_input, sanitize_input_preserve_html,
}

-- A character that neither ends a piece of HTML text or an attribute nor is a removed control.
abbrev pub is_harmless : ℕ → Bool
is_harmless c =
    not (is_removed c) && not (c == b'<') && not (c == b'>') && not (c == b'"') && not (c == b'\'')

abbrev pub all_chars : (ℕ → Bool) → String → Bool
all_chars p String.[] = true
all_chars p (String.◌∷◌ c s) = p (code c) && all_chars p s

escape_char-harmless :
    (c : Char) (rest : String)
    → is_removed (code c) ≡ false
    → all_chars is_harmless rest ≡ true
    → all_chars is_harmless (escape_char c rest) ≡ true
escape_char-harmless c rest kept e = elim (Bool-cases (code c == b'&')) [
  | inl a ↦ rw a e
  | inr a ↦ elim (Bool-cases (code c == b'\'')) [
    | inl b ↦ rw (a, b) e
    | inr b ↦ elim (Bool-cases (code c == b'<')) [
      | inl d ↦ rw (a, b, d) e
      | inr d ↦ elim (Bool-cases (code c == b'>')) [
        | inl g ↦ rw (a, b, d, g) e
        | inr g ↦ elim (Bool-cases (code c == b'"')) [
          | inl h ↦ rw (a, b, d, g, h) e
          | inr h ↦ ground (arith, kept, e)
        ]
      ]
    ]
  ]
]

cleaned-harmless :
    (s : String) → all_chars is_harmless (escape_string (sanitize_input_preserve_html s)) ≡ true
unfolding escape_string sanitize_input_preserve_html
cleaned-harmless String.[] = refl
cleaned-harmless (String.◌∷◌ c s) = elim (Bool-cases (is_removed (code c))) [
  | inl gone ↦ rw gone (cleaned-harmless s)
  | inr kept ↦ rw kept (
      escape_char-harmless c (escape_string (sanitize_input_preserve_html s)) kept
        (cleaned-harmless s))
]

-- No cleaned input holds an angle bracket, a quote, or a control other than line feed, carriage return
-- and tab.
pub sanitize_input-harmless : (s : String) → all_chars is_harmless (sanitize_input s) ≡ true
unfolding sanitize_input
sanitize_input-harmless s = cleaned-harmless s
