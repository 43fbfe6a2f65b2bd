-- ===== src/Handlers/Paths.antt =====
-- What the handlers of api/handlers take from the path of a URL: strings.TrimPrefix and
-- strings.TrimSuffix.
use Prim.Native.Char.{code}
use vibranium_quadsquad.Base.{String, Option, none, some, if◌then◌else◌, str_eq, ◌==◌}

abbrev pub strip_prefix : String → String → Option String
strip_prefix s String.[] = some s
strip_prefix String.[] (String.◌∷◌ d p) = none
strip_prefix (String.◌∷◌ c s) (String.◌∷◌ d p) =
    let rest = strip_prefix s p in if code c == code d then rest else none

unfoldable pub trim_prefix : String → String → String
trim_prefix s p = elim (strip_prefix s p) [ none ↦ s | some t ↦ t ]

unfoldable pub trim_suffix : String → String → String
trim_suffix String.[] p = String.[]
trim_suffix (String.◌∷◌ c s) p =
    let rest = trim_suffix s p in if str_eq (String.◌∷◌ c s) p then String.[] else String.◌∷◌ c rest
