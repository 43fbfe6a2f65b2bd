-- ===== src/Security.antt =====
-- api/middleware/security.go: the checks of origins and of external URLs, and the cleaning of input.
-- Parsing of URLs and IP addresses, and strings.EqualFold, are arguments. The headers that
-- SecurityHeaders sets are constants, and InputValidation only wraps the body.
pub mod Clean
mod Tests
use Prim.Native.Char.{Char, code}
use Prim.Native.String
use text.Mathlib.Text.{find?}
use vibranium_quadsquad.Base.{
  ℕ, String, Bool, true, false, not, ◌&&◌, ◌||◌, Option, none, some, List, [], ◌∷◌, if◌then◌else◌,
  has, str_eq, leb, ◌==◌,
}

abbrev pub allowed_origins : List String
allowed_origins =
    "http://localhost:3000" ∷ "http://localhost:8080" ∷ "http://127.0.0.1:3000"
    ∷ "http://127.0.0.1:8080" ∷ []

-- strings.Contains
abbrev pub contains : String → String → Bool
contains s part = elim (find? s part) [ none ↦ false | some i ↦ true ]

unfoldable pub is_origin_allowed : String → String → Bool
is_origin_allowed origin request_host =
    if str_eq origin ""
    then true
    else if has origin allowed_origins
    then true
    else contains origin request_host

-- Whether a host is that of an allowed origin; these always parse.
abbrev pub any_host : (String → Option String) → String → List String → Bool
any_host host_of host [] = false
any_host host_of host (o ∷ os) =
    let rest = any_host host_of host os in
    elim (host_of o) [ none ↦ rest | some h ↦ str_eq host h || rest ]

pub record CsrfRequest : Type 0 where
  pub method : String
  pub host : String
  pub origin : String
  pub referer : String

-- Why a request is refused with 403, if it is; `host_of` is the host of url.Parse, `none` when
-- parsing fails.
unfoldable pub csrf_refusal : (String → Option String) → CsrfRequest → Option String
unfolding is_origin_allowed
csrf_refusal host_of r =
    if str_eq r.method "GET" || str_eq r.method "HEAD" || str_eq r.method "OPTIONS"
    then none
    else if not (is_origin_allowed r.origin r.host)
    then some "CSRF validation failed: invalid origin"
    else if str_eq r.origin "" && not (str_eq r.referer "")
    then elim (host_of r.referer) [
      | none ↦ none
      | some host ↦
          if not (any_host host_of host allowed_origins) && not (contains host r.host)
          then some "CSRF validation failed: invalid referer"
          else none
    ]
    else none

abbrev pub blocked_hosts : List String
blocked_hosts =
    "localhost" ∷ "127.0.0.1" ∷ "0.0.0.0" ∷ "169.254.169.254" ∷ "metadata.google.internal"
    ∷ "metadata.azure.internal" ∷ []

pub record Url : Type 0 where
  pub scheme : String
  pub hostname : String

-- What net.IP tells of an address.
pub record Address : Type 0 where
  pub is_private : Bool
  pub is_loopback : Bool
  pub is_link_local : Bool
  pub is_unspecified : Bool

abbrev pub is_blocked : (String → String → Bool) → String → List String → Bool
is_blocked equal_fold host [] = false
is_blocked equal_fold host (b ∷ bs) = equal_fold host b || is_blocked equal_fold host bs

unfoldable pub address_error : Address → Option String
address_error a =
    if a.is_private
    then some "access to private IP addresses is not allowed"
    else if a.is_loopback
    then some "access to loopback addresses is not allowed"
    else if a.is_link_local
    then some "access to link-local addresses is not allowed"
    else if a.is_unspecified
    then some "access to unspecified addresses is not allowed"
    else none

-- The error, if there is one.
unfoldable pub validate_external_url :
    (String → Option Url)
    → (String → Option Address)
    → (String → String → Bool)
    → String
    → Option String
unfolding address_error
validate_external_url parse parse_ip equal_fold url = elim (parse url) [
  | none ↦ some "invalid URL format"
  | some u ↦
      if not (str_eq u.scheme "http") && not (str_eq u.scheme "https")
      then some "only http and https schemes are allowed"
      else if is_blocked equal_fold u.hostname blocked_hosts
      then some "access to internal hosts is not allowed"
      else elim (parse_ip u.hostname) [ none ↦ none | some a ↦ address_error a ]
]

-- unicode.IsControl
abbrev pub is_control : ℕ → Bool
is_control c = leb c 31 || (leb 127 c && leb c 159)

-- The characters that are removed: controls, but for line feed, carriage return and tab.
abbrev pub is_removed : ℕ → Bool
is_removed c = is_control c && not (c == 10) && not (c == 13) && not (c == 9)

unfoldable pub sanitize_input_preserve_html : String → String
sanitize_input_preserve_html String.[] = String.[]
sanitize_input_preserve_html (String.◌∷◌ c s) =
    let rest = sanitize_input_preserve_html s in
    if is_removed (code c) then rest else String.◌∷◌ c rest

abbrev pub append : String → String → String
append String.[] t = t
append (String.◌∷◌ c s) t = String.◌∷◌ c (append s t)

-- html.EscapeString, for one character before the rest.
abbrev pub escape_char : Char → String → String
escape_char c rest =
    if code c == b'&'
    then append "&amp;" rest
    else if code c == b'\''
    then append "&#39;" rest
    else if code c == b'<'
    then append "&lt;" rest
    else if code c == b'>'
    then append "&gt;" rest
    else if code c == b'"'
    then append "&#34;" rest
    else String.◌∷◌ c rest

unfoldable pub escape_string : String → String
escape_string String.[] = String.[]
escape_string (String.◌∷◌ c s) = let rest = escape_string s in escape_char c rest

unfoldable pub sanitize_input : String → String
unfolding sanitize_input_preserve_html escape_string
sanitize_input s = escape_string (sanitize_input_preserve_html s)
