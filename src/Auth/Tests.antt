-- ===== src/Auth/Tests.antt =====
-- Tokens and access, with an encryption that knows the claims of one user alone.
use vibranium_quadsquad.Base.{
  ◌+◌, ◌≡◌, ◌⊎◌, ◌↔◌, refl, String, true, some, arith, if◌then◌else◌, ltb,
}
use vibranium_quadsquad.Auth.{
  User, TokenClaims, role_admin, accepted, refused, expired_token, not_yet_valid, verify_token,
  generate_token, refresh_token, require_role, served, authenticate, split_space, is_bearer,
}
use vibranium_quadsquad.Auth.Tokens.{verify-generate, verify-refresh}
use vibranium_quadsquad.Auth.Access.{require_role-serves_iff, authenticate-serves}
use vibranium_quadsquad.Auth.Samples.{ann, manager, claims_at, sealed}

verify-generate_example : verify_token sealed manager 50 "1111111" ≡ (
    if ltb (7 + 100) 50
    then refused expired_token
    else if ltb 50 7
    then refused not_yet_valid
    else accepted (claims_at 7))
unfolding generate_token
verify-generate_example =
    verify-generate sealed manager ann 7 0 "id" "1111111" {c = claims_at 7} refl 50 (omega arith)

verify-refresh_example :
    (verify_token sealed manager 15 "111111111" ≡ accepted (claims_at 9))
    × ((claims_at 9).user_id ≡ ann.id)
    × ((claims_at 9).email ≡ ann.email)
    × ((claims_at 9).username ≡ ann.username)
    × ((claims_at 9).role ≡ ann.role)
unfolding generate_token refresh_token
verify-refresh_example =
    verify-refresh sealed manager ann 7 0 "id" "1111111" {c = claims_at 7} refl 9 0 15 "id"
      "111111111" (claims_at 9) refl (omega arith) (omega arith)

require_role-serves_iff_example :
    (require_role sealed "USER" (λ v. served (some v)) (some ann) ≡ served (some ann))
    ↔ ((ann.role ≡ role_admin) ⊎ (ann.role ≡ "USER"))
require_role-serves_iff_example = require_role-serves_iff sealed "USER" ann

abbrev seen : User
seen = record ann { full_name = ""; organization = "" }

authenticate-serves_example :
    (scheme : String) × (token : String) × (c : TokenClaims) × (split_space sealed "Bearer 1111111"
      ≡ some (scheme, token))
    × (is_bearer sealed scheme ≡ true)
    × (verify_token sealed manager 50 token ≡ accepted c)
    × (seen.id ≡ c.user_id)
    × (seen.role ≡ c.role)
unfolding authenticate
authenticate-serves_example = authenticate-serves sealed manager 50 "Bearer 1111111" seen refl
