-- ===== src/Auth/Tokens.antt =====
-- The life of a token.
use vibranium_quadsquad.Base.{
  ℕ, ◌+◌, ◌≤◌, ◌<◌, ◌≡◌, ◌≢◌, String, some, arith, if◌then◌else◌, ltb, eq_iff,
}
use vibranium_quadsquad.Auth.{
  User, TokenClaims, Paseto, TokenManager, accepted, refused, expired_token, not_yet_valid, valid,
  claims_for, generate_token, verify_token, refresh_token, user_of,
}

module _ (p : Paseto) (tm : TokenManager) (u : User) (now nonce : ℕ) (token_id token : String)
    {c : TokenClaims} (made : generate_token p tm u now token_id nonce ≡ some (token, c)) where
  -- A token that was made at `now`, after time 0, is accepted, with the claims that were returned beside it, from
  -- `now` until its time to live has passed, is expired after that, and is not valid before `now`.
  pub verify-generate :
      (later : ℕ)
      → 0 < now
      → verify_token p tm later token ≡ (
          if ltb (now + tm.token_ttl) later
          then refused expired_token
          else if ltb later now
          then refused not_yet_valid
          else accepted c)
  unfolding generate_token verify_token valid
  verify-generate later h = ground (
    arith,
    p.decrypt-encrypt tm.symmetric_key (claims_for p tm u now token_id) nonce token,
    eq_iff tm.issuer tm.issuer,
  )

  -- A manager with the same key and another issuer accepts at no time a token that was made.
  verify-other_issuer :
      (tm' : TokenManager) (later : ℕ)
      → tm'.symmetric_key ≡ tm.symmetric_key
      → tm'.issuer ≢ tm.issuer
      → (c' : TokenClaims) → verify_token p tm' later token ≢ accepted c'
  unfolding generate_token verify_token valid
  verify-other_issuer tm' later k ne c' e = ground (
    arith,
    p.decrypt-encrypt tm.symmetric_key (claims_for p tm u now token_id) nonce token,
    eq_iff tm.issuer tm'.issuer,
  )

  -- Refreshing the claims of a token that was made gives claims of the same user, email, name and
  -- role, whose token is accepted from then on for a full time to live.
  pub verify-refresh :
      (then_ nonce' later : ℕ) (token_id' token' : String) (c' : TokenClaims)
      → refresh_token p tm c then_ token_id' nonce' ≡ some (token', c')
      → then_ ≤ later
      → later ≤ then_ + tm.token_ttl
      → (verify_token p tm later token' ≡ accepted c')
        × (c'.user_id ≡ u.id)
        × (c'.email ≡ u.email)
        × (c'.username ≡ u.username)
        × (c'.role ≡ u.role)
  unfolding generate_token verify_token valid refresh_token
  verify-refresh then_ nonce' later token_id' token' c' e h k = ground (
    arith,
    p.decrypt-encrypt tm.symmetric_key (claims_for p tm (user_of p c) then_ token_id') nonce'
        token',
    eq_iff tm.issuer tm.issuer,
  )
