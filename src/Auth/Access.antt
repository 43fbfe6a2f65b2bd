-- ===== src/Auth/Access.antt =====
-- Who reaches a handler behind the middleware.
use vibranium_quadsquad.Base.{
  ℕ, ◌≡◌, ◌≢◌, ◌↔◌, ◌⊎◌, refl, String, true, some, arith, str_eq, eq_iff, Bool-cases, Option-cases,
  inl, inr,
}
use vibranium_quadsquad.Auth.{
  User, Paseto, TokenManager, TokenClaims, forbidden, served, accepted, role_admin, has_permission,
  require_role, require_admin, require_user, authenticate, Checked, refused, respond, verify_token,
  split_space, is_bearer,
}

module _ (p : Paseto) where
  -- A handler that needs a role serves exactly the users of that role and the administrators.
  pub require_role-serves_iff :
      (role : String) (u : User)
      → (require_role p role (λ v. served (some v)) (some u) ≡ served (some u))
        ↔ ((u.role ≡ role_admin) ⊎ (u.role ≡ role))
  unfolding require_role has_permission
  require_role-serves_iff role u = (
    λ e. ground (arith, eq_iff u.role role_admin, eq_iff u.role role),
    λ e. ground (arith, eq_iff u.role role_admin, eq_iff u.role role),
  )

  -- Of the handlers for administrators and for regular users, exactly one serves a given user.
  pub require_admin-or-require_user :
      (u : User)
      → ((require_admin p (λ v. served (some v)) (some u) ≡ served (some u))
          × (require_user p (λ v. served (some v)) (some u) ≡ forbidden)
          × (u.role ≡ role_admin))
        ⊎ ((require_admin p (λ v. served (some v)) (some u) ≡ forbidden)
            × (require_user p (λ v. served (some v)) (some u) ≡ served (some u))
            × (u.role ≢ role_admin))
  unfolding require_admin require_role require_user has_permission
  require_admin-or-require_user u = elim (Bool-cases (str_eq u.role role_admin)) [
    | inl yes_ ↦ inl (ground arith, ground arith, (eq_iff u.role role_admin).0 yes_)
    | inr no_ ↦ inr (ground arith, ground arith, λ e. ground (arith, eq_iff u.role role_admin))
  ]

  served_inversion :
      (r : Checked) (u : User)
      → respond p (λ v. served (some v)) r ≡ served (some u)
      → (c : TokenClaims) × (r ≡ accepted c) × (u.id ≡ c.user_id) × (u.role ≡ c.role)
  served_inversion (accepted c) u e = (c, refl, ground arith, ground arith)
  served_inversion (refused x) u e = absurd (ground arith)

  -- A request is served only with a header of two parts, the first of them "bearer" in any case, whose
  -- token is accepted; the user that the handler sees has the identity and the role of its claims.
  pub authenticate-serves :
      (tm : TokenManager) (now : ℕ) (header : String) (u : User)
      → authenticate p tm now header (λ v. served (some v)) ≡ served (some u)
      → (scheme : String) × (token : String) × (c : TokenClaims) × (split_space p header
          ≡ some (scheme, token))
        × (is_bearer p scheme ≡ true)
        × (verify_token p tm now token ≡ accepted c)
        × (u.id ≡ c.user_id)
        × (u.role ≡ c.role)
  unfolding authenticate
  authenticate-serves tm now header u e = elim (Bool-cases (str_eq header "")) [
    | inl empty ↦ absurd (ground arith)
    | inr full ↦ elim (Option-cases (split_space p header)) [
      | inl none_ ↦ absurd (ground arith)
      | inr ((scheme, token), h) ↦ elim (Bool-cases (is_bearer p scheme)) [
        | inr other ↦ absurd (ground arith)
        | inl bearer ↦
            let (c, ok, i, r) = served_inversion (verify_token p tm now token) u (ground arith) in
            (scheme, token, c, h, bearer, ok, i, r)
      ]
    ]
  ]
