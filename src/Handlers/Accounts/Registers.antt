-- ===== src/Handlers/Accounts/Registers.antt =====
-- A user who registers: what was checked, what the token is worth, and that a login follows.
use vibranium_quadsquad.Base.{
  ℕ, ◌+◌, ◌≤◌, ◌<◌, ◌≡◌, refl, sym, ap, subst, ◌∙◌, ◌⊎◌, String, Option, none, some, arith, str_eq,
  Bool-cases, Option-cases, inl, inr,
}
use vibranium_quadsquad.Auth.{
  User, TokenManager, TokenClaims, Paseto, generate_token, verify_token, accepted,
}
use vibranium_quadsquad.Auth.Tokens.{verify-generate}
use vibranium_quadsquad.Http.{Request, Response, refuse, answer}
use vibranium_quadsquad.Users.{
  Store, StoredUser, Passwords, Result, ok, authenticate, default_user, put, create_user, to_user,
}
use vibranium_quadsquad.Users.Consistency.{create_user-cases, create_user-logs_in}
use vibranium_quadsquad.Handlers.Accounts.{
  AuthHandler, LoginRequest, LoginResponse, RegisterRequest, Fresh, sign_in, handle_login,
  registered, invalid, handle_register,
}

abbrev with_users : TokenManager → Store → AuthHandler
with_users tm s = record { token_manager = tm; user_store = some s }

module _ (p : Paseto) (w : Passwords) where
  -- What holds once a registration was answered: the request was well formed, the user is a regular
  -- one, the token is worth a session, and a login with the same email and password gives the same
  -- user.
  pub record Joined (h h' : AuthHandler) (body : Option RegisterRequest) (x : Fresh) (code : ℕ)
      (a : LoginResponse) : Type 0 where
    pub request : RegisterRequest
    pub read : body ≡ some request
    pub well_formed : invalid p w request ≡ none
    pub created : code ≡ 201
    pub named : a.user.email ≡ request.email
    pub regular : a.user.role ≡ "USER"
    pub lasts :
        (later : ℕ)
        → 0 < x.now
        → x.now ≤ later
        → later ≤ x.now + h.token_manager.token_ttl
        → (c : TokenClaims) × (verify_token p h.token_manager later a.token ≡ accepted c)
          × (c.user_id ≡ a.user.id)
          × (c.role ≡ a.user.role)
    pub logs_in :
        (y : Fresh) (r : Request LoginRequest)
        → r.method ≡ "POST"
        → r.body ≡ some (record { email = request.email; password = request.password })
        → handle_login p w h' r y ≡ some (sign_in p w h 200 y a.user)

  abbrev pub Registers :
      AuthHandler → Option RegisterRequest → Fresh → Response LoginResponse → AuthHandler → Type 0
  Registers h body x (refuse code message) h' = (code ≡ 500) ⊎ (h' ≡ h)
  Registers h body x (answer code a) h' = Joined h h' body x code a

  login-ok :
      (h : AuthHandler) (s : Store) (q : LoginRequest) (u : StoredUser) (r : Request LoginRequest)
      (y : Fresh)
      → h.user_store ≡ some s
      → r.method ≡ "POST"
      → r.body ≡ some q
      → authenticate w s q.email q.password ≡ ok u
      → handle_login p w h r y ≡ some (sign_in p w h 200 y (to_user u))
  unfolding handle_login
  login-ok h s q u r y held m b e = rw (m, b, held, e) refl

  lasting :
      (tm : TokenManager) (u : User) (x : Fresh) (token : String) (c : TokenClaims)
      → generate_token p tm u x.now x.token_id x.nonce ≡ some (token, c)
      → (later : ℕ) → 0 < x.now
      → x.now ≤ later
      → later ≤ x.now + tm.token_ttl
      → (verify_token p tm later token ≡ accepted c) × (c.user_id ≡ u.id) × (c.role ≡ u.role)
  unfolding generate_token
  lasting tm u x token c e later after_zero from_now until = (
    ground (arith, verify-generate p tm u x.now x.nonce x.token_id token e later after_zero),
    ground (arith, e),
    ground (arith, e),
  )

  module _ (tm : TokenManager) (q : RegisterRequest) (x : Fresh) (s : Store)
      (good : invalid p w q ≡ none) where
    abbrev h : AuthHandler
    h = with_users tm s

    abbrev creation : Result StoredUser × Store
    creation = create_user w s x.user_id x.salt x.now q.email q.password q.username "USER"

    -- The handler once the user is stored.
    abbrev with_store : Store → AuthHandler
    with_store s' = record h { user_store = some s' }

    joined :
        (u : StoredUser) (s' : Store) (token : String) (c : TokenClaims)
        → creation ≡ (ok u, s')
        → u.email ≡ q.email
        → u.role ≡ "USER"
        → generate_token p h.token_manager (to_user u) x.now x.token_id x.nonce ≡ some (token, c)
        → Joined h
            (with_store s')
            (some q)
            x
            201
            (record { token = token; expires_at = c.expires_at; user = to_user u })
    unfolding to_user
    joined u s' token c made email_kept role_kept e = record {
      request = q;
      read = refl;
      well_formed = good;
      created = refl;
      named = email_kept;
      regular = role_kept;
      lasts = λ later a b d.
          let (checks, same_id, same_role) = lasting tm (to_user u) x token c e later a b d in
          (c, checks, same_id, same_role);
      logs_in = λ y r m b.
          login-ok (with_store s') s' (record { email = q.email; password = q.password }) u r y refl
            m b
            (ap (λ z. authenticate w z q.email q.password) (sym (ap (λ z. z.1) made))
              ∙ (create_user-logs_in w s x.user_id x.salt x.now q.email q.password q.username "USER"
                  u (ap (λ z. z.0) made)).0);
    }

    signed_in :
        (u : StoredUser) (s' : Store) (o : Option (String × TokenClaims))
        → creation ≡ (ok u, s')
        → u.email ≡ q.email
        → u.role ≡ "USER"
        → generate_token p h.token_manager (to_user u) x.now x.token_id x.nonce ≡ o
        → Registers h
            (some q)
            x
            (elim o [
              | none ↦ refuse 500 "failed to generate token"
              | some (t, c) ↦
                  answer 201 (record { token = t; expires_at = c.expires_at; user = to_user u })
            ])
            (with_store s')
    signed_in u s' none made a b e = inl refl
    signed_in u s' (some (token, c)) made a b e = joined u s' token c made a b e

    registered-Registers :
        Registers h (some q) x (registered p w h x creation).0 (registered p w h x creation).1
    registered-Registers =
        elim (create_user-cases w s x.user_id x.salt x.now q.email q.password q.username "USER") [
          | inl (e, failed_) ↦
              subst (λ z. Registers h (some q) x (registered p w h x z).0 (registered p w h x z).1)
                (sym failed_) (inr refl)
          | inr (hash, _, _, _, made) ↦
              let u : StoredUser = default_user x.user_id q.email q.username "USER" hash x.now in
              subst (λ z. Registers h (some q) x (registered p w h x z).0 (registered p w h x z).1)
                (sym made)
                (signed_in u (put s u)
                  (generate_token p h.token_manager (to_user u) x.now x.token_id x.nonce) made refl
                  refl refl)
        ]

  abbrev after_checks :
      TokenManager
      → RegisterRequest
      → Fresh
      → Store
      → Option String
      → Response LoginResponse × AuthHandler
  after_checks tm q x s o = elim o [
    | some message ↦ (refuse 400 message, with_users tm s)
    | none ↦
        registered p w (with_users tm s) x
          (create_user w s x.user_id x.salt x.now q.email q.password q.username "USER")
  ]

  after_checks-Registers :
      (tm : TokenManager) (q : RegisterRequest) (x : Fresh) (s : Store) (o : Option String)
      → invalid p w q ≡ o
      → Registers
          (with_users tm s)
          (some q)
          x
          (after_checks tm q x s o).0
          (after_checks tm q x s o).1
  after_checks-Registers tm q x s (some message) e = inr refl
  after_checks-Registers tm q x s none e = registered-Registers tm q x s e

  abbrev Answers : AuthHandler → Request RegisterRequest → Fresh → Type 0
  Answers h r x = let (a, h') = handle_register p w h r x in Registers h r.body x a h'

  answered :
      (tm : TokenManager) (o : Option Store) (r : Request RegisterRequest) (x : Fresh)
      → Answers (record { token_manager = tm; user_store = o }) r x
  unfolding handle_register
  answered tm o r x = elim (Bool-cases (str_eq r.method "POST")) [
    | inr a ↦ rw a (inr refl)
    | inl a ↦ elim o as (λ z. Answers (record { token_manager = tm; user_store = z }) r x) [
      | none ↦ rw a (inr refl)
      | some s ↦ elim (Option-cases r.body) [
        | inl c ↦ rw (a, c) (inr refl)
        | inr (q, c) ↦ rw (a, c) (after_checks-Registers tm q x s (invalid p w q) refl)
      ]
    ]
  ]

  -- A registration that is answered was well formed, with a password of 6 bytes or more and a name of
  -- 3 to 30 word characters, and stores a regular user, whose token is accepted for its time to live
  -- as that user's, and who logs in from then on with the same email and password. One that is refused
  -- leaves the handler as it was, unless the token could not be made.
  pub handle_register-Registers :
      (h : AuthHandler) (r : Request RegisterRequest) (x : Fresh)
      → let (a, h') = handle_register p w h r x in Registers h r.body x a h'
  unfolding handle_register
  handle_register-Registers h r x = answered h.token_manager h.user_store r x
