-- ===== src/Handlers/Payment/Access.antt =====
-- Who may run a payment: the user that the handlers of api/handlers/payment_handler.go act for, and
-- what HandleConfirmPayment asks before a payment is run.
use Prim.Native.String.{len}
use vibranium_quadsquad.Base.{
  ap, subst, ◌∙◌, none, ℕ, ◌≤◌, ◌≡◌, refl, ◌⊎◌, inl, inr, String, not, ◌||◌, Option, some, [],
  arith, eq_iff, if◌then◌else◌, str_eq, ltb, Bool-cases, Option-cases,
}
use vibranium_quadsquad.Base.Float.{Float}
use vibranium_quadsquad.Auth.{User}
use vibranium_quadsquad.Http.{
  Context, Request, Response, refuse, with_value, middleware_key, auth_user,
}
use vibranium_quadsquad.Payments.{Transaction, Tick, get_transaction}
use vibranium_quadsquad.Handlers.Payment.{
  PaymentHandler, PaymentResult, ConfirmPaymentRequest, user_id_of, confirm, handle_confirm_payment,
}

-- The user whom the authentication middleware puts into the context is not the one a payment handler
-- acts for: on a context with nothing else in it, that is the one named by the header X-User-ID, or
-- "demo-user" without one.
pub user_id_of-ignores_token :
    (u : User) (header : String)
    → user_id_of (with_value [] (middleware_key "user") (auth_user u)) header
      ≡ (if not (str_eq header "") then header else "demo-user")
unfolding user_id_of
user_id_of-ignores_token u header = refl

-- The context of a request whose token was read, or without one.
abbrev pub context_of : Option User → Context
context_of none = []
context_of (some u) = with_value [] (middleware_key "user") (auth_user u)

-- The header's user, or the demonstration's without one.
abbrev pub named_by : String → String
named_by header = if str_eq header "" then "demo-user" else header

user_id_of-named_by :
    (u : Option User) (header : String) → user_id_of (context_of u) header ≡ named_by header
unfolding user_id_of
user_id_of-named_by none header = ground arith
user_id_of-named_by (some u) header = ground arith

module _ (f : Float) where
  abbrev pub Outcome : Type 0
  Outcome = Response (PaymentResult f.F) × PaymentHandler f.F

  abbrev pub Refused : PaymentHandler f.F → Outcome → Type 0
  Refused h x = (code : ℕ) × (message : String) × (x ≡ (refuse code message, h))

  -- A confirmation that is let through.
  pub record Confirmed (h : PaymentHandler f.F) (user : String)
      (body : Option ConfirmPaymentRequest) (now : ℕ) (world : ℕ → Tick) (x : Outcome)
      : Type 0 where
    pub request : ConfirmPaymentRequest
    pub payment : Transaction f.F
    pub read : body ≡ some request
    pub found : get_transaction f h.txn_store request.transaction_id ≡ some payment
    pub owned : payment.user_id ≡ user
    pub not_short : 13 ≤ len request.card_number
    pub not_long : len request.card_number ≤ 19
    pub runs : x ≡ confirm f h request now world

  -- The checks, in the order of the source.
  confirmation_cases :
      (h : PaymentHandler f.F) (r : Request ConfirmPaymentRequest) (now : ℕ) (world : ℕ → Tick)
      → let x = handle_confirm_payment f h r now world in
        Refused h x ⊎ Confirmed h (user_id_of r.context r.user_header) r.body now world x
  unfolding handle_confirm_payment
  confirmation_cases h r now world =
      let user : String = user_id_of r.context r.user_header in
      elim (Bool-cases (str_eq r.method "POST")) [
        | inr a ↦ rw a (inl (405, "method not allowed", refl))
        | inl a ↦ elim (Bool-cases (str_eq user "")) [
          | inl b ↦ rw (a, b) (inl (401, "unauthorized", refl))
          | inr b ↦ elim (Option-cases r.body) [
            | inl c ↦ rw (a, b, c) (inl (400, "invalid request body", refl))
            | inr (q, c) ↦ elim (Option-cases (get_transaction f h.txn_store q.transaction_id)) [
              | inl d ↦ rw (a, b, c, d) (inl (404, "transaction not found", refl))
              | inr (t, d) ↦ elim (Bool-cases (str_eq t.user_id user)) [
                | inr o ↦ rw (a, b, c, d, o) (inl (401, "unauthorized", refl))
                | inl o ↦
                    elim (Bool-cases (ltb (len q.card_number) 13 || ltb 19 (len q.card_number))) [
                      | inl k ↦ rw (a, b, c, d, o, k) (inl (400, "invalid card number", refl))
                      | inr k ↦
                          rw (a, b, c, d, o, k)
                            (inr (record {
                              request = q;
                              payment = t;
                              read = refl;
                              found = d;
                              owned = (eq_iff t.user_id user).0 o;
                              not_short = ground arith;
                              not_long = ground arith;
                              runs = refl;
                            }))
                    ]
              ]
            ]
          ]
        ]
      ]

  -- Whether or not a token was read, and whoever it names: a confirmation is refused and changes
  -- nothing, or it is a payment of the user that the header X-User-ID names, of "demo-user" without
  -- the header, that is run, and the card number has 13 to 19 characters.
  pub handle_confirm_payment-checks :
      (h : PaymentHandler f.F) (r : Request ConfirmPaymentRequest) (u : Option User) (now : ℕ)
      (world : ℕ → Tick)
      → r.context ≡ context_of u
      → let x = handle_confirm_payment f h r now world in
        Refused h x ⊎ Confirmed h (named_by r.user_header) r.body now world x
  handle_confirm_payment-checks h r u now world e =
      subst
        (λ (user : String).
          Refused h (handle_confirm_payment f h r now world)
          ⊎ Confirmed h user r.body now world (handle_confirm_payment f h r now world))
        (ap (λ c. user_id_of c r.user_header) e ∙ user_id_of-named_by u r.user_header)
        (confirmation_cases h r now world)
