-- ===== src/Handlers/Payment/Complete/Settles.antt =====
-- How HandleStripeComplete leaves a payment: successful, or failed and marked as refunded.
use vibranium_quadsquad.Base.{
  ◌≡◌, ◌≢◌, ◌⊎◌, inl, inr, refl, sym, subst, ◌∙◌, String, true, Option, none, some, arith, lookup,
  eq_iff, Option-cases, Bool-cases, str_eq, not, ◌&&◌, if◌then◌else◌,
}
use Prim.Native.String.{◌++◌ as str_append}
use vibranium_quadsquad.Base.Float.{Float}
use vibranium_quadsquad.Http.{Request, Response, refuse, answer}
use vibranium_quadsquad.Payments.{
  Store, Transaction, Status, success, failed, pending, processing, get_transaction,
  mark_as_refunded,
}
use vibranium_quadsquad.Payments.Run.Hops.{lookup-modify}
use vibranium_quadsquad.Payments.Run.Others.{Touches}
use vibranium_quadsquad.Stripe.{
  StripeApi, StripeClient, PaymentIntentResponse, is_mock_mode, refund_payment,
  confirm_payment_intent,
}
use vibranium_quadsquad.Handlers.Payment.{PaymentHandler, is_success, user_id_of}
use vibranium_quadsquad.Handlers.Payment.Routes.{get_alternative_routes}
use vibranium_quadsquad.Handlers.Payment.Complete.{
  StripeCompleteRequest, StripeCompleteResponse, World, attempts, has_succeeded, refund_failed,
  run_and_refund, finish, handle_stripe_complete,
}
use vibranium_quadsquad.Handlers.Payment.Complete.Attempts.{attempts-Touches}

module _ (f : Float) where
  module _ (api : StripeApi) where
    -- How a payment of Stripe's intent `intent` ends.
    abbrev pub Settled : StripeClient → String → Transaction f.F → Type 0
    Settled c intent t =
        (t.status ≡ success)
        ⊎ ((t.status ≡ failed)
            × (t.payment_method
                ≡ str_append "refunded:"
                    (str_append (if is_mock_mode c then "re_mock_" else "re_") intent)))

    -- The payment of a request that was run ends in one of the two ways; no other transaction is
    -- touched.
    pub record Settles (c : StripeClient) (q : StripeCompleteRequest) (s s' : Store f.F)
        : Type 0 where
      pub paid : Transaction f.F
      pub held : lookup q.transaction_id s'.transactions ≡ some paid
      pub ends : Settled c q.stripe_payment_id paid
      pub others :
          (j : String) → q.transaction_id ≢ j → lookup j s'.transactions ≡ lookup j s.transactions

    is_success→success : (st : Status) → is_success st ≡ true → st ≡ success
    is_success→success success e = refl
    is_success→success pending e = absurd (ground (arith, e))
    is_success→success processing e = absurd (ground (arith, e))
    is_success→success failed e = absurd (ground (arith, e))

    refund_failed-Settles :
        (c : StripeClient) (q : StripeCompleteRequest) (s : Store f.F) (t : Transaction f.F)
        → lookup q.transaction_id s.transactions ≡ some t
        → Settles c q s (refund_failed f api c q s (some t))
    unfolding refund_failed refund_payment mark_as_refunded is_mock_mode
    refund_failed-Settles c q s t e =
        let method : String =
          str_append "refunded:"
            (str_append (if is_mock_mode c then "re_mock_" else "re_") q.stripe_payment_id) in
        let change : Transaction f.F → Transaction f.F =
          λ t'. record t' { status = failed; payment_method = method } in
        record {
          paid = change t;
          held = ground (
            arith,
            lookup-modify f s q.transaction_id q.transaction_id change t e,
            eq_iff q.transaction_id q.transaction_id,
          );
          ends = inr (refl, refl);
          others = λ j ne. ground (
            arith,
            lookup-modify f s q.transaction_id j change t e,
            eq_iff q.transaction_id j,
            ne,
          );
        }

    settle-Settles :
        (c : StripeClient) (q : StripeCompleteRequest) (s₀ s : Store f.F) (t : Transaction f.F)
        → lookup q.transaction_id s.transactions ≡ some t
        → Touches f q.transaction_id s₀ s
        → Settles c q s₀ (if is_success t.status then s else refund_failed f api c q s (some t))
    settle-Settles c q s₀ s t e p = elim (Bool-cases (is_success t.status)) [
      | inl won ↦ rw won (record {
        paid = t;
        held = e;
        ends = inl (is_success→success t.status won);
        others = p.others;
      })
      | inr lost ↦
          let r = refund_failed-Settles c q s t e in
          rw lost (record {
            paid = r.paid;
            held = r.held;
            ends = r.ends;
            others = λ j ne. r.others j ne ∙ p.others j ne;
          })
    ]

    run_and_refund-Settles :
        (h : PaymentHandler f.F) (q : StripeCompleteRequest) (w : World) (t : Transaction f.F)
        → lookup q.transaction_id h.txn_store.transactions ≡ some t
        → Settles h.stripe_client q h.txn_store (run_and_refund f api h q w t)
    unfolding run_and_refund get_transaction
    run_and_refund-Settles h q w t e =
        let s : Store f.F =
          attempts f q.transaction_id (get_alternative_routes t.route) t.route h.fx_rates w 3 1
            h.txn_store in
        let p =
          attempts-Touches f q.transaction_id (get_alternative_routes t.route) t.route h.fx_rates w
            3 1 h.txn_store in
        let (t', e') = p.held (t, e) in
        subst
          (λ o.
            Settles h.stripe_client q h.txn_store
              (if has_succeeded f o then s else refund_failed f api h.stripe_client q s o))
          (sym e') (settle-Settles h.stripe_client q h.txn_store s t' e' p)

    -- What the endpoint leaves: a refusal changes nothing; an answer shows the payment, which it
    -- has settled, and changes nothing else of the handler.
    abbrev pub Completes :
        PaymentHandler f.F
        → StripeCompleteRequest
        → Response (StripeCompleteResponse f.F)
        → PaymentHandler f.F
        → Type 0
    Completes h q (refuse code message) h' = h' ≡ h
    Completes h q (answer code body) h' =
        (p : Settles h.stripe_client q h.txn_store h'.txn_store) × (h'
          ≡ record h { txn_store = h'.txn_store })
        × (code ≡ 200)
        × (body.result.transaction ≡ some p.paid)
        × (body.result.is_success ≡ is_success p.paid.status)

    finish-Completes :
        (h : PaymentHandler f.F) (q : StripeCompleteRequest) (w : World) (t : Transaction f.F)
        → lookup q.transaction_id h.txn_store.transactions ≡ some t
        → Completes h q (finish f api h q w t).0 (finish f api h q w t).1
    unfolding get_transaction
    finish-Completes h q w t e =
        let p = run_and_refund-Settles h q w t e in (p, refl, refl, rw p.held refl, rw p.held refl)

    abbrev checked :
        PaymentHandler f.F
        → StripeCompleteRequest
        → World
        → Transaction f.F
        → Option PaymentIntentResponse
        → Response (StripeCompleteResponse f.F) × PaymentHandler f.F
    checked h q w t o = elim o [
      | none ↦ (refuse 400 "payment verification failed", h)
      | some p ↦
          if not (str_eq p.status "succeeded") && not (is_mock_mode h.stripe_client)
          then (refuse 402 (str_append "payment not completed: " p.status), h)
          else finish f api h q w t
    ]

    checked-Completes :
        (h : PaymentHandler f.F) (q : StripeCompleteRequest) (w : World) (t : Transaction f.F)
        (o : Option PaymentIntentResponse)
        → lookup q.transaction_id h.txn_store.transactions ≡ some t
        → Completes h q (checked h q w t o).0 (checked h q w t o).1
    checked-Completes h q w t none e = refl
    checked-Completes h q w t (some p) e =
        elim (Bool-cases
          (not (str_eq p.status "succeeded") && not (is_mock_mode h.stripe_client))) [
            | inl y ↦ rw y refl
            | inr y ↦ rw y (finish-Completes h q w t e)
          ]

    -- Completing a payment: a refusal changes nothing. An answer shows the stored transaction as it
    -- is then, a success, or failed and marked as refunded with the refund of the given Stripe
    -- payment; the success flag is that of the transaction, and no other transaction changes, nor
    -- anything else of the handler.
    pub handle_stripe_complete-Completes :
        (h : PaymentHandler f.F) (r : Request StripeCompleteRequest) (q : StripeCompleteRequest)
        (w : World)
        → r.body ≡ some q
        → let (a, h') = handle_stripe_complete f api h r w in Completes h q a h'
    unfolding handle_stripe_complete get_transaction
    handle_stripe_complete-Completes h r q w e =
        let user : String = user_id_of r.context r.user_header in
        elim (Bool-cases (str_eq r.method "POST")) [
          | inr a ↦ rw a refl
          | inl a ↦ elim (Bool-cases (str_eq user "")) [
            | inl b ↦ rw (a, b) refl
            | inr b ↦ elim (Option-cases (get_transaction f h.txn_store q.transaction_id)) [
              | inl c ↦ rw (a, b, e, c) refl
              | inr (t, c) ↦
                  elim (Bool-cases (not (str_eq t.user_id user) && not (str_eq user "demo-user"))) [
                    | inl d ↦ rw (a, b, e, c, d) refl
                    | inr d ↦
                        rw (a, b, e, c, d)
                          (checked-Completes h q w t
                            (confirm_payment_intent api h.stripe_client q.stripe_payment_id) c)
                  ]
            ]
          ]
        ]
