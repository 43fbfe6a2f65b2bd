-- ===== src/Handlers/Payment/Complete.antt =====
-- HandleStripeComplete of api/handlers/payment_handler.go: a payment is run over its route, then over
-- alternatives, and refunded when no run succeeds. `txn` is a pointer to the store's entry, so it is
-- read again wherever the source reads it.
pub mod Settles
pub mod Attempts
use Prim.Native.String.{◌++◌ as str_append}
use vibranium_quadsquad.Base.{
  ℕ, zero, suc, ◌+◌, String, Bool, true, false, not, ◌&&◌, ◌||◌, Option, none, some, List, [],
  if◌then◌else◌, str_eq, ltb,
}
use vibranium_quadsquad.Base.Float.{Float}
use vibranium_quadsquad.Http.{Request, Response, refuse, answer}
use vibranium_quadsquad.Payments.{
  Store, Transaction, Error, Tick, get_transaction, process_transaction_with_route,
  reset_transaction_for_retry, mark_as_refunded,
}
use vibranium_quadsquad.Stripe.{
  StripeApi, StripeClient, confirm_payment_intent, refund_payment, is_mock_mode,
}
use vibranium_quadsquad.Handlers.Payment.{
  PaymentHandler, PaymentResult, with_body, is_success, result_of, user_id_of, get_status_message,
}
use vibranium_quadsquad.Handlers.Payment.Routes.{get_alternative_routes, route_for}

pub record StripeCompleteRequest : Type 0 where
  pub transaction_id : String
  pub stripe_payment_id : String

-- `receipt_url` is "/api/v1/receipts/" and the id.
pub record StripeCompleteResponse (F : Type 0) : Type 0 where
  pub result : PaymentResult F
  pub receipt_url : String

-- What each attempt reads: the clock at its start, and what its hops read.
pub record World : Type 0 where
  pub now : ℕ → ℕ
  pub ticks : ℕ → ℕ → Tick

abbrev pub is_none : {A : Type 0} → Option A → Bool
is_none none = true
is_none (some _) = false

module _ (f : Float) where
  abbrev pub has_succeeded : Option (Transaction f.F) → Bool
  has_succeeded none = false
  has_succeeded (some t) = is_success t.status

  abbrev pub max_retries : ℕ
  max_retries = 3

  -- The loop over the attempts, `n` of them left.
  unfoldable pub attempts :
      String
      → List (List String)
      → List String
      → List (String × f.F)
      → World
      → ℕ
      → ℕ
      → Store f.F
      → Store f.F
  unfolding route_for
  attempts id alternatives original rates w zero attempt s = s
  attempts id alternatives original rates w (suc n) attempt s =
      elim (route_for alternatives original attempt) [
        | none ↦ s
        | some route ↦
            let (e, s') =
              process_transaction_with_route f s id (w.now attempt) route rates (f.lit 15 2)
                (w.ticks attempt) in
            let again =
              attempts id alternatives original rates w n (attempt + 1)
                (if ltb attempt max_retries then reset_transaction_for_retry f s' id else s') in
            if is_none e && has_succeeded (get_transaction f s' id) then s' else again
      ]

  module _ (api : StripeApi) where
    -- What is done when no attempt succeeded.
    unfoldable pub refund_failed :
        StripeClient → StripeCompleteRequest → Store f.F → Option (Transaction f.F) → Store f.F
    refund_failed client q s none = s
    refund_failed client q s (some t) =
        elim (refund_payment api client q.stripe_payment_id (f.trunc (f.mul t.amount (f.lit 100 0)))
          "anti_fragility_all_routes_failed") [
            | none ↦ s
            | some refund ↦ mark_as_refunded f s q.transaction_id refund.id
          ]

    unfoldable pub run_and_refund :
        PaymentHandler f.F → StripeCompleteRequest → World → Transaction f.F → Store f.F
    unfolding attempts refund_failed get_alternative_routes
    run_and_refund h q w t =
        let s =
          attempts q.transaction_id (get_alternative_routes t.route) t.route h.fx_rates w
            max_retries 1 h.txn_store in
        let now = get_transaction f s q.transaction_id in
        if has_succeeded now then s else refund_failed h.stripe_client q s now

    abbrev pub complete_response : Store f.F → StripeCompleteRequest → StripeCompleteResponse f.F
    complete_response s q = record {
      result = result_of f (get_transaction f s q.transaction_id);
      receipt_url = str_append "/api/v1/receipts/" q.transaction_id;
    }

    abbrev pub finish :
        PaymentHandler f.F
        → StripeCompleteRequest
        → World
        → Transaction f.F
        → Response (StripeCompleteResponse f.F) × PaymentHandler f.F
    finish h q w t =
        let s = run_and_refund h q w t in
        (answer 200 (complete_response s q), record h { txn_store = s })

    unfoldable pub handle_stripe_complete :
        PaymentHandler f.F
        → Request StripeCompleteRequest
        → World
        → Response (StripeCompleteResponse f.F) × PaymentHandler f.F
    unfolding user_id_of get_status_message
    handle_stripe_complete h r w = with_body r h λ user q.
        elim (get_transaction f h.txn_store q.transaction_id) [
          | none ↦ (refuse 404 "transaction not found", h)
          | some t ↦
              if not (str_eq t.user_id user) && not (str_eq user "demo-user")
              then (refuse 401 "unauthorized", h)
              else elim (confirm_payment_intent api h.stripe_client q.stripe_payment_id) [
                | none ↦ (refuse 400 "payment verification failed", h)
                | some p ↦
                    if not (str_eq p.status "succeeded") && not (is_mock_mode h.stripe_client)
                    then (refuse 402 (str_append "payment not completed: " p.status), h)
                    else finish h q w t
              ]
        ]
