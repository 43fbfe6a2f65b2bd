-- ===== src/Handlers/Payment/Checkout.antt =====
-- HandleStripeInitiate of api/handlers/payment_handler.go: a transaction is stored, then a Stripe
-- payment intent is asked for. `rune` is Go's text of a code point.
use Prim.Native.String.{◌++◌ as str_append}
use vibranium_quadsquad.Base.{
  ℕ, ◌-◌, String, Bool, not, none, some, List, [], ◌∷◌, if◌then◌else◌, length, str_eq,
}
use vibranium_quadsquad.Base.Float.{Float}
use vibranium_quadsquad.Http.{Request, Response, refuse, answer}
use vibranium_quadsquad.Payments.{Transaction}
use vibranium_quadsquad.Stripe.{
  StripeApi, StripeClient, PaymentIntentRequest, PaymentIntentResponse, create_payment_intent,
  is_mock_mode,
}
use vibranium_quadsquad.Handlers.Payment.{
  PaymentHandler, CreatePaymentRequest, FeeBreakdown, with_body, with_transaction, breakdown,
  user_id_of, halt_count_of,
}
use vibranium_quadsquad.Handlers.Payment.Routes.{last_of}

pub record StripeInitResponse (F : Type 0) : Type 0 where
  pub transaction_id : String
  pub stripe_client_secret : String
  pub stripe_payment_id : String
  pub transaction : Transaction F
  pub fee_breakdown : FeeBreakdown F
  pub publishable_key : String
  pub is_mock_mode : Bool

pub record StripeConfig : Type 0 where
  pub publishable_key : String
  pub is_test_mode : Bool
  pub is_mock_mode : Bool

abbrev pub first_of : List String → String
first_of [] = ""
first_of (a ∷ r) = a

abbrev pub final_of : List String → String
final_of [] = ""
final_of (a ∷ r) = last_of a r

unfoldable pub handle_stripe_config : StripeClient → String → Response StripeConfig
unfolding is_mock_mode
handle_stripe_config client method =
    if not (str_eq method "GET")
    then refuse 405 "method not allowed"
    else answer 200 (record {
      publishable_key = client.publishable_key;
      is_test_mode = client.is_test_mode;
      is_mock_mode = is_mock_mode client;
    })

module _ (f : Float) (api : StripeApi) (rune : ℕ → String) where
  -- What Stripe is asked for: the amount in cents, and the route in words.
  unfoldable pub intent_for : CreatePaymentRequest f.F → String → PaymentIntentRequest
  intent_for q id = record {
    amount = f.trunc (f.mul q.amount (f.lit 100 0));
    currency = q.currency;
    description =
        str_append "PLM Transfer: "
          (str_append (first_of q.route) (str_append " → " (final_of q.route)));
    metadata =
        ("transaction_id", id)
        ∷ ("route", str_append (first_of q.route) (str_append "_to_" (final_of q.route)))
        ∷ ("hops", rune (length q.route - 1))
        ∷ [];
  }

  abbrev pub init_response :
      PaymentHandler f.F
      → CreatePaymentRequest f.F
      → Transaction f.F
      → PaymentIntentResponse
      → StripeInitResponse f.F
  init_response h q t p = record {
    transaction_id = t.id;
    stripe_client_secret = p.client_secret;
    stripe_payment_id = p.id;
    transaction = t;
    fee_breakdown = breakdown f h.halted_nodes q.route t;
    publishable_key = h.stripe_client.publishable_key;
    is_mock_mode = is_mock_mode h.stripe_client;
  }

  -- A request has the fields of CreatePaymentRequest. When Stripe fails, the new transaction stays
  -- in the store.
  unfoldable pub handle_stripe_initiate :
      PaymentHandler f.F
      → Request (CreatePaymentRequest f.F)
      → String
      → ℕ
      → Response (StripeInitResponse f.F) × PaymentHandler f.F
  unfolding user_id_of halt_count_of create_payment_intent intent_for
  handle_stripe_initiate h r id now = with_body r h λ user q.
      with_transaction f h user q id now λ h' t.
        elim (create_payment_intent api h.stripe_client (intent_for q t.id)) [
          | none ↦ (refuse 503 "payment service unavailable", h')
          | some p ↦ (answer 200 (init_response h q t p), h')
        ]
