-- ===== src/Stripe.antt =====
-- payments/stripe.go. The Stripe API (github.com/stripe/stripe-go) is a parameter: what it answers to
-- the creation, the reading and the capture of a payment intent, `none` for an error.
use Prim.Native.String.{len, ◌++◌ as str_append}
use text.Mathlib.Text.{starts_with}
use vibranium_quadsquad.Base.{
  ltb, ◌&&◌, String, Bool, true, Option, none, some, List, if◌then◌else◌, str_eq,
}
use vibranium_quadsquad.Base.Int.{ℤ, pos}

pub record PaymentIntentRequest : Type 0 where
  pub amount : ℤ
  pub currency : String
  pub description : String
  pub metadata : List (String × String)

pub record PaymentIntentResponse : Type 0 where
  pub id : String
  pub client_secret : String
  pub amount : ℤ
  pub currency : String
  pub status : String

pub record RefundResponse : Type 0 where
  pub id : String
  pub payment_intent_id : String
  pub amount : ℤ
  pub status : String
  pub reason : String

pub record StripeApi : Type 0 where
  pub create : PaymentIntentRequest → Option PaymentIntentResponse
  pub read : String → Option PaymentIntentResponse
  pub capture : String → Option PaymentIntentResponse
  -- fmt's `%d` of an amount
  pub show : ℤ → String

pub record StripeClient : Type 0 where
  pub secret_key : String
  pub publishable_key : String
  pub is_test_mode : Bool

abbrev pub mock_key : String
mock_key = "sk_test_mock_key"

-- NewStripeClient, of the keys in the environment.
unfoldable pub new_stripe_client : String → String → StripeClient
new_stripe_client secret publishable =
    if str_eq secret ""
    then (record {
      secret_key = mock_key;
      publishable_key = "pk_test_mock_key";
      is_test_mode = true;
    })
    else (record {
      secret_key = secret;
      publishable_key = publishable;
      is_test_mode = ltb 7 (len secret) && starts_with secret "sk_test";
    })

unfoldable pub is_mock_mode : StripeClient → Bool
is_mock_mode c = str_eq c.secret_key mock_key

module _ (api : StripeApi) where
  unfoldable pub create_payment_intent :
      StripeClient → PaymentIntentRequest → Option PaymentIntentResponse
  unfolding is_mock_mode
  create_payment_intent c r =
      if is_mock_mode c
      then some (record {
        id = str_append "pi_mock_" (api.show r.amount);
        client_secret = str_append "pi_mock_" (str_append (api.show r.amount) "_secret_mock");
        amount = r.amount;
        currency = r.currency;
        status = "requires_payment_method";
      })
      else api.create r

  -- What mock mode answers about an intent.
  abbrev pub mock_succeeded : String → PaymentIntentResponse
  mock_succeeded id = record {
    id = id;
    client_secret = "";
    amount = pos 0;
    currency = "";
    status = "succeeded";
  }

  unfoldable pub confirm_payment_intent : StripeClient → String → Option PaymentIntentResponse
  unfolding is_mock_mode
  confirm_payment_intent c id = if is_mock_mode c then some (mock_succeeded id) else api.read id

  unfoldable pub capture_payment : StripeClient → String → Option PaymentIntentResponse
  unfolding is_mock_mode
  capture_payment c id =
      if is_mock_mode c
      then some (mock_succeeded id)
      else elim (api.capture id) [ none ↦ none | some p ↦ some (record p { client_secret = "" }) ]

  -- No request is sent, in either mode.
  unfoldable pub refund_payment : StripeClient → String → ℤ → String → Option RefundResponse
  unfolding is_mock_mode
  refund_payment c id amount reason = some (record {
    id = str_append (if is_mock_mode c then "re_mock_" else "re_") id;
    payment_intent_id = id;
    amount = amount;
    status = "succeeded";
    reason = reason;
  })
