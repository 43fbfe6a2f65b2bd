-- ===== src/Handlers/Payment/Tests.antt =====
-- The payment endpoints on a sample payment.
use vibranium_quadsquad.Base.{
  String, List, if◌then◌else◌, ◌&&◌, ℕ, ◌≤◌, ◌≡◌, ◌⊎◌, refl, true, none, some, [], ◌∷◌, arith,
  length,
}
use vibranium_quadsquad.Base.Float.{nat_float}
use vibranium_quadsquad.Auth.{User}
use vibranium_quadsquad.Http.{Request}
use vibranium_quadsquad.Payments.{
  get_transaction, process_transaction_with_route, success, reset_transaction_for_retry,
  get_admin_stats, get_all_transactions,
}
use vibranium_quadsquad.Payments.Run.Hops.{Leaves}
use vibranium_quadsquad.Payments.Samples.{payment, store, paid_store, calm}
use vibranium_quadsquad.Stripe.{StripeApi, StripeClient}
use vibranium_quadsquad.Handlers.Payment.{
  PaymentHandler, ConfirmPaymentRequest, handle_confirm_payment,
}
use vibranium_quadsquad.Handlers.Payment.Access.{
  context_of, handle_confirm_payment-checks, Refused, Confirmed,
}
use vibranium_quadsquad.Handlers.Payment.Charts.{
  Agree, analytics_from, no_analytics, get_admin_stats-Agree,
}
use vibranium_quadsquad.Handlers.Payment.Routes.{
  All, GoesRound, get_alternative_routes, route_for, get_alternative_routes-GoesRound,
}
use vibranium_quadsquad.Handlers.Payment.Complete.{
  StripeCompleteRequest, World, is_none, has_succeeded, attempts, handle_stripe_complete,
}
use vibranium_quadsquad.Handlers.Payment.Complete.Attempts.{attempts-rerun}
use vibranium_quadsquad.Handlers.Payment.Complete.Settles.{
  Completes, handle_stripe_complete-Completes,
}

abbrev sample_user : User
sample_user = record {
  id = "u7";
  email = "a@b";
  username = "ann";
  role = "USER";
  full_name = "Ann";
  organization = "";
  is_active = true;
  created_at = 0;
}

abbrev api : StripeApi
api = record { create = λ r. none; read = λ id. none; capture = λ id. none; show = λ a. "0" }

abbrev client : StripeClient
client = record { secret_key = "sk_test_mock_key"; publishable_key = "pk"; is_test_mode = true }

abbrev handler : PaymentHandler ℕ
handler = record { txn_store = store; stripe_client = client; fx_rates = []; halted_nodes = [] }

abbrev post : {B : Type 0} → B → Request B
post b = record {
  method = "POST";
  context = [];
  user_header = "u1";
  query_id = "";
  path = "";
  body = some b;
}

abbrev completion : StripeCompleteRequest
completion = record { transaction_id = "t1"; stripe_payment_id = "pi_1" }

abbrev confirmation : ConfirmPaymentRequest
confirmation = record {
  transaction_id = "t1";
  card_number = "4242424242424242";
  cvv = "123";
  expiry_month = "12";
  expiry_year = "30";
}

abbrev calm_world : World
calm_world = record { now = λ n. n; ticks = λ n. calm }

abbrev stopped_world : World
stopped_world = record {
  now = λ n. n;
  ticks = λ n i. record { cancelled = true; latency_clock = 0; failure_clock = 0; time = 0 };
}

handle_stripe_complete-Completes_example :
    let (a, h') = handle_stripe_complete nat_float api handler (post completion) stopped_world in
    Completes nat_float api handler completion a h'
handle_stripe_complete-Completes_example =
    handle_stripe_complete-Completes nat_float api handler (post completion) completion
      stopped_world refl

abbrev detour : List String
detour = "USA" ∷ "SGP" ∷ "IND" ∷ []

-- The payment of `paid_store` has succeeded.
attempts-rerun_example :
    let again = reset_transaction_for_retry nat_float paid_store "t1" in
    let run = process_transaction_with_route nat_float again "t1" 2 detour [] 0 calm in
    (attempts nat_float "t1"
        (get_alternative_routes payment.route)
        payment.route
        []
        calm_world
        3
        1
        paid_store
      ≡ (if is_none run.0 && has_succeeded nat_float (get_transaction nat_float run.1 "t1")
          then run.1
          else reset_transaction_for_retry nat_float run.1 "t1"))
    × Leaves nat_float "t1" [] 2000 0 calm 2 981 again run
unfolding get_alternative_routes route_for
attempts-rerun_example =
    attempts-rerun nat_float "t1" payment.route [] calm_world paid_store
      (record payment { status = success }) detour refl (λ e. ground (arith, e)) refl

-- The token is user u7's, the payment is run as u1's.
handle_confirm_payment-checks_example :
    let r = record (post confirmation) { context = context_of (some sample_user) } in
    let x = handle_confirm_payment nat_float handler r 9 calm in
    Refused nat_float handler x ⊎ Confirmed nat_float handler "u1" (some confirmation) 9 calm x
handle_confirm_payment-checks_example =
    handle_confirm_payment-checks nat_float handler
      (record (post confirmation) { context = context_of (some sample_user) }) (some sample_user) 9
      calm refl

get_admin_stats-Agree_example :
    Agree nat_float
      (λ d. "")
      (λ d. "")
      (get_admin_stats nat_float store)
      (analytics_from nat_float
        (λ d. "")
        (λ d. "")
        (no_analytics nat_float (λ d. "") (λ d. ""))
        (get_all_transactions nat_float store))
get_admin_stats-Agree_example = get_admin_stats-Agree nat_float (λ d. "") (λ d. "") store

get_alternative_routes-GoesRound_example :
    All
      (GoesRound "USA" "IND" ("USA" ∷ "GBR" ∷ "IND" ∷ []))
      (get_alternative_routes ("USA" ∷ "GBR" ∷ "IND" ∷ []))
    × (length (get_alternative_routes ("USA" ∷ "GBR" ∷ "IND" ∷ [])) ≤ 2)
get_alternative_routes-GoesRound_example = get_alternative_routes-GoesRound "USA" "GBR" ("IND" ∷ [])
