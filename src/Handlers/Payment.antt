-- ===== src/Handlers/Payment.antt =====
-- api/handlers/payment_handler.go: the payment endpoints over the transaction store and Stripe. A
-- handler gives its response and the handler's state after it; log lines are left out. Ids, clocks
-- and what the hops of a run read are arguments.
pub mod Access
pub mod Checkout
pub mod Charts
pub mod Routes
pub mod Complete
mod Tests
use vibranium_quadsquad.Base.{
  ℕ, ◌+◌, ◌-◌, String, Bool, true, false, not, ◌||◌, Option, none, some, List, [], ◌∷◌,
  if◌then◌else◌, length, has, ltb, str_eq,
}
use Prim.Native.String.{len, ◌++◌ as str_append}
use vibranium_quadsquad.Base.Int.{ℤ, pos, sub_ℕ}
use vibranium_quadsquad.Base.Float.{Float}
use vibranium_quadsquad.Entropy.{is_le}
use vibranium_quadsquad.Http.{
  Context, ContextKey, ContextValue, Request, Response, refuse, answer, handler_key, plain_key,
  identified, auth_user, value_of,
}
use vibranium_quadsquad.Payments.{
  Store, Transaction, Status, Tick, AdminStats, pending, processing, success, failed, quote,
  create_transaction, get_transaction, process_transaction, get_user_transactions, get_admin_stats,
  get_all_transactions,
}
use vibranium_quadsquad.Stripe.{StripeClient}

pub record PaymentHandler (F : Type 0) : Type 0 where
  pub txn_store : Store F
  pub stripe_client : StripeClient
  pub fx_rates : List (String × F)
  pub halted_nodes : List String

abbrev pub new_payment_handler : {F : Type 0} → Store F → StripeClient → PaymentHandler F
new_payment_handler store client = record {
  txn_store = store;
  stripe_client = client;
  fx_rates = [];
  halted_nodes = [];
}

unfoldable pub set_fx_rates : {F : Type 0} → PaymentHandler F → List (String × F) → PaymentHandler F
set_fx_rates h rates = record h { fx_rates = rates }

unfoldable pub set_halted_nodes : {F : Type 0} → PaymentHandler F → List String → PaymentHandler F
set_halted_nodes h halted = record h { halted_nodes = halted }

pub record CreatePaymentRequest (F : Type 0) : Type 0 where
  pub amount : F
  pub currency : String
  pub target_currency : String
  pub route : List String

pub record FeeBreakdown (F : Type 0) : Type 0 where
  pub base_fee : F
  pub base_fee_rate : String
  pub hop_fees : F
  pub hop_fee_rate : String
  pub hop_count : ℤ
  pub halt_fines : F
  pub halt_count : ℕ
  pub total_fees : F
  pub final_amount : F

pub record CreatePaymentResponse (F : Type 0) : Type 0 where
  pub transaction : Transaction F
  pub fee_breakdown : FeeBreakdown F

pub record ConfirmPaymentRequest : Type 0 where
  pub transaction_id : String
  pub card_number : String
  pub cvv : String
  pub expiry_month : String
  pub expiry_year : String

-- What the endpoints that run a payment answer.
pub record PaymentResult (F : Type 0) : Type 0 where
  pub is_success : Bool
  pub transaction : Option (Transaction F)
  pub message : String

-- GetID of a value, where it has the method.
abbrev pub id_of : Option ContextValue → Option String
id_of (some (identified id)) = some id
id_of _ = none

-- getUserIDFromContext
unfoldable pub user_id_of : Context → String → String
user_id_of c header = elim (id_of (value_of c (handler_key "user"))) [
  | some id ↦ id
  | none ↦ elim (id_of (value_of c (plain_key "user"))) [
    | some id ↦ id
    | none ↦ if not (str_eq header "") then header else "demo-user"
  ]
]

unfoldable pub get_status_message : Status → String → String
get_status_message success failed_at = "Payment completed successfully"
get_status_message failed failed_at = str_append "Payment failed at " failed_at
get_status_message processing failed_at = "Payment is being processed"
get_status_message pending failed_at = "Payment is pending confirmation"

abbrev pub is_success : Status → Bool
is_success success = true
is_success _ = false

-- The checks that a POST endpoint makes before it reads the body: method, user, body.
abbrev pub with_body :
    {A B H : Type 0} → Request B → H → (String → B → Response A × H) → Response A × H
with_body r h k =
    if not (str_eq r.method "POST")
    then (refuse 405 "method not allowed", h)
    else if str_eq (user_id_of r.context r.user_header) ""
    then (refuse 401 "unauthorized", h)
    else elim r.body [
      | none ↦ (refuse 400 "invalid request body", h)
      | some b ↦ k (user_id_of r.context r.user_header) b
    ]

-- How many countries of a route are halted.
unfoldable pub halt_count_of : List String → List String → ℕ
halt_count_of halted [] = 0
halt_count_of halted (c ∷ cs) = let n = halt_count_of halted cs in if has c halted then n + 1 else n

module _ (f : Float) where
  abbrev pub breakdown : List String → List String → Transaction f.F → FeeBreakdown f.F
  breakdown halted route t = record {
    base_fee = t.base_fee;
    base_fee_rate = "1.5%";
    hop_fees = t.hop_fees;
    hop_fee_rate = "0.02%";
    hop_count = sub_ℕ (length route) 1;
    halt_fines = t.halt_fines;
    halt_count = halt_count_of halted route;
    total_fees = t.total_fees;
    final_amount = t.final_amount;
  }

  -- The checks of a new payment, and its transaction; then what the endpoint does with it.
  abbrev pub with_transaction :
      {A : Type 0}
      → PaymentHandler f.F
      → String
      → CreatePaymentRequest f.F
      → String
      → ℕ
      → (PaymentHandler f.F → Transaction f.F → Response A × PaymentHandler f.F)
      → Response A × PaymentHandler f.F
  with_transaction h user q id now k =
      let (e, s) =
        create_transaction f h.txn_store id now user q.amount q.currency q.target_currency q.route
          h.halted_nodes in
      let t =
        quote f h.txn_store.fee_config id now user q.amount q.currency q.target_currency q.route
          h.halted_nodes in
      if is_le f q.amount f.zero
      then (refuse 400 "amount must be positive", h)
      else if ltb (length q.route) 2
      then (refuse 400 "route must have at least 2 countries", h)
      else elim e [
        | some _ ↦ (refuse 400 "route must have at least 2 countries", h)
        | none ↦ k (record h { txn_store = s }) t
      ]

  unfoldable pub handle_create_payment :
      PaymentHandler f.F
      → Request (CreatePaymentRequest f.F)
      → String
      → ℕ
      → Response (CreatePaymentResponse f.F) × PaymentHandler f.F
  unfolding user_id_of halt_count_of
  handle_create_payment h r id now = with_body r h λ user q.
      with_transaction h user q id now λ h' t. (
        answer 200 (record { transaction = t; fee_breakdown = breakdown h.halted_nodes q.route t }),
        h',
      )

  -- The answer after a run: the transaction as it is now.
  abbrev pub result_of : Option (Transaction f.F) → PaymentResult f.F
  result_of none = record { is_success = false; transaction = none; message = "Unknown status" }
  result_of (some t) = record {
    is_success = is_success t.status;
    transaction = some t;
    message = get_status_message t.status t.failed_at;
  }

  abbrev pub confirm :
      PaymentHandler f.F
      → ConfirmPaymentRequest
      → ℕ
      → (ℕ → Tick)
      → Response (PaymentResult f.F) × PaymentHandler f.F
  confirm h q now world =
      let (e, s) =
        process_transaction f h.txn_store q.transaction_id now h.fx_rates (f.lit 5 2) world in
      (answer 200 (result_of (get_transaction f s q.transaction_id)), record h { txn_store = s })

  unfoldable pub handle_confirm_payment :
      PaymentHandler f.F
      → Request ConfirmPaymentRequest
      → ℕ
      → (ℕ → Tick)
      → Response (PaymentResult f.F) × PaymentHandler f.F
  unfolding user_id_of get_status_message
  handle_confirm_payment h r now world = with_body r h λ user q.
      elim (get_transaction f h.txn_store q.transaction_id) [
        | none ↦ (refuse 404 "transaction not found", h)
        | some t ↦
            if not (str_eq t.user_id user)
            then (refuse 401 "unauthorized", h)
            else if ltb (len q.card_number) 13 || ltb 19 (len q.card_number)
            then (refuse 400 "invalid card number", h)
            else confirm h q now world
      ]

  unfoldable pub handle_get_transaction :
      PaymentHandler f.F → Request (Unit {0}) → Response (Transaction f.F)
  handle_get_transaction h r =
      if not (str_eq r.method "GET")
      then refuse 405 "method not allowed"
      else if str_eq r.query_id ""
      then refuse 400 "transaction id required"
      else elim (get_transaction f h.txn_store r.query_id) [
        | none ↦ refuse 404 "transaction not found"
        | some t ↦ answer 200 t
      ]

  unfoldable pub handle_get_history :
      PaymentHandler f.F → Request (Unit {0}) → Response (List (Transaction f.F) × ℕ)
  unfolding user_id_of
  handle_get_history h r =
      let user = user_id_of r.context r.user_header in
      let txns = get_user_transactions f h.txn_store user in
      if not (str_eq r.method "GET")
      then refuse 405 "method not allowed"
      else if str_eq user ""
      then refuse 401 "unauthorized"
      else answer 200 (txns, length txns)
