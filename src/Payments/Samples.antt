-- ===== src/Payments/Samples.antt =====
-- A payment and its store, for tests: over natural numbers in place of floats, where a constant
-- `a / 10 ^ b` is 0 or more.
use vibranium_quadsquad.Base.{ℕ, ◌+◌, false, true, none, [], ◌∷◌}
use vibranium_quadsquad.Payments.{Store, Transaction, Tick, pending, success}

abbrev pub payment : Transaction ℕ
payment = record {
  id = "t1";
  user_id = "u1";
  amount = 1000;
  currency = "USD";
  target_currency = "INR";
  route = "USA" ∷ "GBR" ∷ "IND" ∷ [];
  status = pending;
  base_fee = 15;
  hop_fees = 4;
  halt_fines = 0;
  total_fees = 19;
  final_amount = 981;
  admin_profit = 19;
  hop_results = [];
  hops_completed = 0;
  failed_at = "";
  created_at = 7;
  processed_at = none;
  completed_at = none;
  card_last4 = 7;
  payment_method = "mock_card";
}

abbrev pub store_with : Transaction ℕ → Store ℕ
store_with t = record {
  transactions = ("t1", t) ∷ [];
  user_txns = ("u1", "t1" ∷ []) ∷ [];
  fee_config = record { base_fee_percent = 1; hop_fee_percent = 2; halt_fine_percent = 1 };
  processing_locks = [];
  has_callback = true;
  credibility = [];
}

abbrev pub store : Store ℕ
store = store_with payment

abbrev pub paid_store : Store ℕ
paid_store = store_with (record payment { status = success })

abbrev pub calm : ℕ → Tick
calm i = record { cancelled = false; latency_clock = i; failure_clock = 0; time = 100 + i }
