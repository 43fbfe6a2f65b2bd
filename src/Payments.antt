-- ===== src/Payments.antt =====
-- payments/transaction.go: the store of transactions and the run of a payment over its route.
-- A `*Transaction` is shared by the store and its readers, and is never replaced, so a write through
-- it is a write to the store's entry. A payment is run with no other call in between. What a hop
-- reads of the world (the context, the clocks) is an argument; calls of the credibility callback
-- are collected in order. Times are nanoseconds. `card_last4` is the number that the source prints
-- with four digits.
pub mod Quote
pub mod Run
pub mod Stats
pub mod Samples
mod Tests
use Prim.Native.String.{◌++◌ as str_append}
use vibranium_quadsquad.Base.{
  ℕ, zero, suc, ◌+◌, ◌-◌, ◌%◌, String, Bool, true, false, not, ◌&&◌, Option, none, some, List, [],
  ◌∷◌, ◌++◌, if◌then◌else◌, length, has, lookup, insert, ltb, leb,
}
use vibranium_quadsquad.Base.Int.{ℤ, pos, ltb_ℤ}
use vibranium_quadsquad.Base.Float.{Float, lt}

pub data Status : Type 0 where
  pending processing success failed : Status

pub record HopResult (F : Type 0) : Type 0 where
  pub from_country : String
  pub to_country : String
  pub is_success : Bool
  pub latency : ℕ
  pub fx_rate : F
  pub amount_in : F
  pub amount_out : F
  pub hop_fee : F
  pub timestamp : ℕ
  pub error : String

pub record Transaction (F : Type 0) : Type 0 where
  pub id : String
  pub user_id : String
  pub amount : F
  pub currency : String
  pub target_currency : String
  pub route : List String
  pub status : Status
  pub base_fee : F
  pub hop_fees : F
  pub halt_fines : F
  pub total_fees : F
  pub final_amount : F
  pub admin_profit : F
  pub hop_results : List (HopResult F)
  pub hops_completed : ℕ
  pub failed_at : String
  pub created_at : ℕ
  pub processed_at : Option ℕ
  pub completed_at : Option ℕ
  pub card_last4 : ℕ
  pub payment_method : String

pub record FeeConfig (F : Type 0) : Type 0 where
  pub base_fee_percent : F
  pub hop_fee_percent : F
  pub halt_fine_percent : F

-- `credibility` holds the calls of the callback that was set, oldest first.
pub record Store (F : Type 0) : Type 0 where
  pub transactions : List (String × Transaction F)
  pub user_txns : List (String × List String)
  pub fee_config : FeeConfig F
  pub processing_locks : List String
  pub has_callback : Bool
  pub credibility : List (String × Bool)

pub data Error : Type 0 where
  route_too_short not_found already_processed context_cancelled : Error
  payment_failed : String → String → Error

-- What one hop reads: whether the context is done, the clock for the latency and for the failure,
-- and the time of the result.
pub record Tick : Type 0 where
  pub cancelled : Bool
  pub latency_clock : ℕ
  pub failure_clock : ℕ
  pub time : ℕ

abbrev pub is_pending : Status → Bool
is_pending pending = true
is_pending _ = false

module _ (f : Float) where
  abbrev pub S : Type 0
  S = Store f.F

  abbrev pub T : Type 0
  T = Transaction f.F

  unfoldable pub default_fee_config : FeeConfig f.F
  default_fee_config = record {
    base_fee_percent = f.lit 15 3;
    hop_fee_percent = f.lit 2 4;
    halt_fine_percent = f.lit 1 3;
  }

  unfoldable pub new_store : S
  unfolding default_fee_config
  new_store = record {
    transactions = [];
    user_txns = [];
    fee_config = default_fee_config;
    processing_locks = [];
    has_callback = false;
    credibility = [];
  }

  unfoldable pub set_credibility_callback : S → S
  set_credibility_callback s = record s { has_callback = true }

  -- A lock is made once for each transaction.
  unfoldable pub get_processing_lock : S → String → S
  get_processing_lock s id =
      if has id s.processing_locks
      then s
      else record s { processing_locks = id ∷ s.processing_locks }

  -- The fines of the halted countries on the route, added up from `t`.
  unfoldable pub halt_fines_of : List String → f.F → List String → f.F → f.F
  halt_fines_of halted fine [] t = t
  halt_fines_of halted fine (c ∷ cs) t =
      halt_fines_of halted fine cs (if has c halted then f.add t fine else t)

  abbrev pub ids_of : S → String → List String
  ids_of s user = elim (lookup user s.user_txns) [ none ↦ [] | some ids ↦ ids ]

  -- The new transaction, with its fees. `id` and `now` are what the generator and the clock give.
  unfoldable pub quote :
      FeeConfig f.F → String → ℕ → String → f.F → String → String → List String → List String → T
  unfolding halt_fines_of
  quote c id now user amount currency target route halted =
      let base_fee = f.mul amount c.base_fee_percent in
      let hop_fees = f.mul (f.mul amount c.hop_fee_percent) (f.of_ℤ (pos (length route - 1))) in
      let halt_fines = halt_fines_of halted (f.mul amount c.halt_fine_percent) route f.zero in
      let total_fees = f.add (f.add base_fee hop_fees) halt_fines in
      record {
        id = id;
        user_id = user;
        amount = amount;
        currency = currency;
        target_currency = target;
        route = route;
        status = pending;
        base_fee = base_fee;
        hop_fees = hop_fees;
        halt_fines = halt_fines;
        total_fees = total_fees;
        final_amount = f.sub amount total_fees;
        admin_profit = total_fees;
        hop_results = [];
        hops_completed = 0;
        failed_at = "";
        created_at = now;
        processed_at = none;
        completed_at = none;
        card_last4 = now % 10000;
        payment_method = "mock_card";
      }

  unfoldable pub create_transaction :
      S
      → String
      → ℕ
      → String
      → f.F
      → String
      → String
      → List String
      → List String
      → (Option Error) × S
  unfolding quote
  create_transaction s id now user amount currency target route halted =
      if ltb (length route) 2 then (some route_too_short, s) else (
        none,
        record s {
          transactions =
              insert id (quote s.fee_config id now user amount currency target route halted)
                s.transactions;
          user_txns = insert user (ids_of s user ++ id ∷ []) s.user_txns;
        },
      )

  -- A write through the pointer to the transaction `id`.
  abbrev pub modify : S → String → (T → T) → S
  modify s id change = elim (lookup id s.transactions) [
    | none ↦ s
    | some t ↦ record s { transactions = insert id (change t) s.transactions }
  ]

  unfoldable pub set_transaction_failed : S → String → String → ℕ → S
  set_transaction_failed s id failed_at now =
      modify s id λ t. record t { status = failed; failed_at = failed_at; completed_at = some now }

  -- `failureChance > 0 && time.Now().UnixNano() % 100 < int64(failureChance * 100)`
  abbrev pub fails : f.F → Tick → Bool
  fails chance tick =
      lt f f.zero chance
      && ltb_ℤ (pos (tick.failure_clock % 100)) (f.trunc (f.mul chance (f.lit 100 0)))

  abbrev pub rate_of : List (String × f.F) → String → f.F
  rate_of rates c = elim (lookup c rates) [ none ↦ f.lit 1 0 | some r ↦ r ]

  abbrev pub hop_result :
      List (String × f.F) → f.F → f.F → String → String → Bool → Tick → HopResult f.F
  hop_result rates fee current from to failed_ tick = record {
    from_country = from;
    to_country = to;
    is_success = not failed_;
    latency = 50 + tick.latency_clock % 150;
    fx_rate = rate_of rates to;
    amount_in = current;
    amount_out = if failed_ then f.zero else f.sub current fee;
    hop_fee = fee;
    timestamp = tick.time;
    error = if failed_ then "node timeout" else "";
  }

  -- The result of hop `i` is appended, and the callback is told.
  unfoldable pub note_hop : S → String → ℕ → HopResult f.F → S
  note_hop s id i h =
      let s' =
        modify s id
          λ t. record t { hop_results = t.hop_results ++ h ∷ []; hops_completed = i + 1 } in
      if s.has_callback
      then record s' { credibility = s'.credibility ++ (h.to_country, h.is_success) ∷ [] }
      else s'

  unfoldable pub complete : S → String → ℕ → f.F → S
  complete s id now amount =
      modify s id λ t. record t { status = success; completed_at = some now; final_amount = amount }

  -- The loop over the hops, from hop `i`, with `current` left of the amount.
  unfoldable pub hops :
      String
      → List (String × f.F)
      → f.F
      → f.F
      → (ℕ → Tick)
      → S
      → ℕ
      → f.F
      → List String
      → (Option Error) × S
  unfolding set_transaction_failed note_hop complete
  hops id rates fee chance world s i current [] = (none, complete s id (world i).time current)
  hops id rates fee chance world s i current (from ∷ []) =
      (none, complete s id (world i).time current)
  hops id rates fee chance world s i current (from ∷ to ∷ rest) =
      let failed_ = fails chance (world i) in
      let h = hop_result rates fee current from to failed_ (world i) in
      let next =
        hops id rates fee chance world (note_hop s id i h) (i + 1) h.amount_out (to ∷ rest) in
      if (world i).cancelled
      then (some context_cancelled, set_transaction_failed s id from (world i).time)
      else if failed_
      then (
        some (payment_failed to "node timeout"),
        set_transaction_failed (note_hop s id i h) id to (world i).time,
      )
      else next

  abbrev pub start_of : T → ℕ → T
  start_of t now = record t { status = processing; processed_at = some now }

  abbrev pub run_from : S → String → List (String × f.F) → f.F → (ℕ → Tick) → T → (Option Error) × S
  run_from s id rates chance world t =
      hops id rates (f.mul t.amount s.fee_config.hop_fee_percent) chance world
        (record s { transactions = insert id t s.transactions }) 0 (f.sub t.amount t.total_fees)
        t.route

  unfoldable pub process_transaction :
      S → String → ℕ → List (String × f.F) → f.F → (ℕ → Tick) → (Option Error) × S
  unfolding hops
  process_transaction s id now rates chance world = elim (lookup id s.transactions) [
    | none ↦ (some not_found, s)
    | some t ↦
        let run = run_from s id rates chance world (start_of t now) in
        if is_pending t.status then run else (some already_processed, s)
  ]

  -- The same on a route of its own, for the retries.
  unfoldable pub process_transaction_with_route :
      S → String → ℕ → List String → List (String × f.F) → f.F → (ℕ → Tick) → (Option Error) × S
  unfolding hops
  process_transaction_with_route s id now route rates chance world =
      elim (lookup id s.transactions) [
        | none ↦ (some not_found, s)
        | some t ↦
            let run =
              run_from s id rates chance world (record (start_of t now) { route = route }) in
            if is_pending t.status then run else (some already_processed, s)
      ]

  unfoldable pub reset_transaction_for_retry : S → String → S
  reset_transaction_for_retry s id = modify s id λ t. record t {
    status = pending;
    hop_results = [];
    hops_completed = 0;
    failed_at = "";
    processed_at = none;
    completed_at = none;
  }

  unfoldable pub mark_as_refunded : S → String → String → S
  mark_as_refunded s id refund_id =
      modify s id
        λ t. record t { status = failed; payment_method = str_append "refunded:" refund_id }

  unfoldable pub get_transaction : S → String → Option T
  get_transaction s id = lookup id s.transactions

  abbrev pub found_of : S → List String → List T
  found_of s [] = []
  found_of s (id ∷ ids) =
      let rest = found_of s ids in
      elim (lookup id s.transactions) [ none ↦ rest | some t ↦ t ∷ rest ]

  unfoldable pub get_user_transactions : S → String → List T
  get_user_transactions s user = found_of s (ids_of s user)

  abbrev pub values_of : List (String × T) → List T
  values_of [] = []
  values_of ((id, t) ∷ ts) = t ∷ values_of ts

  unfoldable pub get_all_transactions : S → List T
  get_all_transactions s = values_of s.transactions

  pub record AdminStats : Type 0 where
    pub total_profit : f.F
    pub total_volume : f.F
    pub success_count : ℕ
    pub failed_count : ℕ
    pub pending_count : ℕ
    pub total_transactions : ℕ

  -- One transaction of the range over the map, by its status.
  unfoldable pub count_in : AdminStats → T → Status → AdminStats
  count_in a t success = record a {
    total_volume = f.add a.total_volume t.amount;
    success_count = a.success_count + 1;
    total_profit = f.add a.total_profit t.admin_profit;
  }
  count_in a t failed = record a {
    total_volume = f.add a.total_volume t.amount;
    failed_count = a.failed_count + 1;
    total_profit = f.add a.total_profit t.base_fee;
  }
  count_in a t pending = record a {
    total_volume = f.add a.total_volume t.amount;
    pending_count = a.pending_count + 1;
  }
  count_in a t processing = record a {
    total_volume = f.add a.total_volume t.amount;
    pending_count = a.pending_count + 1;
  }

  unfoldable pub count_all : AdminStats → List (String × T) → AdminStats
  unfolding count_in
  count_all a [] = a
  count_all a ((_, t) ∷ ts) = count_all (count_in a t t.status) ts

  unfoldable pub get_admin_stats : S → AdminStats
  unfolding count_all
  get_admin_stats s =
      count_all
        (record {
          total_profit = f.zero;
          total_volume = f.zero;
          success_count = 0;
          failed_count = 0;
          pending_count = 0;
          total_transactions = length s.transactions;
        })
        s.transactions
