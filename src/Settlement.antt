-- ===== src/Settlement.antt =====
-- engine/models/settlement.go: requests and responses of a settlement, which are taken from pools and
-- given back. A sync.Pool is the list of what was given back; which of it a call gets, if any, is an
-- argument, and without one a new object is made. A slice is what it shows and what its backing array
-- holds behind that, which `s[:0]` keeps. A caller no longer uses an object that it gave back. Times
-- are nanoseconds, 0 the zero time; `V` is the type of metadata values, and metadata that is nil is
-- `none`.
pub mod Cleared
mod Tests
use vibranium_quadsquad.Base.{ℕ, zero, suc, String, Option, none, some, List, [], ◌∷◌, ◌++◌}
use vibranium_quadsquad.Base.Int.{ℤ, pos}

-- A slice, and the rest of its backing array.
pub record Slice (A : Type 0) : Type 0 where
  pub shown : List A
  pub spare : List A

-- make([]A, 0, n)
abbrev pub repeat : {A : Type 0} → ℕ → A → List A
repeat zero a = []
repeat (suc n) a = a ∷ repeat n a

abbrev pub make : {A : Type 0} → ℕ → A → Slice A
make n a = record { shown = []; spare = repeat n a }

-- s[:0]
abbrev pub cut : {A : Type 0} → Slice A → Slice A
cut s = record { shown = []; spare = s.shown ++ s.spare }

pub data SettlementStatus : Type 0 where
  pending processing completed failed rerouted : SettlementStatus

abbrev pub name_of : SettlementStatus → String
name_of pending = "PENDING"
name_of processing = "PROCESSING"
name_of completed = "COMPLETED"
name_of failed = "FAILED"
name_of rerouted = "REROUTED"

pub record SettlementRequest (V : Type 0) : Type 0 where
  pub id : String
  pub source_id : String
  pub destination_id : String
  pub amount : ℤ
  pub path : Slice String
  pub signature : Slice ℕ
  pub priority : ℤ
  pub created_at : ℕ
  pub processed_at : ℕ
  pub metadata : Option (List (String × V))
  pub retry_count : ℕ
  pub last_error : Option String

pub record SettlementResponse : Type 0 where
  pub request_id : String
  pub status : SettlementStatus
  pub ledger_entry_id : String
  pub actual_path : Slice String
  pub total_fee : ℤ
  pub total_latency_ms : ℤ
  pub error : String
  pub completed_at : ℕ

unfoldable pub new_response : SettlementResponse
new_response = record {
  request_id = "";
  status = pending;
  ledger_entry_id = "";
  actual_path = make 10 "";
  total_fee = pos 0;
  total_latency_ms = pos 0;
  error = "";
  completed_at = 0;
}

-- What a sync.Pool gives: the object at a place of the list, or a new one.
abbrev pub get : {A : Type 0} → A → ℕ → List A → A × List A
get new i [] = (new, [])
get new zero (x ∷ xs) = (x, xs)
get new (suc i) (x ∷ xs) = let (y, ys) = get new i xs in (y, x ∷ ys)

unfoldable pub acquire_settlement_response :
    ℕ → List SettlementResponse → SettlementResponse × List SettlementResponse
unfolding new_response
acquire_settlement_response = get new_response

-- A response that is given back is cleared, nil (`none`) is not put into the pool.
unfoldable pub release_settlement_response :
    List SettlementResponse → Option SettlementResponse → List SettlementResponse
release_settlement_response pool none = pool
release_settlement_response pool (some r) =
    (record r {
      request_id = "";
      status = pending;
      ledger_entry_id = "";
      actual_path = cut r.actual_path;
      total_fee = pos 0;
      total_latency_ms = pos 0;
      error = "";
      completed_at = 0;
    })
    ∷ pool

module _ (V : Type 0) where
  unfoldable pub new_request : SettlementRequest V
  new_request = record {
    id = "";
    source_id = "";
    destination_id = "";
    amount = pos 0;
    path = make 10 "";
    signature = make 64 0;
    priority = pos 0;
    created_at = 0;
    processed_at = 0;
    metadata = some [];
    retry_count = 0;
    last_error = none;
  }

  -- SettlementRequest.Reset
  unfoldable pub reset : SettlementRequest V → SettlementRequest V
  reset r = record r {
    id = "";
    source_id = "";
    destination_id = "";
    amount = pos 0;
    path = cut r.path;
    signature = cut r.signature;
    priority = pos 0;
    created_at = 0;
    processed_at = 0;
    metadata = none;
    retry_count = 0;
    last_error = none;
  }

  unfoldable pub acquire_settlement_request :
      ℕ → List (SettlementRequest V) → SettlementRequest V × List (SettlementRequest V)
  unfolding new_request
  acquire_settlement_request = get new_request

  unfoldable pub release_settlement_request :
      List (SettlementRequest V) → Option (SettlementRequest V) → List (SettlementRequest V)
  unfolding reset
  release_settlement_request pool none = pool
  release_settlement_request pool (some r) = reset r ∷ pool
