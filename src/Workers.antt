-- ===== src/Workers.antt =====
-- engine/worker/pool.go. github.com/gammazero/workerpool holds the functions it is given and runs
-- each at a later time; StopWait runs those it holds, Stop abandons them, and Submit after either
-- panics. `max_workers` is the configured number, which the worker pool itself raises to 1 when
-- it is less. A context is what its Err gives, a handler a function of a request. The atomic
-- counters (int64) are left unbounded.
pub mod Steps
pub mod Batch
mod Tests
use vibranium_quadsquad.Base.{
  ℕ, zero, suc, ◌+◌, String, Bool, true, false, Option, none, some, List, [], ◌∷◌, if◌then◌else◌,
  map,
}
use vibranium_quadsquad.Base.Int.{ℤ, pos, sub_ℕ}
use vibranium_quadsquad.Settlement.{
  SettlementRequest, SettlementResponse, failed as settlement_failed, acquire_settlement_response,
}

pub record Pool : Type 0 where
  pub max_workers : ℕ
  pub submitted : ℕ
  pub completed : ℕ
  pub failed : ℕ
  pub stopped : Bool

-- DefaultConfig; the queue size is not read.
pub record Config : Type 0 where
  pub max_workers : ℕ
  pub queue_size : ℕ

unfoldable pub default_config : Config
default_config = record { max_workers = 100; queue_size = 10_000 }

abbrev pub config_or_default : Option Config → Config
config_or_default none = default_config
config_or_default (some cfg) = cfg

unfoldable pub new_pool : Option Config → Pool
unfolding default_config
new_pool cfg = record {
  max_workers = (config_or_default cfg).max_workers;
  submitted = 0;
  completed = 0;
  failed = 0;
  stopped = false;
}

pub data PoolError : Type 0 where
  pool_stopped : PoolError
  -- the error of a context or of a handler
  other : String → PoolError

-- The two parts of Submit before the task is handed over: the check, and the count.
unfoldable pub check_stopped : Pool → Option PoolError
check_stopped p = if p.stopped then some pool_stopped else none

unfoldable pub count_submitted : Pool → Pool
count_submitted p = record p { submitted = p.submitted + 1 }

unfoldable pub count_result : Option PoolError → Pool → Pool
count_result none p = record p { completed = p.completed + 1 }
count_result (some e) p = record p { failed = p.failed + 1 }

abbrev pub Outcome : Type 0
Outcome = Option SettlementResponse × Option PoolError

module _ {V : Type 0} where
  -- The response to a task whose context is done before it starts, in an object of the pool.
  abbrev pub cancelled_response :
      SettlementRequest V → String → ℕ → SettlementResponse → SettlementResponse
  cancelled_response r e now cell = record cell {
    request_id = r.id;
    status = settlement_failed;
    error = e;
    completed_at = now;
  }

  -- What a task gives to its callback: the context's error if it has one, or what the handler gives.
  unfoldable pub outcome_of :
      Option String
      → (SettlementRequest V → Outcome)
      → ℕ
      → SettlementResponse
      → SettlementRequest V
      → Outcome
  outcome_of none handler now cell r = handler r
  outcome_of (some e) handler now cell r = (some (cancelled_response r e now cell), some (other e))

  -- The function that is handed over.
  unfoldable pub run_task :
      Option String
      → (SettlementRequest V → Outcome)
      → ℕ
      → SettlementResponse
      → SettlementRequest V
      → Pool
      → Outcome × Pool
  unfolding outcome_of count_result
  run_task ctx handler now cell r p =
      let o = outcome_of ctx handler now cell r in (o, count_result o.1 p)

-- Stop and StopNow
unfoldable pub stop : Pool → Pool
stop p = record p { stopped = true }

pub record Stats : Type 0 where
  pub max_workers : ℕ
  pub submitted : ℕ
  pub completed : ℕ
  pub failed : ℕ
  pub pending : ℤ

-- Stats loads three counters one after another: `a`, `b` and `c` are the pool at each load.
unfoldable pub stats : Pool → Pool → Pool → Stats
stats a b c = record {
  max_workers = a.max_workers;
  submitted = a.submitted;
  completed = b.completed;
  failed = c.failed;
  pending = sub_ℕ a.submitted (b.completed + c.failed);
}
