-- ===== src/Circuit.antt =====
-- storage/redis/circuit_breaker.go. A call reads the clock as the argument `now`, in nanoseconds,
-- one reading for the call; a round trip to Redis may fail; the mutex of the Go object makes each
-- call one step. Counters (int64) grow by one a call and are left unbounded.
pub mod Spec
pub mod Refinement
pub mod Moves
pub mod Calls
pub mod Recovery
mod Tests
use Prim.Native.Nat.{◌*◌, ◌/◌}
use Prim.Native.String.{◌++◌ as str_append}
use vibranium_quadsquad.Base.{
  ◌≡◌, arith, ℕ, ◌+◌, ◌-◌, String, Bool, true, false, ◌&&◌, List, none, some, [], ◌∷◌, leb, get_or,
  if◌then◌else◌,
}
use vibranium_quadsquad.Base.Int.{ℤ, pos, negsuc}
use vibranium_quadsquad.Redis.{
  Redis, Command, Codec, Reply, hit, nil, fault, one, z_rem_range_by_score, z_add, z_card, p_expire,
  del, exec,
}

pub data State : Type 0 where
  closed opened half_open : State

pub record Config : Type 0 where
  pub name : String
  pub failure_threshold : ℕ
  pub success_threshold : ℕ
  pub timeout : ℕ
  pub failure_window : ℕ

abbrev pub second : ℕ
second = 1_000_000_000

unfoldable pub default_config : String → Config
default_config name = record {
  name = name;
  failure_threshold = 5;
  success_threshold = 3;
  timeout = 30 * second;
  failure_window = 60 * second;
}

pub record CircuitState : Type 0 where
  pub state : State
  pub failures : ℕ
  pub successes : ℕ
  pub last_failure : ℕ
  pub last_state_change : ℕ

pub data Error : Type 0 where
  redis_error decode_error circuit_open : Error

pub data Result (A : Type 0) : Type 0 where
  ok : A → Result A
  err : Error → Result A

-- A method on the database: its result and the database it leaves.
abbrev pub M : Type 0 → Type 0 → Type 0
M D A = D → Result A × D

infixl 5 ◌>>=◌ ◌>>◌
abbrev pub ◌>>=◌ : {D A B : Type 0} → M D A → (A → M D B) → M D B
◌>>=◌ m k d = let (r, d') = m d in elim r [ ok a ↦ k a d' | err e ↦ (err e, d') ]

abbrev pub ◌>>◌ : {D B : Type 0} → M D (Unit {0}) → M D B → M D B
m >> k = m >>= λ _. k

pub bind-ok :
    {D A B : Type 0} (m : M D A) (k : A → M D B) {d d' : D} {a : A}
    → m d ≡ (ok a, d')
    → (m >>= k) d ≡ k a d'
bind-ok m k h = ground arith

pub bind-err :
    {D A B : Type 0} (m : M D A) (k : A → M D B) {d d' : D} {e : Error}
    → m d ≡ (err e, d')
    → (m >>= k) d ≡ (err e, d')
bind-err m k h = ground arith

abbrev pub pure : {D A : Type 0} → A → M D A
pure a d = (ok a, d)

abbrev pub fail : {D A : Type 0} → Error → M D A
fail e d = (err e, d)

-- `now.Add(-window).UnixMilli()`: the whole milliseconds, rounded down also before 1970.
unfoldable pub window_start : ℕ → ℕ → ℤ
window_start now window =
    if leb window now
    then pos ((now - window) / 1_000_000)
    else negsuc ((window - now - 1) / 1_000_000)

abbrev pub key : String → String
key name = str_append "plm:circuit:" name

abbrev pub failures_key : String → String
failures_key name = str_append (key name) ":failures"

abbrev pub day : ℕ
day = 24 * 3600 * second

-- The state of a circuit that Redis does not know.
unfoldable pub new_state : ℕ → CircuitState
new_state now = record {
  state = closed;
  failures = 0;
  successes = 0;
  last_failure = 0;
  last_state_change = now;
}

-- `state.State == StateOpen && time.Since(state.LastStateChange) >= cfg.Timeout`
abbrev pub is_opened : State → Bool
is_opened opened = true
is_opened _ = false

abbrev pub is_due : Config → ℕ → CircuitState → Bool
is_due cfg now s = is_opened s.state && leb (s.last_state_change + cfg.timeout) now

abbrev pub to_half_open : ℕ → CircuitState → CircuitState
to_half_open now s = record s { state = half_open; successes = 0; last_state_change = now }

-- One success in the half-open state; the threshold closes the circuit.
unfoldable pub success_step : Config → ℕ → CircuitState → CircuitState
success_step cfg now s =
    if leb cfg.success_threshold (s.successes + 1)
    then (record s { state = closed; failures = 0; successes = 0; last_state_change = now })
    else (record s { successes = s.successes + 1 })

abbrev pub note_failure : ℕ → CircuitState → CircuitState
note_failure now s = record s { last_failure = now; failures = s.failures + 1 }

-- What a failure does to the state, `count` failures being in the window.
unfoldable pub failure_step : Config → ℕ → ℕ → CircuitState → State → CircuitState
failure_step cfg now count s half_open = record s {
  state = opened;
  last_state_change = now;
  successes = 0;
}
failure_step cfg now count s closed =
    if leb cfg.failure_threshold count
    then (record s { state = opened; last_state_change = now })
    else s
failure_step cfg now count s opened = s

-- The state that chaos testing writes.
abbrev pub forced : ℕ → CircuitState
forced now = record {
  state = opened;
  failures = 0;
  successes = 0;
  last_failure = 0;
  last_state_change = now;
}

-- The pipeline that counts the failures of the sliding window, this one included.
abbrev pub window_commands : Config → ℕ → List Command
window_commands cfg now =
    z_rem_range_by_score (failures_key cfg.name) (window_start now cfg.failure_window)
    ∷ z_add (failures_key cfg.name) (now / 1_000_000) (one now)
    ∷ z_card (failures_key cfg.name)
    ∷ p_expire (failures_key cfg.name) cfg.failure_window
    ∷ []

module _ (r : Redis) (c : Codec r CircuitState) where
  unfoldable pub save_state : Config → ℕ → CircuitState → M r.Db (Unit {0})
  save_state cfg now s d = elim (r.set (key cfg.name) (c.marshal s) day d) [
    | none ↦ (err redis_error, d)
    | some d' ↦ (ok tt, d')
  ]

  abbrev pub advance : Config → ℕ → CircuitState → M r.Db CircuitState
  advance cfg now s =
      if is_due cfg now s
      then (do save_state cfg now (to_half_open now s); pure (to_half_open now s))
      else pure s

  abbrev pub decode : Config → ℕ → Reply r.Bytes → M r.Db CircuitState
  decode cfg now nil = pure (new_state now)
  decode cfg now fault = fail redis_error
  decode cfg now (hit b) = elim (c.unmarshal b) [
    | none ↦ fail decode_error
    | some s ↦ advance cfg now s
  ]

  unfoldable pub get_state : Config → ℕ → M r.Db CircuitState
  get_state cfg now d = decode cfg now (r.get (key cfg.name) d) d

  abbrev pub verdict : State → M r.Db (Unit {0})
  verdict closed = pure tt
  verdict opened = fail circuit_open
  verdict half_open = pure tt

  unfoldable pub allow : Config → ℕ → M r.Db (Unit {0})
  unfolding get_state
  allow cfg now = do s ← get_state cfg now; verdict s.state

  abbrev pub on_success : Config → ℕ → CircuitState → State → M r.Db (Unit {0})
  on_success cfg now s half_open = save_state cfg now (success_step cfg now s)
  on_success cfg now s _ = pure tt

  unfoldable pub record_success : Config → ℕ → M r.Db (Unit {0})
  unfolding get_state
  record_success cfg now = do s ← get_state cfg now; on_success cfg now s s.state

  unfoldable pub increment_failure_count : Config → ℕ → M r.Db ℕ
  increment_failure_count cfg now d = elim (exec r (window_commands cfg now) d) [
    | none ↦ (err redis_error, d)
    | some (d', replies) ↦ (ok (get_or replies 2 0), d')
  ]

  unfoldable pub record_failure : Config → ℕ → M r.Db (Unit {0})
  unfolding get_state
  record_failure cfg now = do
    s ← get_state cfg now
    count ← increment_failure_count cfg now
    save_state cfg now (failure_step cfg now count (note_failure now s) s.state)

  unfoldable pub force_open : Config → ℕ → M r.Db (Unit {0})
  force_open cfg now = save_state cfg now (forced now)

  unfoldable pub reset : Config → M r.Db (Unit {0})
  reset cfg d = elim (exec r (del (key cfg.name) ∷ del (failures_key cfg.name) ∷ []) d) [
    | none ↦ (err redis_error, d)
    | some (d', _) ↦ (ok tt, d')
  ]
