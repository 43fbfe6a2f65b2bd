-- ===== src/Circuit/Moves.antt =====
-- What the calls of the circuit breaker do to a circuit, by the machine of Spec.antt.
use Prim.Native.Nat.{◌/◌}
use vibranium_quadsquad.Base.{
  ℕ, ◌+◌, ◌≤◌, ◌≡◌, refl, sym, inl, inr, Option, none, some, arith, Bool-cases, leb, length,
}
use vibranium_quadsquad.Redis.{Redis, Codec, Reply, hit, nil, fault, z_add_entry, drop_upto, one}
use vibranium_quadsquad.Circuit.{
  State, Config, CircuitState, Error, decode_error, Result, err, closed, opened, half_open,
  redis_error, key, failures_key, advance, decode, allow, success_step, record_success,
  window_start, failure_step, record_failure, M, note_failure, new_state,
}
use vibranium_quadsquad.Circuit.Spec.{
  view, Call, allows, succeeds, fails, Timeout, Own, progress, recover, bear, trip, reopen,
  stay_open, answer, Writes,
}
use vibranium_quadsquad.Circuit.Refinement.{stored}

pub success_step-Own :
    (cfg : Config) (now seen : ℕ) (m : CircuitState)
    → m.state ≡ half_open
    → Own cfg now seen succeeds (view m) (view (success_step cfg now m))
unfolding success_step
success_step-Own cfg now seen m h =
    elim (Bool-cases (leb cfg.success_threshold (m.successes + 1))) [
      | inl enough ↦ rw enough (recover h (ground arith))
      | inr more ↦ rw more (progress h (ground arith))
    ]

pub failure_step-Own :
    (cfg : Config) (now n seen : ℕ) (m : CircuitState) (st : State)
    → st ≡ m.state
    → (st ≡ closed → n ≡ seen)
    → Own cfg now seen fails (view m) (view (failure_step cfg now n (note_failure now m) st))
unfolding failure_step
failure_step-Own cfg now n seen m half_open e same = reopen (sym e)
failure_step-Own cfg now n seen m opened e same = stay_open (sym e)
failure_step-Own cfg now n seen m closed e same = elim (Bool-cases (leb cfg.failure_threshold n)) [
  | inl enough ↦ rw enough (trip (sym e) (ground (arith, same refl)))
  | inr few ↦ rw few (bear (sym e) (ground (arith, same refl)))
]

module _ (r : Redis) (c : Codec r CircuitState) where
  -- What the next call reads of the circuit: a new state when Redis has none, and nothing when Redis
  -- does not answer or holds what cannot be decoded.
  abbrev pub reading : ℕ → Reply r.Bytes → Option CircuitState
  reading now (hit b) = c.unmarshal b
  reading now nil = some (record {
    state = closed;
    failures = 0;
    successes = 0;
    last_failure = 0;
    last_state_change = now;
  })
  reading now fault = none

  abbrev pub read : Config → ℕ → r.Db → Option CircuitState
  read cfg now d = reading now (r.get (key cfg.name) d)

  -- The failures of the window with the one at `now`, in the sorted set of the circuit.
  abbrev pub failures_in : Config → ℕ → r.Db → ℕ
  failures_in cfg now d = length (
      z_add_entry (one now) (now / 1_000_000)
        (drop_upto (window_start now cfg.failure_window) (r.entries (failures_key cfg.name) d)))

  unfoldable pub run : Config → ℕ → Call → M r.Db (Unit {0})
  unfolding allow record_success record_failure
  run cfg now allows = allow r c cfg now
  run cfg now succeeds = record_success r c cfg now
  run cfg now fails = record_failure r c cfg now

  -- What a call makes of a circuit that reads as `s`: all of it, or what Redis let it do before it
  -- failed, and then the error.
  pub data Does (cfg : Config) (now : ℕ) (s : CircuitState) (d : r.Db) (call : Call)
      (x : Result (Unit {0}) × r.Db) : Type 0 where
    nothing :
        s.state ≡ opened
        → s.last_state_change + cfg.timeout ≤ now
        → x ≡ (err redis_error, d)
        → Does cfg now s d call x
    no_more :
        (m : CircuitState)
        → Timeout cfg now (view s) (view m)
        → Writes call m.state
        → read cfg now x.1 ≡ some m
        → x.0 ≡ err redis_error
        → Does cfg now s d call x
    done :
        (m t : CircuitState)
        → Timeout cfg now (view s) (view m)
        → Own cfg now (failures_in cfg now d) call (view m) (view t)
        → read cfg now x.1 ≡ some t
        → x.0 ≡ answer call m.state
        → Does cfg now s d call x

  pub stored-read :
      (cfg : Config) (now : ℕ) (d : r.Db) (s : CircuitState)
      → stored r c cfg d ≡ some s
      → read cfg now d ≡ some s
  stored-read cfg now d s h = ground (arith, h)

  pub decode-read :
      (cfg : Config) (now : ℕ) (d : r.Db) (s : CircuitState) (o : Reply r.Bytes)
      → reading now o ≡ some s
      → decode r c cfg now o d ≡ advance r c cfg now s d
  unfolding new_state
  decode-read cfg now d s (hit b) e = ground (arith, e)
  decode-read cfg now d s nil e = ground (arith, e)
  decode-read cfg now d s fault e = absurd (ground (arith, e))

  pub decode-unread :
      (cfg : Config) (now : ℕ) (d : r.Db) (o : Reply r.Bytes)
      → reading now o ≡ none
      → (e : Error) × (decode r c cfg now o d ≡ (err e, d))
  unfolding new_state
  decode-unread cfg now d (hit b) e = (decode_error, ground (arith, e))
  decode-unread cfg now d nil e = absurd (ground (arith, e))
  decode-unread cfg now d fault e = (redis_error, refl)
