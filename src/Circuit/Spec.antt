-- ===== src/Circuit/Spec.antt =====
-- What a circuit breaker promises, without Redis: a machine on the state, the successes counted in the
-- half-open state, and the time of the last change. The number of all failures and the time of the
-- last one, which decide nothing, are left out.
use vibranium_quadsquad.Base.{ℕ, ◌+◌, ◌≤◌, ◌<◌, ◌≡◌, ◌≢◌}
use vibranium_quadsquad.Circuit.{
  State, Config, CircuitState, closed, opened, half_open, Result, ok, err, circuit_open,
}

pub record Breaker : Type 0 where
  pub state : State
  pub successes : ℕ
  pub since : ℕ

abbrev pub view : CircuitState → Breaker
view s = record { state = s.state; successes = s.successes; since = s.last_state_change }

pub data Call : Type 0 where
  allows succeeds fails : Call

-- What every call does first: an open circuit whose timeout has passed is tested.
pub data Timeout (cfg : Config) (now : ℕ) (b : Breaker) : Breaker → Type 0 where
  early : (b.state ≡ opened → now < b.since + cfg.timeout) → Timeout cfg now b b
  test :
      b.state ≡ opened
      → b.since + cfg.timeout ≤ now
      → Timeout cfg now b (record { state = half_open; successes = 0; since = now })

-- What a call then does itself, `seen` failures being in the window.
pub data Own (cfg : Config) (now seen : ℕ) : Call → Breaker → Breaker → Type 0 where
  ask : {b : Breaker} → Own cfg now seen allows b b
  pass : {b : Breaker} → b.state ≢ half_open → Own cfg now seen succeeds b b
  progress :
      {b : Breaker}
      → b.state ≡ half_open
      → b.successes + 1 < cfg.success_threshold
      → Own cfg now seen succeeds b (record b { successes = b.successes + 1 })
  recover :
      {b : Breaker}
      → b.state ≡ half_open
      → cfg.success_threshold ≤ b.successes + 1
      → Own cfg now seen succeeds b (record { state = closed; successes = 0; since = now })
  bear :
      {b : Breaker} → b.state ≡ closed → seen < cfg.failure_threshold → Own cfg now seen fails b b
  trip :
      {b : Breaker}
      → b.state ≡ closed
      → cfg.failure_threshold ≤ seen
      → Own cfg now seen fails b (record b { state = opened; since = now })
  reopen :
      {b : Breaker}
      → b.state ≡ half_open
      → Own cfg now seen fails b (record { state = opened; successes = 0; since = now })
  stay_open : {b : Breaker} → b.state ≡ opened → Own cfg now seen fails b b

-- What a call that met no error of Redis answers.
abbrev pub answer : Call → State → Result (Unit {0})
answer allows opened = err circuit_open
answer _ _ = ok tt

-- Whether a call writes after the timeout's move.
abbrev pub Writes : Call → State → Type 0
Writes allows st = ⊥
Writes succeeds st = st ≡ half_open
Writes fails st = Unit
