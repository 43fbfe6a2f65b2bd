-- ===== src/Circuit/Tests.antt =====
-- Runs of the circuit breaker on a Redis in memory.
use vibranium_quadsquad.Base.{◌⊎◌, none, ◌+◌, ◌<◌, ◌≡◌, ◌↔◌, refl, [], ◌∷◌, some, arith}
use vibranium_quadsquad.Redis.Model.{Db, memory, plain, memory-StringLaws, memory-SetLaws}
use vibranium_quadsquad.Circuit.{
  Config, CircuitState, Error, err, closed, opened, circuit_open, key, allow, forced, to_half_open,
}
use vibranium_quadsquad.Circuit.Refinement.{stored, allow-refuses_iff}
use vibranium_quadsquad.Circuit.Spec.{fails}
use vibranium_quadsquad.Circuit.Moves.{read, run, Does}
use vibranium_quadsquad.Circuit.Calls.{call-Refines}
use vibranium_quadsquad.Circuit.Recovery.{after_successes, after_successes-recovers}

abbrev cfg : Config
cfg = record {
  name = "hub";
  failure_threshold = 2;
  success_threshold = 2;
  timeout = 30;
  failure_window = 60;
}

abbrev empty : Db CircuitState
empty = record { values = []; sets = [] }

-- The circuit was forced open at time 100.
abbrev open_db : Db CircuitState
open_db = record { values = (key "hub", forced 100) ∷ []; sets = [] }

abbrev testing : CircuitState
testing = to_half_open 130 (forced 100)

abbrev testing_db : Db CircuitState
testing_db = record { values = (key "hub", testing) ∷ []; sets = [] }

allow-refuses_iff_example :
    ((allow (memory CircuitState) (plain CircuitState) cfg 129 open_db).0 ≡ err circuit_open)
    ↔ ((opened ≡ opened) × (129 < 100 + 30))
allow-refuses_iff_example =
    allow-refuses_iff (memory CircuitState) (plain CircuitState) cfg 129 open_db (forced 100) refl

call-Refines_example :
    let r = memory CircuitState in
    let c = plain CircuitState in
    ((read r c cfg 131 open_db ≡ none)
      × ((e : Error) × (run r c cfg 131 fails open_db ≡ (err e, open_db))))
    ⊎ ((s : CircuitState) × (read r c cfg 131 open_db ≡ some s)
        × Does r c cfg 131 s open_db fails (run r c cfg 131 fails open_db))
call-Refines_example =
    call-Refines (memory CircuitState) (plain CircuitState) (memory-StringLaws CircuitState)
      (memory-SetLaws CircuitState) cfg 131 fails open_db

after_successes-recovers_example :
    (s' : CircuitState) × (stored (memory CircuitState) (plain CircuitState) cfg (
        after_successes
          (memory CircuitState)
          (plain CircuitState)
          (memory-StringLaws CircuitState)
          cfg
          (140 ∷ 150 ∷ [])
          testing_db)
      ≡ some s')
    × (s'.state ≡ closed)
after_successes-recovers_example =
    after_successes-recovers (memory CircuitState) (plain CircuitState)
      (memory-StringLaws CircuitState) cfg (140 ∷ 150 ∷ []) testing_db testing (λ k v ttl d e. cc)
      refl refl (omega arith) (omega arith)
