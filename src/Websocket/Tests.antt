-- ===== src/Websocket/Tests.antt =====
-- Two clients, a message, and one of them gone twice.
use vibranium_quadsquad.Base.{ℕ, List, [], ◌∷◌}
use vibranium_quadsquad.Websocket.{Event, connects, disconnects, broadcasts, writes, run, new_hub}
use vibranium_quadsquad.Websocket.Safe.{IsSafe, run-new_hub-IsSafe}

abbrev events : List (Event ℕ)
events =
    connects
    ∷ connects
    ∷ broadcasts 7
    ∷ writes 0
    ∷ disconnects 1
    ∷ disconnects 1
    ∷ broadcasts 8
    ∷ []

run-new_hub-IsSafe_example : IsSafe ℕ (run ℕ (new_hub ℕ) events)
run-new_hub-IsSafe_example = run-new_hub-IsSafe ℕ events
