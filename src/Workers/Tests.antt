-- ===== src/Workers/Tests.antt =====
-- A pool under a few steps, and a batch whose tasks end in the opposite order.
use vibranium_quadsquad.Base.{
  ℕ, zero, suc, ◌<◌, ◌≡◌, refl, true, false, Option, some, String, List, [], ◌∷◌, map, arith,
  length,
}
use vibranium_quadsquad.Base.Int.{pos, ◌≤ℤ◌}
use vibranium_quadsquad.Settlement.{SettlementRequest, new_request, new_response}
use vibranium_quadsquad.Workers.{
  Config, Outcome, other, new_pool, count_submitted, check_stopped, stop, stats,
}
use vibranium_quadsquad.Workers.Steps.{
  System, Steps, here, next, check, count, hand_over, mark, close_wait, panic, initial, outstanding,
  IsBalanced, Steps-IsBalanced, stats-pending,
}
use vibranium_quadsquad.Workers.Batch.{submit_batch, includes, first_error, submit_batch-in_order}

abbrev s0 : System
s0 = record {
  pool = record { max_workers = 4; submitted = 0; completed = 0; failed = 0; stopped = false };
  closed = false;
  checked = 0;
  counted = 0;
  waiting = 0;
  running = 0;
  abandoned = 0;
  panicked = 0;
}

abbrev cfg : Option Config
cfg = some (record { max_workers = 4; queue_size = 9 })

abbrev s1 : System
s1 = record s0 { checked = 1 }

abbrev s2 : System
s2 = record s0 { pool = record s0.pool { submitted = 1 }; counted = 1 }

one_task : Steps (initial cfg) s2
unfolding initial new_pool count_submitted check_stopped
one_task = next (next here (check s0 refl)) (count s1 0 refl)

Steps-IsBalanced_example : IsBalanced s2
Steps-IsBalanced_example = Steps-IsBalanced cfg one_task

handed : Steps s2 (record s2 { counted = 0; waiting = 1 })
handed = next here (hand_over s2 0 refl refl)

stats-pending_example :
    let b = record s2 { counted = 0; waiting = 1 } in
    ((stats s2.pool b.pool b.pool).pending ≤ℤ pos (outstanding s2))
    × ((stats s2.pool s2.pool s2.pool).pending ≡ pos (outstanding s2))
stats-pending_example = stats-pending cfg one_task handed here

-- A caller that has counted its task loses it when the pool is stopped before it hands it over.
late : (t : System) × Steps (initial cfg) t × (t.panicked ≡ 1)
unfolding stop
late =
    let marked = record s2 { pool = stop s2.pool } in
    let shut = record marked { closed = true } in
    (
      record shut { counted = 0; panicked = 1 },
      next (next (next one_task (mark s2)) (close_wait marked refl)) (panic shut 0 refl refl),
      refl,
    )

abbrev request : String → SettlementRequest ℕ
unfolding new_request
request id = record (new_request ℕ) { id = id }

abbrev requests : List (SettlementRequest ℕ)
requests = request "r0" ∷ request "r1" ∷ []

abbrev outcome : SettlementRequest ℕ → Outcome
unfolding new_response
outcome r = (some (record new_response { request_id = r.id }), some (other r.id))

all_end : (i : ℕ) → i < length requests → includes i (1 ∷ 0 ∷ []) ≡ true
all_end zero h = refl
all_end (suc zero) h = refl
all_end (suc (suc i)) h = absurd (omega arith)

submit_batch-in_order_example :
    submit_batch false outcome requests (1 ∷ 0 ∷ [])
    ≡ (map (λ q. (outcome q).0) requests, first_error (map (λ q. (outcome q).1) requests))
submit_batch-in_order_example = submit_batch-in_order outcome requests (1 ∷ 0 ∷ []) all_end
