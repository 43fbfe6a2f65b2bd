-- ===== src/Workers/Steps.antt =====
-- The pool of engine/worker/pool.go under any interleaving of its callers and workers.
use vibranium_quadsquad.Base.{
  ℕ, suc, ◌+◌, ◌≤◌, ◌≡◌, refl, sym, ◌∙◌, Bool, true, false, Option, none, some, arith,
}
use vibranium_quadsquad.Base.Int.{pos, ◌≤ℤ◌}
use vibranium_quadsquad.Workers.{
  Pool, Config, PoolError, new_pool, check_stopped, count_submitted, count_result, stop, stats,
}

-- A pool with the calls and tasks in flight: callers past the check of Submit, callers that have
-- counted their task, tasks that wait in the worker pool, tasks that run, tasks that StopNow
-- abandoned, and callers whose wp.Submit panicked. `closed` is whether the queue of the worker pool
-- is closed, which its Stop and StopWait do.
pub record System : Type 0 where
  pub pool : Pool
  pub closed : Bool
  pub checked : ℕ
  pub counted : ℕ
  pub waiting : ℕ
  pub running : ℕ
  pub abandoned : ℕ
  pub panicked : ℕ

-- Submit gives up its lock before it hands the task over, so a stop may come in between: wp.Submit
-- on a closed queue panics. Stop and StopNow mark the pool, then close the queue; closing it again
-- does nothing. When a task that waits is started is up to the worker pool.
pub data Step : System → System → Type 0 where
  check : (s : System) → check_stopped s.pool ≡ none → Step s (record s { checked = suc s.checked })
  count :
      (s : System) (n : ℕ)
      → s.checked ≡ suc n
      → Step s (record s { pool = count_submitted s.pool; checked = n; counted = suc s.counted })
  hand_over :
      (s : System) (n : ℕ)
      → s.counted ≡ suc n
      → s.closed ≡ false
      → Step s (record s { counted = n; waiting = suc s.waiting })
  panic :
      (s : System) (n : ℕ)
      → s.counted ≡ suc n
      → s.closed ≡ true
      → Step s (record s { counted = n; panicked = suc s.panicked })
  start :
      (s : System) (n : ℕ)
      → s.waiting ≡ suc n
      → Step s (record s { waiting = n; running = suc s.running })
  finish :
      (s : System) (n : ℕ) (e : Option PoolError)
      → s.running ≡ suc n
      → Step s (record s { pool = count_result e s.pool; running = n })
  mark : (s : System) → Step s (record s { pool = stop s.pool })
  close_wait : (s : System) → s.pool.stopped ≡ true → Step s (record s { closed = true })
  close_now :
      (s : System)
      → s.pool.stopped ≡ true
      → s.closed ≡ false
      → Step s (record s { closed = true; waiting = 0; abandoned = s.abandoned + s.waiting })

pub data Steps (s : System) : System → Type 0 where
  here : Steps s s
  next : {t u : System} → Steps s t → Step t u → Steps s u

unfoldable pub initial : Option Config → System
initial cfg = record {
  pool = new_pool cfg;
  closed = false;
  checked = 0;
  counted = 0;
  waiting = 0;
  running = 0;
  abandoned = 0;
  panicked = 0;
}

-- Tasks that were counted as submitted and not yet as completed or failed.
abbrev pub outstanding : System → ℕ
outstanding s = s.counted + s.waiting + s.running + s.abandoned + s.panicked

pub record IsBalanced (s : System) : Type 0 where
  pub counts : s.pool.submitted ≡ s.pool.completed + s.pool.failed + outstanding s
  pub closing : s.closed ≡ true → s.pool.stopped ≡ true
  pub kept : s.pool.stopped ≡ false → (s.abandoned ≡ 0) × (s.panicked ≡ 0)

count_result-adds :
    (e : Option PoolError) (p : Pool)
    → ((count_result e p).completed + (count_result e p).failed ≡ p.completed + p.failed + 1)
      × ((count_result e p).submitted ≡ p.submitted)
      × (p.completed ≤ (count_result e p).completed)
      × (p.failed ≤ (count_result e p).failed)
unfolding count_result
count_result-adds none p = (omega arith, refl, omega arith, omega arith)
count_result-adds (some e) p = (omega arith, refl, omega arith, omega arith)

count_result-stopped : (e : Option PoolError) (p : Pool) → (count_result e p).stopped ≡ p.stopped
unfolding count_result
count_result-stopped none p = refl
count_result-stopped (some e) p = refl

Step-IsBalanced : {s t : System} → Step s t → IsBalanced s → IsBalanced t
unfolding count_submitted stop
Step-IsBalanced (check s h) b = record { counts = b.counts; closing = b.closing; kept = b.kept }
Step-IsBalanced (count s n e) b = record {
  counts = omega (arith, b.counts);
  closing = b.closing;
  kept = b.kept;
}
Step-IsBalanced (hand_over s n e h) b = record {
  counts = omega (arith, b.counts);
  closing = b.closing;
  kept = b.kept;
}
Step-IsBalanced (panic s n e h) b = record {
  counts = omega (arith, b.counts);
  closing = b.closing;
  kept = λ k. absurd (ground (arith, b.closing h));
}
Step-IsBalanced (start s n e) b = record {
  counts = omega (arith, b.counts);
  closing = b.closing;
  kept = b.kept;
}
Step-IsBalanced (finish s n e h) b =
    let (sum, same, _, _) = count_result-adds e s.pool in
    let marked = count_result-stopped e s.pool in
    record {
      counts = omega (arith, b.counts, sum, same);
      closing = λ c. marked ∙ b.closing c;
      kept = λ k. b.kept (sym marked ∙ k);
    }
Step-IsBalanced (mark s) b = record {
  counts = b.counts;
  closing = λ c. refl;
  kept = λ k. absurd (ground arith);
}
Step-IsBalanced (close_wait s h) b = record { counts = b.counts; closing = λ c. h; kept = b.kept }
Step-IsBalanced (close_now s h k) b = record {
  counts = omega (arith, b.counts);
  closing = λ c. h;
  kept = λ k. absurd (ground arith);
}

-- Whatever callers and workers do, in whatever order: every task that was counted as submitted is
-- counted as completed, as failed, or is still in flight, abandoned, or lost to a panic of its
-- caller; and none is abandoned or lost unless the pool was stopped.
pub Steps-IsBalanced : (cfg : Option Config) {t : System} → Steps (initial cfg) t → IsBalanced t
unfolding initial new_pool
Steps-IsBalanced cfg here = record {
  counts = refl;
  closing = λ c. absurd (ground arith);
  kept = λ k. (refl, refl);
}
Steps-IsBalanced cfg (next r st) = Step-IsBalanced st (Steps-IsBalanced cfg r)

record Grows (p q : Pool) : Type 0 where
  more_completed : p.completed ≤ q.completed
  more_failed : p.failed ≤ q.failed

unmoved : (p : Pool) → Grows p p
unmoved p = record { more_completed = omega arith; more_failed = omega arith }

Step-Grows : {s t : System} → Step s t → Grows s.pool t.pool
unfolding count_submitted stop
Step-Grows (finish s n e h) =
    let (_, _, more, worse) = count_result-adds e s.pool in
    record { more_completed = more; more_failed = worse }
Step-Grows (check s h) = unmoved s.pool
Step-Grows (count s n e) = record { more_completed = omega arith; more_failed = omega arith }
Step-Grows (hand_over s n e h) = unmoved s.pool
Step-Grows (panic s n e h) = unmoved s.pool
Step-Grows (start s n e) = unmoved s.pool
Step-Grows (mark s) = record { more_completed = omega arith; more_failed = omega arith }
Step-Grows (close_wait s h) = unmoved s.pool
Step-Grows (close_now s h k) = unmoved s.pool

Steps-Grows : {s t : System} → Steps s t → Grows s.pool t.pool
Steps-Grows here = record { more_completed = omega arith; more_failed = omega arith }
Steps-Grows (next r st) =
    let p = Steps-Grows r in
    let q = Step-Grows st in
    record {
      more_completed = omega (arith, p.more_completed, q.more_completed);
      more_failed = omega (arith, p.more_failed, q.more_failed);
    }

-- The statistics of a pool that is in use: the number of pending tasks that is shown is at most the
-- number outstanding at the first load, whatever happens between the loads, and is that number when
-- nothing does.
pub stats-pending :
    (cfg : Option Config) {a b c : System}
    → Steps (initial cfg) a
    → Steps a b
    → Steps b c
    → ((stats a.pool b.pool c.pool).pending ≤ℤ pos (outstanding a))
      × ((stats a.pool a.pool a.pool).pending ≡ pos (outstanding a))
unfolding stats
stats-pending cfg {a} {b} {c} r s t =
    let balanced = Steps-IsBalanced cfg r in
    let p = Steps-Grows s in
    let q = Steps-Grows t in
    (
      ground (arith, balanced.counts, p.more_completed, p.more_failed, q.more_failed),
      ground (arith, balanced.counts),
    )
