-- ===== src/Circuit/Calls.antt =====
-- The calls of the circuit breaker against the machine of Spec.antt: each does what Moves.antt says.
use Prim.Native.Nat.{◌/◌}
use vibranium_quadsquad.Base.{
  ℕ, ◌+◌, ◌≤◌, ◌≡◌, ◌≢◌, refl, ap, sym, ◌∙◌, subst, ◌⊎◌, inl, inr, String, none, some, arith,
  Option-cases, Bool-cases, get_or, length,
}
use vibranium_quadsquad.Redis.{
  Redis, Codec, StringLaws, SetLaws, call_all, z_add_entry, one, z_rem_range_by_score, z_add,
}
use vibranium_quadsquad.Circuit.{
  State, Config, CircuitState, Error, ok, err, closed, opened, half_open, redis_error, key,
  failures_key, is_due, to_half_open, save_state, get_state, advance, allow, success_step,
  record_success, window_commands, window_start, increment_failure_count, failure_step,
  record_failure, M, ◌>>=◌, bind-ok, bind-err, note_failure, on_success, verdict,
}
use vibranium_quadsquad.Circuit.Spec.{
  view, Call, allows, succeeds, fails, Timeout, early, test, Own, ask, pass, answer, Writes,
}
use vibranium_quadsquad.Circuit.Refinement.{failures_key_ne, get-call_all, save_state_cases}
use vibranium_quadsquad.Circuit.Moves.{
  success_step-Own, failure_step-Own, reading, read, failures_in, run, Does, nothing, no_more, done,
  stored-read, decode-read, decode-unread,
}

module _ (r : Redis) (c : Codec r CircuitState) where
  module _ (laws : StringLaws r) (sets : SetLaws r) (cfg : Config) (now : ℕ) (s : CircuitState)
      (d : r.Db) (h : read r c cfg now d ≡ some s) where
    -- The state after the timeout's move, in the database `d'`.
    record Ready (m : CircuitState) (d' : r.Db) : Type 0 where
      moved : Timeout cfg now (view s) (view m)
      held : read r c cfg now d' ≡ some m
      untouched : m.state ≡ closed → d' ≡ d

    get_state-advance : get_state r c cfg now d ≡ advance r c cfg now s d
    unfolding get_state
    get_state-advance = decode-read r c cfg now d s (r.get (key cfg.name) d) h

    get_state_cases :
        ((m : CircuitState) × (d' : r.Db) × (get_state r c cfg now d ≡ (ok m, d')) × Ready m d')
        ⊎ ((s.state ≡ opened)
            × (s.last_state_change + cfg.timeout ≤ now)
            × (get_state r c cfg now d ≡ (err redis_error, d)))
    get_state_cases = elim (Bool-cases (is_due cfg now s)) [
      | inr early_ ↦ inl (
        s,
        d,
        get_state-advance ∙ ground arith,
        record { moved = early (λ e. ground arith); held = h; untouched = λ e. refl },
      )
      | inl due ↦ elim (save_state_cases r c laws cfg now (to_half_open now s) d) [
        | inl (d', e, k) ↦ inl (
          to_half_open now s,
          d',
          get_state-advance ∙ ground arith,
          record {
            moved = test (ground arith) (ground arith);
            held = stored-read r c cfg now d' (to_half_open now s) k;
            untouched = λ e. absurd (ground arith);
          },
        )
        | inr e ↦ inr (ground arith, ground arith, get_state-advance ∙ ground arith)
      ]
    ]

    -- A write of the next state.
    save-Does :
        (call : Call) (m t : CircuitState) (d' : r.Db)
        → Ready m d'
        → Writes call m.state
        → answer call m.state ≡ ok tt
        → Own cfg now (failures_in r c cfg now d) call (view m) (view t)
        → (d'' : r.Db) → read r c cfg now d'' ≡ some m
        → Does r c cfg now s d call (save_state r c cfg now t d'')
    save-Does call m t d' ready writes fine own d'' held =
        elim (save_state_cases r c laws cfg now t d'') [
          | inl (e'', e, k) ↦
              rw e (done m t ready.moved own (stored-read r c cfg now e'' t k) (sym fine))
          | inr e ↦ rw e (no_more m ready.moved writes held refl)
        ]

    -- A call that starts by reading the state.
    get_state-Does :
        (call : Call) (k : CircuitState → M r.Db (Unit {0}))
        → ((m : CircuitState) (d' : r.Db) → Ready m d' → Does r c cfg now s d call (k m d'))
        → Does r c cfg now s d call ((get_state r c cfg now >>= k) d)
    get_state-Does call k rest = elim get_state_cases [
      | inl (m, d', e, ready) ↦
          subst (Does r c cfg now s d call) (sym (bind-ok (get_state r c cfg now) k e))
            (rest m d' ready)
      | inr (is_opened, due, e) ↦ nothing is_opened due (bind-err (get_state r c cfg now) k e)
    ]

    verdict-Does :
        (m : CircuitState) (st : State) (d' : r.Db)
        → st ≡ m.state
        → Ready m d'
        → Does r c cfg now s d allows (verdict r c st d')
    verdict-Does m closed d' e ready = done m m ready.moved ask ready.held (ap (answer allows) e)
    verdict-Does m opened d' e ready = done m m ready.moved ask ready.held (ap (answer allows) e)
    verdict-Does m half_open d' e ready = done m m ready.moved ask ready.held (ap (answer allows) e)

    on_success-Does :
        (m : CircuitState) (st : State) (d' : r.Db)
        → st ≡ m.state
        → Ready m d'
        → Does r c cfg now s d succeeds (on_success r c cfg now m st d')
    on_success-Does m half_open d' e ready =
        save-Does succeeds m (success_step cfg now m) d' ready (sym e) refl
          (success_step-Own cfg now (failures_in r c cfg now d) m (sym e)) d' ready.held
    on_success-Does m closed d' e ready =
        done m m ready.moved (pass (λ q. absurd (ground (arith, e, q)))) ready.held refl
    on_success-Does m opened d' e ready =
        done m m ready.moved (pass (λ q. absurd (ground (arith, e, q)))) ready.held refl

    -- Counting a failure leaves the state alone, and replies the failures of the window.
    counted :
        (d' : r.Db)
        → get_or (call_all r (window_commands cfg now) d').1 2 0 ≡ failures_in r c cfg now d'
    counted d' =
        let k : String = failures_key cfg.name in
        let cut = window_start now cfg.failure_window in
        let d1 = (r.call (z_rem_range_by_score k cut) d').0 in
        let d2 = (r.call (z_add k (now / 1_000_000) (one now)) d1).0 in
        (sets.entries-z_card k d2).1
        ∙ ap length (
            sets.entries-z_add k (now / 1_000_000) (one now) d1
            ∙ ap (z_add_entry (one now) (now / 1_000_000)) (sets.entries-z_rem k cut d'))

    count_cases :
        (m : CircuitState) (d' : r.Db)
        → read r c cfg now d' ≡ some m
        → ((d'' : r.Db) × (increment_failure_count r c cfg now d'
              ≡ (ok (failures_in r c cfg now d'), d''))
            × (read r c cfg now d'' ≡ some m))
          ⊎ (increment_failure_count r c cfg now d' ≡ (err redis_error, d'))
    unfolding increment_failure_count
    count_cases m d' held = elim (Bool-cases (r.answers d')) [
      | inl up ↦ inl (
        (call_all r (window_commands cfg now) d').0,
        ground (arith, counted d'),
        ap (reading r c now) (
              get-call_all laws (key cfg.name) (window_commands cfg now) d'
                (other, (other, (other, (other, tt)))))
            ∙ held,
      )
      | inr down ↦ inr (ground arith)
    ]
      where
        other : failures_key cfg.name ≢ key cfg.name
        other = failures_key_ne cfg.name

    -- The rest of `record_failure`, once the state is read.
    abbrev after_count : CircuitState → ℕ → M r.Db (Unit {0})
    after_count m n = save_state r c cfg now (failure_step cfg now n (note_failure now m) m.state)

    on_failure-Does :
        (m : CircuitState) (d' : r.Db)
        → Ready m d'
        → Does r c cfg now s d fails ((increment_failure_count r c cfg now >>= after_count m) d')
    on_failure-Does m d' ready = elim (count_cases m d' ready.held) [
      | inr e ↦
          subst (Does r c cfg now s d fails)
            (sym (bind-err (increment_failure_count r c cfg now) (after_count m) e))
            (no_more m ready.moved tt ready.held refl)
      | inl (d'', e, held) ↦
          subst (Does r c cfg now s d fails)
            (sym (bind-ok (increment_failure_count r c cfg now) (after_count m) e))
            (save-Does fails m
              (failure_step cfg now (failures_in r c cfg now d') (note_failure now m) m.state) d'
              ready tt refl
              (failure_step-Own cfg now (failures_in r c cfg now d') (failures_in r c cfg now d) m
                m.state refl (λ q. ap (failures_in r c cfg now) (ready.untouched q)))
              d'' held)
    ]

    run-Does : (call : Call) → Does r c cfg now s d call (run r c cfg now call d)
    unfolding run allow record_success record_failure
    run-Does allows =
        get_state-Does allows (λ m. verdict r c m.state) (λ m d'. verdict-Does m m.state d' refl)
    run-Does succeeds =
        get_state-Does succeeds (λ m. on_success r c cfg now m m.state)
          (λ m d'. on_success-Does m m.state d' refl)
    run-Does fails =
        get_state-Does fails (λ m. increment_failure_count r c cfg now >>= after_count m)
          on_failure-Does

  get_state-unread :
      (cfg : Config) (now : ℕ) (d : r.Db)
      → read r c cfg now d ≡ none
      → (e : Error) × (get_state r c cfg now d ≡ (err e, d))
  unfolding get_state
  get_state-unread cfg now d h = decode-unread r c cfg now d (r.get (key cfg.name) d) h

  -- A call on a circuit that cannot be read is an error and changes nothing, whichever call it is.
  unread :
      (cfg : Config) (now : ℕ) (call : Call) (d : r.Db)
      → read r c cfg now d ≡ none
      → (e : Error) × (run r c cfg now call d ≡ (err e, d))
  unfolding run allow record_success record_failure
  unread cfg now call d h =
      let (e, failed) = get_state-unread cfg now d h in
      (
        e,
        elim call as (λ a. run r c cfg now a d ≡ (err e, d)) [
          | allows ↦ bind-err (get_state r c cfg now) (λ m. verdict r c m.state) failed
          | succeeds ↦
              bind-err (get_state r c cfg now) (λ m. on_success r c cfg now m m.state) failed
          | fails ↦
              bind-err (get_state r c cfg now)
                (λ m. increment_failure_count r c cfg now >>= (λ n.
                  save_state r c cfg now (failure_step cfg now n (note_failure now m) m.state)))
                failed
        ],
      )

  -- A call on a circuit that cannot be read, since Redis does not answer or what it holds cannot be
  -- decoded, is an error and changes nothing. Any other call makes the timeout's move of Spec.antt,
  -- where it is due, then the move that the machine has for this call and the number of failures in
  -- the window, and answers what the state after the first move says; or Redis fails, the answer is
  -- an error, and the circuit is what it was, or what the timeout's move made of it.
  pub call-Refines :
      StringLaws r
      → SetLaws r
      → (cfg : Config) (now : ℕ) (call : Call) (d : r.Db)
      → ((read r c cfg now d ≡ none) × ((e : Error) × (run r c cfg now call d ≡ (err e, d))))
        ⊎ ((s : CircuitState) × (read r c cfg now d ≡ some s)
            × Does r c cfg now s d call (run r c cfg now call d))
  call-Refines laws sets cfg now call d = elim (Option-cases (read r c cfg now d)) [
    | inl h ↦ inl (h, unread cfg now call d h)
    | inr (s, h) ↦ inr (s, h, run-Does laws sets cfg now s d h call)
  ]
