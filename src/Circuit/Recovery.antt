-- ===== src/Circuit/Recovery.antt =====
-- How a circuit is forced open, reset, and recovers by successes.
use vibranium_quadsquad.Base.{
  ℕ, ◌+◌, ◌≤◌, ◌<◌, ◌≡◌, ◌≢◌, refl, ap, ◌∙◌, inl, inr, String, List, [], ◌∷◌, none, some, arith,
  length, leb, Bool-cases,
}
use vibranium_quadsquad.Redis.{Redis, Codec, StringLaws, nil, del}
use vibranium_quadsquad.Circuit.{
  Config, CircuitState, ok, err, closed, half_open, circuit_open, redis_error, day, key,
  failures_key, save_state, get_state, allow, success_step, record_success, force_open, forced,
  new_state, reset,
}
use vibranium_quadsquad.Circuit.Refinement.{
  stored, failures_key_ne, get_state-stored, save_state_cases, after,
}
use vibranium_quadsquad.Circuit.Spec.{succeeds}

module _ (r : Redis) (c : Codec r CircuitState) (laws : StringLaws r) where
  -- A forced circuit refuses every request until its timeout has passed.
  pub allow-force_open :
      (cfg : Config) (now later : ℕ) (d d' : r.Db)
      → force_open r c cfg now d ≡ (ok tt, d')
      → later < now + cfg.timeout
      → allow r c cfg later d' ≡ (err circuit_open, d')
  unfolding force_open allow get_state
  allow-force_open cfg now later d d' e h =
      elim (save_state_cases r c laws cfg now (forced now) d) [
        | inl (d'', e', k) ↦ ground (arith, k)
        | inr e' ↦ ground arith
      ]

  -- A reset that Redis answers leaves no state, and the next request is allowed.
  pub allow-reset :
      (cfg : Config) (now : ℕ) (d d' : r.Db)
      → reset r c cfg d ≡ (ok tt, d')
      → (r.get (key cfg.name) d' ≡ nil) × (allow r c cfg now d' ≡ (ok tt, d'))
  unfolding reset allow get_state new_state
  allow-reset cfg now d d' e = (gone, ground (arith, gone))
    where
      gone : r.get (key cfg.name) d' ≡ nil
      gone = ground (
        arith,
        laws.get-del (key cfg.name) d,
        laws.get-call_ne (key cfg.name) (del (failures_key cfg.name))
            (r.call (del (key cfg.name)) d).0 (failures_key_ne cfg.name),
      )

  -- What one success does to a half-open circuit, and to a closed one, on a Redis that accepts it.
  succeeds_half_open :
      (cfg : Config) (now : ℕ) (d : r.Db) (s : CircuitState)
      → ((k : String) (v : r.Bytes) (ttl : ℕ) (d : r.Db) → r.set k v ttl d ≢ none)
      → stored r c cfg d ≡ some s
      → s.state ≡ half_open
      → stored r c cfg (after r c cfg now succeeds d) ≡ some (success_step cfg now s)
  unfolding after record_success get_state save_state
  succeeds_half_open cfg now d s accepts h e =
      elim (save_state_cases r c laws cfg now (success_step cfg now s) d) [
        | inl (d', saved, k) ↦ ground (arith, k, get_state-stored r c cfg now d s h)
        | inr failed ↦ absurd (accepted failed)
      ]
    where
      accepted : save_state r c cfg now (success_step cfg now s) d ≢ (err redis_error, d)
      accepted failed =
          ground (arith, accepts (key cfg.name) (c.marshal (success_step cfg now s)) day d)

  succeeds_closed :
      (cfg : Config) (now : ℕ) (d : r.Db) (s : CircuitState)
      → stored r c cfg d ≡ some s
      → s.state ≡ closed
      → after r c cfg now succeeds d ≡ d
  unfolding after record_success get_state
  succeeds_closed cfg now d s h e = ground arith

  -- Successes one after another, at the given times.
  pub after_successes : Config → List ℕ → r.Db → r.Db
  after_successes cfg [] d = d
  after_successes cfg (t ∷ ts) d = after_successes cfg ts (after r c cfg t succeeds d)

  after_successes-closed :
      (cfg : Config) (ts : List ℕ) (d : r.Db) (s : CircuitState)
      → stored r c cfg d ≡ some s
      → s.state ≡ closed
      → after_successes cfg ts d ≡ d
  unfolding after_successes
  after_successes-closed cfg [] d s h e = refl
  after_successes-closed cfg (t ∷ ts) d s h e =
      let same = succeeds_closed cfg t d s h e in
      ap (after_successes cfg ts) same ∙ after_successes-closed cfg ts d s h e

  -- A half-open circuit is closed once as many successes have followed one another as are missing
  -- to the threshold, on a Redis that accepts every write.
  pub after_successes-recovers :
      (cfg : Config) (ts : List ℕ) (d : r.Db) (s : CircuitState)
      → ((k : String) (v : r.Bytes) (ttl : ℕ) (d : r.Db) → r.set k v ttl d ≢ none)
      → stored r c cfg d ≡ some s
      → s.state ≡ half_open
      → 0 < length ts
      → cfg.success_threshold ≤ s.successes + length ts
      → (s' : CircuitState) × (stored r c cfg (after_successes cfg ts d) ≡ some s')
        × (s'.state ≡ closed)
  unfolding after_successes success_step
  after_successes-recovers cfg [] d s accepts h e some_left enough = absurd (omega arith)
  after_successes-recovers cfg (t ∷ ts) d s accepts h e some_left enough =
      elim (Bool-cases (leb cfg.success_threshold (s.successes + 1))) [
        | inl last ↦
            let now_closed : (success_step cfg t s).state ≡ closed = ground arith in
            let held = succeeds_half_open cfg t d s accepts h e in
            (
              success_step cfg t s,
              ap (stored r c cfg) (
                    after_successes-closed cfg ts (after r c cfg t succeeds d)
                      (success_step cfg t s) held now_closed)
                  ∙ held,
              now_closed,
            )
        | inr more ↦
            after_successes-recovers cfg ts (after r c cfg t succeeds d) (success_step cfg t s)
              accepts (succeeds_half_open cfg t d s accepts h e) (ground arith) (ground arith)
              (ground arith)
      ]
