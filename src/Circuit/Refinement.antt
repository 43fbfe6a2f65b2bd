-- ===== src/Circuit/Refinement.antt =====
-- What Redis holds for a circuit, and when a request is refused.
use Prim.Native.String.{count}
use text.Mathlib.TextLemmas.{length-append}
use vibranium_quadsquad.Base.{
  ℕ, ◌+◌, ◌<◌, ◌≡◌, ◌≢◌, refl, ap, ◌∙◌, ◌⊎◌, inl, inr, ◌↔◌, String, Option, List, [], ◌∷◌, none,
  some, arith, Option-cases,
}
use vibranium_quadsquad.Redis.{
  Redis, Codec, StringLaws, Reply, hit, nil, fault, Command, call_all, key_of,
}
use vibranium_quadsquad.Circuit.{
  Config, CircuitState, ok, err, opened, redis_error, circuit_open, key, failures_key, save_state,
  get_state, advance, allow, day, record_success, record_failure,
}
use vibranium_quadsquad.Circuit.Spec.{Call, allows, succeeds, fails}

pub failures_key_ne : (n : String) → failures_key n ≢ key n
failures_key_ne n e = absurd (omega (arith, ap count e, length-append (key n) ":failures"))

abbrev pub Avoids : String → List Command → Type 0
Avoids k [] = Unit
Avoids k (c ∷ cs) = (key_of c ≢ k) × Avoids k cs

pub get-call_all :
    {r : Redis}
    → StringLaws r
    → (k : String) (cs : List Command) (d : r.Db) → Avoids k cs
    → r.get k (call_all r cs d).0 ≡ r.get k d
get-call_all laws k [] d a = refl
get-call_all {r} laws k (c ∷ cs) d a =
    get-call_all laws k cs (r.call c d).0 a.1 ∙ laws.get-call_ne k c d a.0

module _ (r : Redis) (c : Codec r CircuitState) where
  -- The state that Redis holds for the circuit.
  abbrev pub decoded : Reply r.Bytes → Option CircuitState
  decoded (hit b) = c.unmarshal b
  decoded nil = none
  decoded fault = none

  abbrev pub stored : Config → r.Db → Option CircuitState
  stored cfg d = decoded (r.get (key cfg.name) d)

  pub get_state-stored :
      (cfg : Config) (now : ℕ) (d : r.Db) (s : CircuitState)
      → stored cfg d ≡ some s
      → get_state r c cfg now d ≡ advance r c cfg now s d
  unfolding get_state
  get_state-stored cfg now d s h = ground arith

  -- A write that succeeds is what is stored; one that fails leaves the database.
  pub save_state_cases :
      StringLaws r
      → (cfg : Config) (now : ℕ) (s : CircuitState) (d : r.Db)
      → ((d' : r.Db) × (save_state r c cfg now s d ≡ (ok tt, d')) × (stored cfg d' ≡ some s))
        ⊎ (save_state r c cfg now s d ≡ (err redis_error, d))
  unfolding save_state
  save_state_cases laws cfg now s d =
      elim (Option-cases (r.set (key cfg.name) (c.marshal s) day d)) [
        | inl e ↦ inr (ground arith)
        | inr (d', e) ↦ inl (
          d',
          ground arith,
          ground
              (arith, laws.get-set (key cfg.name) (c.marshal s) day d d' e, c.unmarshal-marshal s),
        )
      ]

  -- A request is refused as `circuit_open` exactly when the stored circuit is open and its timeout
  -- has not passed, whatever Redis answers to a write.
  pub allow-refuses_iff :
      (cfg : Config) (now : ℕ) (d : r.Db) (s : CircuitState)
      → stored cfg d ≡ some s
      → ((allow r c cfg now d).0 ≡ err circuit_open)
        ↔ ((s.state ≡ opened) × (now < s.last_state_change + cfg.timeout))
  unfolding allow save_state get_state
  allow-refuses_iff cfg now d s h = (
    λ e. ground (arith, get_state-stored cfg now d s h),
    λ e. ground (arith, get_state-stored cfg now d s h),
  )

  unfoldable pub after : Config → ℕ → Call → r.Db → r.Db
  unfolding allow record_success record_failure
  after cfg now allows d = (allow r c cfg now d).1
  after cfg now succeeds d = (record_success r c cfg now d).1
  after cfg now fails d = (record_failure r c cfg now d).1
