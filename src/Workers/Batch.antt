-- ===== src/Workers/Batch.antt =====
-- SubmitBatch and SubmitWait of engine/worker/pool.go. The callbacks of a batch run one at a time,
-- under its mutex, in the order in which the tasks end.
use vibranium_quadsquad.Base.{
  ℕ, suc, ◌<◌, ◌≡◌, refl, sym, ap, ◌∙◌, inl, inr, String, Bool, true, false, Option, none, some,
  List, [], ◌∷◌, if◌then◌else◌, map, length, arith, ◌==◌, ◌||◌, Bool-cases, eq→same,
}
use vibranium_quadsquad.Base.Slots.{
  get_elem?, set_elem, get_elem?-set_elem, length-set_elem, get_elem?-some, get_elem?-ext,
  get_elem?-none, get_elem?-within, length-map, get_elem?-map,
}
use vibranium_quadsquad.Settlement.{SettlementRequest, SettlementResponse}
use vibranium_quadsquad.Workers.{PoolError, Outcome, other}

abbrev pub empty_slots : {A B : Type 0} → List A → List (Option B)
empty_slots [] = []
empty_slots (x ∷ xs) = none ∷ empty_slots xs

abbrev pub first_error : List (Option PoolError) → Option PoolError
first_error [] = none
first_error (none ∷ es) = first_error es
first_error (some e ∷ es) = some e

module _ {R B : Type 0} (g : R → Option B) where
  -- The slots after the callbacks of the tasks `order`; `g` is what a request's callback writes.
  unfoldable pub deliver : List R → List ℕ → List (Option B) → List (Option B)
  deliver requests [] slots = slots
  deliver requests (i ∷ is) slots =
      deliver requests is
        (elim (get_elem? requests i) [ none ↦ slots | some r ↦ set_elem slots i (g r) ])

-- SubmitBatch, when the tasks end in the order `order`. `is_stopped` tells whether a Submit of the
-- batch found the pool stopped: then the batch is left without its results.
unfoldable pub submit_batch :
    {V : Type 0}
    → Bool
    → (SettlementRequest V → Outcome)
    → List (SettlementRequest V)
    → List ℕ
    → List (Option SettlementResponse) × Option PoolError
unfolding deliver
submit_batch is_stopped outcome [] order = ([], none)
submit_batch true outcome (r ∷ rs) order = ([], some PoolError.pool_stopped)
submit_batch false outcome (r ∷ rs) order = (
  deliver (λ q. (outcome q).0) (r ∷ rs) order (empty_slots (r ∷ rs)),
  first_error (deliver (λ q. (outcome q).1) (r ∷ rs) order (empty_slots (r ∷ rs))),
)

-- SubmitWait: the result of the task, or the context's error if the context is done first.
unfoldable pub submit_wait : Option PoolError → Option String → Outcome → Outcome
submit_wait (some e) ctx o = (none, some e)
submit_wait none none o = o
submit_wait none (some e) o = (none, some (other e))

abbrev pub includes : ℕ → List ℕ → Bool
includes i [] = false
includes i (j ∷ js) = (j == i) || includes i js

length-empty_slots :
    {A : Type 0} (B : Type 0) (xs : List A) → length (empty_slots {A = A} {B = B} xs) ≡ length xs
length-empty_slots B [] = refl
length-empty_slots B (x ∷ xs) = ap suc (length-empty_slots B xs)

module _ {R B : Type 0} (g : R → Option B) (requests : List R) where
  abbrev put : Option R → ℕ → List (Option B) → List (Option B)
  put none j slots = slots
  put (some r) j slots = set_elem slots j (g r)

  abbrev written : ℕ → List (Option B) → List (Option B)
  written j slots = elim (get_elem? requests j) [ none ↦ slots | some r ↦ set_elem slots j (g r) ]

  written-put :
      (j : ℕ) (slots : List (Option B)) → written j slots ≡ put (get_elem? requests j) j slots
  written-put j slots =
      elim (get_elem? requests j)
        as (λ o. elim o [ none ↦ slots | some r ↦ set_elem slots j (g r) ] ≡ put o j slots) [
          | none ↦ refl
          | some r ↦ refl
        ]

  length-written : (j : ℕ) (slots : List (Option B)) → length (written j slots) ≡ length slots
  length-written j slots =
      elim (get_elem? requests j)
        as (λ o.
          length (elim o [ none ↦ slots | some r ↦ set_elem slots j (g r) ]) ≡ length slots) [
            | none ↦ refl
            | some r ↦ length-set_elem slots j (g r)
          ]

  length-deliver :
      (order : List ℕ) (slots : List (Option B))
      → length (deliver g requests order slots) ≡ length slots
  unfolding deliver
  length-deliver [] slots = refl
  length-deliver (j ∷ js) slots = length-deliver js (written j slots) ∙ length-written j slots

  get_elem?-written :
      (j i : ℕ) (r : R) (slots : List (Option B))
      → length slots ≡ length requests
      → get_elem? requests i ≡ some r
      → get_elem? (written j slots) i ≡ (if j == i then some (g r) else get_elem? slots i)
  get_elem?-written j i r slots same e =
      let inside = get_elem?-some requests i r e in
      elim (get_elem?-within requests j) [
        | inl beyond ↦
            ap (λ z. get_elem? z i)
              (written-put j slots ∙ ap (λ o. put o j slots) (get_elem?-none requests j beyond))
            ∙ ground (arith, inside, beyond)
        | inr (q, f) ↦
            ap (λ z. get_elem? z i) (written-put j slots ∙ ap (λ o. put o j slots) f)
            ∙ get_elem?-set_elem slots j i (g q)
                (omega (arith, get_elem?-some requests j q f, same))
            ∙ elim (Bool-cases (j == i)) [
              | inl eq ↦ ground (arith, ap (get_elem? requests) (eq→same j i eq), e, f)
              | inr ne ↦ ground arith
            ]
      ]

  get_elem?-deliver :
      (order : List ℕ) (i : ℕ) (r : R) (slots : List (Option B))
      → length slots ≡ length requests
      → get_elem? requests i ≡ some r
      → get_elem? (deliver g requests order slots) i
        ≡ (if includes i order then some (g r) else get_elem? slots i)
  unfolding deliver
  get_elem?-deliver [] i r slots same e = refl
  get_elem?-deliver (j ∷ js) i r slots same e = ground (
    arith,
    get_elem?-deliver js i r (written j slots) (length-written j slots ∙ same) e,
    get_elem?-written j i r slots same e,
  )

  -- Once the callbacks of all tasks have run, each slot holds what its request's callback writes.
  deliver-map :
      (order : List ℕ)
      → ((i : ℕ) → i < length requests → includes i order ≡ true)
      → deliver g requests order (empty_slots requests) ≡ map g requests
  deliver-map order all =
      get_elem?-ext (deliver g requests order (empty_slots requests)) (map g requests) λ i.
        elim (get_elem?-within requests i) [
          | inl beyond ↦
              get_elem?-none (deliver g requests order (empty_slots requests)) i (
                omega (
                  arith,
                  length-deliver order (empty_slots requests),
                  length-empty_slots B requests,
                  beyond,
                ))
              ∙ sym
                  (get_elem?-none (map g requests) i (omega (arith, length-map g requests, beyond)))
          | inr (r, e) ↦
              get_elem?-deliver order i r (empty_slots requests) (length-empty_slots B requests) e
              ∙ ap (λ b. if b then some (g r) else get_elem? (empty_slots requests) i)
                  (all i (get_elem?-some requests i r e))
              ∙ sym (get_elem?-map g requests i r e)
        ]

-- A batch on a pool that is not stopped gives, once all its tasks have ended, the response of each
-- request in the order of the requests, and the error of the first request that has one, whatever the
-- order in which the tasks ended.
pub submit_batch-in_order :
    {V : Type 0} (outcome : SettlementRequest V → Outcome) (requests : List (SettlementRequest V))
    (order : List ℕ)
    → ((i : ℕ) → i < length requests → includes i order ≡ true)
    → submit_batch false outcome requests order
      ≡ (map (λ q. (outcome q).0) requests, first_error (map (λ q. (outcome q).1) requests))
unfolding submit_batch
submit_batch-in_order outcome [] order all = refl
submit_batch-in_order outcome (r ∷ rs) order all =
    rw
      (
        deliver-map (λ q. (outcome q).0) (r ∷ rs) order all,
        deliver-map (λ q. (outcome q).1) (r ∷ rs) order all,
      )
      refl
