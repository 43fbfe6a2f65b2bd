-- ===== src/Settlement/Cleared.antt =====
-- What a request that is taken from the pool of engine/models/settlement.go holds.
use vibranium_quadsquad.Base.{
  ℕ, zero, suc, ◌≡◌, refl, ◌⊎◌, inl, inr, Option, none, some, List, [], ◌∷◌, ◌++◌,
}
use vibranium_quadsquad.Base.Int.{pos}
use vibranium_quadsquad.Settlement.{
  SettlementRequest, get, new_request, reset, acquire_settlement_request,
  release_settlement_request,
}

module _ (V : Type 0) where
  -- A use of the pool: an object is taken, and one, whatever was done to it, is given back.
  pub data Call : Type 0 where
    acquire : ℕ → Call
    release : Option (SettlementRequest V) → Call

  abbrev pub after_call : List (SettlementRequest V) → Call → List (SettlementRequest V)
  after_call pool (acquire i) = (acquire_settlement_request V i pool).1
  after_call pool (release r) = release_settlement_request V pool r

  pub after_calls : List (SettlementRequest V) → List Call → List (SettlementRequest V)
  after_calls pool [] = pool
  after_calls pool (c ∷ cs) = after_calls (after_call pool c) cs

  -- Every field is the zero value, but that an empty slice may have a backing array and metadata
  -- that are not nil are an empty map.
  pub record IsCleared (r : SettlementRequest V) : Type 0 where
    pub no_id : r.id ≡ ""
    pub no_source : r.source_id ≡ ""
    pub no_destination : r.destination_id ≡ ""
    pub no_amount : r.amount ≡ pos 0
    pub no_path : r.path.shown ≡ []
    pub no_signature : r.signature.shown ≡ []
    pub no_priority : r.priority ≡ pos 0
    pub no_times : (r.created_at ≡ 0) × (r.processed_at ≡ 0)
    pub no_metadata : (r.metadata ≡ none) ⊎ (r.metadata ≡ some [])
    pub no_retries : r.retry_count ≡ 0
    pub no_error : r.last_error ≡ none

  abbrev AllCleared : List (SettlementRequest V) → Type 0
  AllCleared [] = Unit
  AllCleared (r ∷ rs) = IsCleared r × AllCleared rs

  new_request-IsCleared : IsCleared (new_request V)
  unfolding new_request
  new_request-IsCleared = record {
    no_id = refl;
    no_source = refl;
    no_destination = refl;
    no_amount = refl;
    no_path = refl;
    no_signature = refl;
    no_priority = refl;
    no_times = (refl, refl);
    no_metadata = inr refl;
    no_retries = refl;
    no_error = refl;
  }

  reset-IsCleared : (r : SettlementRequest V) → IsCleared (reset V r)
  unfolding reset
  reset-IsCleared r = record {
    no_id = refl;
    no_source = refl;
    no_destination = refl;
    no_amount = refl;
    no_path = refl;
    no_signature = refl;
    no_priority = refl;
    no_times = (refl, refl);
    no_metadata = inl refl;
    no_retries = refl;
    no_error = refl;
  }

  get-AllCleared :
      (i : ℕ) (rs : List (SettlementRequest V))
      → AllCleared rs
      → IsCleared (get (new_request V) i rs).0 × AllCleared (get (new_request V) i rs).1
  get-AllCleared i [] a = (new_request-IsCleared, tt)
  get-AllCleared zero (r ∷ rs) (c, a) = (c, a)
  get-AllCleared (suc i) (r ∷ rs) (c, a) = let (d, b) = get-AllCleared i rs a in (d, (c, b))

  after_call-AllCleared :
      (pool : List (SettlementRequest V)) (c : Call)
      → AllCleared pool
      → AllCleared (after_call pool c)
  unfolding acquire_settlement_request release_settlement_request
  after_call-AllCleared pool (acquire i) a = (get-AllCleared i pool a).1
  after_call-AllCleared pool (release none) a = a
  after_call-AllCleared pool (release (some r)) a = (reset-IsCleared r, a)

  after_calls-AllCleared :
      (pool : List (SettlementRequest V)) (cs : List Call)
      → AllCleared pool
      → AllCleared (after_calls pool cs)
  unfolding after_calls
  after_calls-AllCleared pool [] a = a
  after_calls-AllCleared pool (c ∷ cs) a =
      after_calls-AllCleared (after_call pool c) cs (after_call-AllCleared pool c a)

  -- However the pool of requests was used, and whatever was done to the objects before they were given
  -- back, the next object that is taken has zero values in all fields, slices of length 0, and
  -- metadata without entries, nil or an empty map.
  pub acquire_settlement_request-IsCleared :
      (cs : List Call) (i : ℕ) → IsCleared (acquire_settlement_request V i (after_calls [] cs)).0
  unfolding acquire_settlement_request
  acquire_settlement_request-IsCleared cs i =
      (get-AllCleared i (after_calls [] cs) (after_calls-AllCleared [] cs tt)).0

  -- An object that was given back is taken with nil metadata, where a new one has an empty map, which
  -- can be written to; behind its empty path the backing array still holds the earlier one.
  pub reset-keeps :
      (r : SettlementRequest V) (pool : List (SettlementRequest V))
      → let taken =
          (acquire_settlement_request V 0 (release_settlement_request V pool (some r))).0 in
        (taken.metadata ≡ none) × (taken.path.spare ≡ r.path.shown ++ r.path.spare)
  unfolding acquire_settlement_request release_settlement_request reset
  reset-keeps r pool = (refl, refl)
