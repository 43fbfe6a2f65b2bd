-- ===== src/Settlement/Tests.antt =====
-- A request that is given back and taken again.
use vibranium_quadsquad.Base.{ℕ, List, none, some, [], ◌∷◌}
use vibranium_quadsquad.Base.Int.{pos}
use vibranium_quadsquad.Settlement.{SettlementRequest, new_request, acquire_settlement_request}
use vibranium_quadsquad.Settlement.Cleared.{
  Call, acquire, release, after_calls, IsCleared, acquire_settlement_request-IsCleared,
}

abbrev used : SettlementRequest ℕ
unfolding new_request
used = record (new_request ℕ) {
  id = "r1";
  amount = pos 7;
  path = record { shown = "a" ∷ "b" ∷ []; spare = [] };
  metadata = some (("k", 1) ∷ []);
}

abbrev calls : List (Call ℕ)
calls = acquire 0 ∷ release (some used) ∷ release none ∷ []

acquire_settlement_request-IsCleared_example :
    IsCleared ℕ (acquire_settlement_request ℕ 0 (after_calls ℕ [] calls)).0
acquire_settlement_request-IsCleared_example = acquire_settlement_request-IsCleared ℕ calls 0
