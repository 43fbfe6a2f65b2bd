-- ===== src/GraphSync/Tests.antt =====
-- A batch over a database that lists its updates and knows no edge to "X".
use vibranium_quadsquad.Base.{
  ℕ, String, List, [], ◌∷◌, ◌≡◌, refl, Option, none, some, str_eq, if◌then◌else◌,
}
use vibranium_quadsquad.Base.Float.{nat_float}
use vibranium_quadsquad.GraphSync.{Neo4j, LiquidityUpdateEvent, ack, nak, process_batch}
use vibranium_quadsquad.GraphSync.Replies.{AllHandled, process_batch-AllHandled}

abbrev listing : Neo4j ℕ
listing = record {
  Db = List String;
  update_edge = λ s t p now d. if str_eq t "X" then none else some (t ∷ d);
  set_node_active = λ id b d. some (id ∷ d);
}

abbrev update : String → String → Option (LiquidityUpdateEvent ℕ)
update kind t = some (record {
  event_id = "e";
  node_id = "n";
  edge_id = "";
  source_id = "A";
  target_id = t;
  event_type = kind;
  old_value = 0;
  new_value = 7;
  timestamp = 5;
})

abbrev batch : List (Option (LiquidityUpdateEvent ℕ))
batch = update "fee_change" "B" ∷ none ∷ update "fee_change" "X" ∷ update "status_change" "" ∷ []

batch-replies :
    process_batch nat_float listing batch [] ≡ (ack ∷ nak ∷ nak ∷ ack ∷ [], "n" ∷ "B" ∷ [])
unfolding process_batch
batch-replies = refl

process_batch-AllHandled_example :
    let r = process_batch nat_float listing batch [] in
    AllHandled nat_float listing batch [] r.0 r.1
process_batch-AllHandled_example = process_batch-AllHandled nat_float listing batch []
