-- ===== src/GraphSync.antt =====
-- messaging/consumers/graph_sync.go: liquidity updates, taken from NATS and applied to Neo4j. The
-- Neo4j client is a parameter: what its two calls make of the database, `none` for an error, which
-- leaves it as it was. A message is the event that it decodes to, or `none`.
pub mod Replies
mod Tests
use vibranium_quadsquad.Base.{
  ℕ, ◌*◌, String, Bool, ◌||◌, Option, none, some, List, [], ◌∷◌, if◌then◌else◌, str_eq,
}
use vibranium_quadsquad.Base.Int.{ℤ}
use vibranium_quadsquad.Base.Float.{Float, lt}

pub record GraphSyncConfig : Type 0 where
  pub workers : ℕ
  pub batch_size : ℕ
  pub poll_interval : ℕ

unfoldable pub default_graph_sync_config : GraphSyncConfig
default_graph_sync_config = record { workers = 5; batch_size = 100; poll_interval = 100_000_000 }

-- NewGraphSyncConsumer: MaxAckPending of the consumer.
unfoldable pub max_ack_pending : GraphSyncConfig → ℕ
max_ack_pending c = c.batch_size * c.workers

-- The property of an edge that an update sets.
pub data Property (F : Type 0) : Type 0 where
  liquidity_volume : ℤ → Property F
  base_fee : F → Property F
  latency : ℤ → Property F

pub record Neo4j (F : Type 0) : Type 1 where
  pub Db : Type 0
  -- source, target, property, time of the update in milliseconds
  pub update_edge : String → String → Property F → ℕ → Db → Option Db
  pub set_node_active : String → Bool → Db → Option Db

pub record LiquidityUpdateEvent (F : Type 0) : Type 0 where
  pub event_id : String
  pub node_id : String
  pub edge_id : String
  pub source_id : String
  pub target_id : String
  pub event_type : String
  pub old_value : F
  pub new_value : F
  pub timestamp : ℕ

-- What the worker tells NATS about a message.
pub data Reply : Type 0 where
  ack nak : Reply

module _ (f : Float) (n : Neo4j f.F) where
  -- The three updates of an edge, which differ in the property.
  abbrev pub update_property : Property f.F → LiquidityUpdateEvent f.F → n.Db → Option n.Db
  update_property p e d =
      if str_eq e.source_id "" || str_eq e.target_id ""
      then none
      else n.update_edge e.source_id e.target_id p e.timestamp d

  unfoldable pub update_liquidity_volume : LiquidityUpdateEvent f.F → n.Db → Option n.Db
  update_liquidity_volume e = update_property (liquidity_volume (f.trunc e.new_value)) e

  unfoldable pub update_base_fee : LiquidityUpdateEvent f.F → n.Db → Option n.Db
  update_base_fee e = update_property (base_fee e.new_value) e

  unfoldable pub update_latency : LiquidityUpdateEvent f.F → n.Db → Option n.Db
  update_latency e = update_property (latency (f.trunc e.new_value)) e

  unfoldable pub update_node_status : LiquidityUpdateEvent f.F → n.Db → Option n.Db
  update_node_status e d = n.set_node_active e.node_id (lt f f.zero e.new_value) d

  -- `none` is an error. An event of another type is dropped without one.
  unfoldable pub process_message : Option (LiquidityUpdateEvent f.F) → n.Db → Option n.Db
  unfolding update_liquidity_volume update_base_fee update_latency update_node_status
  process_message none d = none
  process_message (some e) d =
      if str_eq e.event_type "volume_change"
      then update_liquidity_volume e d
      else if str_eq e.event_type "fee_change"
      then update_base_fee e d
      else if str_eq e.event_type "status_change"
      then update_node_status e d
      else if str_eq e.event_type "latency_change"
      then update_latency e d
      else some d

  abbrev pub reply_to : Option n.Db → Reply
  reply_to none = nak
  reply_to (some d) = ack

  abbrev pub db_after : n.Db → Option n.Db → n.Db
  db_after d none = d
  db_after d (some d') = d'

  -- The loop over the messages of a fetch: the replies, and the database.
  unfoldable pub process_batch : List (Option (LiquidityUpdateEvent f.F)) → n.Db → List Reply × n.Db
  unfolding process_message
  process_batch [] d = ([], d)
  process_batch (m ∷ ms) d =
      let o = process_message m d in
      let (replies, d') = process_batch ms (db_after d o) in (reply_to o ∷ replies, d')
