-- ===== src/Websocket.antt =====
-- websocket/server.go: the hub and its clients. A client is a number, its `send` channel is in
-- `channel`; the loop of Run handles one event at a time, and the write pump of a client takes a
-- message whenever there is one. `none` stands for a panic: a send on a closed channel, or closing it
-- again. Connections (github.com/gorilla/websocket), pings and deadlines are left out.
pub mod Safe
mod Tests
use vibranium_quadsquad.Base.{
  ℕ, ◌+◌, String, Bool, true, false, not, ◌||◌, Option, none, some, List, [], ◌∷◌, ◌++◌,
  if◌then◌else◌, length, ltb, ◌==◌,
}
use vibranium_quadsquad.Base.Int.{ℤ}

pub record PathUpdate : Type 0 where
  pub transaction_id : String
  pub path : List String
  pub current_hop : ℤ
  pub amount : ℤ
  pub status : String
  pub old_path : List String

-- A circuit's node, its state and the state before.
pub record CircuitBreakerEvent : Type 0 where
  pub node_id : String
  pub state : String
  pub prev_state : String

pub record LiquidityUpdate (F : Type 0) : Type 0 where
  pub source_id : String
  pub target_id : String
  pub old_volume : ℤ
  pub new_volume : ℤ
  pub change : F

pub record NodeStatusUpdate : Type 0 where
  pub node_id : String
  pub is_active : Bool
  pub load : ℤ

-- The data of a message; of BroadcastJSON it is any value of a type `J`.
pub data Payload (F J : Type 0) : Type 0 where
  path_update : PathUpdate → Payload F J
  circuit_breaker : CircuitBreakerEvent → Payload F J
  liquidity : LiquidityUpdate F → Payload F J
  node_status : NodeStatusUpdate → Payload F J
  fx_rates : List (String × F) → Payload F J
  json : J → Payload F J

pub record Message (F J : Type 0) : Type 0 where
  pub kind : String
  pub timestamp : ℕ
  pub payload : Payload F J

abbrev pub kind_of : {F J : Type 0} → String → Payload F J → String
kind_of kind (path_update u) = "PATH_UPDATE"
kind_of kind (circuit_breaker e) = "CIRCUIT_BREAKER"
kind_of kind (liquidity u) = "LIQUIDITY_UPDATE"
kind_of kind (node_status u) = "NODE_STATUS"
kind_of kind (fx_rates r) = "fx_update"
kind_of kind (json v) = kind

-- The message that BroadcastPathUpdate, BroadcastCircuitBreaker, BroadcastLiquidity,
-- BroadcastNodeStatus, BroadcastFXRates or BroadcastJSON sends; the last one names its kind.
unfoldable pub message_of : {F J : Type 0} → ℕ → String → Payload F J → Message F J
message_of now kind p = record { kind = kind_of kind p; timestamp = now; payload = p }

module _ (M : Type 0) where
  -- A buffered channel with room for 64 messages.
  pub record Channel : Type 0 where
    pub queue : List M
    pub is_closed : Bool

  pub record Hub : Type 0 where
    pub clients : List ℕ
    pub channel : ℕ → Channel
    pub next_client : ℕ

  abbrev pub new_channel : Channel
  new_channel = record { queue = []; is_closed = false }

  abbrev pub new_hub : Hub
  new_hub = record { clients = []; channel = λ c. new_channel; next_client = 0 }

  abbrev pub is_client : ℕ → List ℕ → Bool
  is_client c [] = false
  is_client c (d ∷ ds) = (d == c) || is_client c ds

  abbrev pub without : ℕ → List ℕ → List ℕ
  without c [] = []
  without c (d ∷ ds) = let rest = without c ds in if d == c then rest else d ∷ rest

  abbrev pub set_channel : Hub → ℕ → Channel → Hub
  set_channel h c x = record h { channel = λ d. if d == c then x else h.channel d }

  -- `delete(h.clients, client)` and `close(client.send)`
  unfoldable pub drop : Hub → ℕ → Option Hub
  drop h c =
      if (h.channel c).is_closed
      then none
      else some (
          set_channel (record h { clients = without c h.clients }) c
            (record (h.channel c) { is_closed = true }))

  unfoldable pub unregister : Hub → ℕ → Option Hub
  unfolding drop
  unregister h c = if is_client c h.clients then drop h c else some h

  -- The message for one client, which is dropped when its channel is full.
  unfoldable pub send_to : M → Hub → ℕ → Option Hub
  unfolding drop
  send_to m h c =
      if (h.channel c).is_closed
      then none
      else if ltb (length (h.channel c).queue) 64
      then some (set_channel h c (record (h.channel c) { queue = (h.channel c).queue ++ m ∷ [] }))
      else drop h c

  -- The range over the clients; one that is no longer there is not reached.
  unfoldable pub send_all : M → List ℕ → Hub → Option Hub
  unfolding send_to
  send_all m [] h = some h
  send_all m (c ∷ cs) h =
      let skip = send_all m cs h in
      let sent : Option Hub = elim (send_to m h c) [ none ↦ none | some h' ↦ send_all m cs h' ] in
      if is_client c h.clients then sent else skip

  -- ServeWS makes a client and registers it.
  unfoldable pub serve_ws : Hub → Hub
  serve_ws h =
      set_channel
        (record h { clients = h.next_client ∷ h.clients; next_client = h.next_client + 1 })
        h.next_client new_channel

  -- The write pump takes a message, if there is one.
  unfoldable pub take_message : Hub → ℕ → Hub
  take_message h c = elim (h.channel c).queue [
    | [] ↦ h
    | m ∷ ms ↦ set_channel h c (record (h.channel c) { queue = ms })
  ]

  pub data Event : Type 0 where
    connects : Event
    disconnects : ℕ → Event
    broadcasts : M → Event
    writes : ℕ → Event

  unfoldable pub run_step : Hub → Event → Option Hub
  unfolding serve_ws unregister send_all take_message
  run_step h connects = some (serve_ws h)
  run_step h (disconnects c) = unregister h c
  run_step h (broadcasts m) = send_all m h.clients h
  run_step h (writes c) = some (take_message h c)

  unfoldable pub run : Hub → List Event → Option Hub
  unfolding run_step
  run h [] = some h
  run h (e ∷ es) = elim (run_step h e) [ none ↦ none | some h' ↦ run h' es ]

  unfoldable pub client_count : Hub → ℕ
  client_count h = length h.clients
