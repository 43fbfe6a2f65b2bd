-- ===== src/Handlers/Chaos.antt =====
-- api/handlers/chaos.go: killing and reviving a node by hand, over the circuit breaker in Redis, the
-- mesh graph and the websocket hub, each of which may be missing. `events` holds what was sent to the
-- hub, oldest first. The response's text and time stamp, which are made from the node's id and the
-- clock, are left out.
pub mod Isolates
mod Tests
use vibranium_quadsquad.Base.{
  ℕ, String, Bool, true, false, not, ◌&&◌, Option, none, some, List, [], ◌∷◌, ◌++◌, if◌then◌else◌,
  length, has, str_eq,
}
use vibranium_quadsquad.Base.Float.{Float}
use vibranium_quadsquad.Http.{Request, Response, refuse, answer}
use vibranium_quadsquad.Redis.{Redis, Codec}
use vibranium_quadsquad.Circuit.{CircuitState, default_config, force_open, reset}
use vibranium_quadsquad.Router.Mesh.{Graph, set_node_active, set_node_inactive}
use vibranium_quadsquad.Websocket.{CircuitBreakerEvent}
use vibranium_quadsquad.Handlers.Paths.{trim_prefix, trim_suffix}

abbrev pub remove : String → List String → List String
remove k [] = []
remove k (j ∷ js) = let rest = remove k js in if str_eq j k then rest else j ∷ rest

-- The node that a path names, after `prefix`.
unfoldable pub node_in : String → String → String
unfolding trim_prefix trim_suffix
node_in prefix path = trim_suffix (trim_prefix path prefix) "/"

module _ (f : Float) (r : Redis) (c : Codec r CircuitState) where
  pub record ChaosHandler : Type 0 where
    pub redis : Option r.Db
    pub graph : Option (Graph f)
    pub has_hub : Bool
    pub killed_nodes : List String
    pub events : List CircuitBreakerEvent

  abbrev pub new_chaos_handler : Option r.Db → Option (Graph f) → Bool → ChaosHandler
  new_chaos_handler redis graph has_hub = record {
    redis = redis;
    graph = graph;
    has_hub = has_hub;
    killed_nodes = [];
    events = [];
  }

  -- A failure to write to Redis is only logged.
  unfoldable pub open_circuit : Option r.Db → String → ℕ → Option r.Db
  unfolding force_open default_config
  open_circuit none id now = none
  open_circuit (some d) id now = some (force_open r c (default_config id) now d).1

  unfoldable pub close_circuit : Option r.Db → String → Option r.Db
  unfolding reset default_config
  close_circuit none id = none
  close_circuit (some d) id = some (reset r c (default_config id) d).1

  abbrev pub change_graph :
      (Graph f → String → Graph f) → Option (Graph f) → String → Option (Graph f)
  change_graph change none id = none
  change_graph change (some g) id = some (change g id)

  abbrev pub tell : Bool → CircuitBreakerEvent → List CircuitBreakerEvent → List CircuitBreakerEvent
  tell has_hub e events = if has_hub then events ++ e ∷ [] else events

  abbrev pub kill : ChaosHandler → String → ℕ → ChaosHandler
  kill h id now = record h {
    redis = open_circuit h.redis id now;
    killed_nodes = if has id h.killed_nodes then h.killed_nodes else id ∷ h.killed_nodes;
    graph = change_graph (set_node_inactive f) h.graph id;
    events =
        tell h.has_hub (record { node_id = id; state = "open"; prev_state = "closed" }) h.events;
  }

  abbrev pub revive : ChaosHandler → String → ChaosHandler
  revive h id = record h {
    redis = close_circuit h.redis id;
    killed_nodes = remove id h.killed_nodes;
    graph = change_graph (set_node_active f) h.graph id;
    events =
        tell h.has_hub (record { node_id = id; state = "closed"; prev_state = "open" }) h.events;
  }

  -- The answer is the id of the node.
  unfoldable pub handle_kill_node :
      ChaosHandler → Request (Unit {0}) → ℕ → Response String × ChaosHandler
  unfolding node_in open_circuit
  handle_kill_node h q now =
      let id = node_in "/debug/kill/" q.path in
      if not (str_eq q.method "POST") && not (str_eq q.method "GET")
      then (refuse 405 "Method not allowed", h)
      else if str_eq id ""
      then (refuse 400 "Node ID required", h)
      else (answer 200 id, kill h id now)

  unfoldable pub handle_revive_node :
      ChaosHandler → Request (Unit {0}) → Response String × ChaosHandler
  unfolding node_in close_circuit
  handle_revive_node h q =
      let id = node_in "/debug/revive/" q.path in
      if str_eq id "" then (refuse 400 "Node ID required", h) else (answer 200 id, revive h id)

  unfoldable pub handle_get_killed_nodes : ChaosHandler → List String × ℕ
  handle_get_killed_nodes h = (h.killed_nodes, length h.killed_nodes)

  unfoldable pub is_node_killed : ChaosHandler → String → Bool
  is_node_killed h id = has id h.killed_nodes
