-- ===== src/Handlers/Chaos/Tests.antt =====
-- A kill on a graph of two nodes, with a Redis in memory.
use vibranium_quadsquad.Base.{◌≡◌, refl, String, true, none, some, [], ◌∷◌, arith, eq_iff}
use vibranium_quadsquad.Base.Float.{nat_float}
use vibranium_quadsquad.Http.{Request, answer}
use vibranium_quadsquad.Redis.Model.{memory, plain, memory-StringLaws}
use vibranium_quadsquad.Circuit.{CircuitState}
use vibranium_quadsquad.Router.Mesh.{Graph, Node}
use vibranium_quadsquad.Handlers.Paths.{trim_prefix, trim_suffix}
use vibranium_quadsquad.Handlers.Chaos.{ChaosHandler, new_chaos_handler, handle_kill_node, node_in}
use vibranium_quadsquad.Handlers.Chaos.Isolates.{Isolated, handle_kill_node-Isolated}

abbrev node : String → Node
node id = record { id = id; kind = "Hub"; region = ""; is_active = true }

abbrev graph : Graph nat_float
graph = record { nodes = ("a", node "a") ∷ ("b", node "b") ∷ []; edges = []; entropy = [] }

abbrev handler : ChaosHandler nat_float (memory CircuitState) (plain CircuitState)
handler =
    new_chaos_handler nat_float (memory CircuitState) (plain CircuitState)
      (some (record { values = []; sets = [] })) (some graph) true

abbrev kill_b : Request (Unit {0})
kill_b = record {
  method = "POST";
  context = [];
  user_header = "";
  query_id = "";
  path = "/debug/kill/b";
  body = none;
}

handle_kill_node-Isolated_example :
    let (a, h') =
      handle_kill_node nat_float (memory CircuitState) (plain CircuitState) handler kill_b 5 in
    (a ≡ answer 200 (node_in "/debug/kill/" "/debug/kill/b"))
    × Isolated nat_float
        (memory CircuitState)
        (plain CircuitState)
        (memory-StringLaws CircuitState)
        handler
        h'
        (node_in "/debug/kill/" "/debug/kill/b")
        5
unfolding node_in trim_prefix trim_suffix
handle_kill_node-Isolated_example =
    handle_kill_node-Isolated nat_float (memory CircuitState) (plain CircuitState)
      (memory-StringLaws CircuitState) handler kill_b 5 refl
      λ e. absurd (ground (arith, (eq_iff "b" "").1 e))
