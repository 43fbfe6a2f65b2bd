-- ===== src/Handlers/Nodes.antt =====
-- The administrator's endpoints of api/handlers/protected.go over the mesh graph. `broadcasts` holds
-- what was sent to the websocket hub, oldest first, and `stored` the nodes that Neo4j was told to
-- create; each is used if it is there. Time stamps and log lines are left out.
pub mod Access
mod Tests
use vibranium_quadsquad.Base.{
  ℕ, String, Bool, true, false, not, ◌&&◌, ◌||◌, Option, none, some, List, [], ◌∷◌, ◌++◌,
  if◌then◌else◌, length, has, str_eq,
}
use vibranium_quadsquad.Base.Int.{ℤ}
use vibranium_quadsquad.Base.Float.{Float}
use vibranium_quadsquad.Auth.{User, is_admin}
use vibranium_quadsquad.Http.{Context, Request, Response, refuse, answer, user_in}
use vibranium_quadsquad.Handlers.Paths.{trim_prefix, trim_suffix}
use vibranium_quadsquad.Router.Mesh.{
  Graph, Node, Edge, add_node, add_edge, remove_node, set_node_active, set_node_inactive,
  get_all_nodes,
}

pub data Broadcast : Type 0 where
  node_created : String → String → String → Broadcast
  node_deleted : String → Broadcast
  node_updated : String → Option Bool → String → Broadcast

-- What Neo4j is given: id, type, region and who created the node.
pub record StoredNode : Type 0 where
  pub id : String
  pub kind : String
  pub region : String
  pub created_by : String

pub record CreateNodeRequest : Type 0 where
  pub id : String
  pub kind : String
  pub region : String

pub record UpdateNodeRequest : Type 0 where
  pub region : String
  pub is_active : Option Bool

pub record CreateEdgeRequest (F : Type 0) : Type 0 where
  pub source_id : String
  pub target_id : String
  pub base_fee : F
  pub latency : ℤ
  pub liquidity_volume : ℤ

-- NodeResponse; the flag is always set.
pub record NodeResponse : Type 0 where
  pub node_id : String
  pub message : String
  pub updated_by : String

-- `user == nil || !user.IsAdmin()` refuses; otherwise the user.
unfoldable pub admin_in : Context → Option User
unfolding user_in is_admin
admin_in c = elim (user_in c) [ none ↦ none | some u ↦ if is_admin u then some u else none ]

abbrev pub valid_types : List String
valid_types = "SME" ∷ "LiquidityProvider" ∷ "Hub" ∷ []

module _ (f : Float) where
  pub record AdminHandler : Type 0 where
    pub graph : Graph f
    pub has_neo4j : Bool
    pub stored : List StoredNode
    pub has_hub : Bool
    pub broadcasts : List Broadcast

  abbrev pub broadcast : AdminHandler → Broadcast → AdminHandler
  broadcast h b = if h.has_hub then record h { broadcasts = h.broadcasts ++ b ∷ [] } else h

  abbrev pub store_node : AdminHandler → StoredNode → AdminHandler
  store_node h n = if h.has_neo4j then record h { stored = h.stored ++ n ∷ [] } else h

  abbrev pub created_node : CreateNodeRequest → Node
  created_node q = record { id = q.id; kind = q.kind; region = q.region; is_active = true }

  abbrev pub create_node : AdminHandler → User → CreateNodeRequest → AdminHandler
  create_node h u q =
      broadcast
        (store_node (record h { graph = add_node f h.graph (created_node q) })
          (record { id = q.id; kind = q.kind; region = q.region; created_by = u.username }))
        (node_created q.id q.kind q.region)

  unfoldable pub handle_create_node :
      AdminHandler → Request CreateNodeRequest → Response NodeResponse × AdminHandler
  unfolding admin_in
  handle_create_node h r =
      if not (str_eq r.method "POST")
      then (refuse 405 "method not allowed", h)
      else elim (admin_in r.context) [
        | none ↦ (refuse 403 "admin access required", h)
        | some u ↦ elim r.body [
          | none ↦ (refuse 400 "invalid request body", h)
          | some q ↦
              if str_eq q.id "" || str_eq q.kind ""
              then (refuse 400 "node id and type are required", h)
              else if not (has q.kind valid_types)
              then (refuse 400 "invalid node type", h)
              else (
                answer 201
                    (record { node_id = q.id; message = "Node created"; updated_by = u.username }),
                create_node h u q,
              )
        ]
      ]

  unfoldable pub handle_delete_node :
      AdminHandler → Request (Unit {0}) → Response NodeResponse × AdminHandler
  unfolding admin_in trim_prefix trim_suffix
  handle_delete_node h r =
      let id = trim_suffix (trim_prefix r.path "/api/v1/admin/nodes/") "/delete" in
      if not (str_eq r.method "DELETE") && not (str_eq r.method "POST")
      then (refuse 405 "method not allowed", h)
      else elim (admin_in r.context) [
        | none ↦ (refuse 403 "admin access required", h)
        | some u ↦ if str_eq id "" then (refuse 400 "node id required", h) else (
          answer 200 (record { node_id = id; message = "Node deleted"; updated_by = "" }),
          broadcast (record h { graph = remove_node f h.graph id }) (node_deleted id),
        )
      ]

  abbrev pub set_activity : Graph f → String → Option Bool → Graph f
  set_activity g id none = g
  set_activity g id (some true) = set_node_active f g id
  set_activity g id (some false) = set_node_inactive f g id

  -- The method is not checked.
  unfoldable pub handle_update_node :
      AdminHandler → Request UpdateNodeRequest → Response NodeResponse × AdminHandler
  unfolding admin_in trim_prefix
  handle_update_node h r =
      let id = trim_prefix r.path "/api/v1/admin/nodes/" in
      elim (admin_in r.context) [
        | none ↦ (refuse 403 "admin access required", h)
        | some u ↦ if str_eq id "" then (refuse 400 "node id required", h) else elim r.body [
          | none ↦ (refuse 400 "invalid request body", h)
          | some q ↦ (
            answer 200 (record { node_id = id; message = "Node updated"; updated_by = "" }),
            broadcast (record h { graph = set_activity h.graph id q.is_active })
                (node_updated id q.is_active q.region),
          )
        ]
      ]

  unfoldable pub handle_get_nodes : AdminHandler → Context → Response (List Node × ℕ)
  unfolding user_in
  handle_get_nodes h c =
      let nodes = get_all_nodes f h.graph in
      elim (user_in c) [
        | none ↦ refuse 401 "authentication required"
        | some u ↦ answer 200 (nodes, length nodes)
      ]

  abbrev pub created_edge : CreateEdgeRequest f.F → Edge f.F
  created_edge q = record {
    source_id = q.source_id;
    target_id = q.target_id;
    base_fee = q.base_fee;
    latency = q.latency;
    liquidity_volume = q.liquidity_volume;
    is_active = true;
  }

  -- The answer names the ends of the edge.
  unfoldable pub handle_create_edge :
      AdminHandler → Request (CreateEdgeRequest f.F) → Response (String × String) × AdminHandler
  unfolding admin_in
  handle_create_edge h r =
      if not (str_eq r.method "POST")
      then (refuse 405 "method not allowed", h)
      else elim (admin_in r.context) [
        | none ↦ (refuse 403 "admin access required", h)
        | some u ↦ elim r.body [
          | none ↦ (refuse 400 "invalid request body", h)
          | some q ↦
              if str_eq q.source_id "" || str_eq q.target_id ""
              then (refuse 400 "source_id and target_id are required", h)
              else (
                answer 201 (q.source_id, q.target_id),
                record h { graph = add_edge f h.graph (created_edge q) },
              )
        ]
      ]
