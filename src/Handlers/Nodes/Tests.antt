-- ===== src/Handlers/Nodes/Tests.antt =====
-- The endpoints with a regular user in the context.
use vibranium_quadsquad.Base.{◌≡◌, refl, true, false, Option, none, some, [], ap, subst}
use vibranium_quadsquad.Base.Float.{nat_float}
use vibranium_quadsquad.Auth.{User, is_admin}
use vibranium_quadsquad.Auth.Samples.{ann}
use vibranium_quadsquad.Http.{Context, Request, with_value, middleware_key, auth_user, user_in}
use vibranium_quadsquad.Router.Mesh.{new_graph}
use vibranium_quadsquad.Handlers.Nodes.{
  AdminHandler, CreateNodeRequest, UpdateNodeRequest, CreateEdgeRequest, handle_create_node,
  handle_delete_node, handle_update_node, handle_create_edge,
}
use vibranium_quadsquad.Handlers.Nodes.Access.{IsNoAdmin, admins_only}

abbrev ann_asks : Context
ann_asks = with_value [] (middleware_key "user") (auth_user ann)

abbrev handler : AdminHandler nat_float
handler = record {
  graph = new_graph nat_float;
  has_neo4j = false;
  stored = [];
  has_hub = true;
  broadcasts = [];
}

ann-IsNoAdmin : IsNoAdmin ann_asks
unfolding user_in is_admin
ann-IsNoAdmin u e =
    subst (λ (v : User). is_admin v ≡ false)
      (ap (λ (o : Option User). elim o [ none ↦ ann | some v ↦ v ]) e) refl

admins_only_example :
    ((r : Request CreateNodeRequest)
      → r.context ≡ ann_asks
      → (handle_create_node nat_float handler r).1 ≡ handler)
    × ((r : Request (Unit {0}))
        → r.context ≡ ann_asks
        → (handle_delete_node nat_float handler r).1 ≡ handler)
    × ((r : Request UpdateNodeRequest)
        → r.context ≡ ann_asks
        → (handle_update_node nat_float handler r).1 ≡ handler)
    × ((r : Request (CreateEdgeRequest nat_float.F))
        → r.context ≡ ann_asks
        → (handle_create_edge nat_float handler r).1 ≡ handler)
admins_only_example = admins_only nat_float handler ann_asks ann-IsNoAdmin
