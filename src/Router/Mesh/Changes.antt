-- ===== src/Router/Mesh/Changes.antt =====
-- What the operations on the mesh graph change.
use vibranium_quadsquad.Base.{
  String, ◌&&◌, ◌||◌, Option, some, none, List, [], ◌∷◌, ◌≡◌, ap, inl, inr, arith, lookup, insert,
  delete, lookup-insert, lookup-delete, str_eq, eq_iff, if◌then◌else◌, Bool-cases,
}
use vibranium_quadsquad.Base.Float.{Float}
use vibranium_quadsquad.Router.Mesh.{
  Graph, Edge, targets_of, delete_targets, add_edge, remove_node, get_node,
}

-- The edge from one node to another, if there is one.
abbrev pub edge_between : (f : Float) → Graph f → String → String → Option (Edge f.F)
edge_between f g u v = lookup v (targets_of g.edges u)

targets_of-delete_targets :
    {A : Type 0} (k u v : String) (m : List (String × List (String × A)))
    → lookup v (targets_of (delete_targets k m) u)
      ≡ (if str_eq k v then none else lookup v (targets_of m u))
targets_of-delete_targets k u v [] = ground arith
targets_of-delete_targets k u v ((s, es) ∷ m) =
    ground (arith, targets_of-delete_targets k u v m, lookup-delete k v es)

targets_of-delete :
    {A : Type 0} (k u v : String) (m : List (String × List (String × A)))
    → lookup v (targets_of (delete k m) u)
      ≡ (if str_eq k u then none else lookup v (targets_of m u))
targets_of-delete k u v m = ground (arith, lookup-delete k u m)

-- Removing a node takes out the node, every edge from it or to it, and its entropy; every other node,
-- edge and entropy stays.
pub remove_node-takes :
    (f : Float) (g : Graph f) (id : String)
    → ((j : String)
        → get_node f (remove_node f g id) j ≡ (if str_eq id j then none else get_node f g j))
      × ((u v : String)
          → edge_between f (remove_node f g id) u v
            ≡ (if str_eq id u || str_eq id v then none else edge_between f g u v))
      × ((j : String)
          → lookup j (remove_node f g id).entropy
            ≡ (if str_eq id j then none else lookup j g.entropy))
unfolding remove_node get_node
remove_node-takes f g id = (
  λ j. lookup-delete id j g.nodes,
  λ u v. ground (
    arith,
    targets_of-delete_targets id u v (delete id g.edges),
    targets_of-delete id u v g.edges,
  ),
  λ j. lookup-delete id j g.entropy,
)

-- Adding an edge sets the edge between its ends, in its direction, and no other.
pub add_edge-sets :
    (f : Float) (g : Graph f) (e : Edge f.F) (u v : String)
    → edge_between f (add_edge f g e) u v
      ≡ (if str_eq e.source_id u && str_eq e.target_id v then some e else edge_between f g u v)
unfolding add_edge
add_edge-sets f g e u v = elim (Bool-cases (str_eq e.source_id u)) [
  | inl same ↦ ground (
    arith,
    same,
    lookup-insert e.source_id u (insert e.target_id e (targets_of g.edges e.source_id)) g.edges,
    lookup-insert e.target_id v e (targets_of g.edges e.source_id),
    ap (λ z. lookup v (targets_of g.edges z)) ((eq_iff e.source_id u).0 same),
  )
  | inr other ↦ ground (
    arith,
    other,
    lookup-insert e.source_id u (insert e.target_id e (targets_of g.edges e.source_id)) g.edges,
  )
]
