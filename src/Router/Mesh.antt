-- ===== src/Router/Mesh.antt =====
-- engine/router/yen.go: the mesh graph, its operations, and its router. A method on `*Graph` returns
-- the new graph; the lock makes each one step. A Go map is an association list. int64 latencies are
-- integers that do not wrap. A node's `Props`, which nothing here reads, are left out.
pub mod Shortest
pub mod Alternatives
pub mod Changes
use vibranium_quadsquad.Base.{
  ℕ, suc, ◌-◌, String, Bool, true, false, not, ◌&&◌, ◌||◌, Option, none, some, List, [], ◌∷◌, ◌++◌,
  map, if◌then◌else◌, length, has, lookup, insert, delete, ltb, leb,
}
use vibranium_quadsquad.Base.Int.{ℤ, pos, ◌+ℤ◌, leb_ℤ, pos_part}
use vibranium_quadsquad.Base.Float.{Float, lt}
use vibranium_quadsquad.Entropy.{NodeEntropy, calculate_node_entropy, volatility}
use vibranium_quadsquad.Router.Search.{Found, search}
use vibranium_quadsquad.Router.Yen.{edge_key, rounds}

pub record Node : Type 0 where
  pub id : String
  pub kind : String
  pub region : String
  pub is_active : Bool

pub record Edge (F : Type 0) : Type 0 where
  pub source_id : String
  pub target_id : String
  pub base_fee : F
  pub latency : ℤ
  pub liquidity_volume : ℤ
  pub is_active : Bool

pub record Route (F : Type 0) : Type 0 where
  pub nodes : List String
  pub edges : List (Edge F)
  pub total_weight : F
  pub total_fee : F
  pub total_latency : ℤ

pub record Graph (f : Float) : Type 0 where
  pub nodes : List (String × Node)
  pub edges : List (String × List (String × Edge f.F))
  pub entropy : List (String × NodeEntropy f)

abbrev pub keys : {A : Type 0} → List (String × A) → List String
keys [] = []
keys ((k, _) ∷ m) = k ∷ keys m

-- The inner map of a source, empty (nil) if there is none.
abbrev pub targets_of :
    {A : Type 0} → List (String × List (String × A)) → String → List (String × A)
targets_of m k = elim (lookup k m) [ none ↦ [] | some es ↦ es ]

-- `delete(g.edges[source], nodeID)` for every source.
abbrev pub delete_targets :
    {A : Type 0} → String → List (String × List (String × A)) → List (String × List (String × A))
delete_targets k [] = []
delete_targets k ((s, es) ∷ m) = (s, delete k es) ∷ delete_targets k m

-- The values of a map, in the order of a range over it.
abbrev pub values_of : {A : Type 0} → List (String × A) → List A
values_of [] = []
values_of ((k, v) ∷ m) = v ∷ values_of m

abbrev pub all_targets : {A : Type 0} → List (String × List (String × A)) → List A
all_targets [] = []
all_targets ((s, es) ∷ m) = values_of es ++ all_targets m

abbrev pub tail_of : List String → List String
tail_of [] = []
tail_of (n ∷ ns) = ns

module _ (f : Float) where
  unfoldable pub new_graph : Graph f
  new_graph = record { nodes = []; edges = []; entropy = [] }

  unfoldable pub add_node : Graph f → Node → Graph f
  add_node g node = record g { nodes = insert node.id node g.nodes }

  unfoldable pub add_edge : Graph f → Edge f.F → Graph f
  add_edge g e = record g {
    edges = insert e.source_id (insert e.target_id e (targets_of g.edges e.source_id)) g.edges;
  }

  unfoldable pub update_node_entropy : Graph f → String → List (String × f.F) → Graph f
  update_node_entropy g id distribution = record g {
    entropy = insert id (calculate_node_entropy f id distribution) g.entropy;
  }

  abbrev pub set_active : Bool → Graph f → String → Graph f
  set_active b g id = elim (lookup id g.nodes) [
    | none ↦ g
    | some node ↦ record g { nodes = insert id (record node { is_active = b }) g.nodes }
  ]

  unfoldable pub set_node_active : Graph f → String → Graph f
  set_node_active = set_active true

  unfoldable pub set_node_inactive : Graph f → String → Graph f
  set_node_inactive = set_active false

  unfoldable pub get_node : Graph f → String → Option Node
  get_node g id = lookup id g.nodes

  unfoldable pub is_node_active : Graph f → String → Bool
  is_node_active g id = elim (lookup id g.nodes) [ none ↦ false | some node ↦ node.is_active ]

  unfoldable pub remove_node : Graph f → String → Graph f
  remove_node g id = record {
    nodes = delete id g.nodes;
    edges = delete_targets id (delete id g.edges);
    entropy = delete id g.entropy;
  }

  unfoldable pub remove_edge : Graph f → String → String → Graph f
  remove_edge g s t = elim (lookup s g.edges) [
    | none ↦ g
    | some es ↦ record g { edges = insert s (delete t es) g.edges }
  ]

  unfoldable pub update_edge : Graph f → String → String → f.F → ℤ → Graph f
  update_edge g s t fee latency = elim (lookup s g.edges) [
    | none ↦ g
    | some es ↦ elim (lookup t es) [
      | none ↦ g
      | some e ↦ record g {
        edges = insert s (insert t (record e { base_fee = fee; latency = latency }) es) g.edges;
      }
    ]
  ]

  unfoldable pub get_all_nodes : Graph f → List Node
  get_all_nodes g = values_of g.nodes

  unfoldable pub get_all_edges : Graph f → List (Edge f.F)
  get_all_edges g = all_targets g.edges

  -- W = fee * (1 + H) + latency * 0.00001, `H` the capped entropy of the source.
  unfoldable pub edge_weight : Graph f → Edge f.F → f.F
  edge_weight g e =
      f.add
        (f.mul e.base_fee (
          f.add (f.lit 1 0)
            (elim (lookup e.source_id g.entropy) [ none ↦ f.zero | some n ↦ volatility f n ])))
        (f.mul (f.of_ℤ e.latency) (f.lit 1 5))

  -- The tests by which the loop over the neighbours skips an edge.
  unfoldable pub usable : Graph f → List String → List String → String → String → Edge f.F → Bool
  usable g excluded_edges excluded_nodes u v e =
      e.is_active
      && not (elim (lookup v g.nodes) [ none ↦ false | some n ↦ not n.is_active ])
      && not (has v excluded_nodes)
      && not (has (edge_key u v) excluded_edges)

  -- Totals as the path is built, from its last edge to its first.
  unfoldable pub fee_back : List (Edge f.F) → f.F
  fee_back [] = f.zero
  fee_back (e ∷ es) = f.add (fee_back es) e.base_fee

  unfoldable pub latency_back : List (Edge f.F) → ℤ
  latency_back [] = pos 0
  latency_back (e ∷ es) = latency_back es +ℤ e.latency

  abbrev pub route_of : Option (Option (Found f.F (Edge f.F))) → Option (Option (Route f.F))
  route_of none = none
  route_of (some none) = some none
  route_of (some (some p)) = some (
      some (record {
        nodes = p.nodes;
        edges = p.edges;
        total_weight = p.total;
        total_fee = fee_back p.edges;
        total_latency = latency_back p.edges;
      }))

  unfoldable pub dijkstra :
      Graph f → String → String → List String → List String → Option (Option (Route f.F))
  unfolding usable edge_weight fee_back latency_back
  dijkstra g source target excluded_edges excluded_nodes =
      let found = route_of (
        search f (keys g.nodes) (targets_of g.edges) (usable g excluded_edges excluded_nodes)
          (edge_weight g) source target) in
      if has source excluded_nodes || has target excluded_nodes then some none else found

  -- The edges between neighbours of the root that the graph has.
  abbrev pub root_edges : Graph f → List String → List (Edge f.F)
  root_edges g [] = []
  root_edges g (a ∷ []) = []
  root_edges g (a ∷ b ∷ ns) =
      let rest = root_edges g (b ∷ ns) in
      elim (lookup b (targets_of g.edges a)) [ none ↦ rest | some e ↦ e ∷ rest ]

  -- Totals of the root's edges in order, on top of a start value.
  abbrev pub sum_fees : f.F → List (Edge f.F) → f.F
  sum_fees t [] = t
  sum_fees t (e ∷ es) = sum_fees (f.add t e.base_fee) es

  abbrev pub sum_latencies : ℤ → List (Edge f.F) → ℤ
  sum_latencies t [] = t
  sum_latencies t (e ∷ es) = sum_latencies (t +ℤ e.latency) es

  abbrev pub sum_weights : Graph f → f.F → List (Edge f.F) → f.F
  sum_weights g t [] = t
  sum_weights g t (e ∷ es) = sum_weights g (f.add t (edge_weight g e)) es

  unfoldable pub combine_paths : Graph f → List String → Route f.F → Route f.F
  combine_paths g root spur = record {
    nodes = root ++ tail_of spur.nodes;
    edges = root_edges g root ++ spur.edges;
    total_weight = f.add (sum_weights g f.zero (root_edges g root)) spur.total_weight;
    total_fee = f.add (sum_fees f.zero (root_edges g root)) spur.total_fee;
    total_latency = sum_latencies (pos 0) (root_edges g root) +ℤ spur.total_latency;
  }

  pub data Error : Type 0 where
    source_not_found target_not_found no_path cancelled : Error

  abbrev pub outcome : Option (List (Route f.F) × Bool) → Option (List (Route f.F) × Option Error)
  outcome none = none
  outcome (some (paths, true)) = some (paths, some cancelled)
  outcome (some (paths, false)) = some (paths, none)

  -- NewRouter: K is 3 unless it is positive.
  unfoldable pub new_router : ℤ → ℕ
  new_router k = if leb_ℤ k (pos 0) then 3 else pos_part k

  abbrev pub with_first :
      Graph f
      → (ℕ → Bool)
      → ℕ
      → String
      → Option (Option (Route f.F))
      → Option (List (Route f.F) × Option Error)
  with_first g done k target none = none
  with_first g done k target (some none) = some ([], some no_path)
  with_first g done k target (some (some p)) = outcome (
      rounds f (λ r. r.nodes) (λ r. r.total_weight) (combine_paths g)
        (λ edges_out nodes_out spur. dijkstra g spur target edges_out nodes_out) done (k - 1)
        (p ∷ []) [] p)

  unfoldable pub find_k_shortest_paths :
      Graph f → ℕ → (ℕ → Bool) → String → String → Option (List (Route f.F) × Option Error)
  find_k_shortest_paths g k done source target =
      let paths = with_first g done k target (dijkstra g source target [] []) in
      if not (has source (keys g.nodes))
      then some ([], some source_not_found)
      else if not (has target (keys g.nodes))
      then some ([], some target_not_found)
      else paths
