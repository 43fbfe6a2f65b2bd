-- ===== src/Handlers/Chaos/Isolates.antt =====
-- What a kill does to the routes and to the circuit of a node.
use vibranium_quadsquad.Base.{
  ℕ, ◌+◌, ◌<◌, ◌≡◌, ◌≢◌, refl, sym, subst, ap, ◌∙◌, String, true, false, some, List, has, lookup,
  lookup-insert, eq_iff, arith, Bool-cases, inl, inr,
}
use vibranium_quadsquad.Base.Float.{Float}
use vibranium_quadsquad.Http.{Request, Response, answer}
use vibranium_quadsquad.Redis.{Redis, Codec, StringLaws}
use vibranium_quadsquad.Circuit.{
  CircuitState, default_config, force_open, allow, ok, err, circuit_open,
}
use vibranium_quadsquad.Circuit.Recovery.{allow-force_open}
use vibranium_quadsquad.Router.Mesh.{Graph, Node, Edge, set_node_inactive, usable}
use vibranium_quadsquad.Handlers.Chaos.{
  ChaosHandler, handle_kill_node, is_node_killed, kill, node_in, open_circuit,
}

module _ (f : Float) where
  -- A router skips every edge to the node, and treats the edges to other nodes as before.
  pub record ShutOff (g g' : Graph f) (id : String) : Type 0 where
    pub no_way_in :
        (edges nodes : List String) (u : String) (e : Edge f.F)
        → usable f g' edges nodes u id e ≡ false
    pub others :
        (edges nodes : List String) (u v : String) (e : Edge f.F)
        → id ≢ v
        → usable f g' edges nodes u v e ≡ usable f g edges nodes u v e

  set_node_inactive-ShutOff :
      (g : Graph f) (id : String) (n : Node)
      → lookup id g.nodes ≡ some n
      → ShutOff g (set_node_inactive f g id) id
  unfolding set_node_inactive usable
  set_node_inactive-ShutOff g id n e =
      let off : Node = record n { is_active = false } in
      record {
        no_way_in =
            λ edges nodes u x. ground (arith, e, lookup-insert id id off g.nodes, eq_iff id id);
        others = λ edges nodes u v x ne.
            ground (arith, e, lookup-insert id v off g.nodes, eq_iff id v, ne);
      }

  module _ (r : Redis) (c : Codec r CircuitState) (laws : StringLaws r) where
    -- A node that was killed at `now`: it is listed, the router shuts it off if the graph has it, and
    -- if Redis takes the write, its circuit refuses every request for 30 seconds.
    pub record Isolated (h h' : ChaosHandler f r c) (id : String) (now : ℕ) : Type 0 where
      pub listed : is_node_killed f r c h' id ≡ true
      pub cut :
          (g : Graph f) (n : Node)
          → h.graph ≡ some g
          → lookup id g.nodes ≡ some n
          → (g' : Graph f) × (h'.graph ≡ some g') × ShutOff g g' id
      pub refuses :
          (d d' : r.Db)
          → h.redis ≡ some d
          → force_open r c (default_config id) now d ≡ (ok tt, d')
          → (h'.redis ≡ some d')
            × ((later : ℕ)
                → later < now + 30_000_000_000
                → allow r c (default_config id) later d' ≡ (err circuit_open, d'))

    listed-kill :
        (h : ChaosHandler f r c) (id : String) (now : ℕ)
        → is_node_killed f r c (kill f r c h id now) id ≡ true
    unfolding is_node_killed
    listed-kill h id now = elim (Bool-cases (has id h.killed_nodes)) [
      | inl a ↦ ground arith
      | inr a ↦ ground (arith, eq_iff id id)
    ]

    kill-Isolated :
        (h : ChaosHandler f r c) (id : String) (now : ℕ) → Isolated h (kill f r c h id now) id now
    unfolding open_circuit default_config
    kill-Isolated h id now = record {
      listed = listed-kill h id now;
      cut = λ g n e found.
          (set_node_inactive f g id, rw e refl, set_node_inactive-ShutOff g id n found);
      refuses = λ d d' e forced. (
        ap (λ o. open_circuit f r c o id now) e ∙ ap (λ x. some x.1) forced,
        λ later soon. allow-force_open r c laws (default_config id) now later d d' forced soon,
      );
    }

    handle_kill_node-kill :
        (h : ChaosHandler f r c) (q : Request (Unit {0})) (now : ℕ)
        → q.method ≡ "POST"
        → node_in "/debug/kill/" q.path ≢ ""
        → handle_kill_node f r c h q now ≡ (
          answer 200 (node_in "/debug/kill/" q.path),
          kill f r c h (node_in "/debug/kill/" q.path) now,
        )
    unfolding handle_kill_node
    handle_kill_node-kill h q now posted named =
        ground
          (arith, posted, eq_iff q.method "POST", eq_iff (node_in "/debug/kill/" q.path) "", named)

    -- A posted kill of a node answers with its id and isolates it: it is listed, the router skips every
    -- edge to it, if the graph has it, and treats other edges as before; if Redis takes the write, its
    -- circuit refuses every request for 30 seconds.
    pub handle_kill_node-Isolated :
        (h : ChaosHandler f r c) (q : Request (Unit {0})) (now : ℕ)
        → q.method ≡ "POST"
        → node_in "/debug/kill/" q.path ≢ ""
        → let id = node_in "/debug/kill/" q.path in
          let (a, h') = handle_kill_node f r c h q now in (a ≡ answer 200 id) × Isolated h h' id now
    handle_kill_node-Isolated h q now posted named =
        let id : String = node_in "/debug/kill/" q.path in
        subst
          (λ (x : Response String × ChaosHandler f r c).
            (x.0 ≡ answer 200 id) × Isolated h x.1 id now)
          (sym (handle_kill_node-kill h q now posted named)) (refl, kill-Isolated h id now)
