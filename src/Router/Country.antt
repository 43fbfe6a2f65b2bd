-- ===== src/Router/Country.antt =====
-- engine/router/country_router.go: the graph of countries and its router. The search and Yen's
-- algorithm are those of Search.antt and Yen.antt; blocked countries are excluded nodes throughout.
pub mod Cheapest
pub mod Alternatives
pub mod Builder
use vibranium_quadsquad.Base.{
  ℕ, zero, suc, ◌-◌, String, Bool, true, false, not, ◌||◌, ◌&&◌, Option, none, some, List, [], ◌∷◌,
  ◌++◌, if◌then◌else◌, length, has, lookup, insert, ltb,
}
use vibranium_quadsquad.Base.Int.{ℤ, pos, sub_ℕ, leb_ℤ, pos_part}
use vibranium_quadsquad.Base.Float.{Float}
use vibranium_quadsquad.Router.Search.{Found, search}
use vibranium_quadsquad.Router.Yen.{edge_key, rounds}
use vibranium_quadsquad.Router.Mesh.{keys, targets_of, tail_of}

pub record CountryNode (F : Type 0) : Type 0 where
  pub code : String
  pub name : String
  pub currency : String
  pub credibility : F
  pub success_rate : F
  pub fx_rate : F
  pub is_active : Bool

pub record CountryEdge (F : Type 0) : Type 0 where
  pub source_code : String
  pub target_code : String
  pub base_cost : F
  pub is_active : Bool

pub record CountryPath (F : Type 0) : Type 0 where
  pub nodes : List String
  pub total_weight : F
  pub total_fee_percent : F
  pub hop_count : ℤ
  pub final_amount : F

pub record CountryGraph (F : Type 0) : Type 0 where
  pub nodes : List (String × CountryNode F)
  pub edges : List (String × List (String × CountryEdge F))
  pub blocked : List String

-- What the router assumes of `math.Pow` beside the float operations: nothing, it is an argument.
module _ (f : Float) (pow : f.F → f.F → f.F) where
  unfoldable pub new_country_graph : CountryGraph f.F
  new_country_graph = record { nodes = []; edges = []; blocked = [] }

  unfoldable pub add_country : CountryGraph f.F → CountryNode f.F → CountryGraph f.F
  add_country g node = record g { nodes = insert node.code node g.nodes }

  abbrev pub put_edge :
      String
      → String
      → CountryEdge f.F
      → List (String × List (String × CountryEdge f.F))
      → List (String × List (String × CountryEdge f.F))
  put_edge s t e m = insert s (insert t e (targets_of m s)) m

  -- Trading goes both ways: the reverse edge is added too.
  unfoldable pub add_trade : CountryGraph f.F → CountryEdge f.F → CountryGraph f.F
  add_trade g e = record g {
    edges =
        put_edge e.target_code e.source_code
          (record e { source_code = e.target_code; target_code = e.source_code })
          (put_edge e.source_code e.target_code e g.edges);
  }

  unfoldable pub set_blocked : CountryGraph f.F → List String → CountryGraph f.F
  set_blocked g codes = record g { blocked = codes }

  unfoldable pub is_blocked : CountryGraph f.F → String → Bool
  is_blocked g code = has code g.blocked

  -- 0.8 * cost + 0.1 * (1 - credibility) + 0.1 * (1 - success rate), of the target; the cost alone
  -- when the target is not in the graph.
  unfoldable pub trade_weight : CountryGraph f.F → CountryEdge f.F → f.F
  trade_weight g e = elim (lookup e.target_code g.nodes) [
    | none ↦ e.base_cost
    | some n ↦
        f.add
          (f.add (f.mul (f.lit 8 1) e.base_cost)
            (f.mul (f.lit 1 1) (f.sub (f.lit 1 0) n.credibility)))
          (f.mul (f.lit 1 1) (f.sub (f.lit 1 0) n.success_rate))
  ]

  unfoldable pub tradable : List String → List String → String → String → CountryEdge f.F → Bool
  tradable excluded_edges excluded_nodes u v e =
      e.is_active && not (has v excluded_nodes) && not (has (edge_key u v) excluded_edges)

  abbrev pub hop_fee_percent : f.F
  hop_fee_percent = f.lit 2 4

  -- The fees of a path: each hop deducts 0.02% of the amount.
  unfoldable pub calculate_path_fees : CountryPath f.F → CountryPath f.F
  calculate_path_fees p =
      let hops = sub_ℕ (length p.nodes) 1 in
      let final = pow (f.sub (f.lit 1 0) hop_fee_percent) (f.of_ℤ hops) in
      if leb_ℤ hops (pos 0)
      then record p { hop_count = hops; final_amount = f.lit 1 0; total_fee_percent = f.zero }
      else (record p {
        hop_count = hops;
        final_amount = final;
        total_fee_percent = f.mul (f.sub (f.lit 1 0) final) (f.lit 100 0);
      })

  abbrev pub path_of :
      Option (Option (Found f.F (CountryEdge f.F))) → Option (Option (CountryPath f.F))
  path_of none = none
  path_of (some none) = some none
  path_of (some (some p)) = some (
      some (record {
        nodes = p.nodes;
        total_weight = p.total;
        total_fee_percent = f.zero;
        hop_count = pos 0;
        final_amount = f.zero;
      }))

  unfoldable pub country_dijkstra :
      CountryGraph f.F
      → String
      → String
      → List String
      → List String
      → Option (Option (CountryPath f.F))
  unfolding tradable trade_weight
  country_dijkstra g source target excluded_edges excluded_nodes =
      let found = path_of (
        search f (keys g.nodes) (targets_of g.edges) (tradable excluded_edges excluded_nodes)
          (trade_weight g) source target) in
      if has source excluded_nodes || has target excluded_nodes then some none else found

  -- The weights of the root's edges, in order.
  abbrev pub sum_trades : CountryGraph f.F → f.F → List String → f.F
  sum_trades g t [] = t
  sum_trades g t (a ∷ []) = t
  sum_trades g t (a ∷ b ∷ ns) =
      sum_trades g
        (elim (lookup b (targets_of g.edges a)) [ none ↦ t | some e ↦ f.add t (trade_weight g e) ])
        (b ∷ ns)

  -- A spur path joined to its root, with its fees.
  unfoldable pub combine_country_paths :
      CountryGraph f.F → List String → CountryPath f.F → CountryPath f.F
  combine_country_paths g root spur = record {
    nodes = root ++ tail_of spur.nodes;
    total_weight = f.add (sum_trades g f.zero root) spur.total_weight;
    total_fee_percent = f.zero;
    hop_count = pos 0;
    final_amount = f.zero;
  }

  pub data CountryError : Type 0 where
    source_blocked target_blocked source_not_found target_not_found no_path cancelled : CountryError

  abbrev pub answer :
      Option (List (CountryPath f.F) × Bool) → Option (List (CountryPath f.F) × Option CountryError)
  answer none = none
  answer (some (paths, true)) = some (paths, some cancelled)
  answer (some (paths, false)) = some (paths, none)

  unfoldable pub new_country_router : ℤ → ℕ
  new_country_router k = if leb_ℤ k (pos 0) then 3 else pos_part k

  abbrev pub from_first :
      CountryGraph f.F
      → List String
      → (ℕ → Bool)
      → ℕ
      → String
      → Option (Option (CountryPath f.F))
      → Option (List (CountryPath f.F) × Option CountryError)
  from_first g blocked done k target none = none
  from_first g blocked done k target (some none) = some ([], some no_path)
  from_first g blocked done k target (some (some p)) = answer (
      rounds f (λ r. r.nodes) (λ r. r.total_weight)
        (λ root spur. calculate_path_fees (combine_country_paths g root spur))
        (λ edges_out nodes_out spur.
          country_dijkstra g spur target edges_out (blocked ++ nodes_out))
        done (k - 1) (calculate_path_fees p ∷ []) [] (calculate_path_fees p))

  unfoldable pub find_country_paths :
      CountryGraph f.F
      → ℕ
      → (ℕ → Bool)
      → String
      → String
      → List String
      → Option (List (CountryPath f.F) × Option CountryError)
  find_country_paths g k done source target blocked_codes =
      let blocked = blocked_codes ++ g.blocked in
      let paths =
        from_first g blocked done k target (country_dijkstra g source target [] blocked) in
      if has source blocked
      then some ([], some source_blocked)
      else if has target blocked
      then some ([], some target_blocked)
      else if not (has source (keys g.nodes))
      then some ([], some source_not_found)
      else if not (has target (keys g.nodes))
      then some ([], some target_not_found)
      else paths
