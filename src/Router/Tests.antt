-- ===== src/Router/Tests.antt =====
-- Searches in small graphs, over natural numbers in place of floats.
use vibranium_quadsquad.Base.{
  lookup, ℕ, String, str_eq, if◌then◌else◌, ◌||◌, true, false, some, none, ◌⊎◌, ◌≡◌, [], ◌∷◌, refl,
  arith,
}
use vibranium_quadsquad.Base.Int.{pos}
use vibranium_quadsquad.Base.Float.{nat_float, nat_float-AddLaws}
use vibranium_quadsquad.Router.Mesh.{Graph, Edge, Node, dijkstra}
use vibranium_quadsquad.Router.Mesh.{no_path as no_route}
use vibranium_quadsquad.Router.Country.{no_path as no_trade}
use vibranium_quadsquad.Router.Mesh.{find_k_shortest_paths, remove_node, get_node}
use vibranium_quadsquad.Router.Mesh.Changes.{edge_between, remove_node-takes}
use vibranium_quadsquad.Router.Country.{find_country_paths}
use vibranium_quadsquad.Router.Mesh.Alternatives.{Offers as OffersRoutes}
use vibranium_quadsquad.Router.Country.Alternatives.{Offers as OffersPaths}
use vibranium_quadsquad.Router.Mesh.Alternatives.{find_k_shortest_paths-Offers}
use vibranium_quadsquad.Router.Country.Alternatives.{find_country_paths-Offers}
use vibranium_quadsquad.Router.Mesh.Shortest.{FindsBest, dijkstra-IsBest}
use vibranium_quadsquad.Router.Country.{CountryGraph, CountryNode, CountryEdge, country_dijkstra}
use vibranium_quadsquad.Router.Country.Cheapest.{FindsCheapest, country_dijkstra-IsCheapest}

abbrev node : String → String × Node
node id = (id, record { id = id; kind = "SME"; region = "EU"; is_active = true })

abbrev edge : String → String → ℕ → String × Edge ℕ
edge s t fee = (
  t,
  record {
    source_id = s;
    target_id = t;
    base_fee = fee;
    latency = pos 0;
    liquidity_volume = pos 0;
    is_active = true;
  },
)

-- A -> C costs 9, A -> B -> C costs 2 + 3.
abbrev mesh : Graph nat_float
mesh = record {
  nodes = node "A" ∷ node "B" ∷ node "C" ∷ [];
  edges = ("A", edge "A" "C" 9 ∷ edge "A" "B" 2 ∷ []) ∷ ("B", edge "B" "C" 3 ∷ []) ∷ [];
  entropy = [];
}

dijkstra-IsBest_example :
    FindsBest nat_float nat_float-AddLaws mesh [] [] "A" "C"
      (λ u v e l. omega arith)
      refl
      refl
      (dijkstra nat_float mesh "A" "C" [] [])
dijkstra-IsBest_example =
    dijkstra-IsBest nat_float nat_float-AddLaws mesh [] [] "A" "C" (λ u v e l. omega arith) refl
      refl refl refl refl

abbrev country : String → String × CountryNode ℕ
country c = (
  c,
  record {
    code = c;
    name = c;
    currency = c;
    credibility = 1;
    success_rate = 1;
    fx_rate = 1;
    is_active = true;
  },
)

abbrev trade : String → String → ℕ → String × CountryEdge ℕ
trade s t cost =
    (t, record { source_code = s; target_code = t; base_cost = cost; is_active = true })

abbrev world : CountryGraph ℕ
world = record {
  nodes = country "USA" ∷ country "GBR" ∷ country "IND" ∷ [];
  edges = ("USA", trade "USA" "GBR" 4 ∷ []) ∷ ("GBR", trade "GBR" "IND" 5 ∷ []) ∷ [];
  blocked = [];
}

country_dijkstra-IsCheapest_example :
    FindsCheapest nat_float nat_float-AddLaws
      (λ a b. a)
      world
      []
      []
      "USA"
      "IND"
      (λ u v e l. omega arith)
      refl
      refl
      (country_dijkstra nat_float (λ a b. a) world "USA" "IND" [] [])
country_dijkstra-IsCheapest_example =
    country_dijkstra-IsCheapest nat_float nat_float-AddLaws (λ a b. a) world [] [] "USA" "IND"
      (λ u v e l. omega arith) refl refl refl refl refl

find_k_shortest_paths-Offers_example :
    ((find_k_shortest_paths nat_float mesh 2 (λ n. false) "A" "C" ≡ some ([], some no_route))
      × (dijkstra nat_float mesh "A" "C" [] [] ≡ some none))
    ⊎ OffersRoutes nat_float nat_float-AddLaws mesh "A" "C"
        (λ u v e m. omega arith)
        refl
        refl
        refl
        2
        (find_k_shortest_paths nat_float mesh 2 (λ n. false) "A" "C")
find_k_shortest_paths-Offers_example =
    find_k_shortest_paths-Offers nat_float nat_float-AddLaws mesh "A" "C" (λ u v e m. omega arith)
      refl refl refl 2 λ n. false

find_country_paths-Offers_example :
    ((find_country_paths nat_float (λ a b. a) world 2 (λ n. false) "USA" "IND" ("CHN" ∷ [])
        ≡ some ([], some no_trade))
      × (country_dijkstra nat_float (λ a b. a) world "USA" "IND" [] ("CHN" ∷ []) ≡ some none))
    ⊎ OffersPaths nat_float nat_float-AddLaws
        (λ a b. a)
        world
        "USA"
        "IND"
        ("CHN" ∷ [])
        (λ u v e m. omega arith)
        refl
        refl
        refl
        refl
        refl
        2
        (find_country_paths nat_float (λ a b. a) world 2 (λ n. false) "USA" "IND" ("CHN" ∷ []))
find_country_paths-Offers_example =
    find_country_paths-Offers nat_float nat_float-AddLaws (λ a b. a) world "USA" "IND" ("CHN" ∷ [])
      (λ u v e m. omega arith) refl refl refl refl refl 2 λ n. false

remove_node-takes_example :
    ((j : String)
      → get_node nat_float (remove_node nat_float mesh "B") j
        ≡ (if str_eq "B" j then none else get_node nat_float mesh j))
    × ((u v : String)
        → edge_between nat_float (remove_node nat_float mesh "B") u v
          ≡ (if str_eq "B" u || str_eq "B" v then none else edge_between nat_float mesh u v))
    × ((j : String)
        → lookup j (remove_node nat_float mesh "B").entropy
          ≡ (if str_eq "B" j then none else lookup j mesh.entropy))
remove_node-takes_example = remove_node-takes nat_float mesh "B"

abbrev shortcut : Edge ℕ
shortcut = (edge "B" "A" 1).1
