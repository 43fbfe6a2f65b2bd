-- ===== src/Handlers/Routing.antt =====
-- The endpoints that ask for routes: api/handlers/route_handler.go over the country router, and
-- HandleSettlePreview of api/handlers/protected.go over the mesh router. Compute times are left out;
-- `done` tells at which round the context ends. `none` stands for a search without end.
pub mod Agrees
use vibranium_quadsquad.Base.{
  ℕ, suc, ◌+◌, ◌-◌, String, Bool, true, false, not, ◌||◌, Option, none, some, List, [], ◌∷◌,
  if◌then◌else◌, length, str_eq,
}
use vibranium_quadsquad.Base.Int.{ℤ, pos, sub_ℕ, ltb_ℤ}
use vibranium_quadsquad.Base.Float.{Float, lt}
use vibranium_quadsquad.Http.{Request, Response, refuse, answer, user_in}
use vibranium_quadsquad.Router.Country.{
  CountryGraph, CountryPath, CountryError, source_blocked, target_blocked, find_country_paths,
}
use vibranium_quadsquad.Router.Mesh.{Graph, Route, find_k_shortest_paths}

pub record RouteRequest (F : Type 0) : Type 0 where
  pub kind : String
  pub source : String
  pub target : String
  pub blocked_codes : List String
  pub amount : F

pub record RoutePathInfo (F : Type 0) : Type 0 where
  pub rank : ℕ
  pub nodes : List String
  pub hop_count : ℤ
  pub total_weight : F
  pub total_fee_percent : F
  pub final_amount : F
  pub calculated_fee : F

-- A success with its paths, or an error.
pub data RouteResponse (F E : Type 0) : Type 0 where
  found : List (RoutePathInfo F) → RouteResponse F E
  failed : E → RouteResponse F E

-- An error of a request, or of the router.
pub data RouteError (E : Type 0) : Type 0 where
  invalid_format missing_ends same_ends : RouteError E
  router_error : E → RouteError E

pub record PathPreview (F : Type 0) : Type 0 where
  pub rank : ℕ
  pub path : List String
  pub total_fee : F
  pub total_latency : ℤ
  pub total_weight : F
  pub hop_count : ℤ
  pub estimated_cost : F

pub record SettlePreviewRequest : Type 0 where
  pub source : String
  pub destination : String
  pub amount : ℤ

pub record SettlePreviewResponse (F : Type 0) : Type 0 where
  pub source : String
  pub destination : String
  pub amount : ℤ
  pub paths : List (PathPreview F)
  pub path_count : ℕ

module _ (f : Float) (pow : f.F → f.F → f.F) where
  abbrev pub Answer : Type 0
  Answer = RouteResponse f.F (RouteError (CountryError f pow))

  abbrev pub path_info : f.F → ℕ → CountryPath f.F → RoutePathInfo f.F
  path_info amount i p = record {
    rank = i + 1;
    nodes = p.nodes;
    hop_count = p.hop_count;
    total_weight = p.total_weight;
    total_fee_percent = p.total_fee_percent;
    final_amount = p.final_amount;
    calculated_fee =
        if lt f f.zero amount then f.mul amount (f.sub (f.lit 1 0) p.final_amount) else f.zero;
  }

  -- The loop over the paths, from path `i`.
  unfoldable pub path_infos : f.F → ℕ → List (CountryPath f.F) → List (RoutePathInfo f.F)
  path_infos amount i [] = []
  path_infos amount i (p ∷ ps) = path_info amount i p ∷ path_infos amount (i + 1) ps

  abbrev pub answer_of :
      f.F → Option (List (CountryPath f.F) × Option (CountryError f pow)) → Option Answer
  answer_of amount none = none
  answer_of amount (some (paths, some e)) = some (failed (router_error e))
  answer_of amount (some (paths, none)) = some (found (path_infos amount 0 paths))

  -- The router looks for three paths.
  unfoldable pub ask_router : CountryGraph f.F → (ℕ → Bool) → RouteRequest f.F → Option Answer
  unfolding path_infos find_country_paths
  ask_router g done q =
      answer_of q.amount (find_country_paths f pow g 3 done q.source q.target q.blocked_codes)

  unfoldable pub handle_route_request :
      CountryGraph f.F → (ℕ → Bool) → RouteRequest f.F → Option Answer
  unfolding ask_router
  handle_route_request g done q =
      let asked = ask_router g done q in
      if str_eq q.source "" || str_eq q.target ""
      then some (failed missing_ends)
      else if str_eq q.source q.target
      then some (failed same_ends)
      else asked

  -- One message of the websocket: what is sent back, if anything.
  unfoldable pub handle_route_message :
      CountryGraph f.F → (ℕ → Bool) → Option (RouteRequest f.F) → Option (Option Answer)
  unfolding handle_route_request
  handle_route_message g done none = some (some (failed invalid_format))
  handle_route_message g done (some q) =
      let asked : Option (Option Answer) = elim (handle_route_request g done q) [
        | none ↦ none
        | some a ↦ some (some a)
      ] in
      if str_eq q.kind "route_request" then asked else some none

  -- Over HTTP an error of the router is answered with 200 as well.
  unfoldable pub handle_route_http :
      CountryGraph f.F → (ℕ → Bool) → Request (RouteRequest f.F) → Option (Response Answer)
  unfolding ask_router
  handle_route_http g done r =
      if not (str_eq r.method "POST") then some (refuse 405 "method not allowed") else elim r.body [
        | none ↦ some (refuse 400 "invalid request")
        | some q ↦
            if str_eq q.source "" || str_eq q.target ""
            then some (refuse 400 "source and target are required")
            else elim (ask_router g done q) [ none ↦ none | some a ↦ some (answer 200 a) ]
      ]

module _ (f : Float) where
  abbrev pub preview : ℤ → ℕ → Route f.F → PathPreview f.F
  preview amount i p = record {
    rank = i + 1;
    path = p.nodes;
    total_fee = f.mul p.total_fee (f.lit 100 0);
    total_latency = p.total_latency;
    total_weight = p.total_weight;
    hop_count = sub_ℕ (length p.nodes) 1;
    estimated_cost = if ltb_ℤ (pos 0) amount then f.mul (f.of_ℤ amount) p.total_fee else f.zero;
  }

  unfoldable pub previews : ℤ → ℕ → List (Route f.F) → List (PathPreview f.F)
  previews amount i [] = []
  previews amount i (p ∷ ps) = preview amount i p ∷ previews amount (i + 1) ps

  -- What a request asks for: the query of a GET, which has no amount, or the body of a POST.
  unfoldable pub preview_request :
      Request SettlePreviewRequest → String → String → Response SettlePreviewRequest
  preview_request r source destination =
      if str_eq r.method "GET"
      then answer 200 (record { source = source; destination = destination; amount = pos 0 })
      else if str_eq r.method "POST"
      then elim r.body [ none ↦ refuse 400 "invalid request body" | some q ↦ answer 200 q ]
      else refuse 405 "method not allowed"

  abbrev pub previewed : SettlePreviewRequest → List (Route f.F) → SettlePreviewResponse f.F
  previewed q paths = record {
    source = q.source;
    destination = q.destination;
    amount = q.amount;
    paths = previews q.amount 0 paths;
    path_count = length (previews q.amount 0 paths);
  }

  -- The text of a search error is left out.
  abbrev pub preview_paths :
      Graph f
      → ℕ
      → (ℕ → Bool)
      → SettlePreviewRequest
      → Option (Response (SettlePreviewResponse f.F))
  preview_paths g k done q = elim (find_k_shortest_paths f g k done q.source q.destination) [
    | none ↦ none
    | some (paths, some e) ↦ some (refuse 500 "failed to find paths")
    | some (paths, none) ↦ some (answer 200 (previewed q paths))
  ]

  -- `source` and `destination` are the query's; the router looks for `k` paths.
  unfoldable pub handle_settle_preview :
      Graph f
      → ℕ
      → (ℕ → Bool)
      → Request SettlePreviewRequest
      → String
      → String
      → Option (Response (SettlePreviewResponse f.F))
  unfolding preview_request previews find_k_shortest_paths user_in
  handle_settle_preview g k done r source destination =
      elim (preview_request r source destination) [
        | refuse code message ↦ some (refuse code message)
        | answer code q ↦
            if str_eq q.source "" || str_eq q.destination ""
            then some (refuse 400 "source and destination are required")
            else elim (user_in r.context) [
              | none ↦ some (refuse 401 "authentication required")
              | some u ↦ preview_paths g k done q
            ]
      ]
