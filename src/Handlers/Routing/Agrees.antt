-- ===== src/Handlers/Routing/Agrees.antt =====
-- The two endpoints of api/handlers/route_handler.go answer alike.
use vibranium_quadsquad.Base.{
  ℕ, zero, suc, false, ◌+◌, ◌≡◌, ◌≢◌, refl, Bool, none, some, List, [], ◌∷◌, str_eq, eq_iff, arith,
}
use vibranium_quadsquad.Base.Slots.{get_elem?}
use vibranium_quadsquad.Base.Float.{Float}
use vibranium_quadsquad.Http.{Request, answer}
use vibranium_quadsquad.Router.Country.{CountryGraph, CountryPath}
use vibranium_quadsquad.Handlers.Routing.{
  RouteRequest, path_info, path_infos, handle_route_request, handle_route_http,
}

module _ (f : Float) (pow : f.F → f.F → f.F) where
  -- For a request between two different countries that are named, an HTTP request is answered with
  -- what the websocket would answer.
  pub handle_route_http-same :
      (g : CountryGraph f.F) (done : ℕ → Bool) (r : Request (RouteRequest f.F))
      (q : RouteRequest f.F)
      → r.method ≡ "POST"
      → r.body ≡ some q
      → q.source ≢ ""
      → q.target ≢ ""
      → q.source ≢ q.target
      → handle_route_http f pow g done r ≡ (elim (handle_route_request f pow g done q) [
        | none ↦ none
        | some a ↦ some (answer 200 a)
      ])
  unfolding handle_route_http handle_route_request
  handle_route_http-same g done r q posted read from to apart =
      let is_post = (eq_iff r.method "POST").1 posted in
      let has_source : str_eq q.source "" ≡ false = ground (arith, eq_iff q.source "", from) in
      let has_target : str_eq q.target "" ≡ false = ground (arith, eq_iff q.target "", to) in
      let differ : str_eq q.source q.target ≡ false =
        ground (arith, eq_iff q.source q.target, apart) in
      rw (is_post, read, has_source, has_target, differ) refl

  -- The paths of an answer stand in the router's order, numbered from one.
  pub path_infos-in_order :
      (amount : f.F) (start i : ℕ) (paths : List (CountryPath f.F)) (p : CountryPath f.F)
      → get_elem? paths i ≡ some p
      → get_elem? (path_infos f pow amount start paths) i
        ≡ some (path_info f pow amount (start + i) p)
  unfolding path_infos
  path_infos-in_order amount start i [] p e = absurd (ground (arith, e))
  path_infos-in_order amount start zero (x ∷ xs) p e = ground (arith, e)
  path_infos-in_order amount start (suc i) (x ∷ xs) p e =
      ground (arith, path_infos-in_order amount (start + 1) i xs p e)
