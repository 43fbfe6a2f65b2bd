-- ===== src/Handlers/Countries.antt =====
-- api/handlers/country_admin.go: creating and deleting countries in Neo4j. The queries are parameters,
-- `none` for an error; strings.ToUpper is the argument `upper`. HandleListCountries, which only reads,
-- is left out.
pub mod Regions
use vibranium_quadsquad.Base.{
  ℕ, zero, suc, ◌+◌, String, Bool, true, false, not, ◌||◌, Option, none, some, List, [], ◌∷◌,
  if◌then◌else◌, str_eq, ◌==◌,
}
use vibranium_quadsquad.Base.Float.{Float}
use vibranium_quadsquad.Auth.{User}
use vibranium_quadsquad.Http.{Request, Response, refuse, answer}
use vibranium_quadsquad.Handlers.Paths.{trim_prefix}
use vibranium_quadsquad.Handlers.Nodes.{admin_in}
use vibranium_quadsquad.Handlers.Countries.Regions.{get_regional_connections}

pub record CreateCountryRequest (F : Type 0) : Type 0 where
  pub code : String
  pub name : String
  pub currency : String
  pub base_credibility : F
  pub success_rate : F

pub record Queries (F : Type 0) : Type 1 where
  pub Db : Type 0
  -- MERGE of a country, with who created it
  pub merge_country : CreateCountryRequest F → String → Db → Option Db
  -- MERGE of the two trades between two countries
  pub merge_trades : String → String → Db → Option Db
  -- DETACH DELETE of a country, and how many were deleted
  pub delete_country : String → Db → Option (Db × ℕ)

pub record CreateCountryResponse : Type 0 where
  pub code : String
  pub edges_created : ℕ

module _ (f : Float) (n : Queries f.F) (upper : String → String) where
  -- The loop over the connections: the database, and how many queries went well.
  unfoldable pub connect : String → List String → n.Db → n.Db × ℕ
  connect code [] d = (d, 0)
  connect code (target ∷ targets) d = elim (n.merge_trades code target d) [
    | none ↦ connect code targets d
    | some d' ↦ let (d'', count) = connect code targets d' in (d'', count + 1)
  ]

  -- What is stored: capitals, and a credibility of 0.85 in place of 0.
  abbrev pub stored_country : CreateCountryRequest f.F → CreateCountryRequest f.F
  stored_country q = record {
    code = upper q.code;
    name = q.name;
    currency = upper q.currency;
    base_credibility =
        if f.rank q.base_credibility == f.rank f.zero then f.lit 85 2 else q.base_credibility;
    success_rate = q.success_rate;
  }

  abbrev pub create : User → CreateCountryRequest f.F → n.Db → Response CreateCountryResponse × n.Db
  create u q d = elim (n.merge_country (stored_country q) u.username d) [
    | none ↦ (refuse 500 "failed to create country", d)
    | some d' ↦
        let (d'', count) = connect (upper q.code) (get_regional_connections (upper q.code)) d' in
        (answer 201 (record { code = upper q.code; edges_created = count }), d'')
  ]

  unfoldable pub handle_create_country :
      Request (CreateCountryRequest f.F) → n.Db → Response CreateCountryResponse × n.Db
  unfolding admin_in connect get_regional_connections
  handle_create_country r d =
      if not (str_eq r.method "POST")
      then (refuse 405 "method not allowed", d)
      else elim (admin_in r.context) [
        | none ↦ (refuse 403 "admin access required", d)
        | some u ↦ elim r.body [
          | none ↦ (refuse 400 "invalid request body", d)
          | some q ↦
              if str_eq q.code "" || str_eq q.name "" || str_eq q.currency ""
              then (refuse 400 "code, name, and currency are required", d)
              else create u q d
        ]
      ]

  -- The answer to a deletion; the database of the query is kept in either case.
  abbrev pub deleted : String → n.Db → Option (n.Db × ℕ) → Response String × n.Db
  deleted code d none = (refuse 500 "failed to delete country", d)
  deleted code d (some (d', zero)) = (refuse 404 "country not found", d')
  deleted code d (some (d', suc k)) = (answer 200 (upper code), d')

  unfoldable pub handle_delete_country : Request (Unit {0}) → n.Db → Response String × n.Db
  unfolding admin_in trim_prefix
  handle_delete_country r d =
      let code = trim_prefix r.path "/api/v1/admin/countries/" in
      if not (str_eq r.method "DELETE")
      then (refuse 405 "method not allowed", d)
      else elim (admin_in r.context) [
        | none ↦ (refuse 403 "admin access required", d)
        | some u ↦
            if str_eq code ""
            then (refuse 400 "country code required", d)
            else deleted code d (n.delete_country (upper code) d)
      ]
