-- ===== src/Router/Country/Builder.antt =====
-- engine/router/country_graph_builder.go: the graph of countries that the server starts with, from the
-- rows of Neo4j or from defaults. A row is what the driver gives for a country, a value that is no
-- text or number being `other`; the query is an argument, `none` for an error.
pub mod Tables
pub mod Known
mod Tests
use vibranium_quadsquad.Base.{
  String, Bool, true, false, ◌&&◌, Option, none, some, List, [], ◌∷◌, if◌then◌else◌, lookup, insert,
}
use vibranium_quadsquad.Base.Int.{ℤ}
use vibranium_quadsquad.Base.Float.{Float}
use vibranium_quadsquad.Router.Country.{
  CountryGraph, CountryNode, CountryEdge, new_country_graph, add_country, add_trade,
}
use vibranium_quadsquad.Router.Country.Builder.Tables.{
  CountryData, TradeConnection, default_trade_connections, default_countries,
}

pub data Value (F : Type 0) : Type 0 where
  text : String → Value F
  number : F → Value F
  integer : ℤ → Value F
  other : Value F

pub record Row (F : Type 0) : Type 0 where
  pub code : Value F
  pub name : Value F
  pub currency : Value F
  pub credibility : Value F
  pub success_rate : Value F
  pub fx_rate : Value F

module _ (f : Float) (pow : f.F → f.F → f.F) where
  abbrev pub to_string : Value f.F → String
  to_string (text s) = s
  to_string _ = ""

  abbrev pub to_float : Value f.F → f.F
  to_float (number x) = x
  to_float (integer n) = f.of_ℤ n
  to_float _ = f.zero

  abbrev pub data_of : Row f.F → CountryData f.F
  data_of r = record {
    code = to_string r.code;
    name = to_string r.name;
    currency = to_string r.currency;
    credibility = to_float r.credibility;
    success_rate = to_float r.success_rate;
    fx_rate = to_float r.fx_rate;
  }

  abbrev pub node_of : CountryData f.F → CountryNode f.F
  node_of d = record {
    code = d.code;
    name = d.name;
    currency = d.currency;
    credibility = d.credibility;
    success_rate = d.success_rate;
    fx_rate = d.fx_rate;
    is_active = true;
  }

  unfoldable pub add_countries : CountryGraph f.F → List (CountryData f.F) → CountryGraph f.F
  unfolding add_country
  add_countries g [] = g
  add_countries g (d ∷ ds) = add_countries (add_country f pow g (node_of d)) ds

  abbrev pub edge_of : TradeConnection → CountryEdge f.F
  edge_of c = record {
    source_code = c.source;
    target_code = c.target;
    base_cost = f.lit 1 2;
    is_active = true;
  }

  unfoldable pub add_trades : CountryGraph f.F → List TradeConnection → CountryGraph f.F
  unfolding add_trade
  add_trades g [] = g
  add_trades g (c ∷ cs) = add_trades (add_trade f pow g (edge_of c)) cs

  abbrev pub is_country : CountryGraph f.F → String → Bool
  is_country g code = elim (lookup code g.nodes) [ none ↦ false | some n ↦ true ]

  -- The connections of which both ends were loaded.
  unfoldable pub add_known_trades : CountryGraph f.F → List TradeConnection → CountryGraph f.F
  unfolding add_trade
  add_known_trades g [] = g
  add_known_trades g (c ∷ cs) =
      add_known_trades
        (if is_country g c.source && is_country g c.target
          then add_trade f pow g (edge_of c)
          else g)
        cs

  abbrev pub all_data : List (Row f.F) → List (CountryData f.F)
  all_data [] = []
  all_data (r ∷ rs) = data_of r ∷ all_data rs

  unfoldable pub build_country_graph_from_neo4j :
      Option (List (Row f.F)) → Option (CountryGraph f.F)
  unfolding add_countries add_known_trades default_trade_connections new_country_graph
  build_country_graph_from_neo4j none = none
  build_country_graph_from_neo4j (some rows) = some (
      add_known_trades (add_countries (new_country_graph f pow) (all_data rows))
        default_trade_connections)

  unfoldable pub build_country_graph_with_defaults : CountryGraph f.F
  unfolding add_countries add_trades default_trade_connections default_countries new_country_graph
  build_country_graph_with_defaults =
      add_trades (add_countries (new_country_graph f pow) (default_countries f))
        default_trade_connections
