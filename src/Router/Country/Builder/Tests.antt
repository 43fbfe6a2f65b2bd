-- ===== src/Router/Country/Builder/Tests.antt =====
-- The graph of two countries of the table and one that is not in it.
use vibranium_quadsquad.Base.{ℕ, ◌*◌, String, List, [], ◌∷◌, refl}
use vibranium_quadsquad.Base.Float.{nat_float}
use vibranium_quadsquad.Router.Country.{CountryGraph, new_country_graph}
use vibranium_quadsquad.Router.Country.Builder.Tables.{default_trade_connections}
use vibranium_quadsquad.Router.Country.Builder.{
  Row, text, number, other, add_countries, add_known_trades, all_data,
  build_country_graph_from_neo4j,
}
use vibranium_quadsquad.Router.Country.Builder.Known.{
  IsSound, build_country_graph_from_neo4j-IsSound,
}

abbrev row : String → Row ℕ
row code = record {
  code = text code;
  name = text code;
  currency = other;
  credibility = number 1;
  success_rate = number 1;
  fx_rate = other;
}

abbrev rows : List (Row ℕ)
rows = row "USA" ∷ row "GBR" ∷ row "XXX" ∷ []

abbrev built : CountryGraph ℕ
built =
    add_known_trades nat_float (λ a b. a * b)
      (add_countries nat_float (λ a b. a * b) (new_country_graph nat_float (λ a b. a * b))
        (all_data nat_float (λ a b. a * b) rows))
      default_trade_connections

build_country_graph_from_neo4j-IsSound_example : IsSound nat_float (λ a b. a * b) built
unfolding build_country_graph_from_neo4j
build_country_graph_from_neo4j-IsSound_example =
    build_country_graph_from_neo4j-IsSound nat_float (λ a b. a * b) rows built refl
