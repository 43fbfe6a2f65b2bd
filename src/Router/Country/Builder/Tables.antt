-- ===== src/Router/Country/Builder/Tables.antt =====
-- The tables of engine/router/country_graph_builder.go.
use vibranium_quadsquad.Base.{String, List, [], ◌∷◌}
use vibranium_quadsquad.Base.Float.{Float}

pub record CountryData (F : Type 0) : Type 0 where
  pub code : String
  pub name : String
  pub currency : String
  pub credibility : F
  pub success_rate : F
  pub fx_rate : F

pub record TradeConnection : Type 0 where
  pub source : String
  pub target : String

abbrev trade : String → String → TradeConnection
trade a b = record { source = a; target = b }

unfoldable pub default_trade_connections : List TradeConnection
default_trade_connections =
    trade "USA" "GBR"
    ∷ trade "USA" "EUR"
    ∷ trade "USA" "JPN"
    ∷ trade "USA" "CHN"
    ∷ trade "USA" "CAN"
    ∷ trade "USA" "MEX"
    ∷ trade "USA" "AUS"
    ∷ trade "USA" "CHE"
    ∷ trade "USA" "KOR"
    ∷ trade "USA" "IND"
    ∷ trade "USA" "BRA"
    ∷ trade "USA" "SGP"
    ∷ trade "USA" "HKG"
    ∷ trade "DEU" "FRA"
    ∷ trade "DEU" "ITA"
    ∷ trade "DEU" "ESP"
    ∷ trade "DEU" "NLD"
    ∷ trade "DEU" "BEL"
    ∷ trade "DEU" "AUT"
    ∷ trade "DEU" "POL"
    ∷ trade "DEU" "CHE"
    ∷ trade "DEU" "GBR"
    ∷ trade "FRA" "ITA"
    ∷ trade "FRA" "ESP"
    ∷ trade "FRA" "BEL"
    ∷ trade "FRA" "NLD"
    ∷ trade "CHN" "JPN"
    ∷ trade "CHN" "KOR"
    ∷ trade "CHN" "HKG"
    ∷ trade "CHN" "TWN"
    ∷ trade "CHN" "SGP"
    ∷ trade "CHN" "THA"
    ∷ trade "CHN" "VNM"
    ∷ trade "CHN" "MYS"
    ∷ trade "CHN" "IDN"
    ∷ trade "CHN" "IND"
    ∷ trade "JPN" "KOR"
    ∷ trade "JPN" "TWN"
    ∷ trade "JPN" "SGP"
    ∷ trade "JPN" "THA"
    ∷ trade "SGP" "MYS"
    ∷ trade "SGP" "HKG"
    ∷ trade "SGP" "THA"
    ∷ trade "SGP" "IDN"
    ∷ trade "SAU" "ARE"
    ∷ trade "SAU" "EGY"
    ∷ trade "ARE" "IND"
    ∷ trade "BRA" "ARG"
    ∷ trade "BRA" "MEX"
    ∷ trade "BRA" "CHL"
    ∷ trade "BRA" "COL"
    ∷ trade "MEX" "COL"
    ∷ trade "CHL" "PER"
    ∷ trade "ARG" "CHL"
    ∷ trade "ZAF" "NGA"
    ∷ trade "ZAF" "EGY"
    ∷ trade "AUS" "NZL"
    ∷ trade "AUS" "SGP"
    ∷ trade "AUS" "JPN"
    ∷ trade "AUS" "CHN"
    ∷ trade "SWE" "NOR"
    ∷ trade "SWE" "DNK"
    ∷ trade "SWE" "FIN"
    ∷ trade "NOR" "DNK"
    ∷ trade "POL" "CZE"
    ∷ trade "CZE" "AUT"
    ∷ trade "ROU" "POL"
    ∷ trade "GBR" "IRL"
    ∷ trade "GBR" "CHE"
    ∷ trade "GBR" "IND"
    ∷ trade "GBR" "HKG"
    ∷ trade "CHE" "AUT"
    ∷ trade "ISR" "USA"
    ∷ trade "TUR" "DEU"
    ∷ []

module _ (f : Float) where
  abbrev country : String → String → String → f.F → f.F → f.F → CountryData f.F
  country code name currency credibility success_rate fx_rate = record {
    code = code;
    name = name;
    currency = currency;
    credibility = credibility;
    success_rate = success_rate;
    fx_rate = fx_rate;
  }

  unfoldable pub default_countries : List (CountryData f.F)
  default_countries =
      country "USA" "United States" "USD" (f.lit 98 2) (f.lit 99 2) (f.lit 10 1)
      ∷ country "CHN" "China" "CNY" (f.lit 88 2) (f.lit 92 2) (f.lit 724 2)
      ∷ country "DEU" "Germany" "EUR" (f.lit 96 2) (f.lit 98 2) (f.lit 92 2)
      ∷ country "JPN" "Japan" "JPY" (f.lit 94 2) (f.lit 96 2) (f.lit 14950 2)
      ∷ country "IND" "India" "INR" (f.lit 85 2) (f.lit 90 2) (f.lit 8312 2)
      ∷ country "GBR" "United Kingdom" "GBP" (f.lit 95 2) (f.lit 97 2) (f.lit 79 2)
      ∷ country "FRA" "France" "EUR" (f.lit 94 2) (f.lit 96 2) (f.lit 92 2)
      ∷ country "ITA" "Italy" "EUR" (f.lit 90 2) (f.lit 93 2) (f.lit 92 2)
      ∷ country "BRA" "Brazil" "BRL" (f.lit 80 2) (f.lit 85 2) (f.lit 497 2)
      ∷ country "CAN" "Canada" "CAD" (f.lit 93 2) (f.lit 96 2) (f.lit 136 2)
      ∷ country "RUS" "Russia" "RUB" (f.lit 72 2) (f.lit 80 2) (f.lit 9050 2)
      ∷ country "KOR" "South Korea" "KRW" (f.lit 91 2) (f.lit 94 2) (f.lit 132050 2)
      ∷ country "AUS" "Australia" "AUD" (f.lit 92 2) (f.lit 95 2) (f.lit 155 2)
      ∷ country "MEX" "Mexico" "MXN" (f.lit 78 2) (f.lit 84 2) (f.lit 1715 2)
      ∷ country "ESP" "Spain" "EUR" (f.lit 89 2) (f.lit 92 2) (f.lit 92 2)
      ∷ country "IDN" "Indonesia" "IDR" (f.lit 76 2) (f.lit 82 2) (f.lit 157500 1)
      ∷ country "NLD" "Netherlands" "EUR" (f.lit 95 2) (f.lit 97 2) (f.lit 92 2)
      ∷ country "SAU" "Saudi Arabia" "SAR" (f.lit 90 2) (f.lit 93 2) (f.lit 375 2)
      ∷ country "TUR" "Turkey" "TRY" (f.lit 70 2) (f.lit 78 2) (f.lit 3215 2)
      ∷ country "CHE" "Switzerland" "CHF" (f.lit 99 2) (f.lit 99 2) (f.lit 88 2)
      ∷ country "POL" "Poland" "PLN" (f.lit 86 2) (f.lit 90 2) (f.lit 395 2)
      ∷ country "TWN" "Taiwan" "TWD" (f.lit 89 2) (f.lit 93 2) (f.lit 3150 2)
      ∷ country "BEL" "Belgium" "EUR" (f.lit 93 2) (f.lit 96 2) (f.lit 92 2)
      ∷ country "SWE" "Sweden" "SEK" (f.lit 94 2) (f.lit 96 2) (f.lit 1045 2)
      ∷ country "IRL" "Ireland" "EUR" (f.lit 93 2) (f.lit 96 2) (f.lit 92 2)
      ∷ country "AUT" "Austria" "EUR" (f.lit 94 2) (f.lit 96 2) (f.lit 92 2)
      ∷ country "THA" "Thailand" "THB" (f.lit 82 2) (f.lit 87 2) (f.lit 3520 2)
      ∷ country "ISR" "Israel" "ILS" (f.lit 88 2) (f.lit 92 2) (f.lit 370 2)
      ∷ country "NGA" "Nigeria" "NGN" (f.lit 65 2) (f.lit 72 2) (f.lit 15500 1)
      ∷ country "ARE" "UAE" "AED" (f.lit 92 2) (f.lit 95 2) (f.lit 367 2)
      ∷ country "ARG" "Argentina" "ARS" (f.lit 60 2) (f.lit 68 2) (f.lit 8750 1)
      ∷ country "NOR" "Norway" "NOK" (f.lit 95 2) (f.lit 97 2) (f.lit 1065 2)
      ∷ country "EGY" "Egypt" "EGP" (f.lit 68 2) (f.lit 75 2) (f.lit 3090 2)
      ∷ country "VNM" "Vietnam" "VND" (f.lit 75 2) (f.lit 81 2) (f.lit 245000 1)
      ∷ country "BGD" "Bangladesh" "BDT" (f.lit 70 2) (f.lit 77 2) (f.lit 11050 2)
      ∷ country "ZAF" "South Africa" "ZAR" (f.lit 74 2) (f.lit 80 2) (f.lit 1875 2)
      ∷ country "PHL" "Philippines" "PHP" (f.lit 77 2) (f.lit 83 2) (f.lit 5625 2)
      ∷ country "DNK" "Denmark" "DKK" (f.lit 94 2) (f.lit 96 2) (f.lit 685 2)
      ∷ country "MYS" "Malaysia" "MYR" (f.lit 84 2) (f.lit 89 2) (f.lit 470 2)
      ∷ country "SGP" "Singapore" "SGD" (f.lit 97 2) (f.lit 98 2) (f.lit 134 2)
      ∷ country "HKG" "Hong Kong" "HKD" (f.lit 93 2) (f.lit 96 2) (f.lit 782 2)
      ∷ country "PAK" "Pakistan" "PKR" (f.lit 62 2) (f.lit 70 2) (f.lit 2850 1)
      ∷ country "CHL" "Chile" "CLP" (f.lit 82 2) (f.lit 87 2) (f.lit 8850 1)
      ∷ country "COL" "Colombia" "COP" (f.lit 78 2) (f.lit 84 2) (f.lit 40500 1)
      ∷ country "FIN" "Finland" "EUR" (f.lit 95 2) (f.lit 97 2) (f.lit 92 2)
      ∷ country "CZE" "Czech Republic" "CZK" (f.lit 88 2) (f.lit 92 2) (f.lit 2275 2)
      ∷ country "ROU" "Romania" "RON" (f.lit 80 2) (f.lit 86 2) (f.lit 456 2)
      ∷ country "PRT" "Portugal" "EUR" (f.lit 88 2) (f.lit 92 2) (f.lit 92 2)
      ∷ country "NZL" "New Zealand" "NZD" (f.lit 91 2) (f.lit 94 2) (f.lit 168 2)
      ∷ country "PER" "Peru" "PEN" (f.lit 76 2) (f.lit 82 2) (f.lit 375 2)
      ∷ []
