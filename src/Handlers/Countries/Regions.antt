-- ===== src/Handlers/Countries/Regions.antt =====
-- getRegionalConnections of api/handlers/country_admin.go: the countries that a new country is
-- connected to.
use vibranium_quadsquad.Base.{
  ◌≡◌, refl, ap, subst, String, Bool, true, false, not, ◌&&◌, none, some, List, [], ◌∷◌, length,
  has, lookup, str_eq, ◌==◌, eq_iff, arith, Bool-cases, inl, inr,
}

unfoldable pub regional_hubs : List (String × List String)
regional_hubs =
    ("USA", "CAN" ∷ "MEX" ∷ "GBR" ∷ [])
    ∷ ("CAN", "USA" ∷ "MEX" ∷ "GBR" ∷ [])
    ∷ ("MEX", "USA" ∷ "BRA" ∷ "COL" ∷ [])
    ∷ ("BRA", "ARG" ∷ "MEX" ∷ "USA" ∷ [])
    ∷ ("ARG", "BRA" ∷ "CHL" ∷ "MEX" ∷ [])
    ∷ ("CHL", "ARG" ∷ "PER" ∷ "BRA" ∷ [])
    ∷ ("COL", "MEX" ∷ "BRA" ∷ "PER" ∷ [])
    ∷ ("PER", "CHL" ∷ "COL" ∷ "BRA" ∷ [])
    ∷ ("GBR", "USA" ∷ "DEU" ∷ "FRA" ∷ [])
    ∷ ("DEU", "FRA" ∷ "GBR" ∷ "NLD" ∷ [])
    ∷ ("FRA", "DEU" ∷ "GBR" ∷ "ESP" ∷ [])
    ∷ ("ITA", "FRA" ∷ "DEU" ∷ "CHE" ∷ [])
    ∷ ("ESP", "FRA" ∷ "PRT" ∷ "ITA" ∷ [])
    ∷ ("NLD", "DEU" ∷ "BEL" ∷ "GBR" ∷ [])
    ∷ ("BEL", "NLD" ∷ "FRA" ∷ "DEU" ∷ [])
    ∷ ("CHE", "DEU" ∷ "FRA" ∷ "ITA" ∷ [])
    ∷ ("AUT", "DEU" ∷ "CHE" ∷ "ITA" ∷ [])
    ∷ ("POL", "DEU" ∷ "CZE" ∷ "ROU" ∷ [])
    ∷ ("CZE", "DEU" ∷ "POL" ∷ "AUT" ∷ [])
    ∷ ("ROU", "POL" ∷ "TUR" ∷ "DEU" ∷ [])
    ∷ ("PRT", "ESP" ∷ "FRA" ∷ "GBR" ∷ [])
    ∷ ("SWE", "NOR" ∷ "DNK" ∷ "FIN" ∷ [])
    ∷ ("NOR", "SWE" ∷ "DNK" ∷ "GBR" ∷ [])
    ∷ ("DNK", "SWE" ∷ "NOR" ∷ "DEU" ∷ [])
    ∷ ("FIN", "SWE" ∷ "RUS" ∷ "NOR" ∷ [])
    ∷ ("IRL", "GBR" ∷ "USA" ∷ "FRA" ∷ [])
    ∷ ("CHN", "JPN" ∷ "KOR" ∷ "HKG" ∷ [])
    ∷ ("JPN", "CHN" ∷ "KOR" ∷ "USA" ∷ [])
    ∷ ("KOR", "JPN" ∷ "CHN" ∷ "TWN" ∷ [])
    ∷ ("IND", "ARE" ∷ "SGP" ∷ "GBR" ∷ [])
    ∷ ("SGP", "MYS" ∷ "HKG" ∷ "AUS" ∷ [])
    ∷ ("HKG", "CHN" ∷ "SGP" ∷ "JPN" ∷ [])
    ∷ ("TWN", "KOR" ∷ "JPN" ∷ "CHN" ∷ [])
    ∷ ("THA", "SGP" ∷ "MYS" ∷ "VNM" ∷ [])
    ∷ ("MYS", "SGP" ∷ "THA" ∷ "IDN" ∷ [])
    ∷ ("IDN", "SGP" ∷ "MYS" ∷ "AUS" ∷ [])
    ∷ ("VNM", "THA" ∷ "CHN" ∷ "SGP" ∷ [])
    ∷ ("PHL", "SGP" ∷ "JPN" ∷ "HKG" ∷ [])
    ∷ ("ARE", "SAU" ∷ "IND" ∷ "GBR" ∷ [])
    ∷ ("SAU", "ARE" ∷ "EGY" ∷ "IND" ∷ [])
    ∷ ("ISR", "USA" ∷ "GBR" ∷ "TUR" ∷ [])
    ∷ ("TUR", "DEU" ∷ "ROU" ∷ "ARE" ∷ [])
    ∷ ("EGY", "SAU" ∷ "ZAF" ∷ "TUR" ∷ [])
    ∷ ("ZAF", "NGA" ∷ "EGY" ∷ "GBR" ∷ [])
    ∷ ("NGA", "ZAF" ∷ "EGY" ∷ "GBR" ∷ [])
    ∷ ("AUS", "NZL" ∷ "SGP" ∷ "JPN" ∷ [])
    ∷ ("NZL", "AUS" ∷ "SGP" ∷ "USA" ∷ [])
    ∷ ("RUS", "CHN" ∷ "DEU" ∷ "FIN" ∷ [])
    ∷ ("PAK", "IND" ∷ "ARE" ∷ "CHN" ∷ [])
    ∷ ("BGD", "IND" ∷ "THA" ∷ "SGP" ∷ [])
    ∷ []

abbrev pub default_connections : List String
default_connections = "USA" ∷ "GBR" ∷ "SGP" ∷ []

unfoldable pub get_regional_connections : String → List String
unfolding regional_hubs
get_regional_connections code = elim (lookup code regional_hubs) [
  | none ↦ default_connections
  | some connections ↦ connections
]

abbrev pub all_distinct : List String → Bool
all_distinct [] = true
all_distinct (x ∷ xs) = not (has x xs) && all_distinct xs

-- Three different countries, and not the country itself.
abbrev pub is_well_connected : String → List String → Bool
is_well_connected code cs = length cs == 3 && not (has code cs) && all_distinct cs

abbrev all_well : List (String × List String) → Bool
all_well [] = true
all_well ((code, cs) ∷ m) = is_well_connected code cs && all_well m

table_well : all_well regional_hubs ≡ true
unfolding regional_hubs
table_well = refl

found_well :
    (m : List (String × List String)) (code : String) (cs : List String)
    → all_well m ≡ true
    → lookup code m ≡ some cs
    → is_well_connected code cs ≡ true
found_well [] code cs e found = absurd (ground (arith, found))
found_well ((k, ds) ∷ m) code cs e found = elim (Bool-cases (str_eq k code)) [
  | inr other ↦ found_well m code cs (ground (arith, e)) (ground (arith, found, other))
  | inl same ↦
      let key : k ≡ code = (eq_iff k code).0 same in
      let value : ds ≡ cs = ground (arith, found, same) in
      subst (λ z. is_well_connected z cs ≡ true) key
        (subst (λ z. is_well_connected k z ≡ true) value (ground (arith, e)))
]

other_code :
    (x code : String) (cs : List String)
    → lookup x regional_hubs ≡ some cs
    → lookup code regional_hubs ≡ none
    → str_eq x code ≡ false
other_code x code cs found missing = elim (Bool-cases (str_eq x code)) [
  | inr e ↦ e
  | inl e ↦
      let same = ap (λ z. lookup z regional_hubs) ((eq_iff x code).0 e) in
      absurd (ground (arith, found, missing, same))
]

default_well :
    (code : String)
    → lookup code regional_hubs ≡ none
    → is_well_connected code default_connections ≡ true
unfolding regional_hubs
default_well code e =
    let usa = other_code "USA" code ("CAN" ∷ "MEX" ∷ "GBR" ∷ []) refl e in
    let gbr = other_code "GBR" code ("USA" ∷ "DEU" ∷ "FRA" ∷ []) refl e in
    let sgp = other_code "SGP" code ("MYS" ∷ "HKG" ∷ "AUS" ∷ []) refl e in rw (usa, gbr, sgp) refl

-- A new country, known or not, is connected to three different countries, none of them itself.
pub get_regional_connections-well :
    (code : String) → is_well_connected code (get_regional_connections code) ≡ true
unfolding get_regional_connections
get_regional_connections-well code =
    elim (lookup code regional_hubs)
        as (λ o.
          lookup code regional_hubs ≡ o
          → is_well_connected code
              (elim o [ none ↦ default_connections | some connections ↦ connections ])
            ≡ true) [
              | none ↦ default_well code
              | some cs ↦ found_well regional_hubs code cs table_well
            ]
      refl
