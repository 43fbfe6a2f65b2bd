-- ===== src/Router/Country/Builder/Known.antt =====
-- The graph that is built from Neo4j trades between countries that it has, both ways.
use vibranium_quadsquad.Base.{
  ◌≡◌, refl, ap, subst, String, Bool, true, false, ◌&&◌, ◌||◌, Option, none, some, List, [], ◌∷◌,
  if◌then◌else◌, lookup, insert, lookup-insert, str_eq, eq_iff, arith, Bool-cases, inl, inr,
}
use vibranium_quadsquad.Base.Float.{Float}
use vibranium_quadsquad.Router.Mesh.{targets_of}
use vibranium_quadsquad.Router.Country.{
  CountryGraph, CountryEdge, put_edge, add_trade, add_country, new_country_graph,
}
use vibranium_quadsquad.Router.Country.Builder.Tables.{
  CountryData, TradeConnection, default_trade_connections,
}
use vibranium_quadsquad.Router.Country.Builder.{
  Row, add_countries, add_known_trades, edge_of, node_of, is_country, all_data,
  build_country_graph_from_neo4j,
}

abbrev is_some : {A : Type 0} → Option A → Bool
is_some none = false
is_some (some a) = true

module _ (f : Float) (pow : f.F → f.F → f.F) where
  -- Whether there is a trade from one country to another.
  abbrev pub has_trade : CountryGraph f.F → String → String → Bool
  has_trade g u v = is_some (lookup v (targets_of g.edges u))

  lookup-put_edge :
      (s t : String) (e : CountryEdge f.F) (m : List (String × List (String × CountryEdge f.F)))
      (u v : String)
      → lookup v (targets_of (put_edge f pow s t e m) u)
        ≡ (if str_eq s u && str_eq t v then some e else lookup v (targets_of m u))
  lookup-put_edge s t e m u v = elim (Bool-cases (str_eq s u)) [
    | inl same ↦ ground (
      arith,
      same,
      lookup-insert s u (insert t e (targets_of m s)) m,
      lookup-insert t v e (targets_of m s),
      ap (λ z. lookup v (targets_of m z)) ((eq_iff s u).0 same),
    )
    | inr other ↦ ground (arith, other, lookup-insert s u (insert t e (targets_of m s)) m)
  ]

  has_trade-add_trade :
      (g : CountryGraph f.F) (e : CountryEdge f.F) (u v : String)
      → has_trade (add_trade f pow g e) u v ≡ (
          (str_eq e.target_code u && str_eq e.source_code v)
          || ((str_eq e.source_code u && str_eq e.target_code v) || has_trade g u v))
  unfolding add_trade
  has_trade-add_trade g e u v = ground (
    arith,
    lookup-put_edge e.target_code e.source_code
        (record e { source_code = e.target_code; target_code = e.source_code })
        (put_edge f pow e.source_code e.target_code e g.edges) u v,
    lookup-put_edge e.source_code e.target_code e g.edges u v,
  )

  -- Each trade is between two countries of the graph, and goes both ways.
  pub record IsSound (g : CountryGraph f.F) : Type 0 where
    pub from_known : (u v : String) → has_trade g u v ≡ true → is_country f pow g u ≡ true
    pub to_known : (u v : String) → has_trade g u v ≡ true → is_country f pow g v ≡ true
    pub both_ways : (u v : String) → has_trade g u v ≡ true → has_trade g v u ≡ true

  country_at :
      (g : CountryGraph f.F) (code other : String)
      → is_country f pow g code ≡ true
      → str_eq code other ≡ true
      → is_country f pow g other ≡ true
  country_at g code other known same =
      subst (λ z. is_country f pow g z ≡ true) ((eq_iff code other).0 same) known

  add_trade-IsSound :
      (g : CountryGraph f.F) (e : CountryEdge f.F)
      → is_country f pow g e.source_code ≡ true
      → is_country f pow g e.target_code ≡ true
      → IsSound g
      → IsSound (add_trade f pow g e)
  unfolding add_trade
  add_trade-IsSound g e source_known target_known s = record {
    from_known = λ u v h. ground (
      arith,
      has_trade-add_trade g e u v,
      h,
      country_at g e.target_code u target_known,
      country_at g e.source_code u source_known,
      s.from_known u v,
    );
    to_known = λ u v h. ground (
      arith,
      has_trade-add_trade g e u v,
      h,
      country_at g e.target_code v target_known,
      country_at g e.source_code v source_known,
      s.to_known u v,
    );
    both_ways = λ u v h.
        ground
          (arith, has_trade-add_trade g e u v, has_trade-add_trade g e v u, h, s.both_ways u v);
  }

  add_known_trades-IsSound :
      (g : CountryGraph f.F) (cs : List TradeConnection)
      → IsSound g
      → IsSound (add_known_trades f pow g cs)
  unfolding add_known_trades
  add_known_trades-IsSound g [] s = s
  add_known_trades-IsSound g (c ∷ cs) s =
      elim (Bool-cases (is_country f pow g c.source && is_country f pow g c.target)) [
        | inr unknown ↦ rw unknown (add_known_trades-IsSound g cs s)
        | inl known ↦ rw known (
            add_known_trades-IsSound (add_trade f pow g (edge_of f pow c)) cs (
              add_trade-IsSound g (edge_of f pow c) (ground (arith, known)) (ground (arith, known))
                s))
      ]

  add_countries-edges :
      (g : CountryGraph f.F) (ds : List (CountryData f.F))
      → (add_countries f pow g ds).edges ≡ g.edges
  unfolding add_countries add_country
  add_countries-edges g [] = refl
  add_countries-edges g (d ∷ ds) = add_countries-edges (add_country f pow g (node_of f pow d)) ds

  no_trades-IsSound : (g : CountryGraph f.F) → g.edges ≡ [] → IsSound g
  no_trades-IsSound g e =
      let none_at : (u v : String) → has_trade g u v ≡ false =
        λ u v. ap (λ z. is_some (lookup v (targets_of z u))) e in
      record {
        from_known = λ u v h. absurd (ground (arith, none_at u v, h));
        to_known = λ u v h. absurd (ground (arith, none_at u v, h));
        both_ways = λ u v h. absurd (ground (arith, none_at u v, h));
      }

  -- Whatever rows Neo4j gives, each trade of the graph that is built is between two of its countries,
  -- and there is one the other way.
  pub build_country_graph_from_neo4j-IsSound :
      (rows : List (Row f.F)) (g : CountryGraph f.F)
      → build_country_graph_from_neo4j f pow (some rows) ≡ some g
      → IsSound g
  unfolding build_country_graph_from_neo4j new_country_graph
  build_country_graph_from_neo4j-IsSound rows g e =
      let start : CountryGraph f.F =
        add_countries f pow (new_country_graph f pow) (all_data f pow rows) in
      let same : add_known_trades f pow start default_trade_connections ≡ g =
        ap (λ (o : Option (CountryGraph f.F)). elim o [ none ↦ start | some x ↦ x ]) e in
      subst IsSound same (
        add_known_trades-IsSound start default_trade_connections (
          no_trades-IsSound start
            (add_countries-edges (new_country_graph f pow) (all_data f pow rows))))
