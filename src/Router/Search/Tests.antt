-- ===== src/Router/Search/Tests.antt =====
-- Searches with an edge of negative weight, over integers in place of floats.
use vibranium_quadsquad.Base.{
  ◌+◌, ◌-◌, ◌*◌, String, true, false, Option, none, some, List, [], ◌∷◌, ◌≡◌, refl, sym, subst, inl,
  inr, has, str_eq, eq_iff, ◌==◌, if◌then◌else◌, arith, Bool-cases,
}
use vibranium_quadsquad.Base.Int.{ℤ, pos, negsuc, pos_part, neg_part, sub_ℕ}
use vibranium_quadsquad.Base.Float.{Float}
use vibranium_quadsquad.Router.Search.{
  Search, start, loop, pop_min, search, conclude, relax, relax_edge, trace,
}
use vibranium_quadsquad.Router.Search.Walk.{In}
use vibranium_quadsquad.Router.Search.Endless.{trace-endless}
use vibranium_quadsquad.Router.Search.Ends.{loop-ends}
use vibranium_quadsquad.Router.Mesh.{Graph, Edge, Node, targets_of, usable, edge_weight, dijkstra}

-- Integers above -1_000_000_000, with a large bound for infinity.
abbrev int_float : Float
int_float = record {
  F = ℤ;
  rank = λ a. 1_000_000_000 + pos_part a - neg_part a;
  zero = pos 0;
  inf = pos 1_000_000_000;
  add = λ a b. sub_ℕ (pos_part a + pos_part b) (neg_part a + neg_part b);
  sub = λ a b. sub_ℕ (pos_part a + neg_part b) (neg_part a + pos_part b);
  mul = λ a b.
      sub_ℕ (pos_part a * pos_part b + neg_part a * neg_part b)
        (pos_part a * neg_part b + neg_part a * pos_part b);
  div = λ a b. a;
  log2 = λ a. a;
  of_ℤ = λ a. a;
  trunc = λ a. a;
  lit = λ a b. if b == 0 then pos a else pos 0;
}

abbrev edge : String → String → ℤ → String × Edge ℤ
edge s t fee = (
  t,
  record {
    source_id = s;
    target_id = t;
    base_fee = fee;
    latency = pos 0;
    liquidity_volume = pos 0;
    is_active = true;
  },
)

abbrev node : String → String × Node
node id = (id, record { id = id; kind = "SME"; region = "EU"; is_active = true })

-- A -> B costs 1, B -> A costs -2, B -> C costs 5.
abbrev gain : Graph int_float
gain = record {
  nodes = node "A" ∷ node "B" ∷ node "C" ∷ [];
  edges =
      ("A", edge "A" "B" (pos 1) ∷ [])
      ∷ ("B", edge "B" "A" (negsuc 1) ∷ edge "B" "C" (pos 5) ∷ [])
      ∷ [];
  entropy = [];
}

abbrev names : List String
names = "A" ∷ "B" ∷ "C" ∷ []

rooted : (u : String) → has u names ≡ false → targets_of gain.edges u ≡ []
rooted u h = ground arith

loop-ends_example :
    (t : Search ℤ (Edge ℤ)) × (loop int_float names
        (targets_of gain.edges)
        (usable int_float gain [] [])
        (edge_weight int_float gain)
        5
        "C"
        (start int_float names
          (targets_of gain.edges)
          (usable int_float gain [] [])
          (edge_weight int_float gain)
          "A")
      ≡ some t)
loop-ends_example =
    loop-ends int_float names (targets_of gain.edges) (usable int_float gain [] [])
      (edge_weight int_float gain) rooted "A" "C"

-- The search from A to C.
abbrev searched : Option (Search ℤ (Edge ℤ))
unfolding loop start relax relax_edge pop_min usable edge_weight
searched =
    loop int_float names (targets_of gain.edges) (usable int_float gain [] [])
      (edge_weight int_float gain) 5 "C"
      (start int_float names (targets_of gain.edges) (usable int_float gain [] [])
        (edge_weight int_float gain) "A")

abbrev or_else : Search ℤ (Edge ℤ) → Option (Search ℤ (Edge ℤ)) → Search ℤ (Edge ℤ)
or_else s none = s
or_else s (some t) = t

abbrev final : Search ℤ (Edge ℤ)
unfolding searched
final =
    or_else
      (record {
        dist = λ x. pos 0;
        prev = λ x. "";
        prev_edge = λ x. none;
        queue = [];
        visited = [];
      })
      searched

first_named :
    (x : String × Edge ℤ) (v : String) (e : Edge ℤ)
    → str_eq x.0 "" ≡ false
    → (v, e) ≡ x
    → str_eq v "" ≡ false
first_named x v e h p = subst (λ (z : String × Edge ℤ). str_eq z.0 "" ≡ false) (sym p) h

targets_named :
    (u v : String) (e : Edge ℤ) → In (v, e) (targets_of gain.edges u) → str_eq v "" ≡ false
targets_named u v e m = elim (Bool-cases (str_eq "A" u)) [
  | inl a ↦ elim (subst (λ z. In (v, e) (targets_of gain.edges z)) (sym ((eq_iff "A" u).0 a)) m) [
    | inl p ↦ first_named (edge "A" "B" (pos 1)) v e refl p
    | inr none_left ↦ absurd none_left
  ]
  | inr a ↦ elim (Bool-cases (str_eq "B" u)) [
    | inl b ↦ elim (subst (λ z. In (v, e) (targets_of gain.edges z)) (sym ((eq_iff "B" u).0 b)) m) [
      | inl p ↦ first_named (edge "B" "A" (negsuc 1)) v e refl p
      | inr (inl p) ↦ first_named (edge "B" "C" (pos 5)) v e refl p
      | inr (inr none_left) ↦ absurd none_left
    ]
    | inr b ↦
        let gone : targets_of gain.edges u ≡ [] = ground arith in absurd (subst (In (v, e)) gone m)
  ]
]

trace-endless_example :
    trace int_float names
      (targets_of gain.edges)
      (usable int_float gain [] [])
      (edge_weight int_float gain)
      1_000
      final.prev
      final.prev_edge
      "C"
      []
      []
    ≡ none
unfolding final searched
trace-endless_example =
    trace-endless int_float names (targets_of gain.edges) (usable int_float gain [] [])
      (edge_weight int_float gain) "A" targets_named refl 5 "C" final refl (omega arith) refl 1_000
      [] []

-- Dijkstra's answer for A to C needs more fuel than a path without a cycle: the way back from C goes
-- from A to B and to A again.
dijkstra-hangs : dijkstra int_float gain "A" "C" [] [] ≡ none
unfolding dijkstra search conclude trace loop start relax relax_edge pop_min usable edge_weight
dijkstra-hangs = refl
