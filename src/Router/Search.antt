-- ===== src/Router/Search.antt =====
-- Dijkstra's algorithm as the two routers of engine/router write it, over what differs between them:
-- the nodes of the graph, the edges out of a node, the tests by which the loop skips an edge, and
-- an edge's weight. A range over a Go map takes its entries in list order; every theorem holds for
-- every order. The heap of container/heap is a list from which Pop takes an entry that no other
-- is less than. The `visited` set and the maps of the function are the fields of a record.
pub mod Walk
pub mod Heap
pub mod Invariant
pub mod Improve
pub mod Relax
pub mod Visit
pub mod Loop
pub mod Ends
pub mod Endless
pub mod Paths
pub mod Chain
mod Tests
use vibranium_quadsquad.Base.{
  ℕ, zero, suc, ◌+◌, String, Bool, Option, none, some, List, [], ◌∷◌, if◌then◌else◌, length, has,
  str_eq, ◌==◌,
}
use vibranium_quadsquad.Base.Float.{Float, lt}

-- What the maps hold during a search.
pub record Search (F E : Type 0) : Type 0 where
  pub dist : String → F
  pub prev : String → String
  pub prev_edge : String → Option E
  pub queue : List (String × F)
  pub visited : List String

-- A path that was found, and its length.
pub record Found (F E : Type 0) : Type 0 where
  pub nodes : List String
  pub edges : List E
  pub total : F

abbrev pub update {ℓ} : {A : Type ℓ} → (String → A) → String → A → String → A
update m k v j = if str_eq k j then v else m j

-- heap.Pop
unfoldable pub pop_min :
    (f : Float) → List (String × f.F) → Option ((String × f.F) × List (String × f.F))
pop_min f [] = none
pop_min f (x ∷ xs) = elim (pop_min f xs) [
  | none ↦ some (x, [])
  | some (y, ys) ↦ if lt f y.1 x.1 then some (y, x ∷ ys) else some (x, xs)
]

module _ (f : Float) {E : Type 0} (nodes : List String) (out : String → List (String × E))
    (usable : String → String → E → Bool) (weight : E → f.F) where
  -- `dist` before the loop: a node that is not in the graph has no entry, and reads as 0.
  abbrev pub first_dist : String → String → f.F
  first_dist source x = if str_eq source x then f.zero else if has x nodes then f.inf else f.zero

  unfoldable pub start : String → Search f.F E
  start source = record {
    dist = first_dist source;
    prev = λ x. "";
    prev_edge = λ x. none;
    queue = (source, f.zero) ∷ [];
    visited = [];
  }

  abbrev pub improved : String → String → E → f.F → Search f.F E → Search f.F E
  improved u v e d s = record s {
    dist = update s.dist v d;
    prev = update s.prev v u;
    prev_edge = update s.prev_edge v (some e);
    queue = (v, d) ∷ s.queue;
  }

  -- One neighbour: the body of `for targetID, edge := range neighbors`.
  unfoldable pub relax_edge : String → String → E → Search f.F E → Search f.F E
  relax_edge u v e s =
      if usable u v e
      then (let d = f.add (s.dist u) (weight e) in
          if lt f d (s.dist v) then improved u v e d s else s)
      else s

  unfoldable pub relax : String → List (String × E) → Search f.F E → Search f.F E
  relax u [] s = s
  relax u ((v, e) ∷ es) s = relax u es (relax_edge u v e s)

  abbrev pub visit : String → List (String × f.F) → Search f.F E → Search f.F E
  visit u q s = record s { queue = q; visited = u ∷ s.visited }

  -- `for pq.Len() > 0`; `none` means that the fuel ran out.
  unfoldable pub loop : ℕ → String → Search f.F E → Option (Search f.F E)
  loop zero target s = none
  loop (suc n) target s = elim (pop_min f s.queue) [
    | none ↦ some s
    | some ((u, d), q) ↦
        let again = loop n target (record s { queue = q }) in
        let next = loop n target (relax u (out u) (visit u q s)) in
        if has u s.visited then again else if str_eq u target then some (visit u q s) else next
  ]

  -- `for current != ""`: the path is built backwards along `prev`.
  unfoldable pub trace :
      ℕ
      → (String → String)
      → (String → Option E)
      → String
      → List String
      → List E
      → Option (List String × List E)
  trace zero prev prev_edge x ns es = none
  trace (suc n) prev prev_edge x ns es =
      let rest =
        trace n prev prev_edge (prev x) (x ∷ ns)
          (elim (prev_edge x) [ none ↦ es | some e ↦ e ∷ es ]) in
      if str_eq x "" then some (ns, es) else rest

  abbrev pub found : f.F → Option (List String × List E) → Option (Option (Found f.F E))
  found d none = none
  found d (some (ns, es)) = some (some (record { nodes = ns; edges = es; total = d }))

  -- After the loop: no path when the target's distance is still infinite.
  unfoldable pub conclude : String → Search f.F E → Option (Option (Found f.F E))
  unfolding trace
  conclude target s =
      let path =
        found (s.dist target) (trace (suc (length s.visited)) s.prev s.prev_edge target [] []) in
      if f.rank (s.dist target) == f.rank f.inf then some none else path

  -- The rounds of the loop are bounded by the edges.
  abbrev pub degrees : List String → ℕ
  degrees [] = 0
  degrees (n ∷ ns) = length (out n) + degrees ns

  unfoldable pub search : String → String → Option (Option (Found f.F E))
  unfolding start loop conclude
  search source target = elim (loop (suc (suc (degrees nodes))) target (start source)) [
    | none ↦ none
    | some s ↦ conclude target s
  ]
