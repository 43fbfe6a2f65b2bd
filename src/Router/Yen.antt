-- ===== src/Router/Yen.antt =====
-- Yen's algorithm as FindKShortestPaths of both routers writes it, over what differs between them:
-- the type of paths, the search that avoids given edges and nodes, and how a path is put together.
-- `none` means that a search did not end. `done n` tells whether the context is found cancelled
-- when `n` rounds are left.
pub mod Chains
pub mod Distinct
pub mod Rounds
use Prim.Native.String.{◌++◌ as str_append}
use vibranium_quadsquad.Base.{
  ℕ, zero, suc, String, Bool, true, false, ◌&&◌, ◌||◌, Option, none, some, List, [], ◌∷◌, ◌++◌,
  if◌then◌else◌, length, str_eq, ltb, leb, ◌==◌, drop,
}
use vibranium_quadsquad.Base.Float.{Float, lt}

-- pathsEqual
abbrev pub same_entries : List String → List String → Bool
same_entries [] [] = true
same_entries [] (b ∷ bs) = true
same_entries (a ∷ as_) [] = true
same_entries (a ∷ as_) (b ∷ bs) = str_eq a b && same_entries as_ bs

unfoldable pub paths_equal : List String → List String → Bool
paths_equal a b = length a == length b && same_entries a b

-- pathsSharePrefix
unfoldable pub paths_share_prefix : List String → List String → Bool
paths_share_prefix path prefix = leb (length prefix) (length path) && same_entries path prefix

abbrev pub edge_key : String → String → String
edge_key a b = str_append a (str_append "->" b)

module _ (f : Float) {P : Type 0} (nodes_of : P → List String) (weight_of : P → f.F) where
  unfoldable pub contains_path : List P → P → Bool
  unfolding paths_equal
  contains_path [] p = false
  contains_path (q ∷ qs) p = paths_equal (nodes_of q) (nodes_of p) || contains_path qs p

  -- heap.Pop on the candidates: one that no other is less than.
  unfoldable pub pop_path : List P → Option (P × List P)
  pop_path [] = none
  pop_path (p ∷ ps) = elim (pop_path ps) [
    | none ↦ some (p, [])
    | some (q, qs) ↦ if lt f (weight_of q) (weight_of p) then some (q, p ∷ qs) else some (p, ps)
  ]

  -- The edge by which a path leaves the root that it shares.
  abbrev pub next_edge : List String → List String
  next_edge [] = []
  next_edge (a ∷ []) = []
  next_edge (a ∷ b ∷ _) = edge_key a b ∷ []

  unfoldable pub excluded_edges : List P → ℕ → List String → List String
  unfolding paths_share_prefix
  excluded_edges [] i root = []
  excluded_edges (p ∷ ps) i root =
      (if ltb i (length (nodes_of p)) && paths_share_prefix (nodes_of p) root
        then next_edge (drop i (nodes_of p))
        else [])
      ++ excluded_edges ps i root

module _ (f : Float) {P : Type 0} (nodes_of : P → List String) (weight_of : P → f.F)
    (combine : List String → P → P) (find : List String → List String → String → Option (Option P))
    (done : ℕ → Bool) where
  -- A spur path, joined to its root, is a candidate unless it is known.
  unfoldable pub offer : List P → List P → List String → Option P → List P
  unfolding contains_path
  offer A B root none = B
  offer A B root (some spur) =
      let total = combine root spur in
      if contains_path f nodes_of weight_of A total || contains_path f nodes_of weight_of B total
      then B
      else total ∷ B

  -- The loop over the spur nodes of the last path, `before` being the nodes already passed.
  unfoldable pub candidates : List P → List P → List String → List String → Option (List P)
  unfolding excluded_edges offer
  candidates A B before [] = some B
  candidates A B before (spur ∷ []) = some B
  candidates A B before (spur ∷ next ∷ rest) =
      elim (find (excluded_edges f nodes_of weight_of A (length before) (before ++ spur ∷ []))
        before spur) [
          | none ↦ none
          | some r ↦
              candidates A (offer A B (before ++ spur ∷ []) r) (before ++ spur ∷ []) (next ∷ rest)
        ]

  -- The main loop, `last` being the path found last; the flag tells whether it was cancelled.
  unfoldable pub rounds : ℕ → List P → List P → P → Option (List P × Bool)
  unfolding candidates pop_path
  rounds zero A B last = some (A, false)
  rounds (suc n) A B last =
      let go = elim (candidates A B [] (nodes_of last)) as (λ _. Option (List P × Bool)) [
        | none ↦ none
        | some B' ↦ elim (pop_path f nodes_of weight_of B') [
          | none ↦ some (A, false)
          | some (best, rest) ↦ rounds n (A ++ best ∷ []) rest best
        ]
      ] in
      if done n then some (A, true) else go
