-- ===== src/Entropy.antt =====
-- pkg/entropy/entropy.go: the Shannon entropy of a distribution, over the float operations.
use vibranium_quadsquad.Base.{ℕ, suc, String, Bool, List, [], ◌∷◌, if◌then◌else◌, length, leb, ◌==◌}
use vibranium_quadsquad.Base.Int.{pos}
use vibranium_quadsquad.Base.Float.{Float, lt}

module _ (f : Float) where
  -- `v <= 0`
  abbrev pub is_le : f.F → f.F → Bool
  is_le a b = leb (f.rank a) (f.rank b)

  -- `a == b` on float64 values
  abbrev pub is_same : f.F → f.F → Bool
  is_same a b = f.rank a == f.rank b

  -- The total, negative values counted as 0, from `t` on.
  unfoldable pub total_of : f.F → List f.F → f.F
  total_of t [] = t
  total_of t (v ∷ vs) = total_of (f.add t (if lt f v f.zero then f.zero else v)) vs

  abbrev pub term : f.F → f.F → f.F → f.F
  term h p v = if lt f f.zero p then f.sub h (f.mul p (f.log2 p)) else h

  unfoldable pub entropy_of : f.F → f.F → List f.F → f.F
  entropy_of total h [] = h
  entropy_of total h (v ∷ vs) =
      entropy_of total (if is_le v f.zero then h else term h (f.div v total) v) vs

  unfoldable pub calculate : List f.F → f.F
  unfolding total_of entropy_of
  calculate [] = f.zero
  calculate (v ∷ vs) =
      let total = total_of f.zero (v ∷ vs) in
      if is_same total f.zero then f.zero else entropy_of total f.zero (v ∷ vs)

  unfoldable pub count_positive : List f.F → ℕ
  count_positive [] = 0
  count_positive (v ∷ vs) = let n = count_positive vs in if lt f f.zero v then suc n else n

  unfoldable pub calculate_normalized : List f.F → f.F
  unfolding calculate count_positive
  calculate_normalized vs =
      let max_entropy = f.log2 (f.of_ℤ (pos (count_positive vs))) in
      if leb (length vs) 1
      then f.zero
      else if leb (count_positive vs) 1
      then f.zero
      else if is_same max_entropy f.zero
      then f.zero
      else f.div (calculate vs) max_entropy

  pub record NodeEntropy : Type 0 where
    pub node_id : String
    pub entropy : f.F
    pub normalized_entropy : f.F
    pub distribution : List (String × f.F)
    pub last_updated : ℕ

  abbrev pub values : List (String × f.F) → List f.F
  values [] = []
  values ((k, v) ∷ m) = v ∷ values m

  unfoldable pub calculate_from_map : List (String × f.F) → f.F
  unfolding calculate
  calculate_from_map distribution = calculate (values distribution)

  unfoldable pub calculate_node_entropy : String → List (String × f.F) → NodeEntropy
  unfolding calculate calculate_normalized
  calculate_node_entropy id distribution = record {
    node_id = id;
    entropy = calculate (values distribution);
    normalized_entropy = calculate_normalized (values distribution);
    distribution = distribution;
    last_updated = 0;
  }

  -- The entropy, capped at 3.
  unfoldable pub volatility : NodeEntropy → f.F
  volatility n = if lt f (f.lit 3 0) n.entropy then f.lit 3 0 else n.entropy
