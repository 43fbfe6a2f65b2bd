-- ===== src/Router/Search/Invariant.antt =====
-- What holds of the maps between two steps of the search.
use vibranium_quadsquad.Base.{
  ◌≤◌, String, Bool, true, false, none, some, List, [], ◌∷◌, ◌≡◌, ◌≢◌, refl, ◌⊎◌, inl, inr, arith,
  has, str_eq, eq_iff, Bool-cases,
}
use vibranium_quadsquad.Base.Float.{Float, AddLaws}
use vibranium_quadsquad.Router.Search.{Search, update, first_dist, start}
use vibranium_quadsquad.Router.Search.Walk.{In, Arc}

-- Along the visited nodes, last one first, `prev` leads to a node visited before, or nowhere.
abbrev pub Ordered : (String → String) → List String → Type 0
Ordered prev [] = Unit {0}
Ordered prev (x ∷ xs) = ((prev x ≡ "") ⊎ (has (prev x) xs ≡ true)) × Ordered prev xs

pub Ordered-update :
    (prev : String → String) (v u : String) (xs : List String)
    → has v xs ≡ false
    → Ordered prev xs
    → Ordered (update prev v u) xs
Ordered-update prev v u [] h o = tt
Ordered-update prev v u (x ∷ xs) h o =
    let rest = Ordered-update prev v u xs (ground arith) o.1 in
    (ground (arith, eq_iff x v, eq_iff v x), rest)

pub has_ne :
    (x v : String) (xs : List String) → has x xs ≡ true → has v xs ≡ false → str_eq v x ≡ false
has_ne x v [] h k = cc
has_ne x v (y ∷ ys) h k = ground (arith, eq_iff v x, eq_iff y x, eq_iff y v, has_ne x v ys)

module _ (f : Float) {E : Type 0} (nodes : List String) (out : String → List (String × E))
    (usable : String → String → E → Bool) (weight : E → f.F) (source : String) where
  -- How a node got its distance: it is the source, or by an edge from a visited node.
  abbrev pub IsSource : Search f.F E → String → Type 0
  IsSource s x = (x ≡ source) × (s.prev x ≡ "") × (s.prev_edge x ≡ none) × (s.dist x ≡ f.zero)

  abbrev pub IsReached : Search f.F E → String → E → Type 0
  IsReached s x e =
      (s.prev_edge x ≡ some e)
      × (has (s.prev x) s.visited ≡ true)
      × Arc f nodes out usable weight (s.prev x) x e
      × (s.dist x ≡ f.add (s.dist (s.prev x)) (weight e))

  abbrev pub Rooted : Search f.F E → String → Type 0
  Rooted s x = IsSource s x ⊎ ((e : E) × IsReached s x e)

  -- A node that no edge has reached.
  abbrev pub Fresh : Search f.F E → String → Type 0
  Fresh s x =
      (x ≢ source)
      × (s.prev_edge x ≡ none)
      × (s.dist x ≡ first_dist f nodes out usable weight source x)

  pub record Queued (s : Search f.F E) (x : String) (d : f.F) : Type 0 where
    pub rooted : Rooted s x
    pub known : has x nodes ≡ true
    pub above : f.rank (s.dist x) ≤ f.rank d
    pub positive : f.rank f.zero ≤ f.rank d
    pub settled : (u : String) → has u s.visited ≡ true → f.rank (s.dist u) ≤ f.rank d

  abbrev pub Covered : Search f.F E → String → Type 0
  Covered s x =
      (has x s.visited ≡ true) ⊎ ((d : f.F) × In (x, d) s.queue × (d ≡ s.dist x)) ⊎ Fresh s x

  pub record Inv (s : Search f.F E) : Type 0 where
    pub visited_rooted : (x : String) → has x s.visited ≡ true → Rooted s x
    pub visited_known : (x : String) → has x s.visited ≡ true → has x nodes ≡ true
    pub queued : (x : String) (d : f.F) → In (x, d) s.queue → Queued s x d
    pub covered : (x : String) → Covered s x
    pub ordered : Ordered s.prev s.visited
    pub at_source : s.dist source ≡ f.zero
    pub finite : (x : String) → has x nodes ≡ true → f.rank (s.dist x) ≤ f.rank f.inf

  -- Before the loop.
  pub start-Inv : AddLaws f → has source nodes ≡ true → Inv (start f nodes out usable weight source)
  unfolding start
  start-Inv laws h = record {
    visited_rooted = λ x v. absurd (ground arith);
    visited_known = λ x v. absurd (ground arith);
    queued = λ x d m. elim m [
      | inr n ↦ absurd n
      | inl e ↦ record {
        rooted = inl (ground arith, refl, refl, ground (arith, eq_iff source x));
        known = ground arith;
        above = ground (arith, eq_iff source x);
        positive = ground arith;
        settled = λ u v. absurd (ground arith);
      }
    ];
    covered = λ x. elim (Bool-cases (str_eq source x)) [
      | inl same ↦ inr (inl (f.zero, ground (arith, eq_iff source x), ground arith))
      | inr other ↦ inr (inr (ground (arith, eq_iff source x), refl, refl))
    ];
    ordered = tt;
    at_source = ground (arith, eq_iff source source);
    finite = λ x k. ground (arith, laws.zero-le-inf);
  }

  -- The node that is being expanded.
  pub record Active (u : String) (s : Search f.F E) : Type 0 where
    pub is_visited : has u s.visited ≡ true
    pub highest : (w : String) → has w s.visited ≡ true → f.rank (s.dist w) ≤ f.rank (s.dist u)
    pub positive : f.rank f.zero ≤ f.rank (s.dist u)
