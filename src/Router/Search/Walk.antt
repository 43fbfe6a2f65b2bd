-- ===== src/Router/Search/Walk.antt =====
-- Walks over the usable edges of the graph, and their length as the search adds it up.
use vibranium_quadsquad.Base.{String, Bool, true, List, [], ◌∷◌, ◌≡◌, ◌⊎◌, has, ap, ◌∙◌}
use vibranium_quadsquad.Base.Float.{Float}

-- Membership, by recursion: the tactics read it.
abbrev pub In : {A : Type 0} → A → List A → Type 0
In a [] = ⊥
In a (x ∷ xs) = (a ≡ x) ⊎ In a xs

-- A list put in front of another, last entry first.
abbrev pub reverse_onto : {A : Type 0} → List A → List A → List A
reverse_onto [] ys = ys
reverse_onto (x ∷ xs) ys = reverse_onto xs (x ∷ ys)

module _ (f : Float) {E : Type 0} (nodes : List String) (out : String → List (String × E))
    (usable : String → String → E → Bool) (weight : E → f.F) where
  -- An edge that the search may take.
  pub record Arc (u v : String) (e : E) : Type 0 where
    pub listed : In (v, e) (out u)
    pub allowed : usable u v e ≡ true
    pub known : has v nodes ≡ true

  -- A walk to `v`, its edges and nodes with the last one first.
  pub data Walk (source : String) : String → List E → List String → Type 0 where
    here : {v : String} → v ≡ source → Walk source v [] (v ∷ [])
    step :
        {u v : String} {e : E} {es : List E} {ns : List String}
        → Walk source u es ns
        → Arc u v e
        → Walk source v (e ∷ es) (v ∷ ns)

  -- The length of a walk: the weights added from the source on.
  abbrev pub length_of : List E → f.F
  length_of [] = f.zero
  length_of (e ∷ es) = f.add (length_of es) (weight e)

  -- A walk from a known node ends at a known node.
  pub Walk-known :
      (source : String)
      → has source nodes ≡ true
      → (v : String) (es : List E) (ns : List String) → Walk source v es ns
      → has v nodes ≡ true
  Walk-known source k _ _ _ (here e) = ap (λ z. has z nodes) e ∙ k
  Walk-known source k _ _ _ (step w a) = a.known
