-- ===== src/Router/Yen/Chains.antt =====
-- Node lists whose neighbours are linked, and how a spur path is put onto a root.
use vibranium_quadsquad.Base.{String, List, [], ◌∷◌, ◌++◌, ◌≡◌, subst}
use vibranium_quadsquad.Router.Mesh.{tail_of}

abbrev pub Begins : String → List String → Type 0
Begins s [] = ⊥
Begins s (x ∷ xs) = x ≡ s

module _ (R : String → String → Type 0) (target : String) where
  -- The list ends at the target, and each node is linked to the next.
  abbrev pub Leads : List String → Type 0
  Leads [] = ⊥
  Leads (x ∷ []) = x ≡ target
  Leads (x ∷ y ∷ r) = R x y × Leads (y ∷ r)

  -- The links in front of a spur node, with the rest taken from the spur path.
  pub Leads-join :
      (b : List String) (s n : String) (r m : List String)
      → Leads (b ++ s ∷ n ∷ r)
      → Leads (s ∷ m)
      → Leads ((b ++ s ∷ []) ++ m)
  Leads-join [] s n r m h k = k
  Leads-join (x ∷ []) s n r m h k = (h.0, k)
  Leads-join (x ∷ y ∷ b) s n r m h k = (h.0, Leads-join (y ∷ b) s n r m h.1 k)

  -- The link that leaves the spur node.
  pub Leads-link :
      (b : List String) (s n : String) (r : List String) → Leads (b ++ s ∷ n ∷ r) → R s n
  Leads-link [] s n r h = h.0
  Leads-link (x ∷ []) s n r h = h.1.0
  Leads-link (x ∷ y ∷ b) s n r h = Leads-link (y ∷ b) s n r h.1

pub Begins-join :
    (b : List String) (s n t : String) (r m : List String)
    → Begins t (b ++ s ∷ n ∷ r)
    → Begins t ((b ++ s ∷ []) ++ m)
Begins-join [] s n t r m h = h
Begins-join (x ∷ b) s n t r m h = h

-- A spur path put onto its root: it begins where the root does and leads to the target.
pub spur-Leads :
    (R : String → String → Type 0) (source target : String) (b : List String) (s n : String)
    (r spur : List String)
    → Begins source (b ++ s ∷ n ∷ r)
    → Leads R target (b ++ s ∷ n ∷ r)
    → Begins s spur
    → Leads R target spur
    → Begins source ((b ++ s ∷ []) ++ tail_of spur) × Leads R target ((b ++ s ∷ []) ++ tail_of spur)
spur-Leads R source target b s n r [] begins leads first way = absurd first
spur-Leads R source target b s n r (x ∷ m) begins leads first way = (
  Begins-join b s n source r m begins,
  Leads-join R target b s n r m leads (subst (λ z. Leads R target (z ∷ m)) first way),
)

pub Leads-map :
    (R R' : String → String → Type 0) (target : String)
    → ((u v : String) → R u v → R' u v)
    → (l : List String) → Leads R target l
    → Leads R' target l
Leads-map R R' target f [] h = h
Leads-map R R' target f (x ∷ []) h = h
Leads-map R R' target f (x ∷ y ∷ r) h = (f x y h.0, Leads-map R R' target f (y ∷ r) h.1)
