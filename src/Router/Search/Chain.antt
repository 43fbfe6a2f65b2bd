-- ===== src/Router/Search/Chain.antt =====
-- The nodes of a walk as a chain of links from the source to the walk's end.
use vibranium_quadsquad.Base.{String, Bool, true, List, [], ◌∷◌, ◌≡◌, has, refl}
use vibranium_quadsquad.Base.Float.{Float}
use vibranium_quadsquad.Router.Search.Walk.{Arc, Walk, here, step, reverse_onto, Walk-known}
use vibranium_quadsquad.Router.Yen.Chains.{Begins, Leads}

module _ (f : Float) {E : Type 0} (nodes : List String) (out : String → List (String × E))
    (usable : String → String → E → Bool) (weight : E → f.F) where
  -- An edge between two nodes of the graph that a search may take.
  pub record Link (u v : String) : Type 0 where
    pub from_known : has u nodes ≡ true
    pub edge : E
    pub arc : Arc f nodes out usable weight u v edge

module _ (f : Float) {E : Type 0} (nodes : List String) (out : String → List (String × E))
    (usable : String → String → E → Bool) (weight : E → f.F) (source : String)
    (source_known : has source nodes ≡ true) where
  Walk-Leads :
      (target v : String) (es : List E) (ns : List String)
      → Walk f nodes out usable weight source v es ns
      → (acc : List String) → Leads (Link f nodes out usable weight) target (v ∷ acc)
      → Leads (Link f nodes out usable weight) target (reverse_onto ns acc)
        × Begins source (reverse_onto ns acc)
  Walk-Leads target _ _ _ (here e) acc h = (h, e)
  Walk-Leads target _ _ _ (step {u} {v} {e} {es} {ns} w a) acc h =
      Walk-Leads target u es ns w (v ∷ acc) (
        record {
          from_known = Walk-known f nodes out usable weight source source_known u es ns w;
          edge = e;
          arc = a;
        },
        h,
      )

  -- The nodes of a walk, first one first, begin at its source and lead to its end.
  pub nodes-Leads :
      (target : String) (es : List E) (ns : List String)
      → Walk f nodes out usable weight source target es ns
      → Begins source (reverse_onto ns [])
        × Leads (Link f nodes out usable weight) target (reverse_onto ns [])
  nodes-Leads target es ns w =
      let (leads, begins) = Walk-Leads target target es ns w [] refl in (begins, leads)
