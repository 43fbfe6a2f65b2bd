-- ===== src/Router/Search/Ends.antt =====
-- Which loops of `dijkstra` end, whatever the weights: no law of floats is used here.
use vibranium_quadsquad.Base.{
  ℕ, zero, suc, ◌+◌, ◌≤◌, ◌<◌, String, Bool, false, some, List, [], ◌∷◌, ◌≡◌, refl, ap, inl, inr,
  arith, has, str_eq, Bool-cases, Option-cases, length,
}
use vibranium_quadsquad.Base.Float.{Float, lt}
use vibranium_quadsquad.Router.Search.{
  Search, visit, pop_min, relax, relax_edge, loop, start, degrees,
}
use vibranium_quadsquad.Router.Search.Heap.{pop_min-Pops}
use vibranium_quadsquad.Router.Search.Loop.{pending, pending-le, pending-visit, pending_nil}

module _ (f : Float) {E : Type 0} (nodes : List String) (out : String → List (String × E))
    (usable : String → String → E → Bool) (weight : E → f.F) where
  pub relax_edge-visited :
      (u v : String) (e : E) (s : Search f.F E)
      → (relax_edge f nodes out usable weight u v e s).visited ≡ s.visited
  unfolding relax_edge
  relax_edge-visited u v e s = elim (Bool-cases (usable u v e)) [
    | inr skip ↦ rw skip refl
    | inl take ↦ elim (Bool-cases (lt f (f.add (s.dist u) (weight e)) (s.dist v))) [
      | inr longer ↦ rw (take, longer) refl
      | inl shorter ↦ rw (take, shorter) refl
    ]
  ]

  relax_edge-queue :
      (u v : String) (e : E) (s : Search f.F E)
      → length (relax_edge f nodes out usable weight u v e s).queue ≤ suc (length s.queue)
  unfolding relax_edge
  relax_edge-queue u v e s = elim (Bool-cases (usable u v e)) [
    | inr skip ↦ rw skip (omega arith)
    | inl take ↦ elim (Bool-cases (lt f (f.add (s.dist u) (weight e)) (s.dist v))) [
      | inr longer ↦ rw (take, longer) (omega arith)
      | inl shorter ↦ rw (take, shorter) (omega arith)
    ]
  ]

  -- A node's neighbours are pushed at most once each, and nothing is marked as visited.
  relax-visited :
      (u : String) (es : List (String × E)) (s : Search f.F E)
      → (relax f nodes out usable weight u es s).visited ≡ s.visited
  unfolding relax
  relax-visited u [] s = refl
  relax-visited u ((v, e) ∷ es) s =
      rw (relax-visited u es (relax_edge f nodes out usable weight u v e s))
        (relax_edge-visited u v e s)

  relax-queue :
      (u : String) (es : List (String × E)) (s : Search f.F E)
      → length (relax f nodes out usable weight u es s).queue ≤ length s.queue + length es
  unfolding relax
  relax-queue u [] s = omega arith
  relax-queue u ((v, e) ∷ es) s = omega (
    arith,
    relax_edge-queue u v e s,
    relax-queue u es (relax_edge f nodes out usable weight u v e s),
  )

  module _ (rooted : (u : String) → has u nodes ≡ false → out u ≡ []) where
    -- A visit takes the node's own edges away from those that are left.
    pending-any :
        (u : String) (vs : List String)
        → has u vs ≡ false
        → pending out (u ∷ vs) nodes + length (out u) ≤ pending out vs nodes
    pending-any u vs new = elim (Bool-cases (has u nodes)) [
      | inl known ↦ pending-visit out u vs nodes new known
      | inr other ↦ omega (arith, pending-le out u vs nodes, ap length (rooted u other))
    ]

    loop-Returns :
        (n : ℕ) (target : String) (s : Search f.F E)
        → length s.queue + pending out s.visited nodes < n
        → (t : Search f.F E) × (loop f nodes out usable weight n target s ≡ some t)
    unfolding loop
    loop-Returns zero target s h = absurd (omega arith)
    loop-Returns (suc n) target s h = elim (Option-cases (pop_min f s.queue)) [
      | inl none_left ↦ (s, ground arith)
      | inr (((u, d), q), popped) ↦
          let shorter = (pop_min-Pops f s.queue q (u, d) popped).shorter in
          elim (Bool-cases (has u s.visited)) [
            | inl old ↦
                let (t, e) = loop-Returns n target (record s { queue = q }) (omega arith) in
                (t, ground arith)
            | inr new ↦ elim (Bool-cases (str_eq u target)) [
              | inl hit ↦ (visit f nodes out usable weight u q s, ground arith)
              | inr miss ↦
                  let at_u = visit f nodes out usable weight u q s in
                  let (t, e) =
                    loop-Returns n target (relax f nodes out usable weight u (out u) at_u) (
                      omega (
                        arith,
                        relax-queue u (out u) at_u,
                        ap (λ vs. pending out vs nodes) (relax-visited u (out u) at_u),
                        pending-any u s.visited new,
                      )) in
                  (t, ground arith)
            ]
          ]
    ]

    -- When only nodes of the graph have edges out of them, the loop ends within its fuel, whatever
    -- the weights, the source and the target.
    pub loop-ends :
        (source target : String)
        → (t : Search f.F E) × (loop f nodes out usable weight
              (suc (suc (degrees f nodes out usable weight nodes)))
              target
              (start f nodes out usable weight source)
            ≡ some t)
    unfolding start
    loop-ends source target =
        loop-Returns _ target (start f nodes out usable weight source)
          (omega (arith, pending_nil f nodes out usable weight nodes))
