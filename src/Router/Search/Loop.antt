-- ===== src/Router/Search/Loop.antt =====
-- The main loop: its fuel is enough, and what holds when it ends.
use vibranium_quadsquad.Base.{
  ℕ, zero, suc, ◌+◌, ◌≤◌, ◌<◌, String, Bool, true, false, some, List, [], ◌∷◌, ◌≡◌, refl, sym, ap,
  subst, inl, inr, arith, has, str_eq, eq_iff, Bool-cases, Option-cases, length, if◌then◌else◌,
}
use vibranium_quadsquad.Base.Float.{Float, AddLaws}
use vibranium_quadsquad.Router.Search.{Search, visit, pop_min, relax, loop, start, degrees}
use vibranium_quadsquad.Router.Search.Walk.{In}
use vibranium_quadsquad.Router.Search.Heap.{Pops, pop_min-none, pop_min-Pops}
use vibranium_quadsquad.Router.Search.Invariant.{Inv, start-Inv}
use vibranium_quadsquad.Router.Search.Relax.{IsPositive, Relaxed, relax-Relaxed}
use vibranium_quadsquad.Router.Search.Visit.{
  skip-Inv, visit-Inv, visit-Active, rest-far, visited_cases,
}

-- The edges out of the nodes that are not visited yet.
module _ {E : Type 0} (out : String → List (String × E)) where
  pub pending : List String → List String → ℕ
  pending vs [] = 0
  pending vs (n ∷ ns) = (if has n vs then 0 else length (out n)) + pending vs ns

  pub pending-le : (u : String) (vs ns : List String) → pending (u ∷ vs) ns ≤ pending vs ns
  unfolding pending
  pending-le u vs [] = omega arith
  pending-le u vs (n ∷ ns) = ground (arith, pending-le u vs ns)

  -- A visit takes the node's own edges away.
  pub pending-visit :
      (u : String) (vs ns : List String)
      → has u vs ≡ false
      → has u ns ≡ true
      → pending (u ∷ vs) ns + length (out u) ≤ pending vs ns
  unfolding pending
  pending-visit u vs [] h k = absurd (ground arith)
  pending-visit u vs (n ∷ ns) h k = elim (Bool-cases (str_eq n u)) [
    | inl same ↦ ground (
      arith,
      eq_iff n u,
      eq_iff u n,
      pending-le u vs ns,
      ap (λ z. length (out z)) ((eq_iff n u).0 same),
      ap (λ z. has z vs) ((eq_iff n u).0 same),
    )
    | inr other ↦ ground (arith, eq_iff n u, eq_iff u n, pending-visit u vs ns h)
  ]

module _ (f : Float) {E : Type 0} (nodes : List String) (out : String → List (String × E))
    (usable : String → String → E → Bool) (weight : E → f.F) where
  pub pending_nil : (ns : List String) → pending out [] ns ≡ degrees f nodes out usable weight ns
  unfolding pending
  pending_nil [] = refl
  pending_nil (n ∷ ns) = omega (arith, pending_nil ns)

module _ (f : Float) {E : Type 0} (nodes : List String) (out : String → List (String × E))
    (usable : String → String → E → Bool) (weight : E → f.F) (source : String) (laws : AddLaws f)
    (positive : IsPositive f nodes out usable weight source laws) where
  -- Every edge out of a visited node, but for those of `target`, has been looked at.
  abbrev pub Closed : (String → Type 0) → Search f.F E → Type 0
  Closed open_ s =
      (u v : String) (e : E)
      → has u s.visited ≡ true
      → ¬ open_ u
      → In (v, e) (out u)
      → usable u v e ≡ true
      → f.rank (s.dist v) ≤ f.rank (f.add (s.dist u) (weight e))

  -- What holds when the loop ends.
  pub record Final (target : String) (s : Search f.F E) : Type 0 where
    pub inv : Inv f nodes out usable weight source s
    pub closed : Closed (λ u. u ≡ target) s
    pub beyond :
        (x : String) (d : f.F)
        → In (x, d) s.queue
        → (has target s.visited ≡ true) × (f.rank (s.dist target) ≤ f.rank d)

  Ends : ℕ → String → Search f.F E → Type 0
  Ends n target s =
      (t : Search f.F E) × (loop f nodes out usable weight n target s ≡ some t) × Final target t

  abbrev measure : Search f.F E → ℕ
  measure s = length s.queue + pending out s.visited nodes

  expanded : String → List (String × f.F) → Search f.F E → Search f.F E
  expanded u q s = relax f nodes out usable weight u (out u) (visit f nodes out usable weight u q s)

  module _ (s : Search f.F E) (inv : Inv f nodes out usable weight source s)
      (closed : Closed (λ _. ⊥) s) (u : String) (d : f.F) (q : List (String × f.F))
      (pops : Pops f s.queue (u, d) q) (new : has u s.visited ≡ false) where
    expanded-Relaxed :
        Relaxed f nodes out usable weight source laws u
          (out u)
          (visit f nodes out usable weight u q s)
          (expanded u q s)
    unfolding expanded
    expanded-Relaxed =
        relax-Relaxed f nodes out usable weight source laws u (out u)
          (visit f nodes out usable weight u q s)
          (visit-Inv f nodes out usable weight source s inv u d q pops new)
          (visit-Active f nodes out usable weight source s inv u d q pops new) (λ v e m. m) positive

    -- The edges of `u` are looked at now.
    now_closed :
        (w v : String) (e : E)
        → u ≡ w
        → In (v, e) (out w)
        → usable w v e ≡ true
        → f.rank ((expanded u q s).dist v) ≤ f.rank (f.add ((expanded u q s).dist w) (weight e))
    now_closed w v e same =
        let r = expanded-Relaxed in
        subst
          (λ (z : String).
            In (v, e) (out z)
            → usable z v e ≡ true
            → f.rank ((expanded u q s).dist v)
              ≤ f.rank (f.add ((expanded u q s).dist z) (weight e)))
          same
          λ m a.
            subst (λ (y : f.F). f.rank ((expanded u q s).dist v) ≤ f.rank (f.add y (weight e)))
              (sym (r.kept u (ground (arith, eq_iff u u)))) (r.done v e m a)

    expanded-Closed : Closed (λ _. ⊥) (expanded u q s)
    expanded-Closed w v e y shut m a =
        let r = expanded-Relaxed in
        let y' : has w (u ∷ s.visited) ≡ true =
          subst (λ (vs : List String). has w vs ≡ true) r.same_visited y in
        elim (visited_cases f nodes out usable weight source s inv u d q pops w y') [
          | inl same ↦ now_closed w v e same m a
          | inr old ↦
              subst (λ (z : f.F). f.rank ((expanded u q s).dist v) ≤ f.rank (f.add z (weight e)))
                (sym (r.kept w y')) (omega (arith, r.lower v, closed w v e old (λ b. b) m a))
        ]

    expanded-measure : suc (measure (expanded u q s)) ≤ measure s
    expanded-measure =
        let r = expanded-Relaxed in
        omega (
          arith,
          r.grown,
          pops.shorter,
          ap (λ (vs : List String). pending out vs nodes) r.same_visited,
          pending-visit out u s.visited nodes new (inv.queued u d pops.inside).known,
        )

    stop-Final : Final u (visit f nodes out usable weight u q s)
    stop-Final = record {
      inv = visit-Inv f nodes out usable weight source s inv u d q pops new;
      closed = λ w v e y ne m a.
          elim (visited_cases f nodes out usable weight source s inv u d q pops w y) [
            | inl same ↦ absurd (ne (sym same))
            | inr old ↦ closed w v e old (λ b. b) m a
          ];
      beyond = λ x c m. (
        ground (arith, eq_iff u u),
        rest-far f nodes out usable weight source s inv u d q pops x c m,
      );
    }

  -- Enough fuel for the queue and the edges that are left ends the loop.
  loop-Ends :
      (n : ℕ) (target : String) (s : Search f.F E)
      → Inv f nodes out usable weight source s
      → Closed (λ _. ⊥) s
      → measure s < n
      → Ends n target s
  unfolding loop Ends expanded
  loop-Ends zero target s inv closed h = absurd (omega arith)
  loop-Ends (suc n) target s inv closed h = elim (Option-cases (pop_min f s.queue)) [
    | inl none_left ↦ (
      s,
      ground arith,
      record {
        inv = inv;
        closed = λ u v e y ne m a. closed u v e y (λ b. b) m a;
        beyond = λ x d m.
            absurd (
              subst (λ (l : List (String × f.F)). In (x, d) l) (pop_min-none f s.queue none_left)
                m);
      },
    )
    | inr (((u, d), q), popped) ↦
        let pops : Pops f s.queue (u, d) q = pop_min-Pops f s.queue q (u, d) popped in
        elim (Bool-cases (has u s.visited)) [
          | inl old ↦
              let (t, e, final) =
                loop-Ends n target (record s { queue = q })
                  (skip-Inv f nodes out usable weight source s inv u d q pops old) closed
                  (omega (arith, pops.shorter)) in
              (t, ground arith, final)
          | inr new ↦ elim (Bool-cases (str_eq u target)) [
            | inl hit ↦ (
              visit f nodes out usable weight u q s,
              ground arith,
              subst (λ (z : String). Final z (visit f nodes out usable weight u q s))
                  ((eq_iff u target).0 hit) (stop-Final s inv closed u d q pops new),
            )
            | inr miss ↦
                let (t, e, final) =
                  loop-Ends n target (expanded u q s)
                    (expanded-Relaxed s inv closed u d q pops new).inv
                    (expanded-Closed s inv closed u d q pops new)
                    (omega (arith, expanded-measure s inv closed u d q pops new)) in
                (t, ground arith, final)
          ]
        ]
  ]

  -- The search ends within the fuel that it is given.
  pub search_loop-ends :
      (target : String)
      → has source nodes ≡ true
      → (t : Search f.F E) × (loop f nodes out usable weight
            (suc (suc (degrees f nodes out usable weight nodes)))
            target
            (start f nodes out usable weight source)
          ≡ some t)
        × Final target t
  unfolding Ends start
  search_loop-ends target h =
      loop-Ends _ target (start f nodes out usable weight source)
        (start-Inv f nodes out usable weight source laws h) (λ u v e y. absurd (ground arith))
        (omega (arith, pending_nil f nodes out usable weight nodes))
