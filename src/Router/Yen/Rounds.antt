-- ===== src/Router/Yen/Rounds.antt =====
-- Yen's algorithm ends, and what its lists of paths keep.
use mathlib.Core.List.{append_assoc, append-nil}
use vibranium_quadsquad.Base.{
  ℕ, zero, suc, ◌+◌, ◌≤◌, String, Bool, true, false, Option, some, none, List, [], ◌∷◌, ◌++◌, ◌≡◌,
  ◌≢◌, refl, sym, subst, ◌∙◌, arith, length, length-append, Bool-cases, Option-cases, inl, inr,
}
use vibranium_quadsquad.Base.Float.{Float}
use vibranium_quadsquad.Router.Yen.{
  contains_path, pop_path, offer, candidates, rounds, excluded_edges,
}
use vibranium_quadsquad.Router.Yen.Distinct.{
  All, All-snoc, Absent, Distinct, contains-Absent, Distinct-snoc, pop-All, pop-Distinct,
}

module _ (f : Float) {P : Type 0} (nodes_of : P → List String) (weight_of : P → f.F)
    (combine : List String → P → P) (find : List String → List String → String → Option (Option P))
    (done : ℕ → Bool) (Good : P → Type 0) where
  -- A search from a spur node ends, and what it finds is good once it is put onto the root.
  pub data Extends (o : Option (Option P)) (root : List String) : Type 0 where
    nothing : o ≡ some none → Extends o root
    spur_path : (p : P) → o ≡ some (some p) → Good (combine root p) → Extends o root

  abbrev pub Extendable : Type 0
  Extendable =
      (last : P) (before : List String) (spur next : String) (rest excluded : List String)
      → Good last
      → nodes_of last ≡ before ++ spur ∷ next ∷ rest
      → Extends (find excluded before spur) (before ++ spur ∷ [])

  pub record Ok (A B : List P) : Type 0 where
    pub good : All Good A
    pub good_candidates : All Good B
    pub distinct : Distinct f nodes_of weight_of A
    pub distinct_candidates : Distinct f nodes_of weight_of B
    pub apart : All (λ q. Absent f nodes_of weight_of q A) B

  offer-Ok :
      (A B : List P) (root : List String) (r : Option P)
      → Ok A B
      → ((p : P) → r ≡ some p → Good (combine root p))
      → Ok A (offer f nodes_of weight_of combine find done A B root r)
  unfolding offer
  offer-Ok A B root none s g = s
  offer-Ok A B root (some p) s g =
      elim (Bool-cases (contains_path f nodes_of weight_of A (combine root p))) [
        | inl seen ↦ rw seen s
        | inr new ↦ elim (Bool-cases (contains_path f nodes_of weight_of B (combine root p))) [
          | inl waiting ↦ rw (new, waiting) s
          | inr fresh ↦
              rw (new, fresh)
                (record {
                  good = s.good;
                  good_candidates = (g p refl, s.good_candidates);
                  distinct = s.distinct;
                  distinct_candidates = (
                    contains-Absent f nodes_of weight_of B (combine root p) fresh,
                    s.distinct_candidates,
                  );
                  apart = (contains-Absent f nodes_of weight_of A (combine root p) new, s.apart);
                })
        ]
      ]

  candidates-Ok :
      Extendable
      → (last : P) → Good last
      → (A B : List P) (before ns : List String) → nodes_of last ≡ before ++ ns
      → Ok A B
      → (B' : List P) × (candidates f nodes_of weight_of combine find done A B before ns ≡ some B')
        × Ok A B'
  unfolding candidates
  candidates-Ok ext last h A B before [] e s = (B, refl, s)
  candidates-Ok ext last h A B before (spur ∷ []) e s = (B, refl, s)
  candidates-Ok ext last h A B before (spur ∷ next ∷ rest) e s =
      let root : List String = before ++ spur ∷ [] in
      let excluded = excluded_edges f nodes_of weight_of A (length before) root in
      let e' : nodes_of last ≡ root ++ next ∷ rest =
        e ∙ sym (append_assoc before (spur ∷ []) (next ∷ rest)) in
      elim (ext last before spur next rest excluded h e) [
        | nothing k ↦
            rw (k, candidates)
              (candidates-Ok ext last h A
                (offer f nodes_of weight_of combine find done A B root none) root (next ∷ rest) e'
                (offer-Ok A B root none s (λ p z. absurd (ground arith))))
        | spur_path p k g ↦
            rw (k, candidates)
              (candidates-Ok ext last h A
                (offer f nodes_of weight_of combine find done A B root (some p)) root (next ∷ rest)
                e'
                (offer-Ok A B root (some p) s
                  (λ q z. subst (λ (x : P). Good (combine root x)) (ground arith) g)))
      ]

  -- What the main loop returns.
  pub record Returns (n : ℕ) (A : List P) (o : Option (List P × Bool)) : Type 0 where
    pub paths : List P
    pub more : List P
    pub cancelled : Bool
    pub returned : o ≡ some (paths, cancelled)
    pub kept : paths ≡ A ++ more
    pub all_good : All Good paths
    pub all_distinct : Distinct f nodes_of weight_of paths
    pub at_most : length paths ≤ length A + n

  stop : (n : ℕ) (A B : List P) (b : Bool) → Ok A B → Returns n A (some (A, b))
  stop n A B b s = record {
    paths = A;
    more = [];
    cancelled = b;
    returned = refl;
    kept = sym (append-nil A);
    all_good = s.good;
    all_distinct = s.distinct;
    at_most = omega arith;
  }

  taken-Ok :
      (A B : List P) (b : P) (r : List P)
      → pop_path f nodes_of weight_of B ≡ some (b, r)
      → Ok A B
      → Ok (A ++ b ∷ []) r × Good b
  taken-Ok A B b r e s =
      let (g, gs) = pop-All f nodes_of weight_of Good B b r e s.good_candidates in
      let (a, as_) =
        pop-All f nodes_of weight_of (λ q. Absent f nodes_of weight_of q A) B b r e s.apart in
      let (away, d) = pop-Distinct f nodes_of weight_of B b r e s.distinct_candidates in
      (
        record {
          good = All-snoc Good A b s.good g;
          good_candidates = gs;
          distinct = Distinct-snoc f nodes_of weight_of A b s.distinct a;
          distinct_candidates = d;
          apart = still_apart A b r as_ away;
        },
        g,
      )
    where
      still_apart :
          (A : List P) (b : P) (r : List P)
          → All (λ q. Absent f nodes_of weight_of q A) r
          → Absent f nodes_of weight_of b r
          → All (λ q. Absent f nodes_of weight_of q (A ++ b ∷ [])) r
      still_apart A b [] h k = tt
      still_apart A b (q ∷ r) h k = (
        All-snoc (λ x. nodes_of x ≢ nodes_of q) A b h.0 (λ z. k.0 (sym z)),
        still_apart A b r h.1 k.1,
      )

  Returns-suc :
      (n : ℕ) (A : List P) (b : P) (o : Option (List P × Bool))
      → Returns n (A ++ b ∷ []) o
      → Returns (suc n) A o
  Returns-suc n A b o r = record {
    paths = r.paths;
    more = b ∷ r.more;
    cancelled = r.cancelled;
    returned = r.returned;
    kept = r.kept ∙ append_assoc A (b ∷ []) r.more;
    all_good = r.all_good;
    all_distinct = r.all_distinct;
    at_most = omega (arith, r.at_most, length-append A (b ∷ []));
  }

  pub rounds-Returns :
      Extendable
      → (n : ℕ) (A B : List P) (last : P) → Good last
      → Ok A B
      → Returns n A (rounds f nodes_of weight_of combine find done n A B last)
  unfolding rounds
  rounds-Returns ext zero A B last h s = stop 0 A B false s
  rounds-Returns ext (suc n) A B last h s =
      let (B', e, s') = candidates-Ok ext last h A B [] (nodes_of last) refl s in
      elim (Bool-cases (done n)) [
        | inl out ↦ rw out (stop (suc n) A B true s)
        | inr on ↦ elim (Option-cases (pop_path f nodes_of weight_of B')) [
          | inl empty ↦ rw (on, e, empty) (stop (suc n) A B false s)
          | inr ((b, r), k) ↦
              let (s'', g) = taken-Ok A B' b r k s' in
              rw (on, e, k) (Returns-suc n A b _ (rounds-Returns ext n (A ++ b ∷ []) r b g s''))
        ]
      ]
