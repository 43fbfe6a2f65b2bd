-- ===== src/Payments/Run/Hops.antt =====
-- The loop over the hops of a payment: how it ends, and what is left of the amount.
use vibranium_quadsquad.Base.{
  ℕ, zero, suc, ◌+◌, ◌-◌, ◌≤◌, ◌≡◌, ◌≢◌, refl, sym, ap, ◌∙◌, ◌⊎◌, inl, inr, String, Bool, true,
  false, Option, List, [], ◌∷◌, ◌++◌, none, some, arith, length, length-append, lookup,
  lookup-insert, eq_iff, str_eq, if◌then◌else◌, Bool-cases, Option-cases,
}
use vibranium_quadsquad.Base.Float.{Float}
use vibranium_quadsquad.Payments.{
  Store, Transaction, HopResult, Error, Tick, processing, success, failed, context_cancelled,
  payment_failed, modify, set_transaction_failed, note_hop, complete, hops, hop_result, fails,
}

module _ (f : Float) where
  pub lookup-modify :
      (s : Store f.F) (id j : String) (change : Transaction f.F → Transaction f.F)
      (t : Transaction f.F)
      → lookup id s.transactions ≡ some t
      → lookup j (modify f s id change).transactions
        ≡ (if str_eq id j then some (change t) else lookup j s.transactions)
  lookup-modify s id j change t h = ground (arith, lookup-insert id j (change t) s.transactions)

  -- What is left after `n` hops.
  pub after_hops : f.F → ℕ → f.F → f.F
  after_hops fee zero a = a
  after_hops fee (suc n) a = after_hops fee n (f.sub a fee)

  -- A payment under way before hop `i`.
  pub record UnderWay (i : ℕ) (t : Transaction f.F) : Type 0 where
    pub running : t.status ≡ processing
    pub so_far : t.hops_completed ≡ i
    pub logged : length t.hop_results ≡ i

  -- How a run with `n` hops in all ends, `m` of them and `current` being left: all hops done and
  -- their fees taken, or failed.
  pub record Succeeds (n m : ℕ) (fee current : f.F) (t : Transaction f.F) : Type 0 where
    pub succeeded : t.status ≡ success
    pub left : t.final_amount ≡ after_hops fee m current
    pub all_done : t.hops_completed ≡ n
    pub all_logged : length t.hop_results ≡ n

  pub record Fails (n : ℕ) (t : Transaction f.F) : Type 0 where
    pub has_failed : t.status ≡ failed
    pub within : t.hops_completed ≤ n
    pub logged : length t.hop_results ≡ t.hops_completed

  abbrev pub Ends : ℕ → ℕ → f.F → f.F → Option Error → Transaction f.F → Type 0
  Ends n m fee current e t =
      ((e ≡ none) × Succeeds n m fee current t) ⊎ (((x : Error) × (e ≡ some x)) × Fails n t)

  -- A write changes no other transaction.
  lookup-modify_ne :
      (s : Store f.F) (id j : String) (change : Transaction f.F → Transaction f.F)
      → id ≢ j
      → lookup j (modify f s id change).transactions ≡ lookup j s.transactions
  lookup-modify_ne s id j change ne = elim (Option-cases (lookup id s.transactions)) [
    | inl e ↦ ground arith
    | inr (t, e) ↦ ground (arith, lookup-modify s id j change t e, eq_iff id j)
  ]

  lookup-modify_self :
      (s : Store f.F) (id : String) (change : Transaction f.F → Transaction f.F)
      (t : Transaction f.F)
      → lookup id s.transactions ≡ some t
      → lookup id (modify f s id change).transactions ≡ some (change t)
  lookup-modify_self s id change t h =
      ground (arith, lookup-modify s id id change t h, eq_iff id id)

  noted : ℕ → HopResult f.F → Transaction f.F → Transaction f.F
  noted i h t = record t { hop_results = t.hop_results ++ h ∷ []; hops_completed = i + 1 }

  note_hop-lookup :
      (s : Store f.F) (id : String) (i : ℕ) (h : HopResult f.F) (t : Transaction f.F)
      → lookup id s.transactions ≡ some t
      → lookup id (note_hop f s id i h).transactions ≡ some (noted i h t)
  unfolding note_hop noted
  note_hop-lookup s id i h t e = ground (arith, lookup-modify_self s id (noted i h) t e)

  note_hop-lookup_ne :
      (s : Store f.F) (id j : String) (i : ℕ) (h : HopResult f.F)
      → id ≢ j
      → lookup j (note_hop f s id i h).transactions ≡ lookup j s.transactions
  unfolding note_hop noted
  note_hop-lookup_ne s id j i h ne = ground (arith, lookup-modify_ne s id j (noted i h) ne)

  noted-UnderWay :
      (i : ℕ) (h : HopResult f.F) (t : Transaction f.F)
      → UnderWay i t
      → UnderWay (i + 1) (noted i h t)
  unfolding noted
  noted-UnderWay i h t w = record {
    running = w.running;
    so_far = refl;
    logged = omega (arith, length-append t.hop_results (h ∷ []), w.logged);
  }

  module _ (id : String) (rates : List (String × f.F)) (fee chance : f.F) (world : ℕ → Tick) where
    -- What a run leaves in the store: the transaction as it ends, and all others as they were.
    abbrev pub Leaves : ℕ → f.F → Store f.F → (Option Error) × Store f.F → Type 0
    Leaves n current s r =
        (t' : Transaction f.F) × ((j : String)
          → lookup j r.1.transactions ≡ (if str_eq id j then some t' else lookup j s.transactions))
        × Ends n n fee current r.0 t'

    -- The same of the rest of a run, with `m` of its `n` hops to go.
    abbrev LeavesRest : ℕ → ℕ → f.F → Store f.F → (Option Error) × Store f.F → Type 0
    LeavesRest n m current s r =
        ((t' : Transaction f.F) × (lookup id r.1.transactions ≡ some t')
          × Ends n m fee current r.0 t')
        × ((j : String) → id ≢ j → lookup j r.1.transactions ≡ lookup j s.transactions)

    complete-LeavesRest :
        (s s₀ : Store f.F) (i n m now : ℕ) (current : f.F) (t : Transaction f.F)
        → lookup id s.transactions ≡ some t
        → UnderWay i t
        → m ≡ 0
        → i + m ≡ n
        → ((j : String) → id ≢ j → lookup j s.transactions ≡ lookup j s₀.transactions)
        → LeavesRest n m current s₀ (none, complete f s id now current)
    unfolding complete after_hops
    complete-LeavesRest s s₀ i n m now current t h w e e' others =
        let change : Transaction f.F → Transaction f.F =
          λ t'. record t' { status = success; completed_at = some now; final_amount = current } in
        (
          (
            change t,
            lookup-modify_self s id change t h,
            inl (
              refl,
              record {
                succeeded = refl;
                left = rw e;
                all_done = omega (arith, w.so_far);
                all_logged = omega (arith, w.logged);
              },
            ),
          ),
          λ j ne. lookup-modify_ne s id j change ne ∙ others j ne,
        )

    failed-LeavesRest :
        (s s₀ : Store f.F) (i n m now : ℕ) (current : f.F) (t : Transaction f.F) (x : Error)
        (place : String)
        → lookup id s.transactions ≡ some t
        → UnderWay i t
        → i ≤ n
        → ((j : String) → id ≢ j → lookup j s.transactions ≡ lookup j s₀.transactions)
        → LeavesRest n m current s₀ (some x, set_transaction_failed f s id place now)
    unfolding set_transaction_failed
    failed-LeavesRest s s₀ i n m now current t x place h w le others = (
      (
        record t { status = failed; failed_at = place; completed_at = some now },
        lookup-modify_self s id
            (λ t'. record t' { status = failed; failed_at = place; completed_at = some now }) t h,
        inr (
          (x, refl),
          record {
            has_failed = refl;
            within = omega (arith, w.so_far);
            logged = w.logged ∙ sym w.so_far;
          },
        ),
      ),
      λ j ne.
          lookup-modify_ne s id j
            (λ t'. record t' { status = failed; failed_at = place; completed_at = some now }) ne
          ∙ others j ne,
    )

    LeavesRest-suc :
        (n m k : ℕ) (current : f.F) (s : Store f.F) (r : (Option Error) × Store f.F)
        → m ≡ suc k
        → LeavesRest n k (f.sub current fee) s r
        → LeavesRest n m current s r
    unfolding after_hops
    LeavesRest-suc n m k current s r e ((t, found, inl (ok, p)), others) = (
      (
        t,
        found,
        inl (
          ok,
          record {
            succeeded = p.succeeded;
            left = p.left ∙ ap (λ z. after_hops fee z current) (sym e);
            all_done = p.all_done;
            all_logged = p.all_logged;
          },
        ),
      ),
      others,
    )
    LeavesRest-suc n m k current s r e ((t, found, inr q), others) = ((t, found, inr q), others)

    pub hops-LeavesRest :
        (route : List String) (s s₀ : Store f.F) (i n m : ℕ) (current : f.F) (t : Transaction f.F)
        → lookup id s.transactions ≡ some t
        → UnderWay i t
        → m ≡ length route - 1
        → i + m ≡ n
        → ((j : String) → id ≢ j → lookup j s.transactions ≡ lookup j s₀.transactions)
        → LeavesRest n m current s₀ (hops f id rates fee chance world s i current route)
    unfolding hops
    hops-LeavesRest [] s s₀ i n m current t h w e e' others =
        complete-LeavesRest s s₀ i n m (world i).time current t h w (omega arith) e' others
    hops-LeavesRest (from ∷ []) s s₀ i n m current t h w e e' others =
        complete-LeavesRest s s₀ i n m (world i).time current t h w (omega arith) e' others
    hops-LeavesRest (from ∷ to ∷ rest) s s₀ i n m current t h w e e' others =
        let out : Bool → HopResult f.F = λ b. hop_result f rates fee current from to b (world i) in
        elim (Bool-cases (world i).cancelled) [
          | inl stopped ↦ rw stopped (
              failed-LeavesRest s s₀ i n m (world i).time current t context_cancelled from h w
                (omega arith) others)
          | inr going ↦ elim (Bool-cases (fails f chance (world i))) [
            | inl lost ↦
                rw (going, lost)
                  (failed-LeavesRest (note_hop f s id i (out true)) s₀ (i + 1) n m (world i).time
                    current (noted i (out true) t) (payment_failed to "node timeout") to
                    (note_hop-lookup s id i (out true) t h) (noted-UnderWay i (out true) t w)
                    (omega arith) λ j ne. note_hop-lookup_ne s id j i (out true) ne ∙ others j ne)
            | inr passed ↦
                rw (going, passed)
                  (LeavesRest-suc n m (length rest) current s₀
                    (hops f id rates fee chance world (note_hop f s id i (out false)) (i + 1)
                      (f.sub current fee) (to ∷ rest))
                    (omega arith)
                    (hops-LeavesRest (to ∷ rest) (note_hop f s id i (out false)) s₀ (i + 1) n
                      (length rest) (f.sub current fee) (noted i (out false) t)
                      (note_hop-lookup s id i (out false) t h) (noted-UnderWay i (out false) t w)
                      (omega arith) (omega arith)
                      λ j ne. note_hop-lookup_ne s id j i (out false) ne ∙ others j ne))
          ]
        ]

    pub LeavesRest-Leaves :
        (n : ℕ) (current : f.F) (s : Store f.F) (r : (Option Error) × Store f.F)
        → LeavesRest n n current s r
        → Leaves n current s r
    LeavesRest-Leaves n current s r ((t, found, ends), others) = (
      t,
      λ j. elim (Bool-cases (str_eq id j)) [
        | inl same ↦
            ground (arith, found, ap (λ z. lookup z r.1.transactions) ((eq_iff id j).0 same))
        | inr other ↦ ground (arith, others j λ e. ground (arith, eq_iff id j))
      ],
      ends,
    )
