-- ===== src/Payments/Run/Others.antt =====
-- What the operations on one transaction leave of the store, whatever state it is in: the transaction
-- is still there, and no other is touched.
use vibranium_quadsquad.Base.{
  ℕ, ◌+◌, ◌≡◌, ◌≢◌, refl, ◌∙◌, inl, inr, String, Bool, true, false, if◌then◌else◌, List, [], ◌∷◌,
  ◌++◌, none, some, arith, lookup, insert, lookup-insert, eq_iff, Option-cases, Bool-cases,
}
use vibranium_quadsquad.Base.Float.{Float}
use vibranium_quadsquad.Payments.{
  Store, Transaction, Tick, HopResult, pending, success, failed, modify, set_transaction_failed,
  note_hop, complete, hops, hop_result, fails, run_from, start_of, is_pending,
  process_transaction_with_route, reset_transaction_for_retry,
}
use vibranium_quadsquad.Payments.Run.Hops.{lookup-modify}

module _ (f : Float) (id : String) where
  abbrev pub Held : Store f.F → Type 0
  Held s = (t : Transaction f.F) × (lookup id s.transactions ≡ some t)

  pub record Touches (s s' : Store f.F) : Type 0 where
    pub held : Held s → Held s'
    pub others : (j : String) → id ≢ j → lookup j s'.transactions ≡ lookup j s.transactions

  pub Touches-refl : (s : Store f.F) → Touches s s
  Touches-refl s = record { held = λ h. h; others = λ j ne. refl }

  pub Touches-trans : (a b c : Store f.F) → Touches a b → Touches b c → Touches a c
  Touches-trans a b c p q = record {
    held = λ h. q.held (p.held h);
    others = λ j ne. q.others j ne ∙ p.others j ne;
  }

  pub modify-Touches :
      (s : Store f.F) (change : Transaction f.F → Transaction f.F)
      → Touches s (modify f s id change)
  modify-Touches s change = elim (Option-cases (lookup id s.transactions)) [
    | inl e ↦ rw (e, modify) (Touches-refl s)
    | inr (t, e) ↦ record {
      held = λ h. (change t, ground (arith, lookup-modify f s id id change t e, eq_iff id id));
      others = λ j ne. ground (arith, lookup-modify f s id j change t e, eq_iff id j, ne);
    }
  ]

  note_hop-Touches : (s : Store f.F) (i : ℕ) (h : HopResult f.F) → Touches s (note_hop f s id i h)
  unfolding note_hop
  note_hop-Touches s i h =
      let change : Transaction f.F → Transaction f.F =
        λ t. record t { hop_results = t.hop_results ++ h ∷ []; hops_completed = i + 1 } in
      let m = modify-Touches s change in
      let s' : Store f.F = modify f s id change in
      let told : Store f.F = record s' {
        credibility = s'.credibility ++ (h.to_country, h.is_success) ∷ [];
      } in
      elim s.has_callback as (λ b. Touches s (if b then told else s')) [
        | true ↦ record { held = m.held; others = m.others }
        | false ↦ m
      ]

  set_transaction_failed-Touches :
      (s : Store f.F) (place : String) (now : ℕ)
      → Touches s (set_transaction_failed f s id place now)
  unfolding set_transaction_failed
  set_transaction_failed-Touches s place now =
      modify-Touches s λ t. record t { status = failed; failed_at = place; completed_at = some now }

  complete-Touches :
      (s : Store f.F) (now : ℕ) (amount : f.F) → Touches s (complete f s id now amount)
  unfolding complete
  complete-Touches s now amount =
      modify-Touches s
        λ t. record t { status = success; completed_at = some now; final_amount = amount }

  pub reset_transaction_for_retry-Touches :
      (s : Store f.F) → Touches s (reset_transaction_for_retry f s id)
  unfolding reset_transaction_for_retry
  reset_transaction_for_retry-Touches s = modify-Touches s λ t. record t {
    status = pending;
    hop_results = [];
    hops_completed = 0;
    failed_at = "";
    processed_at = none;
    completed_at = none;
  }

  hops-Touches :
      (rates : List (String × f.F)) (fee chance : f.F) (world : ℕ → Tick) (route : List String)
      (s : Store f.F) (i : ℕ) (current : f.F)
      → Touches s (hops f id rates fee chance world s i current route).1
  unfolding hops
  hops-Touches rates fee chance world [] s i current = complete-Touches s (world i).time current
  hops-Touches rates fee chance world (from ∷ []) s i current =
      complete-Touches s (world i).time current
  hops-Touches rates fee chance world (from ∷ to ∷ rest) s i current =
      let h : Bool → HopResult f.F = λ b. hop_result f rates fee current from to b (world i) in
      let noted : Bool → Store f.F = λ b. note_hop f s id i (h b) in
      elim (Bool-cases (world i).cancelled) [
        | inl stopped ↦ rw stopped (set_transaction_failed-Touches s from (world i).time)
        | inr going ↦ elim (Bool-cases (fails f chance (world i))) [
          | inl lost ↦
              rw (going, lost)
                (Touches-trans s (noted true)
                  (set_transaction_failed f (noted true) id to (world i).time)
                  (note_hop-Touches s i (h true))
                  (set_transaction_failed-Touches (noted true) to (world i).time))
          | inr passed ↦
              rw (going, passed)
                (Touches-trans s (noted false)
                  (hops f id rates fee chance world (noted false) (i + 1) (f.sub current fee)
                    (to ∷ rest)).1
                  (note_hop-Touches s i (h false))
                  (hops-Touches rates fee chance world (to ∷ rest) (noted false) (i + 1)
                    (f.sub current fee)))
        ]
      ]

  run_from-Touches :
      (s : Store f.F) (rates : List (String × f.F)) (chance : f.F) (world : ℕ → Tick)
      (t t' : Transaction f.F)
      → lookup id s.transactions ≡ some t
      → Touches s (run_from f s id rates chance world t').1
  run_from-Touches s rates chance world t t' e =
      let started : Store f.F = record s { transactions = insert id t' s.transactions } in
      Touches-trans s started (run_from f s id rates chance world t').1
        (record {
          held = λ h. (t', ground (arith, lookup-insert id id t' s.transactions, eq_iff id id));
          others = λ j ne. ground (arith, lookup-insert id j t' s.transactions, eq_iff id j, ne);
        })
        (hops-Touches rates (f.mul t'.amount s.fee_config.hop_fee_percent) chance world t'.route
          started 0 (f.sub t'.amount t'.total_fees))

  pub with_route-Touches :
      (s : Store f.F) (now : ℕ) (route : List String) (rates : List (String × f.F)) (chance : f.F)
      (world : ℕ → Tick)
      → Touches s (process_transaction_with_route f s id now route rates chance world).1
  unfolding process_transaction_with_route
  with_route-Touches s now route rates chance world =
      elim (Option-cases (lookup id s.transactions)) [
        | inl e ↦ rw (e, process_transaction_with_route) (Touches-refl s)
        | inr (t, e) ↦
            rw (e, process_transaction_with_route)
              (elim (Bool-cases (is_pending t.status)) [
                | inl p ↦ rw p (
                    run_from-Touches s rates chance world t
                      (record (start_of f t now) { route = route }) e)
                | inr p ↦ rw p (Touches-refl s)
              ])
      ]
