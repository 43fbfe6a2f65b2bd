-- ===== src/Payments/Run.antt =====
-- The operations that run a payment, and a payment that is made again.
pub mod Hops
pub mod Others
use vibranium_quadsquad.Base.{
  ℕ, zero, suc, ◌+◌, ◌-◌, ◌≤◌, ◌≡◌, ◌≢◌, refl, sym, ap, subst, ◌∙◌, ◌⊎◌, inl, inr, String, Bool,
  true, false, Option, List, [], ◌∷◌, ◌++◌, none, some, arith, length, length-append, lookup,
  insert, lookup-insert, eq_iff, str_eq, if◌then◌else◌, Bool-cases, Option-cases,
}
use vibranium_quadsquad.Base.Float.{Float}
use vibranium_quadsquad.Payments.{
  Store, Transaction, HopResult, Error, Tick, pending, processing, success, failed,
  already_processed, context_cancelled, payment_failed, modify, set_transaction_failed, note_hop,
  complete, hops, hop_result, fails, run_from, start_of, process_transaction,
  process_transaction_with_route, reset_transaction_for_retry, get_transaction,
}
use vibranium_quadsquad.Payments.Run.Hops.{
  Leaves, LeavesRest-Leaves, hops-LeavesRest, lookup-modify, UnderWay, Ends, Succeeds, Fails,
}

module _ (f : Float) where
  module _ (s : Store f.F) (id : String) (now : ℕ) (rates : List (String × f.F)) (chance : f.F)
      (world : ℕ → Tick) (t : Transaction f.F) (stored : lookup id s.transactions ≡ some t) where
    started-Leaves :
        (t' : Transaction f.F)
        → UnderWay f 0 t'
        → Leaves f id rates
            (f.mul t'.amount s.fee_config.hop_fee_percent)
            chance
            world
            (length t'.route - 1)
            (f.sub t'.amount t'.total_fees)
            s
            (run_from f s id rates chance world t')
    started-Leaves t' w =
        LeavesRest-Leaves f id rates (f.mul t'.amount s.fee_config.hop_fee_percent) chance world
          (length t'.route - 1) (f.sub t'.amount t'.total_fees) s
          (run_from f s id rates chance world t')
          (hops-LeavesRest f id rates (f.mul t'.amount s.fee_config.hop_fee_percent) chance world
            t'.route (record s { transactions = insert id t' s.transactions }) s 0
            (length t'.route - 1) (length t'.route - 1) (f.sub t'.amount t'.total_fees) t'
            (ground (arith, lookup-insert id id t' s.transactions, eq_iff id id)) w refl
            (omega arith)
            λ j ne. ground (arith, lookup-insert id j t' s.transactions, eq_iff id j, ne))

    process_transaction-eq :
        t.status ≡ pending
        → process_transaction f s id now rates chance world
          ≡ run_from f s id rates chance world (start_of f t now)
    unfolding process_transaction
    process_transaction-eq p = ground (arith, stored)

    with_route-eq :
        (route : List String)
        → t.status ≡ pending
        → process_transaction_with_route f s id now route rates chance world
          ≡ run_from f s id rates chance world (record (start_of f t now) { route = route })
    unfolding process_transaction_with_route
    with_route-eq route p = ground (arith, stored)

    -- A payment of a pending transaction that has no hops yet ends: either without an error, then it
    -- is a success, every hop of its route is done and logged, and what is left is the amount less
    -- the quoted fees less one hop fee for each hop; or with an error, then it is failed, with one
    -- result logged for each hop done. No other transaction changes.
    pub process_transaction-Leaves :
        t.status ≡ pending
        → t.hops_completed ≡ 0
        → t.hop_results ≡ []
        → Leaves f id rates
            (f.mul t.amount s.fee_config.hop_fee_percent)
            chance
            world
            (length t.route - 1)
            (f.sub t.amount t.total_fees)
            s
            (process_transaction f s id now rates chance world)
    process_transaction-Leaves p z l =
        subst
          (Leaves f id rates (f.mul t.amount s.fee_config.hop_fee_percent) chance world
            (length t.route - 1) (f.sub t.amount t.total_fees) s)
          (sym (process_transaction-eq p))
          (started-Leaves (start_of f t now)
            (record { running = refl; so_far = z; logged = ap length l }))

    -- The same of a payment over a route of its own: the quoted fees are those of the transaction,
    -- the hops those of the given route.
    pub process_transaction_with_route-Leaves :
        (route : List String)
        → t.status ≡ pending
        → t.hops_completed ≡ 0
        → t.hop_results ≡ []
        → Leaves f id rates
            (f.mul t.amount s.fee_config.hop_fee_percent)
            chance
            world
            (length route - 1)
            (f.sub t.amount t.total_fees)
            s
            (process_transaction_with_route f s id now route rates chance world)
    process_transaction_with_route-Leaves route p z l =
        subst
          (Leaves f id rates (f.mul t.amount s.fee_config.hop_fee_percent) chance world
            (length route - 1) (f.sub t.amount t.total_fees) s)
          (sym (with_route-eq route p))
          (started-Leaves (record (start_of f t now) { route = route })
            (record { running = refl; so_far = z; logged = ap length l }))

    -- A transaction that is not pending is not paid again: nothing changes.
    pub process_transaction-once :
        t.status ≢ pending
        → (process_transaction f s id now rates chance world ≡ (some already_processed, s))
          × ((route : List String)
              → process_transaction_with_route f s id now route rates chance world
                ≡ (some already_processed, s))
    unfolding process_transaction process_transaction_with_route
    process_transaction-once ne = (ground (arith, stored, ne), λ route. ground (arith, stored, ne))

    -- However a run ended, the transaction is no longer pending.
    Ends-settled :
        (n : ℕ) (fee current : f.F) (e : Option Error) (t' : Transaction f.F)
        → Ends f n n fee current e t'
        → t'.status ≢ pending
    Ends-settled n fee current e t' (inl (_, p)) h = ground (arith, p.succeeded, h)
    Ends-settled n fee current e t' (inr (_, q)) h = ground (arith, q.has_failed, h)

    -- A reset makes the transaction ready for another payment: pending, with no hops, its amount and
    -- its quoted fees kept; no other transaction changes.
    pub reset-ready :
        (t' : Transaction f.F) × ((j : String)
          → get_transaction f (reset_transaction_for_retry f s id) j
            ≡ (if str_eq id j then some t' else get_transaction f s j))
        × (t'.status ≡ pending)
        × (t'.hops_completed ≡ 0)
        × (t'.hop_results ≡ [])
        × (t'.amount ≡ t.amount)
        × (t'.total_fees ≡ t.total_fees)
    unfolding reset_transaction_for_retry get_transaction
    reset-ready =
        let change : Transaction f.F → Transaction f.F = λ t'. record t' {
          status = pending;
          hop_results = [];
          hops_completed = 0;
          failed_at = "";
          processed_at = none;
          completed_at = none;
        } in
        (change t, λ j. lookup-modify f s id j change t stored, refl, refl, refl, refl, refl)

  -- A payment that was made, with or without success, is not made again: a second call for the same
  -- transaction is refused and changes nothing.
  pub process_transaction-twice :
      (s : Store f.F) (id : String) (now : ℕ) (rates : List (String × f.F)) (chance : f.F)
      (world : ℕ → Tick) (t : Transaction f.F)
      → lookup id s.transactions ≡ some t
      → t.status ≡ pending
      → t.hops_completed ≡ 0
      → t.hop_results ≡ []
      → (now' : ℕ) (rates' : List (String × f.F)) (chance' : f.F) (world' : ℕ → Tick)
      → let s' = (process_transaction f s id now rates chance world).1 in
        process_transaction f s' id now' rates' chance' world' ≡ (some already_processed, s')
  process_transaction-twice s id now rates chance world t stored p z l now' rates' chance' world' =
      let (t', held, ends) =
        process_transaction-Leaves s id now rates chance world t stored p z l in
      let s' = (process_transaction f s id now rates chance world).1 in
      (process_transaction-once s' id now' rates' chance' world' t'
        (ground (arith, held id, eq_iff id id))
        (Ends-settled s id now rates chance world t stored (length t.route - 1)
          (f.mul t.amount s.fee_config.hop_fee_percent) (f.sub t.amount t.total_fees)
          (process_transaction f s id now rates chance world).0 t' ends)).0
