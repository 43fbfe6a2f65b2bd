-- ===== src/Handlers/Payment/Complete/Attempts.antt =====
-- The attempts of HandleStripeComplete: what they touch of the store, and how many there are.
use vibranium_quadsquad.Base.{
  ℕ, zero, suc, ◌+◌, ◌≡◌, ◌≢◌, refl, ap, sym, ◌∙◌, String, true, false, Option, List, none, some,
  lookup, length, ◌-◌, eq_iff, arith, subst, ltb, ◌&&◌, if◌then◌else◌,
}
use vibranium_quadsquad.Base.Float.{Float}
use vibranium_quadsquad.Payments.{
  Store, Transaction, FeeConfig, Error, pending, get_transaction, process_transaction_with_route,
  reset_transaction_for_retry,
}
use vibranium_quadsquad.Payments.Run.Hops.{Leaves}
use vibranium_quadsquad.Payments.Run.{
  process_transaction-once, process_transaction_with_route-Leaves, reset-ready,
}
use vibranium_quadsquad.Payments.Run.Others.{
  Touches, Touches-refl, Touches-trans, with_route-Touches, reset_transaction_for_retry-Touches,
}
use vibranium_quadsquad.Handlers.Payment.Routes.{route_for, get_alternative_routes, route_for-third}
use vibranium_quadsquad.Handlers.Payment.Complete.{World, attempts, has_succeeded, is_none}

module _ (f : Float) where
  module _ (id : String) (alternatives : List (List String)) (original : List String)
      (rates : List (String × f.F)) (w : World) where
    abbrev pub tried : ℕ → ℕ → Store f.F → Store f.F
    tried n attempt s = attempts f id alternatives original rates w n attempt s

    abbrev pub tried_on : List String → ℕ → Store f.F → (Option Error) × Store f.F
    tried_on route attempt s =
        process_transaction_with_route f s id (w.now attempt) route rates (f.lit 15 2)
          (w.ticks attempt)

    abbrev pub ready_for : ℕ → Store f.F → Store f.F
    ready_for attempt s = if ltb attempt 3 then reset_transaction_for_retry f s id else s

    -- One attempt on a route, if there is one, and `k` after it.
    abbrev pub attempt_on :
        Option (List String) → ℕ → (Store f.F → Store f.F) → Store f.F → Store f.F
    attempt_on o attempt k s = elim o [
      | none ↦ s
      | some route ↦
          let (e, s') = tried_on route attempt s in
          let again = k (ready_for attempt s') in
          if is_none e && has_succeeded f (get_transaction f s' id) then s' else again
    ]

    pub attempts-suc :
        (n attempt : ℕ) (s : Store f.F)
        → tried (suc n) attempt s
          ≡ attempt_on (route_for alternatives original attempt) attempt (tried n (attempt + 1)) s
    unfolding attempts
    attempts-suc n attempt s = refl

    ready_for-Touches : (attempt : ℕ) (s : Store f.F) → Touches f id s (ready_for attempt s)
    ready_for-Touches attempt s =
        elim (ltb attempt 3)
          as (λ b. Touches f id s (if b then reset_transaction_for_retry f s id else s)) [
            | true ↦ reset_transaction_for_retry-Touches f id s
            | false ↦ Touches-refl f id s
          ]

    attempt_on-Touches :
        (o : Option (List String)) (attempt : ℕ) (k : Store f.F → Store f.F)
        → ((s : Store f.F) → Touches f id s (k s))
        → (s : Store f.F) → Touches f id s (attempt_on o attempt k s)
    attempt_on-Touches none attempt k after s = Touches-refl f id s
    attempt_on-Touches (some route) attempt k after s =
        let s' : Store f.F = (tried_on route attempt s).1 in
        let next : Store f.F = ready_for attempt s' in
        let once =
          with_route-Touches f id s (w.now attempt) route rates (f.lit 15 2) (w.ticks attempt) in
        elim (is_none (tried_on route attempt s).0 && has_succeeded f (get_transaction f s' id))
          as (λ b. Touches f id s (if b then s' else k next)) [
            | true ↦ once
            | false ↦
                Touches-trans f id s next (k next)
                  (Touches-trans f id s s' next once (ready_for-Touches attempt s')) (after next)
          ]

    pub attempts-Touches : (n attempt : ℕ) (s : Store f.F) → Touches f id s (tried n attempt s)
    unfolding attempts
    attempts-Touches zero attempt s = Touches-refl f id s
    attempts-Touches (suc n) attempt s =
        attempt_on-Touches (route_for alternatives original attempt) attempt (tried n (attempt + 1))
          (attempts-Touches n (attempt + 1)) s

    attempt_on-same :
        (o : Option (List String)) (attempt : ℕ) (k k' : Store f.F → Store f.F)
        → ((s : Store f.F) → k s ≡ k' s)
        → (s : Store f.F) → attempt_on o attempt k s ≡ attempt_on o attempt k' s
    attempt_on-same none attempt k k' e s = refl
    attempt_on-same (some route) attempt k k' e s =
        ap
          (λ z.
            if is_none (tried_on route attempt s).0
              && has_succeeded f (get_transaction f (tried_on route attempt s).1 id)
            then (tried_on route attempt s).1
            else z)
          (e (ready_for attempt (tried_on route attempt s).1))

  module _ (id : String) (original : List String) (rates : List (String × f.F)) (w : World) where
    abbrev routes : List (List String)
    routes = get_alternative_routes original

    third : (n : ℕ) (s : Store f.F) → tried id routes original rates w n 3 s ≡ s
    unfolding attempts
    third zero s = refl
    third (suc n) s =
        attempts-suc id routes original rates w n 3 s
        ∙ ap
            (λ o.
              attempt_on id routes original rates w o 3 (tried id routes original rates w n 4) s)
            (route_for-third original)

    second :
        (s : Store f.F)
        → tried id routes original rates w 2 2 s ≡ tried id routes original rates w 1 2 s
    second s =
        attempts-suc id routes original rates w 1 2 s
        ∙ attempt_on-same id routes original rates w (route_for routes original 2) 2
            (tried id routes original rates w 1 3) (tried id routes original rates w 0 3)
            (λ s'. third 1 s' ∙ sym (third 0 s')) s
        ∙ sym (attempts-suc id routes original rates w 0 2 s)

    -- Two routes are tried at most: the third attempt, which the code allows for, never has a route.
    pub attempts-two :
        (s : Store f.F)
        → attempts f id (get_alternative_routes original) original rates w 3 1 s
          ≡ attempts f id (get_alternative_routes original) original rates w 2 1 s
    attempts-two s =
        attempts-suc id routes original rates w 2 1 s
        ∙ attempt_on-same id routes original rates w (route_for routes original 1) 1
            (tried id routes original rates w 2 2) (tried id routes original rates w 1 2) second s
        ∙ sym (attempts-suc id routes original rates w 1 1 s)

    -- What the second attempt makes of a store, over a route that there is.
    second_attempt :
        (s : Store f.F) (route : List String)
        → route_for routes original 2 ≡ some route
        → let run = tried_on id routes original rates w route 2 s in
          tried id routes original rates w 2 2 s ≡ (
            if is_none run.0 && has_succeeded f (get_transaction f run.1 id)
            then run.1
            else reset_transaction_for_retry f run.1 id)
    second_attempt s route e =
        let run = tried_on id routes original rates w route 2 s in
        attempts-suc id routes original rates w 1 2 s
        ∙ ap
            (λ o.
              attempt_on id routes original rates w o 2 (tried id routes original rates w 1 3) s)
            e
        ∙ ap
            (λ z.
              if is_none run.0 && has_succeeded f (get_transaction f run.1 id) then run.1 else z)
            (third 1 (reset_transaction_for_retry f run.1 id))

    first_refused :
        (s : Store f.F) (t : Transaction f.F)
        → lookup id s.transactions ≡ some t
        → t.status ≢ pending
        → tried id routes original rates w 3 1 s
          ≡ tried id routes original rates w 2 2 (reset_transaction_for_retry f s id)
    unfolding route_for
    first_refused s t e ne =
        attempts-suc id routes original rates w 2 1 s
        ∙ ap
            (λ r.
              if is_none r.0 && has_succeeded f (get_transaction f r.1 id)
              then r.1
              else tried id routes original rates w 2 2 (reset_transaction_for_retry f r.1 id))
            ((process_transaction-once f s id (w.now 1) rates (f.lit 15 2) (w.ticks 1) t e ne).1
              original)

    reset-fee_config :
        (s : Store f.F) → (reset_transaction_for_retry f s id).fee_config ≡ s.fee_config
    unfolding reset_transaction_for_retry
    reset-fee_config s = ground arith

    -- A payment that is no longer pending, a successful one as well, is not left alone when there is
    -- a second alternative route: the payment is reset and made again over that route, to the end
    -- like a new one, with its amount and its quoted fees; if this fails, it is left reset.
    pub attempts-rerun :
        (s : Store f.F) (t : Transaction f.F) (route : List String)
        → lookup id s.transactions ≡ some t
        → t.status ≢ pending
        → route_for (get_alternative_routes original) original 2 ≡ some route
        → let again = reset_transaction_for_retry f s id in
          let run =
            process_transaction_with_route f again id
              (w.now 2)
              route
              rates
              (f.lit 15 2)
              (w.ticks 2) in
          (attempts f id (get_alternative_routes original) original rates w 3 1 s ≡ (
            if is_none run.0 && has_succeeded f (get_transaction f run.1 id)
            then run.1
            else reset_transaction_for_retry f run.1 id))
          × Leaves f id rates
              (f.mul t.amount s.fee_config.hop_fee_percent)
              (f.lit 15 2)
              (w.ticks 2)
              (length route - 1)
              (f.sub t.amount t.total_fees)
              again
              run
    unfolding get_transaction
    attempts-rerun s t route e ne way =
        let again = reset_transaction_for_retry f s id in
        let (t', held, waits, none_done, none_logged, same_amount, same_fees) =
          reset-ready f s id (w.now 1) rates (f.lit 15 2) (w.ticks 1) t e in
        let RunsLike : FeeConfig f.F → f.F → f.F → Type 0 = λ c a x.
          Leaves f id rates (f.mul a c.hop_fee_percent) (f.lit 15 2) (w.ticks 2) (length route - 1)
            (f.sub a x) again
            (process_transaction_with_route f again id (w.now 2) route rates (f.lit 15 2)
              (w.ticks 2)) in
        let ready : lookup id again.transactions ≡ some t' =
          ground (arith, held id, eq_iff id id) in
        (
          first_refused s t e ne ∙ second_attempt again route way,
          subst (λ (c : FeeConfig f.F). RunsLike c t.amount t.total_fees) (reset-fee_config s)
              (subst (λ (a : f.F). RunsLike again.fee_config a t.total_fees) same_amount
                (subst (λ (x : f.F). RunsLike again.fee_config t'.amount x) same_fees
                  (process_transaction_with_route-Leaves f again id (w.now 2) rates (f.lit 15 2)
                    (w.ticks 2) t' ready route waits none_done none_logged))),
        )
