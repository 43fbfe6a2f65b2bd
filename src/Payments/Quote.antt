-- ===== src/Payments/Quote.antt =====
-- What `CreateTransaction` leaves in the store.
use vibranium_quadsquad.Base.{
  ℕ, zero, suc, ◌-◌, ◌≤◌, ◌<◌, ◌≡◌, refl, ◌⊎◌, inl, inr, String, List, [], ◌∷◌, ◌++◌, none, some,
  arith, length, lookup-insert, str_eq, if◌then◌else◌, has, Bool-cases, ltb,
}
use vibranium_quadsquad.Base.Int.{pos}
use vibranium_quadsquad.Base.Float.{Float}
use vibranium_quadsquad.Payments.{
  Store, Transaction, FeeConfig, route_too_short, pending, halt_fines_of, quote, create_transaction,
  get_transaction, ids_of,
}

-- How many countries of a route are halted.
pub count_halted : List String → List String → ℕ
count_halted halted [] = 0
count_halted halted (c ∷ cs) = let n = count_halted halted cs in if has c halted then suc n else n

module _ (f : Float) where
  -- `t` with a fine added as often as that.
  pub add_times : ℕ → f.F → f.F → f.F
  add_times zero fine t = t
  add_times (suc n) fine t = add_times n fine (f.add t fine)

  halt_fines_of-count :
      (halted : List String) (fine : f.F) (cs : List String) (t : f.F)
      → halt_fines_of f halted fine cs t ≡ add_times (count_halted halted cs) fine t
  unfolding halt_fines_of add_times count_halted
  halt_fines_of-count halted fine [] t = refl
  halt_fines_of-count halted fine (c ∷ cs) t = elim (Bool-cases (has c halted)) [
    | inl is_halted ↦ rw is_halted (halt_fines_of-count halted fine cs (f.add t fine))
    | inr open_one ↦ rw open_one (halt_fines_of-count halted fine cs t)
  ]

  -- What a new payment of `user` is: the request's data, and the fees for its amount and route.
  pub record IsQuoted (c : FeeConfig f.F) (id user : String) (now : ℕ) (amount : f.F)
      (currency target : String) (route halted : List String) (t : Transaction f.F) : Type 0 where
    pub named : t.id ≡ id
    pub owned : t.user_id ≡ user
    pub paid : t.amount ≡ amount
    pub from_currency : t.currency ≡ currency
    pub to_currency : t.target_currency ≡ target
    pub routed : t.route ≡ route
    pub waits : t.status ≡ pending
    pub base : t.base_fee ≡ f.mul amount c.base_fee_percent
    pub hops : t.hop_fees ≡ f.mul (f.mul amount c.hop_fee_percent) (f.of_ℤ (pos (length route - 1)))
    pub fines :
        t.halt_fines
        ≡ add_times (count_halted halted route) (f.mul amount c.halt_fine_percent) f.zero
    pub total : t.total_fees ≡ f.add (f.add t.base_fee t.hop_fees) t.halt_fines
    pub left_over : t.final_amount ≡ f.sub amount t.total_fees
    pub profit : t.admin_profit ≡ t.total_fees
    pub not_begun : (t.hops_completed ≡ 0) × (t.hop_results ≡ []) × (t.created_at ≡ now)

  module _ (s : Store f.F) (id : String) (now : ℕ) (user : String) (amount : f.F)
      (currency target : String) (route halted : List String) where
    -- A route of less than two countries is refused and changes nothing. On any other, the new
    -- transaction is stored under its id as the user's, pending, with the request's amount,
    -- currencies and route: its fees are the percentages of the amount for the base, for each hop,
    -- and for each halted country on the route; the total is their sum and what is left is the amount
    -- less the total. No other transaction changes, the id stands last in the user's list, and no
    -- other user's list changes.
    pub create_transaction-stores :
        let r = create_transaction f s id now user amount currency target route halted in
        ((length route < 2) × (r ≡ (some route_too_short, s)))
        ⊎ ((2 ≤ length route)
            × (r.0 ≡ none)
            × ((t : Transaction f.F) × IsQuoted s.fee_config id user now amount currency target
                  route halted t
                × ((j : String)
                    → get_transaction f r.1 j
                      ≡ (if str_eq id j then some t else get_transaction f s j)))
            × ((u : String)
                → ids_of f r.1 u
                  ≡ (if str_eq user u then ids_of f s user ++ id ∷ [] else ids_of f s u)))
    unfolding create_transaction quote get_transaction
    create_transaction-stores =
        let t = quote f s.fee_config id now user amount currency target route halted in
        elim (Bool-cases (ltb (length route) 2)) [
          | inl short ↦ rw short (inl (ground arith, refl))
          | inr long ↦ rw long (
              inr (
                ground arith,
                refl,
                (
                  t,
                  record {
                    named = refl;
                    owned = refl;
                    paid = refl;
                    from_currency = refl;
                    to_currency = refl;
                    routed = refl;
                    waits = refl;
                    base = refl;
                    hops = refl;
                    fines = halt_fines_of-count halted _ route f.zero;
                    total = refl;
                    left_over = refl;
                    profit = refl;
                    not_begun = (refl, refl, refl);
                  },
                  λ j. lookup-insert id j t s.transactions,
                ),
                λ u. ground (arith, lookup-insert user u (ids_of f s user ++ id ∷ []) s.user_txns),
              ))
        ]
