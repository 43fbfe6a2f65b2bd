-- ===== src/Payments/Stats.antt =====
-- The statistics of the administrator.
use vibranium_quadsquad.Base.{ℕ, ◌+◌, ◌≡◌, refl, String, List, [], ◌∷◌, arith, length}
use vibranium_quadsquad.Base.Float.{Float}
use vibranium_quadsquad.Payments.{
  Store, Transaction, Status, pending, AdminStats, count_in, count_all, get_admin_stats,
}

module _ (f : Float) where
  abbrev counted : AdminStats f → ℕ
  counted a = a.success_count + a.failed_count + a.pending_count

  count_in-counted :
      (a : AdminStats f) (t : Transaction f.F) (st : Status)
      → counted (count_in f a t st) ≡ counted a + 1
  unfolding count_in
  count_in-counted a t pending = omega arith
  count_in-counted a t _ = omega arith

  count_in-total :
      (a : AdminStats f) (t : Transaction f.F) (st : Status)
      → (count_in f a t st).total_transactions ≡ a.total_transactions
  unfolding count_in
  count_in-total a t pending = refl
  count_in-total a t _ = refl

  count_all-counted :
      (a : AdminStats f) (ts : List (String × Transaction f.F))
      → (counted (count_all f a ts) ≡ counted a + length ts)
        × ((count_all f a ts).total_transactions ≡ a.total_transactions)
  unfolding count_all
  count_all-counted a [] = (omega arith, refl)
  count_all-counted a ((k, t) ∷ ts) = omega (
    arith,
    count_all-counted (count_in f a t t.status) ts,
    count_in-counted a t t.status,
    count_in-total a t t.status,
  )

  -- Every transaction of the store is counted once, as a success, a failure or pending.
  pub get_admin_stats-counts :
      (s : Store f.F)
      → let a = get_admin_stats f s in
        a.success_count + a.failed_count + a.pending_count ≡ a.total_transactions
  unfolding get_admin_stats
  get_admin_stats-counts s = omega (
    arith,
    count_all-counted
        (record {
          total_profit = f.zero;
          total_volume = f.zero;
          success_count = 0;
          failed_count = 0;
          pending_count = 0;
          total_transactions = length s.transactions;
        })
        s.transactions,
  )
