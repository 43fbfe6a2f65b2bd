-- ===== src/Handlers/Payment/Charts.antt =====
-- HandleAdminStats and HandleChartData of api/handlers/payment_handler.go. `day_of` and `label_of` are
-- the formats "2006-01-02" and "Jan 2" of a time.
use vibranium_quadsquad.Base.{
  ℕ, ◌+◌, ◌≡◌, refl, String, not, none, some, List, [], ◌∷◌, if◌then◌else◌, length, lookup, insert,
  str_eq, ltb, map, arith,
}
use vibranium_quadsquad.Base.Int.{pos}
use vibranium_quadsquad.Base.Float.{Float}
use vibranium_quadsquad.Http.{Request, Response, refuse, answer}
use vibranium_quadsquad.Payments.{
  Store, Transaction, Status, pending, processing, success, failed, AdminStats, count_in, count_all,
  get_admin_stats, get_all_transactions, get_user_transactions, values_of,
}
use vibranium_quadsquad.Handlers.Payment.{PaymentHandler, user_id_of}

pub record Analytics (F : Type 0) : Type 0 where
  pub total_volume : F
  pub total_fees : F
  pub success_count : ℕ
  pub failed_count : ℕ
  pub pending_count : ℕ
  pub daily_volume : List (String × F)
  pub daily_fees : List (String × F)

pub record ChartData (F : Type 0) : Type 0 where
  pub labels : List String
  pub volumes : List F
  pub fees : List F
  pub success_count : ℕ
  pub failed_count : ℕ
  pub pending_count : ℕ
  pub total_transactions : ℕ
  pub success_rate : F

module _ (f : Float) (day_of label_of : ℕ → String) where
  -- `m[k] += a` of a map of floats
  abbrev pub add_at : String → f.F → List (String × f.F) → List (String × f.F)
  add_at k a m = insert k (f.add (elim (lookup k m) [ none ↦ f.zero | some v ↦ v ]) a) m

  abbrev pub success_rate : ℕ → ℕ → f.F
  success_rate won total =
      f.mul (f.div (f.of_ℤ (pos won)) (f.of_ℤ (pos (if ltb total 1 then 1 else total))))
        (f.lit 100 0)

  unfoldable pub count_status : Analytics f.F → Status → Analytics f.F
  count_status a success = record a { success_count = a.success_count + 1 }
  count_status a failed = record a { failed_count = a.failed_count + 1 }
  count_status a pending = record a { pending_count = a.pending_count + 1 }
  count_status a processing = record a { pending_count = a.pending_count + 1 }

  abbrev pub add_amounts : Analytics f.F → Transaction f.F → Analytics f.F
  add_amounts a t = record a {
    total_volume = f.add a.total_volume t.amount;
    total_fees = f.add a.total_fees t.total_fees;
    daily_volume = add_at (day_of t.created_at) t.amount a.daily_volume;
    daily_fees = add_at (day_of t.created_at) t.total_fees a.daily_fees;
  }

  unfoldable pub analytics_from : Analytics f.F → List (Transaction f.F) → Analytics f.F
  unfolding count_status
  analytics_from a [] = a
  analytics_from a (t ∷ ts) = analytics_from (count_status (add_amounts a t) t.status) ts

  abbrev pub no_analytics : Analytics f.F
  no_analytics = record {
    total_volume = f.zero;
    total_fees = f.zero;
    success_count = 0;
    failed_count = 0;
    pending_count = 0;
    daily_volume = [];
    daily_fees = [];
  }

  pub record StatsResponse : Type 0 where
    pub stats : AdminStats f
    pub all_transactions : List (Transaction f.F)
    pub analytics : Analytics f.F
    pub total_transactions : ℕ
    pub rate : f.F

  -- The store is read twice, with other calls in between: `s` and then `later`.
  unfoldable pub handle_admin_stats : Store f.F → Store f.F → String → Response StatsResponse
  unfolding analytics_from
  handle_admin_stats s later method =
      let all = get_all_transactions f later in
      let a = analytics_from no_analytics all in
      if not (str_eq method "GET")
      then refuse 405 "method not allowed"
      else answer 200 (record {
        stats = get_admin_stats f s;
        all_transactions = all;
        analytics = a;
        total_transactions = length all;
        rate = success_rate a.success_count (length all);
      })

  -- The counts are those of `analytics_from`, by the same cases.
  unfoldable pub handle_chart_data :
      PaymentHandler f.F → Request (Unit {0}) → Response (ChartData f.F)
  unfolding user_id_of analytics_from
  handle_chart_data h r =
      let user = user_id_of r.context r.user_header in
      let txns = get_user_transactions f h.txn_store user in
      let a = analytics_from no_analytics txns in
      if not (str_eq r.method "GET")
      then refuse 405 "method not allowed"
      else if str_eq user ""
      then refuse 401 "unauthorized"
      else answer 200 (record {
        labels = map (λ (t : Transaction f.F). label_of t.created_at) txns;
        volumes = map (λ (t : Transaction f.F). t.amount) txns;
        fees = map (λ (t : Transaction f.F). t.total_fees) txns;
        success_count = a.success_count;
        failed_count = a.failed_count;
        pending_count = a.pending_count;
        total_transactions = length txns;
        success_rate = success_rate a.success_count (length txns);
      })

  pub record Agree (a : AdminStats f) (b : Analytics f.F) : Type 0 where
    pub successes : a.success_count ≡ b.success_count
    pub failures : a.failed_count ≡ b.failed_count
    pub others : a.pending_count ≡ b.pending_count

  one-Agree :
      (a : AdminStats f) (b : Analytics f.F) (t : Transaction f.F) (st : Status)
      → Agree a b
      → Agree (count_in f a t st) (count_status (add_amounts b t) st)
  unfolding count_in count_status
  one-Agree a b t success p = record {
    successes = omega (arith, p.successes);
    failures = p.failures;
    others = p.others;
  }
  one-Agree a b t failed p = record {
    successes = p.successes;
    failures = omega (arith, p.failures);
    others = p.others;
  }
  one-Agree a b t pending p = record {
    successes = p.successes;
    failures = p.failures;
    others = omega (arith, p.others);
  }
  one-Agree a b t processing p = record {
    successes = p.successes;
    failures = p.failures;
    others = omega (arith, p.others);
  }

  all-Agree :
      (a : AdminStats f) (b : Analytics f.F) (ts : List (String × Transaction f.F))
      → Agree a b
      → Agree (count_all f a ts) (analytics_from b (values_of f ts))
  unfolding count_all analytics_from
  all-Agree a b [] p = p
  all-Agree a b ((k, t) ∷ ts) p =
      all-Agree (count_in f a t t.status) (count_status (add_amounts b t) t.status) ts
        (one-Agree a b t t.status p)

  -- The administrator's figures are counted twice, by the store and by the handler; the two agree on
  -- how many payments succeeded, failed, or are neither.
  pub get_admin_stats-Agree :
      (s : Store f.F)
      → Agree (get_admin_stats f s) (analytics_from no_analytics (get_all_transactions f s))
  unfolding get_admin_stats get_all_transactions
  get_admin_stats-Agree s =
      all-Agree _ no_analytics s.transactions
        (record { successes = refl; failures = refl; others = refl })
