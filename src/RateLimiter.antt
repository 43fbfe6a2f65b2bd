-- ===== src/RateLimiter.antt =====
-- storage/redis/rate_limiter.go. A call reads the clock as the argument `now`, in nanoseconds. The Lua
-- script runs as one step on the server; its numbers, milliseconds and counts, stay below 2^53, where
-- Lua's floats are exact.
pub mod Bound
mod Tests
use Prim.Native.Nat.{◌/◌}
use vibranium_quadsquad.Base.{
  ℕ, zero, suc, ◌+◌, ◌-◌, ◌*◌, String, Bool, true, false, Option, none, some, List, [], ◌∷◌, ◌++◌,
  if◌then◌else◌, get_or, zero, suc,
}
use vibranium_quadsquad.Base.Int.{ℤ, pos, sub_ℕ, ◌+ℤ◌, leb_ℤ, ltb_ℤ, pos_part}
use vibranium_quadsquad.Redis.{
  Redis, Command, Entries, two, three, z_rem_range_by_score, z_add, z_card, p_expire, del, exec,
  call_all,
}
use vibranium_quadsquad.Circuit.{window_start}

-- The window is in nanoseconds.
pub record RateLimitConfig : Type 0 where
  pub key : String
  pub limit : ℤ
  pub window : ℕ

-- `reset_at` is in nanoseconds, 0 for the zero time; `retry_after` is in milliseconds.
pub record RateLimitResult : Type 0 where
  pub is_allowed : Bool
  pub remaining : ℤ
  pub reset_at : ℕ
  pub retry_after : ℤ

abbrev pub millis : ℕ → ℕ
millis t = t / 1_000_000

-- `limit - n`
abbrev pub less : ℤ → ℕ → ℤ
less a n = a +ℤ sub_ℕ 0 n

-- `oldest[2] + window - now`, 0 when there is no entry.
unfoldable pub retry_of : Entries → ℕ → ℕ → ℤ
retry_of [] now window = pos 0
retry_of ((m, s) ∷ es) now window = sub_ℕ (s + window) now

module _ (r : Redis) where
  -- slidingWindowScript, on times in milliseconds, with the clock's nanoseconds for the member.
  unfoldable pub sliding_window_script : RateLimitConfig → ℕ → r.Db → RateLimitResult × r.Db
  unfolding retry_of
  sliding_window_script cfg now d =
      let (d1, _) =
        r.call (z_rem_range_by_score cfg.key (sub_ℕ (millis now) (millis cfg.window))) d in
      let (d2, current) = r.call (z_card cfg.key) d1 in
      if leb_ℤ cfg.limit (pos current)
      then (
        (record {
          is_allowed = false;
          remaining = less cfg.limit current;
          reset_at = now + cfg.window;
          retry_after = retry_of (r.entries cfg.key d2) (millis now) (millis cfg.window);
        }),
        d2,
      )
      else (let (d3, _) = r.call (z_add cfg.key (millis now) (two (millis now) now)) d2 in
          let (d4, _) = r.call (p_expire cfg.key (millis cfg.window * 1_000_000)) d3 in
          (
            (record {
              is_allowed = true;
              remaining = less cfg.limit (current + 1);
              reset_at = now + cfg.window;
              retry_after = pos 0;
            }),
            d4,
          ))

  -- `none` is an error of the round trip.
  unfoldable pub allow : RateLimitConfig → ℕ → r.Db → Option RateLimitResult × r.Db
  unfolding sliding_window_script
  allow cfg now d =
      let (res, d') = sliding_window_script cfg now d in
      if r.answers d then (some res, d') else (none, d)

  unfoldable pub reset : String → r.Db → Option r.Db
  reset key d = elim (exec r (del key ∷ []) d) [ none ↦ none | some (d', _) ↦ some d' ]

  -- What remains, and the database without the expired entries.
  unfoldable pub get_remaining : RateLimitConfig → ℕ → r.Db → Option (ℤ × r.Db)
  get_remaining cfg now d =
      elim (exec r
        (z_rem_range_by_score cfg.key (window_start now cfg.window) ∷ z_card cfg.key ∷ []) d) [
          | none ↦ none
          | some (d', replies) ↦ some (less cfg.limit (get_or replies 1 0), d')
        ]

  -- The members `i`, `i + 1`, ... of a batch of `n`, as one ZADD adds them.
  abbrev pub batch : RateLimitConfig → ℕ → ℕ → ℕ → List Command
  batch cfg now zero i = []
  batch cfg now (suc n) i =
      z_add cfg.key (millis now) (three (millis now) now i) ∷ batch cfg now n (i + 1)

  abbrev pub record_batch : RateLimitConfig → ℕ → ℕ → ℕ → r.Db → Option RateLimitResult × r.Db
  record_batch cfg n current now d =
      elim (exec r (batch cfg now n 0 ++ p_expire cfg.key cfg.window ∷ []) d) [
        | none ↦ (none, d)
        | some (d', _) ↦ (
          some (record {
            is_allowed = true;
            remaining = less (less cfg.limit current) n;
            reset_at = now + cfg.window;
            retry_after = pos 0;
          }),
          d',
        )
      ]

  -- The count and the entries go in two pipelines.
  unfoldable pub allow_n : RateLimitConfig → ℤ → ℕ → r.Db → Option RateLimitResult × r.Db
  allow_n cfg n now d =
      let counted =
        elim (exec r
            (z_rem_range_by_score cfg.key (sub_ℕ (millis now) (millis cfg.window))
              ∷ z_card cfg.key
              ∷ [])
            d)
          as (λ _. Option RateLimitResult × r.Db) [
            | none ↦ (none, d)
            | some (d', replies) ↦
                let current = get_or replies 1 0 in
                if ltb_ℤ cfg.limit (pos current +ℤ n)
                then (
                  some (record {
                    is_allowed = false;
                    remaining = less cfg.limit current;
                    reset_at = now + cfg.window;
                    retry_after = pos 0;
                  }),
                  d',
                )
                else record_batch cfg (pos_part n) current now d'
          ] in
      if leb_ℤ n (pos 0)
      then (
        some (record {
          is_allowed = true;
          remaining = cfg.limit;
          reset_at = 0;
          retry_after = pos 0;
        }),
        d,
      )
      else counted
