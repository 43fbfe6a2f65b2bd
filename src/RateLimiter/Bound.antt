-- ===== src/RateLimiter/Bound.antt =====
-- The requests that a sliding window holds.
use vibranium_quadsquad.Base.{
  ℕ, suc, ◌+◌, ◌≤◌, ◌<◌, ◌≡◌, refl, ap, ◌∙◌, ◌*◌, true, false, some, List, [], ◌∷◌, arith, length,
  if◌then◌else◌, Bool-cases, inl, inr,
}
use vibranium_quadsquad.Base.Int.{ℤ, pos, sub_ℕ, leb_ℤ, ◌≤ℤ◌, ltb_ℤ}
use vibranium_quadsquad.Redis.{
  Redis, SetLaws, Member, Entries, drop_upto, remove_member, insert_entry, z_add_entry, two,
  z_rem_range_by_score, z_card, z_add,
}
use vibranium_quadsquad.RateLimiter.{
  RateLimitConfig, RateLimitResult, millis, less, retry_of, allow, reset, sliding_window_script,
}

length-insert_entry :
    (m : Member) (s : ℕ) (es : Entries) → length (insert_entry m s es) ≡ suc (length es)
length-insert_entry m s [] = refl
length-insert_entry m s ((n, t) ∷ es) = ground (arith, length-insert_entry m s es)

length-remove_member : (m : Member) (es : Entries) → length (remove_member m es) ≤ length es
length-remove_member m [] = omega arith
length-remove_member m ((n, t) ∷ es) = ground (arith, length-remove_member m es)

length-drop_upto : (c : ℤ) (es : Entries) → length (drop_upto c es) ≤ length es
length-drop_upto c [] = omega arith
length-drop_upto c ((m, s) ∷ es) = ground (arith, length-drop_upto c es)

length-z_add_entry :
    (m : Member) (s : ℕ) (es : Entries) → length (z_add_entry m s es) ≤ suc (length es)
length-z_add_entry m s es =
    omega (arith, length-insert_entry m s (remove_member m es), length-remove_member m es)

module _ (r : Redis) (laws : SetLaws r) where
  -- The entries that are left of a window at `now`.
  abbrev pub recent : RateLimitConfig → ℕ → r.Db → Entries
  recent cfg now d = drop_upto (sub_ℕ (millis now) (millis cfg.window)) (r.entries cfg.key d)

  -- A request, on a Redis that answers and with a window of a millisecond or more, is allowed
  -- exactly when fewer requests than the limit are left in the window; the entries are then those
  -- and the new one, and else just those.
  pub allow-decides :
      (cfg : RateLimitConfig) (now : ℕ) (d : r.Db)
      → r.answers d ≡ true
      → 0 < millis cfg.window
      → let few = ltb_ℤ (pos (length (recent cfg now d))) cfg.limit in
        (res : RateLimitResult) × ((allow r cfg now d).0 ≡ some res)
        × (res.is_allowed ≡ few)
        × (r.entries cfg.key (allow r cfg now d).1 ≡ (
            if few
            then z_add_entry (two (millis now) now) (millis now) (recent cfg now d)
            else recent cfg now d))
  unfolding allow sliding_window_script
  allow-decides cfg now d up long =
      let c = sub_ℕ (millis now) (millis cfg.window) in
      let d1 = (r.call (z_rem_range_by_score cfg.key c) d).0 in
      let d2 = (r.call (z_card cfg.key) d1).0 in
      let n = (r.call (z_card cfg.key) d1).1 in
      let e1 : r.entries cfg.key d1 ≡ recent cfg now d = laws.entries-z_rem cfg.key c d in
      let e2 : r.entries cfg.key d2 ≡ recent cfg now d = (laws.entries-z_card cfg.key d1).0 ∙ e1 in
      let en : n ≡ length (recent cfg now d) = (laws.entries-z_card cfg.key d1).1 ∙ ap length e1 in
      elim (Bool-cases (leb_ℤ cfg.limit (pos n))) [
        | inl full ↦ (
          record {
            is_allowed = false;
            remaining = less cfg.limit n;
            reset_at = now + cfg.window;
            retry_after = retry_of (r.entries cfg.key d2) (millis now) (millis cfg.window);
          },
          ground (arith, up, full),
          ground (arith, full, en),
          ground (arith, up, full, en, e2),
        )
        | inr room ↦
            let m = two (millis now) now in
            let d3 = (r.call (z_add cfg.key (millis now) m) d2).0 in
            (
              record {
                is_allowed = true;
                remaining = less cfg.limit (n + 1);
                reset_at = now + cfg.window;
                retry_after = pos 0;
              },
              ground (arith, up, room),
              ground (arith, room, en),
              ground (
                arith,
                up,
                room,
                en,
                laws.entries-p_expire cfg.key (millis cfg.window * 1_000_000) d3
                    (omega (arith, long)),
                laws.entries-z_add cfg.key (millis now) m d2,
                ap (z_add_entry m (millis now)) e2,
              ),
            )
      ]

  -- The requests at the given times, one after another.
  pub after_requests : RateLimitConfig → List ℕ → r.Db → r.Db
  after_requests cfg [] d = d
  after_requests cfg (t ∷ ts) d = after_requests cfg ts (allow r cfg t d).1

  allow-Bounded :
      (cfg : RateLimitConfig) (now : ℕ) (d : r.Db)
      → r.answers d ≡ true
      → 0 < millis cfg.window
      → pos (length (r.entries cfg.key d)) ≤ℤ cfg.limit
      → pos (length (r.entries cfg.key (allow r cfg now d).1)) ≤ℤ cfg.limit
  allow-Bounded cfg now d up long h =
      let (res, _, _, left) = allow-decides cfg now d up long in
      let m = two (millis now) now in
      elim (Bool-cases (ltb_ℤ (pos (length (recent cfg now d))) cfg.limit)) [
        | inl room ↦
            ground
              (arith, room, ap length left, length-z_add_entry m (millis now) (recent cfg now d))
        | inr full ↦ ground (
          arith,
          full,
          ap length left,
          length-drop_upto (sub_ℕ (millis now) (millis cfg.window)) (r.entries cfg.key d),
        )
      ]

  -- On a Redis that always answers, with a window of a millisecond or more, a key that holds no more
  -- requests than the limit never holds more, whatever requests follow at whatever times.
  pub after_requests-Bounded :
      (cfg : RateLimitConfig) (ts : List ℕ) (d : r.Db)
      → ((d : r.Db) → r.answers d ≡ true)
      → 0 < millis cfg.window
      → pos (length (r.entries cfg.key d)) ≤ℤ cfg.limit
      → pos (length (r.entries cfg.key (after_requests cfg ts d))) ≤ℤ cfg.limit
  unfolding after_requests
  after_requests-Bounded cfg [] d up long h = h
  after_requests-Bounded cfg (t ∷ ts) d up long h =
      after_requests-Bounded cfg ts (allow r cfg t d).1 up long
        (allow-Bounded cfg t d (up d) long h)

  -- A reset that Redis answers empties the window: with a window of a millisecond or more and a
  -- positive limit the next request that Redis answers is allowed.
  pub allow-reset_window :
      (cfg : RateLimitConfig) (now : ℕ) (d d' : r.Db)
      → reset r cfg.key d ≡ some d'
      → r.answers d' ≡ true
      → 0 < millis cfg.window
      → ltb_ℤ (pos 0) cfg.limit ≡ true
      → (res : RateLimitResult) × ((allow r cfg now d').0 ≡ some res) × (res.is_allowed ≡ true)
  unfolding reset
  allow-reset_window cfg now d d' e up long positive =
      let (res, got, decided, _) = allow-decides cfg now d' up long in
      let empty : r.entries cfg.key d' ≡ [] = ground (arith, laws.entries-del cfg.key d) in
      (
        res,
        got,
        decided
            ∙ ap
                (λ es.
                  ltb_ℤ (pos (length (drop_upto (sub_ℕ (millis now) (millis cfg.window)) es)))
                    cfg.limit)
                empty
            ∙ positive,
      )
