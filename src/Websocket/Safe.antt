-- ===== src/Websocket/Safe.antt =====
-- The hub never sends on a closed channel, and never closes one twice.
use vibranium_quadsquad.Base.{
  ℕ, ◌≤◌, ◌<◌, ◌≡◌, refl, ap, true, false, Option, some, List, [], ◌∷◌, ◌++◌, if◌then◌else◌, length,
  length-append, ltb, ◌==◌, arith, Bool-cases, inl, inr,
}
use vibranium_quadsquad.Websocket.{
  Hub, Event, connects, disconnects, broadcasts, writes, new_hub, is_client, without, set_channel,
  drop, unregister, send_to, send_all, serve_ws, take_message, run_step, run,
}

module _ (M : Type 0) where
  -- The channels of the clients are open and hold 64 messages at most; a client that is yet to come
  -- is not among them.
  pub record IsSound (h : Hub M) : Type 0 where
    pub is_open : (c : ℕ) → is_client M c h.clients ≡ true → (h.channel c).is_closed ≡ false
    pub bounded : (c : ℕ) → length (h.channel c).queue ≤ 64
    pub known : (c : ℕ) → is_client M c h.clients ≡ true → c < h.next_client

  -- A step went well and left a sound hub.
  abbrev pub IsSafe : Option (Hub M) → Type 0
  IsSafe o = (h : Hub M) × (o ≡ some h) × IsSound h

  new_hub-IsSound : IsSound (new_hub M)
  new_hub-IsSound = record {
    is_open = λ c e. refl;
    bounded = λ c. omega arith;
    known = λ c e. absurd (ground (arith, e));
  }

  is_client-without :
      (c d : ℕ) (cs : List ℕ)
      → is_client M d (without M c cs) ≡ (if d == c then false else is_client M d cs)
  is_client-without c d [] = ground arith
  is_client-without c d (x ∷ xs) = ground (arith, is_client-without c d xs)

  drop-IsSafe :
      (h : Hub M) (c : ℕ) → IsSound h → is_client M c h.clients ≡ true → IsSafe (drop M h c)
  unfolding drop
  drop-IsSafe h c s e =
      let h' : Hub M =
        set_channel M (record h { clients = without M c h.clients }) c
          (record (h.channel c) { is_closed = true }) in
      (
        h',
        ground (arith, s.is_open c e),
        record {
          is_open = λ d k. ground (arith, is_client-without c d h.clients, s.is_open d, k);
          bounded = λ d. ground (arith, s.bounded d, s.bounded c);
          known = λ d k. ground (arith, is_client-without c d h.clients, s.known d, k);
        },
      )

  unregister-IsSafe : (h : Hub M) (c : ℕ) → IsSound h → IsSafe (unregister M h c)
  unfolding unregister
  unregister-IsSafe h c s =
      elim (is_client M c h.clients)
          as (λ b. is_client M c h.clients ≡ b → IsSafe (if b then drop M h c else some h)) [
            | true ↦ λ e. drop-IsSafe h c s e
            | false ↦ λ e. (h, refl, s)
          ]
        refl

  queued-IsSound :
      (h : Hub M) (c : ℕ) (queue : List M)
      → IsSound h
      → length queue ≤ 64
      → IsSound (set_channel M h c (record (h.channel c) { queue = queue }))
  queued-IsSound h c queue s short = record {
    is_open = λ d k. ground (arith, s.is_open d k, s.is_open c, ap (λ z. is_client M z h.clients));
    bounded = λ d. ground (arith, s.bounded d, short);
    known = s.known;
  }

  send_to-IsSafe :
      (m : M) (h : Hub M) (c : ℕ)
      → IsSound h
      → is_client M c h.clients ≡ true
      → IsSafe (send_to M m h c)
  unfolding send_to
  send_to-IsSafe m h c s e = elim (Bool-cases (ltb (length (h.channel c).queue) 64)) [
    | inl room ↦ (
      set_channel M h c (record (h.channel c) { queue = (h.channel c).queue ++ m ∷ [] }),
      ground (arith, s.is_open c e, room),
      queued-IsSound h c ((h.channel c).queue ++ m ∷ []) s
          (ground (arith, length-append (h.channel c).queue (m ∷ []), room)),
    )
    | inr full ↦
        let (h', k, s') = drop-IsSafe h c s e in (h', ground (arith, s.is_open c e, full, k), s')
  ]

  send_all-IsSafe : (m : M) (cs : List ℕ) (h : Hub M) → IsSound h → IsSafe (send_all M m cs h)
  unfolding send_all
  send_all-IsSafe m [] h s = (h, refl, s)
  send_all-IsSafe m (c ∷ cs) h s = elim (Bool-cases (is_client M c h.clients)) [
    | inr gone ↦ rw gone (send_all-IsSafe m cs h s)
    | inl there ↦
        let (h', e, s') = send_to-IsSafe m h c s there in rw (there, e) (send_all-IsSafe m cs h' s')
  ]

  serve_ws-IsSound : (h : Hub M) → IsSound h → IsSound (serve_ws M h)
  unfolding serve_ws
  serve_ws-IsSound h s = record {
    is_open = λ d k. ground (arith, s.is_open d, k);
    bounded = λ d. ground (arith, s.bounded d);
    known = λ d k. ground (arith, s.known d, k);
  }

  take_message-IsSound : (h : Hub M) (c : ℕ) → IsSound h → IsSound (take_message M h c)
  unfolding take_message
  take_message-IsSound h c s =
      elim (h.channel c).queue
          as (λ q.
            (h.channel c).queue ≡ q
            → IsSound (elim q [
              | [] ↦ h
              | m ∷ ms ↦ set_channel M h c (record (h.channel c) { queue = ms })
            ])) [
              | [] ↦ λ e. s
              | m ∷ ms ↦ λ e. queued-IsSound h c ms s (omega (arith, s.bounded c, ap length e))
            ]
        refl

  run_step-IsSafe : (h : Hub M) (e : Event M) → IsSound h → IsSafe (run_step M h e)
  unfolding run_step
  run_step-IsSafe h connects s = (serve_ws M h, refl, serve_ws-IsSound h s)
  run_step-IsSafe h (disconnects c) s = unregister-IsSafe h c s
  run_step-IsSafe h (broadcasts m) s = send_all-IsSafe m h.clients h s
  run_step-IsSafe h (writes c) s = (take_message M h c, refl, take_message-IsSound h c s)

  run-IsSafe : (h : Hub M) (es : List (Event M)) → IsSound h → IsSafe (run M h es)
  unfolding run
  run-IsSafe h [] s = (h, refl, s)
  run-IsSafe h (e ∷ es) s =
      let (h', k, s') = run_step-IsSafe h e s in rw (k, run) (run-IsSafe h' es s')

  -- Whatever clients connect and disconnect, messages are broadcast and written, in whatever order,
  -- the hub never panics: it never sends on a closed channel nor closes one twice; the channels of its
  -- clients are open, and no channel holds more than 64 messages.
  pub run-new_hub-IsSafe : (es : List (Event M)) → IsSafe (run M (new_hub M) es)
  run-new_hub-IsSafe es = run-IsSafe (new_hub M) es new_hub-IsSound
