-- ===== src/GraphSync/Replies.antt =====
-- What graph_sync.go does with a batch of messages, and replies to them.
use vibranium_quadsquad.Base.{
  ◌≤◌, ◌<◌, ℕ, String, Bool, true, false, ◌||◌, Option, none, some, List, [], ◌∷◌, ◌≡◌, ◌≢◌, refl,
  ap, ◌∙◌, ◌⊎◌, inl, inr, Option-cases, Bool-cases, arith, eq_iff, str_eq,
}
use vibranium_quadsquad.Base.Float.{Float, lt}
use vibranium_quadsquad.GraphSync.{
  Neo4j, LiquidityUpdateEvent, Property, liquidity_volume, base_fee, latency, Reply, ack, nak,
  process_message, process_batch, update_liquidity_volume, update_base_fee, update_latency,
  update_node_status, update_property,
}

-- What a message may ask of the database.
pub data Update (F : Type 0) : Type 0 where
  set : String → String → Property F → ℕ → Update F
  switch : String → Bool → Update F
  nothing : Update F

module _ (f : Float) where
  -- Both ends of an edge are given.
  pub record HasEnds (e : LiquidityUpdateEvent f.F) : Type 0 where
    pub from : e.source_id ≢ ""
    pub to : e.target_id ≢ ""

  -- The update that an event asks for.
  pub data Means (e : LiquidityUpdateEvent f.F) : Update f.F → Type 0 where
    volume :
        e.event_type ≡ "volume_change"
        → HasEnds e
        → Means e (set e.source_id e.target_id (liquidity_volume (f.trunc e.new_value)) e.timestamp)
    fee :
        e.event_type ≡ "fee_change"
        → HasEnds e
        → Means e (set e.source_id e.target_id (base_fee e.new_value) e.timestamp)
    delay :
        e.event_type ≡ "latency_change"
        → HasEnds e
        → Means e (set e.source_id e.target_id (latency (f.trunc e.new_value)) e.timestamp)
    up :
        e.event_type ≡ "status_change"
        → f.rank f.zero < f.rank e.new_value
        → Means e (switch e.node_id true)
    down :
        e.event_type ≡ "status_change"
        → f.rank e.new_value ≤ f.rank f.zero
        → Means e (switch e.node_id false)
    unknown :
        e.event_type ≢ "volume_change"
        → e.event_type ≢ "fee_change"
        → e.event_type ≢ "status_change"
        → e.event_type ≢ "latency_change"
        → Means e nothing

  -- A message that asks for nothing that could be done: it is no event, or an end is missing.
  pub data Refused : Option (LiquidityUpdateEvent f.F) → Type 0 where
    undecoded : Refused none
    no_ends :
        {e : LiquidityUpdateEvent f.F}
        → (e.event_type ≡ "volume_change")
          ⊎ ((e.event_type ≡ "fee_change") ⊎ (e.event_type ≡ "latency_change"))
        → (e.source_id ≡ "") ⊎ (e.target_id ≡ "")
        → Refused (some e)

  ends_cases :
      (e : LiquidityUpdateEvent f.F)
      → ((str_eq e.source_id "" || str_eq e.target_id "" ≡ false) × HasEnds e)
        ⊎ ((str_eq e.source_id "" || str_eq e.target_id "" ≡ true)
            × ((e.source_id ≡ "") ⊎ (e.target_id ≡ "")))
  ends_cases e = elim (Bool-cases (str_eq e.source_id "")) [
    | inl a ↦ inr (ground arith, inl ((eq_iff e.source_id "").0 a))
    | inr a ↦ elim (Bool-cases (str_eq e.target_id "")) [
      | inl b ↦ inr (ground arith, inr ((eq_iff e.target_id "").0 b))
      | inr b ↦ inl (
        ground arith,
        record {
          from = λ q. absurd (ground (arith, (eq_iff e.source_id "").1 q));
          to = λ q. absurd (ground (arith, (eq_iff e.target_id "").1 q));
        },
      )
    ]
  ]

  module _ (n : Neo4j f.F) where
    abbrev pub perform : Update f.F → n.Db → Option n.Db
    perform (set a b p now) d = n.update_edge a b p now d
    perform (switch id b) d = n.set_node_active id b d
    perform nothing d = some d

    -- A message, the database, the reply to it, and the database after it.
    pub data Handled : Option (LiquidityUpdateEvent f.F) → n.Db → Reply → n.Db → Type 0 where
      refused : {m : Option (LiquidityUpdateEvent f.F)} {d : n.Db} → Refused m → Handled m d nak d
      failed :
          {e : LiquidityUpdateEvent f.F} {u : Update f.F} {d : n.Db}
          → Means e u
          → perform u d ≡ none
          → Handled (some e) d nak d
      applied :
          {e : LiquidityUpdateEvent f.F} {u : Update f.F} {d d' : n.Db}
          → Means e u
          → perform u d ≡ some d'
          → Handled (some e) d ack d'

    pub data AllHandled
        : List (Option (LiquidityUpdateEvent f.F)) → n.Db → List Reply → n.Db → Type 0 where
      here : {d : n.Db} → AllHandled [] d [] d
      then :
          {m : Option (LiquidityUpdateEvent f.F)} {ms : List (Option (LiquidityUpdateEvent f.F))}
          {d d' d'' : n.Db} {a : Reply} {as_ : List Reply}
          → Handled m d a d'
          → AllHandled ms d' as_ d''
          → AllHandled (m ∷ ms) d (a ∷ as_) d''

    Understood : LiquidityUpdateEvent f.F → Type 0
    Understood e =
        (Refused (some e) × ((d : n.Db) → process_message f n (some e) d ≡ none))
        ⊎ ((u : Update f.F) × Means e u
            × ((d : n.Db) → process_message f n (some e) d ≡ perform u d))

    -- An event that sets a property of an edge.
    edge_case :
        (e : LiquidityUpdateEvent f.F) (p : Property f.F)
        → ((e.event_type ≡ "volume_change")
            ⊎ ((e.event_type ≡ "fee_change") ⊎ (e.event_type ≡ "latency_change")))
        → (HasEnds e → Means e (set e.source_id e.target_id p e.timestamp))
        → ((d : n.Db) → process_message f n (some e) d ≡ update_property f n p e d)
        → Understood e
    unfolding Understood
    edge_case e p kind means same = elim (ends_cases e) [
      | inl (b, ends) ↦ inr (_, means ends, λ d. same d ∙ rw b refl)
      | inr (b, gone) ↦ inl (no_ends kind gone, λ d. same d ∙ rw b refl)
    ]

    update_node_status-eq :
        (e : LiquidityUpdateEvent f.F) (b : Bool)
        → lt f f.zero e.new_value ≡ b
        → (d : n.Db) → update_node_status f n e d ≡ n.set_node_active e.node_id b d
    unfolding update_node_status
    update_node_status-eq e b h d = ap (λ z. n.set_node_active e.node_id z d) h

    status_case :
        (e : LiquidityUpdateEvent f.F)
        → e.event_type ≡ "status_change"
        → ((d : n.Db) → process_message f n (some e) d ≡ update_node_status f n e d)
        → Understood e
    unfolding Understood
    status_case e kind same = elim (Bool-cases (lt f f.zero e.new_value)) [
      | inl b ↦ inr (_, up kind (ground arith), λ d. same d ∙ update_node_status-eq e true b d)
      | inr b ↦ inr (_, down kind (ground arith), λ d. same d ∙ update_node_status-eq e false b d)
    ]

    message_cases : (e : LiquidityUpdateEvent f.F) → Understood e
    unfolding Understood process_message update_liquidity_volume update_base_fee update_latency
    message_cases e = elim (Bool-cases (str_eq e.event_type "volume_change")) [
      | inl a ↦
          let kind = (eq_iff e.event_type "volume_change").0 a in
          edge_case e _ (inl kind) (volume kind) (λ d. rw a refl)
      | inr a ↦ elim (Bool-cases (str_eq e.event_type "fee_change")) [
        | inl c ↦
            let kind = (eq_iff e.event_type "fee_change").0 c in
            edge_case e _ (inr (inl kind)) (fee kind) (λ d. rw (a, c) refl)
        | inr c ↦ elim (Bool-cases (str_eq e.event_type "status_change")) [
          | inl s ↦
              status_case e ((eq_iff e.event_type "status_change").0 s) (λ d. rw (a, c, s) refl)
          | inr s ↦ elim (Bool-cases (str_eq e.event_type "latency_change")) [
            | inl l ↦
                let kind = (eq_iff e.event_type "latency_change").0 l in
                edge_case e _ (inr (inr kind)) (delay kind) (λ d. rw (a, c, s, l) refl)
            | inr l ↦ inr (
              nothing,
              unknown (λ q. absurd (ground (arith, (eq_iff e.event_type "volume_change").1 q)))
                  (λ q. absurd (ground (arith, (eq_iff e.event_type "fee_change").1 q)))
                  (λ q. absurd (ground (arith, (eq_iff e.event_type "status_change").1 q)))
                  (λ q. absurd (ground (arith, (eq_iff e.event_type "latency_change").1 q))),
              λ d. rw (a, c, s, l) refl,
            )
          ]
        ]
      ]
    ]

    -- Each message of a batch is answered in turn: one that is no event, or that changes an edge
    -- without naming both ends, is refused and changes nothing; any other asks for the one update
    -- that its type and value say, none for an unknown type, and is acknowledged exactly when the
    -- database, as the messages before it left it, makes that update.
    pub process_batch-AllHandled :
        (ms : List (Option (LiquidityUpdateEvent f.F))) (d : n.Db)
        → let r = process_batch f n ms d in AllHandled ms d r.0 r.1
    unfolding process_batch Understood
    process_batch-AllHandled [] d = here
    process_batch-AllHandled (none ∷ ms) d =
        then (refused undecoded) (process_batch-AllHandled ms d)
    process_batch-AllHandled (some e ∷ ms) d = elim (message_cases e) [
      | inl (gone, none_) ↦ rw (none_ d) (then (refused gone) (process_batch-AllHandled ms d))
      | inr (u, means, does) ↦ elim (Option-cases (perform u d)) [
        | inl bad ↦ rw (does d ∙ bad) (then (failed means bad) (process_batch-AllHandled ms d))
        | inr (d', good) ↦
            rw (does d ∙ good) (then (applied means good) (process_batch-AllHandled ms d'))
      ]
    ]
