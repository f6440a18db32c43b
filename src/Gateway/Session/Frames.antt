-- ===== src/Gateway/Session/Frames.antt =====
-- Which frames of a worker reach the gateway, and when an event is acknowledged.
use say.Base.{
  Bool, true, ◌≡◌, ◌≢◌, ◌⊎◌, inl, inr, refl, none, some, ◌==◌, eq_iff, arith, Option-cases,
  Bool-cases,
}
use say.Protocol.{
  Envelope, validate, decode_payload, AccountStatus, read_account_status, Decoded, decoded, failed,
}
use say.Gateway.Account.{Account}
use say.Gateway.Session.{Backend, skip, event_ack, acknowledge, publish, serve_event, serve_frame}

module _ {W : Type 0} (b : Backend W) (account : Account) (written : Bool) (e : Envelope)
    (w : W) where
  -- A frame that Validate refuses, or that names a generation other than the session's, comes to
  -- nothing: the session goes on, with the world as it was, no answer and no delivery.
  pub serve_frame_fenced :
      (serve_frame b account written e w ≡ skip w)
      ⊎ ((validate e ≡ none) × ((e.generation ≡ 0) ⊎ (e.generation ≡ account.generation)))
  unfolding serve_frame
  serve_frame_fenced = ground arith

-- The identity that the event reports, if it reports one, was stored.
pub data Persisted {W : Type 0} (b : Backend W) (account : Account) (e : Envelope) (w w' : W)
    : Type 0 where
  no_identity : e.type ≢ "account.status" → w' ≡ w → Persisted b account e w w'
  identity :
      (s : AccountStatus)
      → decode_payload read_account_status e ≡ decoded s
      → b.set_identity account.id account.generation s.state s.external_id w ≡ (true, w')
      → Persisted b account e w w'

-- The event handler, if the hub has one, returned no error.
pub data Handled {W : Type 0} (b : Backend W) (account : Account) (e : Envelope) (w w' : W)
    : Type 0 where
  no_handler : b.on_event ≡ none → w' ≡ w → Handled b account e w w'
  by_handler :
      (handler : Account → Envelope → W → Bool × W)
      → b.on_event ≡ some handler
      → handler account e w ≡ (true, w')
      → Handled b account e w w'

module _ {W : Type 0} (b : Backend W) (account : Account) (written : Bool) where
  publish-Handled :
      (e m : Envelope) (w : W)
      → (publish b account written e w).sent ≡ some m
      → Handled b account e w (publish b account written e w).world
        × (m ≡ event_ack e.id account.generation)
        × (e.id ≢ "")
  unfolding publish acknowledge
  publish-Handled e m w sent = elim (Option-cases b.on_event) [
    | inl x ↦ (no_handler x (ground arith), ground arith, λ z. ground (arith, eq_iff e.id ""))
    | inr (handler, x) ↦ elim (Bool-cases (handler account e w).0) [
      | inl y ↦
          (by_handler handler x (ground arith), ground arith, λ z. ground (arith, eq_iff e.id ""))
      | inr y ↦ absurd (ground arith)
    ]
  ]

  -- What an answer tells of the event before it.
  abbrev pub Acknowledged : Envelope → Envelope → W → W → Type 0
  Acknowledged event m before after =
      (middle : W) × Persisted b account event before middle
      × Handled b account event middle after
      × (m ≡ event_ack event.id account.generation)
      × (event.id ≢ "")

  serve_event-Acknowledged :
      (e m : Envelope) (w : W)
      → (serve_event b account written e w).sent ≡ some m
      → Acknowledged e m w (serve_event b account written e w).world
  unfolding serve_event
  serve_event-Acknowledged e m w sent = elim (Bool-cases (e.type == "account.status")) [
    | inl is ↦ status is (decode_payload read_account_status e) refl
    | inr other ↦
        let h = publish-Handled e m w (rw (other, serve_event) at sent) in
        rw (other, serve_event)
          (w, no_identity (λ z. ground (arith, eq_iff e.type "account.status")) refl, h.0, h.1, h.2)
  ]
    where
      status :
          (e.type == "account.status") ≡ true
          → (d : Decoded AccountStatus) → decode_payload read_account_status e ≡ d
          → Acknowledged e m w (serve_event b account written e w).world
      status is (failed x) q = absurd (ground arith)
      status is (decoded s) q =
          let r = b.set_identity account.id account.generation s.state s.external_id w in
          elim (Bool-cases r.0) [
            | inl fine ↦
                let same : r ≡ (true, r.1) = ground arith in
                let h = publish-Handled e m r.1 (rw (is, q, same, serve_event) at sent) in
                rw (is, q, same, serve_event) (r.1, identity s q same, h.0, h.1, h.2)
            | inr bad ↦ absurd (ground arith)
          ]

  serve_frame-sent :
      (e m : Envelope) (w : W)
      → (serve_frame b account written e w).sent ≡ some m
      → serve_frame b account written e w
        ≡ serve_event b account written (record e { generation = account.generation }) w
  unfolding serve_frame
  serve_frame-sent e m w sent = ground arith

  -- Where a frame is answered, the event that it holds, with the session's generation, was taken in
  -- full before: its identity was stored if it reports one, and the handler then returned no error.
  -- The answer acknowledges that event's id, which is not empty.
  pub serve_frame-Acknowledged :
      (e m : Envelope) (w : W)
      → (serve_frame b account written e w).sent ≡ some m
      → Acknowledged
          (record e { generation = account.generation })
          m
          w
          (serve_frame b account written e w).world
  serve_frame-Acknowledged e m w sent =
      let same = serve_frame-sent e m w sent in
      rw same (
        serve_event-Acknowledged (record e { generation = account.generation }) m w
          (rw same at sent))
