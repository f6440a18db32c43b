-- ===== src/SayApi/Events.antt =====
-- A worker's event that the handler of cmd/say-api/main.go gets again.
use say.Base.{ℕ, String, Bool, true, ◌≡◌, ◌≢◌, refl, ap, Option, ◌==◌, arith, eq_iff}
use say.Protocol.{Envelope, Decoded, decoded, failed, decode_payload}
use say.Protocol.Payloads.{WireMessage, read_message}
use say.Database.{Result, ok, err}
use say.Gateway.Account.{Account}
use say.Postgres.{Db, Moment, Message}
use say.Postgres.Sends.Held.{Works}
use say.Postgres.Ingest.{ingest_message}
use say.Postgres.Ingest.Once.{ingest_once}
use say.SayApi.{World, handle_event, on_message, stored, owner}

-- What a repeated event leaves as it was.
pub record Unchanged (w w' : World) : Type 0 where
  pub messages : w'.db.messages ≡ w.db.messages
  pub commands : w'.db.commands ≡ w.db.commands
  pub outbox : w'.db.outbox ≡ w.db.outbox
  pub hub : w'.hub ≡ w.hub

module _ (parse_time : String → Option ℕ) (to_upper : String → String) (m m' : Moment)
    (a : Account) where
  ingest-timed :
      (x : WireMessage) (db : Db) (r : Message × Bool)
      → (ingest_message true to_upper m (owner a) x db).0 ≡ ok r
      → x.sent_at ≢ 0
  unfolding ingest_message
  ingest-timed x db r h e = ground (arith, e)

  on_message-again :
      (x : WireMessage) (w : World)
      → Works m'
      → (on_message parse_time to_upper m a w (decoded x)).0 ≡ ok tt
      → let w₁ = (on_message parse_time to_upper m a w (decoded x)).1 in
        let again = on_message parse_time to_upper m' a w₁ (decoded x) in
        (again.0 ≡ ok tt) × Unchanged w₁ again.1
  on_message-again x w works = by_result (ingest_message true to_upper m (owner a) x w.db) refl
    where
      by_result :
          (r : Result (Message × Bool) × Db)
          → ingest_message true to_upper m (owner a) x w.db ≡ r
          → (stored w r).0 ≡ ok tt
          → let w₁ = (stored w r).1 in
            let again = on_message parse_time to_upper m' a w₁ (decoded x) in
            (again.0 ≡ ok tt) × Unchanged w₁ again.1
      by_result (err e, db) is h = absurd (ground arith)
      by_result (ok (y, new), db) is h =
          let first = ap (λ r. r.0) is in
          let once =
            ingest_once true true to_upper m m' (owner a) x x w.db y new first works refl refl
              (ingest-timed x w.db (y, new) first) in
          let o = rw is at once in
          rw o (refl, record { messages = refl; commands = refl; outbox = refl; hub = refl })

  -- A message.new event that was handled is handled once: when the worker sends it again, since it did
  -- not get the acknowledgement, the handler succeeds again, and no message, command, outbox
  -- event or queue of a client changes. The statements and the random source are taken to work then.
  pub handle_event_again :
      (e : Envelope) (w : World)
      → e.type ≡ "message.new"
      → Works m'
      → (handle_event parse_time to_upper m a e w).0 ≡ ok tt
      → let w₁ = (handle_event parse_time to_upper m a e w).1 in
        let again = handle_event parse_time to_upper m' a e w₁ in
        (again.0 ≡ ok tt) × Unchanged w₁ again.1
  unfolding handle_event
  handle_event_again e w kind works =
      let is : (e.type == "message.new") ≡ true = (eq_iff e.type "message.new").1 kind in
      rw is (by_payload (decode_payload (read_message parse_time) e))
    where
      by_payload :
          (d : Decoded WireMessage)
          → (on_message parse_time to_upper m a w d).0 ≡ ok tt
          → let w₁ = (on_message parse_time to_upper m a w d).1 in
            let again = on_message parse_time to_upper m' a w₁ d in
            (again.0 ≡ ok tt) × Unchanged w₁ again.1
      by_payload (failed x) h = absurd (ground arith)
      by_payload (decoded x) h = on_message-again x w works h
