-- ===== src/SayApi.antt =====
-- cmd/say-api/main.go: what a worker's event does, and the delivery of the outbox to the clients.
pub mod Events
pub mod Outbox
use say.Base.{
  ℕ, ◌+◌, String, Bool, true, false, Option, none, some, List, [], ◌∷◌, ◌==◌, if◌then◌else◌,
}
use say.Protocol.{
  Envelope, AccountStatus, read_account_status, Decoded, decoded, failed, decode_payload,
}
use say.Protocol.JsonTree.{Json, obj, str, field, end}
use say.Protocol.Payloads.{WireMessage, read_message}
use say.Database.{Error, Result, ok, err, invalid_argument}
use say.Gateway.Account.{Account}
use say.Postgres.{Db, Moment, Message, OutboxRow}
use say.Postgres.Ingest.{Owner, ingest_message}
use say.Postgres.Outbox.{pending_outbox, mark_outbox_delivered}
use say.Realtime.{Hub, publish}

-- The tables, and the hub of the clients.
pub record World : Type 0 where
  pub db : Db
  pub hub : Hub

abbrev done : Result (Unit {0})
done = ok tt

abbrev status_event : Account → AccountStatus → Json
status_event a s = obj (
    field "account_id" (str a.id)
      (field "state" (str s.state) (field "external_id" (str s.external_id) end)))

abbrev pub owner : Account → Owner
owner a = record { id = a.id; user_id = a.user_id; platform = a.platform }

abbrev pub stored : World → Result (Message × Bool) × Db → Result (Unit {0}) × World
stored w (ok _, db) = (done, record w { db = db })
stored w (err e, db) = (err e, record w { db = db })

abbrev on_status : Account → World → Decoded AccountStatus → Result (Unit {0}) × World
on_status a w (failed e) = (err invalid_argument, w)
on_status a w (decoded s) =
    (done, record w { hub = publish a.user_id "account.status" (status_event a s) w.hub })

module _ (parse_time : String → Option ℕ) (to_upper : String → String) where
  abbrev pub on_message : Moment → Account → World → Decoded WireMessage → Result (Unit {0}) × World
  on_message m a w (failed e) = (err invalid_argument, w)
  on_message m a w (decoded x) = stored w (ingest_message true to_upper m (owner a) x w.db)

  -- The event handler of the gateway's hub.
  unfoldable pub handle_event : Moment → Account → Envelope → World → Result (Unit {0}) × World
  unfolding read_message read_account_status decode_payload publish
  handle_event m a e w =
      if e.type == "message.new"
      then on_message m a w (decode_payload (read_message parse_time) e)
      else if e.type == "account.status"
      then on_status a w (decode_payload read_account_status e)
      else (err invalid_argument, w)

-- `payload_of` is the JSON of a message that the outbox holds; Publish fails only on what cannot be
-- encoded, so not on it.
module _ (payload_of : Message → Json) where
  -- One round of the loop: the event is published, then marked.
  unfoldable pub deliver : Moment → OutboxRow → World → Result (Unit {0}) × World
  deliver m e w =
      let r = mark_outbox_delivered m e.id w.db in
      (r.0, record { db = r.1; hub = publish e.user_id e.event_type (payload_of e.payload) w.hub })

  -- The loop of drainOutbox; `marks` are its calls of the store.
  unfoldable pub deliver_each :
      (ℕ → Moment) → ℕ → List OutboxRow → World → Result (Unit {0}) × World
  unfolding deliver
  deliver_each marks n [] w = (done, w)
  deliver_each marks n (e ∷ rest) w =
      let later = deliver_each marks (n + 1) rest (deliver (marks n) e w).1 in
      after (deliver (marks n) e w) later
    where
      after : Result (Unit {0}) × World → Result (Unit {0}) × World → Result (Unit {0}) × World
      after (ok _, w') later = later
      after (err e, w') later = (err e, w')

  abbrev pub drained :
      (ℕ → Moment) → World → Result (List OutboxRow) × Db → Result (Unit {0}) × World
  drained marks w (ok events, db) = deliver_each marks 0 events (record w { db = db })
  drained marks w (err e, db) = (err e, record w { db = db })

  unfoldable pub drain_outbox : Moment → (ℕ → Moment) → World → Result (Unit {0}) × World
  unfolding deliver_each
  drain_outbox m marks w = drained marks w (pending_outbox m 100 w.db)
