-- ===== src/Examples/Server.antt =====
-- The server: an event that a worker sends twice, and the outbox that it fills.
use say.Base.{ℕ, String, Option, some, [], ◌∷◌, ◌≡◌, ◌≤◌, refl, arith, random_value, length}
use say.Protocol.{Envelope, new_envelope, decode_payload}
use say.Protocol.JsonTree.{obj, field, str, end, null, text_field}
use say.Protocol.Payloads.{read_message, time_field}
use say.Database.{ok}
use say.Database.Tables.{find, update, select}
use say.Postgres.{insert_outbox}
use say.Postgres.Accounts.{scan_account}
use say.Postgres.Ingest.{
  ingest_message, ingest_body, on_stored, upsert_conversation, insert_provided, title, is_group,
  count_unread,
}
use say.Postgres.Outbox.{is_pending}
use say.Realtime.{new_hub}
use say.SayApi.{World, handle_event}
use say.SayApi.Events.{Unchanged, handle_event_again}
use say.SayApi.Outbox.{Round, IsWorking, rounds, waiting, rounds-empty}
use say.Examples.Sends.{at, at-Works, account, tables}

abbrev parse_time : String → Option ℕ
parse_time s = some 90

abbrev event : Envelope
event = new_envelope "message.new" (
    obj (
      field "provider_message_id" (str "p1") (
        field "conversation_id" (str "group:1") (
          field "author_name" (str "Bob") (
            field "body" (str "hi")
              (field "sent_at" (str "1970") (field "direction" (str "incoming") end)))))))

abbrev world : World
world = record { db = tables; hub = new_hub }

abbrev after_event : World
after_event = (handle_event parse_time (λ s. s) (at 100) (scan_account account) event world).1

handles : (handle_event parse_time (λ s. s) (at 100) (scan_account account) event world).0 ≡ ok tt
unfolding new_envelope handle_event decode_payload read_message text_field time_field ingest_message
    ingest_body on_stored upsert_conversation insert_provided title is_group count_unread
    insert_outbox random_value find update
handles = refl

handle_event_again_example :
    let again =
      handle_event parse_time (λ s. s) (at 200) (scan_account account) event after_event in
    (again.0 ≡ ok tt) × Unchanged after_event again.1
unfolding new_envelope
handle_event_again_example =
    handle_event_again parse_time (λ s. s) (at 100) (at 200) (scan_account account) event world refl
      (at-Works 200) handles

abbrev one_round : Round
one_round = record { reads = at 300; marks = λ n. at 310 }

working : IsWorking one_round
working = record { reading = refl; marking = λ n. refl }

one_waits : waiting after_event.db.outbox ≤ length (one_round ∷ [])
unfolding new_envelope handle_event decode_payload read_message text_field time_field ingest_message
    ingest_body on_stored upsert_conversation insert_provided title is_group count_unread
    insert_outbox random_value find update select
one_waits = omega arith

rounds-empty_example :
    select is_pending (rounds (λ x. null) (one_round ∷ []) after_event).db.outbox ≡ []
rounds-empty_example = rounds-empty (λ x. null) (one_round ∷ []) after_event (working, tt) one_waits
