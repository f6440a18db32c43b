-- ===== src/Examples/Ingest.antt =====
-- A message that a worker reports twice.
use say.Base.{ℕ, ◌≡◌, ◌≢◌, true, false, refl, arith, random_value, eqb}
use say.Database.{ok, err, Error}
use say.Database.Tables.{find, update}
use say.Postgres.{Message, Moment, insert_outbox}
use say.Protocol.Payloads.{WireMessage}
use say.Postgres.Ingest.{
  Owner, ingest_message, ingest_body, on_stored, upsert_conversation, insert_provided, title,
  is_group, count_unread, has_conversation, active,
}
use say.Postgres.Ingest.Once.{ingest_once, ingest_failed}
use say.Examples.Sends.{at, at-Works, tables}

abbrev ann : Owner
ann = record { id = "acc"; user_id = "ann"; platform = "signal" }

abbrev report : WireMessage
report = record {
  provider_message_id = "p1";
  conversation_id = "group:1";
  author_id = "bob";
  author_name = "Bob";
  body = "hi";
  sent_at = 90;
  direction = "incoming";
}

abbrev message : Message
message = record {
  id = "msg_01";
  conversation_id = "con_00";
  provider_id = "p1";
  author_name = "Bob";
  body = "hi";
  sent_at = 90;
  direction = "incoming";
  status = "sent";
}

taken : (ingest_message true (λ s. s) (at 100) ann report tables).0 ≡ ok (message, true)
unfolding ingest_message ingest_body on_stored upsert_conversation insert_provided title is_group
    count_unread insert_outbox random_value find update
taken = refl

timed : ◌≢◌ {A = ℕ} 95 0
timed e = omega (arith, e)

ingest_once_example :
    let db = (ingest_message true (λ s. s) (at 100) ann report tables).1 in
    ingest_message false (λ s. s) (at 200) ann (record report { sent_at = 95 }) db ≡ (
      ok (message, false),
      record db {
        conversations = update (has_conversation "acc" "group:1") (active 95) db.conversations;
      },
    )
ingest_once_example =
    ingest_once true false (λ s. s) (at 100) (at 200) ann report (record report { sent_at = 95 })
      tables message true taken (at-Works 200) refl refl timed

-- The statement that stores the message fails.
abbrev broken : Moment
broken = record (at 100) { fails = λ n. eqb n 3 }

failing : (ingest_message true (λ s. s) broken ann report tables).0 ≡ err Error.storage
unfolding ingest_message ingest_body upsert_conversation insert_provided title is_group random_value
    find update
failing = refl

ingest_failed_example : (ingest_message true (λ s. s) broken ann report tables).1 ≡ tables
ingest_failed_example = ingest_failed true (λ s. s) broken ann report tables Error.storage failing
