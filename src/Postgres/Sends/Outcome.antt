-- ===== src/Postgres/Sends/Outcome.antt =====
-- CompleteSend and FailSend of internal/postgres/messages.go.
use say.Base.{
  ℕ, String, Bool, false, not, ◌&&◌, ◌||◌, Option, none, some, List, ◌==◌, if◌then◌else◌, is_some,
}
use say.Database.{
  Result, ok, err, storage, not_found, Tx, ◌>>=◌, ◌>>◌, pure, exec, exec_checked, transact, commit,
  or_raise,
}
use say.Database.Tables.{find, update}
use say.Protocol.JsonTree.{Json, obj, str, end, field}
use say.Postgres.{
  MessageRow, CommandRow, Message, Db, Moment, scan_message, null_if_empty, owns_account,
  insert_outbox, delete_messages,
}
use say.Postgres.Sends.{update_command, message_of}

-- WHERE cmd.id = $1 AND a.user_id = $2; the id is the primary key.
unfoldable pub owned_command : String → String → Db → Option CommandRow
owned_command user_id command_id db = elim (find (λ c. c.id == command_id) db.commands) [
  | none ↦ none
  | some c ↦ if owns_account user_id c.account_id db then some c else none
]

-- The same, with JOIN messages m ON m.id = cmd.message_id.
abbrev pub message_of_command : Db → Option CommandRow → Option MessageRow
message_of_command db none = none
message_of_command db (some c) = message_of c.message_id db.messages

abbrev has_provider : String → Option String → Bool
has_provider provider_id none = false
has_provider provider_id (some s) = s == provider_id

-- conversation_id = $1 AND provider_id = $2 AND id <> $3
abbrev pub is_copy : String → String → String → MessageRow → Bool
is_copy conversation_id provider_id message_id r =
    r.conversation_id == conversation_id
    && (has_provider provider_id r.provider_id && not (r.id == message_id))

-- UPDATE messages … WHERE id = $1 RETURNING …; a row that is not there is an error of the Scan.
unfoldable pub update_message : String → (MessageRow → MessageRow) → Db → Result (Message × Db)
update_message id f db = elim (find (λ r. r.id == id) db.messages) [
  | none ↦ err storage
  | some r ↦
      ok (scan_message (f r), record db { messages = update (λ x. x.id == id) f db.messages })
]

-- The new provider_id has to keep the unique index messages_provider_id_idx.
abbrev taken_provider : MessageRow → Option String → List MessageRow → Bool
taken_provider r none rows = false
taken_provider r (some s) rows = is_some (find (is_copy r.conversation_id s r.id) rows)

abbrev pub sent_as : String → ℕ → MessageRow → MessageRow
sent_as provider_id sent_at r = record r {
  provider_id = null_if_empty provider_id;
  sent_at = sent_at;
  status = "sent";
}

unfoldable pub complete_message : MessageRow → String → ℕ → Db → Result (Message × Db)
unfolding update_message
complete_message r provider_id sent_at db =
    if taken_provider r (null_if_empty provider_id) db.messages
    then err storage
    else update_message r.id (sent_as provider_id sent_at) db

abbrev pub in_outcome : String → Json → CommandRow → CommandRow
in_outcome status result c = record c { status = status; provider_result = some result }

abbrev pub sent_result : String → Json
sent_result provider_id = obj (field "provider_message_id" (str provider_id) end)

abbrev pub error_result : String → Json
error_result code = obj (field "error_code" (str code) end)

abbrev returned : Message → Result Message
returned = ok

abbrev reconcile : Moment → String → MessageRow → Tx Db (Unit {0})
reconcile m provider_id r =
    if provider_id == ""
    then pure tt
    else exec (m.fails 3) (delete_messages (is_copy r.conversation_id provider_id r.id))

-- The rest of CompleteSend, once the copies are gone.
unfoldable pub complete_rest :
    Moment → String → String → String → ℕ → MessageRow → Tx Db (Result Message)
unfolding complete_message update_command insert_outbox
complete_rest m user_id command_id provider_id sent_at r = do
  message ← exec_checked (m.fails 4) (complete_message r provider_id sent_at)
  exec (m.fails 5) (update_command command_id (in_outcome "completed" (sent_result provider_id)))
  exec (m.fails 6) (insert_outbox user_id "message.updated" message)
  commit (m.fails 7) (returned message)

unfoldable pub complete_row :
    Moment → String → String → String → ℕ → MessageRow → Tx Db (Result Message)
unfolding delete_messages complete_rest
complete_row m user_id command_id provider_id sent_at r = do
  reconcile m provider_id r
  complete_rest m user_id command_id provider_id sent_at r

unfoldable pub complete_body : Moment → String → String → String → ℕ → Tx Db (Result Message)
complete_body m user_id command_id provider_id sent_at = do
  found ← exec (m.fails 2) (λ db. (message_of_command db (owned_command user_id command_id db), db))
  r ← or_raise not_found found
  complete_row m user_id command_id provider_id sent_at r

unfoldable pub complete_send : Moment → String → String → String → ℕ → Db → Result Message × Db
unfolding complete_body complete_row
complete_send m user_id command_id provider_id sent_at =
    transact (m.fails 1) (complete_body m user_id command_id provider_id sent_at)

abbrev pub failure_status : String → String
failure_status code =
    if code == "worker_timeout" || code == "signal_send_unknown" then "unknown" else "failed"

-- Scan of a NULL message_id into a string is an error.
abbrev pub scan_id : CommandRow → Tx Db String
scan_id c = or_raise storage c.message_id

abbrev in_status : String → MessageRow → MessageRow
in_status status r = record r { status = status }

unfoldable pub fail_row : Moment → String → String → String → String → Tx Db (Result Message)
unfolding update_message update_command insert_outbox
fail_row m user_id command_id code message_id = do
  exec (m.fails 3)
      (update_command command_id (in_outcome (failure_status code) (error_result code)))
  message ← exec_checked (m.fails 4) (update_message message_id (in_status (failure_status code)))
  exec (m.fails 5) (insert_outbox user_id "message.updated" message)
  commit (m.fails 6) (returned message)

unfoldable pub fail_body : Moment → String → String → String → Tx Db (Result Message)
fail_body m user_id command_id code = do
  found ← exec (m.fails 2) (λ db. (owned_command user_id command_id db, db))
  c ← or_raise not_found found
  message_id ← scan_id c
  fail_row m user_id command_id code message_id

unfoldable pub fail_send : Moment → String → String → String → Db → Result Message × Db
unfolding fail_body fail_row
fail_send m user_id command_id code = transact (m.fails 1) (fail_body m user_id command_id code)
