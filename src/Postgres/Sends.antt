-- ===== src/Postgres/Sends.antt =====
-- internal/postgres/messages.go: a send from its preparation to its outcome.
pub mod Dispatch
pub mod Retry
pub mod Held
pub mod Idempotence
pub mod Outcome
pub mod Completion
use say.Base.{
  ℕ, ◌+◌, ◌*◌, ◌^◌, String, Bool, true, false, not, ◌&&◌, ◌||◌, Option, none, some, List, [], ◌∷◌,
  ◌++◌, ◌==◌, if◌then◌else◌, is_some, ltb, random_value,
}
use say.Database.{
  Error, Result, ok, err, storage, random_failed, not_found, Tx, ◌>>=◌, ◌>>◌, pure, raise, exec,
  exec_checked, transact, commit, or_raise, continue,
}
use say.Database.Tables.{find, update, select}
use say.Protocol.JsonTree.{Json, obj, str, Fields, end, field}
use say.Postgres.{
  AccountRow, ConversationRow, MessageRow, CommandRow, Message, OutboxRow, Db, Moment, scan_message,
  coalesce, null_if_empty, owns_account, owned_conversation, insert_outbox, delete_messages,
}

pub record SendPreparation : Type 0 where
  pub account_id : String
  pub provider_conversation_id : String
  pub command_id : String
  pub command_status : String
  pub message : Message
  pub created : Bool

abbrev pub send_payload : String → String → String → Json
send_payload conversation_id body key = obj (
    field "conversation_id" (str conversation_id)
      (field "body" (str body) (field "idempotency_key" (str key) end)))

abbrev pub send_command : Moment → String → ConversationRow → String → String → CommandRow
send_command m id c body key = record {
  id = id;
  account_id = c.account_id;
  message_id = none;
  idempotency_key = key;
  command_type = "send";
  payload = send_payload c.provider_id body key;
  status = "pending";
  provider_result = none;
  expires_at = m.db_now + 5 * 60 * 10 ^ 9;
}

abbrev pub has_key : String → String → CommandRow → Bool
has_key account_id key c = c.account_id == account_id && c.idempotency_key == key

-- INSERT INTO commands … ON CONFLICT (account_id, idempotency_key) DO NOTHING; the flag says whether
-- a row was inserted.
unfoldable pub insert_command : CommandRow → Db → Result (Bool × Db)
insert_command c db =
    if is_some (find (has_key c.account_id c.idempotency_key) db.commands)
    then ok (false, db)
    else if is_some (find (λ x. x.id == c.id) db.commands)
    then err storage
    else ok (true, record db { commands = db.commands ++ c ∷ [] })

abbrev pub pending_message : Moment → String → String → String → MessageRow
pending_message m id conversation_id body = record {
  id = id;
  conversation_id = conversation_id;
  provider_id = none;
  author_id = "self";
  author_name = "You";
  body = body;
  sent_at = m.now;
  direction = "outgoing";
  status = "pending";
}

-- INSERT INTO messages with no provider_id
unfoldable pub insert_pending : MessageRow → Db → Result (Unit {0} × Db)
insert_pending r db =
    if is_some (find (λ x. x.id == r.id) db.messages)
    then err storage
    else ok (tt, record db { messages = db.messages ++ r ∷ [] })

unfoldable pub update_command : String → (CommandRow → CommandRow) → Db → Unit {0} × Db
update_command id f db = (tt, record db { commands = update (λ c. c.id == id) f db.commands })

unfoldable pub touch_conversation : String → ℕ → Db → Unit {0} × Db
touch_conversation id at db = (
  tt,
  record db {
    conversations =
        update (λ c. c.id == id) (λ c. record c { last_message_at = some at }) db.conversations;
  },
)

-- JOIN messages m ON m.id = cmd.message_id
abbrev pub message_of : Option String → List MessageRow → Option MessageRow
message_of none rows = none
message_of (some id) rows = find (λ r. r.id == id) rows

abbrev preparation : String → CommandRow → MessageRow → ConversationRow → SendPreparation
preparation account_id cmd r c = record {
  account_id = account_id;
  provider_conversation_id = c.provider_id;
  command_id = cmd.id;
  command_status = cmd.status;
  message = scan_message r;
  created = cmd.status == "pending";
}

abbrev join_conversation : String → CommandRow → Db → MessageRow → Result SendPreparation
join_conversation account_id cmd db r =
    elim (find (λ c. c.id == r.conversation_id) db.conversations) [
      | none ↦ err storage
      | some c ↦ ok (preparation account_id cmd r c)
    ]

abbrev join_message : String → Db → CommandRow → Result SendPreparation
join_message account_id db cmd = elim (message_of cmd.message_id db.messages) [
  | none ↦ err storage
  | some r ↦ join_conversation account_id cmd db r
]

-- existingSend; no row is an error like those of the database
unfoldable pub existing_send : String → String → Bool → Db → Result SendPreparation
existing_send account_id key fails db =
    if fails then err storage else elim (find (has_key account_id key) db.commands) [
      | none ↦ err storage
      | some cmd ↦ join_message account_id db cmd
    ]

-- What the transaction of PrepareSend comes to: a new send, or that the key was there.
pub data Prepared : Type 0 where
  fresh : SendPreparation → Prepared
  taken : String → Prepared

-- The rest of the transaction, once the command is inserted.
unfoldable pub store_send :
    Moment → String → String → String → ConversationRow → Tx Db (Result Prepared)
unfolding update_command touch_conversation
store_send m command_id message_id body c = do
  let r = pending_message m message_id c.id body
  exec_checked (m.fails 4) (insert_pending r)
  exec (m.fails 5) (update_command command_id (λ x. record x { message_id = some message_id }))
  exec (m.fails 6) (touch_conversation c.id m.now)
  commit (m.fails 7) (
      ok (
        fresh (record {
          account_id = c.account_id;
          provider_conversation_id = c.provider_id;
          command_id = command_id;
          command_status = "pending";
          message = scan_message r;
          created = true;
        })))

-- The flag says whether the command was inserted; if not, PrepareSend rolls back and goes on to
-- existingSend.
abbrev pub on_inserted :
    Moment → String → String → String → ConversationRow → Bool → Tx Db (Result Prepared)
on_inserted m command_id message_id body c true = store_send m command_id message_id body c
on_inserted m command_id message_id body c false = pure (ok (taken c.account_id))

unfoldable pub prepare_body : Moment → String → String → String → String → Tx Db (Result Prepared)
prepare_body m user_id conversation_id body key = do
  found ← exec (m.fails 2) (λ db. (owned_conversation user_id conversation_id db, db))
  c ← or_raise not_found found
  command_id ← or_raise random_failed (random_value "cmd_" (m.random 0))
  message_id ← or_raise random_failed (random_value "msg_" (m.random 1))
  inserted ← exec_checked (m.fails 3) (insert_command (send_command m command_id c body key))
  on_inserted m command_id message_id body c inserted

-- A new send is committed. A key that was there is looked up in the tables as they were.
abbrev pub or_existing : Bool → String → Db → Result Prepared × Db → Result SendPreparation × Db
or_existing fails key db (ok (fresh p), db') = (ok p, db')
or_existing fails key db (ok (taken account_id), db') = (existing_send account_id key fails db, db)
or_existing fails key db (err e, db') = (err e, db)

unfoldable pub prepare_send :
    Moment → String → String → String → String → Db → Result SendPreparation × Db
unfolding prepare_body
prepare_send m user_id conversation_id body key db =
    or_existing (m.fails 8) key db
      (transact (m.fails 1) (prepare_body m user_id conversation_id body key) db)
