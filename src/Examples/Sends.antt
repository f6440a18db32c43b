-- ===== src/Examples/Sends.antt =====
-- A send from its preparation to its dispatch.
use say.Base.{ℕ, true, false, ◌≡◌, refl, none, some, [], ◌∷◌, arith, random_value}
use say.Database.{ok}
use say.Database.Tables.{find, update, select}
use say.Postgres.{
  AccountRow, ConversationRow, delete_messages, insert_outbox, Message, Db, Moment,
  owned_conversation, owns_account,
}
use say.Postgres.Sends.{
  SendPreparation, prepare_send, prepare_body, store_send, insert_command, insert_pending,
  update_command, touch_conversation,
}
use say.Postgres.Sends.Dispatch.{mark_command_dispatched, dispatch_row, dispatch_once}
use say.Postgres.Sends.Outcome.{
  complete_send, complete_body, complete_row, complete_rest, complete_message, update_message,
  owned_command,
}
use say.Postgres.Sends.Completion.{Completed, complete_send-Completed}
use say.Postgres.Sends.Held.{Works}

abbrev pub at : ℕ → Moment
at now = record { now = now; db_now = now; random = λ n. some (n ∷ []); fails = λ n. false }

pub at-Works : (now : ℕ) → Works (at now)
at-Works now = record { statements = λ n. refl; reads = λ n. refl }

abbrev pub account : AccountRow
account = record {
  id = "acc";
  user_id = "ann";
  platform = "signal";
  external_id = none;
  display_name = "Phone";
  status = "live";
  hosting_mode = "self_hosted";
  worker_id = none;
  generation = 0;
  last_seen_at = none;
  linked_at = none;
  created_at = 10;
}

abbrev pub conversation : ConversationRow
conversation = record {
  id = "con";
  account_id = "acc";
  provider_id = "+1";
  title = "Bob";
  kind = "direct";
  unread_count = 0;
  last_message_at = none;
}

-- A conversation of ann, on her account acc.
abbrev pub tables : Db
tables = record {
  accounts = account ∷ [];
  pairing_tokens = [];
  worker_credentials = [];
  conversations = conversation ∷ [];
  messages = [];
  commands = [];
  outbox = [];
  next_outbox = 0;
}

abbrev pub message : Message
message = record {
  id = "msg_01";
  conversation_id = "con";
  provider_id = "";
  author_name = "You";
  body = "hi";
  sent_at = 100;
  direction = "outgoing";
  status = "pending";
}

abbrev preparation : SendPreparation
preparation = record {
  account_id = "acc";
  provider_conversation_id = "+1";
  command_id = "cmd_00";
  command_status = "pending";
  message = message;
  created = true;
}

abbrev holding : Db
holding = (prepare_send (at 100) "ann" "con" "hi" "key" tables).1

won : (mark_command_dispatched (at 150) "cmd_00" holding).0 ≡ ok true
unfolding mark_command_dispatched dispatch_row prepare_send prepare_body store_send insert_command
    insert_pending update_command touch_conversation owned_conversation owns_account random_value
    find update
won = refl

dispatch_once_example :
    let db = (mark_command_dispatched (at 150) "cmd_00" holding).1 in
    mark_command_dispatched (at 160) "cmd_00" db ≡ (ok false, db)
dispatch_once_example = dispatch_once (at 150) (at 160) "cmd_00" holding true won refl (omega arith)

abbrev sent : Message
sent = record message { provider_id = "p9"; sent_at = 155; status = "sent" }

completed : (complete_send (at 160) "ann" "cmd_00" "p9" 155 holding).0 ≡ ok sent
unfolding complete_send complete_body complete_row complete_rest complete_message update_message
    owned_command delete_messages insert_outbox prepare_send prepare_body store_send insert_command
    insert_pending update_command touch_conversation owned_conversation owns_account random_value
    find update select
completed = refl

complete_send-Completed_example :
    Completed "ann" "cmd_00" "p9" 155 holding sent
      (complete_send (at 160) "ann" "cmd_00" "p9" 155 holding).1
complete_send-Completed_example =
    complete_send-Completed (at 160) "ann" "cmd_00" "p9" 155 holding sent completed
