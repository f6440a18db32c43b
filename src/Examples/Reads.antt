-- ===== src/Examples/Reads.antt =====
-- The outbox, a pruning and the listings, on the tables of a user.
use say.Base.{
  ℕ, ◌≡◌, String, Bool, false, refl, arith, inr, none, some, List, [], ◌∷◌, ◌==◌, random_value, eqb,
}
use say.Database.{ok, err, Error}
use say.Database.Tables.{find, update, select}
use say.Database.Order.{order_by, insert_by, limit}
use say.Postgres.{MessageRow, OutboxRow, Db, Moment, owned_conversation, owns_account}
use say.Postgres.Outbox.{pending_outbox, mark_outbox_delivered, prune}
use say.Postgres.Outbox.Delivery.{IsKept, prune-find}
use say.Protocol.Payloads.{WireConversation}
use say.Postgres.Conversations.{
  list_messages, upsert_conversations, upsert_body, sync_each, sync_conversation,
}
use say.Examples.Sends.{at, tables, message}

abbrev event : ℕ → OutboxRow
event id = record {
  id = id;
  user_id = "ann";
  event_type = "message.new";
  payload = message;
  delivered_at = none;
}

abbrev row : MessageRow
row = record {
  id = "msg_01";
  conversation_id = "con";
  provider_id = none;
  author_id = "self";
  author_name = "You";
  body = "hi";
  sent_at = 100;
  direction = "outgoing";
  status = "sent";
}

abbrev full : Db
full = record tables { outbox = event 0 ∷ event 1 ∷ []; messages = row ∷ [] }

-- The order of texts does not matter here.
abbrev below : String → String → Bool
below s t = false

waiting : (pending_outbox (at 200) 1 full).0 ≡ ok (event 0 ∷ [])
unfolding pending_outbox order_by insert_by limit select
waiting = refl

marked : (mark_outbox_delivered (at 200) 0 full).0 ≡ ok tt
unfolding mark_outbox_delivered
marked = refl

left : (pending_outbox (at 300) 10 (mark_outbox_delivered (at 200) 0 full).1).0 ≡ ok (event 1 ∷ [])
unfolding mark_outbox_delivered pending_outbox order_by insert_by limit select update
left = refl

stored : find (λ x. x.id == "msg_01") full.messages ≡ some row
unfolding find
stored = refl

kept : IsKept below (at 1000) 10 1 full.messages row
kept = inr (inr (omega arith))

prune-find_example :
    let db' = (prune below (at 1000) 10 1 full).1 in
    (find (λ x. x.id == "msg_01") db'.messages ≡ some row)
    × (db'.accounts ≡ full.accounts)
    × (db'.conversations ≡ full.conversations)
prune-find_example = prune-find below (at 1000) 10 1 full "msg_01" row stored kept

foreign : owned_conversation "bob" "con" full ≡ none
unfolding owned_conversation owns_account find
foreign = refl

listed :
    (list_messages below (at 200) "ann" "con" full).0 ≡ ok (record message { status = "sent" } ∷ [])
unfolding list_messages owned_conversation owns_account find select order_by insert_by limit
listed = refl

abbrev synced : List WireConversation
synced =
    record { provider_id = "+1"; title = "Robert"; kind = "direct" }
    ∷ record { provider_id = "+2"; title = "Eve"; kind = "direct" }
    ∷ []

-- The statement for the second conversation fails.
abbrev broken : Moment
broken = record (at 100) { fails = λ n. eqb n 5 }

failing : (upsert_conversations broken "ann" "acc" synced full).0 ≡ err Error.storage
unfolding upsert_conversations upsert_body sync_each sync_conversation owns_account random_value
    find update
failing = refl
