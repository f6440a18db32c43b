-- ===== src/Postgres.antt =====
-- The rows of internal/postgres/migrations/001_initial.sql that internal/postgres/messages.go and
-- internal/postgres/accounts.go read and write, and the parts that their functions share.
pub mod Accounts
pub mod Sends
pub mod Ingest
pub mod Outbox
pub mod Conversations
use say.Base.{
  ℕ, suc, String, Bool, false, not, ◌&&◌, Option, none, some, List, [], ◌∷◌, ◌++◌, ◌==◌,
  if◌then◌else◌, is_some,
}
use say.Database.{Error, Result, ok, err, storage, Tx, exec, transact}
use say.Database.Tables.{find, update, select}
use say.Protocol.JsonTree.{Json}

pub record AccountRow : Type 0 where
  pub id : String
  pub user_id : String
  pub platform : String
  pub external_id : Option String
  pub display_name : String
  pub status : String
  pub hosting_mode : String
  pub worker_id : Option String
  pub generation : ℕ  -- bigint, not negative
  pub last_seen_at : Option ℕ
  pub linked_at : Option ℕ
  pub created_at : ℕ

pub record PairingToken : Type 0 where
  pub id : String
  pub account_id : String
  pub token_hash : String
  pub expires_at : ℕ
  pub redeemed_at : Option ℕ
  pub revoked_at : Option ℕ

pub record WorkerCredential : Type 0 where
  pub id : String
  pub account_id : String
  pub token_hash : String
  pub revoked_at : Option ℕ

pub record ConversationRow : Type 0 where
  pub id : String
  pub account_id : String
  pub provider_id : String
  pub title : String
  pub kind : String
  pub unread_count : ℕ
  pub last_message_at : Option ℕ

pub record MessageRow : Type 0 where
  pub id : String
  pub conversation_id : String
  pub provider_id : Option String
  pub author_id : String
  pub author_name : String
  pub body : String
  pub sent_at : ℕ
  pub direction : String
  pub status : String

pub record CommandRow : Type 0 where
  pub id : String
  pub account_id : String
  pub message_id : Option String
  pub idempotency_key : String
  pub command_type : String
  pub payload : Json
  pub status : String
  pub provider_result : Option Json
  pub expires_at : ℕ

-- type Message
pub record Message : Type 0 where
  pub id : String
  pub conversation_id : String
  pub provider_id : String
  pub author_name : String
  pub body : String
  pub sent_at : ℕ
  pub direction : String
  pub status : String

pub record OutboxRow : Type 0 where
  pub id : ℕ
  pub user_id : String
  pub event_type : String
  pub payload : Message
  pub delivered_at : Option ℕ

pub record Db : Type 0 where
  pub accounts : List AccountRow
  pub pairing_tokens : List PairingToken
  pub worker_credentials : List WorkerCredential
  pub conversations : List ConversationRow
  pub messages : List MessageRow
  pub commands : List CommandRow
  pub outbox : List OutboxRow
  pub next_outbox : ℕ

-- What a call meets: the clock of the process, that of the database's transaction, the random
-- source at each read, and at each statement, in the order of the text, whether it fails.
pub record Moment : Type 0 where
  pub now : ℕ
  pub db_now : ℕ
  pub random : ℕ → Option (List ℕ)
  pub fails : ℕ → Bool

-- COALESCE(provider_id, '')
abbrev pub coalesce : Option String → String
coalesce none = ""
coalesce (some s) = s

-- NULLIF(s, '')
abbrev pub null_if_empty : String → Option String
null_if_empty s = if s == "" then none else some s

-- scanMessage, over the columns that every query of it selects
abbrev pub scan_message : MessageRow → Message
scan_message r = record {
  id = r.id;
  conversation_id = r.conversation_id;
  provider_id = coalesce r.provider_id;
  author_name = r.author_name;
  body = r.body;
  sent_at = r.sent_at;
  direction = r.direction;
  status = r.status;
}

unfoldable pub owns_account : String → String → Db → Bool
owns_account user_id account_id db =
    is_some (find (λ a. a.id == account_id && a.user_id == user_id) db.accounts)

-- FROM conversations c JOIN accounts a ON a.id = c.account_id WHERE c.id = $1 AND a.user_id = $2; a
-- conversation's id is the primary key.
unfoldable pub owned_conversation : String → String → Db → Option ConversationRow
owned_conversation user_id conversation_id db =
    elim (find (λ c. c.id == conversation_id) db.conversations) [
      | none ↦ none
      | some c ↦ if owns_account user_id c.account_id db then some c else none
    ]

-- insertOutbox, without the encoding of the payload
unfoldable pub insert_outbox : String → String → Message → Db → Unit {0} × Db
insert_outbox user_id event_type payload db = (
  tt,
  record db {
    outbox =
        db.outbox
        ++ record {
          id = db.next_outbox;
          user_id = user_id;
          event_type = event_type;
          payload = payload;
          delivered_at = none;
        }
          ∷ [];
    next_outbox = suc db.next_outbox;
  },
)

abbrev pub refers_to : (MessageRow → Bool) → List MessageRow → Option String → Bool
refers_to p rows none = false
refers_to p rows (some id) = is_some (find (λ r. r.id == id && p r) rows)

-- DELETE FROM messages WHERE p, with the ON DELETE SET NULL of commands.message_id
unfoldable pub delete_messages : (MessageRow → Bool) → Db → Unit {0} × Db
delete_messages p db = (
  tt,
  record db {
    messages = select (λ r. not (p r)) db.messages;
    commands =
        update (λ c. refers_to p db.messages c.message_id) (λ c. record c { message_id = none })
          db.commands;
  },
)
