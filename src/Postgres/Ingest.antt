-- ===== src/Postgres/Ingest.antt =====
-- IngestMessage and CacheMessage of internal/postgres/messages.go: a message of a worker is stored
-- with its conversation, once.
pub mod Once
use Prim.Native.String.{slice}
use say.Base.{
  ℕ, suc, ◌+◌, String, len, Bool, true, false, not, ◌&&◌, ◌||◌, Option, none, some, List, [], ◌∷◌,
  ◌++◌, ◌==◌, eqb, ltb, if◌then◌else◌, is_some, cat, has_prefix, random_value,
}
use say.Database.{
  Error, Result, ok, err, storage, random_failed, invalid_argument, Tx, ◌>>=◌, ◌>>◌, pure, exec,
  exec_checked, transact, commit, or_raise,
}
use say.Database.Tables.{find, update}
use say.Protocol.Payloads.{WireMessage}
use say.Postgres.{ConversationRow, MessageRow, Message, Db, Moment, scan_message, insert_outbox}

-- What ingestMessage reads of gateway.Account.
pub record Owner : Type 0 where
  pub id : String
  pub user_id : String
  pub platform : String

unfoldable pub is_group : Owner → WireMessage → Bool
is_group a w =
    has_prefix w.conversation_id "group:"
    || (a.platform == "telegram" && has_prefix w.conversation_id "-")

-- `to_upper` is strings.ToUpper.
unfoldable pub title : (String → String) → Owner → WireMessage → String
unfolding is_group
title to_upper a w =
    if is_group a w
    then cat (to_upper (slice a.platform 0 1)) (cat (slice a.platform 1 (len a.platform)) " group")
    else w.author_name

abbrev pub has_conversation : String → String → ConversationRow → Bool
has_conversation account_id provider_id c =
    c.account_id == account_id && c.provider_id == provider_id

abbrev pub later : ℕ → Option ℕ → Option ℕ
later at none = some at
later at (some t) = if ltb t at then some at else some t

abbrev pub active : ℕ → ConversationRow → ConversationRow
active at c = record c { last_message_at = later at c.last_message_at }

-- INSERT INTO conversations … ON CONFLICT (account_id, provider_id) DO UPDATE … RETURNING id
unfoldable pub upsert_conversation : ConversationRow → ℕ → Db → Result (String × Db)
upsert_conversation new at db =
    let same = has_conversation new.account_id new.provider_id in
    elim (find same db.conversations) [
      | some c ↦ ok (c.id, record db { conversations = update same (active at) db.conversations })
      | none ↦
          if is_some (find (λ c. c.id == new.id) db.conversations)
            || not (is_some (find (λ a. a.id == new.account_id) db.accounts))
          then err storage
          else ok (new.id, record db { conversations = db.conversations ++ new ∷ [] })
    ]

abbrev pub is_provided : String → Option String → Bool
is_provided provider_id none = false
is_provided provider_id (some s) = s == provider_id

abbrev pub is_same : String → String → MessageRow → Bool
is_same conversation_id provider_id r =
    r.conversation_id == conversation_id && is_provided provider_id r.provider_id

-- INSERT INTO messages … ON CONFLICT (conversation_id, provider_id) DO NOTHING RETURNING id, of a row
-- with the given provider_id; the flag says whether a row was returned.
unfoldable pub insert_provided : MessageRow → String → Db → Result (Bool × Db)
insert_provided r provider_id db =
    if is_some (find (is_same r.conversation_id provider_id) db.messages)
    then ok (false, db)
    else if is_some (find (λ x. x.id == r.id) db.messages)
        || not (r.direction == "incoming" || r.direction == "outgoing")
    then err storage
    else ok (true, record db { messages = db.messages ++ r ∷ [] })

unfoldable pub count_unread : String → Db → Unit {0} × Db
count_unread id db = (
  tt,
  record db {
    conversations =
        update (λ c. c.id == id) (λ c. record c { unread_count = suc c.unread_count })
          db.conversations;
  },
)

abbrev pub ingested_row : String → String → WireMessage → MessageRow
ingested_row id conversation_id w = record {
  id = id;
  conversation_id = conversation_id;
  provider_id = some w.provider_message_id;
  author_id = w.author_id;
  author_name = w.author_name;
  body = w.body;
  sent_at = w.sent_at;
  direction = w.direction;
  status = "sent";
}

abbrev pub new_conversation : (String → String) → Owner → WireMessage → String → ConversationRow
new_conversation to_upper a w id = record {
  id = id;
  account_id = a.id;
  provider_id = w.conversation_id;
  title = title to_upper a w;
  kind = if is_group a w then "group" else "direct";
  unread_count = 0;
  last_message_at = some w.sent_at;
}

-- `live` tells IngestMessage from CacheMessage.
module _ (live : Bool) (to_upper : String → String) (m : Moment) (a : Owner) (w : WireMessage) where
  abbrev announce : String → Message → Tx Db (Unit {0})
  announce conversation_id cached = do
    if live && w.direction == "incoming"
        then exec (m.fails 6) (count_unread conversation_id)
        else pure tt
    if live then exec (m.fails 7) (insert_outbox a.user_id "message.new" cached) else pure tt

  unfoldable pub on_stored : MessageRow → Bool → Tx Db (Result (Message × Bool))
  unfolding count_unread insert_outbox
  on_stored r true = do
    announce r.conversation_id (scan_message r)
    commit (m.fails 8) (ok (scan_message r, true))
  on_stored r false = do
    found ←
        exec (m.fails 4)
          (λ db. (find (is_same r.conversation_id w.provider_message_id) db.messages, db))
    old ← or_raise storage found
    commit (m.fails 5) (ok (scan_message old, false))

  unfoldable pub ingest_body : Tx Db (Result (Message × Bool))
  unfolding on_stored upsert_conversation insert_provided title
  ingest_body = do
    proposed ← or_raise random_failed (random_value "con_" (m.random 0))
    conversation_id ←
        exec_checked (m.fails 2)
          (upsert_conversation (new_conversation to_upper a w proposed) w.sent_at)
    id ← or_raise random_failed (random_value "msg_" (m.random 1))
    stored ←
        exec_checked (m.fails 3)
          (insert_provided (ingested_row id conversation_id w) w.provider_message_id)
    on_stored (ingested_row id conversation_id w) stored

  unfoldable pub ingest_message : Db → Result (Message × Bool) × Db
  unfolding ingest_body
  ingest_message db =
      if w.provider_message_id == "" || w.conversation_id == "" || eqb w.sent_at 0
      then (err invalid_argument, db)
      else transact (m.fails 1) ingest_body db
