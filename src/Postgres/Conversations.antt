-- ===== src/Postgres/Conversations.antt =====
-- The conversations and messages that internal/postgres/messages.go reads for a user, and the
-- synchronisation of conversations.
pub mod Access
use say.Base.{
  ℕ, ◌+◌, String, Bool, true, false, not, ◌&&◌, ◌||◌, Option, none, some, List, [], ◌∷◌, ◌++◌, ◌==◌,
  eqb, ltb, map, if◌then◌else◌, is_some, random_value,
}
use say.Database.{
  Error, Result, ok, err, storage, random_failed, not_found, Tx, ◌>>=◌, ◌>>◌, pure, raise, exec,
  exec_checked, transact, commit, or_raise,
}
use say.Database.Tables.{find, update, select}
use say.Database.Order.{order_by, limit}
use say.Protocol.Payloads.{WireConversation}
use say.Postgres.{
  AccountRow, ConversationRow, MessageRow, Message, Db, Moment, scan_message, owns_account,
  owned_conversation,
}
use say.Postgres.Ingest.{has_conversation}

pub record ConversationTarget : Type 0 where
  pub account_id : String
  pub provider_id : String
  pub platform : String

abbrev pub renamed : WireConversation → ConversationRow → ConversationRow
renamed w c = record c { title = w.title; kind = w.kind }

-- INSERT INTO conversations … ON CONFLICT (account_id, provider_id) DO UPDATE
unfoldable pub sync_conversation : String → String → WireConversation → Db → Result (Unit {0} × Db)
sync_conversation id account_id w db =
    let same = has_conversation account_id w.provider_id in
    if is_some (find same db.conversations)
    then ok (tt, record db { conversations = update same (renamed w) db.conversations })
    else if is_some (find (λ c. c.id == id) db.conversations)
        || not (is_some (find (λ a. a.id == account_id) db.accounts))
    then err storage
    else ok (
      tt,
      record db {
        conversations =
            db.conversations
            ++ record {
              id = id;
              account_id = account_id;
              provider_id = w.provider_id;
              title = w.title;
              kind = w.kind;
              unread_count = 0;
              last_message_at = none;
            }
              ∷ [];
      },
    )

-- The loop; `n` counts its statements and its reads of the random source.
unfoldable pub sync_each : Moment → String → ℕ → List WireConversation → Tx Db (Unit {0})
unfolding sync_conversation
sync_each m account_id n [] = pure tt
sync_each m account_id n (w ∷ rest) =
    let next = sync_each m account_id (n + 1) rest in
    if w.provider_id == "" then next else do
      id ← or_raise random_failed (random_value "con_" (m.random n))
      exec_checked (m.fails (n + 4)) (sync_conversation id account_id w)
      next

unfoldable pub upsert_body :
    Moment → String → String → List WireConversation → Tx Db (Result (Unit {0}))
unfolding sync_each
upsert_body m user_id account_id conversations = do
  owns ← exec (m.fails 2) (λ db. (owns_account user_id account_id db, db))
  if owns then pure tt else raise not_found
  sync_each m account_id 0 conversations
  commit (m.fails 3) (ok tt)

unfoldable pub upsert_conversations :
    Moment → String → String → List WireConversation → Db → Result (Unit {0}) × Db
unfolding upsert_body
upsert_conversations m user_id account_id conversations =
    transact (m.fails 1) (upsert_body m user_id account_id conversations)

-- ORDER BY last_message_at DESC NULLS LAST, title, id
module _ (below : String → String → Bool) where
  abbrev text_before : String → String → Bool → Bool
  text_before s t rest = below s t || (s == t && rest)

  abbrev pub more_recent : ConversationRow → ConversationRow → Bool
  more_recent c d = by_time c.last_message_at d.last_message_at
    where
      by_time : Option ℕ → Option ℕ → Bool
      by_time (some s) (some t) =
          ltb t s || (eqb s t && text_before c.title d.title (below c.id d.id))
      by_time (some s) none = true
      by_time none (some t) = false
      by_time none none = text_before c.title d.title (below c.id d.id)

  abbrev pub newer : MessageRow → MessageRow → Bool
  newer r x = ltb x.sent_at r.sent_at || (eqb r.sent_at x.sent_at && below x.id r.id)

  unfoldable pub list_conversations :
      Moment → String → String → Db → Result (List ConversationRow) × Db
  list_conversations m user_id account_id = exec (m.fails 1) (λ db. (
    limit 100 (
        order_by more_recent (
          select (λ c. c.account_id == account_id && owns_account user_id c.account_id db)
            db.conversations)),
    db,
  ))

  unfoldable pub list_messages : Moment → String → String → Db → Result (List Message) × Db
  list_messages m user_id conversation_id = do
    owns ← exec (m.fails 1) (λ db. (is_some (owned_conversation user_id conversation_id db), db))
    if owns then pure tt else raise not_found
    exec (m.fails 2) (λ db. (
      map scan_message (
          limit 100 (
            order_by newer (
              select
                (λ r.
                  r.conversation_id == conversation_id
                  && is_some (owned_conversation user_id r.conversation_id db))
                db.messages))),
      db,
    ))

abbrev platform_of : String → Db → Option String
platform_of account_id db = elim (find (λ a. a.id == account_id) db.accounts) [
  | none ↦ none
  | some a ↦ some a.platform
]

abbrev target_of : ConversationRow → Option String → Option ConversationTarget
target_of c none = none
target_of c (some platform) =
    some (record { account_id = c.account_id; provider_id = c.provider_id; platform = platform })

abbrev joined : Db → Option ConversationRow → Option ConversationTarget
joined db none = none
joined db (some c) = target_of c (platform_of c.account_id db)

unfoldable pub get_conversation_target :
    Moment → String → String → Db → Result ConversationTarget × Db
get_conversation_target m user_id conversation_id = do
  found ← exec (m.fails 1) (λ db. (joined db (owned_conversation user_id conversation_id db), db))
  or_raise not_found found
