-- ===== src/HttpApi/Listing.antt =====
-- listConversations and listMessages in internal/httpapi/router.go.
use say.Base.{
  ℕ, ◌+◌, String, Bool, true, false, ◌&&◌, ◌||◌, Option, none, some, List, [], ◌∷◌, ◌==◌,
  if◌then◌else◌,
}
use say.Protocol.JsonTree.{Json}
use say.Protocol.Payloads.{WireConversation, WireMessage, read_conversations, read_messages}
use say.Database.{Result, ok, err, not_found}
use say.Gateway.Account.{Account}
use say.Gateway.Hub.{Reply, reply, refused}
use say.Postgres.{Db, Moment, ConversationRow, Message}
use say.Postgres.Accounts.{get_account}
use say.Postgres.Conversations.{
  ConversationTarget, list_conversations, list_messages, get_conversation_target,
  upsert_conversations,
}
use say.Postgres.Ingest.{Owner, ingest_message}
use say.HttpApi.{Response, write_error, internal_error, conversations, messages}

-- What one call meets: its calls of the store in the order of the text, those of CacheMessage by
-- their number, and what the hub answers if it is asked.
pub record Run : Type 0 where
  pub checks : Moment
  pub lists : Moment
  pub stores : Moment
  pub caches : ℕ → Moment
  pub lists_again : Moment
  pub answer : Reply

abbrev not_configured : Response
not_configured = write_error 503 "messages_not_configured" "message storage is not configured"

abbrev shown_conversations : List ConversationRow → Response
shown_conversations l = record { status = 200; body = conversations l }

abbrev shown_messages : List Message → Response
shown_messages l = record { status = 200; body = messages l }

-- What the answer of the hub decodes to, if it is a reply.
abbrev pub synced : {T : Type 0} → (Json → Option T) → Reply → Option T
synced read (reply (some v)) = read v
synced read (reply none) = none
synced read (refused e) = none

-- The answer to a call of the store, with what follows if it succeeds.
abbrev pub or_answer :
    {A B : Type 0}
    → Response
    → B
    → Result A × Db
    → (A → Db → (Response × B) × Db)
    → (Response × B) × Db
or_answer response b (ok x, db) f = f x db
or_answer response b (err e, db) f = ((response, b), db)

abbrev pub or_missing :
    {A B : Type 0}
    → String
    → String
    → B
    → Result A × Db
    → (A → Db → (Response × B) × Db)
    → (Response × B) × Db
or_missing missing failed b (ok x, db) f = f x db
or_missing missing failed b (err not_found, db) f = ((write_error 404 "not_found" missing, b), db)
or_missing missing failed b (err _, db) f = ((internal_error failed, b), db)

abbrev pub is_empty : {A : Type 0} → List A → Bool
is_empty [] = true
is_empty _ = false

module _ (below : String → String → Bool) where
  abbrev pub upserted :
      Run
      → String
      → String
      → List ConversationRow
      → Option (List WireConversation)
      → Db
      → (Response × Bool) × Db
  upserted run user_id account_id old none db = ((shown_conversations old, true), db)
  upserted run user_id account_id old (some found) db =
      or_answer (internal_error "failed to cache conversations") true
        (upsert_conversations run.stores user_id account_id found db)
        (λ (_ : Unit {0}) db'.
          or_answer (internal_error "failed to list conversations") true
            (list_conversations below run.lists_again user_id account_id db')
            (λ l db''. ((shown_conversations l, true), db'')))

  -- `refresh` says whether the query asks for it. The flag says whether the worker is asked.
  unfoldable pub list_conversations_of :
      Bool → Run → String → String → Bool → Db → (Response × Bool) × Db
  unfolding read_conversations
  list_conversations_of false run user_id account_id refresh db = ((not_configured, false), db)
  list_conversations_of true run user_id account_id refresh db =
      if account_id == ""
      then ((write_error 400 "invalid_request" "account_id is required", false), db)
      else or_missing "account not found" "failed to read account" false
          (get_account run.checks user_id account_id db)
          (λ (_ : Account) db'.
            or_answer (internal_error "failed to list conversations") false
              (list_conversations below run.lists user_id account_id db')
              (λ old db''.
                if is_empty old || refresh
                then upserted run user_id account_id old (synced read_conversations run.answer) db''
                else ((shown_conversations old, false), db'')))

  module _ (parse_time : String → Option ℕ) (to_upper : String → String) where
    abbrev owner : Account → Owner
    owner a = record { id = a.id; user_id = a.user_id; platform = a.platform }

    -- The loop over the history; its result is whether every message was cached.
    unfoldable pub cache_each : Run → Owner → ℕ → List WireMessage → Db → Result (Unit {0}) × Db
    unfolding ingest_message
    cache_each run a n [] db = (ok tt, db)
    cache_each run a n (w ∷ rest) db =
        let r = ingest_message false to_upper (run.caches n) a w db in
        let later = cache_each run a (n + 1) rest r.1 in after r later
      where
        after : Result (Message × Bool) × Db → Result (Unit {0}) × Db → Result (Unit {0}) × Db
        after (ok _, db') later = later
        after (err e, db') later = (err e, db')

    abbrev pub cached :
        Run
        → String
        → String
        → ConversationTarget
        → List Message
        → Option (List WireMessage)
        → Db
        → (Response × Bool) × Db
    cached run user_id conversation_id target old none db = ((shown_messages old, true), db)
    cached run user_id conversation_id target old (some history) db =
        or_answer (internal_error "failed to read account") true
          (get_account run.stores user_id target.account_id db)
          (λ a db'.
            or_answer (internal_error "failed to cache message history") true
              (cache_each run (owner a) 0 history db')
              (λ (_ : Unit {0}) db''.
                or_answer (internal_error "failed to list messages") true
                  (list_messages below run.lists_again user_id conversation_id db'')
                  (λ l db'''. ((shown_messages l, true), db'''))))

    unfoldable pub list_messages_of :
        Bool → Run → String → String → Bool → Db → (Response × Bool) × Db
    unfolding read_messages cache_each
    list_messages_of false run user_id conversation_id refresh db = ((not_configured, false), db)
    list_messages_of true run user_id conversation_id refresh db =
        or_missing "conversation not found" "failed to read conversation" false
          (get_conversation_target run.checks user_id conversation_id db)
          (λ target db'.
            or_answer (internal_error "failed to list messages") false
              (list_messages below run.lists user_id conversation_id db')
              (λ old db''.
                if target.platform == "telegram" && (is_empty old || refresh)
                then cached run user_id conversation_id target old
                    (synced (read_messages parse_time) run.answer) db''
                else ((shown_messages old, false), db'')))
