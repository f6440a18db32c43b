-- ===== src/Postgres/Conversations/Access.antt =====
-- Who reads, syncs and sends to which conversations.
use say.Base.{
  ◌≤◌, String, Bool, true, false, ◌&&◌, ◌≡◌, ◌≢◌, inl, inr, refl, none, List, [], ◌∷◌, ◌==◌, eq_iff,
  arith, map, is_some, Bool-cases, length, All,
}
use say.Database.{Error, Result, ok, err, not_found}
use say.Database.Tables.{select}
use say.Database.Order.{order_by, limit, All-order_by, All-limit, length-limit}
use say.Database.Keeps.{transact_cases}
use say.Database.Yields.{Yields, yields_rules}
use say.Postgres.{MessageRow, Message, Db, Moment, scan_message, owned_conversation}
use say.Postgres.Sends.{prepare_send, prepare_body}
use say.Protocol.Payloads.{WireConversation}
use say.Postgres.Conversations.{
  list_messages, newer, get_conversation_target, upsert_conversations, upsert_body,
}

-- A user is refused at a conversation that is not the user's, as if it were not there: reading its
-- messages, finding where it is sent to and preparing a send all answer not found, and nothing
-- changes. The first statements of the calls are taken to work.
pub outsider_refused :
    (below : String → String → Bool) (m : Moment) (user_id conversation_id body key : String)
    (db : Db)
    → owned_conversation user_id conversation_id db ≡ none
    → m.fails 1 ≡ false
    → m.fails 2 ≡ false
    → (list_messages below m user_id conversation_id db ≡ (err not_found, db))
      × (get_conversation_target m user_id conversation_id db ≡ (err not_found, db))
      × (prepare_send m user_id conversation_id body key db ≡ (err not_found, db))
unfolding list_messages get_conversation_target prepare_send prepare_body
outsider_refused below m user_id conversation_id body key db foreign f1 f2 =
    (ground (arith, foreign, f1), ground (arith, foreign, f1), ground (arith, foreign, f1, f2))

in_conversation :
    (p : MessageRow → Bool) (conversation_id : String) (rows : List MessageRow)
    → All
        (λ r. r.conversation_id ≡ conversation_id)
        (select (λ r. r.conversation_id == conversation_id && p r) rows)
unfolding select
in_conversation p conversation_id [] = tt
in_conversation p conversation_id (r ∷ rows) =
    elim (Bool-cases (r.conversation_id == conversation_id && p r)) [
      | inl e ↦
          rw (e, select)
            (
              ground (arith, e, eq_iff r.conversation_id conversation_id),
              in_conversation p conversation_id rows,
            )
      | inr e ↦ rw (e, select) (in_conversation p conversation_id rows)
    ]

scanned :
    (conversation_id : String) (rows : List MessageRow)
    → All (λ r. r.conversation_id ≡ conversation_id) rows
    → All (λ x. x.conversation_id ≡ conversation_id) (map scan_message rows)
      × (length (map scan_message rows) ≡ length rows)
scanned conversation_id [] h = (tt, refl)
scanned conversation_id (r ∷ rows) h =
    let rest = scanned conversation_id rows h.1 in ((h.0, rest.0), ground (arith, rest.1))

-- Who is given messages of a conversation owns it. The messages are of that conversation alone, and
-- at most 100. Nothing changes.
pub list_messages_lem :
    (below : String → String → Bool) (m : Moment) (user_id conversation_id : String) (db : Db)
    (messages : List Message)
    → (list_messages below m user_id conversation_id db).0 ≡ ok messages
    → (is_some (owned_conversation user_id conversation_id db) ≡ true)
      × All (λ x. x.conversation_id ≡ conversation_id) messages
      × (length messages ≤ 100)
      × ((list_messages below m user_id conversation_id db).1 ≡ db)
unfolding list_messages
list_messages_lem below m user_id conversation_id db messages h =
    let p = λ (r : MessageRow). is_some (owned_conversation user_id r.conversation_id db) in
    let chosen =
      select (λ (r : MessageRow). r.conversation_id == conversation_id && p r) db.messages in
    let sorted = order_by (newer below) chosen in
    let rows = limit 100 sorted in
    let own =
      All-limit _ 100 sorted
        (All-order_by _ (newer below) chosen (in_conversation p conversation_id db.messages)) in
    let s = scanned conversation_id rows own in
    let short = length-limit 100 sorted in
    elim (Bool-cases (m.fails 1)) [
      | inl bad ↦ absurd (ground arith)
      | inr f1 ↦ elim (Bool-cases (is_some (owned_conversation user_id conversation_id db))) [
        | inr foreign ↦ absurd (ground arith)
        | inl mine ↦ elim (Bool-cases (m.fails 2)) [
          | inl bad ↦ absurd (ground arith)
          | inr f2 ↦
              let same : map scan_message rows ≡ messages = ground arith in
              (
                mine,
                rw (← same) s.0,
                rw (← same) (rw s.1 short),
                rw (f1, mine, f2, list_messages) refl,
              )
        ]
      ]
    ]

abbrev Synced : Result (Unit {0}) → Type 0
Synced r = (e : Error) → r ≢ err e

tt-Synced : Synced (ok tt)
tt-Synced e h = ground arith

upsert_body-Synced :
    (m : Moment) (user_id account_id : String) (ws : List WireConversation)
    → Yields Synced (upsert_body m user_id account_id ws)
unfolding upsert_body
upsert_body-Synced m user_id account_id ws = search (yields_rules, tt-Synced) depth 9

-- A synchronisation is all or nothing: where it fails, at whichever conversation of the list, none
-- has been stored.
pub upsert_conversations_failed :
    (m : Moment) (user_id account_id : String) (ws : List WireConversation) (db : Db) (e : Error)
    → (upsert_conversations m user_id account_id ws db).0 ≡ err e
    → (upsert_conversations m user_id account_id ws db).1 ≡ db
unfolding upsert_conversations
upsert_conversations_failed m user_id account_id ws db e h =
    elim (transact_cases (m.fails 1) (upsert_body m user_id account_id ws) db) [
      | inl same ↦ same
      | inr c ↦ absurd (
          (upsert_body-Synced m user_id account_id ws).at db
            (upsert_conversations m user_id account_id ws db).0 c.0 e h)
    ]
