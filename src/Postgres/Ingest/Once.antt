-- ===== src/Postgres/Ingest/Once.antt =====
-- A message that a worker reports again is not stored again.
use say.Base.{
  ℕ, suc, String, Bool, true, false, ◌&&◌, ◌||◌, ◌≡◌, ◌≢◌, inl, inr, refl, subst, some, ◌==◌, eqb,
  eq_iff, eq_refl, arith, Bool-cases, Option-cases, random_value,
}
use say.Database.{Error, Result, ok, err}
use say.Database.Tables.{find, update, find-update, find-insert, find-holds}
use say.Database.Keeps.{transact-ok, transact_cases}
use say.Database.Yields.{Yields, yields_rules}
use say.Postgres.{ConversationRow, MessageRow, Message, Db, Moment, scan_message, insert_outbox}
use say.Postgres.Sends.Held.{Works, random-some}
use say.Protocol.Payloads.{WireMessage}
use say.Postgres.Ingest.{
  Owner, has_conversation, active, upsert_conversation, is_same, insert_provided, count_unread,
  ingested_row, new_conversation, on_stored, ingest_body, ingest_message,
}

-- The conversation of a message, and the message itself, as they are stored.
pub record Held (account_id conversation_id message_id : String) (x : Message) (db : Db)
    : Type 0 where
  pub conversation : ConversationRow
  pub row : MessageRow
  pub has : find (has_conversation account_id conversation_id) db.conversations ≡ some conversation
  pub stands : find (is_same conversation.id message_id) db.messages ≡ some row
  pub same : x ≡ scan_message row

-- What an upsert of a conversation leaves.
record Upserted (new : ConversationRow) (id : String) (db db' : Db) : Type 0 where
  conversation : ConversationRow
  has : find (has_conversation new.account_id new.provider_id) db'.conversations ≡ some conversation
  own : conversation.id ≡ id
  messages : db'.messages ≡ db.messages
  outbox : db'.outbox ≡ db.outbox

upsert_conversation-Upserted :
    (new : ConversationRow) (at : ℕ) (id : String) (db db' : Db)
    → upsert_conversation new at db ≡ ok (id, db')
    → Upserted new id db db'
unfolding upsert_conversation
upsert_conversation-Upserted new at id db db' h =
    let same = has_conversation new.account_id new.provider_id in
    elim (Option-cases (find same db.conversations)) [
      | inr (c, e) ↦ record {
        conversation = active at c;
        has = ground (
          arith,
          find-update same same (active at) db.conversations (λ x. refl),
          find-holds same db.conversations c e,
        );
        own = ground arith;
        messages = ground arith;
        outbox = ground arith;
      }
      | inl e ↦ record {
        conversation = new;
        has = ground (
          arith,
          find-insert same new db.conversations,
          eq_refl new.account_id,
          eq_refl new.provider_id,
        );
        own = ground arith;
        messages = ground arith;
        outbox = ground arith;
      }
    ]

module _ (live : Bool) (to_upper : String → String) (m : Moment) (a : Owner) (w : WireMessage) where
  -- The row of a message after it was inserted, or the row that was there before.
  on_stored-Held :
      (id : String) (c : ConversationRow) (stored : Bool) (db : Db) (x : Message) (new : Bool)
      → find (has_conversation a.id w.conversation_id) db.conversations ≡ some c
      → (stored ≡ true
          → find (is_same c.id w.provider_message_id) db.messages ≡ some (ingested_row id c.id w))
      → (on_stored live to_upper m a w (ingested_row id c.id w) stored db).0 ≡ ok (ok (x, new))
      → Held a.id w.conversation_id w.provider_message_id x
          (on_stored live to_upper m a w (ingested_row id c.id w) stored db).1
  unfolding on_stored count_unread insert_outbox
  on_stored-Held id c true db x new has stands h =
      let counted = λ (y : ConversationRow). record y { unread_count = suc y.unread_count } in
      let moved =
        find-update (has_conversation a.id w.conversation_id) (λ y. y.id == c.id) counted
          db.conversations (λ y. refl) in
      let row = stands refl in
      elim (Bool-cases (live && w.direction == "incoming")) [
        | inl counts ↦ record {
          conversation = counted c;
          row = ingested_row id c.id w;
          has = ground (arith, moved, has, eq_refl c.id);
          stands = ground (arith, row);
          same = ground arith;
        }
        | inr quiet ↦ record {
          conversation = c;
          row = ingested_row id c.id w;
          has = ground (arith, has);
          stands = ground (arith, row);
          same = ground arith;
        }
      ]
  on_stored-Held id c false db x new has stands h =
      elim (Option-cases (find (is_same c.id w.provider_message_id) db.messages)) [
        | inl e ↦ absurd (ground arith)
        | inr (row, e) ↦ record {
          conversation = c;
          row = row;
          has = ground (arith, has);
          stands = ground (arith, e);
          same = ground arith;
        }
      ]

  insert_provided-stands :
      (id conversation_id : String) (stored : Bool) (db db' : Db)
      → insert_provided (ingested_row id conversation_id w) w.provider_message_id db
        ≡ ok (stored, db')
      → (db'.conversations ≡ db.conversations)
        × (stored ≡ true
            → find (is_same conversation_id w.provider_message_id) db'.messages
              ≡ some (ingested_row id conversation_id w))
  unfolding insert_provided
  insert_provided-stands id conversation_id stored db db' h =
      let added =
        find-insert (is_same conversation_id w.provider_message_id)
          (ingested_row id conversation_id w) db.messages in
      (
        ground arith,
        λ new. ground (arith, added, eq_refl conversation_id, eq_refl w.provider_message_id),
      )

  ingest_body-Held :
      (db : Db) (x : Message) (new : Bool)
      → (ingest_body live to_upper m a w db).0 ≡ ok (ok (x, new))
      → Held a.id w.conversation_id w.provider_message_id x (ingest_body live to_upper m a w db).1
  unfolding ingest_body
  ingest_body-Held db x new h = elim (Option-cases (random_value "con_" (m.random 0))) [
    | inl e ↦ absurd (ground arith)
    | inr (proposed, r0) ↦ elim (Bool-cases (m.fails 2)) [
      | inl bad ↦ absurd (ground arith)
      | inr f2 ↦ upserted proposed r0 f2 _ refl
    ]
  ]
    where
      into : String → Db → Result (String × Db)
      into proposed = upsert_conversation (new_conversation to_upper a w proposed) w.sent_at

      Goal : Type 0
      Goal =
          Held a.id w.conversation_id w.provider_message_id x (ingest_body live to_upper m a w db).1

      inserted :
          (proposed conversation_id id : String) (middle : Db)
          → random_value "con_" (m.random 0) ≡ some proposed
          → m.fails 2 ≡ false
          → into proposed db ≡ ok (conversation_id, middle)
          → random_value "msg_" (m.random 1) ≡ some id
          → m.fails 3 ≡ false
          → (r : Result (Bool × Db))
          → insert_provided (ingested_row id conversation_id w) w.provider_message_id middle ≡ r
          → Goal
      inserted proposed conversation_id id middle r0 f2 up r1 f3 (err e) q = absurd (ground arith)
      inserted proposed conversation_id id middle r0 f2 up r1 f3 (ok (stored, last)) q =
          let u =
            upsert_conversation-Upserted (new_conversation to_upper a w proposed) w.sent_at
              conversation_id db middle up in
          let i = insert_provided-stands id conversation_id stored middle last q in
          let same : u.conversation.id ≡ conversation_id = u.own in
          rw (r0, f2, up, r1, f3, q, ingest_body, ← same)
            (on_stored-Held id u.conversation stored last x new (ground (arith, u.has, i.0))
              (rw same i.1) (rw same (ground arith)))

      upserted :
          (proposed : String)
          → random_value "con_" (m.random 0) ≡ some proposed
          → m.fails 2 ≡ false
          → (r : Result (String × Db)) → into proposed db ≡ r
          → Goal
      upserted proposed r0 f2 (err e) q = absurd (ground arith)
      upserted proposed r0 f2 (ok (conversation_id, middle)) q =
          elim (Option-cases (random_value "msg_" (m.random 1))) [
            | inl e ↦ absurd (ground arith)
            | inr (id, r1) ↦ elim (Bool-cases (m.fails 3)) [
              | inl bad ↦ absurd (ground arith)
              | inr f3 ↦ inserted proposed conversation_id id middle r0 f2 q r1 f3 _ refl
            ]
          ]

  -- A message that is held comes back as it is; only its conversation may become more recent.
  ingest_message-Held :
      (db : Db) (x : Message)
      → Works m
      → w.provider_message_id ≢ ""
      → w.conversation_id ≢ ""
      → w.sent_at ≢ 0
      → Held a.id w.conversation_id w.provider_message_id x db
      → ingest_message live to_upper m a w db ≡ (
        ok (x, false),
        record db {
          conversations =
              update (has_conversation a.id w.conversation_id) (active w.sent_at) db.conversations;
        },
      )
  unfolding ingest_message ingest_body on_stored upsert_conversation insert_provided
  ingest_message-Held db x works named placed timed v =
      let (proposed, r0) = random-some "con_" (m.random 0) (works.reads 0) in
      let (id, r1) = random-some "msg_" (m.random 1) (works.reads 1) in
      ground (
        arith,
        r0,
        r1,
        works.statements 1,
        works.statements 2,
        works.statements 3,
        works.statements 4,
        works.statements 5,
        v.has,
        v.stands,
        v.same,
        eq_iff w.provider_message_id "",
        eq_iff w.conversation_id "",
      )

  ingest_message-ok :
      (db : Db) (x : Message) (new : Bool)
      → (ingest_message live to_upper m a w db).0 ≡ ok (x, new)
      → (w.provider_message_id ≢ "")
        × (w.conversation_id ≢ "")
        × Held a.id w.conversation_id w.provider_message_id x
            (ingest_message live to_upper m a w db).1
  unfolding ingest_message
  ingest_message-ok db x new h =
      elim (Bool-cases
        (w.provider_message_id == "" || w.conversation_id == "" || eqb w.sent_at 0)) [
          | inl bad ↦ absurd (ground arith)
          | inr fine ↦
              let body = ingest_body live to_upper m a w in
              let t = transact-ok (m.fails 1) body db (x, new) (ground arith) in
              (
                λ e. ground (arith, eq_iff w.provider_message_id ""),
                λ e. ground (arith, eq_iff w.conversation_id ""),
                rw (fine, ingest_message)
                    (subst (Held a.id w.conversation_id w.provider_message_id x) t.1
                      (ingest_body-Held db x new t.0)),
              )
        ]

-- A message that was taken is taken once: when its account reports it again, under the same ids and
-- with any other content, as live or not, the answer is the message as it was, not new. No message
-- and no outbox event is stored, and the conversation can only become more recent. The later call's
-- statements and random source are taken to work, and its message to have a time.
pub ingest_once :
    (live live' : Bool) (to_upper : String → String) (m m' : Moment) (a : Owner)
    (w w' : WireMessage) (db : Db) (x : Message) (new : Bool)
    → (ingest_message live to_upper m a w db).0 ≡ ok (x, new)
    → Works m'
    → w'.provider_message_id ≡ w.provider_message_id
    → w'.conversation_id ≡ w.conversation_id
    → w'.sent_at ≢ 0
    → let db' = (ingest_message live to_upper m a w db).1 in
      ingest_message live' to_upper m' a w' db' ≡ (
        ok (x, false),
        record db' {
          conversations =
              update
                (has_conversation a.id w'.conversation_id)
                (active w'.sent_at)
                db'.conversations;
        },
      )
ingest_once live live' to_upper m m' a w w' db x new h works same_id same_place timed =
    let (named, placed, held) = ingest_message-ok live to_upper m a w db x new h in
    ingest_message-Held live' to_upper m' a w' (ingest_message live to_upper m a w db).1 x works
      (rw same_id named) (rw same_place placed) timed (rw (same_id, same_place) held)

abbrev Taken : Result (Message × Bool) → Type 0
Taken r = (e : Error) → r ≢ err e

Taken-ok : (x : Message × Bool) → Taken (ok x)
Taken-ok x e h = ground arith

on_stored-Taken :
    (live : Bool) (to_upper : String → String) (m : Moment) (a : Owner) (w : WireMessage)
    (r : MessageRow) (stored : Bool)
    → Yields Taken (on_stored live to_upper m a w r stored)
unfolding on_stored
on_stored-Taken live to_upper m a w r true = search (yields_rules, Taken-ok) depth 9
on_stored-Taken live to_upper m a w r false = search (yields_rules, Taken-ok) depth 9

ingest_body-Taken :
    (live : Bool) (to_upper : String → String) (m : Moment) (a : Owner) (w : WireMessage)
    → Yields Taken (ingest_body live to_upper m a w)
unfolding ingest_body
ingest_body-Taken live to_upper m a w = search (yields_rules, on_stored-Taken) depth 9

-- A message that is not taken, for whatever failure, has changed nothing, its conversation included.
pub ingest_failed :
    (live : Bool) (to_upper : String → String) (m : Moment) (a : Owner) (w : WireMessage) (db : Db)
    (e : Error)
    → (ingest_message live to_upper m a w db).0 ≡ err e
    → (ingest_message live to_upper m a w db).1 ≡ db
unfolding ingest_message
ingest_failed live to_upper m a w db e h =
    elim (Bool-cases (w.provider_message_id == "" || w.conversation_id == "" || eqb w.sent_at 0)) [
      | inl bad ↦ ground arith
      | inr fine ↦ elim (transact_cases (m.fails 1) (ingest_body live to_upper m a w) db) [
        | inl same ↦ ground arith
        | inr c ↦ absurd ((ingest_body-Taken live to_upper m a w).at db _ c.0 e (ground arith))
      ]
    ]
