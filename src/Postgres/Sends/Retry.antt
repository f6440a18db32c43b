-- ===== src/Postgres/Sends/Retry.antt =====
-- PrepareSend of internal/postgres/messages.go, called again with the idempotency key of a send.
use say.Base.{
  String, true, false, ◌≡◌, inl, inr, none, some, [], ◌∷◌, ◌++◌, ◌==◌, arith, Bool-cases,
  Option-cases, random_value,
}
use say.Database.{Result, ok}
use say.Database.Tables.{find, update}
use say.Postgres.{ConversationRow, CommandRow, Db, Moment, scan_message, owned_conversation}
use say.Postgres.Sends.{
  SendPreparation, Prepared, fresh, taken, prepare_body, store_send, insert_command, insert_pending,
  send_command, pending_message, has_key,
}

-- The tables after a new send of the given conversation.
abbrev pub linked : String → CommandRow → CommandRow
linked message_id x = record x { message_id = some message_id }

abbrev pub sent_db : Moment → String → String → String → ConversationRow → Db → Db
sent_db m command_id message_id body c db = record db {
  messages = db.messages ++ pending_message m message_id c.id body ∷ [];
  commands = update (λ x. x.id == command_id) (linked message_id) db.commands;
  conversations =
      update (λ x. x.id == c.id) (λ x. record x { last_message_at = some m.now }) db.conversations;
}

abbrev pub sent : Moment → String → String → String → ConversationRow → SendPreparation
sent m command_id message_id body c = record {
  account_id = c.account_id;
  provider_conversation_id = c.provider_id;
  command_id = command_id;
  command_status = "pending";
  message = scan_message (pending_message m message_id c.id body);
  created = true;
}

store_send-sent :
    (m : Moment) (command_id message_id body : String) (c : ConversationRow) (db : Db)
    (r : Result Prepared)
    → (store_send m command_id message_id body c db).0 ≡ ok r
    → (r ≡ ok (fresh (sent m command_id message_id body c)))
      × (find (λ x. x.id == message_id) db.messages ≡ none)
      × ((store_send m command_id message_id body c db).1
          ≡ sent_db m command_id message_id body c db)
unfolding store_send insert_pending
store_send-sent m command_id message_id body c db r h = (ground arith, ground arith, ground arith)

abbrev pub with_command : Moment → String → ConversationRow → String → String → Db → Db
with_command m command_id c body key db = record db {
  commands = db.commands ++ send_command m command_id c body key ∷ [];
}

-- A send that was new.
pub record Fresh (m : Moment) (user_id conversation_id body key : String) (db : Db)
    (p : SendPreparation) (db' : Db) : Type 0 where
  pub conversation : ConversationRow
  pub command_id : String
  pub message_id : String
  pub owned : owned_conversation user_id conversation_id db ≡ some conversation
  pub no_key : find (has_key conversation.account_id key) db.commands ≡ none
  pub no_command : find (λ x. x.id == command_id) db.commands ≡ none
  pub no_message : find (λ x. x.id == message_id) db.messages ≡ none
  pub returns : p ≡ sent m command_id message_id body conversation
  pub leaves :
      db'
      ≡ sent_db m command_id message_id body conversation
          (with_command m command_id conversation body key db)

module _ (m : Moment) (user_id conversation_id body key : String) (db : Db) where
  prepare_body-store_send :
      (c : ConversationRow) (command_id message_id : String)
      → m.fails 2 ≡ false
      → m.fails 3 ≡ false
      → owned_conversation user_id conversation_id db ≡ some c
      → random_value "cmd_" (m.random 0) ≡ some command_id
      → random_value "msg_" (m.random 1) ≡ some message_id
      → find (has_key c.account_id key) db.commands ≡ none
      → find (λ x. x.id == command_id) db.commands ≡ none
      → prepare_body m user_id conversation_id body key db
        ≡ store_send m command_id message_id body c (with_command m command_id c body key db)
  unfolding prepare_body insert_command
  prepare_body-store_send c command_id message_id f2 f3 own r0 r1 nk nc =
      rw (f2, own, r0, r1, f3, nk, nc, prepare_body)

  pub prepare_body-taken :
      (c : ConversationRow) (command_id message_id : String) (old : CommandRow)
      → m.fails 2 ≡ false
      → m.fails 3 ≡ false
      → owned_conversation user_id conversation_id db ≡ some c
      → random_value "cmd_" (m.random 0) ≡ some command_id
      → random_value "msg_" (m.random 1) ≡ some message_id
      → find (has_key c.account_id key) db.commands ≡ some old
      → prepare_body m user_id conversation_id body key db ≡ (ok (ok (taken c.account_id)), db)
  unfolding prepare_body insert_command
  prepare_body-taken c command_id message_id old f2 f3 own r0 r1 k =
      rw (f2, own, r0, r1, f3, k, prepare_body)

  pub prepare_body-Fresh :
      (p : SendPreparation)
      → (prepare_body m user_id conversation_id body key db).0 ≡ ok (ok (fresh p))
      → Fresh m user_id conversation_id body key db p
          (prepare_body m user_id conversation_id body key db).1
  unfolding prepare_body insert_command
  prepare_body-Fresh p h = elim (Bool-cases (m.fails 2)) [
    | inl bad ↦ absurd (ground arith)
    | inr f2 ↦ elim (Option-cases (owned_conversation user_id conversation_id db)) [
      | inl bad ↦ absurd (ground arith)
      | inr (c, own) ↦ elim (Option-cases (random_value "cmd_" (m.random 0))) [
        | inl bad ↦ absurd (ground arith)
        | inr (command_id, r0) ↦ elim (Option-cases (random_value "msg_" (m.random 1))) [
          | inl bad ↦ absurd (ground arith)
          | inr (message_id, r1) ↦ elim (Bool-cases (m.fails 3)) [
            | inl bad ↦ absurd (ground arith)
            | inr f3 ↦ elim (Option-cases (find (has_key c.account_id key) db.commands)) [
              | inr (old, k) ↦
                  let e = prepare_body-taken c command_id message_id old f2 f3 own r0 r1 k in
                  absurd (ground (arith, e, h))
              | inl nk ↦ elim (Option-cases (find (λ x. x.id == command_id) db.commands)) [
                | inr (old, k) ↦ absurd (ground arith)
                | inl nc ↦
                    let e = prepare_body-store_send c command_id message_id f2 f3 own r0 r1 nk nc in
                    let s =
                      store_send-sent m command_id message_id body c
                        (with_command m command_id c body key db) (ok (fresh p))
                        (ground (arith, e, h)) in
                    record {
                      conversation = c;
                      command_id = command_id;
                      message_id = message_id;
                      owned = own;
                      no_key = nk;
                      no_command = nc;
                      no_message = s.1;
                      returns = ground (arith, s.0);
                      leaves = ground (arith, e, s.2);
                    }
              ]
            ]
          ]
        ]
      ]
    ]
  ]
