-- ===== src/HttpApi/Sending/Steps.antt =====
-- What each of the store's calls in sendMessage does to the commands.
use say.Base.{
  ℕ, String, Bool, true, false, ◌||◌, ◌≡◌, inl, inr, refl, sym, subst, none, List, ◌==◌, arith,
  Bool-cases, Option-cases, is_some,
}
use say.Protocol.JsonTree.{Json}
use say.Database.{Result, ok, err, transact, Tx}
use say.Database.Tables.{find}
use say.Database.Keeps.{Keeps, keeps_rules, Keeps-pure, transact_cases}
use say.Postgres.{
  CommandRow, MessageRow, ConversationRow, Message, Db, Moment, delete_messages, insert_outbox,
  refers_to,
}
use say.Postgres.Sends.{
  prepare_send, prepare_body, store_send, on_inserted, Prepared, insert_command, insert_pending,
  update_command, touch_conversation, or_existing, has_key, fresh, taken,
}
use say.Postgres.Sends.Retry.{linked}
use say.Postgres.Sends.Dispatch.{mark_command_dispatched, is_dispatchable, dispatched}
use say.Postgres.Sends.Outcome.{
  complete_send, complete_body, complete_row, complete_rest, complete_message, update_message,
  fail_send, fail_body, fail_row, in_outcome, failure_status,
}
use say.HttpApi.Sending.Settled.{Safe, Stable}

linked-Safe : (id : String) → Safe (linked id)
linked-Safe id = record {
  same_id = λ c. refl;
  same_account = λ c. refl;
  same_key = λ c. refl;
  stays = λ c h. h;
}

dispatched-Safe : Safe dispatched
dispatched-Safe = record {
  same_id = λ c. refl;
  same_account = λ c. refl;
  same_key = λ c. refl;
  stays = λ c h. refl;
}

in_outcome-Safe :
    (status : String) (result : Json)
    → (status == "pending") ≡ false
    → Safe (in_outcome status result)
in_outcome-Safe status result over = record {
  same_id = λ c. refl;
  same_account = λ c. refl;
  same_key = λ c. refl;
  stays = λ c h. over;
}

cleared-Safe : Safe (λ c. record c { message_id = none })
cleared-Safe = record {
  same_id = λ c. refl;
  same_account = λ c. refl;
  same_key = λ c. refl;
  stays = λ c h. h;
}

failure_status-over : (code : String) → (failure_status code == "pending") ≡ false
failure_status-over code =
    elim (Bool-cases (code == "worker_timeout" || code == "signal_send_unknown")) [
      | inl yes' ↦ rw yes' refl
      | inr no' ↦ rw no' refl
    ]

abbrev On : (List CommandRow → Type 0) → Db → Type 0
On P db = P db.commands

transact-keeps :
    {A : Type 0} (P : Db → Type 0) (b : Bool) (body : Tx Db (Result A)) (db : Db)
    → Keeps P body
    → P db
    → P (transact b body db).1
transact-keeps P b body db k h = elim (transact_cases b body db) [
  | inl e ↦ subst P (sym e) h
  | inr (_, e) ↦ subst P e (k.at db h)
]

module _ {P : List CommandRow → Type 0} (stable : Stable P) where
  update_command-keeps :
      (id : String) (f : CommandRow → CommandRow)
      → Safe f
      → (db : Db) → On P db
      → On P (update_command id f db).1
  unfolding update_command
  update_command-keeps id f safe db h = stable.on_update (λ c. c.id == id) f db.commands safe h

  insert_command-keeps :
      (c : CommandRow) (db : Db) (a : Bool) (db' : Db)
      → On P db
      → insert_command c db ≡ ok (a, db')
      → On P db'
  unfolding insert_command
  insert_command-keeps c db a db' h e =
      elim (Bool-cases (is_some (find (has_key c.account_id c.idempotency_key) db.commands))) [
        | inl yes' ↦ subst P (ground arith) h
        | inr no' ↦ elim (Option-cases (find (λ x. x.id == c.id) db.commands)) [
          | inr (_, some') ↦ absurd (ground arith)
          | inl none' ↦ subst P (ground arith) (stable.on_insert c db.commands none' h)
        ]
      ]

  delete_messages-keeps :
      (p : MessageRow → Bool) (db : Db) → On P db → On P (delete_messages p db).1
  unfolding delete_messages
  delete_messages-keeps p db h =
      stable.on_update (λ c. refers_to p db.messages c.message_id)
        (λ c. record c { message_id = none }) db.commands cleared-Safe h

  update_message-keeps :
      (id : String) (f : MessageRow → MessageRow) (db : Db) (a : Message) (db' : Db)
      → On P db
      → update_message id f db ≡ ok (a, db')
      → On P db'
  unfolding update_message
  update_message-keeps id f db a db' h e = subst P (ground arith) h

  complete_message-keeps :
      (r : MessageRow) (provider_id : String) (at : ℕ) (db : Db) (a : Message) (db' : Db)
      → On P db
      → complete_message r provider_id at db ≡ ok (a, db')
      → On P db'
  unfolding complete_message update_message
  complete_message-keeps r provider_id at db a db' h e = subst P (ground arith) h

  insert_pending-keeps :
      (r : MessageRow) (db : Db) (a : Unit {0}) (db' : Db)
      → On P db
      → insert_pending r db ≡ ok (a, db')
      → On P db'
  unfolding insert_pending
  insert_pending-keeps r db a db' h e = subst P (ground arith) h

  store_send-Keeps :
      (m : Moment) (command_id message_id body : String) (c : ConversationRow)
      → Keeps (On P) (store_send m command_id message_id body c)
  unfolding store_send touch_conversation
  store_send-Keeps m command_id message_id body c =
      search (keeps_rules, insert_pending-keeps, update_command-keeps, linked-Safe) depth 12

  on_inserted-Keeps :
      (m : Moment) (command_id message_id body : String) (c : ConversationRow) (b : Bool)
      → Keeps (On P) (on_inserted m command_id message_id body c b)
  on_inserted-Keeps m command_id message_id body c true =
      store_send-Keeps m command_id message_id body c
  on_inserted-Keeps m command_id message_id body c false = Keeps-pure (ok (taken c.account_id))

  prepare_body-Keeps :
      (m : Moment) (user_id conversation_id body key : String)
      → Keeps (On P) (prepare_body m user_id conversation_id body key)
  unfolding prepare_body
  prepare_body-Keeps m user_id conversation_id body key =
      search (keeps_rules, insert_command-keeps, on_inserted-Keeps) depth 14

  complete_body-Keeps :
      (m : Moment) (user_id command_id provider_id : String) (at : ℕ)
      → Keeps (On P) (complete_body m user_id command_id provider_id at)
  unfolding complete_body complete_row complete_rest insert_outbox
  complete_body-Keeps m user_id command_id provider_id at =
      search
        (
          keeps_rules, delete_messages-keeps, complete_message-keeps, update_command-keeps,
          in_outcome-Safe,
        )
        depth 16

  fail_body-Keeps :
      (m : Moment) (user_id command_id code : String)
      → Keeps (On P) (fail_body m user_id command_id code)
  unfolding fail_body fail_row insert_outbox
  fail_body-Keeps m user_id command_id code =
      search
        (
          keeps_rules, update_message-keeps, update_command-keeps, in_outcome-Safe,
          failure_status-over,
        )
        depth 16

  pub complete_send-keeps :
      (m : Moment) (user_id command_id provider_id : String) (at : ℕ) (db : Db)
      → On P db
      → On P (complete_send m user_id command_id provider_id at db).1
  unfolding complete_send
  complete_send-keeps m user_id command_id provider_id at db h =
      transact-keeps (On P) (m.fails 1) (complete_body m user_id command_id provider_id at) db
        (complete_body-Keeps m user_id command_id provider_id at) h

  pub fail_send-keeps :
      (m : Moment) (user_id command_id code : String) (db : Db)
      → On P db
      → On P (fail_send m user_id command_id code db).1
  unfolding fail_send
  fail_send-keeps m user_id command_id code db h =
      transact-keeps (On P) (m.fails 1) (fail_body m user_id command_id code) db
        (fail_body-Keeps m user_id command_id code) h

  pub mark_command_dispatched-keeps :
      (m : Moment) (id : String) (db : Db) → On P db → On P (mark_command_dispatched m id db).1
  unfolding mark_command_dispatched
  mark_command_dispatched-keeps m id db h = elim (Bool-cases (m.fails 1)) [
    | inl fails ↦ rw fails h
    | inr works ↦
        rw works
          (stable.on_update (is_dispatchable id m.db_now) dispatched db.commands dispatched-Safe h)
  ]

  or_existing-keeps :
      (fails : Bool) (key : String) (db : Db) (r : Result Prepared × Db)
      → On P db
      → On P r.1
      → On P (or_existing fails key db r).1
  or_existing-keeps fails key db (ok (fresh p), db') h h' = h'
  or_existing-keeps fails key db (ok (taken account_id), db') h h' = h
  or_existing-keeps fails key db (err e, db') h h' = h

  pub prepare_send-keeps :
      (m : Moment) (user_id conversation_id body key : String) (db : Db)
      → On P db
      → On P (prepare_send m user_id conversation_id body key db).1
  unfolding prepare_send
  prepare_send-keeps m user_id conversation_id body key db h =
      or_existing-keeps (m.fails 8) key db
        (transact (m.fails 1) (prepare_body m user_id conversation_id body key) db) h
        (transact-keeps (On P) (m.fails 1) (prepare_body m user_id conversation_id body key) db
          (prepare_body-Keeps m user_id conversation_id body key) h)
