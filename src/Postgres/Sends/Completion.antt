-- ===== src/Postgres/Sends/Completion.antt =====
-- What a send comes to when its worker has sent it.
use say.Base.{
  ℕ, String, Bool, false, ◌≡◌, inl, inr, refl, subst, ◌∙◌, none, some, [], ◌∷◌, ◌++◌, ◌==◌, arith,
  eq_iff, Bool-cases, Option-cases,
}
use say.Database.{Result, ok, err}
use say.Database.Tables.{find, find-update, find-holds}
use say.Database.Keeps.{transact-ok}
use say.Postgres.{
  Message, MessageRow, CommandRow, Db, scan_message, null_if_empty, Moment, insert_outbox,
  delete_messages, OutboxRow, refers_to,
}
use say.Postgres.Sends.{update_command}
use say.Postgres.Sends.Outcome.{
  complete_send, complete_body, complete_row, complete_rest, complete_message, update_message,
  is_copy, sent_as, in_outcome, sent_result, owned_command, message_of_command,
}

-- The event that tells the user's other devices.
abbrev updated : String → Message → ℕ → OutboxRow
updated user_id x id = record {
  id = id;
  user_id = user_id;
  event_type = "message.updated";
  payload = x;
  delivered_at = none;
}

-- What a completion leaves of the message and the command: `row` is the message's row afterwards.
pub record Ended (user_id command_id message_id provider_id : String) (at : ℕ) (db : Db)
    (x : Message) (db' : Db) : Type 0 where
  pub command : CommandRow
  pub row : MessageRow
  pub is_sent : x.status ≡ "sent"
  pub sent_at : x.sent_at ≡ at
  pub own : x.id ≡ message_id
  pub kept : find (λ r. r.id == message_id) db'.messages ≡ some row
  pub shown : scan_message row ≡ x
  pub provider : row.provider_id ≡ null_if_empty provider_id
  pub stands : find (λ c. c.id == command_id) db'.commands ≡ some command
  pub completed : command.status ≡ "completed"
  pub announced : db'.outbox ≡ db.outbox ++ updated user_id x db.next_outbox ∷ []

-- A send that has come to its end, with the message that its command named before.
pub record Completed (user_id command_id provider_id : String) (at : ℕ) (db : Db) (x : Message)
    (db' : Db) : Type 0 where
  pub before : CommandRow
  pub message_id : String
  pub was : find (λ c. c.id == command_id) db.commands ≡ some before
  pub names : before.message_id ≡ some message_id
  pub ended : Ended user_id command_id message_id provider_id at db x db'

-- What the update of the message does.
record Updated (r : MessageRow) (provider_id : String) (at : ℕ) (db : Db) (x : Message) (db' : Db)
    : Type 0 where
  row : MessageRow
  is_sent : x.status ≡ "sent"
  sent_at : x.sent_at ≡ at
  own : x.id ≡ r.id
  kept : find (λ y. y.id == r.id) db'.messages ≡ some row
  shown : scan_message row ≡ x
  provider : row.provider_id ≡ null_if_empty provider_id
  commands : db'.commands ≡ db.commands
  outbox : db'.outbox ≡ db.outbox
  next_outbox : db'.next_outbox ≡ db.next_outbox

complete_message-Updated :
    (r : MessageRow) (provider_id : String) (at : ℕ) (db : Db) (x : Message) (db' : Db)
    → complete_message r provider_id at db ≡ ok (x, db')
    → Updated r provider_id at db x db'
unfolding complete_message update_message
complete_message-Updated r provider_id at db x db' h =
    elim (Option-cases (find (λ y. y.id == r.id) db.messages)) [
      | inl e ↦ absurd (ground arith)
      | inr (q, e) ↦
          let f = sent_as provider_id at in
          let law = find-update (λ y. y.id == r.id) (λ y. y.id == r.id) f db.messages (λ y. refl) in
          let own = find-holds (λ y. y.id == r.id) db.messages q e in
          let same : q.id ≡ r.id = (eq_iff q.id r.id).0 own in
          let shown : scan_message (f q) ≡ x = ground (arith, e) in
          record {
            row = f q;
            is_sent = ground (arith, e);
            sent_at = ground (arith, e);
            own = ground (arith, e, same);
            kept = ground (arith, e, law, own);
            shown = shown;
            provider = refl;
            commands = ground (arith, e);
            outbox = ground (arith, e);
            next_outbox = ground (arith, e);
          }
    ]

delete_messages-command :
    (p : MessageRow → Bool) (command_id : String) (db : Db) (c : CommandRow)
    → find (λ x. x.id == command_id) db.commands ≡ some c
    → (c' : CommandRow) × (find (λ x. x.id == command_id) (delete_messages p db).1.commands
        ≡ some c')
      × (c'.id ≡ c.id)
unfolding delete_messages
delete_messages-command p command_id db c is =
    let cleared = λ (x : CommandRow). record x { message_id = none } in
    let refers = λ (x : CommandRow). refers_to p db.messages x.message_id in
    let law = find-update (λ x. x.id == command_id) refers cleared db.commands (λ x. refl) in
    elim (Bool-cases (refers c)) [
      | inl yes' ↦ (cleared c, ground (arith, law, is, yes'), refl)
      | inr no' ↦ (c, ground (arith, law, is, no'), refl)
    ]

module _ (m : Moment) (user_id command_id provider_id : String) (at : ℕ) where
  complete_rest-Ended :
      (r : MessageRow) (db : Db) (x : Message) (c : CommandRow)
      → find (λ c. c.id == command_id) db.commands ≡ some c
      → (complete_rest m user_id command_id provider_id at r db).0 ≡ ok (ok x)
      → Ended user_id command_id r.id provider_id at db x
          (complete_rest m user_id command_id provider_id at r db).1
  unfolding complete_rest update_command insert_outbox
  complete_rest-Ended r db x c is h = elim (Bool-cases (m.fails 4)) [
    | inl bad ↦ absurd (ground arith)
    | inr f4 ↦ completed f4 _ refl
  ]
    where
      completed :
          m.fails 4 ≡ false
          → (t : Result (Message × Db)) → complete_message r provider_id at db ≡ t
          → Ended user_id command_id r.id provider_id at db x
              (complete_rest m user_id command_id provider_id at r db).1
      completed f4 (err e) q = absurd (ground arith)
      completed f4 (ok (y, db₂)) q =
          let s = complete_message-Updated r provider_id at db y db₂ q in
          let f = in_outcome "completed" (sent_result provider_id) in
          let law =
            find-update (λ c. c.id == command_id) (λ c. c.id == command_id) f db₂.commands
              (λ x. refl) in
          let own = find-holds (λ c. c.id == command_id) db.commands c is in
          let same : y ≡ x = ground arith in
          record {
            command = f c;
            row = s.row;
            is_sent = ground (arith, s.is_sent, same);
            sent_at = ground (arith, s.sent_at, same);
            own = ground (arith, s.own, same);
            kept = ground (arith, s.kept);
            shown = s.shown ∙ same;
            provider = s.provider;
            stands = ground (arith, law, s.commands, is, own);
            completed = refl;
            announced = ground (arith, s.outbox, s.next_outbox, same);
          }

  complete_row-Ended :
      (r : MessageRow) (db : Db) (x : Message) (c : CommandRow)
      → find (λ c. c.id == command_id) db.commands ≡ some c
      → (complete_row m user_id command_id provider_id at r db).0 ≡ ok (ok x)
      → Ended user_id command_id r.id provider_id at db x
          (complete_row m user_id command_id provider_id at r db).1
  unfolding complete_row delete_messages
  complete_row-Ended r db x c is h = elim (Bool-cases (provider_id == "")) [
    | inl e ↦ rw (e, complete_row) (complete_rest-Ended r db x c is (rw (e, complete_row) at h))
    | inr e ↦ elim (Bool-cases (m.fails 3)) [
      | inl bad ↦ absurd (ground arith)
      | inr f3 ↦
          let p = is_copy r.conversation_id provider_id r.id in
          let (c', is', own) = delete_messages-command p command_id db c is in
          let d =
            complete_rest-Ended r (delete_messages p db).1 x c' is'
              (rw (e, f3, complete_row) at h) in
          rw (e, f3, complete_row)
            (record {
              command = d.command;
              row = d.row;
              is_sent = d.is_sent;
              sent_at = d.sent_at;
              own = d.own;
              kept = d.kept;
              shown = d.shown;
              provider = d.provider;
              stands = d.stands;
              completed = d.completed;
              announced = d.announced;
            })
    ]
  ]

  owned-message :
      (r : MessageRow) (message_id : String) (db : Db) (c : CommandRow)
      → find (λ c. c.id == command_id) db.commands ≡ some c
      → message_of_command db (owned_command user_id command_id db) ≡ some r
      → c.message_id ≡ some message_id
      → r.id ≡ message_id
  unfolding owned_command
  owned-message r message_id db c is e names =
      let found : find (λ y. y.id == message_id) db.messages ≡ some r =
        ground (arith, is, e, names) in
      (eq_iff r.id message_id).0 (find-holds (λ y. y.id == message_id) db.messages r found)

  complete_body-Completed :
      (db : Db) (x : Message)
      → (complete_body m user_id command_id provider_id at db).0 ≡ ok (ok x)
      → Completed user_id command_id provider_id at db x
          (complete_body m user_id command_id provider_id at db).1
  unfolding complete_body owned_command
  complete_body-Completed db x h = elim (Bool-cases (m.fails 2)) [
    | inl bad ↦ absurd (ground arith)
    | inr f2 ↦ elim (Option-cases (message_of_command db (owned_command user_id command_id db))) [
      | inl e ↦ absurd (ground arith)
      | inr (r, e) ↦ elim (Option-cases (find (λ c. c.id == command_id) db.commands)) [
        | inl none' ↦ absurd (ground arith)
        | inr (c, is) ↦ elim (Option-cases c.message_id) [
          | inl unnamed ↦ absurd (ground arith)
          | inr (message_id, names) ↦
              let same : r.id ≡ message_id = owned-message r message_id db c is e names in
              rw (f2, e, complete_body)
                (record {
                  before = c;
                  message_id = r.id;
                  was = is;
                  names = ground (arith, names, same);
                  ended = complete_row-Ended r db x c is (rw (f2, e, complete_body) at h);
                })
        ]
      ]
    ]
  ]

  -- A send whose completion succeeds is reported with the status sent and the provider's time, and
  -- the message reported is the one that the command names. Its stored row then is the reported
  -- message, with the provider's id, or none where that is empty. The command is then completed, and
  -- the outbox has one more event, which shows the user the message as it is reported.
  pub complete_send-Completed :
      (db : Db) (x : Message)
      → (complete_send m user_id command_id provider_id at db).0 ≡ ok x
      → Completed user_id command_id provider_id at db x
          (complete_send m user_id command_id provider_id at db).1
  unfolding complete_send
  complete_send-Completed db x h =
      let t = transact-ok (m.fails 1) (complete_body m user_id command_id provider_id at) db x h in
      subst (Completed user_id command_id provider_id at db x) t.1
        (complete_body-Completed db x t.0)
