-- ===== src/Postgres/Sends/Held.antt =====
-- A send that the tables hold, and what PrepareSend answers when its key comes again.
use say.Base.{
  ℕ, ◌+◌, ◌*◌, ◌^◌, ◌<◌, String, true, false, ◌≡◌, inl, inr, refl, Option, none, some, List, [],
  ◌∷◌, ◌++◌, ◌==◌, eq_iff, eq_refl, arith, is_some, Option-cases, random_value,
}
use say.Database.{ok}
use say.Database.Tables.{find, find-update, find-insert, find-holds, find-none-false}
use say.Postgres.{
  ConversationRow, MessageRow, CommandRow, Db, Moment, scan_message, owned_conversation,
  owns_account,
}
use say.Postgres.Sends.{
  SendPreparation, prepare_send, existing_send, send_command, pending_message, has_key, message_of,
}
use say.Postgres.Sends.Dispatch.{mark_command_dispatched, is_dispatchable, dispatched}
use say.Postgres.Sends.Retry.{Fresh, prepare_body-taken}

-- The command, the message and the conversation of a send that was prepared, with its status.
pub record Holds (user_id conversation_id key : String) (p : SendPreparation) (status : String)
    (deadline : ℕ) (db : Db) : Type 0 where
  pub conversation : ConversationRow
  pub command : CommandRow
  pub row : MessageRow
  pub owned : owned_conversation user_id conversation_id db ≡ some conversation
  pub has_command : find (has_key conversation.account_id key) db.commands ≡ some command
  pub has_message : message_of command.message_id db.messages ≡ some row
  pub joins : find (λ c. c.id == row.conversation_id) db.conversations ≡ some conversation
  pub account : conversation.account_id ≡ p.account_id
  pub provider : conversation.provider_id ≡ p.provider_conversation_id
  pub same_command : command.id ≡ p.command_id
  pub in_status : command.status ≡ status
  pub expires : command.expires_at ≡ deadline
  pub same_message : scan_message row ≡ p.message

-- No statement fails, and the random source can be read.
pub record Works (m : Moment) : Type 0 where
  pub statements : (n : ℕ) → m.fails n ≡ false
  pub reads : (n : ℕ) → is_some (m.random n) ≡ true

pub random-some :
    (prefix : String) (o : Option (List ℕ))
    → is_some o ≡ true
    → (s : String) × (random_value prefix o ≡ some s)
unfolding random_value
random-some prefix none h = absurd (ground arith)
random-some prefix (some bytes) h = (_, refl)

pub prepare_send-Holds :
    (m : Moment) (user_id conversation_id body key status : String) (deadline : ℕ)
    (p : SendPreparation) (db : Db)
    → Works m
    → Holds user_id conversation_id key p status deadline db
    → prepare_send m user_id conversation_id body key db
      ≡ (ok (record p { command_status = status; created = status == "pending" }), db)
unfolding prepare_send existing_send
prepare_send-Holds m user_id conversation_id body key status deadline p db works h =
    let (command_id, r0) = random-some "cmd_" (m.random 0) (works.reads 0) in
    let (message_id, r1) = random-some "msg_" (m.random 1) (works.reads 1) in
    let e =
      prepare_body-taken m user_id conversation_id body key db h.conversation command_id message_id
        h.command (works.statements 2) (works.statements 3) h.owned r0 r1 h.has_command in
    ground (
      arith,
      e,
      works.statements 1,
      works.statements 8,
      h.has_command,
      h.has_message,
      h.joins,
      h.account,
      h.provider,
      h.same_command,
      h.in_status,
      h.same_message,
    )

pub Fresh-Holds :
    (m : Moment) (user_id conversation_id body key : String) (db db' : Db) (p : SendPreparation)
    → Fresh m user_id conversation_id body key db p db'
    → Holds user_id conversation_id key p "pending" (m.db_now + 5 * 60 * 10 ^ 9) db'
unfolding owned_conversation owns_account
Fresh-Holds m user_id conversation_id body key db db' p f =
    let c = f.conversation in
    let active = λ (x : ConversationRow). record x { last_message_at = some m.now } in
    let cmd = send_command m f.command_id c body key in
    let linked = λ (x : CommandRow). record x { message_id = some f.message_id } in
    let is_cmd = λ (x : CommandRow). x.id == f.command_id in
    let with_key = has_key c.account_id key in
    let r = pending_message m f.message_id c.id body in
    let found : find (λ x. x.id == conversation_id) db.conversations ≡ some c =
      ground (arith, f.owned) in
    let own : c.id ≡ conversation_id =
      (eq_iff _ _).0 (find-holds (λ x. x.id == conversation_id) db.conversations c found) in
    let moved =
      find-update (λ x. x.id == conversation_id) (λ x. x.id == c.id) active db.conversations
        (λ x. refl) in
    let keyed = find-update with_key is_cmd linked (db.commands ++ cmd ∷ []) (λ x. refl) in
    record {
      conversation = active c;
      command = linked cmd;
      row = r;
      owned = ground (arith, f.leaves, f.owned, found, moved, own, eq_refl c.id);
      has_command = ground (
        arith,
        f.leaves,
        f.no_key,
        keyed,
        find-insert with_key cmd db.commands,
        eq_refl c.account_id,
        eq_refl key,
        eq_refl f.command_id,
      );
      has_message = ground (
        arith,
        f.leaves,
        f.no_message,
        find-insert (λ x. x.id == f.message_id) r db.messages,
        eq_refl f.message_id,
      );
      joins = ground (arith, f.leaves, found, moved, own, eq_refl c.id);
      account = ground (arith, f.returns);
      provider = ground (arith, f.returns);
      same_command = ground (arith, f.returns);
      in_status = refl;
      expires = refl;
      same_message = ground (arith, f.returns);
    }

-- The dispatch of a send that is held and pending, before its deadline.
pub dispatch-Holds :
    (m : Moment) (user_id conversation_id key : String) (p : SendPreparation) (deadline : ℕ)
    (db : Db)
    → m.fails 1 ≡ false
    → m.db_now < deadline
    → Holds user_id conversation_id key p "pending" deadline db
    → ((mark_command_dispatched m p.command_id db).0 ≡ ok true)
      × Holds user_id conversation_id key p "dispatched" deadline
          (mark_command_dispatched m p.command_id db).1
unfolding mark_command_dispatched owned_conversation owns_account
dispatch-Holds m user_id conversation_id key p deadline db works early h =
    let is = is_dispatchable p.command_id m.db_now in
    let with_key = has_key h.conversation.account_id key in
    let due : is h.command ≡ true = ground (
      arith,
      h.same_command,
      h.in_status,
      h.expires,
      eq_iff h.command.id p.command_id,
      eq_iff h.command.status "pending",
    ) in
    let moved = find-update with_key is dispatched db.commands (λ x. refl) in
    (
      elim (Option-cases (find is db.commands)) [
        | inl none' ↦
            let not_due = find-none-false is with_key db.commands h.command none' h.has_command in
            absurd (ground (arith, due, not_due))
        | inr (c, some') ↦ rw (works, some')
      ],
      rw works (record {
        conversation = h.conversation;
        command = dispatched h.command;
        row = h.row;
        owned = h.owned;
        has_command = ground (arith, moved, h.has_command, due);
        has_message = h.has_message;
        joins = h.joins;
        account = h.account;
        provider = h.provider;
        same_command = h.same_command;
        in_status = refl;
        expires = h.expires;
        same_message = h.same_message;
      }),
    )
