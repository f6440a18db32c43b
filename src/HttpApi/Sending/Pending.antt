-- ===== src/HttpApi/Sending/Pending.antt =====
-- The command of a send that sendMessage is to dispatch, and what its dispatch leaves.
use say.Base.{
  ℕ, ◌+◌, ◌*◌, ◌^◌, String, Bool, true, ◌≡◌, inl, inr, refl, subst, some, ◌==◌, arith, Bool-cases,
  Option-cases, eq_iff,
}
use say.Database.{Result, ok, err, transact}
use say.Database.Tables.{find, find-update, find-holds}
use say.Database.Keeps.{transact-ok}
use say.Postgres.{CommandRow, Db, Moment}
use say.Postgres.Sends.{
  SendPreparation, Prepared, fresh, taken, prepare_send, prepare_body, existing_send, has_key,
  message_of,
}
use say.Postgres.Sends.Retry.{prepare_body-Fresh}
use say.Postgres.Sends.Held.{Holds, Fresh-Holds}
use say.Postgres.Sends.Dispatch.{mark_command_dispatched, is_dispatchable, dispatched}
use say.HttpApi.Sending.Settled.{Distinct, Distinct-same, Settled}

-- The command of a send that is to be dispatched.
pub record Pending (key : String) (p : SendPreparation) (db : Db) : Type 0 where
  pub command : CommandRow
  pub stands : find (has_key p.account_id key) db.commands ≡ some command
  pub same : command.id ≡ p.command_id
  pub waits : command.status ≡ "pending"

existing_send-Pending :
    (account_id key : String) (fails : Bool) (db : Db) (p : SendPreparation)
    → existing_send account_id key fails db ≡ ok p
    → p.created ≡ true
    → Pending key p db
unfolding existing_send
existing_send-Pending account_id key fails db p h created =
    elim (Option-cases (find (has_key account_id key) db.commands)) [
      | inl e ↦ absurd (ground arith)
      | inr (cmd, e) ↦ elim (Option-cases (message_of cmd.message_id db.messages)) [
        | inl e₂ ↦ absurd (ground arith)
        | inr (r, e₂) ↦
            elim (Option-cases (find (λ c. c.id == r.conversation_id) db.conversations)) [
              | inl e₃ ↦ absurd (ground arith)
              | inr (c, e₃) ↦ record {
                command = cmd;
                stands = ground arith;
                same = ground arith;
                waits = ground (arith, eq_iff cmd.status "pending");
              }
            ]
      ]
    ]

Holds-Pending :
    (user_id conversation_id key : String) (p : SendPreparation) (deadline : ℕ) (db : Db)
    → Holds user_id conversation_id key p "pending" deadline db
    → Pending key p db
Holds-Pending user_id conversation_id key p deadline db h = record {
  command = h.command;
  stands = subst (λ a. find (has_key a key) db.commands ≡ some h.command) h.account h.has_command;
  same = h.same_command;
  waits = h.in_status;
}

pub prepare_send-Pending :
    (m : Moment) (user_id conversation_id body key : String) (db : Db) (p : SendPreparation)
    → (prepare_send m user_id conversation_id body key db).0 ≡ ok p
    → p.created ≡ true
    → Pending key p (prepare_send m user_id conversation_id body key db).1
unfolding prepare_send
prepare_send-Pending m user_id conversation_id body key db p h created =
    let t = transact (m.fails 1) (prepare_body m user_id conversation_id body key) db in
    from t.0 refl
  where
    from :
        (r : Result Prepared)
        → (transact (m.fails 1) (prepare_body m user_id conversation_id body key) db).0 ≡ r
        → Pending key p (prepare_send m user_id conversation_id body key db).1
    from (err e) is = absurd (ground arith)
    from (ok (taken account_id)) is =
        let x = existing_send-Pending account_id key (m.fails 8) db p (ground arith) created in
        subst (Pending key p) (ground arith) x
    from (ok (fresh q)) is =
        let (e, e') =
          transact-ok (m.fails 1) (prepare_body m user_id conversation_id body key) db (fresh q)
            is in
        let f = prepare_body-Fresh m user_id conversation_id body key db q e in
        let x =
          Holds-Pending user_id conversation_id key q (m.db_now + 5 * 60 * 10 ^ 9) _
            (Fresh-Holds m user_id conversation_id body key db _ q f) in
        let same : q ≡ p = ground arith in
        subst (λ y. Pending key y (prepare_send m user_id conversation_id body key db).1) same
          (subst (Pending key q) (ground (arith, e')) x)

-- A dispatch that succeeds settles the send.
pub dispatch-Settled :
    (m : Moment) (key : String) (p : SendPreparation) (db : Db)
    → Distinct db.commands
    → Pending key p db
    → (mark_command_dispatched m p.command_id db).0 ≡ ok true
    → Settled p.account_id key (mark_command_dispatched m p.command_id db).1.commands
unfolding mark_command_dispatched
dispatch-Settled m key p db distinct x h = elim (Bool-cases (m.fails 1)) [
  | inl bad ↦ absurd (ground arith)
  | inr works ↦
      let is = is_dispatchable p.command_id m.db_now in
      elim (Option-cases (find is db.commands)) [
        | inl none' ↦ absurd (ground arith)
        | inr (r, e) ↦
            let due = find-holds is db.commands r e in
            let same =
              Distinct-same is (has_key p.account_id key) db.commands r x.command distinct e
                x.stands (ground (arith, due, eq_iff r.id p.command_id, x.same)) in
            let law =
              find-update (has_key p.account_id key) is dispatched db.commands (λ c. refl) in
            let due' : is x.command ≡ true = subst (λ c. is c ≡ true) same due in
            rw works (record {
              command = dispatched x.command;
              stands = ground (arith, law, x.stands, due');
              over = refl;
            })
      ]
]

pub Pending-unsettled :
    (key : String) (p : SendPreparation) (db : Db)
    → Pending key p db
    → Settled p.account_id key db.commands
    → ⊥
Pending-unsettled key p db x s =
    let same : x.command ≡ s.command = ground (arith, x.stands, s.stands) in
    let waits : s.command.status ≡ "pending" = subst (λ c. c.status ≡ "pending") same x.waits in
    ground (arith, s.over, waits, eq_iff s.command.status "pending")
