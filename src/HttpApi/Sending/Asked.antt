-- ===== src/HttpApi/Sending/Asked.antt =====
-- What sendMessage finds and leaves when it asks a worker.
use say.Base.{
  ℕ, String, Bool, true, false, ◌≡◌, inl, inr, refl, sym, subst, Option, some, arith, Bool-cases,
}
use say.Database.{Result, ok, err}
use say.Postgres.{Db}
use say.Postgres.Sends.{SendPreparation, prepare_send}
use say.Postgres.Sends.Dispatch.{mark_command_dispatched}
use say.HttpApi.{Input, given, malformed}
use say.HttpApi.Sending.{Run, Ask, send_message, is_sendable, on_prepared, on_dispatched, send_of}
use say.HttpApi.Sending.Settled.{Distinct, Distinct-Stable, Settled, Settled-Stable}
use say.HttpApi.Sending.Steps.{prepare_send-keeps}
use say.HttpApi.Sending.Pending.{Pending, prepare_send-Pending, dispatch-Settled, Pending-unsettled}
use say.HttpApi.Sending.Kept.{settle-keeps}

-- A request to a worker, as it is made by a call.
pub record Asked (a : Ask) (db db' : Db) : Type 0 where
  pub settled : Settled a.account_id a.command.idempotency_key db'.commands
  pub unsettled : Settled a.account_id a.command.idempotency_key db.commands → ⊥

module _ (parse_time : String → Option ℕ) where
  on_dispatched-Asked :
      (run : Run) (user_id body key : String) (p : SendPreparation) (db : Db) (a : Ask)
      → Distinct db.commands
      → Pending key p db
      → let r = mark_command_dispatched run.dispatches p.command_id db in
        (on_dispatched parse_time run user_id body key p r).0.1 ≡ some a
        → (a ≡ send_of p body key)
          × Settled p.account_id key (on_dispatched parse_time run user_id body key p r).1.commands
  on_dispatched-Asked run user_id body key p db a distinct x h =
      by_result (mark_command_dispatched run.dispatches p.command_id db) h
        (dispatch-Settled run.dispatches key p db distinct x)
    where
      by_result :
          (r : Result Bool × Db)
          → (on_dispatched parse_time run user_id body key p r).0.1 ≡ some a
          → (r.0 ≡ ok true → Settled p.account_id key r.1.commands)
          → (a ≡ send_of p body key)
            × Settled p.account_id key
                (on_dispatched parse_time run user_id body key p r).1.commands
      by_result (ok true, db') h s = (
        ground arith,
        settle-keeps parse_time (Settled-Stable p.account_id key) run.settles user_id p.command_id
            run.answer db' (s refl),
      )
      by_result (ok false, db') h s = absurd (ground arith)
      by_result (err e, db') h s = absurd (ground arith)

  on_prepared-Asked :
      (run : Run) (user_id conversation_id body key : String) (db : Db) (a : Ask)
      → Distinct db.commands
      → let r = prepare_send run.prepares user_id conversation_id body key db in
        (on_prepared parse_time run user_id body key r).0.1 ≡ some a
        → Asked a db (on_prepared parse_time run user_id body key r).1
  on_prepared-Asked run user_id conversation_id body key db a distinct h =
      by_result (prepare_send run.prepares user_id conversation_id body key db) h
        (prepare_send-Pending run.prepares user_id conversation_id body key db)
        (prepare_send-keeps Distinct-Stable run.prepares user_id conversation_id body key db
          distinct)
        (λ account_id.
          prepare_send-keeps (Settled-Stable account_id key) run.prepares user_id conversation_id
            body key db)
    where
      by_result :
          (r : Result SendPreparation × Db)
          → (on_prepared parse_time run user_id body key r).0.1 ≡ some a
          → ((p : SendPreparation) → r.0 ≡ ok p → p.created ≡ true → Pending key p r.1)
          → Distinct r.1.commands
          → ((account_id : String)
              → Settled account_id key db.commands
              → Settled account_id key r.1.commands)
          → Asked a db (on_prepared parse_time run user_id body key r).1
      by_result (err e, db') h pending distinct' kept = absurd (ground arith)
      by_result (ok p, db') h pending distinct' kept = elim (Bool-cases p.created) [
        | inr no' ↦ absurd (ground arith)
        | inl yes' ↦
            let x = pending p refl yes' in
            let (e, s) =
              on_dispatched-Asked run user_id body key p db' a distinct' x (rw yes' at h) in
            rw yes' (record {
              settled =
                  subst
                    (λ b.
                      Settled b.account_id b.command.idempotency_key
                        (on_dispatched parse_time run user_id body key p
                          (mark_command_dispatched run.dispatches p.command_id db')).1.commands)
                    (sym e) s;
              unsettled = λ t. Pending-unsettled key p db' x (
                  kept p.account_id
                    (subst (λ b. Settled b.account_id b.command.idempotency_key db.commands) e t));
            })
      ]

  pub send_message-Asked :
      (stored : Bool) (run : Run) (user_id conversation_id : String)
      (input : Input (String × String)) (db : Db) (a : Ask)
      → Distinct db.commands
      → (send_message parse_time stored run user_id conversation_id input db).0.1 ≡ some a
      → Asked a db (send_message parse_time stored run user_id conversation_id input db).1
  unfolding send_message
  send_message-Asked false run user_id conversation_id input db a distinct h = absurd (ground arith)
  send_message-Asked true run user_id conversation_id (malformed e) db a distinct h =
      absurd (ground arith)
  send_message-Asked true run user_id conversation_id (given (body, key)) db a distinct h =
      elim (Bool-cases (is_sendable body key)) [
        | inl yes' ↦
            rw yes'
              (on_prepared-Asked run user_id conversation_id body key db a distinct (rw yes' at h))
        | inr no' ↦ absurd (ground arith)
      ]
