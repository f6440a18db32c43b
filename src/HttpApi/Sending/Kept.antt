-- ===== src/HttpApi/Sending/Kept.antt =====
-- What a whole call of sendMessage keeps of the commands.
use say.Base.{ℕ, String, Bool, true, false, inl, inr, Option, none, some, List, Bool-cases}
use say.Protocol.Payloads.{SendResult}
use say.Database.{Result, ok, err}
use say.Gateway.Hub.{Reply, reply, refused}
use say.Postgres.{CommandRow, Db, Moment}
use say.Postgres.Sends.{SendPreparation, prepare_send}
use say.Postgres.Sends.Dispatch.{mark_command_dispatched}
use say.HttpApi.{Input, given, malformed}
use say.HttpApi.Sending.{
  Run, send_message, is_sendable, settle, settled, sent_result, on_prepared, on_dispatched,
}
use say.HttpApi.Sending.Settled.{Stable}
use say.HttpApi.Sending.Steps.{
  complete_send-keeps, fail_send-keeps, mark_command_dispatched-keeps, prepare_send-keeps,
}

module _ (parse_time : String → Option ℕ) {P : List CommandRow → Type 0} (stable : Stable P) where
  pub settle-keeps :
      (m : Moment) (user_id command_id : String) (r : Reply) (db : Db)
      → P db.commands
      → P (settle parse_time m user_id command_id r db).1.commands
  unfolding settle
  settle-keeps m user_id command_id (refused e) db h =
      fail_send-keeps stable m user_id command_id _ db h
  settle-keeps m user_id command_id (reply raw) db h = by_result (sent_result parse_time raw)
    where
      by_result :
          (r : Option SendResult) → P (settled parse_time m user_id command_id r db).1.commands
      by_result none = fail_send-keeps stable m user_id command_id _ db h
      by_result (some r) =
          complete_send-keeps stable m user_id command_id r.provider_message_id r.sent_at db h

  on_dispatched-keeps :
      (run : Run) (user_id body key : String) (p : SendPreparation) (r : Result Bool × Db)
      → P r.1.commands
      → P (on_dispatched parse_time run user_id body key p r).1.commands
  on_dispatched-keeps run user_id body key p (ok true, db) h =
      settle-keeps run.settles user_id p.command_id run.answer db h
  on_dispatched-keeps run user_id body key p (ok false, db) h = h
  on_dispatched-keeps run user_id body key p (err e, db) h = h

  on_prepared-keeps :
      (run : Run) (user_id body key : String) (r : Result SendPreparation × Db)
      → P r.1.commands
      → P (on_prepared parse_time run user_id body key r).1.commands
  on_prepared-keeps run user_id body key (err e, db) h = h
  on_prepared-keeps run user_id body key (ok p, db) h = elim (Bool-cases p.created) [
    | inl yes' ↦ rw yes' (
        on_dispatched-keeps run user_id body key p
          (mark_command_dispatched run.dispatches p.command_id db)
          (mark_command_dispatched-keeps stable run.dispatches p.command_id db h))
    | inr no' ↦ rw no' h
  ]

  pub send_message-keeps :
      (stored : Bool) (run : Run) (user_id conversation_id : String)
      (input : Input (String × String)) (db : Db)
      → P db.commands
      → P (send_message parse_time stored run user_id conversation_id input db).1.commands
  unfolding send_message
  send_message-keeps false run user_id conversation_id input db h = h
  send_message-keeps true run user_id conversation_id (malformed e) db h = h
  send_message-keeps true run user_id conversation_id (given (body, key)) db h =
      elim (Bool-cases (is_sendable body key)) [
        | inl yes' ↦ rw yes' (
            on_prepared-keeps run user_id body key
              (prepare_send run.prepares user_id conversation_id body key db)
              (prepare_send-keeps stable run.prepares user_id conversation_id body key db h))
        | inr no' ↦ rw no' h
      ]
