-- ===== src/HttpApi/Sending.antt =====
-- sendMessage in internal/httpapi/router.go.
pub mod Settled
pub mod Steps
pub mod Pending
pub mod Kept
pub mod Asked
pub mod Once
use say.Base.{
  ℕ, String, Bool, true, false, ◌||◌, Option, none, some, ◌==◌, ltb, eqb, if◌then◌else◌, trim_space,
  len,
}
use say.Protocol.JsonTree.{Json}
use say.Protocol.Payloads.{SendCommand, SendResult, read_send_result}
use say.Database.{Error, Result, ok, err, not_found}
use say.Gateway.Hub.{Reply, reply, refused, RequestError, worker_offline, command_error}
use say.Postgres.{Db, Moment, Message}
use say.Postgres.Sends.{SendPreparation, prepare_send}
use say.Postgres.Sends.Dispatch.{mark_command_dispatched}
use say.Postgres.Sends.Outcome.{complete_send, fail_send}
use say.HttpApi.{
  Response, Input, given, malformed, write_error, internal_error, invalid_request,
  worker_error_code, sent,
}

-- What one call meets: its three calls of the store, and what the hub answers if it is asked.
pub record Run : Type 0 where
  pub prepares : Moment
  pub dispatches : Moment
  pub settles : Moment
  pub answer : Reply

-- A request to the worker of an account.
pub record Ask : Type 0 where
  pub account_id : String
  pub command : SendCommand

abbrev accepted : String → Message → Response
accepted command_id message = record { status = 202; body = sent command_id message }

abbrev not_sent : RequestError → Response
not_sent worker_offline = write_error 409 "worker_offline" "worker is offline"
not_sent (command_error code message) = write_error 502 code message
not_sent _ = write_error 504 "worker_timeout" "worker did not complete send command"

abbrev completed : String → Result Message → Response
completed command_id (ok message) = accepted command_id message
completed command_id (err _) = internal_error "failed to complete message"

abbrev if_prepared : SendPreparation → Result Bool → Response
if_prepared p (ok _) = accepted p.command_id p.message
if_prepared p (err _) = internal_error "failed to dispatch message"

abbrev not_prepared : Error → Response
not_prepared not_found = write_error 404 "not_found" "conversation not found"
not_prepared _ = internal_error "failed to prepare message"

abbrev pub send_of : SendPreparation → String → String → Ask
send_of p body key = record {
  account_id = p.account_id;
  command = record {
    conversation_id = p.provider_conversation_id;
    body = body;
    idempotency_key = key;
  };
}

-- The request's body and key, as they have to be.
unfoldable pub is_sendable : String → String → Bool
unfolding trim_space
is_sendable body key =
    if trim_space body == "" || (ltb 65536 (len body) || (ltb (len key) 16 || ltb 128 (len key)))
    then false
    else true

module _ (parse_time : String → Option ℕ) where
  -- The worker's answer, where it is a valid result.
  unfoldable pub sent_result : Option Json → Option SendResult
  unfolding read_send_result
  sent_result raw = read raw
    where
      checked : Option SendResult → Option SendResult
      checked none = none
      checked (some r) = if r.provider_message_id == "" || eqb r.sent_at 0 then none else some r

      read : Option Json → Option SendResult
      read none = none
      read (some v) = checked (read_send_result parse_time v)

  abbrev pub settled : Moment → String → String → Option SendResult → Db → Response × Db
  settled m user_id command_id none db = (
    write_error 502 "invalid_worker_response" "worker returned an invalid send result",
    (fail_send m user_id command_id "invalid_worker_response" db).1,
  )
  settled m user_id command_id (some r) db =
      let c = complete_send m user_id command_id r.provider_message_id r.sent_at db in
      (completed command_id c.0, c.1)

  -- From the worker's answer to the end.
  unfoldable pub settle : Moment → String → String → Reply → Db → Response × Db
  unfolding sent_result
  settle m user_id command_id (refused e) db =
      (not_sent e, (fail_send m user_id command_id (worker_error_code e) db).1)
  settle m user_id command_id (reply raw) db = settled m user_id command_id (sent_result raw) db

  abbrev pub with_ask : Ask → Response × Db → (Response × Option Ask) × Db
  with_ask a (response, db) = ((response, some a), db)

  abbrev pub on_dispatched :
      Run
      → String
      → String
      → String
      → SendPreparation
      → Result Bool × Db
      → (Response × Option Ask) × Db
  on_dispatched run user_id body key p (ok true, db) =
      with_ask (send_of p body key) (settle run.settles user_id p.command_id run.answer db)
  on_dispatched run user_id body key p (r, db) = ((if_prepared p r, none), db)

  abbrev pub on_prepared :
      Run → String → String → String → Result SendPreparation × Db → (Response × Option Ask) × Db
  on_prepared run user_id body key (err e, db) = ((not_prepared e, none), db)
  on_prepared run user_id body key (ok p, db) =
      if p.created
      then on_dispatched run user_id body key p
          (mark_command_dispatched run.dispatches p.command_id db)
      else ((accepted p.command_id p.message, none), db)

  -- `stored` is false where a.cfg.Messages is nil. The second part is what the worker was asked.
  unfoldable pub send_message :
      Bool → Run → String → String → Input (String × String) → Db → (Response × Option Ask) × Db
  unfolding is_sendable settle
  send_message false run user_id conversation_id input db =
      ((write_error 503 "messages_not_configured" "message storage is not configured", none), db)
  send_message true run user_id conversation_id (malformed e) db = ((invalid_request e, none), db)
  send_message true run user_id conversation_id (given (body, key)) db =
      if is_sendable body key
      then on_prepared run user_id body key
          (prepare_send run.prepares user_id conversation_id body key db)
      else ((invalid_request "body and a 16-128 character idempotency_key are required", none), db)
