-- ===== src/Signal/Sending.antt =====
-- send of internal/signalworker/service.go.
use say.Base.{
  ℕ, ℤ, is_pos, String, true, false, Option, none, some, ◌==◌, if◌then◌else◌, has_prefix,
  trim_prefix, trim_space,
}
use say.Protocol.{Envelope, Decoded, decoded, failed, decode_payload}
use say.Protocol.Payloads.{SendCommand, read_send_command}
use say.Signal.{Service, Rpc, answered, rpc_failed, Outcome, success, failure, command_error}
use say.Signal.Receive.{Time, clock, unix_milli}

-- Where a message goes.
pub data Target : Type 0 where
  recipient : String → Target
  group : String → Target

pub record Params : Type 0 where
  pub account : String
  pub message : String
  pub target : Target

-- protocol.SendResult, with a time of the clock or of signal-cli
pub record Sent : Type 0 where
  pub provider_message_id : String
  pub sent_at : Time

-- The switch on the conversation.
unfoldable pub target_of : String → Outcome Target
target_of conversation_id =
    if has_prefix conversation_id "user:"
    then (if trim_prefix conversation_id "user:" == ""
        then command_error "invalid_conversation" "Signal recipient is empty"
        else success (recipient (trim_prefix conversation_id "user:")))
    else if has_prefix conversation_id "group:"
    then (if trim_prefix conversation_id "group:" == ""
        then command_error "invalid_conversation" "Signal group is empty"
        else success (group (trim_prefix conversation_id "group:")))
    else command_error "invalid_conversation" "Unknown Signal conversation"

abbrev params : String → String → Outcome Target → Outcome Params
params account body (failure e) = failure e
params account body (success t) = success (record { account = account; message = body; target = t })

-- Up to the call of signal-cli: an error, or what it is asked.
unfoldable pub plan_send : Service → Decoded SendCommand → Outcome Params
unfolding target_of trim_space
plan_send s (failed e) =
    command_error "invalid_command" "Conversation and non-empty body are required"
plan_send s (decoded input) =
    if trim_space input.body == ""
    then command_error "invalid_command" "Conversation and non-empty body are required"
    else if s.account == ""
    then command_error "signal_unlinked" "Signal account is not linked"
    else params s.account input.body (target_of input.conversation_id)

-- `decimal` is fmt's "%d".
module _ (decimal : ℤ → String) where
  abbrev pub sent : ℕ → Rpc ℤ → Outcome Sent
  sent now (answered t) = success (record {
    provider_message_id = decimal t;
    sent_at = if is_pos 0 t then clock now else unix_milli t;
  })
  sent now (rpc_failed true) = command_error "signal_send_unknown" "Signal send outcome is unknown"
  sent now (rpc_failed false) =
      command_error "signal_send_failed" "Signal failed to send the message"

  abbrev if_planned : ℕ → Rpc ℤ → Outcome Params → Outcome Sent × Option Params
  if_planned now answer (failure e) = (failure e, none)
  if_planned now answer (success p) = (sent now answer, some p)

  -- The answer to the command, and what signal-cli was asked.
  unfoldable pub send : ℕ → Rpc ℤ → Envelope → Service → Outcome Sent × Option Params
  unfolding plan_send
  send now answer e s = if_planned now answer (plan_send s (decode_payload read_send_command e))
