-- ===== src/Examples/Requests.antt =====
-- A worker of the hub from its registration to the answer of a request.
use say.Base.{
  ℕ, String, true, false, ◌≡◌, ◌≢◌, ◌⊎◌, refl, none, some, [], ◌∷◌, arith, lookup, put, remove, pos,
  random_value,
}
use say.Protocol.{Envelope, new_envelope}
use say.Protocol.JsonTree.{null}
use say.Gateway.Hub.{
  Hub, Worker, Call, Request, looked_up, entered, new_hub, accept, register, unregister,
  start_request, start_on, enter_pending, write_command, deliver, by_answer, command,
}
use say.Gateway.Hub.Runs.{accepts, registers, starts, enters, writes, delivers, Reach, start, next}
use say.Gateway.Hub.Routing.{answer_is_own, first_answer_kept}
use say.Gateway.Hub.Registration.{register_exclusive}

abbrev worker : Worker
worker = record { account_id = "acc"; generation = 2; pending = []; closed = false }

abbrev second : Worker
second = record worker { generation = 3 }

abbrev registered : Hub
registered = (register 0 worker (accept 0 "acc" 2 new_hub)).1

registered-Reach : Reach registered
unfolding accept register
registered-Reach =
    next (next start (accepts 0 "acc" 2 refl)) (registers 0 worker (unfold accept in refl) refl)

-- A request with the command id cmd_01, as it finds the worker, waits and writes its command.
abbrev found : Hub
found = (start_request "acc" "send" null (some (1 ∷ [])) registered).1

found-Reach : Reach found
found-Reach = next registered-Reach (starts "acc" "send" null (some (1 ∷ [])))

abbrev request : Request
request = record { account_id = "acc"; command = command "cmd_01" "send" null 2; phase = looked_up }

abbrev open_call : Call
open_call = record { command_id = "cmd_01"; worker = 0; buffer = none }

found-call : found.calls 0 ≡ some open_call
unfolding start_request start_on accept register lookup put remove random_value new_envelope
found-call = refl

found-request : found.requests 0 ≡ some request
unfolding start_request start_on accept register lookup put remove random_value
found-request = refl

abbrev waiting : Hub
waiting = enter_pending 0 open_call request found

waiting-Reach : Reach waiting
waiting-Reach = next found-Reach (enters 0 open_call request found-call found-request refl)

abbrev entered_request : Request
entered_request = record request { phase = entered }

waiting-call : waiting.calls 0 ≡ some open_call
unfolding enter_pending
waiting-call = found-call

waiting-request : waiting.requests 0 ≡ some entered_request
unfolding enter_pending
waiting-request = refl

abbrev asked : Hub
asked = (write_command 0 open_call entered_request true waiting).1

asked-Reach : Reach asked
asked-Reach =
    next waiting-Reach (writes 0 open_call entered_request true waiting-call waiting-request refl)

abbrev reply_of : String → Envelope
reply_of status = record {
  version = pos 1;
  id = "cmd_01";
  type = "result";
  generation = 2;
  status = status;
  error = none;
  payload = some null;
}

abbrev replied : Hub
replied = deliver 0 (reply_of "ok") asked

replied-Reach : Reach replied
replied-Reach = next asked-Reach (delivers 0 (reply_of "ok"))

abbrev call : Call
call = record { command_id = "cmd_01"; worker = 0; buffer = some (reply_of "ok") }

stands : replied.calls 0 ≡ some call
unfolding deliver write_command enter_pending start_request start_on accept register lookup put
    remove random_value new_envelope
stands = refl

answer_is_own_example : (reply_of "ok").id ≡ "cmd_01"
answer_is_own_example =
    answer_is_own replied 0 call (reply_of "ok") replied-Reach stands
      (by_answer (reply_of "ok") refl)

first_answer_kept_example :
    ((deliver 0 (reply_of "error") replied).calls 0 ≡ some call)
    ⊎ ((deliver 0 (reply_of "error") replied).calls 0 ≡ none)
first_answer_kept_example =
    first_answer_kept replied (deliver 0 (reply_of "error") replied) 0 call (reply_of "ok")
      replied-Reach (delivers 0 (reply_of "error")) stands refl

taken : (register 0 worker (accept 0 "acc" 2 new_hub)).0 ≡ true
unfolding accept register lookup put remove
taken = refl

distinct : ◌≢◌ {A = ℕ} 1 0
distinct e = omega (arith, e)

register_exclusive_example :
    (register 1 second registered ≡ (false, registered))
    × (unregister 1 second registered ≡ (false, registered))
    × ((register 1 second (unregister 0 worker registered).1).0 ≡ true)
register_exclusive_example =
    register_exclusive 0 1 worker second (accept 0 "acc" 2 new_hub) taken refl distinct
