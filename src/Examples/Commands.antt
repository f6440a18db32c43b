-- ===== src/Examples/Commands.antt =====
-- The session of a worker: a command that is answered, and events that are sent.
use say.Base.{◌≤◌, ◌≡◌, refl, arith, true, false, some, List, [], ◌∷◌, eqb}
use say.Protocol.{Envelope, new_envelope}
use say.Protocol.JsonTree.{null}
use say.Worker.Session.{
  Session, new_session, Reach, start, next, idle, taken, receives, begins, finishes, is_command,
  result_of, returned,
}
use say.Worker.Session.Answers.{Balanced, Reach-Balanced, with_id}
use say.Worker.Session.Events.{Round, send_rounds, send_once_in_session}

abbrev command : Envelope
command = record (new_envelope "send" null) { id = "cmd_1" }

commands : is_command command ≡ true
unfolding new_envelope
commands = refl

abbrev read : Session
read = record (new_session 3) { loop = taken command; received = command ∷ [] }

reads_one : Reach 3 read
reads_one = next start (receives command refl commands)

abbrev begun : Session
begun = record read { loop = idle; running = command ∷ [] }

begins_one : Reach 3 begun
begins_one = next reads_one (begins command refl (omega arith))

abbrev finished : Session
finished = record begun {
  running = [];
  releasing = 1;
  results = result_of 3 command (returned (some null)) ∷ [];
}

answers_one : Reach 3 finished
answers_one = next begins_one (finishes [] command [] (returned (some null)) refl (omega arith))

Reach-Balanced_example : Balanced finished
Reach-Balanced_example = Reach-Balanced 3 finished answers_one

abbrev event : Envelope
event = record (new_envelope "message.new" null) { id = "evt_1" }

abbrev rounds_of_two : List Round
rounds_of_two =
    record { pending = event ∷ []; fails = λ n. false }
    ∷ record { pending = event ∷ command ∷ []; fails = λ n. eqb n 1 }
    ∷ []

send_once_in_session_example : with_id "evt_1" (send_rounds 3 rounds_of_two []) ≤ 1
send_once_in_session_example = send_once_in_session 3 "evt_1" rounds_of_two
