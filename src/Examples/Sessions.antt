-- ===== src/Examples/Sessions.antt =====
-- Sessions of a worker on the in-memory store.
use say.Base.{true, ◌≡◌, ◌↔◌, refl, Option, none, some, [], ◌∷◌, lookup, put, remove, random_value}
use say.Protocol.{
  Envelope, Hello, new_envelope, marshal_hello, marshal_account_status, read_hello,
  read_account_status, validate, decode_payload,
}
use say.Protocol.JsonTree.{text_field, omit_empty}
use say.Gateway.Store.{create_account, authenticate_worker, use_enrollment, exchange}
use say.Gateway.Store.Invariant.{run, step}
use say.Gateway.Hub.{new_hub}
use say.Gateway.Session.{
  Backend, event_ack, acknowledge, publish, serve_event, serve_frame, handshake, check_hello,
  accepted,
}
use say.Gateway.Session.Frames.{serve_frame-Acknowledged, Acknowledged}
use say.Gateway.Session.Handshake.{Accepts, handshake_iff}
use say.Gateway.Session.InMemory.{Server, in_memory}
use say.Gateway.Serve.{serve_worker, serve_worker-registered}
use say.Examples.Enrollment.{hash, before, auth}

abbrev server : Server
server = record {
  store = before;
  moments = λ n. record { now = 200; first_bytes = some (3 ∷ []); second_bytes = some (4 ∷ []) };
  calls = 0;
}

abbrev backend : Backend Server
backend = in_memory hash none

abbrev hello : Hello
hello = record { token = "say_enroll_02"; platform = "signal"; version = "1" }

abbrev greeting : Option Envelope
greeting = some (new_envelope "hello" (marshal_hello hello))

abbrev entered : Server
entered = record server {
  store =
      (authenticate_worker hash "say_enroll_02" "signal" 200 (some (3 ∷ [])) (some (4 ∷ []))
        before).1;
  calls = 1;
}

let_in : handshake backend greeting server ≡ (accepted hello auth, entered)
unfolding handshake check_hello new_envelope marshal_hello read_hello decode_payload validate
    text_field authenticate_worker use_enrollment exchange run step create_account random_value
    lookup put remove
let_in = refl

handshake_iff_example :
    (handshake backend greeting server ≡ (accepted hello auth, entered))
    ↔ Accepts backend greeting server hello auth entered
handshake_iff_example = handshake_iff backend greeting hello auth server entered

-- An account status under the event id evt_1.
abbrev event : Envelope
event =
    record (new_envelope "account.status"
      (marshal_account_status (record { state = "linked"; external_id = "+1"; detail = "" }))) {
        id = "evt_1";
      }

acknowledged :
    (serve_frame backend auth.account true event entered).sent
    ≡ some (event_ack "evt_1" auth.account.generation)
unfolding serve_frame serve_event publish acknowledge new_envelope marshal_account_status omit_empty
    read_account_status decode_payload validate text_field
acknowledged = refl

serve_frame-Acknowledged_example :
    Acknowledged backend auth.account true
      (record event { generation = auth.account.generation })
      (event_ack "evt_1" auth.account.generation)
      entered
      (serve_frame backend auth.account true event entered).world
serve_frame-Acknowledged_example =
    serve_frame-Acknowledged backend auth.account true event
      (event_ack "evt_1" auth.account.generation) entered acknowledged

serve_worker-registered_example :
    lookup "acc_01"
      (serve_worker backend 0 greeting true ((event, true) ∷ []) new_hub server).hub.registered
    ≡ lookup "acc_01" new_hub.registered
serve_worker-registered_example =
    serve_worker-registered backend 0 greeting true ((event, true) ∷ []) new_hub server "acc_01"
