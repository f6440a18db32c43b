-- ===== src/Examples/Linking.antt =====
-- The Signal worker: a link, a message that comes in, and the reply.
use say.Base.{
  ℤ, pos, negsuc, String, Option, some, List, [], ◌∷◌, ◌≡◌, ◌↔◌, ◌≢◌, true, refl, arith, eq_iff,
  trim_space, All,
}
use say.Protocol.{Envelope, new_envelope, decode_payload, decoded}
use say.Protocol.JsonTree.{Json, obj, field, str, num, arr, end, cons, nil, text_field}
use say.Protocol.Structs.{fill}
use say.Protocol.Payloads.{LinkResult, WireConversation, read_link_finish, read_items}
use say.Signal.{
  Service, new_service, Rpc, answered, success, start_link, finish_link, detect_account,
  parse_account, is_link,
}
use say.Signal.Linked.{Event, starts, run, step, finish_link_asks}
use say.Signal.Receive.{
  Received, SignalEnvelope, unix_milli, parse_receive, read_notification, draft, received,
  first_non_empty,
}
use say.Signal.Receive.Reports.{Reports}
use say.Signal.Receive.Parsed.{parse_receive-Reports}
use say.Signal.Sending.{Target, plan_send}
use say.Signal.Conversations.{Group, Contact, conversations, of_groups, of_contacts}
use say.Signal.Conversations.Addressable.{
  Addressed, IsOrigin, reply_reaches, conversations-Addressed,
}

-- A stand-in for the decimal digits of a number.
abbrev decimal : ℤ → String
decimal (pos n) = "+"
decimal (negsuc n) = "-"

abbrev notification : Json
notification = obj (
    field "envelope"
      (obj (
        field "sourceNumber" (str "+47") (
          field "sourceName" (str "Bob") (
            field "timestamp" (num (pos 5)) (
              field "dataMessage"
                (obj (
                  field "message" (str "hi")
                    (field "groupInfo" (obj (field "groupId" (str "g1") end)) end)))
                end)))))
      end)

abbrev message : Received
message = record {
  provider_message_id = "+";
  conversation_id = "group:g1";
  author_id = "+47";
  author_name = "Bob";
  body = "hi";
  sent_at = unix_milli (pos 5);
  direction = "incoming";
}

parses : parse_receive decimal (some notification) ≡ some message
unfolding parse_receive read_notification draft received first_non_empty fill
parses = refl

parse_receive-Reports_example : (parse_receive decimal (some notification) ≡ some message) ↔ (
    (e : SignalEnvelope) × (read_notification (some notification) ≡ some e)
    × Reports decimal e message)
parse_receive-Reports_example = parse_receive-Reports decimal (some notification) message

abbrev linked_service : Service
linked_service = record { account = "+46"; link_uri = ""; link_name = "say" }

has_account : ◌≢◌ {A = String} "+46" ""
has_account e = ground (arith, (eq_iff "+46" "").1 e)

has_text : trim_space "yes" ≢ ""
unfolding trim_space
has_text e = ground (arith, (eq_iff "yes" "").1 e)

reply_reaches_example :
    (e : SignalEnvelope) × (t : Target) × (read_notification (some notification) ≡ some e)
    × IsOrigin e t
    × (plan_send linked_service
          (decoded (record { conversation_id = "group:g1"; body = "yes"; idempotency_key = "key" }))
        ≡ success (record { account = "+46"; message = "yes"; target = t }))
reply_reaches_example =
    reply_reaches decimal (some notification) message linked_service "yes" "key" parses has_account
      has_text

abbrev groups : List Group
groups =
    record { id = ""; group_id = "g1"; name = "" }
    ∷ record { id = ""; group_id = ""; name = "x" }
    ∷ []

abbrev contacts : List Contact
contacts = record { number = "+47"; name = ""; profile_name = "Bob" } ∷ []

abbrev listed : List WireConversation
listed =
    record { provider_id = "group:g1"; title = "Signal group"; kind = "group" }
    ∷ record { provider_id = "user:+47"; title = "Bob"; kind = "direct" }
    ∷ []

lists : conversations (answered groups) (answered contacts) linked_service ≡ success listed
unfolding conversations of_groups of_contacts
lists = refl

conversations-Addressed_example : All (λ c. Addressed c.provider_id) listed
conversations-Addressed_example =
    conversations-Addressed (answered groups) (answered contacts) linked_service listed lists

abbrev finish : Envelope
finish = new_envelope "link.finish" (obj (field "device_name" (str " desk ") end))

abbrev accounts : Rpc (Option Json)
accounts = answered (some (arr (cons (obj (field "number" (str "+46") end)) nil)))

abbrev opened : List Event
opened = starts (answered "sgnl://link") ∷ []

asks :
    (finish_link (answered tt) accounts finish (run opened (new_service ""))).0.1.asked
    ≡ some ("sgnl://link", "desk")
unfolding new_envelope finish_link detect_account start_link run step decode_payload
    read_link_finish text_field parse_account read_items fill trim_space
asks = refl

finish_link_asks_example : is_link "sgnl://link" ≡ true
finish_link_asks_example =
    finish_link_asks "" opened (answered tt) accounts finish "sgnl://link" "desk" asks

abbrev open_service : Service
open_service = record { account = ""; link_uri = "sgnl://link"; link_name = "say" }

abbrev result : LinkResult
result = record { state = "linked"; external_id = "+46"; qr_uri = ""; detail = "" }
