-- ===== src/Signal/Receive.antt =====
-- parseReceive of internal/signalworker/service.go: a message that signal-cli received or saw sent.
pub mod Reports
pub mod Parsed
use say.Base.{
  ℕ, ℤ, pos, is_pos, String, cat, Bool, true, false, ◌||◌, Option, none, some, List, [], ◌∷◌, ◌==◌,
  if◌then◌else◌,
}
use say.Protocol.JsonTree.{Json, same_key, into_text}
use say.Protocol.Structs.{Setter, into_struct, into_pointer, into_int64, with}

-- firstNonEmpty
unfoldable pub first_non_empty : List String → String
first_non_empty [] = ""
first_non_empty (s ∷ rest) = let later = first_non_empty rest in if s == "" then later else s

-- A time of the program: of the clock, or time.UnixMilli of a timestamp.
pub data Time : Type 0 where
  clock : ℕ → Time
  unix_milli : ℤ → Time

-- protocol.Message, with such a time
pub record Received : Type 0 where
  pub provider_message_id : String
  pub conversation_id : String
  pub author_id : String
  pub author_name : String
  pub body : String
  pub sent_at : Time
  pub direction : String

-- DataMessage; `group_info` is the GroupID that GroupInfo points to.
pub record DataMessage : Type 0 where
  pub timestamp : ℤ
  pub message : String
  pub group_info : Option String

pub record SentMessage : Type 0 where
  pub destination : String
  pub timestamp : ℤ
  pub message : String
  pub group_info : Option String

-- Envelope of the notification; `sync_message` is nil, or points to a struct with the pointer
-- SentMessage.
pub record SignalEnvelope : Type 0 where
  pub source : String
  pub source_number : String
  pub source_uuid : String
  pub source_name : String
  pub timestamp : ℤ
  pub data_message : Option DataMessage
  pub sync_message : Option (Option SentMessage)

abbrev no_data : DataMessage
no_data = record { timestamp = pos 0; message = ""; group_info = none }

abbrev no_sent : SentMessage
no_sent = record { destination = ""; timestamp = pos 0; message = ""; group_info = none }

abbrev pub no_envelope : SignalEnvelope
no_envelope = record {
  source = "";
  source_number = "";
  source_uuid = "";
  source_name = "";
  timestamp = pos 0;
  data_message = none;
  sync_message = none;
}

abbrev set_group : Setter String
set_group k v id = if same_key k "groupId" then into_text id v else some id

abbrev set_data : Setter DataMessage
set_data k v d =
    if same_key k "timestamp"
    then with (λ t. record d { timestamp = t }) (into_int64 d.timestamp v)
    else if same_key k "message"
    then with (λ s. record d { message = s }) (into_text d.message v)
    else if same_key k "groupInfo"
    then with (λ g. record d { group_info = g }) (into_pointer set_group "" d.group_info v)
    else some d

abbrev set_sent : Setter SentMessage
set_sent k v d =
    if same_key k "destination"
    then with (λ s. record d { destination = s }) (into_text d.destination v)
    else if same_key k "timestamp"
    then with (λ t. record d { timestamp = t }) (into_int64 d.timestamp v)
    else if same_key k "message"
    then with (λ s. record d { message = s }) (into_text d.message v)
    else if same_key k "groupInfo"
    then with (λ g. record d { group_info = g }) (into_pointer set_group "" d.group_info v)
    else some d

abbrev set_sync : Setter (Option SentMessage)
set_sync k v s = if same_key k "sentMessage" then into_pointer set_sent no_sent s v else some s

abbrev set_envelope : Setter SignalEnvelope
set_envelope k v e =
    if same_key k "source"
    then with (λ s. record e { source = s }) (into_text e.source v)
    else if same_key k "sourceNumber"
    then with (λ s. record e { source_number = s }) (into_text e.source_number v)
    else if same_key k "sourceUuid"
    then with (λ s. record e { source_uuid = s }) (into_text e.source_uuid v)
    else if same_key k "sourceName"
    then with (λ s. record e { source_name = s }) (into_text e.source_name v)
    else if same_key k "timestamp"
    then with (λ t. record e { timestamp = t }) (into_int64 e.timestamp v)
    else if same_key k "dataMessage"
    then with (λ d. record e { data_message = d }) (into_pointer set_data no_data e.data_message v)
    else if same_key k "syncMessage"
    then with (λ s. record e { sync_message = s }) (into_pointer set_sync none e.sync_message v)
    else some e

abbrev set_notification : Setter SignalEnvelope
set_notification k v e = if same_key k "envelope" then into_struct set_envelope e v else some e

-- json.Unmarshal of the notification; raw bytes that are missing are an error.
unfoldable pub read_notification : Option Json → Option SignalEnvelope
read_notification none = none
read_notification (some v) = into_struct set_notification no_envelope v

-- What the two branches gather.
pub record Draft : Type 0 where
  pub direction : String
  pub body : String
  pub timestamp : ℤ
  pub group_id : String
  pub direct_peer : String
  pub author_id : String
  pub author_name : String

abbrev pub later_of : ℤ → ℤ → ℤ
later_of outer inner = if is_pos 0 inner then outer else inner

abbrev pub group_of : Option String → String
group_of none = ""
group_of (some id) = id

abbrev pub peer : SignalEnvelope → String
peer e = first_non_empty (e.source_number ∷ e.source ∷ e.source_uuid ∷ [])

abbrev pub from_data : SignalEnvelope → DataMessage → Draft
from_data e d = record {
  direction = "incoming";
  body = d.message;
  timestamp = later_of e.timestamp d.timestamp;
  group_id = group_of d.group_info;
  direct_peer = peer e;
  author_id = peer e;
  author_name = first_non_empty (e.source_name ∷ peer e ∷ []);
}

abbrev pub from_sent : SignalEnvelope → SentMessage → Draft
from_sent e s = record {
  direction = "outgoing";
  body = s.message;
  timestamp = later_of e.timestamp s.timestamp;
  group_id = group_of s.group_info;
  direct_peer = s.destination;
  author_id = "self";
  author_name = "You";
}

unfoldable pub draft : SignalEnvelope → Option Draft
unfolding first_non_empty
draft e = elim e.data_message [ some d ↦ some (from_data e d) | none ↦ synced e.sync_message ]
  where
    synced : Option (Option SentMessage) → Option Draft
    synced (some (some s)) = some (from_sent e s)
    synced _ = none

-- `decimal` is fmt's "%d".
module _ (decimal : ℤ → String) where
  abbrev pub message_in : String → Draft → Received
  message_in conversation_id d = record {
    provider_message_id = decimal d.timestamp;
    conversation_id = conversation_id;
    author_id = d.author_id;
    author_name = d.author_name;
    body = d.body;
    sent_at = unix_milli d.timestamp;
    direction = d.direction;
  }

  unfoldable pub received : Draft → Option Received
  received d =
      if d.body == "" || is_pos 0 d.timestamp
      then none
      else if d.group_id == ""
      then (if d.direct_peer == "" then none else some (message_in (cat "user:" d.direct_peer) d))
      else some (message_in (cat "group:" d.group_id) d)

  abbrev if_read : Option SignalEnvelope → Option Draft
  if_read none = none
  if_read (some e) = draft e

  abbrev if_drafted : Option Draft → Option Received
  if_drafted none = none
  if_drafted (some d) = received d

  unfoldable pub parse_receive : Option Json → Option Received
  unfolding read_notification draft received
  parse_receive raw = if_drafted (if_read (read_notification raw))
