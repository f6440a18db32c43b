-- ===== src/Protocol/Payloads.antt =====
-- internal/protocol/payloads.go: the payloads of commands and of their results, with their decoders.
use say.Base.{ℕ, String, Option, none, some, List, [], ◌∷◌, if◌then◌else◌}
use say.Protocol.{◌>>=◌}
use say.Protocol.JsonTree.{
  Json, null, str, arr, obj, Items, nil, cons, Fields, end, field, same_key, text_field, omit_empty,
  members,
}

pub record SendCommand : Type 0 where
  pub conversation_id : String
  pub body : String
  pub idempotency_key : String

-- A time of 0 is Go's zero time.
pub record SendResult : Type 0 where
  pub provider_message_id : String
  pub sent_at : ℕ

-- Conversation
pub record WireConversation : Type 0 where
  pub provider_id : String
  pub title : String
  pub kind : String

-- Message
pub record WireMessage : Type 0 where
  pub provider_message_id : String
  pub conversation_id : String
  pub author_id : String
  pub author_name : String
  pub body : String
  pub sent_at : ℕ
  pub direction : String

pub record LinkStartCommand : Type 0 where
  pub device_name : String
  pub phone_number : String

pub record LinkFinishCommand : Type 0 where
  pub device_name : String
  pub code : String
  pub password : String

pub record LinkResult : Type 0 where
  pub state : String
  pub external_id : String
  pub qr_uri : String
  pub detail : String

-- The value of a slice, from the decoder of its items; null is the nil slice.
unfoldable pub read_items : {T : Type 0} → (Json → Option T) → Items → Option (List T)
read_items read nil = some []
read_items read (cons v rest) = do x ← read v; xs ← read_items read rest; some (x ∷ xs)

abbrev pub read_list : {T : Type 0} → (Json → Option T) → Json → Option (List T)
read_list read null = some []
read_list read (arr vs) = read_items read vs
read_list read _ = none

-- The field `k` of a struct that is a slice.
unfoldable pub list_field :
    {T : Type 0} → (Json → Option T) → String → List T → Fields → Option (List T)
list_field read k old end = some old
list_field read k old (field j v rest) =
    elim (if same_key j k then read_list read v else some old) [
      | none ↦ none
      | some new ↦ list_field read k new rest
    ]

-- A value into a variable of type time.Time; `parse_time` is the library's reading of RFC 3339.
abbrev pub into_time : (String → Option ℕ) → ℕ → Json → Option ℕ
into_time parse_time old null = some old
into_time parse_time old (str s) = parse_time s
into_time parse_time old _ = none

unfoldable pub time_field : (String → Option ℕ) → String → ℕ → Fields → Option ℕ
time_field parse_time k old end = some old
time_field parse_time k old (field j v rest) =
    elim (if same_key j k then into_time parse_time old v else some old) [
      | none ↦ none
      | some new ↦ time_field parse_time k new rest
    ]

unfoldable pub marshal_send_command : SendCommand → Json
marshal_send_command c = obj (
    field "conversation_id" (str c.conversation_id)
      (field "body" (str c.body) (field "idempotency_key" (str c.idempotency_key) end)))

unfoldable pub read_send_command : Json → Option SendCommand
unfolding text_field
read_send_command v = do
  fs ← members v
  conversation_id ← text_field "conversation_id" "" fs
  body ← text_field "body" "" fs
  key ← text_field "idempotency_key" "" fs
  some (record { conversation_id = conversation_id; body = body; idempotency_key = key })

unfoldable pub read_conversation : Json → Option WireConversation
unfolding text_field
read_conversation v = do
  fs ← members v
  provider_id ← text_field "provider_id" "" fs
  title ← text_field "title" "" fs
  kind ← text_field "kind" "" fs
  some (record { provider_id = provider_id; title = title; kind = kind })

-- ConversationsResult; its cursor must be a string, and is not used.
unfoldable pub read_conversations : Json → Option (List WireConversation)
unfolding list_field read_conversation read_items text_field
read_conversations v = do
  fs ← members v
  found ← list_field read_conversation "conversations" [] fs
  cursor ← text_field "next_cursor" "" fs
  some found

unfoldable pub marshal_link_finish : LinkFinishCommand → Json
unfolding omit_empty
marshal_link_finish c = obj (
    omit_empty "device_name" c.device_name
      (omit_empty "code" c.code (omit_empty "password" c.password end)))

unfoldable pub marshal_link_start : LinkStartCommand → Json
unfolding omit_empty
marshal_link_start c =
    obj (omit_empty "device_name" c.device_name (omit_empty "phone_number" c.phone_number end))

unfoldable pub read_link_finish : Json → Option LinkFinishCommand
unfolding text_field
read_link_finish v = do
  fs ← members v
  device_name ← text_field "device_name" "" fs
  code ← text_field "code" "" fs
  password ← text_field "password" "" fs
  some (record { device_name = device_name; code = code; password = password })

module _ (parse_time : String → Option ℕ) where
  unfoldable pub read_send_result : Json → Option SendResult
  unfolding text_field time_field
  read_send_result v = do
    fs ← members v
    id ← text_field "provider_message_id" "" fs
    sent_at ← time_field parse_time "sent_at" 0 fs
    some (record { provider_message_id = id; sent_at = sent_at })

  unfoldable pub read_message : Json → Option WireMessage
  unfolding text_field time_field
  read_message v = do
    fs ← members v
    id ← text_field "provider_message_id" "" fs
    conversation_id ← text_field "conversation_id" "" fs
    author_id ← text_field "author_id" "" fs
    author_name ← text_field "author_name" "" fs
    body ← text_field "body" "" fs
    sent_at ← time_field parse_time "sent_at" 0 fs
    direction ← text_field "direction" "" fs
    some (record {
      provider_message_id = id;
      conversation_id = conversation_id;
      author_id = author_id;
      author_name = author_name;
      body = body;
      sent_at = sent_at;
      direction = direction;
    })

  -- MessagesResult
  unfoldable pub read_messages : Json → Option (List WireMessage)
  unfolding list_field read_message read_items text_field
  read_messages v = do
    fs ← members v
    found ← list_field read_message "messages" [] fs
    cursor ← text_field "next_cursor" "" fs
    some found
