-- ===== src/Protocol.antt =====
-- internal/protocol/envelope.go, and of payloads.go the types that the gateway itself reads.
pub mod JsonTree
pub mod Codec
pub mod Payloads
pub mod Structs
use say.Base.{
  ℕ, ℤ, pos, is_pos, String, Bool, true, false, not, ◌&&◌, Option, none, some, ◌==◌, if◌then◌else◌,
}
use JsonTree.{Json, obj, str, num, null, Fields, end, field, text_field, omit_empty, members}

pub record WireError : Type 0 where
  pub code : String
  pub message : String

-- `payload` is none where the raw message has no bytes. `generation` is a uint64.
pub record Envelope : Type 0 where
  pub version : ℤ
  pub id : String
  pub type : String
  pub generation : ℕ
  pub status : String
  pub error : Option WireError
  pub payload : Option Json

abbrev pub protocol_version : ℤ
protocol_version = pos 1

pub data ProtocolError : Type 0 where
  unsupported_version : ℤ → ProtocolError
  type_required : ProtocolError
  invalid_status : String → ProtocolError
  payload_required : ProtocolError
  undecodable : String → ProtocolError

-- (e Envelope) Validate; none is Go's nil error
unfoldable pub validate : Envelope → Option ProtocolError
validate e =
    if not (is_pos 1 e.version)
    then some (unsupported_version e.version)
    else if e.type == ""
    then some type_required
    else if not (e.status == "") && not (e.status == "ok") && not (e.status == "error")
    then some (invalid_status e.status)
    else none

-- NewEnvelope of a payload that marshals to the given value
unfoldable pub new_envelope : String → Json → Envelope
new_envelope kind payload = record {
  version = protocol_version;
  id = "";
  type = kind;
  generation = 0;
  status = "";
  error = none;
  payload = some payload;
}

-- ErrorEnvelope
unfoldable pub error_envelope : String → String → Envelope
error_envelope code message = record {
  version = protocol_version;
  id = "";
  type = "error";
  generation = 0;
  status = "error";
  error = some (record { code = code; message = message });
  payload = none;
}

pub record Hello : Type 0 where
  pub token : String
  pub platform : String
  pub version : String

pub record AccountStatus : Type 0 where
  pub state : String
  pub external_id : String
  pub detail : String

pub data Decoded (T : Type 0) : Type 0 where
  decoded : T → Decoded T
  failed : ProtocolError → Decoded T

abbrev or_undecodable : {T : Type 0} → String → Option T → Decoded T
or_undecodable kind none = failed (undecodable kind)
or_undecodable kind (some v) = decoded v

-- DecodePayload[T], for the reader of T
unfoldable pub decode_payload : {T : Type 0} → (Json → Option T) → Envelope → Decoded T
decode_payload read e = elim e.payload [
  | none ↦ failed payload_required
  | some v ↦ or_undecodable e.type (read v)
]

infixl 5 ◌>>=◌
abbrev pub ◌>>=◌ : {A B : Type 0} → Option A → (A → Option B) → Option B
none >>= f = none
some a >>= f = f a

unfoldable pub marshal_hello : Hello → Json
marshal_hello h = obj (
    field "token" (str h.token)
      (field "platform" (str h.platform) (field "worker_version" (str h.version) end)))

unfoldable pub read_hello : Json → Option Hello
unfolding text_field
read_hello v = do
  fs ← members v
  token ← text_field "token" "" fs
  platform ← text_field "platform" "" fs
  version ← text_field "worker_version" "" fs
  some (record { token = token; platform = platform; version = version })

unfoldable pub marshal_account_status : AccountStatus → Json
unfolding omit_empty
marshal_account_status s = obj (
    field "state" (str s.state)
      (omit_empty "external_id" s.external_id (omit_empty "detail" s.detail end)))

unfoldable pub read_account_status : Json → Option AccountStatus
unfolding text_field
read_account_status v = do
  fs ← members v
  state ← text_field "state" "" fs
  external_id ← text_field "external_id" "" fs
  detail ← text_field "detail" "" fs
  some (record { state = state; external_id = external_id; detail = detail })
