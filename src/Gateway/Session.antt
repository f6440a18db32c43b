-- ===== src/Gateway/Session.antt =====
-- ServeWorker of internal/gateway/hub.go: the handshake of a worker and its frames. What the
-- session calls, the account store and the event handler, is an interface over a world of its own.
pub mod Frames
pub mod Handshake
pub mod InMemory
use say.Base.{
  ℕ, String, Bool, true, false, not, ◌&&◌, ◌||◌, Option, none, some, List, [], ◌∷◌, ◌==◌, eqb,
  if◌then◌else◌, is_some,
}
use say.Protocol.{
  Envelope, validate, protocol_version, decode_payload, Decoded, decoded, failed, Hello, read_hello,
  read_account_status,
}
use say.Gateway.Account.{
  Account, WorkerAuth, Result, ok, err, Error, expired_token, platform_mismatch,
}

-- A flag is true where Go's error is nil.
pub record Backend (W : Type 0) : Type 0 where
  pub authenticate : String → String → W → Result WorkerAuth × W
  pub touch : String → ℕ → W → Bool × W
  pub set_identity : String → ℕ → String → String → W → Bool × W
  pub set_status : String → ℕ → String → W → Bool × W
  pub on_event : Option (Account → Envelope → W → Bool × W)

-- The message of a refusal: a fixed text, or that of an error of the store.
pub data Reason : Type 0 where
  text : String → Reason
  of_error : Error → Reason

pub data Greeting : Type 0 where
  accepted : Hello → WorkerAuth → Greeting
  rejected : String → Reason → Greeting

abbrev pub refusal_code : Error → String
refusal_code expired_token = "expired_token"
refusal_code platform_mismatch = "platform_mismatch"
refusal_code _ = "invalid_token"

abbrev invalid_hello : String → Greeting
invalid_hello message = rejected "invalid_hello" (text message)

module _ {W : Type 0} (b : Backend W) where
  abbrev greet : Hello → Result WorkerAuth × W → Greeting × W
  greet h (ok auth, w) = (accepted h auth, w)
  greet h (err e, w) = (rejected (refusal_code e) (of_error e), w)

  unfoldable pub check_hello : Decoded Hello → W → Greeting × W
  check_hello (failed e) w = (invalid_hello "token, platform, and worker_version are required", w)
  check_hello (decoded h) w =
      if h.token == "" || h.platform == "" || h.version == ""
      then (invalid_hello "token, platform, and worker_version are required", w)
      else greet h (b.authenticate h.token h.platform w)

  -- The first message, or none where it could not be read.
  unfoldable pub handshake : Option Envelope → W → Greeting × W
  unfolding check_hello
  handshake none w = (invalid_hello "failed to read worker hello", w)
  handshake (some e) w =
      if is_some (validate e) || not (e.type == "hello")
      then (invalid_hello "first message must be a valid hello envelope", w)
      else check_hello (decode_payload read_hello e) w

-- What one frame of a session comes to: whether the session goes on, what it wrote, what it handed
-- to the waiting requests, and the world after.
pub record Turn (W : Type 0) : Type 0 where
  pub stays : Bool
  pub sent : Option Envelope
  pub delivered : Option Envelope
  pub world : W

abbrev pub skip : {W : Type 0} → W → Turn W
skip w = record { stays = true; sent = none; delivered = none; world = w }

abbrev pub leave : {W : Type 0} → W → Turn W
leave w = record { stays = false; sent = none; delivered = none; world = w }

abbrev pub event_ack : String → ℕ → Envelope
event_ack id generation = record {
  version = protocol_version;
  id = id;
  type = "event.ack";
  generation = generation;
  status = "ok";
  error = none;
  payload = none;
}

-- `account` is the one that authenticated, and `written` says whether an acknowledgement can be
-- written to the connection.
module _ {W : Type 0} (b : Backend W) (account : Account) (written : Bool) where
  unfoldable pub acknowledge : Envelope → W → Turn W
  acknowledge e w =
      if e.id == ""
      then skip w
      else if written
      then record (skip w) { sent = some (event_ack e.id account.generation) }
      else leave w

  abbrev after_event : Envelope → Bool × W → Turn W
  after_event e (true, w) = acknowledge e w
  after_event e (false, w) = leave w

  unfoldable pub publish : Envelope → W → Turn W
  unfolding acknowledge
  publish e w = elim b.on_event [
    | none ↦ acknowledge e w
    | some handler ↦ after_event e (handler account e w)
  ]

  abbrev after_identity : Envelope → Bool × W → Turn W
  after_identity e (true, w) = publish e w
  after_identity e (false, w) = leave w

  -- An event, with the generation of the session.
  unfoldable pub serve_event : Envelope → W → Turn W
  unfolding publish
  serve_event e w =
      if e.type == "account.status"
      then elim (decode_payload read_account_status e) [
        | failed x ↦ skip w
        | decoded s ↦
            after_identity e (b.set_identity account.id account.generation s.state s.external_id w)
      ]
      else publish e w

  abbrev after_touch : Bool × W → Turn W
  after_touch (true, w) = skip w
  after_touch (false, w) = leave w

  -- One round of the loop of ServeWorker, for an envelope that was read.
  unfoldable pub serve_frame : Envelope → W → Turn W
  unfolding serve_event
  serve_frame e w =
      if is_some (validate e)
      then skip w
      else if not (eqb e.generation 0) && not (eqb e.generation account.generation)
      then skip w
      else if e.type == "heartbeat"
      then after_touch (b.touch account.id account.generation w)
      else if not (e.id == "") && (not (e.status == "") || is_some e.error)
      then record (skip w) { delivered = some e }
      else serve_event (record e { generation = account.generation }) w
