-- ===== src/HttpApi.antt =====
-- internal/httpapi/router.go: the handlers of the HTTP API, from a decoded request to the response.
-- They run on the stores of the database, as cmd/say-api wires them. What the gateway's hub answers
-- to a request for a worker is an input.
pub mod Users
pub mod Accounts
pub mod Listing
pub mod Sending
pub mod Outsiders
use say.Base.{ℕ, String, Option, none, some, List, ◌==◌, if◌then◌else◌}
use say.Protocol.JsonTree.{Json}
use say.Gateway.Account.{Account}
use say.Gateway.Hub.{
  Reply, reply, refused, RequestError, worker_offline, random_failed, cancelled, command_error,
}
use say.Auth.{LoginStart, TokenPair}
use say.Postgres.{ConversationRow, Message}

-- What a response shows.
pub data Body : Type 0 where
  failure : String → String → Body
  healthy : Body
  login : LoginStart → Body
  tokens : TokenPair → Body
  accounts : List Account → Body
  account : Account → Body
  created : Account → String → ℕ → Body
  linked : Option Json → Body
  conversations : List ConversationRow → Body
  messages : List Message → Body
  sent : String → Message → Body
  nothing : Body

pub record Response : Type 0 where
  pub status : ℕ
  pub body : Body

-- writeError
abbrev pub write_error : ℕ → String → String → Response
write_error status code message = record { status = status; body = failure code message }

abbrev pub internal_error : String → Response
internal_error message = write_error 500 "internal_error" message

abbrev pub invalid_request : String → Response
invalid_request message = write_error 400 "invalid_request" message

abbrev pub health : Response
health = record { status = 200; body = healthy }

-- What decodeJSON made of the request's body, with the text of its error.
pub data Input (T : Type 0) : Type 0 where
  given : T → Input T
  malformed : String → Input T

-- workerErrorCode
abbrev pub worker_error_code : RequestError → String
worker_error_code worker_offline = "worker_offline"
worker_error_code (command_error code message) = code
worker_error_code random_failed = "worker_timeout"
worker_error_code cancelled = "worker_timeout"
