-- ===== src/Signal.antt =====
-- internal/signalworker/service.go: the commands of the Signal worker. What signal-cli answers to a
-- call is an input, and a handler runs without another that changes the same fields in between.
pub mod Receive
pub mod Sending
pub mod Linked
pub mod Conversations
use say.Base.{
  ℕ, ℤ, pos, is_pos, String, Bool, true, false, not, ◌&&◌, ◌||◌, Option, none, some, List, [], ◌∷◌,
  ◌==◌, if◌then◌else◌, has_prefix, trim_space,
}
use say.Protocol.{Envelope, WireError, AccountStatus, Decoded, decoded, failed, decode_payload}
use say.Protocol.JsonTree.{Json, same_key, null, str, arr, obj, into_text, Items, nil, cons}
use say.Protocol.Structs.{Setter, into_struct, with}
use say.Protocol.Payloads.{LinkFinishCommand, LinkResult, read_link_finish, read_list, read_items}

pub record Service : Type 0 where
  pub account : String
  pub link_uri : String
  pub link_name : String

-- New
abbrev pub new_service : String → Service
new_service link_name = record {
  account = "";
  link_uri = "";
  link_name = if link_name == "" then "say" else link_name;
}

-- What a call of signal-cli comes to; the flag says whether its context was cancelled or expired.
pub data Rpc (T : Type 0) : Type 0 where
  answered : T → Rpc T
  rpc_failed : Bool → Rpc T

-- The result of a command.
pub data Outcome (T : Type 0) : Type 0 where
  success : T → Outcome T
  failure : WireError → Outcome T

-- commandError
abbrev pub command_error : {T : Type 0} → String → String → Outcome T
command_error code message = failure (record { code = code; message = message })

abbrev set_account : Setter (String × String)
set_account k v (number, account) =
    if same_key k "number"
    then with (λ s. (s, account)) (into_text number v)
    else if same_key k "account"
    then with (λ s. (number, s)) (into_text account v)
    else some (number, account)

-- The first number or account that is not empty.
abbrev pub first_account : List (String × String) → String → String
first_account [] otherwise = otherwise
first_account ((number, account) ∷ rest) otherwise =
    let later = first_account rest otherwise in
    if number == "" then (if account == "" then later else account) else number

abbrev head_of : List String → String
head_of [] = ""
head_of (s ∷ rest) = s

abbrev or_empty : {T : Type 0} → Option (List T) → List T
or_empty none = []
or_empty (some l) = l

-- parseAccount; raw bytes that are missing are an error of both readings.
unfoldable pub parse_account : Option Json → String
unfolding read_items
parse_account none = ""
parse_account (some v) =
    first_account (or_empty (read_list (into_struct set_account ("", "")) v))
      (head_of (or_empty (read_list (into_text "") v)))

-- DetectAccount, with no account where it fails
unfoldable pub detect_account : Rpc (Option Json) → Service → Option String × Service
unfolding parse_account
detect_account (rpc_failed late) s = (none, s)
detect_account (answered raw) s =
    let account = parse_account raw in (some account, record s { account = account })

abbrev pub is_link : String → Bool
is_link uri = has_prefix uri "sgnl://" || has_prefix uri "tsdevice:"

-- startLink
unfoldable pub start_link : Rpc String → Service → Outcome LinkResult × Service
start_link answer s = if s.account == "" then shown answer else (
  success (record { state = "linked"; external_id = s.account; qr_uri = ""; detail = "" }),
  s,
)
  where
    shown : Rpc String → Outcome LinkResult × Service
    shown (rpc_failed late) =
        (command_error "signal_link_failed" "Signal failed to start device linking", s)
    shown (answered uri) =
        if is_link uri
        then (
          success (record {
            state = "qr_required";
            external_id = "";
            qr_uri = uri;
            detail = "Scan this QR code from Signal settings under Linked devices";
          }),
          record s { link_uri = uri },
        )
        else (command_error "signal_link_failed" "Signal returned an invalid link URI", s)

-- What finishLink does besides: what it asks signal-cli to link, and the status that it publishes.
pub record Linking : Type 0 where
  pub asked : Option (String × String)
  pub published : Option AccountStatus

abbrev nothing_done : Linking
nothing_done = record { asked = none; published = none }

abbrev undetected : {T : Type 0} → Outcome T
undetected =
    command_error "signal_link_failed" "Signal linked but the account could not be detected"

abbrev pub live : String → AccountStatus
live account = record { state = "live"; external_id = account; detail = "" }

abbrev pub linked :
    String × String → Option String × Service → (Outcome LinkResult × Linking) × Service
linked asked (none, s) = ((undetected, record { asked = some asked; published = none }), s)
linked asked (some account, s) =
    if account == "" then ((undetected, record { asked = some asked; published = none }), s) else (
      (
        success (record { state = "linked"; external_id = account; qr_uri = ""; detail = "" }),
        record { asked = some asked; published = some (live account) },
      ),
      record s { link_uri = "" },
    )

abbrev pub confirmed :
    String × String
    → Rpc (Unit {0})
    → Rpc (Option Json)
    → Service
    → (Outcome LinkResult × Linking) × Service
confirmed asked (rpc_failed late) found s = (
  (
    command_error "signal_link_failed" "Signal failed to finish device linking",
    record { asked = some asked; published = none },
  ),
  s,
)
confirmed asked (answered _) found s = linked asked (detect_account found s)

abbrev device : Service → LinkFinishCommand → String
device s input = let name = trim_space input.device_name in if name == "" then s.link_name else name

abbrev pub finish_decoded :
    Rpc (Unit {0})
    → Rpc (Option Json)
    → Service
    → Decoded LinkFinishCommand
    → (Outcome LinkResult × Linking) × Service
finish_decoded confirms found s (failed e) =
    ((command_error "invalid_command" "Invalid Signal finish-link payload", nothing_done), s)
finish_decoded confirms found s (decoded input) =
    if s.link_uri == ""
    then (
      (command_error "link_not_started" "Start Signal linking before finishing it", nothing_done),
      s,
    )
    else confirmed (s.link_uri, device s input) confirms found s

-- finishLink
unfoldable pub finish_link :
    Rpc (Unit {0})
    → Rpc (Option Json)
    → Envelope
    → Service
    → (Outcome LinkResult × Linking) × Service
unfolding detect_account trim_space
finish_link confirms found e s = finish_decoded confirms found s (decode_payload read_link_finish e)
