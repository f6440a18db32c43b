-- ===== src/Worker/Session.antt =====
-- connect of internal/worker/client.go, once the gateway has answered that it is ready: the loop, the
-- commands that it runs, and the events that it sends.
pub mod Answers
pub mod Events
use say.Base.{
  ℕ, suc, ◌+◌, ◌<◌, ◌≡◌, ◌≢◌, String, Bool, true, false, Option, none, some, List, [], ◌∷◌, ◌++◌,
  ◌==◌, if◌then◌else◌, length,
}
use say.Protocol.{Envelope, WireError, protocol_version}
use say.Protocol.JsonTree.{Json}

-- `running` are the commands whose handlers run, and `releasing` is how many goroutines have sent
-- their result and still hold a place; `results` is the content of the channel, the oldest first.
-- `loop` is where the loop stands: it waits for the next message or answer, has read a command, or has
-- to send the answer worker_busy into the channel. `received` and `written` record the commands that were read and the answers that were written.
pub data Loop : Type 0 where
  idle : Loop
  taken : Envelope → Loop
  refusing : Envelope → Loop

pub record Session : Type 0 where
  pub generation : ℕ
  pub loop : Loop
  pub running : List Envelope
  pub releasing : ℕ
  pub results : List Envelope
  pub received : List Envelope
  pub written : List Envelope

abbrev pub new_session : ℕ → Session
new_session generation = record {
  generation = generation;
  loop = idle;
  running = [];
  releasing = 0;
  results = [];
  received = [];
  written = [];
}

-- The capacities of the channels.
abbrev pub limit : ℕ
limit = 4

abbrev pub room : ℕ
room = 16

abbrev pub busy : ℕ → Envelope → Envelope
busy generation e = record {
  version = protocol_version;
  id = e.id;
  type = e.type;
  generation = generation;
  status = "error";
  error =
      some
        (record { code = "worker_busy"; message = "worker is already handling its command limit" });
  payload = none;
}

-- What the handler returns: an error, or a payload that can be encoded or not.
pub data Handled : Type 0 where
  refused : WireError → Handled
  returned : Option Json → Handled

abbrev with_error : Envelope → WireError → Envelope
with_error e x = record e { status = "error"; error = some x }

-- The result of a command.
unfoldable pub result_of : ℕ → Envelope → Handled → Envelope
result_of generation e handled = finish handled
  where
    blank : Envelope
    blank = record {
      version = protocol_version;
      id = e.id;
      type = e.type;
      generation = generation;
      status = "";
      error = none;
      payload = none;
    }

    finish : Handled → Envelope
    finish (refused x) = with_error blank x
    finish (returned (some v)) = record blank { status = "ok"; payload = some v }
    finish (returned none) =
        with_error blank
          (record { code = "encode_failed"; message = "worker failed to encode command result" })

-- An envelope that the loop takes for a command.
abbrev pub is_command : Envelope → Bool
is_command e = if e.type == "event.ack" then false else if e.id == "" then false else true

-- One step of the loop or of a goroutine. A send into the channel of results waits for room; while
-- the loop waits so, it takes no other step.
pub data Step (s : Session) : Session → Type 0 where
  ignores : (e : Envelope) → s.loop ≡ idle → is_command e ≡ false → Step s s
  receives :
      (e : Envelope)
      → s.loop ≡ idle
      → is_command e ≡ true
      → Step s (record s { loop = taken e; received = e ∷ s.received })
  begins :
      (e : Envelope)
      → s.loop ≡ taken e
      → length s.running + s.releasing < limit
      → Step s (record s { loop = idle; running = s.running ++ e ∷ [] })
  overflows :
      (e : Envelope)
      → s.loop ≡ taken e
      → length s.running + s.releasing ≡ limit
      → Step s (record s { loop = refusing e })
  rejects :
      (e : Envelope)
      → s.loop ≡ refusing e
      → length s.results < room
      → Step s (record s { loop = idle; results = s.results ++ busy s.generation e ∷ [] })
  finishes :
      (before : List Envelope) (e : Envelope) (after : List Envelope) (handled : Handled)
      → s.running ≡ before ++ e ∷ after
      → length s.results < room
      → Step s (record s {
        running = before ++ after;
        releasing = suc s.releasing;
        results = s.results ++ result_of s.generation e handled ∷ [];
      })
  releases : (n : ℕ) → s.releasing ≡ suc n → Step s (record s { releasing = n })
  writes :
      (e : Envelope) (rest : List Envelope)
      → s.loop ≡ idle
      → s.results ≡ e ∷ rest
      → Step s (record s { results = rest; written = e ∷ s.written })

pub data Reach (generation : ℕ) : Session → Type 0 where
  start : Reach generation (new_session generation)
  next : {s t : Session} → Reach generation s → Step s t → Reach generation t
