-- ===== src/Gateway/Hub.antt =====
-- internal/gateway/hub.go: which worker is registered for which account, and how the answers of
-- workers find the requests that wait for them. A worker connection and the channel of a request
-- are objects under numbers; each critical section is one step.
pub mod Runs
pub mod Registration
pub mod Routing
pub mod Fencing
use say.Base.{
  ℕ, suc, ◌≡◌, String, Bool, true, false, Option, none, some, List, [], ◌==◌, eqb, if◌then◌else◌,
  is_some, not, Map, lookup, put, remove, Heap, write, random_value,
}
use say.Protocol.{Envelope, WireError, new_envelope}
use say.Protocol.JsonTree.{Json}

-- `pending` holds the channel of each command that waits for an answer.
pub record Worker : Type 0 where
  pub account_id : String
  pub generation : ℕ
  pub pending : Map ℕ
  pub closed : Bool

-- A call of Request: its command, the worker that it asks, and its channel, which has room for
-- one envelope.
pub record Call : Type 0 where
  pub command_id : String
  pub worker : ℕ
  pub buffer : Option Envelope

-- How far a call of Request has come: it has looked the worker up, it waits among the worker's pending
-- commands, or its command is written.
pub data Phase : Type 0 where
  looked_up : Phase
  entered : Phase
  was_written : Phase

-- The local variables of a call of Request.
pub record Request : Type 0 where
  pub account_id : String
  pub command : Envelope
  pub phase : Phase

pub record Hub : Type 0 where
  pub registered : Map ℕ
  pub workers : Heap Worker
  pub calls : Heap Call
  pub requests : Heap Request
  pub next_call : ℕ

pub data RequestError : Type 0 where
  worker_offline : RequestError
  random_failed : RequestError
  cancelled : RequestError
  command_error : String → String → RequestError

pub data Reply : Type 0 where
  reply : Option Json → Reply
  refused : RequestError → Reply

abbrev pub new_hub : Hub
new_hub = record {
  registered = [];
  workers = λ p. none;
  calls = λ p. none;
  requests = λ p. none;
  next_call = 0;
}

-- ServeWorker's `&workerConnection{…}`, under the number p
unfoldable pub accept : ℕ → String → ℕ → Hub → Hub
accept p account_id generation h = record h {
  workers =
      write p
        (some (record {
          account_id = account_id;
          generation = generation;
          pending = [];
          closed = false;
        }))
        h.workers;
}

unfoldable pub register : ℕ → Worker → Hub → Bool × Hub
register p w h =
    if is_some (lookup w.account_id h.registered)
    then (false, h)
    else (true, record h { registered = put w.account_id p h.registered })

abbrev is_current : ℕ → Option ℕ → Bool
is_current p none = false
is_current p (some q) = eqb q p

-- The flag says whether the worker was the current one of its account, so that its status is to be
-- set to offline.
unfoldable pub unregister : ℕ → Worker → Hub → Bool × Hub
unregister p w h =
    if is_current p (lookup w.account_id h.registered)
    then (
      true,
      record h {
        registered = remove w.account_id h.registered;
        workers = write p (some (record w { closed = true })) h.workers;
      },
    )
    else (false, h)

-- What a part of Request comes to: it goes on, or it returns an error.
pub data Started : Type 0 where
  waits : ℕ → Envelope → Started
  fails : RequestError → Started

abbrev pub command : String → String → Json → ℕ → Envelope
command id kind payload generation = record (new_envelope kind payload) {
  id = id;
  generation = generation;
}

-- The command and the channel of Request, for a worker that was found.
unfoldable pub start_on : String → ℕ → Envelope → Hub → Started × Hub
start_on account_id p e h =
    let c = h.next_call in
    (
      waits c e,
      record h {
        calls = write c (some (record { command_id = e.id; worker = p; buffer = none })) h.calls;
        requests =
            write c (some (record { account_id = account_id; command = e; phase = looked_up }))
              h.requests;
        next_call = suc c;
      },
    )

-- Request, up to the channel: the worker is looked up under the hub's lock.
unfoldable pub start_request : String → String → Json → Option (List ℕ) → Hub → Started × Hub
unfolding start_on
start_request account_id kind payload bytes h = elim (lookup account_id h.registered) [
  | none ↦ (fails worker_offline, h)
  | some p ↦ elim (h.workers p) [
    | none ↦ (fails worker_offline, h)
    | some w ↦ elim (random_value "cmd_" bytes) [
      | none ↦ (fails random_failed, h)
      | some id ↦ start_on account_id p (command id kind payload w.generation) h
    ]
  ]
]

abbrev enter : String → ℕ → Option Worker → Option Worker
enter id c none = none
enter id c (some w) = some (record w { pending = put id c w.pending })

-- The channel is put among the worker's pending commands, under the worker's own lock.
unfoldable pub enter_pending : ℕ → Call → Request → Hub → Hub
enter_pending c call r h = record h {
  workers = write call.worker (enter call.command_id c (h.workers call.worker)) h.workers;
  requests = write c (some (record r { phase = entered })) h.requests;
}

abbrev forget : String → Option Worker → Option Worker
forget id none = none
forget id (some w) = some (record w { pending = remove id w.pending })

-- The end of Request, with its deferred function.
unfoldable pub finish_request : ℕ → Call → Hub → Hub
finish_request c call h = record h {
  workers = write call.worker (forget call.command_id (h.workers call.worker)) h.workers;
  calls = write c none h.calls;
  requests = write c none h.requests;
}

-- The command is written; `written` says whether it could be.
unfoldable pub write_command : ℕ → Call → Request → Bool → Hub → Started × Hub
unfolding finish_request
write_command c call r written h =
    if written
    then (
      waits c r.command,
      record h { requests = write c (some (record r { phase = was_written })) h.requests },
    )
    else (fails worker_offline, finish_request c call h)

-- deliver: a send that does not wait, on a channel with room for one envelope
unfoldable pub deliver : ℕ → Envelope → Hub → Hub
deliver p e h = elim (h.workers p) [
  | none ↦ h
  | some w ↦ elim (lookup e.id w.pending) [
    | none ↦ h
    | some c ↦ elim (h.calls c) [
      | none ↦ h
      | some call ↦
          if is_some call.buffer
          then h
          else record h { calls = write c (some (record call { buffer = some e })) h.calls }
    ]
  ]
]

-- What Request makes of the answer.
unfoldable pub answer : Envelope → Reply
answer result = elim result.error [
  | some e ↦ refused (command_error e.code e.message)
  | none ↦
      if not (result.status == "ok")
      then refused
          (command_error "invalid_worker_response" "worker response did not report success")
      else reply result.payload
]

-- The case of Request's select that was taken.
pub data Wake : Type 0 where
  context_done : Wake
  worker_closed : Wake
  answered : Envelope → Wake

abbrev pub outcome : Wake → Reply
outcome context_done = refused cancelled
outcome worker_closed = refused worker_offline
outcome (answered e) = answer e

-- A case of the select that is ready may be taken.
pub data Ready (h : Hub) (call : Call) : Wake → Type 0 where
  by_context : Ready h call context_done
  by_close :
      (w : Worker) → h.workers call.worker ≡ some w → w.closed ≡ true → Ready h call worker_closed
  by_answer : (e : Envelope) → call.buffer ≡ some e → Ready h call (answered e)
