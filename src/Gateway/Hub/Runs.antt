-- ===== src/Gateway/Hub/Runs.antt =====
-- Runs of the hub.
use say.Base.{ℕ, String, Bool, false, ◌≡◌, Option, none, some, List}
use say.Protocol.{Envelope}
use say.Protocol.JsonTree.{Json}
use say.Gateway.Hub.{
  Hub, Worker, Call, Request, looked_up, entered, was_written, new_hub, accept, register,
  unregister, start_request, enter_pending, write_command, deliver, finish_request, Ready, Wake,
}

-- One critical section of a session, of a request or of a reader, in any order between them.
pub data Step (h : Hub) : Hub → Type 0 where
  accepts :
      (p : ℕ) (account_id : String) (generation : ℕ)
      → h.workers p ≡ none
      → Step h (accept p account_id generation h)
  registers :
      (p : ℕ) (w : Worker) → h.workers p ≡ some w → w.closed ≡ false → Step h (register p w h).1
  unregisters : (p : ℕ) (w : Worker) → h.workers p ≡ some w → Step h (unregister p w h).1
  starts :
      (account_id kind : String) (payload : Json) (bytes : Option (List ℕ))
      → Step h (start_request account_id kind payload bytes h).1
  enters :
      (c : ℕ) (call : Call) (r : Request)
      → h.calls c ≡ some call
      → h.requests c ≡ some r
      → r.phase ≡ looked_up
      → Step h (enter_pending c call r h)
  writes :
      (c : ℕ) (call : Call) (r : Request) (written : Bool)
      → h.calls c ≡ some call
      → h.requests c ≡ some r
      → r.phase ≡ entered
      → Step h (write_command c call r written h).1
  delivers : (p : ℕ) (e : Envelope) → Step h (deliver p e h)
  finishes :
      (c : ℕ) (call : Call) (r : Request) (wake : Wake)
      → h.calls c ≡ some call
      → h.requests c ≡ some r
      → r.phase ≡ was_written
      → Ready h call wake
      → Step h (finish_request c call h)

pub data Reach : Hub → Type 0 where
  start : Reach new_hub
  next : {h k : Hub} → Reach h → Step h k → Reach k
