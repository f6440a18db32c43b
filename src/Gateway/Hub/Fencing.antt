-- ===== src/Gateway/Hub/Fencing.antt =====
-- Which worker a command of Request in internal/gateway/hub.go goes to.
use say.Base.{
  ℕ, String, Bool, true, false, ◌&&◌, ◌≡◌, ◌⊎◌, Option, none, some, ◌==◌, eqb, not, lookup,
}
use say.Protocol.{Envelope}
use say.Gateway.Hub.{Hub, Worker, Call, Request, command}

-- The worker of the account that has the command's generation.
abbrev serves : Request → Option Worker → Bool
serves r none = false
serves r (some w) = (w.account_id == r.account_id) && eqb w.generation r.command.generation

abbrev is_open : Option Worker → Bool
is_open none = false
is_open (some w) = not w.closed

-- A request in progress has a worker of its account, which is the registered one unless it is closed.
record IsFenced (h : Hub) : Type 0 where
  own :
      (c : ℕ) (call : Call) (r : Request)
      → h.calls c ≡ some call
      → h.requests c ≡ some r
      → serves r (h.workers call.worker) ≡ true
  named :
      (c : ℕ) (call : Call) (r : Request)
      → h.calls c ≡ some call
      → h.requests c ≡ some r
      → r.command.id ≡ call.command_id
  current :
      (c : ℕ) (call : Call) (r : Request)
      → h.calls c ≡ some call
      → h.requests c ≡ some r
      → is_open (h.workers call.worker) ≡ true
      → lookup r.account_id h.registered ≡ some call.worker

-- A worker that a request writes its command to.
pub record SentTo (h : Hub) (call : Call) (account_id : String) (e : Envelope) (w : Worker)
    : Type 0 where
  pub stands : h.workers call.worker ≡ some w
  pub own : w.account_id ≡ account_id
  pub fenced : e.generation ≡ w.generation
  pub named : e.id ≡ call.command_id
  pub current : (lookup account_id h.registered ≡ some call.worker) ⊎ (w.closed ≡ true)
