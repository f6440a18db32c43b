-- ===== src/Gateway/Hub/Registration.antt =====
-- Which worker the hub holds for an account.
use say.Base.{
  ℕ, String, Bool, true, false, ◌≡◌, ◌≢◌, Option, none, some, List, ◌==◌, eq_iff, arith, lookup,
  put, lookup-put, lookup-remove, if◌then◌else◌,
}
use say.Protocol.JsonTree.{Json}
use say.Gateway.Hub.{
  Hub, Worker, accept, register, unregister, start_on, start_request, enter_pending, write_command,
  deliver, finish_request,
}
use say.Gateway.Hub.Runs.{
  Step, accepts, registers, unregisters, starts, enters, writes, delivers, finishes, Reach, start,
  next,
}

abbrev pub is_live : String → Option Worker → Bool
is_live account_id none = false
is_live account_id (some w) =
    if w.account_id == account_id then (if w.closed then false else true) else false

-- A registered worker is the account's own, and its connection is not closed.
pub record IsLive (h : Hub) : Type 0 where
  pub at :
      (account_id : String) (p : ℕ)
      → lookup account_id h.registered ≡ some p
      → is_live account_id (h.workers p) ≡ true

start_request-IsLive :
    (account_id kind : String) (payload : Json) (bytes : Option (List ℕ)) (h : Hub)
    → IsLive h
    → IsLive (start_request account_id kind payload bytes h).1
unfolding start_request start_on
start_request-IsLive account_id kind payload bytes h v = record {
  at = λ a p e. ground (arith, v.at a p);
}

Step-IsLive : {h k : Hub} → Step h k → IsLive h → IsLive k
unfolding accept register unregister enter_pending write_command deliver finish_request
Step-IsLive {h} (accepts p a g e) v = record { at = λ b q f. ground (arith, v.at b q) }
Step-IsLive {h} (registers p w e o) v = record {
  at = λ b q f.
      ground (arith, v.at b q, lookup-put w.account_id b p h.registered, eq_iff w.account_id b);
}
Step-IsLive {h} (unregisters p w e) v = record {
  at = λ b q f.
      ground (arith, v.at b q, lookup-remove w.account_id b h.registered, eq_iff w.account_id b);
}
Step-IsLive {h} (starts a k d b) v = start_request-IsLive a k d b h v
Step-IsLive {h} (enters c call r e f g) v = record { at = λ b q l. ground (arith, v.at b q) }
Step-IsLive {h} (writes c call r b e f g) v = record { at = λ a q l. ground (arith, v.at a q) }
Step-IsLive {h} (delivers p e) v = record { at = λ b q f. ground (arith, v.at b q) }
Step-IsLive {h} (finishes c call r wake e f g ready) v = record {
  at = λ b q l. ground (arith, v.at b q);
}

pub Reach-IsLive : {h : Hub} → Reach h → IsLive h
unfolding lookup
Reach-IsLive start = record { at = λ b q f. cc }
Reach-IsLive (next r s) = Step-IsLive s (Reach-IsLive r)

-- While a worker is registered, another connection for its account is neither registered nor able
-- to take the registration away. Once the worker is unregistered, the other can be registered.
pub register_exclusive :
    (p q : ℕ) (w x : Worker) (h : Hub)
    → (register p w h).0 ≡ true
    → x.account_id ≡ w.account_id
    → q ≢ p
    → let h' = (register p w h).1 in
      (register q x h' ≡ (false, h'))
      × (unregister q x h' ≡ (false, h'))
      × ((register q x (unregister p w h').1).0 ≡ true)
unfolding register unregister
register_exclusive p q w x h won same ne =
    let put' = lookup-put w.account_id w.account_id p h.registered in
    let gone = lookup-remove w.account_id w.account_id (put w.account_id p h.registered) in
    let self = eq_iff w.account_id w.account_id in
    (ground (arith, put', self), ground (arith, put', self), ground (arith, put', gone, self))
