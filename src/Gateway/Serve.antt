-- ===== src/Gateway/Serve.antt =====
-- ServeWorker of internal/gateway/hub.go as a whole, from the handshake to the deferred
-- unregister, for one connection whose critical sections nothing interleaves with.
use say.Base.{
  ℕ, String, Bool, true, false, not, ◌≡◌, inl, inr, refl, Option, none, some, List, [], ◌∷◌, ◌==◌,
  eq_iff, eq_refl, arith, if◌then◌else◌, lookup, put, lookup-put, lookup-remove, Option-cases,
}
use say.Protocol.{Envelope}
use say.Gateway.Account.{Account}
use say.Gateway.Hub.{Hub, Worker, accept, register, unregister}
use say.Gateway.Session.{
  Backend, Greeting, accepted, rejected, Reason, text, handshake, serve_frame,
}

-- How the connection ended, what the worker was sent after its ready message, and the state after.
pub data Ending : Type 0 where
  turned_away : String → Reason → Ending
  served : Ending

pub record Visit (W : Type 0) : Type 0 where
  pub ending : Ending
  pub sent : List Envelope
  pub hub : Hub
  pub world : W

abbrev pub new_worker : Account → Worker
new_worker a = record { account_id = a.id; generation = a.generation; pending = []; closed = false }

abbrev push : Option Envelope → List Envelope → List Envelope
push none l = l
push (some e) l = e ∷ l

module _ {W : Type 0} (b : Backend W) where
  -- The loop, over the frames that can be read, each with whether an answer to it can be written.
  unfoldable pub serve_frames : Account → List (Envelope × Bool) → W → List Envelope × W
  serve_frames account [] w = ([], w)
  serve_frames account ((e, written) ∷ rest) w =
      let turn = serve_frame b account written e w in
      let later = serve_frames account rest turn.world in
      if turn.stays then (push turn.sent later.0, later.1) else (push turn.sent [], turn.world)

  abbrev offline : Account → Bool → W → W
  offline account was w =
      if was then (b.set_status account.id account.generation "offline" w).1 else w

  -- The deferred unregister, with what the session sent.
  unfoldable pub close_session : ℕ → Account → List Envelope → Hub → W → Visit W
  close_session p account sent h w =
      let u = unregister p (new_worker account) h in
      record { ending = served; sent = sent; hub = u.1; world = offline account u.0 w }

  unfoldable pub run_session : ℕ → Account → Bool → List (Envelope × Bool) → Hub → W → Visit W
  unfolding close_session serve_frames
  run_session p account ready_written frames h w =
      let touched = b.touch account.id account.generation w in
      let loop = serve_frames account frames touched.1 in
      if not ready_written
      then close_session p account [] h w
      else if not touched.0
      then close_session p account [] h touched.1
      else close_session p account loop.0 h loop.1

  abbrev admit : ℕ → Bool → List (Envelope × Bool) → Hub → Greeting × W → Visit W
  admit p ready_written frames h (rejected code reason, w) = record {
    ending = turned_away code reason;
    sent = [];
    hub = h;
    world = w;
  }
  admit p ready_written frames h (accepted hello auth, w) =
      let entry =
        register p (new_worker auth.account) (accept p auth.account.id auth.account.generation h) in
      if not entry.0
      then record {
        ending = turned_away "already_connected" (text "account already has a live worker");
        sent = [];
        hub = entry.1;
        world = w;
      }
      else run_session p auth.account ready_written frames entry.1 w

  unfoldable pub serve_worker :
      ℕ → Option Envelope → Bool → List (Envelope × Bool) → Hub → W → Visit W
  unfolding run_session
  serve_worker p first ready_written frames h w =
      admit p ready_written frames h (handshake b first w)

  run_session-registered :
      (p : ℕ) (account : Account) (ready_written : Bool) (frames : List (Envelope × Bool)) (h : Hub)
      (w : W) (a : String)
      → lookup account.id h.registered ≡ some p
      → lookup a (run_session p account ready_written frames h w).hub.registered
        ≡ (if account.id == a then none else lookup a h.registered)
  unfolding run_session unregister
  run_session-registered p account ready_written frames h w a is =
      ground (arith, lookup-remove account.id a h.registered)

  abbrev entry : ℕ → Account → Hub → Bool × Hub
  entry p account h = register p (new_worker account) (accept p account.id account.generation h)

  entry_taken :
      (p q : ℕ) (account : Account) (h : Hub)
      → lookup account.id h.registered ≡ some q
      → entry p account h ≡ (false, accept p account.id account.generation h)
  unfolding register accept
  entry_taken p q account h e = ground arith

  entry_free :
      (p : ℕ) (account : Account) (h : Hub)
      → lookup account.id h.registered ≡ none
      → ((entry p account h).0 ≡ true)
        × ((entry p account h).1.registered ≡ put account.id p h.registered)
  unfolding register accept
  entry_free p account h e = (ground arith, ground arith)

  admit-registered :
      (p : ℕ) (ready_written : Bool) (frames : List (Envelope × Bool)) (h : Hub) (r : Greeting × W)
      (a : String)
      → lookup a (admit p ready_written frames h r).hub.registered ≡ lookup a h.registered
  unfolding accept
  admit-registered p ready_written frames h (rejected code reason, v) a = refl
  admit-registered p ready_written frames h (accepted hello auth, v) a =
      let x = auth.account in
      elim (Option-cases (lookup x.id h.registered)) [
        | inl free ↦
            let f = entry_free p x h free in
            ground (
              arith,
              f,
              free,
              lookup-put x.id a p h.registered,
              lookup-put x.id x.id p h.registered,
              eq_iff x.id a,
              eq_refl x.id,
              run_session-registered p x ready_written frames (entry p x h).1 v a,
            )
        | inr (q, taken) ↦ ground (arith, entry_taken p q x h taken)
      ]

  -- However a connection goes, whether its worker is turned away, fails or is served for any frames,
  -- when it is over the hub has the registrations that it had before.
  pub serve_worker-registered :
      (p : ℕ) (first : Option Envelope) (ready_written : Bool) (frames : List (Envelope × Bool))
      (h : Hub) (w : W) (a : String)
      → lookup a (serve_worker p first ready_written frames h w).hub.registered
        ≡ lookup a h.registered
  unfolding serve_worker
  serve_worker-registered p first ready_written frames h w a =
      admit-registered p ready_written frames h (handshake b first w) a
