-- ===== src/Gateway/Hub/Routing.antt =====
-- Where the answers of workers end up.
use say.Base.{
  ℕ, ◌⊎◌, ◌∙◌, ◌<◌, String, Bool, true, false, ◌≡◌, refl, Option, none, some, List, eq_iff, arith,
  is_some, lookup, lookup-put, lookup-remove, Option-cases, Bool-cases, inl, inr, random_value,
}
use say.Protocol.{Envelope}
use say.Protocol.JsonTree.{Json}
use say.Gateway.Hub.{
  Hub, Worker, Call, Request, new_hub, accept, register, unregister, start_on, start_request,
  enter_pending, write_command, deliver, finish_request, Ready, answered, by_answer, Wake,
}
use say.Gateway.Hub.Runs.{
  Step, accepts, registers, unregisters, starts, enters, writes, delivers, finishes, Reach, start,
  next,
}

pub record IsRouted (h : Hub) : Type 0 where
  pub waiting :
      (p c : ℕ) (w : Worker) (id : String) (call : Call)
      → h.workers p ≡ some w
      → lookup id w.pending ≡ some c
      → h.calls c ≡ some call
      → call.command_id ≡ id
  pub below :
      (p c : ℕ) (w : Worker) (id : String)
      → h.workers p ≡ some w
      → lookup id w.pending ≡ some c
      → c < h.next_call
  pub allocated : (c : ℕ) (call : Call) → h.calls c ≡ some call → c < h.next_call
  pub buffered :
      (c : ℕ) (call : Call) (e : Envelope)
      → h.calls c ≡ some call
      → call.buffer ≡ some e
      → e.id ≡ call.command_id

new_hub-IsRouted : IsRouted new_hub
new_hub-IsRouted = record {
  waiting = λ p c w id call e. cc;
  below = λ p c w id e. cc;
  allocated = λ c call e. cc;
  buffered = λ c call e q. cc;
}

accept-IsRouted :
    (p : ℕ) (account_id : String) (generation : ℕ) (h : Hub)
    → IsRouted h
    → IsRouted (accept p account_id generation h)
unfolding accept lookup
accept-IsRouted p account_id generation h v = record {
  waiting = λ q c w id call e f g. ground (arith, v.waiting q c w id call);
  below = λ q c w id e f. ground (arith, v.below q c w id);
  allocated = v.allocated;
  buffered = v.buffered;
}

register-IsRouted : (p : ℕ) (w : Worker) (h : Hub) → IsRouted h → IsRouted (register p w h).1
unfolding register
register-IsRouted p w h v = record {
  waiting = λ q c x id call e f g. ground (arith, v.waiting q c x id call);
  below = λ q c x id e f. ground (arith, v.below q c x id);
  allocated = λ c call e. ground (arith, v.allocated c call);
  buffered = λ c call e f g. ground (arith, v.buffered c call e);
}

unregister-IsRouted :
    (p : ℕ) (w : Worker) (h : Hub)
    → h.workers p ≡ some w
    → IsRouted h
    → IsRouted (unregister p w h).1
unfolding unregister
unregister-IsRouted p w h is v = record {
  waiting = λ q c x id call e f g. ground (arith, v.waiting q c x id call, v.waiting p c w id call);
  below = λ q c x id e f. ground (arith, v.below q c x id, v.below p c w id);
  allocated = λ c call e. ground (arith, v.allocated c call);
  buffered = λ c call e f g. ground (arith, v.buffered c call e);
}

start_on-IsRouted :
    (account_id : String) (p : ℕ) (e : Envelope) (h : Hub)
    → IsRouted h
    → IsRouted (start_on account_id p e h).1
unfolding start_on
start_on-IsRouted account_id p e h v = record {
  waiting = λ q c x j call f g k. ground (arith, v.waiting q c x j call, v.below q c x j);
  below = λ q c x j f g. ground (arith, v.below q c x j);
  allocated = λ c call f. ground (arith, v.allocated c call);
  buffered = λ c call m f g. ground (arith, v.buffered c call m);
}

start_request-IsRouted :
    (account_id kind : String) (payload : Json) (bytes : Option (List ℕ)) (h : Hub)
    → IsRouted h
    → IsRouted (start_request account_id kind payload bytes h).1
unfolding start_request
start_request-IsRouted account_id kind payload bytes h v =
    elim (Option-cases (lookup account_id h.registered)) [
      | inl e ↦ rw (e, start_request) v
      | inr (p, e) ↦ elim (Option-cases (h.workers p)) [
        | inl e' ↦ rw (e, e', start_request) v
        | inr (w, e') ↦ elim (Option-cases (random_value "cmd_" bytes)) [
          | inl e'' ↦ rw (e, e', e'', start_request) v
          | inr (id, e'') ↦ rw (e, e', e'', start_request) (start_on-IsRouted account_id p _ h v)
        ]
      ]
    ]

enter_pending-IsRouted :
    (c : ℕ) (call : Call) (r : Request) (h : Hub)
    → h.calls c ≡ some call
    → IsRouted h
    → IsRouted (enter_pending c call r h)
unfolding enter_pending
enter_pending-IsRouted c call r h is v = elim (Option-cases (h.workers call.worker)) [
  | inl a ↦
      rw (a, enter_pending)
        (record {
          waiting = λ q k x j y f g l. ground (arith, v.waiting q k x j y);
          below = λ q k x j f g. ground (arith, v.below q k x j);
          allocated = v.allocated;
          buffered = v.buffered;
        })
  | inr (w, a) ↦
      rw (a, enter_pending)
        (record {
          waiting = λ q k x j y f g l. ground (
            arith,
            v.waiting q k x j y,
            v.waiting call.worker k w j y,
            lookup-put call.command_id j c w.pending,
            eq_iff call.command_id j,
          );
          below = λ q k x j f g. ground (
            arith,
            v.below q k x j,
            v.below call.worker k w j,
            v.allocated c call,
            lookup-put call.command_id j c w.pending,
          );
          allocated = v.allocated;
          buffered = v.buffered;
        })
]

deliver-IsRouted : (p : ℕ) (e : Envelope) (h : Hub) → IsRouted h → IsRouted (deliver p e h)
unfolding deliver
deliver-IsRouted p e h v = elim (Option-cases (h.workers p)) [
  | inl a ↦ rw (a, deliver) v
  | inr (w, a) ↦ elim (Option-cases (lookup e.id w.pending)) [
    | inl b ↦ rw (a, b, deliver) v
    | inr (c, b) ↦ elim (Option-cases (h.calls c)) [
      | inl d ↦ rw (a, b, d, deliver) v
      | inr (call, d) ↦ elim (Bool-cases (is_some call.buffer)) [
        | inl full ↦ rw (a, b, d, full, deliver) v
        | inr free ↦
            rw (a, b, d, free, deliver)
              (record {
                waiting =
                    λ q k x j y f g l. ground (arith, v.waiting q k x j y, v.waiting q k x j call);
                below = v.below;
                allocated = λ k y f. ground (arith, v.allocated k y, v.allocated k call);
                buffered =
                    λ k y m f g. ground (arith, v.buffered k y m, v.waiting p c w e.id call a b d);
              })
      ]
    ]
  ]
]

finish_request-IsRouted :
    (c : ℕ) (call : Call) (h : Hub) → IsRouted h → IsRouted (finish_request c call h)
unfolding finish_request
finish_request-IsRouted c call h v = elim (Option-cases (h.workers call.worker)) [
  | inl a ↦
      rw (a, finish_request)
        (record {
          waiting = λ q k x j y f g l. ground (arith, v.waiting q k x j y);
          below = λ q k x j f g. ground (arith, v.below q k x j);
          allocated = λ k y f. ground (arith, v.allocated k y);
          buffered = λ k y m f g. ground (arith, v.buffered k y m);
        })
  | inr (w, a) ↦
      rw (a, finish_request)
        (record {
          waiting = λ q k x j y f g l. ground (
            arith,
            v.waiting q k x j y,
            v.waiting q k w j y,
            lookup-remove call.command_id j w.pending,
          );
          below = λ q k x j f g.
              ground (
                arith,
                v.below q k x j,
                v.below q k w j,
                lookup-remove call.command_id j w.pending,
              );
          allocated = λ k y f. ground (arith, v.allocated k y);
          buffered = λ k y m f g. ground (arith, v.buffered k y m);
        })
]

write_command-IsRouted :
    (c : ℕ) (call : Call) (r : Request) (written : Bool) (h : Hub)
    → IsRouted h
    → IsRouted (write_command c call r written h).1
unfolding write_command
write_command-IsRouted c call r true h v = record {
  waiting = v.waiting;
  below = v.below;
  allocated = v.allocated;
  buffered = v.buffered;
}
write_command-IsRouted c call r false h v = finish_request-IsRouted c call h v

Step-IsRouted : {h k : Hub} → Step h k → IsRouted h → IsRouted k
Step-IsRouted (accepts p a g e) v = accept-IsRouted p a g _ v
Step-IsRouted (registers p w e o) v = register-IsRouted p w _ v
Step-IsRouted (unregisters p w e) v = unregister-IsRouted p w _ e v
Step-IsRouted (starts a k d b) v = start_request-IsRouted a k d b _ v
Step-IsRouted (enters c call r e f g) v = enter_pending-IsRouted c call r _ e v
Step-IsRouted (writes c call r b e f g) v = write_command-IsRouted c call r b _ v
Step-IsRouted (delivers p e) v = deliver-IsRouted p e _ v
Step-IsRouted (finishes c call r wake e f g ready) v = finish_request-IsRouted c call _ v

Reach-IsRouted : {h : Hub} → Reach h → IsRouted h
Reach-IsRouted start = new_hub-IsRouted
Reach-IsRouted (next r s) = Step-IsRouted s (Reach-IsRouted r)

answered-id :
    {h : Hub} {call : Call} {wake : Wake} (e : Envelope)
    → wake ≡ answered e
    → Ready h call wake
    → call.buffer ≡ some e
answered-id e same (Ready.by_context) = absurd (ground arith)
answered-id e same (Ready.by_close w a b) = absurd (ground arith)
answered-id e same (by_answer f a) = ground arith

-- In every run, however the sessions, the readers and the requests interleave, the envelope that a
-- request takes from its channel carries the id of the request's own command.
pub answer_is_own :
    (h : Hub) (c : ℕ) (call : Call) (e : Envelope)
    → Reach h
    → h.calls c ≡ some call
    → Ready h call (answered e)
    → e.id ≡ call.command_id
answer_is_own h c call e r known ready =
    (Reach-IsRouted r).buffered c call e known (answered-id e refl ready)

start_request-calls :
    (account_id kind : String) (payload : Json) (bytes : Option (List ℕ)) (h : Hub) (c : ℕ)
    → c < h.next_call
    → (start_request account_id kind payload bytes h).1.calls c ≡ h.calls c
unfolding start_request start_on
start_request-calls account_id kind payload bytes h c lt = ground arith

-- Of the envelopes that answer a command the first is kept: in every run, one step later the
-- channel of a call that holds an envelope still holds that one, or the call is over.
pub first_answer_kept :
    (h k : Hub) (c : ℕ) (call : Call) (e : Envelope)
    → Reach h
    → Step h k
    → h.calls c ≡ some call
    → call.buffer ≡ some e
    → (k.calls c ≡ some call) ⊎ (k.calls c ≡ none)
unfolding accept register unregister enter_pending write_command deliver finish_request
first_answer_kept h k c call e r (accepts p a g f) is held = inl is
first_answer_kept h k c call e r (registers p w f o) is held = ground arith
first_answer_kept h k c call e r (unregisters p w f) is held = ground arith
first_answer_kept h k c call e r (starts a d b y) is held =
    inl (start_request-calls a d b y h c ((Reach-IsRouted r).allocated c call is) ∙ is)
first_answer_kept h k c call e r (enters d x y f g l) is held = inl is
first_answer_kept h k c call e r (writes d x y true f g l) is held = inl is
first_answer_kept h k c call e r (writes d x y false f g l) is held = ground arith
first_answer_kept h k c call e r (delivers p m) is held = ground arith
first_answer_kept h k c call e r (finishes d x y wake f g l ready) is held = ground arith
