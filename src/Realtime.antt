-- ===== src/Realtime.antt =====
-- internal/realtime/hub.go: the events of a user go to the queues of the user's connections. A
-- connection's subscriber is an object under a number; each critical section is one step.
pub mod Delivery
use say.Base.{
  ℕ, String, Bool, true, false, not, ◌&&◌, ◌||◌, Option, none, some, List, [], ◌∷◌, ◌++◌, ◌==◌, eqb,
  ltb, if◌then◌else◌, Map, lookup, put, remove, Heap, write, length,
}
use say.Protocol.{Envelope, new_envelope, protocol_version}
use say.Protocol.JsonTree.{Json, obj, str, field, end}

-- `events` is the content of the channel, the oldest first.
pub record Subscriber : Type 0 where
  pub events : List Envelope
  pub done : Bool
  pub active : Bool

-- The subscribers of each user, and the objects.
pub record Hub : Type 0 where
  pub subscribers : Map (List ℕ)
  pub objects : Heap Subscriber

abbrev pub new_hub : Hub
new_hub = record { subscribers = []; objects = λ p. none }

abbrev pub capacity : ℕ
capacity = 64

abbrev pub new_subscriber : Subscriber
new_subscriber = record { events = []; done = false; active = true }

abbrev pub has : ℕ → List ℕ → Bool
has p [] = false
has p (q ∷ qs) = if eqb q p then true else has p qs

abbrev pub of_user : String → Hub → List ℕ
of_user user_id h = elim (lookup user_id h.subscribers) [ none ↦ [] | some ps ↦ ps ]

-- One round of the loop of Publish: a send that does not wait, or the end of a subscriber whose
-- queue is full.
unfoldable pub offer : Envelope → Subscriber → Subscriber
offer e s =
    if not s.active
    then s
    else if ltb (length s.events) capacity
    then record s { events = s.events ++ e ∷ [] }
    else record s { done = true }

abbrev pub offered : Envelope → Option Subscriber → Option Subscriber
offered e none = none
offered e (some s) = some (offer e s)

-- The subscribers of a user are a set: each is offered the event once.
unfoldable pub publish : String → String → Json → Hub → Hub
unfolding offer
publish user_id event_type payload h = record h {
  objects = λ p.
      if has p (of_user user_id h)
      then offered (new_envelope event_type payload) (h.objects p)
      else h.objects p;
}

abbrev without : ℕ → List ℕ → List ℕ
without p [] = []
without p (q ∷ qs) = let rest = without p qs in if eqb q p then rest else q ∷ rest

-- Serve's new subscriber, under the number p, and add
unfoldable pub add : ℕ → String → Hub → Hub
add p user_id h = record {
  subscribers =
      put user_id (if has p (of_user user_id h) then of_user user_id h else p ∷ of_user user_id h)
        h.subscribers;
  objects = write p (some new_subscriber) h.objects;
}

abbrev closed : Option Subscriber → Option Subscriber
closed none = none
closed (some s) = some (record s { done = true })

abbrev keep : String → List ℕ → Map (List ℕ) → Map (List ℕ)
keep user_id [] m = remove user_id m
keep user_id ps m = put user_id ps m

unfoldable pub remove_subscriber : ℕ → String → Hub → Hub
remove_subscriber p user_id h = record {
  subscribers = keep user_id (without p (of_user user_id h)) h.subscribers;
  objects = write p (closed (h.objects p)) h.objects;
}

-- The case `event := <-sub.events` of Serve: what is taken from the queue, and then written if the
-- subscriber is active.
abbrev pub popped : Subscriber → Option Envelope × Subscriber
popped s = elim s.events [ [] ↦ (none, s) | e ∷ es ↦ (some e, record s { events = es }) ]

abbrev pub to_write : Option Envelope × Subscriber → Option Envelope
to_write (e, s) = if s.active then e else none

abbrev after_pop : ℕ → Hub → Option Subscriber → Option Envelope × Hub
after_pop p h none = (none, h)
after_pop p h (some s) =
    (to_write (popped s), record h { objects = write p (some (popped s).1) h.objects })

unfoldable pub take_event : ℕ → Hub → Option Envelope × Hub
take_event p h = after_pop p h (h.objects p)

abbrev state_of : String → String
state_of kind = if kind == "unsubscribe" then "unsubscribed" else "subscribed"

-- The case `request := <-incoming` of Serve: the acknowledgement, and the subscriber after.
unfoldable pub take_request : Envelope → Subscriber → Option Envelope × Subscriber
take_request request s =
    if not (request.type == "subscribe") && not (request.type == "unsubscribe")
    then (none, s)
    else (
      some (record {
        version = protocol_version;
        id = request.id;
        type = state_of request.type;
        generation = 0;
        status = "ok";
        error = none;
        payload = some (obj (field "state" (str (state_of request.type)) end));
      }),
      record s { active = if request.type == "unsubscribe" then false else true },
    )
