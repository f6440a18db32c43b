-- ===== src/Realtime/Delivery.antt =====
-- What a connection is sent of the events of its user.
use say.Base.{
  ℕ, String, true, false, ◌≡◌, ◌⊎◌, inl, inr, refl, ◌∙◌, ap, Option, none, some, List, [], ◌∷◌,
  ◌++◌, eqb, ltb, arith, if◌then◌else◌, Bool-cases, length,
}
use say.Protocol.{Envelope, new_envelope}
use say.Protocol.JsonTree.{Json}
use say.Realtime.{
  Hub, Subscriber, has, of_user, offer, publish, popped, to_write, take_event, capacity,
}

-- A publication, or a connection that takes an event from its queue.
pub data Act : Type 0 where
  publishes : String → String → Json → Act
  takes : ℕ → Act

abbrev push : Option Envelope → List Envelope → List Envelope
push none es = es
push (some e) es = e ∷ es

-- What the connection q writes in a run.
unfoldable pub run : ℕ → List Act → Hub → List Envelope × Hub
run q [] h = ([], h)
run q (publishes user_id event_type payload ∷ acts) h =
    run q acts (publish user_id event_type payload h)
run q (takes p ∷ acts) h =
    let t = take_event p h in
    let rest = run q acts t.1 in if eqb p q then (push t.0 rest.0, rest.1) else rest

-- The events of a run for the connection q, in their order.
abbrev pub meant_for : ℕ → Hub → List Act → List Envelope
meant_for q h [] = []
meant_for q h (publishes user_id event_type payload ∷ acts) =
    let rest = meant_for q h acts in
    if has q (of_user user_id h) then new_envelope event_type payload ∷ rest else rest
meant_for q h (takes p ∷ acts) = meant_for q h acts

append-nil : (xs : List Envelope) → xs ≡ xs ++ []
append-nil [] = refl
append-nil (x ∷ xs) = ap (λ l. x ∷ l) (append-nil xs)

append-snoc :
    (xs : List Envelope) (e : Envelope) (ys : List Envelope) → (xs ++ e ∷ []) ++ ys ≡ xs ++ e ∷ ys
append-snoc [] e ys = refl
append-snoc (x ∷ xs) e ys = ap (λ l. x ∷ l) (append-snoc xs e ys)

meant_for-subscribers :
    (q : ℕ) (h k : Hub) (acts : List Act)
    → h.subscribers ≡ k.subscribers
    → meant_for q h acts ≡ meant_for q k acts
meant_for-subscribers q h k [] same = refl
meant_for-subscribers q h k (publishes u t p ∷ acts) same =
    let rest = meant_for-subscribers q h k acts same in rw (same, rest)
meant_for-subscribers q h k (takes p ∷ acts) same = meant_for-subscribers q h k acts same

publish-offered :
    (q : ℕ) (user_id event_type : String) (payload : Json) (h : Hub) (s : Subscriber)
    → h.objects q ≡ some s
    → (publish user_id event_type payload h).objects q ≡ (
        if has q (of_user user_id h)
        then some (offer (new_envelope event_type payload) s)
        else some s)
unfolding publish
publish-offered q user_id event_type payload h s is = ground (arith, is)

take_event-other :
    (p q : ℕ) (h : Hub) → eqb p q ≡ false → (take_event p h).1.objects q ≡ h.objects q
unfolding take_event
take_event-other p q h other = ground (arith, other)

take_event-own :
    (p q : ℕ) (h : Hub) (s : Subscriber)
    → eqb p q ≡ true
    → h.objects q ≡ some s
    → ((take_event p h).0 ≡ to_write (popped s))
      × ((take_event p h).1.objects q ≡ some (popped s).1)
unfolding take_event
take_event-own p q h s own is =
    let same : p ≡ q = ground (arith, own) in rw same (ground (arith, is), ground (arith, is))

take_event-subscribers : (p : ℕ) (h : Hub) → (take_event p h).1.subscribers ≡ h.subscribers
unfolding take_event
take_event-subscribers p h = ground arith

-- A subscriber that is closed stays closed.
run-done :
    (q : ℕ) (acts : List Act) (h : Hub) (s : Subscriber)
    → h.objects q ≡ some s
    → s.done ≡ true
    → (s' : Subscriber) × ((run q acts h).1.objects q ≡ some s') × (s'.done ≡ true)
unfolding run offer
run-done q [] h s is d = (s, is, d)
run-done q (publishes u t p ∷ acts) h s is d =
    let e = publish-offered q u t p h s is in
    elim (Bool-cases (has q (of_user u h))) [
      | inl mine ↦
          run-done q acts _ (offer (new_envelope t p) s) (ground (arith, e, mine))
            (ground (arith, d))
      | inr other ↦ run-done q acts _ s (ground (arith, e, other)) d
    ]
run-done q (takes p ∷ acts) h s is d = elim (Bool-cases (eqb p q)) [
  | inl own ↦
      rw (own, run)
        (run-done q acts (take_event p h).1 (popped s).1 (take_event-own p q h s own is).1
          (ground (arith, d)))
  | inr other ↦
      rw (other, run) (run-done q acts (take_event p h).1 s (take_event-other p q h other ∙ is) d)
]

-- What became of the connection q in a run: it is closed, or has written or still queues all that
-- was meant for it, after what it had queued before, in order.
abbrev pub Served : ℕ → List Act → Hub → List Envelope → Type 0
Served q acts h queued =
    (s' : Subscriber) × ((run q acts h).1.objects q ≡ some s')
    × ((s'.done ≡ true) ⊎ ((run q acts h).0 ++ s'.events ≡ queued ++ meant_for q h acts))

-- The events of a user reach each active connection of the user without a gap: in any run of
-- publications and of connections that take events, what the connection writes and then still
-- queues is what it queued before and all events published for its user since, each once and in
-- order. Else it is closed, as it is when its queue is full.
pub publish-Served :
    (q : ℕ) (acts : List Act) (h : Hub) (s : Subscriber)
    → h.objects q ≡ some s
    → s.active ≡ true
    → Served q acts h s.events
unfolding run offer
publish-Served q [] h s is live = (s, is, inr (append-nil s.events))
publish-Served q (publishes u t p ∷ acts) h s is live =
    let e = publish-offered q u t p h s is in
    let m = new_envelope t p in
    let later = meant_for-subscribers q (publish u t p h) h acts (unfold publish in refl) in
    elim (Bool-cases (has q (of_user u h))) [
      | inr other ↦
          let (s', is', r) =
            publish-Served q acts (publish u t p h) s (ground (arith, e, other)) live in
          rw other (s', is', rw later at r)
      | inl mine ↦ elim (Bool-cases (ltb (length s.events) capacity)) [
        | inr full ↦
            let (s', is', d) =
              run-done q acts (publish u t p h) (record s { done = true })
                (ground (arith, e, mine, live, full)) refl in
            (s', is', inl d)
        | inl room ↦
            let longer : Subscriber = record s { events = s.events ++ m ∷ [] } in
            let (s', is', r) =
              publish-Served q acts (publish u t p h) longer (ground (arith, e, mine, live, room))
                live in
            rw mine (s', is', rw (later, append-snoc s.events m (meant_for q h acts)) at r)
      ]
    ]
publish-Served q (takes p ∷ acts) h s is live = elim (Bool-cases (eqb p q)) [
  | inr other ↦
      let (s', is', r) =
        publish-Served q acts (take_event p h).1 s (take_event-other p q h other ∙ is) live in
      let later = meant_for-subscribers q (take_event p h).1 h acts (take_event-subscribers p h) in
      rw (other, run) (s', is', rw later at r)
  | inl own ↦ took (λ k s₁ i l. publish-Served q acts k s₁ i l) s.events refl own
]
  where
    took :
        ((k : Hub) (s₁ : Subscriber)
          → k.objects q ≡ some s₁
          → s₁.active ≡ true
          → Served q acts k s₁.events)
        → (es : List Envelope) → s.events ≡ es
        → eqb p q ≡ true
        → Served q (takes p ∷ acts) h s.events
    took ih [] empty own =
        let o = take_event-own p q h s own is in
        let later =
          meant_for-subscribers q (take_event p h).1 h acts (take_event-subscribers p h) in
        let (s', is', r) = ih (take_event p h).1 s (ground (arith, o.1, empty)) live in
        let nothing : (take_event p h).0 ≡ none = ground (arith, o.0, empty) in
        rw (own, nothing, run) (s', is', rw later at r)
    took ih (x ∷ es) queued own =
        let o = take_event-own p q h s own is in
        let later =
          meant_for-subscribers q (take_event p h).1 h acts (take_event-subscribers p h) in
        let rest : Subscriber = record s { events = es } in
        let (s', is', r) = ih (take_event p h).1 rest (ground (arith, o.1, queued)) live in
        let first : (take_event p h).0 ≡ some x = ground (arith, o.0, queued, live) in
        rw (own, first, queued, run) (s', is', ground (arith, rw later at r))
