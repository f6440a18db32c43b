-- ===== src/Signal/Receive/Parsed.antt =====
-- What parseReceive of internal/signalworker/service.go makes of a notification.
use say.Base.{
  ℤ, is_pos, String, cat, true, false, ◌||◌, ◌≡◌, ◌≢◌, ◌↔◌, inl, inr, refl, sym, subst, ap, ◌∙◌,
  Option, none, some, [], ◌∷◌, ◌==◌, arith, eq_iff, Bool-cases, Option-cases,
}
use say.Protocol.JsonTree.{Json}
use say.Signal.Receive.{
  first_non_empty, Received, Draft, SignalEnvelope, DataMessage, SentMessage, read_notification,
  draft, from_data, from_sent, later_of, group_of, peer, received, parse_receive, message_in,
}
use say.Signal.Receive.Reports.{
  InConversation, Incoming, Outgoing, Reports, nonempty, not-nonempty, not-nonzero,
  first_non_empty-FirstOf, FirstOf-first_non_empty, later_of-Dated, Dated-later_of,
}

module _ (decimal : ℤ → String) where
  -- What comes of a draft, whose group is that of the message.
  record Placed (d : Draft) (g : Option String) (m : Received) : Type 0 where
    conversation_id : String
    has_body : d.body ≢ ""
    dated : is_pos 0 d.timestamp ≡ false
    placed : InConversation g d.direct_peer conversation_id
    made : message_in decimal conversation_id d ≡ m

  direct-InConversation :
      (g : Option String) (name : String)
      → (group_of g == "") ≡ true
      → name ≢ ""
      → InConversation g name (cat "user:" name)
  direct-InConversation none name e named = (named, refl)
  direct-InConversation (some id) name e named = inr ((eq_iff id "").0 e, (named, refl))

  group-InConversation :
      (g : Option String) (name : String)
      → (group_of g == "") ≡ false
      → InConversation g name (cat "group:" (group_of g))
  group-InConversation none name e = absurd (ground arith)
  group-InConversation (some id) name e = inl (nonempty id e, refl)

  received-Placed :
      (d : Draft) (g : Option String) (m : Received)
      → d.group_id ≡ group_of g
      → received decimal d ≡ some m
      → Placed d g m
  unfolding received
  received-Placed d g m of_group h = elim (Bool-cases (d.body == "" || is_pos 0 d.timestamp)) [
    | inl bad ↦ absurd (ground arith)
    | inr fine ↦
        let body = nonempty d.body (ground (arith, fine)) in
        let dated : is_pos 0 d.timestamp ≡ false = ground (arith, fine) in
        elim (Bool-cases (d.group_id == "")) [
          | inl direct ↦ elim (Bool-cases (d.direct_peer == "")) [
            | inl bad ↦ absurd (ground arith)
            | inr named ↦ record {
              conversation_id = cat "user:" d.direct_peer;
              has_body = body;
              dated = dated;
              placed =
                  direct-InConversation g d.direct_peer (ground (arith, direct, of_group))
                    (nonempty d.direct_peer named);
              made = ground arith;
            }
          ]
          | inr grouped ↦ record {
            conversation_id = cat "group:" (group_of g);
            has_body = body;
            dated = dated;
            placed = group-InConversation g d.direct_peer (ground (arith, grouped, of_group));
            made = ground arith;
          }
        ]
  ]

  direct-received :
      (d : Draft)
      → d.body ≢ ""
      → is_pos 0 d.timestamp ≡ false
      → d.group_id ≡ ""
      → d.direct_peer ≢ ""
      → received decimal d ≡ some (message_in decimal (cat "user:" d.direct_peer) d)
  unfolding received
  direct-received d body dated none' named = ground (
    arith,
    not-nonempty d.body body,
    dated,
    (eq_iff d.group_id "").1 none',
    not-nonempty d.direct_peer named,
  )

  group-received :
      (d : Draft)
      → d.body ≢ ""
      → is_pos 0 d.timestamp ≡ false
      → d.group_id ≢ ""
      → received decimal d ≡ some (message_in decimal (cat "group:" d.group_id) d)
  unfolding received
  group-received d body dated grouped =
      ground (arith, not-nonempty d.body body, dated, not-nonempty d.group_id grouped)

  Placed-received :
      (d : Draft) (g : Option String) (conversation_id : String)
      → d.group_id ≡ group_of g
      → d.body ≢ ""
      → is_pos 0 d.timestamp ≡ false
      → InConversation g d.direct_peer conversation_id
      → received decimal d ≡ some (message_in decimal conversation_id d)
  Placed-received d none c of_group body dated (named, is) =
      rw is (direct-received d body dated of_group named)
  Placed-received d (some id) c of_group body dated (inl (grouped, is)) =
      rw (is, ← of_group) (group-received d body dated (λ e. grouped (sym of_group ∙ e)))
  Placed-received d (some id) c of_group body dated (inr (empty, (named, is))) =
      rw is (direct-received d body dated (of_group ∙ empty) named)

  from_data-Incoming :
      (e : SignalEnvelope) (d : DataMessage) (m : Received)
      → e.data_message ≡ some d
      → Placed (from_data e d) d.group_info m
      → Incoming decimal e m
  from_data-Incoming e d m carried x = record {
    content = d;
    timestamp = later_of e.timestamp d.timestamp;
    peer = peer e;
    name = first_non_empty (e.source_name ∷ peer e ∷ []);
    conversation_id = x.conversation_id;
    carried = carried;
    has_body = x.has_body;
    dated = later_of-Dated e.timestamp d.timestamp x.dated;
    is_peer = first_non_empty-FirstOf (e.source_number ∷ e.source ∷ e.source_uuid ∷ []);
    called = first_non_empty-FirstOf (e.source_name ∷ peer e ∷ []);
    placed = x.placed;
    whole = sym x.made;
  }

  from_sent-Outgoing :
      (e : SignalEnvelope) (d : SentMessage) (m : Received)
      → e.data_message ≡ none
      → e.sync_message ≡ some (some d)
      → Placed (from_sent e d) d.group_info m
      → Outgoing decimal e m
  from_sent-Outgoing e d m not_data carried x = record {
    content = d;
    timestamp = later_of e.timestamp d.timestamp;
    conversation_id = x.conversation_id;
    not_data = not_data;
    carried = carried;
    has_body = x.has_body;
    dated = later_of-Dated e.timestamp d.timestamp x.dated;
    placed = x.placed;
    whole = sym x.made;
  }

  draft-Reports :
      (e : SignalEnvelope) (d : Draft) (m : Received)
      → draft e ≡ some d
      → received decimal d ≡ some m
      → Reports decimal e m
  unfolding draft
  draft-Reports e d m is h = by_data e.data_message refl
    where
      by_data : (o : Option DataMessage) → e.data_message ≡ o → Reports decimal e m
      by_data (some x) at =
          let same : from_data e x ≡ d = ground (arith, at) in
          inl (
            from_data-Incoming e x m at
              (received-Placed (from_data e x) x.group_info m refl (rw same h)))
      by_data none at = by_sync e.sync_message refl
        where
          by_sync : (o : Option (Option SentMessage)) → e.sync_message ≡ o → Reports decimal e m
          by_sync none at' = absurd (ground arith)
          by_sync (some none) at' = absurd (ground arith)
          by_sync (some (some x)) at' =
              let same : from_sent e x ≡ d = ground (arith, at, at') in
              inr (
                from_sent-Outgoing e x m at at'
                  (received-Placed (from_sent e x) x.group_info m refl (rw same h)))

  Incoming-received :
      (e : SignalEnvelope) (m : Received) (r : Incoming decimal e m)
      → received decimal (from_data e r.content) ≡ some m
  Incoming-received e m r =
      let d = r.content in
      let at = Dated-later_of e.timestamp d.timestamp r.timestamp r.dated in
      let is_peer =
        FirstOf-first_non_empty (e.source_number ∷ e.source ∷ e.source_uuid ∷ []) r.peer
          r.is_peer in
      let called = FirstOf-first_non_empty (e.source_name ∷ r.peer ∷ []) r.name r.called in
      let named : r.name ≡ first_non_empty (e.source_name ∷ peer e ∷ []) =
        called ∙ ap (λ p. first_non_empty (e.source_name ∷ p ∷ [])) is_peer in
      let dated = not-nonzero (later_of e.timestamp d.timestamp) (λ z. r.dated.0 (at ∙ z)) in
      let placed = subst (λ p. InConversation d.group_info p r.conversation_id) is_peer r.placed in
      Placed-received (from_data e d) d.group_info r.conversation_id refl r.has_body dated placed
      ∙ ap some (rw (r.whole, at, is_peer, named) refl)

  Outgoing-received :
      (e : SignalEnvelope) (m : Received) (r : Outgoing decimal e m)
      → received decimal (from_sent e r.content) ≡ some m
  Outgoing-received e m r =
      let d = r.content in
      let at = Dated-later_of e.timestamp d.timestamp r.timestamp r.dated in
      let dated = not-nonzero (later_of e.timestamp d.timestamp) (λ z. r.dated.0 (at ∙ z)) in
      Placed-received (from_sent e d) d.group_info r.conversation_id refl r.has_body dated r.placed
      ∙ ap some (rw (r.whole, at) refl)

  Reports-parsed :
      (raw : Option Json) (e : SignalEnvelope) (m : Received)
      → read_notification raw ≡ some e
      → Reports decimal e m
      → parse_receive decimal raw ≡ some m
  unfolding parse_receive draft
  Reports-parsed raw e m is (inl r) = ground (arith, is, r.carried, Incoming-received e m r)
  Reports-parsed raw e m is (inr r) =
      ground (arith, is, r.not_data, r.carried, Outgoing-received e m r)

  pub parsed-Reports :
      (raw : Option Json) (m : Received)
      → parse_receive decimal raw ≡ some m
      → (e : SignalEnvelope) × (read_notification raw ≡ some e) × Reports decimal e m
  unfolding parse_receive
  parsed-Reports raw m h = elim (Option-cases (read_notification raw)) [
    | inl bad ↦ absurd (ground arith)
    | inr (e, is) ↦ elim (Option-cases (draft e)) [
      | inl bad ↦ absurd (ground arith)
      | inr (d, is') ↦ (e, is, draft-Reports e d m is' (ground arith))
    ]
  ]

  -- parseReceive gives a message just when the notification can be read and reports that message. A
  -- received message is from the first of the source's number, name and uuid that is not empty, and
  -- has its name or else that peer as its author's name; a message that the user sent from another
  -- device is the user's own. It has a body, and a timestamp other than zero, the inner one if that
  -- is not zero; its provider id and its time are made from that. Its conversation is that of its
  -- group, or with the peer or the destination, which is not empty.
  pub parse_receive-Reports :
      (raw : Option Json) (m : Received)
      → (parse_receive decimal raw ≡ some m)
        ↔ ((e : SignalEnvelope) × (read_notification raw ≡ some e) × Reports decimal e m)
  parse_receive-Reports raw m = (parsed-Reports raw m, (λ (e, is, r). Reports-parsed raw e m is r))
