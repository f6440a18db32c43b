-- ===== src/Signal/Conversations/Addressable.antt =====
-- The conversations that the Signal worker reports, in messages and in lists, are those it can send
-- to.
use say.Base.{
  ℤ, String, cat, ◌≡◌, ◌≢◌, ◌⊎◌, inl, inr, refl, subst, ap, ◌∙◌, Option, none, some, List, [], ◌∷◌,
  ◌++◌, ◌==◌, arith, eq_iff, Bool-cases, All, trim_space, has_prefix-cat, trim_prefix-cat,
  has_prefix-other,
}
use say.Protocol.{decoded}
use say.Protocol.JsonTree.{Json}
use say.Protocol.Payloads.{SendCommand, WireConversation}
use say.Signal.{Service, Rpc, answered, rpc_failed, success}
use say.Signal.Receive.{
  Received, SignalEnvelope, DataMessage, SentMessage, read_notification, parse_receive,
}
use say.Signal.Receive.Reports.{IsPeer, InConversation, Reports}
use say.Signal.Receive.Parsed.{parsed-Reports}
use say.Signal.Sending.{Target, recipient, group, target_of, plan_send}
use say.Signal.Conversations.{
  Group, Contact, of_groups, of_contacts, conversations, append, group_conversation,
  contact_conversation, or_else,
}

-- The provider's id of a conversation with a target.
abbrev pub address : Target → String
address (recipient name) = cat "user:" name
address (group id) = cat "group:" id

-- A conversation that the worker can send to, and to whom.
pub record Addressed (conversation_id : String) : Type 0 where
  pub target : Target
  pub has_address : address target ≡ conversation_id
  pub reached : target_of conversation_id ≡ success target

reaches_user : (name : String) → name ≢ "" → target_of (cat "user:" name) ≡ success (recipient name)
unfolding target_of
reaches_user name named =
    ground (arith, has_prefix-cat "user:" name, trim_prefix-cat "user:" name, eq_iff name "")

reaches_group : (id : String) → id ≢ "" → target_of (cat "group:" id) ≡ success (group id)
unfolding target_of
reaches_group id named = ground (
  arith,
  has_prefix-cat "group:" id,
  trim_prefix-cat "group:" id,
  has_prefix-other "group" ":" "user:" id refl refl,
  eq_iff id "",
)

user-Addressed : (name : String) → name ≢ "" → Addressed (cat "user:" name)
user-Addressed name named = record {
  target = recipient name;
  has_address = refl;
  reached = reaches_user name named;
}

group-Addressed : (id : String) → id ≢ "" → Addressed (cat "group:" id)
group-Addressed id named = record {
  target = group id;
  has_address = refl;
  reached = reaches_group id named;
}

-- The target that a message's group and peer stand for.
abbrev pub IsTarget : Option String → String → Target → Type 0
IsTarget none peer t = (peer ≢ "") × (t ≡ recipient peer)
IsTarget (some id) peer t =
    ((id ≢ "") × (t ≡ group id)) ⊎ ((id ≡ "") × (peer ≢ "") × (t ≡ recipient peer))

-- Where a notification's message came from: its group, or the peer who sent it, or whom the user
-- sent it to from another device.
abbrev pub IsOrigin : SignalEnvelope → Target → Type 0
IsOrigin e t =
    ((d : DataMessage) × (peer : String) × (e.data_message ≡ some d)
      × IsPeer e peer
      × IsTarget d.group_info peer t)
    ⊎ ((d : SentMessage) × (e.data_message ≡ none)
        × (e.sync_message ≡ some (some d))
        × IsTarget d.group_info d.destination t)

-- The target of a conversation's id.
record Placement (g : Option String) (peer conversation_id : String) : Type 0 where
  target : Target
  is_target : IsTarget g peer target
  reached : target_of conversation_id ≡ success target

placement :
    (g : Option String) (peer conversation_id : String)
    → InConversation g peer conversation_id
    → Placement g peer conversation_id
placement none peer c (named, is) = record {
  target = recipient peer;
  is_target = (named, refl);
  reached = rw is (reaches_user peer named);
}
placement (some id) peer c (inl (grouped, is)) = record {
  target = group id;
  is_target = inl (grouped, refl);
  reached = rw is (reaches_group id grouped);
}
placement (some id) peer c (inr (empty, (named, is))) = record {
  target = recipient peer;
  is_target = inr (empty, named, refl);
  reached = rw is (reaches_user peer named);
}

-- A message that was reported, with its origin.
record Origin (e : SignalEnvelope) (conversation_id : String) : Type 0 where
  target : Target
  is_origin : IsOrigin e target
  reached : target_of conversation_id ≡ success target

origin :
    (decimal : ℤ → String) (e : SignalEnvelope) (m : Received)
    → Reports decimal e m
    → Origin e m.conversation_id
origin decimal e m (inl r) =
    let p = placement r.content.group_info r.peer r.conversation_id r.placed in
    record {
      target = p.target;
      is_origin = inl (r.content, r.peer, r.carried, r.is_peer, p.is_target);
      reached = ap (λ (x : Received). target_of x.conversation_id) r.whole ∙ p.reached;
    }
origin decimal e m (inr r) =
    let p = placement r.content.group_info r.content.destination r.conversation_id r.placed in
    record {
      target = p.target;
      is_origin = inr (r.content, r.not_data, r.carried, p.is_target);
      reached = ap (λ (x : Received). target_of x.conversation_id) r.whole ∙ p.reached;
    }

-- A reply into the conversation of a message that was received, with a body that is not blank, goes
-- from the linked account to the group of the message, or else to the peer that its notification
-- names as the sender, with the body as it is. For a message that the user sent from another device,
-- the peer is the one whom the user sent it to.
pub reply_reaches :
    (decimal : ℤ → String) (raw : Option Json) (m : Received) (s : Service) (body key : String)
    → parse_receive decimal raw ≡ some m
    → s.account ≢ ""
    → trim_space body ≢ ""
    → let command : SendCommand = record {
      conversation_id = m.conversation_id;
      body = body;
      idempotency_key = key;
    } in
      (e : SignalEnvelope) × (t : Target) × (read_notification raw ≡ some e)
      × IsOrigin e t
      × (plan_send s (decoded command)
          ≡ success (record { account = s.account; message = body; target = t }))
unfolding plan_send
reply_reaches decimal raw m s body key parsed linked named =
    let (e, is, reports) = parsed-Reports decimal raw m parsed in
    let a = origin decimal e m reports in
    (
      e,
      a.target,
      is,
      a.is_origin,
      ground (arith, a.reached, linked, named, eq_iff s.account "", eq_iff (trim_space body) ""),
    )

abbrev AreAddressed : List WireConversation → Type 0
AreAddressed l = All (λ c. Addressed c.provider_id) l

AreAddressed-++ :
    (l r : List WireConversation) → AreAddressed l → AreAddressed r → AreAddressed (l ++ r)
AreAddressed-++ [] r hl hr = hr
AreAddressed-++ (c ∷ l) r hl hr = (hl.0, AreAddressed-++ l r hl.1 hr)

AreAddressed-append :
    (o : Option WireConversation) (l : List WireConversation)
    → ((c : WireConversation) → o ≡ some c → Addressed c.provider_id)
    → AreAddressed l
    → AreAddressed (append o l)
AreAddressed-append none l ho hl = hl
AreAddressed-append (some c) l ho hl = (ho c refl, hl)

group_conversation-Addressed :
    (g : Group) (c : WireConversation) → group_conversation g ≡ some c → Addressed c.provider_id
group_conversation-Addressed g c h =
    let id = or_else g.id g.group_id in
    elim (Bool-cases (id == "")) [
      | inl bad ↦ absurd (ground arith)
      | inr named ↦
          subst Addressed (ground arith)
            (group-Addressed id (λ e. ground (arith, named, (eq_iff id "").1 e)))
    ]

contact_conversation-Addressed :
    (x : Contact) (c : WireConversation) → contact_conversation x ≡ some c → Addressed c.provider_id
contact_conversation-Addressed x c h = elim (Bool-cases (x.number == "")) [
  | inl bad ↦ absurd (ground arith)
  | inr named ↦
      subst Addressed (ground arith)
        (user-Addressed x.number (λ e. ground (arith, named, (eq_iff x.number "").1 e)))
]

of_groups-AreAddressed : (gs : List Group) → AreAddressed (of_groups gs)
unfolding of_groups
of_groups-AreAddressed [] = tt
of_groups-AreAddressed (g ∷ gs) =
    AreAddressed-append (group_conversation g) (of_groups gs) (group_conversation-Addressed g)
      (of_groups-AreAddressed gs)

of_contacts-AreAddressed : (cs : List Contact) → AreAddressed (of_contacts cs)
unfolding of_contacts
of_contacts-AreAddressed [] = tt
of_contacts-AreAddressed (c ∷ cs) =
    AreAddressed-append (contact_conversation c) (of_contacts cs) (contact_conversation-Addressed c)
      (of_contacts-AreAddressed cs)

-- Each conversation that is listed can be sent to, at the peer or the group that its id names.
pub conversations-Addressed :
    (groups : Rpc (List Group)) (contacts : Rpc (List Contact)) (s : Service)
    (l : List WireConversation)
    → conversations groups contacts s ≡ success l
    → All (λ c. Addressed c.provider_id) l
unfolding conversations
conversations-Addressed (rpc_failed late) contacts s l h = absurd (ground arith)
conversations-Addressed (answered gs) (rpc_failed late) s l h = absurd (ground arith)
conversations-Addressed (answered gs) (answered cs) s l h =
    let same : of_groups gs ++ of_contacts cs ≡ l = ground arith in
    subst AreAddressed same (
      AreAddressed-++ (of_groups gs) (of_contacts cs) (of_groups-AreAddressed gs)
        (of_contacts-AreAddressed cs))
