-- ===== src/Signal/Receive/Reports.antt =====
-- Which message a notification of signal-cli reports, apart from how parseReceive of
-- internal/signalworker/service.go finds it.
use say.Base.{
  ℤ, pos, negsuc, zero, suc, is_pos, String, cat, true, false, ◌≡◌, ◌≢◌, ◌⊎◌, inl, inr, refl, ap,
  Option, none, some, List, [], ◌∷◌, ◌==◌, arith, eq_iff, Bool-cases,
}
use say.Signal.Receive.{
  first_non_empty, unix_milli, Received, DataMessage, SentMessage, SignalEnvelope, later_of,
}

-- The first of some texts that is not empty, or the empty text where there is none.
abbrev pub FirstOf : List String → String → Type 0
FirstOf [] s = s ≡ ""
FirstOf (x ∷ rest) s = ((x ≢ "") × (s ≡ x)) ⊎ ((x ≡ "") × FirstOf rest s)

-- A timestamp other than zero: the inner one, or the outer one where the inner one is zero.
abbrev pub Dated : ℤ → ℤ → ℤ → Type 0
Dated outer inner t =
    (t ≢ pos 0) × (((inner ≢ pos 0) × (t ≡ inner)) ⊎ ((inner ≡ pos 0) × (t ≡ outer)))

abbrev Direct : String → String → Type 0
Direct peer conversation_id = (peer ≢ "") × (conversation_id ≡ cat "user:" peer)

-- The conversation of a message: of its group, or else with its peer.
abbrev pub InConversation : Option String → String → String → Type 0
InConversation none peer conversation_id = Direct peer conversation_id
InConversation (some id) peer conversation_id =
    ((id ≢ "") × (conversation_id ≡ cat "group:" id)) ⊎ ((id ≡ "") × Direct peer conversation_id)

-- The peer that a message came from.
abbrev pub IsPeer : SignalEnvelope → String → Type 0
IsPeer e = FirstOf (e.source_number ∷ e.source ∷ e.source_uuid ∷ [])

pub record Incoming (decimal : ℤ → String) (e : SignalEnvelope) (m : Received) : Type 0 where
  pub content : DataMessage
  pub timestamp : ℤ
  pub peer : String
  pub name : String
  pub conversation_id : String
  pub carried : e.data_message ≡ some content
  pub has_body : content.message ≢ ""
  pub dated : Dated e.timestamp content.timestamp timestamp
  pub is_peer : IsPeer e peer
  pub called : FirstOf (e.source_name ∷ peer ∷ []) name
  pub placed : InConversation content.group_info peer conversation_id
  pub whole : m ≡ record {
    provider_message_id = decimal timestamp;
    conversation_id = conversation_id;
    author_id = peer;
    author_name = name;
    body = content.message;
    sent_at = unix_milli timestamp;
    direction = "incoming";
  }

-- A message that the user sent from another device.
pub record Outgoing (decimal : ℤ → String) (e : SignalEnvelope) (m : Received) : Type 0 where
  pub content : SentMessage
  pub timestamp : ℤ
  pub conversation_id : String
  pub not_data : e.data_message ≡ none
  pub carried : e.sync_message ≡ some (some content)
  pub has_body : content.message ≢ ""
  pub dated : Dated e.timestamp content.timestamp timestamp
  pub placed : InConversation content.group_info content.destination conversation_id
  pub whole : m ≡ record {
    provider_message_id = decimal timestamp;
    conversation_id = conversation_id;
    author_id = "self";
    author_name = "You";
    body = content.message;
    sent_at = unix_milli timestamp;
    direction = "outgoing";
  }

abbrev pub Reports : (ℤ → String) → SignalEnvelope → Received → Type 0
Reports decimal e m = Incoming decimal e m ⊎ Outgoing decimal e m

pub nonempty : (s : String) → (s == "") ≡ false → s ≢ ""
nonempty s e same = ground (arith, e, (eq_iff s "").1 same)

pub not-nonempty : (s : String) → s ≢ "" → (s == "") ≡ false
not-nonempty s named = elim (Bool-cases (s == "")) [
  | inl e ↦ absurd (named ((eq_iff s "").0 e))
  | inr e ↦ e
]

pub first_non_empty-FirstOf : (l : List String) → FirstOf l (first_non_empty l)
unfolding first_non_empty
first_non_empty-FirstOf [] = refl
first_non_empty-FirstOf (s ∷ rest) = elim (Bool-cases (s == "")) [
  | inl e ↦ rw e (inr ((eq_iff s "").0 e, first_non_empty-FirstOf rest))
  | inr e ↦ rw e (inl (nonempty s e, refl))
]

pub FirstOf-first_non_empty : (l : List String) (s : String) → FirstOf l s → s ≡ first_non_empty l
unfolding first_non_empty
FirstOf-first_non_empty [] s h = h
FirstOf-first_non_empty (x ∷ rest) s (inl (named, same)) = rw (not-nonempty x named) same
FirstOf-first_non_empty (x ∷ rest) s (inr (empty, h)) =
    rw ((eq_iff x "").1 empty) (FirstOf-first_non_empty rest s h)

is_pos-zero : (z : ℤ) → is_pos 0 z ≡ true → z ≡ pos 0
is_pos-zero (pos zero) h = refl
is_pos-zero (pos (suc n)) h = absurd (ground arith)
is_pos-zero (negsuc n) h = absurd (ground arith)

pub nonzero : (z : ℤ) → is_pos 0 z ≡ false → z ≢ pos 0
nonzero z h same = ground (arith, h, ap (is_pos 0) same)

pub not-nonzero : (z : ℤ) → z ≢ pos 0 → is_pos 0 z ≡ false
not-nonzero z other = elim (Bool-cases (is_pos 0 z)) [
  | inl e ↦ absurd (other (is_pos-zero z e))
  | inr e ↦ e
]

pub later_of-Dated :
    (outer inner : ℤ)
    → is_pos 0 (later_of outer inner) ≡ false
    → Dated outer inner (later_of outer inner)
later_of-Dated outer inner h = elim (Bool-cases (is_pos 0 inner)) [
  | inl e ↦ (nonzero (later_of outer inner) h, inr (is_pos-zero inner e, rw e refl))
  | inr e ↦ (nonzero (later_of outer inner) h, inl (nonzero inner e, rw e refl))
]

pub Dated-later_of : (outer inner t : ℤ) → Dated outer inner t → t ≡ later_of outer inner
Dated-later_of outer inner t (other, inl (has, same)) = rw (not-nonzero inner has) same
Dated-later_of outer inner t (other, inr (empty, same)) = rw empty same
