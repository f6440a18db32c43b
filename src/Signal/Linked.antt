-- ===== src/Signal/Linked.antt =====
-- Linking of a device in internal/signalworker/service.go.
use say.Base.{
  String, true, ◌≡◌, ◌≢◌, ◌⊎◌, inl, inr, refl, sym, subst, Option, none, some, List, [], ◌∷◌, ◌==◌,
  arith, eq_iff, Bool-cases,
}
use say.Protocol.{Envelope, Decoded, decoded, failed, decode_payload}
use say.Protocol.JsonTree.{Json}
use say.Protocol.Payloads.{LinkResult, LinkFinishCommand, read_link_finish}
use say.Signal.{
  Service, Rpc, answered, rpc_failed, new_service, start_link, finish_link, detect_account,
  parse_account, is_link, finish_decoded, confirmed, linked, live, Linking,
}

-- A command, or a detection of the account, with what signal-cli answers.
pub data Event : Type 0 where
  starts : Rpc String → Event
  finishes : Rpc (Unit {0}) → Rpc (Option Json) → Envelope → Event
  detects : Rpc (Option Json) → Event

unfoldable pub step : Event → Service → Service
unfolding start_link finish_link detect_account
step (starts answer) s = (start_link answer s).1
step (finishes confirms found e) s = (finish_link confirms found e s).1
step (detects found) s = (detect_account found s).1

unfoldable pub run : List Event → Service → Service
unfolding step
run [] s = s
run (x ∷ rest) s = run rest (step x s)

-- The link that is open, if there is one, is a link.
abbrev IsOpen : Service → Type 0
IsOpen s = (s.link_uri ≡ "") ⊎ (is_link s.link_uri ≡ true)

detect-link :
    (found : Rpc (Option Json)) (s : Service) → (detect_account found s).1.link_uri ≡ s.link_uri
unfolding detect_account
detect-link (answered raw) s = refl
detect-link (rpc_failed late) s = refl

-- What a command leaves of the link: the link as it was, none, or a link.
abbrev Leaves : Service → Service → Type 0
Leaves s s' = (s'.link_uri ≡ s.link_uri) ⊎ IsOpen s'

start-Leaves : (answer : Rpc String) (s : Service) → Leaves s (start_link answer s).1
unfolding start_link
start-Leaves (rpc_failed late) s = inl (ground arith)
start-Leaves (answered uri) s = elim (Bool-cases (s.account == "")) [
  | inr linked' ↦ inl (ground (arith, linked'))
  | inl unlinked ↦ elim (Bool-cases (is_link uri)) [
    | inl good ↦ inr (inr (ground (arith, unlinked, good)))
    | inr bad ↦ inl (ground (arith, unlinked, bad))
  ]
]

linked-Leaves :
    (asked : String × String) (s s' : Service) (o : Option String)
    → s'.link_uri ≡ s.link_uri
    → Leaves s (linked asked (o, s')).1
linked-Leaves asked s s' none same = inl same
linked-Leaves asked s s' (some account) same = elim (Bool-cases (account == "")) [
  | inl bad ↦ inl (ground (arith, same, bad))
  | inr named ↦ inr (inl (ground (arith, named)))
]

finish-Leaves :
    (confirms : Rpc (Unit {0})) (found : Rpc (Option Json)) (e : Envelope) (s : Service)
    → Leaves s (finish_link confirms found e s).1
unfolding finish_link
finish-Leaves confirms found e s = by_input (decode_payload read_link_finish e)
  where
    by_confirm :
        (asked : String × String) (r : Rpc (Unit {0})) → Leaves s (confirmed asked r found s).1
    by_confirm asked (rpc_failed late) = inl refl
    by_confirm asked (answered x) =
        linked-Leaves asked s (detect_account found s).1 (detect_account found s).0
          (detect-link found s)

    by_input : (d : Decoded LinkFinishCommand) → Leaves s (finish_decoded confirms found s d).1
    by_input (failed x) = inl refl
    by_input (decoded input) = elim (Bool-cases (s.link_uri == "")) [
      | inl bad ↦ inl (rw bad refl)
      | inr started ↦ rw started (by_confirm _ confirms)
    ]

kept : (s s' : Service) → IsOpen s → Leaves s s' → IsOpen s'
kept s s' (inl closed) (inl same) = inl (ground (arith, same, closed))
kept s s' (inr open') (inl same) = inr (subst (λ u. is_link u ≡ true) (sym same) open')
kept s s' h (inr h') = h'

step-IsOpen : (x : Event) (s : Service) → IsOpen s → IsOpen (step x s)
unfolding step
step-IsOpen (starts answer) s h = kept s (start_link answer s).1 h (start-Leaves answer s)
step-IsOpen (finishes confirms found e) s h =
    kept s (finish_link confirms found e s).1 h (finish-Leaves confirms found e s)
step-IsOpen (detects found) s h = kept s (detect_account found s).1 h (inl (detect-link found s))

run-IsOpen : (xs : List Event) (s : Service) → IsOpen s → IsOpen (run xs s)
unfolding run
run-IsOpen [] s h = h
run-IsOpen (x ∷ xs) s h = run-IsOpen xs (step x s) (step-IsOpen x s h)

linked-asked :
    (asked : String × String) (s : Service) (o : Option String)
    → (linked asked (o, s)).0.1.asked ≡ some asked
linked-asked asked s none = refl
linked-asked asked s (some account) = elim (Bool-cases (account == "")) [
  | inl bad ↦ rw bad refl
  | inr named ↦ rw named refl
]

finish-asks :
    (confirms : Rpc (Unit {0})) (found : Rpc (Option Json)) (e : Envelope) (s : Service)
    (uri device : String)
    → (finish_link confirms found e s).0.1.asked ≡ some (uri, device)
    → (s.link_uri ≡ uri) × (s.link_uri ≢ "")
unfolding finish_link
finish-asks confirms found e s uri device = by_input (decode_payload read_link_finish e)
  where
    by_confirm :
        (asked : String × String) (r : Rpc (Unit {0}))
        → (confirmed asked r found s).0.1.asked ≡ some (uri, device)
        → asked.0 ≡ uri
    by_confirm asked (rpc_failed late) h = ground arith
    by_confirm asked (answered x) h =
        let d = detect_account found s in ground (arith, h, linked-asked asked d.1 d.0)

    by_input :
        (d : Decoded LinkFinishCommand)
        → (finish_decoded confirms found s d).0.1.asked ≡ some (uri, device)
        → (s.link_uri ≡ uri) × (s.link_uri ≢ "")
    by_input (failed x) h = absurd (ground arith)
    by_input (decoded input) h = elim (Bool-cases (s.link_uri == "")) [
      | inl bad ↦ absurd (ground arith)
      | inr started ↦ (
        by_confirm _ confirms (rw started at h),
        (λ closed. ground (arith, started, (eq_iff s.link_uri "").1 closed)),
      )
    ]

-- After any sequence of commands and detections of a new worker, whatever signal-cli answered to
-- them, a finishing of the link asks signal-cli to link only a link URI that is not empty and has
-- one of the two schemes of Signal.
pub finish_link_asks :
    (link_name : String) (xs : List Event) (confirms : Rpc (Unit {0})) (found : Rpc (Option Json))
    (e : Envelope) (uri device : String)
    → (finish_link confirms found e (run xs (new_service link_name))).0.1.asked ≡ some (uri, device)
    → is_link uri ≡ true
finish_link_asks link_name xs confirms found e uri device h =
    let s = run xs (new_service link_name) in
    let (same, open') = finish-asks confirms found e s uri device h in
    elim (run-IsOpen xs (new_service link_name) (inl refl)) [
      | inl closed ↦ absurd (open' closed)
      | inr valid ↦ subst (λ u. is_link u ≡ true) same valid
    ]

-- A link that was finished: both calls of signal-cli were answered, and `raw` is its list of accounts.
pub record Finished (confirms : Rpc (Unit {0})) (found : Rpc (Option Json)) (r : LinkResult)
    (l : Linking) (s s' : Service) : Type 0 where
  pub raw : Option Json
  pub confirmed : confirms ≡ answered tt
  pub detected : found ≡ answered raw
  pub names : parse_account raw ≡ s'.account
  pub opened : s.link_uri ≢ ""
  pub is_linked : r.state ≡ "linked"
  pub named : s'.account ≢ ""
  pub reported : r.external_id ≡ s'.account
  pub closed : s'.link_uri ≡ ""
  pub published : l.published ≡ some (live s'.account)

-- An account that was detected is the one that signal-cli lists.
record Detected (found : Rpc (Option Json)) (account : String) (s' : Service) : Type 0 where
  raw : Option Json
  detected : found ≡ answered raw
  names : parse_account raw ≡ account
  kept : s'.account ≡ account
