-- ===== src/Worker/Session/Events.antt =====
-- sendPendingEvents of internal/worker/client.go.
use say.Base.{
  ℕ, zero, suc, ◌+◌, ◌≤◌, ◌≡◌, inl, inr, refl, subst, String, Bool, true, false, List, [], ◌∷◌,
  ◌++◌, ◌==◌, if◌then◌else◌, arith, eq_iff, Bool-cases,
}
use say.Protocol.{Envelope}
use say.Worker.Session.Answers.{with_id, with_id-append}

abbrev pub has : String → List String → Bool
has id [] = false
has id (x ∷ xs) = if x == id then true else has id xs

-- What a call comes to: whether there was no error, the envelopes written, and the set of ids sent.
pub record Sent : Type 0 where
  pub fine : Bool
  pub written : List Envelope
  pub sent : List String

abbrev also : Envelope → Sent → Sent
also e s = record s { written = e ∷ s.written }

-- The loop over the pending events; `fails` says which writes fail.
unfoldable pub send_pending : ℕ → (ℕ → Bool) → ℕ → List Envelope → List String → Sent
send_pending generation fails n [] sent = record { fine = true; written = []; sent = sent }
send_pending generation fails n (e ∷ rest) sent =
    let skipped = send_pending generation fails n rest sent in
    let later = send_pending generation fails (n + 1) rest (e.id ∷ sent) in
    if has e.id sent
    then skipped
    else if fails n
    then record { fine = false; written = []; sent = sent }
    else also (record e { generation = generation }) later

-- The calls of one session, with the pending events that each finds; a call that fails ends it.
pub record Round : Type 0 where
  pub pending : List Envelope
  pub fails : ℕ → Bool

abbrev then_rest : Sent → List Envelope → List Envelope
then_rest s rest = s.written ++ (if s.fine then rest else [])

unfoldable pub send_rounds : ℕ → List Round → List String → List Envelope
unfolding send_pending
send_rounds generation [] sent = []
send_rounds generation (r ∷ rs) sent =
    let s = send_pending generation r.fails 0 r.pending sent in
    then_rest s (send_rounds generation rs s.sent)

-- An id that was sent, or is sent now, is not sent again.
record Once (id : String) (sent : List String) (s : Sent) : Type 0 where
  bound : with_id id s.written ≤ (if has id sent then 0 else 1)
  keeps : has id sent ≡ true → has id s.sent ≡ true
  marks : with_id id s.written ≡ 1 → has id s.sent ≡ true

sum-once :
    (a b : ℕ) (old new : Bool)
    → a ≤ (if old then 0 else 1)
    → (old ≡ true → new ≡ true)
    → (a ≡ 1 → new ≡ true)
    → b ≤ (if new then 0 else 1)
    → a + b ≤ (if old then 0 else 1)
sum-once a b true true ha keeps marks hb = omega (arith, ha, hb)
sum-once a b true false ha keeps marks hb = absurd (ground (arith, keeps refl))
sum-once a b false true ha keeps marks hb = omega (arith, ha, hb)
sum-once zero b false false ha keeps marks hb = omega (arith, hb)
sum-once (suc zero) b false false ha keeps marks hb = absurd (ground (arith, marks refl))
sum-once (suc (suc a)) b false false ha keeps marks hb = absurd (omega (arith, ha))

if-none :
    (id : String) (fine : Bool) (l : List Envelope)
    → with_id id (if fine then l else []) ≤ with_id id l
if-none id true l = omega arith
if-none id false l = omega arith

module _ (generation : ℕ) (id : String) where
  send_pending-Once :
      (fails : ℕ → Bool) (n : ℕ) (events : List Envelope) (sent : List String)
      → Once id sent (send_pending generation fails n events sent)
  unfolding send_pending
  send_pending-Once fails n [] sent = record {
    bound = ground arith;
    keeps = λ h. h;
    marks = λ h. ground (arith, h);
  }
  send_pending-Once fails n (e ∷ rest) sent = elim (Bool-cases (has e.id sent)) [
    | inl known ↦ rw known (send_pending-Once fails n rest sent)
    | inr new ↦ elim (Bool-cases (fails n)) [
      | inl bad ↦
          rw (new, bad)
            (record { bound = ground arith; keeps = λ h. h; marks = λ h. ground (arith, h) })
      | inr fine ↦
          let later = send_pending-Once fails (n + 1) rest (e.id ∷ sent) in
          rw (new, fine)
            (elim (Bool-cases (e.id == id)) [
              | inl same ↦
                  let unsent : has id sent ≡ false =
                    subst (λ i. has i sent ≡ false) ((eq_iff e.id id).0 same) new in
                  record {
                    bound = ground (arith, same, unsent, later.bound);
                    keeps = λ h. later.keeps (ground (arith, same));
                    marks = λ h. later.keeps (ground (arith, same));
                  }
              | inr other ↦ record {
                bound = ground (arith, other, later.bound);
                keeps = λ h. later.keeps (ground (arith, other, h));
                marks = λ h. later.marks (ground (arith, other, h));
              }
            ])
    ]
  ]

  rounds-Once :
      (rs : List Round) (sent : List String)
      → with_id id (send_rounds generation rs sent) ≤ (if has id sent then 0 else 1)
  unfolding send_rounds
  rounds-Once [] sent = ground arith
  rounds-Once (r ∷ rs) sent =
      let s = send_pending generation r.fails 0 r.pending sent in
      let o = send_pending-Once r.fails 0 r.pending sent in
      let rest = rounds-Once rs s.sent in
      let sum =
        with_id-append id s.written (if s.fine then send_rounds generation rs s.sent else []) in
      let kept = if-none id s.fine (send_rounds generation rs s.sent) in
      let total =
        sum-once (with_id id s.written) (with_id id (send_rounds generation rs s.sent))
          (has id sent) (has id s.sent) o.bound o.keeps o.marks rest in
      omega (arith, sum, kept, total)

-- However often a session calls sendPendingEvents, whichever events it finds in the spool and
-- whichever writes fail, it writes each event at most once. No acknowledgement of the event comes in
-- between: one takes the event from the spool and from the set.
pub send_once_in_session :
    (generation : ℕ) (id : String) (rs : List Round) → with_id id (send_rounds generation rs []) ≤ 1
send_once_in_session generation id rs = rounds-Once generation id rs []
