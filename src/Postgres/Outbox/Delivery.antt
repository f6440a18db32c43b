-- ===== src/Postgres/Outbox/Delivery.antt =====
-- Which events the outbox still has to deliver, and which messages a pruning keeps.
use say.Base.{
  ℕ, suc, ◌-◌, ◌≤◌, ◌<◌, String, Bool, true, false, not, ◌≡◌, ◌≢◌, ◌⊎◌, inl, inr, refl, ap, some,
  List, [], ◌∷◌, ◌==◌, eqb, ltb, if◌then◌else◌, arith, eq_iff, Bool-cases, length, All,
}
use say.Database.{ok}
use say.Database.Tables.{find, update, select, find-select}
use say.Database.Order.{order_by, limit, All-order_by, All-limit, length-limit}
use say.Postgres.{MessageRow, OutboxRow, Db, Moment, delete_messages}
use say.Postgres.Outbox.{
  is_pending, page, pending_outbox, delivered, is_due, mark_outbox_delivered, is_newer, is_pruned,
  prune, by_id,
}

All-select : {R : Type 0} (p : R → Bool) (rs : List R) → All (λ r. p r ≡ true) (select p rs)
unfolding select
All-select p [] = tt
All-select p (r ∷ rs) = elim (Bool-cases (p r)) [
  | inl e ↦ rw (e, select) (e, All-select p rs)
  | inr e ↦ rw (e, select) (All-select p rs)
]

-- A page of the outbox has at most as many events as were asked for, and never more than 1000, all
-- of them not delivered; reading it changes nothing.
pub pending_outbox_lem :
    (m : Moment) (n : ℕ) (db : Db) (events : List OutboxRow)
    → (pending_outbox m n db).0 ≡ ok events
    → All (λ e. is_pending e ≡ true) events
      × (length events ≤ page n)
      × (length events ≤ 1000)
      × ((pending_outbox m n db).1 ≡ db)
unfolding pending_outbox
pending_outbox_lem m n db events h = elim (Bool-cases (m.fails 1)) [
  | inl bad ↦ absurd (ground arith)
  | inr fine ↦
      let all = order_by by_id (select is_pending db.outbox) in
      let same : limit (page n) all ≡ events = ground arith in
      let short = length-limit (page n) all in
      rw (← same) (
        All-limit (λ e. is_pending e ≡ true) (page n) all
            (All-order_by _ _ _ (All-select is_pending db.outbox)),
        short,
        ground (arith, short),
        rw fine refl,
      )
]

update-due :
    (id at : ℕ) (rows : List OutboxRow)
    → All (λ e. e.id ≢ id) (select is_pending (update (is_due id) (delivered at) rows))
unfolding select update
update-due id at [] = tt
update-due id at (e ∷ rows) = elim (Bool-cases (is_due id e)) [
  | inl due ↦ rw (due, select) (update-due id at rows)
  | inr other ↦ elim (Bool-cases (is_pending e)) [
    | inl waits ↦
        rw (other, waits, select)
          ((λ same. ground (arith, other, waits, same)), update-due id at rows)
    | inr gone ↦ rw (other, gone, select) (update-due id at rows)
  ]
]

-- Once an event is marked as delivered, no page of the outbox has it, whatever the page's size.
pub mark_outbox_delivered_lem :
    (m m' : Moment) (id n : ℕ) (db : Db) (events : List OutboxRow)
    → (mark_outbox_delivered m id db).0 ≡ ok tt
    → (pending_outbox m' n (mark_outbox_delivered m id db).1).0 ≡ ok events
    → All (λ e. e.id ≢ id) events
unfolding mark_outbox_delivered pending_outbox
mark_outbox_delivered_lem m m' id n db events won h = elim (Bool-cases (m.fails 1)) [
  | inl bad ↦ absurd (ground arith)
  | inr fine ↦ elim (Bool-cases (m'.fails 1)) [
    | inl bad ↦ absurd (ground arith)
    | inr fine' ↦
        let waiting = select is_pending (update (is_due id) (delivered m.db_now) db.outbox) in
        let same : limit (page n) (order_by by_id waiting) ≡ events = ground arith in
        rw (← same) (
          All-limit (λ e. e.id ≢ id) (page n) _
            (All-order_by _ _ waiting (update-due id m.db_now db.outbox)))
  ]
]

-- Whether a message is in front of another one in their conversation, the newest first; a pending
-- message has no place there.
abbrev pub precedes : (String → String → Bool) → MessageRow → MessageRow → Bool
precedes above x r =
    if x.status == "pending"
    then false
    else if not (x.conversation_id == r.conversation_id)
    then false
    else if eqb x.sent_at r.sent_at
    then above x.id r.id
    else ltb r.sent_at x.sent_at

abbrev pub preceding : (String → String → Bool) → MessageRow → List MessageRow → ℕ
preceding above r [] = 0
preceding above r (x ∷ xs) = let n = preceding above r xs in if precedes above x r then suc n else n

newer-precedes :
    (above : String → String → Bool) (r x : MessageRow) → is_newer above r x ≡ precedes above x r
newer-precedes above r x = ground arith

newer-preceding :
    (above : String → String → Bool) (r : MessageRow) (rows : List MessageRow)
    → length (select (is_newer above r) rows) ≡ preceding above r rows
unfolding select
newer-preceding above r [] = refl
newer-preceding above r (x ∷ rows) = elim (Bool-cases (precedes above x r)) [
  | inl e ↦ rw (newer-precedes above r x, e) (ap suc (newer-preceding above r rows))
  | inr e ↦ rw (newer-precedes above r x, e) (newer-preceding above r rows)
]

-- A message that a pruning is to keep: pending, sent within the retention, or one of the newest of
-- its conversation.
abbrev pub IsKept :
    (String → String → Bool) → Moment → ℕ → ℕ → List MessageRow → MessageRow → Type 0
IsKept above m retention keep rows r =
    (r.status ≡ "pending") ⊎ (m.now - retention ≤ r.sent_at) ⊎ (preceding above r rows < keep)

kept-stays :
    (above : String → String → Bool) (m : Moment) (retention keep : ℕ) (rows : List MessageRow)
    (r : MessageRow)
    → IsKept above m retention keep rows r
    → is_pruned above (m.now - retention) keep rows r ≡ false
kept-stays above m retention keep rows r (inl waits) =
    let e = (eq_iff r.status "pending").1 waits in ground (arith, e)
kept-stays above m retention keep rows r (inr (inl young)) = ground (arith, young)
kept-stays above m retention keep rows r (inr (inr few)) =
    ground (arith, few, newer-preceding above r rows)

-- A pruning keeps each message that is pending, that was sent within the retention, or that has fewer
-- than the given number of messages in front of it, the newest first, among those of its conversation
-- that are not pending; it stays as it was. That holds for a pruning that fails half-way as well, and
-- the tables of accounts and conversations do not change.
pub prune-find :
    (above : String → String → Bool) (m : Moment) (retention keep : ℕ) (db : Db) (id : String)
    (r : MessageRow)
    → find (λ x. x.id == id) db.messages ≡ some r
    → IsKept above m retention keep db.messages r
    → let db' = (prune above m retention keep db).1 in
      (find (λ x. x.id == id) db'.messages ≡ some r)
      × (db'.accounts ≡ db.accounts)
      × (db'.conversations ≡ db.conversations)
unfolding prune delete_messages
prune-find above m retention keep db id r is keeps =
    let stays = kept-stays above m retention keep db.messages r keeps in
    let gone = is_pruned above (m.now - retention) keep db.messages in
    let kept =
      find-select (λ x. x.id == id) (λ x. not (gone x)) db.messages r is (ground (arith, stays)) in
    (ground (arith, kept, is), ground arith, ground arith)
