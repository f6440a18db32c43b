-- ===== src/SayApi/Outbox.antt =====
-- The outbox of cmd/say-api/main.go empties.
use say.Base.{
  ℕ, suc, ◌+◌, ◌≤◌, ◌<◌, Bool, true, false, ◌≡◌, ◌≢◌, ◌⊎◌, ap, inl, inr, refl, List, [], ◌∷◌, arith,
  Bool-cases, is_some, length, All, All-mono, if◌then◌else◌,
}
use say.Protocol.JsonTree.{Json}
use say.Database.Tables.{find, update, select}
use say.Database.Order.{order_by, insert_by, limit, All-order_by, All-limit}
use say.Postgres.{Db, Moment, Message, OutboxRow}
use say.Postgres.Outbox.{
  is_pending, is_due, delivered, pending_outbox, mark_outbox_delivered, by_id, page,
}
use say.SayApi.{World, deliver, deliver_each, drain_outbox}

-- How many events wait.
abbrev pub waiting : List OutboxRow → ℕ
waiting rows = length (select is_pending rows)

waiting-mark-le :
    (id at : ℕ) (rows : List OutboxRow)
    → waiting (update (is_due id) (delivered at) rows) ≤ waiting rows
unfolding select update
waiting-mark-le id at [] = omega arith
waiting-mark-le id at (e ∷ rows) = ground (arith, waiting-mark-le id at rows)

waiting-mark-lt :
    (id at : ℕ) (rows : List OutboxRow)
    → is_some (find (is_due id) rows) ≡ true
    → waiting (update (is_due id) (delivered at) rows) < waiting rows
unfolding select update find
waiting-mark-lt id at [] h = absurd (ground arith)
waiting-mark-lt id at (e ∷ rows) h =
    ground (arith, waiting-mark-le id at rows, waiting-mark-lt id at rows)

found-later :
    (r : OutboxRow) (rows : List OutboxRow) (id : ℕ)
    → is_some (find (is_due id) rows) ≡ true
    → is_some (find (is_due id) (r ∷ rows)) ≡ true
unfolding find
found-later r rows id h = ground arith

found-first :
    (r : OutboxRow) (rows : List OutboxRow)
    → is_pending r ≡ true
    → is_some (find (is_due r.id) (r ∷ rows)) ≡ true
unfolding find
found-first r rows h = ground (arith, h)

All-kept :
    (P : OutboxRow → Type 0) (b : Bool) (r : OutboxRow) (rows : List OutboxRow)
    → (b ≡ true → P r)
    → All P rows
    → All P (if b then r ∷ rows else rows)
All-kept P true r rows first rest = (first refl, rest)
All-kept P false r rows first rest = rest

select-found :
    (rows : List OutboxRow)
    → All (λ e. is_some (find (is_due e.id) rows) ≡ true) (select is_pending rows)
unfolding select find
select-found [] = tt
select-found (r ∷ rows) =
    let rest =
      All-mono (λ e. is_some (find (is_due e.id) rows) ≡ true)
        (λ e. is_some (find (is_due e.id) (r ∷ rows)) ≡ true) (select is_pending rows)
        (λ e h. found-later r rows e.id h) (select-found rows) in
    All-kept (λ e. is_some (find (is_due e.id) (r ∷ rows)) ≡ true) (is_pending r) r
      (select is_pending rows) (found-first r rows) rest

limit-empty : (n : ℕ) (rows : List OutboxRow) → limit (suc n) rows ≡ [] → rows ≡ []
unfolding limit
limit-empty n [] h = refl
limit-empty n (r ∷ rows) h = absurd (ground arith)

insert_by-some : (r : OutboxRow) (xs : List OutboxRow) → insert_by by_id r xs ≢ []
unfolding insert_by
insert_by-some r [] h = ground arith
insert_by-some r (x ∷ xs) h = ground arith

order_by-empty : (rows : List OutboxRow) → order_by by_id rows ≡ [] → rows ≡ []
unfolding order_by
order_by-empty [] h = refl
order_by-empty (r ∷ rows) h = absurd (insert_by-some r (order_by by_id rows) h)

mark-le :
    (m : Moment) (id : ℕ) (db : Db)
    → waiting (mark_outbox_delivered m id db).1.outbox ≤ waiting db.outbox
unfolding mark_outbox_delivered
mark-le m id db = elim (Bool-cases (m.fails 1)) [
  | inl bad ↦ ground (arith, bad)
  | inr fine ↦ rw fine (waiting-mark-le id m.db_now db.outbox)
]

mark-lt :
    (m : Moment) (id : ℕ) (db : Db)
    → m.fails 1 ≡ false
    → is_some (find (is_due id) db.outbox) ≡ true
    → waiting (mark_outbox_delivered m id db).1.outbox < waiting db.outbox
unfolding mark_outbox_delivered
mark-lt m id db fine h = rw fine (waiting-mark-lt id m.db_now db.outbox h)

module _ (payload_of : Message → Json) where
  deliver_each-le :
      (marks : ℕ → Moment) (n : ℕ) (events : List OutboxRow) (w : World)
      → waiting (deliver_each payload_of marks n events w).1.db.outbox ≤ waiting w.db.outbox
  unfolding deliver_each deliver
  deliver_each-le marks n [] w = omega arith
  deliver_each-le marks n (e ∷ rest) w =
      let w' = (deliver payload_of (marks n) e w).1 in
      let first = mark-le (marks n) e.id w.db in
      let later = deliver_each-le marks (n + 1) rest w' in ground (arith, first, later)

  deliver_each-lt :
      (marks : ℕ → Moment) (n : ℕ) (e : OutboxRow) (rest : List OutboxRow) (w : World)
      → (marks n).fails 1 ≡ false
      → is_some (find (is_due e.id) w.db.outbox) ≡ true
      → waiting (deliver_each payload_of marks n (e ∷ rest) w).1.db.outbox < waiting w.db.outbox
  unfolding deliver_each deliver
  deliver_each-lt marks n e rest w fine h =
      let w' = (deliver payload_of (marks n) e w).1 in
      let first = mark-lt (marks n) e.id w.db fine h in
      let later = deliver_each-le marks (n + 1) rest w' in ground (arith, first, later)

length-none : (rows : List OutboxRow) → length rows ≤ 0 → rows ≡ []
length-none [] h = refl
length-none (r ∷ rows) h = absurd (omega (arith, h))

none-cases : (rows : List OutboxRow) → (rows ≡ []) ⊎ (rows ≢ [])
none-cases [] = inl refl
none-cases (r ∷ rows) = inr (λ e. ground (arith, e))

-- The calls of the store in one round of runOutbox.
pub record Round : Type 0 where
  pub reads : Moment
  pub marks : ℕ → Moment

-- No statement of the round fails.
pub record IsWorking (r : Round) : Type 0 where
  pub reading : r.reads.fails 1 ≡ false
  pub marking : (n : ℕ) → (r.marks n).fails 1 ≡ false

-- The rounds of runOutbox, one after another.
unfoldable pub rounds : (Message → Json) → List Round → World → World
unfolding drain_outbox
rounds payload_of [] w = w
rounds payload_of (r ∷ rs) w = rounds payload_of rs (drain_outbox payload_of r.reads r.marks w).1

module _ (payload_of : Message → Json) where
  abbrev page_of : World → List OutboxRow
  page_of w = limit (page 100) (order_by by_id (select is_pending w.db.outbox))

  deliver_page-lt :
      (marks : ℕ → Moment) (events : List OutboxRow) (w : World)
      → ((n : ℕ) → (marks n).fails 1 ≡ false)
      → All (λ e. is_some (find (is_due e.id) w.db.outbox) ≡ true) events
      → events ≢ []
      → waiting (deliver_each payload_of marks 0 events w).1.db.outbox < waiting w.db.outbox
  deliver_page-lt marks [] w works found some' = absurd (some' refl)
  deliver_page-lt marks (e ∷ rest) w works found some' =
      deliver_each-lt payload_of marks 0 e rest w (works 0) found.0

  drain-lt :
      (r : Round) (w : World)
      → IsWorking r
      → select is_pending w.db.outbox ≢ []
      → waiting (drain_outbox payload_of r.reads r.marks w).1.db.outbox < waiting w.db.outbox
  unfolding drain_outbox pending_outbox
  drain-lt r w works some' =
      let due = select is_pending w.db.outbox in
      let sorted = order_by by_id due in
      let P = λ (e : OutboxRow). is_some (find (is_due e.id) w.db.outbox) ≡ true in
      let found : All P (limit 100 sorted) =
        All-limit P 100 sorted (All-order_by P by_id due (select-found w.db.outbox)) in
      let any : limit 100 sorted ≢ [] =
        λ none'. some' (order_by-empty due (limit-empty 99 sorted none')) in
      rw works.reading (deliver_page-lt r.marks (limit 100 sorted) w works.marking found any)

  drain-le :
      (r : Round) (w : World)
      → waiting (drain_outbox payload_of r.reads r.marks w).1.db.outbox ≤ waiting w.db.outbox
  unfolding drain_outbox pending_outbox
  drain-le r w = elim (Bool-cases (r.reads.fails 1)) [
    | inl bad ↦ rw bad (omega arith)
    | inr fine ↦ rw fine (deliver_each-le payload_of r.marks 0 (page_of w) w)
  ]

  -- The outbox empties: once no statement fails any more and no event is added, as many rounds as
  -- events wait leave none that waits.
  pub rounds-empty :
      (rs : List Round) (w : World)
      → All IsWorking rs
      → waiting w.db.outbox ≤ length rs
      → select is_pending (rounds payload_of rs w).db.outbox ≡ []
  unfolding rounds
  rounds-empty [] w works enough = length-none (select is_pending w.db.outbox) enough
  rounds-empty (r ∷ rs) w works enough =
      let w' = (drain_outbox payload_of r.reads r.marks w).1 in
      let fewer : waiting w'.db.outbox ≤ length rs =
        elim (none-cases (select is_pending w.db.outbox)) [
          | inl none' ↦
              let before : waiting w.db.outbox ≡ 0 = ap length none' in
              omega (arith, drain-le r w, before)
          | inr some' ↦ omega (arith, drain-lt r w works.0 some', enough)
        ] in
      rounds-empty rs w' works.1 fewer
