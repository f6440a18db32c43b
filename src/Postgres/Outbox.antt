-- ===== src/Postgres/Outbox.antt =====
-- The outbox of internal/postgres/messages.go: PendingOutbox, MarkOutboxDelivered and Prune.
pub mod Delivery
use say.Base.{
  ℕ, suc, zero, ◌+◌, ◌-◌, ◌*◌, ◌^◌, String, Bool, true, false, not, ◌&&◌, ◌||◌, Option, none, some,
  List, [], ◌∷◌, ◌==◌, eqb, ltb, if◌then◌else◌, is_some, length,
}
use say.Database.{Error, Result, ok, err, invalid_argument, storage, Tx, ◌>>=◌, pure, exec}
use say.Database.Tables.{find, update, select}
use say.Database.Order.{order_by, limit}
use say.Postgres.{MessageRow, OutboxRow, Db, Moment, delete_messages}

abbrev pub is_pending : OutboxRow → Bool
is_pending e = not (is_some e.delivered_at)

-- if limit <= 0 || limit > 1000 { limit = 100 }, for a limit that is not negative
abbrev pub page : ℕ → ℕ
page n = if eqb n 0 || ltb 1000 n then 100 else n

abbrev pub by_id : OutboxRow → OutboxRow → Bool
by_id x y = ltb x.id y.id

unfoldable pub pending_outbox : Moment → ℕ → Db → Result (List OutboxRow) × Db
pending_outbox m n =
    exec (m.fails 1) (λ db. (limit (page n) (order_by by_id (select is_pending db.outbox)), db))

abbrev pub delivered : ℕ → OutboxRow → OutboxRow
delivered at e = record e { delivered_at = some at }

abbrev pub is_due : ℕ → OutboxRow → Bool
is_due id e = eqb e.id id && is_pending e

unfoldable pub mark_outbox_delivered : Moment → ℕ → Db → Result (Unit {0}) × Db
mark_outbox_delivered m id =
    exec (m.fails 1)
      (λ db. (tt, record db { outbox = update (is_due id) (delivered m.db_now) db.outbox }))

-- row_number() OVER (PARTITION BY conversation_id ORDER BY sent_at DESC, id DESC) among the messages
-- that are not pending; `above` is the order of the database on texts. It counts the rows of the
-- conversation that come before, and the row itself.
module _ (above : String → String → Bool) where
  abbrev pub is_newer : MessageRow → MessageRow → Bool
  is_newer r x =
      not (x.status == "pending")
      && (x.conversation_id == r.conversation_id
          && (ltb r.sent_at x.sent_at || (eqb r.sent_at x.sent_at && above x.id r.id)))

  abbrev pub position : List MessageRow → MessageRow → ℕ
  position rows r = suc (length (select (is_newer r) rows))

  -- The rows that Prune deletes: not pending, older than the given time, and beyond the newest
  -- `keep` of their conversation.
  abbrev pub is_pruned : ℕ → ℕ → List MessageRow → MessageRow → Bool
  is_pruned before keep rows r =
      not (r.status == "pending") && (ltb r.sent_at before && ltb keep (position rows r))

  abbrev is_old : ℕ → OutboxRow → Bool
  is_old now e = elim e.delivered_at [
    | none ↦ false
    | some at ↦ ltb (at + 7 * 24 * 3600 * 10 ^ 9) now
  ]

  abbrev prune_messages : ℕ → ℕ → Db → ℕ × Db
  prune_messages before keep db =
      let gone = is_pruned before keep db.messages in
      (length (select gone db.messages), (delete_messages gone db).1)

  -- Two statements, each on its own; the answer is the number of messages deleted. A keep count is
  -- not negative here, and the retention is shorter than the time since Go's zero time.
  unfoldable pub prune : Moment → ℕ → ℕ → Db → Result ℕ × Db
  unfolding delete_messages
  prune m retention keep = if eqb retention 0 then (λ db. (err invalid_argument, db)) else do
    deleted ← exec (m.fails 1) (prune_messages (m.now - retention) keep)
    exec (m.fails 2)
        (λ db. (deleted, record db { outbox = select (λ e. not (is_old m.db_now e)) db.outbox }))
