-- ===== src/Postgres/Sends/Dispatch.antt =====
-- MarkCommandDispatched of internal/postgres/messages.go.
use say.Base.{
  ℕ, ◌≤◌, String, Bool, false, ◌&&◌, ◌≡◌, inl, inr, none, ◌==◌, ltb, arith, if◌then◌else◌, is_some,
  Bool-cases,
}
use say.Database.{Result, ok, exec}
use say.Database.Tables.{find, update, find-update-none, update-none}
use say.Postgres.{CommandRow, Db, Moment}

-- WHERE id = $1 AND status = 'pending' AND expires_at > now()
abbrev pub is_dispatchable : String → ℕ → CommandRow → Bool
is_dispatchable id now c = c.id == id && (c.status == "pending" && ltb now c.expires_at)

abbrev pub dispatched : CommandRow → CommandRow
dispatched c = record c { status = "dispatched" }

-- The id is the primary key, so one row is affected exactly if there is one.
unfoldable pub dispatch_row : String → ℕ → Db → Bool × Db
dispatch_row id now db = (
  is_some (find (is_dispatchable id now) db.commands),
  record db { commands = update (is_dispatchable id now) dispatched db.commands },
)

unfoldable pub mark_command_dispatched : Moment → String → Db → Result Bool × Db
unfolding dispatch_row
mark_command_dispatched m id = exec (m.fails 1) (dispatch_row id m.db_now)

spent :
    (id : String) (now now' : ℕ) (c : CommandRow)
    → now ≤ now'
    → is_dispatchable id now' (if is_dispatchable id now c then dispatched c else c) ≡ false
spent id now now' c later = elim (Bool-cases (is_dispatchable id now c)) [
  | inl yes' ↦ rw yes' (ground arith)
  | inr no' ↦ rw no' (ground arith)
]

-- However often the dispatch of a command is tried, one try at most succeeds: after a try, whatever
-- its answer was, a try at the same or a later time answers that it did not, and changes nothing.
-- The database's clock is taken not to go back.
pub dispatch_once :
    (m m' : Moment) (id : String) (db : Db) (won : Bool)
    → (mark_command_dispatched m id db).0 ≡ ok won
    → m'.fails 1 ≡ false
    → m.db_now ≤ m'.db_now
    → let db' = (mark_command_dispatched m id db).1 in
      mark_command_dispatched m' id db' ≡ (ok false, db')
unfolding mark_command_dispatched
dispatch_once m m' id db won h works later = elim (Bool-cases (m.fails 1)) [
  | inl bad ↦ absurd (ground arith)
  | inr fine ↦
      let p = is_dispatchable id m.db_now in
      let p' = is_dispatchable id m'.db_now in
      let rows = update p dispatched db.commands in
      let none' : find p' rows ≡ none =
        find-update-none p' p dispatched db.commands (λ c. spent id m.db_now m'.db_now c later) in
      rw (fine, works, none', update-none p' dispatched rows none')
]
