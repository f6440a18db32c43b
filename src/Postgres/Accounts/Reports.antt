-- ===== src/Postgres/Accounts/Reports.antt =====
-- SetWorkerStatus, TouchWorker and SetWorkerIdentity of internal/postgres/accounts.go.
use say.Base.{ℕ, String, Bool, not, ◌&&◌, ◌||◌, Option, none, some, ◌==◌, eqb, if◌then◌else◌}
use say.Database.{Result, invalid_argument, raise, exec}
use say.Database.Tables.{update}
use say.Postgres.{AccountRow, Db, Moment, null_if_empty}

-- UPDATE accounts SET … WHERE id = $1 AND generation = $2
unfoldable pub update_generation : String → ℕ → (AccountRow → AccountRow) → Db → Unit {0} × Db
update_generation account_id generation f db = (
  tt,
  record db {
    accounts = update (λ a. a.id == account_id && eqb a.generation generation) f db.accounts;
  },
)

abbrev is_status : String → Bool
is_status s =
    s == "live"
    || (s == "offline" || (s == "unlinked" || (s == "linking" || s == "upgrade_required")))

unfoldable pub set_worker_status : Moment → String → ℕ → String → Db → Result (Unit {0}) × Db
unfolding update_generation
set_worker_status m account_id generation status =
    if not (is_status status)
    then raise invalid_argument
    else exec (m.fails 1) (
        update_generation account_id generation
          (λ a. record a { status = status; last_seen_at = some m.db_now }))

unfoldable pub touch_worker : Moment → String → ℕ → Db → Result (Unit {0}) × Db
unfolding update_generation
touch_worker m account_id generation =
    exec (m.fails 1)
      (update_generation account_id generation (λ a. record a { last_seen_at = some m.db_now }))

abbrev is_identity : String → Bool
is_identity s = s == "live" || (s == "unlinked" || (s == "linking" || s == "upgrade_required"))

-- CASE WHEN $3 = 'live' THEN COALESCE(linked_at, now()) ELSE linked_at END
abbrev linked : String → ℕ → Option ℕ → Option ℕ
linked status now none = if status == "live" then some now else none
linked status now (some t) = some t

unfoldable pub set_worker_identity :
    Moment → String → ℕ → String → String → Db → Result (Unit {0}) × Db
unfolding update_generation
set_worker_identity m account_id generation status external_id =
    if not (is_identity status)
    then raise invalid_argument
    else exec (m.fails 1) (
        update_generation account_id generation (λ a. record a {
          status = status;
          external_id = null_if_empty external_id;
          last_seen_at = some m.db_now;
          linked_at = linked status m.db_now a.linked_at;
        }))
