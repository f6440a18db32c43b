-- ===== src/Postgres/Accounts.antt =====
-- internal/postgres/accounts.go: the account store on the database.
pub mod Reports
pub mod Redemption
pub mod Revocation
use say.Base.{
  ℕ, suc, ◌+◌, ◌*◌, ◌^◌, String, Bool, true, false, not, ◌&&◌, ◌||◌, Option, none, some, List, [],
  ◌∷◌, ◌++◌, ◌==◌, eqb, ltb, leb, map, if◌then◌else◌, is_some, random_value,
}
use say.Database.{
  Error, Result, ok, err, storage, random_failed, not_found, invalid_argument, invalid_token,
  expired_token, platform_mismatch, Tx, ◌>>=◌, ◌>>◌, pure, raise, exec, exec_checked, transact,
  commit, or_raise,
}
use say.Database.Tables.{find, update, select}
use say.Database.Order.{order_by}
use say.Gateway.Account.{Account, WorkerAuth}
use say.Postgres.{
  AccountRow, PairingToken, WorkerCredential, ConversationRow, CommandRow, MessageRow, Db, Moment,
  coalesce, null_if_empty, delete_messages,
}

-- MarkWorkersOffline
unfoldable pub mark_workers_offline : Moment → Db → Result (Unit {0}) × Db
mark_workers_offline m = exec (m.fails 1) (λ db. (
  tt,
  record db {
    accounts = update (λ a. a.status == "live") (λ a. record a { status = "offline" }) db.accounts;
  },
))

-- scanAccount; EnrollmentEnd is not read and stays Go's zero time.
abbrev pub scan_account : AccountRow → Account
scan_account r = record {
  id = r.id;
  user_id = r.user_id;
  platform = r.platform;
  external_id = coalesce r.external_id;
  display_name = r.display_name;
  status = r.status;
  hosting_mode = r.hosting_mode;
  worker_id = coalesce r.worker_id;
  generation = r.generation;
  last_seen_at = r.last_seen_at;
  created_at = r.created_at;
  enrollment_end = 0;
}

-- The defaults are the schema's.
abbrev pub new_row : Moment → String → String → String → String → AccountRow
new_row m id user_id platform display_name = record {
  id = id;
  user_id = user_id;
  platform = platform;
  external_id = none;
  display_name = display_name;
  status = "unlinked";
  hosting_mode = "self_hosted";
  worker_id = none;
  generation = 0;
  last_seen_at = none;
  linked_at = none;
  created_at = m.db_now;
}

-- INSERT INTO accounts; that the user is there, the schema's reference, is left to the failures of
-- the statement.
unfoldable pub insert_account : AccountRow → Db → Result (Unit {0} × Db)
insert_account r db =
    if is_some (find (λ a. a.id == r.id) db.accounts)
    then err storage
    else ok (tt, record db { accounts = db.accounts ++ r ∷ [] })

unfoldable pub insert_pairing : PairingToken → Db → Result (Unit {0} × Db)
insert_pairing p db =
    if is_some (find (λ q. q.id == p.id || q.token_hash == p.token_hash) db.pairing_tokens)
    then err storage
    else ok (tt, record db { pairing_tokens = db.pairing_tokens ++ p ∷ [] })

-- The partial unique index lets an account have one credential that is not revoked.
abbrev pub clashes : WorkerCredential → WorkerCredential → Bool
clashes new w =
    w.id == new.id
    || (w.token_hash == new.token_hash
        || (w.account_id == new.account_id && not (is_some w.revoked_at)))

unfoldable pub insert_credential : WorkerCredential → Db → Result (Unit {0} × Db)
insert_credential w db =
    if is_some (find (clashes w) db.worker_credentials)
    then err storage
    else ok (tt, record db { worker_credentials = db.worker_credentials ++ w ∷ [] })

unfoldable pub list_accounts : Moment → String → Db → Result (List Account) × Db
list_accounts m user_id = exec (m.fails 1) (λ db. (
  map scan_account (
      order_by (λ a b. ltb a.created_at b.created_at)
        (select (λ a. a.user_id == user_id) db.accounts)),
  db,
))

abbrev is_owned : String → String → AccountRow → Bool
is_owned user_id account_id a = a.id == account_id && a.user_id == user_id

abbrev scanned : Option AccountRow → Option Account
scanned none = none
scanned (some a) = some (scan_account a)

unfoldable pub get_account : Moment → String → String → Db → Result Account × Db
get_account m user_id account_id = do
  found ← exec (m.fails 1) (λ db. (scanned (find (is_owned user_id account_id) db.accounts), db))
  or_raise not_found found

abbrev pub is_on : String → Db → MessageRow → Bool
is_on account_id db r =
    is_some (find (λ c. c.id == r.conversation_id && c.account_id == account_id) db.conversations)

-- What ON DELETE CASCADE takes with an account.
abbrev cascade : String → Db → Db
cascade account_id db =
    let cleared = (delete_messages (is_on account_id db) db).1 in
    record cleared {
      accounts = select (λ a. not (a.id == account_id)) db.accounts;
      pairing_tokens = select (λ p. not (p.account_id == account_id)) db.pairing_tokens;
      worker_credentials = select (λ w. not (w.account_id == account_id)) db.worker_credentials;
      conversations = select (λ c. not (c.account_id == account_id)) db.conversations;
      commands = select (λ c. not (c.account_id == account_id)) cleared.commands;
    }

-- DELETE FROM accounts WHERE id = $1 AND user_id = $2; the id is the primary key.
unfoldable pub delete_row : String → String → Db → Bool × Db
unfolding delete_messages
delete_row user_id account_id db =
    if is_some (find (is_owned user_id account_id) db.accounts)
    then (true, cascade account_id db)
    else (false, db)

unfoldable pub delete_account : Moment → String → String → Db → Result (Unit {0}) × Db
unfolding delete_row
delete_account m user_id account_id = do
  deleted ← exec (m.fails 1) (delete_row user_id account_id)
  if deleted then pure tt else raise not_found

abbrev pub is_active : String → WorkerCredential → Bool
is_active token_hash w = w.token_hash == token_hash && not (is_some w.revoked_at)

abbrev joined_account : Db → Option WorkerCredential → Option AccountRow
joined_account db none = none
joined_account db (some w) = find (λ a. a.id == w.account_id) db.accounts

-- FROM worker_credentials w JOIN accounts a …; the hash is unique.
unfoldable pub credential_account : String → Db → Option AccountRow
credential_account token_hash db =
    joined_account db (find (is_active token_hash) db.worker_credentials)

abbrev joined_pairing : PairingToken → Option AccountRow → Option (PairingToken × AccountRow)
joined_pairing p none = none
joined_pairing p (some a) = some (p, a)

abbrev pairing_account : Db → Option PairingToken → Option (PairingToken × AccountRow)
pairing_account db none = none
pairing_account db (some p) = joined_pairing p (find (λ a. a.id == p.account_id) db.accounts)

-- FROM pairing_tokens p JOIN accounts a …, as scanEnrollment reads it
unfoldable pub pairing : String → Db → Option (PairingToken × AccountRow)
pairing token_hash db =
    pairing_account db (find (λ p. p.token_hash == token_hash) db.pairing_tokens)

abbrev pub redeemed : ℕ → PairingToken → PairingToken
redeemed at p = record p { redeemed_at = some at }

unfoldable pub redeem_pairing : String → ℕ → Db → Unit {0} × Db
redeem_pairing id at db =
    (tt, record db { pairing_tokens = update (λ p. p.id == id) (redeemed at) db.pairing_tokens })

abbrev pub activated : String → AccountRow → AccountRow
activated worker_id a = record a {
  worker_id = some worker_id;
  generation = a.generation + 1;
  status = "offline";
}

-- UPDATE accounts … RETURNING generation: an error where there is no row, or where the bigint
-- overflows.
unfoldable pub activate : String → String → Db → Result (ℕ × Db)
activate account_id worker_id db = elim (find (λ a. a.id == account_id) db.accounts) [
  | none ↦ err storage
  | some a ↦
      if leb (2 ^ 63) (a.generation + 1)
      then err storage
      else ok (
        a.generation + 1,
        record db { accounts = update (λ x. x.id == account_id) (activated worker_id) db.accounts },
      )
]

abbrev pub enrolled : Account → String → String → ℕ → WorkerAuth
enrolled account worker_id credential generation = record {
  account = record account { generation = generation; worker_id = worker_id; status = "offline" };
  credential = credential;
}

abbrev accepted : WorkerAuth → Result WorkerAuth
accepted = ok

-- `sum256` is SHA-256.
module _ (sum256 : String → String) (m : Moment) where
  abbrev created : String → String → String → String → String → Account × String
  created id user_id platform display_name enrollment = (
    record (scan_account (new_row m id user_id platform display_name)) {
      enrollment_end = m.now + 10 * 60 * 10 ^ 9;
    },
    enrollment,
  )

  unfoldable pub create_body :
      String → String → String → String → String → String → Tx Db (Result (Account × String))
  unfolding insert_account insert_pairing
  create_body id enrollment_id enrollment user_id platform display_name = do
    exec_checked (m.fails 2) (insert_account (new_row m id user_id platform display_name))
    exec_checked (m.fails 3) (
        insert_pairing (record {
          id = enrollment_id;
          account_id = id;
          token_hash = sum256 enrollment;
          expires_at = m.now + 10 * 60 * 10 ^ 9;
          redeemed_at = none;
          revoked_at = none;
        }))
    commit (m.fails 4) (ok (created id user_id platform display_name enrollment))

  unfoldable pub create_account : String → String → String → Db → Result (Account × String) × Db
  unfolding create_body
  create_account user_id platform display_name = do
    if not (platform == "signal") && not (platform == "telegram")
        then raise invalid_argument
        else pure tt
    id ← or_raise random_failed (random_value "acc_" (m.random 0))
    enrollment_id ← or_raise random_failed (random_value "enr_" (m.random 1))
    enrollment ← or_raise random_failed (random_value "say_enroll_" (m.random 2))
    transact (m.fails 1) (create_body id enrollment_id enrollment user_id platform display_name)

  -- redeemEnrollment, once the pairing token is found good
  unfoldable pub grant : PairingToken → AccountRow → Tx Db (Result WorkerAuth)
  unfolding redeem_pairing insert_credential activate
  grant p a = do
    credential ← or_raise random_failed (random_value "say_worker_" (m.random 0))
    worker_id ← or_raise random_failed (random_value "wrk_" (m.random 1))
    credential_id ← or_raise random_failed (random_value "wcr_" (m.random 2))
    exec (m.fails 4) (redeem_pairing p.id m.db_now)
    exec_checked (m.fails 5) (
        insert_credential (record {
          id = credential_id;
          account_id = a.id;
          token_hash = sum256 credential;
          revoked_at = none;
        }))
    generation ← exec_checked (m.fails 6) (activate a.id worker_id)
    commit (m.fails 7) (accepted (enrolled (scan_account a) worker_id credential generation))

  unfoldable pub redeem_found :
      String → Option (PairingToken × AccountRow) → Tx Db (Result WorkerAuth)
  unfolding grant
  redeem_found platform none = raise invalid_token
  redeem_found platform (some (p, a)) =
      if is_some p.redeemed_at || is_some p.revoked_at
      then raise invalid_token
      else if ltb p.expires_at m.now
      then raise expired_token
      else if not (a.platform == platform)
      then raise platform_mismatch
      else grant p a

  unfoldable pub redeem_body : String → String → Tx Db (Result WorkerAuth)
  unfolding redeem_found pairing
  redeem_body token_hash platform = do
    found ← exec (m.fails 3) (λ db. (pairing token_hash db, db))
    redeem_found platform found

  unfoldable pub redeem_enrollment : String → String → Db → Result WorkerAuth × Db
  unfolding redeem_body
  redeem_enrollment token_hash platform = transact (m.fails 2) (redeem_body token_hash platform)

  -- AuthenticateWorker, after the query for a credential
  unfoldable pub authenticate_found : String → String → Option AccountRow → Tx Db WorkerAuth
  unfolding redeem_enrollment
  authenticate_found token_hash platform none = redeem_enrollment token_hash platform
  authenticate_found token_hash platform (some a) =
      if not (a.platform == platform)
      then raise platform_mismatch
      else pure (record { account = scan_account a; credential = "" })

  unfoldable pub authenticate_worker : String → String → Db → Result WorkerAuth × Db
  unfolding authenticate_found credential_account
  authenticate_worker token platform = do
    found ← exec (m.fails 1) (λ db. (credential_account (sum256 token) db, db))
    authenticate_found (sum256 token) platform found
