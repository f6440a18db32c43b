-- ===== src/HttpApi/Accounts.antt =====
-- Accounts in internal/httpapi/router.go: listAccounts, createAccount, getAccount, deleteAccount and
-- linkAccount.
use say.Base.{
  ℕ, ◌+◌, ◌*◌, ◌^◌, String, Bool, true, false, not, ◌&&◌, ◌||◌, Option, none, some, List, ◌==◌,
  if◌then◌else◌, trim_space,
}
use say.Protocol.JsonTree.{Json}
use say.Protocol.Payloads.{marshal_link_start, marshal_link_finish}
use say.Database.{Error, Result, ok, err, not_found}
use say.Gateway.Account.{Account}
use say.Gateway.Hub.{Reply, reply, refused, worker_offline, command_error}
use say.Postgres.{Db, Moment}
use say.Postgres.Accounts
use say.HttpApi.{
  Response, Input, given, malformed, write_error, internal_error, invalid_request, accounts,
  account, created, linked, nothing,
}

unfoldable pub list_accounts : Moment → String → Db → Response × Db
list_accounts m user_id db = answer (Accounts.list_accounts m user_id db)
  where
    answer : Result (List Account) × Db → Response × Db
    answer (ok l, db') = (record { status = 200; body = accounts l }, db')
    answer (err e, db') = (internal_error "failed to list accounts", db')

-- `text_of` is the text of an error; the second time is the clock's once the store has answered.
unfoldable pub create_account :
    (String → String)
    → (Error → String)
    → Moment
    → ℕ
    → String
    → Input (String × String)
    → Db
    → Response × Db
create_account sum256 text_of m answered user_id (malformed e) db = (invalid_request e, db)
create_account sum256 text_of m answered user_id (given (platform, display_name)) db =
    answer (Accounts.create_account sum256 m user_id platform display_name db)
  where
    answer : Result (Account × String) × Db → Response × Db
    answer (ok (a, enrollment), db') =
        (record { status = 201; body = created a enrollment (answered + 10 * 60 * 10 ^ 9) }, db')
    answer (err e, db') = (invalid_request (text_of e), db')

abbrev pub of_account : {A : Type 0} → String → (A → Response) → Result A → Response
of_account message answer (ok a) = answer a
of_account message answer (err not_found) = write_error 404 "not_found" "account not found"
of_account message answer (err _) = internal_error message

unfoldable pub get_account : Moment → String → String → Db → Response × Db
get_account m user_id account_id db =
    let r = Accounts.get_account m user_id account_id db in
    (of_account "failed to read account" (λ a. record { status = 200; body = account a }) r.0, r.1)

-- The flag says whether the account's worker is disconnected.
unfoldable pub delete_account : Moment → String → String → Db → (Response × Bool) × Db
delete_account m user_id account_id db = answer (Accounts.delete_account m user_id account_id db)
  where
    answer : Result (Unit {0}) × Db → (Response × Bool) × Db
    answer (ok _, db') = ((record { status = 204; body = nothing }, true), db')
    answer (err e, db') = (
      (
        of_account "failed to delete account"
            (λ (_ : Unit {0}). record { status = 204; body = nothing }) (err e),
        false,
      ),
      db',
    )

pub record LinkInput : Type 0 where
  pub action : String
  pub device_name : String
  pub phone_number : String
  pub code : String
  pub password : String

-- What linkAccount asks the worker, with the time it waits.
pub record LinkCommand : Type 0 where
  pub kind : String
  pub payload : Json
  pub timeout : ℕ

abbrev second : ℕ
second = 10 ^ 9

pub data Planned : Type 0 where
  rejected : String → Planned
  asks : LinkCommand → Planned

-- The switch on the action.
unfoldable pub by_action : String → LinkInput → Planned
unfolding marshal_link_start marshal_link_finish
by_action platform x =
    if x.action == "start"
    then asks (record {
      kind = "link.start";
      payload =
          marshal_link_start
            (record { device_name = x.device_name; phone_number = x.phone_number });
      timeout = 30 * second;
    })
    else if x.action == "finish"
    then (if not (platform == "signal")
        then rejected "finish is only used for Signal linking"
        else asks (record {
          kind = "link.finish";
          payload =
              marshal_link_finish
                (record { device_name = x.device_name; code = ""; password = "" });
          timeout = 2 * 60 * second;
        }))
    else if x.action == "submit_code"
    then (if not (platform == "telegram") || trim_space x.code == ""
        then rejected "a Telegram verification code is required"
        else asks (record {
          kind = "link.finish";
          payload = marshal_link_finish (record { device_name = ""; code = x.code; password = "" });
          timeout = 30 * second;
        }))
    else if x.action == "submit_password"
    then (if not (platform == "telegram") || x.password == ""
        then rejected "a Telegram 2FA password is required"
        else asks (record {
          kind = "link.finish";
          payload =
              marshal_link_finish (record { device_name = ""; code = ""; password = x.password });
          timeout = 2 * 60 * second;
        }))
    else rejected "unsupported link action"

unfoldable pub plan_link : String → LinkInput → Planned
unfolding by_action trim_space
plan_link platform x = elim (by_action platform x) [
  | rejected message ↦ rejected message
  | asks c ↦
      if platform == "telegram" && (x.action == "start" && trim_space x.phone_number == "")
      then rejected "phone_number is required to start Telegram linking"
      else asks c
]

abbrev link_answer : Reply → Response
link_answer (reply result) = record { status = 200; body = linked result }
link_answer (refused worker_offline) = write_error 409 "worker_offline" "worker is offline"
link_answer (refused (command_error code message)) = write_error 409 code message
link_answer (refused _) = write_error 504 "worker_timeout" "worker did not complete link command"

-- The second part is what the account's worker was asked.
abbrev link_planned : Reply → Planned → Response × Option LinkCommand
link_planned answer (rejected message) = (invalid_request message, none)
link_planned answer (asks c) = (link_answer answer, some c)

abbrev pub link_found : Reply → Input LinkInput → Result Account → Response × Option LinkCommand
link_found answer (given x) (ok a) = link_planned answer (plan_link a.platform x)
link_found answer (malformed e) (ok a) = (invalid_request e, none)
link_found answer input (err not_found) = (write_error 404 "not_found" "account not found", none)
link_found answer input (err _) = (internal_error "failed to read account", none)

-- linkAccount; `answer` is what the hub answers if it is asked.
unfoldable pub link_account :
    Reply → Moment → String → String → Input LinkInput → Db → (Response × Option LinkCommand) × Db
unfolding plan_link
link_account answer m user_id account_id input db =
    let r = Accounts.get_account m user_id account_id db in (link_found answer input r.0, r.1)
