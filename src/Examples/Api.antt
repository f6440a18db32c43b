-- ===== src/Examples/Api.antt =====
-- Requests to the HTTP API.
use say.Base.{
  ℕ, ◌≤◌, String, Option, Bool, true, false, ◌≡◌, ◌≢◌, refl, none, some, [], ◌∷◌, ◌==◌, arith,
  eq_iff, All, trim_space,
}
use say.Database.Tables.{find}
use say.Protocol.JsonTree.{obj, field, str, end}
use say.Gateway.Hub.{reply, refused, worker_offline}
use say.Auth.{validate_access_token}
use say.Postgres.{owns_account}
use say.HttpApi.{Input, given}
use say.HttpApi.Users.{allowed, require_user, check_user}
use say.HttpApi.Users.Bearer.{LetIn, require_user-allowed}
use say.HttpApi.Accounts.{LinkInput, link_account, get_account, delete_account}
use say.HttpApi.Listing
use say.HttpApi.Listing.{list_conversations_of, list_messages_of}
use say.HttpApi.Sending
use say.HttpApi.Sending.{send_message}
use say.HttpApi.Sending.Settled.{Distinct}
use say.HttpApi.Sending.Once.{Request, asks, times, send_once}
use say.HttpApi.Outsiders.{
  Refused, IsError, account_outsider-Refused, conversation_outsider-Refused,
}
use say.Examples.Sends.{at, tables, conversation}
use say.Examples.Logins.{config, outside}

abbrev parse_time : String → Option ℕ
parse_time s = some 155

abbrev below : String → String → Bool
below s t = false

abbrev sending : Sending.Run
sending = record {
  prepares = at 100;
  dispatches = at 110;
  settles = at 160;
  answer =
      reply
        (some (obj (field "provider_message_id" (str "p9") (field "sent_at" (str "1970") end))));
}

abbrev offline : Sending.Run
offline = record sending { answer = refused worker_offline }

abbrev request : Sending.Run → Request
request run = record {
  stored = true;
  run = run;
  user_id = "ann";
  conversation_id = "con";
  input = given ("hi", "0123456789abcdef");
}

no_commands : Distinct tables.commands
unfolding Distinct
no_commands = tt

send_once_example :
    times "acc" "0123456789abcdef" (asks parse_time (request offline ∷ request sending ∷ []) tables)
    ≤ 1
send_once_example =
    send_once parse_time "acc" "0123456789abcdef" (request offline ∷ request sending ∷ []) tables
      no_commands

abbrev reading : Listing.Run
reading = record {
  checks = at 100;
  lists = at 110;
  stores = at 120;
  caches = λ n. at 130;
  lists_again = at 140;
  answer = refused worker_offline;
}

abbrev start_link : Input LinkInput
start_link =
    given
      (record { action = "start"; device_name = ""; phone_number = ""; code = ""; password = "" })

foreign_account : owns_account "eve" "acc" tables ≡ false
unfolding owns_account find
foreign_account = refl

account_outsider-Refused_example :
    Refused false tables (list_conversations_of below true reading "eve" "acc" true tables)
    × Refused none tables
        (link_account (refused worker_offline) (at 100) "eve" "acc" start_link tables)
    × Refused false tables (delete_account (at 100) "eve" "acc" tables)
    × IsError (get_account (at 100) "eve" "acc" tables).0
account_outsider-Refused_example =
    account_outsider-Refused "eve" "acc" tables below reading (refused worker_offline) (at 100) true
      true start_link foreign_account

of_account : find (λ c. c.id == "con") tables.conversations ≡ some conversation
unfolding find
of_account = refl

of_ann : All (λ a. a.id ≡ "acc" → a.user_id ≢ "eve") tables.accounts
of_ann = ((λ same e. ground (arith, (eq_iff "ann" "eve").1 e)), tt)

conversation_outsider-Refused_example :
    Refused false tables
      (list_messages_of below parse_time (λ s. s) true reading "eve" "con" true tables)
    × Refused none tables
        (send_message parse_time true sending "eve" "con" (given ("hi", "0123456789abcdef")) tables)
conversation_outsider-Refused_example =
    conversation_outsider-Refused "eve" "con" tables below parse_time (λ s. s) reading sending true
      true (given ("hi", "0123456789abcdef")) conversation of_account of_ann

lets_in : require_user outside (some config) false 200 "Bearer jwt" ≡ allowed "usr_00"
unfolding require_user check_user trim_space validate_access_token
lets_in = refl

require_user-allowed_example : LetIn outside (some config) 200 "Bearer jwt" "usr_00"
require_user-allowed_example =
    require_user-allowed outside (some config) 200 "Bearer jwt" "usr_00" lets_in
