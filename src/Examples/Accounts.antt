-- ===== src/Examples/Accounts.antt =====
-- Accounts on PostgreSQL: an enrollment, and a deletion.
use say.Base.{
  ◌≤◌, String, ◌≡◌, ◌≢◌, refl, none, some, [], ◌∷◌, ◌==◌, arith, eq_iff, cat, random_value,
}
use say.Database.{ok, err, invalid_token}
use say.Database.Tables.{find, update, select}
use say.Gateway.Account.{WorkerAuth}
use say.Postgres.{AccountRow, PairingToken, Db, delete_messages}
use say.Postgres.Accounts.{
  authenticate_worker, authenticate_found, redeem_enrollment, redeem_body, redeem_found, grant,
  redeem_pairing, insert_credential, activate, pairing, credential_account, delete_account,
  delete_row, is_active, scan_account,
}
use say.Postgres.Accounts.Redemption.{enrollment_redeemed_once}
use say.Postgres.Accounts.Revocation.{delete_account-revokes}
use say.Examples.Sends.{at, account, tables}

abbrev sum256 : String → String
sum256 s = cat "#" s

abbrev second_account : AccountRow
second_account = record account { id = "two"; user_id = "bob" }

abbrev token : PairingToken
token = record {
  id = "enr";
  account_id = "two";
  token_hash = "#say_enroll_07";
  expires_at = 600;
  redeemed_at = none;
  revoked_at = none;
}

-- Two accounts, one of which is to be enrolled.
abbrev unenrolled : Db
unenrolled = record tables { accounts = account ∷ second_account ∷ []; pairing_tokens = token ∷ [] }

abbrev enrolled : WorkerAuth
enrolled = record {
  account = record (scan_account second_account) {
    generation = 1;
    worker_id = "wrk_01";
    status = "offline";
  };
  credential = "say_worker_00";
}

no_credential : find (is_active (sum256 "say_enroll_07")) unenrolled.worker_credentials ≡ none
unfolding find
no_credential = refl

redeems : (authenticate_worker sum256 (at 100) "say_enroll_07" "signal" unenrolled).0 ≡ ok enrolled
unfolding authenticate_worker authenticate_found redeem_enrollment redeem_body redeem_found grant
    redeem_pairing insert_credential activate pairing credential_account random_value find update
redeems = refl

other_hash : ◌≢◌ {A = String} "#say_worker_00" "#say_enroll_07"
other_hash e = ground (arith, (eq_iff "#say_worker_00" "#say_enroll_07").1 e)

enrollment_redeemed_once_example :
    let db = (authenticate_worker sum256 (at 100) "say_enroll_07" "signal" unenrolled).1 in
    (p : PairingToken) × (find
        (λ x. x.token_hash == sum256 "say_enroll_07")
        unenrolled.pairing_tokens
      ≡ some p)
    × (p.redeemed_at ≡ none)
    × (p.revoked_at ≡ none)
    × (100 ≤ p.expires_at)
    × (enrolled.account.platform ≡ "signal")
    × (authenticate_worker sum256 (at 200) "say_enroll_07" "telegram" db ≡ (err invalid_token, db))
    × (authenticate_worker sum256 (at 200) "say_worker_00" "signal" db
        ≡ (ok (record { account = enrolled.account; credential = "" }), db))
enrollment_redeemed_once_example =
    enrollment_redeemed_once sum256 (at 100) (at 200) "say_enroll_07" "signal" "telegram" unenrolled
      enrolled no_credential redeems other_hash (λ n. refl)

deletes : (delete_account (at 90) "ann" "acc" unenrolled).0 ≡ ok tt
unfolding delete_account delete_row find
deletes = refl

authenticates :
    (authenticate_worker sum256
      (at 100)
      "say_enroll_07"
      "signal"
      (delete_account (at 90) "ann" "acc" unenrolled).1).0
    ≡ ok enrolled
unfolding authenticate_worker authenticate_found redeem_enrollment redeem_body redeem_found grant
    redeem_pairing insert_credential activate pairing credential_account random_value find update
    delete_account delete_row delete_messages select
authenticates = refl

delete_account-revokes_example : ◌≢◌ {A = String} "two" "acc"
delete_account-revokes_example =
    delete_account-revokes sum256 (at 90) (at 100) "ann" "acc" "say_enroll_07" "signal" unenrolled
      enrolled deletes authenticates
