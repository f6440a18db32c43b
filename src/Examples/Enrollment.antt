-- ===== src/Examples/Enrollment.antt =====
-- An account of the in-memory store from its creation to its deletion.
use say.Base.{
  String, ◌≡◌, ◌≢◌, refl, none, some, List, [], ◌∷◌, cat, arith, eq_iff, lookup, put, remove, purge,
  random_value,
}
use say.Gateway.Account.{Account, WorkerAuth, ok, err, invalid_token}
use say.Gateway.Store.{
  Store, new_store, create_account, authenticate_worker, use_enrollment, exchange, new_account,
  enrolled, get_account, list_accounts, set_worker_status, touch_worker, set_worker_identity,
  delete_account, sort_by_created, owned_by, insert_by_created,
}
use say.Gateway.Store.Invariant.{IsValid, Call, create, step, run, run-new_store-IsValid}
use say.Gateway.Store.Tokens.{enrollment_used_once}
use say.Gateway.Store.Fencing.{stale_worker_ignored}

abbrev pub hash : String → String
hash s = cat "#" s

-- An account of user ann under acc_01, with the enrollment token say_enroll_02.
abbrev calls : List Call
calls = create "ann" "signal" "Phone" (some (1 ∷ [])) (some (2 ∷ [])) 100 ∷ []

abbrev pub before : Store
before = run hash new_store calls

abbrev phone : Account
phone = new_account "acc_01" "ann" "signal" "Phone" 100

abbrev pub auth : WorkerAuth
auth = record { account = enrolled "wrk_04" phone; credential = "say_worker_03" }

run-new_store-IsValid_example : IsValid before
run-new_store-IsValid_example = run-new_store-IsValid hash calls

valid : IsValid before
valid = run-new_store-IsValid hash calls

won :
    (authenticate_worker hash "say_enroll_02" "signal" 200 (some (3 ∷ [])) (some (4 ∷ [])) before).0
    ≡ ok auth
unfolding authenticate_worker use_enrollment exchange run step create_account random_value lookup
    put remove
won = refl

pub fresh : lookup (hash "say_enroll_02") before.credentials ≡ none
unfolding run step create_account random_value lookup put remove
fresh = refl

pub other_hash : hash "say_worker_03" ≢ hash "say_enroll_02"
other_hash e = ground (arith, (eq_iff (hash "say_worker_03") (hash "say_enroll_02")).1 e)

abbrev after : Store
after =
    (authenticate_worker hash "say_enroll_02" "signal" 200 (some (3 ∷ [])) (some (4 ∷ [])) before).1

enrollment_used_once_example :
    authenticate_worker hash "say_enroll_02" "signal" 300 (some (5 ∷ [])) (some (6 ∷ [])) after
    ≡ (err invalid_token, after)
enrollment_used_once_example =
    enrollment_used_once hash "say_enroll_02" "signal" 200 (some (3 ∷ [])) (some (4 ∷ [])) before
      auth "signal" 300 (some (5 ∷ [])) (some (6 ∷ [])) fresh won other_hash

known : lookup "acc_01" before.accounts ≡ some phone
unfolding run step create_account random_value lookup put remove
known = refl

stale_worker_ignored_example :
    (set_worker_status "acc_01" 0 "linked" 400 after ≡ after)
    × (touch_worker "acc_01" 0 400 after ≡ after)
    × (set_worker_identity "acc_01" 0 "linked" "+1" 400 after ≡ after)
stale_worker_ignored_example =
    stale_worker_ignored hash "say_enroll_02" "signal" 200 (some (3 ∷ [])) (some (4 ∷ [])) before
      auth phone "linked" "+1" 400 valid fresh won known (omega arith)

-- ann has another account, and bob has one.
abbrev three : List Call
three =
    create "ann" "signal" "Phone" (some (1 ∷ [])) (some (2 ∷ [])) 100
    ∷ create "ann" "telegram" "Desk" (some (5 ∷ [])) (some (6 ∷ [])) 50
    ∷ create "bob" "signal" "Phone" (some (7 ∷ [])) (some (8 ∷ [])) 70
    ∷ []

abbrev busy : Store
busy = run hash new_store three

got : get_account "ann" "acc_01" busy ≡ (ok phone, busy)
unfolding get_account run step create_account random_value lookup put remove
got = refl

abbrev desk : Account
desk = new_account "acc_05" "ann" "telegram" "Desk" 50

listed : list_accounts "ann" busy ≡ (ok (desk ∷ phone ∷ []), busy)
unfolding list_accounts run step create_account random_value lookup put remove sort_by_created
    owned_by insert_by_created
listed = refl

deleted : (delete_account "bob" "acc_07" busy).0 ≡ ok tt
unfolding delete_account run step create_account random_value lookup put remove
deleted = refl

abbrev left : Store
left = (delete_account "bob" "acc_07" busy).1

enrolled_after :
    (authenticate_worker hash "say_enroll_02" "signal" 200 (some (3 ∷ [])) (some (4 ∷ [])) left).0
    ≡ ok auth
unfolding delete_account authenticate_worker use_enrollment exchange run step create_account
    random_value lookup put remove purge
enrolled_after = refl
