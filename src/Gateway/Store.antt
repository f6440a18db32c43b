-- ===== src/Gateway/Store.antt =====
-- internal/gateway/store.go: the in-memory account store. Each method runs under the store's lock,
-- so it is one step on the state. The clock and the random bytes are arguments.
pub mod Invariant
pub mod Exchanges
pub mod Tokens
pub mod Fencing
pub mod Listing
use say.Base.{
  ℕ, ◌+◌, ◌*◌, ◌%◌, ◌^◌, String, Bool, not, ◌&&◌, ◌||◌, Option, none, some, List, [], ◌∷◌, map,
  ◌==◌, ltb, eqb, if◌then◌else◌, Map, lookup, remove, put, purge, random_value,
}
use say.Gateway.Account.{
  Account, WorkerAuth, Error, Result, ok, err, not_found, invalid_token, expired_token,
  platform_mismatch, unknown_platform, random_failed,
}

pub record Store : Type 0 where
  pub accounts : Map Account
  pub enrollments : Map String
  pub credentials : Map String

abbrev pub new_store : Store
new_store = record { accounts = []; enrollments = []; credentials = [] }

abbrev pub enrollment_lifetime : ℕ
enrollment_lifetime = 10 * 60 * 10 ^ 9

abbrev pub new_account : String → String → String → String → ℕ → Account
new_account id user_id platform display_name now = record {
  id = id;
  user_id = user_id;
  platform = platform;
  external_id = "";
  display_name = display_name;
  status = "unlinked";
  hosting_mode = "self_hosted";
  worker_id = "";
  generation = 0;
  last_seen_at = none;
  created_at = now;
  enrollment_end = now + enrollment_lifetime;
}

-- The accounts that sort.Slice puts in the order of their creation.
unfoldable pub insert_by_created : Account → List Account → List Account
insert_by_created a [] = a ∷ []
insert_by_created a (b ∷ bs) =
    let rest = insert_by_created a bs in
    if ltb b.created_at a.created_at then b ∷ rest else a ∷ b ∷ bs

unfoldable pub sort_by_created : List Account → List Account
unfolding insert_by_created
sort_by_created [] = []
sort_by_created (a ∷ rest) = insert_by_created a (sort_by_created rest)

-- `for _, account := range s.accounts { if account.UserID == userID { append } }`
unfoldable pub owned_by : String → Map Account → List Account
owned_by user_id [] = []
owned_by user_id ((k, a) ∷ m) =
    let rest = owned_by user_id m in if a.user_id == user_id then a ∷ rest else rest

unfoldable pub list_accounts : String → Store → Result (List Account) × Store
unfolding sort_by_created owned_by
list_accounts user_id s = (ok (sort_by_created (owned_by user_id s.accounts)), s)

unfoldable pub get_account : String → String → Store → Result Account × Store
get_account user_id account_id s = elim (lookup account_id s.accounts) [
  | none ↦ (err not_found, s)
  | some account ↦ if not (account.user_id == user_id) then (err not_found, s) else (ok account, s)
]

unfoldable pub delete_account : String → String → Store → Result (Unit {0}) × Store
delete_account user_id account_id s = elim (lookup account_id s.accounts) [
  | none ↦ (err not_found, s)
  | some account ↦ if not (account.user_id == user_id) then (err not_found, s) else (
    ok tt,
    record {
      accounts = remove account_id s.accounts;
      enrollments = purge (λ id. id == account_id) s.enrollments;
      credentials = purge (λ id. id == account_id) s.credentials;
    },
  )
]

-- Updates of an account that are made only for the generation of the caller's worker.
unfoldable pub update_generation : String → ℕ → (Account → Account) → Store → Store
update_generation account_id generation f s = elim (lookup account_id s.accounts) [
  | none ↦ s
  | some account ↦
      if not (eqb account.generation generation)
      then s
      else record s { accounts = put account_id (f account) s.accounts }
]

unfoldable pub set_worker_status : String → ℕ → String → ℕ → Store → Store
unfolding update_generation
set_worker_status account_id generation status now =
    update_generation account_id generation
      (λ a. record a { status = status; last_seen_at = some now })

unfoldable pub touch_worker : String → ℕ → ℕ → Store → Store
unfolding update_generation
touch_worker account_id generation now =
    update_generation account_id generation (λ a. record a { last_seen_at = some now })

unfoldable pub set_worker_identity : String → ℕ → String → String → ℕ → Store → Store
unfolding update_generation
set_worker_identity account_id generation status external_id now =
    update_generation account_id generation
      λ a. record a { status = status; external_id = external_id; last_seen_at = some now }

-- The account as an enrolled worker leaves it; the generation wraps as a uint64.
abbrev pub enrolled : String → Account → Account
enrolled worker_id a = record a {
  worker_id = worker_id;
  generation = (a.generation + 1) % 2 ^ 64;
  status = "offline";
  enrollment_end = 0;
}

-- A stored credential: the store is only read.
unfoldable pub use_credential : String → Option Account → Result WorkerAuth
use_credential platform none = err invalid_token
use_credential platform (some account) =
    if not (account.platform == platform)
    then err platform_mismatch
    else ok (record { account = account; credential = "" })

-- `sum256` is SHA-256.
module _ (sum256 : String → String) where
  unfoldable pub create_account :
      String
      → String
      → String
      → Option (List ℕ)
      → Option (List ℕ)
      → ℕ
      → Store
      → Result (Account × String) × Store
  create_account user_id platform display_name id_bytes token_bytes now s =
      if not (platform == "signal") && not (platform == "telegram")
      then (err unknown_platform, s)
      else elim (random_value "acc_" id_bytes) [
        | none ↦ (err random_failed, s)
        | some account_id ↦ elim (random_value "say_enroll_" token_bytes) [
          | none ↦ (err random_failed, s)
          | some enrollment ↦
              let account = new_account account_id user_id platform display_name now in
              (
                ok (account, enrollment),
                record s {
                  accounts = put account.id account s.accounts;
                  enrollments = put (sum256 enrollment) account.id s.enrollments;
                },
              )
        ]
      ]

  -- The last part of AuthenticateWorker: the enrollment is valid, and is exchanged for a credential.
  unfoldable pub exchange :
      String
      → Account
      → String
      → Option (List ℕ)
      → Option (List ℕ)
      → Store
      → Result WorkerAuth × Store
  exchange account_id account token_hash credential_bytes worker_bytes s =
      elim (random_value "say_worker_" credential_bytes) [
        | none ↦ (err random_failed, s)
        | some credential ↦ elim (random_value "wrk_" worker_bytes) [
          | none ↦ (err random_failed, s)
          | some worker_id ↦
              let account' = enrolled worker_id account in
              (
                ok (record { account = account'; credential = credential }),
                record {
                  accounts = put account_id account' s.accounts;
                  enrollments = remove token_hash s.enrollments;
                  credentials = put (sum256 credential) account.id s.credentials;
                },
              )
        ]
      ]

  -- A token that is no credential.
  unfoldable pub use_enrollment :
      String → String → ℕ → Option (List ℕ) → Option (List ℕ) → Store → Result WorkerAuth × Store
  unfolding exchange
  use_enrollment token_hash platform now credential_bytes worker_bytes s =
      elim (lookup token_hash s.enrollments) [
        | none ↦ (err invalid_token, s)
        | some account_id ↦ elim (lookup account_id s.accounts) [
          | none ↦ (err invalid_token, record s { enrollments = remove token_hash s.enrollments })
          | some account ↦
              if ltb account.enrollment_end now
              then (err expired_token, record s { enrollments = remove token_hash s.enrollments })
              else if not (account.platform == platform)
              then (err platform_mismatch, s)
              else exchange account_id account token_hash credential_bytes worker_bytes s
        ]
      ]

  unfoldable pub authenticate_worker :
      String → String → ℕ → Option (List ℕ) → Option (List ℕ) → Store → Result WorkerAuth × Store
  unfolding use_credential use_enrollment
  authenticate_worker token platform now credential_bytes worker_bytes s =
      let token_hash = sum256 token in
      elim (lookup token_hash s.credentials) [
        | some account_id ↦ (use_credential platform (lookup account_id s.accounts), s)
        | none ↦ use_enrollment token_hash platform now credential_bytes worker_bytes s
      ]
