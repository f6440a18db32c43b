-- ===== src/Gateway/Store/Fencing.antt =====
-- The generation of an account fences off the workers that came before its last enrollment.
use say.Base.{
  ℕ, String, ◌≡◌, Option, none, some, List, arith, lookup, lookup-put, eq_iff, eq_refl, ◌<◌, ◌^◌,
}
use say.Gateway.Account.{Account, WorkerAuth, ok}
use say.Gateway.Store.{
  Store, authenticate_worker, set_worker_status, touch_worker, set_worker_identity, enrolled,
  get_account,
}
use say.Gateway.Store.Exchanges.{authenticate_worker-Redeemed}
use say.Gateway.Store.Invariant.{IsValid}

-- After an enrollment is redeemed in a valid store, what a worker of the generation that the
-- account had before reports changes nothing: not a status, nor that it was seen, nor an identity.
-- The generation before is taken to be below 2^64.
pub stale_worker_ignored :
    (sum256 : String → String) (token platform : String) (now : ℕ) (c w : Option (List ℕ))
    (s : Store) (auth : WorkerAuth) (before : Account) (status external_id : String) (later : ℕ)
    → IsValid s
    → lookup (sum256 token) s.credentials ≡ none
    → (authenticate_worker sum256 token platform now c w s).0 ≡ ok auth
    → lookup auth.account.id s.accounts ≡ some before
    → before.generation < 2 ^ 64
    → let s' = (authenticate_worker sum256 token platform now c w s).1 in
      (set_worker_status auth.account.id before.generation status later s' ≡ s')
      × (touch_worker auth.account.id before.generation later s' ≡ s')
      × (set_worker_identity auth.account.id before.generation status external_id later s' ≡ s')
unfolding set_worker_status touch_worker set_worker_identity
stale_worker_ignored sum256 token platform now c w s auth before status external_id later v fresh
      won known small =
    let r = authenticate_worker-Redeemed sum256 token platform now c w s fresh won in
    let a = enrolled r.worker_id r.account in
    ground (
      arith,
      r.leaves,
      r.gives,
      r.known,
      v.keyed r.account_id r.account r.known,
      lookup-put r.account_id r.account.id a s.accounts,
      eq_iff r.account_id r.account.id,
    )

-- A report of the account's own generation reaches every reader: its owner then sees the status,
-- the external id and the time of the report, and the account is otherwise as it was.
pub get_account-set_worker_identity :
    (user_id account_id status external_id : String) (now : ℕ) (s : Store) (a : Account)
    → get_account user_id account_id s ≡ (ok a, s)
    → (get_account user_id account_id
        (set_worker_identity account_id a.generation status external_id now s)).0
      ≡ ok (record a { status = status; external_id = external_id; last_seen_at = some now })
unfolding get_account set_worker_identity
get_account-set_worker_identity user_id account_id status external_id now s a seen =
    let a' = record a { status = status; external_id = external_id; last_seen_at = some now } in
    ground (arith, lookup-put account_id account_id a' s.accounts, eq_refl account_id)
