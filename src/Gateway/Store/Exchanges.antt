-- ===== src/Gateway/Store/Exchanges.antt =====
-- What a successful enrollment shows of the store before it, and makes of it.
use say.Base.{
  ℕ, ◌≤◌, String, ◌≡◌, Option, none, some, List, ◌==◌, eq_iff, arith, lookup, put, remove,
  Option-cases, Bool-cases, inl, inr, ltb, random_value,
}
use say.Gateway.Account.{Account, WorkerAuth, ok}
use say.Gateway.Store.{Store, authenticate_worker, use_enrollment, exchange, enrolled}

-- The store after the exchange of an enrollment for a credential.
abbrev pub exchanged :
    (String → String) → String → String → Account → String → String → Store → Store
exchanged sum256 token_hash account_id account worker_id credential s = record {
  accounts = put account_id (enrolled worker_id account) s.accounts;
  enrollments = remove token_hash s.enrollments;
  credentials = put (sum256 credential) account.id s.credentials;
}

-- An enrollment that was redeemed at `now` by a worker of the given platform.
pub record Redeemed (sum256 : String → String) (token_hash platform : String) (now : ℕ) (s : Store)
    (auth : WorkerAuth) (s' : Store) : Type 0 where
  pub account_id : String
  pub account : Account
  pub worker_id : String
  pub held : lookup token_hash s.enrollments ≡ some account_id
  pub known : lookup account_id s.accounts ≡ some account
  pub in_time : now ≤ account.enrollment_end
  pub same_platform : account.platform ≡ platform
  pub gives : auth.account ≡ enrolled worker_id account
  pub leaves : s' ≡ exchanged sum256 token_hash account_id account worker_id auth.credential s

module _ (sum256 : String → String) where
  exchange-Redeemed :
      (account_id token_hash platform : String) (account : Account) (now : ℕ)
      (c w : Option (List ℕ)) (s : Store) {auth : WorkerAuth}
      → lookup token_hash s.enrollments ≡ some account_id
      → lookup account_id s.accounts ≡ some account
      → now ≤ account.enrollment_end
      → account.platform ≡ platform
      → (exchange sum256 account_id account token_hash c w s).0 ≡ ok auth
      → Redeemed sum256 token_hash platform now s auth
          (exchange sum256 account_id account token_hash c w s).1
  unfolding exchange
  exchange-Redeemed account_id token_hash platform account now c w s held known in_time same won =
      elim (Option-cases (random_value "say_worker_" c)) [
        | inl e ↦ absurd (ground arith)
        | inr (credential, e) ↦ elim (Option-cases (random_value "wrk_" w)) [
          | inl e' ↦ absurd (ground arith)
          | inr (worker_id, e') ↦ record {
            account_id = account_id;
            account = account;
            worker_id = worker_id;
            held = held;
            known = known;
            in_time = in_time;
            same_platform = same;
            gives = ground arith;
            leaves = ground arith;
          }
        ]
      ]

  use_enrollment-Redeemed :
      (token_hash platform : String) (now : ℕ) (c w : Option (List ℕ)) (s : Store)
      {auth : WorkerAuth}
      → (use_enrollment sum256 token_hash platform now c w s).0 ≡ ok auth
      → Redeemed sum256 token_hash platform now s auth
          (use_enrollment sum256 token_hash platform now c w s).1
  unfolding use_enrollment
  use_enrollment-Redeemed token_hash platform now c w s won =
      elim (Option-cases (lookup token_hash s.enrollments)) [
        | inl e ↦ absurd (ground arith)
        | inr (account_id, held) ↦ elim (Option-cases (lookup account_id s.accounts)) [
          | inl e ↦ absurd (ground arith)
          | inr (account, known) ↦ elim (Bool-cases (ltb account.enrollment_end now)) [
            | inl late ↦ absurd (ground arith)
            | inr in_time ↦ elim (Bool-cases (account.platform == platform)) [
              | inl same ↦
                  rw (held, known, in_time, same, use_enrollment)
                    (exchange-Redeemed account_id token_hash platform account now c w s held known
                      (ground arith) ((eq_iff _ _).0 same) (ground arith))
              | inr other ↦ absurd (ground arith)
            ]
          ]
        ]
      ]

  -- A token that is no credential and that authenticates is an enrollment.
  pub authenticate_worker-Redeemed :
      (token platform : String) (now : ℕ) (c w : Option (List ℕ)) (s : Store) {auth : WorkerAuth}
      → lookup (sum256 token) s.credentials ≡ none
      → (authenticate_worker sum256 token platform now c w s).0 ≡ ok auth
      → Redeemed sum256
          (sum256 token)
          platform
          now
          s
          auth
          (authenticate_worker sum256 token platform now c w s).1
  unfolding authenticate_worker
  authenticate_worker-Redeemed token platform now c w s fresh won =
      rw (fresh, authenticate_worker)
        (use_enrollment-Redeemed (sum256 token) platform now c w s (ground arith))
