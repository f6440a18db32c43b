-- ===== src/Gateway/Store/Tokens.antt =====
-- What the tokens of the in-memory store are good for.
use say.Base.{
  ℕ, String, true, ◌≡◌, ◌≢◌, Option, none, List, ◌==◌, eq_iff, eq_refl, arith, lookup, lookup-put,
  lookup-remove, Option-cases, Bool-cases, inl, inr, is_some,
}
use say.Gateway.Account.{WorkerAuth, ok, err, invalid_token}
use say.Gateway.Store.{
  Store, delete_account, authenticate_worker, use_credential, use_enrollment, enrolled,
}
use say.Gateway.Store.Exchanges.{authenticate_worker-Redeemed}
use say.Gateway.Store.Invariant.{IsValid, delete_account-IsValid}

module _ (sum256 : String → String) (token platform : String) (now : ℕ) (c w : Option (List ℕ))
    (s : Store) (auth : WorkerAuth) where
  -- A token that is no stored credential and that authenticates is refused as invalid from then on,
  -- whatever platform, time and random bytes come with it, and that changes nothing, if the hash
  -- of the new credential is another than the token's.
  pub enrollment_used_once :
      (platform' : String) (now' : ℕ) (c' w' : Option (List ℕ))
      → lookup (sum256 token) s.credentials ≡ none
      → (authenticate_worker sum256 token platform now c w s).0 ≡ ok auth
      → sum256 auth.credential ≢ sum256 token
      → let s' = (authenticate_worker sum256 token platform now c w s).1 in
        authenticate_worker sum256 token platform' now' c' w' s' ≡ (err invalid_token, s')
  unfolding authenticate_worker use_enrollment
  enrollment_used_once platform' now' c' w' fresh won differs =
      let r = authenticate_worker-Redeemed sum256 token platform now c w s fresh won in
      ground (
        arith,
        r.leaves,
        eq_iff (sum256 auth.credential) (sum256 token),
        lookup-put (sum256 auth.credential) (sum256 token) r.account.id s.credentials,
        lookup-remove (sum256 token) (sum256 token) s.enrollments,
        eq_refl (sum256 token),
      )

  -- In a valid store, the credential that a redeemed enrollment gave authenticates the same account
  -- on the same platform, at any later time, gives no new credential and changes nothing.
  pub credential_admits :
      (now' : ℕ) (c' w' : Option (List ℕ))
      → IsValid s
      → lookup (sum256 token) s.credentials ≡ none
      → (authenticate_worker sum256 token platform now c w s).0 ≡ ok auth
      → let s' = (authenticate_worker sum256 token platform now c w s).1 in
        authenticate_worker sum256 auth.credential platform now' c' w' s'
        ≡ (ok (record { account = auth.account; credential = "" }), s')
  unfolding authenticate_worker use_credential
  credential_admits now' c' w' v fresh won =
      let r = authenticate_worker-Redeemed sum256 token platform now c w s fresh won in
      let a = enrolled r.worker_id r.account in
      ground (
        arith,
        r.leaves,
        r.gives,
        r.same_platform,
        v.keyed r.account_id r.account r.known,
        lookup-put (sum256 auth.credential) (sum256 auth.credential) r.account.id s.credentials,
        lookup-put r.account_id r.account.id a s.accounts,
        eq_refl (sum256 auth.credential),
        eq_iff r.account_id r.account.id,
        eq_iff r.account.platform platform,
      )

  authenticate_worker-known :
      IsValid s
      → (authenticate_worker sum256 token platform now c w s).0 ≡ ok auth
      → is_some (lookup auth.account.id s.accounts) ≡ true
  unfolding authenticate_worker use_credential
  authenticate_worker-known v won = elim (Option-cases (lookup (sum256 token) s.credentials)) [
    | inl fresh ↦
        let r = authenticate_worker-Redeemed sum256 token platform now c w s fresh won in
        ground (arith, r.gives, v.keyed r.account_id r.account r.known, r.known)
    | inr (account_id, e) ↦ elim (Option-cases (lookup account_id s.accounts)) [
      | inl e' ↦ absurd (ground arith)
      | inr (account, e') ↦ elim (Bool-cases (account.platform == platform)) [
        | inl same ↦ ground (arith, v.keyed account_id account e')
        | inr other ↦ absurd (ground arith)
      ]
    ]
  ]

-- Once an account is deleted from a valid store, no token authenticates as it, whatever it was.
pub delete_account_revokes :
    (sum256 : String → String) (user_id account_id token platform : String) (now : ℕ)
    (c w : Option (List ℕ)) (s : Store) (auth : WorkerAuth)
    → IsValid s
    → (delete_account user_id account_id s).0 ≡ ok tt
    → (authenticate_worker sum256 token platform now c w (delete_account user_id account_id s).1).0
      ≡ ok auth
    → auth.account.id ≢ account_id
unfolding delete_account
delete_account_revokes sum256 user_id account_id token platform now c w s auth v gone won same =
    let s' = (delete_account user_id account_id s).1 in
    let there =
      authenticate_worker-known sum256 token platform now c w s' auth
        (delete_account-IsValid user_id account_id s v) won in
    ground (
      arith,
      there,
      lookup-remove account_id auth.account.id s.accounts,
      eq_iff account_id auth.account.id,
    )
