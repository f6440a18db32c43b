-- ===== src/Postgres/Accounts/Redemption.antt =====
-- What AuthenticateWorker makes of an enrollment token, and what becomes of the token.
use say.Base.{
  ℕ, ◌+◌, ◌≤◌, String, false, ◌||◌, ◌≡◌, ◌≢◌, inl, inr, refl, subst, none, some, [], ◌∷◌, ◌++◌,
  ◌==◌, eq_iff, eq_refl, arith, is_some, ltb, Bool-cases, Option-cases, random_value,
}
use say.Database.{ok, err, invalid_token}
use say.Database.Tables.{find, update, find-update, find-insert, find-holds, find-weaken}
use say.Database.Keeps.{transact-ok}
use say.Gateway.Account.{WorkerAuth}
use say.Postgres.{AccountRow, PairingToken, WorkerCredential, Db, Moment}
use say.Postgres.Accounts.{
  scan_account, clashes, insert_credential, is_active, credential_account, pairing, redeemed,
  redeem_pairing, activated, activate, enrolled, grant, redeem_found, redeem_body,
  redeem_enrollment, authenticate_found, authenticate_worker,
}

module _ (sum256 : String → String) (m : Moment) where
  abbrev new_credential : String → String → String → WorkerCredential
  new_credential id account_id credential = record {
    id = id;
    account_id = account_id;
    token_hash = sum256 credential;
    revoked_at = none;
  }

  -- The tables after an enrollment was granted.
  abbrev pub granted_db : PairingToken → AccountRow → String → String → String → Db → Db
  granted_db p a credential worker_id credential_id db = record db {
    pairing_tokens = update (λ x. x.id == p.id) (redeemed m.db_now) db.pairing_tokens;
    worker_credentials = db.worker_credentials ++ new_credential credential_id a.id credential ∷ [];
    accounts = update (λ x. x.id == a.id) (activated worker_id) db.accounts;
  }

  pub record Granted (p : PairingToken) (a : AccountRow) (db : Db) (auth : WorkerAuth) (db' : Db)
      : Type 0 where
    pub worker_id : String
    pub credential_id : String
    pub row : AccountRow
    pub stands : find (λ x. x.id == a.id) db.accounts ≡ some row
    pub unused :
        find (clashes (new_credential credential_id a.id auth.credential)) db.worker_credentials
        ≡ none
    pub gives : auth ≡ enrolled (scan_account a) worker_id auth.credential (row.generation + 1)
    pub leaves : db' ≡ granted_db p a auth.credential worker_id credential_id db

  grant-Granted :
      (p : PairingToken) (a : AccountRow) (db : Db) (auth : WorkerAuth)
      → (grant sum256 m p a db).0 ≡ ok (ok auth)
      → Granted p a db auth (grant sum256 m p a db).1
  unfolding grant redeem_pairing insert_credential activate
  grant-Granted p a db auth h = elim (Option-cases (random_value "say_worker_" (m.random 0))) [
    | inl e ↦ absurd (ground arith)
    | inr (credential, r0) ↦ elim (Option-cases (random_value "wrk_" (m.random 1))) [
      | inl e ↦ absurd (ground arith)
      | inr (worker_id, r1) ↦ elim (Option-cases (random_value "wcr_" (m.random 2))) [
        | inl e ↦ absurd (ground arith)
        | inr (credential_id, r2) ↦ elim (Option-cases (find (λ x. x.id == a.id) db.accounts)) [
          | inl e ↦ absurd (ground arith)
          | inr (row, is) ↦
              let same : auth.credential ≡ credential = ground arith in
              record {
                worker_id = worker_id;
                credential_id = credential_id;
                row = row;
                stands = is;
                unused = rw same (ground arith);
                gives = ground arith;
                leaves = ground arith;
              }
        ]
      ]
    ]
  ]

  -- An enrollment that was found good and granted.
  pub record Redeemed (token platform : String) (db : Db) (auth : WorkerAuth) (db' : Db)
      : Type 0 where
    pub token_row : PairingToken
    pub account_row : AccountRow
    pub found : pairing (sum256 token) db ≡ some (token_row, account_row)
    pub unredeemed : token_row.redeemed_at ≡ none
    pub unrevoked : token_row.revoked_at ≡ none
    pub in_time : m.now ≤ token_row.expires_at
    pub same_platform : account_row.platform ≡ platform
    pub granted : Granted token_row account_row db auth db'

  redeem_body-Redeemed :
      (token platform : String) (db : Db) (auth : WorkerAuth)
      → (redeem_body sum256 m (sum256 token) platform db).0 ≡ ok (ok auth)
      → Redeemed token platform db auth (redeem_body sum256 m (sum256 token) platform db).1
  unfolding redeem_body redeem_found
  redeem_body-Redeemed token platform db auth h = elim (Bool-cases (m.fails 3)) [
    | inl bad ↦ absurd (ground arith)
    | inr f3 ↦ elim (Option-cases (pairing (sum256 token) db)) [
      | inl e ↦ absurd (ground arith)
      | inr ((p, a), e) ↦ elim (Bool-cases (is_some p.redeemed_at || is_some p.revoked_at)) [
        | inl used ↦ absurd (ground arith)
        | inr unused ↦ elim (Bool-cases (ltb p.expires_at m.now)) [
          | inl late ↦ absurd (ground arith)
          | inr early ↦ elim (Bool-cases (a.platform == platform)) [
            | inr other ↦ absurd (ground arith)
            | inl same ↦
                rw (f3, e, unused, early, same, redeem_body, redeem_found)
                  (record {
                    token_row = p;
                    account_row = a;
                    found = e;
                    unredeemed = ground arith;
                    unrevoked = ground arith;
                    in_time = ground arith;
                    same_platform = (eq_iff a.platform platform).0 same;
                    granted = grant-Granted p a db auth (ground arith);
                  })
          ]
        ]
      ]
    ]
  ]

  pub authenticate_worker-Redeemed :
      (token platform : String) (db : Db) (auth : WorkerAuth)
      → credential_account (sum256 token) db ≡ none
      → (authenticate_worker sum256 m token platform db).0 ≡ ok auth
      → Redeemed token platform db auth (authenticate_worker sum256 m token platform db).1
  unfolding authenticate_worker authenticate_found redeem_enrollment
  authenticate_worker-Redeemed token platform db auth fresh h = elim (Bool-cases (m.fails 1)) [
    | inl bad ↦ absurd (ground arith)
    | inr f1 ↦
        let body = redeem_body sum256 m (sum256 token) platform in
        let t = transact-ok (m.fails 2) body db auth (rw (f1, fresh, authenticate_worker) at h) in
        rw (f1, fresh, authenticate_worker)
          (subst (Redeemed token platform db auth) t.1
            (redeem_body-Redeemed token platform db auth t.0))
  ]

pub credential_account-none :
    (token_hash : String) (db : Db)
    → find (is_active token_hash) db.worker_credentials ≡ none
    → credential_account token_hash db ≡ none
unfolding credential_account
credential_account-none token_hash db h = ground (arith, h)

-- The rows that a join of a pairing token and its account gives.
pub pairing-rows :
    (token_hash : String) (db : Db) (p : PairingToken) (a : AccountRow)
    → pairing token_hash db ≡ some (p, a)
    → (find (λ x. x.token_hash == token_hash) db.pairing_tokens ≡ some p)
      × (find (λ x. x.id == a.id) db.accounts ≡ some a)
unfolding pairing
pairing-rows token_hash db p a h =
    elim (Option-cases (find (λ x. x.token_hash == token_hash) db.pairing_tokens)) [
      | inl e ↦ absurd (ground arith)
      | inr (q, e) ↦ elim (Option-cases (find (λ x. x.id == q.account_id) db.accounts)) [
        | inl e' ↦ absurd (ground arith)
        | inr (b, e') ↦
            let own = find-holds (λ x. x.id == q.account_id) db.accounts b e' in
            let same_p : q ≡ p = ground arith in
            let same_a : b ≡ a = ground arith in
            let id : q.account_id ≡ a.id = ground (arith, own, same_a, eq_iff b.id q.account_id) in
            (
              rw (← same_p) e,
              subst (λ k. find (λ x. x.id == k) db.accounts ≡ some a) id
                  (subst (λ x. find (λ x. x.id == q.account_id) db.accounts ≡ some x) same_a e'),
            )
      ]
    ]

module _ (sum256 : String → String) (m m' : Moment) where
  -- A spent token: it is no credential, and its pairing was redeemed.
  authenticate_worker-spent :
      (token platform : String) (db : Db) (p : PairingToken) (at : ℕ)
      → ((n : ℕ) → m'.fails n ≡ false)
      → find (is_active (sum256 token)) db.worker_credentials ≡ none
      → find (λ x. x.token_hash == sum256 token) db.pairing_tokens ≡ some p
      → p.redeemed_at ≡ some at
      → authenticate_worker sum256 m' token platform db ≡ (err invalid_token, db)
  unfolding authenticate_worker authenticate_found credential_account redeem_enrollment redeem_body
      redeem_found pairing
  authenticate_worker-spent token platform db p at works fresh found spent =
      elim (Option-cases (find (λ a. a.id == p.account_id) db.accounts)) [
        | inl e ↦ ground (arith, works 1, works 2, works 3, fresh, found, e)
        | inr (a, e) ↦ ground (arith, works 1, works 2, works 3, fresh, found, e, spent)
      ]

  authenticate_worker-active :
      (token platform : String) (db : Db) (w : WorkerCredential) (a : AccountRow)
      → m'.fails 1 ≡ false
      → find (is_active (sum256 token)) db.worker_credentials ≡ some w
      → find (λ x. x.id == w.account_id) db.accounts ≡ some a
      → a.platform ≡ platform
      → authenticate_worker sum256 m' token platform db
        ≡ (ok (record { account = scan_account a; credential = "" }), db)
  unfolding authenticate_worker authenticate_found credential_account
  authenticate_worker-active token platform db w a works found stands same =
      ground (arith, works, found, stands, same, eq_iff a.platform platform)

  -- An enrollment token that is no active credential and that authenticates stands unredeemed,
  -- unrevoked and in time, for an account of that platform. Afterwards it is refused as invalid for
  -- every platform, while the credential that it gave authenticates the same account; neither
  -- changes anything. The hash of the new credential is taken to be another than the token's, and
  -- the statements of the later calls to work.
  pub enrollment_redeemed_once :
      (token platform platform' : String) (db : Db) (auth : WorkerAuth)
      → find (is_active (sum256 token)) db.worker_credentials ≡ none
      → (authenticate_worker sum256 m token platform db).0 ≡ ok auth
      → sum256 auth.credential ≢ sum256 token
      → ((n : ℕ) → m'.fails n ≡ false)
      → let db' = (authenticate_worker sum256 m token platform db).1 in
        (p : PairingToken) × (find (λ x. x.token_hash == sum256 token) db.pairing_tokens ≡ some p)
        × (p.redeemed_at ≡ none)
        × (p.revoked_at ≡ none)
        × (m.now ≤ p.expires_at)
        × (auth.account.platform ≡ platform)
        × (authenticate_worker sum256 m' token platform' db' ≡ (err invalid_token, db'))
        × (authenticate_worker sum256 m' auth.credential platform db'
            ≡ (ok (record { account = auth.account; credential = "" }), db'))
  enrollment_redeemed_once token platform platform' db auth fresh won differs works =
      let r =
        authenticate_worker-Redeemed sum256 m token platform db auth
          (credential_account-none (sum256 token) db fresh) won in
      let g = r.granted in
      let db' = (authenticate_worker sum256 m token platform db).1 in
      let (p_row, a_row) = pairing-rows (sum256 token) db r.token_row r.account_row r.found in
      let same : g.row ≡ r.account_row = ground (arith, g.stands, a_row) in
      let new = new_credential sum256 m g.credential_id r.account_row.id auth.credential in
      let of_token = is_active (sum256 token) in
      let of_new = is_active (sum256 auth.credential) in
      let with_hash = λ (x : PairingToken). x.token_hash == sum256 token in
      let unused =
        find-weaken (clashes new) of_new db.worker_credentials (λ x e. ground arith) g.unused in
      (
        r.token_row,
        p_row,
        r.unredeemed,
        r.unrevoked,
        r.in_time,
        ground (arith, g.gives, r.same_platform),
        authenticate_worker-spent token platform' db' (redeemed m.db_now r.token_row) m.db_now works
            (ground (
              arith,
              g.leaves,
              fresh,
              find-insert of_token new db.worker_credentials,
              eq_iff (sum256 auth.credential) (sum256 token),
            ))
            (ground (
              arith,
              g.leaves,
              p_row,
              find-update with_hash (λ x. x.id == r.token_row.id) (redeemed m.db_now)
                  db.pairing_tokens (λ x. refl),
              eq_refl r.token_row.id,
            ))
            refl,
        ground (
          arith,
          g.gives,
          authenticate_worker-active auth.credential platform db' new
              (activated g.worker_id r.account_row) (works 1)
              (ground (
                arith,
                g.leaves,
                unused,
                find-insert of_new new db.worker_credentials,
                eq_refl (sum256 auth.credential),
              ))
              (ground (
                arith,
                g.leaves,
                a_row,
                find-update (λ x. x.id == r.account_row.id) (λ x. x.id == r.account_row.id)
                    (activated g.worker_id) db.accounts (λ x. refl),
                eq_refl r.account_row.id,
              ))
              r.same_platform,
          same,
        ),
      )
