-- ===== src/Postgres/Accounts/Revocation.antt =====
-- What a deleted account leaves, and what a failed call does.
use say.Base.{
  String, Bool, true, not, ◌≡◌, ◌≢◌, inl, inr, sym, subst, none, some, List, ◌==◌, eq_iff, arith,
  is_some, Option-cases,
}
use say.Database.{ok}
use say.Database.Tables.{find, select, find-holds, find-select-none}
use say.Gateway.Account.{WorkerAuth}
use say.Postgres.{AccountRow, Db, Moment, delete_messages}
use say.Postgres.Accounts.{
  delete_account, delete_row, is_active, credential_account, is_on, authenticate_worker,
  authenticate_found,
}
use say.Postgres.Accounts.Redemption.{authenticate_worker-Redeemed, pairing-rows}

-- Nothing of the account is in the tables.
pub record IsGone (id : String) (db : Db) : Type 0 where
  pub account : find (λ a. a.id == id) db.accounts ≡ none
  pub pairing : find (λ p. p.account_id == id) db.pairing_tokens ≡ none
  pub credential : find (λ w. w.account_id == id) db.worker_credentials ≡ none
  pub conversation : find (λ c. c.account_id == id) db.conversations ≡ none
  pub command : find (λ c. c.account_id == id) db.commands ≡ none

gone : {R : Type 0} (q : R → Bool) (rs : List R) → find q (select (λ r. not (q r)) rs) ≡ none
gone q rs = find-select-none q (λ r. not (q r)) rs (λ r h. ground (arith, h))

-- A user who deletes an account takes with it all that hangs on it: its tokens, credentials,
-- conversations and commands are gone.
pub delete_account-IsGone :
    (m : Moment) (user_id id : String) (db : Db)
    → (delete_account m user_id id db).0 ≡ ok tt
    → IsGone id (delete_account m user_id id db).1
unfolding delete_account delete_row delete_messages
delete_account-IsGone m user_id id db h = record {
  account = ground (arith, gone (λ a. a.id == id) db.accounts);
  pairing = ground (arith, gone (λ p. p.account_id == id) db.pairing_tokens);
  credential = ground (arith, gone (λ w. w.account_id == id) db.worker_credentials);
  conversation = ground (arith, gone (λ c. c.account_id == id) db.conversations);
  command =
      ground (arith, gone (λ c. c.account_id == id) (delete_messages (is_on id db) db).1.commands);
}

credential_account-row :
    (token_hash : String) (db : Db) (a : AccountRow)
    → credential_account token_hash db ≡ some a
    → find (λ x. x.id == a.id) db.accounts ≡ some a
unfolding credential_account
credential_account-row token_hash db a e =
    elim (Option-cases (find (is_active token_hash) db.worker_credentials)) [
      | inl n ↦ absurd (ground arith)
      | inr (w, f) ↦
          let at : find (λ x. x.id == w.account_id) db.accounts ≡ some a = ground arith in
          let own : a.id ≡ w.account_id =
            (eq_iff _ _).0 (find-holds (λ x. x.id == w.account_id) db.accounts a at) in
          subst (λ k. find (λ x. x.id == k) db.accounts ≡ some a) (sym own) at
    ]

-- Who authenticates has a row.
authenticate_worker-known :
    (sum256 : String → String) (m : Moment) (token platform : String) (db : Db) (auth : WorkerAuth)
    → (authenticate_worker sum256 m token platform db).0 ≡ ok auth
    → is_some (find (λ a. a.id == auth.account.id) db.accounts) ≡ true
unfolding authenticate_worker authenticate_found
authenticate_worker-known sum256 m token platform db auth won =
    elim (Option-cases (credential_account (sum256 token) db)) [
      | inl fresh ↦
          let r = authenticate_worker-Redeemed sum256 m token platform db auth fresh won in
          let rows = pairing-rows (sum256 token) db r.token_row r.account_row r.found in
          ground (arith, r.granted.gives, rows.1)
      | inr (a, e) ↦
          let stands = credential_account-row (sum256 token) db a e in ground (arith, stands)
    ]

-- Once an account is deleted, no token authenticates as it, on any platform and at any time.
pub delete_account-revokes :
    (sum256 : String → String) (m m' : Moment) (user_id id token platform : String) (db : Db)
    (auth : WorkerAuth)
    → (delete_account m user_id id db).0 ≡ ok tt
    → (authenticate_worker sum256 m' token platform (delete_account m user_id id db).1).0 ≡ ok auth
    → auth.account.id ≢ id
delete_account-revokes sum256 m m' user_id id token platform db auth deleted won same =
    let db' = (delete_account m user_id id db).1 in
    let g = delete_account-IsGone m user_id id db deleted in
    ground (arith, authenticate_worker-known sum256 m' token platform db' auth won, g.account, same)
