-- ===== src/Auth/Admission.antt =====
-- What a login with the right code does, and that a failed call changes nothing but the attempts.
use say.Base.{
  ℕ, String, false, ◌≡◌, ◌≢◌, inl, inr, refl, subst, Option, none, some, List, ◌==◌, eq_iff, arith,
  Bool-cases,
}
use say.Database.{Error, Result, ok, err, invalid_login}
use say.Database.Keeps.{Keeps, keeps_rules, transact_cases, transact-ok}
use say.Database.Yields.{Yields, yields_rules}
use say.Auth.{
  Login, Db, Config, Outside, Moment, TokenPair, verify, verify_body, check_code, admit, sign_in,
  is_spent, consumed, hash_login_code, update_login, issue_token_pair, upsert_user,
  insert_refresh_token, RefreshToken,
}
use say.Auth.Attempts.{login_of, Works, verify_spent, login-update_login}

abbrev HasLogins : List Login → Db → Type 0
HasLogins logins db = db.logins ≡ logins

insert_refresh_token-logins :
    (t : RefreshToken) (logins : List Login) (db : Db) (x : Unit {0}) (db' : Db)
    → HasLogins logins db
    → insert_refresh_token t db ≡ ok (x, db')
    → HasLogins logins db'
unfolding insert_refresh_token
insert_refresh_token-logins t logins db x db' h e = ground arith

upsert_user-logins :
    (id email : String) (logins : List Login) (db : Db) (x : String) (db' : Db)
    → HasLogins logins db
    → upsert_user id email db ≡ ok (x, db')
    → HasLogins logins db'
unfolding upsert_user
upsert_user-logins id email logins db x db' h e = ground arith

module _ (o : Outside) (cfg : Config) where
  issue_token_pair-logins :
      (logins : List Login) (m : Moment) (r n : ℕ) (user_id : String)
      → Keeps (HasLogins logins) (issue_token_pair o cfg m r n user_id)
  unfolding issue_token_pair
  issue_token_pair-logins logins m r n user_id =
      search (keeps_rules, insert_refresh_token-logins) depth 9

  sign_in-logins :
      (logins : List Login) (m : Moment) (email : String)
      → Keeps (HasLogins logins) (sign_in o cfg m email)
  unfolding sign_in
  sign_in-logins logins m email =
      search (keeps_rules, upsert_user-logins, issue_token_pair-logins) depth 9

  -- A login that succeeds found the login, not spent, with the hash of the code, and consumed it.
  pub record Admitted (m : Moment) (login_id code : String) (db db' : Db) : Type 0 where
    pub login : Login
    pub found : login_of o cfg login_id db ≡ some login
    pub live : is_spent m.now login ≡ false
    pub right : login.code_hash ≡ hash_login_code o cfg login_id code
    pub consumes : db'.logins ≡ (update_login login_id (consumed m.db_now) db).1.logins

  admit-logins :
      (m : Moment) (login_id email : String) (db : Db) (r : Result TokenPair)
      → (admit o cfg m login_id email db).0 ≡ ok r
      → (admit o cfg m login_id email db).1.logins
        ≡ (update_login login_id (consumed m.db_now) db).1.logins
  unfolding admit
  admit-logins m login_id email db r h = elim (Bool-cases (m.fails 3)) [
    | inl bad ↦ absurd (ground arith)
    | inr fine ↦
        let db₁ = (update_login login_id (consumed m.db_now) db).1 in
        rw (fine, admit) ((sign_in-logins db₁.logins m email).at db₁ refl)
  ]

  check_code-Admitted :
      (m : Moment) (login_id code : String) (found : Option Login) (db : Db) (pair : TokenPair)
      → login_of o cfg login_id db ≡ found
      → (check_code o cfg m login_id code found db).0 ≡ ok (ok pair)
      → Admitted m login_id code db (check_code o cfg m login_id code found db).1
  unfolding check_code
  check_code-Admitted m login_id code none db pair is h = absurd (ground arith)
  check_code-Admitted m login_id code (some l) db pair is h = elim (Bool-cases (is_spent m.now l)) [
    | inl spent ↦ absurd (ground arith)
    | inr live ↦ elim (Bool-cases (l.code_hash == hash_login_code o cfg login_id code)) [
      | inl right ↦
          let h' : (admit o cfg m login_id l.email db).0 ≡ ok (ok pair) = ground arith in
          rw (live, right, check_code)
            (record {
              login = l;
              found = is;
              live = live;
              right = (eq_iff _ _).0 right;
              consumes = admit-logins m login_id l.email db (ok pair) h';
            })
      | inr wrong ↦ absurd (ground arith)
    ]
  ]

  verify_body-Admitted :
      (m : Moment) (login_id code : String) (db : Db) (pair : TokenPair)
      → (verify_body o cfg m login_id code db).0 ≡ ok (ok pair)
      → Admitted m login_id code db (verify_body o cfg m login_id code db).1
  unfolding verify_body
  verify_body-Admitted m login_id code db pair h = elim (Bool-cases (m.fails 2)) [
    | inl bad ↦ absurd (ground arith)
    | inr fine ↦
        rw (fine, verify_body)
          (check_code-Admitted m login_id code (login_of o cfg login_id db) db pair refl
            (rw (fine, verify_body) at h))
  ]

  verify-Admitted :
      (m : Moment) (login_id code : String) (db : Db) (pair : TokenPair)
      → (verify o cfg m login_id code db).0 ≡ ok pair
      → Admitted m login_id code db (verify o cfg m login_id code db).1
  unfolding verify
  verify-Admitted m login_id code db pair h =
      let t = transact-ok (m.fails 1) (verify_body o cfg m login_id code) db pair h in
      subst (Admitted m login_id code db) t.1 (verify_body-Admitted m login_id code db pair t.0)

  -- A login succeeds only for one that is there, is not spent and has the hash of the given code;
  -- after it, the login's code is refused like any other, at any time, and nothing changes. The
  -- statements of the later call are taken to work.
  pub verify_once :
      (m m' : Moment) (login_id code code' : String) (db : Db) (pair : TokenPair)
      → (verify o cfg m login_id code db).0 ≡ ok pair
      → Works o cfg login_id m'
      → let db' = (verify o cfg m login_id code db).1 in
        (l : Login) × (login_of o cfg login_id db ≡ some l)
        × (is_spent m.now l ≡ false)
        × (l.code_hash ≡ hash_login_code o cfg login_id code)
        × (verify o cfg m' login_id code' db' ≡ (err invalid_login, db'))
  verify_once m m' login_id code code' db pair h works =
      let a = verify-Admitted m login_id code db pair h in
      let db' = (verify o cfg m login_id code db).1 in
      let l' = consumed m.db_now a.login in
      let after =
        login-update_login o cfg login_id (consumed m.db_now) db a.login (λ x. refl) a.found in
      (
        a.login,
        a.found,
        a.live,
        a.right,
        verify_spent o cfg login_id m' code' db' l' works (rw a.consumes after)
            (unfold is_spent in refl),
      )

  abbrev Answers : Result TokenPair → Type 0
  Answers r = (e : Error) → r ≡ err e → e ≡ invalid_login

  pair-Answers : (x : TokenPair × String) → Answers (ok x.0)
  pair-Answers x e h = absurd (ground arith)

  invalid-Answers : Answers (err invalid_login)
  invalid-Answers e h = ground arith

  check_code-Answers :
      (m : Moment) (login_id code : String) (l : Option Login)
      → Yields Answers (check_code o cfg m login_id code l)
  unfolding check_code admit sign_in
  check_code-Answers m login_id code none = search yields_rules
  check_code-Answers m login_id code (some l) =
      search (yields_rules, pair-Answers, invalid-Answers) depth 9

  verify_body-Answers :
      (m : Moment) (login_id code : String) → Yields Answers (verify_body o cfg m login_id code)
  unfolding verify_body
  verify_body-Answers m login_id code = search (yields_rules, check_code-Answers)

  -- A login that fails in any other way than as invalid has changed nothing.
  pub verify_failed :
      (m : Moment) (login_id code : String) (db : Db) (e : Error)
      → (verify o cfg m login_id code db).0 ≡ err e
      → e ≢ invalid_login
      → (verify o cfg m login_id code db).1 ≡ db
  unfolding verify
  verify_failed m login_id code db e h ne =
      elim (transact_cases (m.fails 1) (verify_body o cfg m login_id code) db) [
        | inl same ↦ same
        | inr c ↦ absurd (
            ne (
              (verify_body-Answers m login_id code).at db (verify o cfg m login_id code db).0 c.0 e
                h))
      ]
