-- ===== src/Auth/Attempts.antt =====
-- How often a login code may be tried, and that a login is used once.
use say.Base.{
  ℕ, ◌+◌, ◌≤◌, String, Bool, true, false, ◌||◌, All, All-mono, length, ◌≡◌, ◌≢◌, ◌⊎◌, inl, refl,
  Option, some, List, [], ◌∷◌, ◌==◌, eq_iff, arith, if◌then◌else◌, is_some, leb,
}
use say.Database.{err, invalid_login}
use say.Database.Tables.{find, find-update, find-holds}
use say.Auth.{
  Login, Db, Config, Outside, Moment, verify, is_spent, missed, hash_login_code, update_login,
}

module _ (o : Outside) (cfg : Config) (login_id : String) where
  abbrev pub login_of : Db → Option Login
  login_of db = find (λ l. l.id == login_id) db.logins

  -- No statement fails.
  abbrev pub Works : Moment → Type 0
  Works m = (n : ℕ) → m.fails n ≡ false

  -- A login that is spent is refused at every code and at any later time, and nothing changes.
  pub verify_spent :
      (m : Moment) (code : String) (db : Db) (l : Login)
      → Works m
      → login_of db ≡ some l
      → is_spent m.now l ≡ true
      → verify o cfg m login_id code db ≡ (err invalid_login, db)
  unfolding verify
  verify_spent m code db l works is spent = ground (arith, works 1, works 2)

  abbrev pub is_locked : Login → Bool
  is_locked l = is_some l.consumed_at || leb 5 l.attempts

  -- The login after a wrong code at a time when it has not expired.
  abbrev after_miss : ℕ → Login → Login
  after_miss at l = if is_locked l then l else missed at l

  pub login-update_login :
      (f : Login → Login) (db : Db) (l : Login)
      → ((x : Login) → (f x).id ≡ x.id)
      → login_of db ≡ some l
      → login_of (update_login login_id f db).1 ≡ some (f l)
  unfolding update_login
  login-update_login f db l same is =
      let law =
        find-update (λ x. x.id == login_id) (λ x. x.id == login_id) f db.logins
          (λ x. rw (same x)) in
      let own = find-holds (λ x. x.id == login_id) db.logins l is in ground (arith, law, own, is)

  -- A wrong code is answered like a login that is not there, and counted.
  verify_wrong :
      (m : Moment) (code : String) (db : Db) (l : Login)
      → Works m
      → login_of db ≡ some l
      → l.code_hash ≢ hash_login_code o cfg login_id code
      → m.now ≤ l.expires_at
      → (verify o cfg m login_id code db).0 ≡ err invalid_login
        × (login_of (verify o cfg m login_id code db).1 ≡ some (after_miss m.db_now l))
  unfolding verify
  verify_wrong m code db l works is wrong early =
      let counted = login-update_login (missed m.db_now) db l (λ x. refl) is in
      (
        ground (
          arith,
          works 1,
          works 2,
          works 3,
          works 4,
          eq_iff l.code_hash (hash_login_code o cfg login_id code),
        ),
        ground (
          arith,
          works 1,
          works 2,
          works 3,
          works 4,
          eq_iff l.code_hash (hash_login_code o cfg login_id code),
          counted,
        ),
      )

  -- Calls of verify, one after the other, each with what it meets and its code.
  abbrev pub try_all : List (Moment × String) → Db → Db
  try_all [] db = db
  try_all ((m, code) ∷ rest) db = try_all rest (verify o cfg m login_id code db).1

  -- A call whose statements work, with a wrong code for the login, before the login expires.
  abbrev pub Misses : Login → Moment × String → Type 0
  Misses l (m, code) =
      Works m × (l.code_hash ≢ hash_login_code o cfg login_id code) × (m.now ≤ l.expires_at)

  Misses-after :
      (l : Login) (at : ℕ) (t : Moment × String) → Misses l t → Misses (after_miss at l) t
  Misses-after l at (m, code) h = (h.0, λ z. h.1 (ground (arith, z)), ground (arith, h.2))

  tries_lock :
      (tries : List (Moment × String)) (db : Db) (l : Login)
      → login_of db ≡ some l
      → All (Misses l) tries
      → (5 ≤ l.attempts + length tries) ⊎ (is_locked l ≡ true)
      → (l' : Login) × (login_of (try_all tries db) ≡ some l') × (is_locked l' ≡ true)
  tries_lock [] db l is wrong enough = (l, is, ground arith)
  tries_lock ((m, code) ∷ rest) db l is wrong enough =
      let (works, differs, early) = wrong.0 in
      let step = verify_wrong m code db l works is differs early in
      tries_lock rest (verify o cfg m login_id code db).1 (after_miss m.db_now l) step.1
        (All-mono (Misses l) (Misses (after_miss m.db_now l)) rest (Misses-after l m.db_now)
          wrong.1)
        (ground arith)

  -- Once five or more attempts at a login have missed, counting those that it had before, its code
  -- is refused like any other, at any time, and nothing changes. The calls' statements are taken
  -- to work, and the attempts to be made before the login expires.
  pub verify_locked :
      (tries : List (Moment × String)) (m : Moment) (code : String) (db : Db) (l : Login)
      → login_of db ≡ some l
      → All (Misses l) tries
      → 5 ≤ l.attempts + length tries
      → Works m
      → verify o cfg m login_id code (try_all tries db) ≡ (err invalid_login, try_all tries db)
  verify_locked tries m code db l is wrong enough works =
      let (l', is', locked) = tries_lock tries db l is wrong (inl enough) in
      verify_spent m code (try_all tries db) l' works is'
        (unfold is_spent in ground (arith, locked))
