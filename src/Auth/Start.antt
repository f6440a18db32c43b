-- ===== src/Auth/Start.antt =====
-- Start of internal/auth/service.go: a login is stored, and its code delivered.
use Prim.Native.Nat.{◌/◌}
use Prim.Native.String.{slice}
use say.Base.{
  ℕ, suc, ◌+◌, ◌%◌, String, len, Bool, false, not, ◌≡◌, inl, inr, refl, ◌&&◌, ◌||◌, Option, none,
  some, [], ◌∷◌, ◌++◌, ◌==◌, ltb, if◌then◌else◌, is_some, cat, trim_space, random_value, arith,
  eq_refl, Option-cases,
}
use say.Database.{
  Result, ok, err, storage, random_failed, delivery_unavailable, delivery_failed, invalid_email,
}
use say.Database.Tables.{find, find-insert}
use say.Auth.{Login, Db, Config, Outside, Moment, LoginStart, hash_login_code}

-- normalizeEmail
unfoldable pub normalize_email : Outside → String → Result String
unfolding trim_space
normalize_email o raw =
    let trimmed = trim_space raw in
    elim (o.parse_address trimmed) [
      | none ↦ err invalid_email
      | some address ↦
          if not (address == trimmed) || ltb 320 (len trimmed)
          then err invalid_email
          else ok (o.to_lower address)
    ]

abbrev digit : ℕ → String
digit n = slice "0123456789" n (suc n)

-- fmt.Sprintf("%06d", value), for a value below a million
unfoldable pub login_code : ℕ → String
login_code v = cat (digit (v / 100000 % 10)) (
    cat (digit (v / 10000 % 10)) (
      cat (digit (v / 1000 % 10))
        (cat (digit (v / 100 % 10)) (cat (digit (v / 10 % 10)) (digit (v % 10))))))

-- INSERT INTO auth_logins, with its primary key
unfoldable pub insert_login : Login → Db → Result (Unit {0} × Db)
insert_login l db =
    if is_some (find (λ x. x.id == l.id) db.logins)
    then err storage
    else ok (tt, record db { logins = db.logins ++ l ∷ [] })

-- `sender` is none where no sender is configured, and else says whether it delivers; `number` is
-- what the random source gave for the code, below a million, if it could be read.
module _ (o : Outside) (cfg : Config) (sender : Option Bool) (number : Option ℕ) where
  -- after the insert
  abbrev deliver : String → String → ℕ → Option Bool → Result LoginStart
  deliver id code expires_at (some false) = err delivery_failed
  deliver id code expires_at _ = ok (record {
    login_id = id;
    expires_at = expires_at;
    debug_code = if cfg.debug_return_code then code else "";
  })

  abbrev inserted : String → String → ℕ → Db → Result (Unit {0} × Db) → Result LoginStart × Db
  inserted id code expires_at db (err e) = (err e, db)
  inserted id code expires_at db (ok (_, db')) = (deliver id code expires_at sender, db')

  abbrev pub started : Moment → String → String → ℕ → Login
  started m email id value = record {
    id = id;
    email = email;
    code_hash = hash_login_code o cfg id (login_code value);
    expires_at = m.now + cfg.login_lifetime;
    attempts = 0;
    consumed_at = none;
  }

  abbrev store_login : Moment → String → String → ℕ → Db → Result LoginStart × Db
  store_login m email id value db =
      let code = login_code value in
      let expires_at = m.now + cfg.login_lifetime in
      if m.fails 0
      then (err storage, db)
      else inserted id code expires_at db (insert_login (started m email id value) db)

  abbrev with_email : Moment → Db → Result String → Result LoginStart × Db
  with_email m db (err e) = (err e, db)
  with_email m db (ok email) = elim (random_value "login_" (m.random 0)) [
    | none ↦ (err random_failed, db)
    | some id ↦ elim number [
      | none ↦ (err random_failed, db)
      | some v ↦ store_login m email id v db
    ]
  ]

  unfoldable pub start : Moment → String → Db → Result LoginStart × Db
  unfolding normalize_email insert_login
  start m raw db =
      if not (is_some sender) && not cfg.debug_return_code
      then (err delivery_unavailable, db)
      else with_email m db (normalize_email o raw)

  abbrev pub Stored : Moment → String → Db → LoginStart → Type 0
  Stored m raw db s =
      (l : Login) × (value : ℕ) × (number ≡ some value)
      × (find (λ x. x.id == s.login_id) (start m raw db).1.logins ≡ some l)
      × (normalize_email o raw ≡ ok l.email)
      × (l.code_hash ≡ hash_login_code o cfg s.login_id (login_code value))
      × (l.attempts ≡ 0)
      × (l.consumed_at ≡ none)
      × (l.expires_at ≡ m.now + cfg.login_lifetime)
      × (s.debug_code ≡ (if cfg.debug_return_code then login_code value else ""))

  -- A login that was started is stored under its id with no attempt made. It is not
  -- consumed, expires when its lifetime is over, and has the hash of the code of the number that
  -- was drawn. The code is returned exactly if the configuration says so. The email is normalised.
  pub start-Stored :
      (m : Moment) (raw : String) (db : Db) (s : LoginStart)
      → (start m raw db).0 ≡ ok s
      → Stored m raw db s
  unfolding start
  start-Stored m raw db s h = emailed (normalize_email o raw) refl
    where
      emailed : (e : Result String) → normalize_email o raw ≡ e → Stored m raw db s
      emailed (err x) q = absurd (ground arith)
      emailed (ok email) q = elim (Option-cases (random_value "login_" (m.random 0))) [
        | inl a ↦ absurd (ground arith)
        | inr (id, a) ↦ elim (Option-cases number) [
          | inl b ↦ absurd (ground arith)
          | inr (v, b) ↦
              let l : Login = started m email id v in
              let added = find-insert (λ x. x.id == id) l db.logins in
              let same : s.login_id ≡ id = ground arith in
              (
                l,
                v,
                b,
                rw same (ground (arith, added, eq_refl id)),
                ground arith,
                rw same refl,
                refl,
                refl,
                refl,
                ground arith,
              )
        ]
      ]
