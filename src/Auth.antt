-- ===== src/Auth.antt =====
-- internal/auth/service.go: logins by a code, and the tokens that they are exchanged for. The
-- tables are those of internal/postgres/migrations/001_initial.sql.
pub mod Start
pub mod Access
pub mod Attempts
pub mod Admission
pub mod Issue
pub mod Rotation
use say.Base.{
  ◌-◌, ℕ, ◌+◌, ◌*◌, ◌^◌, ◌%◌, ◌<◌, String, len, Bool, true, false, not, ◌&&◌, ◌||◌, Option, none,
  some, List, [], ◌∷◌, ◌++◌, ◌==◌, eqb, ltb, leb, if◌then◌else◌, is_some, cat, trim_space,
  random_value,
}
use say.Database.{
  Error, Result, ok, err, storage, random_failed, sign_failed, invalid_login, invalid_refresh,
  invalid_access, delivery_unavailable, delivery_failed, invalid_email, invalid_argument, Tx, ◌>>=◌,
  ◌>>◌, pure, raise, exec, exec_checked, transact, commit, or_raise,
}
use say.Database.Tables.{find, update}

pub record Login : Type 0 where
  pub id : String
  pub email : String
  pub code_hash : String
  pub expires_at : ℕ
  pub attempts : ℕ
  pub consumed_at : Option ℕ

pub record User : Type 0 where
  pub id : String
  pub email : String

pub record RefreshToken : Type 0 where
  pub id : String
  pub user_id : String
  pub token_hash : String
  pub expires_at : ℕ
  pub revoked_at : Option ℕ
  pub replaced_by : Option String

pub record Db : Type 0 where
  pub logins : List Login
  pub users : List User
  pub refresh_tokens : List RefreshToken

pub record Config : Type 0 where
  pub issuer : String
  pub jwt_signing_key : String
  pub login_hash_key : String
  pub access_lifetime : ℕ
  pub refresh_lifetime : ℕ
  pub login_lifetime : ℕ
  pub debug_return_code : Bool

pub record TokenPair : Type 0 where
  pub access_token : String
  pub refresh_token : String
  pub expires_at : ℕ

pub record LoginStart : Type 0 where
  pub login_id : String
  pub expires_at : ℕ
  pub debug_code : String

pub record Claims : Type 0 where
  pub user_id : String
  pub token_type : String
  pub issuer : String
  pub subject : String
  pub issued_at : ℕ
  pub expires_at : ℕ

abbrev second : ℕ
second = 10 ^ 9

abbrev or_default : ℕ → ℕ → ℕ
or_default n d = if eqb n 0 then d else n

-- NewService, without the pool and the sender that it stores
unfoldable pub new_service : Config → Result Config
new_service cfg =
    if ltb (len cfg.jwt_signing_key) 32 || ltb (len cfg.login_hash_key) 32
    then err invalid_argument
    else ok (record cfg {
      issuer = if cfg.issuer == "" then "say" else cfg.issuer;
      access_lifetime = or_default cfg.access_lifetime (15 * 60 * second);
      refresh_lifetime = or_default cfg.refresh_lifetime (30 * 24 * 3600 * second);
      login_lifetime = or_default cfg.login_lifetime (10 * 60 * second);
    })

-- What the service takes from outside: SHA-256, HMAC-SHA-256 by key and message, the JWT library
-- for HS256 (`parse key issuer now token` gives the claims of a token that it finds valid), and
-- net/mail's ParseAddress with strings.ToLower.
pub record Outside : Type 0 where
  pub sum256 : String → String
  pub mac : String → String → String
  pub sign : String → Claims → Option String
  pub parse : String → String → ℕ → String → Option Claims
  pub parse_address : String → Option String
  pub to_lower : String → String

-- What one call meets: the clock of the process, that of the database's transaction, the random
-- source at each read, and at each statement, in the order of the text, whether it fails.
pub record Moment : Type 0 where
  pub now : ℕ
  pub db_now : ℕ
  pub random : ℕ → Option (List ℕ)
  pub fails : ℕ → Bool

-- INSERT INTO refresh_tokens, with its primary key and its unique token_hash
unfoldable pub insert_refresh_token : RefreshToken → Db → Result (Unit {0} × Db)
insert_refresh_token t db =
    if is_some (find (λ r. r.id == t.id || r.token_hash == t.token_hash) db.refresh_tokens)
    then err storage
    else ok (tt, record db { refresh_tokens = db.refresh_tokens ++ t ∷ [] })

-- INSERT INTO users … ON CONFLICT (email) DO UPDATE SET email = EXCLUDED.email RETURNING id: the id
-- of the user with the email, who is made under the given id if there is none.
unfoldable pub upsert_user : String → String → Db → Result (String × Db)
upsert_user id email db = elim (find (λ u. u.email == email) db.users) [
  | some u ↦ ok (u.id, db)
  | none ↦
      if is_some (find (λ u. u.id == id) db.users)
      then err storage
      else ok (id, record db { users = db.users ++ record { id = id; email = email } ∷ [] })
]

-- UPDATE auth_logins … WHERE id = $1
unfoldable pub update_login : String → (Login → Login) → Db → Unit {0} × Db
update_login id f db = (tt, record db { logins = update (λ l. l.id == id) f db.logins })

abbrev pub consumed : ℕ → Login → Login
consumed at l = record l { consumed_at = some at }

-- attempts = attempts + 1, consumed_at = CASE WHEN attempts + 1 >= 5 THEN now() ELSE consumed_at END
abbrev pub missed : ℕ → Login → Login
missed at l = record l {
  attempts = l.attempts + 1;
  consumed_at = if leb 5 (l.attempts + 1) then some at else l.consumed_at;
}

-- consumedAt != nil || attempts >= 5 || time.Now().After(expiresAt)
unfoldable pub is_spent : ℕ → Login → Bool
is_spent now l = is_some l.consumed_at || leb 5 l.attempts || ltb l.expires_at now

abbrev pub first : TokenPair × String → Result TokenPair
first (pair, id) = ok pair

abbrev pub replaced : ℕ → String → RefreshToken → RefreshToken
replaced at by t = record t { revoked_at = some at; replaced_by = some by }

unfoldable pub is_dead : ℕ → RefreshToken → Bool
is_dead now t = is_some t.revoked_at || ltb t.expires_at now

-- UPDATE refresh_tokens … WHERE id = $1
unfoldable pub update_refresh_token : String → (RefreshToken → RefreshToken) → Db → Unit {0} × Db
update_refresh_token id f db =
    (tt, record db { refresh_tokens = update (λ t. t.id == id) f db.refresh_tokens })

-- jwt.NewNumericDate, of a time in nanoseconds
abbrev pub whole_seconds : ℕ → ℕ
whole_seconds t = t - t % 10 ^ 9

module _ (o : Outside) (cfg : Config) where
  unfoldable pub hash_login_code : String → String → String
  hash_login_code login_id code = o.mac cfg.login_hash_key (cat login_id (cat "\n" code))

  -- The claims of an access token; jwt.NewNumericDate rounds their times down to seconds.
  unfoldable pub access_claims : String → ℕ → Claims
  access_claims user_id now = record {
    user_id = user_id;
    token_type = "access";
    issuer = cfg.issuer;
    subject = user_id;
    issued_at = whole_seconds now;
    expires_at = whole_seconds (now + cfg.access_lifetime);
  }

  -- issueTokenPairWithID; it reads the random source at r and r + 1, and its statement is the n-th
  unfoldable pub issue_token_pair : Moment → ℕ → ℕ → String → Tx Db (TokenPair × String)
  issue_token_pair m r n user_id = do
    access_token ← or_raise sign_failed (o.sign cfg.jwt_signing_key (access_claims user_id m.now))
    refresh_token ← or_raise random_failed (random_value "say_refresh_" (m.random r))
    refresh_id ← or_raise random_failed (random_value "rft_" (m.random (r + 1)))
    exec_checked (m.fails n) (
        insert_refresh_token (record {
          id = refresh_id;
          user_id = user_id;
          token_hash = o.sum256 refresh_token;
          expires_at = m.now + cfg.refresh_lifetime;
          revoked_at = none;
          replaced_by = none;
        }))
    pure (
      record {
        access_token = access_token;
        refresh_token = refresh_token;
        expires_at = m.now + cfg.access_lifetime;
      },
      refresh_id,
    )

  -- The last part of Verify: find or make the user, and issue the tokens.
  unfoldable pub sign_in : Moment → String → Tx Db (Result TokenPair)
  sign_in m email = do
    proposed_user_id ← or_raise random_failed (random_value "usr_" (m.random 0))
    user_id ← exec_checked (m.fails 4) (upsert_user proposed_user_id email)
    issued ← issue_token_pair m 1 5 user_id
    commit (m.fails 6) (first issued)

  -- Verify, once the code is known to be right: the login is consumed first.
  unfoldable pub admit : Moment → String → String → Tx Db (Result TokenPair)
  unfolding update_login
  admit m login_id email = do
    exec (m.fails 3) (update_login login_id (consumed m.db_now))
    sign_in m email

  -- Verify with a wrong code: the attempt is counted, and the login consumed by the fifth.
  unfoldable pub reject : Moment → String → Tx Db (Result TokenPair)
  unfolding update_login
  reject m login_id = do
    exec (m.fails 3) (update_login login_id (missed m.db_now))
    commit (m.fails 4) (err invalid_login)

  unfoldable pub check_code : Moment → String → String → Option Login → Tx Db (Result TokenPair)
  unfolding reject is_spent hash_login_code
  check_code m login_id code none = raise invalid_login
  check_code m login_id code (some l) =
      if is_spent m.now l
      then raise invalid_login
      else if l.code_hash == hash_login_code login_id code
      then admit m login_id l.email
      else reject m login_id

  unfoldable pub verify_body : Moment → String → String → Tx Db (Result TokenPair)
  unfolding check_code
  verify_body m login_id code = do
    found ← exec (m.fails 2) (λ db. (find (λ l. l.id == login_id) db.logins, db))
    check_code m login_id code found

  unfoldable pub verify : Moment → String → String → Db → Result TokenPair × Db
  unfolding verify_body
  verify m login_id code = transact (m.fails 1) (verify_body m login_id code)

  -- Refresh with a token that is there.
  unfoldable pub rotate : Moment → Option RefreshToken → Tx Db (Result TokenPair)
  unfolding update_refresh_token is_dead
  rotate m none = raise invalid_refresh
  rotate m (some t) = if is_dead m.now t then raise invalid_refresh else do
    issued ← issue_token_pair m 0 3 t.user_id
    exec (m.fails 4) (update_refresh_token t.id (replaced m.db_now issued.1))
    commit (m.fails 5) (first issued)

  unfoldable pub refresh_body : Moment → String → Tx Db (Result TokenPair)
  unfolding rotate
  refresh_body m token = do
    found ←
        exec (m.fails 2) (λ db. (find (λ t. t.token_hash == o.sum256 token) db.refresh_tokens, db))
    rotate m found

  unfoldable pub refresh : Moment → String → Db → Result TokenPair × Db
  unfolding refresh_body
  refresh m token = transact (m.fails 1) (refresh_body m token)

  unfoldable pub validate_access_token : ℕ → String → Result String
  validate_access_token now token = elim (o.parse cfg.jwt_signing_key cfg.issuer now token) [
    | none ↦ err invalid_access
    | some claims ↦
        if not (claims.token_type == "access") || claims.user_id == ""
        then err invalid_access
        else ok claims.user_id
  ]
