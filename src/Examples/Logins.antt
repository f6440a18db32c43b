-- ===== src/Examples/Logins.antt =====
-- A login by a code, from its start to the refresh of its tokens.
use say.Base.{
  ℕ, ◌+◌, ◌*◌, ◌^◌, String, Bool, true, false, ◌&&◌, ◌≡◌, ◌≢◌, refl, none, some, List, [], ◌∷◌,
  ◌==◌, eq_iff, arith, cat, eqb, if◌then◌else◌, trim_space, random_value, ltb,
}
use say.Database.{ok, err, Error, invalid_login, invalid_refresh}
use say.Database.Tables.{find}
use say.Auth.{
  Login, RefreshToken, Db, Config, TokenPair, LoginStart, Claims, Outside, Moment, verify,
  verify_body, check_code, admit, sign_in, refresh, refresh_body, rotate, issue_token_pair,
  access_claims, hash_login_code, is_spent, is_dead, insert_refresh_token, upsert_user,
  update_login, update_refresh_token, validate_access_token,
}
use say.Auth.Start.{start, normalize_email, login_code, insert_login}
use say.Auth.Attempts.{verify_locked, try_all, login_of}
use say.Auth.Admission.{verify_once}
use say.Auth.Rotation.{refresh_once, token_of}
use say.Auth.Access.{SignsAndParses, validate-issue_token_pair}

abbrev pub config : Config
config = record {
  issuer = "say";
  jwt_signing_key = "key";
  login_hash_key = "salt";
  access_lifetime = 900 * 10 ^ 9;
  refresh_lifetime = 2592000 * 10 ^ 9;
  login_lifetime = 600 * 10 ^ 9;
  debug_return_code = true;
}

-- The claims of an access token for usr_00 at time 100, in whole seconds.
abbrev claims : Claims
claims = record {
  user_id = "usr_00";
  token_type = "access";
  issuer = "say";
  subject = "usr_00";
  issued_at = 0;
  expires_at = 900 * 10 ^ 9;
}

abbrev are_claims : Claims → Bool
are_claims c =
    c.user_id == "usr_00"
    && (c.token_type == "access"
        && (c.issuer == "say"
            && (c.subject == "usr_00" && (eqb c.issued_at 0 && eqb c.expires_at (900 * 10 ^ 9)))))

-- A library that signs and parses one token.
abbrev pub outside : Outside
outside = record {
  sum256 = λ s. cat "#" s;
  mac = λ key s. cat key s;
  sign = λ key c. if are_claims c then some "jwt" else none;
  parse = λ key issuer now token. if token == "jwt" && issuer == "say" then some claims else none;
  parse_address = λ s. some s;
  to_lower = λ s. s;
}

outside-SignsAndParses : SignsAndParses outside
outside-SignsAndParses key token c now signed whole whole' order small early = ground (
  arith,
  signed,
  eq_iff token "jwt",
  eq_iff c.user_id "usr_00",
  eq_iff c.token_type "access",
  eq_iff c.issuer "say",
  eq_iff c.subject "usr_00",
)

abbrev at : ℕ → Moment
at now = record { now = now; db_now = now; random = λ n. some (n ∷ []); fails = λ n. false }

-- The third statement fails.
abbrev broken : Moment
broken = record (at 100) { fails = λ n. eqb n 3 }

abbrev empty : Db
empty = record { logins = []; users = []; refresh_tokens = [] }

abbrev login : Login
login = record {
  id = "login_00";
  email = "ann@say.app";
  code_hash = cat "salt" (cat "login_00" (cat "\n" "000042"));
  expires_at = 50 + 600 * 10 ^ 9;
  attempts = 0;
  consumed_at = none;
}

abbrev start_of : LoginStart
start_of = record { login_id = "login_00"; expires_at = login.expires_at; debug_code = "000042" }

started : (start outside config none (some 42) (at 50) " ann@say.app" empty).0 ≡ ok start_of
unfolding start normalize_email login_code insert_login trim_space random_value find
started = refl

abbrev with_login : Db
with_login = record empty { logins = login ∷ [] }

abbrev pair : TokenPair
pair = record {
  access_token = "jwt";
  refresh_token = "say_refresh_01";
  expires_at = 100 + 900 * 10 ^ 9;
}

verified : (verify outside config (at 100) "login_00" "000042" with_login).0 ≡ ok pair
unfolding verify verify_body check_code admit sign_in is_spent hash_login_code issue_token_pair
    access_claims insert_refresh_token upsert_user update_login random_value find
verified = refl

verify_once_example :
    let db = (verify outside config (at 100) "login_00" "000042" with_login).1 in
    (l : Login) × (login_of outside config "login_00" with_login ≡ some l)
    × (is_spent 100 l ≡ false)
    × (l.code_hash ≡ hash_login_code outside config "login_00" "000042")
    × (verify outside config (at 200) "login_00" "000042" db ≡ (err invalid_login, db))
verify_once_example =
    verify_once outside config (at 100) (at 200) "login_00" "000042" "000042" with_login pair
      verified (λ n. refl)

-- Four attempts have missed, and a fifth is made.
abbrev nearly : Db
nearly = record empty { logins = record login { attempts = 4 } ∷ [] }

abbrev guess : List (Moment × String)
guess = (at 100, "000041") ∷ []

wrong : login.code_hash ≢ hash_login_code outside config "login_00" "000041"
unfolding hash_login_code
wrong e =
    ground (arith, (eq_iff login.code_hash (cat "salt" (cat "login_00" (cat "\n" "000041")))).1 e)

verify_locked_example :
    verify outside config
      (at 200)
      "login_00"
      "000042"
      (try_all outside config "login_00" guess nearly)
    ≡ (err invalid_login, try_all outside config "login_00" guess nearly)
unfolding find
verify_locked_example =
    verify_locked outside config "login_00" guess (at 200) "000042" nearly
      (record login { attempts = 4 }) refl (((λ n. refl), wrong, omega arith), tt) (omega arith)
      (λ n. refl)

failing : (verify outside config broken "login_00" "000042" with_login).0 ≡ err Error.storage
unfolding verify verify_body check_code admit is_spent hash_login_code update_login find
failing = refl

distinct : Error.storage ≢ invalid_login
distinct e = ground (arith, e)

-- usr_00 has the refresh token say_refresh_09.
abbrev token : RefreshToken
token = record {
  id = "rft_09";
  user_id = "usr_00";
  token_hash = "#say_refresh_09";
  expires_at = 1000;
  revoked_at = none;
  replaced_by = none;
}

abbrev with_token : Db
with_token = record empty { refresh_tokens = token ∷ [] }

abbrev next_pair : TokenPair
next_pair = record pair { refresh_token = "say_refresh_00" }

refreshed : (refresh outside config (at 100) "say_refresh_09" with_token).0 ≡ ok next_pair
unfolding refresh refresh_body rotate is_dead issue_token_pair access_claims insert_refresh_token
    update_refresh_token random_value find
refreshed = refl

refresh_once_example :
    let db = (refresh outside config (at 100) "say_refresh_09" with_token).1 in
    (old new : RefreshToken) × (token_of outside config "say_refresh_09" with_token ≡ some old)
    × (is_dead 100 old ≡ false)
    × (refresh outside config (at 200) "say_refresh_09" db ≡ (err invalid_refresh, db))
    × (token_of outside config "say_refresh_00" db ≡ some new)
    × (new.user_id ≡ old.user_id)
    × (is_dead 200 new ≡ ltb (100 + 2592000 * 10 ^ 9) 200)
refresh_once_example =
    refresh_once outside config (at 100) (at 200) "say_refresh_09" with_token next_pair refreshed
      (λ n. refl)

unrefreshed : (refresh outside config broken "say_refresh_09" with_token).0 ≡ err Error.storage
unfolding refresh refresh_body rotate is_dead issue_token_pair access_claims insert_refresh_token
    random_value find
unrefreshed = refl

issued : (issue_token_pair outside config (at 100) 0 3 "usr_00" empty).0 ≡ ok (next_pair, "rft_01")
unfolding issue_token_pair access_claims insert_refresh_token random_value find
issued = refl

named : ◌≢◌ {A = String} "usr_00" ""
named e = ground (arith, (eq_iff "usr_00" "").1 e)

validate-issue_token_pair_example : validate_access_token outside config 200 "jwt" ≡ ok "usr_00"
validate-issue_token_pair_example =
    validate-issue_token_pair outside config (at 100) 0 3 200 "usr_00" "rft_01" empty next_pair
      outside-SignsAndParses issued named (omega arith) (omega arith)
