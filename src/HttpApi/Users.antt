-- ===== src/HttpApi/Users.antt =====
-- Logins in internal/httpapi/router.go: startAuth, verifyAuth, refreshAuth and requireUser.
pub mod Bearer
use say.Base.{
  ℕ, String, len, Bool, true, false, not, ◌&&◌, ◌||◌, Option, none, some, ◌==◌, ltb, if◌then◌else◌,
  trim_space, trim_prefix, has_prefix,
}
use say.Database.{Error, Result, ok, err, invalid_email, invalid_login, invalid_refresh}
use say.Auth.{
  Db, Config, Outside, Moment, LoginStart, TokenPair, verify, refresh, validate_access_token,
}
use say.Auth.Start.{start}
use say.HttpApi.{
  Response, Input, given, malformed, write_error, internal_error, invalid_request, login, tokens,
}

abbrev not_configured : Response
not_configured = write_error 503 "auth_not_configured" "authentication is not configured"

abbrev started : Result LoginStart → Response
started (ok l) = record { status = 202; body = login l }
started (err invalid_email) = invalid_request "invalid email address"
started (err _) = write_error 503 "delivery_failed" "failed to deliver login code"

abbrev verified : Result TokenPair → Response
verified (ok pair) = record { status = 200; body = tokens pair }
verified (err invalid_login) = write_error 401 "invalid_login" "invalid or expired login"
verified (err _) = internal_error "failed to verify login"

abbrev refreshed : Result TokenPair → Response
refreshed (ok pair) = record { status = 200; body = tokens pair }
refreshed (err invalid_refresh) =
    write_error 401 "invalid_refresh" "invalid or expired refresh token"
refreshed (err _) = internal_error "failed to refresh login"

-- A call of the service, if it is configured and the request could be decoded.
abbrev call :
    {T A : Type 0}
    → Option Config
    → Input T
    → (Result A → Response)
    → (Config → T → Db → Result A × Db)
    → Db
    → Response × Db
call none input answer f db = (not_configured, db)
call (some cfg) (malformed e) answer f db = (invalid_request e, db)
call (some cfg) (given x) answer f db = let r = f cfg x db in (answer r.0, r.1)

-- What requireUser comes to: a refusal, or the user for whom the handler runs.

pub data Access : Type 0 where
  denied : Response → Access
  allowed : String → Access

abbrev unauthorized : String → Access
unauthorized message = denied (write_error 401 "unauthorized" message)

unfoldable pub check_user : String → Access
check_user user_id =
    if user_id == "" || ltb 128 (len user_id)
    then unauthorized "invalid authenticated user"
    else allowed user_id

abbrev validated : Result String → Access
validated (err e) = unauthorized "invalid access token"
validated (ok user_id) = check_user user_id

-- `service` is none where a.cfg.Auth is nil.
module _ (o : Outside) (service : Option Config) where
  unfoldable pub start_auth : Option Bool → Option ℕ → Moment → Input String → Db → Response × Db
  start_auth sender number m input db =
      call service input started (λ cfg email. start o cfg sender number m email) db

  unfoldable pub verify_auth : Moment → Input (String × String) → Db → Response × Db
  verify_auth m input db = call service input verified (λ cfg x. verify o cfg m x.0 x.1) db

  unfoldable pub refresh_auth : Moment → Input String → Db → Response × Db
  refresh_auth m input db = call service input refreshed (λ cfg token. refresh o cfg m token) db

  abbrev validate : ℕ → String → Option Config → Access
  validate now token none = check_user ""
  validate now token (some cfg) = validated (validate_access_token o cfg now token)

  -- `header` is the Authorization header, empty where there is none.
  unfoldable pub require_user : Bool → ℕ → String → Access
  unfolding check_user trim_space
  require_user dev_auth now header =
      let token = trim_space (trim_prefix header "Bearer ") in
      if not (has_prefix header "Bearer ")
      then unauthorized "bearer token required"
      else if dev_auth && has_prefix token "dev:"
      then check_user (trim_space (trim_prefix token "dev:"))
      else validate now token service
