-- ===== src/Auth/Access.antt =====
-- Access tokens, from their issue to their validation.
use say.Base.{ℕ, ◌+◌, ◌≤◌, ◌<◌, ◌*◌, ◌%◌, ◌^◌, String, ◌≡◌, ◌≢◌, some, eq_iff, arith}
use say.Database.{ok}
use say.Auth.{
  Db, Config, Outside, Moment, TokenPair, Claims, issue_token_pair, access_claims,
  validate_access_token, whole_seconds,
}
use say.Auth.Issue.{issue_token_pair-Issued}

-- The library's promise: a token that it signed with HS256, whose times are whole seconds and not
-- too large for a JSON number, is found valid under the same key, by the issuer that its claims name,
-- until they expire, and gives those claims back.
abbrev pub SignsAndParses : Outside → Type 0
SignsAndParses o =
    (key token : String) (claims : Claims) (now : ℕ)
    → o.sign key claims ≡ some token
    → claims.issued_at % 10 ^ 9 ≡ 0
    → claims.expires_at % 10 ^ 9 ≡ 0
    → claims.issued_at ≤ claims.expires_at
    → claims.expires_at < 2 ^ 53 * 10 ^ 9
    → now < claims.expires_at
    → o.parse key claims.issuer now token ≡ some claims

whole_seconds-mod : (t : ℕ) → whole_seconds t % 10 ^ 9 ≡ 0
whole_seconds-mod t = omega arith

whole_seconds-order : (s t : ℕ) → s ≤ t → whole_seconds s ≤ whole_seconds t
whole_seconds-order s t h = omega (arith, h)

whole_seconds-close : (t : ℕ) → (whole_seconds t ≤ t) × (t < whole_seconds t + 10 ^ 9)
whole_seconds-close t = (omega arith, omega arith)

-- The access token of a pair that was issued to a user is valid for that user, until a second
-- before the time that the pair states: the token's own times are rounded down to seconds. The JWT
-- library is taken to keep its promise, the time that the pair states to be within 2^53 seconds, and
-- the user's id not to be empty.
pub validate-issue_token_pair :
    (o : Outside) (cfg : Config) (m : Moment) (r n now : ℕ) (user_id id : String) (db : Db)
    (pair : TokenPair)
    → SignsAndParses o
    → (issue_token_pair o cfg m r n user_id db).0 ≡ ok (pair, id)
    → user_id ≢ ""
    → pair.expires_at < 2 ^ 53 * 10 ^ 9
    → now + 10 ^ 9 ≤ pair.expires_at
    → validate_access_token o cfg now pair.access_token ≡ ok user_id
unfolding validate_access_token access_claims issue_token_pair
validate-issue_token_pair o cfg m r n now user_id id db pair law h ne small early =
    let i = issue_token_pair-Issued o cfg m r n user_id db pair id h in
    let c = access_claims o cfg user_id m.now in
    let states : pair.expires_at ≡ m.now + cfg.access_lifetime = ground arith in
    let close = whole_seconds-close (m.now + cfg.access_lifetime) in
    let parsed =
      law cfg.jwt_signing_key pair.access_token c now i.signed (whole_seconds-mod m.now)
        (whole_seconds-mod (m.now + cfg.access_lifetime))
        (whole_seconds-order m.now (m.now + cfg.access_lifetime) (omega arith))
        (omega (arith, close.0, small, states)) (omega (arith, close.1, early, states)) in
    ground (arith, parsed, eq_iff user_id "")
