-- ===== src/Auth/Issue.antt =====
-- What issuing a pair of tokens stores and returns.
use say.Base.{ℕ, ◌+◌, String, ◌≡◌, none, some, [], ◌∷◌, ◌++◌, ◌==◌, ◌||◌, arith}
use say.Database.{ok}
use say.Database.Tables.{find}
use say.Auth.{
  Db, Config, Outside, Moment, TokenPair, RefreshToken, issue_token_pair, insert_refresh_token,
  access_claims,
}

module _ (o : Outside) (cfg : Config) where
  -- The row that is stored for a refresh token.
  abbrev pub row : String → String → String → ℕ → RefreshToken
  row id user_id token now = record {
    id = id;
    user_id = user_id;
    token_hash = o.sum256 token;
    expires_at = now + cfg.refresh_lifetime;
    revoked_at = none;
    replaced_by = none;
  }

  pub record Issued (m : Moment) (user_id : String) (db db' : Db) (pair : TokenPair) (id : String)
      : Type 0 where
    pub signed :
        o.sign cfg.jwt_signing_key (access_claims o cfg user_id m.now) ≡ some pair.access_token
    pub unused :
        find (λ r. r.id == id || r.token_hash == o.sum256 pair.refresh_token) db.refresh_tokens
        ≡ none
    pub stores : db' ≡ record db {
      refresh_tokens = db.refresh_tokens ++ row id user_id pair.refresh_token m.now ∷ [];
    }

  pub issue_token_pair-Issued :
      (m : Moment) (r n : ℕ) (user_id : String) (db : Db) (pair : TokenPair) (id : String)
      → (issue_token_pair o cfg m r n user_id db).0 ≡ ok (pair, id)
      → Issued m user_id db (issue_token_pair o cfg m r n user_id db).1 pair id
  unfolding issue_token_pair insert_refresh_token
  issue_token_pair-Issued m r n user_id db pair id h = record {
    signed = ground arith;
    unused = ground arith;
    stores = ground arith;
  }
