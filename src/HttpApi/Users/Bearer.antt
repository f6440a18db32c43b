-- ===== src/HttpApi/Users/Bearer.antt =====
-- Whom requireUser lets in.
use say.Base.{
  ℕ, ◌≤◌, String, len, true, false, ◌||◌, ◌≡◌, ◌≢◌, inl, inr, refl, subst, Option, none, some, ◌==◌,
  arith, eq_iff, Bool-cases, ltb, trim_space, trim_prefix, has_prefix,
}
use say.Database.{Result, ok, err}
use say.Auth.{Config, Outside, validate_access_token}
use say.HttpApi.Users.{allowed, check_user, validated, validate, require_user}

pub record LetIn (o : Outside) (service : Option Config) (now : ℕ) (header user_id : String)
    : Type 0 where
  pub config : Config
  pub configured : service ≡ some config
  pub bears : has_prefix header "Bearer " ≡ true
  pub valid :
      validate_access_token o config now (trim_space (trim_prefix header "Bearer ")) ≡ ok user_id
  pub named : user_id ≢ ""
  pub short : len user_id ≤ 128

check_user-allowed :
    (s user_id : String) → check_user s ≡ allowed user_id → (s ≡ user_id) × (s ≢ "") × (len s ≤ 128)
unfolding check_user
check_user-allowed s user_id h = elim (Bool-cases (s == "" || ltb 128 (len s))) [
  | inl bad ↦ absurd (ground arith)
  | inr fine ↦ (ground (arith, fine), ground (arith, fine, eq_iff s ""), ground (arith, fine))
]

module _ (o : Outside) (service : Option Config) (now : ℕ) (header user_id : String) where
  abbrev token : String
  token = trim_space (trim_prefix header "Bearer ")

  validated-LetIn :
      (cfg : Config) (r : Result String)
      → service ≡ some cfg
      → has_prefix header "Bearer " ≡ true
      → validate_access_token o cfg now token ≡ r
      → validated r ≡ allowed user_id
      → LetIn o service now header user_id
  validated-LetIn cfg (err e) is bears valid h = absurd (ground arith)
  validated-LetIn cfg (ok s) is bears valid h =
      let (same, named, short) = check_user-allowed s user_id h in
      record {
        config = cfg;
        configured = is;
        bears = bears;
        valid = subst (λ u. validate_access_token o cfg now token ≡ ok u) same valid;
        named = subst (λ u. u ≢ "") same named;
        short = subst (λ u. len u ≤ 128) same short;
      }

  validate-LetIn :
      (c : Option Config)
      → service ≡ c
      → has_prefix header "Bearer " ≡ true
      → validate o service now token c ≡ allowed user_id
      → LetIn o service now header user_id
  unfolding check_user
  validate-LetIn none is bears h = absurd (ground arith)
  validate-LetIn (some cfg) is bears h =
      validated-LetIn cfg (validate_access_token o cfg now token) is bears refl h

-- With the development login off, whoever is let in has presented a bearer token that the configured
-- service accepts as an access token of that very user, whose id is not empty and has at most 128
-- bytes. So nobody is let in where no service is configured.
pub require_user-allowed :
    (o : Outside) (service : Option Config) (now : ℕ) (header user_id : String)
    → require_user o service false now header ≡ allowed user_id
    → LetIn o service now header user_id
unfolding require_user trim_space
require_user-allowed o service now header user_id h =
    elim (Bool-cases (has_prefix header "Bearer ")) [
      | inr bad ↦ absurd (ground arith)
      | inl bears ↦
          validate-LetIn o service now header user_id service refl bears (ground (arith, bears))
    ]
