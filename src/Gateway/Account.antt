-- ===== src/Gateway/Account.antt =====
-- The account, the errors and the results of internal/gateway/store.go.
use say.Base.{ℕ, String, Option}

-- Times are nanoseconds since Go's zero time, which is 0.
pub record Account : Type 0 where
  pub id : String
  pub user_id : String
  pub platform : String
  pub external_id : String
  pub display_name : String
  pub status : String
  pub hosting_mode : String
  pub worker_id : String
  pub generation : ℕ  -- uint64
  pub last_seen_at : Option ℕ
  pub created_at : ℕ
  pub enrollment_end : ℕ

pub record WorkerAuth : Type 0 where
  pub account : Account
  pub credential : String

pub data Error : Type 0 where
  not_found invalid_token expired_token platform_mismatch : Error
  unknown_platform random_failed : Error

pub data Result (A : Type 0) : Type 0 where
  ok : A → Result A
  err : Error → Result A
