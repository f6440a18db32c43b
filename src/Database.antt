-- ===== src/Database.antt =====
-- What the program uses of its SQL database: tables as lists of rows, statements that may fail, and
-- transactions. A statement or a commit that fails leaves the stored tables as they were.
pub mod Tables
pub mod Order
pub mod Keeps
pub mod Yields
use say.Base.{Bool, true, false, Option, none, some}

-- The errors of the packages auth and postgres, with those of gateway that postgres returns: the
-- ones that callers tell apart, and all others.
pub data Error : Type 0 where
  storage : Error  -- an error of the database, or of the connection to it
  random_failed : Error
  sign_failed : Error
  invalid_login invalid_refresh invalid_access : Error
  delivery_unavailable delivery_failed invalid_email : Error
  not_found invalid_argument : Error
  invalid_token expired_token platform_mismatch : Error

pub data Result (A : Type 0) : Type 0 where
  ok : A → Result A
  err : Error → Result A

-- The body of a transaction works on its own copy of the tables.
abbrev pub Tx : Type 0 → Type 0 → Type 0
Tx S A = S → Result A × S

abbrev pub continue : {S A B : Type 0} → Result A × S → (A → Tx S B) → Result B × S
continue (ok a, s) f = f a s
continue (err e, s) f = (err e, s)

infixl 5 ◌>>=◌ ◌>>◌
abbrev pub ◌>>=◌ : {S A B : Type 0} → Tx S A → (A → Tx S B) → Tx S B
◌>>=◌ m f s = continue (m s) f

abbrev pub ◌>>◌ : {S A B : Type 0} → Tx S A → Tx S B → Tx S B
m >> n = m >>= λ _. n

abbrev pub pure : {S A : Type 0} → A → Tx S A
pure a s = (ok a, s)

abbrev pub raise : {S A : Type 0} → Error → Tx S A
raise e s = (err e, s)

-- A statement; the flag says whether it fails.
abbrev pub exec : {S A : Type 0} → Bool → (S → A × S) → Tx S A
exec true f s = (err storage, s)
exec false f s = (ok (f s).0, (f s).1)

abbrev pub checked : {S A : Type 0} → Result (A × S) → Tx S A
checked (ok (a, s')) s = (ok a, s')
checked (err e) s = (err e, s)

-- A statement that also fails by a constraint of the schema.
abbrev pub exec_checked : {S A : Type 0} → Bool → (S → Result (A × S)) → Tx S A
exec_checked true f s = (err storage, s)
exec_checked false f s = checked (f s) s

-- A body ends by a commit, with the result that the function then returns.
abbrev pub settle : {S A : Type 0} → S → Result (Result A) × S → Result A × S
settle s (ok r, s') = (r, s')
settle s (err e, s') = (err e, s)

-- Begin, the body, and the deferred Rollback, which does nothing after a commit.
abbrev pub transact : {S A : Type 0} → Bool → Tx S (Result A) → S → Result A × S
transact true body s = (err storage, s)
transact false body s = settle s (body s)

abbrev pub commit : {S A : Type 0} → Bool → Result A → Tx S (Result A)
commit fails r = exec fails (λ s. (r, s))

abbrev pub or_raise : {S A : Type 0} → Error → Option A → Tx S A
or_raise e none = raise e
or_raise e (some a) = pure a
