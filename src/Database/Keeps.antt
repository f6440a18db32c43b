-- ===== src/Database/Keeps.antt =====
-- Properties of the tables that the steps of a transaction keep, one rule for each step.
use say.Base.{Bool, true, false, ◌≡◌, refl, ◌⊎◌, inl, Option, none, some, arith, if◌then◌else◌}
use say.Database.{
  Error, Result, ok, err, Tx, ◌>>=◌, continue, pure, raise, exec, exec_checked, checked, transact,
  commit, or_raise,
}

-- `m` leaves tables with P, whether it succeeds or not.
pub record Keeps {S A : Type 0} (P : S → Type 0) (m : Tx S A) : Type 0 where
  pub at : (s : S) → P s → P (m s).1

module _ {S A : Type 0} {P : S → Type 0} where
  pub Keeps-pure : (a : A) → Keeps P (pure a)
  Keeps-pure a = record { at = λ s h. h }

  pub Keeps-raise : (e : Error) → Keeps P (raise {A = A} e)
  Keeps-raise e = record { at = λ s h. h }

  pub Keeps-or_raise : (e : Error) (o : Option A) → Keeps P (or_raise e o)
  Keeps-or_raise e none = record { at = λ s h. h }
  Keeps-or_raise e (some a) = record { at = λ s h. h }

  pub Keeps-exec : (b : Bool) (f : S → A × S) → ((s : S) → P s → P (f s).1) → Keeps P (exec b f)
  Keeps-exec true f kf = record { at = λ s h. h }
  Keeps-exec false f kf = record { at = kf }

  checked-keeps :
      (r : Result (A × S)) (s : S)
      → P s
      → ((a : A) (s' : S) → r ≡ ok (a, s') → P s')
      → P (checked r s).1
  checked-keeps (ok (a, s')) s h k = k a s' refl
  checked-keeps (err e) s h k = h

  pub Keeps-exec_checked :
      (b : Bool) (f : S → Result (A × S))
      → ((s : S) (a : A) (s' : S) → P s → f s ≡ ok (a, s') → P s')
      → Keeps P (exec_checked b f)
  Keeps-exec_checked true f kf = record { at = λ s h. h }
  Keeps-exec_checked false f kf = record {
    at = λ s h. checked-keeps (f s) s h (λ a s' e. kf s a s' h e);
  }

  -- Both branches leave such tables.
  pub Keeps-if :
      (test : Bool) (m₁ m₂ : Tx S A) → Keeps P m₁ → Keeps P m₂ → Keeps P (if test then m₁ else m₂)
  Keeps-if true m₁ m₂ left right = left
  Keeps-if false m₁ m₂ left right = right

  pub Keeps-commit : (b : Bool) (r : Result A) → Keeps P (commit b r)
  Keeps-commit true r = record { at = λ s h. h }
  Keeps-commit false r = record { at = λ s h. h }

module _ {S A B : Type 0} {P : S → Type 0} where
  continue-keeps :
      (r : Result A) (s : S) (f : A → Tx S B)
      → P s
      → ((a : A) → Keeps P (f a))
      → P (continue (r, s) f).1
  continue-keeps (ok a) s f h kf = (kf a).at s h
  continue-keeps (err e) s f h kf = h

  pub Keeps-bind :
      (first : Tx S A) (rest : A → Tx S B)
      → Keeps P first
      → ((a : A) → Keeps P (rest a))
      → Keeps P (first >>= rest)
  Keeps-bind first rest kept later = record {
    at = λ s h. continue-keeps (first s).0 (first s).1 rest (kept.at s h) later;
  }

pub ruleset keeps_rules = (
  Keeps-pure, Keeps-raise, Keeps-or_raise, Keeps-exec, Keeps-exec_checked, Keeps-if, Keeps-commit,
  Keeps-bind,
)

module _ {S A : Type 0} where
  -- The result of a transaction: the tables are the old ones, or the body has committed.
  pub transact_cases :
      (b : Bool) (body : Tx S (Result A)) (s : S)
      → ((transact b body s).1 ≡ s)
        ⊎ ((body s).0 ≡ ok (transact b body s).0) × ((body s).1 ≡ (transact b body s).1)
  transact_cases true body s = inl refl
  transact_cases false body s = ground arith

  -- A transaction that succeeds has committed.
  pub transact-ok :
      (b : Bool) (body : Tx S (Result A)) (s : S) (a : A)
      → (transact b body s).0 ≡ ok a
      → ((body s).0 ≡ ok (ok a)) × ((body s).1 ≡ (transact b body s).1)
  transact-ok true body s a h = absurd (ground arith)
  transact-ok false body s a h = ground arith
