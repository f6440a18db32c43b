-- ===== src/Database/Yields.antt =====
-- What the steps of a transaction return, if they succeed: one rule for each way to end one.
use say.Base.{Bool, true, false, ◌≡◌, subst, arith, if◌then◌else◌}
use say.Database.{Error, Result, ok, err, Tx, ◌>>=◌, continue, raise, commit}

pub record Yields {S A : Type 0} (Q : A → Type 0) (m : Tx S A) : Type 0 where
  pub at : (s : S) (a : A) → (m s).0 ≡ ok a → Q a

module _ {S A : Type 0} where
  pub Yields-raise : {Q : A → Type 0} (e : Error) → Yields {S = S} Q (raise e)
  Yields-raise e = record { at = λ s a h. absurd (ground arith) }

  pub Yields-commit :
      {Q : Result A → Type 0} (b : Bool) (r : Result A) → Q r → Yields {S = S} Q (commit b r)
  Yields-commit {Q} true r q = record { at = λ s a h. absurd (ground arith) }
  Yields-commit {Q} false r q = record { at = λ s a h. subst Q (ground arith) q }

  pub Yields-if :
      {Q : A → Type 0} (b : Bool) (m n : Tx S A)
      → Yields Q m
      → Yields Q n
      → Yields Q (if b then m else n)
  Yields-if true m n ym yn = ym
  Yields-if false m n ym yn = yn

module _ {S A B : Type 0} {Q : B → Type 0} where
  continue-yields :
      (r : Result A) (s : S) (f : A → Tx S B)
      → ((a : A) → Yields Q (f a))
      → (b : B) → (continue (r, s) f).0 ≡ ok b
      → Q b
  continue-yields (ok a) s f yf b h = (yf a).at s b h
  continue-yields (err e) s f yf b h = absurd (ground arith)

  pub Yields-bind : (m : Tx S A) (f : A → Tx S B) → ((a : A) → Yields Q (f a)) → Yields Q (m >>= f)
  Yields-bind m f yf = record { at = λ s. continue-yields (m s).0 (m s).1 f yf }

pub ruleset yields_rules = (Yields-raise, Yields-commit, Yields-if, Yields-bind)
