-- ===== src/Database/Order.antt =====
-- ORDER BY and LIMIT.
use say.Base.{
  ℕ, suc, zero, ◌≤◌, Bool, List, [], ◌∷◌, if◌then◌else◌, arith, Bool-cases, inl, inr, All, length,
}

module _ {R : Type 0} where
  -- The rows in the order of `before`
  unfoldable pub insert_by : (R → R → Bool) → R → List R → List R
  insert_by before r [] = r ∷ []
  insert_by before r (x ∷ xs) =
      let rest = insert_by before r xs in if before x r then x ∷ rest else r ∷ x ∷ xs

  unfoldable pub order_by : (R → R → Bool) → List R → List R
  unfolding insert_by
  order_by before [] = []
  order_by before (r ∷ rs) = insert_by before r (order_by before rs)

  -- The first rows
  unfoldable pub limit : ℕ → List R → List R
  limit zero rs = []
  limit (suc n) [] = []
  limit (suc n) (r ∷ rs) = r ∷ limit n rs

  All-insert_by :
      (P : R → Type 0) (before : R → R → Bool) (r : R) (xs : List R)
      → P r
      → All P xs
      → All P (insert_by before r xs)
  unfolding insert_by
  All-insert_by P before r [] p h = (p, tt)
  All-insert_by P before r (x ∷ xs) p h = elim (Bool-cases (before x r)) [
    | inl e ↦ rw (e, insert_by) (h.0, All-insert_by P before r xs p h.1)
    | inr e ↦ rw (e, insert_by) (p, h)
  ]

  pub All-order_by :
      (P : R → Type 0) (before : R → R → Bool) (rs : List R) → All P rs → All P (order_by before rs)
  unfolding order_by
  All-order_by P before [] h = tt
  All-order_by P before (r ∷ rs) h =
      All-insert_by P before r (order_by before rs) h.0 (All-order_by P before rs h.1)

  pub All-limit : (P : R → Type 0) (n : ℕ) (rs : List R) → All P rs → All P (limit n rs)
  unfolding limit
  All-limit P zero rs h = tt
  All-limit P (suc n) [] h = tt
  All-limit P (suc n) (r ∷ rs) h = (h.0, All-limit P n rs h.1)

  pub length-limit : (n : ℕ) (rs : List R) → length (limit n rs) ≤ n
  unfolding limit
  length-limit zero rs = omega arith
  length-limit (suc n) [] = omega arith
  length-limit (suc n) (r ∷ rs) = omega (arith, length-limit n rs)
