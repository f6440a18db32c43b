-- ===== src/Database/Tables.antt =====
-- Tables as lists of rows, and the statements on them.
use say.Base.{
  Bool, true, false, ◌≡◌, refl, Option, none, some, List, [], ◌∷◌, ◌++◌, if◌then◌else◌, arith,
}

module _ {R : Type 0} where
  -- SELECT … WHERE p, of the one row that a unique column picks
  unfoldable pub find : (R → Bool) → List R → Option R
  find p [] = none
  find p (r ∷ rs) = if p r then some r else find p rs

  -- UPDATE … SET f WHERE p
  unfoldable pub update : (R → Bool) → (R → R) → List R → List R
  update p f [] = []
  update p f (r ∷ rs) = (if p r then f r else r) ∷ update p f rs

  -- SELECT … WHERE p, and the rows that DELETE … WHERE NOT p leaves
  unfoldable pub select : (R → Bool) → List R → List R
  select p [] = []
  select p (r ∷ rs) = let rest = select p rs in if p r then r ∷ rest else rest

  abbrev pub touched : (R → Bool) → (R → R) → Option R → Option R
  touched p f none = none
  touched p f (some r) = some (if p r then f r else r)

  -- An update that does not change what a query asks.
  pub find-update :
      (q p : R → Bool) (f : R → R) (rs : List R)
      → ((r : R) → q (f r) ≡ q r)
      → find q (update p f rs) ≡ touched p f (find q rs)
  unfolding find update
  find-update q p f [] same = refl
  find-update q p f (r ∷ rs) same = ground (arith, same r, find-update q p f rs same)

  abbrev pub or_else : Option R → Option R → Option R
  or_else none o = o
  or_else (some r) o = some r

  -- An insert comes after the rows that are there.
  pub find-insert :
      (q : R → Bool) (r : R) (rs : List R)
      → find q (rs ++ r ∷ []) ≡ or_else (find q rs) (if q r then some r else none)
  unfolding find
  find-insert q r [] = ground arith
  find-insert q r (x ∷ rs) = ground (arith, find-insert q r rs)

  -- A row that is found meets the query.
  pub find-holds : (q : R → Bool) (rs : List R) (r : R) → find q rs ≡ some r → q r ≡ true
  unfolding find
  find-holds q [] r h = absurd (ground arith)
  find-holds q (x ∷ rs) r h = ground (arith, find-holds q rs r)

  -- A query that finds no row is false of any row that another query finds.
  pub find-none-false :
      (p q : R → Bool) (rs : List R) (r : R) → find p rs ≡ none → find q rs ≡ some r → p r ≡ false
  unfolding find
  find-none-false p q [] r e h = absurd (ground arith)
  find-none-false p q (x ∷ rs) r e h = ground (arith, find-none-false p q rs r)

  pub find-weaken :
      (p q : R → Bool) (rs : List R)
      → ((r : R) → p r ≡ false → q r ≡ false)
      → find p rs ≡ none
      → find q rs ≡ none
  unfolding find
  find-weaken p q [] w e = refl
  find-weaken p q (x ∷ rs) w e = ground (arith, w x, find-weaken p q rs w)

  -- An update of the rows of a query that finds none.
  pub update-none : (p : R → Bool) (f : R → R) (rs : List R) → find p rs ≡ none → update p f rs ≡ rs
  unfolding find update
  update-none p f [] h = refl
  update-none p f (x ∷ rs) h = ground (arith, update-none p f rs)

  -- An update after which none of the rows meets the query.
  pub find-update-none :
      (q p : R → Bool) (f : R → R) (rs : List R)
      → ((r : R) → q (if p r then f r else r) ≡ false)
      → find q (update p f rs) ≡ none
  unfolding find update
  find-update-none q p f [] gone = refl
  find-update-none q p f (x ∷ rs) gone = ground (arith, gone x, find-update-none q p f rs gone)

  -- Rows that a query picks out are found among those that a selection keeps.
  pub find-select :
      (q p : R → Bool) (rs : List R) (r : R)
      → find q rs ≡ some r
      → p r ≡ true
      → find q (select p rs) ≡ some r
  unfolding find select
  find-select q p [] r h keeps = absurd (ground arith)
  find-select q p (x ∷ rs) r h keeps = ground (arith, find-select q p rs r)

  pub find-false : (q : R → Bool) (rs : List R) → ((r : R) → q r ≡ false) → find q rs ≡ none
  unfolding find
  find-false q [] never = refl
  find-false q (x ∷ rs) never = ground (arith, never x, find-false q rs never)

  -- What a selection keeps meets it.
  pub find-select-none :
      (q p : R → Bool) (rs : List R)
      → ((r : R) → q r ≡ true → p r ≡ false)
      → find q (select p rs) ≡ none
  unfolding find select
  find-select-none q p [] drops = refl
  find-select-none q p (x ∷ rs) drops = ground (arith, drops x, find-select-none q p rs drops)
