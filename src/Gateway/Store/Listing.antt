-- ===== src/Gateway/Store/Listing.antt =====
-- Who sees and who deletes which accounts of the in-memory store.
use mathlib.Core.List.{Mem, Perm, mem-cons_self, mem-cons_of_mem}
use mathlib.Core.List.Perm
use say.Base.{
  ◌≤◌, String, ◌≡◌, ◌⊎◌, Bool, true, false, ◌&&◌, if◌then◌else◌, refl, subst, some, List, [], ◌∷◌,
  ◌==◌, arith, eq_iff, Map, lookup, All, All-mono, lookup-remove, ltb, Bool-cases, inl, inr,
}
use say.Gateway.Account.{Account, Result, ok, err, not_found}
use say.Gateway.Store.{
  Store, list_accounts, get_account, delete_account, owned_by, sort_by_created, insert_by_created,
}

-- In the order of creation, oldest first.
abbrev pub IsSorted : List Account → Type 0
IsSorted [] = Unit
IsSorted (a ∷ rest) = All (λ b. a.created_at ≤ b.created_at) rest × IsSorted rest

All-insert :
    (P : Account → Type 0) (a : Account) (bs : List Account)
    → P a
    → All P bs
    → All P (insert_by_created a bs)
unfolding insert_by_created
All-insert P a [] p h = (p, tt)
All-insert P a (b ∷ bs) p h = elim (Bool-cases (ltb b.created_at a.created_at)) [
  | inl e ↦ rw (e, insert_by_created) (h.0, All-insert P a bs p h.1)
  | inr e ↦ rw (e, insert_by_created) (p, h)
]

All-sort : (P : Account → Type 0) (accs : List Account) → All P accs → All P (sort_by_created accs)
unfolding sort_by_created
All-sort P [] h = tt
All-sort P (a ∷ rest) h = All-insert P a (sort_by_created rest) h.0 (All-sort P rest h.1)

insert-IsSorted :
    (a : Account) (bs : List Account) → IsSorted bs → IsSorted (insert_by_created a bs)
unfolding insert_by_created
insert-IsSorted a [] h = (tt, tt)
insert-IsSorted a (b ∷ bs) h = elim (Bool-cases (ltb b.created_at a.created_at)) [
  | inl e ↦
      rw (e, insert_by_created)
        (
          All-insert (λ x. b.created_at ≤ x.created_at) a bs (ground arith) h.0,
          insert-IsSorted a bs h.1,
        )
  | inr e ↦
      let le : a.created_at ≤ b.created_at = ground arith in
      rw (e, insert_by_created)
        (
          (
            le,
            All-mono (λ x. b.created_at ≤ x.created_at) (λ x. a.created_at ≤ x.created_at) bs
                (λ x q. omega arith) h.0,
          ),
          h,
        )
]

sort-IsSorted : (accs : List Account) → IsSorted (sort_by_created accs)
unfolding sort_by_created
sort-IsSorted [] = tt
sort-IsSorted (a ∷ rest) = insert-IsSorted a (sort_by_created rest) (sort-IsSorted rest)

insert-perm : (a : Account) (bs : List Account) → Perm (a ∷ bs) (insert_by_created a bs)
unfolding insert_by_created
insert-perm a [] = Perm.refl _
insert-perm a (b ∷ bs) = elim (Bool-cases (ltb b.created_at a.created_at)) [
  | inl e ↦
      rw (e, insert_by_created) (Perm.trans (Perm.swap b a bs) (Perm.cons b (insert-perm a bs)))
  | inr e ↦ rw (e, insert_by_created) (Perm.refl _)
]

sort-perm : (accs : List Account) → Perm accs (sort_by_created accs)
unfolding sort_by_created
sort-perm [] = Perm.refl _
sort-perm (a ∷ rest) =
    Perm.trans (Perm.cons a (sort-perm rest)) (insert-perm a (sort_by_created rest))

owned_by-All : (u : String) (m : Map Account) → All (λ a. a.user_id ≡ u) (owned_by u m)
unfolding owned_by
owned_by-All u [] = tt
owned_by-All u ((k, a) ∷ m) = elim (Bool-cases (a.user_id == u)) [
  | inl e ↦ rw (e, owned_by) ((eq_iff a.user_id u).0 e, owned_by-All u m)
  | inr e ↦ rw (e, owned_by) (owned_by-All u m)
]

mem-owned_by :
    (u k : String) (a : Account) (m : Map Account)
    → lookup k m ≡ some a
    → a.user_id ≡ u
    → Mem a (owned_by u m)
unfolding lookup owned_by
mem-owned_by u k a [] h own = absurd (ground arith)
mem-owned_by u k a ((j, b) ∷ m) h own = elim (Bool-cases (j == k)) [
  | inl e ↦
      let same : b ≡ a = ground arith in
      rw (same, (eq_iff a.user_id u).1 own, owned_by) mem-cons_self
  | inr e ↦
      let later = mem-owned_by u k a m (ground arith) own in
      elim (Bool-cases (b.user_id == u)) [
        | inl mine ↦ rw (mine, owned_by) (mem-cons_of_mem b later)
        | inr other ↦ rw (other, owned_by) later
      ]
]

-- A listing changes nothing and gives accounts of the user alone, the oldest first.
pub list_accounts_lem :
    (user_id : String) (s : Store)
    → (listed : List Account) × (list_accounts user_id s ≡ (ok listed, s))
      × All (λ a. a.user_id ≡ user_id) listed
      × IsSorted listed
unfolding list_accounts
list_accounts_lem user_id s = (
  sort_by_created (owned_by user_id s.accounts),
  refl,
  All-sort _ _ (owned_by-All user_id s.accounts),
  sort-IsSorted (owned_by user_id s.accounts),
)

-- Every account that a user can get by its id is in the user's listing.
pub mem-list_accounts :
    (user_id id : String) (s : Store) (a : Account) (listed : List Account)
    → (get_account user_id id s).0 ≡ ok a
    → (list_accounts user_id s).0 ≡ ok listed
    → Mem a listed
unfolding list_accounts get_account
mem-list_accounts user_id id s a listed got all =
    let mem : Mem a (sort_by_created (owned_by user_id s.accounts)) =
      (Perm.mem_iff (sort-perm (owned_by user_id s.accounts))).0 (
        mem-owned_by user_id id a s.accounts (ground arith)
          (ground (arith, eq_iff a.user_id user_id))) in
    subst (Mem a) (ground arith) mem

abbrev pub granted : Result Account → Bool
granted (ok a) = true
granted (err e) = false

-- A user deletes exactly the accounts that the user can get. Else the answer is not found and
-- nothing changes. Afterwards a deleted account is found by nobody, and each other one as before.
pub delete_account_lem :
    (user_id id user_id' id' : String) (s : Store)
    → let s' = (delete_account user_id id s).1 in
      let may = granted (get_account user_id id s).0 in
      ((delete_account user_id id s).0 ≡ (if may then ok tt else err not_found))
      × ((may ≡ true) ⊎ (s' ≡ s))
      × ((get_account user_id' id' s').0
          ≡ (if may && id == id' then err not_found else (get_account user_id' id' s).0))
unfolding get_account delete_account
delete_account_lem user_id id user_id' id' s =
    (ground arith, ground arith, ground (arith, lookup-remove id id' s.accounts))
