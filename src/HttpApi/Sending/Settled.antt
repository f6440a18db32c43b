-- ===== src/HttpApi/Sending/Settled.antt =====
-- What the store's calls in sendMessage leave of the commands: their ids stay distinct, and a
-- command that is no longer pending stays so.
use say.Base.{
  String, Bool, false, ◌≡◌, inl, inr, refl, none, some, List, [], ◌∷◌, ◌++◌, ◌==◌, arith,
  Bool-cases, eq_iff,
}
use say.Database.Tables.{find, update, find-update, find-insert, find-none-false}
use say.Postgres.{CommandRow}
use say.Postgres.Sends.{has_key}

-- The primary key.
unfoldable pub Distinct : List CommandRow → Type 0
Distinct [] = Unit
Distinct (r ∷ rs) = (find (λ x. x.id == r.id) rs ≡ none) × Distinct rs

-- The send with this key is no longer pending.
pub record Settled (account_id key : String) (rows : List CommandRow) : Type 0 where
  pub command : CommandRow
  pub stands : find (has_key account_id key) rows ≡ some command
  pub over : (command.status == "pending") ≡ false

-- A change of commands that the statements make.
pub record Safe (f : CommandRow → CommandRow) : Type 0 where
  pub same_id : (c : CommandRow) → (f c).id ≡ c.id
  pub same_account : (c : CommandRow) → (f c).account_id ≡ c.account_id
  pub same_key : (c : CommandRow) → (f c).idempotency_key ≡ c.idempotency_key
  pub stays :
      (c : CommandRow) → (c.status == "pending") ≡ false → ((f c).status == "pending") ≡ false

-- What the statements keep.
pub record Stable (P : List CommandRow → Type 0) : Type 0 where
  pub on_update :
      (p : CommandRow → Bool) (f : CommandRow → CommandRow) (rows : List CommandRow)
      → Safe f
      → P rows
      → P (update p f rows)
  pub on_insert :
      (c : CommandRow) (rows : List CommandRow)
      → find (λ x. x.id == c.id) rows ≡ none
      → P rows
      → P (rows ++ c ∷ [])

Distinct-update :
    (p : CommandRow → Bool) (f : CommandRow → CommandRow) (rows : List CommandRow)
    → Safe f
    → Distinct rows
    → Distinct (update p f rows)
unfolding Distinct update
Distinct-update p f [] safe h = tt
Distinct-update p f (r ∷ rs) safe h =
    let law =
      λ (id : String). find-update (λ x. x.id == id) p f rs (λ x. rw (safe.same_id x) refl) in
    elim (Bool-cases (p r)) [
      | inl yes' ↦
          rw (yes', safe.same_id r) (rw (law r.id, h.0) refl, Distinct-update p f rs safe h.1)
      | inr no' ↦ rw no' (rw (law r.id, h.0) refl, Distinct-update p f rs safe h.1)
    ]

Distinct-insert :
    (c : CommandRow) (rows : List CommandRow)
    → find (λ x. x.id == c.id) rows ≡ none
    → Distinct rows
    → Distinct (rows ++ c ∷ [])
unfolding Distinct find
Distinct-insert c [] new h = (refl, tt)
Distinct-insert c (r ∷ rs) new h = (
  ground (arith, find-insert (λ x. x.id == r.id) c rs, h.0, eq_iff c.id r.id, eq_iff r.id c.id),
  Distinct-insert c rs (ground arith) h.1,
)

pub Distinct-Stable : Stable Distinct
Distinct-Stable = record { on_update = Distinct-update; on_insert = Distinct-insert }

-- Two queries that find rows with one id find the same row.
pub Distinct-same :
    (p q : CommandRow → Bool) (rows : List CommandRow) (a b : CommandRow)
    → Distinct rows
    → find p rows ≡ some a
    → find q rows ≡ some b
    → a.id ≡ b.id
    → a ≡ b
unfolding Distinct find
Distinct-same p q [] a b h fa fb e = absurd (ground arith)
Distinct-same p q (r ∷ rs) a b h fa fb e = elim (Bool-cases (p r)) [
  | inl yes' ↦ elim (Bool-cases (q r)) [
    | inl yes'' ↦ ground arith
    | inr no'' ↦
        let out = find-none-false (λ x. x.id == r.id) q rs b h.0 (ground arith) in
        absurd (ground (arith, out, eq_iff b.id r.id))
  ]
  | inr no' ↦ elim (Bool-cases (q r)) [
    | inl yes'' ↦
        let out = find-none-false (λ x. x.id == r.id) p rs a h.0 (ground arith) in
        absurd (ground (arith, out, eq_iff a.id r.id))
    | inr no'' ↦ Distinct-same p q rs a b h.1 (ground arith) (ground arith) e
  ]
]

module _ (account_id key : String) where
  Settled-update :
      (p : CommandRow → Bool) (f : CommandRow → CommandRow) (rows : List CommandRow)
      → Safe f
      → Settled account_id key rows
      → Settled account_id key (update p f rows)
  Settled-update p f rows safe s =
      let law =
        find-update (has_key account_id key) p f rows
          (λ x. rw (safe.same_account x, safe.same_key x) refl) in
      elim (Bool-cases (p s.command)) [
        | inl yes' ↦ record {
          command = f s.command;
          stands = ground (arith, law, s.stands, yes');
          over = safe.stays s.command s.over;
        }
        | inr no' ↦ record {
          command = s.command;
          stands = ground (arith, law, s.stands, no');
          over = s.over;
        }
      ]

  Settled-insert :
      (c : CommandRow) (rows : List CommandRow)
      → find (λ x. x.id == c.id) rows ≡ none
      → Settled account_id key rows
      → Settled account_id key (rows ++ c ∷ [])
  Settled-insert c rows new s = record {
    command = s.command;
    stands = ground (arith, find-insert (has_key account_id key) c rows, s.stands);
    over = s.over;
  }

  pub Settled-Stable : Stable (Settled account_id key)
  Settled-Stable = record { on_update = Settled-update; on_insert = Settled-insert }
