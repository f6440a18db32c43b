-- ===== src/Worker/Backoff.antt =====
-- Run of internal/worker/client.go: the time between two connections.
use say.Base.{
  ℕ, zero, suc, refl, sym, subst, ◌+◌, ◌*◌, ◌^◌, ◌≤◌, ◌<◌, ◌≡◌, List, [], ◌∷◌, ltb, leb,
  if◌then◌else◌, arith, Bool-cases, inl, inr, ◌⊎◌, All,
}

-- time.Second
abbrev pub second : ℕ
second = 10 ^ 9

-- A connection that was lost: how long it lasted, and what rand.Int64N gave for the delay after it.
pub record Lost : Type 0 where
  pub lasted : ℕ
  pub random : ℕ

abbrev pub shortened : ℕ → ℕ → ℕ
shortened lasted backoff = if leb (60 * second) lasted then second else backoff

abbrev pub doubled : ℕ → ℕ
doubled backoff = if ltb backoff (30 * second) then backoff * 2 else backoff

-- The delays of the loop, from the backoff that it has.
unfoldable pub delays : ℕ → List Lost → List ℕ
delays backoff [] = []
delays backoff (x ∷ rest) =
    let now = shortened x.lasted backoff in (now + x.random) ∷ delays (doubled now) rest

-- What rand.Int64N gives is below its argument, the backoff at the time.
unfoldable pub AreBelow : ℕ → List Lost → Type 0
AreBelow backoff [] = Unit
AreBelow backoff (x ∷ rest) =
    (x.random < shortened x.lasted backoff) × AreBelow (doubled (shortened x.lasted backoff)) rest

-- The values that the backoff takes.
record IsStep (backoff : ℕ) : Type 0 where
  k : ℕ
  small : k ≤ 5
  value : backoff ≡ 2 ^ k * second

doubled-power : (k : ℕ) → k ≤ 5 → IsStep (doubled (2 ^ k * second))
doubled-power zero h = record { k = 1; small = omega arith; value = refl }
doubled-power (suc zero) h = record { k = 2; small = omega arith; value = refl }
doubled-power (suc (suc zero)) h = record { k = 3; small = omega arith; value = refl }
doubled-power (suc (suc (suc zero))) h = record { k = 4; small = omega arith; value = refl }
doubled-power (suc (suc (suc (suc zero)))) h = record { k = 5; small = omega arith; value = refl }
doubled-power (suc (suc (suc (suc (suc zero))))) h = record {
  k = 5;
  small = omega arith;
  value = refl;
}
doubled-power (suc (suc (suc (suc (suc (suc k)))))) h = absurd (omega (arith, h))

doubled-IsStep : (backoff : ℕ) → IsStep backoff → IsStep (doubled backoff)
doubled-IsStep backoff s = subst (λ b. IsStep (doubled b)) (sym s.value) (doubled-power s.k s.small)

shortened-IsStep : (lasted backoff : ℕ) → IsStep backoff → IsStep (shortened lasted backoff)
shortened-IsStep lasted backoff s = elim (Bool-cases (leb (60 * second) lasted)) [
  | inl long ↦ rw long (record { k = 0; small = omega arith; value = refl })
  | inr short ↦ rw short s
]

power-bounds : (k : ℕ) → k ≤ 5 → (second ≤ 2 ^ k * second) × (2 ^ k * second ≤ 32 * second)
power-bounds zero h = (omega arith, omega arith)
power-bounds (suc zero) h = (omega arith, omega arith)
power-bounds (suc (suc zero)) h = (omega arith, omega arith)
power-bounds (suc (suc (suc zero))) h = (omega arith, omega arith)
power-bounds (suc (suc (suc (suc zero)))) h = (omega arith, omega arith)
power-bounds (suc (suc (suc (suc (suc zero))))) h = (omega arith, omega arith)
power-bounds (suc (suc (suc (suc (suc (suc k)))))) h = absurd (omega (arith, h))

delays-within :
    (backoff : ℕ) (xs : List Lost)
    → IsStep backoff
    → AreBelow backoff xs
    → All (λ d. (second ≤ d) × (d < 64 * second)) (delays backoff xs)
unfolding delays AreBelow
delays-within backoff [] s h = tt
delays-within backoff (x ∷ rest) s h =
    let now = shortened x.lasted backoff in
    let t = shortened-IsStep x.lasted backoff s in
    let bounds : (second ≤ now) × (now ≤ 32 * second) =
      subst (λ b. (second ≤ b) × (b ≤ 32 * second)) (sym t.value) (power-bounds t.k t.small) in
    (
      (omega (arith, bounds.0), omega (arith, bounds.1, h.0)),
      delays-within (doubled now) rest (doubled-IsStep now t) h.1,
    )

abbrev pub rung : ℕ → ℕ
rung k = if ltb k 5 then k + 1 else 5

-- The waits after lost connections, the first from the k-th rung of a ladder: each is at least two to
-- the rung in seconds and less than twice that. A connection of a minute or more starts at the
-- bottom; the next rung is one higher, up to the fifth.
unfoldable pub Waits : ℕ → List Lost → List ℕ → Type 0
Waits k [] ds = ds ≡ []
Waits k (x ∷ rest) [] = ⊥
Waits k (x ∷ rest) (d ∷ ds) =
    (j : ℕ) × (((60 * second ≤ x.lasted) × (j ≡ 0)) ⊎ ((x.lasted < 60 * second) × (j ≡ k)))
    × (2 ^ j * second ≤ d)
    × (d < 2 * (2 ^ j * second))
    × Waits (rung j) rest ds

rung-small : (k : ℕ) → k ≤ 5 → rung k ≤ 5
rung-small k h = ground arith

doubled-rung : (k : ℕ) → k ≤ 5 → doubled (2 ^ k * second) ≡ 2 ^ rung k * second
doubled-rung zero h = refl
doubled-rung (suc zero) h = refl
doubled-rung (suc (suc zero)) h = refl
doubled-rung (suc (suc (suc zero))) h = refl
doubled-rung (suc (suc (suc (suc zero)))) h = refl
doubled-rung (suc (suc (suc (suc (suc zero))))) h = refl
doubled-rung (suc (suc (suc (suc (suc (suc k)))))) h = absurd (omega (arith, h))

delays-Waits :
    (k : ℕ) (xs : List Lost)
    → k ≤ 5
    → AreBelow (2 ^ k * second) xs
    → Waits k xs (delays (2 ^ k * second) xs)
unfolding Waits delays AreBelow
delays-Waits k [] small h = refl
delays-Waits k (x ∷ rest) small h = elim (Bool-cases (leb (60 * second) x.lasted)) [
  | inl long ↦
      let h' : (x.random < second) × AreBelow (doubled second) rest = rw long at h in
      rw long (
        0,
        inl (ground (arith, long), refl),
        omega arith,
        omega (arith, h'.0),
        delays-Waits 1 rest (omega arith) h'.1,
      )
  | inr short ↦
      let h' : (x.random < 2 ^ k * second) × AreBelow (doubled (2 ^ k * second)) rest =
        rw short at h in
      let up = doubled-rung k small in
      let later =
        subst (λ b. AreBelow b rest → Waits (rung k) rest (delays b rest)) (sym up)
          (delays-Waits (rung k) rest (rung-small k small)) in
      rw short (k, inr (ground (arith, short), refl), omega arith, omega (arith, h'.0), later h'.1)
]

-- The waits between connections start at one second and double, up to 32 seconds, with a random part
-- of less than that added; after a connection of a minute or more they start again at one second. So
-- however often and however soon the connection is lost, the worker waits at least one second before
-- it connects again, and less than 64 seconds. The random number is taken to be below its limit.
pub delays_bounded :
    (xs : List Lost)
    → AreBelow second xs
    → Waits 0 xs (delays second xs) × All (λ d. (second ≤ d) × (d < 64 * second)) (delays second xs)
delays_bounded xs h = (
  delays-Waits 0 xs (omega arith) h,
  delays-within second xs (record { k = 0; small = omega arith; value = refl }) h,
)
