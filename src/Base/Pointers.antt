-- ===== src/Base/Pointers.antt =====
-- Objects under numbers, for what the program reaches by pointers.
use Prim.Native.Nat.{ℕ}
use mathlib.Core.Option.{Option}
use say.Base.Tests.{if◌then◌else◌, eqb}

abbrev pub Heap {ℓ} : Type ℓ → Type ℓ
Heap A = ℕ → Option A

abbrev pub write {ℓ} : {A : Type ℓ} → ℕ → Option A → Heap A → Heap A
write p v h q = if eqb p q then v else h q
