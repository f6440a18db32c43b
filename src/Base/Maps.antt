-- ===== src/Base/Maps.antt =====
-- Go's `map[string]V` as an association list. Reads see the first entry of a key.
use Prim.Native.String.{String}
use mathlib.Core.Path.{◌≡◌, refl}
use mathlib.Core.Bool.{Bool}
use mathlib.Core.Option.{Option, none, some}
use mathlib.Core.List.{List, [], ◌∷◌}
use native.Mathlib.Omega.{arith}
use text.Mathlib.Text.{◌==◌}
use text.Mathlib.TextEquality.{eq_iff}
use say.Base.Tests.{if◌then◌else◌}

abbrev pub Map {ℓ} : Type ℓ → Type ℓ
Map V = List (String × V)

module _ {ℓ} {V : Type ℓ} where
  -- m[k], with the presence flag as an option
  unfoldable pub lookup : String → Map V → Option V
  lookup k [] = none
  lookup k ((j, v) ∷ m) = if j == k then some v else lookup k m

  -- delete(m, k)
  unfoldable pub remove : String → Map V → Map V
  remove k [] = []
  remove k ((j, v) ∷ m) = let rest = remove k m in if j == k then rest else (j, v) ∷ rest

  -- m[k] = v
  unfoldable pub put : String → V → Map V → Map V
  unfolding remove
  put k v m = (k, v) ∷ remove k m

  pub lookup-remove :
      (k j : String) (m : Map V) → lookup j (remove k m) ≡ (if k == j then none else lookup j m)
  unfolding lookup remove
  lookup-remove k j [] = ground arith
  lookup-remove k j ((i, v) ∷ m) =
      ground (arith, lookup-remove k j m, eq_iff i k, eq_iff i j, eq_iff k j)

  pub lookup-put :
      (k j : String) (v : V) (m : Map V)
      → lookup j (put k v m) ≡ (if k == j then some v else lookup j m)
  unfolding lookup put
  lookup-put k j v m = ground (arith, lookup-remove k j m)

  -- `for k, v := range m { if p(v) { delete(m, k) } }`
  unfoldable pub purge : (V → Bool) → Map V → Map V
  purge p [] = []
  purge p ((k, v) ∷ m) = let rest = purge p m in if p v then remove k rest else (k, v) ∷ rest

  abbrev pub unless : (V → Bool) → Option V → Option V
  unless p none = none
  unless p (some v) = if p v then none else some v

  pub lookup-purge :
      (p : V → Bool) (j : String) (m : Map V) → lookup j (purge p m) ≡ unless p (lookup j m)
  unfolding lookup purge
  lookup-purge p j [] = refl
  lookup-purge p j ((k, v) ∷ m) =
      ground (arith, lookup-purge p j m, lookup-remove k j (purge p m), eq_iff k j)

  pub ruleset map_laws = (lookup-remove, lookup-put, lookup-purge)
