-- ===== src/Base/Prefixes.antt =====
-- Texts that are a prefix and a rest.
use Prim.Native.Nat.{◌+◌}
use Prim.Native.String.{String, slice, len, ◌++◌}
use mathlib.Core.Path.{◌≡◌, sym, ap, ◌∙◌}
use mathlib.Core.Bool.{true, false}
use text.Mathlib.Text.{◌==◌}
use text.Mathlib.TextPositions.{eq_refl, slice-append_left, slice-append_middle, len-append}
use text.Mathlib.TextLemmas.{append-nil, append_assoc}
use say.Base.Text.{cat, has_prefix, trim_prefix}

pub has_prefix-cat : (a s : String) → has_prefix (cat a s) a ≡ true
has_prefix-cat a s = rw (slice-append_left a s) (eq_refl a)

pub trim_prefix-cat : (a s : String) → trim_prefix (cat a s) a ≡ s
trim_prefix-cat a s =
    let rest : slice (a ++ s) (len a) (len (a ++ s)) ≡ s =
      ap (λ n. slice (a ++ s) (len a) n) (len-append a s)
      ∙ ap (λ u. slice (a ++ u) (len a) (len a + len s)) (sym (append-nil s))
      ∙ slice-append_middle a s "" in
    rw (has_prefix-cat a s) rest

-- One prefix is not the other.
pub has_prefix-other :
    (a b c s : String) → len a ≡ len c → (a == c) ≡ false → has_prefix (cat (cat a b) s) c ≡ false
has_prefix-other a b c s same other =
    rw (append_assoc a b s, ← same, slice-append_left a (b ++ s)) other
