-- ===== src/Base/Text.antt =====
-- What the program uses of Go's `strings` and `encoding/hex`, and internal/random/value.go.
use Prim.Native.Nat.{ℕ, suc, ◌/◌, ◌%◌}
use Prim.Native.Char.{Char, code}
use Prim.Native.String.{String, slice, len}
use Prim.Native.String
use mathlib.Core.Bool.{Bool, ◌&&◌, ◌||◌}
use mathlib.Core.Option.{Option, none, some}
use mathlib.Core.List.{List, [], ◌∷◌}
use text.Mathlib.Text.{◌==◌}
use say.Base.Tests.{if◌then◌else◌, eqb, leb}

-- s + t
abbrev pub cat : String → String → String
cat s t = String.◌++◌ s t

-- strings.HasPrefix
abbrev pub has_prefix : String → String → Bool
has_prefix s prefix = slice s 0 (len prefix) == prefix

-- strings.TrimPrefix
abbrev pub trim_prefix : String → String → String
trim_prefix s prefix = if has_prefix s prefix then slice s (len prefix) (len s) else s

-- unicode.IsSpace
unfoldable pub is_space : Char → Bool
is_space c =
    let n = code c in
    (leb 9 n && leb n 13)
    || (eqb n 0x20 || eqb n 0x85 || eqb n 0xa0)
    || (eqb n 0x1680 || (leb 0x2000 n && leb n 0x200a))
    || (eqb n 0x2028 || eqb n 0x2029 || eqb n 0x202f)
    || (eqb n 0x205f || eqb n 0x3000)

unfoldable pub trim_left : String → String
unfolding is_space
trim_left String.[] = String.[]
trim_left (String.◌∷◌ c s) = let rest = trim_left s in if is_space c then rest else String.◌∷◌ c s

unfoldable pub trim_right : String → String
unfolding is_space
trim_right String.[] = String.[]
trim_right (String.◌∷◌ c s) =
    let rest = trim_right s in if rest == "" && is_space c then "" else String.◌∷◌ c rest

-- strings.TrimSpace
unfoldable pub trim_space : String → String
unfolding trim_left trim_right
trim_space s = trim_left (trim_right s)

unfoldable pub hex_digit : ℕ → String
hex_digit n = slice "0123456789abcdef" n (suc n)

-- hex.EncodeToString
unfoldable pub hex : List ℕ → String
unfolding hex_digit
hex [] = ""
hex (b ∷ bs) = cat (hex_digit (b / 16)) (cat (hex_digit (b % 16)) (hex bs))

-- random.Value: `none` stands for a failure of the system's random source, and `some` for the
-- bytes that it gave.
unfoldable pub random_value : String → Option (List ℕ) → Option String
unfolding hex
random_value prefix none = none
random_value prefix (some bytes) = some (cat prefix (hex bytes))
