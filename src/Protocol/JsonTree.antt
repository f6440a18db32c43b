-- ===== src/Protocol/JsonTree.antt =====
-- JSON values, as encoding/json builds them from the structs of the protocol and reads them back.
-- The text of a value is not modelled.
use say.Base.{
  ℕ, ℤ, ◌+◌, String, Bool, true, false, ◌&&◌, Option, none, some, ◌==◌, eqb, leb, if◌then◌else◌,
}
use Prim.Native.Char.{code}

mutual
  pub data Json : Type 0 where
    null : Json
    bool : Bool → Json
    num : ℤ → Json
    str : String → Json
    arr : Items → Json
    obj : Fields → Json

  pub data Items : Type 0 where
    nil : Items
    cons : Json → Items → Items

  pub data Fields : Type 0 where
    end : Fields
    field : String → Json → Fields → Fields

-- The keys of an object are matched with a struct's names, which are ASCII, without regard to case:
-- the signs for kelvin and the long s are other cases of k and s.
abbrev fold_code : ℕ → ℕ
fold_code n =
    if leb 0x41 n && leb n 0x5a
    then n + 0x20
    else if eqb n 0x212a
    then 0x6b
    else if eqb n 0x17f
    then 0x73
    else n

abbrev pub same_key : String → String → Bool
same_key String.[] String.[] = true
same_key (String.◌∷◌ c s) (String.◌∷◌ d t) =
    let rest = same_key s t in eqb (fold_code (code c)) (fold_code (code d)) && rest
same_key _ _ = false

-- A value into a variable of type string: null leaves it as it was, another type is an error.
abbrev pub into_text : String → Json → Option String
into_text old null = some old
into_text old (str s) = some s
into_text old _ = none

-- The field `k : string` of a struct, from the members of an object in their order.
unfoldable pub text_field : String → String → Fields → Option String
text_field k old end = some old
text_field k old (field j v rest) = elim (if same_key j k then into_text old v else some old) [
  | none ↦ none
  | some new ↦ text_field k new rest
]

-- A string field with the option omitempty.
unfoldable pub omit_empty : String → String → Fields → Fields
omit_empty k s rest = if s == "" then rest else field k (str s) rest

-- The members of a value that is read into a struct: null counts as an empty object.
abbrev pub members : Json → Option Fields
members null = some end
members (obj fs) = some fs
members _ = none
