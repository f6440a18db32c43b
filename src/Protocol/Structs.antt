-- ===== src/Protocol/Structs.antt =====
-- How encoding/json reads an object into a struct with given fields, from what the struct was before.
use say.Base.{◌^◌, pos, negsuc, ℤ, Option, none, some, String, ltb, if◌then◌else◌}
use say.Protocol.JsonTree.{Json, null, num, obj, Fields, end, field}

-- `set` reads the member of the given name into the struct, if it has a field for it.
abbrev pub Setter : Type 0 → Type 0
Setter T = String → Json → T → Option T

unfoldable pub fill : {T : Type 0} → Setter T → T → Fields → Option T
fill set t end = some t
fill set t (field k v rest) = elim (set k v t) [ none ↦ none | some t' ↦ fill set t' rest ]

abbrev pub into_struct : {T : Type 0} → Setter T → T → Json → Option T
into_struct set old null = some old
into_struct set old (obj fs) = fill set old fs
into_struct set old _ = none

abbrev pub point : {T : Type 0} → Option T → Option (Option T)
point none = none
point (some t) = some (some t)

abbrev pub or_zero : {T : Type 0} → T → Option T → T
or_zero zero none = zero
or_zero zero (some t) = t

-- A field that is a pointer to a struct: null is nil, and nil is made to point to a zero value.
abbrev pub into_pointer : {T : Type 0} → Setter T → T → Option T → Json → Option (Option T)
into_pointer set zero old null = some none
into_pointer set zero old (obj fs) = point (fill set (or_zero zero old) fs)
into_pointer set zero old _ = none

-- int64
abbrev pub into_int64 : ℤ → Json → Option ℤ
into_int64 old null = some old
into_int64 old (num (pos n)) = if ltb n (2 ^ 63) then some (pos n) else none
into_int64 old (num (negsuc n)) = if ltb n (2 ^ 63) then some (negsuc n) else none
into_int64 old _ = none

-- A struct with the fields of another, one of which is read.
abbrev pub with : {T F : Type 0} → (F → T) → Option F → Option T
with make none = none
with make (some x) = some (make x)
