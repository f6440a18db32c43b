-- ===== src/Worker/Spool/Names.antt =====
-- The names of the files of internal/worker/spool.go.
use say.Base.{
  ◌+◌, ◌-◌, String, len, cat, true, false, ◌≡◌, ◌≢◌, ◌==◌, refl, sym, subst, ap, ◌∙◌, inl, inr,
  if◌then◌else◌, arith, eq_iff, eq_refl, Bool-cases,
}
use Prim.Native.String.{slice, ◌++◌}
use text.Mathlib.TextPositions.{slice-append_middle, len-append}
use text.Mathlib.TextLemmas.{append-nil, append_assoc, append_cancel_right}
use say.Worker.Spool.{has_suffix, path, temporary}

-- A text ends in its last part.
slice-end : (a b : String) → slice (a ++ b) (len (a ++ b) - len b) (len (a ++ b)) ≡ b
slice-end a b =
    let start : len (a ++ b) - len b ≡ len a = omega (arith, len-append a b) in
    ap (λ n. slice (a ++ b) n (len (a ++ b))) start
    ∙ ap (λ n. slice (a ++ b) (len a) n) (len-append a b)
    ∙ ap (λ u. slice (a ++ u) (len a) (len a + len b)) (sym (append-nil b))
    ∙ slice-append_middle a b ""

-- What filepath.Base and filepath.Join are documented to do: the base of the empty text is a dot, and
-- a text that is its own base is a name, so that joining cleans nothing away, or it is the root.
pub record IsFilepath (base join : String → String) : Type 0 where
  pub empty : base "" ≡ "."
  pub root : join "/.json" ≡ ".json"
  pub plain : (id : String) → base id ≡ id → id ≢ "/" → join (cat id ".json") ≡ cat id ".json"

-- What stands in front of .json in the name of an event's file.
abbrev stem : String → String
stem id = if id == "/" then "" else id

stem-plain : (id : String) → id ≢ "/" → stem id ≡ id
stem-plain id other = ground (arith, other, eq_iff id "/")

has_suffix-json : (s : String) → has_suffix (cat s ".json") ".json" ≡ true
has_suffix-json s = rw (slice-end s ".json") (eq_refl ".json")

has_suffix-tmp : (s : String) → has_suffix (cat (cat s ".json") ".tmp") ".json" ≡ false
has_suffix-tmp s =
    let split : (s ++ ".json") ++ ".tmp" ≡ (s ++ ".jso") ++ "n.tmp" =
      append_assoc s ".json" ".tmp" ∙ sym (append_assoc s ".jso" "n.tmp") in
    rw split (rw (slice-end (s ++ ".jso") "n.tmp") refl)

module _ (base join : String → String) (f : IsFilepath base join) where
  path-stem : (id : String) → base id ≡ id → path join id ≡ cat (stem id) ".json"
  path-stem id based = elim (Bool-cases (id == "/")) [
    | inl e ↦ subst (λ i. path join i ≡ cat (stem i) ".json") (sym ((eq_iff id "/").0 e)) f.root
    | inr e ↦ rw e (f.plain id based (λ same. ground (arith, e, (eq_iff id "/").1 same)))
  ]

  pub path-plain : (id : String) → base id ≡ id → id ≢ "/" → cat id ".json" ≡ path join id
  path-plain id based other = sym (f.plain id based other)

  pub has_suffix-temporary :
      (id : String) → base id ≡ id → has_suffix (temporary join id) ".json" ≡ false
  has_suffix-temporary id based = rw (path-stem id based) (has_suffix-tmp (stem id))

  pub temporary-path : (a b : String) → base a ≡ a → base b ≡ b → temporary join a ≢ path join b
  temporary-path a b based based' same =
      let e = ap (λ s. has_suffix s ".json") (same ∙ path-stem b based') in
      ground (arith, e, has_suffix-json (stem b), has_suffix-temporary a based)

  named : (id : String) → base id ≡ id → id ≢ ""
  named id based e =
      let dot : ◌≡◌ {A = String} "." "" = sym f.empty ∙ ap base (sym e) ∙ based ∙ e in
      ground (arith, (eq_iff "." "").1 dot)

  stem-injective : (a b : String) → a ≢ "" → b ≢ "" → stem a ≡ stem b → a ≡ b
  stem-injective a b named_a named_b same = elim (Bool-cases (a == "/")) [
    | inl e ↦ elim (Bool-cases (b == "/")) [
      | inl e' ↦ (eq_iff a "/").0 e ∙ sym ((eq_iff b "/").0 e')
      | inr e' ↦ absurd (named_b (ground (arith, e, e', same)))
    ]
    | inr e ↦ elim (Bool-cases (b == "/")) [
      | inl e' ↦ absurd (named_a (ground (arith, e, e', same)))
      | inr e' ↦ ground (arith, e, e', same)
    ]
  ]

  pub path-injective : (a b : String) → base a ≡ a → base b ≡ b → path join a ≡ path join b → a ≡ b
  path-injective a b based based' same =
      let stems = sym (path-stem a based) ∙ same ∙ path-stem b based' in
      stem-injective a b (named a based) (named b based')
        (append_cancel_right (stem a) (stem b) ".json" stems)
