-- ===== src/Worker/Spool/Sound.antt =====
-- When the spool of internal/worker/spool.go can be read.
use say.Base.{
  ℕ, String, cat, true, false, not, ◌||◌, ◌≡◌, ◌≢◌, inl, inr, refl, ap, ◌∙◌, Option, none, some,
  List, [], ◌∷◌, ◌==◌, arith, eq_iff, Bool-cases, is_some, lookup, put, remove, All, has_prefix,
  has_prefix-cat, random_value,
}
use say.Database.Order.{order_by, All-order_by}
use say.Database.Tables.{select}
use say.Protocol.{Envelope}
use say.Worker.Spool.{
  Content, whole, torn, Dir, Run, has_suffix, path, temporary, event_id, write_file, store_event,
  append, with_id, read_all, pending, ack, new_id, next_sequence, before, is_event,
}
use say.Worker.Spool.Names.{IsFilepath, has_suffix-temporary, path-plain}

-- A file that Pending reads holds a whole event under its own name.
pub record Stored (name : String) (c : Content) : Type 0 where
  pub event : Envelope
  pub is_whole : c ≡ whole event
  pub named : event.id ≢ ""
  pub own : cat event.id ".json" ≡ name

abbrev Readable : String × Content → Type 0
Readable f = has_suffix f.0 ".json" ≡ true → Stored f.0 f.1

abbrev IsSound : Dir → Type 0
IsSound dir = All Readable dir

IsSound-remove : (k : String) (dir : Dir) → IsSound dir → IsSound (remove k dir)
unfolding remove
IsSound-remove k [] h = tt
IsSound-remove k ((name, c) ∷ dir) h = elim (Bool-cases (name == k)) [
  | inl same ↦ rw same (IsSound-remove k dir h.1)
  | inr other ↦ rw other (h.0, IsSound-remove k dir h.1)
]

IsSound-put :
    (k : String) (c : Content) (dir : Dir) → Readable (k, c) → IsSound dir → IsSound (put k c dir)
unfolding put
IsSound-put k c dir new h = (new, IsSound-remove k dir h)

module _ (base join : String → String) (f : IsFilepath base join) where
  temporary-Readable : (id : String) (c : Content) → base id ≡ id → Readable (temporary join id, c)
  temporary-Readable id c based h =
      absurd (ground (arith, h, has_suffix-temporary base join f id based))

  write_file-IsSound :
      (run : Run) (e : Envelope) (dir : Dir)
      → base e.id ≡ e.id
      → e.id ≢ ""
      → e.id ≢ "/"
      → IsSound dir
      → IsSound (write_file join run e dir).1
  unfolding write_file
  write_file-IsSound run e dir based named other h =
      let tmp = temporary join e.id in
      let readable = λ (c : Content). temporary-Readable e.id c based in
      let written = IsSound-put tmp (whole e) dir (readable (whole e)) h in
      elim (Bool-cases run.create_fails) [
        | inl b ↦ rw b h
        | inr c ↦ elim (Bool-cases run.write_fails) [
          | inl b ↦ rw (c, b) (IsSound-put tmp torn dir (readable torn) h)
          | inr w ↦ elim (Bool-cases (run.sync_fails || (run.close_fails || run.rename_fails))) [
            | inl b ↦ rw (c, w, b) written
            | inr r ↦
                rw (c, w, r)
                  (IsSound-put (path join e.id) (whole e) (remove tmp (put tmp (whole e) dir))
                    (λ x. record {
                      event = e;
                      is_whole = refl;
                      named = named;
                      own = path-plain base join f e.id based other;
                    })
                    (IsSound-remove tmp (put tmp (whole e) dir) written))
          ]
        ]
      ]

  store_event-IsSound :
      (run : Run) (e : Envelope) (dir : Dir)
      → e.id ≢ ""
      → e.id ≢ "/"
      → IsSound dir
      → IsSound (store_event base join run e dir).1
  unfolding store_event
  store_event-IsSound run e dir named other h = elim (Bool-cases (base e.id == e.id)) [
    | inr b ↦ rw b h
    | inl based ↦ elim (Bool-cases run.stat_fails) [
      | inl b ↦ rw (based, b) h
      | inr stat ↦ elim (Bool-cases (is_some (lookup (path join e.id) dir))) [
        | inl there ↦ rw (based, stat, there) h
        | inr new ↦
            rw (based, stat, new)
              (write_file-IsSound run e dir ((eq_iff (base e.id) e.id).0 based) named other h)
      ]
    ]
  ]

  ack-IsSound :
      (run : Run) (id : String) (dir : Dir) → IsSound dir → IsSound (ack base join run id dir).1
  unfolding ack
  ack-IsSound run id dir h =
      elim (Bool-cases (run.cancelled || (id == "" || not (base id == id)))) [
        | inl b ↦ rw b h
        | inr fine ↦ elim (Bool-cases (is_some (lookup (path join id) dir))) [
          | inr gone ↦ rw (fine, gone) h
          | inl there ↦ elim (Bool-cases run.remove_fails) [
            | inl b ↦ rw (fine, there, b) h
            | inr r ↦ rw (fine, there, r) (IsSound-remove (path join id) dir h)
          ]
        ]
      ]

-- The ids that the spool makes have a prefix.
cat-apart : (s t : String) → has_prefix t "evt_" ≡ false → cat "evt_" s ≢ t
cat-apart s t other e =
    let p = ap (λ u. has_prefix u "evt_") e in ground (arith, p, other, has_prefix-cat "evt_" s)

new_id-apart :
    (padded : ℕ → String) (parse_uint : String → Option ℕ) (n : Option ℕ) (s : Option String)
    (id t : String)
    → has_prefix t "evt_" ≡ false
    → new_id padded parse_uint n s ≡ some id
    → id ≢ t
new_id-apart padded parse_uint none s id t other h e = ground arith
new_id-apart padded parse_uint (some n) none id t other h e = ground arith
new_id-apart padded parse_uint (some n) (some s) id t other h e =
    let made : cat "evt_" (cat (padded n) (cat "_" s)) ≡ id = ground arith in
    cat-apart (cat (padded n) (cat "_" s)) t other (made ∙ e)

-- A call of the spool.
pub data Call : Type 0 where
  appends : Run → Envelope → Call
  acks : Run → String → Call

-- The call does not append an event whose id is a slash.
abbrev pub IsNamed : Call → Type 0
IsNamed (appends run e) = e.id ≢ "/"
IsNamed (acks run id) = Unit

module _ (base join : String → String) (padded : ℕ → String) (parse_uint : String → Option ℕ) where
  -- A call, and calls one after another.
  unfoldable pub call : Call → Dir → Dir
  unfolding append ack
  call (appends run e) dir = (append padded parse_uint base join run e dir).1
  call (acks run id) dir = (ack base join run id dir).1

  unfoldable pub calls : List Call → Dir → Dir
  unfolding call
  calls [] dir = dir
  calls (c ∷ rest) dir = calls rest (call c dir)

  event_id-apart :
      (run : Run) (e : Envelope) (dir : Dir) (id t : String)
      → has_prefix t "evt_" ≡ false
      → ((e.id == "") ≡ false → e.id ≢ t)
      → event_id padded parse_uint run e dir ≡ some id
      → id ≢ t
  unfolding event_id
  event_id-apart run e dir id t other apart h = elim (Bool-cases (e.id == "")) [
    | inr has ↦ λ same. let own : e.id ≡ id = ground (arith, h, has) in apart has (own ∙ same)
    | inl anonymous ↦
        new_id-apart padded parse_uint (next_sequence padded parse_uint run dir)
          (random_value "" run.random) id t other (ground (arith, anonymous))
  ]

  append-IsSound :
      IsFilepath base join
      → (run : Run) (e : Envelope) (dir : Dir) → e.id ≢ "/"
      → IsSound dir
      → IsSound (append padded parse_uint base join run e dir).1
  unfolding append
  append-IsSound f run e dir other h = elim (Bool-cases run.cancelled) [
    | inl b ↦ rw b h
    | inr live ↦ rw live (by_id (event_id padded parse_uint run e dir) refl)
  ]
    where
      by_id :
          (o : Option String)
          → event_id padded parse_uint run e dir ≡ o
          → IsSound (with_id base join run e o dir).1
      by_id none is = h
      by_id (some id) is =
          let named =
            event_id-apart run e dir id "" refl
              (λ has same. ground (arith, has, (eq_iff e.id "").1 same)) is in
          store_event-IsSound base join f run (record e { id = id }) dir named
            (event_id-apart run e dir id "/" refl (λ has. other) is) h

  calls-IsSound :
      IsFilepath base join
      → (cs : List Call) (dir : Dir) → All IsNamed cs
      → IsSound dir
      → IsSound (calls cs dir)
  unfolding calls call
  calls-IsSound f [] dir named h = h
  calls-IsSound f (appends run e ∷ cs) dir named h =
      calls-IsSound f cs _ named.1 (append-IsSound f run e dir named.0 h)
  calls-IsSound f (acks run id ∷ cs) dir named h =
      calls-IsSound f cs _ named.1 (ack-IsSound base join f run id dir h)

-- The system lets a call read.
pub record IsReading (run : Run) : Type 0 where
  pub live : run.cancelled ≡ false
  pub lists : run.list_fails ≡ false
  pub reads : (name : String) → run.read_fails name ≡ false

abbrev HasEvent : String × Content → Type 0
HasEvent f = Stored f.0 f.1

select-HasEvent : (dir : Dir) → IsSound dir → All HasEvent (select is_event dir)
unfolding select
select-HasEvent [] h = tt
select-HasEvent ((name, c) ∷ dir) h = elim (Bool-cases (has_suffix name ".json")) [
  | inl event ↦ rw event (h.0 event, select-HasEvent dir h.1)
  | inr other ↦ rw other (select-HasEvent dir h.1)
]

read_all-some :
    (run : Run) (files : List (String × Content))
    → IsReading run
    → All HasEvent files
    → is_some (read_all run files) ≡ true
unfolding read_all
read_all-some run [] works h = refl
read_all-some run ((name, c) ∷ files) works h =
    let rest = read_all-some run files works h.1 in
    let s = h.0 in
    ground (
      arith,
      rest,
      works.reads name,
      s.is_whole,
      s.named,
      s.own,
      eq_iff s.event.id "",
      eq_iff (cat s.event.id ".json") name,
    )

module _ (base join : String → String) (padded : ℕ → String) (parse_uint : String → Option ℕ) where
  -- Whatever calls of Append and Ack a new spool has seen, each cut off by a failure at any of its
  -- steps, its events can be read when the system lets Pending read, if filepath.Base and
  -- filepath.Join do what they are documented to do, and no event was appended with the id "/".
  pub pending_succeeds :
      (cs : List Call) (run : Run)
      → IsFilepath base join
      → All IsNamed cs
      → IsReading run
      → is_some (pending run (calls base join padded parse_uint cs [])) ≡ true
  unfolding pending
  pending_succeeds cs run f named works =
      let dir = calls base join padded parse_uint cs [] in
      let sound = calls-IsSound base join padded parse_uint f cs [] named tt in
      rw (works.live, works.lists)
        (read_all-some run (order_by before (select is_event dir)) works
          (All-order_by HasEvent before (select is_event dir) (select-HasEvent dir sound)))
