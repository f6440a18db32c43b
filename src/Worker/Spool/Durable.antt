-- ===== src/Worker/Spool/Durable.antt =====
-- What the spool of internal/worker/spool.go keeps.
use say.Base.{
  ℕ, String, true, false, ◌≡◌, ◌≢◌, inl, inr, refl, ◌∙◌, Option, none, some, List, [], ◌∷◌, ◌==◌,
  arith, eq_iff, eq_refl, Bool-cases, Option-cases, is_some, lookup, put, remove, lookup-put,
  lookup-remove, All,
}
use say.Protocol.{Envelope}
use say.Worker.Spool.{
  Content, whole, torn, Dir, Run, path, temporary, event_id, write_file, store_event, append,
  with_id, ack,
}
use say.Worker.Spool.Names.{IsFilepath, temporary-path, path-injective}
use say.Worker.Spool.Sound.{Call, appends, acks, call, calls}

-- The files of other events.
differs : (s t : String) → s ≢ t → (s == t) ≡ false
differs s t other = elim (Bool-cases (s == t)) [
  | inl same ↦ absurd (other ((eq_iff s t).0 same))
  | inr e ↦ e
]

module _ (base join : String → String) (f : IsFilepath base join) where
  write_file-keeps :
      (run : Run) (e : Envelope) (dir : Dir) (id : String)
      → base e.id ≡ e.id
      → base id ≡ id
      → e.id ≢ id
      → lookup (path join id) (write_file join run e dir).1 ≡ lookup (path join id) dir
  unfolding write_file
  write_file-keeps run e dir id based based' other =
      let tmp = temporary join e.id in
      let own = path join id in
      let not_tmp = differs tmp own (temporary-path base join f e.id id based based') in
      let not_own =
        differs (path join e.id) own
          (λ same. other (path-injective base join f e.id id based based' same)) in
      let written = put tmp (whole e) dir in
      ground (
        arith,
        not_tmp,
        not_own,
        lookup-put tmp own torn dir,
        lookup-put tmp own (whole e) dir,
        lookup-remove tmp own written,
        lookup-put (path join e.id) own (whole e) (remove tmp written),
      )

  store_event-keeps :
      (run : Run) (e : Envelope) (dir : Dir) (id : String)
      → base id ≡ id
      → is_some (lookup (path join id) dir) ≡ true
      → lookup (path join id) (store_event base join run e dir).1 ≡ lookup (path join id) dir
  unfolding store_event
  store_event-keeps run e dir id based there = elim (Bool-cases (e.id == id)) [
    | inl same ↦
        let here : is_some (lookup (path join e.id) dir) ≡ true =
          rw ((eq_iff e.id id).0 same) there in
        ground (arith, here)
    | inr other ↦ elim (Bool-cases (base e.id == e.id)) [
      | inr bad ↦ rw bad refl
      | inl own ↦
          let kept =
            write_file-keeps run e dir id ((eq_iff (base e.id) e.id).0 own) based
              (λ same. ground (arith, other, (eq_iff e.id id).1 same)) in
          ground (arith, kept)
    ]
  ]

  ack-keeps :
      (run : Run) (other id : String) (dir : Dir)
      → base id ≡ id
      → other ≢ id
      → lookup (path join id) (ack base join run other dir).1 ≡ lookup (path join id) dir
  unfolding ack
  ack-keeps run other id dir based apart = elim (Bool-cases (base other == other)) [
    | inr bad ↦ ground (arith, bad)
    | inl own ↦
        let based' = (eq_iff (base other) other).0 own in
        let not_own =
          differs (path join other) (path join id)
            (λ same. apart (path-injective base join f other id based' based same)) in
        ground (arith, not_own, lookup-remove (path join other) (path join id) dir)
  ]

-- What an event's file holds after Append: what it held, or the event where there was no file.
abbrev pub or_event : Option Content → Envelope → Content
or_event none e = whole e
or_event (some c) e = c

module _ (base join : String → String) where
  store_event-holds :
      (run : Run) (e : Envelope) (dir : Dir)
      → (store_event base join run e dir).0 ≡ true
      → lookup (path join e.id) (store_event base join run e dir).1
        ≡ some (or_event (lookup (path join e.id) dir) e)
  unfolding store_event write_file
  store_event-holds run e dir h =
      let own = path join e.id in
      let written = put (temporary join e.id) (whole e) dir in
      elim (Option-cases (lookup own dir)) [
        | inl new ↦ ground (
          arith,
          new,
          lookup-put own own (whole e) (remove (temporary join e.id) written),
          eq_refl own,
        )
        | inr (c, there) ↦ ground (arith, there)
      ]

  store_event-based :
      (run : Run) (e : Envelope) (dir : Dir)
      → (store_event base join run e dir).0 ≡ true
      → base e.id ≡ e.id
  unfolding store_event
  store_event-based run e dir h = (eq_iff (base e.id) e.id).0 (ground arith)

-- The call does not acknowledge the event.
abbrev pub Spares : String → Call → Type 0
Spares id (appends run e) = Unit
Spares id (acks run other) = other ≢ id

module _ (base join : String → String) (padded : ℕ → String) (parse_uint : String → Option ℕ)
    (f : IsFilepath base join) where
  append-keeps :
      (run : Run) (e : Envelope) (dir : Dir) (id : String)
      → base id ≡ id
      → is_some (lookup (path join id) dir) ≡ true
      → lookup (path join id) (append padded parse_uint base join run e dir).1
        ≡ lookup (path join id) dir
  unfolding append
  append-keeps run e dir id based there = elim (Bool-cases run.cancelled) [
    | inl b ↦ rw b refl
    | inr live ↦ rw live (by_id (event_id padded parse_uint run e dir))
  ]
    where
      by_id :
          (o : Option String)
          → lookup (path join id) (with_id base join run e o dir).1 ≡ lookup (path join id) dir
      by_id none = refl
      by_id (some own) =
          store_event-keeps base join f run (record e { id = own }) dir id based there

  calls-lookup :
      (cs : List Call) (dir : Dir) (id : String)
      → base id ≡ id
      → is_some (lookup (path join id) dir) ≡ true
      → All (Spares id) cs
      → lookup (path join id) (calls base join padded parse_uint cs dir) ≡ lookup (path join id) dir
  unfolding calls call
  calls-lookup [] dir id based there spares = refl
  calls-lookup (appends run e ∷ cs) dir id based there spares =
      let kept = append-keeps run e dir id based there in
      calls-lookup cs _ id based (rw kept there) spares.1 ∙ kept
  calls-lookup (acks run other ∷ cs) dir id based there spares =
      let kept = ack-keeps base join f run other id dir based spares.0 in
      calls-lookup cs _ id based (rw kept there) spares.1 ∙ kept

  -- An event for which Append returns no error is in the spool, under its own id or the one that it
  -- was given: its file holds the whole event, or what it held before if there already was such a
  -- file. It stays so until it is acknowledged: no call of Append, with whichever event and however it
  -- ends, and no call of Ack for another event removes the file or changes it. filepath.Base and
  -- filepath.Join are to do what they are documented to do.
  pub appended_survives :
      (run : Run) (e : Envelope) (dir : Dir) (id : String) (cs : List Call)
      → event_id padded parse_uint run e dir ≡ some id
      → (append padded parse_uint base join run e dir).0 ≡ true
      → All (Spares id) cs
      → let dir' = (append padded parse_uint base join run e dir).1 in
        let content = or_event (lookup (path join id) dir) (record e { id = id }) in
        (lookup (path join id) dir' ≡ some content)
        × (lookup (path join id) (calls base join padded parse_uint cs dir') ≡ some content)
  unfolding append
  appended_survives run e dir id cs is done spares = elim (Bool-cases run.cancelled) [
    | inl b ↦ absurd (ground arith)
    | inr live ↦
        let e' = record e { id = id } in
        let stored : (store_event base join run e' dir).0 ≡ true = ground (arith, live, is, done) in
        let based = store_event-based base join run e' dir stored in
        let held = store_event-holds base join run e' dir stored in
        rw (live, is)
          (
            held,
            calls-lookup cs (store_event base join run e' dir).1 id based (rw held refl) spares
                ∙ held,
          )
  ]
