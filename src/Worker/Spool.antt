-- ===== src/Worker/Spool.antt =====
-- internal/worker/spool.go: the events of a worker in files of a directory, until the gateway has
-- acknowledged them. A directory has each file's name and what it holds; each call runs under the
-- spool's lock.
pub mod Names
pub mod Sound
pub mod Durable
use say.Base.{
  ℕ, suc, ◌+◌, ◌-◌, ◌^◌, String, cat, len, Bool, true, false, not, ◌&&◌, ◌||◌, Option, none, some,
  List, [], ◌∷◌, ◌==◌, ltb, eqb, if◌then◌else◌, is_some, has_prefix, random_value, Map, lookup, put,
  remove,
}
use Prim.Native.String.{slice, compare}
use Prim.Native.Nat.{Ordering}
use say.Database.Order.{order_by}
use say.Database.Tables.{select}
use say.Protocol.{Envelope}

-- What a file holds: the encoding of an event, or less, where writing it was cut off.
pub data Content : Type 0 where
  whole : Envelope → Content
  torn : Content

abbrev pub Dir : Type 0
Dir = Map Content

-- What one call meets: whether its context has ended, whether each call of the system fails, and the
-- random source.
pub record Run : Type 0 where
  pub cancelled : Bool
  pub list_fails : Bool
  pub read_fails : String → Bool
  pub random : Option (List ℕ)
  pub stat_fails : Bool
  pub create_fails : Bool
  pub write_fails : Bool
  pub sync_fails : Bool
  pub close_fails : Bool
  pub rename_fails : Bool
  pub remove_fails : Bool
  pub directory_fails : Bool

-- strings.HasSuffix
abbrev pub has_suffix : String → String → Bool
has_suffix s suffix = slice s (len s - len suffix) (len s) == suffix

abbrev pub before : String × Content → String × Content → Bool
before (s, c) (t, d) = elim (compare s t) [ Ordering.lt ↦ true | _ ↦ false ]

abbrev larger : Option ℕ → ℕ → ℕ
larger none old = old
larger (some n) old = if ltb old n then n else old

-- `join` is filepath.Join of the directory and a name, as a name in the directory.
module _ (join : String → String) where
  -- The name of an event's file
  abbrev pub path : String → String
  path id = join (cat id ".json")

  abbrev pub temporary : String → String
  temporary id = cat (path id) ".tmp"

  -- The steps of Append from the file's creation on; the flag says whether there is no error.
  unfoldable pub write_file : Run → Envelope → Dir → Bool × Dir
  write_file run e dir =
      let tmp = temporary e.id in
      let written = put tmp (whole e) dir in
      if run.create_fails
      then (false, dir)
      else if run.write_fails
      then (false, put tmp torn dir)
      else if run.sync_fails || (run.close_fails || run.rename_fails)
      then (false, written)
      else (not run.directory_fails, put (path e.id) (whole e) (remove tmp written))

-- The loop of Pending over the names, in their order.
unfoldable pub read_all : Run → Dir → Option (List Envelope)
read_all run [] = some []
read_all run ((name, c) ∷ rest) =
    let later = read_all run rest in if run.read_fails name then none else one c later
  where
    more : Envelope → Option (List Envelope) → Option (List Envelope)
    more e none = none
    more e (some es) = some (e ∷ es)

    one : Content → Option (List Envelope) → Option (List Envelope)
    one torn later = none
    one (whole e) later =
        if e.id == "" || not (cat e.id ".json" == name) then none else more e later

abbrev pub is_event : String × Content → Bool
is_event (name, c) = has_suffix name ".json"

unfoldable pub pending : Run → Dir → Option (List Envelope)
unfolding read_all
pending run dir =
    if run.cancelled || run.list_fails
    then none
    else read_all run (order_by before (select is_event dir))

-- `base` is filepath.Base.
module _ (base join : String → String) where
  unfoldable pub store_event : Run → Envelope → Dir → Bool × Dir
  unfolding write_file
  store_event run e dir =
      if not (base e.id == e.id)
      then (false, dir)
      else if run.stat_fails
      then (false, dir)
      else if is_some (lookup (path join e.id) dir)
      then (true, dir)
      else write_file join run e dir

  abbrev pub with_id : Run → Envelope → Option String → Dir → Bool × Dir
  with_id run e none dir = (false, dir)
  with_id run e (some id) dir = store_event run (record e { id = id }) dir

  unfoldable pub ack : Run → String → Dir → Bool × Dir
  ack run id dir =
      if run.cancelled || (id == "" || not (base id == id))
      then (false, dir)
      else if not (is_some (lookup (path join id) dir))
      then (true, dir)
      else if run.remove_fails
      then (false, dir)
      else (not run.directory_fails, remove (path join id) dir)

-- `padded` is fmt's "%020d", and `parse_uint` strconv.ParseUint in base 10 for 64 bits.
module _ (padded : ℕ → String) (parse_uint : String → Option ℕ) where
  abbrev sequence_of : String → ℕ → ℕ
  sequence_of name old =
      if ltb (len name) 24 || not (has_prefix name "evt_")
      then old
      else larger (parse_uint (slice name 4 24)) old

  unfoldable pub maximum : ℕ → Dir → ℕ
  maximum old [] = old
  maximum old ((name, c) ∷ rest) = maximum (sequence_of name old) rest

  -- nextSequenceLocked
  unfoldable pub next_sequence : Run → Dir → Option ℕ
  unfolding maximum
  next_sequence run dir =
      if run.list_fails || eqb (maximum 0 dir) (2 ^ 64 - 1) then none else some (maximum 0 dir + 1)

  abbrev pub new_id : Option ℕ → Option String → Option String
  new_id (some n) (some suffix) = some (cat "evt_" (cat (padded n) (cat "_" suffix)))
  new_id _ _ = none

  -- The id of an event that has none yet
  unfoldable pub event_id : Run → Envelope → Dir → Option String
  unfolding next_sequence
  event_id run e dir =
      if e.id == "" then new_id (next_sequence run dir) (random_value "" run.random) else some e.id

  unfoldable pub append : (String → String) → (String → String) → Run → Envelope → Dir → Bool × Dir
  unfolding event_id store_event
  append base join run e dir =
      if run.cancelled then (false, dir) else with_id base join run e (event_id run e dir) dir
