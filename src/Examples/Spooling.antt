-- ===== src/Examples/Spooling.antt =====
-- The worker's spool, and its waits.
use say.Base.{
  ℕ, String, Bool, true, false, Option, none, some, List, [], ◌∷◌, ◌≡◌, ◌≢◌, ◌≤◌, ◌<◌, ◌*◌, refl,
  ◌==◌, cat, inl, inr, Bool-cases, if◌then◌else◌, arith, eq_iff, is_some, lookup, random_value, All,
  put, remove,
}
use say.Protocol.{Envelope, new_envelope}
use say.Protocol.JsonTree.{null}
use say.Worker.Spool.{
  Run, Dir, whole, append, event_id, next_sequence, maximum, store_event, write_file, pending, path,
}
use say.Worker.Spool.Sound.{IsNamed, Call, appends, acks, calls, IsReading, pending_succeeds}
use say.Worker.Spool.Names.{IsFilepath}
use text.Mathlib.TextLemmas.{append_cancel_right}
use say.Worker.Spool.Durable.{appended_survives}
use say.Worker.Backoff.{Lost, AreBelow, second, delays, Waits, delays_bounded}

-- Stand-ins for filepath.Base, filepath.Join, fmt and strconv.
abbrev base : String → String
base s = if s == "" then "." else s

abbrev join : String → String
join s = if s == "/.json" then ".json" else s

joins : (id : String) → base id ≡ id → id ≢ "/" → join (cat id ".json") ≡ cat id ".json"
joins id based other = elim (Bool-cases (cat id ".json" == "/.json")) [
  | inr e ↦ rw e refl
  | inl e ↦
      absurd (other (append_cancel_right id "/" ".json" ((eq_iff (cat id ".json") "/.json").0 e)))
]

paths : IsFilepath base join
paths = record { empty = refl; root = refl; plain = joins }

abbrev padded : ℕ → String
padded n = "00000000000000000001"

abbrev parse_uint : String → Option ℕ
parse_uint s = none

abbrev works : Run
works = record {
  cancelled = false;
  list_fails = false;
  read_fails = λ name. false;
  random = some (7 ∷ []);
  stat_fails = false;
  create_fails = false;
  write_fails = false;
  sync_fails = false;
  close_fails = false;
  rename_fails = false;
  remove_fails = false;
  directory_fails = false;
}

abbrev event : Envelope
event = new_envelope "message.new" null

abbrev id : String
id = "evt_00000000000000000001_07"

-- A write that is cut off, and an acknowledgement of another event.
abbrev later : List Call
later = appends (record works { write_fails = true }) event ∷ acks works "evt_other" ∷ []

abbrev appended : Bool × Dir
appended = append padded parse_uint base join works event []

named : event_id padded parse_uint works event [] ≡ some id
unfolding event_id next_sequence maximum random_value new_envelope
named = refl

accepted : appended.0 ≡ true
unfolding append event_id next_sequence maximum random_value new_envelope store_event write_file
    lookup put remove
accepted = refl

other : "evt_other" ≢ id
other e = ground (arith, (eq_iff "evt_other" id).1 e)

appended_survives_example :
    (lookup (path join id) appended.1 ≡ some (whole (record event { id = id })))
    × (lookup (path join id) (calls base join padded parse_uint later appended.1)
        ≡ some (whole (record event { id = id })))
unfolding lookup
appended_survives_example =
    appended_survives base join padded parse_uint paths works event [] id later named accepted
      (tt, (other, tt))

reading : IsReading works
reading = record { live = refl; lists = refl; reads = λ name. refl }

not_slash : ◌≢◌ {A = String} "" "/"
not_slash e = ground (arith, (eq_iff "" "/").1 e)

not_root : All IsNamed (appends works event ∷ later)
unfolding new_envelope
not_root = (not_slash, (not_slash, (tt, tt)))

pending_succeeds_example :
    is_some (pending works (calls base join padded parse_uint (appends works event ∷ later) []))
    ≡ true
pending_succeeds_example =
    pending_succeeds base join padded parse_uint (appends works event ∷ later) works paths not_root
      reading

abbrev losses : List Lost
losses = record { lasted = 5; random = 0 } ∷ record { lasted = 5; random = 1500000000 } ∷ []

below : AreBelow second losses
unfolding AreBelow
below = (omega arith, (omega arith, tt))

delays_bounded_example :
    Waits 0 losses (delays second losses)
    × All (λ d. (second ≤ d) × (d < 64 * second)) (delays second losses)
delays_bounded_example = delays_bounded losses below
