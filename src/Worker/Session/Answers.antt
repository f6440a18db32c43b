-- ===== src/Worker/Session/Answers.antt =====
-- Each command is answered once.
use say.Base.{
  ℕ, suc, ◌+◌, ◌≤◌, ◌≡◌, refl, ap, ◌∙◌, String, none, some, List, [], ◌∷◌, ◌++◌, ◌==◌,
  if◌then◌else◌, length, length-append, arith,
}
use say.Protocol.{Envelope}
use say.Worker.Session.{
  Loop, idle, taken, refusing, Session, Step, Reach, start, next, ignores, receives, begins,
  overflows, rejects, finishes, releases, writes, limit, room, busy, result_of, Handled, refused,
  returned,
}

-- How many envelopes of a list have an id.
abbrev pub with_id : String → List Envelope → ℕ
with_id id [] = 0
with_id id (e ∷ es) = let n = with_id id es in if e.id == id then suc n else n

pub with_id-append :
    (id : String) (l r : List Envelope) → with_id id (l ++ r) ≡ with_id id l + with_id id r
with_id-append id [] r = omega arith
with_id-append id (e ∷ l) r = ground (arith, with_id-append id l r)

result_of-id : (generation : ℕ) (e : Envelope) (h : Handled) → (result_of generation e h).id ≡ e.id
unfolding result_of
result_of-id generation e (refused x) = refl
result_of-id generation e (returned none) = refl
result_of-id generation e (returned (some v)) = refl

-- The command that the loop has read and not yet passed on.
abbrev pub held : Loop → List Envelope
held idle = []
held (taken e) = e ∷ []
held (refusing e) = e ∷ []

-- The commands that were received with an id are the one that the loop holds, and those that run,
-- that wait to be written and that were answered with it.
pub record Balanced (s : Session) : Type 0 where
  pub answers :
      (id : String)
      → with_id id s.received
        ≡ with_id id (held s.loop)
          + with_id id s.running
          + with_id id s.results
          + with_id id s.written
  pub places : length s.running + s.releasing ≤ limit
  pub queue : length s.results ≤ room

held-with_id : (id : String) (l l' : Loop) → l ≡ l' → with_id id (held l) ≡ with_id id (held l')
held-with_id id l l' = ap (λ x. with_id id (held x))

Step-Balanced : (s t : Session) → Balanced s → Step s t → Balanced t
Step-Balanced s t b (ignores e waits h) = b
Step-Balanced s t b (receives e waits h) = record {
  answers = λ id. ground (arith, b.answers id, held-with_id id s.loop idle waits);
  places = b.places;
  queue = b.queue;
}
Step-Balanced s t b (begins e has free) = record {
  answers = λ id. ground (
    arith,
    b.answers id,
    held-with_id id s.loop (taken e) has,
    with_id-append id s.running (e ∷ []),
  );
  places = omega (arith, free, length-append s.running (e ∷ []));
  queue = b.queue;
}
Step-Balanced s t b (overflows e has full) = record {
  answers = λ id. ground (arith, b.answers id, held-with_id id s.loop (taken e) has);
  places = b.places;
  queue = b.queue;
}
Step-Balanced s t b (rejects e has free) = record {
  answers = λ id. ground (
    arith,
    b.answers id,
    held-with_id id s.loop (refusing e) has,
    with_id-append id s.results (busy s.generation e ∷ []),
  );
  places = b.places;
  queue = omega (arith, free, length-append s.results (busy s.generation e ∷ []));
}
Step-Balanced s t b (finishes before e after handled is free) =
    let result = result_of s.generation e handled in
    let was = λ (id : String). ap (with_id id) is ∙ with_id-append id before (e ∷ after) in
    let size : length s.running ≡ length before + suc (length after) =
      ap length is ∙ length-append before (e ∷ after) in
    record {
      answers = λ id. ground (
        arith,
        b.answers id,
        was id,
        with_id-append id before after,
        with_id-append id s.results (result ∷ []),
        result_of-id s.generation e handled,
      );
      places = omega (arith, b.places, size, length-append before after);
      queue = omega (arith, free, length-append s.results (result ∷ []));
    }
Step-Balanced s t b (releases n is) = record {
  answers = b.answers;
  places = omega (arith, b.places, is);
  queue = b.queue;
}
Step-Balanced s t b (writes e rest waits is) =
    let size : length s.results ≡ suc (length rest) = ap length is in
    record {
      answers = λ id. ground (arith, b.answers id, ap (with_id id) is);
      places = b.places;
      queue = omega (arith, b.queue, size);
    }

-- In every interleaving of the loop and the handlers, each command that was received is held by the
-- loop, runs, has its answer waiting, or was answered, and just one of these: for every id, the
-- commands received with it are as many as those in the four states. So no command is answered twice.
-- At most four commands hold a place, and at most sixteen answers wait.
pub Reach-Balanced : (generation : ℕ) (s : Session) → Reach generation s → Balanced s
Reach-Balanced generation s start = record {
  answers = λ id. refl;
  places = omega arith;
  queue = omega arith;
}
Reach-Balanced generation t (next {s} r step) =
    Step-Balanced s t (Reach-Balanced generation s r) step
