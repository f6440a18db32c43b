-- ===== src/HttpApi/Sending/Once.antt =====
-- sendMessage, called again and again: a worker is asked once for each idempotency key of its account.
use say.Base.{
  ℕ, suc, ◌≤◌, String, Bool, true, ◌&&◌, ◌≡◌, inl, inr, refl, Option, none, some, List, [], ◌∷◌,
  ◌==◌, arith, Bool-cases, eq_iff, if◌then◌else◌,
}
use say.Postgres.{Db}
use say.HttpApi.{Response, Input}
use say.HttpApi.Sending.{Run, Ask, send_message}
use say.HttpApi.Sending.Settled.{Distinct, Distinct-Stable, Settled, Settled-Stable}
use say.HttpApi.Sending.Asked.{send_message-Asked}
use say.HttpApi.Sending.Kept.{send_message-keeps}

-- A call of sendMessage, with what it meets.
pub record Request : Type 0 where
  pub stored : Bool
  pub run : Run
  pub user_id : String
  pub conversation_id : String
  pub input : Input (String × String)

abbrev pub prepend : Option Ask → List Ask → List Ask
prepend none asks = asks
prepend (some a) asks = a ∷ asks

abbrev pub handle : (String → Option ℕ) → Request → Db → (Response × Option Ask) × Db
handle parse_time q db =
    send_message parse_time q.stored q.run q.user_id q.conversation_id q.input db

-- What the workers are asked in a sequence of calls.
unfoldable pub asks : (String → Option ℕ) → List Request → Db → List Ask
unfolding send_message
asks parse_time [] db = []
asks parse_time (q ∷ qs) db =
    let r = handle parse_time q db in prepend r.0.1 (asks parse_time qs r.1)

-- How often the worker of the account is asked with the key.
unfoldable pub times : String → String → List Ask → ℕ
times account_id key [] = 0
times account_id key (a ∷ rest) =
    let n = times account_id key rest in
    if a.account_id == account_id && a.command.idempotency_key == key then suc n else n

module _ (parse_time : String → Option ℕ) (account_id key : String) where
  -- The request of a call, with the state that the call leaves.
  Asked_here :
      (q : Request) (db : Db) (a : Ask)
      → Distinct db.commands
      → (handle parse_time q db).0.1 ≡ some a
      → (a.account_id == account_id && a.command.idempotency_key == key) ≡ true
      → Settled account_id key (handle parse_time q db).1.commands
        × (Settled account_id key db.commands → ⊥)
  Asked_here q db a distinct is here =
      let e : a.account_id ≡ account_id = ground (arith, eq_iff a.account_id account_id) in
      let e' : a.command.idempotency_key ≡ key =
        ground (arith, eq_iff a.command.idempotency_key key) in
      let x =
        send_message-Asked parse_time q.stored q.run q.user_id q.conversation_id q.input db a
          distinct is in
      (rw (e, e') at x.settled, rw (e, e') at x.unsettled)

  Distinct-handle :
      (q : Request) (db : Db) → Distinct db.commands → Distinct (handle parse_time q db).1.commands
  Distinct-handle q db =
      send_message-keeps parse_time Distinct-Stable q.stored q.run q.user_id q.conversation_id
        q.input db

  asks-Settled :
      (qs : List Request) (db : Db)
      → Distinct db.commands
      → Settled account_id key db.commands
      → times account_id key (asks parse_time qs db) ≡ 0
  unfolding asks times
  asks-Settled [] db distinct s = refl
  asks-Settled (q ∷ qs) db distinct s =
      let db' = (handle parse_time q db).1 in
      let s' =
        send_message-keeps parse_time (Settled-Stable account_id key) q.stored q.run q.user_id
          q.conversation_id q.input db s in
      by_ask (handle parse_time q db).0.1 refl
        (asks-Settled qs db' (Distinct-handle q db distinct) s')
    where
      by_ask :
          (o : Option Ask)
          → (handle parse_time q db).0.1 ≡ o
          → times account_id key (asks parse_time qs (handle parse_time q db).1) ≡ 0
          → times account_id key (prepend o (asks parse_time qs (handle parse_time q db).1)) ≡ 0
      by_ask none is rest = rest
      by_ask (some a) is rest =
          elim (Bool-cases (a.account_id == account_id && a.command.idempotency_key == key)) [
            | inl yes' ↦ absurd ((Asked_here q db a distinct is yes').1 s)
            | inr no' ↦ rw no' rest
          ]

  -- In any sequence of calls of sendMessage, one after another, by any users, with any requests,
  -- failures of the
  -- database and answers of workers, the worker of an account is asked to send at most once for an
  -- idempotency key. The commands' ids are distinct before, as their primary key has it.
  pub send_once :
      (qs : List Request) (db : Db)
      → Distinct db.commands
      → times account_id key (asks parse_time qs db) ≤ 1
  unfolding asks times
  send_once [] db distinct = ground arith
  send_once (q ∷ qs) db distinct =
      by_ask (handle parse_time q db).0.1 refl
        (send_once qs (handle parse_time q db).1 (Distinct-handle q db distinct))
    where
      by_ask :
          (o : Option Ask)
          → (handle parse_time q db).0.1 ≡ o
          → times account_id key (asks parse_time qs (handle parse_time q db).1) ≤ 1
          → times account_id key (prepend o (asks parse_time qs (handle parse_time q db).1)) ≤ 1
      by_ask none is rest = rest
      by_ask (some a) is rest =
          elim (Bool-cases (a.account_id == account_id && a.command.idempotency_key == key)) [
            | inl yes' ↦
                let zero' =
                  asks-Settled qs (handle parse_time q db).1 (Distinct-handle q db distinct)
                    (Asked_here q db a distinct is yes').0 in
                ground (arith, yes', zero')
            | inr no' ↦ rw no' rest
          ]
