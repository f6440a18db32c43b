-- ===== src/HttpApi/Outsiders.antt =====
-- What the handlers of internal/httpapi/router.go show to a user about what is not the user's.
use say.Base.{
  ℕ, ◌≤◌, String, Bool, true, false, ◌&&◌, ◌≡◌, ◌≢◌, ◌⊎◌, inl, inr, refl, Option, none, some, List,
  [], ◌∷◌, ◌==◌, arith, eq_iff, Bool-cases, All,
}
use say.Database.{Result, err, storage, not_found}
use say.Database.Tables.{find}
use say.Gateway.Hub.{Reply}
use say.Postgres.{AccountRow, ConversationRow, Db, Moment, owns_account, owned_conversation}
use say.Postgres.Accounts as Store
use say.Postgres.Conversations.{get_conversation_target}
use say.Postgres.Sends.{prepare_send, prepare_body}
use say.HttpApi.{Response, Input, given, malformed}
use say.HttpApi.Accounts.{LinkInput, link_account, get_account, delete_account}
use say.HttpApi.Listing
use say.HttpApi.Listing.{list_conversations_of, list_messages_of}
use say.HttpApi.Sending
use say.HttpApi.Sending.{send_message, is_sendable}

-- The account with the id, if there is one, belongs to someone else.
abbrev IsOthers : String → String → AccountRow → Type 0
IsOthers user_id account_id a = a.id ≡ account_id → a.user_id ≢ user_id

-- An error of the client or of the server.
abbrev pub IsError : Response → Type 0
IsError r = 400 ≤ r.status

-- What a call of the store comes to that finds nothing of the user's.
abbrev Misses : {A : Type 0} → Result A × Db → Db → Type 0
Misses x db = (x ≡ (err storage, db)) ⊎ (x ≡ (err not_found, db))

module _ (m : Moment) (user_id account_id : String) (db : Db) where
  get_account-foreign :
      owns_account user_id account_id db ≡ false
      → Misses (Store.get_account m user_id account_id db) db
  unfolding owns_account Store.get_account
  get_account-foreign foreign = elim (Bool-cases (m.fails 1)) [
    | inl bad ↦ inl (ground (arith, bad))
    | inr fine ↦ inr (ground (arith, fine))
  ]

  delete_account-foreign :
      owns_account user_id account_id db ≡ false
      → Misses (Store.delete_account m user_id account_id db) db
  unfolding owns_account Store.delete_account Store.delete_row
  delete_account-foreign foreign = elim (Bool-cases (m.fails 1)) [
    | inl bad ↦ inl (ground (arith, bad))
    | inr fine ↦ inr (ground (arith, fine))
  ]

module _ (m : Moment) (user_id conversation_id : String) (db : Db) where
  target-foreign :
      owned_conversation user_id conversation_id db ≡ none
      → Misses (get_conversation_target m user_id conversation_id db) db
  unfolding get_conversation_target
  target-foreign foreign = elim (Bool-cases (m.fails 1)) [
    | inl bad ↦ inl (ground (arith, bad))
    | inr fine ↦ inr (ground (arith, fine, foreign))
  ]

  prepare_send-foreign :
      (body key : String)
      → owned_conversation user_id conversation_id db ≡ none
      → Misses (prepare_send m user_id conversation_id body key db) db
  unfolding prepare_send prepare_body
  prepare_send-foreign body key foreign = elim (Bool-cases (m.fails 1)) [
    | inl bad ↦ inl (ground (arith, bad))
    | inr fine ↦ elim (Bool-cases (m.fails 2)) [
      | inl bad ↦ inl (ground (arith, bad, fine))
      | inr fine' ↦ inr (ground (arith, fine, fine', foreign))
    ]
  ]

-- The response is an error, nothing is asked of a worker, and the tables are as they were.
pub record Refused {B : Type 0} (none' : B) (db : Db) (x : (Response × B) × Db) : Type 0 where
  pub error : IsError x.0.0
  pub unasked : x.0.1 ≡ none'
  pub same : x.1 ≡ db

module _ (user_id account_id : String) (db : Db) where
  lists-Refused :
      (below : String → String → Bool) (run : Listing.Run) (stored refresh : Bool)
      → owns_account user_id account_id db ≡ false
      → Refused false db (list_conversations_of below stored run user_id account_id refresh db)
  unfolding list_conversations_of
  lists-Refused below run false refresh foreign = record {
    error = ground arith;
    unasked = refl;
    same = refl;
  }
  lists-Refused below run true refresh foreign = elim (Bool-cases (account_id == "")) [
    | inl empty ↦ rw empty (record { error = ground arith; unasked = refl; same = refl })
    | inr named ↦ elim (get_account-foreign run.checks user_id account_id db foreign) [
      | inl e ↦ rw (named, e) (record { error = ground arith; unasked = refl; same = refl })
      | inr e ↦ rw (named, e) (record { error = ground arith; unasked = refl; same = refl })
    ]
  ]

  links-Refused :
      (answer : Reply) (m : Moment) (input : Input LinkInput)
      → owns_account user_id account_id db ≡ false
      → Refused none db (link_account answer m user_id account_id input db)
  unfolding link_account
  links-Refused answer m input foreign =
      elim (get_account-foreign m user_id account_id db foreign) [
        | inl e ↦ rw e (record { error = ground arith; unasked = refl; same = refl })
        | inr e ↦ rw e (record { error = ground arith; unasked = refl; same = refl })
      ]

  deletes-Refused :
      (m : Moment)
      → owns_account user_id account_id db ≡ false
      → Refused false db (delete_account m user_id account_id db)
  unfolding delete_account
  deletes-Refused m foreign = elim (delete_account-foreign m user_id account_id db foreign) [
    | inl e ↦ rw e (record { error = ground arith; unasked = refl; same = refl })
    | inr e ↦ rw e (record { error = ground arith; unasked = refl; same = refl })
  ]

  gets-IsError :
      (m : Moment)
      → owns_account user_id account_id db ≡ false
      → IsError (get_account m user_id account_id db).0
  unfolding get_account
  gets-IsError m foreign = elim (get_account-foreign m user_id account_id db foreign) [
    | inl e ↦ rw e (ground arith)
    | inr e ↦ rw e (ground arith)
  ]

  -- A user who does not own an account gets an error for it and nothing else: its conversations are
  -- not listed, and it is not shown, linked or deleted; no worker is asked or disconnected, and no
  -- table changes. That holds whatever fails, and whatever the request is.
  pub account_outsider-Refused :
      (below : String → String → Bool) (run : Listing.Run) (answer : Reply) (m : Moment)
      (stored refresh : Bool) (input : Input LinkInput)
      → owns_account user_id account_id db ≡ false
      → Refused false db (list_conversations_of below stored run user_id account_id refresh db)
        × Refused none db (link_account answer m user_id account_id input db)
        × Refused false db (delete_account m user_id account_id db)
        × IsError (get_account m user_id account_id db).0
  account_outsider-Refused below run answer m stored refresh input foreign = (
    lists-Refused below run stored refresh foreign,
    links-Refused answer m input foreign,
    deletes-Refused m foreign,
    gets-IsError m foreign,
  )

module _ (user_id conversation_id : String) (db : Db) where
  messages-Refused :
      (below : String → String → Bool) (parse_time : String → Option ℕ) (to_upper : String → String)
      (run : Listing.Run) (stored refresh : Bool)
      → owned_conversation user_id conversation_id db ≡ none
      → Refused false db
          (list_messages_of below parse_time to_upper stored run user_id conversation_id refresh db)
  unfolding list_messages_of
  messages-Refused below parse_time to_upper run false refresh foreign = record {
    error = ground arith;
    unasked = refl;
    same = refl;
  }
  messages-Refused below parse_time to_upper run true refresh foreign =
      elim (target-foreign run.checks user_id conversation_id db foreign) [
        | inl e ↦ rw e (record { error = ground arith; unasked = refl; same = refl })
        | inr e ↦ rw e (record { error = ground arith; unasked = refl; same = refl })
      ]

  sends-Refused :
      (parse_time : String → Option ℕ) (run : Sending.Run) (stored : Bool)
      (input : Input (String × String))
      → owned_conversation user_id conversation_id db ≡ none
      → Refused none db (send_message parse_time stored run user_id conversation_id input db)
  unfolding send_message
  sends-Refused parse_time run false input foreign = record {
    error = ground arith;
    unasked = refl;
    same = refl;
  }
  sends-Refused parse_time run true (malformed e) foreign = record {
    error = ground arith;
    unasked = refl;
    same = refl;
  }
  sends-Refused parse_time run true (given (body, key)) foreign =
      elim (Bool-cases (is_sendable body key)) [
        | inr bad ↦ rw bad (record { error = ground arith; unasked = refl; same = refl })
        | inl fine ↦
            elim (prepare_send-foreign run.prepares user_id conversation_id db body key foreign) [
              | inl e ↦ rw (fine, e) (record { error = ground arith; unasked = refl; same = refl })
              | inr e ↦ rw (fine, e) (record { error = ground arith; unasked = refl; same = refl })
            ]
      ]

  others-none :
      (account_id : String) (rows : List AccountRow)
      → All (IsOthers user_id account_id) rows
      → find (λ a. a.id == account_id && a.user_id == user_id) rows ≡ none
  unfolding find
  others-none account_id [] h = refl
  others-none account_id (a ∷ rows) h =
      elim (Bool-cases (a.id == account_id && a.user_id == user_id)) [
        | inl own ↦
            let of_account : (a.id == account_id) ≡ true = ground (arith, own) in
            let of_user : (a.user_id == user_id) ≡ true = ground (arith, own) in
            absurd
              (h.0 ((eq_iff a.id account_id).0 of_account) ((eq_iff a.user_id user_id).0 of_user))
        | inr other ↦ rw other (others-none account_id rows h.1)
      ]

  others-foreign :
      (c : ConversationRow)
      → find (λ c. c.id == conversation_id) db.conversations ≡ some c
      → All (IsOthers user_id c.account_id) db.accounts
      → owned_conversation user_id conversation_id db ≡ none
  unfolding owned_conversation owns_account
  others-foreign c is others = ground (arith, is, others-none c.account_id db.accounts others)

  -- Of a conversation whose account belongs to someone else, a user is neither shown the messages nor
  -- can the user send into it: the response is an error, no worker is asked, and no table changes.
  -- That holds whatever fails, and whatever the request is.
  pub conversation_outsider-Refused :
      (below : String → String → Bool) (parse_time : String → Option ℕ) (to_upper : String → String)
      (run : Listing.Run) (sends : Sending.Run) (stored refresh : Bool)
      (input : Input (String × String)) (c : ConversationRow)
      → find (λ c. c.id == conversation_id) db.conversations ≡ some c
      → All (λ a. a.id ≡ c.account_id → a.user_id ≢ user_id) db.accounts
      → Refused false db
          (list_messages_of below parse_time to_upper stored run user_id conversation_id refresh db)
        × Refused none db (send_message parse_time stored sends user_id conversation_id input db)
  conversation_outsider-Refused below parse_time to_upper run sends stored refresh input c is
        others =
      let foreign = others-foreign c is others in
      (
        messages-Refused below parse_time to_upper run stored refresh foreign,
        sends-Refused parse_time sends stored input foreign,
      )
