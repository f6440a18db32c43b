-- ===== src/Gateway/Store/Invariant.antt =====
-- What holds of the in-memory store between two calls, whatever the calls and their arguments.
use say.Base.{
  ℕ, String, true, ◌≡◌, Option, some, List, [], ◌∷◌, ◌==◌, eq_iff, arith, lookup, put, remove,
  purge, lookup-put, lookup-remove, lookup-purge, is_some, refl, ◌∙◌, not, ◌&&◌, Bool-cases,
  Option-cases, inl, inr, eq_refl, random_value, ltb, eqb,
}
use say.Gateway.Account.{Account}
use say.Gateway.Store.{
  Store, new_store, create_account, delete_account, authenticate_worker, use_enrollment, exchange,
  update_generation, set_worker_status, touch_worker, set_worker_identity, new_account, enrolled,
}

-- Accounts stand under their own ids, and every token is one of an account that is there.
pub record IsValid (s : Store) : Type 0 where
  pub keyed : (k : String) (a : Account) → lookup k s.accounts ≡ some a → a.id ≡ k
  pub enrolling :
      (h id : String) → lookup h s.enrollments ≡ some id → is_some (lookup id s.accounts) ≡ true
  pub credentialed :
      (h id : String) → lookup h s.credentials ≡ some id → is_some (lookup id s.accounts) ≡ true

-- Writing an account under its id keeps the store valid.
put-IsValid :
    (k : String) (a : Account) (s : Store)
    → a.id ≡ k
    → IsValid s
    → IsValid (record s { accounts = put k a s.accounts })
put-IsValid k a s own v = record {
  keyed = λ j b h. ground (arith, lookup-put k j a s.accounts, eq_iff k j, v.keyed j b);
  enrolling = λ h id p. ground (arith, lookup-put k id a s.accounts, v.enrolling h id p);
  credentialed = λ h id p. ground (arith, lookup-put k id a s.accounts, v.credentialed h id p);
}

put_enrollment-IsValid :
    (h id : String) (s : Store)
    → is_some (lookup id s.accounts) ≡ true
    → IsValid s
    → IsValid (record s { enrollments = put h id s.enrollments })
put_enrollment-IsValid h id s there v = record {
  keyed = v.keyed;
  enrolling = λ j x p. ground (arith, lookup-put h j id s.enrollments, v.enrolling j x);
  credentialed = v.credentialed;
}

put_credential-IsValid :
    (h id : String) (s : Store)
    → is_some (lookup id s.accounts) ≡ true
    → IsValid s
    → IsValid (record s { credentials = put h id s.credentials })
put_credential-IsValid h id s there v = record {
  keyed = v.keyed;
  enrolling = v.enrolling;
  credentialed = λ j x p. ground (arith, lookup-put h j id s.credentials, v.credentialed j x);
}

remove_enrollment-IsValid :
    (h : String) (s : Store)
    → IsValid s
    → IsValid (record s { enrollments = remove h s.enrollments })
remove_enrollment-IsValid h s v = record {
  keyed = v.keyed;
  enrolling = λ j x p. ground (arith, lookup-remove h j s.enrollments, v.enrolling j x);
  credentialed = v.credentialed;
}

removed : String → Store → Store
removed id s = record {
  accounts = remove id s.accounts;
  enrollments = purge (λ x. x == id) s.enrollments;
  credentials = purge (λ x. x == id) s.credentials;
}

removed-IsValid : (id : String) (s : Store) → IsValid s → IsValid (removed id s)
unfolding removed
removed-IsValid id s v = record {
  keyed = λ j b h. ground (arith, lookup-remove id j s.accounts, v.keyed j b);
  enrolling = λ h x p. ground (
    arith,
    lookup-remove id x s.accounts,
    lookup-purge (λ y. y == id) h s.enrollments,
    v.enrolling h x,
    eq_iff id x,
    eq_iff x id,
  );
  credentialed = λ h x p. ground (
    arith,
    lookup-remove id x s.accounts,
    lookup-purge (λ y. y == id) h s.credentials,
    v.credentialed h x,
    eq_iff id x,
    eq_iff x id,
  );
}

create_account-IsValid :
    (sum256 : String → String) (user_id platform name : String) (i t : Option (List ℕ)) (now : ℕ)
    (s : Store)
    → IsValid s
    → IsValid (create_account sum256 user_id platform name i t now s).1
unfolding create_account
create_account-IsValid sum256 user_id platform name i t now s v =
    elim (Bool-cases (not (platform == "signal") && not (platform == "telegram"))) [
      | inl bad ↦ rw (bad, create_account) v
      | inr fine ↦ elim (Option-cases (random_value "acc_" i)) [
        | inl e ↦ rw (fine, e, create_account) v
        | inr (account_id, e) ↦ elim (Option-cases (random_value "say_enroll_" t)) [
          | inl e' ↦ rw (fine, e, e', create_account) v
          | inr (token, e') ↦
              rw (fine, e, e', create_account)
                (put_enrollment-IsValid (sum256 token) account_id
                  (record s {
                    accounts =
                        put account_id (new_account account_id user_id platform name now)
                          s.accounts;
                  })
                  (ground (
                    arith,
                    lookup-put account_id account_id
                        (new_account account_id user_id platform name now) s.accounts,
                    eq_refl account_id,
                  ))
                  (put-IsValid account_id (new_account account_id user_id platform name now) s refl
                    v))
        ]
      ]
    ]

exchange-IsValid :
    (sum256 : String → String) (account_id : String) (account : Account) (h : String)
    (c w : Option (List ℕ)) (s : Store)
    → lookup account_id s.accounts ≡ some account
    → IsValid s
    → IsValid (exchange sum256 account_id account h c w s).1
unfolding exchange
exchange-IsValid sum256 account_id account h c w s known v =
    elim (Option-cases (random_value "say_worker_" c)) [
      | inl e ↦ rw (e, exchange) v
      | inr (credential, e) ↦ elim (Option-cases (random_value "wrk_" w)) [
        | inl e' ↦ rw (e, e', exchange) v
        | inr (worker_id, e') ↦
            let own = v.keyed account_id account known in
            let a = enrolled worker_id account in
            rw (e, e', exchange)
              (put_credential-IsValid (sum256 credential) account.id _
                (ground (
                  arith,
                  lookup-put account_id account.id a s.accounts,
                  eq_iff account_id account.id,
                ))
                (remove_enrollment-IsValid h _ (put-IsValid account_id a s own v)))
      ]
    ]

use_enrollment-IsValid :
    (sum256 : String → String) (h platform : String) (now : ℕ) (c w : Option (List ℕ)) (s : Store)
    → IsValid s
    → IsValid (use_enrollment sum256 h platform now c w s).1
unfolding use_enrollment
use_enrollment-IsValid sum256 h platform now c w s v =
    elim (Option-cases (lookup h s.enrollments)) [
      | inl e ↦ rw (e, use_enrollment) v
      | inr (account_id, e) ↦ elim (Option-cases (lookup account_id s.accounts)) [
        | inl e' ↦ rw (e, e', use_enrollment) (remove_enrollment-IsValid h s v)
        | inr (account, e') ↦ elim (Bool-cases (ltb account.enrollment_end now)) [
          | inl late ↦ rw (e, e', late, use_enrollment) (remove_enrollment-IsValid h s v)
          | inr in_time ↦ elim (Bool-cases (account.platform == platform)) [
            | inl same ↦
                rw (e, e', in_time, same, use_enrollment)
                  (exchange-IsValid sum256 account_id account h c w s e' v)
            | inr other ↦ rw (e, e', in_time, other, use_enrollment) v
          ]
        ]
      ]
    ]

authenticate_worker-IsValid :
    (sum256 : String → String) (token platform : String) (now : ℕ) (c w : Option (List ℕ))
    (s : Store)
    → IsValid s
    → IsValid (authenticate_worker sum256 token platform now c w s).1
unfolding authenticate_worker
authenticate_worker-IsValid sum256 token platform now c w s v =
    elim (Option-cases (lookup (sum256 token) s.credentials)) [
      | inl e ↦
          rw (e, authenticate_worker)
            (use_enrollment-IsValid sum256 (sum256 token) platform now c w s v)
      | inr (account_id, e) ↦ rw (e, authenticate_worker) v
    ]

pub delete_account-IsValid :
    (user_id account_id : String) (s : Store)
    → IsValid s
    → IsValid (delete_account user_id account_id s).1
unfolding delete_account removed
delete_account-IsValid user_id account_id s v = elim (Option-cases (lookup account_id s.accounts)) [
  | inl e ↦ rw (e, delete_account) v
  | inr (account, e) ↦ elim (Bool-cases (account.user_id == user_id)) [
    | inl own ↦ rw (e, own, delete_account) (removed-IsValid account_id s v)
    | inr other ↦ rw (e, other, delete_account) v
  ]
]

update_generation-IsValid :
    (account_id : String) (generation : ℕ) (f : Account → Account) (s : Store)
    → ((a : Account) → (f a).id ≡ a.id)
    → IsValid s
    → IsValid (update_generation account_id generation f s)
unfolding update_generation
update_generation-IsValid account_id generation f s same v =
    elim (Option-cases (lookup account_id s.accounts)) [
      | inl e ↦ rw (e, update_generation) v
      | inr (account, e) ↦ elim (Bool-cases (eqb account.generation generation)) [
        | inl current ↦
            rw (e, current, update_generation)
              (put-IsValid account_id (f account) s (same account ∙ v.keyed account_id account e) v)
        | inr stale ↦ rw (e, stale, update_generation) v
      ]
    ]

-- A call of the store, with the time and the random bytes that it meets.
pub data Call : Type 0 where
  create : String → String → String → Option (List ℕ) → Option (List ℕ) → ℕ → Call
  delete : String → String → Call
  authenticate : String → String → ℕ → Option (List ℕ) → Option (List ℕ) → Call
  set_status : String → ℕ → String → ℕ → Call
  touch : String → ℕ → ℕ → Call
  set_identity : String → ℕ → String → String → ℕ → Call

unfoldable pub step : (String → String) → Store → Call → Store
step sum256 s (create user_id platform name i t now) =
    (create_account sum256 user_id platform name i t now s).1
step sum256 s (delete user_id account_id) = (delete_account user_id account_id s).1
step sum256 s (authenticate token platform now c w) =
    (authenticate_worker sum256 token platform now c w s).1
step sum256 s (set_status id generation status now) = set_worker_status id generation status now s
step sum256 s (touch id generation now) = touch_worker id generation now s
step sum256 s (set_identity id generation status external_id now) =
    set_worker_identity id generation status external_id now s

unfoldable pub run : (String → String) → Store → List Call → Store
unfolding step
run sum256 s [] = s
run sum256 s (c ∷ cs) = run sum256 (step sum256 s c) cs

step-IsValid :
    (sum256 : String → String) (s : Store) (c : Call) → IsValid s → IsValid (step sum256 s c)
unfolding step set_worker_status touch_worker set_worker_identity
step-IsValid sum256 s (create u p n i t now) v = create_account-IsValid sum256 u p n i t now s v
step-IsValid sum256 s (delete u a) v = delete_account-IsValid u a s v
step-IsValid sum256 s (authenticate t p now c w) v =
    authenticate_worker-IsValid sum256 t p now c w s v
step-IsValid sum256 s (set_status a g st now) v = update_generation-IsValid a g _ s (λ x. refl) v
step-IsValid sum256 s (touch a g now) v = update_generation-IsValid a g _ s (λ x. refl) v
step-IsValid sum256 s (set_identity a g st e now) v =
    update_generation-IsValid a g _ s (λ x. refl) v

run-IsValid :
    (sum256 : String → String) (s : Store) (cs : List Call) → IsValid s → IsValid (run sum256 s cs)
unfolding run
run-IsValid sum256 s [] v = v
run-IsValid sum256 s (c ∷ cs) v =
    run-IsValid sum256 (step sum256 s c) cs (step-IsValid sum256 s c v)

new_store-IsValid : IsValid new_store
unfolding lookup
new_store-IsValid = record {
  keyed = λ k a h. cc;
  enrolling = λ h id p. cc;
  credentialed = λ h id p. cc;
}

-- After any calls on a new store, each account stands under its own id, and the account of every
-- enrollment and of every credential is in the store.
pub run-new_store-IsValid :
    (sum256 : String → String) (cs : List Call) → IsValid (run sum256 new_store cs)
run-new_store-IsValid sum256 cs = run-IsValid sum256 new_store cs new_store-IsValid
