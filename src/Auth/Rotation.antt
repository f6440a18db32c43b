-- ===== src/Auth/Rotation.antt =====
-- Refresh tokens are exchanged for their successors, once.
use say.Base.{
  ℕ, ◌+◌, String, true, false, ◌≡◌, ◌≢◌, refl, subst, Option, none, some, ◌==◌, ◌||◌, eq_iff,
  eq_refl, arith, ltb, Bool-cases, inl, inr,
}
use say.Database.{Error, Result, ok, err, invalid_refresh}
use say.Database.Tables.{find, find-update, find-insert, find-none-false, find-weaken}
use say.Database.Keeps.{transact-ok, transact_cases}
use say.Database.Yields.{Yields, yields_rules}
use say.Auth.{
  Db, Config, Outside, Moment, TokenPair, RefreshToken, refresh, refresh_body, rotate, replaced,
  is_dead, issue_token_pair, update_refresh_token,
}
use say.Auth.Issue.{Issued, issue_token_pair-Issued, row}

module _ (o : Outside) (cfg : Config) where
  abbrev pub token_of : String → Db → Option RefreshToken
  token_of token db = find (λ t. t.token_hash == o.sum256 token) db.refresh_tokens

  pub record Rotated (m : Moment) (token : String) (db db' : Db) (pair : TokenPair) : Type 0 where
    pub old : RefreshToken
    pub id : String
    pub middle : Db
    pub found : token_of token db ≡ some old
    pub live : is_dead m.now old ≡ false
    pub issued : Issued o cfg m old.user_id db middle pair id
    pub revokes : db' ≡ (update_refresh_token old.id (replaced m.db_now id) middle).1

  rotate-Rotated :
      (m : Moment) (token : String) (found : Option RefreshToken) (db : Db) (pair : TokenPair)
      → token_of token db ≡ found
      → (rotate o cfg m found db).0 ≡ ok (ok pair)
      → Rotated m token db (rotate o cfg m found db).1 pair
  unfolding rotate
  rotate-Rotated m token none db pair is h = absurd (ground arith)
  rotate-Rotated m token (some t) db pair is h = elim (Bool-cases (is_dead m.now t)) [
    | inl dead ↦ absurd (ground arith)
    | inr live ↦ issued (issue_token_pair o cfg m 0 3 t.user_id db) refl live
  ]
    where
      issued :
          (r : Result (TokenPair × String) × Db)
          → issue_token_pair o cfg m 0 3 t.user_id db ≡ r
          → is_dead m.now t ≡ false
          → Rotated m token db (rotate o cfg m (some t) db).1 pair
      issued (err e, middle) q live = absurd (ground arith)
      issued (ok (p, id), middle) q live = elim (Bool-cases (m.fails 4)) [
        | inl bad ↦ absurd (ground arith)
        | inr fine ↦ elim (Bool-cases (m.fails 5)) [
          | inl bad ↦ absurd (ground arith)
          | inr fine' ↦
              let same : p ≡ pair = ground arith in
              let i = issue_token_pair-Issued o cfg m 0 3 t.user_id db p id (ground arith) in
              record {
                old = t;
                id = id;
                middle = middle;
                found = is;
                live = live;
                issued =
                    subst (λ x. Issued o cfg m t.user_id db middle x id) same
                      (subst (λ x. Issued o cfg m t.user_id db x p id) (ground arith) i);
                revokes = ground arith;
              }
        ]
      ]

  refresh_body-Rotated :
      (m : Moment) (token : String) (db : Db) (pair : TokenPair)
      → (refresh_body o cfg m token db).0 ≡ ok (ok pair)
      → Rotated m token db (refresh_body o cfg m token db).1 pair
  unfolding refresh_body
  refresh_body-Rotated m token db pair h = elim (Bool-cases (m.fails 2)) [
    | inl bad ↦ absurd (ground arith)
    | inr fine ↦
        rw (fine, refresh_body)
          (rotate-Rotated m token (token_of token db) db pair refl (rw (fine, refresh_body) at h))
  ]

  refresh-Rotated :
      (m : Moment) (token : String) (db : Db) (pair : TokenPair)
      → (refresh o cfg m token db).0 ≡ ok pair
      → Rotated m token db (refresh o cfg m token db).1 pair
  unfolding refresh
  refresh-Rotated m token db pair h =
      let t = transact-ok (m.fails 1) (refresh_body o cfg m token) db pair h in
      subst (λ db'. Rotated m token db db' pair) t.1 (refresh_body-Rotated m token db pair t.0)

  refresh_dead :
      (m : Moment) (token : String) (db : Db) (t : RefreshToken)
      → ((n : ℕ) → m.fails n ≡ false)
      → token_of token db ≡ some t
      → is_dead m.now t ≡ true
      → refresh o cfg m token db ≡ (err invalid_refresh, db)
  unfolding refresh
  refresh_dead m token db t works is dead = ground (arith, works 1, works 2)

  -- The row of a hash after a rotation.
  token_of-Rotated :
      (m : Moment) (token : String) (db db' : Db) (pair : TokenPair)
      (r : Rotated m token db db' pair)
      → (token_of token db' ≡ some (replaced m.db_now r.id r.old))
        × (token_of pair.refresh_token db'
            ≡ some (row o cfg r.id r.old.user_id pair.refresh_token m.now))
  unfolding update_refresh_token
  token_of-Rotated m token db db' pair r =
      let taken =
        λ (x : RefreshToken). x.id == r.id || x.token_hash == o.sum256 pair.refresh_token in
      let is_old = λ (x : RefreshToken). x.id == r.old.id in
      let of_old = λ (x : RefreshToken). x.token_hash == o.sum256 token in
      let of_new = λ (x : RefreshToken). x.token_hash == o.sum256 pair.refresh_token in
      let f = replaced m.db_now r.id in
      let new = row o cfg r.id r.old.user_id pair.refresh_token m.now in
      let other : taken r.old ≡ false =
        find-none-false taken of_old db.refresh_tokens r.old r.issued.unused r.found in
      let unused : find of_new db.refresh_tokens ≡ none =
        find-weaken taken of_new db.refresh_tokens (λ x q. ground arith) r.issued.unused in
      (
        ground (
          arith,
          r.revokes,
          r.issued.stores,
          r.found,
          find-update of_old is_old f r.middle.refresh_tokens (λ x. refl),
          find-insert of_old new db.refresh_tokens,
          eq_refl r.old.id,
        ),
        ground (
          arith,
          r.revokes,
          r.issued.stores,
          unused,
          other,
          find-update of_new is_old f r.middle.refresh_tokens (λ x. refl),
          find-insert of_new new db.refresh_tokens,
          eq_refl (o.sum256 pair.refresh_token),
          eq_iff r.old.id r.id,
          eq_iff r.id r.old.id,
        ),
      )

  -- A refresh that succeeds spends its token: the token is refused from then on, at any time, and
  -- nothing changes. Its successor stands in the table for the same user, and is accepted by the
  -- same tests until its own lifetime is over. The later call's statements are taken to work.
  pub refresh_once :
      (m m' : Moment) (token : String) (db : Db) (pair : TokenPair)
      → (refresh o cfg m token db).0 ≡ ok pair
      → ((n : ℕ) → m'.fails n ≡ false)
      → let db' = (refresh o cfg m token db).1 in
        (old new : RefreshToken) × (token_of token db ≡ some old)
        × (is_dead m.now old ≡ false)
        × (refresh o cfg m' token db' ≡ (err invalid_refresh, db'))
        × (token_of pair.refresh_token db' ≡ some new)
        × (new.user_id ≡ old.user_id)
        × (is_dead m'.now new ≡ ltb (m.now + cfg.refresh_lifetime) m'.now)
  refresh_once m m' token db pair h works =
      let r = refresh-Rotated m token db pair h in
      let db' = (refresh o cfg m token db).1 in
      let t = token_of-Rotated m token db db' pair r in
      (
        r.old,
        row o cfg r.id r.old.user_id pair.refresh_token m.now,
        r.found,
        r.live,
        refresh_dead m' token db' (replaced m.db_now r.id r.old) works t.0 (unfold is_dead in refl),
        t.1,
        refl,
        unfold is_dead in refl,
      )

  abbrev Succeeds : Result TokenPair → Type 0
  Succeeds r = (e : Error) → r ≢ err e

  pair-Succeeds : (x : TokenPair × String) → Succeeds (ok x.0)
  pair-Succeeds x e h = ground arith

  rotate-Succeeds : (m : Moment) (t : Option RefreshToken) → Yields Succeeds (rotate o cfg m t)
  unfolding rotate
  rotate-Succeeds m none = search yields_rules
  rotate-Succeeds m (some t) = search (yields_rules, pair-Succeeds) depth 9

  refresh_body-pairs : (m : Moment) (token : String) → Yields Succeeds (refresh_body o cfg m token)
  unfolding refresh_body
  refresh_body-pairs m token = search (yields_rules, rotate-Succeeds)

  -- A refresh that fails, in whatever way, has changed nothing.
  pub refresh_failed :
      (m : Moment) (token : String) (db : Db) (e : Error)
      → (refresh o cfg m token db).0 ≡ err e
      → (refresh o cfg m token db).1 ≡ db
  unfolding refresh
  refresh_failed m token db e h =
      elim (transact_cases (m.fails 1) (refresh_body o cfg m token) db) [
        | inl same ↦ same
        | inr c ↦ absurd ((refresh_body-pairs m token).at db (refresh o cfg m token db).0 c.0 e h)
      ]
