-- ===== src/Gateway/Session/InMemory.antt =====
-- A gateway whose sessions run on the in-memory store.
use say.Base.{ℕ, suc, String, Bool, true, ◌≡◌, ◌≢◌, Option, none, List, arith, lookup, eq_iff}
use say.Protocol.{Envelope, Hello}
use say.Gateway.Account.{Account, WorkerAuth, invalid_token}
use say.Gateway.Store.{
  Store, authenticate_worker, set_worker_status, touch_worker, set_worker_identity,
}
use say.Gateway.Store.Tokens.{enrollment_used_once}
use say.Gateway.Session.{Backend, accepted, rejected, handshake, of_error}
use say.Gateway.Session.Handshake.{handshake_iff}

-- What a call of the store meets: the time, and what the random source gives, if it is read.
pub record Moment : Type 0 where
  pub now : ℕ
  pub first_bytes : Option (List ℕ)
  pub second_bytes : Option (List ℕ)

-- The moments are numbered by the calls.
pub record Server : Type 0 where
  pub store : Store
  pub moments : ℕ → Moment
  pub calls : ℕ

abbrev pub after : Server → Store → Server
after w s = record w { store = s; calls = suc w.calls }

abbrev pub moment : Server → Moment
moment w = w.moments w.calls

module _ (sum256 : String → String)
    (on_event : Option (Account → Envelope → Server → Bool × Server)) where
  -- The methods of Store as the interface AccountStore has them; the last three never fail.
  abbrev pub in_memory : Backend Server
  in_memory = record {
    authenticate = λ token platform w.
        let r =
          authenticate_worker sum256 token platform (moment w).now (moment w).first_bytes
            (moment w).second_bytes w.store in
        (r.0, after w r.1);
    touch = λ id generation w. (true, after w (touch_worker id generation (moment w).now w.store));
    set_identity = λ id generation status external_id w. (
      true,
      after w (set_worker_identity id generation status external_id (moment w).now w.store),
    );
    set_status = λ id generation status w.
        (true, after w (set_worker_status id generation status (moment w).now w.store));
    on_event = on_event;
  }

  -- A hello whose token is no stored credential, once accepted, is rejected with invalid_token when
  -- it is sent again to the store that it left, at any later call, if the hash of the credential
  -- that it brought is another than the token's.
  pub handshake_twice :
      (first : Option Envelope) (h : Hello) (auth : WorkerAuth) (w w' : Server) (calls : ℕ)
      → lookup (sum256 h.token) w.store.credentials ≡ none
      → handshake in_memory first w ≡ (accepted h auth, w')
      → sum256 auth.credential ≢ sum256 h.token
      → (handshake in_memory first (record w' { calls = calls })).0
        ≡ rejected "invalid_token" (of_error invalid_token)
  unfolding handshake
  handshake_twice first h auth w w' calls fresh won differs =
      let a = (handshake_iff in_memory first h auth w w').0 won in
      let m = moment w in
      let m' = w'.moments calls in
      let again =
        enrollment_used_once sum256 h.token h.platform m.now m.first_bytes m.second_bytes w.store
          auth h.platform m'.now m'.first_bytes m'.second_bytes fresh
          (ground (arith, a.authenticated)) differs in
      let left : w'.store
          ≡ (authenticate_worker sum256 h.token h.platform m.now m.first_bytes m.second_bytes
              w.store).1 =
        ground (arith, a.authenticated) in
      ground (
        arith,
        a.was_read,
        a.valid,
        a.is_hello,
        a.says,
        left,
        again,
        eq_iff a.envelope.type "hello",
        eq_iff h.token "",
        eq_iff h.platform "",
        eq_iff h.version "",
        a.has_token,
        a.has_platform,
        a.has_version,
      )
