-- ===== src/Gateway/Session/Handshake.antt =====
-- Which first messages of a worker are accepted.
use say.Base.{
  false, ◌≡◌, ◌≢◌, ◌↔◌, inl, inr, refl, Option, none, some, ◌==◌, eq_iff, arith, is_some,
  Bool-cases, not, ◌||◌,
}
use say.Protocol.{Envelope, validate, decode_payload, Hello, read_hello, Decoded, decoded, failed}
use say.Gateway.Account.{WorkerAuth, Result, ok, err}
use say.Gateway.Session.{Backend, accepted, handshake, check_hello}

module _ {W : Type 0} (b : Backend W) where
  -- An accepted greeting: a valid hello whose fields are all set, and whose token the store took for
  -- its platform.
  pub record Accepts (first : Option Envelope) (w : W) (h : Hello) (auth : WorkerAuth) (w' : W)
      : Type 0 where
    pub envelope : Envelope
    pub was_read : first ≡ some envelope
    pub valid : validate envelope ≡ none
    pub is_hello : envelope.type ≡ "hello"
    pub says : decode_payload read_hello envelope ≡ decoded h
    pub has_token : h.token ≢ ""
    pub has_platform : h.platform ≢ ""
    pub has_version : h.version ≢ ""
    pub authenticated : b.authenticate h.token h.platform w ≡ (ok auth, w')

  check_hello-accepted :
      (d : Decoded Hello) (h : Hello) (auth : WorkerAuth) (w w' : W)
      → check_hello b d w ≡ (accepted h auth, w')
      → (d ≡ decoded h)
        × (h.token ≢ "")
        × (h.platform ≢ "")
        × (h.version ≢ "")
        × (b.authenticate h.token h.platform w ≡ (ok auth, w'))
  unfolding check_hello
  check_hello-accepted (failed x) h auth w w' e = absurd (ground arith)
  check_hello-accepted (decoded g) h auth w w' e =
      elim (Bool-cases (g.token == "" || g.platform == "" || g.version == "")) [
        | inl bad ↦ absurd (ground arith)
        | inr fine ↦ greeted (b.authenticate g.token g.platform w) refl fine e
      ]
    where
      greeted :
          (r : Result WorkerAuth × W)
          → b.authenticate g.token g.platform w ≡ r
          → (g.token == "" || g.platform == "" || g.version == "") ≡ false
          → check_hello b (decoded g) w ≡ (accepted h auth, w')
          → (decoded g ≡ decoded h)
            × (h.token ≢ "")
            × (h.platform ≢ "")
            × (h.version ≢ "")
            × (b.authenticate h.token h.platform w ≡ (ok auth, w'))
      greeted (ok a, v) q fine f =
          let same : g ≡ h = ground arith in
          rw (← same) (
            refl,
            λ z. ground (arith, eq_iff g.token ""),
            λ z. ground (arith, eq_iff g.platform ""),
            λ z. ground (arith, eq_iff g.version ""),
            ground arith,
          )
      greeted (err a, v) q fine f = absurd (ground arith)

  handshake-Accepts :
      (first : Option Envelope) (h : Hello) (auth : WorkerAuth) (w w' : W)
      → handshake b first w ≡ (accepted h auth, w')
      → Accepts first w h auth w'
  unfolding handshake
  handshake-Accepts none h auth w w' e = absurd (ground arith)
  handshake-Accepts (some m) h auth w w' e =
      elim (Bool-cases (is_some (validate m) || not (m.type == "hello"))) [
        | inl bad ↦ absurd (ground arith)
        | inr fine ↦
            let c = check_hello-accepted (decode_payload read_hello m) h auth w w' (ground arith) in
            record {
              envelope = m;
              was_read = refl;
              valid = ground arith;
              is_hello = ground (arith, eq_iff m.type "hello");
              says = c.0;
              has_token = c.1;
              has_platform = c.2;
              has_version = c.3;
              authenticated = c.4;
            }
      ]

  Accepts-handshake :
      (first : Option Envelope) (h : Hello) (auth : WorkerAuth) (w w' : W)
      → Accepts first w h auth w'
      → handshake b first w ≡ (accepted h auth, w')
  unfolding handshake
  Accepts-handshake first h auth w w' a = ground (
    arith,
    a.was_read,
    a.valid,
    a.is_hello,
    a.says,
    a.authenticated,
    eq_iff a.envelope.type "hello",
    eq_iff h.token "",
    eq_iff h.platform "",
    eq_iff h.version "",
    a.has_token,
    a.has_platform,
    a.has_version,
  )

  -- A first message passes the handshake exactly if it could be read, is a valid hello with a token, a
  -- platform and a version, and its token authenticates for that platform; the session then has the
  -- account that the store answered with. Whether the worker can then be registered is not part of
  -- the handshake.
  pub handshake_iff :
      (first : Option Envelope) (h : Hello) (auth : WorkerAuth) (w w' : W)
      → (handshake b first w ≡ (accepted h auth, w')) ↔ Accepts first w h auth w'
  handshake_iff first h auth w w' =
      (handshake-Accepts first h auth w w', Accepts-handshake first h auth w w')
