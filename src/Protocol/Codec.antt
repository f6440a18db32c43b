-- ===== src/Protocol/Codec.antt =====
-- What a decoder of the protocol reads back, and which envelopes `Validate` accepts.
use say.Base.{String, ◌≡◌, refl, ◌⊎◌, ◌↔◌, ◌≢◌, none, arith, eq_iff}
use say.Protocol.{
  Envelope, validate, new_envelope, Hello, AccountStatus, decoded, decode_payload, marshal_hello,
  read_hello, marshal_account_status, read_account_status, protocol_version,
}
use say.Protocol.JsonTree.{text_field}

-- A hello and an account status come out of an envelope as they were put in, whatever its type,
-- empty fields that the encoder leaves out included.
pub decode_payload-new_envelope :
    (kind : String) (h : Hello) (s : AccountStatus)
    → (decode_payload read_hello (new_envelope kind (marshal_hello h)) ≡ decoded h)
      × (decode_payload read_account_status (new_envelope kind (marshal_account_status s))
          ≡ decoded s)
unfolding decode_payload new_envelope marshal_hello read_hello marshal_account_status
    read_account_status text_field
decode_payload-new_envelope kind h s =
    (refl, ground (arith, eq_iff s.external_id "", eq_iff s.detail ""))

-- Validate accepts exactly the envelopes of this protocol's version that have a type and a status
-- that is empty, ok or error.
pub validate_iff :
    (e : Envelope)
    → (validate e ≡ none) ↔ (
        (e.version ≡ protocol_version)
        × (e.type ≢ "")
        × ((e.status ≡ "") ⊎ (e.status ≡ "ok") ⊎ (e.status ≡ "error")))
unfolding validate
validate_iff e = (
  λ h.
      ground (
        arith,
        eq_iff e.type "",
        eq_iff e.status "",
        eq_iff e.status "ok",
        eq_iff e.status "error",
      ),
  λ h.
      ground (
        arith,
        eq_iff e.type "",
        eq_iff e.status "",
        eq_iff e.status "ok",
        eq_iff e.status "error",
      ),
)
