-- ===== src/Session.antt =====
-- Cryptographic sessions of src/crypto.rs: the order of the sealed messages, the keys that are
-- derived, and the completion of a pairing. Key encapsulation, key derivation and authenticated
-- encryption are those of other crates.
pub mod Order
pub mod Code
use agentknock_cli.Prelude.{
  ℕ, ◌%◌, ◌++◌, Text, ◌==◌, nat_eq, codes, Bool, true, false, Option, none, some, List, [], ◌∷◌,
  Result, ok, err, ◌>>=◌, ◌>>◌, guard, map_err, length,
}
use agentknock_cli.SshAgent.Wire.{Bytes}
use agentknock_cli.Config.Reads.{StoredPairing}

pub data SessionState : Type 0 where
  ready request_sealed completion_sealed : SessionState

unfoldable pub description : SessionState → Text
description ready = codes "ready"
description request_sealed = codes "request sealed"
description completion_sealed = codes "completion sealed"

-- `PartialEq` of `SessionState`
unfoldable pub same_state : SessionState → SessionState → Bool
same_state ready ready = true
same_state request_sealed request_sealed = true
same_state completion_sealed completion_sealed = true
same_state _ _ = false

-- The errors of other crates hold what they display.
pub data Error : Type 0 where
  message_order : Text → Text → Error
  base64 hpke random key_derivation decryption : Text → Error
  invalid_length : Text → ℕ → ℕ → Error

-- The crates hpke, hkdf, chacha20poly1305 and base64. `C` is a context for sending.
pub record Primitives (C : Type 0) : Type 0 where
  pub setup_psk : Bytes → Bytes → Bytes → Bytes → Result Text (Bytes × C)
  pub setup_base : Bytes → Bytes → Result Text (Bytes × C)
  pub seal : C → Bytes → Result Text Bytes × C
  pub export : C → Text → Result Text Bytes
  pub expand : Bytes → Bytes → Bytes → ℕ → Result Text Bytes
  pub decrypt : Bytes → Bytes → Bytes → Result Text Bytes
  pub encode : Bytes → Text
  pub decode : Text → Result Text Bytes

pub record Session (C : Type 0) : Type 0 where
  pub encapped_key : Bytes
  pub rotation_key : Option Text
  pub sender_context : C
  pub state : SessionState

pub record Request : Type 0 where
  pub version : Text
  pub key : Text
  pub ciphertext : Text
  pub rotation_key : Option Text

pub record Response : Type 0 where
  pub nonce : Text
  pub ciphertext : Text

pub record Completion : Type 0 where
  pub ciphertext : Text

pub record PairingResponse : Type 0 where
  pub device_id : Bytes
  pub device_key : Bytes
  pub device_random : Bytes

pub record PairingCompletion : Type 0 where
  pub key : Text
  pub secret : Text
  pub ciphertext : Text

pub record PendingPairing : Type 0 where
  pub device_id : Bytes
  pub client_id : Bytes
  pub client_token : Text
  pub client_psk : Bytes
  pub device_key : Bytes

pub record PskRotation : Type 0 where
  pub client_psk : Bytes
  pub rotation_key : Text

abbrev pub protocol_version : Text
protocol_version = codes "agentknock-v1"

-- With three zero bytes at its end
abbrev pub protocol_version_info : Bytes
protocol_version_info = codes "agentknock-v1" ++ (0 ∷ 0 ∷ 0 ∷ [])

-- The length of a hash of SHA-256
abbrev pub kdf_size : ℕ
kdf_size = 32

abbrev pub sas_decimal_modulus : ℕ
sas_decimal_modulus = 1000000000000

unfoldable pub require_length : Text → Bytes → ℕ → Result Error (Unit {0})
require_length field value expected =
    guard (length value == expected) (invalid_length field (length value) expected)

abbrev pub completion_of : Text → Completion
completion_of ciphertext = record { ciphertext = ciphertext }

module _ {C : Type 0} (primitives : Primitives C) where
  unfoldable pub setup_psk_sender : StoredPairing → Bytes → Result Error (Bytes × C)
  setup_psk_sender pairing request_id = map_err hpke (
      primitives.setup_psk pairing.device_key pairing.client_psk pairing.client_id
        (protocol_version_info ++ (pairing.device_id ++ request_id)))

  -- `Session::new`
  unfoldable pub new : StoredPairing → Bytes → Result Error (Session C)
  new pairing request_id = do
    (encapped_key, sender_context) ← setup_psk_sender pairing request_id
    ok (record {
      encapped_key = encapped_key;
      rotation_key = pairing.rotation_key;
      sender_context = sender_context;
      state = ready;
    })

  unfoldable pub require_state : Session C → SessionState → Text → Result Error (Unit {0})
  require_state session expected operation =
      guard (same_state session.state expected)
        (message_order operation (description session.state))

  -- The state after a message is sealed, or as it was where the context gives an error.
  unfoldable pub sealed :
      Result Text Bytes × C → SessionState → Session C → Result Error Text × Session C
  sealed (ok ciphertext, context) state session = (
    ok (primitives.encode ciphertext),
    record session { sender_context = context; state = state },
  )
  sealed (err error, context) state session =
      (err (hpke error), record session { sender_context = context })

  unfoldable pub seal_message :
      SessionState → SessionState → Text → Bytes → Session C → Result Error Text × Session C
  seal_message before after operation plaintext session =
      elim (require_state session before operation) [
        | err error ↦ (err error, session)
        | ok _ ↦ sealed (primitives.seal session.sender_context plaintext) after session
      ]

  unfoldable pub request_of : Session C → Text → Request
  request_of session ciphertext = record {
    version = protocol_version;
    key = primitives.encode session.encapped_key;
    ciphertext = ciphertext;
    rotation_key = session.rotation_key;
  }

  unfoldable pub seal_request : Bytes → Session C → Result Error Request × Session C
  seal_request plaintext session =
      let (result, after) =
        seal_message ready request_sealed (codes "seal request") plaintext session in
      (result >>= (λ ciphertext. ok (request_of after ciphertext)), after)

  unfoldable pub seal_completion : Bytes → Session C → Result Error Completion × Session C
  seal_completion plaintext session =
      let (result, after) =
        seal_message request_sealed completion_sealed (codes "seal completion") plaintext session in
      (result >>= (λ ciphertext. ok (completion_of ciphertext)), after)

  unfoldable pub open_response : Response → Session C → Result Error Bytes
  open_response response session = do
    public_nonce ← map_err base64 (primitives.decode response.nonce)
    require_length (codes "response random") public_nonce kdf_size
    ciphertext ← map_err base64 (primitives.decode response.ciphertext)
    exported ←
        map_err hpke (primitives.export session.sender_context (codes "agentknock-v1 response"))
    key ←
        map_err key_derivation
          (primitives.expand (session.encapped_key ++ public_nonce) exported (codes "key") 32)
    nonce ←
        map_err key_derivation
          (primitives.expand (session.encapped_key ++ public_nonce) exported (codes "nonce") 12)
    map_err decryption (primitives.decrypt key nonce ciphertext)
