-- ===== src/Session/Code.antt =====
-- The keys that src/crypto.rs derives, and the completion of a pairing with its verification code.
use agentknock_cli.Prelude.{
  ◌∙◌, ℕ, ◌+◌, ◌*◌, ◌%◌, ◌^◌, ◌<◌, length, refl, ap, sym, guard-eq-ok, nat_eq, ◌==◌, ◌≡◌, ◌++◌,
  arith, Text, codes, [], ◌∷◌, Result, ok, err, ◌>>=◌, ◌>>◌, map_err, >>=-eq-ok, >>-eq-ok_unit,
  ok-injective,
}
use native.Mathlib.Nat.{add-mul, add_assoc, mul_assoc, mul_comm, pow-suc, zero-mul}
use agentknock_cli.SshAgent.Wire.{Bytes}
use agentknock_cli.Config.Reads.{StoredPairing}
use agentknock_cli.Pairing.Code.{display_sas, shown, display_sas-shown}
use agentknock_cli.Session.{
  Error, hpke, key_derivation, Primitives, PairingResponse, PairingCompletion, PendingPairing,
  PskRotation, protocol_version_info, kdf_size, sas_decimal_modulus, require_length,
  setup_psk_sender,
}

-- `u64::from_be_bytes`, with the bytes so far
unfoldable pub big_endian : ℕ → Bytes → ℕ
big_endian value [] = value
big_endian value (b ∷ bytes) = big_endian (value * 256 + b) bytes

-- The value of bytes of which the first is the most significant.
pub place_value : Bytes → ℕ
place_value [] = 0
place_value (b ∷ bytes) = b * 256 ^ length bytes + place_value bytes

times-byte : (v b p : ℕ) → (v * 256 + b) * p ≡ v * (p * 256) + b * p
times-byte v b p =
    add-mul (v * 256) b p
    ∙ ap (λ t. t + b * p) (mul_assoc v 256 p ∙ ap (λ t. v * t) (mul_comm 256 p))

big_endian-value :
    (v : ℕ) (bytes : Bytes) → big_endian v bytes ≡ v * 256 ^ length bytes + place_value bytes
unfolding big_endian place_value
big_endian-value v [] = omega arith
big_endian-value v (b ∷ bytes) =
    let power = ap (λ t. v * t) (pow-suc 256 (length bytes)) in
    let front = times-byte v b (256 ^ length bytes) in
    let rest = big_endian-value (v * 256 + b) bytes in
    rest
    ∙ (ap (λ t. t + place_value bytes) (front ∙ ap (λ t. t + b * 256 ^ length bytes) (sym power))
        ∙ add_assoc _ _ _)

map_err-eq-ok :
    {E F A : Type 0} (f : E → F) (run : Result E A) {a : A} → map_err f run ≡ ok a → run ≡ ok a
map_err-eq-ok f (ok a) h = ap ok (ok-injective h)
map_err-eq-ok f (err error) h = absurd (cc)

abbrev zero_id : Bytes
zero_id = 0 ∷ 0 ∷ 0 ∷ 0 ∷ 0 ∷ 0 ∷ 0 ∷ 0 ∷ 0 ∷ 0 ∷ 0 ∷ 0 ∷ 0 ∷ 0 ∷ 0 ∷ 0 ∷ []

-- The results of the context's calls, one after the other.
abbrev pub after : {C A B : Type 0} → Result Text A × C → (A → C → Result Error B) → Result Error B
after (ok a, context) next = next a context
after (err error, context) next = err (hpke error)

require_length-ok :
    (field : Text) (value : Bytes) (expected : ℕ) {u : Unit {0}}
    → require_length field value expected ≡ ok u
    → length value ≡ expected
unfolding require_length
require_length-ok field value expected h =
    nat_eq.eq_sound (length value) expected (guard-eq-ok (length value == expected) _ h)

module _ {C : Type 0} (primitives : Primitives C) where
  unfoldable pub derive_psk_rotation : StoredPairing → Result Error PskRotation
  derive_psk_rotation pairing = do
    (encapped_key, sender_context) ← setup_psk_sender primitives pairing zero_id
    client_psk ← map_err hpke (primitives.export sender_context (codes "agentknock-v1 psk"))
    ok (record { client_psk = client_psk; rotation_key = primitives.encode encapped_key })

  -- The code from its 8 bytes
  unfoldable pub sas_of : Bytes → ℕ
  sas_of bytes = big_endian 0 bytes % sas_decimal_modulus

  unfoldable pub pairing_completion : Bytes → Bytes → Bytes → PairingCompletion
  pairing_completion encapped_key secret_ciphertext ciphertext = record {
    key = primitives.encode encapped_key;
    secret = primitives.encode secret_ciphertext;
    ciphertext = primitives.encode ciphertext;
  }

  -- `seal_pairing` once both messages are sealed
  unfoldable pub finish_pairing :
      Bytes
      → Text
      → PairingResponse
      → Bytes
      → PairingCompletion
      → C
      → Result Error (PairingCompletion × PendingPairing × ℕ)
  finish_pairing client_id client_token response client_secret completion sender_context = do
    client_psk ← map_err hpke (primitives.export sender_context (codes "agentknock-v1 psk"))
    require_length (codes "device random") response.device_random kdf_size
    sas ← map_err key_derivation (
        primitives.expand response.device_random client_secret
          (codes "agentknock-v1 sas" ++ (response.device_id ++ (client_id ++ response.device_key)))
          8)
    ok (
      completion,
      record {
        device_id = response.device_id;
        client_id = client_id;
        client_token = client_token;
        client_psk = client_psk;
        device_key = response.device_key;
      },
      sas_of sas,
    )

  unfoldable pub seal_pairing :
      Bytes
      → Text
      → PairingResponse
      → Bytes
      → Bytes
      → Result Error (PairingCompletion × PendingPairing × ℕ)
  seal_pairing client_id client_token response client_secret application_plaintext = do
    require_length (codes "client secret") client_secret kdf_size
    (encapped_key, sender_context) ← map_err hpke (
        primitives.setup_base response.device_key
          (protocol_version_info ++ (response.device_id ++ client_id)))
    after (primitives.seal sender_context client_secret) (λ secret_ciphertext context1.
        after (primitives.seal context1 application_plaintext) (λ ciphertext context2.
          finish_pairing client_id client_token response client_secret
            (pairing_completion encapped_key secret_ciphertext ciphertext) context2))

  unfoldable pub derive_address_id : Text → Result Error Bytes
  derive_address_id address =
      map_err key_derivation
        (primitives.expand (codes "agentknock-v1") address (codes "agentknock-v1 address") 16)

  unfoldable pub derive_pairing_commitment : Bytes → Result Error Bytes
  derive_pairing_commitment client_secret = do
    require_length (codes "client secret") client_secret kdf_size
    map_err key_derivation (
        primitives.expand (codes "agentknock-v1") client_secret (codes "agentknock-v1 commitment")
          kdf_size)

  after-ok :
      {A B : Type 0} (run : Result Text A × C) (next : A → C → Result Error B) {b : B}
      → after run next ≡ ok b
      → (a : A) × (run.0 ≡ ok a) × (next a run.1 ≡ ok b)
  after-ok (ok a, context) next h = (a, refl, h)
  after-ok (err error, context) next h = cc

  -- What a pairing that is sealed consists of: both messages in their order under one context, which
  -- is set up for the device's key and bound to the version and the two ids; the shared key that this
  -- context exports after them; and the code, of the bytes that are expanded from the two sides'
  -- randomness and bound to both ids and the device's key.
  pub record IsPairing (client_id : Bytes) (response : PairingResponse)
      (client_secret plaintext : Bytes) (completion : PairingCompletion) (pairing : PendingPairing)
      (sas : ℕ) : Type 0 where
    pub encapped_key : Bytes
    pub context : C
    pub secret_ciphertext : Bytes
    pub ciphertext : Bytes
    pub bytes : Bytes
    pub set_up :
        primitives.setup_base response.device_key
          (protocol_version_info ++ (response.device_id ++ client_id))
        ≡ ok (encapped_key, context)
    pub secret_sealed : (primitives.seal context client_secret).0 ≡ ok secret_ciphertext
    pub message_sealed :
        (primitives.seal (primitives.seal context client_secret).1 plaintext).0 ≡ ok ciphertext
    pub key_sent : completion.key ≡ primitives.encode encapped_key
    pub secret_sent : completion.secret ≡ primitives.encode secret_ciphertext
    pub message_sent : completion.ciphertext ≡ primitives.encode ciphertext
    pub exported :
        primitives.export
          (primitives.seal (primitives.seal context client_secret).1 plaintext).1
          (codes "agentknock-v1 psk")
        ≡ ok pairing.client_psk
    pub expanded :
        primitives.expand response.device_random client_secret
          (codes "agentknock-v1 sas" ++ (response.device_id ++ (client_id ++ response.device_key)))
          8
        ≡ ok bytes
    pub code_value : sas ≡ place_value bytes % 10 ^ 12
    pub same_device : pairing.device_id ≡ response.device_id
    pub same_client : pairing.client_id ≡ client_id
    pub same_key : pairing.device_key ≡ response.device_key
    pub secret_length : length client_secret ≡ 32
    pub random_length : length response.device_random ≡ 32

  sas_of-value : (bytes : Bytes) → sas_of bytes ≡ place_value bytes % 10 ^ 12
  unfolding sas_of
  sas_of-value bytes =
      ap (λ n. n % 10 ^ 12)
        (big_endian-value 0 bytes ∙ omega (arith, zero-mul (256 ^ length bytes)))

  -- If a pairing is sealed, it consists of what the response and the client's secret determine, and
  -- the digits that are displayed of its code are those of the value of the expanded bytes, modulo
  -- 10 ^ 12.
  pub seal_pairing_sound :
      (client_id : Bytes) (client_token : Text) (response : PairingResponse)
      (client_secret application_plaintext : Bytes) (completion : PairingCompletion)
      (pairing : PendingPairing) (sas : ℕ)
      → seal_pairing client_id client_token response client_secret application_plaintext
        ≡ ok (completion, pairing, sas)
      → (made : IsPairing client_id response client_secret application_plaintext completion pairing
          sas)
        × (shown (display_sas sas) ≡ place_value made.bytes % 10 ^ 12)
  unfolding seal_pairing finish_pairing pairing_completion
  seal_pairing_sound client_id client_token response client_secret plaintext completion pairing sas
        h =
      let (secret, h1) =
        >>-eq-ok_unit (require_length (codes "client secret") client_secret 32) _ h in
      let ((encapped_key, context), set_up, h2) =
        >>=-eq-ok
          (map_err hpke (
            primitives.setup_base response.device_key
              (protocol_version_info ++ (response.device_id ++ client_id))))
          _ h1 in
      let (secret_ciphertext, sealed, h3) = after-ok (primitives.seal context client_secret) _ h2 in
      let context1 = (primitives.seal context client_secret).1 in
      let (ciphertext, sealed1, h4) = after-ok (primitives.seal context1 plaintext) _ h3 in
      let context2 = (primitives.seal context1 plaintext).1 in
      let (client_psk, exported, h5) =
        >>=-eq-ok (map_err hpke (primitives.export context2 (codes "agentknock-v1 psk"))) _ h4 in
      let (random, h6) =
        >>-eq-ok_unit (require_length (codes "device random") response.device_random 32) _ h5 in
      let (bytes, expanded, h7) =
        >>=-eq-ok
          (map_err key_derivation (
            primitives.expand response.device_random client_secret
              (codes "agentknock-v1 sas"
                ++ (response.device_id ++ (client_id ++ response.device_key)))
              8))
          _ h6 in
      let same = ok-injective h7 in
      let value = sym (ap (λ t. t.2) same) ∙ sas_of-value bytes in
      let bound : sas < 1000000000000 = omega (arith, value) in
      (
        record {
          encapped_key = encapped_key;
          context = context;
          secret_ciphertext = secret_ciphertext;
          ciphertext = ciphertext;
          bytes = bytes;
          set_up = map_err-eq-ok hpke _ set_up;
          secret_sealed = sealed;
          message_sealed = sealed1;
          key_sent = sym (ap (λ t. t.0.key) same);
          secret_sent = sym (ap (λ t. t.0.secret) same);
          message_sent = sym (ap (λ t. t.0.ciphertext) same);
          exported = map_err-eq-ok hpke _ exported ∙ ap (λ t. ok t.1.client_psk) same;
          expanded = map_err-eq-ok key_derivation _ expanded;
          code_value = value;
          same_device = sym (ap (λ t. t.1.device_id) same);
          same_client = sym (ap (λ t. t.1.client_id) same);
          same_key = sym (ap (λ t. t.1.device_key) same);
          secret_length = require_length-ok (codes "client secret") client_secret 32 secret;
          random_length =
              require_length-ok (codes "device random") response.device_random 32 random;
        },
        (display_sas-shown sas bound).1 ∙ value,
      )
