-- ===== src/SshAuthentication/Signature.antt =====
-- Which bytes are a signature of an algorithm.
use agentknock_cli.Prelude.{
  ◌≡◌, ◌≢◌, ◌↔◌, ◌<◌, ◌^◌, refl, ap, ◌∙◌, sym, arith, true, not, ◌||◌, Bool-cases, Option-cases,
  inl, inr, Option, none, some, some-injective, [], ◌∷◌, ◌++◌, append-nil, Result, ok, err, leb,
  length, is_nil, not-is_nil, is_nil-≢, and-eq-true, text_beq_iff, text_beq_refl, ◌==◌, nat_eq,
  text_eq,
}
use agentknock_cli.SshAgent.Wire.{Bytes, IsBytes, InvalidData, from_be_bytes, u32, split_at, string}
use agentknock_cli.SshAgent.Wire.RoundTrip.{encoded, string-encoded, string-eq-ok}
use agentknock_cli.SshAuthentication.{
  SshSignatureAlgorithm, ed25519, rsa_sha256, rsa_sha512, as_str, is_ed25519, take_string,
  valid_value, valid_signature,
}

-- A signature as the wire holds it: the algorithm's name and the value, which has 64 bytes for
-- Ed25519.
pub record IsSignature (signature : Bytes) (algorithm : SshSignatureAlgorithm) : Type 0 where
  pub value : Bytes
  pub layout : signature ≡ encoded (as_str algorithm) ++ encoded value
  pub value_fits : length value < 2 ^ 32
  pub some_value : value ≢ []
  pub sized : (not (is_ed25519 algorithm) || length value == 64) ≡ true

-- `Result::ok`
abbrev to_option : Result InvalidData (Bytes × Bytes) → Option (Bytes × Bytes)
to_option (ok pair) = some pair
to_option (err _) = none

take_string-string : (input : Bytes) → take_string input ≡ to_option (string input)
unfolding take_string string u32 split_at
take_string-string [] = refl
take_string-string (_ ∷ []) = refl
take_string-string (_ ∷ _ ∷ []) = refl
take_string-string (_ ∷ _ ∷ _ ∷ []) = refl
take_string-string (a ∷ b ∷ c ∷ d ∷ rest) =
    elim (Bool-cases (leb (from_be_bytes a b c d) (length rest))) [
      | inl fits ↦ rw fits refl
      | inr short ↦ rw short refl
    ]

to_option-eq-some :
    (r : Result InvalidData (Bytes × Bytes)) {pair : Bytes × Bytes}
    → to_option r ≡ some pair
    → r ≡ ok pair
to_option-eq-some (ok p) h = ap ok (some-injective h)
to_option-eq-some (err e) h = cc

take_string-eq-some :
    (input : Bytes) {value rest : Bytes}
    → take_string input ≡ some (value, rest)
    → string input ≡ ok (value, rest)
take_string-eq-some input h = to_option-eq-some (string input) (sym (take_string-string input) ∙ h)

take_string-encoded :
    (value rest : Bytes)
    → length value < 2 ^ 32
    → take_string (encoded value ++ rest) ≡ some (value, rest)
take_string-encoded value rest fits =
    take_string-string (encoded value ++ rest) ∙ ap to_option (string-encoded value rest fits)

as_str-short : (algorithm : SshSignatureAlgorithm) → length (as_str algorithm) < 2 ^ 32
as_str-short ed25519 = omega arith
as_str-short rsa_sha256 = omega arith
as_str-short rsa_sha512 = omega arith

valid_value-true :
    (expected : SshSignatureAlgorithm) (algorithm value remainder : Bytes)
    → valid_value expected algorithm (value, remainder) ≡ true
    → (is_nil remainder ≡ true)
      × (value ≢ [])
      × (algorithm ≡ as_str expected)
      × ((not (is_ed25519 expected) || length value == 64) ≡ true)
unfolding valid_value
valid_value-true expected algorithm value remainder h =
    let (h1, sized) = and-eq-true _ _ h in
    let (h2, named) = and-eq-true _ _ h1 in
    let (ended, filled) = and-eq-true _ _ h2 in
    (ended, not-is_nil value filled, (text_beq_iff algorithm (as_str expected)).0 named, sized)

is_nil-eq : (xs : Bytes) → is_nil xs ≡ true → xs ≡ []
is_nil-eq [] h = refl
is_nil-eq (_ ∷ _) h = cc

valid_signature_sound :
    (signature : Bytes) (expected : SshSignatureAlgorithm)
    → IsBytes signature
    → valid_signature signature expected ≡ true
    → IsSignature signature expected
unfolding valid_signature
valid_signature_sound signature expected b h = elim (Option-cases (take_string signature)) [
  | inl missing ↦ absurd (ground arith)
  | inr ((algorithm, rest), first) ↦
      let (e, _, _, b') = string-eq-ok signature b (take_string-eq-some signature first) in
      elim (Option-cases (take_string rest)) [
        | inl missing ↦ absurd (ground arith)
        | inr ((value, remainder), second) ↦
            let (e', fits, _, _) = string-eq-ok rest b' (take_string-eq-some rest second) in
            let valid : valid_value expected algorithm (value, remainder) ≡ true = ground arith in
            let (ended, filled, named, sized) =
              valid_value-true expected algorithm value remainder valid in
            record {
              value = value;
              layout =
                  rw (e, e', named, is_nil-eq remainder ended, append-nil (encoded value)) refl;
              value_fits = fits;
              some_value = filled;
              sized = sized;
            }
      ]
]

valid_signature-eq :
    (signature algorithm rest : Bytes) (pair : Bytes × Bytes) (expected : SshSignatureAlgorithm)
    → take_string signature ≡ some (algorithm, rest)
    → take_string rest ≡ some pair
    → valid_signature signature expected ≡ valid_value expected algorithm pair
unfolding valid_signature
valid_signature-eq signature algorithm rest pair expected first second =
    rw (valid_signature, first) (rw second refl)

valid_signature_complete :
    (signature : Bytes) (expected : SshSignatureAlgorithm)
    → IsSignature signature expected
    → valid_signature signature expected ≡ true
unfolding valid_value
valid_signature_complete signature expected s =
    let first : take_string signature ≡ some (as_str expected, encoded s.value) =
      ap take_string s.layout
      ∙ take_string-encoded (as_str expected) (encoded s.value) (as_str-short expected) in
    let second : take_string (encoded s.value) ≡ some (s.value, []) =
      rw (append-nil (encoded s.value)) at (take_string-encoded s.value [] s.value_fits) in
    valid_signature-eq signature (as_str expected) (encoded s.value) (s.value, []) expected first
      second
    ∙ rw (is_nil-≢ s.value s.some_value, text_beq_refl (as_str expected)) s.sized

-- A returned signature is accepted exactly if it is the wire form of the expected algorithm's name
-- and a value, which is not empty and has 64 bytes for Ed25519.
pub valid_signature_iff :
    (signature : Bytes) (expected : SshSignatureAlgorithm)
    → IsBytes signature
    → (valid_signature signature expected ≡ true) ↔ IsSignature signature expected
valid_signature_iff signature expected b =
    (valid_signature_sound signature expected b, valid_signature_complete signature expected)
