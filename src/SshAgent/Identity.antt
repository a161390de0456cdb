-- ===== src/SshAgent/Identity.antt =====
-- The selected identity of src/bin/agentknock/ssh_agent.rs, read from an OpenSSH public key.
pub mod Keys
use agentknock_cli.Prelude.{
  ℕ, Text, ◌==◌, nat_eq, text_eq, codes, Bool, ◌||◌, Option, none, some, List, [], ◌∷◌, Result, ok,
  err, ◌>>=◌, ◌>>◌, ok_or, guard, not, is_nil, length, if◌then◌else◌,
}
use agentknock_cli.Strings.{split_ascii_whitespace}
use agentknock_cli.SshAgent.Wire.{
  Bytes, InvalidData, no_algorithm, no_key_data, invalid_base64, algorithm_mismatch,
  invalid_ed25519_key, invalid_rsa_key, string, end,
}
use agentknock_cli.SshAgent.Authentication.{KeyKind, ed25519, rsa, SelectedIdentity}

-- The match on the algorithm, with the test at its end; it reads what follows the algorithm's name.
unfoldable pub parse_key : Text → Bytes → Result InvalidData (Option KeyKind)
parse_key algorithm blob =
    if algorithm == codes "ssh-ed25519"
    then (do
      (key, rest) ← string blob
      guard (length key == 32) invalid_ed25519_key
      end rest
      ok (some ed25519))
    else if algorithm == codes "ssh-rsa"
    then (do
      (exponent, blob1) ← string blob
      guard (not (is_nil exponent)) invalid_rsa_key
      (modulus, rest) ← string blob1
      guard (not (is_nil modulus)) invalid_rsa_key
      end rest
      ok (some rsa))
    else (guard (not (is_nil blob)) no_key_data >> ok none)

-- `decode` is `BASE64_STANDARD.decode` of the crate base64.
module _ (decode : Text → Option Bytes) where
  unfoldable pub from_fields : List Text → Text → Result InvalidData SelectedIdentity
  from_fields [] comment = err no_algorithm
  from_fields (algorithm ∷ []) comment = err no_key_data
  from_fields (algorithm ∷ encoded ∷ _) comment = do
    key_blob ← ok_or invalid_base64 (decode encoded)
    (name, blob) ← string key_blob
    guard (name == algorithm) algorithm_mismatch
    key_kind ← parse_key algorithm blob
    ok (record { key_blob = key_blob; key_kind = key_kind; comment = comment })

  unfoldable pub from_openssh : Text → Text → Result InvalidData SelectedIdentity
  from_openssh public_key comment = from_fields (split_ascii_whitespace public_key) comment
