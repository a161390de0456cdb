-- ===== src/SshAuthentication.antt =====
-- src/ssh_authentication.rs: the signature algorithms, and the check of a signature that the device
-- returned.
pub mod Signature
use agentknock_cli.Prelude.{
  ℕ, ◌+◌, Text, ◌==◌, text_eq, nat_eq, Bool, true, false, ◌&&◌, ◌||◌, not, Option, some, none, [],
  leb, length, take, drop, is_nil, codes, if◌then◌else◌, ◌∷◌,
}
use agentknock_cli.SshAgent.Wire.{Bytes, from_be_bytes}

pub data SshSignatureAlgorithm : Type 0 where
  ed25519 rsa_sha256 rsa_sha512 : SshSignatureAlgorithm

abbrev pub as_str : SshSignatureAlgorithm → Text
as_str ed25519 = codes "ssh-ed25519"
as_str rsa_sha256 = codes "rsa-sha2-256"
as_str rsa_sha512 = codes "rsa-sha2-512"

abbrev is_ed25519 : SshSignatureAlgorithm → Bool
is_ed25519 ed25519 = true
is_ed25519 _ = false

-- On a 64-bit machine `4_usize.checked_add(length)` of a 32-bit length does not overflow.
pub take_string : Bytes → Option (Bytes × Bytes)
take_string (a ∷ b ∷ c ∷ d ∷ rest) =
    let n = from_be_bytes a b c d in
    if leb n (length rest) then some (take n rest, drop n rest) else none
take_string _ = none

valid_value : SshSignatureAlgorithm → Bytes → Bytes × Bytes → Bool
valid_value expected algorithm (value, remainder) =
    is_nil remainder
    && not (is_nil value)
    && algorithm == as_str expected
    && (not (is_ed25519 expected) || length value == 64)

pub valid_signature : Bytes → SshSignatureAlgorithm → Bool
unfolding valid_value
valid_signature signature expected = elim (take_string signature) [
  | none ↦ false
  | some (algorithm, remainder) ↦ elim (take_string remainder) [
    | none ↦ false
    | some rest ↦ valid_value expected algorithm rest
  ]
]
