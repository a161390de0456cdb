-- ===== src/SshAgent/Authentication.antt =====
-- Requests to sign, of src/bin/agentknock/ssh_agent.rs: the selected identity, the routing of a
-- packet, and the check that a message is an SSH user authentication with the selected key.
pub mod Sound
pub mod Complete
pub mod Spec
pub mod Routing
use agentknock_cli.Prelude.{
  ℕ, Text, ◌==◌, nat_eq, text_eq, codes, Bool, true, false, ◌&&◌, ◌||◌, not, Option, none, some,
  List, [], ◌∷◌, Result, ok, err, ◌>>=◌, ◌>>◌, guard, is_ok, is_nil, length, if◌then◌else◌,
}
use agentknock_cli.SshAgent.Wire.{
  Bytes, InvalidData, truncated_data, empty_session, not_user_authentication, unsupported_service,
  unsupported_method, no_signature, wrong_algorithm, wrong_key, invalid_host_key, unsupported_flags,
  byte, u32, string, end,
}
use agentknock_cli.SshAuthentication.{SshSignatureAlgorithm, rsa_sha256, rsa_sha512, as_str}

pub data KeyKind : Type 0 where
  ed25519 rsa : KeyKind

pub record SelectedIdentity : Type 0 where
  pub key_blob : Bytes
  pub key_kind : Option KeyKind
  pub comment : Bytes

pub data Route : Type 0 where
  list_identities : Route
  authenticate : SshSignatureAlgorithm → Bytes → Route
  forward extension_query refuse : Route

abbrev pub publickey : Bytes
publickey = codes "publickey"

abbrev pub hostbound : Bytes
hostbound = codes "publickey-hostbound-v00@openssh.com"

-- The host key of the host-bound method.
pub validate_host_key : Bytes → Result InvalidData (Unit {0})
validate_host_key host_key = do
  (name, remaining) ← string host_key
  guard (not (is_nil name) && not (is_nil remaining)) invalid_host_key

-- What follows the public key, by the method.
pub validate_ending : Bytes → Bytes → Result InvalidData (Unit {0})
validate_ending method m =
    if method == hostbound
    then (do (host_key, m') ← string m; validate_host_key host_key; end m')
    else end m

module _ (expected_key : Bytes) (algorithm : SshSignatureAlgorithm) where
  -- The reads of `validate_authentication_message`, two at a time: the algorithm and the key,
  pub validate_key : Bytes → Bytes → Result InvalidData (Unit {0})
  validate_key method m = do
    (name, m1) ← string m
    guard (name == as_str algorithm) wrong_algorithm
    (key, m2) ← string m1
    guard (key == expected_key) wrong_key
    validate_ending method m2

  -- the method and the flag that says that a signature follows,
  pub validate_method : Bytes → Result InvalidData (Unit {0})
  validate_method m = do
    (method, m1) ← string m
    guard (method == publickey || method == hostbound) unsupported_method
    (signed, m2) ← byte m1
    guard (signed == 1) no_signature
    validate_key method m2

  -- the user and the service,
  pub validate_user : Bytes → Result InvalidData (Unit {0})
  validate_user m = do
    (user, m1) ← string m
    (service, m2) ← string m1
    guard (service == codes "ssh-connection") unsupported_service
    validate_method m2

-- and at the front the session and the message number.
pub validate_authentication_message :
    Bytes → Bytes → SshSignatureAlgorithm → Result InvalidData (Unit {0})
validate_authentication_message message expected_key algorithm = do
  (session, m1) ← string message
  guard (not (is_nil session)) empty_session
  (kind, m2) ← byte m1
  guard (kind == 50) not_user_authentication
  validate_user expected_key algorithm m2

pub signature_algorithm : Option KeyKind → ℕ → Result InvalidData SshSignatureAlgorithm
signature_algorithm (some KeyKind.ed25519) flags =
    if flags == 0 then ok SshSignatureAlgorithm.ed25519 else err unsupported_flags
signature_algorithm (some rsa) flags =
    if flags == 0x02
    then ok rsa_sha256
    else if flags == 0x04
    then ok rsa_sha512
    else err unsupported_flags
signature_algorithm none flags = err unsupported_flags

-- `result.unwrap_or(Route::Refuse)`
abbrev pub or_refuse : Result InvalidData Route → Route
or_refuse (ok route) = route
or_refuse (err _) = refuse

module _ (identity : SelectedIdentity) where
  -- The closure of `parse_authentication`, on what follows the key blob.
  pub authentication_request : Bytes → Result InvalidData Route
  authentication_request r1 = do
    (message, r2) ← string r1
    (flags, r3) ← u32 r2
    end r3
    algorithm ← signature_algorithm identity.key_kind flags
    validate_authentication_message message identity.key_blob algorithm
    ok (authenticate algorithm message)

  pub parse_authentication : Bytes → Route
  parse_authentication contents = elim (string contents) [
    | err _ ↦ refuse
    | ok (key_blob, r1) ↦
        if key_blob == identity.key_blob then or_refuse (authentication_request r1) else forward
  ]

  pub is_extension_query : Bytes → Bool
  is_extension_query contents = elim (string contents) [
    | err _ ↦ false
    | ok (name, remaining) ↦ name == codes "query" && is_ok (end remaining)
  ]

  unfoldable pub route : Bytes → Route
  route [] = refuse
  route (message_type ∷ contents) =
      if message_type == 11 && is_nil contents
      then list_identities
      else if message_type == 13
      then parse_authentication contents
      else if message_type == 27
      then (if is_extension_query contents then extension_query else forward)
      else refuse
