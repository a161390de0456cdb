-- ===== src/Config/Reads.antt =====
-- The pairing file of src/config.rs and the functions that read it.
use agentknock_cli.Prelude.{
  ℕ, ◌%◌, Text, ◌==◌, nat_eq, text_eq, codes, Bool, true, false, not, Option, none, some, List, [],
  ◌∷◌, Result, ok, err,
}
use agentknock_cli.Maps.{Map, get}
use agentknock_cli.SshAgent.Wire.{Bytes}

-- A value of the crate serde_json; an array or an object within the file is its text.
pub data Value : Type 0 where
  null : Value
  bool : Bool → Value
  number : ℕ → Value
  string compound : Text → Value

pub data Document : Type 0 where
  object : Map Value → Document
  other : Text → Document

-- A file whose contents are `none` is not JSON.
pub record PairingFile : Type 0 where
  pub mode : ℕ
  pub contents : Option Document

-- The type `Pairing`
pub record StoredPairing : Type 0 where
  pub pending : Bool
  pub device_id : Bytes
  pub client_id : Bytes
  pub client_token : Text
  pub client_psk : Bytes
  pub device_key : Bytes
  pub rotated_at : ℕ
  pub rotation_key : Option Text

-- `panicked` stands for a panic of `expect`, which ends the operation as an error does.
pub data ConfigurationError : Type 0 where
  access invalid pairing_pending pairing_exists no_pairing : ConfigurationError
  pairing_not_pending pairing_changed panicked : ConfigurationError
  insecure_permissions : ℕ → ConfigurationError

-- Whether the system calls to come fail, in their order; those after the end of the list succeed.
abbrev pub Faults : Type 0
Faults = List Bool

-- A computation that makes system calls and changes no file.
abbrev pub Read : Type 0 → Type 0
Read A = Faults → Result ConfigurationError A × Faults

abbrev pub continue :
    {A B : Type 0}
    → Result ConfigurationError A × Faults
    → (A → Read B)
    → Result ConfigurationError B × Faults
continue (ok a, faults) next = next a faults
continue (err e, faults) next = (err e, faults)

infixl 5 ◌>>=◌
abbrev pub ◌>>=◌ : {A B : Type 0} → Read A → (A → Read B) → Read B
read >>= next = λ faults. continue (read faults) next

infixl 5 ◌>>◌
abbrev pub ◌>>◌ : {A B : Type 0} → Read A → Read B → Read B
read >> next = λ faults. continue (read faults) (λ _. next)

abbrev pub done : {A : Type 0} → A → Read A
done a = λ faults. (ok a, faults)

abbrev pub fail : {A : Type 0} → ConfigurationError → Read A
fail e = λ faults. (err e, faults)

abbrev pub require : Bool → ConfigurationError → Read (Unit {0})
require true e = done tt
require false e = fail e

abbrev pub found : {A : Type 0} → Option A → ConfigurationError → Read A
found (some a) e = done a
found none e = fail e

-- A system call whose failure is the error.
unfoldable pub call : ConfigurationError → Read (Unit {0})
call e [] = (ok tt, [])
call e (true ∷ faults) = (err e, faults)
call e (false ∷ faults) = (ok tt, faults)

-- `Value::get`
unfoldable pub field : Text → Document → Option Value
field key (object fields) = get key fields
field key (other _) = none

-- `== Some(&Value::Bool(true))`
unfoldable pub is_true : Option Value → Bool
is_true (some (bool value)) = value
is_true _ = false

unfoldable pub is_pending : Document → Bool
is_pending document = is_true (field (codes "pending") document)

-- `.and_then(Value::as_str) == Some(expected)`
unfoldable pub is_string : Text → Option Value → Bool
is_string expected (some (string value)) = value == expected
is_string expected _ = false

unfoldable pub matches_client : Option Text → Document → Bool
matches_client none document = true
matches_client (some expected) document = is_string expected (field (codes "client_id") document)

-- `DirectoryLock::new`: the directory exists or not.
unfoldable pub lock : Bool → Read (Unit {0})
lock false = fail no_pairing
lock true = do call access; call access

unfoldable pub validate_permissions : ℕ → Read (Unit {0})
validate_permissions mode = do
  call access
  require (mode % 512 == 384) (insecure_permissions (mode % 512))

-- `read_pairing_file::<Value>`
unfoldable pub read_pairing_file : Option PairingFile → Read Document
read_pairing_file none = fail no_pairing
read_pairing_file (some file) = do
  call access
  validate_permissions file.mode
  call invalid
  found file.contents invalid

unfoldable pub read_pending_pairing_file : Option PairingFile → Option Text → Read Document
read_pending_pairing_file file expected_client_id = do
  pairing ← read_pairing_file file
  require (is_pending pairing) pairing_not_pending
  require (matches_client expected_client_id pairing) pairing_changed
  done pairing

unfoldable pub validate_pairing : StoredPairing → Read StoredPairing
validate_pairing pairing = do require (not pairing.pending) pairing_pending; done pairing

-- `decode` is `serde_json::from_value::<Pairing>`.
module _ (decode : Document → Option StoredPairing) where
  unfoldable pub parse_pairing : Document → Read StoredPairing
  parse_pairing contents = do pairing ← found (decode contents) invalid; validate_pairing pairing

  -- `read_pairing_file::<Pairing>`
  unfoldable pub read_stored_pairing : Option PairingFile → Read StoredPairing
  read_stored_pairing file = do contents ← read_pairing_file file; found (decode contents) invalid

  unfoldable pub ensure_pairing_absent : Option PairingFile → Read (Unit {0})
  ensure_pairing_absent none = call access
  ensure_pairing_absent (some file) = do
    call access
    pairing ← read_pairing_file (some file)
    require (not (is_pending pairing)) pairing_pending
    _ ← parse_pairing pairing
    fail pairing_exists
