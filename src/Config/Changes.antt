-- ===== src/Config/Changes.antt =====
-- The operations of src/config.rs that change the pairing file.
use agentknock_cli.Prelude.{
  ℕ, Text, ◌==◌, text_eq, codes, ltb, Bool, true, false, not, ◌&&◌, Option, none, some, [], ◌∷◌,
  Result, ok, err, is_some, if◌then◌else◌,
}
use agentknock_cli.Maps.{Map, insert}
use agentknock_cli.SshAgent.Wire.{Bytes}
use agentknock_cli.Config.Reads.{
  Value, string, number, Document, object, other, PairingFile, StoredPairing, ConfigurationError,
  access, no_pairing, pairing_changed, panicked, Faults, Read, ◌>>=◌, ◌>>◌, done, fail, require,
  call, field, is_string, lock, read_pairing_file, read_pending_pairing_file, read_stored_pairing,
  parse_pairing, ensure_pairing_absent,
}

-- What an operation does to the file, if it does not fail before.
pub data Change : Type 0 where
  unchanged removed : Change
  replaced : ℕ → Document → Change

-- `AtomicWriteFile::commit` of the crate atomic_write_file: the file that takes the place of the old
-- one, by the mode that was asked for and the contents that were written.
abbrev pub Commit : Type 0
Commit = Option PairingFile → ℕ → Document → PairingFile

unfoldable pub without : Text → Map Value → Map Value
without key [] = []
without key ((name, value) ∷ fields) =
    let rest = without key fields in if key == name then rest else (name, value) ∷ rest

-- The document with its fields changed, if it has any.
unfoldable pub change_fields : (Map Value → Map Value) → Document → Document
change_fields change (object fields) = object (change fields)
change_fields change (other text) = other text

-- `write_pairing_file`, with the mode 0600
unfoldable pub write_pairing_file : Document → Read Change
write_pairing_file document = do call access; call access; call access; done (replaced 384 document)

-- `as_object_mut().expect(…)`, the change, and `write_pairing_file`: a document that is no object,
-- such as an array, is a panic.
unfoldable pub write_changed : (Map Value → Map Value) → Document → Read Change
write_changed change (object fields) = write_pairing_file (object (change fields))
write_changed change (other _) = fail panicked

-- `fs::remove_file` of a file that was read
unfoldable pub remove_file : Read Change
remove_file = do call access; done removed

-- A change is followed by `DirectoryLock::sync`.
unfoldable pub settle :
    Commit
    → Option PairingFile
    → Result ConfigurationError Change × Faults
    → Result ConfigurationError (Unit {0}) × Option PairingFile
settle commit file (err e, _) = (err e, file)
settle commit file (ok unchanged, _) = (ok tt, file)
settle commit file (ok removed, faults) = ((call access faults).0, none)
settle commit file (ok (replaced mode document), faults) =
    ((call access faults).0, some (commit file mode document))

unfoldable pub finish_pending_pairing : Text → Bool → Option PairingFile → Read Change
finish_pending_pairing expected_client_id directory file = do
  lock directory
  pairing ← read_pending_pairing_file file (some expected_client_id)
  write_changed (without (codes "pending")) pairing

unfoldable pub abort_pending_pairing : Option Text → Bool → Option PairingFile → Read Change
abort_pending_pairing expected_client_id directory file = do
  lock directory
  _ ← read_pending_pairing_file file expected_client_id
  remove_file

unfoldable pub remove_pairing : Bool → Option PairingFile → Read Change
remove_pairing directory none = do lock directory; fail no_pairing
remove_pairing directory (some _) = do lock directory; remove_file

unfoldable pub clear_if : Bool → Document → Read Change
clear_if true pairing = write_changed (without (codes "rotation_key")) pairing
clear_if false pairing = done unchanged

unfoldable pub clear_rotation_key : Text → Bool → Option PairingFile → Read Change
clear_rotation_key rotation_key directory file = do
  lock directory
  pairing ← read_pairing_file file
  clear_if (is_string rotation_key (field (codes "rotation_key") pairing)) pairing

unfoldable pub rotation_due : ℕ → StoredPairing → Bool
rotation_due timestamp pairing =
    not (is_some pairing.rotation_key) && ltb pairing.rotated_at timestamp

-- `LockedPairing::write_rotation`; `client_psk` is the text of the new key in Base64.
unfoldable pub rotated : Text → Text → ℕ → Map Value → Map Value
rotated client_psk rotation_key rotated_at fields =
    insert (codes "rotated_at") (number rotated_at) (
      insert (codes "rotation_key") (string rotation_key)
        (insert (codes "client_psk") (string client_psk) fields))

unfoldable pub rotate_if : Bool → Text → Text → ℕ → Document → Read Change
rotate_if true client_psk rotation_key rotated_at pairing =
    write_changed (rotated client_psk rotation_key rotated_at) pairing
rotate_if false client_psk rotation_key rotated_at pairing = done unchanged

module _ (decode : Document → Option StoredPairing) where
  -- `write_pending_pairing`: the directory is made; `encode` is the serialization of
  -- `PendingPairingFile` with its time stamp, and `now` the clock, which may stand before the epoch.
  unfoldable pub write_pending_pairing :
      (ℕ → Document) → Result ConfigurationError ℕ → Option PairingFile → Read Change
  write_pending_pairing encode now file = do
    call access
    lock true
    ensure_pairing_absent decode file
    rotated_at ← λ faults. (now, faults)
    write_pairing_file (encode rotated_at)

  -- `lock_pairing_if_rotated_before` and `write_rotation`
  unfoldable pub rotate_pairing : ℕ → Text → Text → ℕ → Bool → Option PairingFile → Read Change
  rotate_pairing timestamp client_psk rotation_key rotated_at directory file = do
    lock directory
    contents ← read_pairing_file file
    pairing ← parse_pairing decode contents
    rotate_if (rotation_due timestamp pairing) client_psk rotation_key rotated_at contents

  unfoldable pub remove_active_pairing : Bytes → Bytes → Bool → Option PairingFile → Read Change
  remove_active_pairing device_id client_id directory none = do lock directory; done unchanged
  remove_active_pairing device_id client_id directory (some file) = do
    lock directory
    pairing ← read_stored_pairing decode (some file)
    require
        (not pairing.pending && pairing.device_id == device_id && pairing.client_id == client_id)
        pairing_changed
    remove_file
