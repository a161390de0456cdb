-- ===== src/Config/Success.antt =====
-- Operations of src/config.rs while no system call fails.
use agentknock_cli.Prelude.{ℕ, Text, codes, ◌≡◌, refl, ap, ◌∙◌, true, Option, none, some, [], ok}
use agentknock_cli.Maps.{Map}
use agentknock_cli.Config.Reads.{
  Value, Document, object, other, PairingFile, StoredPairing, call, field, is_pending, is_string,
  matches_client, lock, validate_permissions, read_pairing_file, read_pending_pairing_file,
  ensure_pairing_absent,
}
use agentknock_cli.Config.Lifecycle.{IsCommit}
use agentknock_cli.Config.Changes.{
  Commit, without, change_fields, write_changed, write_pairing_file, remove_file, settle,
  finish_pending_pairing, abort_pending_pairing, write_pending_pairing,
}

-- A document with a client is an object, so its fields can be changed.
write_changed-eq :
    (change : Map Value → Map Value) (client_id : Text) (document : Document)
    → is_string client_id (field (codes "client_id") document) ≡ true
    → write_changed change document [] ≡ write_pairing_file (change_fields change document) []
unfolding write_changed change_fields is_string field
write_changed-eq change client_id (object fields) h = refl
write_changed-eq change client_id (other _) h = absurd (cc)

module _ (decode : Document → Option StoredPairing) (commit : Commit) (is_commit : IsCommit commit)
    (encode : ℕ → Document) (now : ℕ) (client_id : Text)
    (starts_pending : is_pending (encode now) ≡ true)
    (names_client : is_string client_id (field (codes "client_id") (encode now)) ≡ true)
    (file : PairingFile) (started : file ≡ commit none 384 (encode now)) where
  -- While no system call fails, a pairing is started where no file is. The attempt of the same client
  -- that it leaves is then finished by a file without the field `pending`, or aborted by removing the
  -- file.
  pub start-finish-abort :
      (settle commit none (write_pending_pairing decode encode (ok now) none [])
        ≡ (ok tt, some file))
      × (settle commit (some file) (finish_pending_pairing client_id true (some file) []) ≡ (
        ok tt,
        some (commit (some file) 384 (change_fields (without (codes "pending")) (encode now))),
      ))
      × (settle commit (some file) (abort_pending_pairing (some client_id) true (some file) [])
          ≡ (ok tt, none))
  unfolding settle write_pending_pairing finish_pending_pairing abort_pending_pairing call lock
      ensure_pairing_absent write_pairing_file remove_file read_pending_pairing_file
      read_pairing_file validate_permissions matches_client
  start-finish-abort =
      let mode : file.mode ≡ 384 =
        ap (λ (f : PairingFile). f.mode) started ∙ is_commit.creates 384 (encode now) in
      let contents : file.contents ≡ some (encode now) =
        ap (λ (f : PairingFile). f.contents) started ∙ is_commit.holds none 384 (encode now) in
      (
        rw started refl,
        rw
            (
              mode,
              contents,
              starts_pending,
              names_client,
              write_changed-eq (without (codes "pending")) client_id (encode now) names_client,
            )
            refl,
        rw (mode, contents, starts_pending, names_client) refl,
      )
