-- ===== src/Config/Transitions.antt =====
-- The operations of src/config.rs on the pairing file, as one type.
use agentknock_cli.Prelude.{
  inl, inr, List, [], ◌∷◌, All, ℕ, Text, ◌==◌, text_eq, ◌≡◌, refl, ap, ◌∙◌, sym, subst, Bool, true,
  not, ◌&&◌, not-eq-true, and-eq-true, Option, none, some, Result, ok,
}
use agentknock_cli.SshAgent.Wire.{Bytes}
use agentknock_cli.Config.Reads.{
  Document, PairingFile, StoredPairing, ConfigurationError, invalid, pairing_pending,
  pairing_changed, Faults, Read, require, found, is_pending, lock, read_pairing_file,
  read_stored_pairing, validate_pairing, parse_pairing,
}
use agentknock_cli.Config.Changes.{
  Commit, Change, unchanged, settle, finish_pending_pairing, abort_pending_pairing, remove_pairing,
  clear_rotation_key, write_pending_pairing, rotate_pairing, remove_active_pairing,
}
use agentknock_cli.Config.Lifecycle.{
  Status, absent, stored, pending, active, continue-ok, require-ok, found-ok, done-ok,
  read_pairing_file-ok, remove-ok, Leads, Makes, settle-Leads, FromTo, IsCommit, IsSecure,
  finish_pending_pairing-Leads,
}
use agentknock_cli.Config.Steps.{
  abort-Makes, remove-Makes, clear-Makes, rotate_if-Makes, start-Makes,
}

-- The operations with their arguments.
pub data Operation : Type 0 where
  start : (ℕ → Document) → Result ConfigurationError ℕ → Operation
  finish : Text → Operation
  abort : Option Text → Operation
  remove : Operation
  clear : Text → Operation
  rotate : ℕ → Text → Text → ℕ → Operation
  remove_active : Bytes → Bytes → Operation

-- The change of the state that an operation is for.
abbrev pub Step : Operation → Status → Status → Type 0
Step (start _ _) = FromTo absent pending
Step (finish _) = FromTo pending active
Step (abort _) = FromTo pending absent
Step remove = λ before after. after ≡ absent
Step (clear _) = λ before after. after ≡ before
Step (rotate _ _ _ _) = FromTo active active
Step (remove_active _ _) = FromTo active absent

-- The documents that the operation `start` writes are pending.
abbrev pub WritesPending : Operation → Type 0
WritesPending (start encode _) = (rotated_at : ℕ) → is_pending (encode rotated_at) ≡ true
WritesPending (finish _) = Unit
WritesPending (abort _) = Unit
WritesPending remove = Unit
WritesPending (clear _) = Unit
WritesPending (rotate _ _ _ _) = Unit
WritesPending (remove_active _ _) = Unit

-- The field `pending` of a decoded pairing is the document's, or false where it has none.
abbrev pub DecodesPending : (Document → Option StoredPairing) → Type 0
DecodesPending decode =
    (document : Document) (pairing : StoredPairing)
    → decode document ≡ some pairing
    → pairing.pending ≡ is_pending document

module _ (decode : Document → Option StoredPairing) where
  unfoldable pub change : Operation → Bool → Option PairingFile → Read Change
  change (start encode now) = λ directory. write_pending_pairing decode encode now
  change (finish expected_client_id) = finish_pending_pairing expected_client_id
  change (abort expected_client_id) = abort_pending_pairing expected_client_id
  change remove = remove_pairing
  change (clear rotation_key) = clear_rotation_key rotation_key
  change (rotate timestamp client_psk rotation_key rotated_at) =
      rotate_pairing decode timestamp client_psk rotation_key rotated_at
  change (remove_active device_id client_id) = remove_active_pairing decode device_id client_id

  -- The file after an operation.
  unfoldable pub apply :
      Commit → Operation → Bool → Option PairingFile → Faults → Option PairingFile
  apply commit operation directory file faults =
      (settle commit file (change operation directory file faults)).1

  -- Operations one after the other, each with what its system calls do.
  pub apply_all :
      Commit → List (Operation × Bool × Faults) → Option PairingFile → Option PairingFile
  apply_all commit [] file = file
  apply_all commit ((operation, directory, faults) ∷ operations) file =
      apply_all commit operations (apply commit operation directory file faults)

module _ (decode : Document → Option StoredPairing) (decodes : DecodesPending decode) where
  rotate-Makes :
      (timestamp : ℕ) (client_psk rotation_key : Text) (rotated_at : ℕ) (directory : Bool)
      (file : Option PairingFile) (faults : Faults) (change : Change) (left : Faults)
      → rotate_pairing decode timestamp client_psk rotation_key rotated_at directory file faults
        ≡ (ok change, left)
      → Makes (FromTo active active) file change
  unfolding rotate_pairing parse_pairing validate_pairing
  rotate-Makes timestamp client_psk rotation_key rotated_at directory file faults change left h =
      let (_, f1, _, h1) = continue-ok (lock directory faults) _ h in
      let (document, f2, read, h2) = continue-ok (read_pairing_file file f1) _ h1 in
      let (pairing, f3, parsed, h3) = continue-ok (parse_pairing decode document f2) _ h2 in
      let (decoded, f4, got, h4) = continue-ok (found (decode document) invalid f2) _ parsed in
      let (_, f5, checked, _) =
        continue-ok (require (not decoded.pending) pairing_pending f4) _ h4 in
      let settled =
        sym (decodes document decoded (found-ok (decode document) invalid f2 got))
        ∙ not-eq-true decoded.pending (require-ok (not decoded.pending) _ f4 checked) in
      rotate_if-Makes _ client_psk rotation_key rotated_at file document f3
        (read_pairing_file-ok file f1 read) settled change left h3

  remove_active-Makes :
      (device_id client_id : Bytes) (directory : Bool) (file : Option PairingFile) (faults : Faults)
      (change : Change) (left : Faults)
      → remove_active_pairing decode device_id client_id directory file faults ≡ (ok change, left)
      → Makes (FromTo active absent) file change
  unfolding remove_active_pairing read_stored_pairing
  remove_active-Makes device_id client_id directory none faults change left h =
      let (_, f1, _, h1) = continue-ok (lock directory faults) _ h in
      subst (Makes (FromTo active absent) none) (done-ok unchanged f1 h1) tt
  remove_active-Makes device_id client_id directory (some file) faults change left h =
      let (_, f1, _, h1) = continue-ok (lock directory faults) _ h in
      let (pairing, f2, stored_read, h2) =
        continue-ok (read_stored_pairing decode (some file) f1) _ h1 in
      let (document, f3, read, h3) = continue-ok (read_pairing_file (some file) f1) _ stored_read in
      let same = decodes document pairing (found-ok (decode document) invalid f3 h3) in
      let (_, f4, checked, h4) =
        continue-ok
          (require
            (not pairing.pending
              && pairing.device_id == device_id
              && pairing.client_id == client_id)
            pairing_changed f2)
          _ h2 in
      let (first, _) = and-eq-true _ _ (require-ok _ _ f2 checked) in
      let (settled, _) = and-eq-true _ _ first in
      subst (Makes (FromTo active absent) (some file)) (remove-ok f4 h4) (
        read_pairing_file-ok (some file) f1 read
            ∙ ap stored (sym same ∙ not-eq-true pairing.pending settled),
        refl,
      )

  -- Whatever system calls fail, an operation leaves the file as it was or makes the one change that
  -- it is for: starting takes no file to a pending pairing, finishing a pending one to an active one,
  -- aborting a pending one and the removal of an active one to no file, removing takes anything to no
  -- file, a rotation keeps a pairing active, and clearing a key keeps the state.
  pub apply-Leads :
      (commit : Commit)
      → IsCommit commit
      → (operation : Operation) (directory : Bool) (file : Option PairingFile) (faults : Faults)
      → WritesPending operation
      → Leads (Step operation) file (apply decode commit operation directory file faults)
  unfolding apply change
  apply-Leads commit c (start encode now) directory file faults writes =
      settle-Leads commit c (FromTo absent pending) file _
        (start-Makes decode encode now file faults writes)
  apply-Leads commit c (finish expected) directory file faults _ =
      finish_pending_pairing-Leads commit c expected directory file faults
  apply-Leads commit c (abort expected) directory file faults _ =
      settle-Leads commit c (FromTo pending absent) file _
        (abort-Makes expected directory file faults)
  apply-Leads commit c remove directory file faults _ =
      settle-Leads commit c (λ before after. after ≡ absent) file _
        (remove-Makes directory file faults)
  apply-Leads commit c (clear rotation_key) directory file faults _ =
      settle-Leads commit c (λ before after. after ≡ before) file _
        (clear-Makes rotation_key directory file faults)
  apply-Leads commit c (rotate timestamp client_psk rotation_key rotated_at) directory file faults
        _ =
      settle-Leads commit c (FromTo active active) file _
        (rotate-Makes timestamp client_psk rotation_key rotated_at directory file faults)
  apply-Leads commit c (remove_active device_id client_id) directory file faults _ =
      settle-Leads commit c (FromTo active absent) file _
        (remove_active-Makes device_id client_id directory file faults)

  -- No sequence of operations, whatever system calls fail, leaves a file that others can read, if it
  -- starts with none or with one of the mode 0600.
  pub apply_all-IsSecure :
      (commit : Commit)
      → IsCommit commit
      → (operations : List (Operation × Bool × Faults))
      → All (λ operation. WritesPending operation.0) operations
      → (file : Option PairingFile) → IsSecure file
      → IsSecure (apply_all decode commit operations file)
  unfolding apply_all
  apply_all-IsSecure commit c [] _ file secure = secure
  apply_all-IsSecure commit c ((operation, directory, faults) ∷ operations) (w, ws) file secure =
      let after = apply decode commit operation directory file faults in
      apply_all-IsSecure commit c operations ws after
        (elim (apply-Leads commit c operation directory file faults w) [
          | inl same ↦ subst IsSecure (sym same) secure
          | inr (_, keeps) ↦ keeps secure
        ])
