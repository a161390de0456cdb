-- ===== src/Pairing/Start.antt =====
-- `start_pairing` of src/pairing.rs over the pairing file: the request, the sealed completion, the
-- file that is written, and its removal where the handoff fails.
use agentknock_cli.Prelude.{
  ℕ, ◌≡◌, ◌⊎◌, refl, sym, ap, subst, inl, inr, Text, text_eq, codes, Bool, true, false, Option,
  none, some, Result, ok, err, ◌>>=◌, ◌>>◌, guard, map_err,
}
use agentknock_cli.SshAgent.Wire.{Bytes}
use agentknock_cli.Config.Reads.{
  Value, bool, string, number, Document, PairingFile, StoredPairing, ConfigurationError, Faults,
  ensure_pairing_absent, call, lock, access, invalid, pairing_not_pending, pairing_changed, require,
  field, is_true, is_string, is_pending, matches_client, validate_permissions, read_pairing_file,
  read_pending_pairing_file,
}
use agentknock_cli.Config.Changes.{
  Commit, Change, unchanged, removed, replaced, settle, write_pending_pairing,
  abort_pending_pairing,
}
use agentknock_cli.Config.Lifecycle.{
  absent, status, continue-ok, write-ok, remove-ok, require-ok, found-ok,
}
use agentknock_cli.Config.Steps.{absent-status}
use agentknock_cli.Session.{Primitives, PairingResponse, PairingCompletion, PendingPairing}
use agentknock_cli.Session.Code.{seal_pairing, derive_address_id, derive_pairing_commitment}
use agentknock_cli.Relay
use agentknock_cli.Exchange.{
  RequestError, configuration, unclassified, interrupted, Detail, json, Awaited, canceled, finished,
  from_relay, crypto_error,
}
use agentknock_cli.Pairing.Address.{is_valid_pairing_address}

-- `Result::is_ok`
abbrev pub is_ok : Result RequestError ℕ → Bool
is_ok (ok _) = true
is_ok (err _) = false

-- What the pairing draws, what the relay and the cancellation do, and which system calls fail. The
-- lock is held by each operation on the file only, so other processes may change the file in between:
-- `waiting` is what they do until the file is written, and `handing` until it would be removed.
pub record Surroundings : Type 0 where
  pub client_secret : Bytes
  pub client_id : Bytes
  pub client_id_text : Text
  pub client_token : Text
  pub plaintext : Result Text Bytes
  pub prepared : Result Relay.Error (Unit {0})
  pub response : Awaited (Result Relay.Error PairingResponse)
  pub handed : PairingCompletion → Awaited (Result Relay.Error (Unit {0}))
  pub waiting : Option PairingFile → Option PairingFile
  pub handing : Option PairingFile → Option PairingFile
  pub now : Result ConfigurationError ℕ
  pub checking : Faults
  pub writing : Faults
  pub aborting : Faults

unfoldable pub awaited : {A : Type 0} → Awaited (Result Relay.Error A) → Result RequestError A
awaited canceled = err interrupted
awaited (finished result) = map_err from_relay result

module _ {C : Type 0} (primitives : Primitives C) (commit : Commit)
    (decode : Document → Option StoredPairing) (encode : PendingPairing → ℕ → Document) where
  -- Everything before the file is written.
  unfoldable pub sealed_pairing :
      Text
      → Surroundings
      → Option PairingFile
      → Result RequestError (PairingCompletion × PendingPairing × ℕ)
  sealed_pairing address s file = do
    guard (is_valid_pairing_address address) (unclassified Detail.invalid_address)
    map_err configuration (ensure_pairing_absent decode file s.checking).0
    _ ← map_err crypto_error (derive_pairing_commitment primitives s.client_secret)
    _ ← map_err crypto_error (derive_address_id primitives address)
    map_err from_relay s.prepared
    response ← awaited s.response
    plaintext ← map_err (λ error. unclassified (json error)) s.plaintext
    map_err crypto_error
        (seal_pairing primitives s.client_id s.client_token response s.client_secret plaintext)

  unfoldable pub handed_off :
      Surroundings
      → ℕ
      → Result RequestError (Unit {0})
      → Option PairingFile
      → Result RequestError ℕ × Option PairingFile
  handed_off s sas (ok _) file = (ok sas, file)
  handed_off s sas (err error) file = (
    err error,
    (settle commit file (abort_pending_pairing (some s.client_id_text) true file s.aborting)).1,
  )

  unfoldable pub written :
      Surroundings
      → PairingCompletion
      → ℕ
      → Result ConfigurationError (Unit {0}) × Option PairingFile
      → Result RequestError ℕ × Option PairingFile
  written s completion sas (err error, file) = (err (configuration error), file)
  written s completion sas (ok _, file) =
      handed_off s sas (awaited (s.handed completion)) (s.handing file)

  unfoldable pub start_sealed :
      Surroundings
      → Option PairingFile
      → Result RequestError (PairingCompletion × PendingPairing × ℕ)
      → Result RequestError ℕ × Option PairingFile
  start_sealed s file (err error) = (err error, file)
  start_sealed s file (ok (completion, pairing, sas)) =
      written s completion sas
        (settle commit file (write_pending_pairing decode (encode pairing) s.now file s.writing))

  unfoldable pub start_pairing :
      Text → Surroundings → Option PairingFile → Result RequestError ℕ × Option PairingFile
  start_pairing address s file = start_sealed s (s.waiting file) (sealed_pairing address s file)

  abbrev WritesNew : Option PairingFile → Change → Type 0
  WritesNew file unchanged = ⊥
  WritesNew file removed = ⊥
  WritesNew file (replaced mode document) = (status file ≡ absent) × (mode ≡ 384)

  write_pending-WritesNew :
      (pairing : PendingPairing) (now : Result ConfigurationError ℕ) (file : Option PairingFile)
      (faults : Faults) (change : Change) (left : Faults)
      → write_pending_pairing decode (encode pairing) now file faults ≡ (ok change, left)
      → WritesNew file change
  unfolding write_pending_pairing
  write_pending-WritesNew pairing now file faults change left h =
      let (_, f1, _, h1) = continue-ok (call access faults) _ h in
      let (_, f2, _, h2) = continue-ok (lock true f1) _ h1 in
      let (_, f3, free, h3) = continue-ok (ensure_pairing_absent decode file f2) _ h2 in
      let (rotated_at, f4, _, h4) = continue-ok (now, f3) _ h3 in
      subst (WritesNew file) (write-ok _ f4 h4) (absent-status decode file f2 free, refl)

  -- The file holds the pending pairing of a client.
  abbrev pub IsAttempt : Text → Option PairingFile → Type 0
  IsAttempt client_id none = ⊥
  IsAttempt client_id (some file) =
      (document : Document) × (file.contents ≡ some document)
      × (field (codes "pending") document ≡ some (bool true))
      × (field (codes "client_id") document ≡ some (string client_id))

  is_true-eq : (value : Option Value) → is_true value ≡ true → value ≡ some (bool true)
  unfolding is_true
  is_true-eq none h = absurd (cc)
  is_true-eq (some (bool value)) h = ap (λ b. some (bool b)) h
  is_true-eq (some (string _)) h = absurd (cc)
  is_true-eq (some (number _)) h = absurd (cc)
  is_true-eq (some _) h = absurd (cc)

  pending-field :
      (document : Document)
      → is_pending document ≡ true
      → field (codes "pending") document ≡ some (bool true)
  unfolding is_pending
  pending-field document h = is_true-eq (field (codes "pending") document) h

  client-field :
      (client_id : Text) (value : Option Value)
      → is_string client_id value ≡ true
      → value ≡ some (string client_id)
  unfolding is_string
  client-field client_id none h = absurd (cc)
  client-field client_id (some (string value)) h =
      ap (λ v. some (string v)) (text_eq.eq_sound value client_id h)
  client-field client_id (some (bool _)) h = absurd (cc)
  client-field client_id (some (number _)) h = absurd (cc)
  client-field client_id (some _) h = absurd (cc)

  read-IsAttempt :
      (client_id : Text) (file : Option PairingFile) (faults : Faults) {document : Document}
      {left : Faults}
      → read_pending_pairing_file file (some client_id) faults ≡ (ok document, left)
      → IsAttempt client_id file
  unfolding read_pending_pairing_file read_pairing_file matches_client
  read-IsAttempt client_id none faults h = absurd (cc)
  read-IsAttempt client_id (some file) faults h =
      let (document, f1, read, h1) = continue-ok (read_pairing_file (some file) faults) _ h in
      let (_, f2, checked, h2) =
        continue-ok (require (is_pending document) pairing_not_pending f1) _ h1 in
      let (_, f3, matched, h3) =
        continue-ok (require (matches_client (some client_id) document) pairing_changed f2) _ h2 in
      let (_, g1, _, r1) = continue-ok (call access faults) _ read in
      let (_, g2, _, r2) = continue-ok (validate_permissions file.mode g1) _ r1 in
      let (_, g3, _, r3) = continue-ok (call invalid g2) _ r2 in
      (
        document,
        found-ok file.contents invalid g3 r3,
        pending-field document (require-ok (is_pending document) _ f1 checked),
        client-field client_id (field (codes "client_id") document)
            (require-ok (matches_client (some client_id) document) _ f2 matched),
      )

  abort-IsAttempt :
      (client_id : Text) (file : Option PairingFile) (faults : Faults) (change : Change)
      (left : Faults)
      → abort_pending_pairing (some client_id) true file faults ≡ (ok change, left)
      → (change ≡ removed) × IsAttempt client_id file
  unfolding abort_pending_pairing
  abort-IsAttempt client_id file faults change left h =
      let (_, f1, _, h1) = continue-ok (lock true faults) _ h in
      let (document, f2, read, h2) =
        continue-ok (read_pending_pairing_file file (some client_id) f1) _ h1 in
      (sym (remove-ok f2 h2), read-IsAttempt client_id file f1 read)

  -- What the pairing leaves where the file was `found` when it was to be written: the file as it is,
  -- with an error; or, where there was none, the new one, what others made of that, or no file in
  -- place of the pending pairing of this client.
  abbrev pub Spares :
      Surroundings → Option PairingFile → Result RequestError ℕ × Option PairingFile → Type 0
  Spares s found (result, after) =
      ((after ≡ found) × (is_ok result ≡ false))
      ⊎ ((status found ≡ absent)
          × ((document : Document) × ((after ≡ some (commit found 384 document))
                ⊎ ((after ≡ s.handing (some (commit found 384 document)))
                    ⊎ (IsAttempt s.client_id_text (s.handing (some (commit found 384 document)))
                        × (after ≡ none)
                        × (is_ok result ≡ false))))))

  -- The same with the new file.
  abbrev Leaves :
      Surroundings → Option PairingFile → Result RequestError ℕ × Option PairingFile → Type 0
  Leaves s left (result, after) =
      (after ≡ left) ⊎ (IsAttempt s.client_id_text left × (after ≡ none) × (is_ok result ≡ false))

  aborted-Leaves :
      (s : Surroundings) (error : RequestError) (file : Option PairingFile)
      (run : Result ConfigurationError Change × Faults)
      → ((change : Change) (left : Faults)
          → run ≡ (ok change, left)
          → (change ≡ removed) × IsAttempt s.client_id_text file)
      → Leaves s file (err error, (settle commit file run).1)
  unfolding settle
  aborted-Leaves s error file (err _, left) aborts = inl refl
  aborted-Leaves s error file (ok unchanged, left) aborts = inl refl
  aborted-Leaves s error file (ok removed, left) aborts =
      inr ((aborts removed left refl).1, refl, refl)
  aborted-Leaves s error file (ok (replaced mode document), left) aborts =
      absurd (cc (aborts (replaced mode document) left refl).0)

  handed_off-Leaves :
      (s : Surroundings) (sas : ℕ) (result : Result RequestError (Unit {0}))
      (file : Option PairingFile)
      → Leaves s file (handed_off s sas result file)
  unfolding handed_off
  handed_off-Leaves s sas (ok _) file = inl refl
  handed_off-Leaves s sas (err error) file =
      aborted-Leaves s error file
        (abort_pending_pairing (some s.client_id_text) true file s.aborting)
        (abort-IsAttempt s.client_id_text file s.aborting)

  Leaves-Spares :
      (s : Surroundings) (found : Option PairingFile) (document : Document)
      (run : Result RequestError ℕ × Option PairingFile)
      → status found ≡ absent
      → Leaves s (s.handing (some (commit found 384 document))) run
      → Spares s found run
  Leaves-Spares s found document run none_before (inl kept) =
      inr (none_before, (document, inr (inl kept)))
  Leaves-Spares s found document run none_before (inr aborted) =
      inr (none_before, (document, inr (inr aborted)))

  synced-Spares :
      (s : Surroundings) (completion : PairingCompletion) (sas : ℕ) (found : Option PairingFile)
      (document : Document) (result : Result ConfigurationError (Unit {0}))
      → status found ≡ absent
      → Spares s found (written s completion sas (result, some (commit found 384 document)))
  unfolding written
  synced-Spares s completion sas found document (err error) none_before =
      inr (none_before, (document, inl refl))
  synced-Spares s completion sas found document (ok _) none_before =
      Leaves-Spares s found document
        (handed_off s sas (awaited (s.handed completion))
          (s.handing (some (commit found 384 document))))
        none_before
        (handed_off-Leaves s sas (awaited (s.handed completion))
          (s.handing (some (commit found 384 document))))

  written-Spares :
      (s : Surroundings) (completion : PairingCompletion) (sas : ℕ) (found : Option PairingFile)
      (run : Result ConfigurationError Change × Faults)
      → ((change : Change) (left : Faults) → run ≡ (ok change, left) → WritesNew found change)
      → Spares s found (written s completion sas (settle commit found run))
  unfolding written settle
  written-Spares s completion sas found (err error, left) writes = inl (refl, refl)
  written-Spares s completion sas found (ok unchanged, left) writes =
      absurd (writes unchanged left refl)
  written-Spares s completion sas found (ok removed, left) writes =
      absurd (writes removed left refl)
  written-Spares s completion sas found (ok (replaced mode document), left) writes =
      let (none_before, asked) = writes (replaced mode document) left refl in
      subst
        (λ (m : ℕ).
          Spares s found
            (written s completion sas ((call access left).0, some (commit found m document))))
        (sym asked) (synced-Spares s completion sas found document (call access left).0 none_before)

  start_sealed-Spares :
      (s : Surroundings) (found : Option PairingFile)
      (result : Result RequestError (PairingCompletion × PendingPairing × ℕ))
      → Spares s found (start_sealed s found result)
  unfolding start_sealed
  start_sealed-Spares s found (err error) = inl (refl, refl)
  start_sealed-Spares s found (ok (completion, pairing, sas)) =
      written-Spares s completion sas found
        (write_pending_pairing decode (encode pairing) s.now found s.writing)
        (write_pending-WritesNew pairing s.now found s.writing)

  -- Whatever the relay answers, whenever the cancellation comes, whichever system calls fail and
  -- whatever other processes do to the file meanwhile: if there is a pairing file when the pairing is
  -- to be written, the pairing fails and leaves that file. If there is none, the file is then the new
  -- one with the mode 0600, or what the others made of it; and only where the pairing fails and that
  -- file is a pending pairing of this client, it is removed.
  pub start_pairing-Spares :
      (address : Text) (s : Surroundings) (file : Option PairingFile)
      → Spares s (s.waiting file) (start_pairing address s file)
  unfolding start_pairing
  start_pairing-Spares address s file =
      start_sealed-Spares s (s.waiting file) (sealed_pairing address s file)
