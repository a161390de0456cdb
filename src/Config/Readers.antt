-- ===== src/Config/Readers.antt =====
-- The functions of src/config.rs that only read the pairing file.
use agentknock_cli.Prelude.{
  ℕ, ◌%◌, ◌==◌, nat_eq, ◌≡◌, refl, sym, ap, ◌∙◌, Bool, true, false, not, not-eq-true, subst, Option,
  none, some, Result, ok, err, [], ◌∷◌,
}
use agentknock_cli.Config.Reads.{
  Document, PairingFile, StoredPairing, ConfigurationError, access, invalid, pairing_pending,
  no_pairing, pairing_exists, pairing_not_pending, pairing_changed, panicked, insecure_permissions,
  Faults, Read, ◌>>=◌, continue, require, found, call, read_pairing_file, is_pending,
  validate_permissions, read_pending_pairing_file, validate_pairing, read_stored_pairing,
}
use agentknock_cli.Config.Lifecycle.{
  Status, absent, stored, active, status, continue-ok, require-ok, found-ok, done-ok,
  read_pairing_file-ok,
}
use agentknock_cli.Config.Transitions.{DecodesPending}

module _ (decode : Document → Option StoredPairing) where
  unfoldable pub read_pairing_from : Option PairingFile → Read StoredPairing
  read_pairing_from file = do pairing ← read_stored_pairing decode file; validate_pairing pairing

  unfoldable pub read_pending_pairing : Option PairingFile → Read StoredPairing
  read_pending_pairing file = do
    contents ← read_pending_pairing_file file none
    found (decode contents) invalid

  -- Whether the pairing is pending; none where there is no pairing.
  abbrev pub status_of :
      Result ConfigurationError StoredPairing × Faults
      → Result ConfigurationError (Option Bool) × Faults
  status_of (ok pairing, faults) = (ok (some pairing.pending), faults)
  status_of (err no_pairing, faults) = (ok none, faults)
  status_of (err error, faults) = (err error, faults)

  unfoldable pub read_pairing_status : Option PairingFile → Read (Option Bool)
  read_pairing_status file faults = status_of (read_stored_pairing decode file faults)

-- The error isn't that there is no pairing.
abbrev IsThere : {A : Type 0} → Result ConfigurationError A × Faults → Type 0
IsThere (ok _, _) = Unit
IsThere (err no_pairing, _) = ⊥
IsThere (err _, _) = Unit

continue-IsThere :
    {A B : Type 0} (run : Result ConfigurationError A × Faults) (next : A → Read B)
    → IsThere run
    → ((a : A) (faults : Faults) → IsThere (next a faults))
    → IsThere (continue run next)
continue-IsThere (ok a, faults) next h k = k a faults
continue-IsThere (err access, faults) next h k = tt
continue-IsThere (err invalid, faults) next h k = tt
continue-IsThere (err pairing_pending, faults) next h k = tt
continue-IsThere (err pairing_exists, faults) next h k = tt
continue-IsThere (err pairing_not_pending, faults) next h k = tt
continue-IsThere (err pairing_changed, faults) next h k = tt
continue-IsThere (err panicked, faults) next h k = tt
continue-IsThere (err (insecure_permissions _), faults) next h k = tt
continue-IsThere (err no_pairing, faults) next h k = absurd h

call_access-IsThere : (faults : Faults) → IsThere (call access faults)
unfolding call
call_access-IsThere [] = tt
call_access-IsThere (true ∷ faults) = tt
call_access-IsThere (false ∷ faults) = tt

call_invalid-IsThere : (faults : Faults) → IsThere (call invalid faults)
unfolding call
call_invalid-IsThere [] = tt
call_invalid-IsThere (true ∷ faults) = tt
call_invalid-IsThere (false ∷ faults) = tt

require-IsThere :
    (b : Bool) (mode : ℕ) (faults : Faults) → IsThere (require b (insecure_permissions mode) faults)
require-IsThere true mode faults = tt
require-IsThere false mode faults = tt

found-IsThere : {A : Type 0} (o : Option A) (faults : Faults) → IsThere (found o invalid faults)
found-IsThere (some a) faults = tt
found-IsThere none faults = tt

read_stored_pairing-IsThere :
    (decode : Document → Option StoredPairing) (file : PairingFile) (faults : Faults)
    → IsThere (read_stored_pairing decode (some file) faults)
unfolding read_stored_pairing read_pairing_file validate_permissions
read_stored_pairing-IsThere decode file faults =
    continue-IsThere (read_pairing_file (some file) faults) _
      (continue-IsThere (call access faults) _ (call_access-IsThere faults) λ _ f1.
        continue-IsThere (validate_permissions file.mode f1) _
          (continue-IsThere (call access f1) _ (call_access-IsThere f1)
            λ _ f2. require-IsThere (file.mode % 512 == 384) (file.mode % 512) f2)
          λ _ f3.
            continue-IsThere (call invalid f3) _ (call_invalid-IsThere f3)
              λ _ f4. found-IsThere file.contents f4)
      λ contents f5. found-IsThere (decode contents) f5

-- The state of the file that an answer of `read_pairing_status` names.
abbrev pub answered : Option Bool → Status
answered none = absent
answered (some is_pending) = stored is_pending

module _ (decode : Document → Option StoredPairing) (decodes : DecodesPending decode) where
  read_stored_pairing-status :
      (file : Option PairingFile) (faults : Faults) {pairing : StoredPairing} {left : Faults}
      → read_stored_pairing decode file faults ≡ (ok pairing, left)
      → status file ≡ stored pairing.pending
  unfolding read_stored_pairing
  read_stored_pairing-status file faults h =
      let (document, f1, read, h1) = continue-ok (read_pairing_file file faults) _ h in
      read_pairing_file-ok file faults read
      ∙ ap stored (sym (decodes document _ (found-ok (decode document) invalid f1 h1)))

  absent-answered :
      (faults : Faults) (answer : Option Bool) {left : Faults}
      → read_pairing_status decode none faults ≡ (ok answer, left)
      → answered answer ≡ absent
  unfolding read_pairing_status read_stored_pairing read_pairing_file
  absent-answered faults none h = refl
  absent-answered faults (some _) h = absurd (cc)

  status_of-answered :
      (file : PairingFile) (run : Result ConfigurationError StoredPairing × Faults)
      (answer : Option Bool) {left : Faults}
      → ((pairing : StoredPairing) (rest : Faults)
          → run ≡ (ok pairing, rest)
          → status (some file) ≡ stored pairing.pending)
      → IsThere run
      → status_of decode run ≡ (ok answer, left)
      → status (some file) ≡ answered answer
  status_of-answered file (ok pairing, rest) none known is_there h = absurd (cc)
  status_of-answered file (ok pairing, rest) (some is_pending) known is_there h =
      let same : pairing.pending ≡ is_pending = cc in known pairing rest refl ∙ ap stored same
  status_of-answered file (err no_pairing, rest) answer known is_there h = absurd is_there
  status_of-answered file (err access, rest) answer known is_there h = absurd (cc)
  status_of-answered file (err invalid, rest) answer known is_there h = absurd (cc)
  status_of-answered file (err pairing_pending, rest) answer known is_there h = absurd (cc)
  status_of-answered file (err pairing_exists, rest) answer known is_there h = absurd (cc)
  status_of-answered file (err pairing_not_pending, rest) answer known is_there h = absurd (cc)
  status_of-answered file (err pairing_changed, rest) answer known is_there h = absurd (cc)
  status_of-answered file (err panicked, rest) answer known is_there h = absurd (cc)
  status_of-answered file (err (insecure_permissions _), rest) answer known is_there h = absurd (cc)

  -- The status that is read is the state of the file: no pairing only where there is no file, and
  -- pending or active as the file says.
  pub read_pairing_status-status :
      (file : Option PairingFile) (faults : Faults) (answer : Option Bool) (left : Faults)
      → read_pairing_status decode file faults ≡ (ok answer, left)
      → status file ≡ answered answer
  unfolding read_pairing_status
  read_pairing_status-status none faults answer left h = sym (absent-answered faults answer h)
  read_pairing_status-status (some file) faults answer left h =
      status_of-answered file (read_stored_pairing decode (some file) faults) answer
        (λ pairing rest same. read_stored_pairing-status (some file) faults same)
        (read_stored_pairing-IsThere decode file faults) h

  -- A pairing that is read for use is the one of a file with an active pairing, so a pending one is
  -- never used for a request.
  pub read_pairing_from-active :
      (file : Option PairingFile) (faults : Faults) (pairing : StoredPairing) (left : Faults)
      → read_pairing_from decode file faults ≡ (ok pairing, left)
      → (status file ≡ active) × (pairing.pending ≡ false)
  unfolding read_pairing_from validate_pairing
  read_pairing_from-active file faults pairing left h =
      let (found_pairing, f1, read, h1) =
        continue-ok (read_stored_pairing decode file faults) _ h in
      let (_, f2, checked, h2) =
        continue-ok (require (not found_pairing.pending) pairing_pending f1) _ h1 in
      let settled =
        not-eq-true found_pairing.pending (require-ok (not found_pairing.pending) _ f1 checked) in
      (
        read_stored_pairing-status file faults read ∙ ap stored settled,
        subst (λ (p : StoredPairing). p.pending ≡ false) (done-ok found_pairing f2 h2) settled,
      )
