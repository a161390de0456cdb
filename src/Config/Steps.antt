-- ===== src/Config/Steps.antt =====
-- The change that each operation of src/config.rs makes to the state of the pairing file.
use agentknock_cli.Prelude.{
  ℕ, Text, ◌==◌, text_eq, text_beq_iff, text_discrete, ℕ_discrete, codes, ◌≡◌, inl, inr, refl, ap,
  ◌∙◌, sym, subst, Bool, true, false, not, Bool-cases, Option, none, some, [], ◌∷◌, Result, ok,
  if◌then◌else◌,
}
use agentknock_cli.Maps.{Map, get}
use agentknock_cli.Maps.Laws.{get-insert}
use agentknock_cli.Config.Reads.{
  Value, number, string, Document, object, other, PairingFile, StoredPairing, ConfigurationError,
  access, pairing_pending, Faults, require, call, field, is_true, is_pending, lock,
  read_pairing_file, read_pending_pairing_file, parse_pairing, ensure_pairing_absent,
}
use agentknock_cli.Config.Changes.{
  Change, unchanged, without, change_fields, abort_pending_pairing, remove_pairing, clear_if,
  clear_rotation_key, write_pending_pairing, rotated, rotate_if,
}
use agentknock_cli.Config.Lifecycle.{
  absent, stored, pending, active, status, continue-ok, done-ok, read_pairing_file-ok,
  read_pending-ok, write-ok, write_changed-ok, remove-ok, Makes, FromTo,
}

get-without_other :
    (key name : Text) (fields : Map Value)
    → (key == name) ≡ false
    → get key (without name fields) ≡ get key fields
unfolding get without
get-without_other key name [] h = refl
get-without_other key name ((held, value) ∷ fields) h = elim (Bool-cases (name == held)) [
  | inl same ↦
      let apart : (key == held) ≡ false = rw ((text_beq_iff name held).0 same) at h in
      rw (same, apart) (get-without_other key name fields h)
  | inr differ ↦
      rw (differ, get)
        (ap (λ o. if key == held then some value else o) (get-without_other key name fields h))
]

pub abort-Makes :
    (expected : Option Text) (directory : Bool) (file : Option PairingFile) (faults : Faults)
    (change : Change) (left : Faults)
    → abort_pending_pairing expected directory file faults ≡ (ok change, left)
    → Makes (FromTo pending absent) file change
unfolding abort_pending_pairing
abort-Makes expected directory file faults change left h =
    let (_, f1, _, h1) = continue-ok (lock directory faults) _ h in
    let (document, f2, read, h2) = continue-ok (read_pending_pairing_file file expected f1) _ h1 in
    let (was_pending, _) = read_pending-ok file expected f1 read in
    subst (Makes (FromTo pending absent) file) (remove-ok f2 h2) (was_pending, refl)

pub remove-Makes :
    (directory : Bool) (file : Option PairingFile) (faults : Faults) (change : Change)
    (left : Faults)
    → remove_pairing directory file faults ≡ (ok change, left)
    → Makes (λ before after. after ≡ absent) file change
unfolding remove_pairing
remove-Makes directory none faults change left h =
    let (_, f1, _, h1) = continue-ok (lock directory faults) _ h in absurd (cc)
remove-Makes directory (some file) faults change left h =
    let (_, f1, _, h1) = continue-ok (lock directory faults) _ h in
    subst (Makes (λ before after. after ≡ absent) (some file)) (remove-ok f1 h1) refl

without_rotation_key :
    (document : Document)
    → is_pending (change_fields (without (codes "rotation_key")) document) ≡ is_pending document
unfolding is_pending field change_fields text_discrete ℕ_discrete
without_rotation_key (object fields) =
    ap is_true (get-without_other (codes "pending") (codes "rotation_key") fields refl)
without_rotation_key (other _) = refl

clear_if-Makes :
    (found : Bool) (file : Option PairingFile) (document : Document) (faults : Faults)
    → status file ≡ stored (is_pending document)
    → (change : Change) (left : Faults) → clear_if found document faults ≡ (ok change, left)
    → Makes (λ before after. after ≡ before) file change
unfolding clear_if
clear_if-Makes true file document faults e change left h =
    subst (Makes (λ before after. after ≡ before) file) (write_changed-ok _ document faults h)
      (refl, ap stored (without_rotation_key document) ∙ sym e)
clear_if-Makes false file document faults e change left h =
    subst (Makes (λ before after. after ≡ before) file) (done-ok unchanged faults h) tt

pub clear-Makes :
    (rotation_key : Text) (directory : Bool) (file : Option PairingFile) (faults : Faults)
    (change : Change) (left : Faults)
    → clear_rotation_key rotation_key directory file faults ≡ (ok change, left)
    → Makes (λ before after. after ≡ before) file change
unfolding clear_rotation_key
clear-Makes rotation_key directory file faults change left h =
    let (_, f1, _, h1) = continue-ok (lock directory faults) _ h in
    let (document, f2, read, h2) = continue-ok (read_pairing_file file f1) _ h1 in
    clear_if-Makes _ file document f2 (read_pairing_file-ok file f1 read) change left h2

rotated-pending :
    (client_psk rotation_key : Text) (rotated_at : ℕ) (document : Document)
    → is_pending (change_fields (rotated client_psk rotation_key rotated_at) document)
      ≡ is_pending document
unfolding is_pending field change_fields rotated text_discrete ℕ_discrete
rotated-pending client_psk rotation_key rotated_at (object fields) = ap is_true (
    get-insert (codes "rotated_at") (codes "pending") (number rotated_at) _
    ∙ (get-insert (codes "rotation_key") (codes "pending") (string rotation_key) _
        ∙ get-insert (codes "client_psk") (codes "pending") (string client_psk) fields))
rotated-pending client_psk rotation_key rotated_at (other _) = refl

pub rotate_if-Makes :
    (due : Bool) (client_psk rotation_key : Text) (rotated_at : ℕ) (file : Option PairingFile)
    (document : Document) (faults : Faults)
    → status file ≡ stored (is_pending document)
    → is_pending document ≡ false
    → (change : Change) (left : Faults)
    → rotate_if due client_psk rotation_key rotated_at document faults ≡ (ok change, left)
    → Makes (FromTo active active) file change
unfolding rotate_if
rotate_if-Makes true client_psk rotation_key rotated_at file document faults e settled change left
      h =
    subst (Makes (FromTo active active) file) (write_changed-ok _ document faults h) (
      refl,
      (
        e ∙ ap stored settled,
        ap stored (rotated-pending client_psk rotation_key rotated_at document ∙ settled),
      ),
    )
rotate_if-Makes false client_psk rotation_key rotated_at file document faults e settled change left
      h =
    subst (Makes (FromTo active active) file) (done-ok unchanged faults h) tt

pub absent-status :
    (decode : Document → Option StoredPairing) (file : Option PairingFile) (faults : Faults)
    {u : Unit {0}} {left : Faults}
    → ensure_pairing_absent decode file faults ≡ (ok u, left)
    → status file ≡ absent
unfolding ensure_pairing_absent
absent-status decode none faults h = refl
absent-status decode (some file) faults h =
    let (_, f1, _, h1) = continue-ok (call access faults) _ h in
    let (document, f2, _, h2) = continue-ok (read_pairing_file (some file) f1) _ h1 in
    let (_, f3, _, h3) =
      continue-ok (require (not (is_pending document)) pairing_pending f2) _ h2 in
    let (_, f4, _, h4) = continue-ok (parse_pairing decode document f3) _ h3 in absurd (cc)

pub start-Makes :
    (decode : Document → Option StoredPairing) (encode : ℕ → Document)
    (now : Result ConfigurationError ℕ) (file : Option PairingFile) (faults : Faults)
    → ((rotated_at : ℕ) → is_pending (encode rotated_at) ≡ true)
    → (change : Change) (left : Faults)
    → write_pending_pairing decode encode now file faults ≡ (ok change, left)
    → Makes (FromTo absent pending) file change
unfolding write_pending_pairing
start-Makes decode encode now file faults writes change left h =
    let (_, f1, _, h1) = continue-ok (call access faults) _ h in
    let (_, f2, _, h2) = continue-ok (lock true f1) _ h1 in
    let (_, f3, free, h3) = continue-ok (ensure_pairing_absent decode file f2) _ h2 in
    let (rotated_at, f4, _, h4) = continue-ok (now, f3) _ h3 in
    subst (Makes (FromTo absent pending) file) (write-ok _ f4 h4)
      (refl, (absent-status decode file f2 free, ap stored (writes rotated_at)))
