-- ===== src/Config/Lifecycle.antt =====
-- The states of a pairing file and the changes between them.
use agentknock_cli.Prelude.{
  ℕ, sym, Text, ◌==◌, text_eq, codes, ◌≡◌, ◌⊎◌, ◌%◌, inl, inr, refl, ap, ◌∙◌, subst, Bool, true,
  false, Bool-cases, Option, none, some, [], ◌∷◌, Result, ok, err,
}
use agentknock_cli.Maps.{Map, get}
use agentknock_cli.Config.Reads.{
  Value, Document, object, other, PairingFile, ConfigurationError, access, invalid,
  pairing_not_pending, pairing_changed, Faults, Read, continue, require, found, call, field,
  is_true, is_pending, matches_client, lock, validate_permissions, read_pairing_file,
  read_pending_pairing_file,
}
use agentknock_cli.Config.Changes.{
  Change, Commit, unchanged, removed, replaced, without, change_fields, write_changed,
  write_pairing_file, remove_file, settle, finish_pending_pairing,
}

-- The state that a pairing file stands for.
pub data Status : Type 0 where
  absent corrupt : Status
  stored : Bool → Status

abbrev pub contents_status : Option Document → Status
contents_status none = corrupt
contents_status (some document) = stored (is_pending document)

abbrev pub status : Option PairingFile → Status
status none = absent
status (some file) = contents_status file.contents

-- A pending pairing is `stored true`, and an active one `stored false`.
abbrev pub pending : Status
pending = stored true

abbrev pub active : Status
active = stored false

pub continue-ok :
    {A B : Type 0} (result : Result ConfigurationError A × Faults) (next : A → Read B) {b : B}
    {left : Faults}
    → continue result next ≡ (ok b, left)
    → (a : A) × (between : Faults) × (result ≡ (ok a, between)) × (next a between ≡ (ok b, left))
continue-ok (ok a, between) next h = (a, between, refl, h)
continue-ok (err e, between) next h = cc

pub require-ok :
    (b : Bool) (e : ConfigurationError) (faults : Faults) {u : Unit {0}} {left : Faults}
    → require b e faults ≡ (ok u, left)
    → b ≡ true
require-ok true e faults h = refl
require-ok false e faults h = cc

pub found-ok :
    {A : Type 0} (o : Option A) (e : ConfigurationError) (faults : Faults) {a : A} {left : Faults}
    → found o e faults ≡ (ok a, left)
    → o ≡ some a
found-ok (some a) e faults h = cc
found-ok none e faults h = cc

pub done-ok :
    {A : Type 0} (a : A) (faults : Faults) {b : A} {left : Faults}
    → ◌≡◌ {A = Result ConfigurationError A × Faults} (ok a, faults) (ok b, left)
    → a ≡ b
done-ok a faults h = cc

pub read_pairing_file-ok :
    (file : Option PairingFile) (faults : Faults) {document : Document} {left : Faults}
    → read_pairing_file file faults ≡ (ok document, left)
    → status file ≡ stored (is_pending document)
unfolding read_pairing_file
read_pairing_file-ok none faults h = cc
read_pairing_file-ok (some file) faults h =
    let (_, f1, _, h1) = continue-ok (call access faults) _ h in
    let (_, f2, _, h2) = continue-ok (validate_permissions file.mode f1) _ h1 in
    let (_, f3, _, h3) = continue-ok (call invalid f2) _ h2 in
    ap contents_status (found-ok file.contents invalid f3 h3)

pub read_pending-ok :
    (file : Option PairingFile) (expected : Option Text) (faults : Faults) {document : Document}
    {left : Faults}
    → read_pending_pairing_file file expected faults ≡ (ok document, left)
    → (status file ≡ pending) × (matches_client expected document ≡ true)
unfolding read_pending_pairing_file
read_pending-ok file expected faults h =
    let (document, f1, read, h1) = continue-ok (read_pairing_file file faults) _ h in
    let (_, f2, checked, h2) =
      continue-ok (require (is_pending document) pairing_not_pending f1) _ h1 in
    let (_, f3, matched, h3) =
      continue-ok (require (matches_client expected document) pairing_changed f2) _ h2 in
    (
      read_pairing_file-ok file faults read
          ∙ ap stored (require-ok (is_pending document) _ f1 checked),
      subst (λ (d : Document). matches_client expected d ≡ true) (done-ok document f3 h3)
          (require-ok (matches_client expected document) _ f2 matched),
    )

pub write-ok :
    (document : Document) (faults : Faults) {change : Change} {left : Faults}
    → write_pairing_file document faults ≡ (ok change, left)
    → replaced 384 document ≡ change
unfolding write_pairing_file
write-ok document faults h =
    let (_, f1, _, h1) = continue-ok (call access faults) _ h in
    let (_, f2, _, h2) = continue-ok (call access f1) _ h1 in
    let (_, f3, _, h3) = continue-ok (call access f2) _ h2 in done-ok _ f3 h3

pub write_changed-ok :
    (change : Map Value → Map Value) (document : Document) (faults : Faults) {made : Change}
    {left : Faults}
    → write_changed change document faults ≡ (ok made, left)
    → replaced 384 (change_fields change document) ≡ made
unfolding write_changed change_fields
write_changed-ok change (object fields) faults h = write-ok (object (change fields)) faults h
write_changed-ok change (other _) faults h = absurd (cc)

pub remove-ok :
    (faults : Faults) {change : Change} {left : Faults}
    → remove_file faults ≡ (ok change, left)
    → removed ≡ change
unfolding remove_file
remove-ok faults h = let (_, f1, _, h1) = continue-ok (call access faults) _ h in done-ok _ f1 h1

get-without : (key : Text) (fields : Map Value) → get key (without key fields) ≡ none
unfolding without get
get-without key [] = refl
get-without key ((name, value) ∷ fields) = elim (Bool-cases (key == name)) [
  | inl same ↦ rw same (get-without key fields)
  | inr differ ↦ rw (differ, get, differ) (get-without key fields)
]

-- The file has the mode 0600, if there is one.
abbrev pub IsSecure : Option PairingFile → Type 0
IsSecure none = Unit
IsSecure (some file) = file.mode % 512 ≡ 384

-- What the crate says of a committed file: its contents were written, and its mode is the one asked
-- for or the replaced file's.
pub record IsCommit (commit : Commit) : Type 0 where
  pub holds :
      (file : Option PairingFile) (mode : ℕ) (document : Document)
      → (commit file mode document).contents ≡ some document
  pub creates : (mode : ℕ) (document : Document) → (commit none mode document).mode ≡ mode
  pub replaces :
      (file : PairingFile) (mode : ℕ) (document : Document)
      → ((commit (some file) mode document).mode ≡ mode)
        ⊎ ((commit (some file) mode document).mode ≡ file.mode)

-- The change that an operation makes, if it makes one: the file is left or takes a new status, and a
-- secure file is left secure.
abbrev pub Leads : (Status → Status → Type 0) → Option PairingFile → Option PairingFile → Type 0
Leads step before after =
    (after ≡ before) ⊎ (step (status before) (status after) × (IsSecure before → IsSecure after))

abbrev pub Makes : (Status → Status → Type 0) → Option PairingFile → Change → Type 0
Makes step before unchanged = Unit
Makes step before removed = step (status before) absent
Makes step before (replaced mode document) =
    (mode ≡ 384) × step (status before) (stored (is_pending document))

commit-IsSecure :
    (commit : Commit)
    → IsCommit commit
    → (file : Option PairingFile) (document : Document) → IsSecure file
    → IsSecure (some (commit file 384 document))
commit-IsSecure commit c none document s = rw (c.creates 384 document) refl
commit-IsSecure commit c (some file) document s = elim (c.replaces file 384 document) [
  | inl asked ↦ rw asked refl
  | inr kept ↦ rw kept s
]

pub settle-Leads :
    (commit : Commit)
    → IsCommit commit
    → (step : Status → Status → Type 0) (file : Option PairingFile)
      (result : Result ConfigurationError Change × Faults)
    → ((change : Change) (left : Faults) → result ≡ (ok change, left) → Makes step file change)
    → Leads step file (settle commit file result).1
unfolding settle
settle-Leads commit c step file (err e, faults) makes = inl refl
settle-Leads commit c step file (ok unchanged, faults) makes = inl refl
settle-Leads commit c step file (ok removed, faults) makes =
    inr (makes removed faults refl, λ _. tt)
settle-Leads commit c step file (ok (replaced mode document), faults) makes =
    let (asked, made) = makes (replaced mode document) faults refl in
    inr (
      subst (λ (s : Status). step (status file) s)
          (sym (ap contents_status (c.holds file mode document))) made,
      λ secure.
          subst (λ (m : ℕ). IsSecure (some (commit file m document))) (sym asked)
            (commit-IsSecure commit c file document secure),
    )

-- Each step changes a status to another.
abbrev pub FromTo : Status → Status → Status → Status → Type 0
FromTo from to before after = (before ≡ from) × (after ≡ to)

finished :
    (document : Document) → is_pending (change_fields (without (codes "pending")) document) ≡ false
unfolding is_pending change_fields field is_true
finished (object fields) = ap is_true (get-without (codes "pending") fields)
finished (other _) = refl

-- Finishing a pairing leaves the file or turns a pending pairing into an active one, whatever system
-- calls fail.
pub finish_pending_pairing-Leads :
    (commit : Commit)
    → IsCommit commit
    → (expected : Text) (directory : Bool) (file : Option PairingFile) (faults : Faults)
    → Leads
        (FromTo pending active)
        file
        (settle commit file (finish_pending_pairing expected directory file faults)).1
unfolding finish_pending_pairing
finish_pending_pairing-Leads commit c expected directory file faults =
    settle-Leads commit c (FromTo pending active) file _ λ change left h.
      let (_, f1, _, h1) = continue-ok (lock directory faults) _ h in
      let (document, f2, read, h2) =
        continue-ok (read_pending_pairing_file file (some expected) f1) _ h1 in
      let (was_pending, _) = read_pending-ok file (some expected) f1 read in
      subst (Makes (FromTo pending active) file) (write_changed-ok _ document f2 h2)
        (refl, (was_pending, ap stored (finished document)))
