-- ===== src/GitRepository/Changed.antt =====
-- `parse_changed_paths` of src/bin/agentknock/git_repository.rs against a description of what
-- `git diff-tree -z --name-status` writes.
use agentknock_cli.Prelude.{
  ℕ, suc, ◌+◌, ◌≤◌, ◌≡◌, ◌≢◌, refl, sym, ap, ◌∙◌, arith, ◌==◌, nat_eq, Bool, true, false, not, ◌&&◌,
  Option, none, some, List, [], ◌∷◌, ◌++◌, ltb, leb, length, all, is_some, inl, inr, Bool-cases,
  Option-cases, append_assoc, append-nil, All, if◌then◌else◌,
}
use agentknock_cli.SshAgent.Wire.{Bytes}
use agentknock_cli.Strings.{split, push_front}
use agentknock_cli.GitRepository.{
  ChangeStatus, ChangedPath, unsafe_text, is_utf8, change_status, collect, parse_fields,
  parse_changed_paths,
}

abbrev is_zero : ℕ → Bool
is_zero b = b == 0

-- A field: its bytes aren't zero.
abbrev pub IsField : Bytes → Type 0
IsField field = All (λ b. is_zero b ≡ false) field

-- A status, which isn't empty, and a path, as the program writes them.
abbrev pub IsEntry : Bytes × Bytes → Type 0
IsEntry (status, path) = (status ≢ []) × IsField status × IsField path

-- The output for a list of entries.
unfoldable pub written : List (Bytes × Bytes) → Bytes
written [] = []
written ((status, path) ∷ entries) = status ++ (0 ∷ (path ++ (0 ∷ written entries)))

-- An entry with a status that is known and a path that can be shown.
abbrev pub is_readable : Bytes × Bytes → Bool
is_readable (status, path) =
    is_some (change_status status) && (is_utf8 path && not (unsafe_text path))

abbrev change_of : Option ChangeStatus → Bytes → List ChangedPath
change_of none path = []
change_of (some status) path = record { status = status; path = path } ∷ []

abbrev pub changes : List (Bytes × Bytes) → List ChangedPath
changes [] = []
changes ((status, path) ∷ entries) = change_of (change_status status) path ++ changes entries

-- The paths are listed if there are few enough and each entry can be read.
abbrev pub listed : List (Bytes × Bytes) → Option (List ChangedPath)
listed entries =
    if leb (length entries) 50 && all is_readable entries then some (changes entries) else none

abbrev fields : List (Bytes × Bytes) → List Bytes
fields [] = [] ∷ []
fields ((status, path) ∷ entries) = status ∷ path ∷ fields entries

split-field :
    (field rest : Bytes)
    → IsField field
    → split is_zero (field ++ (0 ∷ rest)) ≡ field ∷ split is_zero rest
unfolding split push_front
split-field [] rest h = refl
split-field (b ∷ field) rest (here, h) = rw (here, split-field field rest h) refl

split-written :
    (entries : List (Bytes × Bytes))
    → All IsEntry entries
    → split is_zero (written entries) ≡ fields entries
unfolding split push_front written
split-written [] h = refl
split-written ((status, path) ∷ entries) ((_, status_field, path_field), h) =
    split-field status _ status_field
    ∙ ap (λ rest. status ∷ rest)
        (split-field path _ path_field ∙ ap (λ rest. path ∷ rest) (split-written entries h))

-- What the loop makes of the entries to come.
abbrev from : ℕ → Option (List ChangedPath) → List (Bytes × Bytes) → Option (List ChangedPath)
from count none entries = none
from count (some collected) entries =
    if leb (count + length entries) 50 && all is_readable entries
    then some (collected ++ changes entries)
    else none

and_false : (b : Bool) → (b && false) ≡ false
and_false true = refl
and_false false = refl

from-full :
    (count : ℕ) (collected : List ChangedPath) (entry : Bytes × Bytes)
    (entries : List (Bytes × Bytes))
    → ltb 50 (suc count) ≡ true
    → from count (some collected) (entry ∷ entries) ≡ none
from-full count collected entry entries full =
    let many : leb (count + length (entry ∷ entries)) 50 ≡ false = ground arith in rw (many) refl

from-unreadable :
    (count : ℕ) (collected : List ChangedPath) (entry : Bytes × Bytes)
    (entries : List (Bytes × Bytes))
    → is_readable entry ≡ false
    → from count (some collected) (entry ∷ entries) ≡ none
from-unreadable count collected entry entries h =
    rw (h) (rw (and_false (leb (count + length (entry ∷ entries)) 50)) refl)

from-readable :
    (count : ℕ) (collected : List ChangedPath) (status path : Bytes) (kind : ChangeStatus)
    (entries : List (Bytes × Bytes))
    → change_status status ≡ some kind
    → (is_utf8 path && not (unsafe_text path)) ≡ true
    → from (suc count) (some (collected ++ (record { status = kind; path = path } ∷ []))) entries
      ≡ from count (some collected) ((status, path) ∷ entries)
from-readable count collected status path kind entries known good =
    let same : suc count + length entries ≡ count + suc (length entries) = omega arith in
    rw (known, good, same, append_assoc) refl

module _ (count : ℕ) (status path : Bytes) (collected : List ChangedPath) where
  collect-full : ltb 50 count ≡ true → collect count status path (some collected) ≡ none
  unfolding collect
  collect-full full = rw (collect, full) refl

  collect-unknown :
      ltb 50 count ≡ false
      → change_status status ≡ none
      → collect count status path (some collected) ≡ none
  unfolding collect
  collect-unknown room unknown = rw (collect, room, unknown) refl

  collect-known :
      (kind : ChangeStatus) (good : Bool)
      → ltb 50 count ≡ false
      → change_status status ≡ some kind
      → (is_utf8 path && not (unsafe_text path)) ≡ good
      → collect count status path (some collected)
        ≡ (if good then some (collected ++ (record { status = kind; path = path } ∷ [])) else none)
  unfolding collect
  collect-known kind true room known same = rw (collect, room, known, same) refl
  collect-known kind false room known same = rw (collect, room, known, same) refl

-- Each entry is counted, and its path is kept or none is listed any more.
from-collect :
    (count : ℕ) (paths : Option (List ChangedPath)) (status path : Bytes)
    (entries : List (Bytes × Bytes))
    → from (suc count) (collect (suc count) status path paths) entries
      ≡ from count paths ((status, path) ∷ entries)
unfolding collect
from-collect count none status path entries = refl
from-collect count (some collected) status path entries =
    let next = λ (paths : Option (List ChangedPath)). from (suc count) paths entries in
    let unreadable = from-unreadable count collected (status, path) entries in
    elim (Bool-cases (ltb 50 (suc count))) [
      | inl full ↦
          ap next (collect-full (suc count) status path collected full)
          ∙ sym (from-full count collected (status, path) entries full)
      | inr room ↦ elim (Option-cases (change_status status)) [
        | inl unknown ↦
            ap next (collect-unknown (suc count) status path collected room unknown)
            ∙ sym (unreadable (rw (unknown) refl))
        | inr (kind, known) ↦ elim (Bool-cases (is_utf8 path && not (unsafe_text path))) [
          | inl good ↦
              ap next (collect-known (suc count) status path collected kind true room known good)
              ∙ from-readable count collected status path kind entries known good
          | inr bad ↦
              ap next (collect-known (suc count) status path collected kind false room known bad)
              ∙ sym (unreadable (rw (known, bad) refl))
        ]
      ]
    ]

-- While paths are listed, there are few enough.
collect-few :
    (count : ℕ) (paths : Option (List ChangedPath)) (status path : Bytes)
    → is_some (collect count status path paths) ≡ true
    → count ≤ 50
unfolding collect
collect-few count none status path h = absurd (cc)
collect-few count (some collected) status path h = elim (Bool-cases (ltb 50 count)) [
  | inl full ↦ absurd (cc)
  | inr room ↦ ground (arith, room)
]

from-nil :
    (count : ℕ) (paths : Option (List ChangedPath))
    → (is_some paths ≡ true → count ≤ 50)
    → from count paths [] ≡ paths
from-nil count none few = refl
from-nil count (some collected) few =
    let room : leb (count + 0) 50 ≡ true = ground (arith, few refl) in rw (room, append-nil) refl

parse_fields-from :
    (entries : List (Bytes × Bytes)) (count : ℕ) (paths : Option (List ChangedPath))
    → All IsEntry entries
    → (is_some paths ≡ true → count ≤ 50)
    → parse_fields (fields entries) count paths
      ≡ some (count + length entries, from count paths entries)
unfolding parse_fields
parse_fields-from [] count paths h few =
    let same : count ≡ count + 0 = omega arith in
    rw (from-nil count paths few) (ap (λ n. some (n, paths)) same)
parse_fields-from (([], path) ∷ entries) count paths ((empty, _, _), h) few = absurd (empty refl)
parse_fields-from ((s ∷ status, path) ∷ entries) count paths (_, h) few =
    let same : suc count + length entries ≡ count + suc (length entries) = omega arith in
    parse_fields-from entries (suc count) (collect (suc count) (s ∷ status) path paths) h
      (collect-few (suc count) paths (s ∷ status) path)
    ∙ (ap (λ n. some (n, from (suc count) (collect (suc count) (s ∷ status) path paths) entries))
          same
        ∙ ap (λ found. some (count + suc (length entries), found))
            (from-collect count paths (s ∷ status) path entries))

-- The output of git for any entries is read as their number, with the changed paths exactly if
-- there are at most fifty, each with a status that is known and a path that is UTF-8 text without
-- control characters; one entry that isn't so hides all paths and leaves the number.
pub parse_changed_paths-written :
    (entries : List (Bytes × Bytes))
    → All IsEntry entries
    → parse_changed_paths (written entries) ≡ some (length entries, listed entries)
unfolding parse_changed_paths
parse_changed_paths-written entries h =
    let from_zero : 0 + length entries ≡ length entries = omega arith in
    ap (λ pieces. parse_fields pieces 0 (some [])) (split-written entries h)
    ∙ (parse_fields-from entries 0 (some []) h (λ _. omega arith)
        ∙ ap
            (λ n.
              some
                (n, if leb n 50 && all is_readable entries then some (changes entries) else none))
            from_zero)
