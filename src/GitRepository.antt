-- ===== src/GitRepository.antt =====
-- The repository that a request to sign a commit describes, of
-- src/bin/agentknock/git_repository.rs: the commit's tree and parent, and the paths that it changes.
pub mod Changed
use agentknock_cli.Prelude.{
  ℕ, zero, suc, Text, ◌==◌, nat_eq, text_eq, codes, Bool, true, false, not, ◌&&◌, ◌||◌, Option,
  none, some, List, [], ◌∷◌, ◌++◌, ltb, leb, length, all, is_nil, is_some, and_then, if◌then◌else◌,
}
use agentknock_cli.SshAgent.Wire.{Bytes}
use agentknock_cli.Strings.{is_ascii_digit, split, strip_prefix}

pub data ChangeStatus : Type 0 where
  added deleted modified type_changed : ChangeStatus

pub record ChangedPath : Type 0 where
  pub status : ChangeStatus
  pub path : Text

abbrev pub maximum_changed_paths : ℕ
maximum_changed_paths = 50

-- `char::is_control` of some character: a byte below 32, 127, or the two bytes of U+0080 to U+009F
unfoldable pub has_control : Text → Bool
has_control [] = false
has_control (a ∷ []) = ltb a 32 || a == 127
has_control (a ∷ b ∷ s) =
    ltb a 32 || a == 127 || (a == 194 && leb 128 b && leb b 159) || has_control (b ∷ s)

unfoldable pub unsafe_text : Text → Bool
unsafe_text value = is_nil value || has_control value

-- What follows the first byte of a character: how many bytes, and the bounds of the next one
unfoldable pub lead : ℕ → Option (ℕ × ℕ × ℕ)
lead a =
    if ltb a 128
    then some (0, 128, 191)
    else if leb 194 a && leb a 223
    then some (1, 128, 191)
    else if a == 224
    then some (2, 160, 191)
    else if a == 237
    then some (2, 128, 159)
    else if leb 225 a && leb a 239
    then some (2, 128, 191)
    else if a == 240
    then some (3, 144, 191)
    else if leb 241 a && leb a 243
    then some (3, 128, 191)
    else if a == 244
    then some (3, 128, 143)
    else none

-- `std::str::from_utf8` with the bytes that a character still needs
unfoldable pub continues_utf8 : ℕ → ℕ → ℕ → Bytes → Bool
continues_utf8 zero low high [] = true
continues_utf8 (suc n) low high [] = false
continues_utf8 zero low high (a ∷ s) = elim (lead a) [
  | none ↦ false
  | some (n, low1, high1) ↦ continues_utf8 n low1 high1 s
]
continues_utf8 (suc n) low high (a ∷ s) = leb low a && leb a high && continues_utf8 n 128 191 s

unfoldable pub is_utf8 : Bytes → Bool
is_utf8 value = continues_utf8 0 128 191 value

unfoldable pub change_status : Bytes → Option ChangeStatus
change_status status =
    if status == codes "A"
    then some added
    else if status == codes "D"
    then some deleted
    else if status == codes "M"
    then some modified
    else if status == codes "T"
    then some type_changed
    else none

-- The body of the loop of `parse_changed_paths` after `count` is raised.
unfoldable pub collect : ℕ → Bytes → Bytes → Option (List ChangedPath) → Option (List ChangedPath)
collect count status path none = none
collect count status path (some collected) = elim (ltb maximum_changed_paths count) [
  | true ↦ none
  | false ↦ elim (change_status status) [
    | none ↦ none
    | some kind ↦ elim (is_utf8 path && not (unsafe_text path)) [
      | true ↦ some (collected ++ (record { status = kind; path = path } ∷ []))
      | false ↦ none
    ]
  ]
]

-- The loop of `parse_changed_paths` over the fields.
unfoldable pub parse_fields :
    List Bytes → ℕ → Option (List ChangedPath) → Option (ℕ × Option (List ChangedPath))
parse_fields [] count paths = none
parse_fields ([] ∷ []) count paths = some (count, paths)
parse_fields ([] ∷ _ ∷ _) count paths = none
parse_fields ((_ ∷ _) ∷ []) count paths = none
parse_fields ((s ∷ status) ∷ path ∷ fields) count paths =
    parse_fields fields (suc count) (collect (suc count) (s ∷ status) path paths)

unfoldable pub parse_changed_paths : Bytes → Option (ℕ × Option (List ChangedPath))
parse_changed_paths output = parse_fields (split (λ b. b == 0) output) 0 (some [])

-- `u8::is_ascii_hexdigit`
abbrev pub is_ascii_hexdigit : ℕ → Bool
is_ascii_hexdigit b = is_ascii_digit b || (leb b'a' b && leb b b'f') || (leb b'A' b && leb b b'F')

unfoldable pub git_object_id : Bytes → Option Text
git_object_id value =
    if (length value == 40 || length value == 64) && all is_ascii_hexdigit value
    then some value
    else none

-- The parent after a line that names no tree.
unfoldable pub parent_of : Option Text → Bytes → Option Text
parent_of (some parent) line = some parent
parent_of none line = and_then (strip_prefix (codes "parent ") line) git_object_id

-- The loop of `commit_tree_and_parent` over the lines.
unfoldable pub read_lines :
    List Bytes → Option Text → Option Text → Option (Option Text × Option Text)
read_lines [] tree parent = some (tree, parent)
read_lines ([] ∷ _) tree parent = some (tree, parent)
read_lines ((b ∷ line) ∷ lines) tree parent = elim (strip_prefix (codes "tree ") (b ∷ line)) [
  | some value ↦ elim tree [ some _ ↦ none | none ↦ read_lines lines (git_object_id value) parent ]
  | none ↦ read_lines lines tree (parent_of parent (b ∷ line))
]

unfoldable pub commit_tree_and_parent : Bytes → Option (Text × Option Text)
commit_tree_and_parent message =
    and_then (read_lines (split (λ b. b == 10) message) none none)
      λ found. and_then found.0 λ tree. some (tree, found.1)
