-- ===== src/InvocationService.antt =====
-- The service that a command reaches for Git signing, of
-- src/bin/agentknock/invocation_service.rs: who may connect, the arguments of Git's signing program,
-- the keys that it may sign with, and the quoting of a path for the shell.
pub mod Shell
pub mod Descent
pub mod Signing
pub mod Keys
use agentknock_cli.Prelude.{
  ℕ, zero, suc, Text, ◌==◌, nat_eq, text_eq, codes, Bool, true, false, not, ◌&&◌, Option, none,
  some, List, [], ◌∷◌, ◌++◌, Result, ok, err, ◌>>=◌, ◌>>◌, guard, ok_or, is_some, and_then,
  if◌then◌else◌,
}
use agentknock_cli.SshAgent.Wire.{Bytes}
use agentknock_cli.GitRepository.{is_utf8}
use agentknock_cli.Strings.{split_ascii_whitespace}

-- `value.replace('\'', "'\\''")`
unfoldable pub replace_quotes : Text → Text
replace_quotes [] = []
replace_quotes (b ∷ value) =
    if b == 39 then 39 ∷ 92 ∷ 39 ∷ 39 ∷ replace_quotes value else b ∷ replace_quotes value

unfoldable pub shell_argument : Text → Text
shell_argument value = 39 ∷ (replace_quotes value ++ (39 ∷ []))

pub data InvocationError : Type 0 where
  unsupported_arguments not_a_child invalid_key_returned invalid_key_requested : InvocationError
  different_key unfinished not_utf8 : InvocationError
  unsupported_namespace process_lookup : Text → InvocationError

pub record GitSignArguments : Type 0 where
  pub key_file : Text
  pub data_file : Text

unfoldable pub data_file_of : List Text → Option Text
data_file_of [] = none
data_file_of (data_file ∷ []) = some data_file
data_file_of (option ∷ data_file ∷ []) = if option == codes "-U" then some data_file else none
data_file_of (_ ∷ _ ∷ _ ∷ _) = none

-- `OsString::to_str` of each argument
unfoldable pub to_strings : List Bytes → Result InvocationError (List Text)
to_strings [] = ok []
to_strings (argument ∷ arguments) = do
  guard (is_utf8 argument) not_utf8
  texts ← to_strings arguments
  ok (argument ∷ texts)

-- The arguments that the slice pattern binds.
unfoldable pub matched_arguments : List Text → Option (Text × Text × List Text)
matched_arguments (a ∷ b ∷ c ∷ namespace ∷ d ∷ key_file ∷ rest) =
    if a == codes "-Y" && b == codes "sign" && c == codes "-n" && d == codes "-f"
    then some (namespace, key_file, rest)
    else none
matched_arguments _ = none

unfoldable pub parse_git_sign_arguments : List Bytes → Result InvocationError GitSignArguments
parse_git_sign_arguments os_arguments = do
  arguments ← to_strings os_arguments
  (namespace, key_file, rest) ← ok_or unsupported_arguments (matched_arguments arguments)
  data_file ← ok_or unsupported_arguments (data_file_of rest)
  guard (namespace == codes "git") (unsupported_namespace namespace)
  ok (record { key_file = key_file; data_file = data_file })

unfoldable pub first_fields : List Text → Option (Text × Text)
first_fields (kind ∷ key ∷ _) = some (kind, key)
first_fields _ = none

unfoldable pub public_key_identity : Text → Option (Text × Text)
public_key_identity public_key = first_fields (split_ascii_whitespace public_key)

-- `==` of two identities, the first of which may be none
unfoldable pub same_identity : Option (Text × Text) → Text × Text → Bool
same_identity none expected = false
same_identity (some (kind, key)) (expected_kind, expected_key) =
    kind == expected_kind && key == expected_key

unfoldable pub signing_key_matches : Text → Text → Result InvocationError Bool
signing_key_matches requested expected = do
  identity ← ok_or invalid_key_returned (public_key_identity expected)
  ok (same_identity (public_key_identity requested) identity)

unfoldable pub validate_signing_key : Text → Text → Result InvocationError (Unit {0})
validate_signing_key requested expected = do
  guard (is_some (public_key_identity requested)) invalid_key_requested
  matches ← signing_key_matches requested expected
  guard matches different_key

-- The loop of `require_descendant`, on fuel; `parent_id` reads the operating system's table.
module _ (parent_id : ℕ → Result Text ℕ) where
  unfoldable pub ascend :
      (ℕ → Result InvocationError (Unit {0})) → Result Text ℕ → Result InvocationError (Unit {0})
  ascend next (err error) = err (process_lookup error)
  ascend next (ok parent) = if parent == 0 then err not_a_child else next parent

  unfoldable pub require_descendant : ℕ → ℕ → ℕ → Result InvocationError (Unit {0})
  require_descendant zero process owner = err unfinished
  require_descendant (suc fuel) process owner =
      if process == owner
      then ok tt
      else ascend (λ parent. require_descendant fuel parent owner) (parent_id process)
