-- ===== src/Cli/Names.antt =====
-- The value parsers of src/bin/agentknock/main.rs.
use agentknock_cli.Prelude.{
  ℕ, Text, ◌==◌, nat_eq, Bool, true, false, ◌&&◌, ◌||◌, not, [], ◌∷◌, Result, ok, err, ◌>>=◌, ◌>>◌,
  guard, ok_or, is_nil, all, ◌≡◌, ◌≢◌, arith, if◌then◌else◌, Bool-cases, inl, inr, and-eq-true,
  refl,
}
use agentknock_cli.Strings.{
  is_ascii_lowercase, is_ascii_uppercase, is_ascii_alphanumeric, contains_byte, split, split_once,
}
use agentknock_cli.SecretUse.Options.{valid_name}

-- The messages of the value parsers.
pub data InvalidValue : Type 0 where
  not_an_identifier empty_secret_name comma_in_secret_name : InvalidValue
  empty_path not_an_assignment not_an_address : InvalidValue

unfoldable pub valid_environment_name : Text → Bool
valid_environment_name [] = false
valid_environment_name (first ∷ name) =
    (is_ascii_uppercase first || is_ascii_lowercase first || first == 95)
    && all (λ byte. is_ascii_alphanumeric byte || byte == 95) name

unfoldable pub parse_environment_name : Text → Result InvalidValue Text
unfolding valid_environment_name
parse_environment_name name = if valid_environment_name name then ok name else err not_an_identifier

unfoldable pub parse_secret : Text → Result InvalidValue Text
parse_secret secret =
    if is_nil secret
    then err empty_secret_name
    else if contains_byte 44 secret
    then err comma_in_secret_name
    else ok secret

unfoldable pub parse_path : Text → Result InvalidValue Text
parse_path path = if is_nil path then err empty_path else ok path

pub record VariableFile : Type 0 where
  pub name : Text
  pub path : Text

pub from_assignment : Text × Text → Result InvalidValue VariableFile
from_assignment (name, path) = do
  _ ← parse_environment_name name
  guard (not (is_nil path)) empty_path
  ok (record { name = name; path = path })

-- `VariableFile::from_str`
pub parse_variable_file : Text → Result InvalidValue VariableFile
parse_variable_file value = do
  parts ← ok_or not_an_assignment (split_once 61 value)
  from_assignment parts

unfoldable pub parse_pairing_address : Text → Result InvalidValue Text
parse_pairing_address address =
    if all (λ word. not (is_nil word) && all is_ascii_lowercase word) (split (λ b. b == 45) address)
    then ok address
    else err not_an_address

lacks :
    (b : ℕ) (p : ℕ → Bool)
    → ((c : ℕ) → p c ≡ true → (c == b) ≡ false)
    → (s : Text) → all p s ≡ true
    → contains_byte b s ≡ false
lacks b p other [] h = refl
lacks b p other (c ∷ s) h = elim (Bool-cases (p c)) [
  | inl passed ↦ rw (other c passed) (lacks b p other s (rw passed at h))
  | inr failed ↦ absurd (ground arith)
]

-- The bytes of a name after its first.
abbrev name_byte : ℕ → Bool
name_byte byte = is_ascii_alphanumeric byte || byte == 95

-- A name that the command line takes is one that a request may hold.
pub valid_environment_name-valid_name :
    (name : Text) → valid_environment_name name ≡ true → valid_name name ≡ true
unfolding valid_environment_name valid_name
valid_environment_name-valid_name [] h = cc
valid_environment_name-valid_name (first ∷ name) h =
    let (first_valid, rest_valid) = and-eq-true _ _ h in
    let no_equals : contains_byte 61 name ≡ false =
      lacks 61 name_byte (λ c e. ground arith) name rest_valid in
    let no_null : contains_byte 0 name ≡ false =
      lacks 0 name_byte (λ c e. ground arith) name rest_valid in
    let not_equals : (first == 61) ≡ false = ground arith in
    let not_null : (first == 0) ≡ false = ground arith in
    rw (not_equals, not_null, no_equals, no_null) refl

pub parse_secret-≢-nil :
    (secret : Text) {parsed : Text} → parse_secret secret ≡ ok parsed → secret ≢ []
unfolding parse_secret
parse_secret-≢-nil [] h = cc
parse_secret-≢-nil (c ∷ secret) h = λ e. cc
