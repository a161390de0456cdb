-- ===== src/SecretUse/Options.antt =====
-- The options of a request of src/secret_use.rs, their validation and their message.
pub mod Valid
pub mod Usable
use agentknock_cli.Prelude.{
  ℕ, Text, ◌==◌, nat_eq, codes, Bool, true, false, not, ◌&&◌, ◌||◌, Option, none, some, List, [],
  ◌∷◌, ◌++◌, Result, ok, err, ◌>>=◌, ◌>>◌, guard, is_nil, is_some, any, if◌then◌else◌, option_list,
}
use agentknock_cli.Strings.{contains_byte}
use agentknock_cli.Maps.{Map, Set, keys, values, contains, contains_key}

pub record EnvironmentVariableOptions : Type 0 where
  pub only : Option Set
  pub omit : Set
  pub rename : Map Text
  pub stdin : Option Text

-- The only field of `SecretUseOptions` is `environment`: the options stand for both.
pub is_empty : EnvironmentVariableOptions → Bool
is_empty options =
    not (is_some options.only)
    && is_nil options.omit
    && is_nil options.rename
    && not (is_some options.stdin)

-- What `invalid_input` says of a request.
pub data InvalidInput : Type 0 where
  no_secrets empty_secret_name two_stdins : InvalidInput
  empty_only only_and_omit : Text → InvalidInput
  invalid_environment_name : Text → InvalidInput
  not_selected used_and_omitted renamed_and_stdin : Text → InvalidInput

-- A loop whose body may return an error.
unfoldable pub for_each {ℓ κ} :
    {E : Type ℓ} {A : Type κ} → (A → Result E (Unit {0})) → List A → Result E (Unit {0})
for_each body [] = ok tt
for_each body (x ∷ xs) = body x >> for_each body xs

unfoldable pub only_keys : Option Set → List Text
only_keys none = []
only_keys (some only) = keys only

-- `options.rename.keys().chain(options.stdin.iter())`
unfoldable pub sources : EnvironmentVariableOptions → List Text
sources options = keys options.rename ++ option_list options.stdin

unfoldable pub option_names : EnvironmentVariableOptions → List Text
option_names options =
    only_keys options.only
    ++ keys options.omit
    ++ keys options.rename
    ++ values options.rename
    ++ option_list options.stdin

unfoldable pub valid_name : Text → Bool
valid_name name = not (is_nil name || contains_byte 61 name || contains_byte 0 name)

pub validate_environment_name : Text → Result InvalidInput (Unit {0})
validate_environment_name name = guard (valid_name name) (invalid_environment_name name)

unfoldable pub is_selected : Option Set → Text → Bool
is_selected none _ = true
is_selected (some only) source = contains source only

unfoldable pub empty_selection : Option Set → Bool
empty_selection none = false
empty_selection (some only) = is_nil only

-- The variable that is sent to standard input, at most one in a request.
pub validate_stdin : Option Text → Map Text → Bool → Result InvalidInput Bool
validate_stdin none rename has_stdin = ok has_stdin
validate_stdin (some source) rename has_stdin = do
  guard (not (contains_key source rename)) (renamed_and_stdin source)
  guard (not has_stdin) two_stdins
  ok true

-- The body of the loop of `validate_secret_options`; it gives `has_stdin`.
pub validate_secret : Text → EnvironmentVariableOptions → Bool → Result InvalidInput Bool
validate_secret secret options has_stdin = do
  guard (not (is_nil secret)) empty_secret_name
  guard (not (empty_selection options.only)) (empty_only secret)
  guard (not (is_some options.only && not (is_nil options.omit))) (only_and_omit secret)
  for_each validate_environment_name (option_names options)
  for_each (λ source. guard (is_selected options.only source) (not_selected source))
      (sources options)
  for_each (λ source. guard (not (contains source options.omit)) (used_and_omitted source))
      (sources options)
  validate_stdin options.stdin options.rename has_stdin

pub validate_secrets : Map EnvironmentVariableOptions → Bool → Result InvalidInput (Unit {0})
validate_secrets [] has_stdin = ok tt
validate_secrets ((secret, options) ∷ secrets) has_stdin = do
  has_stdin' ← validate_secret secret options has_stdin
  validate_secrets secrets has_stdin'

pub validate_secret_options : Map EnvironmentVariableOptions → Result InvalidInput (Unit {0})
validate_secret_options secrets = do
  guard (not (is_nil secrets)) no_secrets
  validate_secrets secrets false

pub record EnvironmentVariableOptionsMessage : Type 0 where
  pub only : Option Set
  pub omit : Option Set
  pub rename : Option (Map Text)
  pub stdin : Option Text

-- `bool::then_some`
abbrev pub then_some {ℓ} : {A : Type ℓ} → Bool → A → Option A
then_some b a = if b then some a else none

pub options_message : EnvironmentVariableOptions → EnvironmentVariableOptionsMessage
options_message options = record {
  only = options.only;
  omit = then_some (not (is_nil options.omit)) options.omit;
  rename = then_some (not (is_nil options.rename)) options.rename;
  stdin = options.stdin;
}

pub secret_options_message :
    Map EnvironmentVariableOptions → Map (Option EnvironmentVariableOptionsMessage)
secret_options_message [] = []
secret_options_message ((name, options) ∷ secrets) =
    (name, then_some (not (is_empty options)) (options_message options))
    ∷ secret_options_message secrets
