-- ===== src/Cli/Options.antt =====
-- The secrets of `agentknock run` of src/bin/agentknock/main.rs, built from its options.
pub mod Accepted
pub mod Keys
use agentknock_cli.Prelude.{
  ℕ, Text, Bool, true, false, ◌&&◌, not, Option, none, some, List, [], ◌∷◌, Result, ok, err, ◌>>=◌,
  ◌>>◌, guard, ok_or, is_nil, is_some, if◌then◌else◌,
}
use agentknock_cli.Maps.{Map, Set, insert, get, contains_key, contains, insert_key}
use agentknock_cli.SecretUse.Options.{EnvironmentVariableOptions, for_each, sources, is_selected}
use agentknock_cli.Cli.Names.{valid_environment_name}

pub record RunCommand : Type 0 where
  pub secrets : List Text
  pub only_env : List Text
  pub omit_env : List Text
  pub rename_env : List Text
  pub stdin : Option (List Text)
  pub reason : Option Text
  pub no_ssh_passthrough : Bool
  pub no_ssh_agent : Bool
  pub no_git_sign : Bool
  pub quiet : Bool
  pub verbose : Bool
  pub command : List Text

pub data RunOption : Type 0 where
  only_env omit_env rename_env stdin : RunOption

-- The errors, with the values that their messages name. The last is the panic of `unreachable!`.
pub data RunOptionsError : Type 0 where
  subcommand : RunOptionsError
  duplicate_secret : Text → RunOptionsError
  invalid_environment_name : Text → RunOptionsError
  secret_not_selected : RunOption → Text → RunOptionsError
  selected_twice omitted_twice renamed_twice : Text → Text → RunOptionsError
  only_and_omit : Text → RunOptionsError
  not_selected used_and_omitted renamed_and_stdin : Text → Text → RunOptionsError
  stdin_values : RunOptionsError

-- `EnvironmentVariableOptions::default()`
abbrev pub default_options : EnvironmentVariableOptions
default_options = record { only = none; omit = []; rename = []; stdin = none }

abbrev pub Options : Type 0
Options = Map EnvironmentVariableOptions

-- `as_chunks::<2>().0` and `as_chunks::<3>().0`: what is left over is dropped.
unfoldable pub pairs : List Text → List (Text × Text)
pairs (a ∷ b ∷ values) = (a, b) ∷ pairs values
pairs _ = []

unfoldable pub triples : List Text → List (Text × Text × Text)
triples (a ∷ b ∷ c ∷ values) = (a, b, c) ∷ triples values
triples _ = []

-- A loop that changes the secrets and may return an error.
unfoldable pub try_fold {ℓ} :
    {A : Type ℓ}
    → (Options → A → Result RunOptionsError Options)
    → Options
    → List A
    → Result RunOptionsError Options
try_fold step secrets [] = ok secrets
try_fold step secrets (x ∷ xs) = step secrets x >>= λ secrets'. try_fold step secrets' xs

unfoldable pub validate_run_environment_name : Text → Result RunOptionsError (Unit {0})
validate_run_environment_name name =
    guard (valid_environment_name name) (invalid_environment_name name)

-- The entry that a caller changes: it puts the changed options back under the name.
unfoldable pub environment_options :
    Options → RunOption → Text → Result RunOptionsError EnvironmentVariableOptions
environment_options secrets option secret =
    ok_or (secret_not_selected option secret) (get secret secrets)

unfoldable pub select_secret : Options → Text → Result RunOptionsError Options
select_secret secrets secret = do
  guard (not (contains_key secret secrets)) (duplicate_secret secret)
  ok (insert secret default_options secrets)

-- `get_or_insert_with(BTreeSet::new)`
unfoldable pub selection : Option Set → Set
selection none = []
selection (some only) = only

unfoldable pub select_variable : Options → Text × Text → Result RunOptionsError Options
select_variable secrets (secret, variable) = do
  validate_run_environment_name variable
  options ← environment_options secrets only_env secret
  guard (not (contains variable (selection options.only))) (selected_twice variable secret)
  ok (
      insert secret
        (record {
          only = some (insert_key variable (selection options.only));
          omit = options.omit;
          rename = options.rename;
          stdin = options.stdin;
        })
        secrets)

unfoldable pub omit_variable : Options → Text × Text → Result RunOptionsError Options
omit_variable secrets (secret, variable) = do
  validate_run_environment_name variable
  options ← environment_options secrets omit_env secret
  guard (not (contains variable options.omit)) (omitted_twice variable secret)
  ok (
      insert secret
        (record {
          only = options.only;
          omit = insert_key variable options.omit;
          rename = options.rename;
          stdin = options.stdin;
        })
        secrets)

unfoldable pub rename_variable : Options → Text × Text × Text → Result RunOptionsError Options
rename_variable secrets (secret, variable, new_variable) = do
  validate_run_environment_name variable
  validate_run_environment_name new_variable
  options ← environment_options secrets rename_env secret
  guard (not (contains_key variable options.rename)) (renamed_twice variable secret)
  ok (
      insert secret
        (record {
          only = options.only;
          omit = options.omit;
          rename = insert variable new_variable options.rename;
          stdin = options.stdin;
        })
        secrets)

unfoldable pub send_variable : Options → Option (List Text) → Result RunOptionsError Options
send_variable secrets none = ok secrets
send_variable secrets (some (secret ∷ variable ∷ [])) = do
  validate_run_environment_name variable
  options ← environment_options secrets stdin secret
  ok (
      insert secret
        (record {
          only = options.only;
          omit = options.omit;
          rename = options.rename;
          stdin = some variable;
        })
        secrets)
send_variable secrets (some _) = err stdin_values

unfoldable pub validate_stdin_variable :
    Text → Map Text → Option Text → Result RunOptionsError (Unit {0})
validate_stdin_variable secret rename none = ok tt
validate_stdin_variable secret rename (some variable) =
    guard (not (contains_key variable rename)) (renamed_and_stdin variable secret)

unfoldable pub validate_run_secret :
    Text × EnvironmentVariableOptions → Result RunOptionsError (Unit {0})
validate_run_secret (secret, options) = do
  guard (not (is_some options.only && not (is_nil options.omit))) (only_and_omit secret)
  for_each (λ variable. guard (is_selected options.only variable) (not_selected variable secret))
      (sources options)
  for_each
      (λ variable. guard (not (contains variable options.omit)) (used_and_omitted variable secret))
      (sources options)
  validate_stdin_variable secret options.rename options.stdin

unfoldable pub validate_run_environment_options : Options → Result RunOptionsError (Unit {0})
validate_run_environment_options secrets = for_each validate_run_secret secrets

unfoldable pub secret_options : RunCommand → Result RunOptionsError Options
secret_options command = do
  secrets ← try_fold select_secret [] command.secrets
  selected ← try_fold select_variable secrets (pairs command.only_env)
  omitted ← try_fold omit_variable selected (pairs command.omit_env)
  renamed ← try_fold rename_variable omitted (triples command.rename_env)
  sent ← send_variable renamed command.stdin
  validate_run_environment_options sent
  ok sent
