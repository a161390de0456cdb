-- ===== src/Tests/Requests.antt =====
-- A command line that takes two secrets, and the secrets that the device approves for it.
use agentknock_cli.Prelude.{
  Text, codes, ◌≡◌, ◌≢◌, ◌↔◌, refl, true, false, Option, none, some, [], ◌∷◌, ok, All,
  text_discrete, ℕ_discrete,
}
use agentknock_cli.Maps.{Map, get, insert, insert_key, contains, contains_key, keys, text_ltb}
use agentknock_cli.SecretUse.Options.{
  EnvironmentVariableOptions, validate_secret_options, for_each, sources, is_selected,
}
use agentknock_cli.SecretUse.Options.Usable.{IsRequest, validate_secret_options_iff}
use agentknock_cli.SecretUse.Approved.{
  ApprovedSecret, environment, SecretUseInvocation, SecretUseOutput, secret_use_output_from_secrets,
  deliver_secrets, deliver_secret, deliver_variables, deliver_variable, final_name, is_stdin,
  agrees, same_texts, matches_only, validate_returned_variables,
}
use agentknock_cli.SecretUse.Approved.Delivered.{delivered_secrets, output-environment}
use agentknock_cli.SecretUse.Approved.Honoured.{AllHonour, output-Honours}
use agentknock_cli.Cli.Names.{
  parse_secret, valid_environment_name, valid_environment_name-valid_name,
}
use agentknock_cli.SecretUse.Options.{valid_name}
use agentknock_cli.Cli.Options.{
  RunCommand, secret_options, try_fold, select_secret, select_variable, omit_variable,
  rename_variable, send_variable, pairs, triples, selection, environment_options,
  validate_run_environment_name, validate_run_environment_options, validate_run_secret,
  validate_stdin_variable,
}
use agentknock_cli.Cli.Operation.{
  OutputMode, RunOperation, Command, Operation, into_operation, command_into_operation,
  into_run_operation, is_default, from_flags,
}
use agentknock_cli.Cli.Operation.Requests.{into_operation-validate}
use agentknock_cli.Cli.Options.Keys.{listed, secret_options-keys, secret_options-validate}

abbrev command : RunCommand
command = record {
  secrets = codes "web" ∷ codes "ci" ∷ [];
  only_env = codes "ci" ∷ codes "KEY" ∷ codes "ci" ∷ codes "URL" ∷ [];
  omit_env = codes "web" ∷ codes "DEBUG" ∷ [];
  rename_env = codes "ci" ∷ codes "KEY" ∷ codes "CI_KEY" ∷ [];
  stdin = some (codes "web" ∷ codes "PASSWORD" ∷ []);
  reason = none;
  no_ssh_passthrough = false;
  no_ssh_agent = false;
  no_git_sign = false;
  quiet = false;
  verbose = false;
  command = codes "deploy" ∷ [];
}

-- The maps are in the order of their keys.
abbrev requested : Map EnvironmentVariableOptions
requested =
    (
      codes "ci",
      record {
        only = some ((codes "KEY", tt) ∷ (codes "URL", tt) ∷ []);
        omit = [];
        rename = (codes "KEY", codes "CI_KEY") ∷ [];
        stdin = none;
      },
    )
    ∷ (
      codes "web",
      record {
        only = none;
        omit = (codes "DEBUG", tt) ∷ [];
        rename = [];
        stdin = some (codes "PASSWORD");
      },
    )
    ∷ []

built : secret_options command ≡ ok requested
unfolding secret_options try_fold select_secret select_variable omit_variable rename_variable
    send_variable pairs triples selection environment_options validate_run_environment_name
    validate_run_environment_options validate_run_secret validate_stdin_variable get insert
    insert_key contains contains_key text_ltb valid_environment_name for_each sources is_selected
    text_discrete ℕ_discrete
built = refl

some_secret : command.secrets ≢ []
some_secret = λ e. cc

parsed : All (λ secret. parse_secret secret ≡ ok secret) command.secrets
unfolding parse_secret
parsed = (refl, (refl, tt))

secret_options-keys_example :
    contains_key (codes "web") requested ≡ listed (codes "web") command.secrets
secret_options-keys_example = secret_options-keys command requested built (codes "web")

secret_options-validate_example : validate_secret_options requested ≡ ok tt
secret_options-validate_example = secret_options-validate command requested some_secret parsed built

validate_secret_options_iff_example :
    (validate_secret_options requested ≡ ok tt) ↔ IsRequest requested
validate_secret_options_iff_example = validate_secret_options_iff requested

key-valid : valid_environment_name (codes "CI_KEY") ≡ true
unfolding valid_environment_name
key-valid = refl

valid_environment_name-valid_name_example : valid_name (codes "CI_KEY") ≡ true
valid_environment_name-valid_name_example =
    valid_environment_name-valid_name (codes "CI_KEY") key-valid

abbrev approved : Map ApprovedSecret
approved =
    (codes "ci", environment ((codes "KEY", codes "k") ∷ (codes "URL", codes "u") ∷ []))
    ∷ (codes "web", environment ((codes "PASSWORD", codes "p") ∷ (codes "URL", codes "u") ∷ []))
    ∷ []

abbrev invocation : SecretUseInvocation
invocation = record { id = codes "01"; token = [] }

abbrev output : SecretUseOutput
output = record {
  environment = (codes "CI_KEY", codes "k") ∷ (codes "URL", codes "u") ∷ [];
  stdin = some (codes "p");
  ssh = none;
  invocation = invocation;
}

accepted : secret_use_output_from_secrets approved requested invocation ≡ ok output
unfolding secret_use_output_from_secrets deliver_secrets deliver_secret deliver_variables
    deliver_variable final_name is_stdin agrees same_texts matches_only validate_returned_variables
    get insert contains_key text_ltb for_each sources text_discrete ℕ_discrete
accepted = refl

output-environment_example :
    ((name : Text) → get name output.environment ≡ get name (delivered_secrets approved requested))
    × All
        (λ entry. get entry.0 output.environment ≡ some entry.1)
        (delivered_secrets approved requested)
output-environment_example = output-environment approved requested invocation output accepted

output-Honours_example : (keys approved ≡ keys requested) × AllHonour approved requested
output-Honours_example = output-Honours approved requested invocation output accepted

abbrev default_run : RunCommand
default_run = record {
  secrets = [];
  only_env = [];
  omit_env = [];
  rename_env = [];
  stdin = none;
  reason = none;
  no_ssh_passthrough = false;
  no_ssh_agent = false;
  no_git_sign = false;
  quiet = false;
  verbose = false;
  command = [];
}

abbrev operation : RunOperation
operation = record {
  secrets = requested;
  git_signing = true;
  reason = none;
  ssh_agent = true;
  ssh_passthrough = true;
  command = codes "deploy" ∷ [];
  output = OutputMode.normal;
}

abbrev subcommand : Option (Command Text Text)
subcommand = some (Command.run command)

with_subcommand : into_operation default_run subcommand ≡ ok (Operation.run operation)
unfolding into_operation command_into_operation into_run_operation is_default from_flags
with_subcommand = rw built refl

into_operation-validate_example : validate_secret_options requested ≡ ok tt
into_operation-validate_example =
    into_operation-validate {PairingCommand = Text} {SecretCommand = Text} default_run subcommand
      operation (some_secret, parsed) with_subcommand
