-- ===== src/Cli/Operation.antt =====
-- The operation that a command line of src/bin/agentknock/main.rs asks for.
pub mod Requests
use agentknock_cli.Prelude.{
  ℕ, Text, Bool, true, false, not, ◌&&◌, Option, none, some, List, [], Result, ok, err, ◌>>=◌, ◌>>◌,
  guard, is_nil, is_some, if◌then◌else◌,
}
use agentknock_cli.Cli.Options.{RunCommand, RunOptionsError, Options, subcommand, secret_options}

-- The output of src/bin/agentknock/output.rs
pub data OutputMode : Type 0 where
  normal quiet verbose : OutputMode

unfoldable pub from_flags : Bool → Bool → OutputMode
from_flags is_quiet is_verbose = if is_quiet then quiet else if is_verbose then verbose else normal

pub record RunOperation : Type 0 where
  pub secrets : Options
  pub git_signing : Bool
  pub reason : Option Text
  pub ssh_agent : Bool
  pub ssh_passthrough : Bool
  pub command : List Text
  pub output : OutputMode

unfoldable pub into_run_operation : RunCommand → Result RunOptionsError RunOperation
into_run_operation run = do
  secrets ← secret_options run
  ok (record {
    secrets = secrets;
    git_signing = not run.no_git_sign;
    reason = run.reason;
    ssh_agent = not run.no_ssh_agent;
    ssh_passthrough = not run.no_ssh_passthrough;
    command = run.command;
    output = from_flags run.quiet run.verbose;
  })

-- `run == RunCommand::default()`
unfoldable pub is_default : RunCommand → Bool
is_default run =
    is_nil run.secrets
    && is_nil run.only_env
    && is_nil run.omit_env
    && is_nil run.rename_env
    && not (is_some run.stdin)
    && not (is_some run.reason)
    && not run.no_ssh_passthrough
    && not run.no_ssh_agent
    && not run.no_git_sign
    && not run.quiet
    && not run.verbose
    && is_nil run.command

-- The commands on pairings and on secrets are types of their own.
pub data Command (PairingCommand SecretCommand : Type 0) : Type 0 where
  run : RunCommand → Command PairingCommand SecretCommand
  pairing : PairingCommand → Command PairingCommand SecretCommand
  secret : SecretCommand → Command PairingCommand SecretCommand

pub data Operation (PairingCommand SecretCommand : Type 0) : Type 0 where
  run : RunOperation → Operation PairingCommand SecretCommand
  pairing : PairingCommand → Operation PairingCommand SecretCommand
  secret : SecretCommand → Operation PairingCommand SecretCommand

module _ {PairingCommand SecretCommand : Type 0} where
  unfoldable pub command_into_operation :
      Command PairingCommand SecretCommand
      → Result RunOptionsError (Operation PairingCommand SecretCommand)
  command_into_operation (Command.run command) = do
    operation ← into_run_operation command
    ok (Operation.run operation)
  command_into_operation (Command.pairing command) = ok (Operation.pairing command)
  command_into_operation (Command.secret command) = ok (Operation.secret command)

  -- `Cli::into_operation`, of the options before a subcommand and the subcommand
  unfoldable pub into_operation :
      RunCommand
      → Option (Command PairingCommand SecretCommand)
      → Result RunOptionsError (Operation PairingCommand SecretCommand)
  into_operation options none = do
    operation ← into_run_operation options
    ok (Operation.run operation)
  into_operation options (some command) = do
    guard (is_default options) subcommand
    command_into_operation command
