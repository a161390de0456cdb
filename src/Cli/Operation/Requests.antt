-- ===== src/Cli/Operation/Requests.antt =====
-- The requests of the operations.
use agentknock_cli.Prelude.{
  ◌≡◌, ◌≢◌, ap, ◌∙◌, subst, Option, none, some, [], ok, All, ok-injective, >>=-eq-ok, >>-eq-ok,
}
use agentknock_cli.SecretUse.Options.{validate_secret_options}
use agentknock_cli.Cli.Names.{parse_secret}
use agentknock_cli.Cli.Options.{RunCommand, secret_options}
use agentknock_cli.Cli.Options.Keys.{secret_options-validate}
use agentknock_cli.Cli.Operation.{
  RunOperation, into_run_operation, Command, Operation, command_into_operation, into_operation,
  is_default,
}

-- What the parser of the command line sees to: at least one `--secret`, each value accepted.
abbrev pub IsParsed : RunCommand → Type 0
IsParsed run = (run.secrets ≢ []) × All (λ secret. parse_secret secret ≡ ok secret) run.secrets

run-validate :
    (run : RunCommand) (operation : RunOperation)
    → IsParsed run
    → into_run_operation run ≡ ok operation
    → validate_secret_options operation.secrets ≡ ok tt
unfolding into_run_operation
run-validate run operation (some_secret, parsed) h =
    let (secrets, built, h1) = >>=-eq-ok (secret_options run) _ h in
    subst (λ (o : RunOperation). validate_secret_options o.secrets ≡ ok tt) (ok-injective h1)
      (secret_options-validate run secrets some_secret parsed built)

module _ {PairingCommand SecretCommand : Type 0} where
  -- The run command that a command line holds, if it holds one, is parsed.
  abbrev pub IsParsedLine : RunCommand → Option (Command PairingCommand SecretCommand) → Type 0
  IsParsedLine options none = IsParsed options
  IsParsedLine options (some (Command.run command)) = IsParsed command
  IsParsedLine options (some (Command.pairing _)) = Unit
  IsParsedLine options (some (Command.secret _)) = Unit

  run_operation-injective :
      {a b : RunOperation}
      → ◌≡◌ {A = Operation PairingCommand SecretCommand} (Operation.run a) (Operation.run b)
      → a ≡ b
  run_operation-injective h = cc

  -- However the options of `run` are written, with the subcommand or without it, the operation that
  -- is run has secrets that pass the validation of a request.
  pub into_operation-validate :
      (options : RunCommand) (command : Option (Command PairingCommand SecretCommand))
      (operation : RunOperation)
      → IsParsedLine options command
      → into_operation options command ≡ ok (Operation.run operation)
      → validate_secret_options operation.secrets ≡ ok tt
  unfolding into_operation command_into_operation
  into_operation-validate options none operation parsed h =
      let (o, built, h1) = >>=-eq-ok (into_run_operation options) _ h in
      run-validate options operation parsed
        (built ∙ ap ok (run_operation-injective (ok-injective h1)))
  into_operation-validate options (some (Command.run run)) operation parsed h =
      let (_, h1) = >>-eq-ok (is_default options) _ _ h in
      let (o, built, h2) = >>=-eq-ok (into_run_operation run) _ h1 in
      run-validate run operation parsed (built ∙ ap ok (run_operation-injective (ok-injective h2)))
  into_operation-validate options (some (Command.pairing _)) operation parsed h =
      let (_, h1) = >>-eq-ok (is_default options) _ _ h in absurd (cc)
  into_operation-validate options (some (Command.secret _)) operation parsed h =
      let (_, h1) = >>-eq-ok (is_default options) _ _ h in absurd (cc)
