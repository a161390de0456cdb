-- ===== src/Lib.antt =====
-- Verification of the command-line program agentknock and its library, which let a command use
-- secrets that a paired device approves.
--
-- The program's parts and the files that model them:
-- * src/bin/agentknock/ssh_agent.rs, the SSH agent that a command is given: `SshAgent`.
--   `SshAgent.Wire` is the cursor over the wire format and its writers (`Cursor::byte`, `u32`,
--   `string`, `end`, `put_u32`, `put_string`). A cursor's method takes the remaining input and gives
--   the value with the input that is left. `SshAgent.Identity` is `SelectedIdentity::from_openssh`,
--   `SshAgent.Authentication` is `route`, `parse_authentication` and
--   `validate_authentication_message`, which is split after every second read, and
--   `SshAgent.Identities` is `identities_response` with the packets that it reads and writes.
--   `SshAgent.Connection` is `AgentConnection`: `handle`, `forward` and the reads and writes of
--   packets, over a stream's operations.
-- * src/ssh_authentication.rs, the request for a signature: `SshAuthentication` has the algorithms
--   and `valid_signature`, the check of what the device returned.
-- * src/secret_use.rs, the request for secrets: `SecretUse.Options` has the options of a request,
--   `validate_secret_options` and `secret_options_message`; `SecretUse.Approved` has
--   `secret_use_output_from_secrets` and `validate_returned_variables`.
-- * src/bin/agentknock/main.rs, the command line: `Cli.Names` has the value parsers, `Cli.Options`
--   has `RunCommand::secret_options`, which builds the options that the request holds, and
--   `Cli.Operation` has `Cli::into_operation` and the output mode of src/bin/agentknock/output.rs.
-- * src/pairing.rs, pairing with a device: `Pairing.Address` has `is_valid_pairing_address`,
--   `Pairing.Code` the text of a `PairingSas`, `Pairing.Start` has `start_pairing`, between whose
--   operations on the file other processes may change it.
-- * src/crypto.rs, the cryptographic sessions: `Session` has the sealing of requests and completions
--   and the opening of responses, `Session.Code` the keys that are derived and the completion of a
--   pairing, `Session.Order` the order of the messages.
-- * src/websocket.rs, the exchange with the relay: `Relay` has the frames and the state of an
--   exchange, `Relay.Connection` the retries, `ensure_connected`, the functions that send, and
--   `receive`, `Relay.Exchange` has `request`, `complete_with_policy` and `connect`. A computation
--   takes the state of the exchange, of the retries and of the network to its result and the state
--   after it. `Relay.Triples`, `Kept`, `Receives`, `Ordered`, `Returns`, `Messages`, `HandsOff`,
--   `Completes` and `Ends` prove what the computations leave.
-- * src/exchange.rs, with the messages of src/protocol.rs and the errors of src/error.rs, the exchange
--   of a request that the device approves: `Exchange`, `Exchange.Approval` (`approval_exchange`), over
--   an interface of the relay, the pairing file and the cancellation; `Exchange.Consistent`, `Agrees`
--   and `Told` are about its result.
-- * src/config.rs, the pairing file: `Config.Reads` has the functions that read and check it,
--   `Config.Changes` the operations that change it, `Config.Readers` those that only read it, and
--   `Config.Transitions` names the operations; `Config.Lifecycle`, `Config.Steps` and `Config.Success` are about their effect. A
--   computation takes the list of what the system calls to come do (whether each fails), so that
--   every error path is run; an operation gives the change that it makes, which `settle` carries out
--   and makes durable. The lock on the directory makes operations follow one another, so each one
--   is a function of the file that it finds.
-- * src/bin/agentknock/executable.rs, the program that is run: `Executable` has the search and the
--   environment, over what opening a candidate gives.
-- * src/bin/agentknock/git_repository.rs, the repository of a commit to sign: `GitRepository` has the
--   reading of the commit and of the changed paths.
-- * src/bin/agentknock/invocation_service.rs, the service for Git: `InvocationService` has the check of
--   a process, the arguments and keys of the signing program, and the quoting for the shell;
--   `InvocationService.Keys` describes the lines of keys.
-- The command line hands its options to the request (`Cli.Options.Keys` joins the two), and the
-- agent hands the messages that it accepts to the request for a signature.
--
-- How the source's constructs are modelled: a text is the list of its bytes; `Result` is
-- `Prelude.Outcome.Result` with `?` as its bind, and an error keeps the values that its message
-- names but not the words; a panic of `expect` is `none`, or in src/config.rs the error `panicked`, and
-- the one of `unreachable!` an error of
-- its own; `BTreeMap<String, _>` and `BTreeSet<String>` are association lists in the order of their
-- keys (`Maps`); a loop is a recursion on the list or number that it runs over; where it runs until
-- the input is read (`strings_only`), on fuel, the length of the input, which is enough since each
-- turn reads at least four bytes, and for the digits of a number on fuel 20, the number of digits of
-- 2 ^ 64; the loops of the relay's client run on fuel, one unit for each turn, and ten for each
-- message of the relay and ten more are enough, since ten failures in a row end them; the walk
-- up the process table runs on fuel above the number of a process's ancestors; machine
-- integers of 32 bits are numbers below 2 ^ 32, and lengths are numbers, which is exact where memory
-- has at most 2 ^ 64 bytes.
--
-- The crate serde_json is a parameter (`decode`, `encode`) with the properties that the field
-- `pending` is read and written as it stands. The crate base64 is a parameter (`decode`), with the
-- property that it gives bytes; a stream and the connection to a socket of the crate tokio are
-- parameters (`StreamOperations`, `connect`), and so are the WebSocket and the clock (`Network`), with
-- the property that the relay sends finitely many messages, and the crates for cryptography
-- (`Primitives`). The crate atomic_write_file is a parameter (`Commit`) with the properties of
-- `IsCommit`: the file holds what is written, a file that is made has the mode that is asked for, and
-- one that is replaced that mode or the one it had; where it fails it leaves the old file. The
-- parsing of the command line by the crate clap is not modelled: `RunCommand` is what clap hands
-- over.
--
-- Not modelled: the finish and the removal of a pairing, the URL and the headers of the relay's
-- connection, the time limit of a brief handoff, the secrets that are added, the request to sign
-- for Git, the sockets and processes of the invocation service, the files of an executable,
-- proxies and the terminal's output; the texts of messages; signals and processes.
pub mod Cli
pub mod Config
pub mod Exchange
pub mod Executable
pub mod GitRepository
pub mod InvocationService
pub mod Maps
pub mod Pairing
pub mod Prelude
pub mod Relay
pub mod SecretUse
pub mod Session
pub mod SshAgent
pub mod SshAuthentication
pub mod Strings
pub mod Tests
