-- ===== src/SshAgent/Connection.antt =====
-- The connection that serves a command's requests, of src/bin/agentknock/ssh_agent.rs: the upstream
-- agent and the answers to each kind of packet.
pub mod Query
pub mod Phases
use agentknock_cli.Prelude.{
  ℕ, zero, suc, ◌*◌, ◌^◌, ◌==◌, nat_eq, text_eq, codes, Bool, true, false, ◌&&◌, ◌||◌, not, Option,
  none, some, List, [], ◌∷◌, ◌++◌, Result, ok, err, ltb, length, and_then, is_nil, if◌then◌else◌,
}
use agentknock_cli.SshAgent.Wire.{Bytes, byte, string, from_be_bytes, to_be_bytes, put_string}
use agentknock_cli.SshAgent.Authentication.{
  SelectedIdentity, Route, list_identities, forward, extension_query, refuse, route,
}
use agentknock_cli.SshAgent.Identities.{identities_response}
use agentknock_cli.SshAuthentication.{SshSignatureAlgorithm}

abbrev pub failure_response : Bytes
failure_response = 5 ∷ []

pub extension_query_response : Option Bytes
extension_query_response = put_string (29 ∷ []) (codes "query")

pub signature_response : Bytes → Option Bytes
signature_response signature = put_string (14 ∷ []) signature

-- The loop of `valid_extension_query_response`, on fuel; each turn reads at least four bytes.
pub strings_only : ℕ → Bytes → Bool
strings_only fuel [] = true
strings_only zero (_ ∷ _) = false
strings_only (suc fuel) (b ∷ remaining) = elim (string (b ∷ remaining)) [
  | err _ ↦ false
  | ok (_, rest) ↦ strings_only fuel rest
]

pub query_contents : Bytes → Bool
query_contents response = elim (string response) [
  | err _ ↦ false
  | ok (name, remaining) ↦ name == codes "query" && strings_only (length remaining) remaining
]

pub valid_extension_query_response : Bytes → Bool
valid_extension_query_response packet = elim (byte packet) [
  | err _ ↦ false
  | ok (kind, response) ↦ kind == 29 && query_contents response
]

-- `response.filter(valid_extension_query_response)`
pub keep_valid : Option Bytes → Option Bytes
keep_valid none = none
keep_valid (some response) = if valid_extension_query_response response then some response else none

-- `unwrap_or_else` where the default may panic
pub or_answer : Option Bytes → Option Bytes → Option Bytes
or_answer none default = default
or_answer (some response) default = some response

pub query_answer : Option Bytes → Option Bytes
query_answer response = or_answer (keep_valid response) extension_query_response

abbrev pub max_packet_length : ℕ
max_packet_length = 256 * 1024

-- `Respond` with `none` is a panic of `expect` while the response is written.
pub data Action : Type 0 where
  respond : Option Bytes → Action
  authenticate : SshSignatureAlgorithm → Bytes → Action

-- A stream of the crate tokio. `read_byte` gives `some none` at the end of the stream; `none` is an
-- I/O error, also an end of the stream within `read_exact`.
pub record StreamOperations (Stream : Type 0) : Type 0 where
  pub read_byte : Stream → Option (Option (ℕ × Stream))
  pub read_exact : ℕ → Stream → Option (Bytes × Stream)
  pub write_all : Bytes → Stream → Option Stream

pub data Upstream (Socket Stream : Type 0) : Type 0 where
  unconnected : Socket → Upstream Socket Stream
  connected : Stream → Upstream Socket Stream
  unavailable : Upstream Socket Stream

module _ (Socket Stream : Type 0) (operations : StreamOperations Stream)
    (connect : Socket → Option Stream) where
  pub packet_length : ℕ → Bytes → Option ℕ
  packet_length a (b ∷ c ∷ d ∷ []) =
      let n = from_be_bytes a b c d in if n == 0 || ltb max_packet_length n then none else some n
  packet_length _ _ = none

  -- `some none` is the end of the stream between two packets.
  unfoldable pub read_packet : Stream → Option (Option (Bytes × Stream))
  read_packet connection = and_then (operations.read_byte connection) λ first. elim first [
    | none ↦ some none
    | some (a, connection1) ↦ and_then (operations.read_exact 3 connection1) λ (rest, connection2).
        and_then (packet_length a rest)
          λ n. and_then (operations.read_exact n connection2) λ packet. some (some packet)
  ]

  unfoldable pub write_packet : Stream → Bytes → Option Stream
  write_packet connection packet =
      if ltb (length packet) (2 ^ 32)
      then and_then (operations.write_all (to_be_bytes (length packet)) connection)
          (operations.write_all packet)
      else none

  pub connect_upstream : Upstream Socket Stream → Upstream Socket Stream
  connect_upstream (unconnected socket) = elim (connect socket) [
    | some connection ↦ connected connection
    | none ↦ unavailable
  ]
  connect_upstream (connected connection) = connected connection
  connect_upstream unavailable = unavailable

  unfoldable pub exchange : Stream → Bytes → Option (Bytes × Stream)
  exchange upstream packet =
      and_then (write_packet upstream packet)
        λ written. and_then (read_packet written) λ response. response

  -- The response, if the upstream agent gives one, and the upstream that is left.
  pub forward_connected : Upstream Socket Stream → Bytes → Option Bytes × Upstream Socket Stream
  forward_connected (connected upstream) packet = elim (exchange upstream packet) [
    | some (response, upstream') ↦ (some response, connected upstream')
    | none ↦ (none, unavailable)
  ]
  forward_connected (unconnected socket) packet = (none, unconnected socket)
  forward_connected unavailable packet = (none, unavailable)

  pub forward_packet : Upstream Socket Stream → Bytes → Option Bytes × Upstream Socket Stream
  forward_packet upstream packet = forward_connected (connect_upstream upstream) packet

  -- `AgentConnection::new`
  pub new_upstream : Option Socket → Upstream Socket Stream
  new_upstream none = unavailable
  new_upstream (some socket) = unconnected socket

  module _ (selected : SelectedIdentity) where
    pub answer_route : Route → Upstream Socket Stream → Bytes → Action × Upstream Socket Stream
    answer_route list_identities upstream packet =
        let (response, upstream') = forward_packet upstream packet in
        (respond (identities_response selected response), upstream')
    answer_route (Route.authenticate algorithm message) upstream packet =
        (authenticate algorithm message, upstream)
    answer_route forward upstream packet =
        let (response, upstream') = forward_packet upstream packet in
        (respond (or_answer response (some failure_response)), upstream')
    answer_route extension_query upstream packet =
        let (response, upstream') = forward_packet upstream packet in
        (respond (query_answer response), upstream')
    answer_route refuse upstream packet = (respond (some failure_response), upstream)

    pub handle : Upstream Socket Stream → Bytes → Action × Upstream Socket Stream
    handle upstream packet = answer_route (route selected packet) upstream packet

    -- The requests of a command, one after the other.
    pub handle_all : Upstream Socket Stream → List Bytes → List Action × Upstream Socket Stream
    handle_all upstream [] = ([], upstream)
    handle_all upstream (packet ∷ packets) =
        let (action, upstream') = handle upstream packet in
        let (actions, upstream'') = handle_all upstream' packets in (action ∷ actions, upstream'')
