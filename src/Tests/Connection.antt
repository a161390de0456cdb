-- ===== src/Tests/Connection.antt =====
-- A connection to an upstream agent whose answers are given beforehand.
use agentknock_cli.Prelude.{
  ℕ, codes, ◌≡◌, ◌↔◌, refl, true, leb, Option, none, some, List, [], ◌∷◌, ◌++◌, length, take, drop,
  if◌then◌else◌,
}
use agentknock_cli.SshAgent.Wire.{Bytes, IsBytes-all}
use agentknock_cli.SshAgent.Authentication.{route}
use agentknock_cli.SshAgent.Authentication.Spec.{IsSignRequest}
use agentknock_cli.SshAgent.Connection.{
  authenticate, StreamOperations, Upstream, unconnected, connected, unavailable, exchange,
  write_packet, read_packet, new_upstream, handle, handle_all, query_answer,
  valid_extension_query_response,
}
use agentknock_cli.SshAgent.Connection.Phases.{
  asks_upstream, handle_all-failed, handle-authenticate_iff,
}
use agentknock_cli.SshAgent.Connection.Query.{
  IsQueryResponse, valid_extension_query_response_iff, query_answer-valid,
}
use agentknock_cli.SshAuthentication.{ed25519}
use agentknock_cli.Tests.SshAgent.{packet, message, selected, selected-fits, packet-IsBytes}

-- The bytes that the upstream agent has still to send.
read_byte : Bytes → Option (Option (ℕ × Bytes))
read_byte [] = some none
read_byte (byte ∷ stream) = some (some (byte, stream))

read_exact : ℕ → Bytes → Option (Bytes × Bytes)
read_exact n stream = if leb n (length stream) then some (take n stream, drop n stream) else none

script : StreamOperations Bytes
unfolding read_byte read_exact
script = record {
  read_byte = read_byte;
  read_exact = read_exact;
  write_all = λ _ stream. some stream;
}

-- A socket is the bytes that its agent sends.
connect : Bytes → Option Bytes
connect socket = some socket

abbrev requests : List Bytes
requests = (11 ∷ []) ∷ (27 ∷ []) ∷ []

abbrev socket : Upstream Bytes Bytes
socket = unconnected (0 ∷ 0 ∷ 0 ∷ 1 ∷ 5 ∷ [])

handle-authenticate_iff_example :
    ((handle Bytes Bytes script connect selected socket packet).0 ≡ authenticate ed25519 message)
    ↔ IsSignRequest selected packet message ed25519
handle-authenticate_iff_example =
    handle-authenticate_iff Bytes Bytes script connect selected socket packet message ed25519
      packet-IsBytes selected-fits

-- The agent ends the stream before it answers.
silent-fails : exchange Bytes Bytes script connect [] (11 ∷ []) ≡ none
unfolding exchange write_packet read_packet script read_byte
silent-fails = refl

first-asks : asks_upstream (route selected (11 ∷ [])) ≡ true
unfolding asks_upstream route
first-asks = refl

handle_all-failed_example :
    (handle_all Bytes Bytes script connect selected (connected []) requests
      ≡ handle_all Bytes Bytes script connect selected
          (new_upstream Bytes Bytes script connect none)
          requests)
    × ((handle_all Bytes Bytes script connect selected (connected []) requests).1 ≡ unavailable)
handle_all-failed_example =
    handle_all-failed Bytes Bytes script connect selected (connected []) (11 ∷ []) ((27 ∷ []) ∷ [])
      first-asks silent-fails

abbrev names : Bytes
names = 29 ∷ 0 ∷ 0 ∷ 0 ∷ 5 ∷ (codes "query" ++ (0 ∷ 0 ∷ 0 ∷ 1 ∷ codes "x"))

valid_extension_query_response_iff_example :
    (valid_extension_query_response names ≡ true) ↔ IsQueryResponse names
valid_extension_query_response_iff_example =
    valid_extension_query_response_iff names (IsBytes-all names refl)

query_answer-valid_example :
    (answer : Bytes) × (query_answer (some (29 ∷ [])) ≡ some answer)
    × (valid_extension_query_response answer ≡ true)
query_answer-valid_example = query_answer-valid (some (29 ∷ []))
