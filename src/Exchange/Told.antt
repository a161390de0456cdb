-- ===== src/Exchange/Told.antt =====
-- The result of `approval_exchange` of src/exchange.rs and the outcome that the device is told.
use agentknock_cli.Prelude.{◌≡◌, Text, text_eq, List, Result, ok, err}
use agentknock_cli.SshAgent.Wire.{Bytes}
use agentknock_cli.Config.Reads.{StoredPairing, ConfigurationError}
use agentknock_cli.Session
use agentknock_cli.Session.{Primitives, Session, Request, Response, open_response, seal_completion}
use agentknock_cli.Relay
use agentknock_cli.Relay.{retries_exhausted, relay_rejected}
use agentknock_cli.Exchange
use agentknock_cli.Exchange.{
  DeviceResponse, answer, failure, Decision, Outcome, RequestError, configuration,
  relay_unavailable, unauthenticated, client_inactive, device_rejected, unclassified,
  pairing_rejected, AbortReason, Detail, DeviceError, Protocol, Services, finished, continue,
  from_device, record_completion, seal_outcome, abort, reject_device_error, cancel, clear_key,
  read_response, decode_response,
}
use agentknock_cli.Exchange.Approval.{sealed_request}
use agentknock_cli.Exchange.Consistent.{Told}

-- An error is none of the public categories, so no denial.
abbrev IsUnclassified : {A : Type 0} → Result RequestError A → Type 0
IsUnclassified (ok _) = Unit
IsUnclassified (err error) = (detail : Detail) × (error ≡ unclassified detail)

module _ {C X R T : Type 0} (primitives : Primitives C) (services : Services X)
    (protocol : Protocol R) (validate : R → Result Text T)
    (source : Session C → Response → Type 0) where
  abbrev Current : Type 0
  Current = Exchange.Exchange C X

  abbrev Tells : Result RequestError T → List Outcome → Type 0
  Tells = Told primitives services protocol validate source

  abbrev Agrees : Result RequestError T × Current → Type 0
  Agrees (result, exchange) = Tells result exchange.completions

  -- A run that ends before anything is sealed, or after it.
  abbrev Ends : Result RequestError T × X × List Outcome → Type 0
  Ends (result, _, completions) = Tells result completions

  -- The session and the response of a run that starts with a pairing.
  abbrev Sources : Bytes → Result ConfigurationError StoredPairing × X → Type 0
  Sources request_id run =
      (pairing : StoredPairing) (request : Request) (session : Session C) (response : Response)
      → run.0 ≡ ok pairing
      → sealed_request primitives services protocol validate pairing request_id
        ≡ ok (request, session)
      → (services.request request (services.prepare pairing run.1).1).0 ≡ finished (ok response)
      → source session response

module _ {C X R T : Type 0} (primitives : Primitives C) (services : Services X)
    (protocol : Protocol R) (validate : R → Result Text T) where
  -- The response that the relay gives to the request of this exchange, and the session that sealed
  -- that request, for the pairing that was read.
  abbrev pub Came : Bytes → X → Session C → Response → Type 0
  Came request_id x session response =
      (pairing : StoredPairing) × (request : Request) × ((services.read_pairing
          (services.maybe_rotate_psk x).1).0
        ≡ ok pairing)
      × (sealed_request primitives services protocol validate pairing request_id
          ≡ ok (request, session))
      × ((services.request request
            (services.prepare pairing
              (services.read_pairing (services.maybe_rotate_psk x).1).1).1).0
          ≡ finished (ok response))
