-- ===== src/Exchange/Approval.antt =====
-- `approval_exchange` of src/exchange.rs, from the start of a request to its result.
use agentknock_cli.Prelude.{
  Text, Bool, true, false, List, [], Result, ok, err, ◌>>=◌, map_err, ◌⊎◌, inl, inr,
}
use agentknock_cli.SshAgent.Wire.{Bytes}
use agentknock_cli.Config.Reads.{StoredPairing, ConfigurationError}
use agentknock_cli.Session.{Primitives, Session, Request, Response, new, seal_request}
use agentknock_cli.Exchange
use agentknock_cli.Relay
use agentknock_cli.Exchange.{
  DeviceResponse, answer, failure, Decision, Outcome, RequestError, configuration, unclassified,
  interrupted, Detail, json, rejected_data, aborted_result, AbortReason, invalid_response, Protocol,
  Services, Awaited, canceled, finished, continue, with_services, from_relay, from_device,
  crypto_error, seal_outcome, reject_device_error, cancel, fail_relay, read_response,
}

unfoldable pub from_local : ConfigurationError ⊎ Detail → RequestError
from_local (inl error) = configuration error
from_local (inr detail) = unclassified detail

-- What `validate` makes of approved data, and the errors of the other responses.
unfoldable pub result_of :
    {R T : Type 0}
    → (R → Result Text T)
    → Result RequestError (DeviceResponse (Decision R))
    → Result RequestError T
result_of validate (ok (answer (Decision.approved contents))) =
    map_err (λ error. unclassified (rejected_data error)) (validate contents)
result_of validate (ok (answer (Decision.denied reason text))) =
    err (RequestError.denied reason text)
result_of validate (ok (answer Decision.aborted)) = err (unclassified aborted_result)
result_of validate (ok (failure error)) = err (from_device error)
result_of validate (err error) = err error

unfoldable pub outcome_of : {T : Type 0} → Result RequestError T → Outcome
outcome_of (ok _) = Outcome.approved
outcome_of (err (RequestError.denied reason text)) = Outcome.denied reason text
outcome_of (err error) = Outcome.aborted invalid_response error

module _ {C X R T : Type 0} (primitives : Primitives C) (services : Services X)
    (protocol : Protocol R) (validate : R → Result Text T) where
  abbrev pub State : Type 0
  State = Exchange.Exchange C X

  abbrev pub Attempt : Type 0
  Attempt = Result RequestError T × State

  -- The handoff of the completion, after which the result is returned.
  unfoldable pub handed : Result RequestError T → Result Relay.Error Bool × State → Attempt
  handed result (err error, exchange) = (err (from_relay error), exchange)
  handed result (ok true, exchange) = (err interrupted, exchange)
  handed result (ok false, exchange) = (result, exchange)

  unfoldable pub finish : Result RequestError T → State → Attempt
  finish result exchange =
      continue (seal_outcome primitives services protocol (outcome_of result) exchange)
        λ completion after.
          handed result
            (with_services (services.complete_or_cancel completion after.services) after)

  unfoldable pub conclude : Result RequestError (DeviceResponse (Decision R)) → State → Attempt
  conclude (ok (failure error)) exchange =
      reject_device_error primitives services protocol error exchange
  conclude (ok (answer decision)) exchange =
      finish (result_of validate (ok (answer decision))) exchange
  conclude (err error) exchange = finish (result_of validate (err error)) exchange

  unfoldable pub decide : StoredPairing → Response → State → Attempt
  decide pairing response exchange =
      let (read, after) = read_response primitives services protocol pairing response exchange in
      conclude read after

  -- `tokio::select!` of the cancellation and the request
  unfoldable pub received : StoredPairing → Awaited (Result Relay.Error Response) → State → Attempt
  received pairing canceled exchange = cancel primitives services protocol exchange
  received pairing (finished (err error)) exchange =
      fail_relay primitives services protocol error exchange
  received pairing (finished (ok response)) exchange = decide pairing response exchange

  -- `seal_request`
  unfoldable pub sealed_request : StoredPairing → Bytes → Result RequestError (Request × Session C)
  sealed_request pairing request_id = do
    plaintext ← map_err (λ error. unclassified (json error)) protocol.encode_request
    session ← map_err crypto_error (new primitives pairing request_id)
    request ← map_err crypto_error (seal_request primitives plaintext session).0
    ok (request, (seal_request primitives plaintext session).1)

  unfoldable pub exchanged : StoredPairing → Request → State → Attempt
  exchanged pairing request exchange =
      let (awaited, after) = with_services (services.request request exchange.services) exchange in
      received pairing awaited after

  -- The result, the services after it, and the outcomes that were sealed for the device.
  abbrev pub ended : Attempt → Result RequestError T × X × List Outcome
  ended (result, exchange) = (result, exchange.services, exchange.completions)

  unfoldable pub connected :
      StoredPairing
      → Request × Session C
      → Result Relay.Error (Unit {0}) × X
      → Result RequestError T × X × List Outcome
  connected pairing sealed (err error, x) = (err (from_relay error), x, [])
  connected pairing (request, session) (ok _, x) =
      ended
        (exchanged pairing request (record { services = x; session = session; completions = [] }))

  unfoldable pub started :
      Bytes → Result ConfigurationError StoredPairing × X → Result RequestError T × X × List Outcome
  started request_id (err error, x) = (err (configuration error), x, [])
  started request_id (ok pairing, x) = elim (sealed_request pairing request_id) [
    | err error ↦ (err error, x, [])
    | ok sealed ↦ connected pairing sealed (services.prepare pairing x)
  ]

  unfoldable pub after_rotation :
      Bytes
      → Result (ConfigurationError ⊎ Detail) (Unit {0}) × X
      → Result RequestError T × X × List Outcome
  after_rotation request_id (err error, x) = (err (from_local error), x, [])
  after_rotation request_id (ok _, x) = started request_id (services.read_pairing x)

  unfoldable pub approval_exchange : Bytes → X → Result RequestError T × X × List Outcome
  approval_exchange request_id x = after_rotation request_id (services.maybe_rotate_psk x)
