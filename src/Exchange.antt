-- ===== src/Exchange.antt =====
-- The exchange of a request that the device approves or denies, of src/exchange.rs, with the
-- messages of src/protocol.rs and the errors of src/error.rs. The relay, the pairing file and the
-- cancellation are an interface, which `Relay` and `Config` model.
pub mod Approval
pub mod Consistent
pub mod Agrees
pub mod Told
use agentknock_cli.Prelude.{
  ℕ, Text, ◌==◌, text_eq, codes, Bool, true, false, ◌&&◌, Option, none, some, List, [], ◌∷◌, Result,
  ok, err, ◌⊎◌, inl, inr, map_err, ltb, leb, is_some,
}
use agentknock_cli.SshAgent.Wire.{Bytes}
use agentknock_cli.Config.Reads.{Document, StoredPairing, ConfigurationError, field}
use agentknock_cli.Session
use agentknock_cli.Relay
use agentknock_cli.Relay.{retries_exhausted, relay_rejected, unexpected_status}
use agentknock_cli.Session.{
  Primitives, Session, Request, Response, Completion, new, seal_request, seal_completion,
  open_response,
}

pub data DenialReason : Type 0 where
  user_denied policy_denied invalid_request unspecified : DenialReason

pub data AbortReason : Type 0 where
  cancelled timed_out invalid_response client_error unspecified : AbortReason

-- What an error of no public category is about.
pub data Detail : Type 0 where
  cryptography : Session.Error → Detail
  relay : Relay.Error → Detail
  json rejected_data clock : Text → Detail
  aborted_result invalid_address : Detail

pub data RequestError : Type 0 where
  configuration : ConfigurationError → RequestError
  relay_unavailable : ℕ → RequestError
  unauthenticated : Text → Text → RequestError
  client_inactive : Text → RequestError
  device_rejected : Text → Text → RequestError
  unclassified : Detail → RequestError
  denied : DenialReason → Text → RequestError
  pairing_rejected interrupted : RequestError

pub record DeviceError : Type 0 where
  pub code : Text
  pub message : Text

pub data DeviceResponse (T : Type 0) : Type 0 where
  answer : T → DeviceResponse T
  failure : DeviceError → DeviceResponse T

pub data Decision (R : Type 0) : Type 0 where
  approved : R → Decision R
  denied : DenialReason → Text → Decision R
  aborted : Decision R

-- The message of an abort is the text of its error.
pub data Outcome : Type 0 where
  approved : Outcome
  denied : DenialReason → Text → Outcome
  aborted : AbortReason → RequestError → Outcome

-- `From<websocket::Error>`
unfoldable pub from_relay : Relay.Error → RequestError
from_relay (retries_exhausted failures _) = relay_unavailable failures
from_relay (Relay.Error.unauthenticated code text) = unauthenticated code text
from_relay (relay_rejected code text) = elim (code == codes "CLIENT_INACTIVE") [
  | true ↦ client_inactive text
  | false ↦ unclassified (relay (relay_rejected code text))
]
from_relay (Relay.Error.client_inactive _ reason) = client_inactive reason
from_relay error = unclassified (relay error)

unfoldable pub abort_reason : Relay.Error → AbortReason
abort_reason (retries_exhausted _ _) = timed_out
abort_reason (unexpected_status status) = elim (leb 400 status && ltb status 500) [
  | true ↦ client_error
  | false ↦ invalid_response
]
abort_reason _ = invalid_response

-- `From<DeviceError>`
unfoldable pub from_device : DeviceError → RequestError
from_device error = device_rejected error.code error.message

abbrev pub crypto_error : Session.Error → RequestError
crypto_error error = unclassified (cryptography error)

-- serde_json: the encoding of an outcome and of the request, the reading of a response, and of what
-- it holds.
pub record Protocol (R : Type 0) : Type 0 where
  pub encode_request : Result Text Bytes
  pub encode_outcome : Outcome → Result Text Bytes
  pub parse : Bytes → Result Text Document
  pub decode_error : Document → Result Text DeviceError
  pub decode_decision : Document → Result Text (Decision R)

-- `decode_response` of src/protocol.rs
unfoldable pub decode_value :
    {R : Type 0} → Protocol R → Document → Result RequestError (DeviceResponse (Decision R))
decode_value protocol document = elim (is_some (field (codes "error") document)) [
  | true ↦ elim (protocol.decode_error document) [
    | err error ↦ err (unclassified (json error))
    | ok error ↦ ok (failure error)
  ]
  | false ↦ elim (protocol.decode_decision document) [
    | err error ↦ err (unclassified (json error))
    | ok decision ↦ ok (answer decision)
  ]
]

unfoldable pub decode_response :
    {R : Type 0} → Protocol R → Bytes → Result RequestError (DeviceResponse (Decision R))
decode_response protocol plaintext = elim (protocol.parse plaintext) [
  | err error ↦ err (unclassified (json error))
  | ok document ↦ decode_value protocol document
]

-- What is awaited together with the cancellation.
pub data Awaited (A : Type 0) : Type 0 where
  canceled : Awaited A
  finished : A → Awaited A

-- The pairing file and the relay exchange, in what state they are; `brief_or_cancel` is a brief
-- handoff unless the cancellation comes first, and `complete_or_cancel` gives whether it came.
pub record Services (X : Type 0) : Type 0 where
  pub maybe_rotate_psk : X → Result (ConfigurationError ⊎ Detail) (Unit {0}) × X
  pub read_pairing : X → Result ConfigurationError StoredPairing × X
  pub clear_rotation_key : Text → X → Result ConfigurationError (Unit {0}) × X
  pub prepare : StoredPairing → X → Result Relay.Error (Unit {0}) × X
  pub request : Request → X → Awaited (Result Relay.Error Response) × X
  pub request_was_sent : X → Bool
  pub complete_briefly : Completion → X → X
  pub brief_or_cancel : Completion → X → Awaited (Unit {0}) × X
  pub complete_or_cancel : Completion → X → Result Relay.Error Bool × X

-- The services, the session, and the outcomes whose completions were sealed, the last one first.
pub record Exchange (C X : Type 0) : Type 0 where
  pub services : X
  pub session : Session C
  pub completions : List Outcome

module _ {C X : Type 0} where
  unfoldable pub continue :
      {A B : Type 0}
      → Result RequestError A × Exchange C X
      → (A → Exchange C X → Result RequestError B × Exchange C X)
      → Result RequestError B × Exchange C X
  continue (ok a, exchange) next = next a exchange
  continue (err e, exchange) next = (err e, exchange)

  abbrev pub with_services : {A : Type 0} → A × X → Exchange C X → A × Exchange C X
  with_services (a, services) exchange = (a, record exchange { services = services })

  -- The completion that a session sealed.
  unfoldable pub record_completion :
      Outcome
      → Result Session.Error Completion × Session C
      → Exchange C X
      → Result Session.Error Completion × Exchange C X
  record_completion outcome (ok completion, session) exchange = (
    ok completion,
    record exchange { session = session; completions = outcome ∷ exchange.completions },
  )
  record_completion outcome (err error, session) exchange =
      (err error, record exchange { session = session })

module _ {C X R : Type 0} (primitives : Primitives C) (services : Services X)
    (protocol : Protocol R) where
  abbrev Run : Type 0 → Type 0
  Run A = Exchange C X → Result RequestError A × Exchange C X

  -- An outcome that is encoded and sealed, and `seal_aborted`, which drops the error.
  unfoldable pub seal_outcome : Outcome → Run Completion
  seal_outcome outcome exchange = elim (protocol.encode_outcome outcome) [
    | err error ↦ (err (unclassified (json error)), exchange)
    | ok plaintext ↦
        let (result, after) =
          record_completion outcome (seal_completion primitives plaintext exchange.session)
            exchange in
        (map_err crypto_error result, after)
  ]

  unfoldable pub seal_aborted :
      AbortReason → RequestError → Exchange C X → Option Completion × Exchange C X
  seal_aborted reason error exchange =
      let (result, after) = seal_outcome (aborted reason error) exchange in
      (elim result [ ok completion ↦ some completion | err _ ↦ none ], after)

  -- `let _ = relay.complete_briefly(...)` on what may have been sealed
  unfoldable pub complete_briefly : Option Completion → Exchange C X → Exchange C X
  complete_briefly none exchange = exchange
  complete_briefly (some completion) exchange = record exchange {
    services = services.complete_briefly completion exchange.services;
  }

  unfoldable pub abort : AbortReason → RequestError → Exchange C X → Exchange C X
  abort reason error exchange =
      let (completion, after) = seal_aborted reason error exchange in
      complete_briefly completion after

  unfoldable pub reject_device_error : {A : Type 0} → DeviceError → Run A
  reject_device_error error exchange =
      (err (from_device error), abort client_error (from_device error) exchange)

  -- The cancellation comes while the request is with the relay.
  unfoldable pub cancel : {A : Type 0} → Run A
  cancel exchange = elim (services.request_was_sent exchange.services) [
    | true ↦ (err interrupted, abort cancelled interrupted exchange)
    | false ↦ (err interrupted, exchange)
  ]

  -- The brief handoff after the relay failed.
  unfoldable pub brief_handoff : {A : Type 0} → RequestError → Option Completion → Run A
  brief_handoff error none exchange = (err error, exchange)
  brief_handoff error (some completion) exchange =
      let (awaited, after) =
        with_services (services.brief_or_cancel completion exchange.services) exchange in
      elim awaited [
        | canceled ↦ (err interrupted, complete_briefly (some completion) after)
        | finished _ ↦ (err error, after)
      ]

  unfoldable pub fail_relay : {A : Type 0} → Relay.Error → Run A
  fail_relay error exchange =
      let (completion, after) = seal_aborted (abort_reason error) (from_relay error) exchange in
      brief_handoff (from_relay error) completion after

  -- `if let Some(rotation_key)`
  unfoldable pub clear_key : Option Text → Run (Unit {0})
  clear_key none exchange = (ok tt, exchange)
  clear_key (some key) exchange =
      let (result, after) =
        with_services (services.clear_rotation_key key exchange.services) exchange in
      (map_err configuration result, after)

  -- The response is opened before the key is cleared and before it is decoded.
  unfoldable pub read_response : StoredPairing → Response → Run (DeviceResponse (Decision R))
  read_response pairing response exchange =
      elim (open_response primitives response exchange.session) [
        | err error ↦ (err (crypto_error error), exchange)
        | ok plaintext ↦
            continue (clear_key pairing.rotation_key exchange)
              λ _ after. (decode_response protocol plaintext, after)
      ]
