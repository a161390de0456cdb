-- ===== src/Relay.antt =====
-- The exchange of messages with the relay, of src/websocket.rs: the frames, the state of an
-- exchange, and the computations that change it.
pub mod Connection
pub mod Exchange
pub mod Triples
pub mod Kept
pub mod Receives
pub mod Ordered
pub mod Returns
pub mod Messages
pub mod HandsOff
pub mod Completes
pub mod Ends
use agentknock_cli.Prelude.{
  ℕ, ◌*◌, Text, ◌==◌, text_eq, Bool, true, false, not, ◌&&◌, ◌||◌, Option, none, some, List, [],
  ◌∷◌, Result, ok, err, ltb, leb, length, all, any, is_nil, nat_eq, codes,
}

pub data MessageKind : Type 0 where
  request response completion : MessageKind

pub data ExchangeState : Type 0 where
  opened closing settled expired : ExchangeState

pub data MessageState : Type 0 where
  absent accepted delivered discarded : MessageState

-- A JSON value is its text.
pub data OutgoingFrame : Type 0 where
  message : Text → Text → MessageKind → Text → OutgoingFrame
  ack : Text → Text → MessageKind → OutgoingFrame
  resume : Text → Text → OutgoingFrame

-- Each with its client and its request.
pub data IncomingFrame : Type 0 where
  ack receipt : Text → Text → MessageKind → IncomingFrame
  message : Text → Text → MessageKind → Text → IncomingFrame
  state : Text → Text → ExchangeState → MessageState → MessageState → MessageState → IncomingFrame
  inactive : Text → Text → Option MessageKind → IncomingFrame
  error : Option Text → Option Text → Text → Text → Bool → Option ℕ → IncomingFrame

unfoldable pub frame_client_id : IncomingFrame → Option Text
frame_client_id (IncomingFrame.ack client_id _ _) = some client_id
frame_client_id (receipt client_id _ _) = some client_id
frame_client_id (IncomingFrame.message client_id _ _ _) = some client_id
frame_client_id (state client_id _ _ _ _ _) = some client_id
frame_client_id (inactive client_id _ _) = some client_id
frame_client_id (error client_id _ _ _ _ _) = client_id

unfoldable pub frame_request_id : IncomingFrame → Option Text
frame_request_id (IncomingFrame.ack _ request_id _) = some request_id
frame_request_id (receipt _ request_id _) = some request_id
frame_request_id (IncomingFrame.message _ request_id _ _) = some request_id
frame_request_id (state _ request_id _ _ _ _) = some request_id
frame_request_id (inactive _ request_id _) = some request_id
frame_request_id (error _ request_id _ _ _ _) = request_id

-- What `last_error` describes.
pub data Cause : Type 0 where
  no_failure connection_timed_out no_pong stream_ended : Cause
  transport : Text → Cause
  proxy_rejected upgrade_refused : ℕ → Cause
  closed : ℕ → Text → Cause
  retry_requested : Text → Text → Cause

pub data Error : Type 0 where
  invalid_json : Text → Error
  unexpected_status proxy_refused frame_too_large : ℕ → Error
  already_started no_request wrong_client_id wrong_request_id binary_frame : Error
  missing_response completion_timed_out : Error
  unauthenticated relay_rejected : Text → Text → Error
  inactive : Option MessageKind → Error
  client_inactive : ℕ → Text → Error
  retries_exhausted : ℕ → Cause → Error

-- Durations are in milliseconds.
pub record RetryPolicy : Type 0 where
  pub connection_timeout : ℕ
  pub retry_delay : ℕ
  pub failure_timeout : ℕ
  pub maximum_failures : ℕ

abbrev pub normal_retry_policy : RetryPolicy
normal_retry_policy = record {
  connection_timeout = 15000;
  retry_delay = 1000;
  failure_timeout = 120000;
  maximum_failures = 10;
}

abbrev pub brief_retry_policy : RetryPolicy
brief_retry_policy = record {
  connection_timeout = 2000;
  retry_delay = 250;
  failure_timeout = 5000;
  maximum_failures = 2;
}

abbrev pub maximum_frame_size : ℕ
maximum_frame_size = 256 * 1024

pub record RetryState : Type 0 where
  pub policy : RetryPolicy
  pub first_failure : Option ℕ
  pub failures : ℕ
  pub last_error : Cause

-- `RetryState::new`
abbrev pub new_retry : RetryPolicy → RetryState
new_retry policy = record {
  policy = policy;
  first_failure = none;
  failures = 0;
  last_error = no_failure;
}

pub record OutgoingMessage : Type 0 where
  pub encoded : Text
  pub sent : Bool
  pub acknowledged : Bool

pub data ConnectionKind : Type 0 where
  pairing client : ConnectionKind

-- Less what the connection is made with. `socket` says whether there is one.
pub record RelayExchange : Type 0 where
  pub connection_kind : ConnectionKind
  pub client_id : Text
  pub request_id : Text
  pub socket : Bool
  pub request : Option OutgoingMessage
  pub completion : Option OutgoingMessage

-- `OutgoingMessage::new`
unfoldable pub new_message : Text → Result Error OutgoingMessage
new_message encoded = elim (ltb maximum_frame_size (length encoded)) [
  | true ↦ err (frame_too_large (length encoded))
  | false ↦ ok (record { encoded = encoded; sent = false; acknowledged = false })
]

-- `if let Some(id) = ... && id != expected`
unfoldable pub differs : Text → Option Text → Bool
differs expected none = false
differs expected (some found) = not (found == expected)

unfoldable pub validate : RelayExchange → IncomingFrame → Result Error IncomingFrame
validate relay incoming = elim (differs relay.client_id (frame_client_id incoming)) [
  | true ↦ err wrong_client_id
  | false ↦ elim (differs relay.request_id (frame_request_id incoming)) [
    | true ↦ err wrong_request_id
    | false ↦ ok incoming
  ]
]
