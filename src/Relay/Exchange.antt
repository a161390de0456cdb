-- ===== src/Relay/Exchange.antt =====
-- The two operations of `RelayExchange` of src/websocket.rs: the request and the completion.
use agentknock_cli.Prelude.{
  ℕ, zero, suc, Text, Bool, true, false, not, ◌||◌, Option, none, some, Result, ok, err, is_some,
}
use agentknock_cli.Relay.{
  MessageKind, OutgoingFrame, IncomingFrame, ack, receipt, state, ExchangeState, opened, closing,
  settled, expired, MessageState, absent, accepted, delivered, discarded, Error, invalid_json,
  already_started, no_request, missing_response, unauthenticated, RetryPolicy, normal_retry_policy,
  new_retry, OutgoingMessage, RelayExchange, new_message,
}
use agentknock_cli.Relay.Connection.{
  Network, Json, Machine, Stop, fails, panics, unfinished, continue, set_request, set_completion,
  Run, ensure_connected, send_request, send_completion, send_resume, send_ack, receive,
}

-- `ApplicationResponse`
pub data ApplicationResponse (R : Type 0) : Type 0 where
  reply : R → ApplicationResponse R
  unauthenticated_error : Text → Text → ApplicationResponse R

-- The next turn of the loop of `request`, with the response so far, or its return.
pub data Turn : Type 0 where
  go_on : Option Text → Turn
  returns : Option Text → Turn

-- `self.request_mut().acknowledged = true`
abbrev pub acknowledged_message : OutgoingMessage → OutgoingMessage
acknowledged_message message = record message { acknowledged = true }

module _ {W : Type 0} where
  unfoldable pub acknowledge :
      Option OutgoingMessage → Machine W → Result Stop (Unit {0}) × Machine W
  acknowledge none m = (err panics, m)
  acknowledge (some message) m = (ok tt, set_request (some (acknowledged_message message)) m)

  -- The callback `delivered`, whose calls are counted.
  abbrev pub call_delivered : Machine W → Machine W
  call_delivered m = record m { delivered = suc m.delivered }

  unfoldable pub is_acknowledged : Option OutgoingMessage → Machine W → Result Stop Bool × Machine W
  is_acknowledged none m = (err panics, m)
  is_acknowledged (some message) m = (ok message.acknowledged, m)

  unfoldable pub was_sent : Option OutgoingMessage → Machine W → Result Stop Bool × Machine W
  was_sent none m = (err panics, m)
  was_sent (some message) m = (ok message.sent, m)

  unfoldable pub apply_request_state : MessageState → Machine W → Result Stop (Unit {0}) × Machine W
  apply_request_state accepted m = acknowledge m.relay.request m
  apply_request_state MessageState.delivered m =
      continue (acknowledge m.relay.request m) λ _ m1. (ok tt, call_delivered m1)
  apply_request_state absent m = (ok tt, m)
  apply_request_state discarded m = (ok tt, m)

-- `request_was_sent`
unfoldable pub request_was_sent : RelayExchange → Bool
request_was_sent relay = elim relay.request [ none ↦ false | some message ↦ message.sent ]

module _ {R : Type 0} (decode_reply : Text → Result Text (ApplicationResponse R)) where
  unfoldable pub decoded_reply : Result Text (ApplicationResponse R) → Result Error R
  decoded_reply (err error) = err (invalid_json error)
  decoded_reply (ok (reply contents)) = ok contents
  decoded_reply (ok (unauthenticated_error code text)) = err (unauthenticated code text)

  unfoldable pub decode_response : Option Text → Result Error R
  decode_response none = err missing_response
  decode_response (some text) = decoded_reply (decode_reply text)

-- `matches!(exchange, ExchangeState::Settled | ExchangeState::Expired)`
unfoldable pub has_ended : ExchangeState → Bool
has_ended opened = false
has_ended closing = false
has_ended settled = true
has_ended expired = true

unfoldable pub is_delivered : MessageState → Bool
is_delivered absent = false
is_delivered accepted = false
is_delivered delivered = true
is_delivered discarded = false

-- `get_or_insert`
abbrev pub get_or_insert : Text → Option Text → Option Text
get_or_insert payload none = some payload
get_or_insert payload (some text) = some text

-- `RelayExchange::message` and `OutgoingMessage::new`
unfoldable pub outgoing : Json → MessageKind → Text → RelayExchange → Result Error OutgoingMessage
outgoing json kind payload relay =
    elim (json.encode (OutgoingFrame.message relay.client_id relay.request_id kind payload)) [
      | err error ↦ err (invalid_json error)
      | ok encoded ↦ new_message encoded
    ]

module _ {W : Type 0} (network : Network W) (json : Json) where
  unfoldable pub resend : Bool → Run network Bool
  resend true m = send_resume network json m
  resend false m = send_request network m

  unfoldable pub reconnect : Run network (Option Bool)
  reconnect m = continue (is_acknowledged m.relay.request m) λ acknowledged m1.
      continue (resend acknowledged m1)
        λ sent m2. elim sent [ true ↦ (ok (some true), m2) | false ↦ (ok none, m2) ]

  unfoldable pub connect : ℕ → Run network (Option Bool)
  connect fuel m =
      continue (ensure_connected network fuel m)
        λ reconnected m1. elim reconnected [ false ↦ (ok (some false), m1) | true ↦ reconnect m1 ]

  -- The arms of `request` on a frame.
  unfoldable pub answered : Option Text → IncomingFrame → Run network Turn
  answered response (ack _ _ MessageKind.request) m =
      continue (acknowledge m.relay.request m) λ _ m1. (ok (go_on response), m1)
  answered response (receipt _ _ MessageKind.request) m =
      continue (acknowledge m.relay.request m) λ _ m1. (ok (go_on response), call_delivered m1)
  answered response (IncomingFrame.message _ _ MessageKind.response payload) m =
      continue (acknowledge m.relay.request m) λ _ m1.
        let kept = get_or_insert payload response in
        continue (send_ack network json MessageKind.response (call_delivered m1))
          λ sent m2. elim sent [ true ↦ (ok (returns kept), m2) | false ↦ (ok (go_on kept), m2) ]
  answered response (state _ _ exchange request response_state _) m =
      continue (apply_request_state request m) λ _ m1. elim (is_delivered response_state) [
        | true ↦ (ok (returns response), m1)
        | false ↦ elim (has_ended exchange) [
          | true ↦ (err (fails missing_response), m1)
          | false ↦ (ok (go_on response), m1)
        ]
      ]
  answered response incoming m = (ok (go_on response), m)

  -- A turn of the loop of `request`.
  unfoldable pub request_turn : ℕ → Option Text → Run network Turn
  request_turn fuel response m = continue (connect fuel m) λ connected m1. elim connected [
    | none ↦ (ok (go_on response), m1)
    | some _ ↦ continue (receive network json fuel m1) λ incoming m2. elim incoming [
      | none ↦ (ok (go_on response), m2)
      | some frame ↦ answered response frame m2
    ]
  ]

  unfoldable pub request_loop : ℕ → Option Text → Run network (Option Text)
  request_loop zero response m = (err unfinished, m)
  request_loop (suc fuel) response m =
      continue (request_turn (suc fuel) response m) λ turn m1. elim turn [
        | go_on kept ↦ request_loop fuel kept m1
        | returns kept ↦ (ok kept, m1)
      ]

  abbrev pub with_policy : RetryPolicy → Machine W → Machine W
  with_policy policy m = record m { retry = new_retry policy }

  unfoldable pub request_exchange : ℕ → Text → Run network (Option Text)
  request_exchange fuel payload m = elim (is_some m.relay.request) [
    | true ↦ (err (fails already_started), m)
    | false ↦ elim (outgoing json MessageKind.request payload m.relay) [
      | err error ↦ (err (fails error), m)
      | ok outgoing_message ↦
          request_loop fuel none
            (with_policy normal_retry_policy (set_request (some outgoing_message) m))
    ]
  ]

  -- The arms of `complete_with_policy` on a frame while the request isn't acknowledged.
  unfoldable pub acknowledged_by : IncomingFrame → Run network (Unit {0})
  acknowledged_by (ack _ _ MessageKind.request) m = acknowledge m.relay.request m
  acknowledged_by (receipt _ _ MessageKind.request) m = acknowledge m.relay.request m
  acknowledged_by (IncomingFrame.message _ _ MessageKind.response _) m =
      continue (acknowledge m.relay.request m)
        λ _ m1. continue (send_ack network json MessageKind.response m1) λ _ m2. (ok tt, m2)
  acknowledged_by incoming m = (ok tt, m)

  -- Whether the relay has the completion.
  unfoldable pub is_handed_off : MessageState → Bool
  is_handed_off absent = false
  is_handed_off accepted = true
  is_handed_off delivered = true
  is_handed_off discarded = true

  unfoldable pub handed_off_by : IncomingFrame → Run network Bool
  handed_off_by (ack _ _ MessageKind.completion) m = (ok true, m)
  handed_off_by (IncomingFrame.message _ _ MessageKind.response _) m =
      continue (send_ack network json MessageKind.response m) λ _ m1. (ok false, m1)
  handed_off_by (state _ _ _ _ _ completion) m = (ok (is_handed_off completion), m)
  handed_off_by incoming m = (ok false, m)

  unfoldable pub await_acknowledgement : ℕ → Run network Bool
  await_acknowledgement fuel m = continue (receive network json fuel m) λ incoming m1.
      elim incoming [
        | none ↦ (ok false, m1)
        | some frame ↦ continue (acknowledged_by frame m1) λ _ m2. (ok false, m2)
      ]

  unfoldable pub await_handoff : ℕ → Run network Bool
  await_handoff fuel m =
      continue (receive network json fuel m)
        λ incoming m1. elim incoming [ none ↦ (ok false, m1) | some frame ↦ handed_off_by frame m1 ]

  unfoldable pub hand_off : ℕ → Bool → Run network Bool
  hand_off fuel reconnected m = continue (was_sent m.relay.completion m) λ sent m1.
      elim (reconnected || not sent) [
        | true ↦
            continue (send_completion network m1)
              λ sent_now m2. elim sent_now [ true ↦ await_handoff fuel m2 | false ↦ (ok false, m2) ]
        | false ↦ await_handoff fuel m1
      ]

  -- A turn of the loop of `complete_with_policy`.
  unfoldable pub complete_turn : ℕ → Run network Bool
  complete_turn fuel m = continue (connect fuel m) λ connected m1. elim connected [
    | none ↦ (ok false, m1)
    | some reconnected ↦ continue (is_acknowledged m1.relay.request m1) λ acknowledged m2.
        elim acknowledged [
          | true ↦ hand_off fuel reconnected m2
          | false ↦ await_acknowledgement fuel m2
        ]
  ]

  unfoldable pub complete_loop : ℕ → Run network (Unit {0})
  complete_loop zero m = (err unfinished, m)
  complete_loop (suc fuel) m =
      continue (complete_turn (suc fuel) m)
        λ done m1. elim done [ true ↦ (ok tt, m1) | false ↦ complete_loop fuel m1 ]

  unfoldable pub complete_stored : ℕ → RetryPolicy → Option OutgoingMessage → Run network (Unit {0})
  complete_stored fuel policy completion m =
      complete_loop fuel (with_policy policy (set_completion completion m))

  unfoldable pub prepared :
      Text → Option OutgoingMessage → RelayExchange → Result Error OutgoingMessage
  prepared payload none relay = outgoing json MessageKind.completion payload relay
  prepared payload (some kept) relay = ok kept

  unfoldable pub complete_with_policy : ℕ → Text → RetryPolicy → Run network (Unit {0})
  complete_with_policy fuel payload policy m = elim (is_some m.relay.request) [
    | false ↦ (err (fails no_request), m)
    | true ↦ elim (prepared payload m.relay.completion m.relay) [
      | err error ↦ (err (fails error), m)
      | ok outgoing_message ↦ complete_stored fuel policy (some outgoing_message) m
    ]
  ]

  unfoldable pub complete : ℕ → Text → Run network (Unit {0})
  complete fuel payload m = complete_with_policy fuel payload normal_retry_policy m

-- `request`, which decodes the response that its loop returns.
module _ {W R : Type 0} (network : Network W) (json : Json)
    (decode_reply : Text → Result Text (ApplicationResponse R)) where
  unfoldable pub as_result : Result Error R → Run network R
  as_result (ok contents) m = (ok contents, m)
  as_result (err error) m = (err (fails error), m)

  unfoldable pub request : ℕ → Text → Run network R
  request fuel payload m =
      continue (request_exchange network json fuel payload m)
        λ response m1. as_result (decode_response decode_reply response) m1
