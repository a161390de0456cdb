-- ===== src/Relay/Connection.antt =====
-- The connection to the relay, of src/websocket.rs: failures and retries, connecting, sending and
-- receiving.
use agentknock_cli.Prelude.{
  ℕ, zero, suc, ◌+◌, ◌-◌, Text, ◌==◌, nat_eq, Bool, true, false, ◌&&◌, ◌||◌, Option, none, some,
  Result, ok, err, ltb, leb, min, unwrap_or, codes,
}
use agentknock_cli.Relay.{
  MessageKind, OutgoingFrame, ack, resume, IncomingFrame, Cause, connection_timed_out, no_pong,
  stream_ended, transport, proxy_rejected, upgrade_refused, closed, retry_requested, Error,
  invalid_json, unexpected_status, proxy_refused, binary_frame, relay_rejected, client_inactive,
  retries_exhausted, RetryState, OutgoingMessage, ConnectionKind, client, RelayExchange, validate,
}

-- The outcome of an attempt to connect within the time for it.
pub data Attempt : Type 0 where
  connected timed_out : Attempt
  did_not_switch_protocols rejected : ℕ → Attempt
  errored : Text → Attempt

-- A message of a WebSocket, what the stream yields, and what is sent.
pub data Message : Type 0 where
  ping pong binary : Message
  close : ℕ → Text → Message
  text : Text → Message

pub data Yield : Type 0 where
  received : Message → Yield
  broken : Text → Yield
  ended : Yield

pub data Sent : Type 0 where
  sent_ping : Sent
  sent_text : Text → Sent

-- `matches!(kind, ConnectionKind::Client)`
unfoldable pub is_client : ConnectionKind → Bool
is_client client = true
is_client _ = false

-- The network and the clock, in what state they are. Sending fails with an error or not, and
-- waiting for the next message gives none where the time for it has passed.
pub record Network (W : Type 0) : Type 0 where
  pub connect : ℕ → W → Attempt × W
  pub send : Sent → W → Option Text × W
  pub next : ℕ → W → Option Yield × W
  pub now : W → ℕ × W
  pub sleep : ℕ → W → W

-- The crate serde_json: what it writes and reads, or its error.
pub record Json : Type 0 where
  pub encode : OutgoingFrame → Result Text Text
  pub decode : Text → Result Text IncomingFrame

pub record Machine (W : Type 0) : Type 0 where
  pub relay : RelayExchange
  pub retry : RetryState
  pub delivered : ℕ
  pub world : W

-- An error, the panic of an `expect`, or no more fuel.
pub data Stop : Type 0 where
  fails : Error → Stop
  panics unfinished : Stop

-- `sent |= sent`
abbrev pub mark_sent : Bool → Option OutgoingMessage → Option OutgoingMessage
mark_sent sent none = none
mark_sent sent (some message) = some (record message { sent = message.sent || sent })

module _ {W : Type 0} where
  unfoldable pub continue :
      {A B : Type 0}
      → Result Stop A × Machine W
      → (A → Machine W → Result Stop B × Machine W)
      → Result Stop B × Machine W
  continue (ok a, m) next = next a m
  continue (err e, m) next = (err e, m)

  -- The assignments to the fields.
  abbrev pub set_socket : Bool → Machine W → Machine W
  set_socket socket m = record m { relay = record m.relay { socket = socket } }

  abbrev pub set_request : Option OutgoingMessage → Machine W → Machine W
  set_request request m = record m { relay = record m.relay { request = request } }

  abbrev pub set_completion : Option OutgoingMessage → Machine W → Machine W
  set_completion completion m = record m { relay = record m.relay { completion = completion } }

  abbrev pub set_error : Cause → Machine W → Machine W
  set_error cause m = record m { retry = record m.retry { last_error = cause } }

  abbrev pub set_world : W → Machine W → Machine W
  set_world world m = record m { world = world }

  -- `RetryState::succeeded`
  unfoldable pub succeeded : Machine W → Machine W
  succeeded m = record m {
    retry = record m.retry { first_failure = none; failures = 0; last_error = Cause.no_failure };
  }

module _ {W : Type 0} (network : Network W) where
  abbrev pub Run : Type 0 → Type 0
  Run A = Machine W → Result Stop A × Machine W

  unfoldable pub now : Run ℕ
  now m = let (time, world) = network.now m.world in (ok time, set_world world m)

  -- `get_or_insert_with(Instant::now)`
  unfoldable pub first_failure : Option ℕ → Run ℕ
  first_failure (some time) m = (ok time, m)
  first_failure none m =
      let (time, world) = network.now m.world in
      (ok time, record m { retry = record m.retry { first_failure = some time }; world = world })

  abbrev count_failure : Machine W → Machine W
  count_failure m = record m { retry = record m.retry { failures = suc m.retry.failures } }

  -- `Instant::now() >= deadline`, with the return of the error.
  unfoldable pub check_deadline : ℕ → Run (Unit {0})
  check_deadline deadline m = continue (now m) λ time m1. elim (leb deadline time) [
    | true ↦ (err (fails (retries_exhausted m1.retry.failures m1.retry.last_error)), m1)
    | false ↦ (ok tt, m1)
  ]

  unfoldable pub check_failures : ℕ → Run (Unit {0})
  check_failures deadline m = elim (leb m.retry.policy.maximum_failures m.retry.failures) [
    | true ↦ (err (fails (retries_exhausted m.retry.failures m.retry.last_error)), m)
    | false ↦ check_deadline deadline m
  ]

  unfoldable pub sleep : ℕ → Run (Unit {0})
  sleep duration m = (ok tt, set_world (network.sleep duration m.world) m)

  -- `RetryState::failed`
  unfoldable pub failed : ℕ → Run (Unit {0})
  failed delay m = continue (first_failure m.retry.first_failure m) λ first m1.
      let deadline = first + m1.retry.policy.failure_timeout in
      continue (check_failures deadline (count_failure m1)) λ _ m2. continue (now m2) λ time m3.
        continue (sleep (min delay (deadline - time)) m3) λ _ m4. check_deadline deadline m4

  unfoldable pub failed_with : Cause → Run (Unit {0})
  failed_with cause m = failed m.retry.policy.retry_delay (set_error cause m)

  -- A failure after which the loop goes on.
  unfoldable pub try_again : Cause → Run Bool
  try_again cause m = continue (failed_with cause m) λ _ m1. (ok false, m1)

  -- The arms of `ensure_connected` for a status that is not the one of a switch of protocols.
  unfoldable pub status_refused : ℕ → ConnectionKind → Run Bool
  status_refused status kind m = elim (status == 403 && is_client kind) [
    | true ↦
        (err (fails (client_inactive status (codes "WebSocket setup returned HTTP status 403"))), m)
    | false ↦ elim (ltb status 500) [
      | true ↦ (err (fails (unexpected_status status)), m)
      | false ↦ try_again (upgrade_refused status) m
    ]
  ]

  -- The arms of `ensure_connected` on an attempt; whether there is a connection now.
  unfoldable pub attempted : Attempt → Run Bool
  attempted connected m = (ok true, set_socket true m)
  attempted (did_not_switch_protocols status) m = status_refused status m.relay.connection_kind m
  attempted (rejected status) m = elim (leb 500 status && ltb status 600) [
    | true ↦ try_again (proxy_rejected status) m
    | false ↦ (err (fails (proxy_refused status)), m)
  ]
  attempted (errored error) m = try_again (transport error) m
  attempted timed_out m = try_again connection_timed_out m

  -- The loop of `ensure_connected`.
  unfoldable pub connect_loop : ℕ → Run (Unit {0})
  connect_loop zero m = (err unfinished, m)
  connect_loop (suc fuel) m =
      let (attempt, world) = network.connect m.retry.policy.connection_timeout m.world in
      continue (attempted attempt (set_world world m))
        λ settled m1. elim settled [ true ↦ (ok tt, m1) | false ↦ connect_loop fuel m1 ]

  unfoldable pub ensure_connected : ℕ → Run Bool
  ensure_connected fuel m = elim m.relay.socket [
    | true ↦ (ok false, m)
    | false ↦ continue (connect_loop fuel m) λ _ m1. (ok true, m1)
  ]

  -- `disconnect`: its result is none.
  unfoldable pub disconnect : {A : Type 0} → Cause → Run (Option A)
  disconnect cause m = continue (failed_with cause (set_socket false m)) λ _ m1. (ok none, m1)

  -- `send_text` on a socket that there is.
  unfoldable pub send_result : Option Text → Run Bool
  send_result none m = (ok true, m)
  send_result (some error) m = try_again (transport error) (set_socket false m)

  unfoldable pub send_text : Text → Run Bool
  send_text encoded m = elim m.relay.socket [
    | true ↦
        let (result, world) = network.send (sent_text encoded) m.world in
        send_result result (set_world world m)
    | false ↦ (err panics, m)
  ]

  -- `request_message` and `completion`, with what is sent of them.
  unfoldable pub send_message : Option OutgoingMessage → Run Bool
  send_message none m = (err panics, m)
  send_message (some message) m = send_text message.encoded m

  unfoldable pub send_request : Run Bool
  send_request m =
      continue (send_message m.relay.request m)
        λ sent m1. (ok sent, set_request (mark_sent sent m1.relay.request) m1)

  unfoldable pub send_completion : Run Bool
  send_completion m =
      continue (send_message m.relay.completion m)
        λ sent m1. (ok sent, set_completion (mark_sent sent m1.relay.completion) m1)

  module _ (json : Json) where
    unfoldable pub send_frame : Result Text Text → Run Bool
    send_frame (err error) m = (err (fails (invalid_json error)), m)
    send_frame (ok encoded) m = send_text encoded m

    unfoldable pub send_resume : Run Bool
    send_resume m = send_frame (json.encode (resume m.relay.client_id m.relay.request_id)) m

    unfoldable pub send_ack : MessageKind → Run Bool
    send_ack kind m = send_frame (json.encode (ack m.relay.client_id m.relay.request_id kind)) m

    -- The arms of `receive` on a valid frame.
    unfoldable pub received_frame : IncomingFrame → Run (Option IncomingFrame)
    received_frame (IncomingFrame.error _ _ code message false _) m =
        (err (fails (relay_rejected code message)), m)
    received_frame (IncomingFrame.error _ _ code message true retry_after_ms) m =
        continue
          (failed (unwrap_or 1000 retry_after_ms)
            (set_error (retry_requested code message) (set_socket false m)))
          λ _ m1. (ok none, m1)
    received_frame (IncomingFrame.inactive _ _ kind) m = (err (fails (Error.inactive kind)), m)
    received_frame incoming m = (ok (some incoming), succeeded m)

    unfoldable pub checked_frame : Result Error IncomingFrame → Run (Option IncomingFrame)
    checked_frame (err error) m = (err (fails error), m)
    checked_frame (ok incoming) m = received_frame incoming m

    unfoldable pub decoded_frame : Result Text IncomingFrame → Run (Option IncomingFrame)
    decoded_frame (err error) m = (err (fails (invalid_json error)), m)
    decoded_frame (ok incoming) m = checked_frame (validate m.relay incoming) m

    -- The result of a function that `receive` returns; none is the next turn of its loop.
    abbrev pub returned :
        {A : Type 0} → Result Stop A × Machine W → Result Stop (Option A) × Machine W
    returned result = continue result λ a m. (ok (some a), m)

    -- The arms of `receive` on what the stream yields.
    unfoldable pub handled : Yield → Run (Option (Option IncomingFrame))
    handled ended m = returned (disconnect stream_ended m)
    handled (broken error) m = returned (disconnect (transport error) m)
    handled (received (close code reason)) m = elim (code == 4002 || code == 4003) [
      | true ↦ (err (fails (client_inactive code reason)), set_socket false m)
      | false ↦ returned (disconnect (closed code reason) m)
    ]
    handled (received ping) m = (ok none, succeeded m)
    handled (received pong) m = (ok none, succeeded m)
    handled (received binary) m = (err (fails binary_frame), m)
    handled (received (text contents)) m = returned (decoded_frame (json.decode contents) m)

    -- What follows a ping; none where `receive` disconnects.
    unfoldable pub await_pong : Option Yield → Run (Option Yield)
    await_pong none m = disconnect no_pong m
    await_pong (some yield) m = (ok (some yield), m)

    unfoldable pub pinged : Option Text → Run (Option Yield)
    pinged (some error) m = disconnect (transport error) m
    pinged none m =
        let (yield, world) = network.next 10000 m.world in await_pong yield (set_world world m)

    unfoldable pub await_next : Option Yield → Run (Option Yield)
    await_next (some yield) m = (ok (some yield), m)
    await_next none m =
        let (result, world) = network.send sent_ping m.world in pinged result (set_world world m)

    unfoldable pub await_yield : Run (Option Yield)
    await_yield m = elim m.relay.socket [
      | true ↦
          let (yield, world) = network.next 30000 m.world in await_next yield (set_world world m)
      | false ↦ (err panics, m)
    ]

    unfoldable pub receive : ℕ → Run (Option IncomingFrame)
    receive zero m = (err unfinished, m)
    receive (suc fuel) m = continue (await_yield m) λ yield m1. elim yield [
      | none ↦ (ok none, m1)
      | some y ↦
          continue (handled y m1)
            λ result m2. elim result [ none ↦ receive fuel m2 | some incoming ↦ (ok incoming, m2) ]
    ]
