-- ===== src/Relay/Returns.antt =====
-- The loop of `request` of src/websocket.rs ends, and what it leaves.
use agentknock_cli.Prelude.{
  ℕ, zero, suc, ◌*◌, ◌<◌, ◌≡◌, refl, subst, Text, true, false, ltb, length, Option, none, some,
  Result, ok, err, arith, is_some,
}
use agentknock_cli.Relay.{
  MessageKind, OutgoingFrame, IncomingFrame, ack, receipt, state, MessageState, absent, accepted,
  discarded, Error, invalid_json, frame_too_large, RelayExchange, OutgoingMessage,
  maximum_frame_size, new_message,
}
use agentknock_cli.Relay.Connection.{Network, Json, Machine, Stop}
use agentknock_cli.Relay.Exchange.{
  ApplicationResponse, reply, unauthenticated_error, go_on, returns, acknowledge, call_delivered,
  apply_request_state, decoded_reply, decode_response, has_ended, is_delivered, outgoing, answered,
  request_turn, request_loop, request_exchange, as_result, request,
}
use agentknock_cli.Relay.Triples.{
  IsFinite, Post, Post-ok, Post-err, Post-continue, Post-branch, Post-weaken, Post-map, Post-result,
  Invariant, Bounds,
}
use agentknock_cli.Relay.Kept.{Kept, Lost, no_fuel}
use agentknock_cli.Relay.Receives.{receive-Post}
use agentknock_cli.Relay.Ordered.{IsOrdered, IsClosed, acknowledge-Post, connect-Post, acks-Post}

module _ {W : Type 0} (network : Network W) (remaining : W → ℕ)
    (finite : IsFinite network remaining) (maximum : ℕ) (I : Invariant) (closed : IsClosed I)
    (json : Json) where
  abbrev Holding : ℕ → Machine W → Type 0
  Holding = Kept network remaining finite maximum I

  abbrev Failing : Error → Machine W → Type 0
  Failing = Lost network remaining finite maximum I

  acknowledged-Post :
      (n : ℕ) (m : Machine W)
      → Holding n m
      → m.relay.socket ≡ true
      → Post
          (λ _ m1. Holding n m1 × (m1.relay.socket ≡ true))
          Failing
          (acknowledge m.relay.request m)
  acknowledged-Post n m h socket =
      acknowledge-Post network remaining finite maximum I closed json n m.relay.request m refl h
        socket

  apply_request_state-Post :
      (n : ℕ) (request : MessageState) (m : Machine W)
      → Holding n m
      → m.relay.socket ≡ true
      → Post (λ _. Holding n) Failing (apply_request_state request m)
  unfolding apply_request_state
  apply_request_state-Post n absent m h socket = Post-ok h
  apply_request_state-Post n discarded m h socket = Post-ok h
  apply_request_state-Post n accepted m h socket =
      Post-weaken (acknowledged-Post n m h socket) λ _ m1 (h1, _). h1
  apply_request_state-Post n MessageState.delivered m h socket =
      Post-continue _ (acknowledged-Post n m h socket) λ _ m1 (h1, _). Post-ok h1

  answered-Post :
      (n : ℕ) (response : Option Text) (incoming : IncomingFrame) (m : Machine W)
      → Holding n m
      → m.relay.socket ≡ true
      → Post (λ _. Holding n) Failing (answered network json response incoming m)
  unfolding answered
  answered-Post n response (ack _ _ MessageKind.request) m h socket =
      Post-continue _ (acknowledged-Post n m h socket) λ _ m1 (h1, _). Post-ok h1
  answered-Post n response (ack _ _ MessageKind.response) m h socket = Post-ok h
  answered-Post n response (ack _ _ MessageKind.completion) m h socket = Post-ok h
  answered-Post n response (receipt _ _ MessageKind.request) m h socket =
      Post-continue _ (acknowledged-Post n m h socket) λ _ m1 (h1, _). Post-ok h1
  answered-Post n response (receipt _ _ MessageKind.response) m h socket = Post-ok h
  answered-Post n response (receipt _ _ MessageKind.completion) m h socket = Post-ok h
  answered-Post n response (IncomingFrame.message _ _ MessageKind.request _) m h socket = Post-ok h
  answered-Post n response (IncomingFrame.message _ _ MessageKind.completion _) m h socket =
      Post-ok h
  answered-Post n response (IncomingFrame.message _ _ MessageKind.response payload) m h socket =
      Post-continue _ (acknowledged-Post n m h socket) λ _ m1 (h1, socket1).
        Post-continue _
          (acks-Post network remaining finite maximum I closed json n MessageKind.response
            (call_delivered m1) h1 socket1)
          (elim [ true ↦ λ m2 h2. Post-ok h2 | false ↦ λ m2 h2. Post-ok h2 ])
  answered-Post n response (state _ _ exchange request response_state _) m h socket =
      Post-continue _ (apply_request_state-Post n request m h socket) λ _ m1 h1.
        Post-branch (is_delivered response_state) (λ _. Post-ok h1)
          λ _. Post-branch (has_ended exchange) (λ _. Post-err (h1.0, tt)) λ _. Post-ok h1
  answered-Post n response (IncomingFrame.inactive _ _ _) m h socket = Post-ok h
  answered-Post n response (IncomingFrame.error _ _ _ _ _ _) m h socket = Post-ok h

  request_turn-Post :
      (n : ℕ) (response : Option Text) (m : Machine W)
      → Holding (suc n) m
      → Post (λ _. Holding n) Failing (request_turn network json (suc n) response m)
  unfolding request_turn
  request_turn-Post n response m h =
      Post-continue _ (connect-Post network remaining finite maximum I closed json n m h) (elim [
        | none ↦ λ m1 h1. Post-ok h1
        | some _ ↦ λ m1 (h1, socket1).
            Post-continue _
              (receive-Post network remaining finite maximum I json (suc n) n m1 (omega arith) h1
                socket1)
              (elim [
                | none ↦ λ m2 h2. Post-ok h2
                | some frame ↦ λ m2 (h2, socket2). answered-Post n response frame m2 h2 socket2
              ])
      ])

  pub request_loop-Post :
      (fuel : ℕ) (response : Option Text) (m : Machine W)
      → Holding fuel m
      → Post
          (λ _ m1. I m1.relay.request m1.relay.completion)
          Failing
          (request_loop network json fuel response m)
  unfolding request_loop
  request_loop-Post zero response m h = no_fuel network remaining finite maximum I m h
  request_loop-Post (suc fuel) response m h =
      Post-continue _ (request_turn-Post fuel response m h) (elim [
        | go_on kept ↦ λ m1 h1. request_loop-Post fuel kept m1 h1
        | returns kept ↦ λ m1 h1. Post-ok h1.0
      ])

-- Once the request is there, the invariant of its loop.
abbrev pub IsRequested : Invariant
IsRequested none completion = ⊥
IsRequested (some message) completion = IsOrdered (some message) completion

pub IsRequested-IsClosed : IsClosed IsRequested
IsRequested-IsClosed = record {
  started = λ completion i. i;
  sending = λ sent message completion i. i;
  acknowledging = λ message completion i sent. refl;
}

pub IsRequested-IsOrdered :
    (request completion : Option OutgoingMessage)
    → IsRequested request completion
    → IsOrdered request completion
IsRequested-IsOrdered none completion i = absurd i
IsRequested-IsOrdered (some message) completion i = i

module _ {W : Type 0} (network : Network W) (remaining : W → ℕ)
    (finite : IsFinite network remaining) (json : Json) where
  -- The order holds, and after an error there were not more failures than the policy allows.
  abbrev pub Ends : {A : Type 0} → ℕ → Result Stop A × Machine W → Type 0
  Ends maximum =
      Post (λ _ m. IsOrdered m.relay.request m.relay.completion)
        (Lost network remaining finite maximum IsOrdered)

  new_message-Bounds :
      (maximum : ℕ) (encoded : Text) → Bounds network remaining finite maximum (new_message encoded)
  unfolding new_message
  new_message-Bounds maximum encoded =
      elim (ltb maximum_frame_size (length encoded))
        as (λ b. Bounds network remaining finite maximum {A = OutgoingMessage} (elim b [
          | true ↦ err (frame_too_large (length encoded))
          | false ↦ ok (record { encoded = encoded; sent = false; acknowledged = false })
        ])) [ true ↦ tt | false ↦ tt ]

  pub outgoing-Bounds :
      (maximum : ℕ) (kind : MessageKind) (payload : Text) (relay : RelayExchange)
      → Bounds network remaining finite maximum (outgoing json kind payload relay)
  unfolding outgoing
  outgoing-Bounds maximum kind payload relay =
      elim (json.encode (OutgoingFrame.message relay.client_id relay.request_id kind payload))
        as (λ encoded.
          Bounds network remaining finite maximum
            (elim encoded [ err error ↦ err (invalid_json error) | ok text ↦ new_message text ])) [
              | err error ↦ tt
              | ok text ↦ new_message-Bounds maximum text
            ]

  start-IsRequested :
      (request : Option OutgoingMessage) (message : OutgoingMessage)
      (completion : Option OutgoingMessage)
      → is_some request ≡ false
      → IsOrdered request completion
      → IsRequested (some message) completion
  start-IsRequested none message completion idle ordered sent = absurd (cc (ordered sent))
  start-IsRequested (some _) message completion idle ordered sent = absurd (cc)

  request_exchange-Ends :
      (fuel : ℕ) (payload : Text) (m : Machine W)
      → IsOrdered m.relay.request m.relay.completion
      → suc (remaining m.world) * 10 < fuel
      → Ends 10 (request_exchange network json fuel payload m)
  unfolding request_exchange
  request_exchange-Ends fuel payload m ordered enough =
      Post-branch (is_some m.relay.request) (λ _. Post-err (ordered, tt))
        λ idle.
          Post-result (outgoing json MessageKind.request payload m.relay)
            (λ error same. Post-err (
              ordered,
              subst (Bounds network remaining finite 10) same
                  (outgoing-Bounds 10 MessageKind.request payload m.relay),
            ))
            (λ message _.
              Post-map
                (request_loop-Post network remaining finite 10 IsRequested IsRequested-IsClosed json
                  fuel none _
                  (
                    start-IsRequested m.relay.request message m.relay.completion idle ordered,
                    refl,
                    omega arith,
                    omega (arith, enough),
                  ))
                (λ _ m1 i. IsRequested-IsOrdered m1.relay.request m1.relay.completion i)
                (λ error m1 (i, bounded).
                  (IsRequested-IsOrdered m1.relay.request m1.relay.completion i, bounded)))

  decode_response-Bounds :
      (R : Type 0) (decode_reply : Text → Result Text (ApplicationResponse R))
      (response : Option Text)
      → Bounds network remaining finite 10 (decode_response decode_reply response)
  unfolding decode_response decoded_reply
  decode_response-Bounds R decode_reply none = tt
  decode_response-Bounds R decode_reply (some text) =
      elim (decode_reply text)
        as (λ r. Bounds network remaining finite 10 (decoded_reply decode_reply r)) [
          | err error ↦ tt
          | ok (reply contents) ↦ tt
          | ok (unauthenticated_error code message) ↦ tt
        ]

  as_result-Ends :
      (R : Type 0) (decode_reply : Text → Result Text (ApplicationResponse R))
      (result : Result Error R) (m : Machine W)
      → Bounds network remaining finite 10 result
      → IsOrdered m.relay.request m.relay.completion
      → Ends 10 (as_result network json decode_reply result m)
  unfolding as_result
  as_result-Ends R decode_reply (ok contents) m _ ordered = Post-ok ordered
  as_result-Ends R decode_reply (err error) m bounded ordered = Post-err (ordered, bounded)

  -- If the relay sends finitely many messages, a request ends: it gives a response or an error, and
  -- never panics. Retries that are exhausted are at most ten, and no completion is sent before the
  -- request is acknowledged. The fuel is ten turns for each message of the relay and ten more.
  pub request-Ends :
      {R : Type 0} (decode_reply : Text → Result Text (ApplicationResponse R)) (fuel : ℕ)
      (payload : Text) (m : Machine W)
      → IsOrdered m.relay.request m.relay.completion
      → suc (remaining m.world) * 10 < fuel
      → Ends 10 (request network json decode_reply fuel payload m)
  unfolding request
  request-Ends decode_reply fuel payload m ordered enough =
      Post-continue _ (request_exchange-Ends fuel payload m ordered enough) λ response m1 ordered1.
        as_result-Ends _ decode_reply _ m1 (decode_response-Bounds _ decode_reply response) ordered1
