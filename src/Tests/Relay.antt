-- ===== src/Tests/Relay.antt =====
-- An exchange with a relay that sends a list of frames and is silent after it.
use native.Mathlib.Nat.{le_refl}
use agentknock_cli.Prelude.{
  zero, suc, ◌≤◌, ◌<◌, ◌≡◌, refl, Text, codes, Bool, true, false, Option, none, some, List, [], ◌∷◌,
  Result, ok, err, arith, length, text_discrete, ℕ_discrete,
}
use agentknock_cli.Relay.{
  MessageKind, IncomingFrame, OutgoingMessage, client, normal_retry_policy, new_retry, new_message,
  validate, differs, frame_client_id, frame_request_id,
}
use agentknock_cli.Relay.Connection.{
  connected, Yield, received, Message, text, Network, Json, Machine, continue, ensure_connected,
  connect_loop, attempted, send_request, send_message, send_text, send_result, send_ack, send_frame,
  receive, await_yield, await_next, handled, decoded_frame, checked_frame, received_frame,
  succeeded,
}
use agentknock_cli.Relay.Exchange.{
  ApplicationResponse, reply, request, complete_with_policy, as_result, decode_response,
  decoded_reply, request_exchange, outgoing, request_loop, request_turn, answered, connect,
  reconnect, resend, is_acknowledged, acknowledge,
}
use agentknock_cli.Relay.Triples.{IsFinite, Post}
use agentknock_cli.Relay.Kept.{Lost}
use agentknock_cli.Relay.Ordered.{IsOrdered}
use agentknock_cli.Relay.Returns.{Ends, request-Ends}
use agentknock_cli.Relay.Messages.{IsHandedOff}
use agentknock_cli.Relay.Ends.{complete-Ends}

abbrev next_frame : List Text → Option Yield × List Text
next_frame [] = (none, [])
next_frame (frame ∷ frames) = (some (received (text frame)), frames)

abbrev network : Network (List Text)
network = record {
  connect = λ timeout frames. (connected, frames);
  send = λ sent frames. (none, frames);
  next = λ timeout frames. next_frame frames;
  now = λ frames. (0, frames);
  sleep = λ duration frames. frames;
}

abbrev frame_of : Text → Result Text IncomingFrame
frame_of [] = err []
frame_of (zero ∷ payload) = ok (IncomingFrame.message [] [] MessageKind.response payload)
frame_of (suc zero ∷ _) = ok (IncomingFrame.ack [] [] MessageKind.request)
frame_of (suc (suc _) ∷ _) = ok (IncomingFrame.ack [] [] MessageKind.completion)

abbrev json : Json
json = record { encode = λ frame. ok (codes "frame"); decode = frame_of }

next-waits : (frames : List Text) → length (next_frame frames).1 ≤ length frames
next-waits [] = omega arith
next-waits (frame ∷ frames) = omega arith

next-receives :
    (frames : List Text) (message : Message)
    → (next_frame frames).0 ≡ some (received message)
    → length (next_frame frames).1 < length frames
next-receives [] message h = cc
next-receives (frame ∷ frames) message h = omega arith

network-IsFinite : IsFinite network length
network-IsFinite = record {
  connects = λ timeout frames. le_refl (length frames);
  sends = λ sent frames. le_refl (length frames);
  waits = λ timeout frames. next-waits frames;
  receives = λ timeout frames message. next-receives frames message;
  reads = λ frames. le_refl (length frames);
  sleeps = λ duration frames. le_refl (length frames);
}

abbrev started : Machine (List Text)
started = record {
  relay = record {
    connection_kind = client;
    client_id = [];
    request_id = [];
    socket = false;
    request = none;
    completion = none;
  };
  retry = new_retry normal_retry_policy;
  delivered = 0;
  world = (1 ∷ []) ∷ (0 ∷ 7 ∷ []) ∷ [];
}

abbrev decode_reply : Text → Result Text (ApplicationResponse Text)
decode_reply payload = ok (reply payload)

started-IsOrdered : IsOrdered started.relay.request started.relay.completion
started-IsOrdered sent = absurd (cc sent)

request-Ends_example :
    Ends network length network-IsFinite json 10
      (request network json decode_reply 40 (codes "payload") started)
request-Ends_example =
    request-Ends network length network-IsFinite json decode_reply 40 (codes "payload") started
      started-IsOrdered (omega arith)

abbrev sent_message : Bool → OutgoingMessage
sent_message acknowledged = record {
  encoded = codes "frame";
  sent = true;
  acknowledged = acknowledged;
}

abbrev acknowledged : Machine (List Text)
acknowledged = record started {
  relay = record started.relay { request = some (sent_message true) };
  world = (2 ∷ []) ∷ [];
}

complete-Ends_example :
    Post
      (λ _ m1. IsHandedOff m1.relay.request m1.relay.completion)
      (Lost network length network-IsFinite 10 IsOrdered)
      (complete_with_policy network json 40 (codes "payload") normal_retry_policy acknowledged)
complete-Ends_example =
    complete-Ends network length network-IsFinite json normal_retry_policy 40 (codes "payload")
      acknowledged (omega arith) (λ _. refl) (omega arith)

-- The relay's answers are read to the end, and the response is returned.
exchange_run : (request network json decode_reply 40 (codes "payload") started).0 ≡ ok (7 ∷ [])
unfolding request as_result decode_response decoded_reply request_exchange outgoing new_message
    request_loop request_turn answered connect reconnect resend is_acknowledged acknowledge continue
    ensure_connected connect_loop attempted send_request send_message send_text send_result send_ack
    send_frame receive await_yield await_next handled decoded_frame checked_frame received_frame
    validate differs frame_client_id frame_request_id succeeded text_discrete ℕ_discrete
exchange_run = refl
