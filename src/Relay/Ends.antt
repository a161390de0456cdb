-- ===== src/Relay/Ends.antt =====
-- `complete_with_policy` of src/websocket.rs ends.
use agentknock_cli.Prelude.{
  ℕ, suc, ◌*◌, ◌<◌, ◌≡◌, refl, subst, Text, true, false, Option, none, some, Result, ok, err, arith,
  is_some,
}
use agentknock_cli.Relay.{
  MessageKind, invalid_json, RetryPolicy, OutgoingMessage, RelayExchange, new_message,
}
use agentknock_cli.Relay.Connection.{Network, Json, Machine}
use agentknock_cli.Relay.Exchange.{outgoing, prepared, complete_stored, complete_with_policy}
use agentknock_cli.Relay.Triples.{
  IsFinite, Post, Post-err, Post-branch, Post-map, Post-result, Bounds,
}
use agentknock_cli.Relay.Kept.{Lost}
use agentknock_cli.Relay.Ordered.{IsOrdered}
use agentknock_cli.Relay.Returns.{outgoing-Bounds}
use agentknock_cli.Relay.Messages.{IsCompleting, IsHandedOff, IsCompleting-IsOrdered}
use agentknock_cli.Relay.Completes.{complete_loop-Post}

new_message-sent :
    (encoded : Text) {message : OutgoingMessage}
    → new_message encoded ≡ ok message
    → message.sent ≡ false
unfolding new_message
new_message-sent encoded h = ground (arith, h)

encoded-sent :
    (encoded : Result Text Text) {message : OutgoingMessage}
    → elim encoded [ err error ↦ err (invalid_json error) | ok text ↦ new_message text ]
      ≡ ok message
    → message.sent ≡ false
encoded-sent (err error) h = cc
encoded-sent (ok text) h = new_message-sent text h

outgoing-sent :
    (json : Json) (kind : MessageKind) (payload : Text) (relay : RelayExchange)
    {message : OutgoingMessage}
    → outgoing json kind payload relay ≡ ok message
    → message.sent ≡ false
unfolding outgoing
outgoing-sent json kind payload relay h = encoded-sent _ h

module _ {W : Type 0} (network : Network W) (remaining : W → ℕ)
    (finite : IsFinite network remaining) (json : Json) where
  prepared-Bounds :
      (maximum : ℕ) (payload : Text) (completion : Option OutgoingMessage) (relay : RelayExchange)
      → Bounds network remaining finite maximum (prepared network json payload completion relay)
  unfolding prepared
  prepared-Bounds maximum payload none relay =
      outgoing-Bounds network remaining finite json maximum MessageKind.completion payload relay
  prepared-Bounds maximum payload (some kept) relay = tt

  start-IsCompleting :
      (payload : Text) (request completion : Option OutgoingMessage) (relay : RelayExchange)
      (message : OutgoingMessage)
      → is_some request ≡ true
      → IsOrdered request completion
      → prepared network json payload completion relay ≡ ok message
      → IsCompleting request (some message)
  unfolding prepared
  start-IsCompleting payload none none relay message there ordered h = absurd (cc)
  start-IsCompleting payload none (some _) relay message there ordered h = absurd (cc)
  start-IsCompleting payload (some request) none relay message there ordered h =
      λ sent. let unsent = outgoing-sent json MessageKind.completion payload relay h in absurd (cc)
  start-IsCompleting payload (some request) (some kept) relay message there ordered h =
      λ sent. ordered (cc)

  -- If the relay sends finitely many messages, handing off a completion ends: it succeeds or gives
  -- an error, and never panics. Where it succeeds, the completion was sent and the relay had
  -- acknowledged the request; where it fails, no completion was sent before that, and retries that
  -- are exhausted are at most as many as the policy allows.
  pub complete-Ends :
      (policy : RetryPolicy) (fuel : ℕ) (payload : Text) (m : Machine W)
      → 0 < policy.maximum_failures
      → IsOrdered m.relay.request m.relay.completion
      → suc (remaining m.world) * policy.maximum_failures < fuel
      → Post
          (λ _ m1. IsHandedOff m1.relay.request m1.relay.completion)
          (Lost network remaining finite policy.maximum_failures IsOrdered)
          (complete_with_policy network json fuel payload policy m)
  unfolding complete_with_policy complete_stored
  complete-Ends policy fuel payload m some_failures ordered enough =
      Post-branch (is_some m.relay.request)
        (λ there.
          Post-result (prepared network json payload m.relay.completion m.relay)
            (λ error same. Post-err (
              ordered,
              subst (Bounds network remaining finite policy.maximum_failures) same
                  (prepared-Bounds policy.maximum_failures payload m.relay.completion m.relay),
            ))
            (λ message same.
              Post-map
                (complete_loop-Post network remaining finite policy.maximum_failures json fuel _ (
                  start-IsCompleting payload m.relay.request m.relay.completion m.relay message
                      there ordered same,
                  refl,
                  omega (arith, some_failures),
                  omega (arith, enough),
                ))
                (λ _ _ done. done)
                (λ error m1 (i, bounded).
                  (IsCompleting-IsOrdered m1.relay.request m1.relay.completion i, bounded))))
        (λ _. Post-err (ordered, tt))
