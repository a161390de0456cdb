-- ===== src/Relay/Messages.antt =====
-- What is known of the request and the completion of an exchange of src/websocket.rs while the
-- completion is handed off.
use agentknock_cli.Prelude.{◌≡◌, ◌≢◌, refl, ◌||◌, Bool, true, false, Option, none, some}
use agentknock_cli.Relay.{OutgoingMessage}
use agentknock_cli.Relay.Connection.{mark_sent}
use agentknock_cli.Relay.Triples.{Invariant}
use agentknock_cli.Relay.Ordered.{has_sent, has_acknowledged, IsOrdered, IsClosed}

-- Both messages are there and satisfy a predicate.
abbrev pub Both : (OutgoingMessage → OutgoingMessage → Type 0) → Invariant
Both P none completion = ⊥
Both P (some request) none = ⊥
Both P (some request) (some completion) = P request completion

abbrev pub IsCompleting : Invariant
IsCompleting = Both (λ request completion. completion.sent ≡ true → request.acknowledged ≡ true)

abbrev pub IsAcknowledged : Invariant
IsAcknowledged = Both (λ request completion. request.acknowledged ≡ true)

-- The completion was sent, and the relay had acknowledged the request.
abbrev pub IsHandedOff : Invariant
IsHandedOff = Both (λ request completion. (request.acknowledged ≡ true) × (completion.sent ≡ true))

Both-map :
    (P Q : OutgoingMessage → OutgoingMessage → Type 0)
    (f : (request completion : OutgoingMessage) → P request completion → Q request completion)
    (request completion : Option OutgoingMessage)
    → Both P request completion
    → Both Q request completion
Both-map P Q f none completion h = h
Both-map P Q f (some request) none h = h
Both-map P Q f (some request) (some completion) h = f request completion h

pub weak :
    (request completion : Option OutgoingMessage)
    → IsHandedOff request completion
    → IsCompleting request completion
weak = Both-map _ _ (λ request completion h _. h.0)

pub weak_acknowledged :
    (request completion : Option OutgoingMessage)
    → IsAcknowledged request completion
    → IsCompleting request completion
weak_acknowledged = Both-map _ _ (λ request completion h _. h)

pub IsCompleting-IsOrdered :
    (request completion : Option OutgoingMessage)
    → IsCompleting request completion
    → IsOrdered request completion
IsCompleting-IsOrdered none completion i = absurd i
IsCompleting-IsOrdered (some request) none i = absurd i
IsCompleting-IsOrdered (some request) (some completion) i = i

pub IsCompleting-IsAcknowledged :
    (request completion : Option OutgoingMessage)
    → IsCompleting request completion
    → has_acknowledged request ≡ true
    → IsAcknowledged request completion
IsCompleting-IsAcknowledged none completion i h = i
IsCompleting-IsAcknowledged (some request) none i h = i
IsCompleting-IsAcknowledged (some request) (some completion) i h = h

pub sent-IsHandedOff :
    (request completion : Option OutgoingMessage)
    → IsAcknowledged request completion
    → has_sent completion ≡ true
    → IsHandedOff request completion
sent-IsHandedOff none completion i h = i
sent-IsHandedOff (some request) none i h = i
sent-IsHandedOff (some request) (some completion) i h = (i, h)

pub IsCompleting-IsClosed : IsClosed IsCompleting
IsCompleting-IsClosed = record {
  started = λ completion i. i;
  sending = λ sent message. elim [ none ↦ λ i. i | some completion ↦ λ i. i ];
  acknowledging = λ message. elim [ none ↦ λ i. i | some completion ↦ λ i _. refl ];
}

pub IsAcknowledged-IsClosed : IsClosed IsAcknowledged
IsAcknowledged-IsClosed = record {
  started = λ completion i. i;
  sending = λ sent message. elim [ none ↦ λ i. i | some completion ↦ λ i. i ];
  acknowledging = λ message. elim [ none ↦ λ i. i | some completion ↦ λ i. refl ];
}

pub IsHandedOff-IsClosed : IsClosed IsHandedOff
IsHandedOff-IsClosed = record {
  started = λ completion i. i;
  sending = λ sent message. elim [ none ↦ λ i. i | some completion ↦ λ i. i ];
  acknowledging = λ message. elim [ none ↦ λ i. i | some completion ↦ λ i. (refl, i.1) ];
}

or_true : (b : Bool) → (b || true) ≡ true
or_true true = refl
or_true false = refl

pub mark_sent-IsHandedOff :
    (request completion : Option OutgoingMessage)
    → IsAcknowledged request completion
    → IsHandedOff request (mark_sent true completion)
mark_sent-IsHandedOff none completion i = i
mark_sent-IsHandedOff (some request) none i = i
mark_sent-IsHandedOff (some request) (some completion) i = (i, or_true completion.sent)

pub mark_unsent-IsAcknowledged :
    (request completion : Option OutgoingMessage)
    → IsAcknowledged request completion
    → IsAcknowledged request (mark_sent false completion)
mark_unsent-IsAcknowledged none completion i = i
mark_unsent-IsAcknowledged (some request) none i = i
mark_unsent-IsAcknowledged (some request) (some completion) i = i

pub completion-≢ :
    (request completion : Option OutgoingMessage)
    → IsAcknowledged request completion
    → completion ≢ none
completion-≢ none completion i same = i
completion-≢ (some request) none i same = i
completion-≢ (some request) (some completion) i same = cc
