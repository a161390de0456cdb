-- ===== src/Relay/Ordered.antt =====
-- Connecting, with the request sent again or resumed, keeps what is known of the two messages.
use agentknock_cli.Prelude.{
  ℕ, zero, suc, ◌≡◌, ◌≢◌, refl, ap, subst, ◌||◌, Bool, true, false, Option, none, some, arith,
}
use agentknock_cli.Relay.{MessageKind, Error, OutgoingMessage}
use agentknock_cli.Relay.Connection.{
  Network, Json, Machine, mark_sent, send_message, send_request, send_ack,
}
use agentknock_cli.Relay.Exchange.{
  acknowledged_message, acknowledge, is_acknowledged, resend, reconnect, connect,
}
use agentknock_cli.Relay.Triples.{IsFinite, Post, Post-ok, Post-continue, Post-weaken, Invariant}
use agentknock_cli.Relay.Kept.{
  Kept, Lost, HasSocket, Tried, Kept-mono, no_fuel, ensure_connected-Post, send_text-Post,
  send_resume-Post, send_ack-Post,
}

abbrev pub has_sent : Option OutgoingMessage → Bool
has_sent none = false
has_sent (some message) = message.sent

abbrev pub has_acknowledged : Option OutgoingMessage → Bool
has_acknowledged none = false
has_acknowledged (some message) = message.acknowledged

-- No completion is sent before the relay has acknowledged the request.
abbrev pub IsOrdered : Invariant
IsOrdered request completion = has_sent completion ≡ true → has_acknowledged request ≡ true

-- An invariant that sending or acknowledging the request keeps.
pub record IsClosed (I : Invariant) : Type 0 where
  pub started : (completion : Option OutgoingMessage) → I none completion → ⊥
  pub sending :
      (sent : Bool) (message : OutgoingMessage) (completion : Option OutgoingMessage)
      → I (some message) completion
      → I (some (record message { sent = message.sent || sent })) completion
  pub acknowledging :
      (message : OutgoingMessage) (completion : Option OutgoingMessage)
      → I (some message) completion
      → I (some (acknowledged_message message)) completion

module _ {W : Type 0} (network : Network W) (remaining : W → ℕ)
    (finite : IsFinite network remaining) (maximum : ℕ) (I : Invariant) (closed : IsClosed I)
    (json : Json) where
  abbrev Holding : ℕ → Machine W → Type 0
  Holding = Kept network remaining finite maximum I

  abbrev Failing : Error → Machine W → Type 0
  Failing = Lost network remaining finite maximum I

  abbrev Trying : ℕ → Bool → Machine W → Type 0
  Trying = Tried network remaining finite maximum I

  pub send_message-Post :
      (n : ℕ) (message : Option OutgoingMessage) (m : Machine W)
      → message ≢ none
      → Holding (suc n) m
      → HasSocket network remaining finite maximum I m
      → Post (Trying n) Failing (send_message network message m)
  unfolding send_message
  send_message-Post n none m present h socket = absurd (present refl)
  send_message-Post n (some message) m _ h socket =
      send_text-Post network remaining finite maximum I n message.encoded m h socket

  request-≢ : (m : Machine W) → I m.relay.request m.relay.completion → m.relay.request ≢ none
  request-≢ m i same =
      closed.started m.relay.completion (subst (λ r. I r m.relay.completion) same i)

  mark_sent-closed :
      (sent : Bool) (request completion : Option OutgoingMessage)
      → I request completion
      → I (mark_sent sent request) completion
  mark_sent-closed sent none completion i = i
  mark_sent-closed sent (some message) completion i = closed.sending sent message completion i

  send_request-Post :
      (n : ℕ) (m : Machine W)
      → Holding (suc n) m
      → m.relay.socket ≡ true
      → Post (Trying n) Failing (send_request network m)
  unfolding send_request
  send_request-Post n m h socket =
      Post-continue _ (send_message-Post n m.relay.request m (request-≢ m h.0) h socket) (elim [
        | true ↦ λ m1 ((i, a, b, c), socket1).
            Post-ok
              ((mark_sent-closed true m1.relay.request m1.relay.completion i, a, b, c), socket1)
        | false ↦ λ m1 (i, a, b, c).
            Post-ok (mark_sent-closed false m1.relay.request m1.relay.completion i, a, b, c)
      ])

  pub acknowledge-Post :
      (n : ℕ) (request : Option OutgoingMessage) (m : Machine W)
      → m.relay.request ≡ request
      → Holding n m
      → m.relay.socket ≡ true
      → Post (λ _ m1. Holding n m1 × (m1.relay.socket ≡ true)) Failing (acknowledge request m)
  unfolding acknowledge
  acknowledge-Post n none m same (i, _, _, _) socket = absurd (request-≢ m i same)
  acknowledge-Post n (some message) m same (i, a, b, c) socket = Post-ok (
    (
      closed.acknowledging message m.relay.completion (subst (λ r. I r m.relay.completion) same i),
      a,
      b,
      c,
    ),
    socket,
  )

  -- What stands before the test stands after it.
  pub is_acknowledged-Post :
      (P : Machine W → Type 0) (request : Option OutgoingMessage) (m : Machine W)
      → m.relay.request ≡ request
      → I m.relay.request m.relay.completion
      → P m
      → Post
          (λ a m1. P m1 × (has_acknowledged m1.relay.request ≡ a))
          Failing
          (is_acknowledged request m)
  unfolding is_acknowledged
  is_acknowledged-Post P none m same i p = absurd (request-≢ m i same)
  is_acknowledged-Post P (some message) m same i p = Post-ok (p, ap has_acknowledged same)

  -- The connection stands, or sending on a new one failed.
  abbrev pub Connected : ℕ → Option Bool → Machine W → Type 0
  Connected n none m = Holding n m
  Connected n (some _) m = Holding (suc n) m × (m.relay.socket ≡ true)

  resend-Post :
      (n : ℕ) (acknowledged : Bool) (m : Machine W)
      → Holding (suc n) m
      → m.relay.socket ≡ true
      → Post (Trying n) Failing (resend network json acknowledged m)
  unfolding resend
  resend-Post n true m h socket =
      send_resume-Post network remaining finite maximum I n json m h socket
  resend-Post n false m h socket = send_request-Post n m h socket

  reconnect-Post :
      (n : ℕ) (m : Machine W)
      → Holding (suc n) m
      → m.relay.socket ≡ true
      → Post (Connected n) Failing (reconnect network json m)
  unfolding reconnect
  reconnect-Post n m h socket =
      Post-continue _
        (is_acknowledged-Post (λ m1. Holding (suc n) m1 × (m1.relay.socket ≡ true)) m.relay.request
          m refl h.0 (h, socket))
        λ acknowledged m1 ((h1, socket1), _).
          Post-continue _ (resend-Post n acknowledged m1 h1 socket1)
            (elim [ true ↦ λ m2 h2. Post-ok h2 | false ↦ λ m2 h2. Post-ok h2 ])

  pub connect-Post :
      (n : ℕ) (m : Machine W)
      → Holding (suc n) m
      → Post (Connected n) Failing (connect network json (suc n) m)
  unfolding connect
  connect-Post n m h =
      Post-continue _ (ensure_connected-Post network remaining finite maximum I (suc n) m h) (elim [
        | false ↦ λ m1 h1. Post-ok h1
        | true ↦ λ m1 (h1, socket1). reconnect-Post n m1 h1 socket1
      ])

  -- An acknowledgement is sent, or the connection is given up.
  pub acks-Post :
      (n : ℕ) (kind : MessageKind) (m : Machine W)
      → Holding n m
      → m.relay.socket ≡ true
      → Post (λ _. Holding n) Failing (send_ack network json kind m)
  acks-Post zero kind m h socket = no_fuel network remaining finite maximum I m h
  acks-Post (suc n) kind m h socket =
      Post-weaken (send_ack-Post network remaining finite maximum I n json kind m h socket) (elim [
        | true ↦ λ m1 (h1, _). h1
        | false ↦
            λ m1 h1. Kept-mono network remaining finite maximum I n (suc n) m1 (omega arith) h1
      ])
