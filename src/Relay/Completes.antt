-- ===== src/Relay/Completes.antt =====
-- The loop of `complete_with_policy` of src/websocket.rs ends, and where it succeeds the completion
-- was sent after the relay had acknowledged the request.
use agentknock_cli.Prelude.{
  ℕ, zero, suc, ◌≡◌, ◌≢◌, refl, ap, ◌∙◌, Bool, true, false, not, ◌||◌, Option, none, some,
}
use agentknock_cli.Relay.{Error, OutgoingMessage}
use agentknock_cli.Relay.Connection.{Network, Json, Machine, send_completion}
use agentknock_cli.Relay.Exchange.{was_sent, hand_off, complete_turn, complete_loop}
use agentknock_cli.Relay.Triples.{
  IsFinite, Post, Post-ok, Post-continue, Post-branch, Post-map, Invariant,
}
use agentknock_cli.Relay.Kept.{Kept, Lost, no_fuel}
use agentknock_cli.Relay.Ordered.{has_sent, send_message-Post, is_acknowledged-Post, connect-Post}
use agentknock_cli.Relay.Messages.{
  IsCompleting, IsAcknowledged, IsHandedOff, completion-≢, weak_acknowledged,
  IsCompleting-IsAcknowledged, sent-IsHandedOff, IsCompleting-IsClosed, IsAcknowledged-IsClosed,
  mark_sent-IsHandedOff, mark_unsent-IsAcknowledged,
}
use agentknock_cli.Relay.HandsOff.{Completing, await_acknowledgement-Post, await_handoff-Post}

module _ {W : Type 0} (network : Network W) (remaining : W → ℕ)
    (finite : IsFinite network remaining) (maximum : ℕ) (json : Json) where
  abbrev Holding : Invariant → ℕ → Machine W → Type 0
  Holding = Kept network remaining finite maximum

  abbrev Failing : Invariant → Error → Machine W → Type 0
  Failing = Lost network remaining finite maximum

  abbrev Turned : ℕ → Bool → Machine W → Type 0
  Turned = Completing network remaining finite maximum json

  send_completion-Post :
      (n : ℕ) (m : Machine W)
      → Holding IsAcknowledged (suc n) m
      → m.relay.socket ≡ true
      → Post
          (λ sent m1. elim sent [
            | true ↦ Holding IsHandedOff (suc n) m1 × (m1.relay.socket ≡ true)
            | false ↦ Holding IsAcknowledged n m1
          ])
          (Failing IsAcknowledged)
          (send_completion network m)
  unfolding send_completion
  send_completion-Post n m h socket =
      Post-continue _
        (send_message-Post network remaining finite maximum IsAcknowledged IsAcknowledged-IsClosed
          json n m.relay.completion m (completion-≢ m.relay.request m.relay.completion h.0) h
          socket)
        (elim [
          | true ↦ λ m1 ((i, a, b, c), socket1).
              Post-ok
                ((mark_sent-IsHandedOff m1.relay.request m1.relay.completion i, a, b, c), socket1)
          | false ↦ λ m1 (i, a, b, c).
              Post-ok (mark_unsent-IsAcknowledged m1.relay.request m1.relay.completion i, a, b, c)
        ])

  was_sent-Post :
      (P : Machine W → Type 0) (completion : Option OutgoingMessage) (m : Machine W)
      → m.relay.completion ≡ completion
      → completion ≢ none
      → P m
      → Post
          (λ sent m1. P m1 × (has_sent m1.relay.completion ≡ sent))
          (Failing IsCompleting)
          (was_sent completion m)
  unfolding was_sent
  was_sent-Post P none m same present p = absurd (present refl)
  was_sent-Post P (some message) m same present p = Post-ok (p, ap has_sent same)

  failing :
      (error : Error) (m : Machine W)
      → Failing IsAcknowledged error m
      → Failing IsCompleting error m
  failing error m (i, bounded) = (weak_acknowledged m.relay.request m.relay.completion i, bounded)

  resent : (reconnected sent : Bool) → (reconnected || not sent) ≡ false → sent ≡ true
  resent true sent h = cc
  resent false true h = refl
  resent false false h = cc

  hand_off-Post :
      (n : ℕ) (reconnected : Bool) (m : Machine W)
      → Holding IsAcknowledged (suc n) m
      → m.relay.socket ≡ true
      → Post (Turned n) (Failing IsCompleting) (hand_off network json (suc n) reconnected m)
  unfolding hand_off
  hand_off-Post n reconnected m h socket =
      Post-continue _
        (was_sent-Post (λ m1. Holding IsAcknowledged (suc n) m1 × (m1.relay.socket ≡ true))
          m.relay.completion m refl (completion-≢ m.relay.request m.relay.completion h.0)
          (h, socket))
        λ sent m1 ((h1, socket1), same).
          Post-branch (reconnected || not sent)
            (λ _.
              Post-continue _ (Post-map (send_completion-Post n m1 h1 socket1) (λ _ _ q. q) failing)
                (elim [
                  | true ↦ λ m2 (h2, socket2).
                      await_handoff-Post network remaining finite maximum json n m2 h2 socket2
                  | false ↦ λ m2 (i, a, b, c).
                      Post-ok (weak_acknowledged m2.relay.request m2.relay.completion i, a, b, c)
                ]))
            (λ kept.
              await_handoff-Post network remaining finite maximum json n m1
                (
                  sent-IsHandedOff m1.relay.request m1.relay.completion h1.0
                      (same ∙ resent reconnected sent kept),
                  h1.1,
                  h1.2,
                  h1.3,
                )
                socket1)

  complete_turn-Post :
      (n : ℕ) (m : Machine W)
      → Holding IsCompleting (suc n) m
      → Post (Turned n) (Failing IsCompleting) (complete_turn network json (suc n) m)
  unfolding complete_turn
  complete_turn-Post n m h =
      Post-continue _
        (connect-Post network remaining finite maximum IsCompleting IsCompleting-IsClosed json n m
          h)
        (elim [
          | none ↦ λ m1 h1. Post-ok h1
          | some reconnected ↦ λ m1 (h1, socket1).
              Post-continue _
                (is_acknowledged-Post network remaining finite maximum IsCompleting
                  IsCompleting-IsClosed json
                  (λ m2. Holding IsCompleting (suc n) m2 × (m2.relay.socket ≡ true))
                  m1.relay.request m1 refl h1.0 (h1, socket1))
                (elim [
                  | true ↦ λ m2 (((i, a, b, c), socket2), known).
                      hand_off-Post n reconnected m2
                        (
                          IsCompleting-IsAcknowledged m2.relay.request m2.relay.completion i known,
                          a,
                          b,
                          c,
                        )
                        socket2
                  | false ↦ λ m2 ((h2, socket2), _).
                      await_acknowledgement-Post network remaining finite maximum json n m2 h2
                        socket2
                ])
        ])

  pub complete_loop-Post :
      (fuel : ℕ) (m : Machine W)
      → Holding IsCompleting fuel m
      → Post
          (λ _ m1. IsHandedOff m1.relay.request m1.relay.completion)
          (Failing IsCompleting)
          (complete_loop network json fuel m)
  unfolding complete_loop
  complete_loop-Post zero m h = no_fuel network remaining finite maximum IsCompleting m h
  complete_loop-Post (suc fuel) m h =
      Post-continue _ (complete_turn-Post fuel m h)
        (elim [ true ↦ λ m1 h1. Post-ok h1 | false ↦ λ m1 h1. complete_loop-Post fuel m1 h1 ])
