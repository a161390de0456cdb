-- ===== src/Relay/HandsOff.antt =====
-- The loop of `complete_with_policy` of src/websocket.rs ends, and where it succeeds the completion
-- was sent after the relay had acknowledged the request.
use agentknock_cli.Prelude.{ℕ, suc, ◌≡◌, refl, Bool, true, false, none, some, arith}
use agentknock_cli.Relay.{MessageKind, IncomingFrame, ack, receipt, state, Error}
use agentknock_cli.Relay.Connection.{Network, Json, Machine}
use agentknock_cli.Relay.Exchange.{
  acknowledge, acknowledged_by, handed_off_by, await_acknowledgement, await_handoff,
}
use agentknock_cli.Relay.Triples.{
  IsFinite, Post, Post-ok, Post-continue, Post-weaken, Post-map, Invariant,
}
use agentknock_cli.Relay.Kept.{Kept, Lost}
use agentknock_cli.Relay.Receives.{receive-Post}
use agentknock_cli.Relay.Ordered.{acknowledge-Post, acks-Post}
use agentknock_cli.Relay.Messages.{
  IsCompleting, IsHandedOff, weak, IsCompleting-IsClosed, IsHandedOff-IsClosed,
}

module _ {W : Type 0} (network : Network W) (remaining : W → ℕ)
    (finite : IsFinite network remaining) (maximum : ℕ) (json : Json) where
  abbrev Holding : Invariant → ℕ → Machine W → Type 0
  Holding = Kept network remaining finite maximum

  abbrev Failing : Invariant → Error → Machine W → Type 0
  Failing = Lost network remaining finite maximum

  -- After a turn of the loop: success, or the next turn.
  abbrev pub Completing : ℕ → Bool → Machine W → Type 0
  Completing n true m = IsHandedOff m.relay.request m.relay.completion
  Completing n false m = Holding IsCompleting n m

  marked :
      (n : ℕ) (m : Machine W)
      → Holding IsCompleting n m
      → m.relay.socket ≡ true
      → Post
          (λ _ m1. Holding IsCompleting n m1 × (m1.relay.socket ≡ true))
          (Failing IsCompleting)
          (acknowledge m.relay.request m)
  marked n m h socket =
      acknowledge-Post network remaining finite maximum IsCompleting IsCompleting-IsClosed json n
        m.relay.request m refl h socket

  -- What is handed off is more than what is being completed.
  completing : (n : ℕ) (done : Bool) (m : Machine W) → Holding IsHandedOff n m → Completing n done m
  completing n true m h = h.0
  completing n false m (i, a, b, c) = (weak m.relay.request m.relay.completion i, a, b, c)

  failing :
      (error : Error) (m : Machine W) → Failing IsHandedOff error m → Failing IsCompleting error m
  failing error m (i, bounded) = (weak m.relay.request m.relay.completion i, bounded)

  acknowledged_by-Post :
      (n : ℕ) (incoming : IncomingFrame) (m : Machine W)
      → Holding IsCompleting n m
      → m.relay.socket ≡ true
      → Post
          (λ _. Holding IsCompleting n)
          (Failing IsCompleting)
          (acknowledged_by network json incoming m)
  unfolding acknowledged_by
  acknowledged_by-Post n (ack _ _ MessageKind.request) m h socket =
      Post-weaken (marked n m h socket) λ _ m1 (h1, _). h1
  acknowledged_by-Post n (ack _ _ MessageKind.response) m h socket = Post-ok h
  acknowledged_by-Post n (ack _ _ MessageKind.completion) m h socket = Post-ok h
  acknowledged_by-Post n (receipt _ _ MessageKind.request) m h socket =
      Post-weaken (marked n m h socket) λ _ m1 (h1, _). h1
  acknowledged_by-Post n (receipt _ _ MessageKind.response) m h socket = Post-ok h
  acknowledged_by-Post n (receipt _ _ MessageKind.completion) m h socket = Post-ok h
  acknowledged_by-Post n (IncomingFrame.message _ _ MessageKind.request _) m h socket = Post-ok h
  acknowledged_by-Post n (IncomingFrame.message _ _ MessageKind.completion _) m h socket = Post-ok h
  acknowledged_by-Post n (IncomingFrame.message _ _ MessageKind.response _) m h socket =
      Post-continue _ (marked n m h socket) λ _ m1 (h1, socket1).
        Post-continue _
          (acks-Post network remaining finite maximum IsCompleting IsCompleting-IsClosed json n
            MessageKind.response m1 h1 socket1)
          λ _ m2 h2. Post-ok h2
  acknowledged_by-Post n (state _ _ _ _ _ _) m h socket = Post-ok h
  acknowledged_by-Post n (IncomingFrame.inactive _ _ _) m h socket = Post-ok h
  acknowledged_by-Post n (IncomingFrame.error _ _ _ _ _ _) m h socket = Post-ok h

  pub await_acknowledgement-Post :
      (n : ℕ) (m : Machine W)
      → Holding IsCompleting (suc n) m
      → m.relay.socket ≡ true
      → Post (Completing n) (Failing IsCompleting) (await_acknowledgement network json (suc n) m)
  unfolding await_acknowledgement
  await_acknowledgement-Post n m h socket =
      Post-continue _
        (receive-Post network remaining finite maximum IsCompleting json (suc n) n m (omega arith) h
          socket)
        (elim [
          | none ↦ λ m1 h1. Post-ok h1
          | some frame ↦ λ m1 (h1, socket1).
              Post-continue _ (acknowledged_by-Post n frame m1 h1 socket1) λ _ m2 h2. Post-ok h2
        ])

  handed_off_by-Post :
      (n : ℕ) (incoming : IncomingFrame) (m : Machine W)
      → Holding IsHandedOff n m
      → m.relay.socket ≡ true
      → Post
          (λ _. Holding IsHandedOff n)
          (Failing IsHandedOff)
          (handed_off_by network json incoming m)
  unfolding handed_off_by
  handed_off_by-Post n (ack _ _ MessageKind.request) m h socket = Post-ok h
  handed_off_by-Post n (ack _ _ MessageKind.response) m h socket = Post-ok h
  handed_off_by-Post n (ack _ _ MessageKind.completion) m h socket = Post-ok h
  handed_off_by-Post n (receipt _ _ _) m h socket = Post-ok h
  handed_off_by-Post n (IncomingFrame.message _ _ MessageKind.request _) m h socket = Post-ok h
  handed_off_by-Post n (IncomingFrame.message _ _ MessageKind.completion _) m h socket = Post-ok h
  handed_off_by-Post n (IncomingFrame.message _ _ MessageKind.response _) m h socket =
      Post-continue _
        (acks-Post network remaining finite maximum IsHandedOff IsHandedOff-IsClosed json n
          MessageKind.response m h socket)
        λ _ m1 h1. Post-ok h1
  handed_off_by-Post n (state _ _ _ _ _ completion) m h socket = Post-ok h
  handed_off_by-Post n (IncomingFrame.inactive _ _ _) m h socket = Post-ok h
  handed_off_by-Post n (IncomingFrame.error _ _ _ _ _ _) m h socket = Post-ok h

  pub await_handoff-Post :
      (n : ℕ) (m : Machine W)
      → Holding IsHandedOff (suc n) m
      → m.relay.socket ≡ true
      → Post (Completing n) (Failing IsCompleting) (await_handoff network json (suc n) m)
  unfolding await_handoff
  await_handoff-Post n m h socket =
      Post-continue _
        (Post-map
          (receive-Post network remaining finite maximum IsHandedOff json (suc n) n m (omega arith)
            h socket)
          (λ _ _ h1. h1) failing)
        (elim [
          | none ↦ λ m1 h1. Post-ok (completing n false m1 h1)
          | some frame ↦ λ m1 (h1, socket1).
              Post-map (handed_off_by-Post n frame m1 h1 socket1) (completing n) failing
        ])
