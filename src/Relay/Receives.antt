-- ===== src/Relay/Receives.antt =====
-- `receive` of src/websocket.rs ends: each turn of its loop reads a message or returns.
use native.Mathlib.Nat.{mul-le-mul_right}
use agentknock_cli.Prelude.{
  ℕ, zero, suc, ◌+◌, ◌-◌, ◌*◌, ◌≤◌, ◌<◌, Text, ◌==◌, nat_eq, ◌≡◌, refl, ◌||◌, true, false, Option,
  none, some, Result, ok, err, arith,
}
use agentknock_cli.Relay.{
  IncomingFrame, ack, receipt, state, Cause, Error, wrong_client_id, wrong_request_id,
  RelayExchange, frame_client_id, frame_request_id, differs, validate,
}
use agentknock_cli.Relay.Connection.{
  Message, ping, pong, binary, close, text, Yield, received, broken, ended, sent_ping, Network,
  Json, Stop, disconnect, Machine, set_world, succeeded, received_frame, checked_frame,
  decoded_frame, returned, handled, await_pong, pinged, await_next, await_yield, receive,
}
use agentknock_cli.Relay.Triples.{
  IsFinite, Post, Post-ok, Post-err, Post-continue, Post-branch, Invariant, Bounds,
  set_world-Within, failed-Post,
}
use agentknock_cli.Relay.Kept.{Kept, Lost, Kept-mono, no_fuel, Received, disconnect-Post}

module _ {W : Type 0} (network : Network W) (remaining : W → ℕ)
    (finite : IsFinite network remaining) (maximum : ℕ) (I : Invariant) (json : Json) where
  abbrev Holding : ℕ → Machine W → Type 0
  Holding = Kept network remaining finite maximum I

  abbrev Failing : Error → Machine W → Type 0
  Failing = Lost network remaining finite maximum I

  abbrev Arrived : ℕ → Option IncomingFrame → Machine W → Type 0
  Arrived = Received network remaining finite maximum I

  -- A message came, so even all failures to come are fewer than before it.
  abbrev IsFresh : ℕ → Machine W → Type 0
  IsFresh n m = Holding n m × (m.relay.socket ≡ true) × (remaining m.world * maximum + maximum < n)

  abbrev Yielded : ℕ → Option Yield → Machine W → Type 0
  Yielded n none m = Holding n m
  Yielded n (some (received _)) m = IsFresh n m
  Yielded n (some _) m = Holding (suc n) m

  -- What the network yields, before the client looks at it.
  abbrev Waited : ℕ → Option Yield → Machine W → Type 0
  Waited n none m = Holding (suc n) m × (m.relay.socket ≡ true)
  Waited n (some y) m = Yielded n (some y) m

  fresh :
      (n most failures a b : ℕ)
      → a < b
      → failures + 1 ≤ most
      → b * most + (most - failures) < suc n
      → a * most + most < n
  fresh n most failures a b fewer few less = omega (arith, mul-le-mul_right most fewer)

  yield-Waited :
      (n : ℕ) (m : Machine W) (world : W) (yield : Option Yield)
      → Holding (suc n) m
      → m.relay.socket ≡ true
      → Holding (suc n) (set_world world m)
      → ((message : Message)
          → yield ≡ some (received message)
          → remaining world < remaining m.world)
      → Waited n yield (set_world world m)
  yield-Waited n m world none h socket kept fewer = (kept, socket)
  yield-Waited n m world (some (broken _)) h socket kept fewer = kept
  yield-Waited n m world (some ended) h socket kept fewer = kept
  yield-Waited n m world (some (received message)) (_, _, few, less) socket kept fewer =
      let below = fresh n maximum m.retry.failures _ _ (fewer message refl) few less in
      ((kept.0, kept.1, kept.2, omega (arith, below)), socket, below)

  next-Waited :
      (n timeout : ℕ) (m : Machine W)
      → Holding (suc n) m
      → m.relay.socket ≡ true
      → Waited n (network.next timeout m.world).0 (set_world (network.next timeout m.world).1 m)
  next-Waited n timeout m h socket =
      yield-Waited n m (network.next timeout m.world).1 (network.next timeout m.world).0 h socket
        (set_world-Within network remaining finite maximum I 1 (suc n) m _
          (finite.waits timeout m.world) h)
        (finite.receives timeout m.world)

  succeeded-Kept :
      (n : ℕ) (m : Machine W)
      → IsFresh n m
      → Holding n (succeeded m) × ((succeeded m).relay.socket ≡ true)
  unfolding succeeded
  succeeded-Kept n m ((i, same, few, _), socket, below) =
      ((i, same, omega (arith, few), omega (arith, below)), socket)

  await_pong-Post :
      (n : ℕ) (yield : Option Yield) (m : Machine W)
      → Waited n yield m
      → Post (Yielded n) Failing (await_pong network json yield m)
  unfolding await_pong
  await_pong-Post n none m (h, _) =
      disconnect-Post network remaining finite maximum I Yield (λ y. Yielded n (some y)) n _ m h
  await_pong-Post n (some yield) m h = Post-ok h

  pinged-Post :
      (n : ℕ) (result : Option Text) (m : Machine W)
      → Holding (suc n) m
      → m.relay.socket ≡ true
      → Post (Yielded n) Failing (pinged network json result m)
  unfolding pinged
  pinged-Post n (some error) m h socket =
      disconnect-Post network remaining finite maximum I Yield (λ y. Yielded n (some y)) n _ m h
  pinged-Post n none m h socket = await_pong-Post n _ _ (next-Waited n 10000 m h socket)

  await_next-Post :
      (n : ℕ) (yield : Option Yield) (m : Machine W)
      → Waited n yield m
      → Post (Yielded n) Failing (await_next network json yield m)
  unfolding await_next
  await_next-Post n (some yield) m h = Post-ok h
  await_next-Post n none m (h, socket) =
      pinged-Post n _ _
        (set_world-Within network remaining finite maximum I 1 (suc n) m
          (network.send sent_ping m.world).1 (finite.sends sent_ping m.world) h)
        socket

  await_yield-Post :
      (n : ℕ) (m : Machine W)
      → Holding (suc n) m
      → m.relay.socket ≡ true
      → Post (Yielded n) Failing (await_yield network json m)
  unfolding await_yield
  await_yield-Post n m h socket =
      Post-branch m.relay.socket (λ _. await_next-Post n _ _ (next-Waited n 30000 m h socket))
        (λ closed. absurd (cc))

  received_frame-Post :
      (n : ℕ) (incoming : IncomingFrame) (m : Machine W)
      → IsFresh n m
      → Post (Arrived n) Failing (received_frame network json incoming m)
  unfolding received_frame succeeded
  received_frame-Post n (IncomingFrame.error _ _ code message false _) m (h, _, _) =
      Post-err (h.0, tt)
  received_frame-Post n (IncomingFrame.error _ _ code message true retry_after_ms) m (h, _, _) =
      Post-continue _
        (failed-Post network remaining finite maximum I n _ _
          (Kept-mono network remaining finite maximum I n (suc n) m (omega arith) h))
        λ _ m1 h1. Post-ok h1
  received_frame-Post n (IncomingFrame.inactive _ _ kind) m (h, _, _) = Post-err (h.0, tt)
  received_frame-Post n (ack _ _ _) m h = Post-ok (succeeded-Kept n m h)
  received_frame-Post n (receipt _ _ _) m h = Post-ok (succeeded-Kept n m h)
  received_frame-Post n (IncomingFrame.message _ _ _ _) m h = Post-ok (succeeded-Kept n m h)
  received_frame-Post n (state _ _ _ _ _ _) m h = Post-ok (succeeded-Kept n m h)

  -- The errors of `validate` don't count failures.
  validate-IsBounded :
      (relay : RelayExchange) (incoming : IncomingFrame)
      → Bounds network remaining finite maximum (validate relay incoming)
  unfolding validate
  validate-IsBounded relay incoming =
      elim (differs relay.client_id (frame_client_id incoming))
        as (λ b. Bounds network remaining finite maximum (elim b [
          | true ↦ err wrong_client_id
          | false ↦ elim (differs relay.request_id (frame_request_id incoming)) [
            | true ↦ err wrong_request_id
            | false ↦ ok incoming
          ]
        ])) [
          | true ↦ tt
          | false ↦
              elim (differs relay.request_id (frame_request_id incoming))
                as (λ b.
                  Bounds network remaining finite maximum
                    (elim b [ true ↦ err wrong_request_id | false ↦ ok incoming ])) [
                      | true ↦ tt
                      | false ↦ tt
                    ]
        ]

  checked_frame-Post :
      (n : ℕ) (incoming : Result Error IncomingFrame) (m : Machine W)
      → Bounds network remaining finite maximum incoming
      → IsFresh n m
      → Post (Arrived n) Failing (checked_frame network json incoming m)
  unfolding checked_frame
  checked_frame-Post n (err error) m bounded h = Post-err (h.0.0, bounded)
  checked_frame-Post n (ok incoming) m _ h = received_frame-Post n incoming m h

  decoded_frame-Post :
      (n : ℕ) (incoming : Result Text IncomingFrame) (m : Machine W)
      → IsFresh n m
      → Post (Arrived n) Failing (decoded_frame network json incoming m)
  unfolding decoded_frame
  decoded_frame-Post n (err error) m h = Post-err (h.0.0, tt)
  decoded_frame-Post n (ok incoming) m h =
      checked_frame-Post n _ m (validate-IsBounded m.relay incoming) h

  -- After a turn of the loop: the next one, or what `receive` returns.
  abbrev Handled : ℕ → Option (Option IncomingFrame) → Machine W → Type 0
  Handled n none m = Holding n m × (m.relay.socket ≡ true)
  Handled n (some incoming) m = Arrived n incoming m

  returned-Post :
      (n : ℕ) (run : Result Stop (Option IncomingFrame) × Machine W)
      → Post (Arrived n) Failing run
      → Post (Handled n) Failing (returned network json run)
  returned-Post n run h = Post-continue _ h λ a m q. Post-ok q

  disconnected-Post :
      (n : ℕ) (cause : Cause) (m : Machine W)
      → Holding (suc n) m
      → Post (Arrived n) Failing (disconnect network cause m)
  disconnected-Post n cause m h =
      disconnect-Post network remaining finite maximum I IncomingFrame (λ f. Arrived n (some f)) n
        cause m h

  handled-Post :
      (n : ℕ) (yield : Yield) (m : Machine W)
      → Yielded n (some yield) m
      → Post (Handled n) Failing (handled network json yield m)
  unfolding handled
  handled-Post n ended m h = returned-Post n _ (disconnected-Post n _ m h)
  handled-Post n (broken error) m h = returned-Post n _ (disconnected-Post n _ m h)
  handled-Post n (received (close code reason)) m (h, _, _) =
      Post-branch (code == 4002 || code == 4003) (λ _. Post-err (h.0, tt))
        (λ _. returned-Post n _ (
          disconnected-Post n _ m
            (Kept-mono network remaining finite maximum I n (suc n) m (omega arith) h)))
  handled-Post n (received ping) m h = Post-ok (succeeded-Kept n m h)
  handled-Post n (received pong) m h = Post-ok (succeeded-Kept n m h)
  handled-Post n (received binary) m (h, _, _) = Post-err (h.0, tt)
  handled-Post n (received (text contents)) m h = returned-Post n _ (decoded_frame-Post n _ m h)

  Arrived-mono :
      (a b : ℕ) (incoming : Option IncomingFrame) (m : Machine W)
      → a ≤ b
      → Arrived a incoming m
      → Arrived b incoming m
  Arrived-mono a b none m h k = Kept-mono network remaining finite maximum I a b m h k
  Arrived-mono a b (some _) m h (k, socket) =
      (Kept-mono network remaining finite maximum I a b m h k, socket)

  pub receive-Post :
      (fuel n : ℕ) (m : Machine W)
      → fuel ≤ suc n
      → Holding fuel m
      → m.relay.socket ≡ true
      → Post (Arrived n) Failing (receive network json fuel m)
  unfolding receive
  receive-Post zero n m few h socket = no_fuel network remaining finite maximum I m h
  receive-Post (suc fuel) n m few h socket =
      Post-continue _ (await_yield-Post fuel m h socket) (elim [
        | none ↦ λ m1 h1. Post-ok (Arrived-mono fuel n none m1 (omega arith) h1)
        | some yield ↦ λ m1 h1. Post-continue _ (handled-Post fuel yield m1 h1) (elim [
          | none ↦ λ m2 (h2, socket2). receive-Post fuel n m2 (omega arith) h2 socket2
          | some incoming ↦ λ m2 h2. Post-ok (Arrived-mono fuel n incoming m2 (omega arith) h2)
        ])
      ])
