-- ===== src/Relay/Kept.antt =====
-- What connecting, sending and receiving of src/websocket.rs keep: the request and the completion
-- stand, and each failure or message makes the measure smaller.
use agentknock_cli.Prelude.{
  ℕ, zero, suc, ◌≤◌, Text, ◌==◌, nat_eq, ◌≡◌, refl, ◌&&◌, Bool, true, false, Option, none, some,
  Result, ok, err, arith, leb, ltb,
}
use agentknock_cli.Relay.{MessageKind, Cause, Error, ConnectionKind}
use agentknock_cli.Relay.Connection.{
  Attempt, connected, timed_out, did_not_switch_protocols, rejected, errored, sent_text, Network,
  Json, Machine, is_client, try_again, status_refused, attempted, connect_loop, ensure_connected,
  disconnect, send_result, send_text, send_frame, send_resume, send_ack,
}
use agentknock_cli.Relay.Triples.{
  IsFinite, Post, Post-ok, Post-err, Post-continue, Post-weaken, Post-branch, Invariant, Holds,
  Fails, set_world-Within, failed_with-Post,
}

module _ {W : Type 0} (network : Network W) (remaining : W → ℕ)
    (finite : IsFinite network remaining) (maximum : ℕ) (I : Invariant) where
  abbrev pub Kept : ℕ → Machine W → Type 0
  Kept = Holds network remaining finite maximum I

  abbrev pub Lost : Error → Machine W → Type 0
  Lost = Fails network remaining finite maximum I

  abbrev pub HasSocket : Machine W → Type 0
  HasSocket m = m.relay.socket ≡ true

  -- After an attempt that succeeded the connection stands; after one that failed there are fewer.
  abbrev pub Tried : ℕ → Bool → Machine W → Type 0
  Tried n true m = Kept (suc n) m × HasSocket m
  Tried n false m = Kept n m

  pub Kept-mono : (a b : ℕ) (m : Machine W) → a ≤ b → Kept a m → Kept b m
  Kept-mono a b m h (i, same, few, less) = (i, same, few, omega (arith, less))

  try_again-Post :
      (n : ℕ) (cause : Cause) (m : Machine W)
      → Kept (suc n) m
      → Post (Tried n) Lost (try_again network cause m)
  unfolding try_again
  try_again-Post n cause m h =
      Post-continue _ (failed_with-Post network remaining finite maximum I n cause m h)
        λ _ m1 h1. Post-ok h1

  status_refused-Post :
      (n status : ℕ) (kind : ConnectionKind) (m : Machine W)
      → Kept (suc n) m
      → Post (Tried n) Lost (status_refused network status kind m)
  unfolding status_refused
  status_refused-Post n status kind m h =
      Post-branch (status == 403 && is_client kind) (λ _. Post-err (h.0, tt))
        λ _. Post-branch (ltb status 500) (λ _. Post-err (h.0, tt)) λ _. try_again-Post n _ m h

  attempted-Post :
      (n : ℕ) (attempt : Attempt) (m : Machine W)
      → Kept (suc n) m
      → Post (Tried n) Lost (attempted network attempt m)
  unfolding attempted
  attempted-Post n connected m h = Post-ok (h, refl)
  attempted-Post n timed_out m h = try_again-Post n _ m h
  attempted-Post n (did_not_switch_protocols status) m h = status_refused-Post n status _ m h
  attempted-Post n (rejected status) m h =
      Post-branch (leb 500 status && ltb status 600) (λ _. try_again-Post n _ m h)
        (λ _. Post-err (h.0, tt))
  attempted-Post n (errored error) m h = try_again-Post n _ m h

  pub no_fuel : {A : Type 0} (m : Machine W) → Kept 0 m → A
  no_fuel m (_, _, _, less) = absurd (omega (arith, less))

  connect_loop-Post :
      (fuel : ℕ) (m : Machine W)
      → Kept fuel m
      → Post (λ _ m1. Kept fuel m1 × HasSocket m1) Lost (connect_loop network fuel m)
  unfolding connect_loop
  connect_loop-Post zero m h = no_fuel m h
  connect_loop-Post (suc fuel) m h =
      let timeout = m.retry.policy.connection_timeout in
      let kept =
        set_world-Within network remaining finite maximum I 1 (suc fuel) m
          (network.connect timeout m.world).1 (finite.connects timeout m.world) h in
      Post-continue _ (attempted-Post fuel _ _ kept) (elim [
        | true ↦ λ m1 h1. Post-ok h1
        | false ↦ λ m1 h1.
            Post-weaken (connect_loop-Post fuel m1 h1)
              λ _ m2 (h2, socket). (Kept-mono fuel (suc fuel) m2 (omega arith) h2, socket)
      ])

  pub ensure_connected-Post :
      (fuel : ℕ) (m : Machine W)
      → Kept fuel m
      → Post (λ _ m1. Kept fuel m1 × HasSocket m1) Lost (ensure_connected network fuel m)
  unfolding ensure_connected
  ensure_connected-Post fuel m h =
      Post-branch m.relay.socket (λ connected. Post-ok (h, connected))
        λ _. Post-continue _ (connect_loop-Post fuel m h) λ _ m1 h1. Post-ok h1

  -- After the connection is given up there is nothing that was received.
  abbrev pub Received : {A : Type 0} → ℕ → Option A → Machine W → Type 0
  Received n none m = Kept n m
  Received n (some _) m = Kept n m × HasSocket m

  pub disconnect-Post :
      (A : Type 0) (P : A → Machine W → Type 0) (n : ℕ) (cause : Cause) (m : Machine W)
      → Kept (suc n) m
      → Post (elim [ none ↦ Kept n | some a ↦ P a ]) Lost (disconnect network {A = A} cause m)
  unfolding disconnect
  disconnect-Post A P n cause m h =
      Post-continue _ (failed_with-Post network remaining finite maximum I n cause _ h)
        λ _ m1 h1. Post-ok h1

  send_result-Post :
      (n : ℕ) (result : Option Text) (m : Machine W)
      → Kept (suc n) m
      → HasSocket m
      → Post (Tried n) Lost (send_result network result m)
  unfolding send_result
  send_result-Post n none m h socket = Post-ok (h, socket)
  send_result-Post n (some error) m h socket = try_again-Post n _ _ h

  pub send_text-Post :
      (n : ℕ) (encoded : Text) (m : Machine W)
      → Kept (suc n) m
      → HasSocket m
      → Post (Tried n) Lost (send_text network encoded m)
  unfolding send_text
  send_text-Post n encoded m h socket =
      Post-branch m.relay.socket
        (λ _.
          send_result-Post n _ _
            (set_world-Within network remaining finite maximum I 1 (suc n) m
              (network.send (sent_text encoded) m.world).1
              (finite.sends (sent_text encoded) m.world) h)
            socket)
        (λ closed. absurd (cc))

  send_frame-Post :
      (n : ℕ) (json : Json) (encoded : Result Text Text) (m : Machine W)
      → Kept (suc n) m
      → HasSocket m
      → Post (Tried n) Lost (send_frame network json encoded m)
  unfolding send_frame
  send_frame-Post n json (err error) m h socket = Post-err (h.0, tt)
  send_frame-Post n json (ok encoded) m h socket = send_text-Post n encoded m h socket

  pub send_resume-Post :
      (n : ℕ) (json : Json) (m : Machine W)
      → Kept (suc n) m
      → HasSocket m
      → Post (Tried n) Lost (send_resume network json m)
  unfolding send_resume
  send_resume-Post n json m h socket = send_frame-Post n json _ m h socket

  pub send_ack-Post :
      (n : ℕ) (json : Json) (kind : MessageKind) (m : Machine W)
      → Kept (suc n) m
      → HasSocket m
      → Post (Tried n) Lost (send_ack network json kind m)
  unfolding send_ack
  send_ack-Post n json kind m h socket = send_frame-Post n json _ m h socket
