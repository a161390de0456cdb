-- ===== src/SshAgent/Connection/Phases.antt =====
-- What the upstream agent can change.
use agentknock_cli.Prelude.{
  ◌≡◌, ◌↔◌, ◌⊎◌, refl, ap, ◌∙◌, Bool, true, false, arith, Option, none, some, inl, inr, List, [],
  ◌∷◌,
}
use agentknock_cli.SshAgent.Wire.{Bytes, IsBytes}
use agentknock_cli.SshAgent.Authentication.{
  SelectedIdentity, Route, list_identities, forward, extension_query, refuse, route,
}
use agentknock_cli.SshAgent.Authentication.Spec.{Fits, IsSignRequest}
use agentknock_cli.SshAgent.Authentication.Routing.{route-authenticate_iff}
use agentknock_cli.SshAgent.Connection.{
  authenticate, StreamOperations, Upstream, unconnected, connected, unavailable, connect_upstream,
  new_upstream, exchange, forward_connected, forward_packet, answer_route, handle, handle_all,
}
use agentknock_cli.SshAuthentication.{SshSignatureAlgorithm}

-- The routes on which the upstream agent is asked.
unfoldable pub asks_upstream : Route → Bool
asks_upstream list_identities = true
asks_upstream (Route.authenticate _ _) = false
asks_upstream forward = true
asks_upstream extension_query = true
asks_upstream refuse = false

module _ (Socket Stream : Type 0) (operations : StreamOperations Stream)
    (connect : Socket → Option Stream) (selected : SelectedIdentity) where
  -- The upstream agent cannot be connected, or does not answer the packet, or is given up.
  abbrev pub Fails : Upstream Socket Stream → Bytes → Type 0
  Fails (unconnected socket) packet =
      (connect socket ≡ none)
      ⊎ ((stream : Stream) × (connect socket ≡ some stream)
          × (exchange Socket Stream operations connect stream packet ≡ none))
  Fails (connected stream) packet = exchange Socket Stream operations connect stream packet ≡ none
  Fails unavailable packet = Unit

  connect-refused :
      (socket : Socket)
      → connect socket ≡ none
      → connect_upstream Socket Stream operations connect (unconnected socket) ≡ unavailable
  unfolding connect_upstream
  connect-refused socket refused = rw (connect_upstream, refused) refl

  connect-accepted :
      (socket : Socket) (stream : Stream)
      → connect socket ≡ some stream
      → connect_upstream Socket Stream operations connect (unconnected socket) ≡ connected stream
  unfolding connect_upstream
  connect-accepted socket stream accepted = rw (connect_upstream, accepted) refl

  forward_connected-failed :
      (stream : Stream) (packet : Bytes)
      → exchange Socket Stream operations connect stream packet ≡ none
      → forward_connected Socket Stream operations connect (connected stream) packet
        ≡ (none, unavailable)
  unfolding forward_connected
  forward_connected-failed stream packet failed = rw (forward_connected, failed) refl

  forward_packet-failed :
      (upstream : Upstream Socket Stream) (packet : Bytes)
      → Fails upstream packet
      → forward_packet Socket Stream operations connect upstream packet ≡ (none, unavailable)
  unfolding forward_packet forward_connected connect_upstream
  forward_packet-failed (unconnected socket) packet (inl refused) =
      ap (λ u. forward_connected Socket Stream operations connect u packet)
        (connect-refused socket refused)
  forward_packet-failed (unconnected socket) packet (inr (stream, accepted, failed)) =
      ap (λ u. forward_connected Socket Stream operations connect u packet)
        (connect-accepted socket stream accepted)
      ∙ forward_connected-failed stream packet failed
  forward_packet-failed (connected stream) packet failed =
      forward_connected-failed stream packet failed
  forward_packet-failed unavailable packet failed = refl

  answer_route-failed :
      (r : Route) (upstream : Upstream Socket Stream) (packet : Bytes)
      → asks_upstream r ≡ true
      → Fails upstream packet
      → answer_route Socket Stream operations connect selected r upstream packet
        ≡ answer_route Socket Stream operations connect selected r unavailable packet
  unfolding answer_route asks_upstream
  answer_route-failed list_identities upstream packet asks failed =
      rw (forward_packet-failed upstream packet failed, forward_packet-failed unavailable packet tt)
        refl
  answer_route-failed (Route.authenticate _ _) upstream packet asks failed = absurd (cc)
  answer_route-failed forward upstream packet asks failed =
      rw (forward_packet-failed upstream packet failed, forward_packet-failed unavailable packet tt)
        refl
  answer_route-failed extension_query upstream packet asks failed =
      rw (forward_packet-failed upstream packet failed, forward_packet-failed unavailable packet tt)
        refl
  answer_route-failed refuse upstream packet asks failed = absurd (cc)

  answer_route-stays :
      (r : Route) (packet : Bytes)
      → (answer_route Socket Stream operations connect selected r unavailable packet).1
        ≡ unavailable
  unfolding answer_route forward_packet forward_connected connect_upstream
  answer_route-stays list_identities packet = refl
  answer_route-stays (Route.authenticate _ _) packet = refl
  answer_route-stays forward packet = refl
  answer_route-stays extension_query packet = refl
  answer_route-stays refuse packet = refl

  handle_all-stays :
      (packets : List Bytes)
      → (handle_all Socket Stream operations connect selected unavailable packets).1 ≡ unavailable
  unfolding handle_all handle
  handle_all-stays [] = refl
  handle_all-stays (packet ∷ packets) =
      ap (λ u. (handle_all Socket Stream operations connect selected u packets).1)
        (answer_route-stays (route selected packet) packet)
      ∙ handle_all-stays packets

  -- Once the upstream agent cannot be connected or fails to answer a request that it is asked, that
  -- request and all later ones are answered as if there had never been an upstream agent, and the
  -- connection is unavailable after them.
  pub handle_all-failed :
      (upstream : Upstream Socket Stream) (packet : Bytes) (packets : List Bytes)
      → asks_upstream (route selected packet) ≡ true
      → Fails upstream packet
      → (handle_all Socket Stream operations connect selected upstream (packet ∷ packets)
          ≡ handle_all Socket Stream operations connect selected
              (new_upstream Socket Stream operations connect none)
              (packet ∷ packets))
        × ((handle_all Socket Stream operations connect selected upstream (packet ∷ packets)).1
            ≡ unavailable)
  unfolding handle_all handle new_upstream
  handle_all-failed upstream packet packets asks failed =
      let same = answer_route-failed (route selected packet) upstream packet asks failed in
      (
        ap
            (λ answered.
              let rest = handle_all Socket Stream operations connect selected answered.1 packets in
              (answered.0 ∷ rest.0, rest.1))
            same,
        ap (λ answered. (handle_all Socket Stream operations connect selected answered.1 packets).1)
              same
            ∙ handle_all-stays (packet ∷ packets),
      )

  answer_route-authenticate :
      (r : Route) (upstream : Upstream Socket Stream) (packet : Bytes)
      {algorithm : SshSignatureAlgorithm} {message : Bytes}
      → (answer_route Socket Stream operations connect selected r upstream packet).0
        ≡ authenticate algorithm message
      → r ≡ Route.authenticate algorithm message
  unfolding answer_route
  answer_route-authenticate list_identities upstream packet h = cc
  answer_route-authenticate (Route.authenticate _ _) upstream packet h = ground arith
  answer_route-authenticate forward upstream packet h = cc
  answer_route-authenticate extension_query upstream packet h = cc
  answer_route-authenticate refuse upstream packet h = cc

  -- Whatever the upstream agent does, a signature is asked for exactly if the packet is a request to
  -- sign an authentication with the selected key.
  pub handle-authenticate_iff :
      (upstream : Upstream Socket Stream) (packet message : Bytes)
      (algorithm : SshSignatureAlgorithm)
      → IsBytes packet
      → Fits selected.key_blob
      → ((handle Socket Stream operations connect selected upstream packet).0
          ≡ authenticate algorithm message)
        ↔ IsSignRequest selected packet message algorithm
  unfolding handle answer_route
  handle-authenticate_iff upstream packet message algorithm b fits =
      let (sound, complete) = route-authenticate_iff selected packet message algorithm b fits in
      (
        λ h. sound (answer_route-authenticate (route selected packet) upstream packet h),
        λ s. rw (complete s) refl,
      )
