-- ===== src/SshAgent/Authentication/Routing.antt =====
-- Which packets lead to a signature.
use agentknock_cli.Prelude.{
  ℕ, append-nil, ap, ◌≡◌, ◌↔◌, refl, arith, inl, inr, Result, ok, err, ◌<◌, ◌^◌, ◌>>=◌, ◌>>◌, [],
  ◌∷◌, ◌++◌, text_eq, nat_eq, text_beq_refl, Result-cases, >>=-eq-ok, >>-eq-ok_unit, Option, some,
  none,
}
use agentknock_cli.SshAgent.Wire.{Bytes, IsBytes, string, u32, end, InvalidData, to_be_bytes}
use agentknock_cli.SshAgent.Wire.RoundTrip.{
  encoded, string-encoded, string-eq-ok, string->>=-eq-ok, u32-eq-ok, end-eq-ok, u32-to_be_bytes,
}
use agentknock_cli.SshAgent.Authentication.{
  KeyKind, rsa, SelectedIdentity, Route, authenticate, signature_algorithm, authentication_request,
  or_refuse, parse_authentication, route, validate_authentication_message,
}
use agentknock_cli.SshAgent.Authentication.Spec.{
  IsAuthentication, Fits, Selects, ed25519_plain, rsa_with_sha256, rsa_with_sha512, IsSignRequest,
}
use agentknock_cli.SshAgent.Authentication.Sound.{validate_authentication_message_sound}
use agentknock_cli.SshAgent.Authentication.Complete.{validate_authentication_message_complete}
use agentknock_cli.SshAuthentication.{SshSignatureAlgorithm, ed25519, rsa_sha256, rsa_sha512}

signature_algorithm-Selects :
    (kind : Option KeyKind) (flags : ℕ) (algorithm : SshSignatureAlgorithm)
    → signature_algorithm kind flags ≡ ok algorithm
    → Selects kind flags algorithm
unfolding signature_algorithm
signature_algorithm-Selects (some KeyKind.ed25519) flags ed25519 h =
    ed25519_plain flags (ground arith)
signature_algorithm-Selects (some KeyKind.ed25519) flags rsa_sha256 h = absurd (ground arith)
signature_algorithm-Selects (some KeyKind.ed25519) flags rsa_sha512 h = absurd (ground arith)
signature_algorithm-Selects (some rsa) flags ed25519 h = absurd (ground arith)
signature_algorithm-Selects (some rsa) flags rsa_sha256 h = rsa_with_sha256 flags (ground arith)
signature_algorithm-Selects (some rsa) flags rsa_sha512 h = rsa_with_sha512 flags (ground arith)
signature_algorithm-Selects none flags algorithm h = cc

Selects-signature_algorithm :
    {kind : Option KeyKind} {flags : ℕ} {algorithm : SshSignatureAlgorithm}
    → Selects kind flags algorithm
    → (signature_algorithm kind flags ≡ ok algorithm) × (flags < 2 ^ 32)
unfolding signature_algorithm
Selects-signature_algorithm (ed25519_plain flags e) = rw e (refl, omega arith)
Selects-signature_algorithm (rsa_with_sha256 flags e) = rw e (refl, omega arith)
Selects-signature_algorithm (rsa_with_sha512 flags e) = rw e (refl, omega arith)

or_refuse-authenticate :
    (r : Result InvalidData Route) {algorithm : SshSignatureAlgorithm} {message : Bytes}
    → or_refuse r ≡ authenticate algorithm message
    → r ≡ ok (authenticate algorithm message)
or_refuse-authenticate (ok r) h = ap ok h
or_refuse-authenticate (err e) h = cc

module _ (identity : SelectedIdentity) where
  route-eq-authenticate :
      (packet : Bytes) {algorithm : SshSignatureAlgorithm} {message : Bytes}
      → route identity packet ≡ authenticate algorithm message
      → (contents : Bytes) × (packet ≡ 13 ∷ contents)
        × (parse_authentication identity contents ≡ authenticate algorithm message)
  unfolding route
  route-eq-authenticate [] h = cc
  route-eq-authenticate (t ∷ contents) h = (contents, ground arith, ground arith)

  parse-eq-authenticate :
      (contents : Bytes) {algorithm : SshSignatureAlgorithm} {message : Bytes}
      → IsBytes contents
      → parse_authentication identity contents ≡ authenticate algorithm message
      → (rest : Bytes) × (contents ≡ encoded identity.key_blob ++ rest)
        × IsBytes rest
        × (authentication_request identity rest ≡ ok (authenticate algorithm message))
  unfolding parse_authentication
  parse-eq-authenticate contents {algorithm} {message} b h = elim (Result-cases (string contents)) [
    | inl ((key_blob, rest), read) ↦
        let (layout, _, _, b') = string-eq-ok contents b read in
        let (same, accepted) : (key_blob ≡ identity.key_blob)
            × (or_refuse (authentication_request identity rest) ≡ authenticate algorithm message) =
          ground arith in
        (rest, rw (← same) layout, b', or_refuse-authenticate _ accepted)
    | inr (e, failed) ↦ absurd (ground arith)
  ]

  request-eq-authenticate :
      (rest : Bytes) {algorithm : SshSignatureAlgorithm} {message : Bytes}
      → IsBytes rest
      → authentication_request identity rest ≡ ok (authenticate algorithm message)
      → (flags : ℕ) × (rest ≡ encoded message ++ to_be_bytes flags)
        × Fits message
        × Selects identity.key_kind flags algorithm
        × IsAuthentication message identity.key_blob algorithm
  unfolding authentication_request
  request-eq-authenticate rest {algorithm} {message} b h =
      let (found, r1, e1, fits, found_b, b1, h1) = string->>=-eq-ok rest _ b h in
      let ((flags, r2), number, h2) = >>=-eq-ok (u32 r1) _ h1 in
      let (e2, _, b2) = u32-eq-ok r1 b1 number in
      let (ended, h3) = >>-eq-ok_unit (end r2) _ h2 in
      let (chosen, selected, h4) = >>=-eq-ok (signature_algorithm identity.key_kind flags) _ h3 in
      let (valid, h5) =
        >>-eq-ok_unit (validate_authentication_message found identity.key_blob chosen) _ h4 in
      let (same_algorithm, same_message) : (chosen ≡ algorithm) × (found ≡ message) =
        ground arith in
      let left : r1 ≡ to_be_bytes flags = rw (e2, end-eq-ok r2 ended) (append-nil _) in
      (
        flags,
        rw (e1, same_message, left) refl,
        rw same_message at fits,
        rw same_algorithm at (signature_algorithm-Selects identity.key_kind flags chosen selected),
        rw (same_algorithm, same_message) at
            (validate_authentication_message_sound found identity.key_blob chosen found_b valid),
      )

  route_sound :
      (packet message : Bytes) (algorithm : SshSignatureAlgorithm)
      → IsBytes packet
      → route identity packet ≡ authenticate algorithm message
      → IsSignRequest identity packet message algorithm
  route_sound packet message algorithm b h =
      let (contents, e, parsed) = route-eq-authenticate packet h in
      let (_, contents_b) : IsBytes (13 ∷ contents) = rw e at b in
      let (rest, e', b', accepted) = parse-eq-authenticate contents contents_b parsed in
      let (flags, e'', fits, selects, a) = request-eq-authenticate rest b' accepted in
      record {
        flags = flags;
        layout = rw (e, e', e'') refl;
        message_fits = fits;
        selects = selects;
        authentication = a;
      }

  request_complete :
      (message : Bytes) (algorithm : SshSignatureAlgorithm) (flags : ℕ)
      → Fits identity.key_blob
      → Fits message
      → Selects identity.key_kind flags algorithm
      → IsAuthentication message identity.key_blob algorithm
      → authentication_request identity (encoded message ++ to_be_bytes flags)
        ≡ ok (authenticate algorithm message)
  unfolding authentication_request end
  request_complete message algorithm flags key_fits fits selects a =
      let (selected, small) = Selects-signature_algorithm selects in
      let number : u32 (to_be_bytes flags) ≡ ok (flags, []) =
        rw (append-nil (to_be_bytes flags)) at (u32-to_be_bytes flags [] small) in
      let valid = validate_authentication_message_complete identity.key_blob key_fits algorithm a in
      rw (string-encoded message (to_be_bytes flags) fits, ◌>>=◌)
        (rw (number, ◌>>=◌) (rw (selected, ◌>>=◌) (rw (valid, ◌>>◌) refl)))

  parse_complete :
      (rest message : Bytes) (algorithm : SshSignatureAlgorithm)
      → Fits identity.key_blob
      → authentication_request identity rest ≡ ok (authenticate algorithm message)
      → parse_authentication identity (encoded identity.key_blob ++ rest)
        ≡ authenticate algorithm message
  unfolding parse_authentication
  parse_complete rest message algorithm key_fits h =
      rw (string-encoded identity.key_blob rest key_fits, parse_authentication)
        (rw (text_beq_refl identity.key_blob, h) refl)

  route_complete :
      (packet message : Bytes) (algorithm : SshSignatureAlgorithm)
      → Fits identity.key_blob
      → IsSignRequest identity packet message algorithm
      → route identity packet ≡ authenticate algorithm message
  unfolding route
  route_complete packet message algorithm key_fits s = rw s.layout (
      parse_complete _ message algorithm key_fits (
        request_complete message algorithm s.flags key_fits s.message_fits s.selects
          s.authentication))

  -- A packet leads to a signature exactly if it asks to sign, with flags that fit the kind of the
  -- selected key, the message of a user authentication with that key and that algorithm.
  pub route-authenticate_iff :
      (packet message : Bytes) (algorithm : SshSignatureAlgorithm)
      → IsBytes packet
      → Fits identity.key_blob
      → (route identity packet ≡ authenticate algorithm message)
        ↔ IsSignRequest identity packet message algorithm
  route-authenticate_iff packet message algorithm b key_fits =
      (route_sound packet message algorithm b, route_complete packet message algorithm key_fits)
