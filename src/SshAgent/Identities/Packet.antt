-- ===== src/SshAgent/Identities/Packet.antt =====
-- Reading and writing the list of identities.
use agentknock_cli.Prelude.{
  ℕ, zero, suc, ◌≡◌, ◌↔◌, ◌<◌, ◌^◌, refl, sym, ap, ◌∙◌, subst, some-injective, arith, ltb, ltb→lt,
  lt→ltb, Bool-cases, inl, inr, some, List, [], ◌∷◌, ◌++◌, append_assoc, append-nil, ok, ◌>>=◌,
  >>-eq-ok, >>-eq-ok_unit, >>=-eq-ok, ok-injective, and_then, and_then-eq-some, All, length, ◌==◌,
  nat_eq, nat_beq_iff,
}
use agentknock_cli.SshAgent.Wire.{Bytes, IsBytes, byte, u32, end, to_be_bytes, put_u32, put_string}
use agentknock_cli.SshAgent.Wire.RoundTrip.{
  encoded, put_string-eq, string-encoded, u32-to_be_bytes, u32-eq-ok, string->>=-eq-ok,
  byte->>=-eq-ok, end-eq-ok,
}
use agentknock_cli.SshAgent.Identities.{
  ListedIdentity, parse_entries, parse_identities_response, encode_entries,
  encode_identities_response,
}

-- An identity whose parts have lengths of 32 bits.
abbrev pub FitsPacket : ListedIdentity → Type 0
FitsPacket identity = (length identity.key_blob < 2 ^ 32) × (length identity.comment < 2 ^ 32)

entries : List ListedIdentity → Bytes
entries [] = []
entries (identity ∷ identities) =
    encoded identity.key_blob ++ (encoded identity.comment ++ entries identities)

put_string-Fits :
    (output value : Bytes) {result : Bytes}
    → put_string output value ≡ some result
    → length value < 2 ^ 32
unfolding put_string
put_string-Fits output value h = elim (Bool-cases (ltb (length value) (2 ^ 32))) [
  | inl fits ↦ ltb→lt _ _ fits
  | inr long ↦ absurd (ground arith)
]

encode_entries-eq :
    (output : Bytes) (identities : List ListedIdentity)
    → All FitsPacket identities
    → encode_entries output identities ≡ some (output ++ entries identities)
unfolding encode_entries entries
encode_entries-eq output [] _ = ap some (sym (append-nil output))
encode_entries-eq output (i ∷ is) ((hk, hc), h) =
    let first = output ++ encoded i.key_blob in
    let rest = encode_entries-eq (first ++ encoded i.comment) is h in
    let same =
      append_assoc first (encoded i.comment) (entries is)
      ∙ append_assoc output (encoded i.key_blob) (encoded i.comment ++ entries is) in
    rw (put_string-eq output i.key_blob hk, and_then)
      (rw (put_string-eq first i.comment hc, and_then) (rest ∙ ap some same))

encode_entries-Fits :
    (output : Bytes) (identities : List ListedIdentity) {result : Bytes}
    → encode_entries output identities ≡ some result
    → All FitsPacket identities
unfolding encode_entries
encode_entries-Fits output [] h = tt
encode_entries-Fits output (i ∷ is) h =
    let (o1, e1, h1) = and_then-eq-some (put_string output i.key_blob) _ h in
    let (o2, e2, h2) = and_then-eq-some (put_string o1 i.comment) _ h1 in
    (
      (put_string-Fits output i.key_blob e1, put_string-Fits o1 i.comment e2),
      encode_entries-Fits o2 is h2,
    )

parse_entries-entries :
    (identities : List ListedIdentity) (rest : Bytes)
    → All FitsPacket identities
    → parse_entries (length identities) (entries identities ++ rest) ≡ ok (identities, rest)
unfolding parse_entries entries
parse_entries-entries [] rest _ = refl
parse_entries-entries (i ∷ is) rest ((hk, hc), h) =
    rw
      (
        append_assoc (encoded i.key_blob),
        append_assoc (encoded i.comment),
        string-encoded i.key_blob (encoded i.comment ++ (entries is ++ rest)) hk,
        ◌>>=◌,
      )
      (rw (string-encoded i.comment (entries is ++ rest) hc, ◌>>=◌)
        (rw (parse_entries-entries is rest h, ◌>>=◌) refl))

layout :
    (k c : Bytes) (is : List ListedIdentity) (r3 : Bytes) {r0 r1 r2 : Bytes}
    → r0 ≡ encoded k ++ r1
    → r1 ≡ encoded c ++ r2
    → r2 ≡ entries is ++ r3
    → r0 ≡ entries (record { key_blob = k; comment = c } ∷ is) ++ r3
unfolding entries
layout k c is r3 e0 e1 e2 = rw (e0, e1, e2, append_assoc (encoded k), append_assoc (encoded c)) refl

-- What a read of entries says of the bytes that it was read from.
abbrev AreEntries : ℕ → Bytes → List ListedIdentity × Bytes → Type 0
AreEntries count response (identities, rest) =
    (response ≡ entries identities ++ rest)
    × (length identities ≡ count)
    × All FitsPacket identities
    × IsBytes rest

parse_entries-eq-ok :
    (count : ℕ) (response : Bytes) {result : List ListedIdentity × Bytes}
    → IsBytes response
    → parse_entries count response ≡ ok result
    → AreEntries count response result
unfolding parse_entries entries
parse_entries-eq-ok zero response b h =
    subst (AreEntries 0 response) (ok-injective h) (refl, refl, tt, b)
parse_entries-eq-ok (suc count) response b h =
    let (k, r1, e1, hk, _, b1, h1) = string->>=-eq-ok response _ b h in
    let (c, r2, e2, hc, _, b2, h2) = string->>=-eq-ok r1 _ b1 h1 in
    let ((is, r3), read, h3) = >>=-eq-ok (parse_entries count r2) _ h2 in
    let (e3, len, fits, b3) = parse_entries-eq-ok count r2 b2 read in
    subst (AreEntries (suc count) response) (ok-injective h3)
      (layout k c is r3 e1 e2 e3, ap suc len, ((hk, hc), fits), b3)

framed :
    (is : List ListedIdentity) {packet r1 r2 r3 : Bytes} {kind count : ℕ}
    → kind ≡ 12
    → packet ≡ kind ∷ r1
    → r1 ≡ to_be_bytes count ++ r2
    → length is ≡ count
    → r2 ≡ entries is ++ r3
    → r3 ≡ []
    → packet ≡ 12 ∷ (to_be_bytes (length is) ++ entries is)
framed is ek e1 e2 el e3 e4 = rw (e1, ek, e2, ← el, e3, e4, append-nil (entries is)) refl

encode_identities-eq :
    (identities : List ListedIdentity)
    → length identities < 2 ^ 32
    → All FitsPacket identities
    → encode_identities_response identities
      ≡ some (12 ∷ (to_be_bytes (length identities) ++ entries identities))
unfolding encode_identities_response put_u32
encode_identities-eq identities small fits =
    rw (lt→ltb _ _ small) (encode_entries-eq _ identities fits)

encode_identities-Fits :
    (identities : List ListedIdentity) {packet : Bytes}
    → encode_identities_response identities ≡ some packet
    → (length identities < 2 ^ 32) × All FitsPacket identities
unfolding encode_identities_response
encode_identities-Fits identities h = elim (Bool-cases (ltb (length identities) (2 ^ 32))) [
  | inl small ↦ (ltb→lt _ _ small, encode_entries-Fits _ identities (rw small at h))
  | inr long ↦ absurd (ground arith)
]

parse_identities-framed :
    (identities : List ListedIdentity)
    → length identities < 2 ^ 32
    → All FitsPacket identities
    → parse_identities_response (12 ∷ (to_be_bytes (length identities) ++ entries identities))
      ≡ ok identities
unfolding parse_identities_response byte end
parse_identities-framed identities small fits =
    let read : parse_entries (length identities) (entries identities) ≡ ok (identities, []) =
      rw (append-nil (entries identities)) at (parse_entries-entries identities [] fits) in
    rw (u32-to_be_bytes (length identities) (entries identities) small, ◌>>=◌)
      (rw (read, ◌>>=◌) refl)

parse_identities_sound :
    (packet : Bytes) {identities : List ListedIdentity}
    → IsBytes packet
    → parse_identities_response packet ≡ ok identities
    → (packet ≡ 12 ∷ (to_be_bytes (length identities) ++ entries identities))
      × (length identities < 2 ^ 32)
      × All FitsPacket identities
unfolding parse_identities_response
parse_identities_sound packet b h =
    let (kind, r1, e1, b1, h1) = byte->>=-eq-ok packet _ b h in
    let (same, h2) = >>-eq-ok (kind == 12) _ _ h1 in
    let ((count, r2), number, h3) = >>=-eq-ok (u32 r1) _ h2 in
    let (e2, small, b2) = u32-eq-ok r1 b1 number in
    let ((is, r3), read, h4) = >>=-eq-ok (parse_entries count r2) _ h3 in
    let (e3, len, fits, _) = parse_entries-eq-ok count r2 b2 read in
    let (ended, h5) = >>-eq-ok_unit (end r3) _ h4 in
    subst
      (λ (ids : List ListedIdentity).
        (packet ≡ 12 ∷ (to_be_bytes (length ids) ++ entries ids))
        × (length ids < 2 ^ 32)
        × All FitsPacket ids)
      (ok-injective h5)
      (
        framed is ((nat_beq_iff kind 12).0 same) e1 e2 len e3 (end-eq-ok r3 ended),
        rw (← len) at small,
        fits,
      )

-- A list of identities is read from the bytes of a packet exactly if the packet is what is written
-- for that list.
pub parse-encode_iff :
    (packet : Bytes) (identities : List ListedIdentity)
    → IsBytes packet
    → (parse_identities_response packet ≡ ok identities)
      ↔ (encode_identities_response identities ≡ some packet)
parse-encode_iff packet identities b = (
  λ read.
      let (e, small, fits) = parse_identities_sound packet b read in
      encode_identities-eq identities small fits ∙ ap some (sym e),
  λ written.
      let (small, fits) = encode_identities-Fits identities written in
      let e = some-injective (sym (encode_identities-eq identities small fits) ∙ written) in
      subst (λ (p : Bytes). parse_identities_response p ≡ ok identities) e
        (parse_identities-framed identities small fits),
)
