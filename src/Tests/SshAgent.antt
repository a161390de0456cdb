-- ===== src/Tests/SshAgent.antt =====
-- An Ed25519 key, the packets that name it, and the lists that hold it.
use agentknock_cli.Prelude.{
  Text, codes, ◌≡◌, ◌↔◌, refl, arith, true, Option, none, some, List, [], ◌∷◌, ◌++◌, ok, subst,
  some-injective, Bool-cases, inl, inr, ◌<◌, ◌^◌, text_discrete, ℕ_discrete, length, ◌==◌, text_eq,
  if◌then◌else◌, is_some,
}
use agentknock_cli.Strings.{split_ascii_whitespace, split}
use agentknock_cli.SshAgent.Wire.{
  Bytes, IsBytes, IsBytes-all, to_be_bytes, from_be_bytes, string, u32, split_at, byte, end,
}
use agentknock_cli.SshAgent.Wire.RoundTrip.{encoded}
use agentknock_cli.SshAgent.Authentication.{
  KeyKind, SelectedIdentity, authenticate, route, publickey,
}
use agentknock_cli.SshAgent.Authentication.Spec.{IsSignRequest}
use agentknock_cli.SshAgent.Authentication.Routing.{route-authenticate_iff}
use agentknock_cli.SshAgent.Identity.{from_openssh, from_fields, parse_key}
use agentknock_cli.SshAgent.Identity.Keys.{DecodesBytes, IsKeyBlob, from_openssh_sound}
use agentknock_cli.SshAgent.Identities.{
  ListedIdentity, parse_entries, parse_identities_response, encode_identities_response,
  listed_identities, upstream_entries, contains,
}
use agentknock_cli.SshAgent.Identities.Packet.{parse-encode_iff}
use agentknock_cli.SshAgent.Identities.Merge.{keys, distinct, listed-keys}
use agentknock_cli.SshAuthentication.{ed25519, valid_signature}
use agentknock_cli.SshAuthentication.Signature.{IsSignature, valid_signature_iff}

abbrev raw_key : Bytes
raw_key =
    0 ∷ 0 ∷ 0 ∷ 0 ∷ 0 ∷ 0 ∷ 0 ∷ 0 ∷ 0 ∷ 0 ∷ 0 ∷ 0 ∷ 0 ∷ 0 ∷ 0 ∷ 0 ∷ 0 ∷ 0 ∷ 0 ∷ 0 ∷ 0 ∷ 0 ∷ 0 ∷ 0
    ∷ 0 ∷ 0 ∷ 0 ∷ 0 ∷ 0 ∷ 0 ∷ 0 ∷ 0 ∷ []

abbrev raw_signature : Bytes
raw_signature =
    7 ∷ 7 ∷ 7 ∷ 7 ∷ 7 ∷ 7 ∷ 7 ∷ 7 ∷ 7 ∷ 7 ∷ 7 ∷ 7 ∷ 7 ∷ 7 ∷ 7 ∷ 7 ∷ 7 ∷ 7 ∷ 7 ∷ 7 ∷ 7 ∷ 7 ∷ 7 ∷ 7
    ∷ 7 ∷ 7 ∷ 7 ∷ 7 ∷ 7 ∷ 7 ∷ 7 ∷ 7 ∷ 7 ∷ 7 ∷ 7 ∷ 7 ∷ 7 ∷ 7 ∷ 7 ∷ 7 ∷ 7 ∷ 7 ∷ 7 ∷ 7 ∷ 7 ∷ 7 ∷ 7 ∷ 7
    ∷ 7 ∷ 7 ∷ 7 ∷ 7 ∷ 7 ∷ 7 ∷ 7 ∷ 7 ∷ 7 ∷ 7 ∷ 7 ∷ 7 ∷ 7 ∷ 7 ∷ 7 ∷ 7 ∷ []

-- The encodings are run, so that the data below are literal bytes.
wire : Bytes → Bytes
unfolding to_be_bytes
wire value = encoded value

key_blob : Bytes
unfolding wire
key_blob = wire (codes "ssh-ed25519") ++ wire raw_key

pub message : Bytes
unfolding wire key_blob
message =
    wire (codes "session")
    ++ (50
        ∷ (wire (codes "user")
            ++ (wire (codes "ssh-connection")
                ++ (wire publickey ++ (1 ∷ (wire (codes "ssh-ed25519") ++ wire key_blob))))))

pub packet : Bytes
unfolding wire key_blob message to_be_bytes
packet = 13 ∷ (wire key_blob ++ (wire message ++ to_be_bytes 0))

pub selected : SelectedIdentity
unfolding key_blob
selected = record { key_blob = key_blob; key_kind = some KeyKind.ed25519; comment = codes "work" }

pub selected-fits : length selected.key_blob < 2 ^ 32
unfolding selected key_blob wire to_be_bytes
selected-fits = omega arith

pub packet-IsBytes : IsBytes packet
unfolding packet wire message key_blob to_be_bytes
packet-IsBytes = IsBytes-all packet refl

route-authenticate_iff_example :
    (route selected packet ≡ authenticate ed25519 message)
    ↔ IsSignRequest selected packet message ed25519
route-authenticate_iff_example =
    route-authenticate_iff selected packet message ed25519 packet-IsBytes selected-fits

signature : Bytes
unfolding wire
signature = wire (codes "ssh-ed25519") ++ wire raw_signature

signature-IsBytes : IsBytes signature
unfolding signature wire to_be_bytes
signature-IsBytes = IsBytes-all signature refl

valid_signature_iff_example :
    (valid_signature signature ed25519 ≡ true) ↔ IsSignature signature ed25519
valid_signature_iff_example = valid_signature_iff signature ed25519 signature-IsBytes

-- A decoder that knows one text.
decode : Text → Option Bytes
unfolding text_discrete ℕ_discrete key_blob
decode encoded_key = if encoded_key == codes "AAAA" then some key_blob else none

decode-DecodesBytes : DecodesBytes decode
unfolding decode key_blob wire to_be_bytes
decode-DecodesBytes encoded_key blob h = elim (Bool-cases (encoded_key == codes "AAAA")) [
  | inl known ↦ subst IsBytes (some-injective (rw known at h)) (IsBytes-all key_blob refl)
  | inr unknown ↦ absurd (ground arith)
]

parsed : from_openssh decode (codes "ssh-ed25519 AAAA") (codes "work") ≡ ok selected
unfolding from_openssh from_fields parse_key decode selected key_blob wire string u32 split_at end
    to_be_bytes from_be_bytes split_ascii_whitespace split text_discrete ℕ_discrete
parsed = refl

from_openssh_sound_example :
    (algorithm : Text) × IsKeyBlob algorithm selected.key_blob selected.key_kind
    × (selected.comment ≡ codes "work")
from_openssh_sound_example =
    from_openssh_sound decode decode-DecodesBytes (codes "ssh-ed25519 AAAA") (codes "work") parsed

abbrev two_identities : List ListedIdentity
two_identities =
    record { key_blob = codes "first"; comment = codes "a" }
    ∷ record { key_blob = codes "second"; comment = [] }
    ∷ []

answer : Bytes
unfolding wire to_be_bytes
answer =
    12
    ∷ (to_be_bytes 2
        ++ (wire (codes "first") ++ (wire (codes "a") ++ (wire (codes "second") ++ wire []))))

read_answer : parse_identities_response answer ≡ ok two_identities
unfolding answer wire parse_identities_response parse_entries byte string u32 split_at end
    to_be_bytes from_be_bytes
read_answer = refl

answer-IsBytes : IsBytes answer
unfolding answer wire to_be_bytes
answer-IsBytes = IsBytes-all answer refl

parse-encode_iff_example :
    (parse_identities_response answer ≡ ok two_identities)
    ↔ (encode_identities_response two_identities ≡ some answer)
parse-encode_iff_example = parse-encode_iff answer two_identities answer-IsBytes

listed-keys_example :
    (distinct (keys (listed_identities selected (some answer))) ≡ true)
    × ((key : Bytes)
        → contains key (keys (listed_identities selected (some answer))) ≡ (
            if key == selected.key_blob
            then is_some selected.key_kind
            else contains key (keys (upstream_entries (some answer)))))
listed-keys_example = listed-keys selected (some answer)
