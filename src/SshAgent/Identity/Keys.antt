-- ===== src/SshAgent/Identity/Keys.antt =====
-- What a selected identity is known to hold.
use agentknock_cli.Prelude.{
  Text, ap, ◌∙◌, append-nil, ◌≡◌, ◌≢◌, refl, arith, true, false, Bool-cases, inl, inr, ◌==◌, nat_eq,
  text_eq, text_beq_iff, nat_beq_iff, codes, Option, none, some, List, [], ◌∷◌, ◌++◌, ok, ok_or,
  not, is_nil, not-is_nil, length, >>=-eq-ok, >>-eq-ok, >>-eq-ok_unit, ok-injective, ok_or-eq-ok,
}
use agentknock_cli.Strings.{split_ascii_whitespace}
use agentknock_cli.SshAgent.Wire.{Bytes, IsBytes, end}
use agentknock_cli.SshAgent.Wire.RoundTrip.{encoded, string->>=-eq-ok, end-eq-ok}
use agentknock_cli.SshAgent.Authentication.{KeyKind, ed25519, rsa, SelectedIdentity}
use agentknock_cli.SshAgent.Identity.{parse_key, from_fields, from_openssh}

-- A key blob of a kind: the algorithm's name and the key's parts, and nothing more.
pub data IsKeyBlob : Text → Bytes → Option KeyKind → Type 0 where
  ed25519_key :
      (algorithm blob key : Bytes)
      → algorithm ≡ codes "ssh-ed25519"
      → blob ≡ encoded algorithm ++ encoded key
      → length key ≡ 32
      → IsKeyBlob algorithm blob (some ed25519)
  rsa_key :
      (algorithm blob exponent modulus : Bytes)
      → algorithm ≡ codes "ssh-rsa"
      → blob ≡ encoded algorithm ++ (encoded exponent ++ encoded modulus)
      → exponent ≢ []
      → modulus ≢ []
      → IsKeyBlob algorithm blob (some rsa)
  other_key :
      (algorithm blob rest : Bytes)
      → algorithm ≢ codes "ssh-ed25519"
      → algorithm ≢ codes "ssh-rsa"
      → blob ≡ encoded algorithm ++ rest
      → rest ≢ []
      → IsKeyBlob algorithm blob none

at_end :
    {input : Bytes} (value rest : Bytes)
    → input ≡ encoded value ++ rest
    → end rest ≡ ok tt
    → input ≡ encoded value
at_end value rest e h =
    e ∙ ap (λ (r : Bytes). encoded value ++ r) (end-eq-ok rest h) ∙ append-nil (encoded value)

module _ (algorithm blob rest : Bytes) (layout : blob ≡ encoded algorithm ++ rest)
    (b : IsBytes rest) where
  parse_ed25519 :
      {kind : Option KeyKind}
      → (algorithm == codes "ssh-ed25519") ≡ true
      → parse_key algorithm rest ≡ ok kind
      → IsKeyBlob algorithm blob kind
  unfolding parse_key
  parse_ed25519 {kind} named h =
      let (key, rest', e1, _, _, _, h1) = string->>=-eq-ok rest _ b (rw named at h) in
      let (sized, h2) = >>-eq-ok _ _ _ h1 in
      let (ended, h3) = >>-eq-ok_unit (end rest') _ h2 in
      let same : some ed25519 ≡ kind = ok-injective h3 in
      rw (← same) (
        ed25519_key algorithm blob key ((text_beq_iff _ _).0 named)
          (layout ∙ ap (λ (r : Bytes). encoded algorithm ++ r) (at_end key rest' e1 ended))
          ((nat_beq_iff _ _).0 sized))

  parse_rsa :
      {kind : Option KeyKind}
      → (algorithm == codes "ssh-ed25519") ≡ false
      → (algorithm == codes "ssh-rsa") ≡ true
      → parse_key algorithm rest ≡ ok kind
      → IsKeyBlob algorithm blob kind
  unfolding parse_key
  parse_rsa {kind} other named h =
      let h0 = rw named at (rw other at h) in
      let (exponent, m1, e1, _, _, b1, h1) = string->>=-eq-ok rest _ b h0 in
      let (some_exponent, h2) = >>-eq-ok (not (is_nil exponent)) _ _ h1 in
      let (modulus, m2, e2, _, _, _, h3) = string->>=-eq-ok m1 _ b1 h2 in
      let (some_modulus, h4) = >>-eq-ok (not (is_nil modulus)) _ _ h3 in
      let (ended, h5) = >>-eq-ok_unit (end m2) _ h4 in
      let same : some rsa ≡ kind = ok-injective h5 in
      rw (← same) (
        rsa_key algorithm blob exponent modulus ((text_beq_iff _ _).0 named)
          (layout
            ∙ ap (λ (r : Bytes). encoded algorithm ++ r)
                (e1 ∙ ap (λ (r : Bytes). encoded exponent ++ r) (at_end modulus m2 e2 ended)))
          (not-is_nil exponent some_exponent) (not-is_nil modulus some_modulus))

  parse_other :
      {kind : Option KeyKind}
      → (algorithm == codes "ssh-ed25519") ≡ false
      → (algorithm == codes "ssh-rsa") ≡ false
      → parse_key algorithm rest ≡ ok kind
      → IsKeyBlob algorithm blob kind
  unfolding parse_key
  parse_other {kind} other other' h =
      let (some_rest, h1) = >>-eq-ok _ _ _ (rw other' at (rw other at h)) in
      let same : none ≡ kind = ok-injective h1 in
      rw (← same) (
        other_key algorithm blob rest (ground arith) (ground arith) layout
          (not-is_nil rest some_rest))

  parse_key_sound :
      {kind : Option KeyKind} → parse_key algorithm rest ≡ ok kind → IsKeyBlob algorithm blob kind
  parse_key_sound h = elim (Bool-cases (algorithm == codes "ssh-ed25519")) [
    | inl named ↦ parse_ed25519 named h
    | inr other ↦ elim (Bool-cases (algorithm == codes "ssh-rsa")) [
      | inl named ↦ parse_rsa other named h
      | inr other' ↦ parse_other other other' h
    ]
  ]

-- `decode` gives bytes.
abbrev pub DecodesBytes : (Text → Option Bytes) → Type 0
DecodesBytes decode = (t : Text) (blob : Bytes) → decode t ≡ some blob → IsBytes blob

module _ (decode : Text → Option Bytes) (decodes_bytes : DecodesBytes decode) where
  from_fields_sound :
      (fields : List Text) (comment : Text) {identity : SelectedIdentity}
      → from_fields decode fields comment ≡ ok identity
      → (algorithm : Text) × IsKeyBlob algorithm identity.key_blob identity.key_kind
        × (identity.comment ≡ comment)
  unfolding from_fields
  from_fields_sound [] comment h = cc
  from_fields_sound (algorithm ∷ []) comment h = cc
  from_fields_sound (algorithm ∷ field ∷ _) comment {identity} h =
      let (blob, decoded, h1) = >>=-eq-ok (ok_or _ (decode field)) _ h in
      let b = decodes_bytes field blob (ok_or-eq-ok _ (decode field) decoded) in
      let (name, rest, layout, _, _, b', h2) = string->>=-eq-ok blob _ b h1 in
      let (named, h3) = >>-eq-ok _ _ _ h2 in
      let (kind, parsed, h4) = >>=-eq-ok (parse_key algorithm rest) _ h3 in
      let named' = (text_beq_iff name algorithm).0 named in
      let layout' : blob ≡ encoded algorithm ++ rest = rw named' at layout in
      rw (← ok-injective h4)
        (algorithm, parse_key_sound algorithm blob rest layout' b' parsed, refl)

  -- A selected identity holds a key blob of its kind, and the comment that it was given.
  pub from_openssh_sound :
      (public_key comment : Text) {identity : SelectedIdentity}
      → from_openssh decode public_key comment ≡ ok identity
      → (algorithm : Text) × IsKeyBlob algorithm identity.key_blob identity.key_kind
        × (identity.comment ≡ comment)
  unfolding from_openssh
  from_openssh_sound public_key comment h =
      from_fields_sound (split_ascii_whitespace public_key) comment h
