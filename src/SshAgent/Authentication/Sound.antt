-- ===== src/SshAgent/Authentication/Sound.antt =====
-- What is accepted is a user authentication with the expected key and algorithm.
use agentknock_cli.Prelude.{
  ℕ, ◌≡◌, ◌≢◌, ◌∙◌, append-nil, >>-eq-ok_unit, refl, ap, arith, true, ◌||◌, not, Bool-cases, inl,
  inr, ok, ◌>>◌, >>-eq-ok, [], ◌∷◌, ◌++◌, ◌==◌, text_eq, nat_eq, text_beq_iff, nat_beq_iff, codes,
  is_nil, not-is_nil,
}
use agentknock_cli.SshAgent.Wire.{Bytes, IsBytes, end}
use agentknock_cli.SshAgent.Wire.RoundTrip.{encoded, byte->>=-eq-ok, string->>=-eq-ok, end-eq-ok}
use agentknock_cli.SshAgent.Authentication.{
  publickey, hostbound, validate_host_key, validate_ending, validate_key, validate_method,
  validate_user, validate_authentication_message,
}
use agentknock_cli.SshAgent.Authentication.Spec.{Ending, plain, host_bound, IsAuthentication, Fits}
use agentknock_cli.SshAuthentication.{SshSignatureAlgorithm, as_str}

-- A read value and what follows it, each replaced by what it is known to be.
relayout :
    {input value expected rest rest' : Bytes}
    → input ≡ encoded value ++ rest
    → value ≡ expected
    → rest ≡ rest'
    → input ≡ encoded expected ++ rest'
relayout e v r = rw (e, v, r)

rebyte :
    {input rest rest' : Bytes} {value expected : ℕ}
    → input ≡ value ∷ rest
    → value ≡ expected
    → rest ≡ rest'
    → input ≡ expected ∷ rest'
rebyte e v r = rw (e, v, r)

-- The key of a host: a named key that is not empty.
validate_host_key_sound :
    (host_key : Bytes)
    → IsBytes host_key
    → validate_host_key host_key ≡ ok tt
    → (name : Bytes) × (key : Bytes) × (host_key ≡ encoded name ++ key)
      × Fits name
      × (name ≢ [])
      × (key ≢ [])
unfolding validate_host_key
validate_host_key_sound host_key b h =
    let (name, key, layout, fits, _, _, tested) = string->>=-eq-ok host_key _ b h in
    let (named, keyed) : (not (is_nil name) ≡ true) × (not (is_nil key) ≡ true) = ground arith in
    (name, key, layout, fits, not-is_nil name named, not-is_nil key keyed)

bound-Ending :
    (method tail host_key rest : Bytes)
    → method ≡ hostbound
    → tail ≡ encoded host_key ++ rest
    → Fits host_key
    → IsBytes host_key
    → (validate_host_key host_key >> end rest) ≡ ok tt
    → Ending method tail
bound-Ending method tail host_key rest m layout fits b h =
    let (valid, ended) = >>-eq-ok_unit (validate_host_key host_key) (end rest) h in
    let (name, key, split, name_fits, named, keyed) = validate_host_key_sound host_key b valid in
    host_bound method tail host_key name key m
      (layout ∙ ap (λ (r : Bytes). encoded host_key ++ r) (end-eq-ok rest ended) ∙ append-nil _)
      fits split name_fits named keyed

validate_ending_sound :
    (method tail : Bytes)
    → IsBytes tail
    → (method == publickey || method == hostbound) ≡ true
    → validate_ending method tail ≡ ok tt
    → Ending method tail
unfolding validate_ending
validate_ending_sound method tail b m h = elim (Bool-cases (method == hostbound)) [
  | inl bound ↦
      let (host_key, rest, layout, fits, bv, _, more) = string->>=-eq-ok tail _ b (rw bound at h) in
      bound-Ending method tail host_key rest ((text_beq_iff _ _).0 bound) layout fits bv more
  | inr other ↦
      plain method tail ((text_beq_iff _ _).0 (ground arith)) (end-eq-ok tail (rw other at h))
]

module _ (key : Bytes) (algorithm : SshSignatureAlgorithm) where
  validate_key_sound :
      (method m : Bytes)
      → IsBytes m
      → (method == publickey || method == hostbound) ≡ true
      → validate_key key algorithm method m ≡ ok tt
      → (tail : Bytes) × (m ≡ encoded (as_str algorithm) ++ (encoded key ++ tail))
        × Ending method tail
  unfolding validate_key
  validate_key_sound method m b known h =
      let (name, m1, e1, _, _, b1, h1) = string->>=-eq-ok m _ b h in
      let (algorithm_test, h2) = >>-eq-ok _ _ _ h1 in
      let (found, m2, e2, _, _, b2, h3) = string->>=-eq-ok m1 _ b1 h2 in
      let (key_test, h4) = >>-eq-ok _ _ _ h3 in
      (
        m2,
        relayout e1 ((text_beq_iff name (as_str algorithm)).0 algorithm_test)
            (relayout e2 ((text_beq_iff found key).0 key_test) refl),
        validate_ending_sound method m2 b2 known h4,
      )

  validate_method_sound :
      (m : Bytes)
      → IsBytes m
      → validate_method key algorithm m ≡ ok tt
      → (method tail : Bytes) × (m
          ≡ encoded method ++ (1 ∷ (encoded (as_str algorithm) ++ (encoded key ++ tail))))
        × Ending method tail
  unfolding validate_method
  validate_method_sound m b h =
      let (method, m1, e1, _, _, b1, h1) = string->>=-eq-ok m _ b h in
      let (known, h2) = >>-eq-ok _ _ _ h1 in
      let (signed, m2, e2, b2, h3) = byte->>=-eq-ok m1 _ b1 h2 in
      let (one, h4) = >>-eq-ok _ _ _ h3 in
      let (tail, e3, ending) = validate_key_sound method m2 b2 known h4 in
      (method, tail, relayout e1 refl (rebyte e2 ((nat_beq_iff signed 1).0 one) e3), ending)

  validate_user_sound :
      (m : Bytes)
      → IsBytes m
      → validate_user key algorithm m ≡ ok tt
      → (user method tail : Bytes) × (m
          ≡ encoded user
            ++ (encoded (codes "ssh-connection")
                ++ (encoded method ++ (1 ∷ (encoded (as_str algorithm) ++ (encoded key ++ tail))))))
        × Fits user
        × Ending method tail
  unfolding validate_user
  validate_user_sound m b h =
      let (user, m1, e1, fits, _, b1, h1) = string->>=-eq-ok m _ b h in
      let (service, m2, e2, _, _, b2, h2) = string->>=-eq-ok m1 _ b1 h1 in
      let (connection, h3) = >>-eq-ok _ _ _ h2 in
      let (method, tail, e3, ending) = validate_method_sound m2 b2 h3 in
      (
        user,
        method,
        tail,
        relayout e1 refl
            (relayout e2 ((text_beq_iff service (codes "ssh-connection")).0 connection) e3),
        fits,
        ending,
      )

-- An accepted message has the layout of a user authentication.
pub validate_authentication_message_sound :
    (message key : Bytes) (algorithm : SshSignatureAlgorithm)
    → IsBytes message
    → validate_authentication_message message key algorithm ≡ ok tt
    → IsAuthentication message key algorithm
unfolding validate_authentication_message
validate_authentication_message_sound message key algorithm b h =
    let (session, m1, e1, session_fits, _, b1, h1) = string->>=-eq-ok message _ b h in
    let (named, h2) = >>-eq-ok _ _ _ h1 in
    let (kind, m2, e2, b2, h3) = byte->>=-eq-ok m1 _ b1 h2 in
    let (fifty, h4) = >>-eq-ok _ _ _ h3 in
    let (user, method, tail, e3, user_fits, ending) = validate_user_sound key algorithm m2 b2 h4 in
    record {
      session = session;
      user = user;
      method = method;
      tail = tail;
      layout = relayout e1 refl (rebyte e2 ((nat_beq_iff kind 50).0 fifty) e3);
      session_fits = session_fits;
      user_fits = user_fits;
      named = not-is_nil session named;
      ending = ending;
    }
