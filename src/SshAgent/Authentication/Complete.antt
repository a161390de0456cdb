-- ===== src/SshAgent/Authentication/Complete.antt =====
-- Every user authentication with the expected key and algorithm is accepted.
use agentknock_cli.Prelude.{
  append-nil, ◌≡◌, ◌≢◌, refl, arith, true, false, ◌||◌, not, ok, ◌>>=◌, ◌>>◌, [], ◌∷◌, ◌++◌, ◌==◌,
  text_eq, nat_eq, text_beq_refl, codes, is_nil, text_discrete,
}
use agentknock_cli.SshAgent.Wire.{Bytes, byte, string, end}
use agentknock_cli.SshAgent.Wire.RoundTrip.{encoded, string-encoded}
use agentknock_cli.SshAgent.Authentication.{
  publickey, hostbound, validate_host_key, validate_ending, validate_key, validate_method,
  validate_user, validate_authentication_message,
}
use agentknock_cli.SshAgent.Authentication.Spec.{Ending, plain, host_bound, IsAuthentication, Fits}
use agentknock_cli.SshAuthentication.{
  SshSignatureAlgorithm, ed25519, rsa_sha256, rsa_sha512, as_str,
}

is_nil-ne : (xs : Bytes) → xs ≢ [] → not (is_nil xs) ≡ true
is_nil-ne [] h = absurd (h refl)
is_nil-ne (x ∷ xs) h = refl

as_str-Fits : (algorithm : SshSignatureAlgorithm) → Fits (as_str algorithm)
as_str-Fits ed25519 = omega arith
as_str-Fits rsa_sha256 = omega arith
as_str-Fits rsa_sha512 = omega arith

publickey-ne-hostbound : (publickey == hostbound) ≡ false
unfolding text_discrete
publickey-ne-hostbound = refl

hostbound-ne-publickey : (hostbound == publickey) ≡ false
unfolding text_discrete
hostbound-ne-publickey = refl

Ending-known :
    {method tail : Bytes}
    → Ending method tail
    → Fits method × ((method == publickey || method == hostbound) ≡ true)
Ending-known (plain method tail m _) = rw m (omega arith, rw text_beq_refl refl)
Ending-known (host_bound method tail _ _ _ m _ _ _ _ _ _) =
    rw m (omega arith, rw (hostbound-ne-publickey, text_beq_refl hostbound) refl)

validate_host_key_complete :
    {name key : Bytes}
    → Fits name
    → name ≢ []
    → key ≢ []
    → validate_host_key (encoded name ++ key) ≡ ok tt
unfolding validate_host_key
validate_host_key_complete {name} {key} fits named keyed =
    rw (string-encoded name key fits, ◌>>=◌) (rw (is_nil-ne name named, is_nil-ne key keyed) refl)

validate_ending_complete :
    {method tail : Bytes} → Ending method tail → validate_ending method tail ≡ ok tt
unfolding validate_ending end
validate_ending_complete (plain method tail m t) = rw (m, t, publickey-ne-hostbound) refl
validate_ending_complete
      (host_bound method tail host_key name key m t fits split name_fits named keyed) =
    let read : string tail ≡ ok (host_key, []) =
      rw (t, ← append-nil (encoded host_key)) (string-encoded host_key [] fits) in
    let valid : validate_host_key host_key ≡ ok tt =
      rw split (validate_host_key_complete name_fits named keyed) in
    rw (m, text_beq_refl hostbound, read, ◌>>=◌) (rw (valid, ◌>>◌) refl)

module _ (key : Bytes) (key_fits : Fits key) (algorithm : SshSignatureAlgorithm) where
  validate_key_complete :
      (method tail : Bytes)
      → Ending method tail
      → validate_key key algorithm method (encoded (as_str algorithm) ++ (encoded key ++ tail))
        ≡ ok tt
  unfolding validate_key
  validate_key_complete method tail ending =
      rw (string-encoded (as_str algorithm) (encoded key ++ tail) (as_str-Fits algorithm), ◌>>=◌)
        (rw (text_beq_refl (as_str algorithm), string-encoded key tail key_fits, ◌>>=◌)
          (rw (text_beq_refl key) (validate_ending_complete ending)))

  validate_method_complete :
      (method tail : Bytes)
      → Ending method tail
      → validate_method key algorithm
          (encoded method ++ (1 ∷ (encoded (as_str algorithm) ++ (encoded key ++ tail))))
        ≡ ok tt
  unfolding validate_method byte
  validate_method_complete method tail ending =
      let (fits, known) = Ending-known ending in
      rw
        (
          string-encoded method (1 ∷ (encoded (as_str algorithm) ++ (encoded key ++ tail))) fits,
          ◌>>=◌,
        )
        (rw known (validate_key_complete method tail ending))

  validate_user_complete :
      (user method tail : Bytes)
      → Fits user
      → Ending method tail
      → validate_user key algorithm (
          encoded user
          ++ (encoded (codes "ssh-connection")
              ++ (encoded method ++ (1 ∷ (encoded (as_str algorithm) ++ (encoded key ++ tail))))))
        ≡ ok tt
  unfolding validate_user
  validate_user_complete user method tail user_fits ending =
      rw (string-encoded user _ user_fits, ◌>>=◌)
        (rw (string-encoded (codes "ssh-connection") _ (omega arith), ◌>>=◌)
          (rw (text_beq_refl (codes "ssh-connection"))
            (validate_method_complete method tail ending)))

  pub validate_authentication_message_complete :
      {message : Bytes}
      → IsAuthentication message key algorithm
      → validate_authentication_message message key algorithm ≡ ok tt
  unfolding validate_authentication_message byte
  validate_authentication_message_complete a =
      rw (a.layout, string-encoded a.session _ a.session_fits, ◌>>=◌)
        (rw (is_nil-ne a.session a.named)
          (validate_user_complete a.user a.method a.tail a.user_fits a.ending))
