-- ===== src/SshAgent/Authentication/Spec.antt =====
-- What RFC 4252 and the host-bound extension call a public-key user authentication, as the bytes
-- that are signed; written without the cursor.
use agentknock_cli.Prelude.{ℕ, Option, some, ◌≡◌, ◌≢◌, ◌^◌, ◌<◌, codes, [], ◌∷◌, ◌++◌, length}
use agentknock_cli.SshAgent.Wire.{Bytes, to_be_bytes}
use agentknock_cli.SshAgent.Wire.RoundTrip.{encoded}
use agentknock_cli.SshAgent.Authentication.{publickey, hostbound, KeyKind, rsa, SelectedIdentity}
use agentknock_cli.SshAuthentication.{SshSignatureAlgorithm, rsa_sha256, rsa_sha512, as_str}

abbrev pub Fits : Bytes → Type 0
Fits value = length value < 2 ^ 32

-- The end of the message: nothing, or the host key for the host-bound method.
pub data Ending : Bytes → Bytes → Type 0 where
  plain : (method tail : Bytes) → method ≡ publickey → tail ≡ [] → Ending method tail
  host_bound :
      (method tail host_key name key : Bytes)
      → method ≡ hostbound
      → tail ≡ encoded host_key
      → Fits host_key
      → host_key ≡ encoded name ++ key
      → Fits name
      → name ≢ []
      → key ≢ []
      → Ending method tail

pub record IsAuthentication (message key : Bytes) (algorithm : SshSignatureAlgorithm) : Type 0 where
  pub session : Bytes
  pub user : Bytes
  pub method : Bytes
  pub tail : Bytes
  pub layout :
      message
      ≡ encoded session
        ++ (50
            ∷ (encoded user
                ++ (encoded (codes "ssh-connection")
                    ++ (encoded method
                        ++ (1 ∷ (encoded (as_str algorithm) ++ (encoded key ++ tail)))))))
  pub session_fits : Fits session
  pub user_fits : Fits user
  pub named : session ≢ []
  pub ending : Ending method tail

-- The signature algorithms that a key of a kind may be asked for, and the flags that ask for them.
-- The legacy RSA signature with SHA-1, which has the flags 0, is not among them.
pub data Selects : Option KeyKind → ℕ → SshSignatureAlgorithm → Type 0 where
  ed25519_plain :
      (flags : ℕ) → flags ≡ 0 → Selects (some KeyKind.ed25519) flags SshSignatureAlgorithm.ed25519
  rsa_with_sha256 : (flags : ℕ) → flags ≡ 2 → Selects (some rsa) flags rsa_sha256
  rsa_with_sha512 : (flags : ℕ) → flags ≡ 4 → Selects (some rsa) flags rsa_sha512

-- A request to sign a user authentication with the selected key.
pub record IsSignRequest (identity : SelectedIdentity) (packet message : Bytes)
    (algorithm : SshSignatureAlgorithm) : Type 0 where
  pub flags : ℕ
  pub layout : packet ≡ 13 ∷ (encoded identity.key_blob ++ (encoded message ++ to_be_bytes flags))
  pub message_fits : Fits message
  pub selects : Selects identity.key_kind flags algorithm
  pub authentication : IsAuthentication message identity.key_blob algorithm
