-- ===== src/Tests/Session.antt =====
-- A session whose context counts what it seals.
use agentknock_cli.Prelude.{
  ◌%◌, ℕ, zero, suc, ◌^◌, ◌≡◌, refl, codes, false, none, List, [], ◌∷◌, ok, err,
}
use agentknock_cli.SshAgent.Wire.{Bytes}
use agentknock_cli.Config.Reads.{StoredPairing}
use agentknock_cli.Pairing.Code.{display_sas, shown}
use agentknock_cli.Session.{
  SessionState, ready, Primitives, Session, PairingResponse, PairingCompletion, PendingPairing,
  message_order, new, setup_psk_sender, require_length, description,
}
use agentknock_cli.Session.Code.{
  seal_pairing, finish_pairing, pairing_completion, sas_of, big_endian, place_value, IsPairing,
  seal_pairing_sound,
}
use agentknock_cli.Session.Order.{
  Kind, request, completion, Step, operation, sealed_until, seal, seal_all, seal-refused,
  new-seal_all,
}

abbrev pub bytes : ℕ → Bytes
bytes zero = []
bytes (suc n) = 7 ∷ bytes n

abbrev pub primitives : Primitives ℕ
primitives = record {
  setup_psk = λ device_key psk client_id info. ok (9 ∷ [], 0);
  setup_base = λ device_key info. ok (9 ∷ [], 0);
  seal = λ sealed plaintext. (ok plaintext, suc sealed);
  export = λ sealed context. ok (bytes 32);
  expand = λ salt secret info size. ok (bytes size);
  decrypt = λ key nonce ciphertext. ok ciphertext;
  encode = λ contents. contents;
  decode = λ contents. ok contents;
}

abbrev pub pairing : StoredPairing
pairing = record {
  pending = false;
  device_id = bytes 16;
  client_id = bytes 16;
  client_token = codes "token";
  client_psk = bytes 32;
  device_key = bytes 32;
  rotated_at = 0;
  rotation_key = none;
}

abbrev session : Session ℕ
session = record { encapped_key = 9 ∷ []; rotation_key = none; sender_context = 0; state = ready }

session-new : new primitives pairing (bytes 16) ≡ ok session
unfolding new setup_psk_sender
session-new = refl

abbrev operations : List (Kind × Bytes)
operations =
    (completion, []) ∷ (request, []) ∷ (request, []) ∷ (completion, []) ∷ (completion, []) ∷ []

new-seal_all_example :
    (seal_all primitives operations session).0
    ≡ sealed_until (seal_all primitives operations session).1.state
new-seal_all_example = new-seal_all primitives pairing (bytes 16) session session-new operations

no_completion : (after : SessionState) → Step ready completion after → ⊥
no_completion after order = elim order [ ]

seal-refused_example :
    seal primitives completion (codes "early") session
    ≡ (err (message_order (operation completion) (description ready)), session)
seal-refused_example = seal-refused primitives completion (codes "early") session no_completion

abbrev response : PairingResponse
response = record { device_id = bytes 16; device_key = bytes 32; device_random = bytes 32 }

abbrev sealed : PairingCompletion
sealed = record { key = 9 ∷ []; secret = bytes 32; ciphertext = codes "hello" }

abbrev pending : PendingPairing
pending = record {
  device_id = bytes 16;
  client_id = bytes 16;
  client_token = codes "token";
  client_psk = bytes 32;
  device_key = bytes 32;
}

sealed-run :
    seal_pairing primitives (bytes 16) (codes "token") response (bytes 32) (codes "hello")
    ≡ ok (sealed, pending, 209866536711)
unfolding seal_pairing finish_pairing pairing_completion require_length sas_of big_endian
sealed-run = refl

seal_pairing_sound_example :
    (made : IsPairing primitives
      (bytes 16)
      response
      (bytes 32)
      (codes "hello")
      sealed
      pending
      209866536711)
    × (shown (display_sas 209866536711) ≡ place_value made.bytes % 10 ^ 12)
seal_pairing_sound_example =
    seal_pairing_sound primitives (bytes 16) (codes "token") response (bytes 32) (codes "hello")
      sealed pending 209866536711 sealed-run
