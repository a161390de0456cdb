-- ===== src/Tests/Pairing.antt =====
-- A pairing address and a verification code.
use agentknock_cli.Prelude.{
  ℕ, Option, none, Result, [], ◌≡◌, ◌↔◌, ◌++◌, ◌∷◌, ◌/◌, ◌%◌, arith, codes, refl, true, ok,
}
use agentknock_cli.Config.Reads.{bool, Document, object, PairingFile}
use agentknock_cli.Session.{PendingPairing}
use agentknock_cli.Exchange.{RequestError, finished}
use agentknock_cli.Pairing.Start.{Surroundings, Spares, start_pairing, start_pairing-Spares}
use agentknock_cli.Tests.Session.{bytes, primitives}
use agentknock_cli.Tests.Config.{commit, decode}
use agentknock_cli.Cli.Names.{parse_pairing_address}
use agentknock_cli.Pairing.Address.{is_valid_pairing_address, IsAddress, pairing-IsAddress_iff}
use agentknock_cli.Pairing.Code.{
  display_sas, padded, digits, zeros, group, shown, display_sas-shown,
}

pairing-IsAddress_iff_example :
    ((is_valid_pairing_address (codes "calm-blue-sea") ≡ true) ↔ IsAddress (codes "calm-blue-sea"))
    × ((parse_pairing_address (codes "calm-blue-sea") ≡ ok (codes "calm-blue-sea"))
        ↔ IsAddress (codes "calm-blue-sea"))
pairing-IsAddress_iff_example = pairing-IsAddress_iff (codes "calm-blue-sea")

-- The example of the source's comment.
sas_text : display_sas 123456789012 ≡ codes "1234 5678 9012"
unfolding display_sas padded digits zeros
sas_text = refl

-- Leading zeros are shown.
short_sas_text : display_sas 42 ≡ codes "0000 0000 0042"
unfolding display_sas padded digits zeros
short_sas_text = refl

display_sas-shown_example :
    (display_sas 42
      ≡ group (42 / 100000000) ++ (32 ∷ (group (42 / 10000 % 10000) ++ (32 ∷ group (42 % 10000)))))
    × (shown (display_sas 42) ≡ 42)
display_sas-shown_example = display_sas-shown 42 (omega arith)

-- The device answers, and the completion is handed off.
abbrev surroundings : Surroundings
surroundings = record {
  client_secret = bytes 32;
  client_id = bytes 16;
  client_id_text = codes "C1";
  client_token = codes "token";
  plaintext = ok (codes "hello");
  prepared = ok tt;
  response =
      finished
        (ok (record { device_id = bytes 16; device_key = bytes 32; device_random = bytes 32 }));
  handed = λ completion. finished (ok tt);
  waiting = λ file. file;
  handing = λ file. file;
  now = ok 7;
  checking = [];
  writing = [];
  aborting = [];
}

abbrev encode : PendingPairing → ℕ → Document
encode pairing rotated_at = object ((codes "pending", bool true) ∷ [])

abbrev start_run : Option PairingFile → Result RequestError ℕ × Option PairingFile
start_run file = start_pairing primitives commit decode encode (codes "calm-sea") surroundings file

start_pairing-Spares_example :
    Spares primitives commit decode encode surroundings none (start_run none)
start_pairing-Spares_example =
    start_pairing-Spares primitives commit decode encode (codes "calm-sea") surroundings none
