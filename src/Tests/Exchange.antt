-- ===== src/Tests/Exchange.antt =====
-- An exchange with a device that approves.
use agentknock_cli.Prelude.{
  ◌≡◌, refl, Text, text_discrete, ℕ_discrete, codes, true, false, [], ◌∷◌, Result, ok, err,
}
use agentknock_cli.Maps.{get}
use agentknock_cli.Config.Reads.{object, string, field}
use agentknock_cli.Session.{
  new, setup_psk_sender, seal_request, seal_completion, seal_message, sealed, require_state,
  same_state, request_of, open_response, require_length,
}
use agentknock_cli.Exchange.{
  Outcome, Decision, Protocol, Services, finished, continue, record_completion, seal_outcome,
  read_response, clear_key, decode_response, decode_value,
}
use agentknock_cli.Exchange.Approval.{
  result_of, outcome_of, handed, finish, conclude, decide, received, sealed_request, exchanged,
  connected, started, after_rotation, approval_exchange,
}
use agentknock_cli.Exchange.Consistent.{Told}
use agentknock_cli.Tests.Session.{bytes, primitives, pairing}

abbrev protocol : Protocol Text
protocol = record {
  encode_request = ok (codes "request");
  encode_outcome = λ outcome. ok (codes "outcome");
  parse = λ plaintext. ok (object ((codes "result", string plaintext) ∷ []));
  decode_error = λ document. err (codes "no error");
  decode_decision = λ document. ok (Decision.approved (codes "secret"));
}

-- The state says what the relay does.
abbrev services : Services Text
services = record {
  maybe_rotate_psk = λ x. (ok tt, x);
  read_pairing = λ x. (ok pairing, x);
  clear_rotation_key = λ key x. (ok tt, x);
  prepare = λ paired x. (ok tt, x);
  request = λ message x. (finished (ok (record { nonce = bytes 32; ciphertext = codes "yes" })), x);
  request_was_sent = λ x. true;
  complete_briefly = λ completion x. x;
  brief_or_cancel = λ completion x. (finished tt, x);
  complete_or_cancel = λ completion x. (ok false, x);
}

abbrev accept : Text → Result Text Text
accept contents = ok contents

approval-run :
    approval_exchange primitives services protocol accept (bytes 16) []
    ≡ (ok (codes "secret"), [], Outcome.approved ∷ [])
unfolding approval_exchange after_rotation started connected exchanged sealed_request received
    decide conclude finish handed outcome_of result_of decode_value decode_response clear_key
    read_response seal_outcome record_completion continue require_length open_response request_of
    same_state require_state sealed seal_message seal_completion seal_request setup_psk_sender new
    field get text_discrete ℕ_discrete
approval-run = refl
