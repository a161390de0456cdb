-- ===== src/Exchange/Agrees.antt =====
-- `approval_exchange` of src/exchange.rs agrees with what its completion tells the device.
use agentknock_cli.Prelude.{
  ◌≡◌, inl, inr, refl, sym, subst, ◌∙◌, Text, text_eq, Bool, true, false, List, [], ◌∷◌, Result, ok,
  err, map_err,
}
use agentknock_cli.SshAgent.Wire.{Bytes}
use agentknock_cli.Config.Reads.{StoredPairing}
use agentknock_cli.Session.{Primitives, Session, Response, Completion, open_response}
use agentknock_cli.Relay
use agentknock_cli.Relay.{retries_exhausted, relay_rejected}
use agentknock_cli.Exchange
use agentknock_cli.Exchange.{
  DeviceResponse, answer, failure, Decision, Outcome, RequestError, configuration,
  relay_unavailable, unauthenticated, client_inactive, device_rejected, unclassified,
  pairing_rejected, interrupted, AbortReason, Detail, DeviceError, Protocol, Services, Awaited,
  canceled, finished, continue, from_relay, from_device, record_completion, seal_outcome,
  seal_aborted, complete_briefly, abort, reject_device_error, cancel, brief_handoff, fail_relay,
  clear_key, read_response, decode_response, with_services,
}
use agentknock_cli.Exchange.Approval.{result_of, outcome_of, handed, finish, conclude, decide}
use agentknock_cli.Exchange.Consistent.{
  Sealed, seal_outcome-Sealed, abort-AbortTold, AbortTold-ErrorTold, untold, unfinished,
  clear_key-completions, Told, Founded, outcome_of-Told, from_relay-Told, Result-split,
}

module _ {C X R T : Type 0} (primitives : Primitives C) (services : Services X)
    (protocol : Protocol R) (validate : R → Result Text T)
    (source : Session C → Response → Type 0) where
  abbrev Current : Type 0
  Current = Exchange.Exchange C X

  abbrev Tells : Result RequestError T → List Outcome → Type 0
  Tells = Told primitives services protocol validate source

  abbrev Agrees : Result RequestError T × Current → Type 0
  Agrees (result, exchange) = Tells result exchange.completions

  abbrev Stands : Result RequestError T → Type 0
  Stands = Founded primitives services protocol validate source

  handed-Agrees :
      (result : Result RequestError T) (outcome : Outcome) (run : Result Relay.Error Bool × Current)
      → Tells result run.1.completions
      → run.1.completions ≡ outcome ∷ []
      → Agrees (handed primitives services protocol validate result run)
  unfolding handed
  handed-Agrees result outcome (err error, exchange) tells same =
      from_relay-Told primitives services protocol validate source error exchange.completions
        (unfinished outcome same (inr (error, refl)))
  handed-Agrees result outcome (ok true, exchange) tells same = unfinished outcome same (inl refl)
  handed-Agrees result outcome (ok false, exchange) tells same = tells

  Sealed-Agrees :
      (result : Result RequestError T) (run : Result RequestError Completion × Current)
      → Stands result
      → Sealed primitives services protocol (outcome_of result) [] run
      → Agrees (
          continue run λ completion after.
            handed primitives services protocol validate result
              (with_services (services.complete_or_cancel completion after.services) after))
  unfolding continue
  Sealed-Agrees result (ok completion, after) stands same =
      handed-Agrees result (outcome_of result)
        (with_services (services.complete_or_cancel completion after.services) after)
        (outcome_of-Told primitives services protocol validate source result after.completions
          stands same)
        same
  Sealed-Agrees result (err error, after) stands (same, (detail, unclassified_error)) =
      subst (λ e. Tells (err e) after.completions) (sym unclassified_error) (untold same)

  finish-Agrees :
      (result : Result RequestError T) (exchange : Current)
      → Stands result
      → exchange.completions ≡ []
      → Agrees (finish primitives services protocol validate result exchange)
  unfolding finish
  finish-Agrees result exchange stands none_sealed =
      Sealed-Agrees result (seal_outcome primitives services protocol (outcome_of result) exchange)
        stands
        (subst
          (λ before.
            Sealed primitives services protocol (outcome_of result) before
              (seal_outcome primitives services protocol (outcome_of result) exchange))
          none_sealed
          (seal_outcome-Sealed primitives services protocol (outcome_of result) exchange))

  -- Where the response comes from.
  abbrev Read : Result RequestError (DeviceResponse (Decision R)) → Type 0
  Read (err _) = Unit
  Read (ok read) =
      (session : Session C) × (response : Response) × (plaintext : Bytes) × source session response
      × (open_response primitives response session ≡ ok plaintext)
      × (decode_response protocol plaintext ≡ ok read)

  validated-Stands :
      (contents : R) (result : Result Text T)
      → validate contents ≡ result
      → Read (ok (answer (Decision.approved contents)))
      → Stands (map_err (λ error. unclassified (Detail.rejected_data error)) result)
  validated-Stands contents (err error) same read = tt
  validated-Stands contents (ok result) same
        (session, response, plaintext, sourced, opened, decoded) =
      (session, response, plaintext, contents, sourced, opened, decoded, same)

  result_of-Stands :
      (read : Result RequestError (DeviceResponse (Decision R)))
      → Read read
      → Stands (result_of validate read)
  unfolding result_of
  result_of-Stands (ok (answer (Decision.approved contents))) read =
      validated-Stands contents (validate contents) refl read
  result_of-Stands (ok (answer (Decision.denied _ _))) read = tt
  result_of-Stands (ok (answer Decision.aborted)) read = tt
  result_of-Stands (ok (failure _)) read = tt
  result_of-Stands (err _) read = tt

  conclude-Agrees :
      (read : Result RequestError (DeviceResponse (Decision R))) (exchange : Current)
      → Read read
      → exchange.completions ≡ []
      → Agrees (conclude primitives services protocol validate read exchange)
  unfolding conclude reject_device_error from_device
  conclude-Agrees (ok (failure error)) exchange read none_sealed =
      AbortTold-ErrorTold (from_device error) _ (
        abort-AbortTold primitives services protocol AbortReason.client_error (from_device error)
          exchange none_sealed)
  conclude-Agrees (ok (answer decision)) exchange read none_sealed =
      finish-Agrees _ exchange (result_of-Stands (ok (answer decision)) read) none_sealed
  conclude-Agrees (err error) exchange read none_sealed =
      finish-Agrees _ exchange (result_of-Stands (err error) read) none_sealed

  abbrev ReadAs :
      List Outcome → Result RequestError (DeviceResponse (Decision R)) × Current → Type 0
  ReadAs before (read, exchange) = Read read × (exchange.completions ≡ before)

  cleared-ReadAs :
      (session : Session C) (response : Response) (plaintext : Bytes)
      (run : Result RequestError (Unit {0}) × Current)
      → source session response
      → open_response primitives response session ≡ ok plaintext
      → ReadAs run.1.completions
          (continue run λ _ after. (decode_response protocol plaintext, after))
  unfolding continue
  cleared-ReadAs session response plaintext (err error, after) sourced opened = (tt, refl)
  cleared-ReadAs session response plaintext (ok _, after) sourced opened =
      (decoded (decode_response protocol plaintext) refl, refl)
    where
      decoded :
          (read : Result RequestError (DeviceResponse (Decision R)))
          → decode_response protocol plaintext ≡ read
          → Read read
      decoded (err _) same = tt
      decoded (ok read) same = (session, response, plaintext, sourced, opened, same)

  read_response-ReadAs :
      (pairing : StoredPairing) (response : Response) (exchange : Current)
      → source exchange.session response
      → ReadAs exchange.completions
          (read_response primitives services protocol pairing response exchange)
  unfolding read_response
  read_response-ReadAs pairing response exchange sourced =
      Result-split (ReadAs exchange.completions)
        (open_response primitives response exchange.session) (λ error _. (tt, refl))
        (λ plaintext opened.
          subst
            (λ before. ReadAs before (
              continue (clear_key primitives services protocol pairing.rotation_key exchange)
                λ _ after. (decode_response protocol plaintext, after)))
            (clear_key-completions primitives services protocol pairing.rotation_key exchange)
            (cleared-ReadAs exchange.session response plaintext
              (clear_key primitives services protocol pairing.rotation_key exchange) sourced
              opened))

  pub decide-Agrees :
      (pairing : StoredPairing) (response : Response) (exchange : Current)
      → source exchange.session response
      → exchange.completions ≡ []
      → Agrees (decide primitives services protocol validate pairing response exchange)
  unfolding decide
  decide-Agrees pairing response exchange sourced none_sealed =
      let read = read_response primitives services protocol pairing response exchange in
      let (stands, same) = read_response-ReadAs pairing response exchange sourced in
      conclude-Agrees read.0 read.1 stands (same ∙ none_sealed)

  pub cancel-Agrees :
      (exchange : Current)
      → exchange.completions ≡ []
      → Agrees (cancel primitives services protocol exchange)
  unfolding cancel
  cancel-Agrees exchange none_sealed =
      elim (services.request_was_sent exchange.services)
        as (λ b. Agrees (elim b [
          | true ↦ (
            err interrupted,
            abort primitives services protocol AbortReason.cancelled interrupted exchange,
          )
          | false ↦ (err interrupted, exchange)
        ])) [
          | true ↦ AbortTold-ErrorTold interrupted _ (
              abort-AbortTold primitives services protocol AbortReason.cancelled interrupted
                exchange none_sealed)
          | false ↦ untold none_sealed
        ]
