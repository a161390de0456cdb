-- ===== src/Exchange/Consistent.antt =====
-- The device is told what `approval_exchange` of src/exchange.rs returns.
use agentknock_cli.Prelude.{
  ◌≡◌, ◌⊎◌, inl, inr, refl, sym, subst, Text, ◌==◌, text_eq, codes, true, false, Option, none, some,
  List, [], ◌∷◌, Result, ok, err, map_err,
}
use agentknock_cli.SshAgent.Wire.{Bytes}
use agentknock_cli.Session
use agentknock_cli.Session.{
  Primitives, Session, Request, Response, Completion, open_response, seal_completion,
}
use agentknock_cli.Relay
use agentknock_cli.Relay.{retries_exhausted, relay_rejected}
use agentknock_cli.Exchange
use agentknock_cli.Exchange.{
  DeviceResponse, answer, failure, Decision, Outcome, RequestError, configuration,
  relay_unavailable, unauthenticated, client_inactive, device_rejected, unclassified,
  pairing_rejected, interrupted, AbortReason, invalid_response, Detail, DeviceError, Protocol,
  Services, Awaited, canceled, finished, continue, from_relay, from_device, record_completion,
  seal_outcome, seal_aborted, complete_briefly, abort, reject_device_error, cancel, brief_handoff,
  fail_relay, clear_key, read_response, decode_response, with_services,
}
use agentknock_cli.Exchange.Approval.{outcome_of}

pub Result-split :
    {F A B : Type 0} (P : B → Type 0) (r : Result F A) {x : F → B} {f : A → B}
    → ((error : F) → r ≡ err error → P (x error))
    → ((a : A) → r ≡ ok a → P (f a))
    → P (elim r [ err error ↦ x error | ok a ↦ f a ])
Result-split P (err error) h k = h error refl
Result-split P (ok a) h k = k a refl

-- An error of the handoff of a completion.
abbrev pub IsHandoffError : RequestError → Type 0
IsHandoffError error = (error ≡ interrupted) ⊎ ((cause : Relay.Error) × (error ≡ from_relay cause))

-- What the device is told where the request fails with an error that is no denial: nothing, the
-- abort with that error, or, where the handoff itself fails, some one outcome.
pub data ErrorTold (error : RequestError) (completions : List Outcome) : Type 0 where
  untold : completions ≡ [] → ErrorTold error completions
  told :
      (reason : AbortReason)
      → completions ≡ Outcome.aborted reason error ∷ []
      → ErrorTold error completions
  unfinished :
      (outcome : Outcome)
      → completions ≡ outcome ∷ []
      → IsHandoffError error
      → ErrorTold error completions

-- Nothing is told, or the abort.
abbrev pub AbortTold : RequestError → List Outcome → Type 0
AbortTold error completions =
    (completions ≡ [])
    ⊎ ((reason : AbortReason) × (completions ≡ Outcome.aborted reason error ∷ []))

pub AbortTold-ErrorTold :
    (error : RequestError) (completions : List Outcome)
    → AbortTold error completions
    → ErrorTold error completions
AbortTold-ErrorTold error completions (inl same) = untold same
AbortTold-ErrorTold error completions (inr (reason, same)) = told reason same

pub AbortTold-interrupted :
    (error : RequestError) (completions : List Outcome)
    → AbortTold error completions
    → ErrorTold interrupted completions
AbortTold-interrupted error completions (inl same) = untold same
AbortTold-interrupted error completions (inr (reason, same)) =
    unfinished (Outcome.aborted reason error) same (inl refl)

module _ {C X R : Type 0} (primitives : Primitives C) (services : Services X)
    (protocol : Protocol R) where
  abbrev Current : Type 0
  Current = Exchange.Exchange C X

  -- A completion is sealed for the outcome, or none is.
  abbrev pub Sealed : Outcome → List Outcome → Result RequestError Completion × Current → Type 0
  Sealed outcome before (ok _, after) = after.completions ≡ outcome ∷ before
  Sealed outcome before (err error, after) =
      (after.completions ≡ before) × ((detail : Detail) × (error ≡ unclassified detail))

  recorded-Sealed :
      (outcome : Outcome) (run : Result Session.Error Completion × Session C) (exchange : Current)
      → Sealed outcome exchange.completions (
        map_err
            (λ error. unclassified (Detail.cryptography error))
            (record_completion outcome run exchange).0,
        (record_completion outcome run exchange).1,
      )
  unfolding record_completion
  recorded-Sealed outcome (ok completion, session) exchange = refl
  recorded-Sealed outcome (err error, session) exchange = (refl, (Detail.cryptography error, refl))

  pub seal_outcome-Sealed :
      (outcome : Outcome) (exchange : Current)
      → Sealed outcome exchange.completions
          (seal_outcome primitives services protocol outcome exchange)
  unfolding seal_outcome
  seal_outcome-Sealed outcome exchange =
      Result-split (Sealed outcome exchange.completions) (protocol.encode_outcome outcome)
        (λ error _. (refl, (Detail.json error, refl)))
        (λ plaintext _.
          recorded-Sealed outcome (seal_completion primitives plaintext exchange.session) exchange)

  Sealed-AbortTold :
      (reason : AbortReason) (error : RequestError) (run : Result RequestError Completion × Current)
      → Sealed (Outcome.aborted reason error) [] run
      → AbortTold error run.1.completions
  Sealed-AbortTold reason error (ok _, after) same = inr (reason, same)
  Sealed-AbortTold reason error (err _, after) (same, _) = inl same

  pub seal_aborted-AbortTold :
      (reason : AbortReason) (error : RequestError) (exchange : Current)
      → exchange.completions ≡ []
      → AbortTold error
          (seal_aborted primitives services protocol reason error exchange).1.completions
  unfolding seal_aborted
  seal_aborted-AbortTold reason error exchange none_sealed =
      Sealed-AbortTold reason error
        (seal_outcome primitives services protocol (Outcome.aborted reason error) exchange)
        (subst
          (λ before.
            Sealed (Outcome.aborted reason error) before
              (seal_outcome primitives services protocol (Outcome.aborted reason error) exchange))
          none_sealed (seal_outcome-Sealed (Outcome.aborted reason error) exchange))

  pub complete_briefly-completions :
      (completion : Option Completion) (exchange : Current)
      → (complete_briefly primitives services protocol completion exchange).completions
        ≡ exchange.completions
  unfolding complete_briefly
  complete_briefly-completions none exchange = refl
  complete_briefly-completions (some completion) exchange = refl

  pub abort-AbortTold :
      (reason : AbortReason) (error : RequestError) (exchange : Current)
      → exchange.completions ≡ []
      → AbortTold error (abort primitives services protocol reason error exchange).completions
  unfolding abort
  abort-AbortTold reason error exchange none_sealed =
      let sealed = seal_aborted primitives services protocol reason error exchange in
      subst (AbortTold error) (sym (complete_briefly-completions sealed.0 sealed.1))
        (seal_aborted-AbortTold reason error exchange none_sealed)

  pub clear_key-completions :
      (key : Option Text) (exchange : Current)
      → (clear_key primitives services protocol key exchange).1.completions ≡ exchange.completions
  unfolding clear_key
  clear_key-completions none exchange = refl
  clear_key-completions (some key) exchange = refl

  module _ {T : Type 0} (validate : R → Result Text T)
      (source : Session C → Response → Type 0) where
    -- The device approved the request in a response of the source, which the session of the source
    -- opens, with data that `validate` takes.
    abbrev pub Approves : T → Type 0
    Approves result =
        (session : Session C) × (response : Response) × (plaintext : Bytes) × (contents : R)
        × source session response
        × (open_response primitives response session ≡ ok plaintext)
        × (decode_response protocol plaintext ≡ ok (answer (Decision.approved contents)))
        × (validate contents ≡ ok result)

    -- The result and the outcomes that were sealed for the device.
    abbrev pub Told : Result RequestError T → List Outcome → Type 0
    Told (ok result) completions = (completions ≡ Outcome.approved ∷ []) × Approves result
    Told (err (RequestError.denied reason text)) completions =
        completions ≡ Outcome.denied reason text ∷ []
    Told (err error) completions = ErrorTold error completions

    -- What stands behind a result before it is told.
    abbrev pub Founded : Result RequestError T → Type 0
    Founded (ok result) = Approves result
    Founded (err _) = Unit

    pub outcome_of-Told :
        (result : Result RequestError T) (completions : List Outcome)
        → Founded result
        → completions ≡ outcome_of result ∷ []
        → Told result completions
    unfolding outcome_of
    outcome_of-Told (ok result) completions founded same = (same, founded)
    outcome_of-Told (err (RequestError.denied reason text)) completions _ same = same
    outcome_of-Told (err (configuration _)) completions _ same = told invalid_response same
    outcome_of-Told (err (relay_unavailable _)) completions _ same = told invalid_response same
    outcome_of-Told (err (unauthenticated _ _)) completions _ same = told invalid_response same
    outcome_of-Told (err (client_inactive _)) completions _ same = told invalid_response same
    outcome_of-Told (err (device_rejected _ _)) completions _ same = told invalid_response same
    outcome_of-Told (err (unclassified _)) completions _ same = told invalid_response same
    outcome_of-Told (err pairing_rejected) completions _ same = told invalid_response same
    outcome_of-Told (err interrupted) completions _ same = told invalid_response same

    pub from_relay-Told :
        (error : Relay.Error) (completions : List Outcome)
        → ErrorTold (from_relay error) completions
        → Told (err (from_relay error)) completions
    unfolding from_relay
    from_relay-Told (retries_exhausted _ _) completions h = h
    from_relay-Told (Relay.Error.unauthenticated _ _) completions h = h
    from_relay-Told (relay_rejected code text) completions h =
        elim (code == codes "CLIENT_INACTIVE")
            as (λ b.
              ErrorTold
                (elim b [
                  | true ↦ client_inactive text
                  | false ↦ unclassified (Detail.relay (relay_rejected code text))
                ])
                completions
              → Told
                  (err (elim b [
                    | true ↦ client_inactive text
                    | false ↦ unclassified (Detail.relay (relay_rejected code text))
                  ]))
                  completions) [ true ↦ λ t. t | false ↦ λ t. t ]
          h
    from_relay-Told (Relay.Error.client_inactive _ _) completions h = h
    from_relay-Told _ completions h = h
