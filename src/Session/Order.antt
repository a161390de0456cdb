-- ===== src/Session/Order.antt =====
-- The order in which a session of src/crypto.rs seals its messages.
use agentknock_cli.Prelude.{
  ◌≡◌, refl, ap, ◌∙◌, Text, codes, true, false, List, [], ◌∷◌, Result, ok, err, ◌>>=◌, >>=-eq-ok,
  ok-injective, inl, inr, subst, sym, Bool-cases,
}
use agentknock_cli.SshAgent.Wire.{Bytes}
use agentknock_cli.Config.Reads.{StoredPairing}
use agentknock_cli.Session.{
  SessionState, ready, request_sealed, completion_sealed, description, same_state, Error,
  message_order, Primitives, Session, completion_of, request_of, new, setup_psk_sender,
  require_state, sealed, seal_message, seal_request, seal_completion,
}

pub data Kind : Type 0 where
  request completion : Kind

-- The order that the protocol allows.
pub data Step : SessionState → Kind → SessionState → Type 0 where
  first : Step ready request request_sealed
  second : Step request_sealed completion completion_sealed

pub data Steps : SessionState → List Kind → SessionState → Type 0 where
  done : {state : SessionState} → Steps state [] state
  step :
      {before between after : SessionState} {kind : Kind} {kinds : List Kind}
      → Step before kind between
      → Steps between kinds after
      → Steps before (kind ∷ kinds) after

abbrev pub operation : Kind → Text
operation request = codes "seal request"
operation completion = codes "seal completion"

-- What was sealed until a state.
abbrev pub sealed_until : SessionState → List Kind
sealed_until ready = []
sealed_until request_sealed = request ∷ []
sealed_until completion_sealed = request ∷ completion ∷ []

module _ {C : Type 0} (primitives : Primitives C) where
  -- One of the two operations, with its ciphertext.
  unfoldable pub seal : Kind → Bytes → Session C → Result Error Text × Session C
  seal request plaintext session =
      let (result, after) = seal_request primitives plaintext session in
      (elim result [ err error ↦ err error | ok message ↦ ok message.ciphertext ], after)
  seal completion plaintext session =
      let (result, after) = seal_completion primitives plaintext session in
      (elim result [ err error ↦ err error | ok message ↦ ok message.ciphertext ], after)

  abbrev prepend : Kind → Result Error Text → List Kind → List Kind
  prepend kind (ok _) kinds = kind ∷ kinds
  prepend kind (err _) kinds = kinds

  -- Operations one after the other, with the kinds of the messages that were sealed.
  unfoldable pub seal_all : List (Kind × Bytes) → Session C → List Kind × Session C
  seal_all [] session = ([], session)
  seal_all ((kind, plaintext) ∷ operations) session =
      let (result, after) = seal kind plaintext session in
      let (kinds, last) = seal_all operations after in (prepend kind result kinds, last)

  -- What an operation does to the state.
  abbrev Advances : SessionState → Kind → Result Error Text × Session C → Type 0
  Advances before kind (ok _, after) = Step before kind after.state
  Advances before kind (err _, after) = after.state ≡ before

  sealed-Advances :
      (before after : SessionState) (kind : Kind) (run : Result Text Bytes × C)
      (session : Session C)
      → Step before kind after
      → session.state ≡ before
      → Advances session.state kind (sealed primitives run after session)
  unfolding sealed
  sealed-Advances before after kind (ok ciphertext, context) session order same =
      subst (λ state. Step state kind after) (sym same) order
  sealed-Advances before after kind (err error, context) session order same = refl

  same_state-eq : (a b : SessionState) → same_state a b ≡ true → a ≡ b
  unfolding same_state
  same_state-eq ready ready h = refl
  same_state-eq ready request_sealed h = absurd (cc)
  same_state-eq ready completion_sealed h = absurd (cc)
  same_state-eq request_sealed ready h = absurd (cc)
  same_state-eq request_sealed request_sealed h = refl
  same_state-eq request_sealed completion_sealed h = absurd (cc)
  same_state-eq completion_sealed ready h = absurd (cc)
  same_state-eq completion_sealed request_sealed h = absurd (cc)
  same_state-eq completion_sealed completion_sealed h = refl

  seal_message-in :
      (before after : SessionState) (name : Text) (plaintext : Bytes) (session : Session C)
      → same_state session.state before ≡ true
      → seal_message primitives before after name plaintext session
        ≡ sealed primitives (primitives.seal session.sender_context plaintext) after session
  unfolding seal_message require_state
  seal_message-in before after name plaintext session h = rw (seal_message, require_state, h) refl

  seal_message-out :
      (before after : SessionState) (name : Text) (plaintext : Bytes) (session : Session C)
      → same_state session.state before ≡ false
      → seal_message primitives before after name plaintext session
        ≡ (err (message_order name (description session.state)), session)
  unfolding seal_message require_state
  seal_message-out before after name plaintext session h = rw (seal_message, require_state, h) refl

  seal_message-Advances :
      (before after : SessionState) (kind : Kind) (plaintext : Bytes) (session : Session C)
      → Step before kind after
      → Advances session.state kind
          (seal_message primitives before after (operation kind) plaintext session)
  seal_message-Advances before after kind plaintext session order =
      elim (Bool-cases (same_state session.state before)) [
        | inl h ↦
            subst (Advances session.state kind)
              (sym (seal_message-in before after (operation kind) plaintext session h))
              (sealed-Advances before after kind (primitives.seal session.sender_context plaintext)
                session order (same_state-eq session.state before h))
        | inr h ↦
            subst (Advances session.state kind)
              (sym (seal_message-out before after (operation kind) plaintext session h)) refl
      ]

  before_of : Kind → SessionState
  before_of request = ready
  before_of completion = request_sealed

  after_of : Kind → SessionState
  after_of request = request_sealed
  after_of completion = completion_sealed

  request-ciphertext :
      (run : Result Error Text × Session C)
      → (
        elim (run.0 >>= (λ ciphertext. ok (request_of primitives run.1 ciphertext))) [
          | err error ↦ err error
          | ok message ↦ ok message.ciphertext
        ],
        run.1,
      )
        ≡ run
  unfolding request_of
  request-ciphertext (ok ciphertext, session) = refl
  request-ciphertext (err error, session) = refl

  completion-ciphertext :
      (run : Result Error Text × Session C)
      → (
        elim (run.0 >>= (λ ciphertext. ok (completion_of ciphertext))) [
          | err error ↦ err error
          | ok message ↦ ok message.ciphertext
        ],
        run.1,
      )
        ≡ run
  completion-ciphertext (ok ciphertext, session) = refl
  completion-ciphertext (err error, session) = refl

  -- Sealing either message is one computation.
  seal-eq :
      (kind : Kind) (plaintext : Bytes) (session : Session C)
      → seal kind plaintext session
        ≡ seal_message primitives
            (before_of kind)
            (after_of kind)
            (operation kind)
            plaintext
            session
  unfolding seal seal_request seal_completion before_of after_of
  seal-eq request plaintext session =
      request-ciphertext
        (seal_message primitives ready request_sealed (operation request) plaintext session)
  seal-eq completion plaintext session = completion-ciphertext (
      seal_message primitives request_sealed completion_sealed (operation completion) plaintext
        session)

  order-of : (kind : Kind) → Step (before_of kind) kind (after_of kind)
  unfolding before_of after_of
  order-of request = first
  order-of completion = second

  seal-Advances :
      (kind : Kind) (plaintext : Bytes) (session : Session C)
      → Advances session.state kind (seal kind plaintext session)
  seal-Advances kind plaintext session =
      subst (Advances session.state kind) (sym (seal-eq kind plaintext session)) (
        seal_message-Advances (before_of kind) (after_of kind) kind plaintext session
          (order-of kind))

  prepend-Steps :
      (kind : Kind) (session : Session C) (run : Result Error Text × Session C) (kinds : List Kind)
      (last : SessionState)
      → Advances session.state kind run
      → Steps run.1.state kinds last
      → Steps session.state (prepend kind run.0 kinds) last
  prepend-Steps kind session (ok _, after) kinds last now later = step now later
  prepend-Steps kind session (err _, after) kinds last now later =
      subst (λ state. Steps state kinds last) now later

  -- The messages that a session seals are a run of the protocol from the session's state,
  -- whatever is asked for and whichever calls of the context fail.
  pub seal_all-Steps :
      (operations : List (Kind × Bytes)) (session : Session C)
      → Steps session.state (seal_all operations session).0 (seal_all operations session).1.state
  unfolding seal_all
  seal_all-Steps [] session = done
  seal_all-Steps ((kind, plaintext) ∷ operations) session =
      let after = (seal kind plaintext session).1 in
      prepend-Steps kind session (seal kind plaintext session) (seal_all operations after).0
        (seal_all operations after).1.state (seal-Advances kind plaintext session)
        (seal_all-Steps operations after)

  -- A message that is out of order is refused with an error that names the operation and the state,
  -- and the session stays as it was, so nothing is sealed.
  pub seal-refused :
      (kind : Kind) (plaintext : Bytes) (session : Session C)
      → ((after : SessionState) → Step session.state kind after → ⊥)
      → seal kind plaintext session
        ≡ (err (message_order (operation kind) (description session.state)), session)
  seal-refused kind plaintext session never =
      elim (Bool-cases (same_state session.state (before_of kind))) [
        | inl h ↦ absurd (
            never (after_of kind) (
              subst (λ state. Step state kind (after_of kind))
                (sym (same_state-eq session.state (before_of kind) h)) (order-of kind)))
        | inr h ↦
            seal-eq kind plaintext session
            ∙ seal_message-out (before_of kind) (after_of kind) (operation kind) plaintext session h
      ]

fresh :
    {kinds : List Kind} {last : SessionState} → Steps ready kinds last → kinds ≡ sealed_until last
fresh done = refl
fresh (step first done) = refl
fresh (step first (step second done)) = refl
fresh (step first (step second (step now later))) = elim now [ ]

module _ {C : Type 0} (primitives : Primitives C) where
  -- A new session seals at most one request and after it at most one completion, whatever is asked
  -- of it, in whatever order and how often, and whichever calls fail.
  pub new-seal_all :
      (pairing : StoredPairing) (request_id : Bytes) (session : Session C)
      → new primitives pairing request_id ≡ ok session
      → (operations : List (Kind × Bytes))
      → (seal_all primitives operations session).0
        ≡ sealed_until (seal_all primitives operations session).1.state
  unfolding new
  new-seal_all pairing request_id session h operations =
      let (parts, _, same) = >>=-eq-ok (setup_psk_sender primitives pairing request_id) _ h in
      let starts = sym (ap (λ s. s.state) (ok-injective same)) in
      fresh (
        subst
          (λ state.
            Steps state (seal_all primitives operations session).0
              (seal_all primitives operations session).1.state)
          starts (seal_all-Steps primitives operations session))
