-- ===== src/Relay/Triples.antt =====
-- What a computation of the relay's client leads to, as a postcondition, and what the failures and
-- the connection of src/websocket.rs keep: a computation ends if the relay sends finitely many
-- messages.
use agentknock_cli.Prelude.{
  ℕ, suc, ◌+◌, ◌-◌, ◌*◌, ◌≤◌, ◌<◌, ◌≡◌, refl, Bool, true, false, Option, none, some, Result, ok,
  err, arith, leb,
}
use native.Mathlib.Nat.{mul-le-mul_right}
use agentknock_cli.Relay.{Cause, Error, retries_exhausted, OutgoingMessage}
use agentknock_cli.Relay.Connection.{
  received, Sent, Network, Message, Machine, Stop, fails, panics, unfinished, continue, set_world,
  now, first_failure, check_deadline, check_failures, sleep, failed, failed_with,
}

-- A network whose relay sends at most as many messages to come as its state says.
pub record IsFinite {W : Type 0} (network : Network W) (remaining : W → ℕ) : Type 0 where
  pub connects :
      (timeout : ℕ) (world : W) → remaining (network.connect timeout world).1 ≤ remaining world
  pub sends : (sent : Sent) (world : W) → remaining (network.send sent world).1 ≤ remaining world
  pub waits : (timeout : ℕ) (world : W) → remaining (network.next timeout world).1 ≤ remaining world
  pub receives :
      (timeout : ℕ) (world : W) (message : Message)
      → (network.next timeout world).0 ≡ some (received message)
      → remaining (network.next timeout world).1 < remaining world
  pub reads : (world : W) → remaining (network.now world).1 ≤ remaining world
  pub sleeps :
      (duration : ℕ) (world : W) → remaining (network.sleep duration world) ≤ remaining world

module _ {W : Type 0} where
  abbrev pub Outcome :
      {A : Type 0}
      → (A → Machine W → Type 0)
      → (Error → Machine W → Type 0)
      → Result Stop A × Machine W
      → Type 0
  Outcome Q E (ok a, m) = Q a m
  Outcome Q E (err (fails error), m) = E error m
  Outcome Q E (err panics, m) = ⊥
  Outcome Q E (err unfinished, m) = ⊥

-- A result or an error, with the state that it is left in; no panic and no end of the fuel.
pub record Post {W A : Type 0} (Q : A → Machine W → Type 0) (E : Error → Machine W → Type 0)
    (run : Result Stop A × Machine W) : Type 0 where
  pub outcome : Outcome Q E run

module _ {W A : Type 0} {Q : A → Machine W → Type 0} {E : Error → Machine W → Type 0} where
  pub Post-ok : {a : A} {m : Machine W} → Q a m → Post Q E (ok a, m)
  Post-ok q = record { outcome = q }

  pub Post-err : {error : Error} {m : Machine W} → E error m → Post Q E (err (fails error), m)
  Post-err e = record { outcome = e }

  pub Post-continue :
      {B : Type 0} {P : B → Machine W → Type 0} {run : Result Stop A × Machine W}
      (next : A → Machine W → Result Stop B × Machine W)
      → Post Q E run
      → ((a : A) (m : Machine W) → Q a m → Post P E (next a m))
      → Post P E (continue run next)
  unfolding continue
  Post-continue {run = (ok a, m)} next q h = h a m q.outcome
  Post-continue {run = (err (fails error), m)} next q h = record { outcome = q.outcome }
  Post-continue {run = (err panics, m)} next q h = absurd q.outcome
  Post-continue {run = (err unfinished, m)} next q h = absurd q.outcome

  pub Post-weaken :
      {P : A → Machine W → Type 0} {run : Result Stop A × Machine W}
      → Post Q E run
      → ((a : A) (m : Machine W) → Q a m → P a m)
      → Post P E run
  Post-weaken {run = (ok a, m)} q h = record { outcome = h a m q.outcome }
  Post-weaken {run = (err (fails error), m)} q h = record { outcome = q.outcome }
  Post-weaken {run = (err panics, m)} q h = absurd q.outcome
  Post-weaken {run = (err unfinished, m)} q h = absurd q.outcome

  pub Post-map :
      {P : A → Machine W → Type 0} {F : Error → Machine W → Type 0}
      {run : Result Stop A × Machine W}
      → Post Q E run
      → ((a : A) (m : Machine W) → Q a m → P a m)
      → ((error : Error) (m : Machine W) → E error m → F error m)
      → Post P F run
  Post-map {run = (ok a, m)} q h k = record { outcome = h a m q.outcome }
  Post-map {run = (err (fails error), m)} q h k = record { outcome = k error m q.outcome }
  Post-map {run = (err panics, m)} q h k = absurd q.outcome
  Post-map {run = (err unfinished, m)} q h k = absurd q.outcome

  -- A test, and a result that may be none.
  pub Post-branch :
      (b : Bool) {x y : Result Stop A × Machine W}
      → (b ≡ true → Post Q E x)
      → (b ≡ false → Post Q E y)
      → Post Q E (elim b [ true ↦ x | false ↦ y ])
  Post-branch true h k = h refl
  Post-branch false h k = k refl

  pub Post-option :
      {B : Type 0} (o : Option B) {x : Result Stop A × Machine W}
      {f : B → Result Stop A × Machine W}
      → (o ≡ none → Post Q E x)
      → ((b : B) → o ≡ some b → Post Q E (f b))
      → Post Q E (elim o [ none ↦ x | some b ↦ f b ])
  Post-option none h k = h refl
  Post-option (some b) h k = k b refl

  pub Post-result :
      {F B : Type 0} (r : Result F B) {x : F → Result Stop A × Machine W}
      {f : B → Result Stop A × Machine W}
      → ((error : F) → r ≡ err error → Post Q E (x error))
      → ((b : B) → r ≡ ok b → Post Q E (f b))
      → Post Q E (elim r [ err error ↦ x error | ok b ↦ f b ])
  Post-result (err error) h k = h error refl
  Post-result (ok b) h k = k b refl

-- An invariant of the request and the completion.
abbrev pub Invariant : Type 1
Invariant = Option OutgoingMessage → Option OutgoingMessage → Type 0

module _ {W : Type 0} (network : Network W) (remaining : W → ℕ)
    (finite : IsFinite network remaining) (maximum : ℕ) where
  -- The measure that each turn of a loop makes smaller.
  abbrev pub rank : ℕ → W → ℕ
  rank failures world = remaining world * maximum + (maximum - failures)

  -- There may be `spare` more failures, and fewer than `n` turns.
  abbrev pub Within : Invariant → ℕ → ℕ → Machine W → Type 0
  Within I spare n m =
      I m.relay.request m.relay.completion
      × (m.retry.policy.maximum_failures ≡ maximum)
      × (m.retry.failures + spare ≤ maximum)
      × (rank m.retry.failures m.world < n)

  abbrev pub Holds : Invariant → ℕ → Machine W → Type 0
  Holds I n = Within I 1 n

  -- There are at most as many failures in a row as the policy allows.
  abbrev pub IsBounded : Error → Type 0
  IsBounded (retries_exhausted failures _) = failures ≤ maximum
  IsBounded _ = Unit

  abbrev pub Bounds : {A : Type 0} → Result Error A → Type 0
  Bounds (ok _) = Unit
  Bounds (err error) = IsBounded error

  abbrev pub Fails : Invariant → Error → Machine W → Type 0
  Fails I error m = I m.relay.request m.relay.completion × IsBounded error

  rank_mono :
      (failures : ℕ) (a b : W) → remaining a ≤ remaining b → rank failures a ≤ rank failures b
  rank_mono failures a b h = omega (arith, mul-le-mul_right maximum h)

  module _ (I : Invariant) where
    -- The network or the clock is asked.
    pub set_world-Within :
        (spare n : ℕ) (m : Machine W) (world : W)
        → remaining world ≤ remaining m.world
        → Within I spare n m
        → Within I spare n (set_world world m)
    set_world-Within spare n m world h (i, same, few, less) =
        (i, same, few, omega (arith, rank_mono m.retry.failures world m.world h))

    pub now-Post :
        (spare n : ℕ) (m : Machine W)
        → Within I spare n m
        → Post (λ _. Within I spare n) (Fails I) (now network m)
    unfolding now
    now-Post spare n m h =
        Post-ok (set_world-Within spare n m (network.now m.world).1 (finite.reads m.world) h)

    first_failure-Post :
        (spare n : ℕ) (m : Machine W) (first : Option ℕ)
        → Within I spare n m
        → Post (λ _. Within I spare n) (Fails I) (first_failure network first m)
    unfolding first_failure
    first_failure-Post spare n m (some time) h = Post-ok h
    first_failure-Post spare n m none h =
        let (i, same, few, less) = h in
        Post-ok (set_world-Within spare n m (network.now m.world).1 (finite.reads m.world) h)

    check_deadline-Post :
        (spare n deadline : ℕ) (m : Machine W)
        → Within I spare n m
        → Post (λ _. Within I spare n) (Fails I) (check_deadline network deadline m)
    unfolding check_deadline
    check_deadline-Post spare n deadline m h =
        Post-continue _ (now-Post spare n m h) λ time m1 (i, same, few, less).
          Post-branch (leb deadline time) (λ _. Post-err (i, omega (arith, few)))
            (λ _. Post-ok (i, same, few, less))

    sleep-Post :
        (n duration : ℕ) (m : Machine W)
        → Holds I n m
        → Post (λ _. Holds I n) (Fails I) (sleep network duration m)
    unfolding sleep
    sleep-Post n duration m h =
        Post-ok (
          set_world-Within 1 n m (network.sleep duration m.world) (finite.sleeps duration m.world)
            h)

    not_full :
        (most failures : ℕ)
        → failures + 0 ≤ maximum
        → most ≡ maximum
        → leb most failures ≡ false
        → failures + 1 ≤ maximum
    not_full most failures few same spare = ground arith

    check_failures-Post :
        (n deadline : ℕ) (m : Machine W)
        → Within I 0 n m
        → Post (λ _. Holds I n) (Fails I) (check_failures network deadline m)
    unfolding check_failures
    check_failures-Post n deadline m (i, same, few, less) =
        Post-branch (leb m.retry.policy.maximum_failures m.retry.failures)
          (λ _. Post-err (i, omega (arith, few)))
          (λ spare. check_deadline-Post 1 n deadline m (
            i,
            same,
            not_full m.retry.policy.maximum_failures m.retry.failures few same spare,
            less,
          ))

    -- A failure uses up one of the failures that are spare, or ends the retries.
    pub failed-Post :
        (n delay : ℕ) (m : Machine W)
        → Holds I (suc n) m
        → Post (λ _. Holds I n) (Fails I) (failed network delay m)
    unfolding failed
    failed-Post n delay m h =
        Post-continue _ (first_failure-Post 1 (suc n) m m.retry.first_failure h)
          λ first m1 (i, same, few, less).
            Post-continue _
              (check_failures-Post n _ _ (i, same, omega (arith, few), omega (arith, few, less)))
              λ _ m2 h2. Post-continue _ (now-Post 1 n m2 h2) λ time m3 h3.
                Post-continue _ (sleep-Post n _ m3 h3) λ _ m4 h4. check_deadline-Post 1 n _ m4 h4

    pub failed_with-Post :
        (n : ℕ) (cause : Cause) (m : Machine W)
        → Holds I (suc n) m
        → Post (λ _. Holds I n) (Fails I) (failed_with network cause m)
    unfolding failed_with
    failed_with-Post n cause m h = failed-Post n _ _ h
