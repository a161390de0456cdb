-- ===== src/InvocationService/Descent.antt =====
-- `require_descendant` of src/bin/agentknock/invocation_service.rs accepts the descendants of the
-- approved command.
use agentknock_cli.Prelude.{
  ℕ, zero, suc, ◌<◌, ◌≡◌, ◌≢◌, ◌↔◌, refl, sym, ap, subst, ◌∙◌, arith, Text, ◌==◌, nat_eq, true,
  false, Result, ok, err, Bool-cases, inl, inr,
}
use agentknock_cli.InvocationService.{
  InvocationError, not_a_child, process_lookup, ascend, require_descendant,
}

module _ (parent_id : ℕ → Result Text ℕ) where
  -- A process is the owner, or its parent is a descendant.
  pub data IsDescendant (owner : ℕ) : ℕ → Type 0 where
    same : {process : ℕ} → process ≡ owner → IsDescendant owner process
    child :
        {process parent : ℕ}
        → parent_id process ≡ ok parent
        → parent ≢ 0
        → IsDescendant owner parent
        → IsDescendant owner process

  -- What the ancestors of a process come to: the owner, the first process, or one that cannot be
  -- looked up.
  pub data Ascends (owner : ℕ) : ℕ → Result InvocationError (Unit {0}) → Type 0 where
    reached : {process : ℕ} → process ≡ owner → Ascends owner process (ok tt)
    first :
        {process : ℕ}
        → process ≢ owner
        → parent_id process ≡ ok 0
        → Ascends owner process (err not_a_child)
    lost :
        {process : ℕ} (error : Text)
        → process ≢ owner
        → parent_id process ≡ err error
        → Ascends owner process (err (process_lookup error))
    upward :
        {process : ℕ} (parent : ℕ) {result : Result InvocationError (Unit {0})}
        → process ≢ owner
        → parent_id process ≡ ok parent
        → parent ≢ 0
        → Ascends owner parent result
        → Ascends owner process result

  -- Parents are started before their children.
  abbrev pub IsOlder : (ℕ → ℕ) → Type 0
  IsOlder age =
      (process parent : ℕ) → parent_id process ≡ ok parent → parent ≢ 0 → age parent < age process

  ascend-zero :
      (next : ℕ → Result InvocationError (Unit {0})) (parent : ℕ)
      → (parent == 0) ≡ true
      → ascend parent_id next (ok parent) ≡ err not_a_child
  unfolding ascend
  ascend-zero next parent h = rw (ascend, h) refl

  ascend-next :
      (next : ℕ → Result InvocationError (Unit {0})) (parent : ℕ)
      → (parent == 0) ≡ false
      → ascend parent_id next (ok parent) ≡ next parent
  unfolding ascend
  ascend-next next parent h = rw (ascend, h) refl

  not_zero : (parent : ℕ) → (parent == 0) ≡ false → parent ≢ 0
  not_zero parent h e = absurd (cc (nat_eq.eq_refl parent))

  ascend-ok :
      (next : ℕ → Result InvocationError (Unit {0})) (found : Result Text ℕ)
      → ascend parent_id next found ≡ ok tt
      → (parent : ℕ) × (found ≡ ok parent) × (parent ≢ 0) × (next parent ≡ ok tt)
  unfolding ascend
  ascend-ok next (err error) h = absurd (cc)
  ascend-ok next (ok parent) h = elim (Bool-cases (parent == 0)) [
    | inl zero_parent ↦ absurd (cc (ascend-zero next parent zero_parent))
    | inr real ↦ (parent, refl, not_zero parent real, sym (ascend-next next parent real) ∙ h)
  ]

  require-same :
      (fuel process owner : ℕ)
      → (process == owner) ≡ true
      → require_descendant parent_id (suc fuel) process owner ≡ ok tt
  unfolding require_descendant
  require-same fuel process owner h = rw (h) refl

  require-up :
      (fuel process owner : ℕ)
      → (process == owner) ≡ false
      → require_descendant parent_id (suc fuel) process owner
        ≡ ascend parent_id
            (λ parent. require_descendant parent_id fuel parent owner)
            (parent_id process)
  unfolding require_descendant
  require-up fuel process owner h = rw (h) refl

  require_sound :
      (fuel process owner : ℕ)
      → require_descendant parent_id fuel process owner ≡ ok tt
      → IsDescendant owner process
  unfolding require_descendant
  require_sound zero process owner h = absurd (cc)
  require_sound (suc fuel) process owner h = elim (Bool-cases (process == owner)) [
    | inl found ↦ same (nat_eq.eq_sound process owner found)
    | inr differ ↦
        let (parent, found, real, rest) =
          ascend-ok (λ parent. require_descendant parent_id fuel parent owner) (parent_id process)
            (sym (require-up fuel process owner differ) ∙ h) in
        child found real (require_sound fuel parent owner rest)
  ]

  zero_test : (parent : ℕ) → parent ≢ 0 → (parent == 0) ≡ false
  zero_test parent real = ground (arith, real)

  require_complete :
      (age : ℕ → ℕ)
      → IsOlder age
      → (fuel process owner : ℕ) → age process < fuel
      → IsDescendant owner process
      → require_descendant parent_id fuel process owner ≡ ok tt
  require_complete age older zero process owner enough descends = absurd (omega (arith, enough))
  require_complete age older (suc fuel) process owner enough (same found) =
      require-same fuel process owner
        (subst (λ p. (process == p) ≡ true) found (nat_eq.eq_refl process))
  require_complete age older (suc fuel) process owner enough
        (child {parent = parent} found real rest) =
      elim (Bool-cases (process == owner)) [
        | inl here ↦ require-same fuel process owner here
        | inr differ ↦
            require-up fuel process owner differ
            ∙ (ap (ascend parent_id (λ p. require_descendant parent_id fuel p owner)) found
                ∙ (ascend-next (λ p. require_descendant parent_id fuel p owner) parent
                      (zero_test parent real)
                    ∙ require_complete age older fuel parent owner
                        (omega (arith, enough, older process parent found real)) rest))
      ]

  differs : (process owner : ℕ) → (process == owner) ≡ false → process ≢ owner
  differs process owner h equal = absurd (cc (nat_eq.eq_refl owner, ap (λ p. p == owner) equal))

  ascend-Ascends :
      (process owner : ℕ) (next : ℕ → Result InvocationError (Unit {0})) (result : Result Text ℕ)
      → (process == owner) ≡ false
      → parent_id process ≡ result
      → ((parent : ℕ)
          → parent_id process ≡ ok parent
          → parent ≢ 0
          → Ascends owner parent (next parent))
      → Ascends owner process (ascend parent_id next result)
  unfolding ascend
  ascend-Ascends process owner next (err error) differ known further =
      lost error (differs process owner differ) known
  ascend-Ascends process owner next (ok parent) differ known further =
      elim (Bool-cases (parent == 0)) [
        | inl root ↦
            subst (Ascends owner process) (sym (ascend-zero next parent root))
              (first (differs process owner differ) (known ∙ ap ok (nat_eq.eq_sound parent 0 root)))
        | inr real ↦ subst (Ascends owner process) (sym (ascend-next next parent real)) (
            upward parent (differs process owner differ) known (not_zero parent real)
              (further parent known (not_zero parent real)))
      ]

  require-Ascends :
      (age : ℕ → ℕ)
      → IsOlder age
      → (fuel process owner : ℕ) → age process < fuel
      → Ascends owner process (require_descendant parent_id fuel process owner)
  require-Ascends age older zero process owner enough = absurd (omega (arith, enough))
  require-Ascends age older (suc fuel) process owner enough = elim (Bool-cases (process == owner)) [
    | inl here ↦
        subst (Ascends owner process) (sym (require-same fuel process owner here))
          (reached (nat_eq.eq_sound process owner here))
    | inr differ ↦ subst (Ascends owner process) (sym (require-up fuel process owner differ)) (
        ascend-Ascends process owner (λ p. require_descendant parent_id fuel p owner)
          (parent_id process) differ refl
          λ parent known real.
            require-Ascends age older fuel parent owner
              (omega (arith, enough, older process parent known real)))
  ]

  -- If parents are older than their children, then on more fuel than the age of the process the loop
  -- ends with what the ancestors come to: it accepts the descendants of the owner and no other
  -- process, and for another one the error is that it is no child if the ancestors end at the first
  -- process, and that of the lookup if one of them cannot be looked up.
  pub require_descendant-Ascends :
      (age : ℕ → ℕ)
      → IsOlder age
      → (fuel process owner : ℕ) → age process < fuel
      → Ascends owner process (require_descendant parent_id fuel process owner)
        × ((require_descendant parent_id fuel process owner ≡ ok tt) ↔ IsDescendant owner process)
  require_descendant-Ascends age older fuel process owner enough = (
    require-Ascends age older fuel process owner enough,
    (require_sound fuel process owner, require_complete age older fuel process owner enough),
  )
