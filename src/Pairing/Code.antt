-- ===== src/Pairing/Code.antt =====
-- The verification code of src/pairing.rs, which the user compares with the device's.
use agentknock_cli.Prelude.{
  ℕ, zero, suc, ◌+◌, ◌-◌, ◌*◌, ◌/◌, ◌%◌, ◌≤◌, ◌<◌, Text, ◌≡◌, refl, ap, ◌∙◌, arith, false,
  Bool-cases, inl, inr, [], ◌∷◌, ◌++◌, ltb, ltb→lt, lt→ltb, length, if◌then◌else◌,
}

-- A number in decimal, on fuel: it takes one unit for each digit.
unfoldable pub digits : ℕ → ℕ → Text
digits zero n = []
digits (suc fuel) n =
    let front = digits fuel (n / 10) in
    if ltb n 10 then (48 + n) ∷ [] else front ++ ((48 + n % 10) ∷ [])

unfoldable pub zeros : ℕ → Text
zeros zero = []
zeros (suc n) = 48 ∷ zeros n

-- `{:04}`; a 64-bit number has at most 20 digits.
unfoldable pub padded : ℕ → Text
unfolding digits zeros
padded n = let text = digits 20 n in zeros (4 - length text) ++ text

-- `PairingSas::fmt`
unfoldable pub display_sas : ℕ → Text
unfolding padded
display_sas sas =
    padded (sas / 100000000) ++ (32 ∷ (padded (sas / 10000 % 10000) ++ (32 ∷ padded (sas % 10000))))

abbrev pub group : ℕ → Text
group n = (48 + n / 1000) ∷ (48 + n / 100 % 10) ∷ (48 + n / 10 % 10) ∷ (48 + n % 10) ∷ []

digits-small : (fuel n : ℕ) → n < 10 → digits (suc fuel) n ≡ (48 + n) ∷ []
unfolding digits
digits-small fuel n h = rw (lt→ltb n 10 h) refl

digits-large :
    (fuel n : ℕ) → 10 ≤ n → digits (suc fuel) n ≡ digits fuel (n / 10) ++ ((48 + n % 10) ∷ [])
unfolding digits
digits-large fuel n h = let large : ltb n 10 ≡ false = ground arith in rw large refl

group-eq :
    (n a b c d : ℕ)
    → n / 1000 ≡ a
    → n / 100 % 10 ≡ b
    → n / 10 % 10 ≡ c
    → n % 10 ≡ d
    → ((48 + a) ∷ (48 + b) ∷ (48 + c) ∷ (48 + d) ∷ []) ≡ group n
group-eq n a b c d ea eb ec ed = rw (ea, eb, ec, ed) refl

padded-eq : (n : ℕ) {text : Text} → digits 20 n ≡ text → padded n ≡ zeros (4 - length text) ++ text
unfolding padded
padded-eq n e = ap (λ (text : Text). zeros (4 - length text) ++ text) e

digits-two :
    (fuel n : ℕ) → 10 ≤ n → n < 100 → digits (suc (suc fuel)) n ≡ (48 + n / 10) ∷ (48 + n % 10) ∷ []
digits-two fuel n low high =
    digits-large (suc fuel) n low
    ∙ ap (λ t. t ++ ((48 + n % 10) ∷ [])) (digits-small fuel (n / 10) (omega arith))

digits-three :
    (fuel n : ℕ)
    → 100 ≤ n
    → n < 1000
    → digits (suc (suc (suc fuel))) n ≡ (48 + n / 10 / 10) ∷ (48 + n / 10 % 10) ∷ (48 + n % 10) ∷ []
digits-three fuel n low high =
    digits-large (suc (suc fuel)) n (omega arith)
    ∙ ap (λ t. t ++ ((48 + n % 10) ∷ [])) (digits-two fuel (n / 10) (omega arith) (omega arith))

digits-four :
    (fuel n : ℕ)
    → 1000 ≤ n
    → n < 10000
    → digits (suc (suc (suc (suc fuel)))) n
      ≡ (48 + n / 10 / 10 / 10) ∷ (48 + n / 10 / 10 % 10) ∷ (48 + n / 10 % 10) ∷ (48 + n % 10) ∷ []
digits-four fuel n low high =
    digits-large (suc (suc (suc fuel))) n (omega arith)
    ∙ ap (λ t. t ++ ((48 + n % 10) ∷ [])) (digits-three fuel (n / 10) (omega arith) (omega arith))

-- Below 10,000 the padded number is its four digits.
padded-group : (n : ℕ) → n < 10000 → padded n ≡ group n
unfolding zeros
padded-group n h = elim (Bool-cases (ltb n 10)) [
  | inl one ↦
      let small = ltb→lt n 10 one in
      padded-eq n (digits-small 19 n small)
      ∙ group-eq n 0 0 0 n (omega (arith, small)) (omega (arith, small)) (omega (arith, small))
          (omega (arith, small))
  | inr more ↦
      let low : 10 ≤ n = ground arith in
      elim (Bool-cases (ltb n 100)) [
        | inl two ↦
            let small = ltb→lt n 100 two in
            padded-eq n (digits-two 18 n low small)
            ∙ group-eq n 0 0 (n / 10) (n % 10) (omega (arith, small)) (omega (arith, small))
                (omega (arith, small)) refl
        | inr more2 ↦
            let low2 : 100 ≤ n = ground arith in
            elim (Bool-cases (ltb n 1000)) [
              | inl three ↦
                  let small = ltb→lt n 1000 three in
                  padded-eq n (digits-three 17 n low2 small)
                  ∙ group-eq n 0 (n / 10 / 10) (n / 10 % 10) (n % 10) (omega (arith, small))
                      (omega (arith, small)) refl refl
              | inr more3 ↦
                  let low3 : 1000 ≤ n = ground arith in
                  padded-eq n (digits-four 16 n low3 h)
                  ∙ group-eq n (n / 10 / 10 / 10) (n / 10 / 10 % 10) (n / 10 % 10) (n % 10)
                      (omega (arith, h)) (omega (arith, h)) refl refl
            ]
      ]
]

-- The number that four digits show.
abbrev pub group_value : ℕ → ℕ → ℕ → ℕ → ℕ
group_value a b c d = (a - 48) * 1000 + (b - 48) * 100 + (c - 48) * 10 + (d - 48)

-- The number that a code of 14 characters shows.
abbrev pub shown : Text → ℕ
shown (a ∷ b ∷ c ∷ d ∷ _ ∷ e ∷ f ∷ g ∷ h ∷ _ ∷ i ∷ j ∷ k ∷ l ∷ []) =
    group_value a b c d * 100000000 + group_value e f g h * 10000 + group_value i j k l
shown _ = 0

group_value-group :
    (n : ℕ)
    → n < 10000
    → group_value (48 + n / 1000) (48 + n / 100 % 10) (48 + n / 10 % 10) (48 + n % 10) ≡ n
group_value-group n h = omega arith

-- A code below 10 ^ 12, as it is derived, is shown in three groups of four digits, from which the
-- whole code can be read, so that different codes are shown differently.
pub display_sas-shown :
    (sas : ℕ)
    → sas < 1000000000000
    → (display_sas sas
        ≡ group (sas / 100000000)
          ++ (32 ∷ (group (sas / 10000 % 10000) ++ (32 ∷ group (sas % 10000)))))
      × (shown (display_sas sas) ≡ sas)
unfolding display_sas
display_sas-shown sas h =
    let e =
      ap (λ t. t ++ (32 ∷ (padded (sas / 10000 % 10000) ++ (32 ∷ padded (sas % 10000)))))
        (padded-group (sas / 100000000) (omega arith))
      ∙ (ap (λ t. group (sas / 100000000) ++ (32 ∷ (t ++ (32 ∷ padded (sas % 10000)))))
            (padded-group (sas / 10000 % 10000) (omega arith))
          ∙ ap (λ t. group (sas / 100000000) ++ (32 ∷ (group (sas / 10000 % 10000) ++ (32 ∷ t))))
              (padded-group (sas % 10000) (omega arith))) in
    let first = group_value-group (sas / 100000000) (omega arith) in
    let second = group_value-group (sas / 10000 % 10000) (omega arith) in
    let third = group_value-group (sas % 10000) (omega arith) in
    let whole : sas / 100000000 * 100000000 + sas / 10000 % 10000 * 10000 + sas % 10000 ≡ sas =
      omega arith in
    (e, ap shown e ∙ (rw (first, second, third) whole))
