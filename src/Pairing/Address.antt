-- ===== src/Pairing/Address.antt =====
-- Pairing addresses: the check of src/pairing.rs, and the one of the command line in
-- src/bin/agentknock/main.rs.
use agentknock_cli.Prelude.{
  ℕ, Text, ◌≡◌, ◌↔◌, refl, ap, ◌∙◌, sym, arith, Bool, true, false, not, ◌&&◌, Bool-cases, inl, inr,
  List, [], ◌∷◌, ◌++◌, ok, all, All, is_nil, and-eq-true, nat_beq_iff, ◌==◌, nat_eq,
}
use agentknock_cli.Strings.{is_ascii_lowercase, split, push_front}
use agentknock_cli.Cli.Names.{parse_pairing_address}

unfoldable pub valid_word : Text → Bool
valid_word word = not (is_nil word) && all is_ascii_lowercase word

unfoldable pub is_valid_pairing_address : Text → Bool
unfolding valid_word
is_valid_pairing_address address = all valid_word (split (λ b. b == 45) address)

-- Words joined by hyphens.
pub joined : Text → List Text → Text
joined word [] = word
joined word (next ∷ words) = word ++ (45 ∷ joined next words)

-- Words of lowercase letters with single hyphens between them.
pub record IsAddress (address : Text) : Type 0 where
  pub first : Text
  pub others : List Text
  pub layout : address ≡ joined first others
  pub first_valid : valid_word first ≡ true
  pub others_valid : All (λ word. valid_word word ≡ true) others

abbrev is_hyphen : ℕ → Bool
is_hyphen b = b == 45

-- The pieces of a split are never none.
split-cons :
    (s : Text) → (first : Text) × (others : List Text) × (split is_hyphen s ≡ first ∷ others)
unfolding split push_front
split-cons [] = ([], [], refl)
split-cons (b ∷ s) =
    let (first, others, e) = split-cons s in
    elim (Bool-cases (is_hyphen b)) [
      | inl hyphen ↦ ([], first ∷ others, rw (hyphen, e) refl)
      | inr letter ↦ (b ∷ first, others, rw (letter, e) refl)
    ]

push_front-joined :
    (b : ℕ) (first : Text) (others : List Text)
    → joined (b ∷ first) others ≡ b ∷ joined first others
unfolding joined
push_front-joined b first [] = refl
push_front-joined b first (next ∷ words) = refl

join : List Text → Text
join [] = []
join (first ∷ others) = joined first others

cons-cons : {x y : ℕ} {xs ys : Text} → x ≡ y → xs ≡ ys → (x ∷ xs) ≡ (y ∷ ys)
cons-cons e e' = cc

join-split : (s : Text) → join (split is_hyphen s) ≡ s
unfolding split push_front join joined
join-split [] = refl
join-split (b ∷ s) =
    let (first, others, e) = split-cons s in
    let rest : joined first others ≡ s = ap join (sym e) ∙ join-split s in
    elim (Bool-cases (is_hyphen b)) [
      | inl hyphen ↦ rw (hyphen, e) (cons-cons (sym ((nat_beq_iff b 45).0 hyphen)) rest)
      | inr letter ↦ rw (letter, e) (push_front-joined b first others ∙ ap (λ t. b ∷ t) rest)
    ]

letter-hyphen : (b : ℕ) → is_ascii_lowercase b ≡ true → is_hyphen b ≡ false
letter-hyphen b h = ground arith

split-word : (word : Text) → all is_ascii_lowercase word ≡ true → split is_hyphen word ≡ word ∷ []
unfolding split push_front
split-word [] h = refl
split-word (b ∷ word) h =
    let (here, rest) = and-eq-true (is_ascii_lowercase b) _ h in
    rw (letter-hyphen b here, split-word word rest) refl

split-append :
    (word rest : Text)
    → all is_ascii_lowercase word ≡ true
    → split is_hyphen (word ++ (45 ∷ rest)) ≡ word ∷ split is_hyphen rest
unfolding split push_front
split-append [] rest h = refl
split-append (b ∷ word) rest h =
    let (here, more) = and-eq-true (is_ascii_lowercase b) _ h in
    rw (letter-hyphen b here, split-append word rest more) refl

lowercase : (word : Text) → valid_word word ≡ true → all is_ascii_lowercase word ≡ true
unfolding valid_word
lowercase word h = (and-eq-true _ _ h).1

split-joined :
    (first : Text) (others : List Text)
    → valid_word first ≡ true
    → All (λ word. valid_word word ≡ true) others
    → split is_hyphen (joined first others) ≡ first ∷ others
unfolding joined
split-joined first [] h _ = split-word first (lowercase first h)
split-joined first (next ∷ words) h (k, ks) =
    split-append first (joined next words) (lowercase first h)
    ∙ ap (λ t. first ∷ t) (split-joined next words k ks)

all-All :
    (words : List Text) → all valid_word words ≡ true → All (λ word. valid_word word ≡ true) words
all-All [] h = tt
all-All (word ∷ words) h =
    let (here, rest) = and-eq-true (valid_word word) _ h in (here, all-All words rest)

All-all :
    (words : List Text) → All (λ word. valid_word word ≡ true) words → all valid_word words ≡ true
All-all [] h = refl
All-all (word ∷ words) (here, rest) = rw here (All-all words rest)

valid_sound : (address : Text) → all valid_word (split is_hyphen address) ≡ true → IsAddress address
unfolding join
valid_sound address h =
    let (first, others, e) = split-cons address in
    let (first_valid, others_valid) = all-All (first ∷ others) (rw e at h) in
    record {
      first = first;
      others = others;
      layout = sym (join-split address) ∙ ap join e;
      first_valid = first_valid;
      others_valid = others_valid;
    }

valid_complete :
    (address : Text) → IsAddress address → all valid_word (split is_hyphen address) ≡ true
valid_complete address a =
    ap (λ t. all valid_word (split is_hyphen t)) a.layout
    ∙ (ap (all valid_word) (split-joined a.first a.others a.first_valid a.others_valid)
        ∙ All-all (a.first ∷ a.others) (a.first_valid, a.others_valid))

parse_valid :
    (address : Text)
    → (parse_pairing_address address ≡ ok address)
      ↔ (all valid_word (split is_hyphen address) ≡ true)
unfolding parse_pairing_address valid_word
parse_valid address = elim (Bool-cases (all valid_word (split is_hyphen address))) [
  | inl valid ↦ (λ _. valid, λ _. rw valid refl)
  | inr invalid ↦ (λ h. absurd (ground arith), λ h. absurd (ground arith))
]

-- The library and the command line accept the same pairing addresses: words of lowercase letters
-- with single hyphens between them.
pub pairing-IsAddress_iff :
    (address : Text)
    → ((is_valid_pairing_address address ≡ true) ↔ IsAddress address)
      × ((parse_pairing_address address ≡ ok address) ↔ IsAddress address)
unfolding is_valid_pairing_address
pairing-IsAddress_iff address =
    let (parsed, valid) = parse_valid address in
    (
      (valid_sound address, valid_complete address),
      (λ h. valid_sound address (parsed h), λ a. valid (valid_complete address a)),
    )
