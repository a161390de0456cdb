-- ===== src/InvocationService/Keys.antt =====
-- The public keys that src/bin/agentknock/invocation_service.rs compares: a kind, the contents and
-- what follows them.
use agentknock_cli.Prelude.{
  subst, ℕ, ◌≡◌, ◌≢◌, ◌↔◌, ◌⊎◌, refl, sym, ap, ◌∙◌, Text, nat_eq, true, false, some, List, [], ◌∷◌,
  ◌++◌, ok, inl, inr, All, Bool-cases, some-injective,
}
use agentknock_cli.Strings.{
  is_ascii_whitespace, push_front, split, some_pieces, split_ascii_whitespace,
}
use agentknock_cli.InvocationService.{first_fields, public_key_identity, validate_signing_key}
use agentknock_cli.InvocationService.Signing.{validate_signing_key-identities}

abbrev pub Blank : Text → Type 0
Blank s = All (λ b. is_ascii_whitespace b ≡ true) s

abbrev pub IsWord : Text → Type 0
IsWord word = (word ≢ []) × All (λ b. is_ascii_whitespace b ≡ false) word

-- A text that ends a word: the end of the line or a blank.
abbrev pub Stops : Text → Type 0
Stops [] = Unit
Stops (b ∷ _) = is_ascii_whitespace b ≡ true

-- A line with a key of a kind and its contents.
pub record IsKey (line kind key : Text) : Type 0 where
  pub before : Text
  pub between : Text
  pub rest : Text
  pub shape : line ≡ before ++ (kind ++ (between ++ (key ++ rest)))
  pub before_blank : Blank before
  pub kind_word : IsWord kind
  pub apart : between ≢ []
  pub between_blank : Blank between
  pub key_word : IsWord key
  pub stops : Stops rest

-- The pieces after the end of a word.
abbrev tail_pieces : Text → List Text
tail_pieces [] = []
tail_pieces (b ∷ rest) = split is_ascii_whitespace rest

split_word :
    (word rest : Text)
    → All (λ b. is_ascii_whitespace b ≡ false) word
    → Stops rest
    → split is_ascii_whitespace (word ++ rest) ≡ word ∷ tail_pieces rest
unfolding split push_front
split_word [] [] h stops = refl
split_word [] (b ∷ rest) h stops = rw stops refl
split_word (b ∷ word) rest (p, h) stops = rw (p, split_word word rest h stops) refl

words_blank :
    (b : ℕ) (s : Text)
    → is_ascii_whitespace b ≡ true
    → split_ascii_whitespace (b ∷ s) ≡ split_ascii_whitespace s
unfolding split_ascii_whitespace some_pieces split push_front
words_blank b s h = rw h refl

words_blanks :
    (blanks s : Text)
    → Blank blanks
    → split_ascii_whitespace (blanks ++ s) ≡ split_ascii_whitespace s
words_blanks [] s h = refl
words_blanks (b ∷ blanks) s (p, h) = words_blank b (blanks ++ s) p ∙ words_blanks blanks s h

words_end : (s : Text) → Blank s → split_ascii_whitespace s ≡ []
unfolding split_ascii_whitespace some_pieces split push_front
words_end [] h = refl
words_end (b ∷ s) (p, h) = words_blank b s p ∙ words_end s h

words_tail :
    (rest : Text) → Stops rest → some_pieces (tail_pieces rest) ≡ split_ascii_whitespace rest
unfolding split_ascii_whitespace some_pieces split push_front
words_tail [] stops = refl
words_tail (b ∷ rest) stops = sym (words_blank b rest stops)

words_word :
    (word rest : Text)
    → IsWord word
    → Stops rest
    → split_ascii_whitespace (word ++ rest) ≡ word ∷ split_ascii_whitespace rest
unfolding split_ascii_whitespace some_pieces
words_word [] rest (named, _) stops = absurd (named refl)
words_word (b ∷ word) rest (_, h) stops =
    ap some_pieces (split_word (b ∷ word) rest h stops)
    ∙ ap (λ words. (b ∷ word) ∷ words) (words_tail rest stops)

blank-Stops : (blanks s : Text) → blanks ≢ [] → Blank blanks → Stops (blanks ++ s)
blank-Stops [] s some_blank h = absurd (some_blank refl)
blank-Stops (b ∷ blanks) s some_blank (p, h) = p

words_key :
    (line kind key : Text) (k : IsKey line kind key)
    → split_ascii_whitespace line ≡ kind ∷ key ∷ split_ascii_whitespace k.rest
words_key line kind key k =
    ap split_ascii_whitespace k.shape
    ∙ (words_blanks k.before _ k.before_blank
        ∙ (words_word kind _ k.kind_word (blank-Stops k.between _ k.apart k.between_blank)
            ∙ ap (λ words. kind ∷ words)
                (words_blanks k.between _ k.between_blank
                  ∙ words_word key k.rest k.key_word k.stops)))

-- The rest of a word.
record Cut (s : Text) : Type 0 where
  word : Text
  rest : Text
  shape : s ≡ word ++ rest
  plain : All (λ b. is_ascii_whitespace b ≡ false) word
  stops : Stops rest

cut : (s : Text) → Cut s
cut [] = record { word = []; rest = []; shape = refl; plain = tt; stops = tt }
cut (b ∷ s) = elim (Bool-cases (is_ascii_whitespace b)) [
  | inl blank ↦ record { word = []; rest = b ∷ s; shape = refl; plain = tt; stops = blank }
  | inr other ↦
      let c = cut s in
      record {
        word = b ∷ c.word;
        rest = c.rest;
        shape = ap (λ t. b ∷ t) c.shape;
        plain = (other, c.plain);
        stops = c.stops;
      }
]

-- The first word of a text.
record First (s : Text) : Type 0 where
  before : Text
  word : Text
  rest : Text
  shape : s ≡ before ++ (word ++ rest)
  before_blank : Blank before
  is_word : IsWord word
  stops : Stops rest

first : (s : Text) → Blank s ⊎ First s
first [] = inl tt
first (b ∷ s) = elim (Bool-cases (is_ascii_whitespace b)) [
  | inl blank ↦ elim (first s) [
    | inl all_blank ↦ inl (blank, all_blank)
    | inr f ↦ inr (record {
      before = b ∷ f.before;
      word = f.word;
      rest = f.rest;
      shape = ap (λ t. b ∷ t) f.shape;
      before_blank = (blank, f.before_blank);
      is_word = f.is_word;
      stops = f.stops;
    })
  ]
  | inr other ↦
      let c = cut s in
      inr (record {
        before = [];
        word = b ∷ c.word;
        rest = c.rest;
        shape = ap (λ t. b ∷ t) c.shape;
        before_blank = tt;
        is_word = (λ none. absurd (cc), (other, c.plain));
        stops = c.stops;
      })
]

words_first :
    (s : Text) (f : First s) → split_ascii_whitespace s ≡ f.word ∷ split_ascii_whitespace f.rest
words_first s f =
    ap split_ascii_whitespace f.shape
    ∙ (words_blanks f.before _ f.before_blank ∙ words_word f.word f.rest f.is_word f.stops)

-- A word does not end a word.
word_apart :
    (before word rest : Text) → IsWord word → Stops (before ++ (word ++ rest)) → before ≢ []
word_apart [] [] rest (named, _) stops same = absurd (named refl)
word_apart [] (b ∷ word) rest (_, (p, _)) stops same = absurd (cc)
word_apart (b ∷ before) word rest is_word stops same = absurd (cc)

words-second :
    (line kind key : Text) (f : First line)
    → first_fields (f.word ∷ split_ascii_whitespace f.rest) ≡ some (kind, key)
    → IsKey line kind key
unfolding first_fields
words-second line kind key f h = elim (first f.rest) [
  | inl blank ↦ absurd (cc (ap (λ words. first_fields (f.word ∷ words)) (words_end f.rest blank)))
  | inr g ↦
      let found = sym (ap (λ words. first_fields (f.word ∷ words)) (words_first f.rest g)) ∙ h in
      let kinds : f.word ≡ kind = ap (λ p. p.0) (some-injective found) in
      let keys : g.word ≡ key = ap (λ p. p.1) (some-injective found) in
      subst (λ k. IsKey line k key) kinds
        (subst (IsKey line f.word) keys (record {
          before = f.before;
          between = g.before;
          rest = g.rest;
          shape = f.shape ∙ ap (λ t. f.before ++ (f.word ++ t)) g.shape;
          before_blank = f.before_blank;
          kind_word = f.is_word;
          apart = word_apart g.before g.word g.rest g.is_word (subst Stops g.shape f.stops);
          between_blank = g.before_blank;
          key_word = g.is_word;
          stops = g.stops;
        }))
]

identity-IsKey :
    (line kind key : Text) → public_key_identity line ≡ some (kind, key) → IsKey line kind key
unfolding public_key_identity first_fields
identity-IsKey line kind key h = elim (first line) [
  | inl blank ↦ absurd (cc (ap first_fields (words_end line blank)))
  | inr f ↦ words-second line kind key f (sym (ap first_fields (words_first line f)) ∙ h)
]

IsKey-identity :
    (line kind key : Text) → IsKey line kind key → public_key_identity line ≡ some (kind, key)
unfolding public_key_identity first_fields
IsKey-identity line kind key k = ap first_fields (words_key line kind key k)

-- A key is accepted exactly if its line and the line of the device's key have the same kind and the
-- same contents, as their first two words between blanks, whatever follows them.
pub validate_signing_key_iff :
    (requested expected : Text)
    → (validate_signing_key requested expected ≡ ok tt)
      ↔ ((kind : Text) × (key : Text) × IsKey requested kind key × IsKey expected kind key)
validate_signing_key_iff requested expected =
    let (sound, complete) = validate_signing_key-identities requested expected in
    (
      λ h.
          let ((kind, key), known, requested_known) = sound h in
          (
            kind,
            key,
            identity-IsKey requested kind key requested_known,
            identity-IsKey expected kind key known,
          ),
      λ (kind, key, asked, known). complete (
        (kind, key),
        IsKey-identity expected kind key known,
        IsKey-identity requested kind key asked,
      ),
    )
