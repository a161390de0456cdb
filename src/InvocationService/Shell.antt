-- ===== src/InvocationService/Shell.antt =====
-- A word that `shell_argument` of src/bin/agentknock/invocation_service.rs quotes is read by the
-- shell as one word, with its value.
use agentknock_cli.Prelude.{
  ℕ, ◌≡◌, refl, sym, ap, ◌∙◌, Text, ◌==◌, nat_eq, false, Option, none, some, [], ◌∷◌, ◌++◌,
  Bool-cases, inl, inr, if◌then◌else◌,
}
use agentknock_cli.InvocationService.{replace_quotes, shell_argument}

-- The state of the shell while it reads a word: outside of quotes, in single quotes, after a
-- backslash outside of quotes.
pub data Quoting : Type 0 where
  plain quoted escaped : Quoting

abbrev prepend : ℕ → Option Text → Option Text
prepend b none = none
prepend b (some word) = some (b ∷ word)

-- The value of a word of quotes and escaped characters. Any other character outside of quotes may
-- mean something to the shell, and gives none.
pub read_word : Quoting → Text → Option Text
read_word plain [] = some []
read_word quoted [] = none
read_word escaped [] = none
read_word plain (b ∷ text) =
    if b == 39 then read_word quoted text else if b == 92 then read_word escaped text else none
read_word quoted (b ∷ text) =
    if b == 39 then read_word plain text else prepend b (read_word quoted text)
read_word escaped (b ∷ text) = prepend b (read_word plain text)

unquoted :
    (b : ℕ) (text value : Text)
    → (b == 39) ≡ false
    → read_word quoted text ≡ some value
    → read_word quoted (b ∷ text) ≡ some (b ∷ value)
unfolding read_word
unquoted b text value other h = rw (other) (ap (prepend b) h)

read_word-replace_quotes :
    (value : Text) → read_word quoted (replace_quotes value ++ (39 ∷ [])) ≡ some value
unfolding read_word replace_quotes
read_word-replace_quotes [] = refl
read_word-replace_quotes (b ∷ value) = elim (Bool-cases (b == 39)) [
  | inl quote ↦ rw (quote) (
      ap (prepend 39) (read_word-replace_quotes value)
      ∙ ap (λ c. some (c ∷ value)) (sym (nat_eq.eq_sound b 39 quote)))
  | inr other ↦
      rw (other) (
        unquoted b (replace_quotes value ++ (39 ∷ [])) value other (read_word-replace_quotes value))
]

-- The shell reads a quoted value as one word, which is the value, whatever characters it has.
pub read_word-shell_argument : (value : Text) → read_word plain (shell_argument value) ≡ some value
unfolding read_word shell_argument
read_word-shell_argument value = read_word-replace_quotes value
