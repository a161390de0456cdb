-- ===== src/Strings.antt =====
-- The methods of `str` and `[u8]` of the Rust standard library that the program walks text with.
-- A text is its bytes; a byte of a character beyond ASCII is 128 or more.
use agentknock_cli.Prelude.{
  ℕ, Text, Bool, true, false, ◌&&◌, ◌||◌, Option, none, some, List, [], ◌∷◌, ◌==◌, nat_eq, leb,
  if◌then◌else◌, is_nil, any,
}

-- `u8::is_ascii_whitespace`
abbrev pub is_ascii_whitespace : ℕ → Bool
is_ascii_whitespace b = b == 32 || b == 9 || b == 10 || b == 12 || b == 13

abbrev pub is_ascii_lowercase : ℕ → Bool
is_ascii_lowercase b = leb b'a' b && leb b b'z'

abbrev pub is_ascii_uppercase : ℕ → Bool
is_ascii_uppercase b = leb b'A' b && leb b b'Z'

abbrev pub is_ascii_digit : ℕ → Bool
is_ascii_digit b = leb b'0' b && leb b b'9'

abbrev pub is_ascii_alphanumeric : ℕ → Bool
is_ascii_alphanumeric b = is_ascii_lowercase b || is_ascii_uppercase b || is_ascii_digit b

unfoldable pub push_front : Bool → ℕ → List Text → List Text
push_front true b pieces = [] ∷ pieces
push_front false b [] = (b ∷ []) ∷ []
push_front false b (piece ∷ pieces) = (b ∷ piece) ∷ pieces

-- `split(is_separator)`: the pieces between separators, at least one
unfoldable pub split : (ℕ → Bool) → Text → List Text
unfolding push_front
split is_separator [] = [] ∷ []
split is_separator (b ∷ s) = push_front (is_separator b) b (split is_separator s)

unfoldable pub some_pieces : List Text → List Text
some_pieces [] = []
some_pieces (piece ∷ pieces) =
    if is_nil piece then some_pieces pieces else piece ∷ some_pieces pieces

-- `split_ascii_whitespace`: the pieces that are not empty
unfoldable pub split_ascii_whitespace : Text → List Text
unfolding some_pieces split
split_ascii_whitespace s = some_pieces (split is_ascii_whitespace s)

abbrev map_first : (Text → Text) → Option (Text × Text) → Option (Text × Text)
map_first f none = none
map_first f (some (before, after)) = some (f before, after)

-- `split_once(sep)`: the parts before and after the first separator
unfoldable pub split_once : ℕ → Text → Option (Text × Text)
split_once sep [] = none
split_once sep (b ∷ s) = elim (b == sep) [
  | true ↦ some ([], s)
  | false ↦ map_first (λ before. b ∷ before) (split_once sep s)
]

-- `contains(byte)`
abbrev pub contains_byte : ℕ → Text → Bool
contains_byte b s = any (λ c. c == b) s

-- `strip_prefix`
unfoldable pub strip_prefix : Text → Text → Option Text
strip_prefix [] s = some s
strip_prefix (p ∷ prefix) [] = none
strip_prefix (p ∷ prefix) (b ∷ s) = if p == b then strip_prefix prefix s else none
