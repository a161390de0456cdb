-- ===== src/Maps.antt =====
-- `BTreeMap<String, _>` and `BTreeSet<String>`: association lists in the order of their keys.
pub mod Laws
pub mod Sorted
use agentknock_cli.Prelude.{
  ℕ, Text, ◌==◌, nat_eq, text_eq, ltb, ◌&&◌, ◌||◌, Bool, true, false, Option, none, some, List, [],
  ◌∷◌, if◌then◌else◌, is_some, is_nil,
}

-- The order of strings, by bytes.
unfoldable pub text_ltb : Text → Text → Bool
text_ltb [] [] = false
text_ltb [] (_ ∷ _) = true
text_ltb (_ ∷ _) [] = false
text_ltb (a ∷ xs) (b ∷ ys) = ltb a b || (a == b && text_ltb xs ys)

abbrev pub Map {ℓ} : Type ℓ → Type ℓ
Map A = List (Text × A)

module _ {ℓ} {A : Type ℓ} where
  unfoldable pub insert : Text → A → Map A → Map A
  insert key value [] = (key, value) ∷ []
  insert key value ((other, old) ∷ map) =
      if key == other
      then (key, value) ∷ map
      else if text_ltb key other
      then (key, value) ∷ (other, old) ∷ map
      else (other, old) ∷ insert key value map

  unfoldable pub get : Text → Map A → Option A
  get key [] = none
  get key ((other, value) ∷ map) = if key == other then some value else get key map

  unfoldable pub contains_key : Text → Map A → Bool
  contains_key key map = is_some (get key map)

  abbrev pub keys : Map A → List Text
  keys [] = []
  keys ((key, _) ∷ map) = key ∷ keys map

  abbrev pub values : Map A → List A
  values [] = []
  values ((_, value) ∷ map) = value ∷ values map

-- A set is a map without values.
abbrev pub Set : Type 0
Set = Map (Unit {0})

unfoldable pub contains : Text → Set → Bool
contains key set = contains_key key set

unfoldable pub insert_key : Text → Set → Set
insert_key key set = insert key tt set
