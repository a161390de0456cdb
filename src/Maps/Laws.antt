-- ===== src/Maps/Laws.antt =====
-- Lookup after insertion.
use agentknock_cli.Prelude.{
  Text, ◌==◌, text_eq, text_beq_iff, ◌≡◌, refl, ap, ◌∙◌, sym, subst, some-injective, Bool-cases,
  false, ◌⊎◌, inl, inr, Option, some, [], ◌∷◌, if◌then◌else◌, All, is_nil, ◌||◌,
}
use agentknock_cli.Maps.{Map, insert, get, text_ltb, contains_key, Set, contains, insert_key}

module _ {ℓ} {A : Type ℓ} where
  pub insert-cases :
      (key : Text) (value : A) (other : Text) (old : A) (map : Map A)
      → ((key ≡ other) × (insert key value ((other, old) ∷ map) ≡ (key, value) ∷ map))
        ⊎ ((((key == other) ≡ false)
              × (insert key value ((other, old) ∷ map) ≡ (key, value) ∷ (other, old) ∷ map))
            ⊎ (((key == other) ≡ false)
                × (insert key value ((other, old) ∷ map) ≡ (other, old) ∷ insert key value map)))
  unfolding insert
  insert-cases key value other old map = elim (Bool-cases (key == other)) [
    | inl same ↦ inl ((text_beq_iff key other).0 same, rw same refl)
    | inr differ ↦ elim (Bool-cases (text_ltb key other)) [
      | inl before ↦ inr (inl (differ, rw (differ, before) refl))
      | inr after ↦ inr (inr (differ, rw (differ, after) refl))
    ]
  ]

  get-cons :
      (key other : Text) (value : A) (map : Map A)
      → get key ((other, value) ∷ map) ≡ (if key == other then some value else get key map)
  unfolding get
  get-cons key other value map = refl

  replaced :
      (name key other : Text) (value : A) (o old : Option A)
      → key ≡ other
      → (if name == key then some value else o)
        ≡ (if name == key then some value else (if name == other then old else o))
  replaced name key other value o old same = elim (Bool-cases (name == key)) [
    | inl found ↦ rw found refl
    | inr differ ↦ rw (← same, differ) refl
  ]

  passed :
      (name key other : Text) (value : A) (o old : Option A)
      → (key == other) ≡ false
      → (if name == other then old else (if name == key then some value else o))
        ≡ (if name == key then some value else (if name == other then old else o))
  passed name key other value o old differ = elim (Bool-cases (name == key)) [
    | inl found ↦ rw (found, (text_beq_iff name key).0 found, differ) refl
    | inr differ' ↦ rw differ' refl
  ]

  -- A lookup finds what was inserted last under the name, and else what the map held.
  pub get-insert :
      (key name : Text) (value : A) (map : Map A)
      → get name (insert key value map) ≡ (if name == key then some value else get name map)
  unfolding insert get
  get-insert key name value [] = refl
  get-insert key name value ((other, old) ∷ map) = elim (insert-cases key value other old map) [
    | inl (same, e) ↦ ap (get name) e ∙ replaced name key other value (get name map) (some old) same
    | inr (inl (differ, e)) ↦ ap (get name) e
    | inr (inr (differ, e)) ↦
        ap (get name) e
        ∙ (ap (λ o. if name == other then some old else o) (get-insert key name value map)
            ∙ passed name key other value (get name map) (some old) differ)
  ]

  pub insert-≢-nil : (key : Text) (value : A) (map : Map A) → is_nil (insert key value map) ≡ false
  unfolding insert
  insert-≢-nil key value [] = refl
  insert-≢-nil key value ((other, old) ∷ map) = elim (insert-cases key value other old map) [
    | inl (_, e) ↦ ap is_nil e
    | inr (inl (_, e)) ↦ ap is_nil e
    | inr (inr (_, e)) ↦ ap is_nil e
  ]

module _ {ℓ κ} {A : Type ℓ} (P : Text × A → Type κ) where
  -- An insertion keeps what holds of every entry, if it holds of the new one.
  pub All-insert :
      (key : Text) (value : A) (map : Map A)
      → P (key, value)
      → All P map
      → All P (insert key value map)
  unfolding insert
  All-insert key value [] p h = (p, tt)
  All-insert key value ((other, old) ∷ map) p (q, h) = elim (insert-cases key value other old map) [
    | inl (_, e) ↦ subst (All P) (sym e) (p, h)
    | inr (inl (_, e)) ↦ subst (All P) (sym e) (p, (q, h))
    | inr (inr (_, e)) ↦ subst (All P) (sym e) (q, All-insert key value map p h)
  ]

  pub All-get :
      (key : Text) {value : A} (map : Map A) → All P map → get key map ≡ some value → P (key, value)
  unfolding get
  All-get key [] h e = cc
  All-get key {value} ((other, old) ∷ map) (q, h) e = elim (Bool-cases (key == other)) [
    | inl same ↦
        let e' : old ≡ value = some-injective (rw same at e) in
        subst P (ap (λ k. (k, old)) (sym ((text_beq_iff key other).0 same)) ∙ ap (λ v. (key, v)) e')
          q
    | inr differ ↦ All-get key map h (rw differ at e)
  ]

-- Membership after insertion.
pub contains-insert_key :
    (key name : Text) (set : Set)
    → contains name (insert_key key set) ≡ (name == key || contains name set)
unfolding contains contains_key insert_key
contains-insert_key key name set = elim (Bool-cases (name == key)) [
  | inl found ↦ rw (get-insert key name tt set, found) refl
  | inr differ ↦ rw (get-insert key name tt set, differ) refl
]

module _ {ℓ} {A : Type ℓ} where
  pub contains_key-insert :
      (key name : Text) (value : A) (map : Map A)
      → contains_key name (insert key value map) ≡ (name == key || contains_key name map)
  unfolding contains_key
  contains_key-insert key name value map = elim (Bool-cases (name == key)) [
    | inl found ↦ rw (get-insert key name value map, found) refl
    | inr differ ↦ rw (get-insert key name value map, differ) refl
  ]

  -- A new value under a key that the map holds.
  pub contains_key-replace :
      (key name : Text) (value : A) (map : Map A) {old : A}
      → get key map ≡ some old
      → contains_key name (insert key value map) ≡ contains_key name map
  unfolding contains_key
  contains_key-replace key name value map found = elim (Bool-cases (name == key)) [
    | inl same ↦
        let same' = (text_beq_iff name key).0 same in
        rw (get-insert key name value map, same, same', found) refl
    | inr differ ↦ rw (get-insert key name value map, differ) refl
  ]
