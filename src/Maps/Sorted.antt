-- ===== src/Maps/Sorted.antt =====
-- The order of the keys of a `BTreeMap`, which an insertion keeps.
use agentknock_cli.Prelude.{
  Text, ◌==◌, text_eq, text_beq_iff, text_beq_refl, nat_eq, arith, ◌≡◌, refl, ap, subst, sym,
  Bool-cases, true, false, inl, inr, List, [], ◌∷◌, if◌then◌else◌, All, All-map, option_list,
}
use agentknock_cli.Maps.{Map, insert, get, text_ltb}
use agentknock_cli.Maps.Laws.{All-insert}

text_ltb_irrefl : (a : Text) → text_ltb a a ≡ false
unfolding text_ltb
text_ltb_irrefl [] = refl
text_ltb_irrefl (a ∷ xs) = ground (arith, text_ltb_irrefl xs)

text_ltb_trans : (a b c : Text) → text_ltb a b ≡ true → text_ltb b c ≡ true → text_ltb a c ≡ true
unfolding text_ltb
text_ltb_trans [] [] c h k = absurd (cc)
text_ltb_trans [] (_ ∷ _) [] h k = absurd (cc)
text_ltb_trans [] (_ ∷ _) (_ ∷ _) h k = refl
text_ltb_trans (_ ∷ _) [] c h k = absurd (cc)
text_ltb_trans (_ ∷ _) (_ ∷ _) [] h k = absurd (cc)
text_ltb_trans (a ∷ xs) (b ∷ ys) (c ∷ zs) h k = ground (arith, text_ltb_trans xs ys zs)

text_ltb_antisym : (a b : Text) → text_ltb a b ≡ false → text_ltb b a ≡ false → a ≡ b
unfolding text_ltb
text_ltb_antisym [] [] h k = refl
text_ltb_antisym [] (_ ∷ _) h k = absurd (cc)
text_ltb_antisym (_ ∷ _) [] h k = absurd (cc)
text_ltb_antisym (a ∷ xs) (b ∷ ys) h k =
    let heads : a ≡ b = ground arith in
    let tails =
      text_ltb_antisym xs ys (ground (arith, h, k, heads)) (ground (arith, h, k, heads)) in
    cc

text_ltb_total : (a b : Text) → (a == b) ≡ false → text_ltb a b ≡ false → text_ltb b a ≡ true
text_ltb_total a b differ h = elim (Bool-cases (text_ltb b a)) [
  | inl less ↦ less
  | inr more ↦ absurd (cc (text_ltb_antisym a b h more, text_beq_refl a))
]

module _ {ℓ} {A : Type ℓ} where
  abbrev pub IsBelow : Text → Map A → Type 0
  IsBelow key map = All (λ entry. text_ltb key entry.0 ≡ true) map

  -- Each key is less than all the later ones.
  abbrev pub IsSorted : Map A → Type 0
  IsSorted [] = Unit
  IsSorted ((key, _) ∷ map) = IsBelow key map × IsSorted map

  IsBelow-IsBelow :
      (key other : Text) (map : Map A)
      → text_ltb key other ≡ true
      → IsBelow other map
      → IsBelow key map
  IsBelow-IsBelow key other map h below =
      All-map (λ entry less. text_ltb_trans key other entry.0 h less) map below

  pub insert-IsSorted :
      (key : Text) (value : A) (map : Map A) → IsSorted map → IsSorted (insert key value map)
  unfolding insert
  insert-IsSorted key value [] sorted = (tt, tt)
  insert-IsSorted key value ((other, old) ∷ map) (below, sorted) =
      elim (Bool-cases (key == other)) [
        | inl same ↦
            let same' = (text_beq_iff key other).0 same in
            rw same (subst (λ k. IsBelow k map) (sym same') below, sorted)
        | inr differ ↦ elim (Bool-cases (text_ltb key other)) [
          | inl before ↦
              rw (differ, before)
                ((before, IsBelow-IsBelow key other map before below), (below, sorted))
          | inr after ↦
              rw (differ, after)
                (
                  All-insert (λ entry. text_ltb other entry.0 ≡ true) key value map
                      (text_ltb_total key other differ after) below,
                  insert-IsSorted key value map sorted,
                )
        ]
      ]

  -- All the values that a map has under a name.
  pub values_of : Text → Map A → List A
  values_of name [] = []
  values_of name ((key, value) ∷ map) =
      if name == key then value ∷ values_of name map else values_of name map

  below-values_of : (name : Text) (map : Map A) → IsBelow name map → values_of name map ≡ []
  unfolding values_of
  below-values_of name [] below = refl
  below-values_of name ((key, value) ∷ map) (less, below) = elim (Bool-cases (name == key)) [
    | inl same ↦ let same' = (text_beq_iff name key).0 same in absurd (cc (text_ltb_irrefl key))
    | inr differ ↦ rw differ (below-values_of name map below)
  ]

  -- A map in order has at most one value under a name.
  pub values_of-get :
      (name : Text) (map : Map A) → IsSorted map → values_of name map ≡ option_list (get name map)
  unfolding values_of get
  values_of-get name [] sorted = refl
  values_of-get name ((key, value) ∷ map) (below, sorted) = elim (Bool-cases (name == key)) [
    | inl same ↦
        let same' = (text_beq_iff name key).0 same in
        rw same (
          ap (λ rest. value ∷ rest)
            (below-values_of name map (subst (λ k. IsBelow k map) (sym same') below)))
    | inr differ ↦ rw differ (values_of-get name map sorted)
  ]
