-- ===== src/SshAgent/Identities/Merge.antt =====
-- Which keys the answer lists.
use agentknock_cli.Prelude.{
  ◌≡◌, refl, ap, ◌∙◌, arith, Bool, true, false, ◌||◌, ◌&&◌, not, Bool-cases, inl, inr, Option, none,
  some, List, [], ◌∷◌, ◌++◌, ◌==◌, text_eq, text_beq_iff, text_beq_refl, is_some, if◌then◌else◌,
}
use agentknock_cli.SshAgent.Wire.{Bytes}
use agentknock_cli.SshAgent.Authentication.{KeyKind, SelectedIdentity}
use agentknock_cli.SshAgent.Identities.{
  ListedIdentity, contains, unseen, selected_entries, upstream_entries, listed_identities,
}

-- The keys of a list, in its order.
abbrev pub keys : List ListedIdentity → List Bytes
keys [] = []
keys (identity ∷ identities) = identity.key_blob ∷ keys identities

-- No key stands twice.
abbrev pub distinct : List Bytes → Bool
distinct [] = true
distinct (key ∷ others) = not (contains key others) && distinct others

-- The Boolean steps of `contains-unseen`: `c` for the seen keys, `e` for the head, `k` for the tail.
none_seen : (c : Bool) → false ≡ (not c && false)
none_seen true = refl
none_seen false = refl

head_known : (c e k : Bool) → (e ≡ true → c ≡ true) → (not c && k) ≡ (not c && (e || k))
head_known true e k h = refl
head_known false true k h = ground (arith, h refl)
head_known false false k h = refl

head_fresh :
    (c e k : Bool) → (e ≡ true → c ≡ false) → (e || (not (e || c) && k)) ≡ (not c && (e || k))
head_fresh true true k h = ground (arith, h refl)
head_fresh true false k h = refl
head_fresh false true k h = refl
head_fresh false false k h = refl

contains-cons :
    (key x : Bytes) (xs : List Bytes) → contains key (x ∷ xs) ≡ (key == x || contains key xs)
unfolding contains
contains-cons key x xs = refl

unseen-known :
    (seen : List Bytes) (i : ListedIdentity) (is : List ListedIdentity)
    → contains i.key_blob seen ≡ true
    → unseen seen (i ∷ is) ≡ unseen seen is
unfolding unseen
unseen-known seen i is h = rw (unseen, h) refl

unseen-fresh :
    (seen : List Bytes) (i : ListedIdentity) (is : List ListedIdentity)
    → contains i.key_blob seen ≡ false
    → unseen seen (i ∷ is) ≡ i ∷ unseen (i.key_blob ∷ seen) is
unfolding unseen
unseen-fresh seen i is h = rw (unseen, h) refl

-- What the filter leaves: the keys of the list that were not seen before.
contains-unseen :
    (key : Bytes) (seen : List Bytes) (identities : List ListedIdentity)
    → contains key (keys (unseen seen identities))
      ≡ (not (contains key seen) && contains key (keys identities))
unfolding contains unseen
contains-unseen key seen [] = none_seen (contains key seen)
contains-unseen key seen (i ∷ is) = elim (Bool-cases (contains i.key_blob seen)) [
  | inl known ↦
      let same : (key == i.key_blob) ≡ true → contains key seen ≡ true =
        λ e. rw (← (text_beq_iff key i.key_blob).0 e) at known in
      ap (λ l. contains key (keys l)) (unseen-known seen i is known)
      ∙ (contains-unseen key seen is
          ∙ head_known (contains key seen) (key == i.key_blob) (contains key (keys is)) same)
  | inr fresh ↦
      let other : (key == i.key_blob) ≡ true → contains key seen ≡ false =
        λ e. rw (← (text_beq_iff key i.key_blob).0 e) at fresh in
      ap (λ l. contains key (keys l)) (unseen-fresh seen i is fresh)
      ∙ (ap (λ b. key == i.key_blob || b) (contains-unseen key (i.key_blob ∷ seen) is)
          ∙ head_fresh (contains key seen) (key == i.key_blob) (contains key (keys is)) other)
]

distinct-unseen :
    (seen : List Bytes) (identities : List ListedIdentity)
    → distinct (keys (unseen seen identities)) ≡ true
unfolding unseen
distinct-unseen seen [] = refl
distinct-unseen seen (i ∷ is) = elim (Bool-cases (contains i.key_blob seen)) [
  | inl known ↦ ap (λ l. distinct (keys l)) (unseen-known seen i is known) ∙ distinct-unseen seen is
  | inr fresh ↦
      ap (λ l. distinct (keys l)) (unseen-fresh seen i is fresh)
      ∙ rw
          (
            contains-unseen i.key_blob (i.key_blob ∷ seen) is,
            contains-cons,
            distinct-unseen (i.key_blob ∷ seen) is,
            text_beq_refl i.key_blob,
          )
          refl
]

module _ (selected : SelectedIdentity) (upstream : List ListedIdentity) where
  distinct-entries :
      (kind : Option KeyKind)
      → distinct (keys (selected_entries selected kind ++ unseen (selected.key_blob ∷ []) upstream))
        ≡ true
  unfolding selected_entries contains
  distinct-entries none = distinct-unseen (selected.key_blob ∷ []) upstream
  distinct-entries (some _) =
      rw
        (
          contains-unseen selected.key_blob (selected.key_blob ∷ []) upstream,
          text_beq_refl selected.key_blob,
          distinct-unseen (selected.key_blob ∷ []) upstream,
        )
        refl

  contains-entries :
      (kind : Option KeyKind) (key : Bytes)
      → contains key
          (keys (selected_entries selected kind ++ unseen (selected.key_blob ∷ []) upstream))
        ≡ (if key == selected.key_blob then is_some kind else contains key (keys upstream))
  unfolding selected_entries contains
  contains-entries none key = elim (Bool-cases (key == selected.key_blob)) [
    | inl same ↦ rw (contains-unseen key (selected.key_blob ∷ []) upstream, same) refl
    | inr other ↦ rw (contains-unseen key (selected.key_blob ∷ []) upstream, other) refl
  ]
  contains-entries (some _) key = elim (Bool-cases (key == selected.key_blob)) [
    | inl same ↦ rw (contains-unseen key (selected.key_blob ∷ []) upstream, same) refl
    | inr other ↦ rw (contains-unseen key (selected.key_blob ∷ []) upstream, other) refl
  ]

-- The answer lists no key twice; it lists the selected key if its kind is known, and of the other
-- keys those that the upstream agent lists.
pub listed-keys :
    (selected : SelectedIdentity) (upstream : Option Bytes)
    → (distinct (keys (listed_identities selected upstream)) ≡ true)
      × ((key : Bytes)
          → contains key (keys (listed_identities selected upstream)) ≡ (
              if key == selected.key_blob
              then is_some selected.key_kind
              else contains key (keys (upstream_entries upstream))))
unfolding listed_identities
listed-keys selected upstream = (
  distinct-entries selected (upstream_entries upstream) selected.key_kind,
  contains-entries selected (upstream_entries upstream) selected.key_kind,
)
