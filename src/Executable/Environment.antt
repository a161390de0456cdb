-- ===== src/Executable/Environment.antt =====
-- The environment that `c_environment` of src/bin/agentknock/executable.rs makes.
use agentknock_cli.Prelude.{
  Text, ◌≡◌, refl, sym, ap, ◌∙◌, ◌==◌, text_eq, nat_eq, Bool, not, ◌||◌, Option, none, some, List,
  [], ◌∷◌, ◌++◌, ok, >>=-eq-ok, >>-eq-ok, ok-injective, is_nil, any, map, arith, Bool-cases, inl,
  inr, subst, option_list, if◌then◌else◌,
}
use agentknock_cli.Maps.{insert, get}
use agentknock_cli.Maps.Laws.{get-insert}
use agentknock_cli.Maps.Sorted.{IsBelow, IsSorted, insert-IsSorted, values_of, values_of-get}
use agentknock_cli.Strings.{contains_byte}
use agentknock_cli.Executable.{
  Environment, remove, insert_delivered, extend, remove_all, c_string, c_entries, collect_variables,
  changed_environment, c_environment,
}

-- The value that the last of the variables with a name gives it, or else another one.
pub latest : Text → List (Text × Text) → Option Text → Option Text
latest name [] value = value
latest name ((key, new) ∷ variables) value =
    latest name variables (if name == key then some new else value)

abbrev pub is_removed : Text → List Text → Bool
is_removed name removed = any (λ key. key == name) removed

abbrev pub entry : Text × Text → Text
entry (name, value) = name ++ (61 ∷ value)

extend-latest :
    (name : Text) (variables : List (Text × Text)) (environment : Environment)
    → get name (extend variables environment) ≡ latest name variables (get name environment)
unfolding extend latest
extend-latest name [] environment = refl
extend-latest name ((key, value) ∷ variables) environment =
    extend-latest name variables (insert key value environment)
    ∙ ap (latest name variables) (get-insert key name value environment)

-- Whatever is accepted is inserted as `extend` does.
insert_delivered-extend :
    (delivered : List (Text × Text)) (environment : Environment) {after : Environment}
    → insert_delivered delivered environment ≡ ok after
    → extend delivered environment ≡ after
unfolding insert_delivered extend
insert_delivered-extend [] environment h = ok-injective h
insert_delivered-extend ((name, value) ∷ delivered) environment h =
    let (_, h1) =
      >>-eq-ok (not (is_nil name || contains_byte 61 name || contains_byte 0 name)) _ _ h in
    let (_, h2) = >>-eq-ok (not (contains_byte 0 value)) _ _ h1 in
    insert_delivered-extend delivered (insert name value environment) h2

get-remove :
    (name key : Text) (environment : Environment)
    → get name (remove key environment) ≡ (if key == name then none else get name environment)
unfolding get remove
get-remove name key [] = ground arith
get-remove name key ((other, value) ∷ environment) = ground (arith, get-remove name key environment)

remove_all-get :
    (name : Text) (removed : List Text) (environment : Environment)
    → get name (remove_all removed environment)
      ≡ (if is_removed name removed then none else get name environment)
unfolding remove_all
remove_all-get name [] environment = refl
remove_all-get name (key ∷ removed) environment =
    ground
      (arith, remove_all-get name removed (remove key environment), get-remove name key environment)

c_string-text : (text : Text) {made : Text} → c_string text ≡ ok made → text ≡ made
unfolding c_string
c_string-text text h = ground (arith, h)

c_entries-map :
    (environment : Environment) {entries : List Text}
    → c_entries environment ≡ ok entries
    → entries ≡ map entry environment
unfolding c_entries c_string
c_entries-map [] h = sym (ok-injective h)
c_entries-map ((name, value) ∷ environment) h =
    let (first, h1, rest) = >>=-eq-ok (c_string (name ++ (61 ∷ value))) _ h in
    let (others, h2, same) = >>=-eq-ok (c_entries environment) _ rest in
    sym (ok-injective same)
    ∙ (ap (λ t. t ∷ others) (sym (c_string-text (name ++ (61 ∷ value)) h1))
        ∙ ap (λ entries. entry (name, value) ∷ entries) (c_entries-map environment h2))

extend-IsSorted :
    (variables : List (Text × Text)) (environment : Environment)
    → IsSorted environment
    → IsSorted (extend variables environment)
unfolding extend
extend-IsSorted [] environment sorted = sorted
extend-IsSorted ((key, value) ∷ variables) environment sorted =
    extend-IsSorted variables (insert key value environment)
      (insert-IsSorted key value environment sorted)

remove-IsBelow :
    (name key : Text) (environment : Environment)
    → IsBelow name environment
    → IsBelow name (remove key environment)
unfolding remove
remove-IsBelow name key [] below = tt
remove-IsBelow name key ((other, value) ∷ environment) (less, below) =
    elim (Bool-cases (other == key)) [
      | inl same ↦ rw same (remove-IsBelow name key environment below)
      | inr differ ↦ rw differ (less, remove-IsBelow name key environment below)
    ]

remove-IsSorted :
    (key : Text) (environment : Environment)
    → IsSorted environment
    → IsSorted (remove key environment)
unfolding remove
remove-IsSorted key [] sorted = tt
remove-IsSorted key ((other, value) ∷ environment) (below, sorted) =
    elim (Bool-cases (other == key)) [
      | inl same ↦ rw same (remove-IsSorted key environment sorted)
      | inr differ ↦
          rw differ
            (remove-IsBelow other key environment below, remove-IsSorted key environment sorted)
    ]

remove_all-IsSorted :
    (removed : List Text) (environment : Environment)
    → IsSorted environment
    → IsSorted (remove_all removed environment)
unfolding remove_all
remove_all-IsSorted [] environment sorted = sorted
remove_all-IsSorted (key ∷ removed) environment sorted =
    remove_all-IsSorted removed (remove key environment) (remove-IsSorted key environment sorted)

-- An accepted environment has the entries `name=value` of some variables. A name has none of them if
-- it is removed, and else only the value that was given last: by the invocation service, or else by
-- the delivered variables, or else by the inherited ones; and none if nothing gives it one.
pub c_environment-entries :
    (inherited delivered additional : List (Text × Text)) (removed entries : List Text)
    → c_environment inherited delivered additional removed ≡ ok entries
    → (environment : Environment) × (entries ≡ map entry environment)
      × ((name : Text)
          → values_of name environment
            ≡ option_list (
                if is_removed name removed
                then none
                else latest name additional (latest name delivered (latest name inherited none))))
unfolding c_environment changed_environment collect_variables get
c_environment-entries inherited delivered additional removed entries h =
    let first = extend inherited [] in
    let (environment, changed, made) =
      >>=-eq-ok (changed_environment first delivered additional removed) _ h in
    let (inserted, accepted, same) = >>=-eq-ok (insert_delivered delivered first) _ changed in
    let second = insert_delivered-extend delivered first accepted in
    let last = extend additional inserted in
    let sorted : IsSorted inserted =
      subst IsSorted second (extend-IsSorted delivered first (extend-IsSorted inherited [] tt)) in
    (
      environment,
      c_entries-map environment made,
      λ name.
          ap (values_of name) (sym (ok-injective same))
          ∙ (values_of-get name (remove_all removed last)
                (remove_all-IsSorted removed last (extend-IsSorted additional inserted sorted))
              ∙ ap option_list (
                  remove_all-get name removed last
                  ∙ ap (λ value. if is_removed name removed then none else value)
                      (extend-latest name additional inserted
                        ∙ ap (latest name additional) (
                            ap (get name) (sym second)
                            ∙ (extend-latest name delivered first
                                ∙ ap (latest name delivered) (extend-latest name inherited [])))))),
    )
