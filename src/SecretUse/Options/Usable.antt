-- ===== src/SecretUse/Options/Usable.antt =====
-- The requests that src/secret_use.rs takes, described without its validation.
use agentknock_cli.Prelude.{
  ◌≤◌, ◌≡◌, ◌≢◌, ◌⊎◌, ◌↔◌, refl, arith, inl, inr, Text, nat_eq, true, false, not, ◌&&◌, ◌||◌,
  Option, none, some, List, [], ◌∷◌, ◌++◌, ok, is_nil, is_some, All, All-append, All-map,
  option_list, is_nil-≢,
}
use agentknock_cli.Strings.{contains_byte}
use agentknock_cli.Maps.{Map, Set, keys, values, contains, contains_key}
use agentknock_cli.SecretUse.Options.{
  EnvironmentVariableOptions, only_keys, sources, option_names, valid_name, is_selected,
  empty_selection, validate_secret_options,
}
use agentknock_cli.SecretUse.Options.Valid.{
  Secret, IsUsable, stdin_count, validate_secret_options-IsValidRequest_iff,
}

-- A name of an environment variable: not empty, and without `=` and the null byte.
abbrev pub IsName : Text → Type 0
IsName name = (name ≢ []) × All (λ b. (b ≢ 61) × (b ≢ 0)) name

-- The names that `only` gives, if it is given.
abbrev pub Only : (Set → Type 0) → Option Set → Type 0
Only P none = Unit
Only P (some only) = P only

-- The variable is among those that the options leave.
abbrev pub IsUsed : EnvironmentVariableOptions → Text → Type 0
IsUsed options source =
    Only (λ only. contains source only ≡ true) options.only × (contains source options.omit ≡ false)

-- Options of one secret that fit together.
pub record IsFitting (secret : Secret) : Type 0 where
  pub named : secret.0 ≢ []
  pub only_given : Only (λ only. only ≢ []) secret.1.only
  pub one_filter : (secret.1.only ≡ none) ⊎ (secret.1.omit ≡ [])
  pub only_named : Only (λ only. All IsName (keys only)) secret.1.only
  pub omit_named : All IsName (keys secret.1.omit)
  pub renames_named : All (λ rename. IsName rename.0 × IsName rename.1) secret.1.rename
  pub stdin_named : All IsName (option_list secret.1.stdin)
  pub renames_used : All (λ rename. IsUsed secret.1 rename.0) secret.1.rename
  pub stdin_used : All (IsUsed secret.1) (option_list secret.1.stdin)
  pub stdin_not_renamed :
      All (λ source. contains_key source secret.1.rename ≡ false) (option_list secret.1.stdin)

abbrev pub IsRequest : Map EnvironmentVariableOptions → Type 0
IsRequest secrets = (secrets ≢ []) × All IsFitting secrets × (stdin_count secrets ≤ 1)

contains_byte_iff :
    (name : Text)
    → ((contains_byte 61 name || contains_byte 0 name) ≡ false) ↔ All (λ b. (b ≢ 61) × (b ≢ 0)) name
contains_byte_iff [] = (λ h. tt, λ h. refl)
contains_byte_iff (b ∷ name) =
    let (sound, complete) = contains_byte_iff name in
    (
      λ h. (ground (arith, h), sound (ground (arith, h))),
      λ ((apart, not_null), h). ground (arith, apart, not_null, complete h),
    )

valid_name_iff : (name : Text) → (valid_name name ≡ true) ↔ IsName name
unfolding valid_name
valid_name_iff [] = (λ h. absurd (cc), λ (named, _). absurd (named refl))
valid_name_iff (b ∷ name) =
    let (sound, complete) = contains_byte_iff (b ∷ name) in
    (λ h. (λ same. absurd (cc), sound (ground (arith, h))), λ (_, h). ground (arith, complete h))

module _ {A : Type 0} (P : A → Type 0) where
  All-split : (xs ys : List A) → All P (xs ++ ys) → All P xs × All P ys
  All-split [] ys h = (tt, h)
  All-split (x ∷ xs) ys (p, h) = let (left, right) = All-split xs ys h in ((p, left), right)

module _ (P Q : Text → Type 0) where
  -- What holds of the keys and of the values, together.
  All-keys : (map : Map Text) → All P (keys map) → All Q (values map) → All (λ e. P e.0 × Q e.1) map
  All-keys [] h k = tt
  All-keys ((key, value) ∷ map) (p, h) (q, k) = ((p, q), All-keys map h k)

  All-entries :
      (map : Map Text) → All (λ e. P e.0 × Q e.1) map → All P (keys map) × All Q (values map)
  All-entries [] h = (tt, tt)
  All-entries ((key, value) ∷ map) ((p, q), h) =
      let (left, right) = All-entries map h in ((p, left), (q, right))

module _ (P : Text → Type 0) where
  keys-All : (map : Map Text) → All P (keys map) → All (λ e. P e.0) map
  keys-All [] h = tt
  keys-All ((key, value) ∷ map) (p, h) = (p, keys-All map h)

  entries-All : (map : Map Text) → All (λ e. P e.0) map → All P (keys map)
  entries-All [] h = tt
  entries-All ((key, value) ∷ map) (p, h) = (p, entries-All map h)

empty_selection_iff : (only : Option Set) → (empty_selection only ≡ false) ↔ Only (λ o. o ≢ []) only
unfolding empty_selection
empty_selection_iff none = (λ h. tt, λ h. refl)
empty_selection_iff (some []) = (λ h. absurd (cc), λ h. absurd (h refl))
empty_selection_iff (some (_ ∷ _)) = (λ h same. absurd (cc), λ h. refl)

one_filter_iff :
    (only : Option Set) (omit : Set)
    → ((is_some only && not (is_nil omit)) ≡ false) ↔ ((only ≡ none) ⊎ (omit ≡ []))
one_filter_iff none omit = (λ h. inl refl, λ h. refl)
one_filter_iff (some only) [] = (λ h. inr refl, λ h. refl)
one_filter_iff (some only) (_ ∷ _) =
    (λ h. absurd (cc), λ h. elim h [ inl same ↦ absurd (cc) | inr same ↦ absurd (cc) ])

is_selected_iff :
    (only : Option Set) (source : Text)
    → (is_selected only source ≡ true) ↔ Only (λ o. contains source o ≡ true) only
unfolding is_selected
is_selected_iff none source = (λ h. tt, λ h. refl)
is_selected_iff (some only) source = (λ h. h, λ h. h)

only_keys_iff :
    (only : Option Set) → All IsName (only_keys only) ↔ Only (λ o. All IsName (keys o)) only
unfolding only_keys
only_keys_iff none = (λ h. tt, λ h. tt)
only_keys_iff (some only) = (λ h. h, λ h. h)

-- The tests on the sources, together.
used :
    (options : EnvironmentVariableOptions) (names : List Text)
    → All (λ source. is_selected options.only source ≡ true) names
    → All (λ source. contains source options.omit ≡ false) names
    → All (IsUsed options) names
used options [] h k = tt
used options (name ∷ names) (p, h) (q, k) =
    (((is_selected_iff options.only name).0 p, q), used options names h k)

selected :
    (options : EnvironmentVariableOptions) (names : List Text)
    → All (IsUsed options) names
    → All (λ source. is_selected options.only source ≡ true) names
selected options names h = All-map (λ source u. (is_selected_iff options.only source).1 u.0) names h

kept :
    (options : EnvironmentVariableOptions) (names : List Text)
    → All (IsUsed options) names
    → All (λ source. contains source options.omit ≡ false) names
kept options names h = All-map (λ source u. u.1) names h

IsUsable-IsFitting : (secret : Secret) → IsUsable secret → IsFitting secret
unfolding option_names sources
IsUsable-IsFitting secret u =
    let options = secret.1 in
    let names = All-map (λ name. (valid_name_iff name).0) (option_names options) u.names_valid in
    let only_omit = only_keys options.only ++ keys options.omit in
    let (before_stdin, in_stdin) =
      All-split IsName (only_omit ++ keys options.rename ++ values options.rename) _ names in
    let (before_to, in_to) = All-split IsName (only_omit ++ keys options.rename) _ before_stdin in
    let (before_from, in_from) = All-split IsName only_omit _ before_to in
    let (in_only, in_omit) = All-split IsName (only_keys options.only) _ before_from in
    let (from_used, stdin_is_used) =
      All-split (IsUsed options) (keys options.rename) _
        (used options (sources options) u.sources_selected u.sources_kept) in
    record {
      named = u.named;
      only_given = (empty_selection_iff options.only).0 u.some_selected;
      one_filter = (one_filter_iff options.only options.omit).0 u.one_filter;
      only_named = (only_keys_iff options.only).0 in_only;
      omit_named = in_omit;
      renames_named = All-keys IsName IsName options.rename in_from in_to;
      stdin_named = in_stdin;
      renames_used = keys-All (IsUsed options) options.rename from_used;
      stdin_used = stdin_is_used;
      stdin_not_renamed = u.stdin_not_renamed;
    }

IsFitting-IsUsable : (secret : Secret) → IsFitting secret → IsUsable secret
unfolding option_names sources
IsFitting-IsUsable secret f =
    let options = secret.1 in
    let (in_from, in_to) = All-entries IsName IsName options.rename f.renames_named in
    let only_omit = only_keys options.only ++ keys options.omit in
    let names =
      All-append IsName (only_omit ++ keys options.rename ++ values options.rename) _
        (All-append IsName (only_omit ++ keys options.rename) _
          (All-append IsName only_omit _
            (All-append IsName (only_keys options.only) _
              ((only_keys_iff options.only).1 f.only_named) f.omit_named)
            in_from)
          in_to)
        f.stdin_named in
    let all_used =
      All-append (IsUsed options) (keys options.rename) _
        (entries-All (IsUsed options) options.rename f.renames_used) f.stdin_used in
    record {
      named = f.named;
      some_selected = (empty_selection_iff options.only).1 f.only_given;
      one_filter = (one_filter_iff options.only options.omit).1 f.one_filter;
      names_valid = All-map (λ name. (valid_name_iff name).1) (option_names options) names;
      sources_selected = selected options (sources options) all_used;
      sources_kept = kept options (sources options) all_used;
      stdin_not_renamed = f.stdin_not_renamed;
    }

some_secrets : (secrets : Map EnvironmentVariableOptions) → is_nil secrets ≡ false → secrets ≢ []
some_secrets [] h same = absurd (cc)
some_secrets (_ ∷ _) h same = cc

-- A request passes the validation exactly if it names at least one secret, at most one variable goes
-- to standard input, and of each secret: its name is not empty; `only` is not empty and not given
-- together with `omit`; all names are names of environment variables; and the variables that are
-- renamed or sent to standard input are among the used ones, and no variable is both.
pub validate_secret_options_iff :
    (secrets : Map EnvironmentVariableOptions)
    → (validate_secret_options secrets ≡ ok tt) ↔ IsRequest secrets
validate_secret_options_iff secrets =
    let (sound, complete) = validate_secret_options-IsValidRequest_iff secrets in
    (
      λ h.
          let (given, usable, count) = sound h in
          (some_secrets secrets given, All-map IsUsable-IsFitting secrets usable, count),
      λ (given, fitting, count).
          complete (is_nil-≢ secrets given, All-map IsFitting-IsUsable secrets fitting, count),
    )
