-- ===== src/SecretUse/Options/Valid.antt =====
-- Which requests pass the validation.
use agentknock_cli.Prelude.{
  ℕ, ◌+◌, ◌≤◌, Text, ◌≡◌, ◌≢◌, ◌↔◌, refl, ap, arith, Bool, true, false, not, ◌&&◌, Option, none,
  some, List, [], ◌∷◌, ok, ◌>>=◌, guard, is_nil, is_some, All, >>-eq-ok, >>-eq-ok_unit, >>=-eq-ok,
  if◌then◌else◌, option_list, ok-injective, not-eq-true, not-eq-false, not-is_nil, is_nil-≢,
  All-map,
}
use agentknock_cli.Maps.{Map, contains, contains_key}
use agentknock_cli.SecretUse.Options.{
  EnvironmentVariableOptions, for_each, sources, option_names, valid_name,
  validate_environment_name, is_selected, empty_selection, validate_stdin, validate_secret,
  validate_secrets, validate_secret_options, invalid_environment_name, not_selected,
  used_and_omitted,
}

abbrev pub Secret : Type 0
Secret = Text × EnvironmentVariableOptions

-- The options of one secret that pass each test of the validation.
pub record IsUsable (secret : Secret) : Type 0 where
  pub named : secret.0 ≢ []
  pub some_selected : empty_selection secret.1.only ≡ false
  pub one_filter : (is_some secret.1.only && not (is_nil secret.1.omit)) ≡ false
  pub names_valid : All (λ name. valid_name name ≡ true) (option_names secret.1)
  pub sources_selected : All (λ source. is_selected secret.1.only source ≡ true) (sources secret.1)
  pub sources_kept : All (λ source. contains source secret.1.omit ≡ false) (sources secret.1)
  pub stdin_not_renamed :
      All (λ source. contains_key source secret.1.rename ≡ false) (option_list secret.1.stdin)

-- How many variables of the secrets go to standard input.
abbrev pub stdin_count : List Secret → ℕ
stdin_count [] = 0
stdin_count (secret ∷ secrets) = (if is_some secret.1.stdin then 1 else 0) + stdin_count secrets

-- A request that passes the tests: at least one secret, each with options that fit together, and at
-- most one variable for standard input.
abbrev pub IsValidRequest : Map EnvironmentVariableOptions → Type 0
IsValidRequest secrets = (is_nil secrets ≡ false) × All IsUsable secrets × (stdin_count secrets ≤ 1)

pub for_each-eq-ok :
    {E A : Type 0} (test : A → Bool) (e : A → E) (xs : List A)
    → for_each (λ x. guard (test x) (e x)) xs ≡ ok tt
    → All (λ x. test x ≡ true) xs
unfolding for_each
for_each-eq-ok test e [] h = tt
for_each-eq-ok test e (x ∷ xs) h =
    let (passed, rest) = >>-eq-ok (test x) _ _ h in (passed, for_each-eq-ok test e xs rest)

for_each-ok :
    {E A : Type 0} (test : A → Bool) (e : A → E) (xs : List A)
    → All (λ x. test x ≡ true) xs
    → for_each (λ x. guard (test x) (e x)) xs ≡ ok tt
unfolding for_each
for_each-ok test e [] h = refl
for_each-ok test e (x ∷ xs) (passed, h) = rw passed (for_each-ok test e xs h)

-- The flag for standard input before and after a secret.
abbrev stdin_flag : Option Text → Bool → Bool
stdin_flag none before = before
stdin_flag (some _) _ = true

validate_stdin_iff :
    (stdin : Option Text) (rename : Map Text) (before after : Bool)
    → (validate_stdin stdin rename before ≡ ok after) ↔ (
        All (λ source. contains_key source rename ≡ false) (option_list stdin)
        × ((is_some stdin && before) ≡ false)
        × (stdin_flag stdin before ≡ after))
unfolding validate_stdin
validate_stdin_iff none rename before after =
    (λ h. (tt, refl, ok-injective h), λ (_, _, h). ap ok h)
validate_stdin_iff (some source) rename before after = (
  λ h.
      let (kept, h1) = >>-eq-ok (not (contains_key source rename)) _ _ h in
      let (first, h2) = >>-eq-ok (not before) _ _ h1 in
      ((not-eq-true _ kept, tt), not-eq-true _ first, ok-injective h2),
  λ ((kept, _), first, flag). rw (kept, first) (ap ok flag),
)

validate_secret_sound :
    (secret : Text) (options : EnvironmentVariableOptions) (before after : Bool)
    → validate_secret secret options before ≡ ok after
    → IsUsable (secret, options)
      × ((is_some options.stdin && before) ≡ false)
      × (stdin_flag options.stdin before ≡ after)
unfolding validate_secret validate_environment_name
validate_secret_sound secret options before after h =
    let (named, h1) = >>-eq-ok (not (is_nil secret)) _ _ h in
    let (selected, h2) = >>-eq-ok (not (empty_selection options.only)) _ _ h1 in
    let (one, h3) = >>-eq-ok (not (is_some options.only && not (is_nil options.omit))) _ _ h2 in
    let (names, h4) =
      >>-eq-ok_unit (for_each validate_environment_name (option_names options)) _ h3 in
    let (within, h5) =
      >>-eq-ok_unit
        (for_each (λ source. guard (is_selected options.only source) (not_selected source))
          (sources options))
        _ h4 in
    let (kept, h6) =
      >>-eq-ok_unit
        (for_each (λ source. guard (not (contains source options.omit)) (used_and_omitted source))
          (sources options))
        _ h5 in
    let (apart, first, flag) =
      (validate_stdin_iff options.stdin options.rename before after).0 h6 in
    (
      record {
        named = not-is_nil secret named;
        some_selected = not-eq-true _ selected;
        one_filter = not-eq-true _ one;
        names_valid =
            for_each-eq-ok valid_name invalid_environment_name (option_names options) names;
        sources_selected =
            for_each-eq-ok (is_selected options.only) not_selected (sources options) within;
        sources_kept =
            All-map (λ x. not-eq-true (contains x options.omit)) (sources options)
              (for_each-eq-ok (λ source. not (contains source options.omit)) used_and_omitted
                (sources options) kept);
        stdin_not_renamed = apart;
      },
      first,
      flag,
    )

validate_secret_complete :
    (secret : Text) (options : EnvironmentVariableOptions) (before : Bool)
    → IsUsable (secret, options)
    → (is_some options.stdin && before) ≡ false
    → validate_secret secret options before ≡ ok (stdin_flag options.stdin before)
unfolding validate_secret validate_environment_name
validate_secret_complete secret options before u first =
    rw
      (
        is_nil-≢ secret u.named,
        u.some_selected,
        u.one_filter,
        for_each-ok valid_name invalid_environment_name (option_names options) u.names_valid,
        for_each-ok (is_selected options.only) not_selected (sources options) u.sources_selected,
        for_each-ok (λ source. not (contains source options.omit)) used_and_omitted
            (sources options)
            (All-map (λ x. not-eq-false (contains x options.omit)) (sources options)
              u.sources_kept),
      )
      ((validate_stdin_iff options.stdin options.rename before (stdin_flag options.stdin before)).1
        (u.stdin_not_renamed, first, refl))

-- The flag as a number.
abbrev count_flag : Bool → ℕ
count_flag b = if b then 1 else 0

flag_bound : (b : Bool) → count_flag b ≤ 1
flag_bound true = omega arith
flag_bound false = omega arith

flag_step :
    (stdin : Option Text) (before : Bool) (n : ℕ)
    → ((is_some stdin && before) ≡ false) × (n + count_flag (stdin_flag stdin before) ≤ 1)
      ↔ ((if is_some stdin then 1 else 0) + n + count_flag before ≤ 1)
flag_step none before n = (λ (_, h). omega arith, λ h. (refl, omega arith))
flag_step (some _) true n = (λ (e, _). absurd (ground arith), λ h. absurd (omega arith))
flag_step (some _) false n = (λ (_, h). omega arith, λ h. (refl, omega arith))

validate_secrets_iff :
    (secrets : Map EnvironmentVariableOptions) (before : Bool)
    → (validate_secrets secrets before ≡ ok tt)
      ↔ (All IsUsable secrets × (stdin_count secrets + count_flag before ≤ 1))
unfolding validate_secrets
validate_secrets_iff [] before = (λ _. (tt, omega (arith, flag_bound before)), λ _. refl)
validate_secrets_iff ((secret, options) ∷ secrets) before = (
  λ h.
      let (after, valid, more) = >>=-eq-ok (validate_secret secret options before) _ h in
      let (usable, first, flag) = validate_secret_sound secret options before after valid in
      let (rest, count) = (validate_secrets_iff secrets after).0 more in
      (
        (usable, rest),
        (flag_step options.stdin before (stdin_count secrets)).0 (first, rw (← flag) at count),
      ),
  λ ((usable, rest), count).
      let (first, count') = (flag_step options.stdin before (stdin_count secrets)).1 count in
      rw (validate_secret_complete secret options before usable first, ◌>>=◌)
        ((validate_secrets_iff secrets (stdin_flag options.stdin before)).1 (rest, count')),
)

pub validate_secret_options-IsValidRequest_iff :
    (secrets : Map EnvironmentVariableOptions)
    → (validate_secret_options secrets ≡ ok tt) ↔ IsValidRequest secrets
unfolding validate_secret_options
validate_secret_options-IsValidRequest_iff secrets = (
  λ h.
      let (some_secret, h1) = >>-eq-ok (not (is_nil secrets)) _ _ h in
      let (usable, count) = (validate_secrets_iff secrets false).0 h1 in
      (not-eq-true _ some_secret, usable, omega (arith, count)),
  λ (some_secret, usable, count).
      rw some_secret ((validate_secrets_iff secrets false).1 (usable, omega (arith, count))),
)
