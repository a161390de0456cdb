-- ===== src/Cli/Options/Accepted.antt =====
-- What the secrets of the command line keep while they are built.
use agentknock_cli.Prelude.{
  ℕ, Text, ◌≡◌, ◌≢◌, refl, sym, subst, arith, Bool, true, false, not, ◌&&◌, ◌≤◌, Option, none, some,
  List, [], ◌∷◌, Result, ok, guard, ok_or, is_nil, is_some, if◌then◌else◌, All, All-append, All-map,
  option_list, ok-injective, ok_or-eq-ok, >>=-eq-ok, >>-eq-ok, >>-eq-ok_unit, guard-eq-ok,
  not-eq-true, inl, inr,
}
use agentknock_cli.Maps.{Map, Set, insert, get, keys, values, contains, contains_key, insert_key}
use agentknock_cli.Maps.Laws.{insert-cases, All-insert, All-get, insert-≢-nil}
use agentknock_cli.SecretUse.Options.{
  EnvironmentVariableOptions, sources, option_names, only_keys, valid_name, is_selected,
  empty_selection, for_each,
}
use agentknock_cli.SecretUse.Options.Valid.{IsUsable, for_each-eq-ok, stdin_count, Secret}
use agentknock_cli.Cli.Names.{valid_environment_name-valid_name}
use agentknock_cli.Cli.Options.{
  RunCommand, RunOptionsError, Options, default_options, pairs, triples, try_fold, select_secret,
  selection, select_variable, omit_variable, rename_variable, send_variable, environment_options,
  validate_run_environment_name, validate_run_secret, validate_run_environment_options,
  validate_stdin_variable, secret_options, not_selected, used_and_omitted,
}

abbrev IsName : Text → Type 0
IsName name = valid_name name ≡ true

-- What the options keep while they are built.
record IsBuilt (secret : Secret) : Type 0 where
  named : secret.0 ≢ []
  some_selected : empty_selection secret.1.only ≡ false
  only_names : All (λ entry. IsName entry.0) (selection secret.1.only)
  omit_names : All (λ entry. IsName entry.0) secret.1.omit
  rename_names : All (λ entry. IsName entry.0 × IsName entry.1) secret.1.rename
  stdin_name : All IsName (option_list secret.1.stdin)

-- Before a variable for standard input is chosen.
abbrev IsUnsent : Secret → Type 0
IsUnsent secret = IsBuilt secret × (secret.1.stdin ≡ none)

-- A step that keeps what the options keep, at the values that satisfy `Q`.
abbrev Keeps : {A : Type 0} → (Options → A → Result RunOptionsError Options) → (A → Type 0) → Type 0
Keeps {A} step Q =
    (secrets : Options) (x : A) (secrets' : Options)
    → Q x
    → All IsUnsent secrets
    → step secrets x ≡ ok secrets'
    → All IsUnsent secrets'

try_fold-All :
    {A : Type 0} (step : Options → A → Result RunOptionsError Options) (Q : A → Type 0)
    → Keeps step Q
    → (xs : List A) (secrets secrets' : Options) → All Q xs
    → All IsUnsent secrets
    → try_fold step secrets xs ≡ ok secrets'
    → All IsUnsent secrets'
unfolding try_fold
try_fold-All step Q keep [] secrets secrets' _ built h = subst (All IsUnsent) (ok-injective h) built
try_fold-All step Q keep (x ∷ xs) secrets secrets' (q, qs) built h =
    let (next, stepped, rest) = >>=-eq-ok (step secrets x) _ h in
    try_fold-All step Q keep xs next secrets' qs (keep secrets x next q built stepped) rest

validate_run_environment_name-IsName :
    (name : Text) → validate_run_environment_name name ≡ ok tt → IsName name
unfolding validate_run_environment_name
validate_run_environment_name-IsName name h =
    valid_environment_name-valid_name name (guard-eq-ok _ _ h)

select_secret-IsUnsent : Keeps select_secret (λ secret. secret ≢ [])
unfolding select_secret selection empty_selection
select_secret-IsUnsent secrets secret _ named built h =
    let (_, h1) = >>-eq-ok _ _ _ h in
    let fresh : IsUnsent (secret, default_options) = (
      record {
        named = named;
        some_selected = refl;
        only_names = tt;
        omit_names = tt;
        rename_names = tt;
        stdin_name = tt;
      },
      refl,
    ) in
    subst (All IsUnsent) (ok-injective h1)
      (All-insert IsUnsent secret default_options secrets fresh built)

select_variable-IsUnsent : Keeps select_variable (λ _. Unit {0})
unfolding select_variable environment_options selection empty_selection insert_key
select_variable-IsUnsent secrets (secret, variable) _ _ built h =
    let (valid, h1) = >>-eq-ok_unit (validate_run_environment_name variable) _ h in
    let (options, found, h2) = >>=-eq-ok (ok_or _ (get secret secrets)) _ h1 in
    let (b, unsent) =
      All-get IsUnsent secret secrets built (ok_or-eq-ok _ (get secret secrets) found) in
    let (_, h3) = >>-eq-ok _ _ _ h2 in
    subst (All IsUnsent) (ok-injective h3) (
      All-insert IsUnsent secret _ secrets
        (
          record {
            named = b.named;
            some_selected = insert-≢-nil variable tt (selection options.only);
            only_names =
                All-insert (λ entry. IsName entry.0) variable tt (selection options.only)
                  (validate_run_environment_name-IsName variable valid) b.only_names;
            omit_names = b.omit_names;
            rename_names = b.rename_names;
            stdin_name = b.stdin_name;
          },
          unsent,
        )
        built)

omit_variable-IsUnsent : Keeps omit_variable (λ _. Unit {0})
unfolding omit_variable environment_options insert_key
omit_variable-IsUnsent secrets (secret, variable) _ _ built h =
    let (valid, h1) = >>-eq-ok_unit (validate_run_environment_name variable) _ h in
    let (options, found, h2) = >>=-eq-ok (ok_or _ (get secret secrets)) _ h1 in
    let (b, unsent) =
      All-get IsUnsent secret secrets built (ok_or-eq-ok _ (get secret secrets) found) in
    let (_, h3) = >>-eq-ok _ _ _ h2 in
    subst (All IsUnsent) (ok-injective h3) (
      All-insert IsUnsent secret _ secrets
        (
          record {
            named = b.named;
            some_selected = b.some_selected;
            only_names = b.only_names;
            omit_names =
                All-insert (λ entry. IsName entry.0) variable tt options.omit
                  (validate_run_environment_name-IsName variable valid) b.omit_names;
            rename_names = b.rename_names;
            stdin_name = b.stdin_name;
          },
          unsent,
        )
        built)

rename_variable-IsUnsent : Keeps rename_variable (λ _. Unit {0})
unfolding rename_variable environment_options
rename_variable-IsUnsent secrets (secret, variable, new_variable) _ _ built h =
    let (valid, h1) = >>-eq-ok_unit (validate_run_environment_name variable) _ h in
    let (new_valid, h2) = >>-eq-ok_unit (validate_run_environment_name new_variable) _ h1 in
    let (options, found, h3) = >>=-eq-ok (ok_or _ (get secret secrets)) _ h2 in
    let (b, unsent) =
      All-get IsUnsent secret secrets built (ok_or-eq-ok _ (get secret secrets) found) in
    let (_, h4) = >>-eq-ok _ _ _ h3 in
    subst (All IsUnsent) (ok-injective h4) (
      All-insert IsUnsent secret _ secrets
        (
          record {
            named = b.named;
            some_selected = b.some_selected;
            only_names = b.only_names;
            omit_names = b.omit_names;
            rename_names =
                All-insert (λ entry. IsName entry.0 × IsName entry.1) variable new_variable
                  options.rename
                  (
                    validate_run_environment_name-IsName variable valid,
                    validate_run_environment_name-IsName new_variable new_valid,
                  )
                  b.rename_names;
            stdin_name = b.stdin_name;
          },
          unsent,
        )
        built)

stdin_count-unsent : (secrets : Options) → All IsUnsent secrets → stdin_count secrets ≡ 0
stdin_count-unsent [] _ = refl
stdin_count-unsent ((secret, options) ∷ secrets) ((_, unsent), built) =
    rw unsent (omega (arith, stdin_count-unsent secrets built))

abbrev as_number : Bool → ℕ
as_number b = if b then 1 else 0

flag_le : (b : Bool) → as_number b ≤ 1
flag_le true = omega arith
flag_le false = omega arith

stdin_count-insert :
    (secret : Text) (options : EnvironmentVariableOptions) (secrets : Options)
    → All IsUnsent secrets
    → stdin_count (insert secret options secrets) ≤ 1
unfolding insert
stdin_count-insert secret options [] _ = omega (arith, flag_le (is_some options.stdin))
stdin_count-insert secret options ((other, old) ∷ secrets) ((b, unsent), built) =
    let bound = flag_le (is_some options.stdin) in
    let none_left = stdin_count-unsent secrets built in
    let none_here : as_number (is_some old.stdin) ≡ 0 = rw unsent refl in
    elim (insert-cases secret options other old secrets) [
      | inl (_, e) ↦
          subst (λ (m : Options). stdin_count m ≤ 1) (sym e)
            (omega (arith, bound, none_left, none_here))
      | inr (inl (_, e)) ↦
          subst (λ (m : Options). stdin_count m ≤ 1) (sym e)
            (omega (arith, bound, none_left, none_here))
      | inr (inr (_, e)) ↦
          subst (λ (m : Options). stdin_count m ≤ 1) (sym e)
            (omega (arith, none_here, stdin_count-insert secret options secrets built))
    ]

send_variable-IsBuilt :
    (secrets : Options) (stdin : Option (List Text)) (secrets' : Options)
    → All IsUnsent secrets
    → send_variable secrets stdin ≡ ok secrets'
    → All IsBuilt secrets' × (stdin_count secrets' ≤ 1)
unfolding send_variable environment_options
send_variable-IsBuilt secrets none secrets' built h =
    subst (λ (m : Options). All IsBuilt m × (stdin_count m ≤ 1)) (ok-injective h)
      (All-map (λ x p. p.0) secrets built, omega (arith, stdin_count-unsent secrets built))
send_variable-IsBuilt secrets (some (secret ∷ variable ∷ [])) _ built h =
    let (valid, h1) = >>-eq-ok_unit (validate_run_environment_name variable) _ h in
    let (options, found, h2) = >>=-eq-ok (ok_or _ (get secret secrets)) _ h1 in
    let (b, _) = All-get IsUnsent secret secrets built (ok_or-eq-ok _ (get secret secrets) found) in
    subst (λ (m : Options). All IsBuilt m × (stdin_count m ≤ 1)) (ok-injective h2)
      (
        All-insert IsBuilt secret _ secrets
            (record {
              named = b.named;
              some_selected = b.some_selected;
              only_names = b.only_names;
              omit_names = b.omit_names;
              rename_names = b.rename_names;
              stdin_name = (validate_run_environment_name-IsName variable valid, tt);
            })
            (All-map (λ x p. p.0) secrets built),
        stdin_count-insert secret _ secrets built,
      )
send_variable-IsBuilt secrets (some []) _ built h = cc
send_variable-IsBuilt secrets (some (_ ∷ [])) _ built h = cc
send_variable-IsBuilt secrets (some (_ ∷ _ ∷ _ ∷ _)) _ built h = cc

All-keys :
    {A : Type 0} (P : Text → Type 0) (map : Map A) → All (λ entry. P entry.0) map → All P (keys map)
All-keys P [] h = tt
All-keys P ((k, v) ∷ map) (p, h) = (p, All-keys P map h)

All-values :
    {A : Type 0} (P : A → Type 0) (map : Map A) → All (λ entry. P entry.1) map → All P (values map)
All-values P [] h = tt
All-values P ((k, v) ∷ map) (p, h) = (p, All-values P map h)

All-only :
    (P : Text → Type 0) (only : Option Set)
    → All (λ entry. P entry.0) (selection only)
    → All P (only_keys only)
unfolding selection only_keys
All-only P none h = tt
All-only P (some only) h = All-keys P only h

option_names-valid : (secret : Secret) → IsBuilt secret → All IsName (option_names secret.1)
unfolding option_names
option_names-valid (secret, options) b =
    let renamed =
      All-map {P = λ (entry : Text × Text). IsName entry.0 × IsName entry.1}
        {Q = λ entry. IsName entry.0} (λ x p. p.0) options.rename b.rename_names in
    let new_names =
      All-map {P = λ (entry : Text × Text). IsName entry.0 × IsName entry.1}
        {Q = λ entry. IsName entry.1} (λ x p. p.1) options.rename b.rename_names in
    All-append IsName _ _
      (All-append IsName _ _
        (All-append IsName _ _
          (All-append IsName _ _ (All-only IsName options.only b.only_names)
            (All-keys IsName options.omit b.omit_names))
          (All-keys IsName options.rename renamed))
        (All-values IsName options.rename new_names))
      b.stdin_name

validate_stdin_variable-apart :
    (secret : Text) (rename : Map Text) (stdin : Option Text)
    → validate_stdin_variable secret rename stdin ≡ ok tt
    → All (λ source. contains_key source rename ≡ false) (option_list stdin)
unfolding validate_stdin_variable
validate_stdin_variable-apart secret rename none h = tt
validate_stdin_variable-apart secret rename (some variable) h =
    (not-eq-true _ (guard-eq-ok _ _ h), tt)

validate_run_secret-IsUsable :
    (secret : Secret) → IsBuilt secret → validate_run_secret secret ≡ ok tt → IsUsable secret
unfolding validate_run_secret
validate_run_secret-IsUsable (secret, options) b h =
    let (one, h1) = >>-eq-ok (not (is_some options.only && not (is_nil options.omit))) _ _ h in
    let (within, h2) =
      >>-eq-ok_unit
        (for_each
          (λ variable. guard (is_selected options.only variable) (not_selected variable secret))
          (sources options))
        _ h1 in
    let (kept, h3) =
      >>-eq-ok_unit
        (for_each
          (λ variable.
            guard (not (contains variable options.omit)) (used_and_omitted variable secret))
          (sources options))
        _ h2 in
    record {
      named = b.named;
      some_selected = b.some_selected;
      one_filter = not-eq-true _ one;
      names_valid = option_names-valid (secret, options) b;
      sources_selected =
          for_each-eq-ok (is_selected options.only) (λ variable. not_selected variable secret)
            (sources options) within;
      sources_kept =
          All-map (λ x. not-eq-true (contains x options.omit)) (sources options)
            (for_each-eq-ok (λ variable. not (contains variable options.omit))
              (λ variable. used_and_omitted variable secret) (sources options) kept);
      stdin_not_renamed = validate_stdin_variable-apart secret options.rename options.stdin h3;
    }

validate_run-IsUsable :
    (secrets : Options)
    → All IsBuilt secrets
    → validate_run_environment_options secrets ≡ ok tt
    → All IsUsable secrets
unfolding validate_run_environment_options for_each
validate_run-IsUsable [] _ h = tt
validate_run-IsUsable (secret ∷ secrets) (b, built) h =
    let (valid, rest) = >>-eq-ok_unit (validate_run_secret secret) _ h in
    (validate_run_secret-IsUsable secret b valid, validate_run-IsUsable secrets built rest)

All-unit : {A : Type 0} (xs : List A) → All (λ _. Unit {0}) xs
All-unit [] = tt
All-unit (x ∷ xs) = (tt, All-unit xs)

pub secret_options_sound :
    (command : RunCommand) (secrets : Options)
    → All (λ secret. secret ≢ []) command.secrets
    → secret_options command ≡ ok secrets
    → All IsUsable secrets × (stdin_count secrets ≤ 1)
unfolding secret_options
secret_options_sound command secrets named h =
    let (s1, e1, h1) = >>=-eq-ok (try_fold select_secret [] command.secrets) _ h in
    let b1 =
      try_fold-All select_secret _ select_secret-IsUnsent command.secrets [] s1 named tt e1 in
    let (s2, e2, h2) = >>=-eq-ok (try_fold select_variable s1 (pairs command.only_env)) _ h1 in
    let b2 = try_fold-All select_variable _ select_variable-IsUnsent _ s1 s2 (All-unit _) b1 e2 in
    let (s3, e3, h3) = >>=-eq-ok (try_fold omit_variable s2 (pairs command.omit_env)) _ h2 in
    let b3 = try_fold-All omit_variable _ omit_variable-IsUnsent _ s2 s3 (All-unit _) b2 e3 in
    let (s4, e4, h4) = >>=-eq-ok (try_fold rename_variable s3 (triples command.rename_env)) _ h3 in
    let b4 = try_fold-All rename_variable _ rename_variable-IsUnsent _ s3 s4 (All-unit _) b3 e4 in
    let (s5, e5, h5) = >>=-eq-ok (send_variable s4 command.stdin) _ h4 in
    let (b5, count) = send_variable-IsBuilt s4 command.stdin s5 b4 e5 in
    let (valid, h6) = >>-eq-ok_unit (validate_run_environment_options s5) _ h5 in
    subst (λ (m : Options). All IsUsable m × (stdin_count m ≤ 1)) (ok-injective h6)
      (validate_run-IsUsable s5 b5 valid, count)
