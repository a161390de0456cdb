-- ===== src/Cli/Options/Keys.antt =====
-- The secrets that the command line requests.
use agentknock_cli.Prelude.{
  Text, ◌==◌, text_eq, text_beq_refl, ◌≡◌, ◌≢◌, refl, ap, ◌∙◌, sym, arith, Bool, true, false, not,
  ◌||◌, none, some, List, [], ◌∷◌, Result, ok, ok_or, is_nil, any, All, All-map, ok-injective,
  ok_or-eq-ok, >>=-eq-ok, >>-eq-ok, >>-eq-ok_unit,
}
use agentknock_cli.Maps.{insert, get, contains_key}
use agentknock_cli.Maps.Laws.{contains_key-insert, contains_key-replace}
use agentknock_cli.SecretUse.Options.{EnvironmentVariableOptions, validate_secret_options}
use agentknock_cli.SecretUse.Options.Valid.{validate_secret_options-IsValidRequest_iff}
use agentknock_cli.Cli.Names.{parse_secret, parse_secret-≢-nil}
use agentknock_cli.Cli.Options.{
  RunCommand, RunOptionsError, Options, default_options, pairs, triples, try_fold, select_secret,
  select_variable, omit_variable, rename_variable, send_variable, environment_options,
  validate_run_environment_name, validate_run_environment_options, secret_options,
}
use agentknock_cli.Cli.Options.Accepted.{secret_options_sound}

-- A text stands in a list.
abbrev pub listed : Text → List Text → Bool
listed name names = any (λ other. name == other) names

abbrev SameKeys : Options → Options → Type 0
SameKeys secrets secrets' = (name : Text) → contains_key name secrets' ≡ contains_key name secrets

abbrev KeepsKeys : {A : Type 0} → (Options → A → Result RunOptionsError Options) → Type 0
KeepsKeys {A} step =
    (secrets : Options) (x : A) (secrets' : Options)
    → step secrets x ≡ ok secrets'
    → SameKeys secrets secrets'

try_fold-SameKeys :
    {A : Type 0} (step : Options → A → Result RunOptionsError Options)
    → KeepsKeys step
    → (xs : List A) (secrets secrets' : Options) → try_fold step secrets xs ≡ ok secrets'
    → SameKeys secrets secrets'
unfolding try_fold
try_fold-SameKeys step keep [] secrets secrets' h name =
    ap (contains_key name) (sym (ok-injective h))
try_fold-SameKeys step keep (x ∷ xs) secrets secrets' h name =
    let (next, stepped, rest) = >>=-eq-ok (step secrets x) _ h in
    try_fold-SameKeys step keep xs next secrets' rest name ∙ keep secrets x next stepped name

-- An entry that is changed in place.
replaced :
    (secret : Text) (options : EnvironmentVariableOptions) (secrets secrets' : Options)
    (e : RunOptionsError) {old : EnvironmentVariableOptions}
    → ok_or e (get secret secrets) ≡ ok old
    → ◌≡◌ {A = Result RunOptionsError Options} (ok (insert secret options secrets)) (ok secrets')
    → SameKeys secrets secrets'
replaced secret options secrets secrets' e found h name =
    ap (contains_key name) (sym (ok-injective h))
    ∙ contains_key-replace secret name options secrets (ok_or-eq-ok e (get secret secrets) found)

select_variable-SameKeys : KeepsKeys select_variable
unfolding select_variable environment_options
select_variable-SameKeys secrets (secret, variable) secrets' h =
    let (_, h1) = >>-eq-ok_unit (validate_run_environment_name variable) _ h in
    let (options, found, h2) = >>=-eq-ok (ok_or _ (get secret secrets)) _ h1 in
    let (_, h3) = >>-eq-ok _ _ _ h2 in replaced secret _ secrets secrets' _ found h3

omit_variable-SameKeys : KeepsKeys omit_variable
unfolding omit_variable environment_options
omit_variable-SameKeys secrets (secret, variable) secrets' h =
    let (_, h1) = >>-eq-ok_unit (validate_run_environment_name variable) _ h in
    let (options, found, h2) = >>=-eq-ok (ok_or _ (get secret secrets)) _ h1 in
    let (_, h3) = >>-eq-ok _ _ _ h2 in replaced secret _ secrets secrets' _ found h3

rename_variable-SameKeys : KeepsKeys rename_variable
unfolding rename_variable environment_options
rename_variable-SameKeys secrets (secret, variable, new_variable) secrets' h =
    let (_, h1) = >>-eq-ok_unit (validate_run_environment_name variable) _ h in
    let (_, h2) = >>-eq-ok_unit (validate_run_environment_name new_variable) _ h1 in
    let (options, found, h3) = >>=-eq-ok (ok_or _ (get secret secrets)) _ h2 in
    let (_, h4) = >>-eq-ok _ _ _ h3 in replaced secret _ secrets secrets' _ found h4

send_variable-SameKeys : KeepsKeys send_variable
unfolding send_variable environment_options
send_variable-SameKeys secrets none secrets' h =
    λ name. ap (contains_key name) (sym (ok-injective h))
send_variable-SameKeys secrets (some (secret ∷ variable ∷ [])) secrets' h =
    let (_, h1) = >>-eq-ok_unit (validate_run_environment_name variable) _ h in
    let (options, found, h2) = >>=-eq-ok (ok_or _ (get secret secrets)) _ h1 in
    replaced secret _ secrets secrets' _ found h2
send_variable-SameKeys secrets (some []) secrets' h = cc
send_variable-SameKeys secrets (some (_ ∷ [])) secrets' h = cc
send_variable-SameKeys secrets (some (_ ∷ _ ∷ _ ∷ _)) secrets' h = cc

or_false : (b : Bool) → b ≡ (b || false)
or_false true = refl
or_false false = refl

either_order : (a b c : Bool) → (a || (b || c)) ≡ ((b || a) || c)
either_order true true c = refl
either_order true false c = refl
either_order false true c = refl
either_order false false c = refl

select_all :
    (names : List Text) (secrets secrets' : Options)
    → try_fold select_secret secrets names ≡ ok secrets'
    → (name : Text) → contains_key name secrets' ≡ (contains_key name secrets || listed name names)
unfolding try_fold select_secret
select_all [] secrets secrets' h name =
    ap (contains_key name) (sym (ok-injective h)) ∙ or_false (contains_key name secrets)
select_all (secret ∷ names) secrets secrets' h name =
    let (next, stepped, rest) = >>=-eq-ok (select_secret secrets secret) _ h in
    let (_, inserted) = >>-eq-ok (not (contains_key secret secrets)) _ _ stepped in
    let grown : contains_key name next ≡ (name == secret || contains_key name secrets) =
      ap (contains_key name) (sym (ok-injective inserted))
      ∙ contains_key-insert secret name default_options secrets in
    select_all names next secrets' rest name
    ∙ (ap (λ b. b || listed name names) grown
        ∙ sym (either_order (contains_key name secrets) (name == secret) (listed name names)))

-- If the command line's options are accepted, the request holds the secrets that `--secret` names
-- and no others.
pub secret_options-keys :
    (command : RunCommand) (secrets : Options)
    → secret_options command ≡ ok secrets
    → (name : Text) → contains_key name secrets ≡ listed name command.secrets
unfolding secret_options contains_key get
secret_options-keys command secrets h name =
    let (s1, e1, h1) = >>=-eq-ok (try_fold select_secret [] command.secrets) _ h in
    let (s2, e2, h2) = >>=-eq-ok (try_fold select_variable s1 (pairs command.only_env)) _ h1 in
    let (s3, e3, h3) = >>=-eq-ok (try_fold omit_variable s2 (pairs command.omit_env)) _ h2 in
    let (s4, e4, h4) = >>=-eq-ok (try_fold rename_variable s3 (triples command.rename_env)) _ h3 in
    let (s5, e5, h5) = >>=-eq-ok (send_variable s4 command.stdin) _ h4 in
    let (_, h6) = >>-eq-ok_unit (validate_run_environment_options s5) _ h5 in
    ap (contains_key name) (sym (ok-injective h6))
    ∙ (send_variable-SameKeys s4 command.stdin s5 e5 name
        ∙ (try_fold-SameKeys rename_variable rename_variable-SameKeys _ s3 s4 e4 name
            ∙ (try_fold-SameKeys omit_variable omit_variable-SameKeys _ s2 s3 e3 name
                ∙ (try_fold-SameKeys select_variable select_variable-SameKeys _ s1 s2 e2 name
                    ∙ select_all command.secrets [] s1 e1 name))))

contains_key-nil :
    (name : Text) (secrets : Options) → contains_key name secrets ≡ true → is_nil secrets ≡ false
unfolding contains_key get
contains_key-nil name [] h = ground arith
contains_key-nil name (_ ∷ _) h = refl

listed-first : (names : List Text) → names ≢ [] → (name : Text) × (listed name names ≡ true)
listed-first [] h = absurd (h refl)
listed-first (name ∷ names) h = (name, rw (text_beq_refl name) refl)

-- The secrets of an accepted command line, with at least one `--secret` and each of them accepted
-- by its value parser, pass the validation of a request.
pub secret_options-validate :
    (command : RunCommand) (secrets : Options)
    → command.secrets ≢ []
    → All (λ secret. parse_secret secret ≡ ok secret) command.secrets
    → secret_options command ≡ ok secrets
    → validate_secret_options secrets ≡ ok tt
secret_options-validate command secrets some_secret parsed h =
    let (usable, count) =
      secret_options_sound command secrets
        (All-map (λ secret. parse_secret-≢-nil secret) command.secrets parsed) h in
    let (name, first) = listed-first command.secrets some_secret in
    let held = secret_options-keys command secrets h name ∙ first in
    (validate_secret_options-IsValidRequest_iff secrets).1
      (contains_key-nil name secrets held, usable, count)
