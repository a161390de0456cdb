-- ===== src/SecretUse/Approved/Honoured.antt =====
-- What a request asks of the approved secrets.
use agentknock_cli.Prelude.{
  Text, ◌==◌, text_eq, text_beq_iff, ◌≡◌, ◌≢◌, refl, true, false, not, Option, none, some, List, [],
  ◌∷◌, ok, guard, is_nil, All, All-map, >>=-eq-ok, >>-eq-ok, >>-eq-ok_unit, and-eq-true,
  not-eq-true, not-is_nil,
}
use agentknock_cli.Maps.{Map, Set, keys, contains_key}
use agentknock_cli.SecretUse.Options.{EnvironmentVariableOptions, for_each, is_empty, sources}
use agentknock_cli.SecretUse.Options.Valid.{for_each-eq-ok}
use agentknock_cli.SecretUse.Approved.{
  ApprovedSecret, environment, ssh, SecretUseInvocation, SecretUseOutput, Delivery, deliver_secret,
  deliver_secrets, validate_returned_variables, secret_use_output_from_secrets, same_texts,
  matches_only, omitted_variable, missing_variable,
}

-- The names that an option selects, if it selects any, are the names of the variables.
abbrev pub SelectsExactly : Option Set → Map Text → Type 0
SelectsExactly none variables = Unit
SelectsExactly (some only) variables = keys variables ≡ keys only

-- An approved secret holds what its options ask for.
pub data Honours : ApprovedSecret → EnvironmentVariableOptions → Type 0 where
  honours_environment :
      (variables : Map Text) (options : EnvironmentVariableOptions)
      → SelectsExactly options.only variables
      → All (λ name. contains_key name variables ≡ false) (keys options.omit)
      → All (λ source. contains_key source variables ≡ true) (sources options)
      → Honours (environment variables) options
  honours_ssh :
      (public_key : Text) (options : EnvironmentVariableOptions)
      → is_empty options ≡ true
      → public_key ≢ []
      → Honours (ssh public_key) options

-- The secrets and the requested options, by their places.
abbrev pub AllHonour : Map ApprovedSecret → Map EnvironmentVariableOptions → Type 0
AllHonour ((_, secret) ∷ secrets) ((_, options) ∷ requested) =
    Honours secret options × AllHonour secrets requested
AllHonour [] _ = Unit
AllHonour (_ ∷ _) [] = Unit

same_texts-≡ : (xs ys : List Text) → same_texts xs ys ≡ true → xs ≡ ys
unfolding same_texts
same_texts-≡ [] [] h = refl
same_texts-≡ [] (_ ∷ _) h = cc
same_texts-≡ (_ ∷ _) [] h = cc
same_texts-≡ (x ∷ xs) (y ∷ ys) h =
    let (head, tail) = and-eq-true (x == y) _ h in
    let same = (text_beq_iff x y).0 head in rw (same, same_texts-≡ xs ys tail) refl

matches_only-SelectsExactly :
    (only : Option Set) (variables : Map Text)
    → matches_only only variables ≡ true
    → SelectsExactly only variables
unfolding matches_only
matches_only-SelectsExactly none variables h = tt
matches_only-SelectsExactly (some only) variables h = same_texts-≡ (keys variables) (keys only) h

validate_returned-Honours :
    (name : Text) (variables : Map Text) (options : EnvironmentVariableOptions)
    → validate_returned_variables name variables options ≡ ok tt
    → Honours (environment variables) options
unfolding validate_returned_variables
validate_returned-Honours name variables options h =
    let (matched, h1) = >>-eq-ok (matches_only options.only variables) _ _ h in
    let (omitted, present) =
      >>-eq-ok_unit
        (for_each (λ n. guard (not (contains_key n variables)) (omitted_variable name n))
          (keys options.omit))
        _ h1 in
    honours_environment variables options
      (matches_only-SelectsExactly options.only variables matched)
      (All-map (λ x. not-eq-true (contains_key x variables)) (keys options.omit)
        (for_each-eq-ok (λ n. not (contains_key n variables)) (omitted_variable name)
          (keys options.omit) omitted))
      (for_each-eq-ok (λ source. contains_key source variables) (missing_variable name)
        (sources options) present)

deliver_secret-Honours :
    (name : Text) (secret : ApprovedSecret) (options : EnvironmentVariableOptions)
    (before : Delivery) {after : Delivery}
    → deliver_secret name secret options before ≡ ok after
    → Honours secret options
unfolding deliver_secret
deliver_secret-Honours name (environment variables) options before h =
    let (valid, _) = >>-eq-ok_unit (validate_returned_variables name variables options) _ h in
    validate_returned-Honours name variables options valid
deliver_secret-Honours name (ssh public_key) options before h =
    let (plain, h1) = >>-eq-ok (is_empty options) _ _ h in
    let (some_key, _) = >>-eq-ok (not (is_nil public_key)) _ _ h1 in
    honours_ssh public_key options plain (not-is_nil public_key some_key)

deliver_secrets-AllHonour :
    (secrets : Map ApprovedSecret) (requested : Map EnvironmentVariableOptions) (before : Delivery)
    {after : Delivery}
    → deliver_secrets secrets requested before ≡ ok after
    → AllHonour secrets requested
unfolding deliver_secrets
deliver_secrets-AllHonour [] requested before h = tt
deliver_secrets-AllHonour (_ ∷ _) [] before h = tt
deliver_secrets-AllHonour ((name, secret) ∷ secrets) ((_, options) ∷ requested) before h =
    let (next, e, rest) = >>=-eq-ok (deliver_secret name secret options before) _ h in
    (
      deliver_secret-Honours name secret options before e,
      deliver_secrets-AllHonour secrets requested next rest,
    )

-- If the approved secrets are accepted, they are the requested ones by name, and each of them
-- holds what its options ask for: exactly the selected variables, no omitted one and every variable
-- that is renamed or sent to standard input, or a public key and no options for variables.
pub output-Honours :
    (secrets : Map ApprovedSecret) (requested : Map EnvironmentVariableOptions)
    (invocation : SecretUseInvocation) (output : SecretUseOutput)
    → secret_use_output_from_secrets secrets requested invocation ≡ ok output
    → (keys secrets ≡ keys requested) × AllHonour secrets requested
unfolding secret_use_output_from_secrets
output-Honours secrets requested invocation output h =
    let (same, h1) = >>-eq-ok (same_texts (keys secrets) (keys requested)) _ _ h in
    let (delivery, e, _) = >>=-eq-ok (deliver_secrets secrets requested _) _ h1 in
    (same_texts-≡ _ _ same, deliver_secrets-AllHonour secrets requested _ e)
