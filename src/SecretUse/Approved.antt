-- ===== src/SecretUse/Approved.antt =====
-- The output of src/secret_use.rs, made of the secrets that the device approved.
pub mod Delivered
pub mod Honoured
use agentknock_cli.Prelude.{
  ℕ, Text, ◌==◌, text_eq, Bool, true, false, not, ◌&&◌, Option, none, some, List, [], ◌∷◌, Result,
  ok, err, ◌>>=◌, ◌>>◌, guard, is_nil, is_some, unwrap_or, if◌then◌else◌,
}
use agentknock_cli.Maps.{Map, Set, insert, get, keys, contains_key}
use agentknock_cli.SecretUse.Options.{EnvironmentVariableOptions, for_each, is_empty, sources}

pub data ApprovedSecret : Type 0 where
  environment : Map Text → ApprovedSecret
  ssh : Text → ApprovedSecret

pub record SshSecretUse : Type 0 where
  pub name : Text
  pub public_key : Text

pub record SecretUseInvocation : Type 0 where
  pub id : Text
  pub token : List ℕ

pub record SecretUseOutput : Type 0 where
  pub environment : Map Text
  pub stdin : Option Text
  pub ssh : Option SshSecretUse
  pub invocation : SecretUseInvocation

-- The errors of the kind `Other`, with the values that their messages name.
pub data UnexpectedResponse : Type 0 where
  unexpected_secrets two_ssh_secrets : UnexpectedResponse
  unexpected_variables ssh_options empty_public_key : Text → UnexpectedResponse
  omitted_variable missing_variable : Text → Text → UnexpectedResponse
  conflicting_values : Text → UnexpectedResponse

-- `Iterator::eq`
unfoldable pub same_texts : List Text → List Text → Bool
same_texts [] [] = true
same_texts [] (_ ∷ _) = false
same_texts (_ ∷ _) [] = false
same_texts (a ∷ xs) (b ∷ ys) = a == b && same_texts xs ys

unfoldable pub matches_only : Option Set → Map Text → Bool
matches_only none variables = true
matches_only (some only) variables = same_texts (keys variables) (keys only)

unfoldable pub validate_returned_variables :
    Text → Map Text → EnvironmentVariableOptions → Result UnexpectedResponse (Unit {0})
validate_returned_variables secret variables options = do
  guard (matches_only options.only variables) (unexpected_variables secret)
  for_each (λ name. guard (not (contains_key name variables)) (omitted_variable secret name))
      (keys options.omit)
  for_each (λ source. guard (contains_key source variables) (missing_variable secret source))
      (sources options)

-- The locals of `secret_use_output_from_secrets`.
pub record Delivery : Type 0 where
  pub environment : Map Text
  pub stdin : Option Text
  pub ssh : Option SshSecretUse

unfoldable pub is_stdin : Option Text → Text → Bool
is_stdin none _ = false
is_stdin (some source) source_name = source == source_name

-- `previous` is absent or the value itself.
unfoldable pub agrees : Option Text → Text → Bool
agrees none _ = true
agrees (some previous) value = previous == value

unfoldable pub final_name : EnvironmentVariableOptions → Text → Text
final_name options source_name = unwrap_or source_name (get source_name options.rename)

-- The body of the loop over the variables of a secret.
unfoldable pub deliver_variable :
    EnvironmentVariableOptions → Delivery → Text × Text → Result UnexpectedResponse Delivery
deliver_variable options delivery (source_name, value) =
    if is_stdin options.stdin source_name
    then ok (record { environment = delivery.environment; stdin = some value; ssh = delivery.ssh })
    else (do
      guard (agrees (get (final_name options source_name) delivery.environment) value)
          (conflicting_values (final_name options source_name))
      ok (record {
        environment = insert (final_name options source_name) value delivery.environment;
        stdin = delivery.stdin;
        ssh = delivery.ssh;
      }))

unfoldable pub deliver_variables :
    EnvironmentVariableOptions → Map Text → Delivery → Result UnexpectedResponse Delivery
deliver_variables options [] delivery = ok delivery
deliver_variables options (variable ∷ variables) delivery =
    deliver_variable options delivery variable >>= deliver_variables options variables

-- The body of the loop over the secrets.
unfoldable pub deliver_secret :
    Text
    → ApprovedSecret
    → EnvironmentVariableOptions
    → Delivery
    → Result UnexpectedResponse Delivery
deliver_secret name (environment variables) options delivery = do
  validate_returned_variables name variables options
  deliver_variables options variables delivery
deliver_secret name (ssh public_key) options delivery = do
  guard (is_empty options) (ssh_options name)
  guard (not (is_nil public_key)) (empty_public_key name)
  guard (not (is_some delivery.ssh)) two_ssh_secrets
  ok (record {
    environment = delivery.environment;
    stdin = delivery.stdin;
    ssh = some (record { name = name; public_key = public_key });
  })

-- The loop, which ends with the shorter of the two maps.
unfoldable pub deliver_secrets :
    Map ApprovedSecret
    → Map EnvironmentVariableOptions
    → Delivery
    → Result UnexpectedResponse Delivery
deliver_secrets ((name, secret) ∷ secrets) ((_, options) ∷ requested) delivery =
    deliver_secret name secret options delivery >>= deliver_secrets secrets requested
deliver_secrets [] _ delivery = ok delivery
deliver_secrets (_ ∷ _) [] delivery = ok delivery

unfoldable pub secret_use_output_from_secrets :
    Map ApprovedSecret
    → Map EnvironmentVariableOptions
    → SecretUseInvocation
    → Result UnexpectedResponse SecretUseOutput
secret_use_output_from_secrets secrets requested_secrets invocation = do
  guard (same_texts (keys secrets) (keys requested_secrets)) unexpected_secrets
  delivery ←
      deliver_secrets secrets requested_secrets
        (record { environment = []; stdin = none; ssh = none })
  ok (record {
    environment = delivery.environment;
    stdin = delivery.stdin;
    ssh = delivery.ssh;
    invocation = invocation;
  })
