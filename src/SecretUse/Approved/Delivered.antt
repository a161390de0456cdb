-- ===== src/SecretUse/Approved/Delivered.antt =====
-- What the output delivers.
use agentknock_cli.Prelude.{
  Text, ◌==◌, text_eq, text_beq_iff, text_beq_refl, ◌≡◌, refl, ap, ◌∙◌, sym, subst, true, not,
  Bool-cases, inl, inr, Option, none, some, unwrap_or, any, option_list, [], ◌∷◌, ◌++◌, ok, is_nil,
  is_some, All, All-append, All-map, or_else, ok-injective, >>=-eq-ok, >>-eq-ok, >>-eq-ok_unit,
  if◌then◌else◌,
}
use agentknock_cli.Maps.{Map, insert, get, keys}
use agentknock_cli.Maps.Laws.{get-insert}
use agentknock_cli.SecretUse.Options.{EnvironmentVariableOptions, is_empty}
use agentknock_cli.SecretUse.Approved.{
  ApprovedSecret, environment, ssh, SecretUseInvocation, SecretUseOutput, Delivery, is_stdin,
  agrees, final_name, deliver_variable, deliver_variables, deliver_secret, deliver_secrets,
  validate_returned_variables, secret_use_output_from_secrets, same_texts,
}

-- The new name that the first entry for a name gives it, or else the name itself.
pub renamed : Map Text → Text → Text
renamed [] name = name
renamed ((source, target) ∷ renames) name = if name == source then target else renamed renames name

-- The variables that a secret puts into the environment, under their new names: all but the one for
-- standard input.
pub delivered_variable : EnvironmentVariableOptions → Text × Text → Map Text
delivered_variable options (source_name, value) =
    if any (λ source. source == source_name) (option_list options.stdin)
    then []
    else (renamed options.rename source_name, value) ∷ []

final_name-renamed :
    (renames : Map Text) (name : Text) → unwrap_or name (get name renames) ≡ renamed renames name
unfolding renamed get
final_name-renamed [] name = refl
final_name-renamed ((source, target) ∷ renames) name = elim (Bool-cases (name == source)) [
  | inl same ↦ rw same refl
  | inr differ ↦ rw differ (final_name-renamed renames name)
]

stdin_test :
    (stdin : Option Text) (name : Text)
    → is_stdin stdin name ≡ any (λ source. source == name) (option_list stdin)
unfolding is_stdin
stdin_test none name = refl
stdin_test (some source) name = elim (Bool-cases (source == name)) [
  | inl same ↦ rw same refl
  | inr differ ↦ rw differ refl
]

delivered_variable-eq :
    (options : EnvironmentVariableOptions) (source_name value : Text)
    → (if is_stdin options.stdin source_name
        then []
        else (final_name options source_name, value) ∷ [])
      ≡ delivered_variable options (source_name, value)
unfolding delivered_variable final_name
delivered_variable-eq options source_name value =
    rw (stdin_test options.stdin source_name, final_name-renamed options.rename source_name) refl

pub delivered_variables : EnvironmentVariableOptions → Map Text → Map Text
delivered_variables options [] = []
delivered_variables options (variable ∷ variables) =
    delivered_variable options variable ++ delivered_variables options variables

pub delivered_secret : ApprovedSecret → EnvironmentVariableOptions → Map Text
delivered_secret (environment variables) options = delivered_variables options variables
delivered_secret (ssh _) options = []

pub delivered_secrets : Map ApprovedSecret → Map EnvironmentVariableOptions → Map Text
delivered_secrets ((_, secret) ∷ secrets) ((_, options) ∷ requested) =
    delivered_secret secret options ++ delivered_secrets secrets requested
delivered_secrets [] _ = []
delivered_secrets (_ ∷ _) [] = []

or_else_assoc : (a b c : Option Text) → or_else (or_else a b) c ≡ or_else a (or_else b c)
or_else_assoc none b c = refl
or_else_assoc (some a) b c = refl

or_else-none : (a : Option Text) → a ≡ or_else a none
or_else-none none = refl
or_else-none (some a) = refl

get-append : (k : Text) (xs ys : Map Text) → get k (xs ++ ys) ≡ or_else (get k xs) (get k ys)
unfolding get
get-append k [] ys = refl
get-append k ((other, v) ∷ xs) ys = elim (Bool-cases (k == other)) [
  | inl same ↦ rw same refl
  | inr differ ↦ rw differ (get-append k xs ys)
]

-- The environment after some values were delivered: none is lost and none is hidden.
abbrev Grows : Map Text → Map Text → Map Text → Type 0
Grows before delivered after =
    ((k : Text) → get k after ≡ or_else (get k before) (get k delivered))
    × All (λ entry. get entry.0 after ≡ some entry.1) delivered

Grows-nil : {before after : Map Text} → before ≡ after → Grows before [] after
unfolding get
Grows-nil {before} {after} e = (λ k. ap (get k) (sym e) ∙ or_else-none (get k before), tt)

Grows-append : (a b c xs ys : Map Text) → Grows a xs b → Grows b ys c → Grows a (xs ++ ys) c
Grows-append a b c xs ys (e, h) (e', h') = (
  λ k.
      e' k
      ∙ (ap (λ o. or_else o (get k ys)) (e k)
          ∙ (or_else_assoc (get k a) (get k xs) (get k ys)
              ∙ ap (or_else (get k a)) (sym (get-append k xs ys)))),
  All-append _ xs ys
      (All-map {P = λ (entry : Text × Text). get entry.0 b ≡ some entry.1}
        {Q = λ entry. get entry.0 c ≡ some entry.1}
        (λ entry found. e' entry.0 ∙ ap (λ o. or_else o (get entry.0 ys)) found) xs h)
      h',
)

agreed :
    (o : Option Text) (value : Text) → agrees o value ≡ true → some value ≡ or_else o (some value)
unfolding agrees
agreed none value h = refl
agreed (some previous) value h = ap some (sym ((text_beq_iff previous value).0 h))

-- An insertion that overwrites no other value.
Grows-insert :
    (key value : Text) (before : Map Text)
    → agrees (get key before) value ≡ true
    → Grows before ((key, value) ∷ []) (insert key value before)
unfolding get agrees
Grows-insert key value before fits = (
  λ k. get-insert key k value before ∙ elim (Bool-cases (k == key)) [
    | inl same ↦
        let fits' : agrees (get k before) value ≡ true =
          ap (λ name. agrees (get name before) value) ((text_beq_iff k key).0 same) ∙ fits in
        rw same (agreed (get k before) value fits')
    | inr differ ↦ rw differ (or_else-none (get k before))
  ],
  (get-insert key key value before ∙ rw (text_beq_refl key) refl, tt),
)

deliver_variable-Grows :
    (options : EnvironmentVariableOptions) (before after : Delivery) (variable : Text × Text)
    → deliver_variable options before variable ≡ ok after
    → Grows before.environment (delivered_variable options variable) after.environment
unfolding deliver_variable
deliver_variable-Grows options before after (source, value) h =
    subst (λ delivered. Grows before.environment delivered after.environment)
      (delivered_variable-eq options source value)
      (elim (Bool-cases (is_stdin options.stdin source)) [
        | inl sent ↦
            rw sent (Grows-nil (ap (λ (d : Delivery). d.environment) (ok-injective (rw sent at h))))
        | inr kept ↦
            let (fits, h1) =
              >>-eq-ok (agrees (get (final_name options source) before.environment) value) _ _
                (rw kept at h) in
            rw kept (
              subst
                (λ (d : Delivery).
                  Grows before.environment ((final_name options source, value) ∷ []) d.environment)
                (ok-injective h1)
                (Grows-insert (final_name options source) value before.environment fits))
      ])

deliver_variables-Grows :
    (options : EnvironmentVariableOptions) (variables : Map Text) (before after : Delivery)
    → deliver_variables options variables before ≡ ok after
    → Grows before.environment (delivered_variables options variables) after.environment
unfolding deliver_variables delivered_variables
deliver_variables-Grows options [] before after h =
    Grows-nil (ap (λ (d : Delivery). d.environment) (ok-injective h))
deliver_variables-Grows options (variable ∷ variables) before after h =
    let (next, e, rest) = >>=-eq-ok (deliver_variable options before variable) _ h in
    Grows-append before.environment next.environment after.environment
      (delivered_variable options variable) (delivered_variables options variables)
      (deliver_variable-Grows options before next variable e)
      (deliver_variables-Grows options variables next after rest)

deliver_secret-Grows :
    (name : Text) (secret : ApprovedSecret) (options : EnvironmentVariableOptions)
    (before after : Delivery)
    → deliver_secret name secret options before ≡ ok after
    → Grows before.environment (delivered_secret secret options) after.environment
unfolding deliver_secret delivered_secret
deliver_secret-Grows name (environment variables) options before after h =
    let (_, h1) = >>-eq-ok_unit (validate_returned_variables name variables options) _ h in
    deliver_variables-Grows options variables before after h1
deliver_secret-Grows name (ssh public_key) options before after h =
    let (_, h1) = >>-eq-ok (is_empty options) _ _ h in
    let (_, h2) = >>-eq-ok (not (is_nil public_key)) _ _ h1 in
    let (_, h3) = >>-eq-ok (not (is_some before.ssh)) _ _ h2 in
    Grows-nil (ap (λ (d : Delivery). d.environment) (ok-injective h3))

deliver_secrets-Grows :
    (secrets : Map ApprovedSecret) (requested : Map EnvironmentVariableOptions)
    (before after : Delivery)
    → deliver_secrets secrets requested before ≡ ok after
    → Grows before.environment (delivered_secrets secrets requested) after.environment
unfolding deliver_secrets delivered_secrets
deliver_secrets-Grows [] requested before after h =
    Grows-nil (ap (λ (d : Delivery). d.environment) (ok-injective h))
deliver_secrets-Grows (_ ∷ _) [] before after h =
    Grows-nil (ap (λ (d : Delivery). d.environment) (ok-injective h))
deliver_secrets-Grows ((name, secret) ∷ secrets) ((_, options) ∷ requested) before after h =
    let (next, e, rest) = >>=-eq-ok (deliver_secret name secret options before) _ h in
    Grows-append before.environment next.environment after.environment
      (delivered_secret secret options) (delivered_secrets secrets requested)
      (deliver_secret-Grows name secret options before next e)
      (deliver_secrets-Grows secrets requested next after rest)

-- If the approved secrets are accepted, the environment holds each value of a variable that is not
-- for standard input, under the new name if the options rename it and else under its own, so no two
-- of them differ there, and it holds nothing else.
pub output-environment :
    (secrets : Map ApprovedSecret) (requested : Map EnvironmentVariableOptions)
    (invocation : SecretUseInvocation) (output : SecretUseOutput)
    → secret_use_output_from_secrets secrets requested invocation ≡ ok output
    → ((name : Text) → get name output.environment ≡ get name (delivered_secrets secrets requested))
      × All
          (λ entry. get entry.0 output.environment ≡ some entry.1)
          (delivered_secrets secrets requested)
unfolding secret_use_output_from_secrets get
output-environment secrets requested invocation output h =
    let (_, h1) = >>-eq-ok (same_texts (keys secrets) (keys requested)) _ _ h in
    let (delivery, e, h2) = >>=-eq-ok (deliver_secrets secrets requested _) _ h1 in
    subst
      (λ (o : SecretUseOutput).
        ((name : Text) → get name o.environment ≡ get name (delivered_secrets secrets requested))
        × All (λ entry. get entry.0 o.environment ≡ some entry.1)
            (delivered_secrets secrets requested))
      (ok-injective h2) (deliver_secrets-Grows secrets requested _ delivery e)
