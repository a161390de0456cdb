-- ===== src/InvocationService/Signing.antt =====
-- The keys and the arguments that Git's signing program takes, of
-- src/bin/agentknock/invocation_service.rs.
use agentknock_cli.Prelude.{
  ◌≡◌, ◌↔◌, ◌⊎◌, refl, sym, ap, subst, ◌∙◌, Text, ◌==◌, text_eq, text_beq_refl, codes, Bool, true,
  false, ◌&&◌, and-eq-true, Option, none, some, List, [], ◌∷◌, ok, guard-eq-ok, >>-eq-ok, >>=-eq-ok,
  ok_or, ok_or-eq-ok, ok-injective, some-injective, is_some, text_discrete, ℕ_discrete, inl, inr,
  if◌then◌else◌, Bool-cases, All,
}
use agentknock_cli.SshAgent.Wire.{Bytes}
use agentknock_cli.GitRepository.{is_utf8}
use agentknock_cli.InvocationService.{
  unsupported_arguments, invalid_key_returned, different_key, GitSignArguments, data_file_of,
  to_strings, matched_arguments, parse_git_sign_arguments, public_key_identity, same_identity,
  signing_key_matches, validate_signing_key,
}

-- The command lines that Git calls its signing program with.
pub data IsGitSign : List Text → GitSignArguments → Type 0 where
  buffered :
      (key_file data_file : Text)
      → IsGitSign
          (codes "-Y"
            ∷ codes "sign"
            ∷ codes "-n"
            ∷ codes "git"
            ∷ codes "-f"
            ∷ key_file
            ∷ codes "-U"
            ∷ data_file
            ∷ [])
          (record { key_file = key_file; data_file = data_file })
  direct :
      (key_file data_file : Text)
      → IsGitSign
          (codes "-Y"
            ∷ codes "sign"
            ∷ codes "-n"
            ∷ codes "git"
            ∷ codes "-f"
            ∷ key_file
            ∷ data_file
            ∷ [])
          (record { key_file = key_file; data_file = data_file })

identity-eq :
    (requested : Option (Text × Text)) (expected : Text × Text)
    → same_identity requested expected ≡ true
    → requested ≡ some expected
unfolding same_identity
identity-eq none expected h = absurd (cc)
identity-eq (some (kind, key)) (expected_kind, expected_key) h =
    let (same_kind, same_key) = and-eq-true (kind == expected_kind) (key == expected_key) h in
    let kinds = text_eq.eq_sound kind expected_kind same_kind in
    let keys = text_eq.eq_sound key expected_key same_key in cc

identity_refl : (identity : Text × Text) → same_identity (some identity) identity ≡ true
unfolding same_identity
identity_refl (kind, key) = rw (text_beq_refl kind, text_beq_refl key) refl

pub validate_signing_key-identities :
    (requested expected : Text)
    → (validate_signing_key requested expected ≡ ok tt) ↔ (
        (identity : Text × Text) × (public_key_identity expected ≡ some identity)
        × (public_key_identity requested ≡ some identity))
unfolding validate_signing_key signing_key_matches
validate_signing_key-identities requested expected = (
  λ h.
      let (_, h1) = >>-eq-ok (is_some (public_key_identity requested)) _ _ h in
      let (matches, found, h2) = >>=-eq-ok (signing_key_matches requested expected) _ h1 in
      let (identity, known, same) =
        >>=-eq-ok (ok_or invalid_key_returned (public_key_identity expected)) _ found in
      let matches_true = guard-eq-ok matches different_key h2 in
      (
        identity,
        ok_or-eq-ok invalid_key_returned (public_key_identity expected) known,
        identity-eq (public_key_identity requested) identity (ok-injective same ∙ matches_true),
      ),
  λ (identity, known, requested_known). rw (requested_known, known, identity_refl identity) refl,
)

if-some :
    {A : Type 0} (b : Bool) {x y : A} → (if b then some x else none) ≡ some y → (b ≡ true) × (x ≡ y)
if-some true h = (refl, some-injective h)
if-some false h = absurd (cc)

option_other :
    (option data_file : Text) {found : Text}
    → (option == codes "-U") ≡ false
    → data_file_of (option ∷ data_file ∷ []) ≡ some found
    → ⊥
unfolding data_file_of
option_other option data_file differ h =
    let found_option = (if-some (option == codes "-U") h).0 in cc

option_data :
    (option data_file : Text) {found : Text}
    → (option == codes "-U") ≡ true
    → option ≡ codes "-U"
    → data_file_of (option ∷ data_file ∷ []) ≡ some found
    → option ∷ data_file ∷ [] ≡ codes "-U" ∷ found ∷ []
unfolding data_file_of
option_data option data_file is_option same h =
    let value = (if-some (option == codes "-U") h).1 in cc

data_file_of-eq :
    (rest : List Text) {data_file : Text}
    → data_file_of rest ≡ some data_file
    → (rest ≡ data_file ∷ []) ⊎ (rest ≡ codes "-U" ∷ data_file ∷ [])
unfolding data_file_of
data_file_of-eq [] h = absurd (cc)
data_file_of-eq (data_file ∷ []) h = inl (ap (λ d. d ∷ []) (some-injective h))
data_file_of-eq (option ∷ data_file ∷ []) h = elim (Bool-cases (option == codes "-U")) [
  | inl found ↦
      let same = text_eq.eq_sound option (codes "-U") found in
      inr (option_data option data_file found same h)
  | inr differ ↦ absurd (option_other option data_file differ h)
]
data_file_of-eq (_ ∷ _ ∷ _ ∷ _) h = absurd (cc)

matched_arguments-eq :
    (arguments : List Text) {namespace key_file : Text} {rest : List Text}
    → matched_arguments arguments ≡ some (namespace, key_file, rest)
    → arguments ≡ codes "-Y" ∷ codes "sign" ∷ codes "-n" ∷ namespace ∷ codes "-f" ∷ key_file ∷ rest
unfolding matched_arguments
matched_arguments-eq [] h = absurd (cc)
matched_arguments-eq (_ ∷ []) h = absurd (cc)
matched_arguments-eq (_ ∷ _ ∷ []) h = absurd (cc)
matched_arguments-eq (_ ∷ _ ∷ _ ∷ []) h = absurd (cc)
matched_arguments-eq (_ ∷ _ ∷ _ ∷ _ ∷ []) h = absurd (cc)
matched_arguments-eq (_ ∷ _ ∷ _ ∷ _ ∷ _ ∷ []) h = absurd (cc)
matched_arguments-eq (a ∷ b ∷ c ∷ namespace ∷ d ∷ key_file ∷ rest) h =
    let (tests, same) =
      if-some (a == codes "-Y" && b == codes "sign" && c == codes "-n" && d == codes "-f") h in
    let (abc, is_d) = and-eq-true _ _ tests in
    let (ab, is_c) = and-eq-true _ _ abc in
    let (is_a, is_b) = and-eq-true _ _ ab in
    let ea = text_eq.eq_sound a (codes "-Y") is_a in
    let eb = text_eq.eq_sound b (codes "sign") is_b in
    let ec = text_eq.eq_sound c (codes "-n") is_c in
    let ed = text_eq.eq_sound d (codes "-f") is_d in cc

to_strings_sound :
    (arguments : List Bytes) {texts : List Text}
    → to_strings arguments ≡ ok texts
    → All (λ argument. is_utf8 argument ≡ true) arguments × (arguments ≡ texts)
unfolding to_strings
to_strings_sound [] h = (tt, ok-injective h)
to_strings_sound (argument ∷ arguments) h =
    let (valid, h1) = >>-eq-ok (is_utf8 argument) _ _ h in
    let (texts, read, equal) = >>=-eq-ok (to_strings arguments) _ h1 in
    let (rest, rest_equal) = to_strings_sound arguments read in
    ((valid, rest), ap (λ t. argument ∷ t) rest_equal ∙ ok-injective equal)

to_strings_complete :
    (arguments : List Bytes)
    → All (λ argument. is_utf8 argument ≡ true) arguments
    → to_strings arguments ≡ ok arguments
unfolding to_strings
to_strings_complete [] h = refl
to_strings_complete (argument ∷ arguments) (valid, h) =
    rw (valid, to_strings_complete arguments h) refl

parse_git_sign_arguments_sound :
    (os_arguments : List Bytes) (parsed : GitSignArguments)
    → parse_git_sign_arguments os_arguments ≡ ok parsed
    → All (λ argument. is_utf8 argument ≡ true) os_arguments × IsGitSign os_arguments parsed
unfolding parse_git_sign_arguments
parse_git_sign_arguments_sound os_arguments parsed h0 =
    let (arguments, read, h) = >>=-eq-ok (to_strings os_arguments) _ h0 in
    let (utf8, equal) = to_strings_sound os_arguments read in
    let ((namespace, key_file, rest), matched, h1) =
      >>=-eq-ok (ok_or unsupported_arguments (matched_arguments arguments)) _ h in
    let (data_file, found, h2) = >>=-eq-ok (ok_or unsupported_arguments (data_file_of rest)) _ h1 in
    let (is_git, h3) = >>-eq-ok (namespace == codes "git") _ _ h2 in
    let shape =
      matched_arguments-eq arguments
        (ok_or-eq-ok unsupported_arguments (matched_arguments arguments) matched) in
    let git = text_eq.eq_sound namespace (codes "git") is_git in
    (
      utf8,
      elim (data_file_of-eq rest (ok_or-eq-ok unsupported_arguments (data_file_of rest) found)) [
        | inl one ↦
            let same : arguments
                ≡ codes "-Y"
                  ∷ codes "sign"
                  ∷ codes "-n"
                  ∷ codes "git"
                  ∷ codes "-f"
                  ∷ key_file
                  ∷ data_file
                  ∷ [] =
              cc in
            subst (λ a. IsGitSign a parsed) (sym (equal ∙ same))
              (subst
                (IsGitSign (
                  codes "-Y"
                  ∷ codes "sign"
                  ∷ codes "-n"
                  ∷ codes "git"
                  ∷ codes "-f"
                  ∷ key_file
                  ∷ data_file
                  ∷ []))
                (ok-injective h3) (direct key_file data_file))
        | inr two ↦
            let same : arguments
                ≡ codes "-Y"
                  ∷ codes "sign"
                  ∷ codes "-n"
                  ∷ codes "git"
                  ∷ codes "-f"
                  ∷ key_file
                  ∷ codes "-U"
                  ∷ data_file
                  ∷ [] =
              cc in
            subst (λ a. IsGitSign a parsed) (sym (equal ∙ same))
              (subst
                (IsGitSign (
                  codes "-Y"
                  ∷ codes "sign"
                  ∷ codes "-n"
                  ∷ codes "git"
                  ∷ codes "-f"
                  ∷ key_file
                  ∷ codes "-U"
                  ∷ data_file
                  ∷ []))
                (ok-injective h3) (buffered key_file data_file))
      ],
    )

parse_git_sign_arguments_complete :
    (arguments : List Bytes) (parsed : GitSignArguments)
    → All (λ argument. is_utf8 argument ≡ true) arguments
    → IsGitSign arguments parsed
    → parse_git_sign_arguments arguments ≡ ok parsed
unfolding parse_git_sign_arguments matched_arguments data_file_of text_discrete ℕ_discrete
parse_git_sign_arguments_complete arguments parsed utf8 (buffered key_file data_file) =
    rw (to_strings_complete arguments utf8) refl
parse_git_sign_arguments_complete arguments parsed utf8 (direct key_file data_file) =
    rw (to_strings_complete arguments utf8) refl

-- The arguments are accepted exactly if all of them are UTF-8 and they are the ones of Git, in one
-- of the two forms, and then the key and the data are the files that they name.
pub parse_git_sign_arguments_iff :
    (arguments : List Bytes) (parsed : GitSignArguments)
    → (parse_git_sign_arguments arguments ≡ ok parsed)
      ↔ (All (λ argument. is_utf8 argument ≡ true) arguments × IsGitSign arguments parsed)
parse_git_sign_arguments_iff arguments parsed = (
  parse_git_sign_arguments_sound arguments parsed,
  λ (utf8, is_sign). parse_git_sign_arguments_complete arguments parsed utf8 is_sign,
)
