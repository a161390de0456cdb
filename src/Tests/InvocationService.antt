-- ===== src/Tests/InvocationService.antt =====
-- A quoted path, Git's arguments and keys, and a chain of processes.
use agentknock_cli.Prelude.{
  ℕ, zero, suc, ◌≡◌, ◌↔◌, refl, arith, nat_eq, Text, codes, some, List, [], ◌∷◌, Result, ok, err,
  All, true,
}
use agentknock_cli.GitRepository.{is_utf8}
use agentknock_cli.InvocationService.{
  shell_argument, replace_quotes, parse_git_sign_arguments, validate_signing_key,
  require_descendant, GitSignArguments,
}
use agentknock_cli.InvocationService.Shell.{Quoting, read_word, read_word-shell_argument}
use agentknock_cli.InvocationService.Signing.{IsGitSign, parse_git_sign_arguments_iff}
use agentknock_cli.InvocationService.Keys.{IsKey, validate_signing_key_iff}
use agentknock_cli.InvocationService.Descent.{
  IsDescendant, IsOlder, Ascends, require_descendant-Ascends,
}

quoted_text : shell_argument (codes "it's") ≡ codes "'it'\\''s'"
unfolding shell_argument replace_quotes
quoted_text = refl

read_word-shell_argument_example :
    read_word Quoting.plain (shell_argument (codes "it's")) ≡ some (codes "it's")
read_word-shell_argument_example = read_word-shell_argument (codes "it's")

abbrev arguments : List Text
arguments =
    codes "-Y"
    ∷ codes "sign"
    ∷ codes "-n"
    ∷ codes "git"
    ∷ codes "-f"
    ∷ codes "key"
    ∷ codes "data"
    ∷ []

abbrev parsed : GitSignArguments
parsed = record { key_file = codes "key"; data_file = codes "data" }

parse_git_sign_arguments_iff_example :
    (parse_git_sign_arguments arguments ≡ ok parsed)
    ↔ (All (λ argument. is_utf8 argument ≡ true) arguments × IsGitSign arguments parsed)
parse_git_sign_arguments_iff_example = parse_git_sign_arguments_iff arguments parsed

validate_signing_key_iff_example :
    (validate_signing_key (codes "ssh-ed25519 AAAA one") (codes "ssh-ed25519 AAAA two") ≡ ok tt) ↔ (
      (kind : Text) × (key : Text) × IsKey (codes "ssh-ed25519 AAAA one") kind key
      × IsKey (codes "ssh-ed25519 AAAA two") kind key)
validate_signing_key_iff_example =
    validate_signing_key_iff (codes "ssh-ed25519 AAAA one") (codes "ssh-ed25519 AAAA two")

-- Each process is the child of the one before it.
abbrev parent_id : ℕ → Result Text ℕ
parent_id zero = err (codes "no process")
parent_id (suc process) = ok process

parent-IsOlder : IsOlder parent_id (λ process. process)
parent-IsOlder zero parent h real = absurd (cc)
parent-IsOlder (suc process) parent h real = let same : process ≡ parent = cc in omega (arith, same)

require_descendant-Ascends_example :
    Ascends parent_id 5 7 (require_descendant parent_id 9 7 5)
    × ((require_descendant parent_id 9 7 5 ≡ ok tt) ↔ IsDescendant parent_id 5 7)
require_descendant-Ascends_example =
    require_descendant-Ascends parent_id (λ process. process) parent-IsOlder 9 7 5 (omega arith)
