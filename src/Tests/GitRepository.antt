-- ===== src/Tests/GitRepository.antt =====
-- The output of git for two changed paths.
use agentknock_cli.Prelude.{
  ◌≡◌, refl, text_discrete, ℕ_discrete, codes, some, List, [], ◌∷◌, length, All,
}
use agentknock_cli.SshAgent.Wire.{Bytes}
use agentknock_cli.Strings.{split, push_front}
use agentknock_cli.GitRepository.{
  parse_changed_paths, parse_fields, collect, change_status, is_utf8, continues_utf8, lead,
  unsafe_text, has_control, added, deleted,
}
use agentknock_cli.GitRepository.Changed.{IsEntry, written, listed, parse_changed_paths-written}

abbrev entries : List (Bytes × Bytes)
entries = (codes "A", codes "new.rs") ∷ (codes "D", codes "old.rs") ∷ []

entries-IsEntry : All IsEntry entries
entries-IsEntry = (
  ((λ e. cc), (refl, tt), (refl, (refl, (refl, (refl, (refl, (refl, tt))))))),
  (((λ e. cc), (refl, tt), (refl, (refl, (refl, (refl, (refl, (refl, tt))))))), tt),
)

parse_changed_paths-written_example :
    parse_changed_paths (written entries) ≡ some (length entries, listed entries)
parse_changed_paths-written_example = parse_changed_paths-written entries entries-IsEntry

both_listed :
    parse_changed_paths (written entries)
    ≡ some (
      2,
      some (
          (record { status = added; path = codes "new.rs" })
          ∷ (record { status = deleted; path = codes "old.rs" })
          ∷ []),
    )
unfolding parse_changed_paths parse_fields collect change_status is_utf8 continues_utf8 lead
    unsafe_text has_control split push_front written text_discrete ℕ_discrete
both_listed = refl
