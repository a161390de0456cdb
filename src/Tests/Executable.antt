-- ===== src/Tests/Executable.antt =====
-- A search of two directories and an environment.
use agentknock_cli.Prelude.{
  ◌≡◌, refl, Text, text_discrete, ℕ_discrete, codes, none, List, [], ◌∷◌, map, Result, ok, err,
  unwrap_or, option_list, if◌then◌else◌,
}
use agentknock_cli.Maps.{insert, text_ltb}
use agentknock_cli.Maps.Sorted.{values_of}
use agentknock_cli.Executable.{
  IoError, os, Environment, search, c_environment, collect_variables, changed_environment,
  insert_delivered, extend, remove_all, remove, c_entries, c_string,
}
use agentknock_cli.Executable.Search.{decisive, reported, search-eq}
use agentknock_cli.Executable.Environment.{is_removed, latest, entry, c_environment-entries}

-- The first candidate may not be run, and the second isn't found.
abbrev from_candidate : Text → Result IoError Text
from_candidate [] = err (os 13)
from_candidate (_ ∷ _) = err (os 2)

abbrev candidates : List Text
candidates = [] ∷ codes "/bin/x" ∷ []

search-eq_example :
    search from_candidate candidates (os 2)
    ≡ unwrap_or
        (err (reported from_candidate (os 2) candidates))
        (decisive from_candidate candidates)
search-eq_example = search-eq from_candidate candidates (os 2)

abbrev inherited : List (Text × Text)
inherited = (codes "HOME", codes "/root") ∷ (codes "TOKEN", codes "old") ∷ []

abbrev delivered : List (Text × Text)
delivered = (codes "TOKEN", codes "new") ∷ []

environment-run :
    c_environment inherited delivered [] (codes "HOME" ∷ []) ≡ ok (codes "TOKEN=new" ∷ [])
unfolding c_environment collect_variables changed_environment insert_delivered extend remove_all
    remove c_entries c_string insert text_ltb text_discrete ℕ_discrete
environment-run = refl

c_environment-entries_example :
    (environment : Environment) × (codes "TOKEN=new" ∷ [] ≡ map entry environment)
    × ((name : Text)
        → values_of name environment
          ≡ option_list (
              if is_removed name (codes "HOME" ∷ [])
              then none
              else latest name [] (latest name delivered (latest name inherited none))))
c_environment-entries_example =
    c_environment-entries inherited delivered [] (codes "HOME" ∷ []) (codes "TOKEN=new" ∷ [])
      environment-run
