-- ===== src/Executable/Search.antt =====
-- The search of `select_from` in src/bin/agentknock/executable.rs is that of execvp.
use agentknock_cli.Prelude.{
  Text, ◌≡◌, refl, Bool, true, false, ◌||◌, not, ◌&&◌, Option, none, some, List, [], ◌∷◌, Result,
  ok, err, inl, inr, Bool-cases, if◌then◌else◌, unwrap_or,
}
use agentknock_cli.Executable.{IoError, is_denied, is_search_miss, final_after, search}

-- The three tests of an error on Boolean values.
passed :
    (denied miss earlier : Bool) (error final_error : IoError)
    → (denied || miss) ≡ true
    → (if denied
        then ok error
        else if miss
        then ok (if earlier then final_error else error)
        else err error)
      ≡ ok (if earlier && not denied then final_error else error)
passed true miss true error final_error h = refl
passed true miss false error final_error h = refl
passed false true true error final_error h = refl
passed false true false error final_error h = refl
passed false false earlier error final_error h = absurd (cc)

stopped :
    (denied miss earlier : Bool) (error final_error : IoError)
    → (denied || miss) ≡ false
    → (if denied
        then ok error
        else if miss
        then ok (if earlier then final_error else error)
        else err error)
      ≡ err error
stopped true miss earlier error final_error h = absurd (cc)
stopped false true earlier error final_error h = absurd (cc)
stopped false false earlier error final_error h = refl

module _ {E : Type 0} (from_candidate : Text → Result IoError E) where
  -- An error that the search goes on after.
  abbrev pub is_passed : Result IoError E → Bool
  is_passed (ok _) = false
  is_passed (err error) = is_denied error || is_search_miss error

  -- The first candidate that is there to run, or whose error is neither a miss nor a denial.
  pub decisive : List Text → Option (Result IoError E)
  decisive [] = none
  decisive (candidate ∷ candidates) =
      if is_passed (from_candidate candidate)
      then decisive candidates
      else some (from_candidate candidate)

  -- The error to report after all misses: the last denial, or else the last miss.
  abbrev pub worse : IoError → Result IoError E → IoError
  worse final_error (ok _) = final_error
  worse final_error (err error) =
      if is_denied final_error && not (is_denied error) then final_error else error

  pub reported : IoError → List Text → IoError
  reported final_error [] = final_error
  reported final_error (candidate ∷ candidates) =
      reported (worse final_error (from_candidate candidate)) candidates

  passed-next :
      (error final_error : IoError)
      → (is_denied error || is_search_miss error) ≡ true
      → final_after from_candidate error final_error ≡ ok (worse final_error (err error))
  unfolding final_after
  passed-next error final_error h =
      passed (is_denied error) (is_search_miss error) (is_denied final_error) error final_error h

  fatal-next :
      (error final_error : IoError)
      → (is_denied error || is_search_miss error) ≡ false
      → final_after from_candidate error final_error ≡ err error
  unfolding final_after
  fatal-next error final_error h =
      stopped (is_denied error) (is_search_miss error) (is_denied final_error) error final_error h

  search_step-eq :
      (result : Result IoError E) (candidates : List Text) (final_error : IoError)
      → ((next_error : IoError)
          → search from_candidate candidates next_error
            ≡ unwrap_or (err (reported next_error candidates)) (decisive candidates))
      → (elim result [
        | ok executable ↦ ok executable
        | err error ↦ elim (final_after from_candidate error final_error) [
          | err fatal ↦ err fatal
          | ok next_error ↦ search from_candidate candidates next_error
        ]
      ])
        ≡ unwrap_or
            (err (reported (worse final_error result) candidates))
            (if is_passed result then decisive candidates else some result)
  search_step-eq (ok executable) candidates final_error rest = refl
  search_step-eq (err error) candidates final_error rest =
      elim (Bool-cases (is_denied error || is_search_miss error)) [
        | inl goes_on ↦
            rw (passed-next error final_error goes_on, goes_on)
              (rest (worse final_error (err error)))
        | inr stops ↦ rw (fatal-next error final_error stops, stops) refl
      ]

  -- The search gives the first candidate that can be run, passes those that aren't found or may not
  -- be run, stops at any other error, and reports the last denial before a later miss.
  pub search-eq :
      (candidates : List Text) (final_error : IoError)
      → search from_candidate candidates final_error
        ≡ unwrap_or (err (reported final_error candidates)) (decisive candidates)
  unfolding search decisive reported
  search-eq [] final_error = refl
  search-eq (candidate ∷ candidates) final_error =
      search_step-eq (from_candidate candidate) candidates final_error (search-eq candidates)
