-- ===== src/Executable.antt =====
-- The program that a command names and the environment that it gets, of
-- src/bin/agentknock/executable.rs. What opening and inspecting a candidate gives is a parameter.
pub mod Search
pub mod Environment
use agentknock_cli.Prelude.{
  ℕ, Text, ◌==◌, nat_eq, text_eq, codes, Bool, true, false, not, ◌&&◌, ◌||◌, Option, none, some,
  List, [], ◌∷◌, ◌++◌, Result, ok, err, ◌>>=◌, ◌>>◌, guard, is_nil, map, if◌then◌else◌,
}
use agentknock_cli.Maps.{Map, insert}
use agentknock_cli.Strings.{split, contains_byte}

-- An error of the operating system by its number, or another one.
pub data IoError : Type 0 where
  os : ℕ → IoError
  invalid : Text → IoError

abbrev pub is_os : ℕ → IoError → Bool
is_os number (os found) = found == number
is_os number (invalid _) = false

-- `EACCES`, and `ENOENT`, `ESTALE`, `ENOTDIR`, `ENODEV` and `ETIMEDOUT`, as Linux numbers them
unfoldable pub is_denied : IoError → Bool
is_denied error = is_os 13 error

unfoldable pub is_search_miss : IoError → Bool
is_search_miss error =
    is_os 2 error || is_os 116 error || is_os 20 error || is_os 19 error || is_os 110 error

-- `Path::join` of a search directory and a command without a slash
unfoldable pub join : Text → Text → Text
join [] command = command
join (b ∷ []) command = if b == 47 then b ∷ command else b ∷ 47 ∷ command
join (b ∷ c ∷ directory) command = b ∷ join (c ∷ directory) command

module _ {E : Type 0} (from_candidate : Text → Result IoError E) where
  -- The arms of the loop of `select_from` on an error.
  unfoldable pub final_after : IoError → IoError → Result IoError IoError
  final_after error final_error =
      if is_denied error
      then ok error
      else if is_search_miss error
      then ok (if is_denied final_error then final_error else error)
      else err error

  -- The loop of `select_from`.
  unfoldable pub search : List Text → IoError → Result IoError E
  search [] final_error = err final_error
  search (candidate ∷ candidates) final_error = elim (from_candidate candidate) [
    | ok executable ↦ ok executable
    | err error ↦ elim (final_after error final_error) [
      | err fatal ↦ err fatal
      | ok next_error ↦ search candidates next_error
    ]
  ]

  unfoldable pub select_from : Text → Text → Result IoError E
  select_from command search_path = elim (contains_byte 47 command) [
    | true ↦ from_candidate command
    | false ↦
        search (map (λ directory. join directory command) (split (λ b. b == 58) search_path)) (os 2)
  ]

-- Names and values of the environment.
abbrev pub Environment : Type 0
Environment = Map Text

unfoldable pub remove : Text → Environment → Environment
remove key [] = []
remove key ((name, value) ∷ environment) =
    if name == key then remove key environment else (name, value) ∷ remove key environment

-- The first loop of `c_environment`, over the delivered variables.
unfoldable pub insert_delivered : List (Text × Text) → Environment → Result IoError Environment
insert_delivered [] environment = ok environment
insert_delivered ((name, value) ∷ delivered) environment = do
  guard (not (is_nil name || contains_byte 61 name || contains_byte 0 name)) (invalid name)
  guard (not (contains_byte 0 value)) (invalid name)
  insert_delivered delivered (insert name value environment)

-- `BTreeMap::extend`
unfoldable pub extend : List (Text × Text) → Environment → Environment
extend [] environment = environment
extend ((name, value) ∷ additional) environment = extend additional (insert name value environment)

unfoldable pub remove_all : List Text → Environment → Environment
remove_all [] environment = environment
remove_all (name ∷ removed) environment = remove_all removed (remove name environment)

-- `CString::new`
unfoldable pub c_string : Text → Result IoError Text
c_string text = if contains_byte 0 text then err (invalid text) else ok text

unfoldable pub c_entries : Environment → Result IoError (List Text)
c_entries [] = ok []
c_entries ((name, value) ∷ environment) = do
  entry ← c_string (name ++ (61 ∷ value))
  entries ← c_entries environment
  ok (entry ∷ entries)

-- `env::vars_os().collect()`, of the variables of the process
unfoldable pub collect_variables : List (Text × Text) → Environment
collect_variables variables = extend variables []

unfoldable pub changed_environment :
    Environment → List (Text × Text) → List (Text × Text) → List Text → Result IoError Environment
changed_environment inherited delivered additional removed = do
  environment ← insert_delivered delivered inherited
  ok (remove_all removed (extend additional environment))

unfoldable pub c_environment :
    List (Text × Text)
    → List (Text × Text)
    → List (Text × Text)
    → List Text
    → Result IoError (List Text)
c_environment inherited delivered additional removed = do
  environment ← changed_environment (collect_variables inherited) delivered additional removed
  c_entries environment

-- `c_arguments` over the command and its arguments
unfoldable pub c_arguments : List Text → Result IoError (List Text)
c_arguments [] = ok []
c_arguments (argument ∷ arguments) = do
  first ← c_string argument
  rest ← c_arguments arguments
  ok (first ∷ rest)
