-- ===== src/EnvFile.antt =====
-- envfile.py: `load_env_file`. The environment is an association list, which the loader changes as it
-- goes: what was assigned before an error stays assigned.
pub mod Wins
pub mod RoundTrip
pub mod Outcome
use Prim.Native.Char.{Char, code}
use mt.Base.{
  ℕ, ◌+◌, String, ◌<>◌, Bool, true, false, ◌&&◌, ◌||◌, not, Option, none, some, List, [], ◌∷◌, ℤ,
  pos, contains, eqb, ◌==◌, within, any_char, has_char, before, after, strip, starts_with,
  ends_with, show_int, if◌then◌else◌,
}
use mt.Errors.{Kind, exception, config, Error, Result, ok, err, fail}
use mt.System.{Sys, M, pure, raise, attempt, lift, ◌>>=◌, ◌>>◌}
use mt.Protected.{Disk, read_root_service_file}

abbrev pub Environ : Type 0
Environ = List (String × String)

-- `destination.get(k)`
unfoldable pub lookup : String → Environ → Option String
lookup k [] = none
lookup k ((j, v) ∷ env) = if j == k then some v else lookup k env

-- `destination[k] = v` of a name that is not there.
abbrev pub assign : String → String → Environ → Environ
assign k v env = (k, v) ∷ env

abbrev pub is_upper : ℕ → Bool
is_upper c = within b'A' b'Z' c

abbrev pub name_char : ℕ → Bool
name_char c = is_upper c || within b'0' b'9' c || eqb c b'_'

unfoldable pub all_char : (ℕ → Bool) → String → Bool
all_char p String.[] = true
all_char p (String.◌∷◌ c s) = p (code c) && all_char p s

-- `[A-Z][A-Z0-9_]*`
unfoldable pub is_name : String → Bool
unfolding all_char
is_name String.[] = false
is_name (String.◌∷◌ c s) = is_upper (code c) && all_char name_char s

abbrev pub forbidden : ℕ → Bool
forbidden c = eqb c 13 || eqb c 10 || eqb c 0 || eqb c b'`' || eqb c b'$'

abbrev pub is_quoted : String → Bool
is_quoted value =
    starts_with value "\"" || starts_with value "'" || ends_with value "\"" || ends_with value "'"

-- A boundary of `str.splitlines`.
abbrev is_break : ℕ → Bool
is_break c = within 10 13 c || within 28 30 c || eqb c 133 || eqb c 8232 || eqb c 8233

on_line : Char → List String → List String
on_line c [] = String.◌∷◌ c String.[] ∷ []
on_line c (s ∷ l) = String.◌∷◌ c s ∷ l

-- Where the last character was a carriage return, a line feed belongs to it.
lines_after : Bool → String → List String
lines_after returned String.[] = []
lines_after returned (String.◌∷◌ c s) =
    if returned && eqb (code c) 10
    then lines_after false s
    else if is_break (code c)
    then String.[] ∷ lines_after (eqb (code c) 13) s
    else on_line c (lines_after false s)

-- `s.splitlines()`
unfoldable pub splitlines : String → List String
unfolding on_line lines_after
splitlines s = lines_after false s

-- A line of the file: nothing, an assignment, or the text of a refusal.
pub data Line : Type 0 where
  skipped : Line
  assignment : String → String → Line
  malformed : String → Line

-- The tests of a line that is neither blank nor a comment, with the names that were seen before.
unfoldable pub read_assignment : ℤ → List String → String → Line
read_assignment number seen line =
    let name = strip (before b'=' line) in
    let value = after b'=' line in
    if not (has_char b'=' line) || not (is_name name)
    then malformed ("invalid environment assignment on line " <> show_int number)
    else if contains name seen
    then malformed ("duplicate environment variable " <> name <> " on line " <> show_int number)
    else if not (value == strip value)
    then malformed ("environment value for " <> name <> " must not have edge whitespace")
    else if is_quoted value
    then malformed ("environment value for " <> name <> " must be unquoted")
    else if any_char forbidden value
    then malformed ("environment value for " <> name <> " contains a forbidden character")
    else assignment name value

abbrev pub is_skipped : String → Bool
is_skipped line = strip line == "" || starts_with (strip line) "#"

unfoldable pub read_line : ℤ → List String → String → Line
read_line number seen line = if is_skipped line then skipped else read_assignment number seen line

abbrev pub unless_there : Option String → String → String → Environ → Environ
unless_there none name value env = assign name value env
unless_there (some v) name value env = env

-- An existing variable wins.
unfoldable pub settle : String → String → Environ → Environ
settle name value env = unless_there (lookup name env) name value env

abbrev pub loaded : String → Result (List String) × Environ → Result (List String) × Environ
loaded name (ok names, env) = (ok (name ∷ names), env)
loaded name (err e, env) = (err e, env)

-- What a line does, and the rest of the loop.
abbrev pub act :
    Line
    → List String
    → Environ
    → (List String → Environ → Result (List String) × Environ)
    → Result (List String) × Environ
act skipped seen env rest = rest seen env
act (malformed text) seen env rest = (fail config text, env)
act (assignment name value) seen env rest = loaded name (rest (name ∷ seen) (settle name value env))

-- The loop over the lines: the names that were loaded, and the environment.
unfoldable pub load_lines : ℕ → List String → List String → Environ → Result (List String) × Environ
load_lines number seen [] env = (ok [], env)
load_lines number seen (line ∷ l) env =
    act (read_line (pos number) seen line) seen env
      λ next changed. load_lines (number + 1) next l changed

-- `except ProtectedFileError`: the class of all that the reading of a file refuses with.
abbrev pub is_protected : Kind → Bool
is_protected exception = true
is_protected _ = false

abbrev pub as_config : Error → Error
as_config e = if is_protected e.kind then record { kind = config; text = e.text } else e

-- `load_env_file`: the outcome and the environment after it. `decode` is the strict decoder of UTF-8,
-- and `resolve` is `Path(path).expanduser().absolute()`, which may raise; `none` is a reading that is
-- out of fuel.
module _ {W : Type 0} (d : Disk W) (decode : List ℕ → Option String)
    (resolve : String → Result String) where
  abbrev outcome : Option String → Environ → Result (Option (List String)) × Environ
  outcome none env = (fail config "environment file is not valid UTF-8", env)
  outcome (some raw) env =
      (let (r, changed) = load_lines 1 [] (splitlines raw) env in
        (elim r [ ok names ↦ ok (some names) | err e ↦ err e ], changed))

  abbrev with_bytes :
      Environ → Result (Option (List ℕ)) × Sys W → Result (Option (List String)) × Environ × Sys W
  with_bytes env (ok none, s) = (ok none, env, s)
  with_bytes env (ok (some bytes), s) =
      let (r, changed) = outcome (decode bytes) env in (r, changed, s)
  with_bytes env (err e, s) = (err (as_config e), env, s)

  -- The rest of the loader with the absolute path.
  abbrev at_path : Environ → Sys W → Result String → Result (Option (List String)) × Environ × Sys W
  at_path env s (ok path) =
      with_bytes env (read_root_service_file d "environment file" 65536 path s)
  at_path env s (err e) = (err e, env, s)

  unfoldable pub load_env_file :
      String → Environ → Sys W → Result (Option (List String)) × Environ × Sys W
  load_env_file path env s = at_path env s (resolve path)
