-- ===== src/Config/Environment.antt =====
-- config.py: the values of an environment, `_reject_forbidden` to `_optional_path`.
use mt.Base.{
  String, ◌<>◌, Bool, true, false, ◌&&◌, not, Option, none, some, ℤ, int_ltb, ◌==◌, show_int, strip,
  eq_lower, ◌||◌, if◌then◌else◌,
}
use mt.Json.{str, Python}
use mt.Errors.{config, exception, Result, ok, fail, refuse_if, want, ◌>>=◌, ◌>>◌}

-- `env.get`
abbrev pub Env : Type 0
Env = String → Option String

-- `Path(raw).expanduser().absolute()`, which finds no home directory of some names, `path.parent` and
-- `path / name`, on texts.
pub record Paths : Type 0 where
  pub absolute : String → Option String
  pub parent : String → String
  pub join : String → String → String

abbrev pub get_or : Env → String → String → String
get_or env key default = elim (env key) [ none ↦ default | some v ↦ v ]

-- `_reject_forbidden`: an empty value is tolerated.
unfoldable pub reject_forbidden : Env → Result (Unit {0})
reject_forbidden env =
    refuse_if (not (strip (get_or env "MT_RESULT_WORKER" "") == "")) config
      "MT_RESULT_WORKER must never be set for this miner; it is an unpublished, unanchored upstream override that can make validators compute different weights"

-- `_text`
unfoldable pub text : Env → String → String → Bool → Result String
text env key default required = do
  let value = strip (get_or env key default)
  refuse_if (required && value == "") config (key <> " is required")
  ok value

abbrev pub below : ℤ → Option ℤ → Bool
below value none = false
below value (some minimum) = int_ltb value minimum

abbrev pub above : ℤ → Option ℤ → Bool
above value none = false
above value (some maximum) = int_ltb maximum value

abbrev bound_text : Option ℤ → String
bound_text none = "None"
bound_text (some n) = show_int n

abbrev pub true_text : String → Bool
true_text raw = eq_lower raw "1" || eq_lower raw "true" || eq_lower raw "yes" || eq_lower raw "on"

abbrev pub false_text : String → Bool
false_text raw = eq_lower raw "0" || eq_lower raw "false" || eq_lower raw "no" || eq_lower raw "off"

module _ (py : Python) where
  unfoldable pub checked_integer : String → String → Option ℤ → Option ℤ → Result ℤ
  checked_integer key raw minimum maximum = do
    value ←
        want (py.int_of_text raw) config (key <> " must be an integer, not " <> py.repr (str raw))
    refuse_if (below value minimum) config (key <> " must be at least " <> bound_text minimum)
    refuse_if (above value maximum) config (key <> " must be at most " <> bound_text maximum)
    ok value

  -- `_integer`
  unfoldable pub integer : Env → String → ℤ → Option ℤ → Option ℤ → Result ℤ
  integer env key default = checked_integer key (strip (get_or env key (show_int default)))

  unfoldable pub optional_checked : String → String → Option ℤ → Result (Option ℤ)
  optional_checked key raw minimum = do
    value ← checked_integer key raw minimum none
    ok (some value)

  -- `_optional_integer`
  unfoldable pub optional_integer : Env → String → Option ℤ → Result (Option ℤ)
  optional_integer env key minimum =
      let raw = strip (get_or env key "") in
      if raw == "" then ok none else optional_checked key raw minimum

  -- `_boolean`
  unfoldable pub boolean : Env → String → Bool → Result Bool
  boolean env key default =
      let raw = strip (get_or env key (if default then "true" else "false")) in
      if true_text raw
      then ok true
      else if false_text raw
      then ok false
      else fail config (key <> " must be true or false, not " <> py.repr (str raw))

-- `_path` and `_optional_path`
unfoldable pub path : Paths → Env → String → String → Bool → Result String
path paths env key default required = do
  raw ← text env key default required
  want (paths.absolute raw) exception "RuntimeError"

unfoldable pub optional_path : Paths → Env → String → Result (Option String)
optional_path paths env key = do
  raw ← text env key "" false
  if raw == ""
      then ok none
      else (do found ← want (paths.absolute raw) exception "RuntimeError"; ok (some found))
