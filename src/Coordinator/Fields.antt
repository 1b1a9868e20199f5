-- ===== src/Coordinator/Fields.antt =====
-- The typed reads of coordinator.py, and the canonical hash of a served config.
use mt.Base.{String, ◌<>◌, Bool, false, ◌&&◌, ◌||◌, ◌==◌, Option, none, ℤ, pos, int_leb}
use mt.Json.{Value, list, dict, Fields, Items, str, nil, cons, Python, get, as_dict, as_int}
use mt.Errors.{Result, ok, want, refuse_if, round_refused, ◌>>=◌, ◌>>◌}

-- `type(v) is int` of a field, or a refusal.
unfoldable pub strict_int : Fields → String → String → Result ℤ
strict_int payload key context =
    want (as_int (get key payload)) round_refused
      ("coordinator " <> context <> " has no integer " <> key)

unfoldable pub positive_int : Fields → String → String → Result ℤ
unfolding strict_int
positive_int payload key context = do
  value ← strict_int payload key context
  refuse_if (int_leb value (pos 0)) round_refused
      ("coordinator " <> context <> " has no positive " <> key)
  ok value

unfoldable pub canonical_hash : Python → Fields → Result String
canonical_hash py config = do
  raw ← want (py.dumps config) round_refused "coordinator served a non-canonical config"
  ok ("sha256:" <> py.sha256 raw)

-- `outer.get(key)` where `outer` may be no dict, read as a dict if it is one.
unfoldable pub nested : Value → String → Option Fields
nested (dict d) key = as_dict (get key d)
nested _ key = none

-- `[track, hardware_class] in competitions`
abbrev pub is_pair : String → String → Value → Bool
is_pair a b (list (cons (str s) (cons (str t) nil))) = s == a && t == b
is_pair a b _ = false

unfoldable pub has_pair : String → String → Items → Bool
has_pair a b nil = false
has_pair a b (cons v l) = is_pair a b v || has_pair a b l

unfoldable pub opens : String → String → Value → Bool
unfolding has_pair
opens track hardware_class (list l) = has_pair track hardware_class l
opens track hardware_class _ = false
