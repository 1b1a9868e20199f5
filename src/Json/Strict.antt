-- ===== src/Json/Strict.antt =====
-- The strict reading of JSON that upstream_gate.py, coordinator.py and artifact_competition.py share:
-- `object_pairs_hook` refuses a key that stands twice, `parse_constant` the numbers that are none.
use mt.Base.{String, Bool, true, ◌&&◌, ◌||◌, not, Option, none, some, if◌then◌else◌}
use mt.Json.{
  Value, null, bool, int, float, str, list, dict, Items, nil, cons, Fields, end, field, has,
}

-- What the parser finds in a text: the value, with every pair of an object in order, and whether
-- one of `NaN`, `Infinity` and `-Infinity` stands in it.
pub record Parsed : Type 0 where
  pub value : Value
  pub constants : Bool

unfoldable mutual
  -- No object has a key twice.
  pub unique : Value → Bool
  unique null = true
  unique (bool b) = true
  unique (int n) = true
  unique (float f) = true
  unique (str s) = true
  unique (list l) = unique_items l
  unique (dict d) = unique_object d

  pub unique_items : Items → Bool
  unique_items nil = true
  unique_items (cons v l) = unique v && unique_items l

  pub unique_object : Fields → Bool
  unique_object end = true
  unique_object (field k v d) = not (has k d) && unique v && unique_object d

abbrev pub accepted : Option Parsed → Option Value
accepted none = none
accepted (some p) = if p.constants || not (unique p.value) then none else some p.value

-- `json.loads` with both hooks, over a parser.
unfoldable pub loads_strict : (String → Option Parsed) → String → Option Value
loads_strict parse text = accepted (parse text)
