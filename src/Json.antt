-- ===== src/Json.antt =====
-- The values of a decoded JSON document, and Python's operations on them. A dict is its entries in
-- insertion order; a float is its binary64 bit pattern, which only the runtime interprets.
pub mod Laws
pub mod Strict
use mt.Base.{
  ℕ, String, Bool, true, false, ◌&&◌, not, Option, none, some, List, [], ◌∷◌, ℤ, pos, int_eqb, ◌==◌,
  eqb, if◌then◌else◌,
}

mutual
  pub data Value : Type 0 where
    null : Value
    bool : Bool → Value
    int : ℤ → Value
    float : ℕ → Value
    str : String → Value
    list : Items → Value
    dict : Fields → Value

  pub data Items : Type 0 where
    nil : Items
    cons : Value → Items → Items

  pub data Fields : Type 0 where
    end : Fields
    field : String → Value → Fields → Fields

-- What the interpreter provides: floats, `repr`, canonical JSON text and the hash of a text.
-- `none` is an `OverflowError` of `float(int)`, a `ValueError` of `float(str)` and
-- `int(str)`, either of them of `int(float)`, and a `TypeError` or
-- `ValueError` of `json.dumps`.
pub record Python : Type 0 where
  pub float_of_int : ℤ → Option ℕ
  pub float_of_text : String → Option ℕ
  pub int_of_float : ℕ → Option ℤ
  pub int_of_text : String → Option ℤ
  pub float_eqb : ℕ → ℕ → Bool
  pub float_ltb : ℕ → ℕ → Bool
  pub float_sub : ℕ → ℕ → ℕ
  pub float_add : ℕ → ℕ → ℕ
  pub float_is_finite : ℕ → Bool
  pub int_eqb_float : ℤ → ℕ → Bool
  pub int_leb_float : ℤ → ℕ → Bool
  pub int_ltb_float : ℤ → ℕ → Bool
  pub repr : Value → String
  pub dumps : Fields → Option String
  pub sha256 : String → String

-- `d.get(k)`: a missing key reads as `None`.
unfoldable pub get : String → Fields → Value
get k end = null
get k (field j v d) = if j == k then v else get k d

-- `k in d`
unfoldable pub has : String → Fields → Bool
has k end = false
has k (field j v d) = if j == k then true else has k d

-- `d[k] = v`: an old key keeps its place.
unfoldable pub put : String → Value → Fields → Fields
put k v end = field k v end
put k v (field j w d) = if j == k then field j v d else field j w (put k v d)

-- `d.update(e)`, and `{**d, **e}`
unfoldable pub update : Fields → Fields → Fields
update d end = d
update d (field k v e) = update (put k v d) e

-- `{k: v for k, v in d.items() if k not in keys}`
unfoldable pub without : (String → Bool) → Fields → Fields
without drops end = end
without drops (field k v d) = let rest = without drops d in if drops k then rest else field k v rest

abbrev pub is_end : Fields → Bool
is_end end = true
is_end (field k v d) = false

-- `bool(v)`
abbrev pub truthy : Python → Value → Bool
truthy py null = false
truthy py (bool b) = b
truthy py (int n) = not (int_eqb n (pos 0))
truthy py (float f) = not (py.float_eqb f 0)
truthy py (str s) = not (s == "")
truthy py (list nil) = false
truthy py (list (cons v l)) = true
truthy py (dict end) = false
truthy py (dict (field k v d)) = true

-- `v is True` and `v is False`
abbrev pub is_true : Value → Bool
is_true (bool b) = b
is_true _ = false

abbrev pub is_false : Value → Bool
is_false (bool b) = not b
is_false _ = false

-- `isinstance(v, str) and v`
abbrev pub as_text : Value → Option String
as_text (str s) = some s
as_text _ = none

-- `type(v) is int`, which leaves `bool` out
abbrev pub as_int : Value → Option ℤ
as_int (int n) = some n
as_int _ = none

abbrev pub as_dict : Value → Option Fields
as_dict (dict d) = some d
as_dict _ = none

-- `v == n` for an integer: `True` is 1, `False` is 0, and a float may be a whole number.
abbrev pub eq_int : Python → Value → ℤ → Bool
eq_int py (bool true) n = int_eqb (pos 1) n
eq_int py (bool false) n = int_eqb (pos 0) n
eq_int py (int m) n = int_eqb m n
eq_int py (float f) n = py.int_eqb_float n f
eq_int py _ n = false

-- `v == s` for a text
abbrev pub eq_text : Value → String → Bool
eq_text (str t) s = t == s
eq_text _ s = false

abbrev pub eq_bool : Python → Value → Bool → Bool
eq_bool py v true = eq_int py v (pos 1)
eq_bool py v false = eq_int py v (pos 0)

-- A list of texts as a value, and back where every item is a text.
unfoldable pub of_texts : List String → Items
of_texts [] = nil
of_texts (s ∷ l) = cons (str s) (of_texts l)

unfoldable pub texts : Items → Option (List String)
texts nil = some []
texts (cons (str s) l) = elim (texts l) [ none ↦ none | some t ↦ some (s ∷ t) ]
texts (cons _ l) = none
