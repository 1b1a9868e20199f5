-- ===== src/Gate/Status.antt =====
-- upstream_gate.py: `_require_exact`, `_require_fresh_timestamp` and what the status must say.
use mt.Base.{ℕ, String, ◌<>◌, Bool, true, false, ◌&&◌, not, List, [], ◌∷◌, ℤ, pos, int_eqb, ◌==◌}
use mt.Json.{Value, bool, int, float, str, list, nil, Fields, Python, get}
use mt.Errors.{exception, Result, ok, fail, refuse_if, want, ◌>>=◌, ◌>>◌}

abbrev pub audited_origin_head : String
audited_origin_head = "53e4df648a89fad6586e1ac69916b20e747fd972"

-- `type(v) is type(w) and v == w`, for the texts, integers and truth values that are asked for.
unfoldable pub same_scalar : Value → Value → Bool
same_scalar (str s) (str t) = s == t
same_scalar (int m) (int n) = int_eqb m n
same_scalar (bool true) (bool b) = b
same_scalar (bool false) (bool b) = not b
same_scalar _ _ = false

-- `_require_exact`: a missing key reads as `None`, which is never asked for.
unfoldable pub require_exact : Fields → String × Value → Result (Unit {0})
require_exact payload (key, expected) =
    refuse_if (not (same_scalar (get key payload) expected)) exception
      ("upstream observer status has invalid " <> key)

unfoldable pub require_all : Fields → List (String × Value) → Result (Unit {0})
require_all payload [] = ok tt
require_all payload (k ∷ l) = do require_exact payload k; require_all payload l

-- `exact_fields`
abbrev pub exact_fields : List (String × Value)
exact_fields =
    ("schema", str "microtensor.upstream-observation.v1")
    ∷ ("schema_version", int (pos 1))
    ∷ ("observation_succeeded", bool true)
    ∷ ("phase", str "current")
    ∷ ("ok", bool true)
    ∷ ("origin", str "https://github.com/microtensor-io/microtensor-subnet")
    ∷ ("origin_head", str audited_origin_head)
    ∷ ("audited_origin_head", str audited_origin_head)
    ∷ ("release_version", str "0.3.2")
    ∷ ("mechanism_version", str "0.3.0")
    ∷ ("provenance_required", bool false)
    ∷ ("local_checkout_at_origin", bool true)
    ∷ ("audited_head_is_ancestor", bool true)
    ∷ ("review_required", bool false)
    ∷ ("miner_impact_review_required", bool false)
    ∷ ("history_rewrite_detected", bool false)
    ∷ ("history_rewrite_latched", bool false)
    ∷ ("changed_files_truncated", bool false)
    ∷ ("commits_since_audit", int (pos 0))
    ∷ []

unfoldable pub is_empty_list : Value → Bool
is_empty_list (list nil) = true
is_empty_list _ = false

module _ (py : Python) where
  -- `float(value)` of a number that is no truth value.
  unfoldable pub numeric : String → Value → Result ℕ
  numeric key (int n) = want (py.float_of_int n) exception "OverflowError"
  numeric key (float f) = ok f
  numeric key _ = fail exception ("upstream observer status has invalid " <> key)

  -- A float that is finite and greater than zero.
  abbrev pub is_time : ℕ → Bool
  is_time f = py.float_is_finite f && py.int_ltb_float (pos 0) f

  -- `_require_fresh_timestamp`; `skew` is the float 30.0.
  unfoldable pub require_fresh : ℕ → ℕ → ℤ → Fields → String → Result (Unit {0})
  require_fresh skew now max_age payload key = do
    timestamp ← numeric key (get key payload)
    refuse_if (not (is_time timestamp)) exception ("upstream observer status has invalid " <> key)
    refuse_if (py.float_ltb (py.float_add now skew) timestamp) exception
        ("upstream observer status " <> key <> " is in the future")
    refuse_if (py.int_ltb_float max_age (py.float_sub now timestamp)) exception
        ("upstream observer status " <> key <> " is stale")

  -- The tests on the status, in their order.
  unfoldable pub check_status : ℕ → ℕ → ℤ → Fields → Result (Unit {0})
  check_status skew now max_age payload = do
    require_all payload exact_fields
    refuse_if (not (is_empty_list (get "changed_files" payload))) exception
        "upstream observer status has invalid changed_files"
    require_fresh skew now max_age payload "updated_at_epoch"
    require_fresh skew now max_age payload "origin_observed_at"
