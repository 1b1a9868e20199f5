-- ===== src/Coordinator/Round.antt =====
-- coordinator.py, `validate_served_round`, in the order of its tests.
use mt.Base.{
  String, ◌<>◌, Bool, false, ◌&&◌, ◌||◌, not, Option, none, some, ℤ, pos, ◌-ℤ◌, int_ltb, int_leb,
  ◌==◌, hex_tag, show_int, if◌then◌else◌,
}
use mt.Json.{
  Value, str, list, Fields, end, nil, cons, Python, get, has, as_dict, as_text, as_int, eq_text,
  truthy, Items,
}
use mt.Errors.{want, Result, ok, refuse_if, round_refused, round_not_open, ◌>>=◌, ◌>>◌}
use mt.Coordinator.Fields.{strict_int, canonical_hash, nested, opens}
use mt.Coordinator.Signed.{SignedFields, text_of, validate_signed_config}

-- The keyword arguments that stay fixed over a run of the controller.
pub record Profile : Type 0 where
  pub track : String
  pub hardware_class : String
  pub require_anchored : Bool
  pub base_model : String
  pub strict_v030 : Bool

pub record Bounds : Type 0 where
  pub index : ℤ
  pub start : ℤ
  pub close : ℤ
  pub end_block : ℤ
  pub phase : String

-- `str(phase_value or "")`
unfoldable pub phase_text : Python → Value → String
phase_text py v = if truthy py v then text_of py v else ""

-- The tests of the bounds and the phase against the head of the chain.
unfoldable pub check_bounds : Python → Bounds → ℤ → Result (Unit {0})
check_bounds py b head = do
  refuse_if
      (int_ltb b.index (pos 0) || not (int_ltb b.start b.close && int_ltb b.close b.end_block))
      round_refused "coordinator returned invalid round bounds"
  refuse_if (int_ltb head b.start) round_not_open (
      "coordinator round "
      <> show_int b.index
      <> " starts at "
      <> show_int b.start
      <> "; chain head is "
      <> show_int head)
  refuse_if (int_leb b.end_block head) round_refused (
      "coordinator round "
      <> show_int b.index
      <> " is stale for chain head "
      <> show_int head
      <> " (window "
      <> show_int b.start
      <> ".."
      <> show_int (b.end_block -ℤ pos 1)
      <> ")")
  refuse_if (not (b.phase == "submissions" || b.phase == "evaluation")) round_refused
      ("coordinator returned unsupported phase " <> py.repr (str b.phase))
  refuse_if (b.phase == "submissions" && int_leb b.close head) round_refused
      "coordinator says submissions while the chain is at/after close"
  refuse_if (b.phase == "evaluation" && int_ltb head b.close) round_refused
      "coordinator says evaluation before the close block"

-- The bounds and the phase of the served round.
unfoldable pub served_bounds : Python → Fields → ℤ → Result Bounds
unfolding strict_int phase_text check_bounds
served_bounds py payload head = do
  refuse_if (eq_text (get "phase" payload) "scheduled" || eq_text (get "state" payload) "scheduled")
      round_not_open "coordinator round is scheduled but not open"
  index ← strict_int payload "round" "round"
  start ← strict_int payload "start_block" "round"
  close ← strict_int payload "close_block" "round"
  last ← strict_int payload "end_block" "round"
  let b : Bounds = record {
    index = index;
    start = start;
    close = close;
    end_block = last;
    phase = phase_text py (get "phase" payload);
  }
  check_bounds py b head
  ok b

pub record Served : Type 0 where
  pub config : Fields
  pub config_hash : String

-- The served config carries its own hash.
unfoldable pub served_config : Python → Fields → Result Served
unfolding canonical_hash
served_config py payload = do
  let refusal : String = "coordinator round has no served config/config hash"
  config ← want (as_dict (get "config" payload)) round_refused refusal
  config_hash ← want (as_text (get "config_hash" payload)) round_refused refusal
  refuse_if (not (hex_tag "sha256:" 64 config_hash)) round_refused refusal
  actual ← canonical_hash py config
  refuse_if (not (actual == config_hash)) round_refused
      "coordinator served config does not match its config hash"
  ok (record { config = config; config_hash = config_hash })

unfoldable pub served_arena : Profile → Fields → Result Fields
served_arena p config = do
  let place = p.track <> "/" <> p.hardware_class
  refuse_if (not (opens p.track p.hardware_class (get "competitions" config))) round_refused
      ("coordinator config does not open " <> place)
  want (nested (get "arenas" config) place) round_refused
      ("coordinator config has no arena rules for " <> place)

-- `base_model in allowed`
unfoldable pub lists_text : String → Items → Bool
lists_text s nil = false
lists_text s (cons v l) = eq_text v s || lists_text s l

-- `isinstance(allowed, list) and allowed`
abbrev pub nonempty_list : Value → Option Items
nonempty_list (list (cons v l)) = some (cons v l)
nonempty_list _ = none

-- The branch for the profiles before v0.3.
unfoldable pub legacy_base_model : Profile → Fields → Result (Unit {0})
unfolding lists_text
legacy_base_model p arena = do
  allowed ← want (nonempty_list (get "allowed_base_models" arena)) round_refused (
      "coordinator config publishes no base-model allowlist for " <> p.track <> "/"
      <> p.hardware_class)
  refuse_if (not (lists_text p.base_model allowed)) round_refused
      ("base model " <> p.base_model <> " is not allowed in the served arena")

-- `None` where the strict profile does not apply.
unfoldable pub profile_fields :
    Python → Profile → Fields → Fields → Fields → Result (Option SignedFields)
profile_fields py p payload config arena =
    if p.strict_v030
    then (do
      v030 ← validate_signed_config py payload config p.track p.hardware_class p.base_model arena
      ok (some v030))
    else if p.base_model == ""
    then ok none
    else (do legacy_base_model p arena; ok none)

abbrev or_empty : Option Fields → Fields
or_empty none = end
or_empty (some d) = d

-- `overrides.get(name)`, or with the limit of the class as its default.
unfoldable pub ceiling_value : Profile → Fields → Fields → String → Value
ceiling_value p config arena name =
    let overrides = or_empty (as_dict (get "ceilings" arena)) in
    let class_rules = or_empty (nested (get "classes" config) p.hardware_class) in
    if p.strict_v030 || has name overrides then get name overrides else get name class_rules

unfoldable pub ceiling : Profile → Fields → Fields → String → Result ℤ
unfolding ceiling_value
ceiling p config arena name = do
  let refusal =
      "anchored config has no positive " <> name <> " for " <> p.track <> "/" <> p.hardware_class
  raw ← want (as_int (ceiling_value p config arena name)) round_refused refusal
  refuse_if (int_leb raw (pos 0)) round_refused refusal
  ok raw
