-- ===== src/Coordinator/Signed.antt =====
-- coordinator.py, `_validate_v030_config`: the signed v0.3 profile of a served config.
use mt.Base.{
  ℕ, String, ◌<>◌, Bool, true, false, ◌&&◌, ◌||◌, not, Option, none, some, List, [], ◌∷◌, ℤ, pos,
  int_eqb, ◌==◌, contains, sorted_set, same_texts, hex_tag, if◌then◌else◌,
}
use mt.Json.{
  Value, null, int, float, str, list, Fields, Python, get, as_dict, as_text, texts, eq_text,
}
use mt.Errors.{want, Result, ok, fail, refuse_if, exception, round_refused, ◌>>=◌, ◌>>◌}
use mt.Coordinator.Fields.{strict_int, positive_int, nested}

abbrev pub signed_config_version : ℤ
signed_config_version = pos 1

abbrev pub signed_mechanism_version : String
signed_mechanism_version = "0.3.0"

abbrev pub signed_corpus_version : String
signed_corpus_version = "2026.1"

abbrev pub signed_metric : String
signed_metric = "execution_pass_rate"

-- 1.0, in binary64; `SIGNED_V030_EMISSION_SHARE` and the unit class weight.
abbrev pub float_one : ℕ
float_one = 4607182418800017408

-- The fields that the strict profile adds to the window.
pub record SignedFields : Type 0 where
  pub seed_block : ℤ
  pub block_hash : String
  pub mechanism_version : String
  pub corpus_version : String
  pub corpus_digest : String
  pub metric : String
  pub emission_share : ℕ
  pub cpu_seconds_per_artifact : ℤ
  pub tasks_per_round : ℤ
  pub environment_digest : String

-- `str(v)`, which is `repr(v)` for every JSON value but a text.
abbrev pub text_of : Python → Value → String
text_of py (str s) = s
text_of py v = py.repr v

-- A number other than a `bool`, as a float. Converting a huge integer raises `OverflowError`.
abbrev pub number : Python → Value → Result (Option ℕ)
number py (int n) = elim (py.float_of_int n) [
  | none ↦ fail exception "int too large to convert to float"
  | some f ↦ ok (some f)
]
number py (float f) = ok (some f)
number py _ = ok none

unfoldable pub unit_number : Python → Value → String → Result ℕ
unit_number py v message = do
  n ← number py v
  f ← want n round_refused message
  refuse_if (not (py.float_eqb f float_one)) round_refused message
  ok f

abbrev has_empty : List String → Bool
has_empty [] = false
has_empty (s ∷ l) = s == "" || has_empty l

abbrev is_empty : List String → Bool
is_empty [] = true
is_empty (s ∷ l) = false

-- A non-empty list of non-empty texts, sorted and without repetition.
unfoldable pub canonical_allowlist : Value → Option (List String)
unfolding texts
canonical_allowlist (list l) = elim (texts l) [
  | none ↦ none
  | some allowed ↦
      if is_empty allowed || has_empty allowed || not (same_texts allowed (sorted_set allowed))
      then none
      else some allowed
]
canonical_allowlist _ = none

unfoldable pub check_base_model : String → List String → Result (Unit {0})
check_base_model base_model allowed = do
  refuse_if (base_model == "") round_refused "signed v0.3 activation has no selected base model"
  refuse_if (not (contains base_model allowed)) round_refused
      ("base model " <> base_model <> " is not allowed in the served arena")

abbrev pub tagged : String → ℕ → Value → Bool
tagged prefix n (str s) = hex_tag prefix n s
tagged prefix n _ = false

-- The seed block is the close block; its hash is hidden in submissions and canonical in evaluation.
unfoldable pub check_seed : Fields → ℤ → ℤ → Result (Unit {0})
unfolding hex_tag
check_seed payload seed close = do
  refuse_if (not (int_eqb seed close)) round_refused
      "coordinator round seed block does not equal its close block"
  refuse_if
      (eq_text (get "phase" payload) "submissions" && not (eq_text (get "block_hash" payload) ""))
      round_refused "coordinator submissions phase must not reveal a seed block hash"
  refuse_if
      (eq_text (get "phase" payload) "evaluation"
        && not (tagged "0x" 64 (get "block_hash" payload)))
      round_refused "coordinator evaluation phase has no canonical seed block hash"

unfoldable pub tagged_text : String → ℕ → Value → String → Result String
tagged_text prefix n v message = do
  s ← want (as_text v) round_refused message
  refuse_if (not (hex_tag prefix n s)) round_refused message
  ok s

abbrev pub is_int : Value → Bool
is_int (int n) = int_eqb n signed_config_version
is_int _ = false

-- The versions that the release signs, in the config.
unfoldable pub check_versions : Python → Fields → Result (Unit {0})
check_versions py config = do
  refuse_if (not (is_int (get "version" config))) round_refused
      ("coordinator config version is " <> py.repr (get "version" config) <> ", expected 1")
  refuse_if (not (eq_text (get "mechanism_version" config) signed_mechanism_version)) round_refused
      ("coordinator mechanism is "
        <> py.repr (get "mechanism_version" config)
        <> ", expected '0.3.0'")
  refuse_if (not (eq_text (get "corpus_version" config) signed_corpus_version)) round_refused (
      "coordinator corpus version is "
      <> py.repr (get "corpus_version" config)
      <> ", expected '2026.1'")

unfoldable pub class_limits : Fields → String → Result (Unit {0})
class_limits rule context = do
  positive_int rule "max_size_bytes" context
  positive_int rule "max_rss_bytes" context
  positive_int rule "max_p95_ms" context
  ok tt

-- `weights.get(hardware_class) if isinstance(weights, dict) else None`
abbrev pub class_weight : Fields → String → Value
class_weight config hardware_class = elim (as_dict (get "class_weights" config)) [
  | none ↦ null
  | some weights ↦ get hardware_class weights
]

-- The `rules` of the track, and the unit weight and the limits of the hardware class.
unfoldable pub check_classes : Python → Fields → String → Result (Unit {0})
unfolding class_limits
check_classes py config hardware_class = do
  unit_number py (class_weight config hardware_class)
      ("coordinator config has no unit class weight for " <> hardware_class)
  rule ←
      want (nested (get "classes" config) hardware_class) round_refused
        ("coordinator config has no class rules for " <> hardware_class)
  class_limits rule ("class " <> hardware_class)

unfoldable pub track_rules : Fields → String → Result Fields
track_rules config track =
    want (nested (get "tracks" config) track) round_refused
      ("coordinator config has no track rules for " <> track)

unfoldable pub check_metric : Python → Fields → Result (Unit {0})
check_metric py rules =
    refuse_if (not (eq_text (get "metric" rules) signed_metric)) round_refused (
      "coordinator metric is "
      <> py.repr (get "metric" rules)
      <> ", expected 'execution_pass_rate'")

-- `_validate_v030_config`
unfoldable pub validate_signed_config :
    Python → Fields → Fields → String → String → String → Fields → Result SignedFields
unfolding tagged_text
validate_signed_config py payload config track hardware_class base_model arena = do
  check_versions py config
  rules ← track_rules config track
  check_metric py rules
  emission ←
      unit_number py (get "emission_share" rules) (
        "coordinator emission share is "
        <> py.repr (get "emission_share" rules)
        <> ", expected 1.0")
  check_classes py config hardware_class
  allowed ← want (canonical_allowlist (get "allowed_base_models" arena)) round_refused (
      "coordinator config publishes no canonical base-model allowlist for " <> track <> "/"
      <> hardware_class)
  check_base_model base_model allowed
  let place = "arena " <> track <> "/" <> hardware_class
  cpu_seconds ← positive_int arena "cpu_seconds_per_artifact" place
  tasks ← positive_int arena "tasks_per_round" place
  positive_int config "tasks_per_round" "config"
  environment ←
      tagged_text "env:" 16 (get "environment_digest" arena) (
        "coordinator config has no valid environment digest for " <> track <> "/" <> hardware_class)
  corpus_digest ←
      tagged_text "sha256:" 64 (get "corpus_digest" payload)
        "coordinator round has no valid corpus digest"
  seed ← strict_int payload "seed_block" "round"
  close ← strict_int payload "close_block" "round"
  check_seed payload seed close
  ok (record {
    seed_block = seed;
    block_hash = text_of py (get "block_hash" payload);
    mechanism_version = text_of py (get "mechanism_version" config);
    corpus_version = text_of py (get "corpus_version" config);
    corpus_digest = corpus_digest;
    metric = text_of py (get "metric" rules);
    emission_share = emission;
    cpu_seconds_per_artifact = cpu_seconds;
    tasks_per_round = tasks;
    environment_digest = environment;
  })
