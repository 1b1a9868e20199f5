-- ===== src/Coordinator/Strict.antt =====
-- coordinator.py, `_validate_v030_config`: what the signed profile says of the served documents.
use mt.Base.{
  ℕ, String, true, false, not, ◌&&◌, ◌≡◌, refl, ap, ◌∙◌, some, List, ℤ, pos, ◌<ℤ◌, int_eqb-eq,
  int_leb_false, ◌==◌, eq_iff, not-false, contains, hex_tag,
}
use mt.Json.{Value, str, int, Fields, Python, get, as_text, as_int, eq_text}
use mt.Errors.{ok}
use mt.Errors.Ensures.{
  Ensures, Ensures-ok, Ensures-known, Ensures-bind, Ensures-refuse, Ensures-refuse_last,
  Ensures-want, Ensures-want_last,
}
use mt.Coordinator.Fields.{strict_int, positive_int, nested}
use mt.Coordinator.Signed.{
  signed_config_version, signed_mechanism_version, signed_corpus_version, signed_metric, float_one,
  SignedFields, text_of, number, unit_number, canonical_allowlist, check_base_model, tagged,
  check_seed, tagged_text, is_int, check_versions, class_weight, class_limits, check_classes,
  track_rules, check_metric, validate_signed_config,
}

-- A field that is an integer, and one that is positive.
abbrev pub IsField : Fields → String → ℤ → Type 0
IsField d key n = as_int (get key d) ≡ some n

abbrev pub IsPositive : Fields → String → ℤ → Type 0
IsPositive d key n = IsField d key n × (pos 0 <ℤ n)

abbrev pub HasPositive : Fields → String → Type 0
HasPositive d key = (n : ℤ) × IsPositive d key n

-- A number that is 1.0.
abbrev pub IsUnit : Python → Value → ℕ → Type 0
IsUnit py v f = (number py v ≡ ok (some f)) × (py.float_eqb f float_one ≡ true)

-- A text with a prefix and so many hexadecimal digits.
abbrev pub IsTagged : String → ℕ → Value → String → Type 0
IsTagged prefix n v s = (as_text v ≡ some s) × (hex_tag prefix n s ≡ true)

-- The hash of the seed block is empty while submissions are open, and canonical in evaluation.
pub record IsSeed (payload : Fields) (seed close : ℤ) : Type 0 where
  pub same : seed ≡ close
  pub hidden :
      (eq_text (get "phase" payload) "submissions" && not (eq_text (get "block_hash" payload) ""))
      ≡ false
  pub told :
      (eq_text (get "phase" payload) "evaluation"
        && not (tagged "0x" 64 (get "block_hash" payload)))
      ≡ false

-- The signed profile of the served config, and where each field of the window comes from.
pub record IsStrict (py : Python) (payload config : Fields)
    (track hardware_class base_model : String) (arena : Fields) (v : SignedFields) : Type 0 where
  pub version : get "version" config ≡ int signed_config_version
  pub mechanism : get "mechanism_version" config ≡ str signed_mechanism_version
  pub mechanism_kept : v.mechanism_version ≡ signed_mechanism_version
  pub corpus : get "corpus_version" config ≡ str signed_corpus_version
  pub corpus_kept : v.corpus_version ≡ signed_corpus_version
  pub rules : Fields
  pub ruled : nested (get "tracks" config) track ≡ some rules
  pub metric : get "metric" rules ≡ str signed_metric
  pub metric_kept : v.metric ≡ signed_metric
  pub emission : IsUnit py (get "emission_share" rules) v.emission_share
  pub weight : ℕ
  pub weighted : IsUnit py (class_weight config hardware_class) weight
  pub limits : Fields
  pub classed : nested (get "classes" config) hardware_class ≡ some limits
  pub max_size : HasPositive limits "max_size_bytes"
  pub max_rss : HasPositive limits "max_rss_bytes"
  pub max_p95 : HasPositive limits "max_p95_ms"
  pub allowed : List String
  pub allowlist : canonical_allowlist (get "allowed_base_models" arena) ≡ some allowed
  pub selected : (base_model == "") ≡ false
  pub listed : contains base_model allowed ≡ true
  pub cpu_seconds : IsPositive arena "cpu_seconds_per_artifact" v.cpu_seconds_per_artifact
  pub tasks : IsPositive arena "tasks_per_round" v.tasks_per_round
  pub all_tasks : HasPositive config "tasks_per_round"
  pub environment : IsTagged "env:" 16 (get "environment_digest" arena) v.environment_digest
  pub digest : IsTagged "sha256:" 64 (get "corpus_digest" payload) v.corpus_digest
  pub seed : IsField payload "seed_block" v.seed_block
  pub close : ℤ
  pub closed : IsField payload "close_block" close
  pub seeded : IsSeed payload v.seed_block close
  pub hash : v.block_hash ≡ text_of py (get "block_hash" payload)

eq_text-str : (v : Value) (s : String) → eq_text v s ≡ true → v ≡ str s
eq_text-str (str t) s e = ap str ((eq_iff t s).0 e)
eq_text-str Value.null s e = cc
eq_text-str _ s e = cc

is_int-int : (v : Value) → is_int v ≡ true → v ≡ int signed_config_version
is_int-int (int n) e = ap int (int_eqb-eq n signed_config_version e)
is_int-int Value.null e = cc
is_int-int _ e = cc

strict_int-IsField :
    (d : Fields) (key context : String) → Ensures (IsField d key) (strict_int d key context)
unfolding strict_int
strict_int-IsField d key context = Ensures-want_last _ _ _ λ n e. e

positive_int-IsPositive :
    (d : Fields) (key context : String) → Ensures (IsPositive d key) (positive_int d key context)
unfolding positive_int
positive_int-IsPositive d key context = Ensures-bind λ n e.
    Ensures-refuse _ _ _
      λ t. Ensures-ok ((strict_int-IsField d key context).holds n e, int_leb_false n (pos 0) t)

unit_number-IsUnit :
    (py : Python) (v : Value) (message : String) → Ensures (IsUnit py v) (unit_number py v message)
unfolding unit_number
unit_number-IsUnit py v message = Ensures-bind λ n e.
    Ensures-want _ _ _ λ f g. Ensures-refuse _ _ _ λ t. Ensures-ok (e ∙ ap ok g, not-false _ t)

tagged_text-IsTagged :
    (prefix : String) (n : ℕ) (v : Value) (message : String)
    → Ensures (IsTagged prefix n v) (tagged_text prefix n v message)
unfolding tagged_text
tagged_text-IsTagged prefix n v message =
    Ensures-want _ _ _ λ s e. Ensures-refuse _ _ _ λ t. Ensures-ok (e, not-false _ t)

check_seed-IsSeed :
    (payload : Fields) (seed close : ℤ)
    → Ensures (λ _. IsSeed payload seed close) (check_seed payload seed close)
unfolding check_seed
check_seed-IsSeed payload seed close = Ensures-refuse _ _ _ λ s. Ensures-refuse _ _ _ λ h.
    Ensures-refuse_last _ _ _
      λ t. record { same = int_eqb-eq seed close (not-false _ s); hidden = h; told = t }

module _ (py : Python) (config : Fields) (hardware_class : String) where
  -- The limits of the hardware class are positive.
  record IsLimited (limits : Fields) : Type 0 where
    size : HasPositive limits "max_size_bytes"
    rss : HasPositive limits "max_rss_bytes"
    p95 : HasPositive limits "max_p95_ms"

  class_limits-IsLimited :
      (limits : Fields) (context : String)
      → Ensures (λ _. IsLimited limits) (class_limits limits context)
  unfolding class_limits
  class_limits-IsLimited limits context = Ensures-bind λ s e. Ensures-bind λ r f.
      Ensures-bind λ p g. Ensures-ok (record {
        size = (s, (positive_int-IsPositive limits _ context).holds s e);
        rss = (r, (positive_int-IsPositive limits _ context).holds r f);
        p95 = (p, (positive_int-IsPositive limits _ context).holds p g);
      })

  record IsClassed : Type 0 where
    weight : ℕ
    weighted : IsUnit py (class_weight config hardware_class) weight
    limits : Fields
    found : nested (get "classes" config) hardware_class ≡ some limits
    limited : IsLimited limits

  check_classes-IsClassed : Ensures (λ _. IsClassed) (check_classes py config hardware_class)
  unfolding check_classes
  check_classes-IsClassed = Ensures-bind λ w e. Ensures-want _ _ _ λ l f. Ensures-known λ u g.
      record {
        weight = w;
        weighted = (unit_number-IsUnit py _ _).holds w e;
        limits = l;
        found = f;
        limited = (class_limits-IsLimited l _).holds u g;
      }

module _ (py : Python) (payload config : Fields) (track hardware_class base_model : String)
    (arena : Fields) where
  record IsVersioned : Type 0 where
    version : get "version" config ≡ int signed_config_version
    mechanism : get "mechanism_version" config ≡ str signed_mechanism_version
    corpus : get "corpus_version" config ≡ str signed_corpus_version

  check_versions-IsVersioned : Ensures (λ _. IsVersioned) (check_versions py config)
  unfolding check_versions
  check_versions-IsVersioned = Ensures-refuse _ _ _ λ v. Ensures-refuse _ _ _ λ m.
      Ensures-refuse_last _ _ _ λ c. record {
        version = is_int-int _ (not-false _ v);
        mechanism = eq_text-str _ _ (not-false _ m);
        corpus = eq_text-str _ _ (not-false _ c);
      }

  metric-str :
      (rules : Fields)
      → Ensures (λ _. get "metric" rules ≡ str signed_metric) (check_metric py rules)
  unfolding check_metric
  metric-str rules = Ensures-refuse_last _ _ _ λ t. eq_text-str _ _ (not-false _ t)

  listed-base :
      (allowed : List String)
      → Ensures
          (λ _. ((base_model == "") ≡ false) × (contains base_model allowed ≡ true))
          (check_base_model base_model allowed)
  unfolding check_base_model
  listed-base allowed = Ensures-refuse _ _ _ λ s. Ensures-refuse_last _ _ _ λ t. (s, not-false _ t)

  pub validate-IsStrict :
      Ensures
        (IsStrict py payload config track hardware_class base_model arena)
        (validate_signed_config py payload config track hardware_class base_model arena)
  unfolding validate_signed_config track_rules
  validate-IsStrict = Ensures-bind λ u versions. Ensures-want _ _ _ λ rules ruled.
      Ensures-bind λ m metric. Ensures-bind λ emission unit. Ensures-bind λ k classes.
        Ensures-want _ _ _ λ allowed allowlist. Ensures-bind λ b base.
          Ensures-bind λ cpu cpu_seconds. Ensures-bind λ n tasks. Ensures-bind λ all every.
            Ensures-bind λ env environment. Ensures-bind λ digest corpus. Ensures-bind λ seed seeds.
              Ensures-bind λ close closes. Ensures-bind λ s seeded.
                let versioned = check_versions-IsVersioned.holds u versions in
                let classed = (check_classes-IsClassed py config hardware_class).holds k classes in
                let named = (metric-str rules).holds m metric in
                let listed = (listed-base allowed).holds b base in
                Ensures-ok (record {
                  version = versioned.version;
                  mechanism = versioned.mechanism;
                  mechanism_kept = ap (text_of py) versioned.mechanism;
                  corpus = versioned.corpus;
                  corpus_kept = ap (text_of py) versioned.corpus;
                  rules = rules;
                  ruled = ruled;
                  metric = named;
                  metric_kept = ap (text_of py) named;
                  emission = (unit_number-IsUnit py _ _).holds emission unit;
                  weight = classed.weight;
                  weighted = classed.weighted;
                  limits = classed.limits;
                  classed = classed.found;
                  max_size = classed.limited.size;
                  max_rss = classed.limited.rss;
                  max_p95 = classed.limited.p95;
                  allowed = allowed;
                  allowlist = allowlist;
                  selected = listed.0;
                  listed = listed.1;
                  cpu_seconds = (positive_int-IsPositive arena _ _).holds cpu cpu_seconds;
                  tasks = (positive_int-IsPositive arena _ _).holds n tasks;
                  all_tasks = (all, (positive_int-IsPositive config _ _).holds all every);
                  environment = (tagged_text-IsTagged _ _ _ _).holds env environment;
                  digest = (tagged_text-IsTagged _ _ _ _).holds digest corpus;
                  seed = (strict_int-IsField payload _ _).holds seed seeds;
                  close = close;
                  closed = (strict_int-IsField payload _ _).holds close closes;
                  seeded = (check_seed-IsSeed payload seed close).holds s seeded;
                  hash = refl;
                })
