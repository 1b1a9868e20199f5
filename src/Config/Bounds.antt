-- ===== src/Config/Bounds.antt =====
-- config.py: the numbers and the template of a configuration that was loaded.
use mt.Base.{
  String, Bool, true, false, ◌≡◌, ◌==◌, strip, subst, Option, none, some, ℤ, pos, ◌≤ℤ◌,
  int_ltb_false, arith, if◌then◌else◌,
}
use mt.Json.{Python}
use mt.Errors.{ok}
use mt.Errors.Ensures.{
  Ensures, Ensures-ok, Ensures-known, Ensures-bind, Ensures-refuse, Ensures-want, Ensures-if,
}
use mt.Config.{Config}
use mt.Config.Environment.{
  Env, Paths, get_or, checked_integer, integer, optional_checked, optional_integer,
}
use mt.Config.Template.{validate_template}
use mt.Config.Load.{is_some, read_config, from_env}

pub record IsBounded (c : Config) : Type 0 where
  pub template : validate_template c.source_template ≡ ok tt
  pub observer_fresh : pos 600 ≤ℤ c.upstream_observer_max_age_seconds
  pub observer_strict : c.upstream_observer_max_age_seconds ≤ℤ pos 900
  pub activation : (n : ℤ) → c.v030_activation_block ≡ some n → pos 0 ≤ℤ n
  pub netuid : pos 0 ≤ℤ c.netuid
  pub uid : pos 0 ≤ℤ c.expected_uid
  pub tokens : pos 0 ≤ℤ c.max_input_tokens
  pub tokens_given : c.v030_activation_block ≡ none → pos 1 ≤ℤ c.max_input_tokens
  pub poll : pos 1 ≤ℤ c.poll_seconds
  pub retry : pos 1 ≤ℤ c.retry_seconds
  pub margin : pos 1 ≤ℤ c.deadline_margin_blocks
  pub attempts : pos 1 ≤ℤ c.verify_attempts
  pub interval : pos 30 ≤ℤ c.verify_interval_seconds
  pub health_age : pos 10 ≤ℤ c.health_max_age_seconds
  pub timeout : pos 1 ≤ℤ c.coordinator_timeout_seconds
  pub rounds : pos 1 ≤ℤ c.round_blocks

-- Between the limits that a reader was given.
abbrev AtLeast : Option ℤ → ℤ → Type 0
AtLeast none n = Unit
AtLeast (some m) n = m ≤ℤ n

abbrev AtMost : Option ℤ → ℤ → Type 0
AtMost none n = Unit
AtMost (some m) n = n ≤ℤ m

module _ (py : Python) where
  checked-AtLeast :
      (key raw : String) (low high : Option ℤ)
      → Ensures (AtLeast low) (checked_integer py key raw low high)
  unfolding checked_integer
  checked-AtLeast key raw none high = Ensures-known λ n e. tt
  checked-AtLeast key raw (some m) high =
      Ensures-want _ _ _
        λ n e. Ensures-refuse _ _ _ λ t. Ensures-refuse _ _ _ λ u. Ensures-ok (int_ltb_false n m t)

  checked-AtMost :
      (key raw : String) (low high : Option ℤ)
      → Ensures (AtMost high) (checked_integer py key raw low high)
  unfolding checked_integer
  checked-AtMost key raw low none = Ensures-known λ n e. tt
  checked-AtMost key raw low (some m) =
      Ensures-want _ _ _
        λ n e. Ensures-refuse _ _ _ λ t. Ensures-refuse _ _ _ λ u. Ensures-ok (int_ltb_false m n u)

  integer-AtLeast :
      (env : Env) (key : String) (d : ℤ) (low high : Option ℤ) {n : ℤ}
      → integer py env key d low high ≡ ok n
      → AtLeast low n
  unfolding integer
  integer-AtLeast env key d low high = (checked-AtLeast key _ low high).holds _

  integer-AtMost :
      (env : Env) (key : String) (d : ℤ) (low high : Option ℤ) {n : ℤ}
      → integer py env key d low high ≡ ok n
      → AtMost high n
  unfolding integer
  integer-AtMost env key d low high = (checked-AtMost key _ low high).holds _

  optional-AtLeast :
      (env : Env) (key : String) (m : ℤ)
      → Ensures (λ o. (n : ℤ) → o ≡ some n → m ≤ℤ n) (optional_integer py env key (some m))
  unfolding optional_integer optional_checked
  optional-AtLeast env key m =
      Ensures-if (strip (get_or env key "") == "") (λ _. Ensures-ok λ n e. cc)
        λ _. Ensures-bind λ k e. Ensures-ok λ n f.
          subst (λ o. (elim o [ none ↦ Unit {0} | some j ↦ m ≤ℤ j ])) f
            ((checked-AtLeast key _ (some m) none).holds k e)

  tokens-pos :
      (activation : Option ℤ) (n : ℤ)
      → (if is_some activation then pos 0 else pos 1) ≤ℤ n
      → activation ≡ none
      → pos 1 ≤ℤ n
  tokens-pos none n e f = e
  tokens-pos (some m) n e f = cc

  -- The least count of tokens of either profile is not negative.
  tokens-nonneg : (signed : Bool) (n : ℤ) → (if signed then pos 0 else pos 1) ≤ℤ n → pos 0 ≤ℤ n
  tokens-nonneg true n e = e
  tokens-nonneg false (pos n) e = ground arith
  tokens-nonneg false (ℤ.negsuc n) e = ground arith

  pub read_config-IsBounded :
      (upper : String → String) (paths : Paths) (env : Env)
      → Ensures IsBounded (read_config py upper paths env)
  unfolding read_config
  read_config-IsBounded upper paths env = Ensures-bind λ _ _. Ensures-bind λ activation optional.
      Ensures-bind λ _ _. Ensures-bind λ _ _. Ensures-bind λ _ _. Ensures-bind λ _ _.
        Ensures-bind λ _ valid. Ensures-bind λ _ netuid. Ensures-bind λ _ _. Ensures-bind λ _ _.
          Ensures-bind λ _ _. Ensures-bind λ _ _. Ensures-bind λ _ _. Ensures-bind λ _ uid.
            Ensures-bind λ _ _. Ensures-bind λ _ age. Ensures-bind λ _ _. Ensures-bind λ _ _.
              Ensures-bind λ _ _. Ensures-bind λ _ _. Ensures-bind λ _ _. Ensures-bind λ _ _.
                Ensures-bind λ _ _. Ensures-bind λ _ _. Ensures-bind λ _ _. Ensures-bind λ _ tokens.
                  Ensures-bind λ _ _. Ensures-bind λ _ _. Ensures-bind λ _ _. Ensures-bind λ _ _.
                    Ensures-bind λ _ _. Ensures-bind λ _ _. Ensures-bind λ _ _. Ensures-bind λ _ _.
                      Ensures-bind λ _ poll. Ensures-bind λ _ retry. Ensures-bind λ _ margin.
                        Ensures-bind λ _ attempts. Ensures-bind λ _ interval.
                          Ensures-bind λ _ health_age. Ensures-bind λ _ timeout. Ensures-bind λ _ _.
                            Ensures-bind λ _ rounds. Ensures-bind λ _ _. Ensures-ok (record {
                              template = valid;
                              observer_fresh = integer-AtLeast _ _ _ _ _ age;
                              observer_strict = integer-AtMost _ _ _ _ _ age;
                              activation =
                                  (optional-AtLeast env _ (pos 0)).holds activation optional;
                              netuid = integer-AtLeast _ _ _ _ _ netuid;
                              uid = integer-AtLeast _ _ _ _ _ uid;
                              tokens_given =
                                  tokens-pos activation _ (integer-AtLeast _ _ _ _ _ tokens);
                              tokens = tokens-nonneg _ _ (integer-AtLeast _ _ _ _ _ tokens);
                              poll = integer-AtLeast _ _ _ _ _ poll;
                              retry = integer-AtLeast _ _ _ _ _ retry;
                              margin = integer-AtLeast _ _ _ _ _ margin;
                              attempts = integer-AtLeast _ _ _ _ _ attempts;
                              interval = integer-AtLeast _ _ _ _ _ interval;
                              health_age = integer-AtLeast _ _ _ _ _ health_age;
                              timeout = integer-AtLeast _ _ _ _ _ timeout;
                              rounds = integer-AtLeast _ _ _ _ _ rounds;
                            })

  -- The bounded numbers of a configuration that was loaded are within the limits of their settings, the
  -- activation block and the tokens of either profile among them, and its template passed the test of
  -- `_validate_template`.
  pub from_env-IsBounded :
      (upper : String → String) (paths : Paths) (env : Env) (c : Config)
      → from_env py upper paths env ≡ ok c
      → IsBounded c
  unfolding from_env
  from_env-IsBounded upper paths env c = loaded.holds c
    where
      loaded : Ensures IsBounded (from_env py upper paths env)
      loaded =
          Ensures-bind λ d e.
            Ensures-bind λ u f. Ensures-ok ((read_config-IsBounded upper paths env).holds d e)
