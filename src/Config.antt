-- ===== src/Config.antt =====
-- config.py: the configuration of the controller.
pub mod Environment
pub mod Template
pub mod Source
pub mod Validate
pub mod Load
pub mod Safe
pub mod Bounds
pub mod Rendered
pub mod Refusals
use mt.Base.{String, Bool, Option, none, some, ℤ, if◌then◌else◌, true, false}

-- `ControllerConfig`; a path is its absolute text.
pub record Config : Type 0 where
  pub netuid : ℤ
  pub network : String
  pub endpoint : String
  pub wallet_name : String
  pub wallet_hotkey : String
  pub wallet_path : String
  pub expected_uid : ℤ
  pub upstream_home : String
  pub state_dir : String
  pub upstream_observer_status_path : String
  pub upstream_observer_max_age_seconds : ℤ
  pub artifact_dir : String
  pub artifact_competition_binding_path : String
  pub selfcheck_path : String
  pub selfcheck_binding_path : String
  pub v030_activation_block : Option ℤ
  pub track : String
  pub hardware_class : String
  pub source_template : String
  pub github_token_file : Option String
  pub entrypoint : String
  pub artifact_format : String
  pub quantization : String
  pub max_input_tokens : ℤ
  pub tokenizer : String
  pub base_model : String
  pub coordinator_url : String
  pub allow_chain_schedule_fallback : Bool
  pub require_anchored_coordinator : Bool
  pub dry_run : Bool
  pub transaction_authorization : String
  pub allow_unverified_upstream : Bool
  pub poll_seconds : ℤ
  pub retry_seconds : ℤ
  pub deadline_margin_blocks : ℤ
  pub verify_attempts : ℤ
  pub verify_interval_seconds : ℤ
  pub health_max_age_seconds : ℤ
  pub coordinator_timeout_seconds : ℤ
  pub log_level : String
  pub round_blocks : ℤ
  pub genesis_block : ℤ

unfoldable pub uses_signed_v030 : Config → Bool
uses_signed_v030 c = elim c.v030_activation_block [ none ↦ false | some n ↦ true ]

unfoldable pub upstream_release : Config → String
unfolding uses_signed_v030
upstream_release c = if uses_signed_v030 c then "0.3.2" else "0.1.14"

unfoldable pub provenance_required : Config → Bool
unfolding uses_signed_v030
provenance_required c = if uses_signed_v030 c then false else true
