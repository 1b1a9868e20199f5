-- ===== src/Config/Validate.antt =====
-- config.py: `_validate`, in the order of its tests.
use mt.Base.{
  String, ◌<>◌, Bool, true, false, ◌&&◌, ◌||◌, not, Option, none, some, pos, int_ltb, int_eqb, ◌==◌,
  before, ends_with, starts_with, if◌then◌else◌,
}
use mt.Errors.{config, Result, refuse_if, ◌>>◌}
use mt.Config.{Config, uses_signed_v030}
use mt.Config.Source.{source_for}

abbrev pub transaction_authorization : String
transaction_authorization = "netuid92-uid32-you-hot1-commitment-fee0-deposit0-v1"

abbrev pub signed_coordinator_url : String
signed_coordinator_url = "https://coordinator.microtensor.cloud"

abbrev pub expected_base_model : String
expected_base_model = "Qwen/Qwen3-0.6B@c1899de289a04d12100db370d81485cdf75e47ca"

unfoldable pub check_identity : Config → Result (Unit {0})
check_identity c = do
  refuse_if (not (int_eqb c.netuid (pos 92))) config
      "this deployment is pinned to Microtensor netuid 92"
  refuse_if (not c.dry_run && not (c.network == "finney")) config
      "live mode requires MT_NETWORK=finney"
  refuse_if (not c.dry_run && not (c.endpoint == "")) config
      "live mode refuses custom MT_ENDPOINT values"
  refuse_if (not (c.network == "finney") && c.endpoint == "") config
      "non-finney diagnostics require an explicit MT_ENDPOINT"
  refuse_if (not (c.wallet_name == "you-cold")) config
      "MT_WALLET_NAME must be you-cold for this deployment"
  refuse_if (not (c.wallet_hotkey == "you-hot1")) config
      "MT_WALLET_HOTKEY must be you-hot1 for this deployment"
  refuse_if (not (int_eqb c.expected_uid (pos 32))) config
      "MMC_EXPECTED_UID must remain 32 for this registered miner"

-- The load spec is given in full.
abbrev pub has_spec : Config → Bool
has_spec c =
    not (c.entrypoint == "")
    && not (c.artifact_format == "")
    && not (c.quantization == "")
    && not (c.tokenizer == "")
    && not (c.base_model == "")

unfoldable pub check_signed : Config → Result (Unit {0})
check_signed c = do
  refuse_if (not (c.track == "code" && c.hardware_class == "mt-3g")) config
      "MMC_V030_ACTIVATION_BLOCK enables only the signed code/mt-3g profile"
  refuse_if (not (has_spec c) || int_ltb c.max_input_tokens (pos 1)) config
      "signed v0.3 activation requires an explicit final model/load spec; no candidate is selected by default"
  refuse_if (not (c.artifact_format == "gguf") || not (ends_with c.entrypoint ".gguf")) config
      "signed v0.3 activation currently supports only a GGUF load spec"
  refuse_if c.allow_unverified_upstream config
      "signed v0.3 activation never permits an unverified upstream"
  refuse_if c.allow_chain_schedule_fallback config
      "signed v0.3 activation never permits chain-schedule fallback"
  refuse_if (not c.dry_run && not (c.coordinator_url == signed_coordinator_url)) config (
      "live signed v0.3 activation requires the official coordinator URL "
      <> signed_coordinator_url)

abbrev pub is_expected_load : Config → Bool
is_expected_load c =
    c.entrypoint == "model.gguf"
    && c.artifact_format == "gguf"
    && c.quantization == "Q4_K_M"
    && int_eqb c.max_input_tokens (pos 512)
    && c.tokenizer == "tokenizer.json"
    && c.base_model == expected_base_model

unfoldable pub check_legacy : Config → Result (Unit {0})
check_legacy c = do
  refuse_if (not (c.track == "extract" && c.hardware_class == "mt-3g")) config
      "code/mt-3g requires an explicit MMC_V030_ACTIVATION_BLOCK"
  refuse_if (not (is_expected_load c)) config
      "this deployment accepts only model.gguf / gguf / Q4_K_M / 512 tokens / tokenizer.json / the pinned Qwen3-0.6B revision"

abbrev pub is_none : Option String → Bool
is_none none = true
is_none (some s) = false

unfoldable pub check_source_policy : Config → Result (Unit {0})
check_source_policy c = do
  let scheme = before b':' c.source_template
  refuse_if (not (scheme == "s3" || scheme == "r2" || scheme == "https")) config
      "supervised uploads support s3/r2 diagnostics or an immutable GitHub https release"
  source_for c (pos 0) "5ConfigProbe"
  refuse_if
      (not (
        c.transaction_authorization == ""
        || c.transaction_authorization == transaction_authorization))
      config "MMC_TRANSACTION_AUTHORIZATION is not an approved policy"
  refuse_if (not c.dry_run && not (c.transaction_authorization == transaction_authorization)) config
      "live mode requires the exact zero-cost MMC_TRANSACTION_AUTHORIZATION"
  refuse_if (scheme == "https" && is_none c.github_token_file && not c.dry_run) config
      "MMC_GITHUB_TOKEN_FILE is required for live GitHub releases"
  refuse_if (not (scheme == "https") && not (is_none c.github_token_file)) config
      "MMC_GITHUB_TOKEN_FILE is valid only with a GitHub https source"
  refuse_if (c.allow_unverified_upstream && not c.dry_run) config
      "MMC_ALLOW_UNVERIFIED_UPSTREAM is permitted only with MMC_DRY_RUN=true"
  refuse_if (not c.dry_run && not (scheme == "https")) config
      "live S3/R2 activation is refused: verification with miner credentials does not prove validators can fetch the artifact without those credentials"
  refuse_if (not c.require_anchored_coordinator) config
      "MMC_REQUIRE_ANCHORED_COORDINATOR must remain true"
  refuse_if (c.allow_chain_schedule_fallback && not c.dry_run) config
      "chain-schedule fallback is diagnostic-only and requires dry-run"

-- `_validate`
unfoldable pub validate : Config → Result (Unit {0})
validate c = do
  check_identity c
  if uses_signed_v030 c then check_signed c else check_legacy c
  refuse_if (not (starts_with c.coordinator_url "https://")) config
      "MMC_COORDINATOR_URL must use HTTPS"
  check_source_policy c
