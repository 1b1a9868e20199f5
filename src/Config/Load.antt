-- ===== src/Config/Load.antt =====
-- config.py: `from_env`. The values are read in the order of the fields.
use mt.Base.{
  String, Bool, true, false, Option, none, some, ℤ, pos, negsuc, rstrip_char, if◌then◌else◌,
}
use mt.Json.{Python}
use mt.Errors.{Result, ok, ◌>>=◌, ◌>>◌}
use mt.Config.{Config}
use mt.Config.Environment.{
  Env, Paths, reject_forbidden, text, integer, optional_integer, boolean, path, optional_path,
}
use mt.Config.Template.{validate_template}
use mt.Config.Validate.{validate, expected_base_model, signed_coordinator_url}

abbrev pub is_some : Option ℤ → Bool
is_some none = false
is_some (some n) = true

module _ (py : Python) (upper : String → String) (paths : Paths) where
  -- The values before the configuration is validated. `upper` is `str.upper`.
  unfoldable pub read_config : Env → Result Config
  read_config env = do
    reject_forbidden env
    activation ← optional_integer py env "MMC_V030_ACTIVATION_BLOCK" (some (pos 0))
    let signed = is_some activation
    upstream_home ← path paths env "MT_HOME" "/var/lib/microtensor-miner/upstream" false
    state_dir ← path paths env "MMC_STATE_DIR" "/var/lib/microtensor-miner/controller" false
    artifact_dir ← path paths env "MMC_ARTIFACT_DIR" "" true
    source_template ← text env "MMC_SOURCE_TEMPLATE" "" true
    validate_template source_template
    netuid ← integer py env "MT_NETUID" (pos 92) (some (pos 0)) none
    network ← text env "MT_NETWORK" "finney" false
    endpoint ← text env "MT_ENDPOINT" "" false
    wallet_name ← text env "MT_WALLET_NAME" "you-cold" true
    wallet_hotkey ← text env "MT_WALLET_HOTKEY" "you-hot1" true
    wallet_path ← path paths env "MT_WALLET_PATH" "" true
    expected_uid ← integer py env "MMC_EXPECTED_UID" (pos 32) (some (pos 0)) none
    observer_path ←
        path paths env "MMC_UPSTREAM_OBSERVER_STATUS_PATH"
          (paths.join (paths.join (paths.parent state_dir) "upstream-observer") "status.json") false
    observer_age ←
        integer py env "MMC_UPSTREAM_OBSERVER_MAX_AGE_SECONDS" (pos 900) (some (pos 600))
          (some (pos 900))
    binding_path ← path paths env "MMC_ARTIFACT_COMPETITION_BINDING_PATH" "" true
    selfcheck ←
        path paths env "MMC_SELFCHECK_PATH" (paths.join upstream_home "selfcheck.json") false
    selfcheck_binding ←
        path paths env "MMC_SELFCHECK_BINDING_PATH"
          (paths.join upstream_home "selfcheck.binding.json") false
    track ← text env "MMC_TRACK" (if signed then "code" else "extract") true
    hardware_class ← text env "MMC_HARDWARE_CLASS" "mt-3g" true
    token_file ← optional_path paths env "MMC_GITHUB_TOKEN_FILE"
    entrypoint ← text env "MMC_ENTRYPOINT" (if signed then "" else "model.gguf") false
    artifact_format ← text env "MMC_ARTIFACT_FORMAT" (if signed then "" else "gguf") false
    quantization ← text env "MMC_QUANTIZATION" (if signed then "" else "Q4_K_M") false
    max_input_tokens ←
        integer py env "MMC_MAX_INPUT_TOKENS" (if signed then pos 0 else pos 512)
          (some (if signed then pos 0 else pos 1)) none
    tokenizer ← text env "MMC_TOKENIZER" (if signed then "" else "tokenizer.json") false
    base_model ← text env "MMC_BASE_MODEL" (if signed then "" else expected_base_model) false
    coordinator_url ← text env "MMC_COORDINATOR_URL" signed_coordinator_url true
    fallback ← boolean py env "MMC_ALLOW_CHAIN_SCHEDULE_FALLBACK" false
    anchored ← boolean py env "MMC_REQUIRE_ANCHORED_COORDINATOR" true
    dry_run ← boolean py env "MMC_DRY_RUN" true
    authorization ← text env "MMC_TRANSACTION_AUTHORIZATION" "" false
    unverified ← boolean py env "MMC_ALLOW_UNVERIFIED_UPSTREAM" false
    poll ← integer py env "MMC_POLL_SECONDS" (pos 30) (some (pos 1)) none
    retry ← integer py env "MMC_RETRY_SECONDS" (pos 30) (some (pos 1)) none
    margin ← integer py env "MMC_DEADLINE_MARGIN_BLOCKS" (pos 40) (some (pos 1)) none
    attempts ← integer py env "MMC_VERIFY_ATTEMPTS" (pos 5) (some (pos 1)) none
    interval ← integer py env "MMC_VERIFY_INTERVAL_SECONDS" (pos 900) (some (pos 30)) none
    health_age ← integer py env "MMC_HEALTH_MAX_AGE_SECONDS" (pos 180) (some (pos 10)) none
    timeout ← integer py env "MMC_COORDINATOR_TIMEOUT_SECONDS" (pos 10) (some (pos 1)) none
    log_level ← text env "MMC_LOG_LEVEL" "INFO" false
    round_blocks ← integer py env "MT_ROUND_BLOCKS" (pos 21600) (some (pos 1)) none
    genesis ← integer py env "MT_GENESIS_BLOCK" (negsuc 17805487) none none
    ok (record {
      netuid = netuid;
      network = network;
      endpoint = endpoint;
      wallet_name = wallet_name;
      wallet_hotkey = wallet_hotkey;
      wallet_path = wallet_path;
      expected_uid = expected_uid;
      upstream_home = upstream_home;
      state_dir = state_dir;
      upstream_observer_status_path = observer_path;
      upstream_observer_max_age_seconds = observer_age;
      artifact_dir = artifact_dir;
      artifact_competition_binding_path = binding_path;
      selfcheck_path = selfcheck;
      selfcheck_binding_path = selfcheck_binding;
      v030_activation_block = activation;
      track = track;
      hardware_class = hardware_class;
      source_template = source_template;
      github_token_file = token_file;
      entrypoint = entrypoint;
      artifact_format = artifact_format;
      quantization = quantization;
      max_input_tokens = max_input_tokens;
      tokenizer = tokenizer;
      base_model = base_model;
      coordinator_url = rstrip_char b'/' coordinator_url;
      allow_chain_schedule_fallback = fallback;
      require_anchored_coordinator = anchored;
      dry_run = dry_run;
      transaction_authorization = authorization;
      allow_unverified_upstream = unverified;
      poll_seconds = poll;
      retry_seconds = retry;
      deadline_margin_blocks = margin;
      verify_attempts = attempts;
      verify_interval_seconds = interval;
      health_max_age_seconds = health_age;
      coordinator_timeout_seconds = timeout;
      log_level = upper log_level;
      round_blocks = round_blocks;
      genesis_block = genesis;
    })

  unfoldable pub from_env : Env → Result Config
  from_env env = do c ← read_config env; validate c; ok c
