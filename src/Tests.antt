-- ===== src/Tests.antt =====
-- A small controller at one configuration, and the theorems at its runs.
mod Running
mod Settings
mod Reading
mod Releasing
mod Signing
mod Ranking
use mt.Base.{
  ℕ, zero, suc, String, Bool, true, false, ◌≡◌, ◌≢◌, refl, Option, none, some, List, [], ◌∷◌, ℤ,
  pos, ◌⊎◌, contains, eqb,
}
use mt.Json.{Value, str, int, list, dict, nil, cons, Fields, end, field, Python, has, get}
use mt.Errors.{
  Error, authorization_refused, is_authorization_refused, Result, ok, err, fail, verification,
  round_refused,
}
use mt.Models.{RoundWindow, PreflightSnapshot, PackagedArtifact, PublishReceipt}
use mt.Redaction.{Redactor, sanitize}
use mt.System.{missing, regular, json, Files, done, Sys, Host}
use mt.Coordinator.Round.{Profile}
use mt.Coordinator.Resolve.{bare_window, resolve_round, fallback_window}
use mt.Coordinator.Accept.{Accepted, resolve_round_sound}
use mt.State.{write, health_document, reserved, stamp, status_document}
use mt.State.Read.{read_status, read_health, unlink_pending}
use mt.State.Pending.{mark_submission_pending, read_submission_pending, clear_submission_pending}
use mt.State.Latch.{latch_authorization_refusal}
use mt.State.Agree.{write_agrees, status_document-reserved}
use mt.State.Durable.{pending_roundtrip}
use mt.Config.Validate.{expected_base_model}
use mt.Controller.Setup.{Backend}
use mt.Config.{Config}
use mt.Controller.Verify.{Outcome, verified, reverify}
use mt.Controller.Reconcile.{reconcile_pending}
use mt.Controller.Submit.{submit}
use mt.Controller.Cycle.{cycle, preflight}
use mt.Controller.ReadOnly.{writes, dry_run_writes_nothing, pending_writes_nothing}
use mt.Controller.Latched.{Refuses, cycle_latched}
use mt.Controller.Publish.{AllCovered, publish_marked}
use mt.Controller.Stops.{latch_stops}
use mt.Controller.Run.{turns, turn, exits}
use mt.Controller.Failure.{authorization_failure}
use mt.Controller.Refused.{IsWorking, authorization_failure_latches}
use mt.Controller.Exits.{turns_exit_latched}
use mt.Controller.Proved.{IsDelivered, submit-IsDelivered}
use mt.Controller.Reconciled.{IsReconciled, reconcile-IsReconciled}

abbrev digits64 : String
digits64 = "0000000000000000000000000000000000000000000000000000000000000000"

-- An interpreter whose hash is constant and whose floats are whole numbers.
abbrev py : Python
py = record {
  float_of_int = λ n. none;
  float_of_text = λ s. none;
  int_of_float = λ f. none;
  int_of_text = λ s. none;
  float_eqb = eqb;
  float_ltb = λ a b. false;
  float_sub = λ a b. a;
  float_add = λ a b. a;
  float_is_finite = λ f. true;
  int_eqb_float = λ n f. false;
  int_leb_float = λ n f. false;
  int_ltb_float = λ n f. true;
  repr = λ v. "?";
  dumps = λ d. some "{}";
  sha256 = λ s. digits64;
}

abbrev redactor : Redactor
redactor = record { redact_text = λ s. s; safe_source = λ s. s }

-- The world counts the broadcasts; every write of a file succeeds.
abbrev host : Host ℕ
host = record {
  py = py;
  redactor = redactor;
  now = λ w. (ok 1000, w);
  utc_timestamp = λ t. "2026-01-01T00:00:00Z";
  class_name = λ e. "Error";
  pid = pos 7;
  effect = λ w. (done, w);
  stop_is_set = λ w. (false, w);
  stop_wait = λ n w. (false, w);
  monitor_start = λ k w. w;
  monitor_stop = λ w. w;
}

abbrev config : Bool → Config
config dry = record {
  netuid = pos 92;
  network = "finney";
  endpoint = "";
  wallet_name = "you-cold";
  wallet_hotkey = "you-hot1";
  wallet_path = "/wallets";
  expected_uid = pos 32;
  upstream_home = "/upstream";
  state_dir = "/state";
  upstream_observer_status_path = "/observer/status.json";
  upstream_observer_max_age_seconds = pos 900;
  artifact_dir = "/artifact";
  artifact_competition_binding_path = "/binding.json";
  selfcheck_path = "/selfcheck.json";
  selfcheck_binding_path = "/selfcheck.binding.json";
  v030_activation_block = none;
  track = "extract";
  hardware_class = "mt-3g";
  source_template = "s3:bucket/{round}";
  github_token_file = none;
  entrypoint = "model.gguf";
  artifact_format = "gguf";
  quantization = "Q4_K_M";
  max_input_tokens = pos 512;
  tokenizer = "tokenizer.json";
  base_model = expected_base_model;
  coordinator_url = "https://coordinator.microtensor.cloud";
  allow_chain_schedule_fallback = true;
  require_anchored_coordinator = true;
  dry_run = dry;
  transaction_authorization = "";
  allow_unverified_upstream = false;
  poll_seconds = pos 30;
  retry_seconds = pos 30;
  deadline_margin_blocks = pos 10;
  verify_attempts = pos 5;
  verify_interval_seconds = pos 600;
  health_max_age_seconds = pos 180;
  coordinator_timeout_seconds = pos 10;
  log_level = "INFO";
  round_blocks = pos 21600;
  genesis_block = pos 0;
}

abbrev chain_window : RoundWindow
chain_window = bare_window (pos 1) (pos 100) (pos 200) (pos 300) "submissions" "chain" ""

abbrev snapshot : PreflightSnapshot
snapshot = record {
  hotkey = "hot";
  uid = pos 32;
  chain_head = pos 150;
  upstream_version = "0.1.14";
  upstream_commit = "abc";
}

abbrev artifact : PackagedArtifact
artifact = record {
  round_index = pos 1;
  source = "s3:bucket/1";
  hotkey = "hot";
  manifest_digest = "m";
  artifact_digest = "a";
  file_count = pos 1;
  total_bytes = pos 10;
  sealed = false;
}

abbrev on_chain : ℕ → Result String × ℕ
on_chain zero = (fail verification "no commitment", zero)
on_chain (suc n) = (ok "payload", suc n)

-- The chain has the commitment once it was broadcast, and the coordinator is down.
abbrev backend : Backend ℕ
backend = record {
  do_preflight = λ w. (ok snapshot, w);
  do_block = λ w. (ok (pos 150), w);
  do_chain_round = λ n w. (ok chain_window, w);
  do_verify_round_anchor = λ v w. (ok tt, w);
  do_validate_round = λ v w. (ok tt, w);
  do_assert_registered = λ w. (ok tt, w);
  do_validate_binding = λ w. (ok "a", w);
  do_load_local = λ w. (ok (some artifact), w);
  do_package = λ n s w. (ok artifact, w);
  do_upload = λ p w. (ok tt, w);
  do_validate_commitment = λ p w. (ok "payload", w);
  do_verify_source = λ p full w. (ok tt, w);
  do_verify_provenance = λ p n w. (ok tt, w);
  do_publish = λ p w. (ok (record { round_index = pos 1; payload = "payload" }), suc w);
  do_verify_on_chain = λ p w. on_chain w;
  do_close = λ w. (ok tt, w);
  fetch_round = λ w. (fail round_refused "coordinator is unavailable", w);
}

abbrev clean : Sys ℕ
clean = record {
  files = record {
    status = missing;
    health = missing;
    rank = missing;
    authorization = missing;
    pending = missing;
  };
  world = 0;
  events = [];
}

abbrev latched : Sys ℕ
latched = record clean { files = record clean.files { authorization = regular (json (str "?")) } }

abbrev print : String
print = "sha256:0000000000000000000000000000000000000000000000000000000000000000"

-- A marker of a submission that reached the chain.
abbrev pending_marker : Fields
pending_marker = field "schema_version" (int (pos 1)) (
    field "submission_pending" (Value.bool true) (
      field "round" (int (pos 1)) (
        field "source" (str "s3:bucket/1") (
          field "hotkey" (str "hot") (
            field "commitment_fingerprint" (str print)
              (field "provenance_block" (int (pos 150)) end))))))

abbrev interrupted : Sys ℕ
interrupted = record clean {
  files = record clean.files { pending = regular (json (dict pending_marker)) };
  world = 1;
}

no_marker : has "marker_invalid" end ≡ false
unfolding has
no_marker = refl

ok_reserved : reserved "ok" ≡ true
unfolding reserved contains
ok_reserved = refl

dry_run_writes_nothing_example :
    writes (cycle host backend (config true) snapshot clean).1.events ≡ writes []
dry_run_writes_nothing_example =
    dry_run_writes_nothing host backend (config true) snapshot clean refl

pending_writes_nothing_example :
    writes (cycle host backend (config false) snapshot interrupted).1.events ≡ writes []
pending_writes_nothing_example =
    pending_writes_nothing host backend (config false) snapshot interrupted λ e. cc

publish_marked_example : AllCovered host (cycle host backend (config false) snapshot clean).1.events
publish_marked_example = publish_marked host backend (config false) snapshot clean tt

abbrev source : String
source = "s3:bucket/1"

abbrev after_write : Result Fields × Sys ℕ
after_write = write host "waiting" true "m" none end none clean

abbrev after_mark : Result Fields × Sys ℕ
after_mark = mark_submission_pending host (pos 1) source "hot" print end none clean

abbrev after_latch : Result Fields × Sys ℕ
after_latch = latch_authorization_refusal host "refused" end none clean

abbrev after_submit : Result Outcome × Sys ℕ
after_submit = submit host backend (config false) snapshot chain_window (pos 150) source none clean

abbrev after_reverify : Result Outcome × Sys ℕ
after_reverify =
    reverify host backend (config false) snapshot chain_window (pos 150) source artifact interrupted

abbrev after_reconcile : Result Outcome × Sys ℕ
after_reconcile =
    reconcile_pending host backend (config false) snapshot chain_window (pos 150) source
      (some artifact) pending_marker interrupted

abbrev document : Result Fields → Fields
document (ok d) = d
document (err e) = end

abbrev window_or : Result RoundWindow → RoundWindow
window_or (ok w) = w
window_or (err e) = chain_window

abbrev payload : Fields
payload = field "phase" (str "submissions") (
    field "round" (int (pos 1)) (
      field "start_block" (int (pos 100)) (
        field "close_block" (int (pos 200)) (
          field "end_block" (int (pos 300)) (
            field "config_hash" (str print) (
              field "config"
                (dict (
                  field "competitions"
                    (list (cons (list (cons (str "text") (cons (str "cpu") nil))) nil))
                    (field "arenas" (dict (field "text/cpu" (dict end) end)) (
                      field "classes"
                        (dict (
                          field "cpu"
                            (dict (
                              field "max_size_bytes" (int (pos 10)) (
                                field "max_rss_bytes" (int (pos 20))
                                  (field "max_p95_ms" (int (pos 30)) end))))
                            end))
                        end))))
                end))))))

abbrev profile_v1 : Profile
profile_v1 = record {
  track = "text";
  hardware_class = "cpu";
  require_anchored = false;
  base_model = "";
  strict_v030 = false;
}

abbrev resolved : Result RoundWindow
resolved = resolve_round py profile_v1 false (pos 150) chain_window end (ok payload)

-- The runs above return, so the theorems about what was returned apply to them.
runs :
    (after_write ≡ (ok (document after_write.0), after_write.1))
    × (after_mark ≡ (ok (document after_mark.0), after_mark.1))
    × (after_latch ≡ (ok (document after_latch.0), after_latch.1))
    × (after_submit ≡ (ok verified, after_submit.1))
    × (after_reverify ≡ (ok verified, after_reverify.1))
    × (after_reconcile ≡ (ok verified, after_reconcile.1))
    × (resolved ≡ ok (window_or resolved))
unfolding mt.Base.contains mt.Base.hex_tag mt.Base.sorted_set mt.Base.same_texts mt.Base.show_int
    mt.Json.get mt.Json.has mt.Json.put mt.Json.update mt.Json.without mt.Json.of_texts
    mt.Json.texts mt.Errors.is_controller_error mt.Errors.is_round_refused
    mt.Errors.is_authorization_refused mt.Errors.is_artifact_binding mt.Errors.is_verification
    mt.Errors.◌>>=◌ mt.Errors.refuse_if mt.Errors.want mt.Models.accepts_submissions
    mt.Models.accepts_at mt.Models.public_dict mt.Models.complete mt.Models.proofs_dict
    mt.Redaction.is_secret mt.Redaction.is_source mt.Redaction.sanitize_text mt.Redaction.sanitize
    mt.Redaction.sanitize_items mt.Redaction.sanitize_fields mt.System.pure mt.System.raise
    mt.System.lift mt.System.gets mt.System.outside mt.System.call mt.System.◌>>=◌ mt.System.attempt
    mt.System.reraise mt.System.raise_if mt.State.reserved mt.State.stamp mt.State.status_document
    mt.State.health_document mt.State.write mt.State.mark_verified mt.State.heartbeat
    mt.State.Read.read mt.State.Read.read_marker mt.State.Read.valid_fingerprint mt.State.Read.time
    mt.State.Read.settle mt.State.Read.replace_or mt.State.Read.replace mt.State.Read.write_status
    mt.State.Read.write_health mt.State.Read.write_authorization mt.State.Read.write_pending
    mt.State.Read.unlink_pending mt.State.Read.read_status mt.State.Read.read_health
    mt.State.Pending.well_formed mt.State.Pending.read_pending_file
    mt.State.Pending.read_submission_pending mt.State.Pending.pending_document
    mt.State.Pending.mark_submission_pending mt.State.Pending.clear_submission_pending
    mt.State.Latch.well_formed mt.State.Latch.read_refusal_file
    mt.State.Latch.read_authorization_refusal mt.State.Latch.refusal_document
    mt.State.Latch.write_refusal mt.State.Latch.latch_authorization_refusal
    mt.Config.uses_signed_v030 mt.Config.upstream_release mt.Config.provenance_required
    mt.Controller.Setup.profile mt.Controller.Setup.transaction_authorization
    mt.Controller.Setup.static_details mt.Controller.Setup.coordinator_window_details
    mt.Controller.Setup.round_details mt.Controller.Setup.backend_preflight
    mt.Controller.Setup.backend_block mt.Controller.Setup.backend_chain_round
    mt.Controller.Setup.backend_verify_round_anchor mt.Controller.Setup.backend_validate_round
    mt.Controller.Setup.backend_assert_registered mt.Controller.Setup.backend_validate_binding
    mt.Controller.Setup.backend_load_local mt.Controller.Setup.backend_package
    mt.Controller.Setup.backend_upload mt.Controller.Setup.backend_validate_commitment
    mt.Controller.Setup.backend_verify_source mt.Controller.Setup.backend_verify_provenance
    mt.Controller.Setup.backend_publish mt.Controller.Setup.backend_verify_on_chain
    mt.Controller.Rounds.same_round mt.Controller.Rounds.fetched mt.Controller.Rounds.check_round
    mt.Controller.Rounds.remember_round mt.Controller.Rounds.resolve
    mt.Controller.Rounds.refresh_same_round mt.Controller.Rounds.assert_deadline
    mt.Controller.Local.fingerprint mt.Controller.Local.local_matches
    mt.Controller.Local.is_public_dict mt.Controller.Local.proofs_hold
    mt.Controller.Local.proofs_valid_for mt.Controller.Local.verification_due
    mt.Controller.Verify.mark_complete mt.Controller.Verify.reverify
    mt.Controller.Reconcile.acceptable mt.Controller.Reconcile.pending_fields
    mt.Controller.Reconcile.read_fields mt.Controller.Reconcile.matching_local
    mt.Controller.Reconcile.or_refuse mt.Controller.Reconcile.reconcile_pending
    mt.Controller.Submit.assert_binding mt.Controller.Submit.select_packaged
    mt.Controller.Submit.remote_ready mt.Controller.Submit.upload_artifact
    mt.Controller.Submit.check_broadcast mt.Controller.Submit.broadcast
    mt.Controller.Submit.mark_pending mt.Controller.Submit.publish_commitment
    mt.Controller.Submit.committed_payload mt.Controller.Submit.submit
    mt.Controller.Cycle.raise_latched mt.Controller.Cycle.read_refusal mt.Controller.Cycle.reason_of
    mt.Controller.Cycle.authorization_latch_reason mt.Controller.Cycle.assert_not_latched
    mt.Controller.Cycle.preflight mt.Controller.Cycle.dry_cycle mt.Controller.Cycle.wait_closed
    mt.Controller.Cycle.closed_cycle mt.Controller.Cycle.open_cycle mt.Controller.Cycle.live_cycle
    mt.Controller.Cycle.round_cycle mt.Controller.Cycle.wait_activation mt.Controller.Cycle.cycle
    mt.Coordinator.Resolve.accepted_window mt.Coordinator.Resolve.validate_served_round
    mt.Coordinator.Resolve.resolve_round mt.Coordinator.Fields.strict_int
    mt.Coordinator.Fields.positive_int mt.Coordinator.Fields.canonical_hash
    mt.Coordinator.Fields.nested mt.Coordinator.Fields.opens mt.Coordinator.Round.check_bounds
    mt.Coordinator.Round.served_bounds mt.Coordinator.Round.served_config
    mt.Coordinator.Round.served_arena mt.Coordinator.Round.legacy_base_model
    mt.Coordinator.Round.profile_fields mt.Coordinator.Round.ceiling
    mt.Coordinator.History.rolled_back mt.Coordinator.History.same_window
    mt.Coordinator.History.same_identity mt.Coordinator.History.check_phase
    mt.Coordinator.History.check_observed mt.Coordinator.History.check_history
runs = (refl, refl, refl, refl, refl, refl, refl)

write_agrees_example :
    (read_status host after_write.1 ≡ (ok (document after_write.0), after_write.1))
    × (read_health host after_write.1
        ≡ (ok (health_document host (document after_write.0)), after_write.1))
write_agrees_example =
    write_agrees host "waiting" true "m" none end none clean after_write.1 (document after_write.0)
      runs.0

latch_stops_example :
    Refuses (preflight host backend (config false)) after_latch.1
    × Refuses (cycle host backend (config false) snapshot) after_latch.1
latch_stops_example =
    latch_stops host backend (config false) snapshot "refused" end none clean after_latch.1
      (document after_latch.0) runs.2

pending_roundtrip_example :
    (read_submission_pending host after_mark.1 ≡ (ok (document after_mark.0), after_mark.1))
    × (clear_submission_pending host print after_mark.1 ≡ unlink_pending host after_mark.1)
pending_roundtrip_example =
    pending_roundtrip host (pos 1) source "hot" print end none clean after_mark.1
      (document after_mark.0)
      (record { source_stays = refl; hotkey_stays = refl; print_stays = refl }) no_marker runs.1

submit-IsDelivered_example :
    IsDelivered host backend chain_window source snapshot.hotkey none after_submit.1
submit-IsDelivered_example =
    submit-IsDelivered host backend (config false) snapshot chain_window (pos 150) source none clean
      after_submit.1 verified refl runs.3

reconcile-IsReconciled_example :
    IsReconciled host backend chain_window source snapshot.hotkey
      (some artifact)
      (pos 150)
      pending_marker
      after_reconcile.1
reconcile-IsReconciled_example =
    reconcile-IsReconciled host backend (config false) snapshot chain_window (pos 150) source
      (some artifact) pending_marker interrupted after_reconcile.1 verified refl runs.5

resolve_round_sound_example :
    ((d : Fields) × (ok payload ≡ ok d)
      × Accepted py profile_v1 (pos 150) end d (window_or resolved))
    ⊎ ((false ≡ false)
        × (false ≡ true)
        × (window_or resolved ≡ fallback_window (pos 150) chain_window))
resolve_round_sound_example =
    resolve_round_sound py profile_v1 false (pos 150) chain_window end (ok payload) runs.6

status_document-reserved_example :
    get "ok" (status_document host "waiting" true "m" 5 (field "ok" (Value.bool false) end) end)
    ≡ sanitize py redactor "ok" (get "ok" (stamp host "waiting" true "m" 5))
status_document-reserved_example =
    status_document-reserved host "waiting" true "m" 5 (field "ok" (Value.bool false) end) end "ok"
      ok_reserved

working : IsWorking host
working = record { clock = λ w. (1000, refl); disk = λ w. refl }

abbrev refusal : Error
refusal = record { kind = authorization_refused; text = "the fee is not zero" }

refusal_known : is_authorization_refused authorization_refused ≡ true
unfolding is_authorization_refused
refusal_known = refl

already_refused : Refuses (cycle host backend (config false) snapshot) latched
already_refused = cycle_latched host latched (λ e. cc) backend (config false) snapshot

authorization_failure_latches_example :
    (t : Sys ℕ) × (authorization_failure host (config false) refusal clean ≡ (ok tt, t))
    × Refuses (preflight host backend (config false)) t
    × Refuses (cycle host backend (config false) snapshot) t
authorization_failure_latches_example =
    authorization_failure_latches host working backend (config false) snapshot refusal clean

turns_exit_latched_example :
    (t : Sys ℕ) × (turns host backend (config false) false 1 snapshot latched
      ≡ (ok (some (pos 3)), t))
    × Refuses (preflight host backend (config false)) t
    × Refuses (cycle host backend (config false) snapshot) t
turns_exit_latched_example =
    turns_exit_latched host backend (config false) snapshot false 0 latched latched
      (record { kind = authorization_refused; text = already_refused.0 }) working refl refusal_known
      already_refused.1
