-- ===== src/Tests/Signing/Composing.antt =====
-- The theorems about the controller over the chain's backend, at a signed round under evaluation.
mod Submitting
use mt.Base.{ℕ, zero, suc, ◌+◌, String, Bool, true, ◌≡◌, ◌↔◌, refl, Option, none, some, [], pos}
use mt.Json.{Value, str, int, float, list, dict, nil, cons, Fields, end, field}
use mt.Errors.{Result, ok, err}
use mt.Models.{RoundWindow}
use mt.System.{Sys}
use mt.Config.{uses_signed_v030}
use mt.Config.Validate.{expected_base_model}
use mt.Coordinator.Signed.{float_one}
use mt.Controller.Rounds.{resolve}
use mt.Controller.Run.{run}
use mt.Chain.Node.{Track}
use mt.Chain.Client.{Client, Declared, Selfcheck, values, verify_on_chain}
use mt.Chain.Backend.{Upstream, beside, microtensor}
use mt.Chain.Composed.{AllCostless, run-AllCostless}
use mt.Chain.Seen.{IsConfirmed, verify_on_chain-IsConfirmed}
use mt.Chain.Trusted.{IsTrusted, resolve-IsTrusted}
use mt.Tests.{host, print, snapshot, chain_window}
use mt.Tests.Signing.{live, hash, payload, given, node, session, unsigned, packed, upstream}

abbrev limits : Value
limits = dict (
    field "max_size_bytes" (int (pos 10))
      (field "max_rss_bytes" (int (pos 20)) (field "max_p95_ms" (int (pos 30)) end)))

abbrev arena : Fields
arena = field "allowed_base_models" (list (cons (str expected_base_model) nil)) (
    field "ceilings" limits (
      field "cpu_seconds_per_artifact" (int (pos 5)) (
        field "tasks_per_round" (int (pos 6))
          (field "environment_digest" (str "env:0000000000000000") end))))

abbrev rules : Fields
rules = field "metric" (str "execution_pass_rate") (field "emission_share" (float float_one) end)

abbrev trusted_config : Fields
trusted_config = field "version" (int (pos 1)) (
    field "mechanism_version" (str "0.3.0") (
      field "corpus_version" (str "2026.1") (
        field "tasks_per_round" (int (pos 6)) (
          field "tracks" (dict (field "extract" (dict rules) end)) (
            field "class_weights" (dict (field "mt-3g" (float float_one) end)) (
              field "classes" (dict (field "mt-3g" limits end)) (
                field "competitions"
                  (list (cons (list (cons (str "extract") (cons (str "mt-3g") nil))) nil))
                  (field "arenas" (dict (field "extract/mt-3g" (dict arena) end)) end))))))))

abbrev served : Fields
served = field "phase" (str "evaluation") (
    field "round" (int (pos 1)) (
      field "start_block" (int (pos 100)) (
        field "close_block" (int (pos 200)) (
          field "end_block" (int (pos 300)) (
            field "anchored" (Value.bool true) (
              field "seed_block" (int (pos 200)) (
                field "block_hash" (str hash) (
                  field "corpus_digest" (str print) (
                    field "config_hash" (str print)
                      (field "config" (dict trusted_config) end))))))))))

-- The commitment is there once a pause has passed.
abbrev committed : ℕ → Result String × ℕ
committed zero = (ok "", zero)
committed (suc w) = (ok payload, suc w)

abbrev client : Client ℕ
client = record {
  block = given (pos 250);
  round_for_block = λ b l g.
      given (record {
        index = pos 1;
        start_block = pos 100;
        close_block = pos 200;
        end_block = pos 299;
      });
  read_anchor = given (some (record { round_index = pos 1; config_hash = print }));
  block_hash = λ b. given hash;
  commitment = λ h. committed;
  sleep = λ t w. (ok tt, w + 1);
  close = given tt;
  selfcheck =
      given
        (values (record { size_bytes = pos 9; peak_rss_bytes = pos 19; p95_latency_ms = pos 29 }));
  artifact_total_bytes = given (pos 9);
  best_verdict = λ h a t c b m. given (record { admissible = true; reason = "" });
}

abbrev files : Upstream ℕ
files = record {
  session = λ w. session;
  without_client = λ w. w;
  preflight = given snapshot;
  validate_binding = given hash;
  load_local = given (some packed);
  package_round = λ b t. given packed;
  upload = λ p. given tt;
  verify_source = λ p full. given tt;
  fetch_round = given served;
}

verify_on_chain-IsConfirmed_example :
    ((verify_on_chain client session live upstream packed unsigned).0 ≡ ok payload)
    ↔ IsConfirmed client session live upstream packed payload 0
verify_on_chain-IsConfirmed_example =
    verify_on_chain-IsConfirmed client session live upstream packed payload unsigned

-- The second read gives the commitment.
confirms_second : (verify_on_chain client session live upstream packed unsigned).0 ≡ ok payload
unfolding mt.Chain.Client.verify_on_chain mt.Chain.Client.poll mt.Chain.Client.pause
    mt.Chain.Node.ask mt.System.lift mt.System.outside mt.System.pure mt.System.raise_if
    mt.System.◌>>=◌
confirms_second = refl

abbrev outcome : Result RoundWindow × Sys (Track ℕ)
outcome =
    resolve (beside host) (microtensor node client upstream files live) live (pos 250) unsigned

abbrev window_or : Result RoundWindow → RoundWindow
window_or (ok w) = w
window_or (err e) = chain_window

abbrev window : RoundWindow
window = window_or outcome.0

resolves : outcome ≡ (ok window, outcome.1)
unfolding mt.Base.contains mt.Base.hex_tag mt.Base.sorted_set mt.Base.same_texts mt.Base.show_int
    mt.Json.get mt.Json.has mt.Json.put mt.Json.update mt.Json.without mt.Json.of_texts
    mt.Json.texts mt.Errors.is_controller_error mt.Errors.is_round_refused
    mt.Errors.is_authorization_refused mt.Errors.is_artifact_binding mt.Errors.is_verification
    mt.Errors.◌>>=◌ mt.Errors.refuse_if mt.Errors.want mt.Redaction.is_secret mt.Redaction.is_source
    mt.Redaction.sanitize_text mt.Redaction.sanitize mt.Redaction.sanitize_items
    mt.Redaction.sanitize_fields mt.System.pure mt.System.raise mt.System.lift mt.System.gets
    mt.System.outside mt.System.call mt.System.◌>>=◌ mt.System.attempt mt.System.reraise
    mt.System.raise_if mt.State.reserved mt.State.stamp mt.State.status_document
    mt.State.health_document mt.State.write mt.State.Read.read mt.State.Read.time
    mt.State.Read.settle mt.State.Read.replace_or mt.State.Read.replace mt.State.Read.write_status
    mt.State.Read.write_health mt.State.Read.read_status mt.State.Read.read_health
    mt.Config.uses_signed_v030 mt.Config.upstream_release mt.Config.provenance_required
    mt.Controller.Setup.profile mt.Controller.Setup.coordinator_window_details
    mt.Controller.Setup.backend_chain_round mt.Controller.Setup.backend_verify_round_anchor
    mt.Controller.Setup.backend_validate_round mt.Controller.Rounds.fetched
    mt.Controller.Rounds.check_round mt.Controller.Rounds.remember_round
    mt.Controller.Rounds.resolve mt.Coordinator.Resolve.accepted_window
    mt.Coordinator.Resolve.validate_served_round mt.Coordinator.Resolve.resolve_round
    mt.Coordinator.Fields.strict_int mt.Coordinator.Fields.positive_int
    mt.Coordinator.Fields.canonical_hash mt.Coordinator.Fields.nested mt.Coordinator.Fields.opens
    mt.Coordinator.Round.check_bounds mt.Coordinator.Round.served_bounds
    mt.Coordinator.Round.served_config mt.Coordinator.Round.served_arena
    mt.Coordinator.Round.profile_fields mt.Coordinator.Round.ceiling
    mt.Coordinator.History.rolled_back mt.Coordinator.History.same_window
    mt.Coordinator.History.same_identity mt.Coordinator.History.check_phase
    mt.Coordinator.History.check_observed mt.Coordinator.History.check_history
    mt.Coordinator.Signed.unit_number mt.Coordinator.Signed.canonical_allowlist
    mt.Coordinator.Signed.check_base_model mt.Coordinator.Signed.check_seed
    mt.Coordinator.Signed.check_versions mt.Coordinator.Signed.check_classes
    mt.Coordinator.Signed.track_rules mt.Coordinator.Signed.check_metric
    mt.Coordinator.Signed.validate_signed_config mt.Chain.Backend.beside
    mt.Chain.Backend.microtensor mt.Chain.Backend.on_outer mt.Chain.Backend.as_method
    mt.Chain.Client.chain_round mt.Chain.Client.verify_round_anchor mt.Chain.Client.check_anchor
    mt.Chain.Client.verify_seed_hash mt.Chain.Client.check_seed mt.Chain.Client.validate_round
    mt.Chain.Client.declared mt.Chain.Client.check_declared mt.Chain.Client.check_ceiling
    mt.Chain.Node.ask
resolves = refl

signed : uses_signed_v030 live ≡ true
unfolding uses_signed_v030
signed = refl

resolve-IsTrusted_example : IsTrusted host node client upstream files live (pos 250) unsigned window
resolve-IsTrusted_example =
    resolve-IsTrusted host node client upstream files live signed (pos 250) unsigned outcome.1
      window resolves
