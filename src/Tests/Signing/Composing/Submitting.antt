-- ===== src/Tests/Signing/Composing/Submitting.antt =====
-- A whole run of the controller over the chain's backend that submits a commitment.
use mt.Base.{ℕ, zero, suc, ◌+◌, String, true, ◌≡◌, refl, Option, none, some, List, ◌∷◌, pos, ℤ}
use mt.Json.{Value, str, int, field, Fields, update, end}
use mt.Errors.{Result, ok}
use mt.Models.{PackagedArtifact}
use mt.System.{Sys}
use mt.Controller.Run.{run}
use mt.Chain.Node.{Track, Step, submitted}
use mt.Chain.Checks.{authorized_hotkey}
use mt.Chain.Client.{Client}
use mt.Chain.Backend.{Upstream, beside, microtensor}
use mt.Chain.Composed.{AllCostless, run-AllCostless}
use mt.Tests.{host, snapshot, print}
use mt.Tests.Signing.{live, given, node, unsigned, packed, upstream}
use mt.Tests.Signing.Composing.{client, files, trusted_config}

-- The same round while submissions are open.
abbrev open_round : Fields
open_round = field "phase" (str "submissions") (
    field "round" (int (pos 1)) (
      field "start_block" (int (pos 100)) (
        field "close_block" (int (pos 200)) (
          field "end_block" (int (pos 300)) (
            field "anchored" (Value.bool true) (
              field "seed_block" (int (pos 200)) (
                field "block_hash" (str "") (
                  field "corpus_digest" (str print) (
                    field "config_hash" (str print)
                      (field "config" (Value.dict trusted_config) end))))))))))

abbrev package_one : PackagedArtifact
package_one = record packed {
  round_index = pos 1;
  source = "https:github.com/vandungtech/mt92/releases/download/round-1";
}

abbrev reader : Client ℕ
reader = record client { block = given (pos 150); sleep = λ t. given tt }

abbrev releases : Upstream ℕ
releases = record files {
  preflight = given (record snapshot { hotkey = authorized_hotkey });
  load_local = given none;
  package_round = λ b t. given package_one;
  fetch_round = given open_round;
}

abbrev after_run : Result (Option ℤ) × Sys (Track ℕ)
after_run = run (beside host) (microtensor node reader upstream releases live) live true 3 unsigned

abbrev submissions : List Step → ℕ
submissions List.[] = 0
submissions (submitted x r ∷ l) = submissions l + 1
submissions (_ ∷ l) = submissions l

submits_one : (after_run.0 ≡ ok (some (pos 0))) × (submissions after_run.1.world.steps ≡ 1)
unfolding mt.Base.after mt.Base.any_char mt.Base.before mt.Base.contains mt.Base.ends_with_lower
    mt.Base.eq_lower mt.Base.has_char mt.Base.has_text mt.Base.hex_tag mt.Base.is_space
    mt.Base.lower_code mt.Base.same_texts mt.Base.show_int mt.Base.sorted_set mt.Base.split_at
    mt.Chain.Backend.as_method mt.Chain.Backend.beside mt.Chain.Backend.microtensor
    mt.Chain.Backend.on_outer mt.Chain.Checks.check_live mt.Chain.Checks.check_runtime
    mt.Chain.Checks.code_result mt.Chain.Checks.code_text mt.Chain.Checks.is_authorized_place
    mt.Chain.Client.block mt.Chain.Client.chain_round mt.Chain.Client.check_anchor
    mt.Chain.Client.check_ceiling mt.Chain.Client.check_declared mt.Chain.Client.check_seed
    mt.Chain.Client.close mt.Chain.Client.declared mt.Chain.Client.pause mt.Chain.Client.poll
    mt.Chain.Client.validate_round mt.Chain.Client.verify_on_chain mt.Chain.Client.verify_provenance
    mt.Chain.Client.verify_round_anchor mt.Chain.Client.verify_seed_hash mt.Chain.Envelope.call_args
    mt.Chain.Envelope.check_asset mt.Chain.Envelope.check_envelope mt.Chain.Envelope.expected_call
    mt.Chain.Envelope.shaped mt.Chain.Fee.check_era mt.Chain.Fee.check_fee mt.Chain.Fee.check_signer
    mt.Chain.Fee.fee_of mt.Chain.Node.ask mt.Chain.Node.else_refused mt.Chain.Node.instead
    mt.Chain.Node.or_refused mt.Chain.Node.step mt.Chain.Objects.all_in
    mt.Chain.Objects.authorization_integer mt.Chain.Objects.has_keys mt.Chain.Objects.item
    mt.Chain.Objects.keys mt.Chain.Objects.lookup mt.Chain.Objects.raw_of mt.Chain.Objects.same
    mt.Chain.Objects.size mt.Chain.Policy.assert_live mt.Chain.Policy.assert_registered
    mt.Chain.Policy.assert_registration mt.Chain.Policy.authorized_chain_head
    mt.Chain.Policy.check_place mt.Chain.Policy.gate_refused mt.Chain.Policy.identity_read
    mt.Chain.Policy.observe_gate mt.Chain.Publish.check_packaged mt.Chain.Publish.publish
    mt.Chain.Quote.check_call mt.Chain.Quote.check_deposits mt.Chain.Quote.composed
    mt.Chain.Quote.deposit mt.Chain.Quote.estimate mt.Chain.Quote.first_estimate
    mt.Chain.Quote.inspect mt.Chain.Quote.read_index mt.Chain.Submit.admitted
    mt.Chain.Submit.check_receipt mt.Chain.Submit.receipt_charge mt.Chain.Submit.recheck
    mt.Chain.Submit.refresh mt.Chain.Submit.sign mt.Chain.Submit.submit
    mt.Chain.Submit.submit_authorized_commitment mt.Chain.Submit.unchanged mt.Config.Source.any_dots
    mt.Config.Source.check_bucket mt.Config.Source.check_release mt.Config.Source.check_source
    mt.Config.Source.coordinates_of mt.Config.Source.github_release_coordinates
    mt.Config.Source.is_bucket mt.Config.Source.is_owner mt.Config.Source.is_repo
    mt.Config.Source.is_tag mt.Config.Source.slug mt.Config.Source.source_coordinates
    mt.Config.Source.source_for mt.Config.Source.tail_of mt.Config.Template.format
    mt.Config.Template.pieces mt.Config.Template.render mt.Config.provenance_required
    mt.Config.upstream_release mt.Config.uses_signed_v030 mt.Controller.Cycle.assert_not_latched
    mt.Controller.Cycle.authorization_latch_reason mt.Controller.Cycle.closed_cycle
    mt.Controller.Cycle.cycle mt.Controller.Cycle.dry_cycle mt.Controller.Cycle.live_cycle
    mt.Controller.Cycle.open_cycle mt.Controller.Cycle.preflight mt.Controller.Cycle.raise_latched
    mt.Controller.Cycle.read_refusal mt.Controller.Cycle.reason_of mt.Controller.Cycle.round_cycle
    mt.Controller.Cycle.wait_activation mt.Controller.Cycle.wait_closed
    mt.Controller.Local.fingerprint mt.Controller.Local.is_public_dict
    mt.Controller.Local.local_matches mt.Controller.Local.proofs_hold
    mt.Controller.Local.proofs_valid_for mt.Controller.Local.verification_due
    mt.Controller.Reconcile.acceptable mt.Controller.Reconcile.matching_local
    mt.Controller.Reconcile.or_refuse mt.Controller.Reconcile.pending_fields
    mt.Controller.Reconcile.read_fields mt.Controller.Reconcile.reconcile_pending
    mt.Controller.Rounds.assert_deadline mt.Controller.Rounds.check_round
    mt.Controller.Rounds.fetched mt.Controller.Rounds.refresh_same_round
    mt.Controller.Rounds.remember_round mt.Controller.Rounds.resolve mt.Controller.Rounds.same_round
    mt.Controller.Run.after_turn mt.Controller.Run.finally mt.Controller.Run.round
    mt.Controller.Run.run mt.Controller.Run.run_failed mt.Controller.Run.start
    mt.Controller.Run.started mt.Controller.Run.stopped_cleanly mt.Controller.Run.try_failed
    mt.Controller.Run.try_preflight mt.Controller.Run.turn mt.Controller.Run.turn_failed
    mt.Controller.Run.turns mt.Controller.Setup.backend_assert_registered
    mt.Controller.Setup.backend_block mt.Controller.Setup.backend_chain_round
    mt.Controller.Setup.backend_close mt.Controller.Setup.backend_load_local
    mt.Controller.Setup.backend_package mt.Controller.Setup.backend_preflight
    mt.Controller.Setup.backend_publish mt.Controller.Setup.backend_upload
    mt.Controller.Setup.backend_validate_binding mt.Controller.Setup.backend_validate_commitment
    mt.Controller.Setup.backend_validate_round mt.Controller.Setup.backend_verify_on_chain
    mt.Controller.Setup.backend_verify_provenance mt.Controller.Setup.backend_verify_round_anchor
    mt.Controller.Setup.backend_verify_source mt.Controller.Setup.coordinator_window_details
    mt.Controller.Setup.profile mt.Controller.Setup.round_details mt.Controller.Setup.static_details
    mt.Controller.Setup.transaction_authorization mt.Controller.Submit.assert_binding
    mt.Controller.Submit.broadcast mt.Controller.Submit.check_broadcast
    mt.Controller.Submit.committed_payload mt.Controller.Submit.mark_pending
    mt.Controller.Submit.publish_commitment mt.Controller.Submit.remote_ready
    mt.Controller.Submit.select_packaged mt.Controller.Submit.submit
    mt.Controller.Submit.upload_artifact mt.Controller.Verify.mark_complete
    mt.Controller.Verify.reverify mt.Coordinator.Fields.canonical_hash mt.Coordinator.Fields.nested
    mt.Coordinator.Fields.opens mt.Coordinator.Fields.positive_int mt.Coordinator.Fields.strict_int
    mt.Coordinator.History.check_history mt.Coordinator.History.check_observed
    mt.Coordinator.History.check_phase mt.Coordinator.History.rolled_back
    mt.Coordinator.History.same_identity mt.Coordinator.History.same_window
    mt.Coordinator.Resolve.accepted_window mt.Coordinator.Resolve.resolve_round
    mt.Coordinator.Resolve.validate_served_round mt.Coordinator.Round.ceiling
    mt.Coordinator.Round.check_bounds mt.Coordinator.Round.legacy_base_model
    mt.Coordinator.Round.profile_fields mt.Coordinator.Round.served_arena
    mt.Coordinator.Round.served_bounds mt.Coordinator.Round.served_config
    mt.Coordinator.Signed.canonical_allowlist mt.Coordinator.Signed.check_base_model
    mt.Coordinator.Signed.check_classes mt.Coordinator.Signed.check_metric
    mt.Coordinator.Signed.check_seed mt.Coordinator.Signed.check_versions
    mt.Coordinator.Signed.track_rules mt.Coordinator.Signed.unit_number
    mt.Coordinator.Signed.validate_signed_config mt.Errors.is_artifact_binding
    mt.Errors.is_authorization_refused mt.Errors.is_controller_error mt.Errors.is_round_refused
    mt.Errors.is_verification mt.Errors.refuse_if mt.Errors.want mt.Errors.◌>>=◌ mt.Json.get
    mt.Json.has mt.Json.of_texts mt.Json.put mt.Json.texts mt.Json.update mt.Json.without
    mt.Models.accepts_at mt.Models.accepts_submissions mt.Models.complete mt.Models.proofs_dict
    mt.Models.public_dict mt.Redaction.is_secret mt.Redaction.is_source mt.Redaction.sanitize
    mt.Redaction.sanitize_fields mt.Redaction.sanitize_items mt.Redaction.sanitize_text
    mt.State.Latch.latch_authorization_refusal mt.State.Latch.read_authorization_refusal
    mt.State.Latch.read_refusal_file mt.State.Latch.refusal_document mt.State.Latch.well_formed
    mt.State.Latch.write_refusal mt.State.Pending.clear_submission_pending
    mt.State.Pending.mark_submission_pending mt.State.Pending.pending_document
    mt.State.Pending.read_pending_file mt.State.Pending.read_submission_pending
    mt.State.Pending.well_formed mt.State.Read.read mt.State.Read.read_health
    mt.State.Read.read_marker mt.State.Read.read_status mt.State.Read.replace
    mt.State.Read.replace_or mt.State.Read.settle mt.State.Read.time mt.State.Read.unlink_pending
    mt.State.Read.valid_fingerprint mt.State.Read.write_authorization mt.State.Read.write_health
    mt.State.Read.write_pending mt.State.Read.write_status mt.State.health_document
    mt.State.heartbeat mt.State.mark_verified mt.State.reserved mt.State.stamp
    mt.State.status_document mt.State.write mt.System.attempt mt.System.call mt.System.gets
    mt.System.lift mt.System.observe mt.System.outside mt.System.pure mt.System.raise
    mt.System.raise_if mt.System.reraise mt.System.◌>>=◌
submits_one = (refl, refl)

run-AllCostless_example : AllCostless node.equals after_run.1.world.steps
run-AllCostless_example = run-AllCostless host node reader upstream releases live true 3 unsigned tt
