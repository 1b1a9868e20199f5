-- ===== src/Controller/Setup.antt =====
-- The backend and the documents that controller.py writes.
use mt.Base.{String, ◌<>◌, Bool, false, Option, none, some, ℤ, pos, ◌==◌, if◌then◌else◌}
use mt.Json.{Value, null, bool, int, str, dict, Fields, end, field, update}
use mt.Errors.{Result}
use mt.Models.{
  RoundWindow, PreflightSnapshot, PackagedArtifact, PublishReceipt, snapshot_dict, window_dict,
}
use mt.Config.{Config, uses_signed_v030, upstream_release, provenance_required}
use mt.Coordinator.Round.{Profile}
use mt.System.{
  M, call, preflight, block, chain_round, verify_round_anchor, validate_round, assert_registered,
  validate_artifact_competition_binding, load_local, close, package_round, upload,
  validate_commitment, publish, verify_on_chain, verify_source, verify_provenance,
}

-- The `Backend` protocol over a world, and the fetcher of the coordinator's round.
pub record Backend (W : Type 0) : Type 0 where
  pub do_preflight : W → Result PreflightSnapshot × W
  pub do_block : W → Result ℤ × W
  pub do_chain_round : ℤ → W → Result RoundWindow × W
  pub do_verify_round_anchor : RoundWindow → W → Result (Unit {0}) × W
  pub do_validate_round : RoundWindow → W → Result (Unit {0}) × W
  pub do_assert_registered : W → Result (Unit {0}) × W
  pub do_validate_binding : W → Result String × W
  pub do_load_local : W → Result (Option PackagedArtifact) × W
  pub do_package : ℤ → String → W → Result PackagedArtifact × W
  pub do_upload : PackagedArtifact → W → Result (Unit {0}) × W
  pub do_validate_commitment : PackagedArtifact → W → Result String × W
  pub do_verify_source : PackagedArtifact → Bool → W → Result (Unit {0}) × W
  pub do_verify_provenance : PackagedArtifact → ℤ → W → Result (Unit {0}) × W
  pub do_publish : PackagedArtifact → W → Result PublishReceipt × W
  pub do_verify_on_chain : PackagedArtifact → W → Result String × W
  pub do_close : W → Result (Unit {0}) × W
  pub fetch_round : W → Result Fields × W

unfoldable pub profile : Config → Profile
unfolding uses_signed_v030
profile c = record {
  track = c.track;
  hardware_class = c.hardware_class;
  require_anchored = c.require_anchored_coordinator;
  base_model = c.base_model;
  strict_v030 = uses_signed_v030 c;
}

optional_int : Option ℤ → Value
optional_int none = null
optional_int (some n) = int n

-- The fixed statement of what a transaction may do.
unfoldable pub transaction_authorization : Fields
transaction_authorization = field "call" (str "Commitments.set_commitment") (
    field "netuid" (int (pos 92)) (
      field "uid" (int (pos 32)) (
        field "wallet_hotkey" (str "you-hot1") (
          field "authorized_max_fee_rao" (int (pos 0)) (
            field "authorized_max_deposit_rao" (int (pos 0)) (
              field "fee_and_deposit_check" (str "performed immediately before signing")
                (field "tip_rao" (int (pos 0)) (field "mev_protection" (bool false) end))))))))

-- `_static_details`
unfoldable pub static_details : Config → Fields
unfolding transaction_authorization optional_int uses_signed_v030 upstream_release
    provenance_required
static_details c = field "dry_run" (bool c.dry_run) (
    field "netuid" (int c.netuid) (
      field "network" (str c.network) (
        field "expected_uid" (int c.expected_uid) (
          field "wallet_name" (str c.wallet_name) (
            field "wallet_hotkey" (str c.wallet_hotkey) (
              field "competition" (str (c.track <> "/" <> c.hardware_class)) (
                field "protocol_profile"
                  (str (if uses_signed_v030 c then "signed-v0.3" else "legacy-v0.1.14"))
                  (field "upstream_release" (str (upstream_release c)) (
                    field "provenance_required" (bool (provenance_required c)) (
                      field "v030_activation_block" (optional_int c.v030_activation_block) (
                        field "source" null (
                          field "source_template" (str c.source_template) (
                            field "transaction_authorization" (dict transaction_authorization)
                              end)))))))))))))

-- `_coordinator_window_details`
unfoldable pub coordinator_window_details : RoundWindow → Fields
coordinator_window_details w =
    if w.mechanism_version == ""
    then field "start_block" (int w.start_block) (
        field "close_block" (int w.close_block)
          (field "end_block" (int w.end_block) (field "config_hash" (str w.config_hash) end)))
    else field "round" (int w.index) (
        field "start_block" (int w.start_block) (
          field "seed_block" (int w.seed_block) (
            field "close_block" (int w.close_block) (
              field "end_block" (int w.end_block) (
                field "phase" (str w.phase) (
                  field "block_hash" (str w.block_hash) (
                    field "config_hash" (str w.config_hash) (
                      field "mechanism_version" (str w.mechanism_version) (
                        field "corpus_version" (str w.corpus_version)
                          (field "corpus_digest" (str w.corpus_digest) end))))))))))

-- `_round_details`
unfoldable pub round_details : Config → PreflightSnapshot → RoundWindow → ℤ → String → Fields
unfolding static_details coordinator_window_details
round_details c snapshot w head source =
    let details = update (static_details c) (
      field "preflight" (dict (snapshot_dict snapshot)) (
        field "round" (int w.index) (
          field "chain_head" (int head)
            (field "round_window" (dict (window_dict w)) (field "source" (str source) end))))) in
    if w.source == "coordinator"
    then update details (
        field "last_coordinator_round" (int w.index)
          (field "last_coordinator_window" (dict (coordinator_window_details w)) end))
    else details

-- The backend's methods as actions of the controller, each noted as it is called.
module _ {W : Type 0} (b : Backend W) where
  unfoldable pub backend_preflight : M W PreflightSnapshot
  backend_preflight = call preflight b.do_preflight

  unfoldable pub backend_block : M W ℤ
  backend_block = call block b.do_block

  unfoldable pub backend_chain_round : ℤ → M W RoundWindow
  backend_chain_round head = call chain_round (b.do_chain_round head)

  unfoldable pub backend_verify_round_anchor : RoundWindow → M W (Unit {0})
  backend_verify_round_anchor w = call verify_round_anchor (b.do_verify_round_anchor w)

  unfoldable pub backend_validate_round : RoundWindow → M W (Unit {0})
  backend_validate_round w = call validate_round (b.do_validate_round w)

  unfoldable pub backend_assert_registered : M W (Unit {0})
  backend_assert_registered = call assert_registered b.do_assert_registered

  unfoldable pub backend_validate_binding : M W String
  backend_validate_binding = call validate_artifact_competition_binding b.do_validate_binding

  unfoldable pub backend_load_local : M W (Option PackagedArtifact)
  backend_load_local = call load_local b.do_load_local

  unfoldable pub backend_package : ℤ → String → M W PackagedArtifact
  backend_package n source = call (package_round n source) (b.do_package n source)

  unfoldable pub backend_upload : PackagedArtifact → M W (Unit {0})
  backend_upload p = call (upload p) (b.do_upload p)

  unfoldable pub backend_validate_commitment : PackagedArtifact → M W String
  backend_validate_commitment p = call (validate_commitment p) (b.do_validate_commitment p)

  unfoldable pub backend_verify_source : PackagedArtifact → Bool → M W (Unit {0})
  backend_verify_source p full = call (verify_source p full) (b.do_verify_source p full)

  unfoldable pub backend_verify_provenance : PackagedArtifact → ℤ → M W (Unit {0})
  backend_verify_provenance p n = call (verify_provenance p n) (b.do_verify_provenance p n)

  unfoldable pub backend_publish : PackagedArtifact → M W PublishReceipt
  backend_publish p = call (publish p) (b.do_publish p)

  unfoldable pub backend_verify_on_chain : PackagedArtifact → M W String
  backend_verify_on_chain p = call (verify_on_chain p) (b.do_verify_on_chain p)

  unfoldable pub backend_close : M W (Unit {0})
  backend_close = call close b.do_close
