-- ===== src/Models.antt =====
-- models.py: the immutable values that the controller, the coordinator and the backend share.
use mt.Base.{ℕ, String, Bool, false, ◌&&◌, ℤ, ◌-ℤ◌, int_ltb, int_leb, ◌==◌}
use mt.Json.{bool, int, float, str, Fields, end, field}

pub record RoundWindow : Type 0 where
  pub index : ℤ
  pub start_block : ℤ
  pub close_block : ℤ
  pub end_block : ℤ
  pub phase : String
  pub source : String
  pub config_hash : String
  pub seed_block : ℤ
  pub block_hash : String
  pub max_size_bytes : ℤ
  pub max_rss_bytes : ℤ
  pub max_p95_ms : ℤ
  pub mechanism_version : String
  pub corpus_version : String
  pub corpus_digest : String
  pub metric : String
  pub emission_share : ℕ
  pub cpu_seconds_per_artifact : ℤ
  pub tasks_per_round : ℤ
  pub environment_digest : String

unfoldable pub accepts_submissions : RoundWindow → Bool
accepts_submissions w = w.phase == "submissions"

unfoldable pub accepts_at : RoundWindow → ℤ → ℤ → Bool
unfolding accepts_submissions
accepts_at w block margin_blocks =
    accepts_submissions w
    && int_leb w.start_block block
    && int_ltb block (w.close_block -ℤ margin_blocks)

-- `RoundWindow.to_dict`
pub window_dict : RoundWindow → Fields
window_dict w = field "index" (int w.index) (
    field "start_block" (int w.start_block) (
      field "close_block" (int w.close_block) (
        field "end_block" (int w.end_block) (
          field "phase" (str w.phase) (
            field "source" (str w.source) (
              field "config_hash" (str w.config_hash) (
                field "seed_block" (int w.seed_block) (
                  field "block_hash" (str w.block_hash) (
                    field "max_size_bytes" (int w.max_size_bytes) (
                      field "max_rss_bytes" (int w.max_rss_bytes) (
                        field "max_p95_ms" (int w.max_p95_ms) (
                          field "mechanism_version" (str w.mechanism_version) (
                            field "corpus_version" (str w.corpus_version) (
                              field "corpus_digest" (str w.corpus_digest) (
                                field "metric" (str w.metric) (
                                  field "emission_share" (float w.emission_share) (
                                    field "cpu_seconds_per_artifact"
                                      (int w.cpu_seconds_per_artifact)
                                      (field "tasks_per_round" (int w.tasks_per_round) (
                                        field "environment_digest" (str w.environment_digest)
                                          end)))))))))))))))))))

pub record PreflightSnapshot : Type 0 where
  pub hotkey : String
  pub uid : ℤ
  pub chain_head : ℤ
  pub upstream_version : String
  pub upstream_commit : String

-- `PreflightSnapshot.to_dict`
pub snapshot_dict : PreflightSnapshot → Fields
snapshot_dict s = field "hotkey" (str s.hotkey) (
    field "uid" (int s.uid) (
      field "chain_head" (int s.chain_head) (
        field "upstream_version" (str s.upstream_version)
          (field "upstream_commit" (str s.upstream_commit) end))))

-- `native`, the backend's own handle, takes no part in comparison or output.
pub record PackagedArtifact : Type 0 where
  pub round_index : ℤ
  pub source : String
  pub hotkey : String
  pub manifest_digest : String
  pub artifact_digest : String
  pub file_count : ℤ
  pub total_bytes : ℤ
  pub sealed : Bool

-- `PackagedArtifact.public_dict`
unfoldable pub public_dict : PackagedArtifact → Fields
public_dict p = field "round_index" (int p.round_index) (
    field "source" (str p.source) (
      field "hotkey" (str p.hotkey) (
        field "manifest_digest" (str p.manifest_digest) (
          field "artifact_digest" (str p.artifact_digest) (
            field "file_count" (int p.file_count)
              (field "total_bytes" (int p.total_bytes) (field "sealed" (bool p.sealed) end)))))))

pub record PublishReceipt : Type 0 where
  pub round_index : ℤ
  pub payload : String

pub record VerificationProofs : Type 0 where
  pub source : Bool
  pub provenance : Bool
  pub on_chain : Bool
  pub source_full : Bool

unfoldable pub complete : VerificationProofs → Bool
complete p = p.source && p.provenance && p.on_chain && p.source_full

-- `VerificationProofs.to_dict`
unfoldable pub proofs_dict : VerificationProofs → Fields
proofs_dict p = field "source" (bool p.source) (
    field "provenance" (bool p.provenance)
      (field "on_chain" (bool p.on_chain) (field "source_full" (bool p.source_full) end)))

-- `VerificationProofs(False, False, False, False)`
abbrev pub no_proofs : VerificationProofs
no_proofs = record { source = false; provenance = false; on_chain = false; source_full = false }
