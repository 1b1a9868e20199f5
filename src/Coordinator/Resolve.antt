-- ===== src/Coordinator/Resolve.antt =====
-- coordinator.py: `validate_served_round` put together, and `resolve_round` with its fallback.
use mt.Base.{String, Bool, ◌&&◌, not, Option, none, some, ℤ, pos, int_ltb, if◌then◌else◌}
use mt.Json.{Fields, Python, get, is_true}
use mt.Errors.{Result, ok, err, refuse_if, round_refused, is_round_refused, ◌>>=◌, ◌>>◌}
use mt.Models.{RoundWindow}
use mt.Coordinator.Signed.{SignedFields}
use mt.Coordinator.Round.{
  Bounds, Served, Profile, served_bounds, served_config, served_arena, profile_fields, ceiling,
}
use mt.Coordinator.History.{check_history}

-- A window with the defaults of the dataclass.
abbrev pub bare_window : ℤ → ℤ → ℤ → ℤ → String → String → String → RoundWindow
bare_window index start close last phase source config_hash = record {
  index = index;
  start_block = start;
  close_block = close;
  end_block = last;
  phase = phase;
  source = source;
  config_hash = config_hash;
  seed_block = pos 0;
  block_hash = "";
  max_size_bytes = pos 0;
  max_rss_bytes = pos 0;
  max_p95_ms = pos 0;
  mechanism_version = "";
  corpus_version = "";
  corpus_digest = "";
  metric = "";
  emission_share = 0;
  cpu_seconds_per_artifact = pos 0;
  tasks_per_round = pos 0;
  environment_digest = "";
}

-- `RoundWindow(…, **v030)`
abbrev pub extend : RoundWindow → Option SignedFields → RoundWindow
extend w none = w
extend w (some v) = record w {
  seed_block = v.seed_block;
  block_hash = v.block_hash;
  mechanism_version = v.mechanism_version;
  corpus_version = v.corpus_version;
  corpus_digest = v.corpus_digest;
  metric = v.metric;
  emission_share = v.emission_share;
  cpu_seconds_per_artifact = v.cpu_seconds_per_artifact;
  tasks_per_round = v.tasks_per_round;
  environment_digest = v.environment_digest;
}

-- The window that is returned once every test has passed.
unfoldable pub accepted_window : Bounds → Served → ℤ → ℤ → ℤ → Option SignedFields → RoundWindow
accepted_window b served size rss p95 =
    extend
      (record (bare_window b.index b.start b.close b.end_block b.phase "coordinator"
        served.config_hash) { max_size_bytes = size; max_rss_bytes = rss; max_p95_ms = p95 })

unfoldable pub validate_served_round : Python → Profile → ℤ → Fields → Fields → Result RoundWindow
validate_served_round py p head previous payload = do
  b ← served_bounds py payload head
  refuse_if (p.require_anchored && not (is_true (get "anchored" payload))) round_refused
      "coordinator round is not anchored on chain"
  served ← served_config py payload
  arena ← served_arena p served.config
  v030 ← profile_fields py p payload served.config arena
  size ← ceiling p served.config arena "max_size_bytes"
  rss ← ceiling p served.config arena "max_rss_bytes"
  p95 ← ceiling p served.config arena "max_p95_ms"
  check_history py previous b served.config_hash v030
  ok (accepted_window b served size rss p95 v030)

-- The schedule of the chain in place of the coordinator's round.
abbrev pub fallback_window : ℤ → RoundWindow → RoundWindow
fallback_window head w =
    bare_window w.index w.start_block w.close_block w.end_block
      (if int_ltb head w.close_block then "submissions" else "evaluation") "chain-fallback" ""

-- `except RoundRefused`: only a refusal is caught, and only where the fallback is allowed.
abbrev pub recover : Bool → RoundWindow → Result RoundWindow → Result RoundWindow
recover allowed fallback (ok w) = ok w
recover allowed fallback (err e) = if is_round_refused e.kind && allowed then ok fallback else err e

-- `fetched` is what the fetcher returned or raised.
unfoldable pub resolve_round :
    Python → Profile → Bool → ℤ → RoundWindow → Fields → Result Fields → Result RoundWindow
resolve_round py p allow_chain_fallback head chain_round previous fetched =
    recover (not p.strict_v030 && allow_chain_fallback) (fallback_window head chain_round)
      (fetched >>= validate_served_round py p head previous)
