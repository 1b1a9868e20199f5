-- ===== src/Chain/Client.antt =====
-- backend.py: the methods that read the chain, the round and the selfcheck: `block`, `chain_round`,
-- `verify_round_anchor` with `_verify_v030_seed_hash`, `_declared`, `validate_round`,
-- `verify_provenance`, `verify_on_chain` and `close`.
use mt.Base.{
  ℕ, zero, suc, String, ◌<>◌, Bool, not, ◌||◌, ◌&&◌, Option, none, some, ℤ, pos, ◌+ℤ◌, pos_part,
  int_ltb, int_leb, int_eqb, show_int, ◌==◌, hex_tag, if◌then◌else◌,
}
use mt.Errors.{preflight, verification, Result}
use mt.System.{pure, raise, raise_if, lift, attempt, outside, ◌>>=◌, ◌>>◌}
use mt.Models.{RoundWindow, PackagedArtifact}
use mt.Config.{Config, uses_signed_v030, provenance_required}
use mt.Chain.Node.{Node, Session, C, ask}
use mt.Chain.Publish.{Package}

-- `Round` and `Anchor` of the subnet's package, and the verdict on the public runs.
pub record Found : Type 0 where
  pub index : ℤ
  pub start_block : ℤ
  pub close_block : ℤ
  pub end_block : ℤ

pub record Anchor : Type 0 where
  pub round_index : ℤ
  pub config_hash : String

pub record Verdict : Type 0 where
  pub admissible : Bool
  pub reason : String

-- `DeclaredEnvelope`
pub record Declared : Type 0 where
  pub size_bytes : ℤ
  pub peak_rss_bytes : ℤ
  pub p95_latency_ms : ℤ

-- How the reading of the selfcheck's three integers ends, where no other exception escapes: the
-- values, or the text of an exception that the handler names.
pub data Selfcheck : Type 0 where
  values : Declared → Selfcheck
  invalid : String → Selfcheck

-- The chain client and the subnet's package, the clock, the selfcheck on disk and the bytes of the
-- binding. `commitment` is `str(commitments([hotkey]).get(hotkey, ""))`.
pub record Client (W : Type 0) : Type 0 where
  pub block : W → Result ℤ × W
  pub round_for_block : ℤ → ℤ → ℤ → W → Result Found × W
  pub read_anchor : W → Result (Option Anchor) × W
  pub block_hash : ℤ → W → Result String × W
  pub commitment : String → W → Result String × W
  pub sleep : ℤ → W → Result (Unit {0}) × W
  pub close : W → Result (Unit {0}) × W
  pub selfcheck : W → Result Selfcheck × W
  pub artifact_total_bytes : W → Result ℤ × W
  pub best_verdict : String → String → String → String → ℤ → String → W → Result Verdict × W

abbrev no_client : String
no_client = "chain client has not passed preflight"

module _ {W : Type 0} (v : Client W) (k : Session) where
  -- `block`
  unfoldable pub block : C W ℤ
  block = do raise_if (not k.has_client) preflight no_client; ask v.block

  -- `close`, whose client is gone before it is closed.
  unfoldable pub close : (W → W) → C W (Unit {0})
  close without_client = do
    outside λ w. (Result.ok tt, record w { outer = without_client w.outer })
    if k.has_client then attempt (ask v.close) (λ e. pure tt) else pure tt

module _ {W : Type 0} (v : Client W) (c : Config) where
  -- `chain_round`
  unfoldable pub chain_round : ℤ → C W RoundWindow
  chain_round b = do
    found ← ask (v.round_for_block b c.round_blocks c.genesis_block)
    pure (record {
      index = found.index;
      start_block = found.start_block;
      close_block = found.close_block;
      end_block = found.end_block +ℤ pos 1;
      phase = if int_ltb b found.close_block then "submissions" else "evaluation";
      source = "chain";
      config_hash = "";
      seed_block = pos 0;
      block_hash = "";
      max_size_bytes = pos 0;
      max_rss_bytes = pos 0;
      max_p95_ms = pos 0;
      mechanism_version = "";
      corpus_version = "";
      corpus_digest = "";
      metric = "";
      emission_share = 0;
      cpu_seconds_per_artifact = pos 0;
      tasks_per_round = pos 0;
      environment_digest = "";
    })

  -- `_declared`
  unfoldable pub check_declared : Selfcheck → C W Declared
  check_declared (invalid text) = raise preflight ("selfcheck is invalid: " <> text)
  check_declared (values d) = do
    raise_if
        (int_leb d.size_bytes (pos 0)
          || int_leb d.peak_rss_bytes (pos 0)
          || int_leb d.p95_latency_ms (pos 0))
        preflight "selfcheck values must all be positive"
    pure d

  unfoldable pub declared : C W Declared
  declared = do found ← ask v.selfcheck; check_declared found

  -- One of the three checks of `validate_round`.
  unfoldable pub check_ceiling : String → ℤ → ℤ → C W (Unit {0})
  check_ceiling label value ceiling =
      raise_if (not (int_leb ceiling (pos 0)) && int_ltb ceiling value) verification (
        "selfcheck "
        <> (label
            <> (" "
                <> (show_int value <> (" exceeds anchored round ceiling " <> show_int ceiling)))))

  -- `validate_round`
  unfoldable pub validate_round : RoundWindow → C W (Unit {0})
  validate_round w = do
    d ← declared
    check_ceiling "size" d.size_bytes w.max_size_bytes
    check_ceiling "peak RSS" d.peak_rss_bytes w.max_rss_bytes
    check_ceiling "p95 latency" d.p95_latency_ms w.max_p95_ms
    total ← ask v.artifact_total_bytes
    raise_if (int_ltb (pos 0) w.max_size_bytes && int_ltb w.max_size_bytes total) verification
        "actual publishable artifact bytes exceed the anchored round size ceiling"

module _ {W : Type 0} (n : Node W) (v : Client W) (k : Session) (c : Config) where
  -- The hash of the seed block, where the round is evaluated.
  unfoldable pub check_seed : RoundWindow → C W (Unit {0})
  check_seed w = do
    raise_if (not (w.phase == "evaluation") || not (hex_tag "0x" 64 w.block_hash)) verification
        "evaluation phase has no canonical seed block hash"
    raise_if (not k.has_client) preflight no_client
    answer ← attempt (ask (v.block_hash w.seed_block)) λ e. raise verification (
        "could not independently read seed block "
        <> (show_int w.seed_block <> (" from chain: " <> e.text)))
    raise_if (not (hex_tag "0x" 64 (n.lower answer)) || not (n.lower answer == w.block_hash))
        verification "served evaluation seed hash does not match the independent chain block hash"

  -- `_verify_v030_seed_hash`
  unfoldable pub verify_seed_hash : RoundWindow → C W (Unit {0})
  verify_seed_hash w = if not (uses_signed_v030 c) then pure tt else (do
    raise_if (not (int_eqb w.seed_block w.close_block)) verification
        "served round seed block differs from its close block"
    (if w.phase == "submissions"
        then raise_if (not (w.block_hash == "")) verification
            "submission phase disclosed a future seed block hash"
        else check_seed w))

  -- The anchor that was read against the served round.
  unfoldable pub check_anchor : RoundWindow → Option Anchor → C W (Unit {0})
  check_anchor w none =
      raise verification "the coordinator has no independently readable chain anchor"
  check_anchor w (some a) = do
    raise_if (not (int_eqb a.round_index w.index)) verification (
        "chain anchor is for round "
        <> (show_int a.round_index <> (", not served round " <> show_int w.index)))
    raise_if (not (a.config_hash == w.config_hash)) verification
        "served coordinator config hash does not match the independent chain anchor"

  -- `verify_round_anchor`
  unfoldable pub verify_round_anchor : RoundWindow → C W (Unit {0})
  verify_round_anchor w = if not (w.source == "coordinator") then pure tt else (do
    raise_if (not k.has_client) preflight no_client
    anchor ← attempt (ask v.read_anchor) λ e.
        raise verification
          ("could not independently read the coordinator anchor from chain: " <> e.text)
    check_anchor w anchor
    verify_seed_hash w)

module _ {W : Type 0} (v : Client W) (k : Session) (c : Config) where
  -- `verify_provenance`
  unfoldable pub verify_provenance : PackagedArtifact → ℤ → C W (Unit {0})
  verify_provenance a b = if uses_signed_v030 c && not (provenance_required c) then pure tt else (do
    verdict ←
        attempt
          (do
            hotkey ← lift k.hotkey
            ask (v.best_verdict hotkey a.artifact_digest c.track c.hardware_class b c.base_model))
          λ e. raise verification ("provenance verification failed: " <> e.text)
    raise_if (not verdict.admissible) verification ("provenance rejected: " <> verdict.reason))

  -- The pause before the next attempt; there is none behind the last.
  unfoldable pub pause : ℕ → C W (Unit {0})
  pause zero = pure tt
  pause (suc left) = ask (v.sleep (pos 12))

  -- The loop of `verify_on_chain`, with the number of attempts that are left.
  unfoldable pub poll : String → ℕ → C W String
  poll expected zero =
      raise verification
        "on-chain readback did not exactly match the signed round/source/digest commitment"
  poll expected (suc left) = do
    hotkey ← lift k.hotkey
    observed ← ask (v.commitment hotkey)
    (if observed == expected then pure expected else (do pause left; poll expected left))

  -- `verify_on_chain`
  unfoldable pub verify_on_chain : Package W → PackagedArtifact → C W String
  verify_on_chain u a = do
    raise_if (not k.has_client) preflight no_client
    expected ← ask (u.validate_commitment a)
    poll expected (pos_part c.verify_attempts)
