-- ===== src/Controller/Rounds.antt =====
-- controller.py: `_resolve_round`, `_refresh_same_round`, `_assert_deadline`.
use mt.Base.{
  String, ◌<>◌, Bool, false, not, ◌&&◌, Option, none, some, ℤ, ◌-ℤ◌, int_eqb, int_ltb, ◌==◌,
  show_int, if◌then◌else◌,
}
use mt.Json.{int, dict, Fields, get, truthy, put}
use mt.Errors.{Result, ok, round_refused, is_verification}
use mt.Models.{RoundWindow, accepts_at}
use mt.Coordinator.Resolve.{resolve_round}
use mt.System.{M, Host, pure, raise, reraise, attempt, lift, raise_if, ◌>>=◌, ◌>>◌}
use mt.State.Read.{read_status}
use mt.State.{write, text_or}
use mt.Controller.Setup.{
  Backend, profile, coordinator_window_details, backend_block, backend_chain_round,
  backend_verify_round_anchor, backend_validate_round,
}
use mt.Config.{Config, uses_signed_v030}

-- The fields of a window that may not change while a submission is prepared.
unfoldable pub same_round : RoundWindow → RoundWindow → Bool
same_round v w =
    int_eqb v.index w.index
    && int_eqb v.start_block w.start_block
    && int_eqb v.seed_block w.seed_block
    && int_eqb v.close_block w.close_block
    && int_eqb v.end_block w.end_block
    && v.phase == w.phase
    && v.block_hash == w.block_hash
    && v.config_hash == w.config_hash
    && v.mechanism_version == w.mechanism_version
    && v.corpus_version == w.corpus_version
    && v.corpus_digest == w.corpus_digest

abbrev pub below_activation : Option ℤ → ℤ → Bool
below_activation none head = false
below_activation (some n) head = int_ltb head n

abbrev pub activation_text : Option ℤ → String
activation_text none = "None"
activation_text (some n) = show_int n

module _ {W : Type 0} (h : Host W) (b : Backend W) (c : Config) where
  -- What the fetcher returned or raised, as the value that `resolve_round` works on.
  unfoldable pub fetched : M W (Result Fields)
  fetched s = let (r, w) = b.fetch_round s.world in (ok r, record s { world = w })

  -- Both checks of the round by the backend; a failed proof refuses the round in the signed profile.
  unfoldable pub check_round : RoundWindow → M W (Unit {0})
  check_round w =
      attempt (do backend_verify_round_anchor b w; backend_validate_round b w)
        λ e.
          if is_verification e.kind && uses_signed_v030 c
          then raise round_refused ("trusted signed-v0.3 round is unavailable: " <> e.text)
          else reraise e

  -- The first accepted shape of a coordinator's round is remembered in the status document.
  unfoldable pub remember_round : RoundWindow → Fields → M W (Unit {0})
  remember_round w previous = do
    let seen =
        put "last_coordinator_window" (dict (coordinator_window_details w))
          (put "last_coordinator_round" (int w.index) previous)
    write h (text_or h "phase" "round_resolved" seen) (truthy h.py (get "ok" seen))
        (text_or h "message" "trusted coordinator round resolved" seen) none seen (some seen)
    pure tt

  unfoldable pub resolve : ℤ → M W RoundWindow
  unfolding fetched
  resolve head = do
    chain_round ← backend_chain_round b head
    previous ← read_status h
    served ← fetched
    w ← lift (
        resolve_round h.py (profile c) c.allow_chain_schedule_fallback head chain_round previous
          served)
    check_round w
    if w.source == "coordinator" then remember_round w previous else pure tt
    pure w

  unfoldable pub refresh_same_round : RoundWindow → M W (ℤ × RoundWindow)
  refresh_same_round expected = do
    head ← backend_block b
    raise_if (below_activation c.v030_activation_block head) round_refused (
        "signed v0.3 activation height "
        <> activation_text c.v030_activation_block
        <> " is above chain head "
        <> show_int head)
    observed ← resolve head
    raise_if (not (same_round observed expected)) round_refused
        "trusted round changed while preparing the submission"
    pure (head, observed)

  unfoldable pub assert_deadline : RoundWindow → ℤ → String → M W (Unit {0})
  assert_deadline w at action =
      raise_if (not (accepts_at w at c.deadline_margin_blocks)) round_refused (
        "refusing to "
        <> action
        <> " at block "
        <> show_int at
        <> "; safe cutoff is "
        <> show_int (w.close_block -ℤ c.deadline_margin_blocks))
