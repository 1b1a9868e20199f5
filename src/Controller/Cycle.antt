-- ===== src/Controller/Cycle.antt =====
-- controller.py: `preflight`, `cycle` and the authorization latch that both read first.
use mt.Base.{
  String, ◌<>◌, Bool, true, false, not, ◌&&◌, Option, none, some, List, [], ◌∷◌, ℤ, ◌==◌, show_int,
  if◌then◌else◌,
}
use mt.Json.{
  Value, int, str, list, dict, Fields, end, field, get, update, is_end, is_true, of_texts,
}
use mt.Errors.{authorization_refused}
use mt.Models.{
  RoundWindow, PreflightSnapshot, PackagedArtifact, accepts_at, snapshot_dict, no_proofs,
  proofs_dict,
}
use mt.System.{M, Host, pure, raise, attempt, lift, outside, ◌>>=◌, ◌>>◌}
use mt.State.Read.{read_status}
use mt.State.Pending.{read_submission_pending}
use mt.State.Latch.{read_authorization_refusal}
use mt.State.{write, heartbeat}
use mt.Config.Source.{source_for}
use mt.Controller.Setup.{
  Backend, static_details, round_details, backend_preflight, backend_block,
  backend_assert_registered, backend_load_local,
}
use mt.Config.{Config}
use mt.Controller.Rounds.{below_activation, activation_text, resolve}
use mt.Controller.Local.{local_matches, proofs_valid_for, verification_due}
use mt.Controller.Verify.{Outcome, verified, waiting, dry_run, reverify}
use mt.Controller.Reconcile.{reconcile_pending}
use mt.Controller.Submit.{submit}

-- The reason that a marker states, or a default.
abbrev pub reason_or : String → Value → String
reason_or default (str s) = if s == "" then default else s
reason_or default _ = default

abbrev pub status_reason : Fields → Option String
status_reason previous =
    if is_true (get "authorization_latched" previous)
    then some (
        reason_or "legacy authorization latch requires operator review"
          (get "authorization_reason" previous))
    else none

abbrev pub marker_reason : Fields → String
marker_reason marker =
    reason_or "authorization refusal marker is invalid; operator review is required"
      (get "authorization_reason" marker)

abbrev planned_actions : List String
planned_actions =
    "package unsealed round-specific manifest" ∷ "upload artifact and manifest"
    ∷ "download and hash full remote artifact" ∷ "satisfy the signed upstream provenance policy"
    ∷ "estimate 0-rao fee and confirm 0-rao commitment deposits"
    ∷ "publish one direct Commitments.set_commitment with the hotkey"
    ∷ "read exact commitment back from chain" ∷ []

unfoldable pub raise_latched : {W : Type 0} → Option String → M W (Unit {0})
raise_latched none = pure tt
raise_latched (some text) =
    raise authorization_refused ("transaction authorization remains latched: " <> text)

module _ {W : Type 0} (h : Host W) where
  -- The marker, or nothing where it could not be checked.
  unfoldable pub read_refusal : M W (Option Fields)
  read_refusal =
      attempt (do marker ← read_authorization_refusal h; pure (some marker)) (λ e. pure none)

  unfoldable pub reason_of : Option Fields → M W (Option String)
  reason_of none =
      pure (some "authorization refusal marker could not be checked; operator review is required")
  reason_of (some marker) =
      if is_end marker
      then (do previous ← read_status h; pure (status_reason previous))
      else pure (some (marker_reason marker))

  -- `_authorization_latch_reason`
  unfoldable pub authorization_latch_reason : M W (Option String)
  unfolding read_refusal reason_of
  authorization_latch_reason = do marker ← read_refusal; reason_of marker

  -- Nothing is done while an authorization refusal is latched.
  unfoldable pub assert_not_latched : M W (Unit {0})
  assert_not_latched = do reason ← authorization_latch_reason; raise_latched reason

module _ {W : Type 0} (h : Host W) (b : Backend W) (c : Config) where
  unfoldable pub preflight : M W PreflightSnapshot
  preflight = do
    assert_not_latched h
    write h "preflight" false
        "validating pinned runtime, artifact, wallet, UID, and live competition" none
        (static_details c) none
    snapshot ← backend_preflight b
    write h "ready" false "preflight passed; no round has been fully verified yet" none
        (update (static_details c) (field "preflight" (dict (snapshot_dict snapshot)) end)) none
    pure snapshot

  -- A dry run plans the round and writes nothing outside the state directory.
  unfoldable pub dry_cycle : RoundWindow → ℤ → Fields → M W Outcome
  dry_cycle w head common =
      if not (accepts_at w head c.deadline_margin_blocks)
      then (do
        write h "waiting" false
            ("round " <> show_int w.index <> " is outside the safe submission window") none common
            none
        pure waiting)
      else (do
        write h "dry_run" false
            ("dry-run plan is valid for round "
              <> show_int w.index
              <> "; no package, upload, signature, or chain write was attempted")
            none (update common (field "planned_actions" (list (of_texts planned_actions)) end))
            none
        pure dry_run)

  unfoldable pub wait_closed : RoundWindow → Bool → Fields → M W Outcome
  wait_closed w proofs_valid common = do
    write h "waiting" proofs_valid
        ("round "
          <> show_int w.index
          <> " is outside the safe submission window; "
          <> (if proofs_valid
              then "matching commitment remains verified"
              else "no verified commitment"))
        none common none
    pure waiting

  -- Outside the window nothing is submitted; a matching artifact may be verified again.
  unfoldable pub closed_cycle :
      PreflightSnapshot
      → RoundWindow
      → ℤ
      → String
      → Fields
      → Fields
      → Option PackagedArtifact
      → Bool
      → M W Outcome
  unfolding wait_closed
  closed_cycle snapshot w head source common previous none proofs_valid =
      wait_closed w proofs_valid common
  closed_cycle snapshot w head source common previous (some local) proofs_valid = do
    due ← if proofs_valid then verification_due h c previous else pure true
    if due then reverify h b c snapshot w head source local else wait_closed w proofs_valid common

  -- Inside the window: nothing to do, proofs to refresh, or a submission.
  unfoldable pub open_cycle :
      PreflightSnapshot
      → RoundWindow
      → ℤ
      → String
      → Fields
      → Option PackagedArtifact
      → Bool
      → M W Outcome
  open_cycle snapshot w head source previous local false = submit h b c snapshot w head source local
  open_cycle snapshot w head source previous none true = submit h b c snapshot w head source none
  open_cycle snapshot w head source previous (some local) true = do
    due ← if is_true (get "ok" previous) then verification_due h c previous else pure true
    if due
        then reverify h b c snapshot w head source local
        else (do now ← outside h.now; heartbeat h (some now); pure verified)

  -- The local artifact, if it is the one of this round.
  abbrev pub matching : Option PackagedArtifact → Bool → Option PackagedArtifact
  matching local true = local
  matching local false = none

  unfoldable pub live_cycle :
      PreflightSnapshot → RoundWindow → ℤ → String → Fields → Fields → M W Outcome
  live_cycle snapshot w head source common previous = do
    local ← backend_load_local b
    let matches = local_matches local w.index source snapshot.hotkey
    let proofs_valid =
        matches && proofs_valid_for h.py previous w.index source snapshot.hotkey local
    if not (accepts_at w head c.deadline_margin_blocks)
        then closed_cycle snapshot w head source common previous (matching local matches)
            proofs_valid
        else open_cycle snapshot w head source previous local proofs_valid

  unfoldable pub round_cycle : PreflightSnapshot → ℤ → M W Outcome
  round_cycle snapshot head = do
    w ← resolve h b c head
    source ← lift (source_for c w.index snapshot.hotkey)
    let common = round_details c snapshot w head source
    previous ← read_status h
    pending ← read_submission_pending h
    if not (is_end pending)
        then (do
          local ← backend_load_local b
          reconcile_pending h b c snapshot w head source local pending)
        else if c.dry_run
        then dry_cycle w head common
        else live_cycle snapshot w head source common previous

  unfoldable pub wait_activation : PreflightSnapshot → ℤ → M W Outcome
  wait_activation snapshot head = do
    write h "waiting" false
        ("signed v0.3 activation is blocked until chain height "
          <> activation_text c.v030_activation_block
          <> "; current head is "
          <> show_int head)
        none
        (update (static_details c) (
          field "preflight" (dict (snapshot_dict snapshot))
            (field "chain_head" (int head) (field "proofs" (dict (proofs_dict no_proofs)) end))))
        none
    pure waiting

  unfoldable pub cycle : PreflightSnapshot → M W Outcome
  cycle snapshot = do
    assert_not_latched h
    backend_assert_registered b
    head ← backend_block b
    if below_activation c.v030_activation_block head
        then wait_activation snapshot head
        else round_cycle snapshot head
