-- ===== src/Controller/Submit.antt =====
-- controller.py: `_submit`, in its stages.
use mt.Base.{
  String, Bool, true, false, not, Option, none, some, ℤ, int_eqb, ◌==◌, if◌then◌else◌, show_int,
  ◌<>◌,
}
use mt.Json.{int, str, dict, Fields, end, field, update}
use mt.Errors.{
  artifact_binding, authorization_refused, verification, is_artifact_binding,
  is_authorization_refused, is_verification,
}
use mt.Models.{RoundWindow, PreflightSnapshot, PackagedArtifact, public_dict}
use mt.System.{M, Host, pure, raise, reraise, attempt, outside, raise_if, ◌>>=◌, ◌>>◌}
use mt.State.Pending.{mark_submission_pending, clear_submission_pending}
use mt.State.{write}
use mt.Controller.Setup.{
  Backend, round_details, backend_assert_registered, backend_validate_binding, backend_package,
  backend_validate_commitment, backend_block, backend_verify_provenance, backend_verify_source,
  backend_upload, backend_verify_on_chain, backend_publish,
}
use mt.Config.{Config}
use mt.Controller.Local.{fingerprint, local_matches}
use mt.Controller.Rounds.{refresh_same_round, assert_deadline}
use mt.Controller.Verify.{Outcome, mark_complete}
use mt.Controller.Reconcile.{or_refuse}

abbrev binding_differs : String
binding_differs =
    "selected packaged artifact digest differs from the authorized artifact competition binding"

-- The local artifact, where it is the one of this round.
abbrev pub reusable : Option PackagedArtifact → Bool → Option PackagedArtifact
reusable local false = none
reusable local true = local

module _ {W : Type 0} (h : Host W) (b : Backend W) (c : Config) where
  -- `_assert_packaged_artifact_competition_binding`
  unfoldable pub assert_binding : PackagedArtifact → M W (Unit {0})
  assert_binding packaged = do
    bound ← backend_validate_binding b
    raise_if (not (packaged.artifact_digest == bound)) artifact_binding binding_differs

  -- The signed manifest of the round: the one that is there, or a fresh unsealed one.
  unfoldable pub select_packaged :
      RoundWindow → ℤ → String → Fields → Option PackagedArtifact → M W PackagedArtifact
  select_packaged w head source common (some packaged) = do
    write h "recovering" false "reusing a current signed manifest after restart/interruption" none
        (update common (field "artifact" (dict (public_dict packaged)) end)) none
    pure packaged
  select_packaged w head source common none = do
    assert_deadline h b c w head "package"
    write h "packaging" false ("signing an unsealed manifest for round " <> show_int w.index) none
        common none
    packaged ← backend_package b w.index source
    raise_if packaged.sealed verification "backend returned a sealed artifact"
    pure packaged

  -- The recovery probe: a failed proof means that the upload is due again.
  unfoldable pub remote_ready : Option PackagedArtifact → PackagedArtifact → Fields → M W Bool
  remote_ready none packaged details = pure false
  remote_ready (some _) packaged details = do
    write h "verifying_source" false
        "checking whether the complete exact remote artifact already exists" none details none
    attempt (do backend_verify_source b packaged true; pure true)
        λ e. if is_verification e.kind then pure false else reraise e

  unfoldable pub upload_artifact : RoundWindow → PackagedArtifact → Fields → M W (Unit {0})
  upload_artifact w packaged details = do
    fresh ← refresh_same_round h b c w
    assert_deadline h b c fresh.1 fresh.0 "upload"
    write h "uploading" false "uploading the round-specific artifact tree and manifest" none
        (update details (field "chain_head" (int fresh.0) end)) none
    assert_binding packaged
    backend_upload b packaged
    write h "verifying_source" false "fetching and hashing the complete remote artifact" none
        details none
    backend_verify_source b packaged true

  -- The last checks before the broadcast; the marker goes if one of them fails.
  unfoldable pub check_broadcast : RoundWindow → PackagedArtifact → String → M W (Unit {0})
  check_broadcast w packaged print =
      attempt
        (do
          fresh ← refresh_same_round h b c w
          assert_deadline h b c fresh.1 fresh.0 "publish"
          backend_assert_registered b
          assert_binding packaged)
        λ e. do
          or_refuse h b c (clear_submission_pending h print)
              "commitment was not submitted, but its pending marker could not be cleared"
          reraise e

  -- The broadcast and its readback. Only a refused binding proves that nothing was submitted.
  unfoldable pub broadcast : PackagedArtifact → String → Fields → M W String
  broadcast packaged print details =
      attempt
        (do
          receipt ← backend_publish b packaged
          raise_if (not (int_eqb receipt.round_index packaged.round_index)) authorization_refused
              "publish receipt names a different round; submission outcome is ambiguous"
          write h "verifying_on_chain" false "reading the exact commitment back from chain" none
              details none
          payload ← backend_verify_on_chain b packaged
          raise_if (not (fingerprint h.py payload == print)) authorization_refused
              "post-submission chain readback differs from the pending commitment"
          pure payload)
        λ e.
          if is_artifact_binding e.kind
          then (do
            or_refuse h b c (clear_submission_pending h print)
                "commitment was not submitted after artifact binding refusal, but its pending marker could not be cleared"
            reraise e)
          else if is_authorization_refused e.kind
          then reraise e
          else raise authorization_refused
              "submission outcome is ambiguous after publish began; operator review is required"

  -- The marker is durable before anything is broadcast.
  unfoldable pub mark_pending : PackagedArtifact → String → ℤ → M W Fields
  mark_pending packaged print provenance_block =
      or_refuse h b c
        (do
          now ← outside h.now
          mark_submission_pending h packaged.round_index packaged.source packaged.hotkey print
              (field "provenance_block" (int provenance_block) end) (some now))
        "commitment was not submitted because its durable pending marker could not be recorded"

  unfoldable pub publish_commitment :
      RoundWindow → PackagedArtifact → String → ℤ → Fields → M W String
  publish_commitment w packaged encoded provenance_block details = do
    fresh ← refresh_same_round h b c w
    assert_deadline h b c fresh.1 fresh.0 "publish"
    write h "publishing" false "submitting the signed commitment on chain" none
        (update details (field "chain_head" (int fresh.0) end)) none
    backend_assert_registered b
    let print = fingerprint h.py encoded
    mark_pending packaged print provenance_block
    check_broadcast w packaged print
    payload ← broadcast packaged print details
    or_refuse h b c (clear_submission_pending h print)
        "exact on-chain submission was verified but its pending marker could not be cleared"
    pure payload

  -- An exact commitment that is already on chain is never sent again.
  unfoldable pub committed_payload :
      RoundWindow → PackagedArtifact → String → ℤ → Fields → M W String
  committed_payload w packaged encoded provenance_block details =
      attempt (backend_verify_on_chain b packaged) λ e.
        if is_verification e.kind
        then publish_commitment w packaged encoded provenance_block details
        else reraise e

  unfoldable pub submit :
      PreflightSnapshot → RoundWindow → ℤ → String → Option PackagedArtifact → M W Outcome
  submit snapshot w head source local = do
    bound ← backend_validate_binding b
    backend_assert_registered b
    let common = round_details c snapshot w head source
    let old = reusable local (local_matches local w.index source snapshot.hotkey)
    packaged ← select_packaged w head source common old
    raise_if (not (packaged.artifact_digest == bound)) artifact_binding binding_differs
    let artifact_details = update common (field "artifact" (dict (public_dict packaged)) end)
    write h "validating_commitment" false
        "validating exact chain encoding before any external upload" none artifact_details none
    encoded ← backend_validate_commitment b packaged
    let details =
        update artifact_details
          (field "commitment_fingerprint" (str (fingerprint h.py encoded)) end)
    provenance_block ← backend_block b
    write h "verifying_provenance" false "checking the signed upstream provenance policy" none
        (update details (field "chain_head" (int provenance_block) end)) none
    backend_verify_provenance b packaged provenance_block
    ready ← remote_ready old packaged details
    if ready then pure tt else upload_artifact w packaged details
    payload ← committed_payload w packaged encoded provenance_block details
    mark_complete h b c w packaged payload common true
        "source, provenance policy, and exact on-chain commitment verified"
