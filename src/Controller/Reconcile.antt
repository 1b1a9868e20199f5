-- ===== src/Controller/Reconcile.antt =====
-- controller.py: `_reconcile_pending`, the read-only way out of an uncertain submission.
use mt.Base.{
  String, Bool, true, false, not, ◌&&◌, ◌||◌, Option, none, some, ℤ, pos, int_eqb, int_ltb, ◌==◌,
  starts_with, if◌then◌else◌,
}
use mt.Json.{bool, str, dict, Fields, end, field, get, update, as_int, as_text, is_true}
use mt.Errors.{Result, ok, fail, authorization_refused}
use mt.Models.{RoundWindow, PreflightSnapshot, PackagedArtifact, public_dict}
use mt.System.{M, Host, raise, attempt, lift, raise_if, ◌>>=◌, ◌>>◌}
use mt.State.Pending.{clear_submission_pending}
use mt.State.{write}
use mt.Controller.Setup.{
  Backend, round_details, backend_assert_registered, backend_verify_source,
  backend_verify_provenance, backend_verify_on_chain, backend_validate_commitment,
}
use mt.Config.{Config}
use mt.Controller.Local.{fingerprint, local_matches}
use mt.Controller.Verify.{Outcome, mark_complete}

pub record PendingFields : Type 0 where
  pub round : ℤ
  pub source : String
  pub hotkey : String
  pub pending_fingerprint : String
  pub provenance_block : ℤ

abbrev pub gather :
    Option ℤ → Option String → Option String → Option String → Option ℤ → Option PendingFields
gather (some r) (some s) (some k) (some f) (some n) =
    some
      (record { round = r; source = s; hotkey = k; pending_fingerprint = f; provenance_block = n })
gather _ _ _ _ _ = none

unfoldable pub acceptable : PendingFields → ℤ → Bool
acceptable p head =
    not (p.source == "")
    && not (p.hotkey == "")
    && starts_with p.pending_fingerprint "sha256:"
    && not (int_ltb p.provenance_block (pos 0))
    && not (int_ltb head p.provenance_block)

unfoldable pub pending_fields : Fields → Option PendingFields
pending_fields m =
    gather (as_int (get "round" m)) (as_text (get "source" m)) (as_text (get "hotkey" m))
      (as_text (get "commitment_fingerprint" m)) (as_int (get "provenance_block" m))

abbrev pub invalid_fields : String
invalid_fields = "submission pending marker fields are invalid; operator review is required"

-- The fields of the marker, if all of them have their types and ranges.
unfoldable pub read_fields : Fields → ℤ → Result PendingFields
read_fields m head = elim (pending_fields m) [
  | none ↦ fail authorization_refused invalid_fields
  | some p ↦ if acceptable p head then ok p else fail authorization_refused invalid_fields
]

abbrev pub no_manifest : String
no_manifest = "submission pending marker has no matching local signed manifest"

unfoldable pub matching_local :
    Option PackagedArtifact → ℤ → String → String → Result PackagedArtifact
matching_local none round_index source hotkey = fail authorization_refused no_manifest
matching_local (some p) round_index source hotkey =
    if local_matches (some p) round_index source hotkey
    then ok p
    else fail authorization_refused no_manifest

module _ {W : Type 0} (h : Host W) (b : Backend W) (c : Config) where
  -- `try: m … except Exception: raise AuthorizationRefused(text)`
  unfoldable pub or_refuse : {A : Type 0} → M W A → String → M W A
  or_refuse m text = attempt m λ e. raise authorization_refused text

  unfoldable pub reconcile_pending :
      PreflightSnapshot → RoundWindow → ℤ → String → Option PackagedArtifact → Fields → M W Outcome
  reconcile_pending snapshot w head source local pending = do
    raise_if
        (is_true (get "marker_invalid" pending) || not (is_true (get "submission_pending" pending)))
        authorization_refused "submission pending marker is invalid; operator review is required"
    p ← lift (read_fields pending head)
    raise_if (not (int_eqb p.round w.index && p.source == source && p.hotkey == snapshot.hotkey))
        authorization_refused
        "submission pending marker does not match the current round, source, and hotkey"
    packaged ← lift (matching_local local w.index source snapshot.hotkey)
    encoded ←
        or_refuse (backend_validate_commitment b packaged)
          "pending commitment cannot be reconstructed exactly; operator review is required"
    let print = fingerprint h.py encoded
    raise_if (not (print == p.pending_fingerprint)) authorization_refused
        "pending marker fingerprint differs from the local signed commitment"
    let common = round_details c snapshot w head source
    write h "reconciling_submission" false
        "performing read-only reconciliation of an uncertain submission" none
        (update common (
          field "artifact" (dict (public_dict packaged)) (
            field "commitment_fingerprint" (str print)
              (field "submission_pending" (bool true) end))))
        none
    payload ←
        or_refuse (do backend_assert_registered b; backend_verify_on_chain b packaged)
          "pending submission is not proven exact on chain; operator review is required"
    raise_if (not (fingerprint h.py payload == print)) authorization_refused
        "on-chain readback differs from the pending commitment fingerprint"
    or_refuse
        (do
          backend_verify_source b packaged true
          backend_verify_provenance b packaged p.provenance_block)
        "pending submission proof bundle could not be reverified; operator review is required"
    or_refuse (clear_submission_pending h print)
        "exact on-chain submission was verified but its pending marker could not be cleared"
    mark_complete h b c w packaged payload common true
        "pending submission reconciled read-only; source, provenance policy, and exact on-chain commitment verified"
