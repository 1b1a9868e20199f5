-- ===== src/Controller/Verify.antt =====
-- controller.py: `_verified` and `_reverify`.
use mt.Base.{String, Bool, true, false, not, none, some, ℤ}
use mt.Json.{str, dict, Fields, end, field, update}
use mt.Errors.{verification}
use mt.Models.{
  RoundWindow, PreflightSnapshot, PackagedArtifact, VerificationProofs, complete, proofs_dict,
  public_dict,
}
use mt.System.{M, Host, pure, outside, raise_if, ◌>>=◌, ◌>>◌}
use mt.State.{write, mark_verified}
use mt.Controller.Setup.{
  Backend, round_details, backend_assert_registered, backend_verify_source,
  backend_verify_provenance, backend_verify_on_chain,
}
use mt.Config.{Config}
use mt.Controller.Local.{fingerprint}

-- What a cycle returns.
pub data Outcome : Type 0 where
  verified waiting dry_run : Outcome

abbrev pub proofs_of : Bool → VerificationProofs
proofs_of source_full = record {
  source = true;
  provenance = true;
  on_chain = true;
  source_full = source_full;
}

module _ {W : Type 0} (h : Host W) (b : Backend W) (c : Config) where
  unfoldable pub mark_complete :
      RoundWindow → PackagedArtifact → String → Fields → Bool → String → M W Outcome
  mark_complete w packaged payload common source_full message = do
    raise_if (not (complete (proofs_of source_full))) verification
        "internal proof set is incomplete"
    let details = update common (
        field "artifact" (dict (public_dict packaged)) (
          field "proofs" (dict (proofs_dict (proofs_of source_full)))
            (field "commitment_fingerprint" (str (fingerprint h.py payload)) end)))
    now ← outside h.now
    mark_verified h w.index message details (some now)
    pure verified

  unfoldable pub reverify :
      PreflightSnapshot → RoundWindow → ℤ → String → PackagedArtifact → M W Outcome
  reverify snapshot w head source packaged = do
    backend_assert_registered b
    let common = round_details c snapshot w head source
    write h "reverifying" false "refreshing remote manifest, provenance policy, and on-chain proof"
        none (update common (field "artifact" (dict (public_dict packaged)) end)) none
    backend_verify_source b packaged true
    backend_verify_provenance b packaged w.close_block
    payload ← backend_verify_on_chain b packaged
    mark_complete w packaged payload common true
        "periodic source, provenance policy, and on-chain verification passed"
