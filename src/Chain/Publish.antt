-- ===== src/Chain/Publish.antt =====
-- backend.py: `publish`, around the submission of the commitment.
use mt.Base.{String, not, ◌==◌}
use mt.Errors.{authorization_refused, Result}
use mt.System.{pure, raise_if, lift, ◌>>=◌, ◌>>◌}
use mt.Models.{PackagedArtifact, PublishReceipt}
use mt.Config.{Config}
use mt.Config.Source.{source_for, source_coordinates}
use mt.Chain.Checks.{is_authorized_place}
use mt.Chain.Node.{Node, Session, C, ask, or_refused}
use mt.Chain.Policy.{assert_live}
use mt.Chain.Submit.{submit_authorized_commitment}

-- The encoding of the commitment, by the subnet's own code, and the check of the artifact's binding.
pub record Package (W : Type 0) : Type 0 where
  pub validate_commitment : PackagedArtifact → W → Result String × W
  pub assert_binding : PackagedArtifact → W → Result (Unit {0}) × W

module _ {W : Type 0} (n : Node W) (k : Session) (c : Config) (v : Package W) where
  -- The source is the one of the round, in the authorized repository.
  unfoldable pub check_packaged : PackagedArtifact → C W (Unit {0})
  check_packaged a = do
    hotkey ← lift k.hotkey
    raise_if (not (a.hotkey == hotkey)) authorization_refused
        "packaged artifact is signed by a different hotkey"
    expected ←
        or_refused "packaged artifact source could not be proven: "
          (lift (source_for c a.round_index hotkey))
    raise_if (not (a.source == expected)) authorization_refused
        "packaged artifact source differs from the authorized round release"
    raise_if (not (is_authorized_place (source_coordinates a.source))) authorization_refused
        "packaged artifact is not in vandungtech/mt92"

  -- `publish`
  unfoldable pub publish : PackagedArtifact → C W PublishReceipt
  publish a = do
    assert_live n k c
    check_packaged a
    payload ← ask (v.validate_commitment a)
    ask (v.assert_binding a)
    submit_authorized_commitment n k c payload
    pure (record { round_index = a.round_index; payload = payload })
