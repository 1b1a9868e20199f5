-- ===== src/Chain/Receipt.antt =====
-- backend.py: what `publish` has done when it returns.
use mt.Base.{String, true, false, not, ◌≡◌, refl, sym, ap, ◌∙◌, not-false, ◌==◌, eq_iff}
use mt.Errors.{ok}
use mt.System.{Sys}
use mt.System.Rules.{Hoare, Any, Hoare-bind, Hoare-refuse, Hoare-pure, Hoare-returned_from}
use mt.Models.{PackagedArtifact, PublishReceipt}
use mt.Config.{Config}
use mt.Config.Source.{source_for, source_coordinates}
use mt.Chain.Checks.{is_authorized_place}
use mt.Chain.Node.{Node, Session, Track}
use mt.Chain.Publish.{Package, check_packaged, publish}
use mt.Chain.Rules.{
  Log, At, Hoare-quiet, Hoare-lift, Hoare-or_refused, Hoare-raise_if, Hoare-after, given, ask-Keeps,
  live-Keeps,
}
use mt.Chain.Confirmed.{IsSubmitted, tolerant, submission-Hoare}

module _ {W : Type 0} (n : Node W) (k : Session) (c : Config) where
  -- A package of the loaded hotkey, whose source is the one of its round, in the authorized
  -- repository.
  pub record IsPackaged (a : PackagedArtifact) : Type 0 where
    pub hotkey : k.hotkey ≡ ok a.hotkey
    pub source : source_for c a.round_index a.hotkey ≡ ok a.source
    pub place : is_authorized_place (source_coordinates a.source) ≡ true

  -- The receipt names the round, the package is the authorized one, and the submission on the record
  -- is that of the payload in the receipt.
  pub record IsPublished (a : PackagedArtifact) (base l : Log) (r : PublishReceipt) : Type 0 where
    pub round : r.round_index ≡ a.round_index
    pub packaged : IsPackaged a
    pub submitted : IsSubmitted n k c r.payload base l

  packaged :
      (a : PackagedArtifact) (h s : String)
      → k.hotkey ≡ ok h
      → not (a.hotkey == h) ≡ false
      → source_for c a.round_index h ≡ ok s
      → not (a.source == s) ≡ false
      → not (is_authorized_place (source_coordinates a.source)) ≡ false
      → IsPackaged a
  packaged a h s loaded signed expected named there =
      let signer = (eq_iff a.hotkey h).0 (not-false _ signed) in
      record {
        hotkey = loaded ∙ ap ok (sym signer);
        source =
            ap (λ x. source_for c a.round_index x) signer
            ∙ expected
            ∙ ap ok (sym ((eq_iff a.source s).0 (not-false _ named)));
        place = not-false _ there;
      }

  module _ (v : Package W) where
    IsPackaged-Hoare :
        (a : PackagedArtifact) (l : Log)
        → Hoare Any (At l) (check_packaged n k c v a) (λ _ s. IsPackaged a × At l s)
    unfolding check_packaged
    IsPackaged-Hoare a l = Hoare-bind (Hoare-lift k.hotkey) λ h. given λ loaded.
        Hoare-refuse _ _ _ λ signed.
          Hoare-bind (Hoare-or_refused _ (Hoare-lift (source_for c a.round_index h))) λ s.
            given λ expected. Hoare-refuse _ _ _ λ named.
              Hoare-after (λ _ t q. (packaged a h s loaded signed expected named q.0, q.1))
                (Hoare-raise_if _ _ _)

    publish-Hoare :
        (a : PackagedArtifact) (base : Log)
        → Hoare Any (At base) (publish n k c v a) (λ r t. IsPublished a base t.world.steps r)
    unfolding publish
    publish-Hoare a base =
        Hoare-bind (Hoare-quiet (tolerant n k c "") base λ J q. live-Keeps q n k c) λ _.
          Hoare-bind (IsPackaged-Hoare a base) λ _. given λ known.
            Hoare-bind (Hoare-quiet (tolerant n k c "") base λ J q. ask-Keeps q _) λ payload.
              Hoare-bind (Hoare-quiet (tolerant n k c "") base λ J q. ask-Keeps q _) λ _.
                Hoare-bind (submission-Hoare n k c payload base)
                  λ _. Hoare-pure _ λ s q. record { round = refl; packaged = known; submitted = q }

    -- When the publication of a package returns, the package is signed by the loaded hotkey, its
    -- source is the one of its round and lies in the authorized repository, and the steps that were
    -- made are one authorization and behind it one submission of the receipt's payload.
    pub publish-IsPublished :
        (a : PackagedArtifact) (s t : Sys (Track W)) (r : PublishReceipt)
        → publish n k c v a s ≡ (ok r, t)
        → IsPublished a s.world.steps t.world.steps r
    publish-IsPublished a s t r e = Hoare-returned_from (publish-Hoare a s.world.steps) refl e
