-- ===== src/Controller/Proved.antt =====
-- controller.py: the backend's verifications in `_submit`.
use mt.Base.{
  String, Bool, true, false, ◌≡◌, refl, sym, subst, eq_iff, not-false, ◌⊎◌, inl, inr, Option, none,
  some, List, [], ◌∷◌, ℤ, if◌then◌else◌,
}
use mt.Json.{Fields}
use mt.Errors.{ok, is_verification}
use mt.Models.{RoundWindow, PreflightSnapshot, PackagedArtifact}
use mt.System.{pure, Call, Sys, Host, verify_source, verify_provenance, verify_on_chain}
use mt.System.Rules.{
  Hoare, Any, Hoare-Keeps, Hoare-bind, Hoare-pre, Hoare-attempt, Hoare-pure, Hoare-if,
  Hoare-reraise, Hoare-post, Hoare-trade, Hoare-shift, Hoare-kept, Hoare-returned, Hoare-refuse,
}
use mt.Controller.Setup.{Backend}
use mt.Protected.Sound.{fact}
use mt.Controller.Evidence.{
  Answered, binding-Answered, block-Answered, anything, package-Answered, commitment-Answered,
  IsLocal, reusable-IsLocal,
}
use mt.Config.{Config}
use mt.Controller.Verify.{Outcome}
use mt.Controller.Submit.{upload_artifact, remote_ready, select_packaged, submit}
use mt.Controller.Loud.{upload-Keeps}
use mt.Controller.Returned.{
  Returned, AllReturned, tolerant, loud, verify_source-Hoare, verify_provenance-Hoare,
  committed_payload-Hoare,
}
use mt.Controller.Quiet.{
  write-Keeps, refresh_same_round-Keeps, assert_deadline-Keeps, assert_binding-Keeps,
  mark_complete-Keeps,
}

-- The calls that verify the source of the artifact in full, its provenance up to the block, and its
-- commitment on chain have returned.
abbrev pub ProvedFor : {W : Type 0} → PackagedArtifact → ℤ → Sys W → Type 0
ProvedFor p n s =
    Returned (verify_source p true) s.events
    × Returned (verify_provenance p n) s.events
    × Returned (verify_on_chain p) s.events

module _ {W : Type 0} (h : Host W) (b : Backend W) (w : RoundWindow) (source hotkey : String)
    (local : Option PackagedArtifact) where
  -- The manifest is the local one of this round, or a fresh unsealed one for the round and the source.
  abbrev pub IsSelected : PackagedArtifact → Type 0
  IsSelected p =
      IsLocal local p w.index source hotkey
      ⊎ (Answered (b.do_package w.index source) p × (p.sealed ≡ false))

  -- The artifact of a submission, and what was answered and has returned for it.
  pub record IsDelivered (t : Sys W) : Type 0 where
    pub manifest : PackagedArtifact
    pub selected : IsSelected manifest
    pub bound : Answered b.do_validate_binding manifest.artifact_digest
    pub encoded : String
    pub made : Answered (b.do_validate_commitment manifest) encoded
    pub head : ℤ
    pub current : Answered b.do_block head
    pub proved : ProvedFor manifest head t

module _ {W : Type 0} (h : Host W) (b : Backend W) (c : Config) where
  module _ (p : PackagedArtifact) (l : List Call) where
    abbrev I : Sys W → Type 0
    I = AllReturned l

    abbrev with_source : List Call
    with_source = verify_source p true ∷ l

    -- What the recovery probe has proved, by its answer.
    abbrev Probed : Bool → Sys W → Type 0
    Probed true s = Returned (verify_source p true) s.events
    Probed false s = Unit

    remote_ready-Hoare :
        (old : Option PackagedArtifact) (details : Fields)
        → Hoare I Any (remote_ready h b c old p details) Probed
    unfolding remote_ready
    remote_ready-Hoare none details = Hoare-pure false λ s q. tt
    remote_ready-Hoare (some _) details =
        Hoare-bind (Hoare-Keeps (write-Keeps h I (tolerant h b l) _ _ _ _ _ _)) λ _.
          Hoare-attempt
            (Hoare-bind (Hoare-pre (λ _ _. tt) (verify_source-Hoare h b c p l))
              λ _. Hoare-pure true λ s q. q.0)
            λ e.
              Hoare-if (is_verification e.kind) (λ _. Hoare-pure false λ s q. tt)
                (λ _. Hoare-reraise e)

    upload_artifact-Hoare :
        (w : RoundWindow) (details : Fields)
        → Hoare I Any (upload_artifact h b c w p details) (λ _. AllReturned with_source)
    unfolding upload_artifact
    upload_artifact-Hoare w details =
        Hoare-bind (Hoare-Keeps (refresh_same_round-Keeps h b c I (tolerant h b l) w)) λ fresh.
          Hoare-bind (Hoare-Keeps (assert_deadline-Keeps h b c I (tolerant h b l) _ _ _)) λ _.
            Hoare-bind (Hoare-Keeps (write-Keeps h I (tolerant h b l) _ _ _ _ _ _)) λ _.
              Hoare-bind (Hoare-Keeps (assert_binding-Keeps h b c I (tolerant h b l) p)) λ _.
                Hoare-bind (Hoare-Keeps (upload-Keeps h b c p I (loud h l))) λ _.
                  Hoare-bind (Hoare-Keeps (write-Keeps h I (tolerant h b l) _ _ _ _ _ _))
                    λ _. Hoare-pre (λ _ _. tt) (verify_source-Hoare h b c p l)

    submitted_source-Hoare :
        (w : RoundWindow) (details : Fields) (ready : Bool)
        → Hoare Any
            (λ s. I s × Probed ready s)
            (if ready then pure tt else upload_artifact h b c w p details)
            (λ _. AllReturned with_source)
    submitted_source-Hoare w details true = Hoare-pure tt λ s q. (q.1, q.0)
    submitted_source-Hoare w details false =
        Hoare-pre (λ s q. q.0) (Hoare-shift (upload_artifact-Hoare w details))

  select_packaged-Hoare :
      (w : RoundWindow) (head : ℤ) (source : String) (common : Fields) (o : Option PackagedArtifact)
      → Hoare Any Any
          (select_packaged h b c w head source common o)
          (λ p s. (o ≡ some p) ⊎ (Answered (b.do_package w.index source) p × (p.sealed ≡ false)))
  unfolding select_packaged
  select_packaged-Hoare w head source common (some p) =
      Hoare-bind (anything _) λ _. Hoare-pure p λ s i. inl refl
  select_packaged-Hoare w head source common none = Hoare-bind (anything _) λ _.
      Hoare-bind (anything _) λ _. Hoare-bind (package-Answered b w.index source) λ p.
        fact λ fresh. Hoare-refuse _ _ _ λ open_seal. Hoare-pure p λ s i. inr (fresh, open_seal)

  submit-Hoare :
      (snapshot : PreflightSnapshot) (w : RoundWindow) (head : ℤ) (source : String)
      (local : Option PackagedArtifact)
      → Hoare Any Any
          (submit h b c snapshot w head source local)
          (λ _. IsDelivered h b w source snapshot.hotkey local)
  unfolding submit
  submit-Hoare snapshot w head source local = Hoare-bind (binding-Answered b) λ bound.
      fact λ authorized. Hoare-bind (anything _) λ _.
        Hoare-bind (select_packaged-Hoare w head source _ _) λ p. fact λ selected.
          Hoare-refuse _ _ _ λ same. Hoare-bind (anything _) λ _.
            Hoare-bind (commitment-Answered b p) λ encoded. fact λ made.
              Hoare-bind (block-Answered b) λ n. fact λ current.
                let one = verify_provenance p n ∷ [] in
                let two = verify_source p true ∷ one in
                let all = verify_on_chain p ∷ two in
                Hoare-bind (anything _) λ _.
                  Hoare-bind (Hoare-shift (verify_provenance-Hoare h b c p [] n)) λ _.
                    Hoare-bind (Hoare-trade (remote_ready-Hoare p one _ _)) λ ready.
                      Hoare-bind (submitted_source-Hoare p one w _ ready) λ _.
                        Hoare-bind (Hoare-shift (committed_payload-Hoare h b c p two w encoded n _))
                          λ payload.
                            Hoare-post
                              (λ a s q. record {
                                manifest = p;
                                selected = elim selected [
                                  | inl old ↦ inl (reusable-IsLocal local _ _ _ p old)
                                  | inr fresh ↦ inr fresh
                                ];
                                bound =
                                    subst (Answered b.do_validate_binding)
                                      (sym ((eq_iff _ _).0 (not-false _ same))) authorized;
                                encoded = encoded;
                                made = made;
                                head = n;
                                current = current;
                                proved = (q.1.0, q.1.1.0, q.0);
                              })
                              (Hoare-kept (
                                mark_complete-Keeps h b c (AllReturned all) (tolerant h b all) w p
                                  payload _ true _))

  -- From an empty record of calls: when a submission returns, there is one artifact, which is the local
  -- manifest of this round, source and hotkey or a fresh unsealed one that the backend packaged for
  -- them, and its digest is the one that the validation of the binding answered. Its commitment was
  -- encoded, and the calls that verify its source in full, its provenance at the block that the chain
  -- answered and its commitment on chain have all returned for it.
  pub submit-IsDelivered :
      (snapshot : PreflightSnapshot) (w : RoundWindow) (head : ℤ) (source : String)
      (local : Option PackagedArtifact) (s t : Sys W) (o : Outcome)
      → s.events ≡ []
      → submit h b c snapshot w head source local s ≡ (ok o, t)
      → IsDelivered h b w source snapshot.hotkey local t
  submit-IsDelivered snapshot w head source local s t o _ =
      Hoare-returned (submit-Hoare snapshot w head source local)
