-- ===== src/Controller/Reconciled.antt =====
-- controller.py: the backend's verifications in `_reconcile_pending`.
use mt.Base.{String, true, false, ◌≡◌, eq_iff, not-false, ||_false, Option, [], ◌∷◌, ℤ}
use mt.Json.{Fields, get, is_true}
use mt.Errors.{ok}
use mt.Models.{RoundWindow, PreflightSnapshot, PackagedArtifact}
use mt.System.{Sys, M, Host, verify_source, verify_provenance, verify_on_chain}
use mt.System.Rules.{
  Hoare, Any, Hoare-bind, Hoare-attempt, Hoare-raise, Hoare-post, Hoare-shift, Hoare-kept,
  Hoare-returned, Hoare-refuse,
}
use mt.Controller.Setup.{Backend}
use mt.Protected.Sound.{fact}
use mt.Controller.Local.{fingerprint}
use mt.Controller.Evidence.{
  Answered, Hoare-and, given_fact, lifted, anything, commitment-Answered, on_chain-Answered,
  IsLocal, matching_local-IsLocal,
}
use mt.Controller.Marked.{IsMarker, matched-IsMarker}
use mt.Config.{Config}
use mt.Controller.Verify.{Outcome}
use mt.Controller.Reconcile.{or_refuse, reconcile_pending}
use mt.Controller.Returned.{
  AllReturned, tolerant, verify_source-Hoare, verify_provenance-Hoare, verify_on_chain-Hoare,
  clear_or_refuse-Keeps,
}
use mt.Controller.Quiet.{mark_complete-Keeps}
use mt.Controller.Proved.{ProvedFor}

module _ {W : Type 0} (h : Host W) (b : Backend W) (w : RoundWindow) (source hotkey : String)
    (local : Option PackagedArtifact) where
  -- The artifact of a reconciliation, how the marker names it, and what has returned for it.
  pub record IsReconciled (head : ℤ) (pending : Fields) (t : Sys W) : Type 0 where
    pub valid : is_true (get "marker_invalid" pending) ≡ false
    pub announced : is_true (get "submission_pending" pending) ≡ true
    pub manifest : PackagedArtifact
    pub selected : IsLocal local manifest w.index source hotkey
    pub encoded : String
    pub made : Answered (b.do_validate_commitment manifest) encoded
    pub block : ℤ
    pub marked : IsMarker pending head w.index source hotkey (fingerprint h.py encoded) block
    pub payload : String
    pub read : Answered (b.do_verify_on_chain manifest) payload
    pub exact : fingerprint h.py payload ≡ fingerprint h.py encoded
    pub proved : ProvedFor manifest block t

module _ {W : Type 0} (h : Host W) (b : Backend W) (c : Config) where
  or_refuse-Hoare :
      {A : Type 0} {m : M W A} {P : Sys W → Type 0} {Q : A → Sys W → Type 0} (text : String)
      → Hoare Any P m Q
      → Hoare Any P (or_refuse h b c m text) Q
  unfolding or_refuse
  or_refuse-Hoare text t = Hoare-attempt t λ e. Hoare-raise _ _

  reconcile_pending-Hoare :
      (snapshot : PreflightSnapshot) (w : RoundWindow) (head : ℤ) (source : String)
      (local : Option PackagedArtifact) (pending : Fields)
      → Hoare Any Any
          (reconcile_pending h b c snapshot w head source local pending)
          (λ _. IsReconciled h b w source snapshot.hotkey local head pending)
  unfolding reconcile_pending
  reconcile_pending-Hoare snapshot w head source local pending = Hoare-refuse _ _ _ λ marker.
      Hoare-bind (lifted _) λ f. fact λ fields. Hoare-refuse _ _ _ λ here.
        Hoare-bind (lifted _) λ p. fact λ selected.
          let one = verify_on_chain p ∷ [] in
          let two = verify_source p true ∷ one in
          let all = verify_provenance p f.provenance_block ∷ two in
          Hoare-bind (or_refuse-Hoare _ (commitment-Answered b p)) λ encoded. fact λ made.
            Hoare-refuse _ _ _ λ print. Hoare-bind (anything _) λ _.
              Hoare-bind
                (or_refuse-Hoare _ (
                  Hoare-bind (anything _) λ _.
                    Hoare-and (on_chain-Answered b p)
                      (Hoare-shift (verify_on_chain-Hoare h b c p []))))
                λ payload. given_fact λ read. Hoare-refuse _ _ _ λ exact.
                  Hoare-bind
                    (or_refuse-Hoare _ (
                      Hoare-bind (Hoare-shift (verify_source-Hoare h b c p one))
                        λ _. Hoare-shift (verify_provenance-Hoare h b c p two f.provenance_block)))
                    λ _. Hoare-bind (Hoare-kept (clear_or_refuse-Keeps h b c p [] all _ _)) λ _.
                      Hoare-post
                        (λ a s q. record {
                          valid = (||_false _ _ marker).0;
                          announced = not-false _ (||_false _ _ marker).1;
                          manifest = p;
                          selected = matching_local-IsLocal local _ _ _ p selected;
                          encoded = encoded;
                          made = made;
                          block = f.provenance_block;
                          marked =
                              matched-IsMarker pending head f w.index source snapshot.hotkey
                                (fingerprint h.py encoded) fields here
                                ((eq_iff _ _).0 (not-false _ print));
                          payload = payload;
                          read = read;
                          exact = (eq_iff _ _).0 (not-false _ exact);
                          proved = (q.1.0, q.0, q.1.1.0);
                        })
                        (Hoare-kept (
                          mark_complete-Keeps h b c (AllReturned all) (tolerant h b all) w p payload
                            _ true _))

  -- From an empty record of calls: when the reconciliation of a pending marker returns, the marker is
  -- valid and states this round, source and hotkey, a block up to the head, and the fingerprint of the
  -- commitment that was encoded for the local manifest of this round; the payload that was read on
  -- chain has the same fingerprint; and the calls that verify the source in full, the provenance at
  -- the block of the marker and the commitment on chain have all returned for that manifest.
  pub reconcile-IsReconciled :
      (snapshot : PreflightSnapshot) (w : RoundWindow) (head : ℤ) (source : String)
      (local : Option PackagedArtifact) (pending : Fields) (s t : Sys W) (o : Outcome)
      → s.events ≡ []
      → reconcile_pending h b c snapshot w head source local pending s ≡ (ok o, t)
      → IsReconciled h b w source snapshot.hotkey local head pending t
  reconcile-IsReconciled snapshot w head source local pending s t o _ =
      Hoare-returned (reconcile_pending-Hoare snapshot w head source local pending)
