-- ===== src/Controller/Loud.antt =====
-- Which invariants a submission keeps: those that speak neither of documents nor of the calls, but
-- of a broadcast with its marker on disk.
use mt.Base.{ℕ, String, true, false, ◌≡◌, refl, Option, none, some, ◌∷◌, ℤ}
use mt.Json.{int, Fields, end, field, dict}
use mt.Errors.{is_verification, is_artifact_binding, is_authorization_refused}
use mt.Models.{RoundWindow, PackagedArtifact}
use mt.System.{Files, regular, json, Call, Event, Sys, M, Host, call, publish}
use mt.System.Rules.{
  Keeps, Keeps-pure, Keeps-raise, Keeps-reraise, Keeps-if, Keeps-attempt, Keeps-raise_if,
  Keeps-bind, Keeps-hoare, Hoare, Any, Hoare-Keeps, Hoare-frame, Hoare-bind, Hoare-pure,
  Hoare-raise, Hoare-reraise, Hoare-attempt, split,
}
use mt.State.Read.{write_pending}
use mt.State.Pending.{pending_document, mark_submission_pending}
use mt.Controller.Setup.{Backend, backend_publish, backend_upload}
use mt.Config.{Config}
use mt.Controller.Local.{fingerprint}
use mt.Controller.Submit.{
  mark_pending, check_broadcast, broadcast, publish_commitment, committed_payload, upload_artifact,
  remote_ready,
}
use mt.Controller.Reconcile.{or_refuse}
use mt.State.Replace.{replace_or-Hoare}
use mt.Controller.Quiet.{
  IsTolerant, Anywhere, anywhere, effect_kept, write-Keeps, time-Keeps, outside-Keeps,
  assert_registered-Keeps, verify_source-Keeps, verify_on_chain-Keeps, refresh_same_round-Keeps,
  assert_deadline-Keeps, assert_binding-Keeps,
}
use mt.Controller.Harmless.{
  IsOblivious, clear-Keeps, or_refuse-Keeps, read_submission_pending-Keeps,
}

-- The details that the marker of a submission carries beside its own fields.
abbrev pub provenance : ℤ → Fields
provenance n = field "provenance_block" (int n) end

-- The marker on disk is the one for this artifact: its round, its source, its hotkey, and the
-- fingerprint of a commitment.
abbrev pub IsMarked : {W : Type 0} → Host W → PackagedArtifact → Files → Type 0
IsMarked h p files =
    (encoded : String) × (n : ℤ) × (t : ℕ) × (files.pending
      ≡ regular (
          json (
            dict (
              pending_document h p.round_index p.source p.hotkey (fingerprint h.py encoded)
                (provenance n) t))))

-- A broadcast is made with its marker on disk.
abbrev pub IsCovered : {W : Type 0} → Host W → Call → Files → Type 0
IsCovered h (publish p) files = IsMarked h p files
IsCovered h _ files = Unit

-- The invariant stays true when a call is noted whose marker, if it is a broadcast, is on disk.
pub record IsLoud {W : Type 0} (h : Host W) (b : Backend W) (I : Sys W → Type 0) : Type 1 where
  pub oblivious : IsOblivious h b I
  pub event :
      (s : Sys W) (e : Event)
      → IsCovered h e.call e.files
      → I s
      → I (record s { events = e ∷ s.events })

module _ {W : Type 0} (h : Host W) where
  abbrev Marked : PackagedArtifact → Sys W → Type 0
  Marked p s = IsMarked h p s.files

  marked : {b : Backend W} (p : PackagedArtifact) → IsTolerant h b (Marked p)
  marked p = record {
    Move = Anywhere;
    within = anywhere;
    world = λ s w m i. i;
    status = λ s f i. i;
    health = λ s f i. i;
    event = λ s e q i. i;
  }

  abbrev Holds : Fields → Sys W → Type 0
  Holds d s = s.files.pending ≡ regular (json (dict d))

module _ {W : Type 0} (h : Host W) {b : Backend W} (I : Sys W → Type 0) (L : IsLoud h b I) where
  write_pending-Hoare : (d : Fields) → Hoare I Any (write_pending h d) (λ _. Holds h d)
  unfolding write_pending
  write_pending-Hoare d =
      replace_or-Hoare h I _ _ _ (Holds h d) (effect_kept I L.oblivious.tolerant)
        (λ s i. L.oblivious.pending s _ i) (λ s. refl)

module _ {W : Type 0} (h : Host W) (b : Backend W) (c : Config) (p : PackagedArtifact)
    (I : Sys W → Type 0) (L : IsLoud h b I) where
  mark_submission-Hoare :
      (encoded : String) (n : ℤ) (now : Option ℕ)
      → Hoare I Any
          (mark_submission_pending h p.round_index p.source p.hotkey
            (fingerprint h.py encoded)
            (provenance n)
            now)
          (λ _. Marked h p)
  unfolding mark_submission_pending
  mark_submission-Hoare encoded n now = Hoare-bind (Hoare-Keeps (Keeps-raise_if _ _ _)) λ _.
      Hoare-bind (Hoare-Keeps (read_submission_pending-Keeps h I L.oblivious.tolerant)) λ existing.
        Hoare-bind (Hoare-Keeps (Keeps-raise_if _ _ _)) λ _.
          Hoare-bind (Hoare-Keeps (time-Keeps h I L.oblivious.tolerant now)) λ t.
            Hoare-bind (write_pending-Hoare h I L _)
              λ _. Hoare-pure _ λ s held. (encoded, n, t, held)

  pub mark_pending-Hoare :
      (encoded : String) (n : ℤ)
      → Hoare I Any (mark_pending h b c p (fingerprint h.py encoded) n) (λ _. Marked h p)
  unfolding mark_pending or_refuse
  mark_pending-Hoare encoded n =
      Hoare-attempt
        (Hoare-bind
          (Hoare-Keeps (outside-Keeps I L.oblivious.tolerant h.now L.oblivious.tolerant.within.now))
          λ now. mark_submission-Hoare encoded n (some now))
        λ e. Hoare-raise _ _

  pub check_broadcast-Hoare :
      (w : RoundWindow) (print : String)
      → Hoare I (Marked h p) (check_broadcast h b c w p print) (λ _. Marked h p)
  unfolding check_broadcast
  check_broadcast-Hoare w print =
      Hoare-attempt
        (Hoare-bind
          (both (refresh_same_round-Keeps h b c I L.oblivious.tolerant w)
            (refresh_same_round-Keeps h b c (Marked h p) (marked h p) w))
          λ fresh.
            Hoare-bind
              (both (assert_deadline-Keeps h b c I L.oblivious.tolerant _ _ _)
                (assert_deadline-Keeps h b c (Marked h p) (marked h p) _ _ _))
              λ _.
                Hoare-bind
                  (both (assert_registered-Keeps h b c I L.oblivious.tolerant)
                    (assert_registered-Keeps h b c (Marked h p) (marked h p)))
                  λ _.
                    both (assert_binding-Keeps h b c I L.oblivious.tolerant p)
                      (assert_binding-Keeps h b c (Marked h p) (marked h p) p))
        λ e.
          Hoare-bind
            (Hoare-Keeps
              (or_refuse-Keeps h b c I L.oblivious _ (clear-Keeps h I L.oblivious print)))
            λ _. Hoare-reraise e
    where
      both :
          {A : Type 0} {m : M W A}
          → Keeps I m
          → Keeps (Marked h p) m
          → Hoare I (Marked h p) m (λ _. Marked h p)
      both = Hoare-frame

  publish-Hoare : Hoare I (Marked h p) (backend_publish b p) (λ _. Any)
  unfolding backend_publish call
  publish-Hoare = record {
    at = λ s i q.
        let t : Sys W = record s { world = (b.do_publish p s.world).1 } in
        split _
          (L.event t _ q
            (L.oblivious.tolerant.world s _ (L.oblivious.tolerant.within.publish p s.world) i))
          (λ _ _. tt);
  }

  broadcast-Hoare :
      (print : String) (details : Fields)
      → Hoare I (Marked h p) (broadcast h b c p print details) (λ _. Any)
  unfolding broadcast
  broadcast-Hoare print details =
      Hoare-attempt
        (Hoare-bind publish-Hoare λ receipt. Hoare-Keeps (
          Keeps-bind (Keeps-raise_if _ _ _) λ _.
            Keeps-bind (write-Keeps h I L.oblivious.tolerant _ _ _ _ _ _) λ _.
              Keeps-bind (verify_on_chain-Keeps h b c I L.oblivious.tolerant p)
                λ payload. Keeps-bind (Keeps-raise_if _ _ _) λ _. Keeps-pure _))
        λ e. Hoare-Keeps (
          Keeps-if (is_artifact_binding e.kind)
            (λ _.
              Keeps-bind (or_refuse-Keeps h b c I L.oblivious _ (clear-Keeps h I L.oblivious print))
                λ _. Keeps-reraise e)
            λ _.
              Keeps-if (is_authorization_refused e.kind) (λ _. Keeps-reraise e)
                (λ _. Keeps-raise _ _))

  publish_commitment-Keeps :
      (w : RoundWindow) (encoded : String) (n : ℤ) (details : Fields)
      → Keeps I (publish_commitment h b c w p encoded n details)
  unfolding publish_commitment
  publish_commitment-Keeps w encoded n details =
      Keeps-bind (refresh_same_round-Keeps h b c I L.oblivious.tolerant w) λ fresh.
        Keeps-bind (assert_deadline-Keeps h b c I L.oblivious.tolerant _ _ _) λ _.
          Keeps-bind (write-Keeps h I L.oblivious.tolerant _ _ _ _ _ _) λ _.
            Keeps-bind (assert_registered-Keeps h b c I L.oblivious.tolerant) λ _. Keeps-hoare (
              Hoare-bind (mark_pending-Hoare encoded n) λ _.
                Hoare-bind (check_broadcast-Hoare w _) λ _.
                  Hoare-bind (broadcast-Hoare _ details) λ payload. Hoare-Keeps (
                    Keeps-bind
                      (or_refuse-Keeps h b c I L.oblivious _ (clear-Keeps h I L.oblivious _))
                      λ _. Keeps-pure _))

  pub committed_payload-Keeps :
      (w : RoundWindow) (encoded : String) (n : ℤ) (details : Fields)
      → Keeps I (committed_payload h b c w p encoded n details)
  unfolding committed_payload
  committed_payload-Keeps w encoded n details =
      Keeps-attempt (verify_on_chain-Keeps h b c I L.oblivious.tolerant p) λ e.
        Keeps-if (is_verification e.kind) (λ _. publish_commitment-Keeps w encoded n details)
          (λ _. Keeps-reraise e)

  pub upload-Keeps : Keeps I (backend_upload b p)
  unfolding backend_upload call
  upload-Keeps = record {
    at = λ s i.
        L.event (record s { world = (b.do_upload p s.world).1 }) _ tt
          (L.oblivious.tolerant.world s _ (L.oblivious.tolerant.within.upload p s.world) i);
  }

  pub upload_artifact-Keeps :
      (w : RoundWindow) (details : Fields) → Keeps I (upload_artifact h b c w p details)
  unfolding upload_artifact
  upload_artifact-Keeps w details =
      Keeps-bind (refresh_same_round-Keeps h b c I L.oblivious.tolerant w) λ fresh.
        Keeps-bind (assert_deadline-Keeps h b c I L.oblivious.tolerant _ _ _) λ _.
          Keeps-bind (write-Keeps h I L.oblivious.tolerant _ _ _ _ _ _) λ _.
            Keeps-bind (assert_binding-Keeps h b c I L.oblivious.tolerant p) λ _.
              Keeps-bind upload-Keeps λ _.
                Keeps-bind (write-Keeps h I L.oblivious.tolerant _ _ _ _ _ _)
                  λ _. verify_source-Keeps h b c I L.oblivious.tolerant p true

  pub remote_ready-Keeps :
      (old : Option PackagedArtifact) (details : Fields)
      → Keeps I (remote_ready h b c old p details)
  unfolding remote_ready
  remote_ready-Keeps none details = Keeps-pure false
  remote_ready-Keeps (some _) details =
      Keeps-bind (write-Keeps h I L.oblivious.tolerant _ _ _ _ _ _) λ _.
        Keeps-attempt
          (Keeps-bind (verify_source-Keeps h b c I L.oblivious.tolerant p true)
            λ _. Keeps-pure true)
          λ e. Keeps-if (is_verification e.kind) (λ _. Keeps-pure false) (λ _. Keeps-reraise e)
