-- ===== src/Controller/Harmless.antt =====
-- Which parts of the controller leave an invariant alone that speaks only of the events: the read-only
-- parts, those that also clear the pending marker among them.
use mt.Base.{String, true, ◌≡◌, sym, ◌∙◌, Option, none, some, ℤ, not}
use mathlib.Core.Bool.{false≢true}
use mt.Json.{Fields, is_end}
use mt.Models.{RoundWindow, PreflightSnapshot, PackagedArtifact, accepts_at}
use mt.System.{missing, File, Sys, M, Host}
use mt.System.Rules.{
  Keeps, Keeps-pure, Keeps-raise, Keeps-lift, Keeps-if, Keeps-attempt, Keeps-raise_if, Keeps-bind,
}
use mt.State.Read.{unlink_pending}
use mt.State.Pending.{read_submission_pending, clear_submission_pending}
use mt.State.Latch.{read_authorization_refusal}
use mt.Controller.Setup.{Backend}
use mt.Config.{Config}
use mt.Controller.Reconcile.{or_refuse, reconcile_pending}
use mt.Controller.Rounds.{below_activation}
use mt.Controller.Cycle.{
  read_refusal, reason_of, raise_latched, authorization_latch_reason, assert_not_latched, cycle,
  round_cycle, dry_cycle, wait_activation,
}
use mt.State.Replace.{replace_or-Keeps}
use mt.Controller.Quiet.{
  IsTolerant, effect_kept, read_status-Keeps, write-Keeps, assert_registered-Keeps, block-Keeps,
  load_local-Keeps, validate_commitment-Keeps, verify_source-Keeps, verify_provenance-Keeps,
  verify_on_chain-Keeps, resolve-Keeps, mark_complete-Keeps,
}

module _ {W : Type 0} (h : Host W) {b : Backend W} (I : Sys W → Type 0) (T : IsTolerant h b I) where
  pub read_submission_pending-Keeps : Keeps I (read_submission_pending h)
  unfolding read_submission_pending
  read_submission_pending-Keeps = record { at = λ s i. i }

  reason_of-Keeps : (o : Option Fields) → Keeps I (reason_of h o)
  unfolding reason_of
  reason_of-Keeps none = Keeps-pure _
  reason_of-Keeps (some m) =
      Keeps-if (is_end m) (λ _. Keeps-bind (read_status-Keeps h I T) λ d. Keeps-pure _)
        (λ _. Keeps-pure _)

  read_refusal-Keeps : Keeps I (read_refusal h)
  unfolding read_refusal read_authorization_refusal
  read_refusal-Keeps =
      Keeps-attempt (Keeps-bind (record { at = λ s i. i }) λ m. Keeps-pure _) (λ e. Keeps-pure _)

  raise_latched-Keeps : (o : Option String) → Keeps I (raise_latched o)
  unfolding raise_latched
  raise_latched-Keeps none = Keeps-pure tt
  raise_latched-Keeps (some text) = Keeps-raise _ _

  pub assert_not_latched-Keeps : Keeps I (assert_not_latched h)
  unfolding assert_not_latched authorization_latch_reason
  assert_not_latched-Keeps =
      Keeps-bind (Keeps-bind read_refusal-Keeps reason_of-Keeps) raise_latched-Keeps

-- An invariant that does not speak of the pending marker either.
pub record IsOblivious {W : Type 0} (h : Host W) (b : Backend W) (I : Sys W → Type 0) : Type 1 where
  pub tolerant : IsTolerant h b I
  pub pending :
      (s : Sys W) (f : File) → I s → I (record s { files = record s.files { pending = f } })

-- The marker is cleared without a call to the backend.
pub clear-Keeps :
    {W : Type 0} (h : Host W) {b : Backend W} (I : Sys W → Type 0) (O : IsOblivious h b I)
    (print : String)
    → Keeps I (clear_submission_pending h print)
unfolding clear_submission_pending unlink_pending
clear-Keeps h I O print = Keeps-bind (read_submission_pending-Keeps h I O.tolerant) λ pending.
    Keeps-bind (Keeps-raise_if _ _ _) λ _. Keeps-bind (Keeps-raise_if _ _ _) λ _.
      Keeps-bind (Keeps-raise_if _ _ _)
        λ _. replace_or-Keeps h I _ _ (effect_kept I O.tolerant) (λ s i. O.pending s missing i)

module _ {W : Type 0} (h : Host W) (b : Backend W) (c : Config) (I : Sys W → Type 0)
    (O : IsOblivious h b I) where
  pub or_refuse-Keeps :
      {A : Type 0} {m : M W A} (text : String) → Keeps I m → Keeps I (or_refuse h b c m text)
  unfolding or_refuse
  or_refuse-Keeps text k = Keeps-attempt k (λ e. Keeps-raise _ _)

  pub reconcile_pending-Keeps :
      (snapshot : PreflightSnapshot) (w : RoundWindow) (head : ℤ) (source : String)
      (local : Option PackagedArtifact) (pending : Fields)
      → Keeps I (reconcile_pending h b c snapshot w head source local pending)
  unfolding reconcile_pending
  reconcile_pending-Keeps snapshot w head source local pending =
      Keeps-bind (Keeps-raise_if _ _ _) λ _. Keeps-bind (Keeps-lift _) λ p.
        Keeps-bind (Keeps-raise_if _ _ _) λ _. Keeps-bind (Keeps-lift _) λ packaged.
          Keeps-bind (or_refuse-Keeps _ (validate_commitment-Keeps h b c I O.tolerant packaged))
            λ encoded. Keeps-bind (Keeps-raise_if _ _ _) λ _.
              Keeps-bind (write-Keeps h I O.tolerant _ _ _ _ _ _) λ _.
                Keeps-bind
                  (or_refuse-Keeps _ (
                    Keeps-bind (assert_registered-Keeps h b c I O.tolerant)
                      λ _. verify_on_chain-Keeps h b c I O.tolerant packaged))
                  λ payload. Keeps-bind (Keeps-raise_if _ _ _) λ _.
                    Keeps-bind
                      (or_refuse-Keeps _ (
                        Keeps-bind (verify_source-Keeps h b c I O.tolerant packaged true) λ _.
                          verify_provenance-Keeps h b c I O.tolerant packaged p.provenance_block))
                      λ _.
                        Keeps-bind (or_refuse-Keeps _ (clear-Keeps h I O _))
                          λ _. mark_complete-Keeps h b c I O.tolerant w packaged payload _ true _

  pub dry_cycle-Keeps :
      (w : RoundWindow) (head : ℤ) (common : Fields) → Keeps I (dry_cycle h b c w head common)
  unfolding dry_cycle
  dry_cycle-Keeps w head common =
      Keeps-if (not (accepts_at w head c.deadline_margin_blocks))
        (λ _. Keeps-bind (write-Keeps h I O.tolerant _ _ _ _ _ _) λ _. Keeps-pure _)
        (λ _. Keeps-bind (write-Keeps h I O.tolerant _ _ _ _ _ _) λ _. Keeps-pure _)

  pub round_cycle-Keeps_dry :
      (snapshot : PreflightSnapshot) (head : ℤ)
      → c.dry_run ≡ true
      → Keeps I (round_cycle h b c snapshot head)
  unfolding round_cycle
  round_cycle-Keeps_dry snapshot head dry = Keeps-bind (resolve-Keeps h b c I O.tolerant head) λ w.
      Keeps-bind (Keeps-lift _) λ source. Keeps-bind (read_status-Keeps h I O.tolerant) λ previous.
        Keeps-bind (read_submission_pending-Keeps h I O.tolerant) λ pending.
          Keeps-if (not (is_end pending))
            (λ _.
              Keeps-bind (load_local-Keeps h b c I O.tolerant)
                λ local. reconcile_pending-Keeps snapshot w head source local pending)
            λ _.
              Keeps-if c.dry_run (λ _. dry_cycle-Keeps w head _)
                λ live. absurd (false≢true (sym live ∙ dry))

  pub cycle-Keeps :
      (snapshot : PreflightSnapshot)
      → ((head : ℤ) → Keeps I (round_cycle h b c snapshot head))
      → Keeps I (cycle h b c snapshot)
  unfolding cycle wait_activation
  cycle-Keeps snapshot round = Keeps-bind (assert_not_latched-Keeps h I O.tolerant) λ _.
      Keeps-bind (assert_registered-Keeps h b c I O.tolerant) λ _.
        Keeps-bind (block-Keeps h b c I O.tolerant) λ head.
          Keeps-if (below_activation c.v030_activation_block head)
            (λ _. Keeps-bind (write-Keeps h I O.tolerant _ _ _ _ _ _) λ _. Keeps-pure _)
            (λ _. round head)
