-- ===== src/Controller/LoudCycle.antt =====
-- The invariants of Loud through a submission as a whole and a cycle.
use mt.Base.{String, Bool, true, false, Option, none, some, ℤ, not}
use mt.Json.{Fields, is_end, get, is_true}
use mt.Models.{RoundWindow, PreflightSnapshot, PackagedArtifact, accepts_at}
use mt.System.{Sys, Host, call}
use mt.System.Rules.{Keeps, Keeps-pure, Keeps-lift, Keeps-if, Keeps-raise_if, Keeps-bind}
use mt.Controller.Setup.{Backend, backend_package}
use mt.Config.{Config}
use mt.Controller.Submit.{select_packaged, submit}
use mt.Controller.Cycle.{round_cycle, live_cycle, closed_cycle, open_cycle, wait_closed}
use mt.Controller.Quiet.{
  read_status-Keeps, write-Keeps, outside-Keeps, heartbeat-Keeps, verification_due-Keeps,
  assert_registered-Keeps, block-Keeps, load_local-Keeps, validate_binding-Keeps,
  validate_commitment-Keeps, verify_provenance-Keeps, resolve-Keeps, assert_deadline-Keeps,
  mark_complete-Keeps, reverify-Keeps,
}
use mt.Controller.Harmless.{reconcile_pending-Keeps, dry_cycle-Keeps, read_submission_pending-Keeps}
use mt.Controller.Loud.{IsLoud, committed_payload-Keeps, upload_artifact-Keeps, remote_ready-Keeps}

module _ {W : Type 0} (h : Host W) (b : Backend W) (c : Config) (I : Sys W → Type 0)
    (L : IsLoud h b I) where
  package-Keeps : (n : ℤ) (source : String) → Keeps I (backend_package b n source)
  unfolding backend_package call
  package-Keeps n source = record {
    at = λ s i.
        L.event (record s { world = (b.do_package n source s.world).1 }) _ tt
          (L.oblivious.tolerant.world s _
            (L.oblivious.tolerant.within.package_round n source s.world) i);
  }

  pub select_packaged-Keeps :
      (w : RoundWindow) (head : ℤ) (source : String) (common : Fields) (o : Option PackagedArtifact)
      → Keeps I (select_packaged h b c w head source common o)
  unfolding select_packaged
  select_packaged-Keeps w head source common (some p) =
      Keeps-bind (write-Keeps h I L.oblivious.tolerant _ _ _ _ _ _) λ _. Keeps-pure p
  select_packaged-Keeps w head source common none =
      Keeps-bind (assert_deadline-Keeps h b c I L.oblivious.tolerant _ _ _) λ _.
        Keeps-bind (write-Keeps h I L.oblivious.tolerant _ _ _ _ _ _) λ _.
          Keeps-bind (package-Keeps w.index source)
            λ p. Keeps-bind (Keeps-raise_if _ _ _) λ _. Keeps-pure p

  pub submit-Keeps :
      (snapshot : PreflightSnapshot) (w : RoundWindow) (head : ℤ) (source : String)
      (local : Option PackagedArtifact)
      → Keeps I (submit h b c snapshot w head source local)
  unfolding submit
  submit-Keeps snapshot w head source local =
      Keeps-bind (validate_binding-Keeps h b c I L.oblivious.tolerant) λ bound.
        Keeps-bind (assert_registered-Keeps h b c I L.oblivious.tolerant) λ _.
          Keeps-bind (select_packaged-Keeps w head source _ _) λ p.
            Keeps-bind (Keeps-raise_if _ _ _) λ _.
              Keeps-bind (write-Keeps h I L.oblivious.tolerant _ _ _ _ _ _) λ _.
                Keeps-bind (validate_commitment-Keeps h b c I L.oblivious.tolerant p) λ encoded.
                  Keeps-bind (block-Keeps h b c I L.oblivious.tolerant) λ n.
                    Keeps-bind (write-Keeps h I L.oblivious.tolerant _ _ _ _ _ _) λ _.
                      Keeps-bind (verify_provenance-Keeps h b c I L.oblivious.tolerant p n) λ _.
                        Keeps-bind (remote_ready-Keeps h b c p I L _ _) λ ready.
                          Keeps-bind
                            (Keeps-if ready (λ _. Keeps-pure tt)
                              (λ _. upload_artifact-Keeps h b c p I L w _))
                            λ _.
                              Keeps-bind (committed_payload-Keeps h b c p I L w encoded n _)
                                λ payload.
                                  mark_complete-Keeps h b c I L.oblivious.tolerant w p payload _
                                    true _

  wait_closed-Keeps :
      (w : RoundWindow) (v : Bool) (common : Fields) → Keeps I (wait_closed h b c w v common)
  unfolding wait_closed
  wait_closed-Keeps w v common =
      Keeps-bind (write-Keeps h I L.oblivious.tolerant _ _ _ _ _ _) λ _. Keeps-pure _

  closed_cycle-Keeps :
      (snapshot : PreflightSnapshot) (w : RoundWindow) (head : ℤ) (source : String)
      (common previous : Fields) (o : Option PackagedArtifact) (v : Bool)
      → Keeps I (closed_cycle h b c snapshot w head source common previous o v)
  unfolding closed_cycle
  closed_cycle-Keeps snapshot w head source common previous none v = wait_closed-Keeps w v common
  closed_cycle-Keeps snapshot w head source common previous (some p) v =
      Keeps-bind
        (Keeps-if v (λ _. verification_due-Keeps h I L.oblivious.tolerant c previous)
          (λ _. Keeps-pure true))
        λ due.
          Keeps-if due (λ _. reverify-Keeps h b c I L.oblivious.tolerant snapshot w head source p)
            (λ _. wait_closed-Keeps w v common)

  open_cycle-Keeps :
      (snapshot : PreflightSnapshot) (w : RoundWindow) (head : ℤ) (source : String)
      (previous : Fields) (o : Option PackagedArtifact) (v : Bool)
      → Keeps I (open_cycle h b c snapshot w head source previous o v)
  unfolding open_cycle
  open_cycle-Keeps snapshot w head source previous o false = submit-Keeps snapshot w head source o
  open_cycle-Keeps snapshot w head source previous none true =
      submit-Keeps snapshot w head source none
  open_cycle-Keeps snapshot w head source previous (some p) true =
      Keeps-bind
        (Keeps-if (is_true (get "ok" previous))
          (λ _. verification_due-Keeps h I L.oblivious.tolerant c previous) (λ _. Keeps-pure true))
        λ due.
          Keeps-if due (λ _. reverify-Keeps h b c I L.oblivious.tolerant snapshot w head source p)
            (λ _.
              Keeps-bind
                (outside-Keeps I L.oblivious.tolerant h.now L.oblivious.tolerant.within.now)
                λ now.
                  Keeps-bind (heartbeat-Keeps h I L.oblivious.tolerant (some now))
                    λ _. Keeps-pure _)

  live_cycle-Keeps :
      (snapshot : PreflightSnapshot) (w : RoundWindow) (head : ℤ) (source : String)
      (common previous : Fields)
      → Keeps I (live_cycle h b c snapshot w head source common previous)
  unfolding live_cycle
  live_cycle-Keeps snapshot w head source common previous =
      Keeps-bind (load_local-Keeps h b c I L.oblivious.tolerant) λ local.
        Keeps-if (not (accepts_at w head c.deadline_margin_blocks))
          (λ _. closed_cycle-Keeps snapshot w head source common previous _ _)
          (λ _. open_cycle-Keeps snapshot w head source previous local _)

  pub round_cycle-Keeps :
      (snapshot : PreflightSnapshot) (head : ℤ) → Keeps I (round_cycle h b c snapshot head)
  unfolding round_cycle
  round_cycle-Keeps snapshot head =
      Keeps-bind (resolve-Keeps h b c I L.oblivious.tolerant head) λ w.
        Keeps-bind (Keeps-lift _) λ source.
          Keeps-bind (read_status-Keeps h I L.oblivious.tolerant) λ previous.
            Keeps-bind (read_submission_pending-Keeps h I L.oblivious.tolerant) λ pending.
              Keeps-if (not (is_end pending))
                (λ _. Keeps-bind (load_local-Keeps h b c I L.oblivious.tolerant) λ local.
                  reconcile_pending-Keeps h b c I L.oblivious snapshot w head source local pending)
                λ _.
                  Keeps-if c.dry_run (λ _. dry_cycle-Keeps h b c I L.oblivious w head _)
                    (λ _. live_cycle-Keeps snapshot w head source _ previous)
