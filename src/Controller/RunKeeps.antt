-- ===== src/Controller/RunKeeps.antt =====
-- controller.py: which invariants `preflight_only` and the whole of `run` leave alone.
use mt.Base.{ℕ, zero, suc, String, Bool, not, ◌&&◌, Option, none, some, refl}
use mt.Json.{Fields, is_end, is_true, get}
use mt.Errors.{
  Result, Error, ok, err, is_authorization_refused, is_artifact_binding, is_round_refused,
  is_controller_error,
}
use mt.Models.{PreflightSnapshot}
use mt.System.{File, Sys, M, Host, observe, pure, ◌>>◌}
use mt.System.Rules.{
  Keeps, Keeps-pure, Keeps-reraise, Keeps-lift, Keeps-if, Keeps-attempt, Keeps-bind,
}
use mt.State.Read.{write_authorization}
use mt.State.Latch.{read_authorization_refusal, write_refusal, latch_authorization_refusal}
use mt.State.Replace.{replace_or-Keeps}
use mt.Config.{Config, uses_signed_v030}
use mt.Controller.Setup.{Backend, backend_preflight, backend_close}
use mt.Controller.Cycle.{preflight, cycle}
use mt.Controller.Failure.{
  failure, waiting_for_trusted_round, suppressed, counted, authorization_failure,
}
use mt.Controller.Run.{
  Turn, exits, Started, ready, ended, closing, finally, until, preflight_failed, preflight_only,
  turn_failed, turn, stopped_cleanly, try_failed, try_preflight, start, after_turn, round, turns,
  started, run_failed, run,
}
use mt.Controller.Quiet.{
  is_write, IsTolerant, effect_kept, time-Keeps, read_status-Keeps, write-Keeps, call-Keeps,
}
use mt.Controller.Harmless.{IsOblivious, assert_not_latched-Keeps}

-- An invariant that does not speak of the refusal marker either.
pub record IsBlind {W : Type 0} (h : Host W) (b : Backend W) (I : Sys W → Type 0) : Type 1 where
  pub oblivious : IsOblivious h b I
  pub authorization :
      (s : Sys W) (f : File) → I s → I (record s { files = record s.files { authorization = f } })

module _ {W : Type 0} {I : Sys W → Type 0} where
  pub finally-Keeps :
      {A : Type 0} {m : M W A} {last : M W (Unit {0})}
      → Keeps I m
      → Keeps I last
      → Keeps I (finally m last)
  unfolding finally
  finally-Keeps {A = A} {m} {last} km kl = record {
    at = λ s i. ends (m s).0 (last (m s).1) (kl.at _ (km.at s i));
  }
    where
      ends : (r : Result A) (o : Result (Unit {0}) × Sys W) → I o.1 → I (closing r o).1
      ends r (ok x, u) i = i
      ends r (err e, u) i = i

  until-Keeps :
      {A : Type 0} {rest : M W (Option A)} → Keeps I rest → (o : Option A) → Keeps I (until rest o)
  until-Keeps k none = k
  until-Keeps k (some a) = Keeps-pure _

  observe-Keeps :
      {h : Host W} {b : Backend W} (T : IsTolerant h b I) {A : Type 0} (f : W → A × W)
      → ((w : W) → T.Move w (f w).1)
      → Keeps I (observe f)
  unfolding observe
  observe-Keeps T f m = record { at = λ s i. T.world s (f s.world).1 (m s.world) i }

module _ {W : Type 0} (h : Host W) {b : Backend W} (I : Sys W → Type 0) (B : IsBlind h b I) where
  tolerant : IsTolerant h b I
  tolerant = B.oblivious.tolerant

  write_refusal-Keeps :
      (message : String) (details : Fields) → Keeps I (write_refusal h message details none)
  unfolding write_refusal write_authorization
  write_refusal-Keeps message details = Keeps-bind (time-Keeps h I tolerant none) λ t.
      Keeps-bind (replace_or-Keeps h I _ _ (effect_kept I tolerant) (λ s i. B.authorization s _ i))
        λ _. Keeps-pure _

  latch-Keeps :
      (message : String) (details : Fields)
      → Keeps I (latch_authorization_refusal h message details none)
  unfolding latch_authorization_refusal read_authorization_refusal
  latch-Keeps message details =
      Keeps-bind (record { at = λ s i. i })
        λ existing.
          Keeps-if (not (is_end existing) && not (is_true (get "marker_invalid" existing)))
            (λ _. Keeps-pure _) (λ _. write_refusal-Keeps message details)

  module _ (c : Config) where
    suppressed-Keeps : {A : Type 0} {m : M W A} → Keeps I m → Keeps I (suppressed h c m)
    unfolding suppressed
    suppressed-Keeps k = Keeps-attempt (Keeps-bind k λ _. Keeps-pure tt) (λ e. Keeps-pure tt)

    counted-Keeps : Keeps I (counted h c)
    unfolding counted
    counted-Keeps =
        Keeps-attempt (Keeps-bind (read_status-Keeps h I tolerant) λ d. Keeps-lift _)
          (λ e. Keeps-pure _)

    pub authorization_failure-Keeps : (e : Error) → Keeps I (authorization_failure h c e)
    unfolding authorization_failure
    authorization_failure-Keeps e = Keeps-bind counted-Keeps λ n.
        Keeps-bind (suppressed-Keeps (latch-Keeps _ _))
          λ _. suppressed-Keeps (write-Keeps h I tolerant _ _ _ _ _ _)

    failure-Keeps : (phase : String) (e : Error) → Keeps I (failure h c phase e)
    unfolding failure
    failure-Keeps phase e = Keeps-bind (read_status-Keeps h I tolerant) λ d.
        Keeps-bind (Keeps-lift _)
          λ n. Keeps-bind (write-Keeps h I tolerant _ _ _ _ _ _) λ _. Keeps-pure tt

    waiting_for_trusted_round-Keeps : (e : Error) → Keeps I (waiting_for_trusted_round h c e)
    unfolding waiting_for_trusted_round
    waiting_for_trusted_round-Keeps e =
        Keeps-bind (write-Keeps h I tolerant _ _ _ _ _ _) λ _. Keeps-pure tt

    stopped_cleanly-Keeps : Keeps I (stopped_cleanly h b c)
    unfolding stopped_cleanly
    stopped_cleanly-Keeps = Keeps-bind (write-Keeps h I tolerant _ _ _ _ _ _) λ _. Keeps-pure _

module _ {W : Type 0} (h : Host W) (b : Backend W) (c : Config) (I : Sys W → Type 0)
    (B : IsBlind h b I) where
  close-Keeps : Keeps I (backend_close b)
  unfolding backend_close is_write
  close-Keeps = call-Keeps I B.oblivious.tolerant _ _ refl B.oblivious.tolerant.within.close

  preflight-Keeps : Keeps I (preflight h b c)
  unfolding preflight backend_preflight is_write
  preflight-Keeps = Keeps-bind (assert_not_latched-Keeps h I B.oblivious.tolerant) λ _.
      Keeps-bind (write-Keeps h I B.oblivious.tolerant _ _ _ _ _ _) λ _.
        Keeps-bind
          (call-Keeps I B.oblivious.tolerant _ _ refl B.oblivious.tolerant.within.preflight)
          λ snapshot.
            Keeps-bind (write-Keeps h I B.oblivious.tolerant _ _ _ _ _ _) λ _. Keeps-pure _

  -- A handler that records the refusal or the failure and goes on with a value.
  recorded :
      {A : Type 0} (phase : String) (e : Error) (a : A) → Keeps I (do failure h c phase e; pure a)
  recorded phase e a = Keeps-bind (failure-Keeps h I B c phase e) λ _. Keeps-pure a

  latched : {A : Type 0} (e : Error) (a : A) → Keeps I (do authorization_failure h c e; pure a)
  latched e a = Keeps-bind (authorization_failure-Keeps h I B c e) λ _. Keeps-pure a

  pub preflight_only-Keeps : Keeps I (preflight_only h b c)
  unfolding preflight_only preflight_failed
  preflight_only-Keeps =
      finally-Keeps
        (Keeps-attempt (Keeps-bind preflight-Keeps λ _. Keeps-pure _) λ e.
          Keeps-if (is_authorization_refused e.kind) (λ _. latched e _)
            λ _. Keeps-if (is_controller_error e.kind) (λ _. recorded _ e _) λ _. recorded _ e _)
        close-Keeps

  turn_failed-Keeps : (e : Error) → Keeps I (turn_failed h b c e)
  unfolding turn_failed
  turn_failed-Keeps e =
      Keeps-if (is_authorization_refused e.kind) (λ _. latched e _)
        λ _.
          Keeps-if (is_artifact_binding e.kind) (λ _. recorded _ e _)
            λ _.
              Keeps-if (is_round_refused e.kind)
                (λ _.
                  Keeps-if (uses_signed_v030 c)
                    (λ _. Keeps-bind (waiting_for_trusted_round-Keeps h I B c e) λ _. Keeps-pure _)
                    (λ _. recorded _ e _))
                λ _. recorded _ e _

  try_failed-Keeps : (once : Bool) (e : Error) → Keeps I (try_failed h b c once e)
  unfolding try_failed
  try_failed-Keeps once e =
      Keeps-if (is_authorization_refused e.kind) (λ _. Keeps-reraise e)
        λ _.
          Keeps-if (is_controller_error e.kind)
            (λ _. Keeps-bind (failure-Keeps h I B c _ e) λ _.
              Keeps-if once (λ _. Keeps-pure _)
                λ _.
                  Keeps-bind
                    (observe-Keeps B.oblivious.tolerant _ (B.oblivious.tolerant.within.stop_wait _))
                    λ stop.
                      Keeps-if stop
                        (λ _. Keeps-bind (stopped_cleanly-Keeps h I B c) λ code. Keeps-pure _)
                        (λ _. Keeps-pure _))
            λ _. Keeps-reraise e

  run_failed-Keeps : (e : Error) → Keeps I (run_failed h b c e)
  unfolding run_failed
  run_failed-Keeps e =
      Keeps-if (is_authorization_refused e.kind) (λ _. latched e _)
        λ _. Keeps-if (is_controller_error e.kind) (λ _. recorded _ e _) λ _. recorded _ e _

  start-Keeps : (once : Bool) (fuel : ℕ) → Keeps I (start h b c once fuel)
  unfolding start try_preflight
  start-Keeps once zero = Keeps-pure none
  start-Keeps once (suc fuel) =
      Keeps-bind
        (Keeps-attempt (Keeps-bind preflight-Keeps λ s. Keeps-pure _) (try_failed-Keeps once))
        (until-Keeps (start-Keeps once fuel))

  after_turn-Keeps : (once : Bool) (t : Turn) → Keeps I (after_turn h b c once t)
  unfolding after_turn
  after_turn-Keeps once exits = Keeps-pure _
  after_turn-Keeps once t =
      Keeps-if once (λ _. Keeps-pure _)
        λ _.
          Keeps-bind
            (observe-Keeps B.oblivious.tolerant _ (B.oblivious.tolerant.within.stop_wait _))
            λ _. Keeps-pure _

  module _ (kept : (snapshot : PreflightSnapshot) → Keeps I (cycle h b c snapshot)) where
    turn-Keeps : (snapshot : PreflightSnapshot) → Keeps I (turn h b c snapshot)
    unfolding turn
    turn-Keeps snapshot =
        Keeps-attempt (Keeps-bind (kept snapshot) λ o. Keeps-pure _) turn_failed-Keeps

    round-Keeps : (once : Bool) (snapshot : PreflightSnapshot) → Keeps I (round h b c once snapshot)
    unfolding round
    round-Keeps once snapshot =
        Keeps-bind (observe-Keeps B.oblivious.tolerant _ B.oblivious.tolerant.within.stop_is_set)
          λ stop.
            Keeps-if stop (λ _. Keeps-bind (stopped_cleanly-Keeps h I B c) λ code. Keeps-pure _)
              (λ _. Keeps-bind (turn-Keeps snapshot) λ t. after_turn-Keeps once t)

    turns-Keeps :
        (once : Bool) (fuel : ℕ) (snapshot : PreflightSnapshot)
        → Keeps I (turns h b c once fuel snapshot)
    unfolding turns
    turns-Keeps once zero snapshot = Keeps-pure none
    turns-Keeps once (suc fuel) snapshot =
        Keeps-bind (round-Keeps once snapshot) (until-Keeps (turns-Keeps once fuel snapshot))

    started-Keeps :
        (once : Bool) (fuel : ℕ) (o : Option Started) → Keeps I (started h b c once fuel o)
    unfolding started
    started-Keeps once fuel none = Keeps-pure none
    started-Keeps once fuel (some (ended code)) = Keeps-pure _
    started-Keeps once fuel (some (ready snapshot)) =
        Keeps-bind
          (Keeps-if once (λ _. Keeps-pure tt)
            (λ _.
              observe-Keeps B.oblivious.tolerant _ (B.oblivious.tolerant.within.monitor_start _)))
          λ _. turns-Keeps once fuel snapshot

    pub run-Keeps : (once : Bool) (fuel : ℕ) → Keeps I (run h b c once fuel)
    unfolding run
    run-Keeps once fuel =
        finally-Keeps
          (Keeps-attempt (Keeps-bind (start-Keeps once fuel) (started-Keeps once fuel))
            run_failed-Keeps)
          (Keeps-bind
            (observe-Keeps B.oblivious.tolerant _ B.oblivious.tolerant.within.monitor_stop)
            λ _. close-Keeps)
