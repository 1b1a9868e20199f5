-- ===== src/Controller/RunEnds.antt =====
-- controller.py: how `run` ends, with `--once` and beside a refusal marker.
use mt.Base.{ℕ, suc, Bool, true, false, ◌≡◌, ◌≢◌, refl, Option, none, some, ℤ, pos, String}
use mt.Errors.{
  Error, Result, ok, err, is_authorization_refused, is_controller_error, authorization_refused,
}
use mt.Models.{PreflightSnapshot}
use mt.System.{Sys, M, Host, pure, attempt, observe, reraise, ◌>>=◌, missing}
use mt.System.Rules.{
  Hoare, Post, returned, raised, Any, Hoare-Keeps, Hoare-bind, Hoare-if, Hoare-pure, Hoare-attempt,
  Hoare-reraise, Hoare-absurd, Hoare-returned,
}
use mt.Json.{Fields}
use mt.State.{write}
use mt.State.Latch.{latch_authorization_refusal}
use mt.Config.{Config}
use mt.Controller.Setup.{Backend, backend_close}
use mt.Controller.Failure.{authorization_failure, message_of, refusal_details}
use mt.Controller.Refused.{suppressed-eq, counted-eq}
use mt.Controller.ReadOnly.{writes, WritesAre, WritesAre-IsOblivious}
use mt.Controller.RunKeeps.{authorization_failure-Keeps}
use mt.Controller.Cycle.{preflight}
use mt.Controller.Latched.{preflight_latched}
use mt.Controller.Run.{
  Turn, reached, refused, failed, exits, Started, ready, ended, closing, finally, until, try_failed,
  try_preflight, start, after_turn, round, turns, started, run_failed, run,
}

abbrev Ends : {W A : Type 0} → Option A → Sys W → Type 0
Ends o s = o ≢ none

module _ {W : Type 0} where
  anything : {A : Type 0} (m : M W A) → Hoare Any Any m (λ _. Any)
  anything m = Hoare-Keeps (record { at = λ s i. tt })

  ends : {A : Type 0} (a : A) → Hoare {W = W} Any Any (pure (some a)) Ends
  ends a = Hoare-pure (some a) λ s i e. cc

  after : {A B : Type 0} (m : M W A) (f : A → B) → Hoare Any Any (m >>= λ a. pure (some (f a))) Ends
  after m f = Hoare-bind (anything m) λ a. ends (f a)

  until-Ends :
      {A : Type 0} (rest : M W (Option A)) (o : Option A) → Hoare Any (Ends o) (until rest o) Ends
  until-Ends rest none = Hoare-absurd λ s n. n refl
  until-Ends rest (some a) = Hoare-pure (some a) λ s i e. cc

module _ {W : Type 0} (h : Host W) (b : Backend W) (c : Config) where
  try_failed-Ends : (e : Error) → Hoare Any Any (try_failed h b c true e) Ends
  unfolding try_failed
  try_failed-Ends e =
      Hoare-if (is_authorization_refused e.kind) (λ _. Hoare-reraise e)
        λ _.
          Hoare-if (is_controller_error e.kind) (λ _. Hoare-bind (anything _) λ _. ends _)
            λ _. Hoare-reraise e

  start-Ends : (fuel : ℕ) → Hoare Any Any (start h b c true (suc fuel)) Ends
  unfolding start try_preflight
  start-Ends fuel =
      Hoare-bind (Hoare-attempt (Hoare-bind (anything _) λ s. ends _) try_failed-Ends)
        (until-Ends _)

  after_turn-Ends : (t : Turn) → Hoare Any Any (after_turn h b c true t) Ends
  unfolding after_turn
  after_turn-Ends exits = ends _
  after_turn-Ends (reached o) = ends _
  after_turn-Ends refused = ends _
  after_turn-Ends failed = ends _

  turns-Ends :
      (fuel : ℕ) (snapshot : PreflightSnapshot)
      → Hoare Any Any (turns h b c true (suc fuel) snapshot) Ends
  unfolding turns round
  turns-Ends fuel snapshot =
      Hoare-bind
        (Hoare-bind (anything _) λ stop.
          Hoare-if stop (λ _. Hoare-bind (anything _) λ code. ends _)
            (λ _. Hoare-bind (anything _) after_turn-Ends))
        (until-Ends _)

  started-Ends :
      (fuel : ℕ) (o : Option Started) → Hoare Any (Ends o) (started h b c true (suc fuel) o) Ends
  unfolding started
  started-Ends fuel none = Hoare-absurd λ s n. n refl
  started-Ends fuel (some (ended code)) = Hoare-pure _ λ s i e. cc
  started-Ends fuel (some (ready snapshot)) =
      Hoare-bind (Hoare-pure tt λ s i. tt) λ _. turns-Ends fuel snapshot

  run_failed-Ends : (e : Error) → Hoare Any Any (run_failed h b c e) Ends
  unfolding run_failed
  run_failed-Ends e =
      Hoare-if (is_authorization_refused e.kind) (λ _. Hoare-bind (anything _) λ _. ends _)
        λ _.
          Hoare-if (is_controller_error e.kind) (λ _. Hoare-bind (anything _) λ _. ends _)
            λ _. Hoare-bind (anything _) λ _. ends _

  finally-Ends :
      {A : Type 0} {m : M W (Option A)} (last : M W (Unit {0}))
      → Hoare Any Any m Ends
      → Hoare Any Any (finally m last) Ends
  unfolding finally
  finally-Ends {A = A} {m} last k = record { at = λ s i p. close (k.at s i p) }
    where
      closed :
          {a : Option A} (o : Result (Unit {0}) × Sys W)
          → a ≢ none
          → Post Any Ends (closing (ok a) o)
      closed (ok x, u) n = returned tt n
      closed (err e, u) n = raised tt

      failed_too :
          (e : Error) (o : Result (Unit {0}) × Sys W)
          → Post {A = Option A} Any Ends (closing (err e) o)
      failed_too e (ok x, u) = raised tt
      failed_too e (err d, u) = raised tt

      close :
          {o : Result (Option A) × Sys W} → Post Any Ends o → Post Any Ends (closing o.0 (last o.1))
      close (returned i n) = closed (last _) n
      close (raised i) = failed_too _ (last _)

  -- With `--once`, one attempt of the preflight and one cycle are enough: a run that returns has an exit
  -- code, and is never out of fuel.
  pub run_once_ends :
      (fuel : ℕ) (s t : Sys W) (code : Option ℤ)
      → run h b c true (suc fuel) s ≡ (ok code, t)
      → code ≢ none
  unfolding run
  run_once_ends fuel s t code e =
      Hoare-returned
        (finally-Ends _
          (Hoare-attempt (Hoare-bind (start-Ends fuel) (started-Ends fuel)) run_failed-Ends))
        e

  -- The handler of a refused authorization returns, whatever the disk does.
  authorization_failure-returns :
      (e : Error) (s : Sys W)
      → authorization_failure h c e s ≡ (ok tt, (authorization_failure h c e s).1)
  unfolding authorization_failure ◌>>=◌
  authorization_failure-returns e s =
      let (n, counting) = counted-eq h c s in
      let message : String = message_of h c e in
      let details : Fields = refusal_details h c message n in
      let u : Sys W = (latch_authorization_refusal h message details none s).1 in
      rw (
        counting,
        suppressed-eq h c (latch_authorization_refusal h message details none) s,
        suppressed-eq h c (write h "authorization_refused" false message none details none) u,
      )

  start-refused :
      (once : Bool) (fuel : ℕ) (s : Sys W) (text : String)
      → preflight h b c s ≡ (err (record { kind = authorization_refused; text = text }), s)
      → start h b c once (suc fuel) s
        ≡ (err (record { kind = authorization_refused; text = text }), s)
  unfolding start try_preflight try_failed is_authorization_refused attempt ◌>>=◌ reraise
  start-refused once fuel s text e = rw e

  -- Whatever stands for the refusal marker when the process starts, it ends with code 3, unless the
  -- close of the backend raises, after no other call that others could see.
  pub run_latched :
      (once : Bool) (fuel : ℕ) (s : Sys W)
      → s.files.authorization ≢ missing
      → (t : Sys W) × (run h b c once (suc fuel) s
          ≡ closing (ok (some (pos 3))) (backend_close b t))
        × (writes t.events ≡ writes s.events)
  unfolding run finally attempt run_failed is_authorization_refused ◌>>=◌ pure observe
  run_latched once fuel s present =
      let (text, refuses) = preflight_latched h s present b c in
      let e : Error = record { kind = authorization_refused; text = text } in
      let u : Sys W = (authorization_failure h c e s).1 in
      let ws = writes s.events in
      (
        record u { world = h.monitor_stop u.world },
        rw (start-refused once fuel s text refuses, authorization_failure-returns e s),
        (authorization_failure-Keeps h {b = b} (WritesAre ws)
              (record { oblivious = WritesAre-IsOblivious ws; authorization = λ s f i. i }) c e).at
            s refl,
      )
