-- ===== src/Controller/Refused.antt =====
-- controller.py: what `_authorization_failure` leaves on disk.
use mt.Base.{
  ℕ, String, Bool, true, false, not, ◌&&◌, ◌≡◌, refl, sym, ◌∙◌, ap, none, ℤ, pos, arith,
  if◌then◌else◌,
}
use mt.Json.{Fields, is_end, is_true, get}
use mt.Errors.{Error, Result, ok, err}
use mt.Models.{PreflightSnapshot}
use mt.System.{missing, done, Sys, M, Host, pure, lift, attempt, outside, continue, ◌>>=◌}
use mt.State.Read.{
  read, read_marker, read_status, time, settle, replace_or, replace, write_authorization,
}
use mt.State.Latch.{
  read_refusal_file, read_authorization_refusal, write_refusal, latch_authorization_refusal,
}
use mt.State.{write}
use mt.Controller.Setup.{Backend}
use mt.Config.{Config}
use mt.Controller.Cycle.{preflight, cycle}
use mt.Controller.Failure.{
  next_failures, suppressed, counted, message_of, refusal_details, authorization_failure,
}
use mt.Controller.Quiet.{IsTolerant, Anywhere, anywhere, write-Keeps}
use mt.Controller.Latched.{Refuses, preflight_latched, cycle_latched}
use mt.Controller.Stops.{Present, present}

-- The clock answers and every replacement of a file succeeds.
pub record IsWorking {W : Type 0} (h : Host W) : Type 0 where
  pub clock : (w : W) → (t : ℕ) × ((h.now w).0 ≡ ok t)
  pub disk : (w : W) → (h.effect w).0 ≡ done

module _ {W : Type 0} (h : Host W) where
  ends :
      {A : Type 0} (r : Result A) (t : Sys W)
      → (let o = continue r (λ a. pure tt) (λ e u. (err e, u)) t in
          continue o.0 (λ a u. (ok a, u)) (λ e. pure tt) o.1)
        ≡ (ok tt, t)
  unfolding pure
  ends (ok a) t = refl
  ends (err e) t = refl

  pub suppressed-eq :
      (c : Config) {A : Type 0} (m : M W A) (s : Sys W) → suppressed h c m s ≡ (ok tt, (m s).1)
  unfolding suppressed attempt ◌>>=◌
  suppressed-eq c m s = ends (m s).0 (m s).1

  pub counted-eq : (c : Config) (s : Sys W) → (n : ℤ) × (counted h c s ≡ (ok n, s))
  unfolding counted attempt ◌>>=◌ read_status lift pure
  counted-eq c s = of_status (read s.files.status) refl
    where
      of_count :
          (d : Fields) (r : Result ℤ)
          → read s.files.status ≡ ok d
          → next_failures h.py d ≡ r
          → (n : ℤ) × (counted h c s ≡ (ok n, s))
      of_count d (ok n) e f = (n, rw (e, f))
      of_count d (err x) e f = (pos 1, rw (e, f))

      of_status :
          (r : Result Fields) → read s.files.status ≡ r → (n : ℤ) × (counted h c s ≡ (ok n, s))
      of_status (ok d) e = of_count d (next_failures h.py d) e refl
      of_status (err x) e = (pos 1, rw e)

  Present-IsTolerant : {b : Backend W} → IsTolerant h b (Present h)
  Present-IsTolerant = record {
    Move = Anywhere;
    within = anywhere;
    world = λ s w m i. i;
    status = λ s f i. i;
    health = λ s f i. i;
    event = λ s e q i. i;
  }

  -- A marker that cannot be read is there.
  unread :
      (s : Sys W) (x : Error) → read_refusal_file h.py s.files.authorization ≡ err x → Present h s
  unfolding read_refusal_file read_marker
  unread s x e gone =
      let from_missing : read_refusal_file h.py missing ≡ err x =
        ap (read_refusal_file h.py) (sym gone) ∙ e in
      ground arith

  module _ (works : IsWorking h) where
    write_refusal-Present :
        (message : String) (details : Fields) (s : Sys W)
        → Present h (write_refusal h message details none s).1
    unfolding write_refusal time outside ◌>>=◌ pure write_authorization replace replace_or settle
    write_refusal-Present message details s =
        rw ((works.clock s.world).1, works.disk (h.now s.world).1) (λ e. cc)

    latch-Present :
        (message : String) (details : Fields) (s : Sys W)
        → Present h (latch_authorization_refusal h message details none s).1
    unfolding latch_authorization_refusal read_authorization_refusal ◌>>=◌ pure
    latch-Present message details s = by_marker (read_refusal_file h.py s.files.authorization) refl
      where
        by_marker :
            (r : Result Fields)
            → read_refusal_file h.py s.files.authorization ≡ r
            → Present h (latch_authorization_refusal h message details none s).1
        by_marker (err x) e = rw e (unread s x e)
        by_marker (ok m) e = rw e (
            written (not (is_end m) && not (is_true (get "marker_invalid" m)))
              (λ q. present h m s.files.authorization e (ground arith)))
          where
            written :
                (b : Bool)
                → (b ≡ true → Present h s)
                → Present h ((if b then pure m else write_refusal h message details none) s).1
            written true p = p refl
            written false p = write_refusal-Present message details s

    -- Where the clock answers and the disk works, the handler of a refused authorization returns, and
    -- from then on a preflight and a cycle refuse and change nothing.
    pub authorization_failure_latches :
        (b : Backend W) (c : Config) (snapshot : PreflightSnapshot) (e : Error) (s : Sys W)
        → (t : Sys W) × (authorization_failure h c e s ≡ (ok tt, t))
          × Refuses (preflight h b c) t
          × Refuses (cycle h b c snapshot) t
    unfolding authorization_failure ◌>>=◌
    authorization_failure_latches b c snapshot e s =
        let (n, counting) = counted-eq c s in
        let message : String = message_of h c e in
        let details : Fields = refusal_details h c message n in
        let u : Sys W = (latch_authorization_refusal h message details none s).1 in
        let t : Sys W = (write h "authorization_refused" false message none details none u).1 in
        let there : Present h t =
          (write-Keeps h {b = b} (Present h) Present-IsTolerant _ _ _ _ _ _).at u
            (latch-Present message details s) in
        (
          t,
          rw (
            counting,
            suppressed-eq c (latch_authorization_refusal h message details none) s,
            suppressed-eq c (write h "authorization_refused" false message none details none) u,
          ),
          preflight_latched h t there b c,
          cycle_latched h t there b c snapshot,
        )
