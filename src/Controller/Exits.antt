-- ===== src/Controller/Exits.antt =====
-- controller.py: the loop of `run` when a cycle raised a refused authorization.
use mt.Base.{ℕ, suc, Bool, true, false, ◌≡◌, some, pos}
use mt.Errors.{Error, ok, err, is_authorization_refused}
use mt.Models.{PreflightSnapshot}
use mt.System.{Sys, Host, pure, attempt, observe, ◌>>=◌}
use mt.Controller.Setup.{Backend}
use mt.Config.{Config}
use mt.Controller.Cycle.{preflight, cycle}
use mt.Controller.Latched.{Refuses}
use mt.Controller.Refused.{IsWorking, authorization_failure_latches}
use mt.Controller.Run.{exits, turn, turn_failed, after_turn, round, turns}

module _ {W : Type 0} (h : Host W) (b : Backend W) (c : Config) (snapshot : PreflightSnapshot) where
  -- After a cycle that raised a refused authorization, the turn is the last one.
  turn-exits :
      (s u : Sys W) (e : Error)
      → IsWorking h
      → is_authorization_refused e.kind ≡ true
      → cycle h b c snapshot s ≡ (err e, u)
      → (t : Sys W) × (turn h b c snapshot s ≡ (ok exits, t))
        × Refuses (preflight h b c) t
        × Refuses (cycle h b c snapshot) t
  unfolding turn turn_failed attempt ◌>>=◌ pure
  turn-exits s u e works refusal raised =
      let (t, returned, first, second) = authorization_failure_latches h works b c snapshot e u in
      (t, rw (raised, refusal, returned), first, second)

  -- Where the clock answers, the disk works and no stop was asked for: when the cycle of the next turn
  -- raises a refused authorization, the loop of the process returns the exit code 3 with no further
  -- turn, whatever fuel is left and with or without `--once`, and in the state that it leaves a
  -- preflight and a cycle refuse and change nothing.
  pub turns_exit_latched :
      (once : Bool) (fuel : ℕ) (s u : Sys W) (e : Error)
      → IsWorking h
      → (h.stop_is_set s.world).0 ≡ false
      → is_authorization_refused e.kind ≡ true
      → cycle h b c snapshot (record s { world = (h.stop_is_set s.world).1 }) ≡ (err e, u)
      → (t : Sys W) × (turns h b c once (suc fuel) snapshot s ≡ (ok (some (pos 3)), t))
        × Refuses (preflight h b c) t
        × Refuses (cycle h b c snapshot) t
  unfolding turns round after_turn observe ◌>>=◌ pure
  turns_exit_latched once fuel s u e works going refusal raised =
      let (t, last, first, second) = turn-exits _ u e works refusal raised in
      (t, rw (going, last), first, second)
