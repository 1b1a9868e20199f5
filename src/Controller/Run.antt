-- ===== src/Controller/Run.antt =====
-- controller.py: `preflight_only` and `run`, whose two loops are on fuel: a run that is out of fuel
-- gives `none`. The lock of the state directory is left out.
use mt.Base.{ℕ, zero, suc, String, Bool, true, false, Option, none, some, ℤ, pos, if◌then◌else◌}
use mt.State.{write}
use mt.Errors.{
  Result, Error, ok, err, is_authorization_refused, is_artifact_binding, is_round_refused,
  is_controller_error,
}
use mt.Models.{PreflightSnapshot}
use mt.System.{Sys, M, Host, pure, attempt, reraise, observe, ◌>>=◌, ◌>>◌}
use mt.Controller.Setup.{Backend, static_details, backend_close}
use mt.Config.{Config, uses_signed_v030}
use mt.Controller.Verify.{Outcome, verified, waiting, dry_run}
use mt.Controller.Cycle.{preflight, cycle}
use mt.Controller.Failure.{failure, waiting_for_trusted_round, authorization_failure}

-- How a turn of the loop ends: with an outcome of the cycle, with a failure that was recorded, or
-- with the exit of the process with code 3.
pub data Turn : Type 0 where
  reached : Outcome → Turn
  refused failed exits : Turn

-- What the first loop of `run` ends with.
pub data Started : Type 0 where
  ready : PreflightSnapshot → Started
  ended : ℤ → Started

-- What `finally: last` leaves of the outcome of a block.
abbrev pub closing : {W A : Type 0} → Result A → Result (Unit {0}) × Sys W → Result A × Sys W
closing r (ok x, u) = (r, u)
closing r (err e, u) = (err e, u)

-- `try: m finally: last`
unfoldable pub finally : {W A : Type 0} → M W A → M W (Unit {0}) → M W A
finally m last s = let (r, t) = m s in closing r (last t)

-- The end of a loop that was reached, or else the rest of the loop.
abbrev pub until : {W A : Type 0} → M W (Option A) → Option A → M W (Option A)
until rest none = rest
until rest (some a) = pure (some a)

module _ {W : Type 0} (h : Host W) (b : Backend W) (c : Config) where
  unfoldable pub preflight_failed : Error → M W ℤ
  preflight_failed e =
      if is_authorization_refused e.kind
      then (do authorization_failure h c e; pure (pos 3))
      else if is_controller_error e.kind
      then (do failure h c "preflight_refused" e; pure (pos 2))
      else (do failure h c "preflight_error" e; pure (pos 1))

  unfoldable pub preflight_only : M W ℤ
  preflight_only =
      finally (attempt (do preflight h b c; pure (pos 0)) preflight_failed) (backend_close b)

  -- The handlers of the loop, in their order.
  unfoldable pub turn_failed : Error → M W Turn
  turn_failed e =
      if is_authorization_refused e.kind
      then (do authorization_failure h c e; pure exits)
      else if is_artifact_binding e.kind
      then (do failure h c "artifact_competition_refused" e; pure refused)
      else if is_round_refused e.kind
      then if uses_signed_v030 c
        then (do waiting_for_trusted_round h c e; pure (reached waiting))
        else (do failure h c "round_refused" e; pure refused)
      else (do failure h c "error" e; pure failed)

  unfoldable pub turn : PreflightSnapshot → M W Turn
  turn snapshot = attempt (do o ← cycle h b c snapshot; pure (reached o)) turn_failed

  unfoldable pub stopped_cleanly : M W ℤ
  stopped_cleanly = do
    write h "stopped" false "controller stopped cleanly" none (static_details c) none
    pure (pos 0)

  unfoldable pub refused_phase : Error → String
  refused_phase e =
      if is_artifact_binding e.kind then "artifact_competition_refused" else "preflight_refused"

  -- The handler of a preflight that was refused: `none` is another attempt.
  unfoldable pub try_failed : Bool → Error → M W (Option Started)
  try_failed once e =
      if is_authorization_refused e.kind
      then reraise e
      else if is_controller_error e.kind
      then (do
        failure h c (refused_phase e) e
        if once then pure (some (ended (pos 2))) else (do
          stop ← observe (h.stop_wait c.retry_seconds)
          if stop then (do code ← stopped_cleanly; pure (some (ended code))) else pure none))
      else reraise e

  unfoldable pub try_preflight : Bool → M W (Option Started)
  try_preflight once =
      attempt (do snapshot ← preflight h b c; pure (some (ready snapshot))) (try_failed once)

  unfoldable pub start : Bool → ℕ → M W (Option Started)
  start once zero = pure none
  start once (suc fuel) = do r ← try_preflight once; until (start once fuel) r

  abbrev pub is_good : Turn → Bool
  is_good (reached verified) = true
  is_good (reached dry_run) = true
  is_good _ = false

  abbrev pub is_waiting : Turn → Bool
  is_waiting (reached o) = true
  is_waiting _ = false

  -- The end of a turn: the exit code, or `none` after the delay.
  unfoldable pub after_turn : Bool → Turn → M W (Option ℤ)
  after_turn once exits = pure (some (pos 3))
  after_turn once t = if once then pure (some (if is_good t then pos 0 else pos 2)) else (do
    observe (h.stop_wait (if is_waiting t then c.poll_seconds else c.retry_seconds))
    pure none)

  -- One round of the loop, and whether it was the last.
  unfoldable pub round : Bool → PreflightSnapshot → M W (Option ℤ)
  round once snapshot = do
    stop ← observe h.stop_is_set
    if stop
        then (do code ← stopped_cleanly; pure (some code))
        else (do t ← turn snapshot; after_turn once t)

  unfoldable pub turns : Bool → ℕ → PreflightSnapshot → M W (Option ℤ)
  turns once zero snapshot = pure none
  turns once (suc fuel) snapshot = do r ← round once snapshot; until (turns once fuel snapshot) r

  unfoldable pub started : Bool → ℕ → Option Started → M W (Option ℤ)
  started once fuel none = pure none
  started once fuel (some (ended code)) = pure (some code)
  started once fuel (some (ready snapshot)) = do
    if once then pure tt else observe (λ w. (tt, h.monitor_start snapshot.hotkey w))
    turns once fuel snapshot

  unfoldable pub run_failed : Error → M W (Option ℤ)
  run_failed e =
      if is_authorization_refused e.kind
      then (do authorization_failure h c e; pure (some (pos 3)))
      else if is_controller_error e.kind
      then (do failure h c "preflight_refused" e; pure (some (pos 2)))
      else (do failure h c "fatal" e; pure (some (pos 1)))

  unfoldable pub run : Bool → ℕ → M W (Option ℤ)
  run once fuel =
      finally (attempt (do s ← start once fuel; started once fuel s) run_failed)
        (do observe (λ w. (tt, h.monitor_stop w)); backend_close b)
