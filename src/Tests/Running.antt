-- ===== src/Tests/Running.antt =====
-- The theorems about `run` at small runs.
use mt.Base.{ℕ, true, false, ◌≡◌, ◌≢◌, refl, Option, some, pos}
use mt.Errors.{ok}
use mt.System.{Sys}
use mt.Controller.Setup.{backend_close}
use mt.Controller.ReadOnly.{writes}
use mt.Controller.Publish.{AllCovered}
use mt.Controller.Run.{closing, run}
use mt.Controller.RunSafety.{run_marked, run_dry_run}
use mt.Controller.RunEnds.{run_once_ends, run_latched}
use mt.Tests.{host, backend, config, clean, latched}

run_marked_example : AllCovered host (run host backend (config false) true 3 clean).1.events
run_marked_example = run_marked host backend (config false) true 3 clean tt

run_dry_run_example :
    writes (run host backend (config true) false 3 clean).1.events ≡ writes clean.events
run_dry_run_example = run_dry_run host backend (config true) false 3 clean refl

run_latched_example :
    (t : Sys ℕ) × (run host backend (config false) true 1 latched
      ≡ closing (ok (some (pos 3))) (backend_close backend t))
    × (writes t.events ≡ writes latched.events)
run_latched_example = run_latched host backend (config false) true 0 latched λ e. cc

abbrev after_run : Sys ℕ
after_run = (backend_close backend run_latched_example.0).1

exits_three : run host backend (config false) true 1 latched ≡ (ok (some (pos 3)), after_run)
unfolding backend_close mt.System.call
exits_three = run_latched_example.1

run_once_ends_example : some (pos 3) ≢ Option.none
run_once_ends_example =
    run_once_ends host backend (config false) 0 latched after_run (some (pos 3)) exits_three
