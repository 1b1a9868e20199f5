-- ===== src/Controller/RunSafety.antt =====
-- controller.py: what others see of a whole `run`.
use mt.Base.{ℕ, Bool, true, ◌≡◌, refl}
use mt.System.{Sys, Host}
use mt.Config.{Config}
use mt.Controller.Setup.{Backend}
use mt.Controller.Harmless.{cycle-Keeps, round_cycle-Keeps_dry}
use mt.Controller.LoudCycle.{round_cycle-Keeps}
use mt.Controller.Publish.{AllCovered, I, oblivious, loud}
use mt.Controller.ReadOnly.{writes, WritesAre, WritesAre-IsOblivious}
use mt.Controller.Run.{run}
use mt.Controller.RunKeeps.{run-Keeps}

module _ {W : Type 0} (h : Host W) (b : Backend W) (c : Config) where
  -- From a record of calls in which every broadcast was made with its marker on disk, every broadcast
  -- of a run of the process is made while the durable pending marker for that very artifact stands on
  -- disk, for any number of cycles, whatever the backend answers and whichever writes fail.
  pub run_marked :
      (once : Bool) (fuel : ℕ) (s : Sys W)
      → AllCovered h s.events
      → AllCovered h (run h b c once fuel s).1.events
  run_marked once fuel s covered =
      (run-Keeps h b c (I h) (record { oblivious = oblivious h; authorization = λ s f i. i })
          (λ snapshot.
            cycle-Keeps h b c (I h) (oblivious h) snapshot
              (round_cycle-Keeps h b c (I h) (loud h) snapshot))
          once fuel).at
        s covered

  -- With a configuration of a dry run, a run of the process packages, uploads and publishes nothing,
  -- however many cycles it makes.
  pub run_dry_run :
      (once : Bool) (fuel : ℕ) (s : Sys W)
      → c.dry_run ≡ true
      → writes (run h b c once fuel s).1.events ≡ writes s.events
  run_dry_run once fuel s dry =
      let ws = writes s.events in
      (run-Keeps h b c (WritesAre ws)
          (record { oblivious = WritesAre-IsOblivious ws; authorization = λ s f i. i })
          (λ snapshot. cycle-Keeps h b c (WritesAre ws) (WritesAre-IsOblivious ws) snapshot λ head.
            round_cycle-Keeps_dry h b c (WritesAre ws) (WritesAre-IsOblivious ws) snapshot head dry)
          once fuel).at
        s refl
