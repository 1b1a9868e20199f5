-- ===== src/Controller/Publish.antt =====
-- controller.py: the broadcasts of a cycle and the pending marker at that moment.
use mt.Base.{false, ◌≡◌, List, [], ◌∷◌}
use mt.Models.{PreflightSnapshot}
use mt.System.{Files, Call, Event, Sys, Host, publish, preflight}
use mt.Controller.Setup.{Backend}
use mt.Config.{Config}
use mt.Controller.Cycle.{cycle}
use mt.Controller.Loud.{IsCovered, IsLoud}
use mt.Controller.LoudCycle.{round_cycle-Keeps}
use mt.Controller.Quiet.{is_write, Anywhere, anywhere}
use mt.Controller.Harmless.{IsOblivious, cycle-Keeps}

-- Every broadcast among the events was made with its marker on disk.
abbrev pub AllCovered : {W : Type 0} → Host W → List Event → Type 0
AllCovered h [] = Unit
AllCovered h (e ∷ l) = IsCovered h e.call e.files × AllCovered h l

quiet-IsCovered :
    {W : Type 0} (h : Host W) (c : Call) (files : Files) → is_write c ≡ false → IsCovered h c files
unfolding is_write
quiet-IsCovered h (publish p) files q = cc
quiet-IsCovered h preflight files q = tt
quiet-IsCovered h _ files q = tt

module _ {W : Type 0} (h : Host W) where
  abbrev pub I : Sys W → Type 0
  I s = AllCovered h s.events

  pub oblivious : {b : Backend W} → IsOblivious h b I
  oblivious = record {
    tolerant = record {
      Move = Anywhere;
      within = anywhere;
      world = λ s w m i. i;
      status = λ s f i. i;
      health = λ s f i. i;
      event = λ s e q i. (quiet-IsCovered h e.call e.files q, i);
    };
    pending = λ s f i. i;
  }

  pub loud : {b : Backend W} → IsLoud h b I
  loud = record { oblivious = oblivious; event = λ s e q i. (q, i) }

-- From a record of calls in which every broadcast was made with its marker on disk, every broadcast
-- of a cycle is made while the durable pending marker for that very artifact stands on disk, whatever
-- the backend answers and whichever writes fail.
pub publish_marked :
    {W : Type 0} (h : Host W) (b : Backend W) (c : Config) (snapshot : PreflightSnapshot)
    (s : Sys W)
    → AllCovered h s.events
    → AllCovered h (cycle h b c snapshot s).1.events
publish_marked h b c snapshot s covered =
    (cycle-Keeps h b c (I h) (oblivious h) snapshot
        (round_cycle-Keeps h b c (I h) (loud h) snapshot)).at
      s covered
