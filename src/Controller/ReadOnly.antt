-- ===== src/Controller/ReadOnly.antt =====
-- controller.py: the calls of a cycle that others can see, in a dry run and beside a pending marker.
use mt.Base.{◌∷◌, [], List, true, false, ◌≡◌, ◌≢◌, refl, sym, ◌∙◌, ap, ℤ, if◌then◌else◌, not, arith}
use mt.Json.{Python, Value, Fields, end, field, dict, is_end}
use mt.Errors.{Result, ok, err}
use mt.Models.{PreflightSnapshot}
use mt.System.{
  missing, stat_error, irregular, link, regular, unreadable, not_utf8, not_json, json, File, Call,
  Event, Sys, Host,
}
use mt.System.Rules.{
  Keeps-pure, Keeps-lift, Keeps-bind, Hoare, Post, returned, raised, Any, Hoare-Keeps, Hoare-frame,
  Hoare-bind, Hoare-if, Hoare-absurd, Post-keeps,
}
use mt.State.Read.{read_marker}
use mt.State.Pending.{read_submission_pending, read_pending_file}
use mt.Controller.Setup.{Backend}
use mt.Config.{Config}
use mt.Controller.Rounds.{below_activation}
use mt.Controller.Cycle.{cycle, round_cycle, wait_activation}
use mt.Controller.Harmless.{
  IsOblivious, assert_not_latched-Keeps, reconcile_pending-Keeps, round_cycle-Keeps_dry,
  cycle-Keeps,
}
use mt.Controller.Quiet.{
  is_write, IsTolerant, Anywhere, anywhere, read_status-Keeps, write-Keeps, assert_registered-Keeps,
  block-Keeps, load_local-Keeps, resolve-Keeps,
}

-- The calls among the events that change what others see.
abbrev pub writes : List Event → List Call
writes [] = []
writes (e ∷ l) = let rest = writes l in if is_write e.call then e.call ∷ rest else rest

abbrev pub WritesAre : {W : Type 0} → List Call → Sys W → Type 0
WritesAre ws s = writes s.events ≡ ws

WritesAre-IsTolerant :
    {W : Type 0} {h : Host W} {b : Backend W} (ws : List Call) → IsTolerant h b (WritesAre ws)
WritesAre-IsTolerant ws = record {
  Move = Anywhere;
  within = anywhere;
  world = λ s w m i. i;
  status = λ s f i. i;
  health = λ s f i. i;
  event = λ s e q i. ground arith;
}

abbrev pub PendingIs : {W : Type 0} → File → Sys W → Type 0
PendingIs f s = s.files.pending ≡ f

pub PendingIs-IsTolerant :
    {W : Type 0} {h : Host W} {b : Backend W} (f : File) → IsTolerant h b (PendingIs f)
PendingIs-IsTolerant f = record {
  Move = Anywhere;
  within = anywhere;
  world = λ s w m i. i;
  status = λ s f i. i;
  health = λ s f i. i;
  event = λ s e q i. i;
}

pub WritesAre-IsOblivious :
    {W : Type 0} {h : Host W} {b : Backend W} (ws : List Call) → IsOblivious h b (WritesAre ws)
WritesAre-IsOblivious ws = record { tolerant = WritesAre-IsTolerant ws; pending = λ s f i. i }

nothing : (d : Fields) → not (is_end d) ≡ false → d ≡ end
nothing end e = refl
nothing (field k v d) e = cc

module _ {W : Type 0} (h : Host W) (b : Backend W) (c : Config) (ws : List Call) where
  abbrev I : Sys W → Type 0
  I = WritesAre ws

  tolerant : IsTolerant h b I
  tolerant = WritesAre-IsTolerant ws

  oblivious : IsOblivious h b I
  oblivious = WritesAre-IsOblivious ws

  kept : (f : File) → IsTolerant h b (PendingIs f)
  kept = PendingIs-IsTolerant

  abbrev Found : File → Fields → Sys W → Type 0
  Found f m s = read_pending_file h.py f ≡ ok m

  read_pending-Hoare : (f : File) → Hoare I (PendingIs f) (read_submission_pending h) (Found f)
  unfolding read_submission_pending
  read_pending-Hoare f = record {
    at = λ s i p.
        found s (read_pending_file h.py s.files.pending) i (ap (read_pending_file h.py) (sym p));
  }
    where
      found :
          (s : Sys W) (r : Result Fields)
          → I s
          → read_pending_file h.py f ≡ r
          → Post I (Found f) (r, s)
      found s (ok m) i e = returned i e
      found s (err e) i _ = raised i

  round_cycle-Hoare_pending :
      (snapshot : PreflightSnapshot) (head : ℤ) (f : File)
      → read_pending_file h.py f ≢ ok end
      → Hoare I (PendingIs f) (round_cycle h b c snapshot head) (λ _. Any)
  unfolding round_cycle
  round_cycle-Hoare_pending snapshot head f present =
      Hoare-bind
        (Hoare-frame (resolve-Keeps h b c I tolerant head)
          (resolve-Keeps h b c (PendingIs f) (kept f) head))
        λ w. Hoare-bind (Hoare-frame (Keeps-lift _) (Keeps-lift _)) λ source.
          Hoare-bind
            (Hoare-frame (read_status-Keeps h I tolerant)
              (read_status-Keeps h (PendingIs f) (kept f)))
            λ previous. Hoare-bind (read_pending-Hoare f) λ pending.
              Hoare-if (not (is_end pending))
                (λ _. Hoare-Keeps (
                  Keeps-bind (load_local-Keeps h b c I tolerant) λ local.
                    reconcile_pending-Keeps h b c I oblivious snapshot w head source local pending))
                λ gone. Hoare-absurd λ s e. present (e ∙ ap ok (nothing pending gone))

  cycle-Hoare_pending :
      (snapshot : PreflightSnapshot) (f : File)
      → read_pending_file h.py f ≢ ok end
      → Hoare I (PendingIs f) (cycle h b c snapshot) (λ _. Any)
  unfolding cycle wait_activation
  cycle-Hoare_pending snapshot f present =
      Hoare-bind
        (Hoare-frame (assert_not_latched-Keeps h I tolerant)
          (assert_not_latched-Keeps h (PendingIs f) (kept f)))
        λ _.
          Hoare-bind
            (Hoare-frame (assert_registered-Keeps h b c I tolerant)
              (assert_registered-Keeps h b c (PendingIs f) (kept f)))
            λ _.
              Hoare-bind
                (Hoare-frame (block-Keeps h b c I tolerant)
                  (block-Keeps h b c (PendingIs f) (kept f)))
                λ head.
                  Hoare-if (below_activation c.v030_activation_block head)
                    (λ _.
                      Hoare-Keeps
                        (Keeps-bind (write-Keeps h I tolerant _ _ _ _ _ _) λ _. Keeps-pure _))
                    (λ _. round_cycle-Hoare_pending snapshot head f present)

-- A marker file that is there never reads as an absent marker.
pending-ne-end : (py : Python) (f : File) → f ≢ missing → read_pending_file py f ≢ ok end
unfolding read_pending_file read_marker
pending-ne-end py missing n e = n refl
pending-ne-end py stat_error n e = ground arith
pending-ne-end py irregular n e = ground arith
pending-ne-end py (link x) n e = ground arith
pending-ne-end py (regular unreadable) n e = ground arith
pending-ne-end py (regular not_utf8) n e = cc
pending-ne-end py (regular not_json) n e = ground arith
pending-ne-end py (regular (json (dict end))) n e = ground arith
pending-ne-end py (regular (json (dict (field k v d)))) n e = ground arith
pending-ne-end py (regular (json Value.null)) n e = ground arith
pending-ne-end py (regular (json _)) n e = ground arith

-- In a dry run a cycle packages, uploads and publishes nothing, whatever the state and the backend.
pub dry_run_writes_nothing :
    {W : Type 0} (h : Host W) (b : Backend W) (c : Config) (snapshot : PreflightSnapshot)
    (s : Sys W)
    → c.dry_run ≡ true
    → writes (cycle h b c snapshot s).1.events ≡ writes s.events
dry_run_writes_nothing h b c snapshot s dry =
    let ws = writes s.events in
    (cycle-Keeps h b c (WritesAre ws) (WritesAre-IsOblivious ws) snapshot (λ head.
        round_cycle-Keeps_dry h b c (WritesAre ws) (WritesAre-IsOblivious ws) snapshot head dry)).at
      s refl

-- While anything but an absent file stands for the pending marker, valid or not, a cycle packages,
-- uploads and publishes nothing.
pub pending_writes_nothing :
    {W : Type 0} (h : Host W) (b : Backend W) (c : Config) (snapshot : PreflightSnapshot)
    (s : Sys W)
    → s.files.pending ≢ missing
    → writes (cycle h b c snapshot s).1.events ≡ writes s.events
pending_writes_nothing h b c snapshot s present = Post-keeps (
    (cycle-Hoare_pending h b c (writes s.events) snapshot s.files.pending
        (pending-ne-end h.py s.files.pending present)).at
      s refl refl)
