-- ===== src/State/Replace.antt =====
-- state.py: what a replacement of a file keeps and gives, however it ends.
use mt.Base.{String}
use mt.Errors.{Kind, Result, fail}
use mt.System.{Files, Effect, done, fails_before, fails_after, Sys, Host}
use mt.System.Rules.{Keeps, Hoare, Post, returned, raised, Any}
use mt.State.Read.{settle, replace_or}

module _ {W : Type 0} (h : Host W) (I : Sys W → Type 0) where
  settle-keeps :
      (refusal : Result (Unit {0})) (e : Effect) (after : Files) (s : Sys W)
      → I s
      → I (record s { files = after })
      → I (settle h refusal e after s).1
  unfolding settle
  settle-keeps refusal done after s i j = j
  settle-keeps refusal fails_before after s i j = i
  settle-keeps refusal fails_after after s i j = j

  -- A replacement keeps what the change of the files keeps, however it ends.
  pub replace_or-Keeps :
      (refusal : Result (Unit {0})) (change : Files → Files)
      → ((s : Sys W) → I s → I (record s { world = (h.effect s.world).1 }))
      → ((s : Sys W) → I s → I (record s { files = change s.files }))
      → Keeps I (replace_or h refusal change)
  unfolding replace_or
  replace_or-Keeps refusal change world files = record {
    at = λ s i.
        let t : Sys W = record s { world = (h.effect s.world).1 } in
        settle-keeps refusal (h.effect s.world).0 (change s.files) t (world s i)
          (files t (world s i));
  }

  settle-hoare :
      (k : Kind) (t : String) (Q : Sys W → Type 0) (e : Effect) (after : Files) (s : Sys W)
      → I s
      → I (record s { files = after })
      → Q (record s { files = after })
      → Post I (λ _. Q) (settle h (fail k t) e after s)
  unfolding settle
  settle-hoare k t Q done after s i j q = returned j q
  settle-hoare k t Q fails_before after s i j q = raised i
  settle-hoare k t Q fails_after after s i j q = raised j

  -- A replacement that returned has had its effect.
  pub replace_or-Hoare :
      (k : Kind) (t : String) (change : Files → Files) (Q : Sys W → Type 0)
      → ((s : Sys W) → I s → I (record s { world = (h.effect s.world).1 }))
      → ((s : Sys W) → I s → I (record s { files = change s.files }))
      → ((s : Sys W) → Q (record s { files = change s.files }))
      → Hoare I Any (replace_or h (fail k t) change) (λ _. Q)
  unfolding replace_or
  replace_or-Hoare k t change Q world files effect = record {
    at = λ s i _.
        let u : Sys W = record s { world = (h.effect s.world).1 } in
        settle-hoare k t Q (h.effect s.world).0 (change s.files) u (world s i) (files u (world s i))
          (effect u);
  }
