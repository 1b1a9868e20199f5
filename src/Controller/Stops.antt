-- ===== src/Controller/Stops.antt =====
-- state.py and controller.py: `preflight` and `cycle` after `latch_authorization_refusal`.
use mt.Base.{ℕ, String, false, not, ◌&&◌, ◌≡◌, ◌≢◌, refl, sym, ◌∙◌, ap, Option, arith}
use mt.Json.{Fields, is_end, is_true, get}
use mt.Errors.{Result, ok, err}
use mt.Models.{PreflightSnapshot}
use mt.System.{File, missing, Sys, Host}
use mt.System.Rules.{
  Hoare, Post, returned, raised, Any, Hoare-Keeps, Hoare-bind, Hoare-if, Hoare-pure, Hoare-returned,
}
use mt.State.Replace.{replace_or-Hoare}
use mt.State.Read.{read_marker, write_authorization}
use mt.State.Latch.{
  read_refusal_file, read_authorization_refusal, write_refusal, latch_authorization_refusal,
}
use mt.Controller.Setup.{Backend}
use mt.Config.{Config}
use mt.Controller.Cycle.{preflight, cycle}
use mt.Controller.Latched.{Refuses, preflight_latched, cycle_latched}

module _ {W : Type 0} (h : Host W) where
  abbrev pub Present : Sys W → Type 0
  Present s = s.files.authorization ≢ missing

  -- A marker with entries was read from a file that is there.
  pub present :
      (m : Fields) (f : File) → read_refusal_file h.py f ≡ ok m → is_end m ≡ false → f ≢ missing
  unfolding read_refusal_file read_marker
  present m f e n gone =
      let from_missing : read_refusal_file h.py missing ≡ ok m =
        ap (read_refusal_file h.py) (sym gone) ∙ e in
      ground arith

  read-Hoare : Hoare Any Any (read_authorization_refusal h) (λ m s. is_end m ≡ false → Present s)
  unfolding read_authorization_refusal
  read-Hoare = record { at = λ s _ _. found s (read_refusal_file h.py s.files.authorization) refl }
    where
      found :
          (s : Sys W) (r : Result Fields)
          → read_refusal_file h.py s.files.authorization ≡ r
          → Post Any (λ m t. is_end m ≡ false → Present t) (r, s)
      found s (ok m) e = returned tt (present m s.files.authorization e)
      found s (err x) e = raised tt

  write_authorization-Hoare : (d : Fields) → Hoare Any Any (write_authorization h d) (λ _. Present)
  unfolding write_authorization
  write_authorization-Hoare d =
      replace_or-Hoare h Any _ _ _ Present (λ s i. tt) (λ s i. tt) (λ s e. cc)

  latch-Hoare :
      (message : String) (details : Fields) (now : Option ℕ)
      → Hoare Any Any (latch_authorization_refusal h message details now) (λ _. Present)
  unfolding latch_authorization_refusal write_refusal
  latch-Hoare message details now = Hoare-bind read-Hoare λ existing.
      Hoare-if (not (is_end existing) && not (is_true (get "marker_invalid" existing)))
        (λ q. Hoare-pure _ λ s i. i (ground arith))
        λ _.
          Hoare-bind (Hoare-Keeps (record { at = λ s i. tt }))
            λ t. Hoare-bind (write_authorization-Hoare _) λ _. Hoare-pure _ λ s i. i

  -- Once a refusal was latched, a preflight and a cycle refuse and change nothing.
  pub latch_stops :
      (b : Backend W) (c : Config) (snapshot : PreflightSnapshot) (message : String)
      (details : Fields) (now : Option ℕ) (s t : Sys W) (d : Fields)
      → latch_authorization_refusal h message details now s ≡ (ok d, t)
      → Refuses (preflight h b c) t × Refuses (cycle h b c snapshot) t
  latch_stops b c snapshot message details now s t d e =
      let there : Present t = Hoare-returned (latch-Hoare message details now) e in
      (preflight_latched h t there b c, cycle_latched h t there b c snapshot)
