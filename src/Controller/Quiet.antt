-- ===== src/Controller/Quiet.antt =====
-- Which parts of the controller leave an invariant alone that speaks neither of the status and
-- health documents, nor of the world, nor of the calls that only read.
use mt.Base.{◌∷◌, ℕ, String, Bool, true, false, ◌≡◌, refl, Option, none, some, ℤ, ◌==◌, ◌&&◌}
use mt.Json.{Fields, is_end}
use mt.Errors.{Result, is_verification}
use mt.Models.{RoundWindow, PreflightSnapshot, PackagedArtifact}
use mt.System.{File, Call, Event, Sys, Host, outside, call, package_round, upload, publish}
use mt.System.Rules.{
  Keeps, Keeps-pure, Keeps-raise, Keeps-reraise, Keeps-lift, Keeps-if, Keeps-attempt,
  Keeps-raise_if, Keeps-bind,
}
use mt.State.Replace.{replace_or-Keeps}
use mt.State.Read.{time, write_status, write_health, read_status}
use mt.State.{write, mark_verified, heartbeat, previous_status}
use mt.Controller.Setup.{
  Backend, backend_block, backend_chain_round, backend_verify_round_anchor, backend_validate_round,
  backend_assert_registered, backend_validate_binding, backend_load_local,
  backend_validate_commitment, backend_verify_source, backend_verify_provenance,
  backend_verify_on_chain,
}
use mt.Config.{uses_signed_v030, Config}
use mt.Controller.Rounds.{
  check_round, remember_round, resolve, refresh_same_round, assert_deadline, fetched,
}
use mt.Controller.Local.{verification_due}
use mt.Controller.Verify.{mark_complete, reverify}
use mt.Controller.Submit.{assert_binding}

-- The calls that change what others see.
unfoldable pub is_write : Call → Bool
is_write (package_round n s) = true
is_write (upload p) = true
is_write (publish p) = true
is_write _ = false

-- The world moves only so, whichever service of the process or method of the backend is called.
pub record IsWithin {W : Type 0} (h : Host W) (b : Backend W) (Move : W → W → Type 0) : Type 0 where
  pub now : (w : W) → Move w (h.now w).1
  pub effect : (w : W) → Move w (h.effect w).1
  pub stop_is_set : (w : W) → Move w (h.stop_is_set w).1
  pub stop_wait : (n : ℤ) (w : W) → Move w (h.stop_wait n w).1
  pub monitor_start : (t : String) (w : W) → Move w (h.monitor_start t w)
  pub monitor_stop : (w : W) → Move w (h.monitor_stop w)
  pub preflight : (w : W) → Move w (b.do_preflight w).1
  pub block : (w : W) → Move w (b.do_block w).1
  pub chain_round : (n : ℤ) (w : W) → Move w (b.do_chain_round n w).1
  pub verify_round_anchor : (r : RoundWindow) (w : W) → Move w (b.do_verify_round_anchor r w).1
  pub validate_round : (r : RoundWindow) (w : W) → Move w (b.do_validate_round r w).1
  pub assert_registered : (w : W) → Move w (b.do_assert_registered w).1
  pub validate_binding : (w : W) → Move w (b.do_validate_binding w).1
  pub load_local : (w : W) → Move w (b.do_load_local w).1
  pub package_round : (n : ℤ) (t : String) (w : W) → Move w (b.do_package n t w).1
  pub upload : (p : PackagedArtifact) (w : W) → Move w (b.do_upload p w).1
  pub validate_commitment : (p : PackagedArtifact) (w : W) → Move w (b.do_validate_commitment p w).1
  pub verify_source :
      (p : PackagedArtifact) (full : Bool) (w : W) → Move w (b.do_verify_source p full w).1
  pub verify_provenance :
      (p : PackagedArtifact) (n : ℤ) (w : W) → Move w (b.do_verify_provenance p n w).1
  pub publish : (p : PackagedArtifact) (w : W) → Move w (b.do_publish p w).1
  pub verify_on_chain : (p : PackagedArtifact) (w : W) → Move w (b.do_verify_on_chain p w).1
  pub close : (w : W) → Move w (b.do_close w).1
  pub fetch_round : (w : W) → Move w (b.fetch_round w).1

abbrev pub Anywhere : {W : Type 0} → W → W → Type 0
Anywhere w v = Unit

-- Every world is within anywhere.
pub anywhere : {W : Type 0} {h : Host W} {b : Backend W} → IsWithin h b Anywhere
anywhere = record {
  now = λ w. tt;
  effect = λ w. tt;
  stop_is_set = λ w. tt;
  stop_wait = λ n w. tt;
  monitor_start = λ t w. tt;
  monitor_stop = λ w. tt;
  preflight = λ w. tt;
  block = λ w. tt;
  chain_round = λ n w. tt;
  verify_round_anchor = λ r w. tt;
  validate_round = λ r w. tt;
  assert_registered = λ w. tt;
  validate_binding = λ w. tt;
  load_local = λ w. tt;
  package_round = λ n t w. tt;
  upload = λ p w. tt;
  validate_commitment = λ p w. tt;
  verify_source = λ p f w. tt;
  verify_provenance = λ p n w. tt;
  publish = λ p w. tt;
  verify_on_chain = λ p w. tt;
  close = λ w. tt;
  fetch_round = λ w. tt;
}

pub record IsTolerant {W : Type 0} (h : Host W) (b : Backend W) (I : Sys W → Type 0) : Type 1 where
  pub Move : W → W → Type 0
  pub within : IsWithin h b Move
  pub world : (s : Sys W) (w : W) → Move s.world w → I s → I (record s { world = w })
  pub status : (s : Sys W) (f : File) → I s → I (record s { files = record s.files { status = f } })
  pub health : (s : Sys W) (f : File) → I s → I (record s { files = record s.files { health = f } })
  pub event :
      (s : Sys W) (e : Event)
      → is_write e.call ≡ false
      → I s
      → I (record s { events = e ∷ s.events })

module _ {W : Type 0} {h : Host W} {b : Backend W} (I : Sys W → Type 0) (T : IsTolerant h b I) where
  pub effect_kept : (s : Sys W) → I s → I (record s { world = (h.effect s.world).1 })
  effect_kept s i = T.world s _ (T.within.effect s.world) i

  pub outside-Keeps :
      {A : Type 0} (f : W → Result A × W) → ((w : W) → T.Move w (f w).1) → Keeps I (outside f)
  unfolding outside
  outside-Keeps f m = record { at = λ s i. T.world s (f s.world).1 (m s.world) i }

  pub call-Keeps :
      {A : Type 0} (c : Call) (f : W → Result A × W)
      → is_write c ≡ false
      → ((w : W) → T.Move w (f w).1)
      → Keeps I (call c f)
  unfolding call
  call-Keeps c f q m = record {
    at = λ s i.
        T.event (record s { world = (f s.world).1 }) _ q (T.world s (f s.world).1 (m s.world) i);
  }

module _ {W : Type 0} (h : Host W) {b : Backend W} (I : Sys W → Type 0) (T : IsTolerant h b I) where
  pub time-Keeps : (now : Option ℕ) → Keeps I (time h now)
  unfolding time
  time-Keeps none = outside-Keeps I T h.now T.within.now
  time-Keeps (some t) = Keeps-pure t

  pub read_status-Keeps : Keeps I (read_status h)
  unfolding read_status
  read_status-Keeps = record { at = λ s i. i }

  previous_status-Keeps : (o : Option Fields) → Keeps I (previous_status h o)
  previous_status-Keeps none = read_status-Keeps
  previous_status-Keeps (some d) = Keeps-pure d

  write_status-Keeps : (d : Fields) → Keeps I (write_status h d)
  unfolding write_status
  write_status-Keeps d = replace_or-Keeps h I _ _ (effect_kept I T) (λ s i. T.status s _ i)

  write_health-Keeps : (d : Fields) → Keeps I (write_health h d)
  unfolding write_health
  write_health-Keeps d = replace_or-Keeps h I _ _ (effect_kept I T) (λ s i. T.health s _ i)

  pub write-Keeps :
      (phase : String) (success : Bool) (message : String) (now : Option ℕ) (details : Fields)
      (preserve : Option Fields)
      → Keeps I (write h phase success message now details preserve)
  unfolding write
  write-Keeps phase success message now details preserve = Keeps-bind (time-Keeps now) λ t.
      Keeps-bind (previous_status-Keeps preserve) λ previous.
        Keeps-bind (write_status-Keeps _) λ _. Keeps-bind (write_health-Keeps _) λ _. Keeps-pure _

  pub mark_verified-Keeps :
      (n : ℤ) (message : String) (details : Fields) (now : Option ℕ)
      → Keeps I (mark_verified h n message details now)
  unfolding mark_verified
  mark_verified-Keeps n message details now =
      Keeps-bind (time-Keeps now) λ t. write-Keeps _ _ _ _ _ _

  pub heartbeat-Keeps : (now : Option ℕ) → Keeps I (heartbeat h now)
  unfolding heartbeat
  heartbeat-Keeps now = Keeps-bind read_status-Keeps λ previous.
      Keeps-if (is_end previous) (λ _. write-Keeps _ _ _ _ _ _) (λ _. write-Keeps _ _ _ _ _ _)

  pub verification_due-Keeps : (c : Config) (d : Fields) → Keeps I (verification_due h c d)
  unfolding verification_due
  verification_due-Keeps c d =
      Keeps-bind (outside-Keeps I T h.now T.within.now)
        λ now. Keeps-bind (Keeps-lift _) λ t. Keeps-pure _

module _ {W : Type 0} (h : Host W) (b : Backend W) (c : Config) (I : Sys W → Type 0)
    (T : IsTolerant h b I) where
  pub assert_registered-Keeps : Keeps I (backend_assert_registered b)
  unfolding backend_assert_registered is_write
  assert_registered-Keeps = call-Keeps I T _ _ refl T.within.assert_registered

  pub block-Keeps : Keeps I (backend_block b)
  unfolding backend_block is_write
  block-Keeps = call-Keeps I T _ _ refl T.within.block

  pub load_local-Keeps : Keeps I (backend_load_local b)
  unfolding backend_load_local is_write
  load_local-Keeps = call-Keeps I T _ _ refl T.within.load_local

  pub validate_binding-Keeps : Keeps I (backend_validate_binding b)
  unfolding backend_validate_binding is_write
  validate_binding-Keeps = call-Keeps I T _ _ refl T.within.validate_binding

  pub validate_commitment-Keeps : (p : PackagedArtifact) → Keeps I (backend_validate_commitment b p)
  unfolding backend_validate_commitment is_write
  validate_commitment-Keeps p = call-Keeps I T _ _ refl (T.within.validate_commitment p)

  pub verify_source-Keeps :
      (p : PackagedArtifact) (full : Bool) → Keeps I (backend_verify_source b p full)
  unfolding backend_verify_source is_write
  verify_source-Keeps p full = call-Keeps I T _ _ refl (T.within.verify_source p full)

  pub verify_provenance-Keeps :
      (p : PackagedArtifact) (n : ℤ) → Keeps I (backend_verify_provenance b p n)
  unfolding backend_verify_provenance is_write
  verify_provenance-Keeps p n = call-Keeps I T _ _ refl (T.within.verify_provenance p n)

  pub verify_on_chain-Keeps : (p : PackagedArtifact) → Keeps I (backend_verify_on_chain b p)
  unfolding backend_verify_on_chain is_write
  verify_on_chain-Keeps p = call-Keeps I T _ _ refl (T.within.verify_on_chain p)

  chain_round-Keeps : (head : ℤ) → Keeps I (backend_chain_round b head)
  unfolding backend_chain_round is_write
  chain_round-Keeps head = call-Keeps I T _ _ refl (T.within.chain_round head)

  fetched-Keeps : Keeps I (fetched h b c)
  unfolding fetched
  fetched-Keeps = record {
    at = λ s i. T.world s (b.fetch_round s.world).1 (T.within.fetch_round s.world) i;
  }

  check_round-Keeps : (w : RoundWindow) → Keeps I (check_round h b c w)
  unfolding check_round backend_verify_round_anchor backend_validate_round is_write
  check_round-Keeps w =
      Keeps-attempt
        (Keeps-bind (call-Keeps I T _ _ refl (T.within.verify_round_anchor w))
          λ _. call-Keeps I T _ _ refl (T.within.validate_round w))
        λ e.
          Keeps-if (is_verification e.kind && uses_signed_v030 c) (λ _. Keeps-raise _ _)
            (λ _. Keeps-reraise e)

  remember_round-Keeps : (w : RoundWindow) (d : Fields) → Keeps I (remember_round h b c w d)
  unfolding remember_round
  remember_round-Keeps w d = Keeps-bind (write-Keeps h I T _ _ _ _ _ _) λ _. Keeps-pure _

  pub resolve-Keeps : (head : ℤ) → Keeps I (resolve h b c head)
  unfolding resolve
  resolve-Keeps head = Keeps-bind (chain_round-Keeps head) λ chain_round.
      Keeps-bind (read_status-Keeps h I T) λ previous. Keeps-bind fetched-Keeps λ served.
        Keeps-bind (Keeps-lift _) λ w. Keeps-bind (check_round-Keeps w) λ _.
          Keeps-bind
            (Keeps-if (w.source == "coordinator") (λ _. remember_round-Keeps w previous)
              (λ _. Keeps-pure tt))
            λ _. Keeps-pure w

  pub refresh_same_round-Keeps : (w : RoundWindow) → Keeps I (refresh_same_round h b c w)
  unfolding refresh_same_round
  refresh_same_round-Keeps w = Keeps-bind block-Keeps λ head. Keeps-bind (Keeps-raise_if _ _ _) λ _.
      Keeps-bind (resolve-Keeps head)
        λ observed. Keeps-bind (Keeps-raise_if _ _ _) λ _. Keeps-pure _

  pub assert_deadline-Keeps :
      (w : RoundWindow) (n : ℤ) (action : String) → Keeps I (assert_deadline h b c w n action)
  unfolding assert_deadline
  assert_deadline-Keeps w n action = Keeps-raise_if _ _ _

  pub assert_binding-Keeps : (p : PackagedArtifact) → Keeps I (assert_binding h b c p)
  unfolding assert_binding
  assert_binding-Keeps p = Keeps-bind validate_binding-Keeps λ bound. Keeps-raise_if _ _ _

  pub mark_complete-Keeps :
      (w : RoundWindow) (p : PackagedArtifact) (payload : String) (common : Fields) (full : Bool)
      (message : String)
      → Keeps I (mark_complete h b c w p payload common full message)
  unfolding mark_complete
  mark_complete-Keeps w p payload common full message = Keeps-bind (Keeps-raise_if _ _ _) λ _.
      Keeps-bind (outside-Keeps I T h.now T.within.now)
        λ now. Keeps-bind (mark_verified-Keeps h I T _ _ _ _) λ _. Keeps-pure _

  pub reverify-Keeps :
      (snapshot : PreflightSnapshot) (w : RoundWindow) (head : ℤ) (source : String)
      (p : PackagedArtifact)
      → Keeps I (reverify h b c snapshot w head source p)
  unfolding reverify
  reverify-Keeps snapshot w head source p = Keeps-bind assert_registered-Keeps λ _.
      Keeps-bind (write-Keeps h I T _ _ _ _ _ _) λ _. Keeps-bind (verify_source-Keeps p true) λ _.
        Keeps-bind (verify_provenance-Keeps p w.close_block) λ _.
          Keeps-bind (verify_on_chain-Keeps p) λ payload. mark_complete-Keeps w p payload _ true _
