-- ===== src/Chain/Seen.antt =====
-- backend.py: when `verify_on_chain` returns.
use mt.Base.{
  ℕ, zero, suc, ◌<◌, String, true, false, ◌≡◌, refl, sym, ap, ◌∙◌, ◌==◌, eq_iff, eq_refl, ◌↔◌, Bool,
  pos, pos_part, arith, subst, not-false,
}
use mt.Errors.{Result, ok}
use mt.System.{Sys, lift, pure, outside, raise_if, ◌>>=◌, ◌>>◌}
use mt.System.Rules.{
  Hoare, Any, Hoare-bind, Hoare-if, Hoare-pure, Hoare-raise, Hoare-refuse, Hoare-post,
  Hoare-returned_from,
}
use mt.Models.{PackagedArtifact}
use mt.Config.{Config}
use mt.Chain.Node.{Session, Track, ask}
use mt.Chain.Rules.{given, Hoare-lift}
use mt.Chain.Answers.{From, moved, Hoare-ask}
use mt.Chain.Publish.{Package}
use mt.Chain.Client.{Client, pause, poll, verify_on_chain}
use mt.Chain.Reads.{slept, reading, IsAnswered, IsSeen, first, later}

same_ok : {h g : String} → Result.ok h ≡ ok g → h ≡ g
same_ok e = cc

module _ {W : Type 0} (v : Client W) (k : Session) (c : Config) where
  -- A loop that returned has seen the commitment.
  abbrev Found : String → ℕ → W → String → Type 0
  Found expected left o r =
      (r ≡ expected) × ((h : String) × ((k.hotkey ≡ ok h) × IsSeen v h expected left o))

  found_later :
      {h t expected r : String} {left : ℕ} {o : W}
      → k.hotkey ≡ ok h
      → (v.commitment h o).0 ≡ ok t
      → (slept v h o).0 ≡ ok tt
      → Found expected left (slept v h o).1 r
      → Found expected (suc left) o r
  found_later {h} {t} {expected} {left = left} {o} loaded read paused (e, (g, (reloaded, s))) =
      let seen =
        subst (λ x. IsSeen v x expected left (slept v h o).1) (same_ok (sym reloaded ∙ loaded)) s in
      (e, (h, (loaded, later v h left o (record { text = t; read = read; paused = paused }) seen)))

  -- The rest of the loop, behind a read that differs.
  again-Hoare :
      (expected : String) (left : ℕ) (o : W) (h t : String)
      → k.hotkey ≡ ok h
      → (v.commitment h o).0 ≡ ok t
      → ((w : W) → Hoare Any (From w) (poll v k c expected left) (λ r _. Found expected left w r))
      → Hoare Any
          (From (v.commitment h o).1)
          (do pause v k c left; poll v k c expected left)
          (λ r _. Found expected (suc left) o r)
  unfolding poll pause
  again-Hoare expected zero o h t loaded read rest =
      Hoare-bind (Hoare-pure {Q = λ _. Any} tt λ s q. tt) λ _. Hoare-raise _ _
  again-Hoare expected (suc left) o h t loaded read rest =
      Hoare-bind (Hoare-ask (v.sleep (pos 12)) (v.commitment h o).1) λ _.
        given
          λ paused. Hoare-post (λ r s f. found_later loaded read paused f) (rest (slept v h o).1)

  poll-Hoare :
      (expected : String) (left : ℕ) (o : W)
      → Hoare Any (From o) (poll v k c expected left) (λ r _. Found expected left o r)
  unfolding poll
  poll-Hoare expected zero o = Hoare-raise _ _
  poll-Hoare expected (suc left) o = Hoare-bind (Hoare-lift k.hotkey) λ h. given λ loaded.
      Hoare-bind (Hoare-ask (v.commitment h) o) λ t. given λ read.
        Hoare-if (t == expected)
          (λ e.
            Hoare-pure expected λ s q.
              (refl, (h, (loaded, first v h left o (read ∙ ap ok ((eq_iff t expected).0 e))))))
          (λ e. again-Hoare expected left o h t loaded read (poll-Hoare expected left))

  -- A read that shows the commitment ends the loop.
  matched :
      (expected h : String) (left : ℕ) (s : Sys (Track W))
      → k.hotkey ≡ ok h
      → (v.commitment h s.world.outer).0 ≡ ok expected
      → (poll v k c expected (suc left) s).0 ≡ ok expected
  unfolding poll ◌>>=◌ lift ask outside pure
  matched expected h left s loaded read = rw (loaded, read, eq_refl expected)

  -- Another one is followed by the rest of the loop, from the world behind the pause.
  missed :
      (expected h t : String) (left : ℕ) (s : Sys (Track W))
      → k.hotkey ≡ ok h
      → (v.commitment h s.world.outer).0 ≡ ok t
      → (t == expected) ≡ false
      → (slept v h s.world.outer).0 ≡ ok tt
      → (poll v k c expected (suc (suc left)) s).0
        ≡ (poll v k c expected (suc left) (moved s (slept v h s.world.outer).1)).0
  unfolding poll ◌>>=◌ lift ask outside pause
  missed expected h t left s loaded read differs paused = rw (loaded, read, differs, paused)

  -- The loop returns what one of the first reads gives.
  seen_at :
      (i left : ℕ) (expected h : String) (s : Sys (Track W))
      → k.hotkey ≡ ok h
      → i < left
      → (v.commitment h (reading v h i s.world.outer)).0 ≡ ok expected
      → ((j : ℕ) → j < i → IsAnswered v h (reading v h j s.world.outer))
      → (poll v k c expected left s).0 ≡ ok expected
  seen_at i zero expected h s loaded lt seen earlier = absurd (omega arith)
  seen_at zero (suc left) expected h s loaded lt seen earlier =
      matched expected h left s loaded seen
  seen_at (suc i) (suc zero) expected h s loaded lt seen earlier = absurd (omega arith)
  seen_at (suc i) (suc (suc left)) expected h s loaded lt seen earlier =
      let a = earlier 0 (omega arith) in
      by_read left h s loaded a
        (seen_at i (suc left) expected h (moved s (slept v h s.world.outer).1) loaded (omega arith)
          seen λ j q. earlier (suc j) (omega arith))
        (a.text == expected) refl
    where
      by_read :
          {expected : String} (left : ℕ) (h : String) (s : Sys (Track W))
          → k.hotkey ≡ ok h
          → (a : IsAnswered v h s.world.outer)
          → (poll v k c expected (suc left) (moved s (slept v h s.world.outer).1)).0 ≡ ok expected
          → (b : Bool) → (a.text == expected) ≡ b
          → (poll v k c expected (suc (suc left)) s).0 ≡ ok expected
      by_read {expected} left h s loaded a rest true e =
          matched expected h (suc left) s loaded (a.read ∙ ap ok ((eq_iff a.text expected).0 e))
      by_read {expected} left h s loaded a rest false e =
          missed expected h a.text left s loaded a.read e a.paused ∙ rest

  -- The client is there, the payload is the encoding of the package, and one of the first
  -- `verify_attempts` reads of the loaded hotkey's commitment gives it.
  pub record IsConfirmed (u : Package W) (a : PackagedArtifact) (payload : String) (o : W)
      : Type 0 where
    pub client : k.has_client ≡ true
    pub encoded : (u.validate_commitment a o).0 ≡ ok payload
    pub hotkey : String
    pub loaded : k.hotkey ≡ ok hotkey
    pub seen : IsSeen v hotkey payload (pos_part c.verify_attempts) (u.validate_commitment a o).1

  module _ (u : Package W) (a : PackagedArtifact) where
    IsConfirmed-Hoare :
        (o : W) → Hoare Any (From o) (verify_on_chain v k c u a) (λ r _. IsConfirmed u a r o)
    unfolding verify_on_chain
    IsConfirmed-Hoare o = Hoare-refuse _ _ _ λ there.
        Hoare-bind (Hoare-ask (u.validate_commitment a) o) λ payload. given λ encoded.
          Hoare-post
            (λ r s f. record {
              client = not-false _ there;
              encoded = encoded ∙ ap ok (sym f.0);
              hotkey = f.1.0;
              loaded = f.1.1.0;
              seen =
                  subst
                    (λ p.
                      IsSeen v f.1.0 p (pos_part c.verify_attempts) (u.validate_commitment a o).1)
                    (sym f.0) f.1.1.1;
            })
            (poll-Hoare payload (pos_part c.verify_attempts) (u.validate_commitment a o).1)

    polled :
        (payload : String) (s : Sys (Track W))
        → k.has_client ≡ true
        → (u.validate_commitment a s.world.outer).0 ≡ ok payload
        → (verify_on_chain v k c u a s).0
          ≡ (poll v k c payload
              (pos_part c.verify_attempts)
              (moved s (u.validate_commitment a s.world.outer).1)).0
    unfolding verify_on_chain ◌>>=◌ raise_if ask outside
    polled payload s client encoded = rw (client, encoded)

    confirmed :
        (payload : String) (s : Sys (Track W))
        → IsConfirmed u a payload s.world.outer
        → (verify_on_chain v k c u a s).0 ≡ ok payload
    confirmed payload s f =
        polled payload s f.client f.encoded
        ∙ seen_at f.seen.index _ payload f.hotkey _ f.loaded f.seen.within f.seen.seen
            f.seen.earlier

    -- A check of the chain returns a payload exactly when the client is there, the payload is the
    -- encoding of the package, and one of the first `verify_attempts` reads of the loaded hotkey's
    -- commitment gives that payload, where every earlier read, and the pause behind it, returned.
    pub verify_on_chain-IsConfirmed :
        (payload : String) (s : Sys (Track W))
        → ((verify_on_chain v k c u a s).0 ≡ ok payload) ↔ IsConfirmed u a payload s.world.outer
    verify_on_chain-IsConfirmed payload s = (
      λ e.
          Hoare-returned_from (IsConfirmed-Hoare s.world.outer) refl
            (ap (λ r. (r, (verify_on_chain v k c u a s).1)) e),
      confirmed payload s,
    )
