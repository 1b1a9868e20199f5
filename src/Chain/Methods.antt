-- ===== src/Chain/Methods.antt =====
-- backend.py: the methods that leave every property alone which does not speak of the rest of the world.
use mt.Base.{ℕ, zero, suc, String, Option, none, some, ◌&&◌, not, ◌==◌, pos_part, ℤ}
use mt.Models.{RoundWindow, PackagedArtifact}
use mt.System.{Sys, outside}
use mt.System.Rules.{
  Keeps, Keeps-pure, Keeps-raise, Keeps-lift, Keeps-if, Keeps-attempt, Keeps-raise_if, Keeps-bind,
}
use mt.Config.{Config, uses_signed_v030, provenance_required}
use mt.Chain.Node.{Node, Session, Track}
use mt.Chain.Publish.{Package}
use mt.Chain.Client.{
  Client, Anchor, Selfcheck, values, invalid, block, chain_round, check_declared, declared,
  check_ceiling, validate_round, check_seed, verify_seed_hash, check_anchor, verify_round_anchor,
  verify_provenance, pause, poll, verify_on_chain, close,
}
use mt.Chain.Rules.{IsQuiet, ask-Keeps}

module _ {W : Type 0} {J : Sys (Track W) → Type 0} (quiet : IsQuiet J) (v : Client W) (k : Session)
    (c : Config) where
  pub block-Keeps : Keeps J (block v k)
  unfolding block
  block-Keeps = Keeps-bind (Keeps-raise_if _ _ _) λ _. ask-Keeps quiet _

  pub close-Keeps : (f : W → W) → Keeps J (close v k f)
  unfolding close outside
  close-Keeps f =
      Keeps-bind (record { at = λ s j. quiet s _ j })
        λ _.
          Keeps-if k.has_client (λ _. Keeps-attempt (ask-Keeps quiet _) λ e. Keeps-pure tt)
            (λ _. Keeps-pure tt)

  pub chain_round-Keeps : (b : ℤ) → Keeps J (chain_round v c b)
  unfolding chain_round
  chain_round-Keeps b = Keeps-bind (ask-Keeps quiet _) λ found. Keeps-pure _

  check_declared-Keeps : (r : Selfcheck) → Keeps J (check_declared v c r)
  unfolding check_declared
  check_declared-Keeps (invalid text) = Keeps-raise _ _
  check_declared-Keeps (values d) = Keeps-bind (Keeps-raise_if _ _ _) λ _. Keeps-pure d

  pub validate_round-Keeps : (w : RoundWindow) → Keeps J (validate_round v c w)
  unfolding validate_round declared check_ceiling
  validate_round-Keeps w = Keeps-bind (Keeps-bind (ask-Keeps quiet _) check_declared-Keeps) λ d.
      Keeps-bind (Keeps-raise_if _ _ _) λ _. Keeps-bind (Keeps-raise_if _ _ _) λ _.
        Keeps-bind (Keeps-raise_if _ _ _)
          λ _. Keeps-bind (ask-Keeps quiet _) λ total. Keeps-raise_if _ _ _

  pub verify_provenance-Keeps :
      (a : PackagedArtifact) (b : ℤ) → Keeps J (verify_provenance v k c a b)
  unfolding verify_provenance
  verify_provenance-Keeps a b =
      Keeps-if (uses_signed_v030 c && not (provenance_required c)) (λ _. Keeps-pure tt)
        λ _.
          Keeps-bind
            (Keeps-attempt (Keeps-bind (Keeps-lift _) λ h. ask-Keeps quiet _) λ e. Keeps-raise _ _)
            λ verdict. Keeps-raise_if _ _ _

  pause-Keeps : (left : ℕ) → Keeps J (pause v k c left)
  unfolding pause
  pause-Keeps zero = Keeps-pure tt
  pause-Keeps (suc left) = ask-Keeps quiet _

  poll-Keeps : (expected : String) (left : ℕ) → Keeps J (poll v k c expected left)
  unfolding poll
  poll-Keeps expected zero = Keeps-raise _ _
  poll-Keeps expected (suc left) = Keeps-bind (Keeps-lift _) λ h.
      Keeps-bind (ask-Keeps quiet _) λ observed.
        Keeps-if (observed == expected) (λ _. Keeps-pure _)
          λ _. Keeps-bind (pause-Keeps left) λ _. poll-Keeps expected left

  pub verify_on_chain-Keeps :
      (u : Package W) (a : PackagedArtifact) → Keeps J (verify_on_chain v k c u a)
  unfolding verify_on_chain
  verify_on_chain-Keeps u a = Keeps-bind (Keeps-raise_if _ _ _) λ _.
      Keeps-bind (ask-Keeps quiet _) λ expected. poll-Keeps expected (pos_part c.verify_attempts)

  module _ (n : Node W) (w : RoundWindow) where
    check_seed-Keeps : Keeps J (check_seed n v k c w)
    unfolding check_seed
    check_seed-Keeps = Keeps-bind (Keeps-raise_if _ _ _) λ _. Keeps-bind (Keeps-raise_if _ _ _) λ _.
        Keeps-bind (Keeps-attempt (ask-Keeps quiet _) λ e. Keeps-raise _ _)
          λ answer. Keeps-raise_if _ _ _

    verify_seed_hash-Keeps : Keeps J (verify_seed_hash n v k c w)
    unfolding verify_seed_hash
    verify_seed_hash-Keeps =
        Keeps-if (not (uses_signed_v030 c)) (λ _. Keeps-pure tt)
          λ _. Keeps-bind (Keeps-raise_if _ _ _) λ _.
            Keeps-if (w.phase == "submissions") (λ _. Keeps-raise_if _ _ _) λ _. check_seed-Keeps

    check_anchor-Keeps : (o : Option Anchor) → Keeps J (check_anchor n v k c w o)
    unfolding check_anchor
    check_anchor-Keeps none = Keeps-raise _ _
    check_anchor-Keeps (some a) = Keeps-bind (Keeps-raise_if _ _ _) λ _. Keeps-raise_if _ _ _

    pub verify_round_anchor-Keeps : Keeps J (verify_round_anchor n v k c w)
    unfolding verify_round_anchor
    verify_round_anchor-Keeps =
        Keeps-if (not (w.source == "coordinator")) (λ _. Keeps-pure tt)
          λ _. Keeps-bind (Keeps-raise_if _ _ _) λ _.
            Keeps-bind (Keeps-attempt (ask-Keeps quiet _) λ e. Keeps-raise _ _)
              λ anchor. Keeps-bind (check_anchor-Keeps anchor) λ _. verify_seed_hash-Keeps
