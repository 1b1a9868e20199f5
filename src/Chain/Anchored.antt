-- ===== src/Chain/Anchored.antt =====
-- backend.py: what `verify_round_anchor` has checked when it returns.
use mt.Base.{
  String, true, false, not, ◌≡◌, refl, Option, none, some, int_eqb-eq, not-false, ||_false, hex_tag,
  ◌==◌, eq_iff, arith, subst,
}
use mt.Errors.{ok}
use mt.System.Rules.{
  Hoare, Any, Hoare-bind, Hoare-if, Hoare-raise, Hoare-refuse, Hoare-attempt, Hoare-post,
}
use mt.Models.{RoundWindow}
use mt.Config.{Config, uses_signed_v030}
use mt.Chain.Node.{Node, Session}
use mt.Chain.Client.{
  Client, Anchor, check_seed, verify_seed_hash, check_anchor, verify_round_anchor,
}
use mt.Chain.Rules.{given, Hoare-raise_if}
use mt.Chain.Answers.{From, At, Hoare-ask, refused}

same_text : {s t : String} → not (s == t) ≡ false → s ≡ t
same_text {s} {t} e = (eq_iff s t).0 (not-false _ e)

module _ {W : Type 0} (n : Node W) (v : Client W) where
  -- From one world to another: the hash of the seed block is not told while submissions are open, and
  -- afterwards it is the hash that the chain itself gives.
  pub data IsSeeded (w : RoundWindow) (o : W) : W → Type 0 where
    hidden : w.phase ≡ "submissions" → w.block_hash ≡ "" → IsSeeded w o o
    disclosed :
        (answer : String)
        → w.phase ≡ "evaluation"
        → hex_tag "0x" 64 w.block_hash ≡ true
        → (v.block_hash w.seed_block o).0 ≡ ok answer
        → n.lower answer ≡ w.block_hash
        → IsSeeded w o (v.block_hash w.seed_block o).1

  -- The coordinator's anchor on the chain is that of the round, whose seed is its close block.
  pub record IsAnchored (w : RoundWindow) (o after : W) : Type 0 where
    pub anchor : Anchor
    pub read : (v.read_anchor o).0 ≡ ok (some anchor)
    pub round : anchor.round_index ≡ w.index
    pub hash : anchor.config_hash ≡ w.config_hash
    pub seed_block : w.seed_block ≡ w.close_block
    pub seed : IsSeeded w (v.read_anchor o).1 after

  module _ (k : Session) (c : Config) (w : RoundWindow) where
    check_seed-IsSeeded :
        (o : W) → Hoare Any (From o) (check_seed n v k c w) (λ _. At (IsSeeded w o))
    unfolding check_seed
    check_seed-IsSeeded o = Hoare-refuse _ _ _ λ evaluated. Hoare-refuse _ _ _ λ _.
        Hoare-bind (Hoare-attempt (Hoare-ask (v.block_hash w.seed_block) o) λ e. Hoare-raise _ _)
          λ answer. given λ gave. refused (IsSeeded w o) _ _ _ λ told.
            let (canonical, same) = ||_false _ _ told in
            let (phase, shape) = ||_false _ _ evaluated in
            disclosed answer (same_text phase) (not-false _ shape) gave (same_text same)

    abbrev Sealed : W → W → Type 0
    Sealed o after = (w.seed_block ≡ w.close_block) × IsSeeded w o after

    verify_seed_hash-Sealed :
        uses_signed_v030 c ≡ true
        → (o : W) → Hoare Any (From o) (verify_seed_hash n v k c w) (λ _. At (Sealed o))
    unfolding verify_seed_hash
    verify_seed_hash-Sealed signed o =
        Hoare-if (not (uses_signed_v030 c)) (λ e. absurd (ground arith))
          λ _. Hoare-refuse _ _ _ λ same.
            let seed = int_eqb-eq w.seed_block w.close_block (not-false _ same) in
            Hoare-if (w.phase == "submissions")
              (λ e.
                refused (Sealed o) _ _ _
                  λ empty. (seed, hidden ((eq_iff _ _).0 e) (same_text empty)))
              (λ _. Hoare-post (λ a s q. (seed, q)) (check_seed-IsSeeded o))

    abbrev Matching : Option Anchor → Type 0
    Matching o =
        (a : Anchor) × (o ≡ some a) × ((a.round_index ≡ w.index) × (a.config_hash ≡ w.config_hash))

    check_anchor-Matching :
        (a : Option Anchor) (o : W)
        → Hoare Any (From o) (check_anchor n v k c w a) (λ _ s. Matching a × From o s)
    unfolding check_anchor
    check_anchor-Matching none o = Hoare-raise _ _
    check_anchor-Matching (some a) o = Hoare-refuse _ _ _ λ round.
        Hoare-post
          (λ _ s q.
            ((a, refl, (int_eqb-eq a.round_index w.index (not-false _ round), same_text q.0)), q.1))
          (Hoare-raise_if _ _ _)

    -- A coordinator's round that passed is anchored.
    pub verify_round_anchor-IsAnchored :
        uses_signed_v030 c ≡ true
        → w.source ≡ "coordinator"
        → (o : W) → Hoare Any (From o) (verify_round_anchor n v k c w) (λ _. At (IsAnchored w o))
    unfolding verify_round_anchor
    verify_round_anchor-IsAnchored signed served o =
        Hoare-if (not (w.source == "coordinator"))
          (λ e. let same = (eq_iff w.source "coordinator").1 served in absurd (ground arith))
          λ _. Hoare-refuse _ _ _ λ _.
            Hoare-bind (Hoare-attempt (Hoare-ask v.read_anchor o) λ e. Hoare-raise _ _) λ a.
              given λ read. Hoare-bind (check_anchor-Matching a _) λ _. given λ found.
                Hoare-post
                  (λ _ _ q. record {
                    anchor = found.0;
                    read = subst (λ x. (v.read_anchor o).0 ≡ ok x) found.1 read;
                    round = found.2.0;
                    hash = found.2.1;
                    seed_block = q.0;
                    seed = q.1;
                  })
                  (verify_seed_hash-Sealed signed _)
