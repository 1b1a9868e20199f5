-- ===== src/Chain/Trusted.antt =====
-- controller.py over coordinator.py and backend.py: what is known of a round that `_resolve_round` returns.
use mt.Base.{ap, refl, Bool, true, ◌&&◌, ◌≡◌, sym, ◌∙◌, inl, inr, ℤ}
use mathlib.Core.Bool.{true≢false}
use mt.Json.{Fields}
use mt.Errors.{Result, ok, is_verification}
use mt.Models.{RoundWindow}
use mt.System.{Files, Sys, Host, M}
use mt.System.Rules.{
  Hoare, returned, Any, Hoare-bind, Hoare-if, Hoare-pure, Hoare-raise, Hoare-reraise, Hoare-attempt,
  Hoare-Keeps, Hoare-post, Hoare-returned_from,
}
use mt.Config.{Config, uses_signed_v030}
use mt.Coordinator.Accept.{Accepted, resolve_round_sound}
use mt.Coordinator.Resolve.{resolve_round}
use mt.Controller.Setup.{
  profile, backend_chain_round, backend_verify_round_anchor, backend_validate_round,
}
use mt.State.Read.{read_status}
use mt.Controller.Rounds.{fetched, check_round, resolve}
use mt.Chain.Node.{Node, Track}
use mt.Chain.Rules.{Hoare-lift, given}
use mt.Chain.Publish.{Package}
use mt.Chain.Client.{Client, chain_round}
use mt.Chain.Backend.{Upstream, on_outer, beside, microtensor}
use mt.Chain.Answers.{From, Hoare-ask}
use mt.Chain.Anchored.{IsAnchored, verify_round_anchor-IsAnchored}
use mt.Chain.Fitting.{IsFitting, validate_round-IsFitting}
use mt.Chain.Calls.{Holding, settled, known, call-Hoare, status-Hoare}

anything : {W A : Type 0} {m : M W A} {P : Sys W → Type 0} → Hoare Any P m (λ _. Any)
anything = Hoare-Keeps (record { at = λ s i. tt })

module _ {W : Type 0} (h : Host W) (n : Node W) (v : Client W) (p : Package W) (u : Upstream W)
    (c : Config) where
  -- The world behind the schedule of the chain, and then behind the request of the coordinator's round.
  abbrev scheduled : ℤ → W → W
  scheduled head o = (v.round_for_block head c.round_blocks c.genesis_block o).1

  abbrev requested : ℤ → W → Result Fields × W
  requested head o = u.fetch_round (scheduled head o)

  -- The round was accepted from the payload that the coordinator served, against the status that was
  -- on disk; directly behind the request it was anchored on the chain, and then it left room for the
  -- artifact.
  pub record IsTrusted (head : ℤ) (s : Sys (Track W)) (w : RoundWindow) : Type 0 where
    pub previous : Fields
    pub remembered : (read_status (beside h) s).0 ≡ ok previous
    pub payload : Fields
    pub served : (requested head s.world.outer).0 ≡ ok payload
    pub accepted : Accepted h.py (profile c) head previous payload w
    pub after : W
    pub anchored : IsAnchored n v w (requested head s.world.outer).1 after
    pub fitting : IsFitting v w after

  abbrev Checked : RoundWindow → W → Type 0
  Checked w o = (after : W) × IsAnchored n v w o after × IsFitting v w after

  chain_round-Hoare :
      (head : ℤ) (o : W) → Hoare Any (From o) (chain_round v c head) (λ _. From (scheduled head o))
  unfolding chain_round
  chain_round-Hoare head o = Hoare-bind (Hoare-ask _ o) λ found. given λ _. Hoare-pure _ λ s q. q

  fetched-Hoare :
      (o : W) (f : Files)
      → Hoare Any
          (Holding o f)
          (fetched (beside h) (microtensor n v p u c) c)
          (λ r s. (r ≡ (u.fetch_round o).0) × Holding (u.fetch_round o).1 f s)
  unfolding fetched microtensor on_outer
  fetched-Hoare o f = record {
    at = λ s i q.
        returned tt (ap (λ x. (u.fetch_round x).0) q.0, (ap (λ x. (u.fetch_round x).1) q.0, q.1));
  }

  module _ (signed : uses_signed_v030 c ≡ true) where
    check_round-Hoare :
        (w : RoundWindow) {head : ℤ} {previous payload : Fields} (o : W) (f : Files)
        → Accepted h.py (profile c) head previous payload w
        → Hoare Any
            (Holding o f)
            (check_round (beside h) (microtensor n v p u c) c w)
            (λ _ _. Checked w o)
    unfolding check_round backend_verify_round_anchor backend_validate_round microtensor
    check_round-Hoare w o f a =
        Hoare-attempt
          (Hoare-bind
            (call-Hoare (λ _. IsAnchored n v w o) _ u.session _ o f
              λ k. verify_round_anchor-IsAnchored n v k c w signed a.source o)
            λ _. settled λ after anchored.
              Hoare-post (λ _ _ q. (after, anchored, q.0))
                (call-Hoare (λ _ _. IsFitting v w after) _ u.session _ after f
                  λ k. validate_round-IsFitting v c w a.size.1 a.rss.1 a.p95.1 after))
          λ e.
            Hoare-if (is_verification e.kind && uses_signed_v030 c) (λ _. Hoare-raise _ _)
              (λ _. Hoare-reraise e)

    -- In the signed profile there is no fallback to the schedule of the chain.
    served-Accepted :
        (allow : Bool) (head : ℤ) (chain_round : RoundWindow) (previous : Fields)
        (served : Result Fields) (w : RoundWindow)
        → resolve_round h.py (profile c) allow head chain_round previous served ≡ ok w
        → (payload : Fields) × (served ≡ ok payload)
          × Accepted h.py (profile c) head previous payload w
    unfolding profile
    served-Accepted allow head chain_round previous served w e =
        elim (resolve_round_sound h.py (profile c) allow head chain_round previous served e) [
          | inl found ↦ found
          | inr (legacy, allowed, same) ↦ absurd (true≢false (sym signed ∙ legacy))
        ]

    resolve-Hoare :
        (head : ℤ) (s : Sys (Track W))
        → Hoare Any
            (Holding s.world.outer s.files)
            (resolve (beside h) (microtensor n v p u c) c head)
            (λ w _. IsTrusted head s w)
    unfolding resolve beside backend_chain_round microtensor
    resolve-Hoare head s =
        Hoare-bind
          (call-Hoare (λ _ x. x ≡ scheduled head s.world.outer) _ u.session _ s.world.outer s.files
            λ k. chain_round-Hoare head s.world.outer)
          λ chain_round. Hoare-bind (status-Hoare h s _) λ previous. given λ remembered.
            Hoare-bind (fetched-Hoare _ s.files) λ served. given λ request.
              Hoare-bind (Hoare-lift _) λ w. given λ resolved.
                let (payload, got, accepted) =
                  served-Accepted c.allow_chain_schedule_fallback head chain_round previous served w
                    resolved in
                Hoare-bind (check_round-Hoare w _ s.files accepted) λ _.
                  known λ (after, anchored, fitting). Hoare-bind anything λ _. Hoare-pure w λ t q.
                    record {
                      previous = previous;
                      remembered = remembered;
                      payload = payload;
                      served = sym request ∙ got;
                      accepted = accepted;
                      after = after;
                      anchored = anchored;
                      fitting = fitting;
                    }

    -- In the signed profile, a round that the controller resolves over the chain's backend was
    -- accepted from the payload that the coordinator served, against the status on disk. The anchor
    -- that was then read from the chain has its index and its configuration's hash; its seed block is
    -- its close block, whose hash is untold while submissions are open and afterwards is the one that
    -- the chain gave. The selfcheck that was then read is positive and within the three ceilings of the
    -- round, and so is the measured size of the artifact.
    pub resolve-IsTrusted :
        (head : ℤ) (s t : Sys (Track W)) (w : RoundWindow)
        → resolve (beside h) (microtensor n v p u c) c head s ≡ (ok w, t)
        → IsTrusted head s w
    resolve-IsTrusted head s t w e = Hoare-returned_from (resolve-Hoare head s) (refl, refl) e
