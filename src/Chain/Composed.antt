-- ===== src/Chain/Composed.antt =====
-- controller.py over backend.py: the submissions of a whole `run`.
use mt.Base.{ℕ, String, Bool, false, ◌≡◌, List, ◌∷◌}
use mt.Models.{PackagedArtifact}
use mt.System.{Sys, Host}
use mt.System.Rules.{
  Keeps, Keeps-pure, Keeps-raise, Keeps-lift, Keeps-attempt, Keeps-raise_if, Keeps-bind,
}
use mt.Config.{Config}
use mt.Controller.Harmless.{IsOblivious, cycle-Keeps}
use mt.Controller.Loud.{IsLoud}
use mt.Controller.LoudCycle.{round_cycle-Keeps}
use mt.Controller.Quiet.{IsWithin}
use mt.Controller.Run.{run}
use mt.Controller.RunKeeps.{run-Keeps}
use mt.Chain.Objects.{Obj}
use mt.Chain.Node.{
  Node, Session, Track, Step, submitted, call_read, deposit_read, index_read, estimated, signed,
  extrinsic_read, C,
}
use mt.Chain.Publish.{Package, check_packaged, publish}
use mt.Chain.Client.{Client}
use mt.Chain.Backend.{Upstream, on_outer, as_method, beside, microtensor}
use mt.Chain.Node.{or_refused}
use mt.Chain.Rules.{Log, is_submission, IsTolerant, ask-Keeps, live-Keeps, registered-Keeps}
use mt.Chain.Methods.{
  block-Keeps, close-Keeps, chain_round-Keeps, validate_round-Keeps, verify_provenance-Keeps,
  verify_on_chain-Keeps, verify_round_anchor-Keeps,
}
use mt.Chain.Trail.{Authorized}
use mt.Chain.Submit.{submit_authorized_commitment}
use mt.Chain.Costless.{submission-Keeps}

-- What a step needs behind it, for the commitment to any payload.
abbrev IsPaid : (Obj → Obj → Bool) → Step → Log → Type 0
IsPaid equals (submitted x r) l =
    (payload : String) × (base : Log) × Authorized equals payload base x l
IsPaid equals _ l = Unit

-- Every submission is directly behind its authorization, whichever payload it commits to.
abbrev pub AllCostless : (Obj → Obj → Bool) → Log → Type 0
AllCostless equals List.[] = Unit
AllCostless equals (e ∷ l) = IsPaid equals e l × AllCostless equals l

module _ {W : Type 0} {J : Sys (Track W) → Type 0} (tolerant : IsTolerant J) (n : Node W)
    (k : Session) (c : Config) (v : Package W) where
  check_packaged-Keeps : (a : PackagedArtifact) → Keeps J (check_packaged n k c v a)
  unfolding check_packaged or_refused
  check_packaged-Keeps a = Keeps-bind (Keeps-lift _) λ h. Keeps-bind (Keeps-raise_if _ _ _) λ _.
      Keeps-bind (Keeps-attempt (Keeps-lift _) λ e. Keeps-raise _ _)
        λ s. Keeps-bind (Keeps-raise_if _ _ _) λ _. Keeps-raise_if _ _ _

  publish-Keeps :
      (a : PackagedArtifact)
      → ((payload : String) → Keeps J (submit_authorized_commitment n k c payload))
      → Keeps J (publish n k c v a)
  unfolding publish
  publish-Keeps a kept = Keeps-bind (live-Keeps tolerant.quiet n k c) λ _.
      Keeps-bind (check_packaged-Keeps a) λ _. Keeps-bind (ask-Keeps tolerant.quiet _) λ payload.
        Keeps-bind (ask-Keeps tolerant.quiet _) λ _. Keeps-bind (kept payload) λ _. Keeps-pure _

harmless-IsPaid :
    (equals : Obj → Obj → Bool) (e : Step) (l : Log) → is_submission e ≡ false → IsPaid equals e l
harmless-IsPaid equals (submitted x r) l h = cc
harmless-IsPaid equals (call_read x r) l h = tt
harmless-IsPaid equals (deposit_read x r) l h = tt
harmless-IsPaid equals (index_read r) l h = tt
harmless-IsPaid equals (estimated x e m r) l h = tt
harmless-IsPaid equals (signed x e m r) l h = tt
harmless-IsPaid equals (extrinsic_read x r) l h = tt

module _ {W : Type 0} (h : Host W) (n : Node W) (v : Client W) (p : Package W) (u : Upstream W)
    (c : Config) where
  abbrev I : Sys (Track W) → Type 0
  I s = AllCostless n.equals s.world.steps

  abbrev Move : Track W → Track W → Type 0
  Move w t = AllCostless n.equals w.steps → AllCostless n.equals t.steps

  tolerant : IsTolerant I
  tolerant = record {
    quiet = λ s o i. i;
    steps = λ s o e q i. (harmless-IsPaid n.equals e s.world.steps q, i);
  }

  paid-Keeps : (k : Session) (a : PackagedArtifact) → Keeps I (publish n k c p a)
  paid-Keeps k a =
      publish-Keeps tolerant n k c p a λ payload.
        submission-Keeps tolerant n k c payload λ s o x r base q i. ((payload, base, q), i)

  as_method-Move :
      {A : Type 0} (m : Session → C W A)
      → ((k : Session) → Keeps I (m k))
      → (w : Track W) → Move w (as_method u.session m w).1
  unfolding as_method
  as_method-Move m kept w i = (kept (u.session w.outer)).at _ i

  within : IsWithin (beside h) (microtensor n v p u c) Move
  unfolding beside microtensor on_outer
  within = record {
    now = λ w i. i;
    effect = λ w i. i;
    stop_is_set = λ w i. i;
    stop_wait = λ t w i. i;
    monitor_start = λ t w i. i;
    monitor_stop = λ w i. i;
    preflight = λ w i. i;
    block = as_method-Move _ λ k. block-Keeps tolerant.quiet v k c;
    chain_round = λ b. as_method-Move _ λ k. chain_round-Keeps tolerant.quiet v k c b;
    verify_round_anchor =
        λ r. as_method-Move _ λ k. verify_round_anchor-Keeps tolerant.quiet v k c n r;
    validate_round = λ r. as_method-Move _ λ k. validate_round-Keeps tolerant.quiet v k c r;
    assert_registered = as_method-Move _ λ k. registered-Keeps tolerant.quiet n k c;
    validate_binding = λ w i. i;
    load_local = λ w i. i;
    package_round = λ b t w i. i;
    upload = λ a w i. i;
    validate_commitment = λ a w i. i;
    verify_source = λ a full w i. i;
    verify_provenance =
        λ a b. as_method-Move _ λ k. verify_provenance-Keeps tolerant.quiet v k c a b;
    publish = λ a. as_method-Move _ λ k. paid-Keeps k a;
    verify_on_chain = λ a. as_method-Move _ λ k. verify_on_chain-Keeps tolerant.quiet v k c p a;
    close = as_method-Move _ λ k. close-Keeps tolerant.quiet v k c u.without_client;
    fetch_round = λ w i. i;
  }

  oblivious : IsOblivious (beside h) (microtensor n v p u c) I
  oblivious = record {
    tolerant = record {
      Move = Move;
      within = within;
      world = λ s w m i. m i;
      status = λ s f i. i;
      health = λ s f i. i;
      event = λ s e q i. i;
    };
    pending = λ s f i. i;
  }

  loud : IsLoud (beside h) (microtensor n v p u c) I
  loud = record { oblivious = oblivious; event = λ s e q i. i }

  -- From a record of steps in which every submission was directly behind its authorization, the steps
  -- of a run of the process over the chain's backend are such a record, for any number of cycles and
  -- whatever the chain, the disk and the parts beside the signing answer: no extrinsic is submitted
  -- but directly behind the zero-cost authorization of that very extrinsic.
  pub run-AllCostless :
      (once : Bool) (fuel : ℕ) (s : Sys (Track W))
      → AllCostless n.equals s.world.steps
      → AllCostless n.equals (run (beside h) (microtensor n v p u c) c once fuel s).1.world.steps
  run-AllCostless once fuel s paid =
      (run-Keeps (beside h) (microtensor n v p u c) c I
          (record { oblivious = oblivious; authorization = λ s f i. i })
          (λ snapshot.
            cycle-Keeps (beside h) (microtensor n v p u c) c I oblivious snapshot
              (round_cycle-Keeps (beside h) (microtensor n v p u c) c I loud snapshot))
          once fuel).at
        s paid
