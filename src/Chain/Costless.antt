-- ===== src/Chain/Costless.antt =====
-- backend.py: what stands before a submission.
use mt.Base.{ℕ, String, Bool, false, ◌≡◌, ◌∷◌}
use mt.Errors.{Result, ok, err}
use mt.System.{Sys, outside}
use mt.System.Rules.{
  Keeps, Keeps-bind, Keeps-hoare, Hoare, Hoare-pre, Post, returned, raised, Any, Hoare-bind,
  Hoare-Keeps,
}
use mt.Config.{Config}
use mt.Chain.Objects.{Obj}
use mt.Chain.Node.{
  Node, Session, Track, Step, call_read, deposit_read, index_read, estimated, signed,
  extrinsic_read, submitted, step,
}
use mt.Chain.Submit.{submit, submit_authorized_commitment}
use mt.Chain.Rules.{Log, is_submission, IsTolerant, Hoare-known, Hoare-instead}
use mt.Chain.Trail.{Authorized, Backed, Costless}
use mt.Chain.Stages.{composed-Hoare}
use mt.Chain.Whole.{admitted-Keeps, receipt-Keeps, Authorized-Hoare}

harmless-Backed :
    (equals : Obj → Obj → Bool) (payload : String) (e : Step) (l : Log)
    → is_submission e ≡ false
    → Backed equals payload e l
harmless-Backed equals payload (submitted x r) l h = cc
harmless-Backed equals payload (call_read x r) l h = tt
harmless-Backed equals payload (deposit_read x r) l h = tt
harmless-Backed equals payload (index_read r) l h = tt
harmless-Backed equals payload (estimated x e m r) l h = tt
harmless-Backed equals payload (signed x e m r) l h = tt
harmless-Backed equals payload (extrinsic_read x r) l h = tt

module _ {W : Type 0} {I : Sys (Track W) → Type 0} (tolerant : IsTolerant I) (n : Node W)
    (k : Session) (c : Config) (payload : String)
    (behind : (s : Sys (Track W)) (o : W) (x : ℕ) (r : Result ℕ) (base : Log)
      → Authorized n.equals payload base x s.world.steps
      → I s
      → I (record s { world = record { outer = o; steps = submitted x r ∷ s.world.steps } })) where
  submit-Hoare :
      (x : ℕ)
      → Hoare I
          (λ s. (base : Log) × Authorized n.equals payload base x s.world.steps)
          (submit n k c x)
          (λ _. Any)
  unfolding submit step outside
  submit-Hoare x = Hoare-instead _ (record {
    at = λ s i p.
        let o = n.submit_extrinsic x s.world.outer in sent s o (behind s o.1 x o.0 p.0 p.1 i);
  })
    where
      sent :
          (s : Sys (Track W)) (o : Result ℕ × W)
          → I (record s { world = record { outer = o.1; steps = submitted x o.0 ∷ s.world.steps } })
          → Post I
              (λ _. Any)
              (
                o.0,
                record s {
                  world = record { outer = o.1; steps = submitted x o.0 ∷ s.world.steps };
                },
              )
      sent s (ok r, w) i = returned i tt
      sent s (err e, w) i = raised i

  -- What every step keeps, and a submission directly behind its authorization, is kept.
  pub submission-Keeps : Keeps I (submit_authorized_commitment n k c payload)
  unfolding submit_authorized_commitment
  submission-Keeps = Keeps-bind (admitted-Keeps tolerant.quiet n k c payload) λ address.
      Keeps-hoare {Q = λ _. Any} (
        Hoare-known λ base. Hoare-bind (composed-Hoare n k tolerant payload base) λ (head, call).
          Authorized-Hoare n k c payload tolerant address head call base λ x hash.
            Hoare-bind (Hoare-pre (λ t a. (base, a)) (submit-Hoare x))
              λ r. Hoare-Keeps (receipt-Keeps tolerant.quiet n k c hash r))

module _ {W : Type 0} (n : Node W) (k : Session) (c : Config) (payload : String) where
  abbrev I : Sys (Track W) → Type 0
  I s = Costless n.equals payload s.world.steps

  tolerant : IsTolerant I
  tolerant = record {
    quiet = λ s o i. i;
    steps = λ s o e h i. (harmless-Backed n.equals payload e s.world.steps h, i);
  }

  -- However the submission of a commitment ends, every extrinsic that was submitted was submitted
  -- directly behind its authorization, if that held before: the deposits were zero, the composed call
  -- was the commitment to the payload, three estimates of that call with one nonce and one era of 128
  -- blocks were free, the last of them behind the signature, and the signed value commits to the
  -- payload with that nonce and era, without a tip or another asset, when it was signed and again
  -- before it was sent.
  pub submit-Costless :
      (s : Sys (Track W))
      → Costless n.equals payload s.world.steps
      → Costless n.equals payload (submit_authorized_commitment n k c payload s).1.world.steps
  submit-Costless s h =
      (submission-Keeps tolerant n k c payload λ s o x r base a i. ((base, a), i)).at s h
