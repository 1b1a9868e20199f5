-- ===== src/Controller/Evidence.antt =====
-- controller.py: what the calls and the guards of `_submit` and `_reconcile_pending` say of the artifact.
use mt.Base.{
  String, Bool, true, false, ◌≡◌, refl, sym, ◌∙◌, Option, none, some, ap, subst, ℤ, int_eqb-eq,
  eq_iff, &&_true, not-true, if◌then◌else◌,
}
use mt.Errors.{Result, ok, err, fail, authorization_refused}
use mt.Models.{PackagedArtifact}
use mt.System.{Sys, M, Call, call, lift}
use mt.System.Rules.{Hoare-Keeps, Hoare, Any, Post, returned, raised, said}
use mt.Controller.Setup.{
  Backend, backend_validate_binding, backend_package, backend_validate_commitment, backend_block,
  backend_verify_on_chain,
}
use mt.Controller.Local.{local_matches}
use mt.Controller.Reconcile.{matching_local, no_manifest}
use mt.Controller.Submit.{reusable}

-- The call of the world gave this answer.
abbrev pub Answered : {W A : Type 0} → (W → Result A × W) → A → Type 0
Answered {W} f a = (w : W) × ((f w).0 ≡ ok a)

module _ {W A : Type 0} where
  both :
      {Q R : A → Sys W → Type 0} (o : Result A × Sys W)
      → Post Any Q o
      → Post Any R o
      → Post Any (λ a s. Q a s × R a s) o
  both {Q} {R} (ok a, s) q r = returned tt (said Q q, said R r)
  both (err e, s) q r = raised tt

module _ {W A : Type 0} {m : M W A} where
  -- Two things that hold of the same outcome.
  pub Hoare-and :
      {P : Sys W → Type 0} {Q R : A → Sys W → Type 0}
      → Hoare Any P m Q
      → Hoare Any P m R
      → Hoare Any P m (λ a s. Q a s × R a s)
  Hoare-and t u = record { at = λ s i p. both (m s) (t.at s i p) (u.at s i p) }

  -- A fact beside a precondition.
  pub given_fact :
      {F : Type 0} {P : Sys W → Type 0} {Q : A → Sys W → Type 0}
      → (F → Hoare Any P m Q)
      → Hoare Any (λ s. F × P s) m Q
  given_fact k = record { at = λ s i q. (k q.0).at s i q.1 }

-- Nothing is asked of the action.
pub anything : {W A : Type 0} {P : Sys W → Type 0} (m : M W A) → Hoare Any P m (λ _. Any)
anything m = Hoare-Keeps (record { at = λ s i. tt })

pub lifted : {W A : Type 0} (r : Result A) → Hoare {W = W} Any Any (lift r) (λ a s. r ≡ ok a)
unfolding lift
lifted (ok a) = record { at = λ s i p. returned tt refl }
lifted (err e) = record { at = λ s i p. raised tt }

module _ {W : Type 0} where
  call-Answered :
      {A : Type 0} (c : Call) (f : W → Result A × W)
      → Hoare Any Any (call c f) (λ a s. Answered f a)
  unfolding call
  call-Answered c f = record { at = λ s i p. noted f s.world (f s.world).0 refl }
    where
      noted :
          {A : Type 0} {t : Sys W} (f : W → Result A × W) (w : W) (r : Result A)
          → (f w).0 ≡ r
          → Post Any (λ a s. Answered f a) (r, t)
      noted f w (ok a) e = returned tt (w, e)
      noted f w (err x) e = raised tt

module _ {W : Type 0} (b : Backend W) where
  pub binding-Answered :
      Hoare Any Any (backend_validate_binding b) (λ a s. Answered b.do_validate_binding a)
  unfolding backend_validate_binding
  binding-Answered = call-Answered _ _

  pub block-Answered : Hoare Any Any (backend_block b) (λ a s. Answered b.do_block a)
  unfolding backend_block
  block-Answered = call-Answered _ _

  pub package-Answered :
      (n : ℤ) (source : String)
      → Hoare Any Any (backend_package b n source) (λ a s. Answered (b.do_package n source) a)
  unfolding backend_package
  package-Answered n source = call-Answered _ _

  pub commitment-Answered :
      (p : PackagedArtifact)
      → Hoare Any Any
          (backend_validate_commitment b p)
          (λ a s. Answered (b.do_validate_commitment p) a)
  unfolding backend_validate_commitment
  commitment-Answered p = call-Answered _ _

  pub on_chain-Answered :
      (p : PackagedArtifact)
      → Hoare Any Any (backend_verify_on_chain b p) (λ a s. Answered (b.do_verify_on_chain p) a)
  unfolding backend_verify_on_chain
  on_chain-Answered p = call-Answered _ _

-- An unsealed manifest of the round, under the source and the hotkey.
pub record IsManifest (p : PackagedArtifact) (n : ℤ) (place owner : String) : Type 0 where
  pub unsealed : p.sealed ≡ false
  pub round : p.round_index ≡ n
  pub source : p.source ≡ place
  pub hotkey : p.hotkey ≡ owner

pub local_matches-IsManifest :
    (p : PackagedArtifact) (n : ℤ) (place owner : String)
    → local_matches (some p) n place owner ≡ true
    → IsManifest p n place owner
unfolding local_matches
local_matches-IsManifest p n place owner e =
    let (e2, hotkey) = &&_true _ _ e in
    let (e1, source) = &&_true _ _ e2 in
    let (unsealed, round) = &&_true _ _ e1 in
    record {
      unsealed = not-true _ unsealed;
      round = int_eqb-eq _ _ round;
      source = (eq_iff _ _).0 source;
      hotkey = (eq_iff _ _).0 hotkey;
    }

-- The manifest of the local artifact, where the local artifact is one of this round.
abbrev pub IsLocal : Option PackagedArtifact → PackagedArtifact → ℤ → String → String → Type 0
IsLocal local p n place owner = (local ≡ some p) × IsManifest p n place owner

pub matching_local-IsLocal :
    (local : Option PackagedArtifact) (n : ℤ) (place owner : String) (p : PackagedArtifact)
    → matching_local local n place owner ≡ ok p
    → IsLocal local p n place owner
unfolding matching_local
matching_local-IsLocal none n place owner p e = cc
matching_local-IsLocal (some q) n place owner p e =
    by_match (local_matches (some q) n place owner) refl e
  where
    by_match :
        (b : Bool)
        → local_matches (some q) n place owner ≡ b
        → (if b then ok q else fail authorization_refused no_manifest) ≡ ok p
        → IsLocal (some q) p n place owner
    by_match true m f =
        let same : q ≡ p = cc in
        (
          ap some same,
          subst (λ r. IsManifest r n place owner) same (local_matches-IsManifest q n place owner m),
        )
    by_match false m f = cc

pub reusable-IsLocal :
    (local : Option PackagedArtifact) (n : ℤ) (place owner : String) (p : PackagedArtifact)
    → reusable local (local_matches local n place owner) ≡ some p
    → IsLocal local p n place owner
reusable-IsLocal local n place owner p = by_match (local_matches local n place owner) refl
  where
    by_match :
        (b : Bool)
        → local_matches local n place owner ≡ b
        → reusable local b ≡ some p
        → IsLocal local p n place owner
    by_match true m e = (
      e,
      local_matches-IsManifest p n place owner
          (ap (λ o. local_matches o n place owner) (sym e) ∙ m),
    )
    by_match false m e = cc
