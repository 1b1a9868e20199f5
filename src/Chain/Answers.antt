-- ===== src/Chain/Answers.antt =====
-- backend.py: the answers of the calls that are not noted, and the worlds in which they were given.
use mt.Base.{String, Bool, false, ◌≡◌, refl, sym, ap, subst}
use mt.Errors.{Kind, Result, ok, err}
use mt.System.{Sys, outside, raise_if}
use mt.System.Rules.{Hoare, Post, returned, raised, Any, Hoare-post}
use mt.Chain.Node.{Track, C, ask}
use mt.Chain.Rules.{Hoare-raise_if}

module _ {W : Type 0} where
  -- The rest of the world.
  abbrev pub From : W → Sys (Track W) → Type 0
  From o s = s.world.outer ≡ o

  -- What is true of the rest of the world.
  abbrev pub At : (W → Type 0) → Sys (Track W) → Type 0
  At F s = F s.world.outer

  abbrev pub moved : Sys (Track W) → W → Sys (Track W)
  moved s o = record s { world = record { outer = o; steps = s.world.steps } }

  -- What the guard at the end of a chain says of the world that it leaves.
  pub refused :
      (F : W → Type 0) {o : W} (b : Bool) (k : Kind) (t : String)
      → (b ≡ false → F o)
      → Hoare Any (From o) (raise_if b k t) (λ _. At F)
  refused F b k t f = Hoare-post (λ a s q. subst F (sym q.1) (f q.0)) (Hoare-raise_if b k t)

module _ {W A : Type 0} where
  -- A call that returned, with its answer and the world behind it.
  pub Hoare-ask :
      (f : W → Result A × W) (o : W)
      → Hoare Any (From o) (ask f) (λ a s. ((f o).0 ≡ ok a) × From (f o).1 s)
  unfolding ask outside
  Hoare-ask f o = record { at = λ s i p. answered s (f s.world.outer) (ap f p) }
    where
      answered :
          (s : Sys (Track W)) (r : Result A × W)
          → r ≡ f o
          → Post Any (λ a s. ((f o).0 ≡ ok a) × From (f o).1 s) (r.0, moved s r.1)
      answered s (ok a, w) e = returned tt (sym (ap (λ x. x.0) e), ap (λ x. x.1) e)
      answered s (err e, w) q = raised tt

module _ {W A : Type 0} {m : C W A} {Q : A → Sys (Track W) → Type 0} where
  -- From what is true of the world to the world.
  pub located : {F : W → Type 0} → ((o : W) → F o → Hoare Any (From o) m Q) → Hoare Any (At F) m Q
  located k = record { at = λ s i f. (k s.world.outer f).at s i refl }
