-- ===== src/Chain/Calls.antt =====
-- controller.py over backend.py: what a method of the backend ensures, as a call of the controller.
use mt.Base.{ap, refl, ◌≡◌, sym, ◌∷◌}
use mt.Json.{Fields}
use mt.Errors.{Result, ok, err}
use mt.System.{Files, Sys, Host, Call, M, call, is_ok}
use mt.System.Rules.{Hoare, Post, returned, raised, Any}
use mt.State.Read.{read, read_status}
use mt.Chain.Node.{Session, Track, C}
use mt.Chain.Backend.{as_method, beside}
use mt.Chain.Answers.{From, At}

module _ {W : Type 0} where
  -- The rest of the world, and the documents.
  abbrev pub Holding : W → Files → Sys (Track W) → Type 0
  Holding o f s = (s.world.outer ≡ o) × (s.files ≡ f)

module _ {W A : Type 0} where
  -- From what is true of the world to the world.
  pub settled :
      {m : M (Track W) A} {Q : A → Sys (Track W) → Type 0} {f : Files} {F : W → Type 0}
      → ((o : W) → F o → Hoare Any (Holding o f) m Q)
      → Hoare Any (λ s. At F s × (s.files ≡ f)) m Q
  settled k = record { at = λ s i p. (k s.world.outer p.0).at s i (refl, p.1) }

  -- What is known, whatever the state.
  pub known :
      {m : M (Track W) A} {Q : A → Sys (Track W) → Type 0} {F : Type 0}
      → (F → Hoare Any Any m Q)
      → Hoare Any (λ _. F) m Q
  known k = record { at = λ s i f. (k f).at s i tt }

  -- What a method ensures, as a call of the backend.
  pub call-Hoare :
      (F : A → W → Type 0) (e : Call) (session : W → Session) (m : Session → C W A) (o : W)
      (f : Files)
      → ((k : Session) → Hoare Any (From o) (m k) (λ a. At (F a)))
      → Hoare Any (Holding o f) (call e (as_method session m)) (λ a s. At (F a) s × (s.files ≡ f))
  unfolding call as_method
  call-Hoare F e session m o f kept = record {
    at = λ s i p. noted s p.1 ((kept (session s.world.outer)).at _ tt p.0);
  }
    where
      noted :
          (s : Sys (Track W)) {r : Result A × Sys (Track W)}
          → s.files ≡ f
          → Post Any (λ a. At (F a)) r
          → Post Any
              (λ a t. At (F a) t × (t.files ≡ f))
              (
                r.0,
                record s {
                  world = r.1.world;
                  events = record { call = e; files = s.files; returned = is_ok r.0 } ∷ s.events;
                },
              )
      noted s p (returned i q) = returned tt (q, p)
      noted s p (raised i) = raised tt

module _ {W : Type 0} (h : Host W) where
  -- The status as it was in an earlier state with the same documents.
  pub status-Hoare :
      (s : Sys (Track W)) (o : W)
      → Hoare Any
          (Holding o s.files)
          (read_status (beside h))
          (λ d t. ((read_status (beside h) s).0 ≡ ok d) × Holding o s.files t)
  unfolding read_status
  status-Hoare s o = record {
    at = λ t i p. found t p (read t.files.status) (ap (λ f. read f.status) p.1);
  }
    where
      found :
          (t : Sys (Track W))
          → Holding o s.files t
          → (r : Result Fields) → r ≡ read s.files.status
          → Post Any (λ d t. (read s.files.status ≡ ok d) × Holding o s.files t) (r, t)
      found t p (ok d) e = returned tt (sym e, p)
      found t p (err e) q = raised tt
