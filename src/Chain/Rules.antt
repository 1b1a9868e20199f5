-- ===== src/Chain/Rules.antt =====
-- backend.py: rules for the calls of the chain. What an invariant must tolerate, and what is known of
-- the record of the steps after each call.
use mt.Base.{String, Bool, true, false, ◌≡◌, refl, ap, Option, none, some, List, ◌∷◌}
use mt.Errors.{Kind, Result, ok, err, is_authorization_refused, is_verification}
use mt.Errors.Ensures.{Ensures}
use mt.System.{raise_if, Sys, outside, lift, observe}
use mt.System.Rules.{
  Keeps, Keeps-pure, Keeps-raise, Keeps-reraise, Keeps-lift, Keeps-if, Keeps-attempt,
  Keeps-raise_if, Keeps-bind, Hoare, Post, returned, raised, Hoare-frame, Hoare-raise,
  Hoare-reraise, Hoare-if, Hoare-attempt,
}
use mt.Config.{Config, uses_signed_v030}
use mt.Chain.Node.{
  Node, Session, Track, C, Step, submitted, step, ask, or_refused, else_refused, instead,
}
use mt.Chain.Policy.{
  gate_refused, observe_gate, check_place, assert_live, assert_registered, assert_registration,
  identity_read, authorized_chain_head,
}

abbrev pub Log : Type 0
Log = List Step

abbrev pub is_submission : Step → Bool
is_submission (submitted x r) = true
is_submission _ = false

abbrev pub At : {W : Type 0} → Log → Sys (Track W) → Type 0
At l s = s.world.steps ≡ l

-- The world may move.
abbrev pub IsQuiet : {W : Type 0} → (Sys (Track W) → Type 0) → Type 0
IsQuiet {W} J =
    (s : Sys (Track W)) (o : W)
    → J s
    → J (record s { world = record { outer = o; steps = s.world.steps } })

module _ {W : Type 0} {J : Sys (Track W) → Type 0} (quiet : IsQuiet J) where
  pub ask-Keeps : {A : Type 0} (f : W → Result A × W) → Keeps J (ask f)
  unfolding ask outside
  ask-Keeps f = record { at = λ s j. quiet s _ j }

  module _ (n : Node W) where
    pub head-Keeps : Keeps J (authorized_chain_head n)
    unfolding authorized_chain_head or_refused identity_read
    head-Keeps =
        Keeps-bind
          (Keeps-attempt
            (Keeps-bind (ask-Keeps _) λ g.
              Keeps-bind (ask-Keeps _)
                λ h. Keeps-bind (ask-Keeps _) λ r. Keeps-bind (ask-Keeps _) λ c. Keeps-pure _)
            λ e. Keeps-raise _ _)
          λ (genesis, head, runtime, code). Keeps-bind (Keeps-raise_if _ _ _) λ _.
            Keeps-bind (Keeps-raise_if _ _ _) λ _. Keeps-bind (Keeps-lift _) λ _.
              Keeps-bind (Keeps-lift _) λ found. Keeps-bind (Keeps-raise_if _ _ _) λ _. Keeps-pure _

  module _ (n : Node W) (k : Session) (c : Config) where
    pub gate-Keeps :
        (refuse : String → C W (Unit {0}))
        → ((t : String) → Keeps J (refuse t))
        → Keeps J (observe_gate n k c refuse)
    unfolding observe_gate observe gate_refused
    gate-Keeps refuse kept =
        Keeps-if (uses_signed_v030 c)
          (λ _. Keeps-bind (record { at = λ s j. quiet s _ j }) λ o. by_answer o) λ _. Keeps-pure _
      where
        by_answer : (o : Option String) → Keeps J (gate_refused n k c o refuse)
        by_answer none = Keeps-pure _
        by_answer (some t) = kept t

    pub place-Keeps : Keeps J (check_place n k c)
    unfolding check_place or_refused
    place-Keeps =
        Keeps-bind
          (Keeps-attempt
            (Keeps-bind (ask-Keeps _)
              λ _. Keeps-bind (Keeps-lift _) λ h. Keeps-bind (Keeps-lift _) λ s. Keeps-pure _)
            λ e. Keeps-raise _ _)
          λ place. Keeps-raise_if _ _ _

    pub live-Keeps : Keeps J (assert_live n k c)
    unfolding assert_live
    live-Keeps =
        Keeps-bind (gate-Keeps _ λ t. Keeps-raise _ _)
          λ _. Keeps-bind (Keeps-lift _) λ _. place-Keeps

    pub registered-Keeps : Keeps J (assert_registered n k c)
    unfolding assert_registered
    registered-Keeps = Keeps-bind (gate-Keeps _ λ t. Keeps-raise _ _) λ _.
        Keeps-bind (Keeps-raise_if _ _ _) λ _.
          Keeps-bind
            (Keeps-attempt (Keeps-bind (Keeps-lift _) λ h. ask-Keeps _) λ e. Keeps-raise _ _)
            λ uid. Keeps-raise_if _ _ _

    pub registration-Keeps : Keeps J (assert_registration n k c)
    unfolding assert_registration
    registration-Keeps = Keeps-bind live-Keeps λ _. Keeps-bind (Keeps-raise_if _ _ _) λ _.
        Keeps-bind (ask-Keeps _) λ o. Keeps-bind (Keeps-lift _) λ netuid.
          Keeps-bind (Keeps-raise_if _ _ _) λ _.
            Keeps-attempt registered-Keeps
              λ e. Keeps-if (is_verification e.kind) (λ _. Keeps-raise _ _) (λ _. Keeps-reraise e)

-- An invariant that every step but a submission keeps.
pub record IsTolerant {W : Type 0} (I : Sys (Track W) → Type 0) : Type 0 where
  pub quiet : IsQuiet I
  pub steps :
      (s : Sys (Track W)) (o : W) (e : Step)
      → is_submission e ≡ false
      → I s
      → I (record s { world = record { outer = o; steps = e ∷ s.world.steps } })

module _ {W A : Type 0} {I : Sys (Track W) → Type 0} where
  -- A triple for every record of steps is a triple.
  pub Hoare-known :
      {P : Sys (Track W) → Type 0} {m : C W A} {Q : A → Sys (Track W) → Type 0}
      → ((l : Log) → Hoare I (At l) m Q)
      → Hoare I P m Q
  Hoare-known k = record { at = λ s i p. (k s.world.steps).at s i refl }

  pub Hoare-after :
      {P : Sys (Track W) → Type 0} {m : C W A} {Q R : A → Sys (Track W) → Type 0}
      → ((a : A) (s : Sys (Track W)) → Q a s → R a s)
      → Hoare I P m Q
      → Hoare I P m R
  Hoare-after {Q} {R} w t = record { at = λ s i p. weaken (t.at s i p) }
    where
      weaken : {o : Result A × Sys (Track W)} → Post I Q o → Post I R o
      weaken (returned i q) = returned i (w _ _ q)
      weaken (raised i) = raised i

  pub Hoare-lift :
      {P : Sys (Track W) → Type 0} (r : Result A) → Hoare I P (lift r) (λ a s. (r ≡ ok a) × P s)
  unfolding lift
  Hoare-lift (ok a) = record { at = λ s i p. returned i (refl, p) }
  Hoare-lift (err e) = record { at = λ s i p. raised i }

  -- What a chain of checks ensures, beside the precondition.
  pub Hoare-ensures :
      {P : Sys (Track W) → Type 0} {F : A → Type 0} {r : Result A}
      → Ensures F r
      → Hoare I P (lift r) (λ a s. F a × P s)
  Hoare-ensures {F} {r} f = Hoare-after (λ a s q. (f.holds a q.0, q.1)) (Hoare-lift r)

  -- A fact beside a precondition.
  pub given :
      {F : Type 0} {P : Sys (Track W) → Type 0} {m : C W A} {Q : A → Sys (Track W) → Type 0}
      → (F → Hoare I P m Q)
      → Hoare I (λ s. F × P s) m Q
  given k = record { at = λ s i p. (k p.0).at s i p.1 }

  module _ {P : Sys (Track W) → Type 0} {m : C W A} {Q : A → Sys (Track W) → Type 0} where
    pub Hoare-or_refused : (t : String) → Hoare I P m Q → Hoare I P (or_refused t m) Q
    unfolding or_refused
    Hoare-or_refused t h = Hoare-attempt h λ e. Hoare-raise _ _

    pub Hoare-instead : (t : String) → Hoare I P m Q → Hoare I P (instead t m) Q
    unfolding instead
    Hoare-instead t h = Hoare-attempt h λ e. Hoare-raise _ _

    pub Hoare-else_refused : (t : String) → Hoare I P m Q → Hoare I P (else_refused t m) Q
    unfolding else_refused
    Hoare-else_refused t h = Hoare-attempt h λ e.
        Hoare-if (is_authorization_refused e.kind) (λ _. Hoare-reraise e) (λ _. Hoare-raise _ _)

-- A guard that did not raise, at the end of a chain.
pub Hoare-raise_if :
    {W : Type 0} {I P : Sys (Track W) → Type 0} (b : Bool) (k : Kind) (t : String)
    → Hoare I P (raise_if b k t) (λ _ s. (b ≡ false) × P s)
unfolding raise_if
Hoare-raise_if true k t = record { at = λ s i p. raised i }
Hoare-raise_if false k t = record { at = λ s i p. returned i (refl, p) }

module _ {W A : Type 0} {I : Sys (Track W) → Type 0} (l : Log) where
  pub Hoare-noted :
      (note : Result A → Step) (f : W → Result A × W)
      → ((s : Sys (Track W)) (o : W) (r : Result A)
          → I s
          → I (record s { world = record { outer = o; steps = note r ∷ s.world.steps } }))
      → Hoare I (At l) (step note f) (λ a. At (note (ok a) ∷ l))
  unfolding step outside
  Hoare-noted note f kept = record { at = λ s i p. noted s p (f s.world.outer) (kept s _ _ i) }
    where
      noted :
          (s : Sys (Track W))
          → At l s
          → (o : Result A × W)
          → I (record s { world = record { outer = o.1; steps = note o.0 ∷ s.world.steps } })
          → Post I
              (λ a. At (note (ok a) ∷ l))
              (o.0, record s { world = record { outer = o.1; steps = note o.0 ∷ s.world.steps } })
      noted s p (ok a, w) i = returned i (ap (λ m. note (ok a) ∷ m) p)
      noted s p (err e, w) i = raised i

module _ {W A : Type 0} {I : Sys (Track W) → Type 0} (tolerant : IsTolerant I) (l : Log) where
  -- What leaves every quiet property leaves the record.
  pub Hoare-quiet :
      {m : C W A}
      → ((J : Sys (Track W) → Type 0) → IsQuiet J → Keeps J m)
      → Hoare I (At l) m (λ _. At l)
  Hoare-quiet k = Hoare-frame (k I tolerant.quiet) (k (At l) λ s o j. j)

  pub Hoare-step :
      (note : Result A → Step) (f : W → Result A × W)
      → ((r : Result A) → is_submission (note r) ≡ false)
      → Hoare I (At l) (step note f) (λ a. At (note (ok a) ∷ l))
  Hoare-step note f harmless = Hoare-noted l note f λ s o r i. tolerant.steps s o _ (harmless r) i
