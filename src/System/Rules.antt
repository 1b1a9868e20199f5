-- ===== src/System/Rules.antt =====
-- Rules for what holds after an action, one for each way to build an action. `Keeps I m`: the
-- action leaves `I` true, whether it returns or raises. `Hoare I P m Q`: it does so from a state
-- with `P`, and what it returns satisfies `Q` with the state that it returns in.
use mt.Base.{subst, String, Bool, true, false, ◌≡◌, refl, if◌then◌else◌}
use mt.Errors.{Kind, Error, Result, ok, err}
use mt.System.{Sys, M, pure, raise, lift, attempt, reraise, raise_if, continue, ◌>>=◌}

pub record Keeps {W A : Type 0} (I : Sys W → Type 0) (m : M W A) : Type 0 where
  pub at : (s : Sys W) → I s → I (m s).1

-- The outcome of an action as it returned or raised.
pub data Post {W A : Type 0} (I : Sys W → Type 0) (Q : A → Sys W → Type 0)
    : Result A × Sys W → Type 0 where
  returned : {a : A} {s : Sys W} → I s → Q a s → Post I Q (ok a, s)
  raised : {e : Error} {s : Sys W} → I s → Post I Q (err e, s)

pub record Hoare {W A : Type 0} (I P : Sys W → Type 0) (m : M W A) (Q : A → Sys W → Type 0)
    : Type 0 where
  pub at : (s : Sys W) → I s → P s → Post I Q (m s)

abbrev pub Any : {W : Type 0} → Sys W → Type 0
Any s = Unit

module _ {W A : Type 0} {I : Sys W → Type 0} where
  pub Keeps-pure : (a : A) → Keeps I (pure a)
  unfolding pure
  Keeps-pure a = record { at = λ s h. h }

  pub Keeps-raise : (k : Kind) (t : String) → Keeps I (raise {A = A} k t)
  unfolding raise
  Keeps-raise k t = record { at = λ s h. h }

  pub Keeps-reraise : (e : Error) → Keeps I (reraise {A = A} e)
  unfolding reraise
  Keeps-reraise e = record { at = λ s h. h }

  pub Keeps-lift : (r : Result A) → Keeps I (lift r)
  unfolding lift
  Keeps-lift r = record { at = λ s h. h }

  pub Keeps-if :
      (b : Bool) {m n : M W A}
      → (b ≡ true → Keeps I m)
      → (b ≡ false → Keeps I n)
      → Keeps I (if b then m else n)
  Keeps-if true km kn = km refl
  Keeps-if false km kn = kn refl

  continue-Keeps :
      {f : A → M W A} {g : Error → M W A} (r : Result A)
      → ((a : A) → Keeps I (f a))
      → ((e : Error) → Keeps I (g e))
      → (s : Sys W) → I s
      → I (continue r f g s).1
  continue-Keeps (ok a) kf kg s h = (kf a).at s h
  continue-Keeps (err e) kf kg s h = (kg e).at s h

  pub Keeps-attempt :
      {m : M W A} {handler : Error → M W A}
      → Keeps I m
      → ((e : Error) → Keeps I (handler e))
      → Keeps I (attempt m handler)
  unfolding attempt
  Keeps-attempt {m} km kh = record {
    at = λ s h. continue-Keeps (m s).0 (λ a. record { at = λ t i. i }) kh (m s).1 (km.at s h);
  }

pub Keeps-raise_if :
    {W : Type 0} {I : Sys W → Type 0} (b : Bool) (k : Kind) (t : String) → Keeps I (raise_if b k t)
unfolding raise_if
Keeps-raise_if true k t = record { at = λ s h. h }
Keeps-raise_if false k t = record { at = λ s h. h }

module _ {W A B : Type 0} {I : Sys W → Type 0} where
  continue-Keeps_bind :
      {f : A → M W B} (r : Result A)
      → ((a : A) → Keeps I (f a))
      → (s : Sys W) → I s
      → I (continue r f (λ e u. (err e, u)) s).1
  continue-Keeps_bind (ok a) kf s h = (kf a).at s h
  continue-Keeps_bind (err e) kf s h = h

  pub Keeps-bind :
      {m : M W A} {f : A → M W B} → Keeps I m → ((a : A) → Keeps I (f a)) → Keeps I (m >>= f)
  unfolding ◌>>=◌
  Keeps-bind {m} km kf = record { at = λ s h. continue-Keeps_bind (m s).0 kf (m s).1 (km.at s h) }

module _ {W A : Type 0} {I : Sys W → Type 0} where
  pub split :
      {Q : A → Sys W → Type 0} (o : Result A × Sys W)
      → I o.1
      → ((a : A) → o.0 ≡ ok a → Q a o.1)
      → Post I Q o
  split (ok a, s) h q = returned h (q a refl)
  split (err e, s) h q = raised h

  -- An action that keeps an invariant, in a chain of sharper rules.
  pub Hoare-Keeps : {m : M W A} {P : Sys W → Type 0} → Keeps I m → Hoare I P m (λ _. Any)
  Hoare-Keeps {m} k = record { at = λ s h p. split (m s) (k.at s h) (λ _ _. tt) }

  -- What a part of the state keeps is still there after the action.
  pub Hoare-frame : {m : M W A} {P : Sys W → Type 0} → Keeps I m → Keeps P m → Hoare I P m (λ _. P)
  Hoare-frame {m} k f = record { at = λ s h p. split (m s) (k.at s h) (λ _ _. f.at s p) }

  -- A triple whose postcondition is forgotten keeps the invariant.
  pub Keeps-hoare : {m : M W A} {Q : A → Sys W → Type 0} → Hoare I Any m Q → Keeps I m
  Keeps-hoare {m} t = record { at = λ s h. forget (t.at s h tt) }
    where
      forget : {Q : A → Sys W → Type 0} {o : Result A × Sys W} → Post I Q o → I o.1
      forget (returned h q) = h
      forget (raised h) = h

  pub Hoare-pre :
      {m : M W A} {P R : Sys W → Type 0} {Q : A → Sys W → Type 0}
      → ((s : Sys W) → P s → R s)
      → Hoare I R m Q
      → Hoare I P m Q
  Hoare-pre w t = record { at = λ s h p. t.at s h (w s p) }

  pub Hoare-pure :
      {P : Sys W → Type 0} {Q : A → Sys W → Type 0} (a : A)
      → ((s : Sys W) → P s → Q a s)
      → Hoare I P (pure a) Q
  unfolding pure
  Hoare-pure a w = record { at = λ s h p. returned h (w s p) }

  pub Hoare-raise :
      {P : Sys W → Type 0} {Q : A → Sys W → Type 0} (k : Kind) (t : String)
      → Hoare I P (raise k t) Q
  unfolding raise
  Hoare-raise k t = record { at = λ s h p. raised h }

  pub Hoare-reraise :
      {P : Sys W → Type 0} {Q : A → Sys W → Type 0} (e : Error) → Hoare I P (reraise e) Q
  unfolding reraise
  Hoare-reraise e = record { at = λ s h p. raised h }

  pub Hoare-if :
      {P : Sys W → Type 0} {Q : A → Sys W → Type 0} (b : Bool) {m n : M W A}
      → (b ≡ true → Hoare I P m Q)
      → (b ≡ false → Hoare I P n Q)
      → Hoare I P (if b then m else n) Q
  Hoare-if true km kn = km refl
  Hoare-if false km kn = kn refl

  handle :
      {Q : A → Sys W → Type 0} {handler : Error → M W A} {o : Result A × Sys W}
      → Post I Q o
      → ((e : Error) → Hoare I Any (handler e) Q)
      → Post I Q (continue o.0 (λ a u. (ok a, u)) handler o.1)
  handle (returned h q) k = returned h q
  handle (raised h) k = (k _).at _ h tt

  pub Hoare-attempt :
      {P : Sys W → Type 0} {Q : A → Sys W → Type 0} {m : M W A} {handler : Error → M W A}
      → Hoare I P m Q
      → ((e : Error) → Hoare I Any (handler e) Q)
      → Hoare I P (attempt m handler) Q
  unfolding attempt
  Hoare-attempt t k = record { at = λ s h p. handle (t.at s h p) k }

  -- What is true of no state needs no proof.
  pub Hoare-absurd :
      {P : Sys W → Type 0} {Q : A → Sys W → Type 0} {m : M W A}
      → ((s : Sys W) → P s → ⊥)
      → Hoare I P m Q
  Hoare-absurd no_state = record { at = λ s h p. absurd (no_state s p) }

  pub Post-keeps : {Q : A → Sys W → Type 0} {o : Result A × Sys W} → Post I Q o → I o.1
  Post-keeps (returned h q) = h
  Post-keeps (raised h) = h

module _ {W A : Type 0} where
  -- An invariant of the action that holds before it is a precondition that still holds after it.
  pub Hoare-trade :
      {m : M W A} {P : Sys W → Type 0} {Q : A → Sys W → Type 0}
      → Hoare P Any m Q
      → Hoare Any P m (λ a s. P s × Q a s)
  Hoare-trade {m} t = record { at = λ s _ p. trade (t.at s p tt) }
    where
      trade :
          {P : Sys W → Type 0} {Q : A → Sys W → Type 0} {o : Result A × Sys W}
          → Post P Q o
          → Post Any (λ a s. P s × Q a s) o
      trade (returned p q) = returned tt (p, q)
      trade (raised p) = raised tt

module _ {W A B : Type 0} {I : Sys W → Type 0} where
  chain :
      {R : A → Sys W → Type 0} {Q : B → Sys W → Type 0} {f : A → M W B} {o : Result A × Sys W}
      → Post I R o
      → ((a : A) → Hoare I (R a) (f a) Q)
      → Post I Q (continue o.0 f (λ e u. (err e, u)) o.1)
  chain (returned h r) k = (k _).at _ h r
  chain (raised h) k = raised h

  pub Hoare-bind :
      {P : Sys W → Type 0} {R : A → Sys W → Type 0} {Q : B → Sys W → Type 0} {m : M W A}
      {f : A → M W B}
      → Hoare I P m R
      → ((a : A) → Hoare I (R a) (f a) Q)
      → Hoare I P (m >>= f) Q
  unfolding ◌>>=◌
  Hoare-bind t k = record { at = λ s h p. chain (t.at s h p) k }

module _ {W A : Type 0} {I P : Sys W → Type 0} {Q : A → Sys W → Type 0} {n : M W A} where
  -- After a guard that did not raise, its condition is false.
  pub Hoare-refuse :
      (b : Bool) (k : Kind) (t : String)
      → (b ≡ false → Hoare I P n Q)
      → Hoare I P (raise_if b k t >>= λ _. n) Q
  unfolding raise_if ◌>>=◌
  Hoare-refuse true k t f = record { at = λ s h p. raised h }
  Hoare-refuse false k t f = record { at = λ s h p. (f refl).at s h p }

module _ {W A : Type 0} (Q : A → Sys W → Type 0) where
  abbrev pub Says : Result A × Sys W → Type 0
  Says (ok a, s) = Q a s
  Says (err e, s) = Unit

  pub said : {o : Result A × Sys W} → Post Any Q o → Says o
  said (returned i q) = q
  said (raised i) = tt

-- What a triple says of an outcome that was returned.
pub Hoare-returned :
    {W A : Type 0} {Q : A → Sys W → Type 0} {m : M W A}
    → Hoare Any Any m Q
    → {s t : Sys W} {a : A} → m s ≡ (ok a, t)
    → Q a t
Hoare-returned {Q} k {s} e = subst (Says Q) e (said Q (k.at s tt tt))

-- The same from a state with the precondition.
pub Hoare-returned_from :
    {W A : Type 0} {P : Sys W → Type 0} {Q : A → Sys W → Type 0} {m : M W A}
    → Hoare Any P m Q
    → {s t : Sys W} {a : A} → P s
    → m s ≡ (ok a, t)
    → Q a t
Hoare-returned_from {Q} k {s} p e = subst (Says Q) e (said Q (k.at s tt p))

module _ {W A : Type 0} {m : M W A} where
  pub Hoare-post :
      {P : Sys W → Type 0} {Q R : A → Sys W → Type 0}
      → ((a : A) (s : Sys W) → Q a s → R a s)
      → Hoare Any P m Q
      → Hoare Any P m R
  Hoare-post {Q} {R} w t = record { at = λ s i p. weaken (t.at s i p) }
    where
      weaken : {o : Result A × Sys W} → Post Any Q o → Post Any R o
      weaken (returned i q) = returned i (w _ _ q)
      weaken (raised i) = raised i

  -- An invariant as a precondition.
  pub Hoare-shift :
      {P : Sys W → Type 0} {Q : A → Sys W → Type 0} → Hoare P Any m Q → Hoare Any P m Q
  Hoare-shift t = Hoare-post (λ a s q. q.1) (Hoare-trade t)

  pub Hoare-kept : {P : Sys W → Type 0} → Keeps P m → Hoare Any P m (λ _. P)
  Hoare-kept k = Hoare-frame (record { at = λ s i. tt }) k

pub ruleset keeps_rules = (
  Keeps-pure, Keeps-raise, Keeps-reraise, Keeps-lift, Keeps-if, Keeps-attempt, Keeps-raise_if,
  Keeps-bind,
)
