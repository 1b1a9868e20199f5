-- ===== src/Errors/Ensures.antt =====
-- What holds of every value that a chain returns, with a rule for each way to build a chain.
use mt.Base.{Option, none, some, String, Bool, true, false, ◌≡◌, refl, if◌then◌else◌, subst}
use mt.Errors.{want, Kind, Error, Result, ok, err, refuse_if, ◌>>=◌, ◌>>◌}

pub record Ensures {ℓ κ} {A : Type ℓ} (P : A → Type κ) (r : Result A) : Type (ℓ ⊔ κ) where
  pub holds : (a : A) → r ≡ ok a → P a

module _ {ℓ κ} {A : Type ℓ} {P : A → Type κ} where
  pub Ensures-ok : {a : A} → P a → Ensures P (ok a)
  Ensures-ok p = record { holds = λ b e. subst_ok p e }
    where
      subst_ok : {a b : A} → P a → ok a ≡ ok b → P b
      subst_ok p e = subst P (cc) p

  pub Ensures-err : (e : Error) → Ensures P (err e)
  Ensures-err e = record { holds = λ b h. cc }

  -- The value satisfies what is known of the call that gave it.
  pub Ensures-known : {r : Result A} → ((a : A) → r ≡ ok a → P a) → Ensures P r
  Ensures-known h = record { holds = h }

  pub Ensures-if :
      (t : Bool) {r s : Result A}
      → (t ≡ true → Ensures P r)
      → (t ≡ false → Ensures P s)
      → Ensures P (if t then r else s)
  Ensures-if true h k = h refl
  Ensures-if false h k = k refl

module _ {ℓ κ ν} {A : Type ℓ} {B : Type κ} {P : B → Type ν} where
  pub Ensures-bind :
      {m : Result A} {f : A → Result B}
      → ((a : A) → m ≡ ok a → Ensures P (f a))
      → Ensures P (m >>= f)
  unfolding ◌>>=◌
  Ensures-bind {m} h = go m h
    where
      go :
          {f : A → Result B} (m : Result A)
          → ((a : A) → m ≡ ok a → Ensures P (f a))
          → Ensures P (m >>= f)
      go (ok a) h = h a refl
      go (err e) h = Ensures-err e

-- A guard that let the chain go on did not hold.
refuse_if-eq-ok :
    (t : Bool) (k : Kind) (s : String) {u : Unit {0}} → refuse_if t k s ≡ ok u → t ≡ false
unfolding refuse_if
refuse_if-eq-ok true k s h = cc
refuse_if-eq-ok false k s h = refl

module _ {κ ν} {B : Type κ} {P : B → Type ν} where
  pub Ensures-refuse :
      (t : Bool) (k : Kind) (s : String) {m : Result B}
      → (t ≡ false → Ensures P m)
      → Ensures P (refuse_if t k s >> m)
  Ensures-refuse t k s h = Ensures-bind (λ u e. h (refuse_if-eq-ok t k s e))

pub Ensures-refuse_last {ν} :
    {P : Unit {0} → Type ν} (t : Bool) (k : Kind) (s : String)
    → (t ≡ false → P tt)
    → Ensures P (refuse_if t k s)
Ensures-refuse_last t k s h = record { holds = λ u e. h (refuse_if-eq-ok t k s e) }

want-eq-ok {ℓ} :
    {A : Type ℓ} (o : Option A) (k : Kind) (s : String) {a : A} → want o k s ≡ ok a → o ≡ some a
unfolding want
want-eq-ok none k s h = cc
want-eq-ok (some b) k s h = cc

module _ {ℓ κ ν} {A : Type ℓ} {B : Type κ} {P : B → Type ν} where
  pub Ensures-want :
      (o : Option A) (k : Kind) (s : String) {f : A → Result B}
      → ((a : A) → o ≡ some a → Ensures P (f a))
      → Ensures P (want o k s >>= f)
  Ensures-want o k s h = Ensures-bind (λ a e. h a (want-eq-ok o k s e))

pub Ensures-want_last {ℓ ν} :
    {A : Type ℓ} {P : A → Type ν} (o : Option A) (k : Kind) (s : String)
    → ((a : A) → o ≡ some a → P a)
    → Ensures P (want o k s)
Ensures-want_last o k s h = record { holds = λ a e. h a (want-eq-ok o k s e) }
