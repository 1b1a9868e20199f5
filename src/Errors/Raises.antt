-- ===== src/Errors/Raises.antt =====
-- Which kind of error a chain raises, if it raises one, with a rule for each way to build a chain.
use mt.Base.{Option, none, some, String, Bool, true, false, ◌≡◌, refl, if◌then◌else◌}
use mt.Errors.{want, Kind, Error, Result, ok, err, fail, refuse_if, ◌>>=◌}

pub record Raises {ℓ} (k : Kind) {A : Type ℓ} (r : Result A) : Type ℓ where
  pub only : (e : Error) → r ≡ err e → e.kind ≡ k

module _ {k : Kind} where
  pub Raises-ok {ℓ} : {A : Type ℓ} (a : A) → Raises k (ok a)
  Raises-ok a = record { only = λ e h. cc }

  pub Raises-fail {ℓ} : {A : Type ℓ} (s : String) → Raises k {A = A} (fail k s)
  Raises-fail s = record { only = λ e h. cc }

  pub Raises-if {ℓ} :
      {A : Type ℓ} (t : Bool) {r s : Result A}
      → Raises k r
      → Raises k s
      → Raises k (if t then r else s)
  Raises-if true h j = h
  Raises-if false h j = j

  pub Raises-bind {ℓ κ} :
      {A : Type ℓ} {B : Type κ} {m : Result A} {f : A → Result B}
      → Raises k m
      → ((a : A) → Raises k (f a))
      → Raises k (m >>= f)
  unfolding ◌>>=◌
  Raises-bind {A = A} {B = B} {m} {f} h j = go m h
    where
      go : (m : Result A) → Raises k m → Raises k (m >>= f)
      go (ok a) h = j a
      go (err x) h = record { only = λ e p. h.only e (cc) }

  -- The rest of a chain, where the value is known to have been returned.
  pub Raises-bind_known {ℓ κ} :
      {A : Type ℓ} {B : Type κ} {m : Result A} {f : A → Result B}
      → Raises k m
      → ((a : A) → m ≡ ok a → Raises k (f a))
      → Raises k (m >>= f)
  unfolding ◌>>=◌
  Raises-bind_known {A = A} {B = B} {m} {f} h j = go m refl
    where
      go : (n : Result A) → m ≡ n → Raises k (n >>= f)
      go (ok a) e = j a e
      go (err x) e = record { only = λ y p. h.only y (cc) }

  pub Raises-refuse : (t : Bool) (s : String) → Raises k (refuse_if t k s)
  unfolding refuse_if
  Raises-refuse true s = Raises-fail s
  Raises-refuse false s = Raises-ok tt

  pub Raises-want {ℓ} : {A : Type ℓ} (o : Option A) (s : String) → Raises k (want o k s)
  unfolding want
  Raises-want none s = Raises-fail s
  Raises-want (some a) s = Raises-ok a

  -- A value that is there is taken without an error.
  pub Raises-found {ℓ} :
      {A : Type ℓ} (o : Option A) (j : Kind) (s : String) {a : A}
      → o ≡ some a
      → Raises k (want o j s)
  unfolding want
  Raises-found none j s e = cc
  Raises-found (some a) j s e = Raises-ok a
