-- ===== src/Protected/Kinds.antt =====
-- protected_file.py: all that the reading of a file raises is a `ProtectedFileError`.
use mt.Base.{ℕ, zero, suc, ◌+◌, String, Bool, true, false, ◌≡◌, Option, none, some, List, []}
use mt.Errors.{Kind, exception, Error, Result, ok, err}
use mt.System.{Sys, M, pure, raise, raise_if, outside, continue, ◌>>=◌}
use mt.Protected.{
  Metadata, Disk, Checks, or_os_error, observed, guarded, refuse_with, check, checked_metadata,
  read_chunk, more, read_loop, finish, read_stable, read_root_service_file,
}

-- All that the action raises has the kind.
pub record Only {W A : Type 0} (k : Kind) (m : M W A) : Type 0 where
  pub only : (s : Sys W) (e : Error) → (m s).0 ≡ err e → e.kind ≡ k

module _ {W A : Type 0} where
  Only-pure : {k : Kind} (a : A) → Only {W = W} k (pure a)
  unfolding pure
  Only-pure a = record { only = λ s e f. cc }

  Only-raise : (k : Kind) (t : String) → Only {W = W} {A = A} k (raise k t)
  unfolding raise
  Only-raise k t = record { only = λ s e f. cc }

module _ {W : Type 0} where
  Only-raise_if : (b : Bool) (k : Kind) (t : String) → Only {W = W} k (raise_if b k t)
  unfolding raise_if
  Only-raise_if true k t = record { only = λ s e f. cc }
  Only-raise_if false k t = record { only = λ s e f. cc }

module _ {W A B : Type 0} {k : Kind} where
  continue-Only :
      {g : A → M W B} (r : Result A) (s : Sys W)
      → ((e : Error) → r ≡ err e → e.kind ≡ k)
      → ((a : A) → Only k (g a))
      → (e : Error) → (continue r g (λ x u. (err x, u)) s).0 ≡ err e
      → e.kind ≡ k
  continue-Only (ok a) s km kg e f = (kg a).only s e f
  continue-Only (err x) s km kg e f = km e (cc)

  Only-bind : {m : M W A} {g : A → M W B} → Only k m → ((a : A) → Only k (g a)) → Only k (m >>= g)
  unfolding ◌>>=◌
  Only-bind {m} km kg = record { only = λ s. continue-Only (m s).0 (m s).1 (km.only s) kg }

module _ {W : Type 0} (d : Disk W) (label : String) (checks : Checks) where
  guarded-Only : {A : Type 0} (f : W → Option A × W) → Only exception (guarded d label checks f)
  unfolding guarded or_os_error outside
  guarded-Only f = Only-bind (observed-Only f) or_os_error-Only
    where
      observed-Only :
          {A : Type 0} (f : W → Option A × W) → Only exception (observed d label checks f)
      observed-Only f = record { only = λ s e g. cc }

      or_os_error-Only : {A : Type 0} (o : Option A) → Only exception (or_os_error d label checks o)
      or_os_error-Only none = Only-raise _ _
      or_os_error-Only (some a) = Only-pure a

  checked-Only : (f : W → Option Metadata × W) → Only exception (checked_metadata d label checks f)
  unfolding checked_metadata check
  checked-Only f =
      Only-bind (guarded-Only f) λ m. Only-bind (refused-Only (checks m)) λ _. Only-pure m
    where
      refused-Only : (o : Option String) → Only exception (refuse_with d label checks o)
      refused-Only none = Only-pure tt
      refused-Only (some t) = Only-raise _ _

  module _ (maximum : ℕ) (too_large : String) where
    loop-Only :
        (fuel : ℕ) (payload : List ℕ)
        → Only exception (read_loop d label checks maximum too_large fuel payload)
    unfolding read_loop read_chunk
    loop-Only zero payload = Only-pure none
    loop-Only (suc fuel) payload =
        Only-bind
          (Only-bind (guarded-Only _) λ chunk. Only-bind (Only-raise_if _ _ _) λ _. Only-pure _)
          (more-Only _ (loop-Only fuel))
      where
        more-Only :
            (again : List ℕ → M W (Option (List ℕ)))
            → ((payload : List ℕ) → Only exception (again payload))
            → (r : List ℕ × Bool) → Only exception (more d label checks maximum too_large again r)
        more-Only again k (read, true) = Only-pure _
        more-Only again k (read, false) = k read

    finish-Only :
        (path : String) (before opened : Metadata) (o : Option (List ℕ))
        → Only exception (finish d label checks maximum too_large path before opened o)
    unfolding finish
    finish-Only path before opened none = Only-pure none
    finish-Only path before opened (some payload) =
        Only-bind (checked-Only _)
          λ a. Only-bind (checked-Only _) λ p. Only-bind (Only-raise_if _ _ _) λ _. Only-pure _

    stable-Only :
        (path : String) → Only exception (read_stable d label checks maximum too_large path)
    unfolding read_stable
    stable-Only path = Only-bind (Only-raise_if _ _ _) λ _. Only-bind (checked-Only _) λ before.
        Only-bind (guarded-Only _) λ _. Only-bind (checked-Only _) λ opened.
          Only-bind (Only-raise_if _ _ _)
            λ _. Only-bind (loop-Only (maximum + 2) []) (finish-Only path before opened)

pub read_root-Only :
    {W : Type 0} (d : Disk W) (label : String) (maximum : ℕ) (path : String)
    → Only exception (read_root_service_file d label maximum path)
unfolding read_root_service_file
read_root-Only d label maximum path =
    Only-bind (Only-raise_if _ _ _)
      λ _. Only-bind (Only-raise_if _ _ _) λ _. stable-Only d label _ maximum _ path
