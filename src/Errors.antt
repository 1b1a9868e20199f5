-- ===== src/Errors.antt =====
-- errors.py: the exceptions as values. A chain of fallible steps returns a `Result`.
pub mod Ensures
pub mod Raises
use mt.Base.{String, Bool, true, false, Option, none, some}

-- The class of an exception. `exception` stands for every class that is no `ControllerError`.
pub data Kind : Type 0 where
  exception controller config preflight artifact_binding round_refused round_not_open : Kind
  verification authorization_refused already_running : Kind

-- `isinstance(exc, ControllerError)`
unfoldable pub is_controller_error : Kind → Bool
is_controller_error exception = false
is_controller_error _ = true

-- `isinstance(exc, RoundRefused)`
unfoldable pub is_round_refused : Kind → Bool
is_round_refused round_refused = true
is_round_refused round_not_open = true
is_round_refused _ = false

-- `isinstance(exc, AuthorizationRefused)`, `ArtifactCompetitionBindingError`, `VerificationError`
unfoldable pub is_authorization_refused : Kind → Bool
is_authorization_refused authorization_refused = true
is_authorization_refused _ = false

unfoldable pub is_artifact_binding : Kind → Bool
is_artifact_binding artifact_binding = true
is_artifact_binding _ = false

unfoldable pub is_verification : Kind → Bool
is_verification verification = true
is_verification _ = false

-- An exception with `str(exc)`.
pub record Error : Type 0 where
  pub kind : Kind
  pub text : String

pub data Result {ℓ} (A : Type ℓ) : Type ℓ where
  ok : A → Result A
  err : Error → Result A

abbrev pub fail {ℓ} : {A : Type ℓ} → Kind → String → Result A
fail k s = err (record { kind = k; text = s })

infixl 5 ◌>>=◌ ◌>>◌
unfoldable pub ◌>>=◌ {ℓ κ} : {A : Type ℓ} {B : Type κ} → Result A → (A → Result B) → Result B
ok a >>= f = f a
err e >>= f = err e

abbrev pub ◌>>◌ {ℓ κ} : {A : Type ℓ} {B : Type κ} → Result A → Result B → Result B
m >> k = m >>= λ _. k

-- `if test: raise kind(text)`
unfoldable pub refuse_if : Bool → Kind → String → Result (Unit {0})
refuse_if true k s = fail k s
refuse_if false k s = ok tt

-- The value of a read, or a refusal where there is none.
unfoldable pub want {ℓ} : {A : Type ℓ} → Option A → Kind → String → Result A
want none k s = fail k s
want (some a) k s = ok a
