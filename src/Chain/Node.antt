-- ===== src/Chain/Node.antt =====
-- backend.py: the Substrate interface, the client, the wallet and the interpreter that the signing
-- of a commitment works with, and the record of its steps.
use mt.Base.{ℕ, String, ◌<>◌, Bool, Option, List, ◌∷◌, ℤ, if◌then◌else◌}
use mt.Errors.{authorization_refused, Result, is_authorization_refused}
use mt.System.{M, outside, attempt, raise, reraise}
use mt.Chain.Objects.{Obj, Entries}

-- Any functions of the world, which may raise anything. Calls, extrinsics and receipts are objects
-- behind a number, whose attributes are read from the world; a missing attribute reads as the
-- default of `getattr`. `observer` is the refusal of the upstream observer's gate, if any.
pub record Node (W : Type 0) : Type 0 where
  pub lower : String → String
  pub equals : Obj → Obj → Bool
  pub observer : W → Option String × W
  pub dependencies : W → Result (Unit {0}) × W
  pub uid_of : String → W → Result ℤ × W
  pub client_netuid : W → Result Obj × W
  pub block_hash : ℤ → W → Result String × W
  pub chain_head : W → Result String × W
  pub runtime_info : String → W → Result Obj × W
  pub storage_hash : String → String → W → Result Obj × W
  pub compose_call : String → String → Entries → String → W → Result ℕ × W
  pub call_value : ℕ → W → Result Obj × W
  pub get_constant : String → String → String → W → Result Obj × W
  pub next_index : String → W → Result Obj × W
  pub payment_info : ℕ → Entries → ℤ → W → Result (Obj × Entries) × W
  pub create_signed : ℕ → Entries → ℤ → W → Result ℕ × W
  pub extrinsic_value : ℕ → W → Result Obj × W
  pub extrinsic_data : ℕ → W → Result (Option String) × W
  pub extrinsic_hash : ℕ → W → Result String × W
  pub submit_extrinsic : ℕ → W → Result ℕ × W
  pub receipt_hash : ℕ → W → Result String × W
  pub receipt_block : ℕ → W → Result String × W
  pub receipt_finalized : ℕ → W → Result Obj × W
  pub receipt_success : ℕ → W → Result Obj × W
  pub receipt_fee : ℕ → W → Result Obj × W

-- What the backend holds: the wallet's hotkey with its public key, and what is there at all.
pub record Session : Type 0 where
  pub hotkey : Result String
  pub has_client : Bool
  pub has_wallet : Bool
  pub has_substrate : Bool
  pub signer : Option String
  pub public_key : Result String

-- The steps that an authorization rests on, with their answers.
pub data Step : Type 0 where
  call_read : ℕ → Result Obj → Step
  deposit_read : String → Result Obj → Step
  index_read : Result Obj → Step
  estimated : ℕ → Entries → ℤ → Result (Obj × Entries) → Step
  signed : ℕ → Entries → ℤ → Result ℕ → Step
  extrinsic_read : ℕ → Result Obj → Step
  submitted : ℕ → Result ℕ → Step

pub record Track (W : Type 0) : Type 0 where
  pub outer : W
  pub steps : List Step

abbrev pub C : Type 0 → Type 0 → Type 0
C W A = M (Track W) A

module _ {W A : Type 0} where
  -- A call that is noted with its answer.
  unfoldable pub step : (Result A → Step) → (W → Result A × W) → C W A
  step note f =
      outside λ w. let (r, o) = f w.outer in (r, record w { outer = o; steps = note r ∷ w.steps })

  -- Any other call.
  unfoldable pub ask : (W → Result A × W) → C W A
  ask f = outside λ w. let (r, o) = f w.outer in (r, record w { outer = o })

  -- `except Exception as exc: raise AuthorizationRefused(…)`
  unfoldable pub or_refused : String → C W A → C W A
  or_refused text m = attempt m λ e. raise authorization_refused (text <> e.text)

  -- The same, behind `except AuthorizationRefused: raise`
  unfoldable pub else_refused : String → C W A → C W A
  else_refused text m = attempt m λ e.
      if is_authorization_refused e.kind
      then reraise e
      else raise authorization_refused (text <> e.text)

  -- The same without the text of the exception.
  unfoldable pub instead : String → C W A → C W A
  instead text m = attempt m λ e. raise authorization_refused text
