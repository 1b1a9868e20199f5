-- ===== src/Chain/Trail.antt =====
-- backend.py: the record of the steps behind a submission, stage by stage. Each stage says which steps
-- it adds to the record before it and what is known of their answers.
use mt.Base.{ℕ, String, Bool, true, ◌≡◌, some, ℤ, pos, List, ◌∷◌}
use mt.Errors.{ok}
use mt.Chain.Objects.{Obj, int, dict, Entries, same, raw_of}
use mt.Chain.Fee.{first_era}
use mt.Chain.Envelope.{expected_call, envelope_keys}
use mt.Chain.Objects.{has_keys}
use mt.Chain.Node.{
  Step, call_read, deposit_read, index_read, estimated, signed, extrinsic_read, submitted,
}
use mt.Chain.Facts.{IsFree, IsMortal, IsEnvelope}
use mt.Chain.Rules.{Log}

module _ (equals : Obj → Obj → Bool) where
  -- The nonce and an estimate for the same call, era and nonce, read again.
  pub record Again (call : ℕ) (nonce : ℤ) (era : Entries) (before l : Log) : Type 0 where
    pub index : Obj
    pub payment : Obj
    pub echoed : Entries
    pub log : l ≡ estimated call era nonce (ok (payment, echoed)) ∷ index_read (ok index) ∷ before
    pub nonce_at : raw_of index ≡ some (int nonce)
    pub free : IsFree payment
    pub era_same : same equals (dict echoed) (dict era) ≡ true

module _ (equals : Obj → Obj → Bool) (payload : String) where
  abbrev pub IsCall : Obj → Type 0
  IsCall v = same equals v (dict (expected_call payload)) ≡ true

  -- The composed call was read back, and both deposits are zero.
  pub record Deposited (base : Log) (call : ℕ) (l : Log) : Type 0 where
    pub value : Obj
    pub initial : Obj
    pub per_field : Obj
    pub log :
        l
        ≡ deposit_read "FieldDeposit" (ok per_field)
          ∷ deposit_read "InitialDeposit" (ok initial)
          ∷ call_read call (ok value)
          ∷ base
    pub composed : IsCall value
    pub initial_zero : raw_of initial ≡ some (int (pos 0))
    pub field_zero : raw_of per_field ≡ some (int (pos 0))

  -- An estimate with the first era fixed the nonce and the era, at no fee.
  pub record Quoted (base : Log) (call : ℕ) (nonce : ℤ) (era : Entries) (l : Log) : Type 0 where
    pub before : Log
    pub deposited : Deposited base call before
    pub index : Obj
    pub payment : Obj
    pub value : Obj
    pub log :
        l
        ≡ call_read call (ok value)
          ∷ estimated call first_era nonce (ok (payment, era))
          ∷ index_read (ok index)
          ∷ before
    pub nonce_at : raw_of index ≡ some (int nonce)
    pub free : IsFree payment
    pub mortal : IsMortal era
    pub unchanged : IsCall value

  -- The value of an extrinsic was read, and it commits to the payload and nothing else.
  pub record Inspected (x : ℕ) (nonce : ℤ) (era : Entries) (before l : Log) : Type 0 where
    pub value : Obj
    pub entries : Entries
    pub account : String
    pub log : l ≡ extrinsic_read x (ok value) ∷ before
    pub mapping : value ≡ dict entries
    pub shape : has_keys entries envelope_keys ≡ true
    pub envelope : IsEnvelope equals account payload nonce era entries

  -- The call was signed after a second estimate, and the extrinsic was inspected.
  pub record Signed (base : Log) (call : ℕ) (nonce : ℤ) (era : Entries) (x : ℕ) (l : Log)
      : Type 0 where
    pub quote_log : Log
    pub refresh_log : Log
    pub quoted : Quoted base call nonce era quote_log
    pub refreshed : Again equals call nonce era quote_log refresh_log
    pub inspected : Inspected x nonce era (signed call era nonce (ok x) ∷ refresh_log) l

  -- The record directly before a submission: a third estimate after the signature, the call, and the
  -- extrinsic itself, read once more.
  pub record Authorized (base : Log) (x : ℕ) (l : Log) : Type 0 where
    pub call : ℕ
    pub nonce : ℤ
    pub era : Entries
    pub sign_log : Log
    pub recheck_log : Log
    pub value : Obj
    pub signature : Signed base call nonce era x sign_log
    pub rechecked : Again equals call nonce era sign_log recheck_log
    pub unchanged : IsCall value
    pub inspected : Inspected x nonce era (call_read call (ok value) ∷ recheck_log) l

  -- What a step needs behind it.
  abbrev pub Backed : Step → Log → Type 0
  Backed (submitted x r) l = (base : Log) × Authorized base x l
  Backed _ l = Unit

  -- Every submission is directly behind its authorization.
  abbrev pub Costless : Log → Type 0
  Costless List.[] = Unit
  Costless (e ∷ l) = Backed e l × Costless l
