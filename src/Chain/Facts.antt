-- ===== src/Chain/Facts.antt =====
-- backend.py: what the tests of an amount, a fee estimate, an era and a signed extrinsic establish.
use mt.Base.{
  ℕ, ◌+◌, String, Bool, true, false, ◌||◌, not, ◌≡◌, refl, ap, ◌∙◌, some, List, [], ◌∷◌, ℤ, pos,
  negsuc, int_eqb, int_ltb, int_eqb-eq, not-false, ◌+ℤ◌, arith,
}
use mt.Errors.{◌>>=◌}
use mt.Errors.Ensures.{
  Ensures, Ensures-ok, Ensures-err, Ensures-bind, Ensures-refuse, Ensures-refuse_last, Ensures-want,
}
use mt.Chain.Objects.{
  Obj, null, bool, int, str, bytes, list, dict, opaque, Entries, lookup, item, has_keys, same,
  raw_of, integral, authorization_integer,
}
use mt.Chain.Fee.{fee_of, check_fee, check_era}
use mt.Chain.Envelope.{
  call_args, expected_call, shaped, as_dict, is_null, is_signature, check_asset, check_envelope,
}

-- The number that an object stands for.
pub record IsAmount (o : Obj) (a : ℤ) : Type 0 where
  pub value : raw_of o ≡ some (int a)
  pub natural : int_ltb a (pos 0) ≡ false

integral-int : (o : Obj) (a : ℤ) → integral o ≡ some a → o ≡ int a
integral-int (int n) a e = cc
integral-int null a e = cc
integral-int (bool b) a e = cc
integral-int (str s) a e = cc
integral-int (bytes s) a e = cc
integral-int (list l) a e = cc
integral-int (dict d) a e = cc
integral-int (opaque r v) a e = cc

pub amount : (label : String) (o : Obj) → Ensures (IsAmount o) (authorization_integer label o)
unfolding authorization_integer
amount label o = Ensures-want _ _ _ λ raw e. Ensures-want _ _ _ λ a f.
    Ensures-refuse _ _ _
      λ g. Ensures-ok (record { value = e ∙ ap some (integral-int raw a f); natural = g })

-- An amount that was tested to be a given number.
pub amount-at :
    (o : Obj) (a b : ℤ) → IsAmount o a → not (int_eqb a b) ≡ false → raw_of o ≡ some (int b)
amount-at o a b h e = h.value ∙ ap (λ n. some (int n)) (int_eqb-eq a b (not-false _ e))

-- A response to a fee estimate whose fee is zero.
pub record IsFree (payment : Obj) : Type 0 where
  pub entries : Entries
  pub fee : Obj
  pub mapping : payment ≡ dict entries
  pub stated : lookup "partial_fee" entries ≡ some fee
  pub zero : raw_of fee ≡ some (int (pos 0))

pub check_fee-IsFree :
    (t label : String) (text : ℤ → String) (payment : Obj)
    → Ensures (λ _. IsFree payment) (check_fee t label text payment)
unfolding check_fee fee_of ◌>>=◌
check_fee-IsFree t label text (dict d) = Ensures-want _ _ _ λ o e. Ensures-bind λ fee f.
    Ensures-refuse_last _ _ _ λ g. record {
      entries = d;
      fee = o;
      mapping = refl;
      stated = e;
      zero = amount-at o fee (pos 0) ((amount label o).holds fee f) g;
    }
check_fee-IsFree t label text null = Ensures-err _
check_fee-IsFree t label text (bool b) = Ensures-err _
check_fee-IsFree t label text (int n) = Ensures-err _
check_fee-IsFree t label text (str s) = Ensures-err _
check_fee-IsFree t label text (bytes s) = Ensures-err _
check_fee-IsFree t label text (list l) = Ensures-err _
check_fee-IsFree t label text (opaque r v) = Ensures-err _

-- An era of 128 blocks from a stated block.
pub IsMortal : Entries → Type 0
IsMortal era =
    (has_keys era ("period" ∷ "current" ∷ []) ≡ true)
    × (raw_of (item "period" era) ≡ some (int (pos 128)))

pub check_era-IsMortal : (era : Entries) → Ensures (λ _. IsMortal era) (check_era era)
unfolding check_era IsMortal
check_era-IsMortal era = Ensures-refuse _ _ _ λ e. Ensures-bind λ period f.
    Ensures-refuse _ _ _ λ g. Ensures-bind λ current _. Ensures-ok (
      not-false _ e,
      amount-at _ period (pos 128) ((amount "mortal era period" (item "period" era)).holds period f)
          g,
    )

sum-natural : (m n : ℕ) → not (int_eqb (pos m +ℤ pos n) (pos 0)) ≡ false → m + n ≡ 0
sum-natural m n e = ground arith

-- Two deposits whose sum is zero are zero.
sum-zero :
    (a b : ℤ)
    → int_ltb a (pos 0) ≡ false
    → int_ltb b (pos 0) ≡ false
    → not (int_eqb (a +ℤ b) (pos 0)) ≡ false
    → (a ≡ pos 0) × (b ≡ pos 0)
sum-zero (pos m) (pos n) p q e =
    let z = sum-natural m n e in (ap pos (omega arith), ap pos (omega arith))
sum-zero (negsuc m) b p q e = absurd (ground arith)
sum-zero (pos m) (negsuc n) p q e = absurd (ground arith)

pub deposits-zero :
    (c d : Obj) (a b : ℤ)
    → IsAmount c a
    → IsAmount d b
    → not (int_eqb (a +ℤ b) (pos 0)) ≡ false
    → (raw_of c ≡ some (int (pos 0))) × (raw_of d ≡ some (int (pos 0)))
deposits-zero c d a b h g e =
    let z = sum-zero a b h.natural g.natural e in
    (h.value ∙ ap (λ n. some (int n)) z.0, g.value ∙ ap (λ n. some (int n)) z.1)

pub shaped-dict :
    (ks : List String) (t : String) (o : Obj)
    → Ensures (λ d. (o ≡ dict d) × (has_keys d ks ≡ true)) (shaped ks t o)
unfolding shaped ◌>>=◌
shaped-dict ks t (dict d) = Ensures-refuse _ _ _ λ e. Ensures-ok (refl, not-false _ e)
shaped-dict ks t null = Ensures-err _
shaped-dict ks t (bool b) = Ensures-err _
shaped-dict ks t (int n) = Ensures-err _
shaped-dict ks t (str s) = Ensures-err _
shaped-dict ks t (bytes s) = Ensures-err _
shaped-dict ks t (list l) = Ensures-err _
shaped-dict ks t (opaque r v) = Ensures-err _

both : (a b : Bool) → (not a || not b) ≡ false → (a ≡ true) × (b ≡ true)
both true true e = (refl, refl)
both false b e = cc
both true false e = cc

last_two :
    (a b c d : Bool) → (not a || (not b || (not c || not d))) ≡ false → (c ≡ true) × (d ≡ true)
last_two a b c d e = (ground arith, ground arith)

module _ (equals : Obj → Obj → Bool) where
  -- A fee asset without a tip and without another asset.
  pub record IsPlain (o : Obj) : Type 0 where
    pub entries : Entries
    pub mapping : o ≡ dict entries
    pub tip : raw_of (item "tip" entries) ≡ some (int (pos 0))
    pub asset : is_null (item "asset_id" entries) ≡ true

  check_asset-IsPlain : (o : Obj) → Ensures (λ _. IsPlain o) (check_asset equals o)
  unfolding check_asset
  check_asset-IsPlain o = Ensures-bind λ d e. Ensures-bind λ tip f. Ensures-refuse _ _ _ λ g.
      Ensures-refuse_last _ _ _ λ h. record {
        entries = d;
        mapping = ((shaped-dict _ _ o).holds d e).0;
        tip = amount-at _ tip (pos 0) ((amount _ _).holds tip f) g;
        asset = not-false _ h;
      }

  -- The entries of an extrinsic that commits to the payload and nothing else: the call, the account,
  -- the nonce, the era, no tip, no other asset, and a signature.
  pub record IsEnvelope (account payload : String) (nonce : ℤ) (era v : Entries) : Type 0 where
    pub signed_era : Entries
    pub account_id : same equals (item "account_id" v) (str account) ≡ true
    pub address : same equals (item "address" v) (str account) ≡ true
    pub call : same equals (item "call" v) (dict (expected_call payload)) ≡ true
    pub call_args : same equals (item "call_args" v) (dict (call_args payload)) ≡ true
    pub nonce_at : raw_of (item "nonce" v) ≡ some (int nonce)
    pub era_at : as_dict (item "era" v) ≡ some signed_era
    pub era_same : same equals (dict signed_era) (dict era) ≡ true
    pub tip : raw_of (item "tip" v) ≡ some (int (pos 0))
    pub asset : IsPlain (item "asset_id" v)
    pub mode : same equals (item "mode" v) (str "Disabled") ≡ true
    pub signature : is_signature (item "signature" v) ≡ true

  at_call :
      (v : Entries) (payload : String)
      → (not (same equals (item "call_module" v) (str "Commitments"))
          || (not (same equals (item "call_function" v) (str "set_commitment"))
              || (not (same equals (item "call_args" v) (dict (call_args payload)))
                  || not (same equals (item "call" v) (dict (expected_call payload))))))
        ≡ false
      → (same equals (item "call_args" v) (dict (call_args payload)) ≡ true)
        × (same equals (item "call" v) (dict (expected_call payload)) ≡ true)
  at_call v payload e =
      last_two (same equals (item "call_module" v) (str "Commitments"))
        (same equals (item "call_function" v) (str "set_commitment"))
        (same equals (item "call_args" v) (dict (call_args payload)))
        (same equals (item "call" v) (dict (expected_call payload))) e

  pub check_envelope-IsEnvelope :
      (account payload : String) (nonce : ℤ) (era v : Entries)
      → Ensures
          (λ _. IsEnvelope account payload nonce era v)
          (check_envelope equals account payload nonce era v)
  unfolding check_envelope
  check_envelope-IsEnvelope account payload nonce era v = Ensures-refuse _ _ _ λ e.
      Ensures-refuse _ _ _ λ f. Ensures-bind λ m g. Ensures-refuse _ _ _ λ h.
        Ensures-want _ _ _ λ d i. Ensures-refuse _ _ _ λ j. Ensures-bind λ tip p.
          Ensures-refuse _ _ _ λ q. Ensures-bind λ _ r. Ensures-refuse _ _ _ λ s.
            Ensures-bind λ version t. Ensures-refuse _ _ _ λ u. Ensures-refuse_last _ _ _ λ w.
              record {
                signed_era = d;
                account_id =
                    (both (same equals (item "account_id" v) (str account))
                      (same equals (item "address" v) (str account)) e).0;
                address =
                    (both (same equals (item "account_id" v) (str account))
                      (same equals (item "address" v) (str account)) e).1;
                call = (at_call v payload f).1;
                call_args = (at_call v payload f).0;
                nonce_at = amount-at _ m nonce ((amount _ _).holds m g) h;
                era_at = i;
                era_same = not-false _ j;
                tip = amount-at _ tip (pos 0) ((amount _ _).holds tip p) q;
                asset = (check_asset-IsPlain _).holds tt r;
                mode = not-false _ s;
                signature = not-false _ w;
              }
