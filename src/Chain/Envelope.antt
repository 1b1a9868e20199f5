-- ===== src/Chain/Envelope.antt =====
-- backend.py: the call that a commitment is, and the tests of `_inspect_signed_extrinsic` on the value
-- of the signed extrinsic.
use mt.Base.{
  String, ◌<>◌, Bool, true, false, ◌||◌, not, Option, none, some, List, [], ◌∷◌, ℤ, pos, int_eqb,
  show_int, codes, length, hex_tag, starts_with, ltb,
}
use mt.Errors.{authorization_refused, Result, ok, fail, refuse_if, want, ◌>>=◌, ◌>>◌}
use mt.Chain.Objects.{
  Obj, null, int, str, bytes, list, dict, nil, cons, Entries, end, entry, item, has_keys, same,
  authorization_integer,
}

-- `{"netuid": 92, "info": {"fields": [[{"Raw<n>": encoded}]]}}`
unfoldable pub call_args : String → Entries
call_args payload = entry "netuid" (int (pos 92)) (
    entry "info"
      (dict (
        entry "fields"
          (list (
            cons
              (list (
                cons
                  (dict
                    (entry ("Raw" <> show_int (pos (length (codes payload)))) (bytes payload) end))
                  nil))
              nil))
          end))
      end)

unfoldable pub expected_call : String → Entries
expected_call payload = entry "call_module" (str "Commitments") (
    entry "call_function" (str "set_commitment") (entry "call_args" (dict (call_args payload)) end))

abbrev pub envelope_keys : List String
envelope_keys =
    "account_id" ∷ "address" ∷ "asset_id" ∷ "call" ∷ "call_args" ∷ "call_function" ∷ "call_module"
    ∷ "era" ∷ "mode" ∷ "nonce" ∷ "signature" ∷ "signature_version" ∷ "tip" ∷ []

-- The entries of a mapping with exactly the keys, or a refusal.
unfoldable pub shaped : List String → String → Obj → Result Entries
shaped ks t (dict d) = do refuse_if (not (has_keys d ks)) authorization_refused t; ok d
shaped ks t _ = fail authorization_refused t

abbrev pub as_dict : Obj → Option Entries
as_dict (dict d) = some d
as_dict _ = none

abbrev pub is_null : Obj → Bool
is_null null = true
is_null _ = false

abbrev pub is_signature : Obj → Bool
is_signature (str s) = hex_tag "0x" 128 s
is_signature _ = false

abbrev pub asset_text : String
asset_text = "signed extrinsic contains an unauthorized fee asset"

-- `str(data)`: absent, or not an encoding.
abbrev pub no_data : Option String → Bool
no_data none = true
no_data (some s) = not (starts_with s "0x") || not (ltb 2 (length (codes s)))

module _ (equals : Obj → Obj → Bool) where
  -- The fee asset of an extrinsic.
  unfoldable pub check_asset : Obj → Result (Unit {0})
  check_asset o = do
    asset ← shaped ("tip" ∷ "asset_id" ∷ []) asset_text o
    tip ← authorization_integer "signed asset tip" (item "tip" asset)
    refuse_if (not (int_eqb tip (pos 0))) authorization_refused asset_text
    refuse_if (not (is_null (item "asset_id" asset))) authorization_refused asset_text

  -- The tests on the entries of an extrinsic, by the account, the payload, the nonce and the era.
  unfoldable pub check_envelope : String → String → ℤ → Entries → Entries → Result (Unit {0})
  check_envelope account payload nonce era v = do
    refuse_if
        (not (same equals (item "account_id" v) (str account))
          || not (same equals (item "address" v) (str account)))
        authorization_refused "signed extrinsic uses a different account"
    refuse_if
        (not (same equals (item "call_module" v) (str "Commitments"))
          || (not (same equals (item "call_function" v) (str "set_commitment"))
              || (not (same equals (item "call_args" v) (dict (call_args payload)))
                  || not (same equals (item "call" v) (dict (expected_call payload))))))
        authorization_refused "signed extrinsic contains a different call"
    signed_nonce ← authorization_integer "signed nonce" (item "nonce" v)
    refuse_if (not (int_eqb signed_nonce nonce)) authorization_refused
        "signed extrinsic nonce differs from the fee estimate"
    signed_era ←
        want (as_dict (item "era" v)) authorization_refused
          "signed extrinsic era differs from the fee estimate"
    refuse_if (not (same equals (dict signed_era) (dict era))) authorization_refused
        "signed extrinsic era differs from the fee estimate"
    tip ← authorization_integer "signed tip" (item "tip" v)
    refuse_if (not (int_eqb tip (pos 0))) authorization_refused
        "signed extrinsic contains a nonzero tip"
    check_asset (item "asset_id" v)
    refuse_if (not (same equals (item "mode" v) (str "Disabled"))) authorization_refused
        "signed extrinsic enables an unauthorized mode"
    version ← authorization_integer "signed signature version" (item "signature_version" v)
    refuse_if (not (int_eqb version (pos 1))) authorization_refused
        "signed extrinsic uses an unexpected signature version"
    refuse_if (not (is_signature (item "signature" v))) authorization_refused
        "signed extrinsic signature could not be proven"
