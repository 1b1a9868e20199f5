-- ===== src/Chain/Fee.antt =====
-- backend.py: the tests of `_submit_authorized_commitment` on a fee estimate and on its era.
use mt.Base.{
  String, ◌<>◌, not, Option, [], ◌∷◌, ℤ, pos, int_eqb, show_int, ◌==◌, if◌then◌else◌, starts_with,
  ◌||◌,
}
use mt.Errors.{authorization_refused, Result, ok, fail, refuse_if, want, ◌>>=◌, ◌>>◌}
use mt.Chain.Objects.{
  Obj, int, dict, Entries, end, entry, item, lookup, has_keys, authorization_integer,
}
use mt.Chain.Checks.{authorized_hotkey}

-- `payment["partial_fee"]`
unfoldable pub fee_of : String → Obj → Result Obj
fee_of incomplete (dict d) = want (lookup "partial_fee" d) authorization_refused incomplete
fee_of incomplete _ = fail authorization_refused incomplete

-- A response with a fee that is exactly zero.
unfoldable pub check_fee : String → String → (ℤ → String) → Obj → Result (Unit {0})
check_fee incomplete label text payment = do
  o ← fee_of incomplete payment
  fee ← authorization_integer label o
  refuse_if (not (int_eqb fee (pos 0))) authorization_refused (text fee)

-- The era that the fee estimate made explicit.
unfoldable pub check_era : Entries → Result (Unit {0})
check_era era = do
  refuse_if (not (has_keys era ("period" ∷ "current" ∷ []))) authorization_refused
      "fee estimate did not use an explicit mortal era"
  period ← authorization_integer "mortal era period" (item "period" era)
  refuse_if (not (int_eqb period (pos 128))) authorization_refused
      "fee estimate changed the authorized 128-block era"
  current ← authorization_integer "mortal era current block" (item "current" era)
  ok tt

abbrev signer_text : String
signer_text = "the direct signer is not the registered you-hot1 hotkey"

-- The address of the signer, which is the loaded and authorized hotkey.
unfoldable pub check_signer : Option String → Result String → Result String
check_signer signer hotkey = do
  s ← want signer authorization_refused signer_text
  h ← hotkey
  refuse_if (not (s == h) || not (h == authorized_hotkey)) authorization_refused signer_text
  ok s

abbrev pub excess : String → ℤ → String
excess label n = label <> (show_int n <> " rao, authorized maximum is 0")

abbrev pub first_era : Entries
first_era = entry "period" (int (pos 128)) end

-- The hash with its prefix.
abbrev pub prefixed : String → String
prefixed raw = if starts_with raw "0x" then raw else "0x" <> raw
