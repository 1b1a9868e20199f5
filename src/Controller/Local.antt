-- ===== src/Controller/Local.antt =====
-- controller.py: the tests on the local artifact and on the persisted status.
use mt.Base.{
  ℕ, suc, String, ◌<>◌, Bool, true, false, not, ◌&&◌, Option, none, some, ℤ, pos, int_eqb, eqb,
  ◌==◌,
}
use mt.Json.{
  Value, bool, int, float, str, Fields, end, field, Python, get, as_dict, is_true, eq_int, eq_text,
  eq_bool,
}
use mt.Errors.{Result, ok, fail, exception}
use mt.Models.{PackagedArtifact}
use mt.System.{M, Host, pure, outside, lift, ◌>>=◌}
use mt.Config.{Config}

-- `_fingerprint`
unfoldable pub fingerprint : Python → String → String
fingerprint py payload = "sha256:" <> py.sha256 payload

-- `_local_matches`
unfoldable pub local_matches : Option PackagedArtifact → ℤ → String → String → Bool
local_matches none round_index source hotkey = false
local_matches (some p) round_index source hotkey =
    not p.sealed && int_eqb p.round_index round_index && p.source == source && p.hotkey == hotkey

size : Fields → ℕ
size end = 0
size (field k v d) = suc (size d)

-- `artifact == packaged.public_dict()`: the same eight keys with equal values.
unfoldable pub is_public_dict : Python → Fields → PackagedArtifact → Bool
unfolding size
is_public_dict py d p =
    eqb (size d) 8
    && eq_int py (get "round_index" d) p.round_index
    && eq_text (get "source" d) p.source
    && eq_text (get "hotkey" d) p.hotkey
    && eq_text (get "manifest_digest" d) p.manifest_digest
    && eq_text (get "artifact_digest" d) p.artifact_digest
    && eq_int py (get "file_count" d) p.file_count
    && eq_int py (get "total_bytes" d) p.total_bytes
    && eq_bool py (get "sealed" d) p.sealed

-- The status has a full set of proofs for this artifact.
unfoldable pub proofs_hold : Python → Fields → ℤ → String → String → PackagedArtifact → Bool
unfolding is_public_dict
proofs_hold py state round_index source hotkey p = elim (as_dict (get "artifact" state)) [
  | none ↦ false
  | some artifact ↦ elim (as_dict (get "proofs" state)) [
    | none ↦ false
    | some proofs ↦
        is_true (get "ok" state)
        && eq_int py (get "round" state) round_index
        && eq_int py (get "last_success_round" state) round_index
        && eq_text (get "source" state) source
        && is_public_dict py artifact p
        && eq_text (get "source" artifact) source
        && eq_text (get "hotkey" artifact) hotkey
        && is_true (get "source" proofs)
        && is_true (get "source_full" proofs)
        && is_true (get "provenance" proofs)
        && is_true (get "on_chain" proofs)
  ]
]

-- `_proofs_valid_for`
unfoldable pub proofs_valid_for :
    Python → Fields → ℤ → String → String → Option PackagedArtifact → Bool
unfolding proofs_hold
proofs_valid_for py state round_index source hotkey none = false
proofs_valid_for py state round_index source hotkey (some p) =
    proofs_hold py state round_index source hotkey p

-- `float(v)`; `none` is a `TypeError` or a `ValueError`, and a huge integer raises.
abbrev pub to_float : Python → Value → Result (Option ℕ)
to_float py (float f) = ok (some f)
to_float py (bool true) = ok (py.float_of_int (pos 1))
to_float py (bool false) = ok (py.float_of_int (pos 0))
to_float py (str s) = ok (py.float_of_text s)
to_float py (int n) = elim (py.float_of_int n) [
  | none ↦ fail exception "int too large to convert to float"
  | some f ↦ ok (some f)
]
to_float py _ = ok none

elapsed : Python → ℕ → ℤ → Option ℕ → Bool
elapsed py now interval none = true
elapsed py now interval (some t) = py.int_leb_float interval (py.float_sub now t)

-- `_verification_due`
unfoldable pub verification_due : {W : Type 0} → Host W → Config → Fields → M W Bool
unfolding elapsed
verification_due h c state = do
  now ← outside h.now
  t ← lift (to_float h.py (get "last_verified_at_epoch" state))
  pure (elapsed h.py now c.verify_interval_seconds t)
