-- ===== src/Gate.antt =====
-- upstream_gate.py: `verify_upstream_observer_status`. The time is a float of the clock; an argument
-- of another type is left out.
pub mod Status
pub mod Sound
use mt.Base.{
  ℕ, String, Bool, ◌||◌, ◌&&◌, not, Option, none, some, List, pos, ℤ, int_ltb, eqb, if◌then◌else◌,
}
use mt.Json.{Value, dict, Fields, Python}
use mt.Json.Strict.{Parsed, loads_strict}
use mt.Errors.{exception}
use mt.System.{M, Host, pure, raise, lift, raise_if, outside, ◌>>=◌, ◌>>◌}
use mt.Protected.{Metadata, Disk, Checks, is_link, is_regular, permissions, read_stable}
use mt.Gate.Status.{is_time, check_status}

abbrev pub max_status_bytes : ℕ
max_status_bytes = 65536

-- `_validate_metadata`
unfoldable pub private_file : ℕ → Checks
private_file euid m =
    if is_link m.mode || not (is_regular m.mode)
    then some "upstream observer status must be a regular non-symlink"
    else if not (eqb m.links 1)
    then some "upstream observer status must have exactly one hard link"
    else if not (eqb m.uid euid)
    then some "upstream observer status must be owned by the effective user"
    else if not (eqb (permissions m.mode) 384)
    then some "upstream observer status mode must be exactly 0600"
    else if int_ltb m.size (pos 0) || int_ltb (pos max_status_bytes) m.size
    then some "upstream observer status exceeds the 64 KiB limit"
    else none

-- What `json.loads` and the decoder of UTF-8 find, and the float 30.0.
pub record Reader : Type 0 where
  pub decode : List ℕ → Option String
  pub parse : String → Option Parsed
  pub skew : ℕ

module _ {W : Type 0} (py : Python) (d : Disk W) (reader : Reader) where
  abbrev label : String
  label = "upstream observer status"

  abbrev pub mapping : Option Value → M W (Option Fields)
  mapping none = raise exception "upstream observer status is not strict JSON"
  mapping (some (dict payload)) = pure (some payload)
  mapping (some v) = raise exception "upstream observer status must be a JSON mapping"

  abbrev pub decoded : Option String → M W (Option Fields)
  decoded none = raise exception "upstream observer status is not valid UTF-8"
  decoded (some text) = mapping (loads_strict reader.parse text)

  abbrev pub parsed : Option (List ℕ) → M W (Option Fields)
  parsed none = pure none
  parsed (some bytes) = decoded (reader.decode bytes)

  -- `_read_status`; `none` is a loop of reads that is out of fuel.
  unfoldable pub read_status : String → M W (Option Fields)
  read_status path = do
    bytes ←
        read_stable d label (private_file d.euid) max_status_bytes
          "upstream observer status exceeds the 64 KiB limit" path
    parsed bytes

  abbrev pub checked_status : ℕ → ℤ → Option Fields → M W (Option Fields)
  checked_status now max_age none = pure none
  checked_status now max_age (some payload) = do
    lift (check_status py reader.skew now max_age payload)
    pure (some payload)

  -- `verify_upstream_observer_status` at the time of a clock.
  unfoldable pub verify_status : String → ℤ → ℕ → M W (Option Fields)
  verify_status path max_age now = do
    raise_if (int_ltb max_age (pos 600) || int_ltb (pos 900) max_age) exception
        "observer maximum age must be an integer between 600 and 900 seconds"
    raise_if (not (is_time py now)) exception "observer verification time is invalid"
    payload ← read_status path
    checked_status now max_age payload
