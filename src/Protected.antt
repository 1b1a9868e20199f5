-- ===== src/Protected.antt =====
-- protected_file.py, and the same reading of a file in upstream_gate.py: `_read_status` down to the
-- bytes. The interpreter has `O_NOFOLLOW`, and `os.close` does not fail.
pub mod Content
pub mod Sound
pub mod Ends
pub mod Kinds
pub mod Root
use mt.Base.{
  ℕ, zero, suc, ◌+◌, ◌-◌, ◌/◌, ◌%◌, String, ◌<>◌, Bool, true, false, ◌&&◌, ◌||◌, not, Option, none,
  some, List, [], ◌∷◌, ◌++◌, length, ℤ, pos, int_ltb, int_eqb, eqb, ltb, leb, show_int,
  if◌then◌else◌,
}
use mt.Errors.{Kind, exception, Result, ok, fail}
use mt.System.{M, Sys, pure, raise, raise_if, outside, ◌>>=◌, ◌>>◌}

-- `os.stat_result`, the entries that are read.
pub record Metadata : Type 0 where
  pub device : ℕ
  pub inode : ℕ
  pub mode : ℕ
  pub uid : ℕ
  pub gid : ℕ
  pub links : ℕ
  pub size : ℤ
  pub modified : ℤ
  pub changed : ℤ

-- `stat.S_ISLNK`, `stat.S_ISREG` and `stat.S_IMODE`
abbrev pub file_type : ℕ → ℕ
file_type mode = mode / 4096 % 16

abbrev pub is_link : ℕ → Bool
is_link mode = eqb (file_type mode) 10

abbrev pub is_regular : ℕ → Bool
is_regular mode = eqb (file_type mode) 8

abbrev pub permissions : ℕ → ℕ
permissions mode = mode % 4096

-- `_fingerprint(a) == _fingerprint(b)`
unfoldable pub same_fingerprint : Metadata → Metadata → Bool
same_fingerprint a b =
    eqb a.device b.device
    && eqb a.inode b.inode
    && eqb a.mode b.mode
    && eqb a.uid b.uid
    && eqb a.gid b.gid
    && eqb a.links b.links
    && int_eqb a.size b.size
    && int_eqb a.modified b.modified
    && int_eqb a.changed b.changed

-- The calls on one path and its open descriptor; `none` is an `OSError`.
pub record Disk (W : Type 0) : Type 0 where
  pub is_absolute : String → Bool
  pub lstat : String → W → Option Metadata × W
  pub open_file : String → W → Option (Unit {0}) × W
  pub fstat : W → Option Metadata × W
  pub read_bytes : ℕ → W → Option (List ℕ) × W
  pub euid : ℕ
  pub egid : ℕ

-- The first test that the metadata of a file does not pass, as its text.
abbrev pub Checks : Type 0
Checks = Metadata → Option String

-- `_validate` of protected_file.py
unfoldable pub root_service : ℕ → String → ℕ → Checks
root_service egid label maximum m =
    if is_link m.mode || not (is_regular m.mode)
    then some (label <> " must be a regular non-symlink")
    else if not (eqb m.links 1)
    then some (label <> " must have exactly one hard link")
    else if not (eqb m.uid 0)
    then some (label <> " must be owned by root")
    else if not (eqb m.gid egid)
    then some (label <> " group must equal the effective service group")
    else if not (eqb (permissions m.mode) 416)
    then some (label <> " mode must be exactly 0640")
    else if int_ltb m.size (pos 0) || int_ltb (pos maximum) m.size
    then some (label <> " exceeds the " <> show_int (pos maximum) <> "-byte limit")
    else none

module _ {W : Type 0} (d : Disk W) (label : String) (checks : Checks) where
  unfoldable pub or_os_error : {A : Type 0} → Option A → M W A
  or_os_error none = raise exception (label <> " is unavailable or unsafe")
  or_os_error (some a) = pure a

  abbrev pub observed : {A : Type 0} → (W → Option A × W) → Sys W → Result (Option A) × Sys W
  observed f = outside λ w. let (o, v) = f w in (ok o, v)

  -- A call whose `OSError` becomes the refusal.
  unfoldable pub guarded : {A : Type 0} → (W → Option A × W) → M W A
  unfolding or_os_error
  guarded f = do o ← observed f; or_os_error o

  abbrev pub refuse_with : Option String → M W (Unit {0})
  refuse_with none = pure tt
  refuse_with (some t) = raise exception t

  unfoldable pub check : Metadata → M W (Unit {0})
  check m = refuse_with (checks m)

  -- A call for metadata, which must pass the tests.
  unfoldable pub checked_metadata : (W → Option Metadata × W) → M W Metadata
  unfolding check
  checked_metadata f = do m ← guarded f; check m; pure m

  module _ (maximum : ℕ) (too_large : String) where
    -- One read: what was read so far, and whether the file ended.
    unfoldable pub read_chunk : List ℕ → M W (List ℕ × Bool)
    read_chunk payload = do
      let remaining = maximum + 1 - length payload
      chunk ← guarded (d.read_bytes (if ltb remaining 16384 then remaining else 16384))
      raise_if (ltb maximum (length (payload ++ chunk))) exception too_large
      pure (payload ++ chunk, eqb (length chunk) 0)

    abbrev pub more : (List ℕ → M W (Option (List ℕ))) → List ℕ × Bool → M W (Option (List ℕ))
    more again (payload, true) = pure (some payload)
    more again (payload, false) = again payload

    -- The loop of reads; `none` is a loop that is out of fuel.
    unfoldable pub read_loop : ℕ → List ℕ → M W (Option (List ℕ))
    read_loop zero payload = pure none
    read_loop (suc fuel) payload = do r ← read_chunk payload; more (read_loop fuel) r

    abbrev pub differs : Metadata → Metadata → Metadata → Metadata → List ℕ → Bool
    differs path_before opened_before opened_after path_after payload =
        not (same_fingerprint opened_before opened_after)
        || not (same_fingerprint opened_before path_before)
        || not (same_fingerprint opened_before path_after)
        || not (int_eqb (pos (length payload)) opened_before.size)

    unfoldable pub finish : String → Metadata → Metadata → Option (List ℕ) → M W (Option (List ℕ))
    finish path path_before opened_before none = pure none
    finish path path_before opened_before (some payload) = do
      opened_after ← checked_metadata d.fstat
      path_after ← checked_metadata (d.lstat path)
      raise_if (differs path_before opened_before opened_after path_after payload) exception
          (label <> " changed while it was read")
      pure (some payload)

    -- The bytes of a file that stayed the same from the first look to the last.
    unfoldable pub read_stable : String → M W (Option (List ℕ))
    unfolding finish
    read_stable path = do
      raise_if (not (d.is_absolute path)) exception (label <> " path must be absolute")
      path_before ← checked_metadata (d.lstat path)
      guarded (d.open_file path)
      opened_before ← checked_metadata d.fstat
      raise_if
          (not (
            eqb path_before.device opened_before.device
            && eqb path_before.inode opened_before.inode))
          exception (label <> " changed while it was opened")
      payload ← read_loop (maximum + 2) []
      finish path path_before opened_before payload

-- `read_root_service_file`; the limit is a number of bytes.
unfoldable pub read_root_service_file :
    {W : Type 0} → Disk W → String → ℕ → String → M W (Option (List ℕ))
read_root_service_file d label maximum path = do
  raise_if (not (d.is_absolute path)) exception (label <> " path must be absolute")
  raise_if (eqb maximum 0) exception (label <> " byte limit is invalid")
  read_stable d label (root_service d.egid label maximum) maximum
      (label <> " exceeds the " <> show_int (pos maximum) <> "-byte limit") path
