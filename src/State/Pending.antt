-- ===== src/State/Pending.antt =====
-- state.py: the submission-pending marker.
use mt.Base.{
  ℕ, String, Bool, true, false, not, ◌&&◌, ◌||◌, Option, ℤ, pos, int_ltb, ◌==◌, if◌then◌else◌,
}
use mt.Json.{
  Value, bool, int, float, str, Fields, end, field, Python, get, update, is_end, is_true, eq_int,
  eq_text,
}
use mt.Errors.{Result, ok, err, controller}
use mt.Redaction.{sanitize_fields}
use mt.System.{File, M, Host, pure, raise_if, ◌>>=◌, ◌>>◌}
use mt.State.Read.{read_marker, valid_fingerprint, time, write_pending, unlink_pending}

-- What a marker that cannot be trusted reads as.
abbrev pub invalid_pending : Fields
invalid_pending = field "schema_version" (int (pos 1)) (
    field "submission_pending" (bool true) (
      field "reason"
        (str "submission pending marker is unreadable or invalid; operator review is required")
        (field "marker_invalid" (bool true) end)))

abbrev nonneg_int : Value → Bool
nonneg_int (int n) = not (int_ltb n (pos 0))
nonneg_int _ = false

abbrev nonempty_text : Value → Bool
nonempty_text (str s) = not (s == "")
nonempty_text _ = false

unfoldable pub well_formed : Python → Fields → Bool
well_formed py m =
    eq_int py (get "schema_version" m) (pos 1)
    && is_true (get "submission_pending" m)
    && nonneg_int (get "round" m)
    && nonempty_text (get "source" m)
    && nonempty_text (get "hotkey" m)
    && valid_fingerprint (get "commitment_fingerprint" m)

-- The fields of a marker that was read, or the invalid marker in its place.
abbrev checked : Python → Fields → Fields
checked py m =
    if is_end m || is_true (get "marker_invalid" m) || well_formed py m then m else invalid_pending

abbrev checked_result : Python → Result Fields → Result Fields
checked_result py (ok m) = ok (checked py m)
checked_result py (err e) = err e

-- `read_submission_pending`
unfoldable pub read_pending_file : Python → File → Result Fields
read_pending_file py f = checked_result py (read_marker invalid_pending f)

module _ {W : Type 0} (h : Host W) where
  unfoldable pub read_submission_pending : M W Fields
  read_submission_pending s = (read_pending_file h.py s.files.pending, s)

  -- The document that `mark_submission_pending` writes.
  unfoldable pub pending_document : ℤ → String → String → String → Fields → ℕ → Fields
  pending_document round_index source hotkey fingerprint details timestamp =
      let own = field "schema_version" (int (pos 1)) (
        field "submission_pending" (bool true) (
          field "round" (int round_index) (
            field "source" (str source) (
              field "hotkey" (str hotkey)
                (field "commitment_fingerprint" (str fingerprint) end))))) in
      let dated = update own (
        field "created_at" (str (h.utc_timestamp timestamp))
          (field "created_at_epoch" (float timestamp) end)) in
      sanitize_fields h.py h.redactor (update (update dated details) own)

  unfoldable pub mark_submission_pending :
      ℤ → String → String → String → Fields → Option ℕ → M W Fields
  mark_submission_pending round_index source hotkey fingerprint details now = do
    raise_if
        (int_ltb round_index (pos 0)
          || source == ""
          || hotkey == ""
          || not (valid_fingerprint (str fingerprint)))
        controller "submission pending marker fields are invalid"
    existing ← read_submission_pending
    raise_if (not (is_end existing)) controller
        "a submission pending marker already exists; read-only reconciliation is required"
    timestamp ← time h now
    let payload = pending_document round_index source hotkey fingerprint details timestamp
    write_pending h payload
    pure payload

  -- `except OSError` wraps the removal alone; the `fsync` after it raises as it is.
  unfoldable pub clear_submission_pending : String → M W (Unit {0})
  clear_submission_pending fingerprint = do
    pending ← read_submission_pending
    raise_if (is_end pending) controller
        "submission pending marker disappeared before reconciliation"
    raise_if (is_true (get "marker_invalid" pending)) controller
        "invalid submission pending marker cannot be cleared automatically"
    raise_if (not (eq_text (get "commitment_fingerprint" pending) fingerprint)) controller
        "submission pending marker does not match the verified commitment"
    unlink_pending h
