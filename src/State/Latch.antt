-- ===== src/State/Latch.antt =====
-- state.py: the authorization-refusal marker.
use mt.Base.{ℕ, String, Bool, true, false, not, ◌&&◌, ◌||◌, Option, pos, ◌==◌, if◌then◌else◌}
use mt.Json.{
  Value, bool, int, float, str, Fields, end, field, Python, get, update, is_end, is_true, eq_int,
}
use mt.Errors.{Result, ok, err}
use mt.Redaction.{sanitize_fields}
use mt.System.{File, M, Host, pure, ◌>>=◌, ◌>>◌}
use mt.State.Read.{read_marker, time, write_authorization}

abbrev pub invalid_refusal : Fields
invalid_refusal = field "schema_version" (int (pos 1)) (
    field "authorization_latched" (bool true) (
      field "authorization_reason"
        (str "authorization refusal marker is unreadable or invalid; operator review is required")
        (field "marker_invalid" (bool true) end)))

abbrev nonempty_text : Value → Bool
nonempty_text (str s) = not (s == "")
nonempty_text _ = false

unfoldable pub well_formed : Python → Fields → Bool
well_formed py m =
    eq_int py (get "schema_version" m) (pos 1)
    && is_true (get "authorization_latched" m)
    && nonempty_text (get "authorization_reason" m)

abbrev checked : Python → Fields → Fields
checked py m =
    if is_end m || is_true (get "marker_invalid" m) || well_formed py m then m else invalid_refusal

abbrev checked_result : Python → Result Fields → Result Fields
checked_result py (ok m) = ok (checked py m)
checked_result py (err e) = err e

-- `read_authorization_refusal`
unfoldable pub read_refusal_file : Python → File → Result Fields
read_refusal_file py f = checked_result py (read_marker invalid_refusal f)

module _ {W : Type 0} (h : Host W) where
  unfoldable pub read_authorization_refusal : M W Fields
  read_authorization_refusal s = (read_refusal_file h.py s.files.authorization, s)

  unfoldable pub refusal_document : String → Fields → ℕ → Fields
  refusal_document message details timestamp =
      let own = field "schema_version" (int (pos 1)) (
        field "authorization_latched" (bool true)
          (field "authorization_reason" (str message) end)) in
      let dated = update own (
        field "latched_at" (str (h.utc_timestamp timestamp))
          (field "latched_at_epoch" (float timestamp) end)) in
      sanitize_fields h.py h.redactor (update (update dated details) own)

  unfoldable pub write_refusal : String → Fields → Option ℕ → M W Fields
  write_refusal message details now = do
    timestamp ← time h now
    let payload = refusal_document message details timestamp
    write_authorization h payload
    pure payload

  -- `latch_authorization_refusal`: a refusal that is already there stays as it is.
  unfoldable pub latch_authorization_refusal : String → Fields → Option ℕ → M W Fields
  unfolding write_refusal
  latch_authorization_refusal message details now = do
    existing ← read_authorization_refusal
    if not (is_end existing) && not (is_true (get "marker_invalid" existing))
        then pure existing
        else write_refusal message details now
