-- ===== src/State.antt =====
-- state.py: `StateStore`, its status and health documents.
pub mod Read
pub mod Pending
pub mod Latch
pub mod Replace
pub mod Agree
pub mod Durable
use mt.Base.{
  ℕ, String, Bool, true, false, Option, none, some, List, [], ◌∷◌, ℤ, pos, contains, ◌==◌,
  if◌then◌else◌,
}
use mt.Json.{
  Value, null, bool, int, float, str, dict, Fields, end, field, get, has, update, without, is_end,
  truthy,
}
use mt.Errors.{Result, ok, err, Kind, exception}
use mt.Coordinator.Signed.{text_of}
use mt.Redaction.{sanitize_fields}
use mt.System.{
  File, missing, stat_error, irregular, link, regular, Content, unreadable, not_utf8, not_json,
  json, Files, Effect, done, fails_before, fails_after, Sys, M, Host, pure, raise, lift, gets,
  outside, ◌>>=◌, ◌>>◌,
}
use mt.State.Read.{time, write_status, write_health, read_status, read_health}

-- The keys that `write` sets itself.
unfoldable pub reserved : String → Bool
reserved k =
    contains k (
      "schema_version" ∷ "updated_at" ∷ "updated_at_epoch" ∷ "pid" ∷ "phase" ∷ "ok" ∷ "message"
      ∷ [])

module _ {W : Type 0} (h : Host W) where
  -- What `write` sets, whatever was there before.
  unfoldable pub stamp : String → Bool → String → ℕ → Fields
  stamp phase success message timestamp = field "schema_version" (int (pos 1)) (
      field "updated_at" (str (h.utc_timestamp timestamp)) (
        field "updated_at_epoch" (float timestamp) (
          field "pid" (int h.pid) (
            field "phase" (str phase)
              (field "ok" (bool success) (field "message" (str message) end))))))

  unfoldable pub status_document : String → Bool → String → ℕ → Fields → Fields → Fields
  status_document phase success message timestamp details previous =
      sanitize_fields h.py h.redactor (
        update (update (without reserved previous) (stamp phase success message timestamp))
          (without reserved details))

  unfoldable pub health_document : Fields → Fields
  health_document payload = field "schema_version" (int (pos 1)) (
      field "ok" (bool (truthy h.py (get "ok" payload))) (
        field "phase" (str (text_of h.py (get "phase" payload))) (
          field "message" (str (text_of h.py (get "message" payload))) (
            field "round" (get "round" payload) (
              field "last_success_round" (get "last_success_round" payload) (
                field "updated_at" (get "updated_at" payload)
                  (field "updated_at_epoch" (get "updated_at_epoch" payload) end)))))))

  -- `preserve` in place of the status on disk.
  abbrev pub previous_status : Option Fields → M W Fields
  previous_status none = read_status h
  previous_status (some d) = pure d

  -- `StateStore.write`; `None` and `{}` for the details are the same.
  unfoldable pub write : String → Bool → String → Option ℕ → Fields → Option Fields → M W Fields
  write phase success message now details preserve = do
    timestamp ← time h now
    previous ← previous_status preserve
    let payload = status_document phase success message timestamp details previous
    write_status h payload
    write_health h (health_document payload)
    pure payload

  unfoldable pub mark_verified : ℤ → String → Fields → Option ℕ → M W Fields
  mark_verified round_index message details now = do
    timestamp ← time h now
    let merged = update details (
        field "round" (int round_index) (
          field "last_success_round" (int round_index) (
            field "last_success_at" (str (h.utc_timestamp timestamp)) (
              field "last_success_at_epoch" (float timestamp) (
                field "last_verified_at" (str (h.utc_timestamp timestamp)) (
                  field "last_verified_at_epoch" (float timestamp)
                    (field "consecutive_failures" (int (pos 0)) end)))))))
    write "verified" true message (some timestamp) merged none

  -- `str(previous.get(key, default))`
  abbrev pub text_or : String → String → Fields → String
  text_or key default d = if has key d then text_of h.py (get key d) else default

  unfoldable pub heartbeat : Option ℕ → M W Fields
  heartbeat now = do
    previous ← read_status h
    if is_end previous
        then write "starting" false "controller has not completed preflight" none end none
        else write (text_or "phase" "unknown" previous) (truthy h.py (get "ok" previous))
            (text_or "message" "" previous) now (without reserved previous) (some previous)
