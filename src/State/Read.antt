-- ===== src/State/Read.antt =====
-- state.py: reading documents, `_read` and `_read_marker`, and writing one, `_atomic_json`.
use mt.Base.{ℕ, Bool, false, Option, none, some, hex_tag}
use mt.Json.{Value, str, dict, Fields, end, field}
use mt.Errors.{Result, ok, fail, exception, controller}
use mt.System.{
  File, missing, stat_error, irregular, link, regular, Content, unreadable, not_utf8, not_json,
  json, Files, Effect, done, fails_before, fails_after, Sys, M, Host, pure, outside,
}

-- `json.loads(path.read_text())`. A `UnicodeDecodeError` is no `JSONDecodeError` and goes through.
read_content : Content → Result Fields
read_content (json (dict d)) = ok d
read_content (json v) = ok end
read_content unreadable = ok end
read_content not_json = ok end
read_content not_utf8 = fail exception "UnicodeDecodeError"

-- `StateStore._read`
unfoldable pub read : File → Result Fields
unfolding read_content
read missing = ok end
read irregular = ok end
read stat_error = fail exception "PermissionError"
read (link c) = read_content c
read (regular c) = read_content c

marker_content : Fields → Content → Result Fields
marker_content invalid (json (dict end)) = ok invalid
marker_content invalid (json (dict (field k v d))) = ok (field k v d)
marker_content invalid (json v) = ok invalid
marker_content invalid unreadable = ok invalid
marker_content invalid not_json = ok invalid
marker_content invalid not_utf8 = fail exception "UnicodeDecodeError"

-- `StateStore._read_marker`: whatever stands there reads as something, unless it is no UTF-8.
unfoldable pub read_marker : Fields → File → Result Fields
unfolding marker_content
read_marker invalid missing = ok end
read_marker invalid irregular = ok invalid
read_marker invalid stat_error = ok invalid
read_marker invalid (link c) = ok invalid
read_marker invalid (regular c) = marker_content invalid c

-- `_valid_fingerprint`
unfoldable pub valid_fingerprint : Value → Bool
valid_fingerprint (str s) = hex_tag "sha256:" 64 s
valid_fingerprint _ = false

module _ {W : Type 0} (h : Host W) where
  -- The clock where the caller gave no time.
  unfoldable pub time : Option ℕ → M W ℕ
  time none = outside h.now
  time (some t) = pure t

  -- Ends a replacement or a removal, whose result is `after`; `refusal` is raised without effect.
  unfoldable pub settle : Result (Unit {0}) → Effect → Files → Sys W → Result (Unit {0}) × Sys W
  settle refusal done after s = (ok tt, record s { files = after })
  settle refusal fails_before after s = (refusal, s)
  settle refusal fails_after after s = (fail exception "OSError", record s { files = after })

  unfoldable pub replace_or : Result (Unit {0}) → (Files → Files) → M W (Unit {0})
  unfolding settle
  replace_or refusal change s =
      let (e, w) = h.effect s.world in settle refusal e (change s.files) (record s { world = w })

  unfoldable pub replace : (Files → Files) → M W (Unit {0})
  unfolding replace_or
  replace = replace_or (fail exception "OSError")

  -- `_atomic_json` of a document: a regular file that reads back as what was written.
  unfoldable pub write_status : Fields → M W (Unit {0})
  unfolding replace
  write_status d = replace (λ f. record f { status = regular (json (dict d)) })

  unfoldable pub write_health : Fields → M W (Unit {0})
  unfolding replace
  write_health d = replace (λ f. record f { health = regular (json (dict d)) })

  unfoldable pub write_authorization : Fields → M W (Unit {0})
  unfolding replace
  write_authorization d = replace (λ f. record f { authorization = regular (json (dict d)) })

  unfoldable pub write_pending : Fields → M W (Unit {0})
  unfolding replace
  write_pending d = replace (λ f. record f { pending = regular (json (dict d)) })

  -- `submission_pending_path.unlink()`, whose `OSError` is wrapped, and the `fsync` after it.
  unfoldable pub unlink_pending : M W (Unit {0})
  unfolding replace_or
  unlink_pending =
      replace_or (fail controller "verified submission pending marker could not be removed")
        (λ f. record f { pending = missing })

  unfoldable pub read_status : M W Fields
  read_status s = (read s.files.status, s)

  unfoldable pub read_health : M W Fields
  read_health s = (read s.files.health, s)
