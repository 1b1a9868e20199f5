-- ===== src/Controller/Failure.antt =====
-- controller.py: `_failure`, `_waiting_for_trusted_round` and `_authorization_failure`. What they
-- print and log is left out.
use mt.Base.{String, true, false, Option, none, some, ℤ, pos, ◌+ℤ◌, ◌==◌, if◌then◌else◌}
use mt.Json.{Value, bool, int, float, str, dict, Fields, end, field, Python, get, update, truthy}
use mt.Errors.{Error, Result, ok, err, fail, exception}
use mt.Models.{no_proofs, proofs_dict}
use mt.System.{M, Host, pure, lift, attempt, ◌>>=◌, ◌>>◌}
use mt.State.Read.{read_status}
use mt.State.Latch.{latch_authorization_refusal}
use mt.State.{write}
use mt.Controller.Setup.{static_details}
use mt.Config.{Config}

or_error : Option ℤ → Result ℤ
or_error none = fail exception "ValueError"
or_error (some n) = ok n

-- `int(v)` of a value that is true.
to_int : Python → Value → Result ℤ
to_int py (int n) = ok n
to_int py (bool b) = ok (pos 1)
to_int py (float f) = or_error (py.int_of_float f)
to_int py (str s) = or_error (py.int_of_text s)
to_int py _ = fail exception "TypeError"

one_more : Result ℤ → Result ℤ
one_more (ok n) = ok (n +ℤ pos 1)
one_more (err e) = err e

-- `int(previous.get("consecutive_failures", 0) or 0) + 1`
unfoldable pub next_failures : Python → Fields → Result ℤ
unfolding or_error to_int one_more
next_failures py previous =
    let v = get "consecutive_failures" previous in
    if truthy py v then one_more (to_int py v) else ok (pos 1)

module _ {W : Type 0} (h : Host W) (c : Config) where
  -- `redact_text(str(exc) or exc.__class__.__name__)`
  unfoldable pub message_of : Error → String
  message_of e = h.redactor.redact_text (if e.text == "" then h.class_name e else e.text)

  unfoldable pub failure : String → Error → M W (Unit {0})
  failure phase e = do
    previous ← read_status h
    failures ← lift (next_failures h.py previous)
    write h phase false (message_of e) none
        (update (static_details c) (
          field "consecutive_failures" (int failures)
            (field "proofs" (dict (proofs_dict no_proofs)) end)))
        none
    pure tt

  unfoldable pub waiting_for_trusted_round : Error → M W (Unit {0})
  waiting_for_trusted_round e = do
    write h "waiting" false (message_of e) none
        (update (static_details c) (field "proofs" (dict (proofs_dict no_proofs)) end)) none
    pure tt

  unfoldable pub refusal_details : String → ℤ → Fields
  refusal_details message failures = update (static_details c) (
      field "authorization_latched" (bool true) (
        field "authorization_reason" (str message) (
          field "consecutive_failures" (int failures)
            (field "proofs" (dict (proofs_dict no_proofs)) end))))

  -- `try: m … except Exception`, where only the attempt matters.
  unfoldable pub suppressed : {A : Type 0} → M W A → M W (Unit {0})
  suppressed m = attempt (do m; pure tt) λ e. pure tt

  -- The count of failures, or one where it cannot be read.
  unfoldable pub counted : M W ℤ
  counted =
      attempt (do previous ← read_status h; lift (next_failures h.py previous)) λ e. pure (pos 1)

  -- Both documents are tried, each whatever became of the other.
  unfoldable pub authorization_failure : Error → M W (Unit {0})
  authorization_failure e = do
    failures ← counted
    let details = refusal_details (message_of e) failures
    suppressed (latch_authorization_refusal h (message_of e) details none)
    suppressed (write h "authorization_refused" false (message_of e) none details none)
