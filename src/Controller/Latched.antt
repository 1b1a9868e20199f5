-- ===== src/Controller/Latched.antt =====
-- controller.py: `preflight` and `cycle` where something stands for the refusal marker.
use mt.Base.{◌<>◌, String, false, ◌≡◌, ◌≢◌, refl, arith}
use mt.Json.{Value, Python, Fields, end, field, dict, is_end}
use mt.Errors.{Result, ok, err, authorization_refused}
use mt.Models.{PreflightSnapshot}
use mt.System.{
  File, missing, stat_error, irregular, link, regular, unreadable, not_utf8, not_json, json, Sys, M,
  Host, pure, raise, attempt, ◌>>=◌,
}
use mt.State.Read.{read_marker}
use mt.State.Latch.{read_refusal_file, read_authorization_refusal}
use mt.Controller.Setup.{Backend}
use mt.Config.{Config}
use mt.Controller.Cycle.{
  marker_reason, read_refusal, reason_of, raise_latched, authorization_latch_reason,
  assert_not_latched, preflight, cycle,
}

-- A marker file that is there never reads as an absent marker.
refusal-not_end :
    (py : Python) (f : File) (m : Fields)
    → f ≢ missing
    → read_refusal_file py f ≡ ok m
    → is_end m ≡ false
unfolding read_refusal_file read_marker
refusal-not_end py missing m n e = absurd (n refl)
refusal-not_end py stat_error m n e = ground arith
refusal-not_end py irregular m n e = ground arith
refusal-not_end py (link x) m n e = ground arith
refusal-not_end py (regular unreadable) m n e = ground arith
refusal-not_end py (regular not_utf8) m n e = cc
refusal-not_end py (regular not_json) m n e = ground arith
refusal-not_end py (regular (json (dict end))) m n e = ground arith
refusal-not_end py (regular (json (dict (field k v d)))) m n e = ground arith
refusal-not_end py (regular (json Value.null)) m n e = ground arith
refusal-not_end py (regular (json _)) m n e = ground arith

-- The action raises `AuthorizationRefused` and changes nothing.
abbrev pub Refuses : {W A : Type 0} → M W A → Sys W → Type 0
Refuses m s =
    (text : String) × (m s ≡ (err (record { kind = authorization_refused; text = text }), s))

module _ {W : Type 0} (h : Host W) (s : Sys W) (present : s.files.authorization ≢ missing) where
  latched_by :
      (r : Result Fields)
      → read_refusal_file h.py s.files.authorization ≡ r
      → Refuses (assert_not_latched h) s
  unfolding assert_not_latched authorization_latch_reason read_refusal reason_of raise_latched
      read_authorization_refusal attempt pure raise ◌>>=◌
  latched_by (ok m) e = (
    "transaction authorization remains latched: " <> marker_reason m,
    rw e (rw (refusal-not_end h.py s.files.authorization m present e)),
  )
  latched_by (err x) e = (
    "transaction authorization remains latched: authorization refusal marker could not be checked; operator review is required",
    rw e,
  )

  assert_not_latched-Refuses : Refuses (assert_not_latched h) s
  assert_not_latched-Refuses = latched_by (read_refusal_file h.py s.files.authorization) refl

  bind-Refuses : {A B : Type 0} (m : M W A) (f : A → M W B) → Refuses m s → Refuses (m >>= f) s
  unfolding ◌>>=◌
  bind-Refuses m f (text, e) = (text, rw e)

  -- Whatever stands for the marker, a valid refusal or not, `preflight` refuses without a call.
  pub preflight_latched : (b : Backend W) (c : Config) → Refuses (preflight h b c) s
  unfolding preflight
  preflight_latched b c = bind-Refuses _ _ assert_not_latched-Refuses

  -- Whatever stands for the marker, `cycle` refuses without a call and changes nothing.
  pub cycle_latched :
      (b : Backend W) (c : Config) (snapshot : PreflightSnapshot) → Refuses (cycle h b c snapshot) s
  unfolding cycle
  cycle_latched b c snapshot = bind-Refuses _ _ assert_not_latched-Refuses
