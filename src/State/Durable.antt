-- ===== src/State/Durable.antt =====
-- state.py: reading and clearing what `mark_submission_pending` wrote.
use mt.Base.{
  ℕ, String, true, false, ◌≡◌, refl, ◌∙◌, ap, Option, ℤ, pos, int_ltb, ◌==◌, arith, eq_refl,
}
use mt.Json.{
  bool, int, float, str, dict, Fields, end, field, Python, get, has, update, put, is_end, is_true,
}
use mt.Json.Laws.{Unique, get-update_present, get-update_absent}
use mt.Errors.{ok}
use mt.Redaction.{Redactor, sanitize, sanitize_text, is_secret, is_source}
use mt.Redaction.Laws.{get-sanitize_fields}
use mt.System.{regular, json, Sys, Host, raise_if, ◌>>=◌}
use mt.System.Rules.{Hoare, Any, Hoare-Keeps, Hoare-bind, Hoare-pure, Hoare-refuse, Hoare-returned}
use mt.State.Replace.{replace_or-Hoare}
use mt.State.Read.{read_marker, valid_fingerprint, write_pending, unlink_pending}
use mt.State.Pending.{
  well_formed, read_pending_file, read_submission_pending, pending_document,
  mark_submission_pending, clear_submission_pending,
}

-- The redactor leaves the fields of a marker usable: the fingerprint as it is, the others not empty.
pub record IsLegible (r : Redactor) (source hotkey print : String) : Type 0 where
  pub source_stays : (r.safe_source source == "") ≡ false
  pub hotkey_stays : (r.redact_text hotkey == "") ≡ false
  pub print_stays : r.redact_text print ≡ print

-- The entries that a marker always has.
abbrev own : ℤ → String → String → String → Fields
own n source hotkey print = field "schema_version" (int (pos 1)) (
    field "submission_pending" (bool true) (
      field "round" (int n) (
        field "source" (str source)
          (field "hotkey" (str hotkey) (field "commitment_fingerprint" (str print) end)))))

own-Unique : (n : ℤ) (source hotkey print : String) → Unique (own n source hotkey print)
unfolding has
own-Unique n source hotkey print = (refl, (refl, (refl, (refl, (refl, (refl, tt))))))

not_end : (k : String) (n : ℤ) (d : Fields) → get k d ≡ int n → is_end d ≡ false
unfolding get
not_end k n end e = cc
not_end k n (field j v d) e = refl

-- A well-formed document in a regular file reads as itself.
reads_valid :
    (py : Python) (d : Fields)
    → is_end d ≡ false
    → well_formed py d ≡ true
    → read_pending_file py (regular (json (dict d))) ≡ ok d
unfolding read_pending_file read_marker
reads_valid py end f w = cc
reads_valid py (field k v d) f w = ground (arith, w)

module _ {W : Type 0} (h : Host W) (n : ℤ) (source hotkey print : String) (details : Fields)
    (t : ℕ) where
  abbrev marker : Fields
  marker = pending_document h n source hotkey print details t

  -- No detail stands in for an entry of the marker's own.
  marker-own :
      (k : String)
      → has k (own n source hotkey print) ≡ true
      → get k marker ≡ sanitize h.py h.redactor k (get k (own n source hotkey print))
  unfolding pending_document
  marker-own k present =
      get-sanitize_fields h.py h.redactor k _
      ∙ ap (sanitize h.py h.redactor k) (
          get-update_present k _ (own n source hotkey print) (own-Unique n source hotkey print)
            present)

  abbrev dated : Fields
  dated =
      update (own n source hotkey print)
        (field "created_at" (str (h.utc_timestamp t)) (field "created_at_epoch" (float t) end))

  marker-valid :
      has "marker_invalid" details ≡ false → is_true (get "marker_invalid" marker) ≡ false
  unfolding pending_document get has sanitize update put
  marker-valid absent = ap is_true (
      get-sanitize_fields h.py h.redactor "marker_invalid"
        (update (update dated details) (own n source hotkey print))
      ∙ ap (sanitize h.py h.redactor "marker_invalid") (
          get-update_absent "marker_invalid" (update dated details) (own n source hotkey print) refl
          ∙ get-update_absent "marker_invalid" dated details absent))

  marker-not_end : is_end marker ≡ false
  unfolding sanitize is_secret get has
  marker-not_end = not_end "schema_version" (pos 1) marker (marker-own "schema_version" refl)

  marker-print :
      IsLegible h.redactor source hotkey print → get "commitment_fingerprint" marker ≡ str print
  unfolding sanitize sanitize_text is_secret is_source get has
  marker-print l = marker-own "commitment_fingerprint" refl ∙ ap str l.print_stays

  -- The marker passes the checks of a reader.
  marker-well_formed :
      IsLegible h.redactor source hotkey print
      → int_ltb n (pos 0) ≡ false
      → valid_fingerprint (str print) ≡ true
      → well_formed h.py marker ≡ true
  unfolding well_formed sanitize sanitize_text is_secret is_source get has
  marker-well_formed l nonneg valid = rw (
    marker-own "schema_version" refl,
    marker-own "submission_pending" refl,
    marker-own "round" refl,
    marker-own "source" refl,
    marker-own "hotkey" refl,
    marker-print l,
    nonneg,
    l.source_stays,
    l.hotkey_stays,
    valid,
  )

module _ {W : Type 0} (h : Host W) (n : ℤ) (source hotkey print : String) (details : Fields) where
  -- On disk stands the marker of a time, and its fields passed the guard.
  abbrev Written : Fields → Sys W → Type 0
  Written d s =
      (t : ℕ) × (d ≡ marker h n source hotkey print details t)
      × (s.files.pending ≡ regular (json (dict d)))
      × (int_ltb n (pos 0) ≡ false)
      × (valid_fingerprint (str print) ≡ true)

  abbrev Holds : Fields → Sys W → Type 0
  Holds d s = s.files.pending ≡ regular (json (dict d))

  write_pending-Hoare : (d : Fields) → Hoare Any Any (write_pending h d) (λ _. Holds d)
  unfolding write_pending
  write_pending-Hoare d = replace_or-Hoare h Any _ _ _ (Holds d) (λ s i. tt) (λ s i. tt) (λ s. refl)

  mark-Hoare :
      (now : Option ℕ)
      → Hoare Any Any (mark_submission_pending h n source hotkey print details now) Written
  unfolding mark_submission_pending
  mark-Hoare now = Hoare-refuse _ _ _ λ guard.
      Hoare-bind (Hoare-Keeps (record { at = λ s i. tt })) λ existing. Hoare-refuse _ _ _ λ free.
        Hoare-bind (Hoare-Keeps (record { at = λ s i. tt })) λ t.
          Hoare-bind (write_pending-Hoare _)
            λ _. Hoare-pure _ λ s held. (t, refl, held, ground arith, ground arith)

  reads_back :
      (d : Fields) (s : Sys W)
      → IsLegible h.redactor source hotkey print
      → Written d s
      → read_pending_file h.py s.files.pending ≡ ok d
  reads_back d s l (t, e, held, nonneg, valid) = rw held (
      reads_valid h.py d (rw e (marker-not_end h n source hotkey print details t))
        (rw e (marker-well_formed h n source hotkey print details t l nonneg valid)))

  clears :
      (d : Fields) (s : Sys W)
      → IsLegible h.redactor source hotkey print
      → has "marker_invalid" details ≡ false
      → Written d s
      → clear_submission_pending h print s ≡ unlink_pending h s
  unfolding clear_submission_pending read_submission_pending raise_if ◌>>=◌
  clears d s l absent w =
      let (t, e, _, _, _) = w in
      rw (
        reads_back d s l w,
        e,
        marker-not_end h n source hotkey print details t,
        marker-valid h n source hotkey print details t absent,
        marker-print h n source hotkey print details t l,
        eq_refl print,
      )

  -- A submission marker that was written reads back as what was written, whatever the caller's
  -- details say under the marker's own keys, and clearing it with the same fingerprint is the
  -- removal of the file. The details do not name the key of an invalid marker, and the redactor
  -- leaves the fingerprint alone and neither the source nor the hotkey empty.
  pub pending_roundtrip :
      (now : Option ℕ) (s t : Sys W) (d : Fields)
      → IsLegible h.redactor source hotkey print
      → has "marker_invalid" details ≡ false
      → mark_submission_pending h n source hotkey print details now s ≡ (ok d, t)
      → (read_submission_pending h t ≡ (ok d, t))
        × (clear_submission_pending h print t ≡ unlink_pending h t)
  unfolding read_submission_pending
  pending_roundtrip now s t d l absent e =
      let w : Written d t = Hoare-returned (mark-Hoare now) e in
      (rw (reads_back d t l w), clears d t l absent w)
