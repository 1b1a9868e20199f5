-- ===== src/State/Agree.antt =====
-- state.py: what `write` leaves on disk, and which of its entries a caller decides.
use mt.Base.{ℕ, String, Bool, true, false, ◌≡◌, refl, ◌∙◌, ap, Option, arith}
use mt.Json.{dict, Fields, get, has, update, without}
use mt.Json.Laws.{Unique, has-contains, get-update_present, get-update_absent, has-without}
use mt.Errors.{ok}
use mt.Redaction.{sanitize}
use mt.Redaction.Laws.{get-sanitize_fields}
use mt.System.{Sys, M, Host, regular, json}
use mt.System.Rules.{Hoare, Any, Hoare-Keeps, Hoare-bind, Hoare-pure, Hoare-trade, Hoare-returned}
use mt.State.Replace.{replace_or-Hoare}
use mt.State.Read.{read, read_status, read_health, write_status, write_health}
use mt.State.{reserved, stamp, status_document, health_document, write}

module _ {W : Type 0} (h : Host W) where
  stamp-Unique :
      (phase : String) (success : Bool) (message : String) (t : ℕ)
      → Unique (stamp h phase success message t)
  unfolding stamp has
  stamp-Unique phase success message t = (refl, (refl, (refl, (refl, (refl, (refl, (refl, tt)))))))

  has-stamp :
      (phase : String) (success : Bool) (message : String) (t : ℕ) (k : String)
      → reserved k ≡ true
      → has k (stamp h phase success message t) ≡ true
  unfolding stamp reserved
  has-stamp phase success message t k r = has-contains k (stamp h phase success message t) ∙ r

  -- The entries that `write` reserves are its own, whatever the details and the earlier document
  -- say under the same key: what is stored there is the sanitized entry of the stamp.
  pub status_document-reserved :
      (phase : String) (success : Bool) (message : String) (t : ℕ) (details previous : Fields)
      (k : String)
      → reserved k ≡ true
      → get k (status_document h phase success message t details previous)
        ≡ sanitize h.py h.redactor k (get k (stamp h phase success message t))
  unfolding status_document
  status_document-reserved phase success message t details previous k r =
      let A : Fields = without reserved previous in
      let D : Fields = without reserved details in
      let S : Fields = stamp h phase success message t in
      let absent : has k D ≡ false = ground (arith, has-without reserved k details) in
      get-sanitize_fields h.py h.redactor k (update (update A S) D)
      ∙ ap (sanitize h.py h.redactor k) (
          get-update_absent k (update A S) D absent
          ∙ get-update_present k A S (stamp-Unique phase success message t)
              (has-stamp phase success message t k r))

  -- Both documents on disk are those of the payload.
  abbrev pub Stored : Fields → Sys W → Type 0
  Stored d s = (read_status h s ≡ (ok d, s)) × (read_health h s ≡ (ok (health_document h d), s))

  abbrev StatusIs : Fields → Sys W → Type 0
  StatusIs d s = s.files.status ≡ regular (json (dict d))

  write_status-Hoare : (d : Fields) → Hoare Any Any (write_status h d) (λ _. StatusIs d)
  unfolding write_status
  write_status-Hoare d =
      replace_or-Hoare h Any _ _ _ (StatusIs d) (λ s i. tt) (λ s i. tt) (λ s. refl)

  abbrev BothAre : Fields → Sys W → Type 0
  BothAre d s = StatusIs d s × (s.files.health ≡ regular (json (dict (health_document h d))))

  stored : (d : Fields) (s : Sys W) → BothAre d s → Stored d s
  unfolding read_status read_health read
  stored d s (e, f) = (rw e, rw f)

  write_health-Hoare :
      (d : Fields)
      → Hoare
          (StatusIs d)
          Any
          (write_health h (health_document h d))
          (λ _ s. s.files.health ≡ regular (json (dict (health_document h d))))
  unfolding write_health
  write_health-Hoare d = replace_or-Hoare h (StatusIs d) _ _ _ _ (λ s i. i) (λ s i. i) (λ s. refl)

  -- An action whose return says nothing.
  Any-Hoare : {A : Type 0} {m : M W A} → Hoare Any Any m (λ _. Any)
  Any-Hoare = Hoare-Keeps (record { at = λ s i. tt })

  write-Hoare :
      (phase : String) (success : Bool) (message : String) (now : Option ℕ) (details : Fields)
      (preserve : Option Fields)
      → Hoare Any Any (write h phase success message now details preserve) Stored
  unfolding write
  write-Hoare phase success message now details preserve = Hoare-bind Any-Hoare λ t.
      Hoare-bind Any-Hoare λ previous.
        Hoare-bind (write_status-Hoare _)
          λ _. Hoare-bind (Hoare-trade (write_health-Hoare _)) λ _. Hoare-pure _ λ s i. stored _ s i

  -- What `write` returned is what the status reads as afterwards, and the health document reads as
  -- its extract, whatever stood in either file before.
  pub write_agrees :
      (phase : String) (success : Bool) (message : String) (now : Option ℕ) (details : Fields)
      (preserve : Option Fields) (s t : Sys W) (d : Fields)
      → write h phase success message now details preserve s ≡ (ok d, t)
      → (read_status h t ≡ (ok d, t)) × (read_health h t ≡ (ok (health_document h d), t))
  write_agrees phase success message now details preserve s t d =
      Hoare-returned (write-Hoare phase success message now details preserve)
