-- ===== src/Controller/Marked.antt =====
-- controller.py: the fields of the pending marker that `_reconcile_pending` reads.
use mt.Base.{
  String, Bool, true, false, not, ◌&&◌, ◌==◌, ◌≡◌, refl, sym, ap, ◌∙◌, subst, eq_iff, int_eqb,
  int_eqb-eq, not-false, Option, none, some, ℤ, pos, ◌≤ℤ◌, int_ltb_false, &&_true, not-true,
  if◌then◌else◌,
}
use mt.Json.{Fields, get, as_int, as_text}
use mt.Errors.{ok, fail, authorization_refused}
use mt.Controller.Reconcile.{
  PendingFields, acceptable, gather, pending_fields, read_fields, invalid_fields,
}

-- The marker states this round, source, hotkey and fingerprint, and a block up to the head.
pub record IsMarker (m : Fields) (head n : ℤ) (place owner print : String) (at : ℤ) : Type 0 where
  pub round : as_int (get "round" m) ≡ some n
  pub source : as_text (get "source" m) ≡ some place
  pub hotkey : as_text (get "hotkey" m) ≡ some owner
  pub stated : as_text (get "commitment_fingerprint" m) ≡ some print
  pub block : as_int (get "provenance_block" m) ≡ some at
  pub nonneg : pos 0 ≤ℤ at
  pub reached : at ≤ℤ head

record IsGathered (r : Option ℤ) (s k f : Option String) (n : Option ℤ) (p : PendingFields)
    : Type 0 where
  round : r ≡ some p.round
  source : s ≡ some p.source
  hotkey : k ≡ some p.hotkey
  print : f ≡ some p.pending_fingerprint
  block : n ≡ some p.provenance_block

gather-IsGathered :
    (r : Option ℤ) (s k f : Option String) (n : Option ℤ) (p : PendingFields)
    → gather r s k f n ≡ some p
    → IsGathered r s k f n p
gather-IsGathered (some r) (some s) (some k) (some f) (some n) p e =
    subst (IsGathered (some r) (some s) (some k) (some f) (some n)) (cc)
      (record { round = refl; source = refl; hotkey = refl; print = refl; block = refl })
gather-IsGathered none s k f n p e = cc
gather-IsGathered (some r) none k f n p e = cc
gather-IsGathered (some r) (some s) none f n p e = cc
gather-IsGathered (some r) (some s) (some k) none n p e = cc
gather-IsGathered (some r) (some s) (some k) (some f) none p e = cc

acceptable-IsMarker :
    (m : Fields) (head : ℤ) (q : PendingFields)
    → pending_fields m ≡ some q
    → acceptable q head ≡ true
    → IsMarker m head q.round q.source q.hotkey q.pending_fingerprint q.provenance_block
unfolding pending_fields acceptable
acceptable-IsMarker m head q g a =
    let d = gather-IsGathered _ _ _ _ _ q g in
    let (a4, reached) = &&_true _ _ a in
    let (a3, nonneg) = &&_true _ _ a4 in
    record {
      round = d.round;
      source = d.source;
      hotkey = d.hotkey;
      stated = d.print;
      block = d.block;
      nonneg = int_ltb_false q.provenance_block (pos 0) (not-true _ nonneg);
      reached = int_ltb_false head q.provenance_block (not-true _ reached);
    }

read_fields-IsMarker :
    (m : Fields) (head : ℤ) (p : PendingFields)
    → read_fields m head ≡ ok p
    → IsMarker m head p.round p.source p.hotkey p.pending_fingerprint p.provenance_block
unfolding read_fields
read_fields-IsMarker m head p = by_fields (pending_fields m) refl
  where
    by_range :
        (q : PendingFields) (b : Bool)
        → pending_fields m ≡ some q
        → acceptable q head ≡ b
        → (if b then ok q else fail authorization_refused invalid_fields) ≡ ok p
        → IsMarker m head p.round p.source p.hotkey p.pending_fingerprint p.provenance_block
    by_range q true g a e =
        let same : q ≡ p = cc in
        subst
          (λ r. IsMarker m head r.round r.source r.hotkey r.pending_fingerprint r.provenance_block)
          same (acceptable-IsMarker m head q g a)
    by_range q false g a e = cc

    by_fields :
        (o : Option PendingFields)
        → pending_fields m ≡ o
        → (elim o [
          | none ↦ fail authorization_refused invalid_fields
          | some q ↦ if acceptable q head then ok q else fail authorization_refused invalid_fields
        ])
          ≡ ok p
        → IsMarker m head p.round p.source p.hotkey p.pending_fingerprint p.provenance_block
    by_fields none g e = cc
    by_fields (some q) g e = by_range q (acceptable q head) g refl e

-- The marker that was read, where it is the one of this round, source and hotkey.
pub matched-IsMarker :
    (m : Fields) (head : ℤ) (p : PendingFields) (n : ℤ) (place owner print : String)
    → read_fields m head ≡ ok p
    → not (int_eqb p.round n && p.source == place && p.hotkey == owner) ≡ false
    → print ≡ p.pending_fingerprint
    → IsMarker m head n place owner print p.provenance_block
matched-IsMarker m head p n place owner print e here same =
    let k = read_fields-IsMarker m head p e in
    let (both, hotkey) = &&_true _ _ (not-false _ here) in
    let (round, source) = &&_true _ _ both in
    record {
      round = k.round ∙ ap some (int_eqb-eq _ _ round);
      source = k.source ∙ ap some ((eq_iff _ _).0 source);
      hotkey = k.hotkey ∙ ap some ((eq_iff _ _).0 hotkey);
      stated = k.stated ∙ ap some (sym same);
      block = k.block;
      nonneg = k.nonneg;
      reached = k.reached;
    }
