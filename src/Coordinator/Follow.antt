-- ===== src/Coordinator/Follow.antt =====
-- What a window that `check_history` let pass says of the remembered one.
use mt.Base.{
  ◌≡◌, refl, String, Bool, true, false, Option, none, some, ℤ, ◌≤ℤ◌, arith, not-false, ||_false,
  &&_true, eq_iff, ◌≢◌, sym, ap, ◌∙◌, int_ltb, int_ltb_false,
}
use mathlib.Core.Bool.{false≢true}
use mt.Json.{Value, str, eq_text, Fields, Python, get, as_dict, eq_int}
use mt.Errors.Ensures.{
  Ensures, Ensures-ok, Ensures-err, Ensures-if, Ensures-known, Ensures-refuse, Ensures-want,
  Ensures-refuse_last,
}
use mt.Coordinator.Signed.{SignedFields}
use mt.Coordinator.Round.{Bounds}
use mt.Coordinator.History.{
  integral, rolled_back, same_window, same_identity, check_observed, check_history, check_phase,
}

two_phases : (v : Value) → eq_text v "submissions" ≡ true → eq_text v "evaluation" ≡ true → ⊥
two_phases (str s) a b = different ((eq_iff _ _).0 a) ((eq_iff _ _).0 b)
  where
    different : s ≡ "submissions" → s ≡ "evaluation" → ⊥
    different a b = ground (arith, eq_iff "submissions" "evaluation")
two_phases Value.null a b = cc
two_phases _ a b = cc

-- The window has the blocks and the config hash that were remembered.
pub record IsSameWindow (py : Python) (old : Fields) (b : Bounds) (h : String) : Type 0 where
  pub start : eq_int py (get "start_block" old) b.start ≡ true
  pub close : eq_int py (get "close_block" old) b.close ≡ true
  pub end_block : eq_int py (get "end_block" old) b.end_block ≡ true
  pub config_hash : eq_text (get "config_hash" old) h ≡ true

-- The window has the index, the seed and the versions that were remembered.
pub record IsSameIdentity (py : Python) (old : Fields) (b : Bounds) (v : SignedFields)
    : Type 0 where
  pub index : eq_int py (get "round" old) b.index ≡ true
  pub seed : eq_int py (get "seed_block" old) v.seed_block ≡ true
  pub mechanism : eq_text (get "mechanism_version" old) v.mechanism_version ≡ true
  pub corpus : eq_text (get "corpus_version" old) v.corpus_version ≡ true
  pub digest : eq_text (get "corpus_digest" old) v.corpus_digest ≡ true

-- Evaluation does not go back to submissions, and its seed hash stays.
abbrev pub PhaseKept : Fields → Bounds → SignedFields → Type 0
PhaseKept old b v =
    eq_text (get "phase" old) "evaluation" ≡ true
    → (b.phase ≡ "evaluation") × (eq_text (get "block_hash" old) v.block_hash ≡ true)

-- The window remembered as `old` agrees with the served one, in full in the strict profile.
pub record IsSame (py : Python) (strict : Bool) (old : Fields) (b : Bounds) (h : String)
    (v : SignedFields) : Type 0 where
  pub window : IsSameWindow py old b h
  pub identity : strict ≡ true → IsSameIdentity py old b v
  pub phase : strict ≡ true → PhaseKept old b v

-- No earlier round comes back, and a round that was observed before is still the same.
pub record Follows (py : Python) (strict : Bool) (previous : Fields) (b : Bounds) (h : String)
    (v : SignedFields) : Type 0 where
  pub forward : (n : ℤ) → integral (get "last_coordinator_round" previous) ≡ some n → n ≤ℤ b.index
  pub same :
      eq_int py (get "last_coordinator_round" previous) b.index ≡ true
      → (old : Fields) × (as_dict (get "last_coordinator_window" previous) ≡ some old)
        × IsSame py strict old b h v

same_window-IsSameWindow :
    (py : Python) (old : Fields) (b : Bounds) (h : String)
    → same_window py old b h ≡ true
    → IsSameWindow py old b h
unfolding same_window
same_window-IsSameWindow py old b h e =
    let (e3, config_hash) = &&_true _ _ e in
    let (e2, end_block) = &&_true _ _ e3 in
    let (start, close) = &&_true _ _ e2 in
    record { start = start; close = close; end_block = end_block; config_hash = config_hash }

same_identity-IsSameIdentity :
    (py : Python) (old : Fields) (b : Bounds) (h : String) (v : SignedFields)
    → same_identity py old b h v ≡ true
    → IsSameWindow py old b h × IsSameIdentity py old b v
unfolding same_identity
same_identity-IsSameIdentity py old b h v e =
    let (e5, digest) = &&_true _ _ e in
    let (e4, corpus) = &&_true _ _ e5 in
    let (e3, mechanism) = &&_true _ _ e4 in
    let (e2, seed) = &&_true _ _ e3 in
    let (index, window) = &&_true _ _ e2 in
    (
      same_window-IsSameWindow py old b h window,
      record {
        index = index;
        seed = seed;
        mechanism = mechanism;
        corpus = corpus;
        digest = digest;
      },
    )

-- What is no rollback is no earlier index than the remembered one.
rolled_back-le :
    (v : Value) (index n : ℤ) → rolled_back v index ≡ false → integral v ≡ some n → n ≤ℤ index
unfolding rolled_back
rolled_back-le v index n e f =
    int_ltb_false index n
      (sym (ap (λ o. (elim o [ none ↦ false | some m ↦ int_ltb index m ])) f) ∙ e)

check_phase-PhaseKept :
    (old : Fields) (b : Bounds) (v : SignedFields)
    → Ensures (λ _. PhaseKept old b v) (check_phase old b v)
unfolding check_phase
check_phase-PhaseKept old b v =
    Ensures-if (eq_text (get "phase" old) "submissions")
      (λ s. Ensures-refuse_last _ _ _ λ _ e. absurd (two_phases (get "phase" old) s e))
      λ _.
        Ensures-if (eq_text (get "phase" old) "evaluation")
          (λ _.
            Ensures-refuse_last _ _ _
              λ t _. let (p, h) = ||_false _ _ t in ((eq_iff _ _).0 (not-false _ p), not-false _ h))
          λ _. Ensures-err _

-- What `check_observed` says, with `v` in place of the strict fields where there are none.
abbrev pub with_default : Option SignedFields → SignedFields → SignedFields
with_default none v = v
with_default (some u) v = u

check_observed-IsSame :
    (py : Python) (strict : Bool) (old : Fields) (b : Bounds) (h : String) (o : Option SignedFields)
    (v : SignedFields)
    → (strict ≡ true → o ≢ none)
    → Ensures (λ _. IsSame py strict old b h (with_default o v)) (check_observed py old b h o)
unfolding check_observed
check_observed-IsSame py strict old b h none v present = Ensures-refuse_last _ _ _ λ t. record {
  window = same_window-IsSameWindow py old b h (not-false _ t);
  identity = λ s. absurd (present s refl);
  phase = λ s. absurd (present s refl);
}
check_observed-IsSame py strict old b h (some u) v present = Ensures-refuse _ _ _ λ t.
    Ensures-known λ k e.
      let (window, same) = same_identity-IsSameIdentity py old b h u (not-false _ t) in
      record {
        window = window;
        identity = λ _. same;
        phase = λ _. (check_phase-PhaseKept old b u).holds k e;
      }

pub check_history-Follows :
    (py : Python) (strict : Bool) (previous : Fields) (b : Bounds) (h : String)
    (o : Option SignedFields) (v : SignedFields)
    → (strict ≡ true → o ≢ none)
    → Ensures
        (λ _. Follows py strict previous b h (with_default o v))
        (check_history py previous b h o)
unfolding check_history
check_history-Follows py strict previous b h o v present = Ensures-refuse _ _ _ λ forward.
    Ensures-if (eq_int py (get "last_coordinator_round" previous) b.index)
      (λ again. Ensures-want _ _ _ λ old found. Ensures-known λ k e. record {
        forward = λ n. rolled_back-le _ _ n forward;
        same = λ _. (old, found, (check_observed-IsSame py strict old b h o v present).holds k e);
      })
      λ fresh. Ensures-ok (record {
        forward = λ n. rolled_back-le _ _ n forward;
        same = λ again. absurd (false≢true (sym fresh ∙ again));
      })
