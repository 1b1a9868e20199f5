-- ===== src/Gate/Sound.antt =====
-- upstream_gate.py: the status behind a verification that returned.
use mt.Base.{
  ℕ, String, Bool, true, false, ◌≡◌, refl, ap, subst, if◌then◌else◌, ◌∙◌, not, ◌||◌, Option, none,
  some, List, [], ◌∷◌, ℤ, pos, ◌≤ℤ◌, int_eqb-eq, int_ltb_false, eq_iff, ||_false, not-false,
}
use mt.Json.{Value, null, bool, int, float, str, list, dict, nil, Fields, end, Python, get}
use mt.Json.Strict.{unique, unique_object, accepted, loads_strict, Parsed}
use mt.Errors.{Result, ok, err}
use mt.Errors.Ensures.{
  Ensures, Ensures-ok, Ensures-known, Ensures-bind, Ensures-refuse, Ensures-refuse_last,
}
use mt.System.{Sys, lift}
use mt.System.Rules.{
  Hoare, returned, raised, Any, Hoare-bind, Hoare-pure, Hoare-raise, Hoare-refuse, Hoare-returned,
}
use mt.Protected.{Disk}
use mt.Protected.Sound.{fact, IsRead, stable-Reads}
use mt.Gate.{
  Reader, max_status_bytes, private_file, mapping, decoded, parsed, read_status, checked_status,
  verify_status,
}
use mt.Gate.Status.{
  same_scalar, require_exact, require_all, exact_fields, is_empty_list, numeric, is_time,
  require_fresh, check_status,
}

-- Each key has the value that is asked for, of the same type.
abbrev pub Exact : Fields → List (String × Value) → Type 0
Exact payload [] = Unit
Exact payload (k ∷ l) = (get k.0 payload ≡ k.1) × Exact payload l

-- The time under a key is finite, positive, not later than the skew allows, and not too old.
pub record IsFresh (py : Python) (skew now : ℕ) (max_age : ℤ) (payload : Fields) (key : String)
    : Type 0 where
  pub timestamp : ℕ
  pub found : numeric py key (get key payload) ≡ ok timestamp
  pub valid : is_time py timestamp ≡ true
  pub not_future : py.float_ltb (py.float_add now skew) timestamp ≡ false
  pub not_stale : py.int_ltb_float max_age (py.float_sub now timestamp) ≡ false

pub record IsCurrent (py : Python) (skew now : ℕ) (max_age : ℤ) (payload : Fields) : Type 0 where
  pub exact : Exact payload exact_fields
  pub unchanged : get "changed_files" payload ≡ list nil
  pub updated : IsFresh py skew now max_age payload "updated_at_epoch"
  pub observed : IsFresh py skew now max_age payload "origin_observed_at"

same_scalar-eq : (v w : Value) → same_scalar v w ≡ true → v ≡ w
unfolding same_scalar
same_scalar-eq (str s) (str t) e = ap str ((eq_iff s t).0 e)
same_scalar-eq (int m) (int n) e = ap int (int_eqb-eq m n e)
same_scalar-eq (bool true) (bool true) e = refl
same_scalar-eq (bool false) (bool false) e = refl
same_scalar-eq _ _ e = cc

require_all-Exact :
    (payload : Fields) (l : List (String × Value))
    → Ensures (λ _. Exact payload l) (require_all payload l)
unfolding require_all require_exact
require_all-Exact payload [] = Ensures-ok tt
require_all-Exact payload ((key, v) ∷ l) = Ensures-refuse _ _ _ λ t.
    Ensures-known
      λ u e. (same_scalar-eq _ _ (not-false _ t), (require_all-Exact payload l).holds u e)

empty-eq : (v : Value) → is_empty_list v ≡ true → v ≡ list nil
unfolding is_empty_list
empty-eq (list nil) e = refl
empty-eq _ e = cc

module _ (py : Python) (skew now : ℕ) (max_age : ℤ) (payload : Fields) where
  require_fresh-IsFresh :
      (key : String)
      → Ensures
          (λ _. IsFresh py skew now max_age payload key)
          (require_fresh py skew now max_age payload key)
  unfolding require_fresh
  require_fresh-IsFresh key = Ensures-bind λ ts e. Ensures-refuse _ _ _ λ t.
      Ensures-refuse _ _ _ λ u. Ensures-refuse_last _ _ _ λ v. record {
        timestamp = ts;
        found = e;
        valid = not-false _ t;
        not_future = u;
        not_stale = v;
      }

  check_status-IsCurrent :
      Ensures
        (λ _. IsCurrent py skew now max_age payload)
        (check_status py skew now max_age payload)
  unfolding check_status
  check_status-IsCurrent = Ensures-bind λ a e. Ensures-refuse _ _ _ λ t. Ensures-bind λ b f.
      Ensures-known λ u g. record {
        exact = (require_all-Exact payload exact_fields).holds a e;
        unchanged = empty-eq _ (not-false _ t);
        updated = (require_fresh-IsFresh "updated_at_epoch").holds b f;
        observed = (require_fresh-IsFresh "origin_observed_at").holds u g;
      }

module _ {W A : Type 0} where
  lift-Hoare : (r : Result A) → Hoare {W = W} Any Any (lift r) (λ a s. r ≡ ok a)
  unfolding lift
  lift-Hoare (ok a) = record { at = λ s i p. returned tt refl }
  lift-Hoare (err e) = record { at = λ s i p. raised tt }

-- An object that the strict reading accepted has no key twice, at any depth.
strict_unique :
    (parse : String → Option Parsed) (text : String) (d : Fields)
    → loads_strict parse text ≡ some (dict d)
    → unique_object d ≡ true
unfolding loads_strict unique
strict_unique parse text d e = of_parsed (parse text) e
  where
    of_parsed : (o : Option Parsed) → accepted o ≡ some (dict d) → unique_object d ≡ true
    of_parsed none e = cc
    of_parsed (some p) e = by_tests (p.constants || not (unique p.value)) refl e
      where
        by_tests :
            (b : Bool)
            → (p.constants || not (unique p.value)) ≡ b
            → (if b then none else some p.value) ≡ some (dict d)
            → unique_object d ≡ true
        by_tests true f g = cc
        by_tests false f g =
            let same : p.value ≡ dict d = cc in
            subst (λ v. unique v ≡ true) same (not-false _ ((||_false _ _ f).1))

module _ {W : Type 0} (py : Python) (d : Disk W) (reader : Reader) where
  -- The document came from a private file, read as a whole, and was strict JSON in UTF-8.
  pub record IsDocument (path : String) (payload : Fields) : Type 0 where
    pub bytes : List ℕ
    pub text : String
    pub file : IsRead d (private_file d.euid) max_status_bytes path bytes
    pub utf8 : reader.decode bytes ≡ some text
    pub strict : loads_strict reader.parse text ≡ some (dict payload)

  abbrev Documents : String → Option Fields → Sys W → Type 0
  Documents path o s = (payload : Fields) → o ≡ some payload → IsDocument path payload

  mapping-Documents :
      (path : String) (bytes : List ℕ) (text : String)
      → IsRead d (private_file d.euid) max_status_bytes path bytes
      → reader.decode bytes ≡ some text
      → (o : Option Value) → loads_strict reader.parse text ≡ o
      → Hoare Any Any (mapping py d reader o) (Documents path)
  mapping-Documents path bytes text file utf8 none e = Hoare-raise _ _
  mapping-Documents path bytes text file utf8 (some (dict payload)) e = Hoare-pure _ λ s i p q.
      record {
        bytes = bytes;
        text = text;
        file = file;
        utf8 = utf8;
        strict = e ∙ ap (λ o. some (dict (or_nothing o))) q;
      }
    where
      or_nothing : Option Fields → Fields
      or_nothing none = end
      or_nothing (some f) = f
  mapping-Documents path bytes text file utf8 (some null) e = Hoare-raise _ _
  mapping-Documents path bytes text file utf8 (some (bool b)) e = Hoare-raise _ _
  mapping-Documents path bytes text file utf8 (some (int n)) e = Hoare-raise _ _
  mapping-Documents path bytes text file utf8 (some (float f)) e = Hoare-raise _ _
  mapping-Documents path bytes text file utf8 (some (str s)) e = Hoare-raise _ _
  mapping-Documents path bytes text file utf8 (some (list l)) e = Hoare-raise _ _

  decoded-Documents :
      (path : String) (bytes : List ℕ)
      → IsRead d (private_file d.euid) max_status_bytes path bytes
      → (o : Option String) → reader.decode bytes ≡ o
      → Hoare Any Any (decoded py d reader o) (Documents path)
  decoded-Documents path bytes file none e = Hoare-raise _ _
  decoded-Documents path bytes file (some text) e =
      mapping-Documents path bytes text file e (loads_strict reader.parse text) refl

  read_status-Documents :
      (path : String) → Hoare Any Any (read_status py d reader path) (Documents path)
  unfolding read_status
  read_status-Documents path =
      Hoare-bind (stable-Reads d _ (private_file d.euid) _ _ path) λ o. fact (rest o)
    where
      rest :
          (o : Option (List ℕ))
          → ((bytes : List ℕ)
              → o ≡ some bytes
              → IsRead d (private_file d.euid) max_status_bytes path bytes)
          → Hoare Any Any (parsed py d reader o) (Documents path)
      rest none f = Hoare-pure none λ s i p q. cc
      rest (some bytes) f = decoded-Documents path bytes (f bytes refl) (reader.decode bytes) refl

  -- What a verified status is, and where it came from.
  pub record IsVerified (path : String) (max_age : ℤ) (now : ℕ) (payload : Fields) : Type 0 where
    pub bounded : (pos 600 ≤ℤ max_age) × (max_age ≤ℤ pos 900)
    pub document : IsDocument path payload
    pub keys : unique_object payload ≡ true
    pub current : IsCurrent py reader.skew now max_age payload

  checked-Hoare :
      (path : String) (max_age : ℤ) (now : ℕ)
      → (pos 600 ≤ℤ max_age) × (max_age ≤ℤ pos 900)
      → (o : Option Fields) → ((payload : Fields) → o ≡ some payload → IsDocument path payload)
      → Hoare Any Any
          (checked_status py d reader now max_age o)
          (λ r s. (payload : Fields) → r ≡ some payload → IsVerified path max_age now payload)
  checked-Hoare path max_age now bounded none f = Hoare-pure none λ s i p q. cc
  checked-Hoare path max_age now bounded (some payload) f = Hoare-bind (lift-Hoare _) λ u. fact λ e.
      Hoare-pure _ λ s i p q. subst (IsVerified path max_age now) (cc) (record {
        bounded = bounded;
        document = f payload refl;
        keys = strict_unique reader.parse _ payload (f payload refl).strict;
        current = (check_status-IsCurrent py reader.skew now max_age payload).holds u e;
      })

  -- A status that was verified came, as the chunks in order of reads down to the end, from a private
  -- file of that size with one name, as strict JSON without a repeated key, says exactly what is asked for with the same types, lists no changed file, and has
  -- both its times fresh, with an age limit between 600 and 900 seconds.
  pub verify_status-IsVerified :
      (path : String) (max_age : ℤ) (now : ℕ) (s t : Sys W) (payload : Fields)
      → verify_status py d reader path max_age now s ≡ (ok (some payload), t)
      → IsVerified path max_age now payload
  unfolding verify_status
  verify_status-IsVerified path max_age now s t payload e = Hoare-returned triple e payload refl
    where
      triple :
          Hoare Any Any
            (verify_status py d reader path max_age now)
            (λ r s. (payload : Fields) → r ≡ some payload → IsVerified path max_age now payload)
      triple = Hoare-refuse _ _ _ λ u.
          let (low, high) = ||_false _ _ u in
          Hoare-refuse _ _ _ λ _. Hoare-bind (read_status-Documents path) λ o. fact (
            checked-Hoare path max_age now
              (int_ltb_false max_age (pos 600) low, int_ltb_false (pos 900) max_age high) o)
