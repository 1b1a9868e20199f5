-- ===== src/Release/Complete.antt =====
-- github_release.py: what `_verify_asset_set` says of a list that it accepts as complete.
use mt.Base.{
  String, Bool, true, false, ◌&&◌, ◌||◌, not, ◌≡◌, refl, sym, ◌∙◌, ap, subst, ◌⊎◌, inl, inr, Option,
  none, some, List, [], ◌∷◌, ◌==◌, eq_iff, eq_refl, contains, &&_true, ||_false, not-false,
  Bool-cases, arith,
}
use mt.Json.{Fields, Python, get, eq_text, eq_int, as_text}
use mt.Errors.{ok}
use mt.Errors.Ensures.{
  Ensures, Ensures-ok, Ensures-known, Ensures-bind, Ensures-refuse, Ensures-refuse_last,
  Ensures-want,
}
use mt.Release.Prepare.{Prepared, repeats}
use mt.Release.Assets.{
  is_bool, is_null, find_asset, asset_names, subset, verify_asset, verify_listed, verify_all_listed,
  verify_asset_set,
}

abbrev text_or : Option String → String
text_or none = ""
text_or (some s) = s

-- The names of listed assets.
abbrev pub names_of : List Fields → List String
names_of [] = []
names_of (raw ∷ l) = text_or (as_text (get "name" raw)) ∷ names_of l

-- A listed asset is the prepared one: its name, its size, its state, and its digest where it has one.
pub record IsAsset (py : Python) (raw : Fields) (a : Prepared) : Type 0 where
  pub name : eq_text (get "name" raw) a.name ≡ true
  pub number : is_bool (get "size" raw) ≡ false
  pub size : eq_int py (get "size" raw) a.size ≡ true
  pub state : eq_text (get "state" raw) "uploaded" ≡ true
  pub digest : (is_null (get "digest" raw) ≡ true) ⊎ (eq_text (get "digest" raw) a.digest ≡ true)

abbrev pub IsExpected : Python → List Prepared → Fields → Type 0
IsExpected py ps raw =
    (a : Prepared) × (find_asset (text_or (as_text (get "name" raw))) ps ≡ some a)
    × IsAsset py raw a

abbrev pub AllExpected : Python → List Prepared → List Fields → Type 0
AllExpected py ps [] = Unit
AllExpected py ps (raw ∷ l) = IsExpected py ps raw × AllExpected py ps l

digest-cases : (a b : Bool) → (not a && not b) ≡ false → (a ≡ true) ⊎ (b ≡ true)
digest-cases true b e = inl refl
digest-cases false b e = inr (not-false b e)

or_swap : (a b c : Bool) → (a || (b || c)) ≡ (b || a || c)
or_swap a b c = ground arith

module _ (py : Python) (ps : List Prepared) where
  verify_asset-IsAsset :
      (raw : Fields) (a : Prepared) → Ensures (λ u. IsAsset py raw a) (verify_asset py raw a)
  unfolding verify_asset
  verify_asset-IsAsset raw a = Ensures-refuse _ _ _ λ t. Ensures-refuse_last _ _ _ λ u.
      let (t3, state) = ||_false _ _ t in
      let (t2, size) = ||_false _ _ t3 in
      let (name, number) = ||_false _ _ t2 in
      record {
        name = not-false _ name;
        number = number;
        size = not-false _ size;
        state = not-false _ state;
        digest = digest-cases _ _ u;
      }

  -- A name that was accepted is new, and is that of an expected asset.
  record IsNew (present : List String) (raw : Fields) (name : String) : Type 0 where
    named : text_or (as_text (get "name" raw)) ≡ name
    new : contains name present ≡ false
    expected : IsExpected py ps raw

  verify_listed-IsNew :
      (present : List String) (raw : Fields)
      → Ensures (IsNew present raw) (verify_listed py ps present raw)
  unfolding verify_listed
  verify_listed-IsNew present raw = Ensures-want _ _ _ λ name e. Ensures-refuse _ _ _ λ new.
      Ensures-want _ _ _ λ a found. Ensures-bind λ u verified. Ensures-ok (record {
        named = ap text_or e;
        new = new;
        expected = (
          a,
          subst (λ o. find_asset (text_or o) ps ≡ some a) (sym e) found,
          (verify_asset-IsAsset raw a).holds u verified,
        );
      })

  -- What the loop over a list has found.
  record IsRun (present : List String) (raw : List Fields) (seen : List String) : Type 0 where
    matches : AllExpected py ps raw
    fresh : (n : String) → contains n (names_of raw) ≡ true → contains n present ≡ false
    once : repeats (names_of raw) ≡ false
    collects : (n : String) → contains n seen ≡ (contains n (names_of raw) || contains n present)

  one_more :
      (present : List String) (raw : Fields) (l : List Fields) (name : String) (seen : List String)
      → IsNew present raw name
      → IsRun (name ∷ present) l seen
      → IsRun present (raw ∷ l) seen
  unfolding contains repeats
  one_more present raw l name seen new run = record {
    matches = (new.expected, run.matches);
    fresh = λ n e. elim (Bool-cases (n == name)) [
      | inl same ↦ subst (λ m. contains m present ≡ false) (sym ((eq_iff n name).0 same)) new.new
      | inr other ↦ (||_false _ _ (run.fresh n (listed n other (rw new.named at e)))).1
    ];
    once = rw (new.named, alone) run.once;
    collects = λ n. run.collects n ∙ rw new.named (or_swap _ (n == name) _);
  }
    where
      listed :
          (n : String)
          → (n == name) ≡ false
          → ((n == name) || contains n (names_of l)) ≡ true
          → contains n (names_of l) ≡ true
      listed n other e = rw other at e

      alone : contains name (names_of l) ≡ false
      alone = elim (Bool-cases (contains name (names_of l))) [
        | inl e ↦ absurd (twice (||_false (name == name) _ (run.fresh name e)).0)
        | inr e ↦ e
      ]
        where
          twice : (name == name) ≡ false → ⊥
          twice e = let same : (name == name) ≡ true = eq_refl name in cc

  verify_all-IsRun :
      (present : List String) (l : List Fields)
      → Ensures (IsRun present l) (verify_all_listed py ps present l)
  unfolding verify_all_listed contains repeats
  verify_all-IsRun present [] = Ensures-ok (nothing_listed present)
    where
      nothing_listed : (p : List String) → IsRun p [] p
      nothing_listed p = record {
        matches = tt;
        fresh = λ n e. cc;
        once = refl;
        collects = λ n. refl;
      }
  verify_all-IsRun present (raw ∷ l) = Ensures-bind λ name e. Ensures-known λ seen f.
      one_more present raw l name seen ((verify_listed-IsNew present raw).holds name e)
        ((verify_all-IsRun (name ∷ present) l).holds seen f)

subset-contains :
    (l m : List String) (n : String) → subset l m ≡ true → contains n l ≡ true → contains n m ≡ true
unfolding subset contains
subset-contains [] m n s e = cc
subset-contains (k ∷ l) m n s e =
    let (here, rest) = &&_true (contains k m) (subset l m) s in
    elim (Bool-cases (n == k)) [
      | inl same ↦ subst (λ j. contains j m ≡ true) (sym ((eq_iff n k).0 same)) here
      | inr other ↦ subset-contains l m n rest (rw other at e)
    ]

same_contents : (a b : Bool) → (a ≡ true → b ≡ true) → (b ≡ true → a ≡ true) → a ≡ b
same_contents true b f g = sym (f refl)
same_contents false true f g = g refl
same_contents false false f g = refl

-- A list of assets that is exactly the expected one: each listed asset is the prepared asset of its
-- name, no name is listed twice, and the names are those of the prepared assets.
pub record IsExact (py : Python) (ps : List Prepared) (raw : List Fields) : Type 0 where
  pub matches : AllExpected py ps raw
  pub once : repeats (names_of raw) ≡ false
  pub same : (n : String) → contains n (names_of raw) ≡ contains n (asset_names ps)

or_empty : (a : Bool) → (a || false) ≡ a
or_empty true = refl
or_empty false = refl

exact :
    (py : Python) (ps : List Prepared) (raw : List Fields) (seen : List String)
    → IsRun py ps [] raw seen
    → subset seen (asset_names ps) ≡ true
    → subset (asset_names ps) seen ≡ true
    → IsExact py ps raw
unfolding contains
exact py ps raw seen run down up = record {
  matches = run.matches;
  once = run.once;
  same = λ n.
      sym (run.collects n ∙ or_empty _)
      ∙ same_contents _ _ (subset-contains seen (asset_names ps) n down)
          (subset-contains (asset_names ps) seen n up);
}

-- In a list that is accepted as complete each asset is a prepared one with its size and state, and with
-- its digest where the answer has one, none is listed twice, and the names are those of the prepared
-- assets.
pub verify_asset_set-IsExact :
    (py : Python) (raw : List Fields) (ps : List Prepared) (present : List String)
    → verify_asset_set py raw ps true ≡ ok present
    → IsExact py ps raw
unfolding verify_asset_set
verify_asset_set-IsExact py raw ps present e = (accepted).holds present e
  where
    accepted : Ensures (λ p. IsExact py ps raw) (verify_asset_set py raw ps true)
    accepted = Ensures-bind λ seen f. Ensures-refuse _ _ _ λ t.
        let (down, up) = &&_true _ _ (not-false _ t) in
        Ensures-ok (exact py ps raw seen ((verify_all-IsRun py ps [] raw).holds seen f) down up)
