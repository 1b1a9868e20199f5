-- ===== src/Protected/Ends.antt =====
-- protected_file.py: the loop of reads ends.
use mt.Base.{
  ℕ, zero, suc, ◌+◌, ◌≤◌, ◌<◌, String, Bool, true, false, ◌≡◌, ◌≢◌, refl, Option, none, some, List,
  [], ◌++◌, length, length-++, eqb, ltb, ltb-false, arith,
}
use mt.Errors.{ok}
use mt.System.{Sys, M}
use mt.System.Rules.{
  Hoare, Any, Hoare-Keeps, Hoare-bind, Hoare-pure, Hoare-refuse, Hoare-absurd, Hoare-returned,
}
use mt.Protected.{Metadata, Disk, Checks, read_chunk, more, read_loop, finish, read_stable}
use mt.Protected.Sound.{fact}

abbrev pub Ends : {W A : Type 0} → Option A → Sys W → Type 0
Ends o s = o ≢ none

module _ {W : Type 0} (d : Disk W) (label : String) (checks : Checks) (maximum : ℕ)
    (too_large : String) where
  -- What a read has added, unless the file ended.
  record IsLonger (payload : List ℕ) (r : List ℕ × Bool) : Type 0 where
    fits : length r.0 ≤ maximum
    grows : r.1 ≡ false → length payload < length r.0

  longer :
      (payload chunk : List ℕ)
      → ltb maximum (length (payload ++ chunk)) ≡ false
      → IsLonger payload (payload ++ chunk, eqb (length chunk) 0)
  longer payload chunk small = record {
    fits = ltb-false _ _ small;
    grows = λ e. let sum = length-++ payload chunk in ground arith;
  }

  chunk-Longer :
      (payload : List ℕ)
      → Hoare Any Any
          (read_chunk d label checks maximum too_large payload)
          (λ r s. IsLonger payload r)
  unfolding read_chunk
  chunk-Longer payload = Hoare-bind (Hoare-Keeps (record { at = λ s i. tt })) λ chunk.
      Hoare-refuse (ltb maximum (length (payload ++ chunk))) _ _
        λ small. Hoare-pure _ λ s i. longer payload chunk small

  more-Ends :
      (again : List ℕ → M W (Option (List ℕ))) (payload : List ℕ)
      → ((next : List ℕ)
          → length payload < length next
          → length next ≤ maximum
          → Hoare Any Any (again next) Ends)
      → (r : List ℕ × Bool) → IsLonger payload r
      → Hoare Any Any (more d label checks maximum too_large again r) Ends
  more-Ends again payload k (read, true) l = Hoare-pure _ λ s i e. cc
  more-Ends again payload k (read, false) l = k read (l.grows refl) l.fits

  -- Every read that did not end the file left less to read.
  loop-Ends :
      (fuel : ℕ) (payload : List ℕ)
      → length payload ≤ maximum
      → maximum < length payload + fuel
      → Hoare Any Any (read_loop d label checks maximum too_large fuel payload) Ends
  unfolding read_loop
  loop-Ends zero payload fits enough = Hoare-absurd λ s i. ground arith
  loop-Ends (suc fuel) payload fits enough = Hoare-bind (chunk-Longer payload) λ r.
      fact
        λ l. more-Ends _ payload (λ next grows small. loop-Ends fuel next small (ground arith)) r l

  finish-Ends :
      (path : String) (before opened : Metadata) (o : Option (List ℕ))
      → o ≢ none
      → Hoare Any Any (finish d label checks maximum too_large path before opened o) Ends
  unfolding finish
  finish-Ends path before opened none n = absurd (n refl)
  finish-Ends path before opened (some payload) n =
      Hoare-bind (Hoare-Keeps (record { at = λ s i. tt })) λ a.
        Hoare-bind (Hoare-Keeps (record { at = λ s i. tt }))
          λ p. Hoare-bind (Hoare-Keeps (record { at = λ s i. tt })) λ _. Hoare-pure _ λ s i e. cc

  pub stable-Ends :
      (path : String) → Hoare Any Any (read_stable d label checks maximum too_large path) Ends
  unfolding read_stable
  stable-Ends path = Hoare-bind (Hoare-Keeps (record { at = λ s i. tt })) λ _.
      Hoare-bind (Hoare-Keeps (record { at = λ s i. tt })) λ before.
        Hoare-bind (Hoare-Keeps (record { at = λ s i. tt })) λ _.
          Hoare-bind (Hoare-Keeps (record { at = λ s i. tt })) λ opened.
            Hoare-bind (Hoare-Keeps (record { at = λ s i. tt })) λ _.
              Hoare-bind (loop-Ends (maximum + 2) [] (omega arith) (omega arith))
                λ o. fact (finish-Ends path before opened o)

  -- Whatever the reads give, the loop of reads ends within its fuel, which is the limit and two: a
  -- reading that returns has bytes.
  pub read_stable-ends :
      (path : String) (s t : Sys W) (o : Option (List ℕ))
      → read_stable d label checks maximum too_large path s ≡ (ok o, t)
      → o ≢ none
  read_stable-ends path s t o e = Hoare-returned (stable-Ends path) e
