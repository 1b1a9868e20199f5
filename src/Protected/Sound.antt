-- ===== src/Protected/Sound.antt =====
-- protected_file.py: the file behind the bytes that are returned.
use mt.Base.{
  ℕ, ◌+◌, ◌≤◌, String, true, ◌≡◌, refl, sym, subst, ◌∙◌, ap, Option, none, some, List, [], length,
  pos, int_eqb-eq, eqb-true, &&_true, ||_false, not-false,
}
use mt.Errors.{ok}
use mt.System.{Sys, M, pure, raise, outside, ◌>>=◌}
use mt.System.Rules.{
  Hoare, Post, returned, raised, Any, Hoare-Keeps, Hoare-bind, Hoare-pure, Hoare-raise,
  Hoare-refuse, Hoare-returned,
}
use mt.Protected.Content.{IsContent, IsWhole, loop-IsWhole}
use mt.Protected.{
  Metadata, same_fingerprint, Disk, Checks, or_os_error, guarded, refuse_with, check,
  checked_metadata, finish, read_stable,
}

-- The call gave this answer.
abbrev pub Seen : {W A : Type 0} → (W → Option A × W) → A → Type 0
Seen {W} f a = (w : W) × ((f w).0 ≡ some a)

-- The bytes are the chunks, in order, of reads that followed each other down to the end of the file.
-- They are as many as the size of a file that passed every test, was found under its name and behind
-- the descriptor with the same metadata, and is within the limit.
pub record IsRead {W : Type 0} (d : Disk W) (checks : Checks) (maximum : ℕ) (path : String)
    (bytes : List ℕ) : Type 0 where
  pub absolute : d.is_absolute path ≡ true
  pub metadata : Metadata
  pub passes : checks metadata ≡ none
  pub named : Seen (d.lstat path) metadata
  pub opened : Seen d.fstat metadata
  pub size : metadata.size ≡ pos (length bytes)
  pub first : W
  pub content : IsContent d first bytes
  pub bound : length bytes ≤ maximum

same_fingerprint-eq : (a b : Metadata) → same_fingerprint a b ≡ true → a ≡ b
unfolding same_fingerprint
same_fingerprint-eq a b e =
    let (e8, changed) = &&_true _ _ e in
    let (e7, modified) = &&_true _ _ e8 in
    let (e6, size) = &&_true _ _ e7 in
    let (e5, links) = &&_true _ _ e6 in
    let (e4, gid) = &&_true _ _ e5 in
    let (e3, uid) = &&_true _ _ e4 in
    let (e2, mode) = &&_true _ _ e3 in
    let (device, inode) = &&_true _ _ e2 in
    λ i. record {
      device = eqb-true a.device b.device device i;
      inode = eqb-true a.inode b.inode inode i;
      mode = eqb-true a.mode b.mode mode i;
      uid = eqb-true a.uid b.uid uid i;
      gid = eqb-true a.gid b.gid gid i;
      links = eqb-true a.links b.links links i;
      size = int_eqb-eq a.size b.size size i;
      modified = int_eqb-eq a.modified b.modified modified i;
      changed = int_eqb-eq a.changed b.changed changed i;
    }

module _ {W A : Type 0} where
  -- A fact that no state is needed for, out of a precondition.
  pub fact :
      {F : Type 0} {m : M W A} {Q : A → Sys W → Type 0}
      → (F → Hoare Any Any m Q)
      → Hoare Any (λ s. F) m Q
  fact k = record { at = λ s i f. (k f).at s tt tt }

module _ {W : Type 0} (d : Disk W) (label : String) (checks : Checks) where
  guarded-Seen :
      {A : Type 0} (f : W → Option A × W)
      → Hoare Any Any (guarded d label checks f) (λ a s. Seen f a)
  unfolding guarded or_os_error outside raise pure ◌>>=◌
  guarded-Seen {A = A} f = record { at = λ s i p. answered s (f s.world).0 refl }
    where
      answered :
          (s : Sys W) (o : Option A)
          → (f s.world).0 ≡ o
          → Post Any
              (λ a t. Seen f a)
              (or_os_error d label checks o (record s { world = (f s.world).1 }))
      answered s none e = raised tt
      answered s (some a) e = returned tt (s.world, e)

  check-passes : (m : Metadata) → Hoare Any Any (check d label checks m) (λ u s. checks m ≡ none)
  unfolding check
  check-passes m = by_result (checks m) refl
    where
      by_result :
          (o : Option String)
          → checks m ≡ o
          → Hoare Any Any (refuse_with d label checks o) (λ u s. checks m ≡ none)
      by_result none e = Hoare-pure tt λ s i. e
      by_result (some t) e = Hoare-raise _ _

  checked-Seen :
      (f : W → Option Metadata × W)
      → Hoare Any Any (checked_metadata d label checks f) (λ m s. Seen f m × (checks m ≡ none))
  unfolding checked_metadata
  checked-Seen f =
      Hoare-bind (guarded-Seen f)
        λ m. fact λ seen. Hoare-bind (check-passes m) λ u. Hoare-pure m λ s passes. (seen, passes)

  module _ (maximum : ℕ) (too_large : String) where
    abbrev or_nothing : Option (List ℕ) → List ℕ
    or_nothing none = []
    or_nothing (some l) = l

    abbrev Reads : String → Option (List ℕ) → Sys W → Type 0
    Reads path o s = (bytes : List ℕ) → o ≡ some bytes → IsRead d checks maximum path bytes

    module _ (path : String) (before opened : Metadata) (seen : Seen d.fstat opened)
        (passes : checks opened ≡ none) (named : Seen (d.lstat path) before)
        (absolute : d.is_absolute path ≡ true) where
      finish-Reads :
          (o : Option (List ℕ))
          → ((bytes : List ℕ) → o ≡ some bytes → IsWhole d label checks maximum too_large bytes)
          → Hoare Any Any
              (finish d label checks maximum too_large path before opened o)
              (Reads path)
      unfolding finish
      finish-Reads none fits = Hoare-pure none λ s i bytes e. cc
      finish-Reads (some payload) fits =
          Hoare-bind (Hoare-Keeps (record { at = λ s i. tt })) λ after.
            Hoare-bind (Hoare-Keeps (record { at = λ s i. tt })) λ path_after.
              Hoare-refuse _ _ _ λ same.
                let (e3, whole) = ||_false _ _ same in
                let (e2, last) = ||_false _ _ e3 in
                let (e1, first) = ||_false _ _ e2 in
                Hoare-pure _ λ s i bytes e. record {
                  absolute = absolute;
                  metadata = opened;
                  passes = passes;
                  named =
                      subst (Seen (d.lstat path))
                        (sym (same_fingerprint-eq opened before (not-false _ first))) named;
                  opened = seen;
                  size =
                      sym (int_eqb-eq _ _ (not-false _ whole))
                      ∙ ap (λ o. pos (length (or_nothing o))) e;
                  first = (fits bytes e).first;
                  content = (fits bytes e).content;
                  bound = (fits bytes e).fits;
                }

    pub stable-Reads :
        (path : String)
        → Hoare Any Any (read_stable d label checks maximum too_large path) (Reads path)
    unfolding read_stable
    stable-Reads path = Hoare-refuse _ _ _ λ relative.
        Hoare-bind (checked-Seen (d.lstat path)) λ before. fact λ (named, _).
          Hoare-bind (guarded-Seen (d.open_file path)) λ _. fact λ _.
            Hoare-bind (checked-Seen d.fstat) λ opened. fact λ (seen, passes).
              Hoare-refuse _ _ _ λ _.
                Hoare-bind (loop-IsWhole d label checks maximum too_large (maximum + 2)) λ o.
                  fact (finish-Reads path before opened seen passes named (not-false _ relative) o)

    -- Bytes that were returned are the whole of a file with the metadata that is asked for, which is
    -- the same under its name and behind the descriptor, and are within the limit.
    pub read_stable-IsRead :
        (path : String) (s t : Sys W) (bytes : List ℕ)
        → read_stable d label checks maximum too_large path s ≡ (ok (some bytes), t)
        → IsRead d checks maximum path bytes
    read_stable-IsRead path s t bytes e = Hoare-returned (stable-Reads path) e bytes refl
