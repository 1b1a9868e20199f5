-- ===== src/Protected/Root.antt =====
-- protected_file.py: what `read_root_service_file` returns.
use mt.Base.{
  refl, ℕ, ◌≤◌, String, Bool, true, false, ◌≡◌, ◌≢◌, Option, none, some, List, length, pos, ◌≤ℤ◌,
  int_ltb_false, eqb-true, ||_false, not-false, if◌then◌else◌,
}
use mt.Errors.{ok}
use mt.System.{Sys}
use mt.System.Rules.{Hoare-refuse, Hoare-returned}
use mt.Protected.{
  Metadata, Disk, is_regular, is_link, permissions, root_service, read_root_service_file,
}
use mt.Protected.Content.{IsContent}
use mt.Protected.Sound.{Seen, stable-Reads}
use mt.Protected.Ends.{stable-Ends}

-- The metadata of a regular file that root owns, that the service group may read, and that has one
-- name.
pub record IsService (egid maximum : ℕ) (m : Metadata) : Type 0 where
  pub regular : is_regular m.mode ≡ true
  pub no_link : is_link m.mode ≡ false
  pub one_name : m.links ≡ 1
  pub root : m.uid ≡ 0
  pub group : m.gid ≡ egid
  pub mode : permissions m.mode ≡ 416
  pub small : m.size ≤ℤ pos maximum

passed :
    (b : Bool) (t : String) (o : Option String)
    → (if b then some t else o) ≡ none
    → (b ≡ false) × (o ≡ none)
passed true t o e = cc
passed false t o e = (cc, e)

root_service-IsService :
    (egid : ℕ) (label : String) (maximum : ℕ) (m : Metadata)
    → root_service egid label maximum m ≡ none
    → IsService egid maximum m
unfolding root_service
root_service-IsService egid label maximum m e =
    let (t1, e1) = passed _ _ _ e in
    let (t2, e2) = passed _ _ _ e1 in
    let (t3, e3) = passed _ _ _ e2 in
    let (t4, e4) = passed _ _ _ e3 in
    let (t5, e5) = passed _ _ _ e4 in
    let (t6, e6) = passed _ _ _ e5 in
    record {
      regular = not-false _ ((||_false _ _ t1).1);
      no_link = (||_false _ _ t1).0;
      one_name = eqb-true _ _ (not-false _ t2);
      root = eqb-true _ _ (not-false _ t3);
      group = eqb-true _ _ (not-false _ t4);
      mode = eqb-true _ _ (not-false _ t5);
      small = int_ltb_false (pos maximum) m.size ((||_false _ _ t6).1);
    }

-- The bytes are what consecutive reads gave down to the end of a file with such metadata, which its
-- name and the descriptor showed.
pub record IsServiceFile {W : Type 0} (d : Disk W) (maximum : ℕ) (path : String) (bytes : List ℕ)
    : Type 0 where
  pub absolute : d.is_absolute path ≡ true
  pub metadata : Metadata
  pub service : IsService d.egid maximum metadata
  pub named : Seen (d.lstat path) metadata
  pub opened : Seen d.fstat metadata
  pub whole : metadata.size ≡ pos (length bytes)
  pub first : W
  pub content : IsContent d first bytes
  pub bound : length bytes ≤ maximum

module _ {W : Type 0} (d : Disk W) (label : String) (maximum : ℕ) (path : String)
    (s t : Sys W) where
  -- Bytes that were returned are the chunks, in order, of reads that followed each other down to the
  -- empty one, and as many as the size of a file within the limit that is regular, has one name,
  -- belongs to root and the service group with mode 0640, and had the same metadata under its name and
  -- behind the descriptor.
  pub read_root-IsServiceFile :
      (bytes : List ℕ)
      → read_root_service_file d label maximum path s ≡ (ok (some bytes), t)
      → IsServiceFile d maximum path bytes
  unfolding read_root_service_file
  read_root-IsServiceFile bytes e =
      let read =
        Hoare-returned
          (Hoare-refuse _ _ _ λ _.
            Hoare-refuse _ _ _
              λ _. stable-Reads d label (root_service d.egid label maximum) maximum _ path)
          e bytes refl in
      record {
        absolute = read.absolute;
        metadata = read.metadata;
        service = root_service-IsService _ _ _ _ read.passes;
        named = read.named;
        opened = read.opened;
        whole = read.size;
        first = read.first;
        content = read.content;
        bound = read.bound;
      }

  -- Whatever the calls answer, the loop of reads ends within its fuel, the limit and two: a reading
  -- either raises or returns bytes.
  pub read_root_ends :
      (o : Option (List ℕ)) → read_root_service_file d label maximum path s ≡ (ok o, t) → o ≢ none
  unfolding read_root_service_file
  read_root_ends o e =
      Hoare-returned
        (Hoare-refuse _ _ _ λ _.
          Hoare-refuse _ _ _
            λ _. stable-Ends d label (root_service d.egid label maximum) maximum _ path)
        e
