-- ===== src/Release/Prepare.antt =====
-- github_release.py: `_prepare_assets`. The assets are a mapping from names to paths.
use mt.Base.{
  String, ◌<>◌, Bool, false, ◌&&◌, ◌||◌, not, Option, none, some, List, [], ◌∷◌, map, length, ℤ,
  pos, int_ltb, int_eqb, eqb, ltb, ◌==◌, contains, sorted_set, if◌then◌else◌,
}
use mt.Errors.{exception}
use mt.System.{pure, raise_if, ◌>>=◌, ◌>>◌}
use mt.Protected.{Metadata, is_regular}
use mt.Release.Wire.{Services, G, on_disk, or_raise}
use mt.Config.Source.{is_filename}

-- `_fingerprint(a) == _fingerprint(b)`
unfoldable pub same_print : Metadata → Metadata → Bool
same_print a b =
    eqb a.device b.device
    && eqb a.inode b.inode
    && int_eqb a.size b.size
    && int_eqb a.modified b.modified

-- `_PreparedAsset`; the fingerprint is that of the metadata.
pub record Prepared : Type 0 where
  pub name : String
  pub size : ℤ
  pub digest : String
  pub content_type : String
  pub metadata : Metadata

unfoldable pub any_bad : List String → Bool
any_bad [] = false
any_bad (n ∷ l) = not (is_filename n) || any_bad l

-- `len(set(l)) != len(l)`
unfoldable pub repeats : List String → Bool
repeats [] = false
repeats (s ∷ l) = contains s l || repeats l

unfoldable pub keys : List (String × String) → List String
keys [] = []
keys ((n, p) ∷ l) = n ∷ keys l

-- `assets[name]`
unfoldable pub path_of : String → List (String × String) → String
path_of n [] = ""
path_of n ((m, p) ∷ l) = if m == n then p else path_of n l

abbrev or_default : Option String → String
or_default none = "application/octet-stream"
or_default (some t) = if t == "" then "application/octet-stream" else t

module _ {W : Type 0} (v : Services W) where
  abbrev pub failed : String
  failed = "GitHub release asset preparation failed"

  unfoldable pub prepare_one : String → String → G W Prepared
  unfolding same_print
  prepare_one name path = do
    is_link ← on_disk (v.is_symlink path)
    linked ← or_raise failed is_link
    raise_if linked exception "GitHub release assets cannot be symbolic links"
    opened ← on_disk (v.open_asset name path)
    before ← or_raise failed opened
    raise_if (not (is_regular before.mode) || int_ltb before.size (pos 1)) exception
        "GitHub release asset must be a non-empty regular file"
    raise_if (int_ltb (pos 2147483648) before.size) exception
        "GitHub release asset exceeds the size limit"
    hashing ← on_disk (v.hash_asset name)
    hashed ← or_raise failed hashing
    raise_if (not (int_eqb hashed.total before.size) || not (same_print hashed.after before))
        exception "GitHub release asset changed while hashing"
    rewound ← on_disk (v.rewind name)
    or_raise failed rewound
    pure (record {
      name = name;
      size = before.size;
      digest = "sha256:" <> hashed.hex;
      content_type = or_default (v.guess_type name);
      metadata = before;
    })

  unfoldable pub prepare_all : List (String × String) → List String → G W (List Prepared)
  prepare_all assets [] = pure []
  prepare_all assets (n ∷ l) = do
    a ← prepare_one n (path_of n assets)
    rest ← prepare_all assets l
    pure (a ∷ rest)

  unfoldable pub prepare_assets : List (String × String) → G W (List Prepared)
  prepare_assets assets = do
    let names = keys assets
    raise_if (eqb (length names) 0 || ltb 100 (length names)) exception
        "GitHub release asset set is invalid"
    raise_if (any_bad names) exception "GitHub release asset filename is invalid"
    raise_if (repeats (map v.casefold names)) exception
        "GitHub release asset filenames are ambiguous"
    prepare_all assets (sorted_set names)
