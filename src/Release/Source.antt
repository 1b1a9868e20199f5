-- ===== src/Release/Source.antt =====
-- github_release.py and config.py: the source that `publish` returns is read as the release's place.
use Prim.Native.Char.{Char, code}
use mt.Base.{
  ℕ, zero, suc, String, ◌<>◌, Bool, true, false, ◌≡◌, refl, ◌∙◌, ap, some, List, [], ◌∷◌, ℤ, codes,
  eqb, before, after, split_at, has_char, none, starts_with, if◌then◌else◌, &&_true, ||_false,
  not-false, arith,
}
use text.Mathlib.TextPositions.{starts_with-append}
use text.Mathlib.TextLemmas.{nil-append, cons-append, append_assoc}
use mt.Errors.{ok}
use mt.Errors.Ensures.{Ensures, Ensures-refuse, Ensures-refuse_last}
use mt.Config.Source.{
  Coordinates, tail_of, slug, is_owner, is_repo, is_tag, coordinates_of, github_release_coordinates,
  source_coordinates,
}
use mt.Release.Coordinates.{validate_coordinates}
use mt.Release.Prepare.{Prepared}
use mt.Release.Publish.{download_path, result}

-- A text up to a character that does not stand in it, and what is behind.
before-cons :
    (d : Char) (s t : String)
    → has_char (code d) s ≡ false
    → before (code d) (s <> String.◌∷◌ d t) ≡ s
unfolding before has_char
before-cons d String.[] t e =
    let same : eqb (code d) (code d) ≡ true = ground arith in rw (nil-append (String.◌∷◌ d t), same)
before-cons d (String.◌∷◌ c s) t e =
    let (here, rest) = ||_false (eqb (code c) (code d)) (has_char (code d) s) e in
    rw (cons-append c s (String.◌∷◌ d t), here, before-cons d s t rest)

after-cons :
    (d : Char) (s t : String)
    → has_char (code d) s ≡ false
    → after (code d) (s <> String.◌∷◌ d t) ≡ t
unfolding after has_char
after-cons d String.[] t e =
    let same : eqb (code d) (code d) ≡ true = ground arith in rw (nil-append (String.◌∷◌ d t), same)
after-cons d (String.◌∷◌ c s) t e =
    let (here, rest) = ||_false (eqb (code c) (code d)) (has_char (code d) s) e in
    rw (cons-append c s (String.◌∷◌ d t), here, after-cons d s t rest)

split-cons :
    (d : Char) (s t : String)
    → has_char (code d) s ≡ false
    → split_at (code d) (s <> String.◌∷◌ d t) ≡ s ∷ split_at (code d) t
unfolding split_at has_char
split-cons d String.[] t e =
    let same : eqb (code d) (code d) ≡ true = ground arith in rw (nil-append (String.◌∷◌ d t), same)
split-cons d (String.◌∷◌ c s) t e =
    let (here, rest) = ||_false (eqb (code c) (code d)) (has_char (code d) s) e in
    rw (cons-append c s (String.◌∷◌ d t), here, split-cons d s t rest)

split-free : (d : ℕ) (s : String) → has_char d s ≡ false → split_at d s ≡ s ∷ []
unfolding split_at has_char
split-free d String.[] e = refl
split-free d (String.◌∷◌ c s) e =
    let (here, rest) = ||_false (eqb (code c) d) (has_char d s) e in rw (here, split-free d s rest)

-- A text of a pattern whose characters leave one out.
module _ (edge inner : ℕ → Bool) (d : ℕ) (edge_free : (c : ℕ) → edge c ≡ true → eqb c d ≡ false)
    (inner_free : (c : ℕ) → inner c ≡ true → eqb c d ≡ false) where
  tail-free : (n : ℕ) (s : String) → tail_of edge inner n (codes s) ≡ true → has_char d s ≡ false
  unfolding tail_of has_char
  tail-free n String.[] e = refl
  tail-free n (String.◌∷◌ c String.[]) e = rw (edge_free (code c) e)
  tail-free zero (String.◌∷◌ c (String.◌∷◌ b s)) e = cc
  tail-free (suc n) (String.◌∷◌ c (String.◌∷◌ b s)) e =
      let (here, rest) = &&_true _ _ e in
      rw (inner_free (code c) here) (tail-free n (String.◌∷◌ b s) rest)

  slug-free : (n : ℕ) (s : String) → slug edge inner n (codes s) ≡ true → has_char d s ≡ false
  unfolding slug has_char
  slug-free n String.[] e = refl
  slug-free n (String.◌∷◌ c s) e =
      let (here, rest) = &&_true _ _ e in rw (edge_free (code c) here) (tail-free n s rest)

owner-free : (s : String) → is_owner s ≡ true → has_char b'/' s ≡ false
unfolding is_owner
owner-free s = slug-free _ _ b'/' (λ c e. ground arith) (λ c e. ground arith) 37 s

repo-free : (s : String) → is_repo s ≡ true → has_char b'/' s ≡ false
unfolding is_repo
repo-free s = slug-free _ _ b'/' (λ c e. ground arith) (λ c e. ground arith) 98 s

tag-free : (s : String) → is_tag s ≡ true → has_char b'/' s ≡ false
unfolding is_tag
tag-free s = slug-free _ _ b'/' (λ c e. ground arith) (λ c e. ground arith) 62 s

record IsPlace (c : Coordinates) : Type 0 where
  owner : is_owner c.owner ≡ true
  repo : is_repo c.repo ≡ true
  tag : is_tag c.tag ≡ true

validate-IsPlace : (c : Coordinates) → Ensures (λ u. IsPlace c) (validate_coordinates c)
unfolding validate_coordinates
validate-IsPlace c = Ensures-refuse _ _ _ λ t1. Ensures-refuse _ _ _ λ t2.
    Ensures-refuse_last _ _ _ λ t3. record {
      owner = not-false _ ((||_false _ _ t1).0);
      repo = not-false _ ((||_false _ _ ((||_false _ _ ((||_false _ _ t2).0)).0)).0);
      tag = not-false _ ((||_false _ _ ((||_false _ _ t3).0)).0);
    }

-- The path of a release's downloads, one part at a time.
split-path :
    (c : Coordinates)
    → IsPlace c
    → split_at b'/' ("github.com/" <> download_path c)
      ≡ "github.com" ∷ c.owner ∷ c.repo ∷ "releases" ∷ "download" ∷ c.tag ∷ []
unfolding has_char
split-path c p =
    let host : split_at b'/' ("github.com" <> ("/" <> download_path c))
        ≡ "github.com" ∷ split_at b'/' (download_path c) =
      rw (cons-append "/" "" (download_path c), nil-append (download_path c))
        (split-cons "/" "github.com" (download_path c) refl) in
    let rest : String = c.repo <> ("/releases/download/" <> c.tag) in
    let owner : split_at b'/' (download_path c) ≡ c.owner ∷ split_at b'/' rest =
      rw (cons-append "/" "" rest, nil-append rest)
        (split-cons "/" c.owner rest (owner-free c.owner p.owner)) in
    let file : String = "releases/download/" <> c.tag in
    let repo : split_at b'/' rest ≡ c.repo ∷ split_at b'/' file =
      rw (cons-append "/" "releases/download/" c.tag)
        (split-cons "/" c.repo file (repo-free c.repo p.repo)) in
    let releases : split_at b'/' ("releases" <> ("/download/" <> c.tag))
        ≡ "releases" ∷ split_at b'/' ("download/" <> c.tag) =
      rw (cons-append "/" "download/" c.tag)
        (split-cons "/" "releases" ("download/" <> c.tag) refl) in
    let download : split_at b'/' ("download" <> ("/" <> c.tag)) ≡ "download" ∷ split_at b'/' c.tag =
      rw (cons-append "/" "" c.tag, nil-append c.tag) (split-cons "/" "download" c.tag refl) in
    let tag : split_at b'/' c.tag ≡ c.tag ∷ [] = split-free b'/' c.tag (tag-free c.tag p.tag) in
    let whole : "github.com/" <> download_path c ≡ "github.com" <> ("/" <> download_path c) =
      append_assoc "github.com" "/" (download_path c) in
    let named : "releases/download/" <> c.tag ≡ "releases" <> ("/download/" <> c.tag) =
      append_assoc "releases" "/download/" c.tag in
    let saved : "download/" <> c.tag ≡ "download" <> ("/" <> c.tag) =
      append_assoc "download" "/" c.tag in
    ap (split_at b'/') whole
    ∙ host
    ∙ ap (λ l. "github.com" ∷ l)
        (owner
          ∙ ap (λ l. c.owner ∷ l)
              (repo
                ∙ ap (λ l. c.repo ∷ l)
                    (ap (split_at b'/') named
                      ∙ releases
                      ∙ ap (λ l. "releases" ∷ l)
                          (ap (split_at b'/') saved ∙ download ∙ ap (λ l. "download" ∷ l) tag))))

coordinates-place :
    (c : Coordinates)
    → IsPlace c
    → coordinates_of ("github.com" ∷ c.owner ∷ c.repo ∷ "releases" ∷ "download" ∷ c.tag ∷ [])
      ≡ some c
unfolding coordinates_of
coordinates-place c p = rw (p.owner, p.repo, p.tag)

-- A source with the scheme and the locator.
coordinates-source :
    (s locator : String) (c : Coordinates)
    → s ≡ "https:" <> locator
    → github_release_coordinates (after b':' s) ≡ some c
    → source_coordinates s ≡ some c
unfolding source_coordinates
coordinates-source s locator c e found =
    ap (λ b. if b then github_release_coordinates (after b':' s) else none)
      (ap (λ x. starts_with x "https:") e ∙ starts_with-append "https:" locator)
    ∙ found

-- For a place that the publisher accepts, the configuration reads the source of the release that it
-- returns as that very place.
pub source_roundtrip :
    (c : Coordinates) (i : ℤ) (ps : List Prepared) (already : Bool)
    → validate_coordinates c ≡ ok tt
    → source_coordinates (result c i ps already).source ≡ some c
unfolding result github_release_coordinates has_char
source_roundtrip c i ps already valid =
    let p = (validate-IsPlace c).holds tt valid in
    let rest : String = "github.com/" <> download_path c in
    let whole : "https:github.com/" <> download_path c
        ≡ "https" <> (":github.com/" <> download_path c) =
      append_assoc "https" ":github.com/" (download_path c) in
    let colon : ":github.com/" <> download_path c ≡ String.◌∷◌ ":" rest =
      cons-append ":" "github.com/" (download_path c) in
    let source = whole ∙ ap (λ s. "https" <> s) colon in
    coordinates-source _ rest c (append_assoc "https:" "github.com/" (download_path c)) (
      ap coordinates_of (
        ap (split_at b'/') (ap (after b':') source ∙ after-cons ":" "https" rest refl)
        ∙ split-path c p)
      ∙ coordinates-place c p)
