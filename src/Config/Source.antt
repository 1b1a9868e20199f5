-- ===== src/Config/Source.antt =====
-- config.py: `source_for` and `github_release_coordinates`.
use Prim.Native.Nat.{zero, suc}
use mt.Base.{
  starts_with, ℕ, String, ◌<>◌, Bool, true, false, ◌&&◌, ◌||◌, not, Option, none, some, List, [],
  ◌∷◌, ℤ, pos, int_ltb, leb, eqb, ◌==◌, codes, show_int, is_space, before, after, has_char,
  any_char, split_at, has_text, ends_with_lower, if◌then◌else◌,
}
use mt.Errors.{config, exception, Result, ok, refuse_if, want, ◌>>=◌, ◌>>◌}
use mt.Config.{Config}
use mt.Config.Template.{Arguments, format}

abbrev pub digit_or_lower : ℕ → Bool
digit_or_lower c = leb b'0' c && leb c b'9' || leb b'a' c && leb c b'z'

abbrev pub alnum : ℕ → Bool
alnum c = digit_or_lower c || leb b'A' c && leb c b'Z'

-- `(?:[class]{0,n}[edge])?`, to the end.
unfoldable pub tail_of : (ℕ → Bool) → (ℕ → Bool) → ℕ → List ℕ → Bool
tail_of edge inner n [] = true
tail_of edge inner n (c ∷ []) = edge c
tail_of edge inner zero (c ∷ d ∷ s) = false
tail_of edge inner (suc n) (c ∷ d ∷ s) = inner c && tail_of edge inner n (d ∷ s)

-- `edge(?:[class]{0,n}[edge])?`
unfoldable pub slug : (ℕ → Bool) → (ℕ → Bool) → ℕ → List ℕ → Bool
slug edge inner n [] = false
slug edge inner n (c ∷ s) = edge c && tail_of edge inner n s

abbrev pub word_like : ℕ → Bool
word_like c = alnum c || eqb c b'.' || eqb c b'_' || eqb c b'-'

unfoldable pub is_owner : String → Bool
unfolding slug tail_of
is_owner s = slug alnum (λ c. alnum c || eqb c b'-') 37 (codes s)

unfoldable pub is_repo : String → Bool
unfolding slug tail_of
is_repo s = slug alnum word_like 98 (codes s)

unfoldable pub is_tag : String → Bool
unfolding slug tail_of
is_tag s = slug alnum word_like 62 (codes s)

-- `_FILENAME` of github_release.py
unfoldable pub is_filename : String → Bool
unfolding slug tail_of
is_filename s = slug alnum word_like 126 (codes s)

pub record Coordinates : Type 0 where
  pub owner : String
  pub repo : String
  pub tag : String

-- The segments of `github.com/OWNER/REPO/releases/download/TAG`.
unfoldable pub coordinates_of : List String → Option Coordinates
coordinates_of (host ∷ owner ∷ repo ∷ releases ∷ download ∷ tag ∷ []) =
    if host == "github.com"
      && is_owner owner
      && is_repo repo
      && releases == "releases"
      && download == "download"
      && is_tag tag
    then some (record { owner = owner; repo = repo; tag = tag })
    else none
coordinates_of _ = none

-- `github_release_coordinates`, of a source whose scheme is `https`: its locator.
unfoldable pub github_release_coordinates : String → Option Coordinates
unfolding coordinates_of
github_release_coordinates locator = coordinates_of (split_at b'/' locator)

-- The same of a whole source.
unfoldable pub source_coordinates : String → Option Coordinates
source_coordinates source =
    if starts_with source "https:" then github_release_coordinates (after b':' source) else none

-- At least three characters.
three : List ℕ → Bool
three (a ∷ b ∷ c ∷ l) = true
three _ = false

-- `[a-z0-9][a-z0-9.-]{1,61}[a-z0-9]`
unfoldable pub is_bucket : String → Bool
unfolding slug tail_of three
is_bucket s =
    slug digit_or_lower (λ c. digit_or_lower c || eqb c b'.' || eqb c b'-') 61 (codes s)
    && three (codes s)

abbrev is_dots : String → Bool
is_dots s = s == "" || s == "." || s == ".."

unfoldable pub any_dots : List String → Bool
any_dots [] = false
any_dots (s ∷ l) = is_dots s || any_dots l

abbrev pub is_delimiter : ℕ → Bool
is_delimiter c = eqb c b'|' || is_space c || eqb c b'?' || eqb c b'#' || eqb c b'@' || eqb c 92

-- A GitHub release, in the one authorized repository.
unfoldable pub check_release : String → String → Result String
check_release rendered locator = do
  g ←
      want (github_release_coordinates locator) config
        "https sources must be github.com/OWNER/REPO/releases/download/TAG"
  refuse_if (not (g.owner <> "/" <> g.repo == "vandungtech/mt92")) config
      "GitHub release source is not the authorized vandungtech/mt92 repository"
  refuse_if
      (has_text "--" g.owner
        || ends_with_lower g.repo ".git"
        || has_text ".." g.tag
        || ends_with_lower g.tag ".lock")
      config "rendered GitHub release source is invalid"
  ok rendered

-- A prefix in a bucket.
unfoldable pub check_bucket : String → String → String → Result String
check_bucket rendered scheme locator = do
  refuse_if (not (scheme == "s3" || scheme == "r2")) config
      "rendered source scheme is not supervised"
  let bucket = before b'/' locator
  let prefix = after b'/' locator
  refuse_if (not (has_char b'/' locator) || bucket == "" || prefix == "" || has_text "//" locator)
      config "rendered object-store source must be bucket/non-empty-prefix"
  refuse_if (not (is_bucket bucket)) config "rendered object-store bucket name is invalid"
  refuse_if (any_dots (split_at b'/' prefix)) config
      "rendered object-store source contains an unsafe path component"
  ok rendered

unfoldable pub check_source : String → Result String
check_source rendered = do
  refuse_if (any_char is_delimiter rendered) config
      "rendered source contains a forbidden delimiter or credential marker"
  refuse_if (not (has_char b':' rendered)) config "rendered source has no scheme"
  let scheme = before b':' rendered
  let locator = after b':' rendered
  if scheme == "https" then check_release rendered locator else check_bucket rendered scheme locator

-- `source_for`. A template with other than plain fields was refused when it was loaded.
unfoldable pub source_for : Config → ℤ → String → Result String
source_for c round_index hotkey = do
  refuse_if (int_ltb round_index (pos 0)) config "round index must not be negative"
  let values : Arguments = record {
    round = show_int round_index;
    uid = show_int c.expected_uid;
    hotkey = hotkey;
  }
  rendered ← want (format values c.source_template) exception "KeyError"
  check_source rendered
