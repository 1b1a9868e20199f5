-- ===== src/Release/Publish.antt =====
-- github_release.py: `publish`.
use mt.Base.{
  String, ◌<>◌, Bool, true, false, ◌||◌, not, Option, none, some, List, [], ◌∷◌, ℤ, pos, int_eqb,
  if◌then◌else◌,
}
use mt.Json.{Fields, Python, get, eq_text}
use mt.Errors.{exception}
use mt.System.{pure, raise_if, lift, ◌>>=◌, ◌>>◌}
use mt.Config.Source.{Coordinates}
use mt.Release.Wire.{
  Services, G, publish_draft, release_of, request, expect, object, positive_id, is_false,
}
use mt.Release.Prepare.{Prepared, prepare_assets}
use mt.Release.Lookup.{
  verify_public_repository, enable_and_verify_immutability, find_release, draft_of,
  validate_draft_release, validate_published_release,
}
use mt.Release.Assets.{verify_asset_set, list_assets, upload_missing}

pub record PublishedAsset : Type 0 where
  pub name : String
  pub size : ℤ
  pub digest : String
  pub download_url : String

pub record PublishedRelease : Type 0 where
  pub place : Coordinates
  pub release_id : ℤ
  pub source : String
  pub html_url : String
  pub assets : List PublishedAsset
  pub already_published : Bool

-- `owner/repo/releases/download/tag`
abbrev pub download_path : Coordinates → String
download_path c = c.owner <> ("/" <> (c.repo <> ("/releases/download/" <> c.tag)))

unfoldable pub published_assets : String → List Prepared → List PublishedAsset
published_assets prefix [] = []
published_assets prefix (a ∷ l) =
    record {
      name = a.name;
      size = a.size;
      digest = a.digest;
      download_url = prefix <> ("/" <> a.name);
    }
    ∷ published_assets prefix l

-- `_result`
unfoldable pub result : Coordinates → ℤ → List Prepared → Bool → PublishedRelease
result c i assets already = record {
  place = c;
  release_id = i;
  source = "https:github.com/" <> download_path c;
  html_url = "https://github.com/" <> (c.owner <> ("/" <> (c.repo <> ("/releases/tag/" <> c.tag))));
  assets = published_assets ("https://github.com/" <> download_path c) assets;
  already_published = already;
}

-- `existing is not None and existing.get("draft") is False`
abbrev pub published_before : Option Fields → Option Fields
published_before none = none
published_before (some r) = if is_false (get "draft" r) then some r else none

module _ {W : Type 0} (v : Services W) (py : Python) (c : Coordinates) where
  unfoldable pub draft_published : ℤ → G W (Unit {0})
  draft_published i = do
    r ← request v c (publish_draft i)
    expect r (pos 200 ∷ []) "draft release publication"
    d ← lift (object r.content)
    j ← lift (positive_id (get "id" d))
    raise_if
        (not (int_eqb j i)
          || not (eq_text (get "tag_name" d) c.tag)
          || not (is_false (get "draft" d))
          || not (is_false (get "prerelease" d)))
        exception "GitHub publication response mismatch"

  -- The assets of a release, which are all there.
  unfoldable pub listed_complete : ℤ → List Prepared → G W (List Fields)
  listed_complete i prepared = do
    listed ← list_assets v c i
    lift (verify_asset_set py listed prepared true)
    pure listed

  unfoldable pub confirm : List Prepared → Fields → G W PublishedRelease
  confirm prepared existing = do
    i ← validate_published_release c existing
    listed_complete i prepared
    pure (result c i prepared true)

  -- The steps on a draft: the missing uploads, the publication, and the final proof.
  unfoldable pub publish_release : List Prepared → ℤ → G W PublishedRelease
  publish_release prepared i = do
    listed ← list_assets v c i
    present ← lift (verify_asset_set py listed prepared false)
    upload_missing v c py i present prepared
    listed_complete i prepared
    draft_published i
    r ← request v c (release_of i)
    expect r (pos 200 ∷ []) "release verification"
    d ← lift (object r.content)
    j ← validate_published_release c d
    raise_if (not (int_eqb j i)) exception "GitHub release identity mismatch"
    listed_complete i prepared
    pure (result c i prepared false)

  abbrev pub settled : List Prepared → Option Fields → Option Fields → G W PublishedRelease
  settled prepared existing (some r) = confirm prepared r
  settled prepared existing none = do
    d ← draft_of v c existing
    i ← validate_draft_release c d
    publish_release prepared i

  unfoldable pub settle_release : List Prepared → Option Fields → G W PublishedRelease
  settle_release prepared existing = settled prepared existing (published_before existing)

  -- `publish`
  unfoldable pub publish : List (String × String) → G W PublishedRelease
  publish assets = do
    prepared ← prepare_assets v assets
    verify_public_repository v c
    enable_and_verify_immutability v c
    existing ← find_release v c
    settle_release prepared existing
