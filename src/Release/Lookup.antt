-- ===== src/Release/Lookup.antt =====
-- github_release.py: the repository, the release of the tag, and the draft.
use mt.Base.{
  ℕ, zero, suc, ◌+◌, String, ◌<>◌, Bool, true, false, ◌||◌, not, Option, none, some, List, [], ◌∷◌,
  ◌++◌, length, ℤ, pos, int_eqb, ltb, ◌==◌, if◌then◌else◌,
}
use mt.Json.{Value, str, Fields, get, eq_text}
use mt.Errors.{exception}
use mt.System.{pure, raise, raise_if, lift, ◌>>=◌, ◌>>◌}
use mt.Config.Source.{Coordinates}
use mt.Release.Wire.{
  Services, G, repository, enable_immutable, read_immutable, release_of_tag, releases, create_draft,
  request, expect, object, array, objects, positive_id, count, is_true, is_false,
}

-- `isinstance(v, str) and v.casefold() == s.casefold()`
abbrev pub same_folded : (String → String) → Value → String → Bool
same_folded fold (str t) s = fold t == fold s
same_folded fold _ s = false

-- The releases with the tag, in their order.
unfoldable pub tagged : String → List Fields → List Fields
tagged tag [] = []
tagged tag (r ∷ l) =
    let rest = tagged tag l in if eq_text (get "tag_name" r) tag then r ∷ rest else rest

abbrev pub first : List Fields → Option Fields
first [] = none
first (r ∷ l) = some r

-- The metadata that `_validate_draft_release` and `_validate_published_release` ask for.
abbrev pub is_draft : String → Fields → Bool
is_draft tag r = not (
    not (eq_text (get "tag_name" r) tag)
    || not (is_true (get "draft" r))
    || not (is_false (get "prerelease" r))
    || not (is_false (get "immutable" r)))

abbrev pub is_published : String → Fields → Bool
is_published tag r = not (
    not (eq_text (get "tag_name" r) tag)
    || not (is_false (get "draft" r))
    || not (is_false (get "prerelease" r))
    || not (is_true (get "immutable" r)))

unfoldable pub validate_draft_release : {W : Type 0} → Coordinates → Fields → G W ℤ
validate_draft_release c r = do
  i ← lift (positive_id (get "id" r))
  raise_if (not (is_draft c.tag r)) exception "GitHub draft release metadata mismatch"
  pure i

unfoldable pub validate_published_release : {W : Type 0} → Coordinates → Fields → G W ℤ
validate_published_release c r = do
  i ← lift (positive_id (get "id" r))
  raise_if (not (is_published c.tag r)) exception "GitHub published release is not proven immutable"
  pure i

module _ {W : Type 0} (v : Services W) (c : Coordinates) where
  unfoldable pub verify_public_repository : G W (Unit {0})
  verify_public_repository = do
    r ← request v c repository
    expect r (pos 200 ∷ []) "repository verification"
    d ← lift (object r.content)
    raise_if (not (is_false (get "private" d))) exception "GitHub repository is not proven public"
    raise_if (not (same_folded v.casefold (get "full_name" d) (c.owner <> ("/" <> c.repo))))
        exception "GitHub repository identity mismatch"

  unfoldable pub enable_and_verify_immutability : G W (Unit {0})
  enable_and_verify_immutability = do
    enabled ← request v c enable_immutable
    expect enabled (pos 204 ∷ []) "immutable-release enablement"
    r ← request v c read_immutable
    expect r (pos 200 ∷ []) "immutable-release verification"
    d ← lift (object r.content)
    raise_if (not (is_true (get "enabled" d))) exception
        "GitHub immutable releases are not proven enabled"

  -- One page of releases: those with the tag, and whether the page is full.
  unfoldable pub release_page : ℕ → G W (List Fields × Bool)
  release_page page = do
    r ← request v c (releases page)
    expect r (pos 200 ∷ []) "draft release lookup"
    items ← lift (array r.content)
    found ← lift (objects items)
    pure (tagged c.tag found, not (ltb (count items) 100))

  abbrev pub more_releases :
      (List Fields → G W (List Fields)) → List Fields → List Fields × Bool → G W (List Fields)
  more_releases again matches (found, true) = again (matches ++ found)
  more_releases again matches (found, false) = pure (matches ++ found)

  -- The pages that are left, from a page on.
  unfoldable pub release_pages : ℕ → ℕ → List Fields → G W (List Fields)
  release_pages zero page matches =
      raise exception "GitHub release lookup exceeded the safe page limit"
  release_pages (suc left) page matches = do
    r ← release_page page
    more_releases (release_pages left (page + 1)) matches r

  unfoldable pub search_releases : G W (Option Fields)
  search_releases = do
    matches ← release_pages 100 1 []
    raise_if (ltb 1 (length matches)) exception "GitHub release tag is ambiguous"
    pure (first matches)

  unfoldable pub find_release : G W (Option Fields)
  find_release = do
    direct ← request v c release_of_tag
    expect direct (pos 200 ∷ pos 404 ∷ []) "release lookup"
    if int_eqb direct.status (pos 200)
        then (do d ← lift (object direct.content); pure (some d))
        else search_releases

  unfoldable pub draft_created : G W Fields
  draft_created = do
    r ← request v c create_draft
    expect r (pos 201 ∷ []) "draft release creation"
    lift (object r.content)

  -- `self._create_draft() if existing is None else existing`
  unfoldable pub draft_of : Option Fields → G W Fields
  draft_of none = draft_created
  draft_of (some r) = pure r
