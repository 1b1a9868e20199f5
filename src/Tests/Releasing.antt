-- ===== src/Tests/Releasing.antt =====
-- The theorems about the publication of a release at one release with one asset.
use mt.Base.{
  ℕ, zero, suc, ◌+◌, String, Bool, true, false, ◌≡◌, refl, ◌⊎◌, Option, none, some, List, [], ◌∷◌,
  ℤ, pos, ◌==◌, before, after, sorted_set,
}
use mt.Json.{Value, null, bool, int, str, list, dict, nil, cons, Fields, end, field}
use mt.Errors.{Result, ok}
use mt.System.{Sys}
use mt.Protected.{Metadata}
use mt.Config.Source.{Coordinates, source_coordinates}
use mt.Release.Wire.{Services, Response, Wire}
use mt.Release.Coordinates.{validate_coordinates}
use mt.Release.Prepare.{Prepared, keys, prepare_assets}
use mt.Release.Assets.{asset_names, verify_asset_set}
use mt.Release.Publish.{PublishedRelease, result, publish}
use mt.Release.Careful.{IsUnpublished, Careful, publish-Careful}
use mt.Release.Complete.{IsExact, verify_asset_set-IsExact}
use mt.Release.Proven.{IsProven, publish-IsProven}
use mt.Release.Source.{source_roundtrip}
use mt.Tests
use mt.Tests.{clean}

abbrev place : Coordinates
place = record { owner = "vandungtech"; repo = "mt92"; tag = "round-1" }

abbrev answer : ℕ → Value → Option Response
answer n v = some (record { status = pos n; content = v })

abbrev release : Bool → Bool → Value
release draft immutable = dict (
    field "id" (int (pos 7)) (
      field "tag_name" (str "round-1") (
        field "draft" (bool draft)
          (field "prerelease" (bool false) (field "immutable" (bool immutable) end)))))

abbrev asset : Fields
asset = field "name" (str "a.bin") (
    field "size" (int (pos 3))
      (field "state" (str "uploaded") (field "digest" (str "sha256:00") end)))

-- What the service answers, in the order of the requests.
abbrev answers : List (Option Response)
answers =
    answer 200
      (dict (field "private" (bool false) (field "full_name" (str "vandungtech/mt92") end)))
    ∷ answer 204 null
    ∷ answer 200 (dict (field "enabled" (bool true) end))
    ∷ answer 404 null
    ∷ answer 200 (list nil)
    ∷ answer 201 (release true false)
    ∷ answer 200 (list nil)
    ∷ answer 201 (dict asset)
    ∷ answer 200 (list (cons (dict asset) nil))
    ∷ answer 200 (release false false)
    ∷ answer 200 (release false true)
    ∷ answer 200 (list (cons (dict asset) nil))
    ∷ []

abbrev next : List (Option Response) → Option Response × List (Option Response)
next [] = (none, [])
next (a ∷ l) = (a, l)

abbrev metadata : Metadata
metadata = record {
  device = 1;
  inode = 2;
  mode = 33188;
  uid = 0;
  gid = 0;
  links = 1;
  size = pos 3;
  modified = pos 9;
  changed = pos 9;
}

abbrev services : Services (List (Option Response))
services = record {
  send = λ m p d w. next w;
  send_asset = λ i n t z w. next w;
  is_symlink = λ p w. (some false, w);
  open_asset = λ n p w. (some metadata, w);
  hash_asset = λ n w. (some (record { total = pos 3; hex = "00"; after = metadata }), w);
  rewind = λ n w. (some tt, w);
  stat_stream = λ n w. (some metadata, w);
  tell = λ n w. (some (pos 3), w);
  casefold = λ s. s;
  quote = λ s. s;
  guess_type = λ s. none;
}

abbrev prepared : Prepared
prepared = record {
  name = "a.bin";
  size = pos 3;
  digest = "sha256:00";
  content_type = "application/octet-stream";
  metadata = metadata;
}

abbrev assets : List (String × String)
assets = ("a.bin", "/artifact/a.bin") ∷ []

abbrev before_publish : Sys (Wire (List (Option Response)))
before_publish = record {
  files = clean.files;
  world = record { outer = answers; sent = [] };
  events = [];
}

abbrev published : Result PublishedRelease × Sys (Wire (List (Option Response)))
published = publish services Tests.py place assets before_publish

publishes_draft :
    (published ≡ (ok (result place (pos 7) (prepared ∷ []) false), published.1))
    × (validate_coordinates place ≡ ok tt)
    × (verify_asset_set Tests.py (asset ∷ []) (prepared ∷ []) true ≡ ok ("a.bin" ∷ []))
unfolding mt.Base.contains mt.Base.ends_with_lower mt.Base.eq_lower mt.Base.has_text
    mt.Base.lower_code mt.Base.show_int mt.Base.sorted_set mt.Config.Source.is_filename
    mt.Config.Source.is_owner mt.Config.Source.is_repo mt.Config.Source.is_tag mt.Config.Source.slug
    mt.Config.Source.tail_of mt.Errors.refuse_if mt.Errors.want mt.Errors.◌>>=◌ mt.Json.get
    mt.Release.Assets.asset_names mt.Release.Assets.asset_page mt.Release.Assets.asset_pages
    mt.Release.Assets.find_asset mt.Release.Assets.list_assets mt.Release.Assets.send_asset
    mt.Release.Assets.subset mt.Release.Assets.upload mt.Release.Assets.upload_missing
    mt.Release.Assets.verify_all_listed mt.Release.Assets.verify_asset
    mt.Release.Assets.verify_asset_set mt.Release.Assets.verify_listed
    mt.Release.Coordinates.validate_coordinates mt.Release.Lookup.draft_created
    mt.Release.Lookup.draft_of mt.Release.Lookup.enable_and_verify_immutability
    mt.Release.Lookup.find_release mt.Release.Lookup.release_page mt.Release.Lookup.release_pages
    mt.Release.Lookup.search_releases mt.Release.Lookup.tagged
    mt.Release.Lookup.validate_draft_release mt.Release.Lookup.validate_published_release
    mt.Release.Lookup.verify_public_repository mt.Release.Prepare.any_bad mt.Release.Prepare.keys
    mt.Release.Prepare.path_of mt.Release.Prepare.prepare_all mt.Release.Prepare.prepare_assets
    mt.Release.Prepare.prepare_one mt.Release.Prepare.repeats mt.Release.Prepare.same_print
    mt.Release.Publish.confirm mt.Release.Publish.draft_published mt.Release.Publish.listed_complete
    mt.Release.Publish.publish mt.Release.Publish.publish_release
    mt.Release.Publish.published_assets mt.Release.Publish.result mt.Release.Publish.settle_release
    mt.Release.Wire.array mt.Release.Wire.count mt.Release.Wire.endpoint mt.Release.Wire.expect
    mt.Release.Wire.method mt.Release.Wire.noted mt.Release.Wire.object mt.Release.Wire.objects
    mt.Release.Wire.on_disk mt.Release.Wire.or_raise mt.Release.Wire.payload
    mt.Release.Wire.positive_id mt.Release.Wire.repo_path mt.Release.Wire.request
    mt.Release.Wire.status_in mt.System.lift mt.System.observe mt.System.pure mt.System.raise
    mt.System.raise_if mt.System.◌>>=◌
publishes_draft = (refl, refl, refl)

publish-IsProven_example :
    (ps : List Prepared) × (asset_names ps ≡ sorted_set (keys assets))
    × IsProven Tests.py place ps (result place (pos 7) (prepared ∷ []) false) published.1.world.sent
publish-IsProven_example =
    publish-IsProven services Tests.py place assets before_publish published.1
      (result place (pos 7) (prepared ∷ []) false) publishes_draft.0

publish-Careful_example :
    IsUnpublished published.1.world.sent
    ⊎ ((ps : List Prepared) × (t : Sys (Wire (List (Option Response)))) × (prepare_assets services
            assets before_publish
          ≡ (ok ps, t))
        × Careful Tests.py ps published.1.world.sent)
publish-Careful_example = publish-Careful services Tests.py place assets before_publish tt

source_roundtrip_example : source_coordinates (result place (pos 7) [] false).source ≡ some place
source_roundtrip_example = source_roundtrip place (pos 7) [] false publishes_draft.1

verify_asset_set-IsExact_example : IsExact Tests.py (prepared ∷ []) (asset ∷ [])
verify_asset_set-IsExact_example =
    verify_asset_set-IsExact Tests.py (asset ∷ []) (prepared ∷ []) ("a.bin" ∷ []) publishes_draft.2
