-- ===== src/Release/Assets.antt =====
-- github_release.py: the assets of a release, their comparison with the prepared ones, and the upload.
use mt.Base.{
  ℕ, zero, suc, ◌+◌, String, Bool, true, false, ◌&&◌, ◌||◌, not, Option, none, some, List, [], ◌∷◌,
  ◌++◌, ℤ, pos, int_eqb, ltb, ◌==◌, contains, if◌then◌else◌,
}
use mt.Json.{Value, null, bool, Fields, Python, get, eq_text, eq_int, as_text}
use mt.Errors
use mt.Errors.{exception, Result, ok, refuse_if, want}
use mt.System.{pure, raise, raise_if, lift, ◌>>=◌, ◌>>◌}
use mt.Config.Source.{Coordinates}
use mt.Release.Wire.{
  Services, Response, G, assets_of, uploaded, request, noted, on_disk, or_raise, expect, object,
  array, objects, count,
}
use mt.Release.Prepare.{Prepared, same_print}

abbrev pub is_bool : Value → Bool
is_bool (bool b) = true
is_bool _ = false

abbrev pub is_null : Value → Bool
is_null null = true
is_null _ = false

unfoldable pub find_asset : String → List Prepared → Option Prepared
find_asset n [] = none
find_asset n (a ∷ l) = if a.name == n then some a else find_asset n l

unfoldable pub asset_names : List Prepared → List String
asset_names [] = []
asset_names (a ∷ l) = a.name ∷ asset_names l

unfoldable pub subset : List String → List String → Bool
subset [] m = true
subset (s ∷ l) m = contains s m && subset l m

module _ (py : Python) where
  -- `_verify_asset`
  unfoldable pub verify_asset : Fields → Prepared → Result (Unit {0})
  verify_asset raw a =
      Errors.◌>>=◌
        (refuse_if
          (not (eq_text (get "name" raw) a.name)
            || is_bool (get "size" raw)
            || not (eq_int py (get "size" raw) a.size)
            || not (eq_text (get "state" raw) "uploaded"))
          exception "GitHub release asset metadata mismatch")
        λ _.
          refuse_if (not (is_null (get "digest" raw)) && not (eq_text (get "digest" raw) a.digest))
            exception "GitHub release asset digest mismatch"

  abbrev pub unexpected : String
  unexpected = "GitHub release contains an unexpected asset"

  -- One listed asset: its name, which is new and expected.
  unfoldable pub verify_listed : List Prepared → List String → Fields → Result String
  unfolding verify_asset
  verify_listed expected present raw =
      Errors.◌>>=◌ (want (as_text (get "name" raw)) exception unexpected) λ name.
        Errors.◌>>=◌ (refuse_if (contains name present) exception unexpected) λ _.
          Errors.◌>>=◌ (want (find_asset name expected) exception unexpected)
            λ a. Errors.◌>>=◌ (verify_asset raw a) λ _. ok name

  unfoldable pub verify_all_listed :
      List Prepared → List String → List Fields → Result (List String)
  verify_all_listed expected present [] = ok present
  verify_all_listed expected present (raw ∷ l) =
      Errors.◌>>=◌ (verify_listed expected present raw)
        λ name. verify_all_listed expected (name ∷ present) l

  -- `_verify_asset_set`
  unfoldable pub verify_asset_set : List Fields → List Prepared → Bool → Result (List String)
  verify_asset_set raw expected complete =
      Errors.◌>>=◌ (verify_all_listed expected [] raw) λ present.
        Errors.◌>>=◌
          (refuse_if
            (complete
              && not
                  (subset present (asset_names expected) && subset (asset_names expected) present))
            exception "GitHub release asset set is incomplete")
          λ _. ok present

module _ {W : Type 0} (v : Services W) (c : Coordinates) where
  -- One page of assets, and whether it is full.
  unfoldable pub asset_page : ℤ → ℕ → G W (List Fields × Bool)
  asset_page i page = do
    r ← request v c (assets_of i page)
    expect r (pos 200 ∷ []) "release asset lookup"
    items ← lift (array r.content)
    found ← lift (objects items)
    pure (found, not (ltb (count items) 100))

  abbrev pub more_assets :
      (List Fields → G W (List Fields)) → List Fields → List Fields × Bool → G W (List Fields)
  more_assets again assets (found, true) = again (assets ++ found)
  more_assets again assets (found, false) = pure (assets ++ found)

  unfoldable pub asset_pages : ℤ → ℕ → ℕ → List Fields → G W (List Fields)
  asset_pages i zero page assets =
      raise exception "GitHub asset lookup exceeded the safe page limit"
  asset_pages i (suc left) page assets = do
    r ← asset_page i page
    more_assets (asset_pages i left (page + 1)) assets r

  -- `_list_assets`
  unfoldable pub list_assets : ℤ → G W (List Fields)
  list_assets i = asset_pages i 100 1 []

  -- The part of `_upload` whose exceptions are all one.
  unfoldable pub send_asset : ℤ → Prepared → G W Response
  send_asset i a = do
    let failed : String = "GitHub transport failed during asset upload"
    seen ← on_disk (v.stat_stream a.name)
    now ← or_raise failed seen
    raise_if (not (same_print now a.metadata)) exception failed
    rewound ← on_disk (v.rewind a.name)
    or_raise failed rewound
    answer ← noted (uploaded i a.name) (v.send_asset i a.name a.content_type a.size)
    or_raise failed answer

  -- `_upload`
  unfoldable pub upload : Python → ℤ → Prepared → G W (Unit {0})
  upload py i a = do
    let changed : String = "GitHub release asset changed during upload"
    r ← send_asset i a
    expect r (pos 201 ∷ []) "release asset upload"
    d ← lift (object r.content)
    lift (verify_asset py d a)
    told ← on_disk (v.tell a.name)
    position ← or_raise "OSError" told
    raise_if (not (int_eqb position a.size)) exception changed
    seen ← on_disk (v.stat_stream a.name)
    now ← or_raise "OSError" seen
    raise_if (not (same_print now a.metadata)) exception changed

  -- The uploads of what is not there yet.
  unfoldable pub upload_missing : Python → ℤ → List String → List Prepared → G W (Unit {0})
  upload_missing py i present [] = pure tt
  upload_missing py i present (a ∷ l) = do
    if contains a.name present then pure tt else upload py i a
    upload_missing py i present l
