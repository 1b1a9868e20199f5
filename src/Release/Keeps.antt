-- ===== src/Release/Keeps.antt =====
-- github_release.py: what the requests of a publication leave true, but for the one that publishes.
use mt.Base.{
  int_eqb, pos, ℕ, zero, suc, ◌+◌, String, Bool, true, false, ◌≡◌, refl, Option, none, some, List,
  [], ◌∷◌, ℤ, contains,
}
use mt.Json.{Fields, Python}
use mt.System.{Sys, pure, raise, lift, observe}
use mt.System.Rules.{
  Keeps, Keeps-pure, Keeps-raise, Keeps-lift, Keeps-if, Keeps-raise_if, Keeps-bind,
}
use mt.Config.Source.{Coordinates}
use mt.Release.Wire.{
  Services, Response, Request, publish_draft, Sent, asked, uploaded, Wire, G, noted, on_disk,
  or_raise, request, expect,
}
use mt.Release.Prepare.{Prepared, prepare_one, prepare_all, prepare_assets}
use mt.Release.Lookup.{
  verify_public_repository, enable_and_verify_immutability, release_page, more_releases,
  release_pages, search_releases, find_release, draft_created, draft_of, validate_draft_release,
  validate_published_release,
}
use mt.Release.Assets.{
  asset_page, more_assets, asset_pages, list_assets, send_asset, upload, upload_missing,
}
use mt.Release.Publish.{listed_complete, confirm}

abbrev pub is_publication : Request → Bool
is_publication (publish_draft i) = true
is_publication _ = false

-- The state after a call of the world.
abbrev pub moved : {W : Type 0} → Sys (Wire W) → W → Sys (Wire W)
moved s w = record s { world = record s.world { outer = w } }

abbrev pub grown : {W : Type 0} → Sys (Wire W) → W → Sent → Sys (Wire W)
grown s w e = record s { world = record { outer = w; sent = e ∷ s.world.sent } }

-- What no call but a publication makes false.
pub record IsTolerant {W : Type 0} (I : Sys (Wire W) → Type 0) : Type 0 where
  pub disk : (s : Sys (Wire W)) (w : W) → I s → I (moved s w)
  pub asks :
      (s : Sys (Wire W)) (w : W) (q : Request) (o : Option Response)
      → is_publication q ≡ false
      → I s
      → I (grown s w (asked q o))
  pub uploads :
      (s : Sys (Wire W)) (w : W) (i : ℤ) (n : String) (o : Option Response)
      → I s
      → I (grown s w (uploaded i n o))

module _ {W : Type 0} (I : Sys (Wire W) → Type 0) where
  pub noted-Keeps :
      (note : Option Response → Sent) (f : W → Option Response × W)
      → ((s : Sys (Wire W)) (w : W) (o : Option Response) → I s → I (grown s w (note o)))
      → Keeps I (noted note f)
  unfolding noted observe
  noted-Keeps note f k = record { at = λ s i. k s _ _ i }

  pub or_raise-Keeps : {A : Type 0} (t : String) (o : Option A) → Keeps I (or_raise t o)
  unfolding or_raise
  or_raise-Keeps t none = Keeps-raise _ _
  or_raise-Keeps t (some a) = Keeps-pure a

module _ {W : Type 0} (v : Services W) (c : Coordinates) (I : Sys (Wire W) → Type 0)
    (tolerant : IsTolerant I) where
  pub on_disk-Keeps : {A : Type 0} (f : W → A × W) → Keeps I (on_disk f)
  unfolding on_disk observe
  on_disk-Keeps f = record { at = λ s i. tolerant.disk s _ i }

  pub request-Keeps : (q : Request) → is_publication q ≡ false → Keeps I (request v c q)
  unfolding request
  request-Keeps q e =
      Keeps-bind (noted-Keeps I _ _ λ s w o i. tolerant.asks s w q o e i) (or_raise-Keeps I _)

  pub expect-Keeps : (r : Response) (l : List ℤ) (t : String) → Keeps I (expect r l t)
  unfolding expect
  expect-Keeps r l t = Keeps-raise_if _ _ _

  -- A call of the disk that must answer.
  tried-Keeps :
      {A : Type 0} (t : String) (f : W → Option A × W) {B : Type 0} {k : A → G W B}
      → ((a : A) → Keeps I (k a))
      → Keeps I (mt.System.◌>>=◌ (on_disk f) λ o. mt.System.◌>>=◌ (or_raise t o) k)
  tried-Keeps t f k = Keeps-bind (on_disk-Keeps f) λ o. Keeps-bind (or_raise-Keeps I t o) k

  prepare_one-Keeps : (name path : String) → Keeps I (prepare_one v name path)
  unfolding prepare_one
  prepare_one-Keeps name path = tried-Keeps _ _ λ linked. Keeps-bind (Keeps-raise_if _ _ _) λ _.
      tried-Keeps _ _ λ before. Keeps-bind (Keeps-raise_if _ _ _) λ _.
        Keeps-bind (Keeps-raise_if _ _ _) λ _.
          tried-Keeps _ _
            λ hashed. Keeps-bind (Keeps-raise_if _ _ _) λ _. tried-Keeps _ _ λ _. Keeps-pure _

  prepare_all-Keeps :
      (assets : List (String × String)) (l : List String) → Keeps I (prepare_all v assets l)
  unfolding prepare_all
  prepare_all-Keeps assets [] = Keeps-pure _
  prepare_all-Keeps assets (n ∷ l) =
      Keeps-bind (prepare_one-Keeps n _)
        λ a. Keeps-bind (prepare_all-Keeps assets l) λ rest. Keeps-pure _

  pub prepare_assets-Keeps : (assets : List (String × String)) → Keeps I (prepare_assets v assets)
  unfolding prepare_assets
  prepare_assets-Keeps assets = Keeps-bind (Keeps-raise_if _ _ _) λ _.
      Keeps-bind (Keeps-raise_if _ _ _)
        λ _. Keeps-bind (Keeps-raise_if _ _ _) λ _. prepare_all-Keeps assets _

  pub verify_public-Keeps : Keeps I (verify_public_repository v c)
  unfolding verify_public_repository
  verify_public-Keeps = Keeps-bind (request-Keeps _ refl) λ r. Keeps-bind (expect-Keeps _ _ _) λ _.
      Keeps-bind (Keeps-lift _) λ d. Keeps-bind (Keeps-raise_if _ _ _) λ _. Keeps-raise_if _ _ _

  pub enable-Keeps : Keeps I (enable_and_verify_immutability v c)
  unfolding enable_and_verify_immutability
  enable-Keeps = Keeps-bind (request-Keeps _ refl) λ r. Keeps-bind (expect-Keeps _ _ _) λ _.
      Keeps-bind (request-Keeps _ refl) λ q.
        Keeps-bind (expect-Keeps _ _ _) λ _. Keeps-bind (Keeps-lift _) λ d. Keeps-raise_if _ _ _

  release_page-Keeps : (page : ℕ) → Keeps I (release_page v c page)
  unfolding release_page
  release_page-Keeps page = Keeps-bind (request-Keeps _ refl) λ r.
      Keeps-bind (expect-Keeps _ _ _)
        λ _. Keeps-bind (Keeps-lift _) λ items. Keeps-bind (Keeps-lift _) λ found. Keeps-pure _

  more_releases-Keeps :
      (again : List Fields → G W (List Fields)) (l : List Fields)
      → ((m : List Fields) → Keeps I (again m))
      → (r : List Fields × Bool) → Keeps I (more_releases v c again l r)
  more_releases-Keeps again l k (found, true) = k _
  more_releases-Keeps again l k (found, false) = Keeps-pure _

  release_pages-Keeps : (left page : ℕ) (l : List Fields) → Keeps I (release_pages v c left page l)
  unfolding release_pages
  release_pages-Keeps zero page l = Keeps-raise _ _
  release_pages-Keeps (suc left) page l =
      Keeps-bind (release_page-Keeps page)
        λ r. more_releases-Keeps _ l (release_pages-Keeps left (page + 1)) r

  pub find_release-Keeps : Keeps I (find_release v c)
  unfolding find_release search_releases
  find_release-Keeps = Keeps-bind (request-Keeps _ refl) λ r. Keeps-bind (expect-Keeps _ _ _) λ _.
      Keeps-if (int_eqb r.status (pos 200)) (λ _. Keeps-bind (Keeps-lift _) λ d. Keeps-pure _)
        λ _.
          Keeps-bind (release_pages-Keeps 100 1 [])
            λ m. Keeps-bind (Keeps-raise_if _ _ _) λ _. Keeps-pure _

  pub draft_of-Keeps : (o : Option Fields) → Keeps I (draft_of v c o)
  unfolding draft_of draft_created
  draft_of-Keeps none =
      Keeps-bind (request-Keeps _ refl) λ r. Keeps-bind (expect-Keeps _ _ _) λ _. Keeps-lift _
  draft_of-Keeps (some r) = Keeps-pure _

  pub validate_draft-Keeps : (r : Fields) → Keeps I (validate_draft_release c r)
  unfolding validate_draft_release
  validate_draft-Keeps r =
      Keeps-bind (Keeps-lift _) λ i. Keeps-bind (Keeps-raise_if _ _ _) λ _. Keeps-pure _

  pub validate_published-Keeps : (r : Fields) → Keeps I (validate_published_release c r)
  unfolding validate_published_release
  validate_published-Keeps r =
      Keeps-bind (Keeps-lift _) λ i. Keeps-bind (Keeps-raise_if _ _ _) λ _. Keeps-pure _

  asset_page-Keeps : (i : ℤ) (page : ℕ) → Keeps I (asset_page v c i page)
  unfolding asset_page
  asset_page-Keeps i page = Keeps-bind (request-Keeps _ refl) λ r.
      Keeps-bind (expect-Keeps _ _ _)
        λ _. Keeps-bind (Keeps-lift _) λ items. Keeps-bind (Keeps-lift _) λ found. Keeps-pure _

  more_assets-Keeps :
      (again : List Fields → G W (List Fields)) (l : List Fields)
      → ((m : List Fields) → Keeps I (again m))
      → (r : List Fields × Bool) → Keeps I (more_assets v c again l r)
  more_assets-Keeps again l k (found, true) = k _
  more_assets-Keeps again l k (found, false) = Keeps-pure _

  asset_pages-Keeps :
      (i : ℤ) (left page : ℕ) (l : List Fields) → Keeps I (asset_pages v c i left page l)
  unfolding asset_pages
  asset_pages-Keeps i zero page l = Keeps-raise _ _
  asset_pages-Keeps i (suc left) page l =
      Keeps-bind (asset_page-Keeps i page)
        λ r. more_assets-Keeps _ l (asset_pages-Keeps i left (page + 1)) r

  pub list_assets-Keeps : (i : ℤ) → Keeps I (list_assets v c i)
  unfolding list_assets
  list_assets-Keeps i = asset_pages-Keeps i 100 1 []

  send_asset-Keeps : (i : ℤ) (a : Prepared) → Keeps I (send_asset v c i a)
  unfolding send_asset
  send_asset-Keeps i a = tried-Keeps _ _ λ now. Keeps-bind (Keeps-raise_if _ _ _) λ _.
      tried-Keeps _ _ λ _.
        Keeps-bind (noted-Keeps I _ _ λ s w o j. tolerant.uploads s w i a.name o j)
          (or_raise-Keeps I _)

  module _ (py : Python) where
    upload-Keeps : (i : ℤ) (a : Prepared) → Keeps I (upload v c py i a)
    unfolding upload
    upload-Keeps i a = Keeps-bind (send_asset-Keeps i a) λ r. Keeps-bind (expect-Keeps _ _ _) λ _.
        Keeps-bind (Keeps-lift _) λ d. Keeps-bind (Keeps-lift _) λ _. tried-Keeps _ _ λ position.
          Keeps-bind (Keeps-raise_if _ _ _) λ _. tried-Keeps _ _ λ now. Keeps-raise_if _ _ _

    pub upload_missing-Keeps :
        (i : ℤ) (present : List String) (l : List Prepared)
        → Keeps I (upload_missing v c py i present l)
    unfolding upload_missing
    upload_missing-Keeps i present [] = Keeps-pure tt
    upload_missing-Keeps i present (a ∷ l) =
        Keeps-bind (Keeps-if (contains a.name present) (λ _. Keeps-pure tt) λ _. upload-Keeps i a)
          λ _. upload_missing-Keeps i present l

    pub listed_complete-Keeps : (i : ℤ) (ps : List Prepared) → Keeps I (listed_complete v py c i ps)
    unfolding listed_complete
    listed_complete-Keeps i ps =
        Keeps-bind (list_assets-Keeps i) λ l. Keeps-bind (Keeps-lift _) λ _. Keeps-pure _

    pub confirm-Keeps : (ps : List Prepared) (r : Fields) → Keeps I (confirm v py c ps r)
    unfolding confirm
    confirm-Keeps ps r =
        Keeps-bind (validate_published-Keeps r)
          λ i. Keeps-bind (listed_complete-Keeps i ps) λ _. Keeps-pure _
