-- ===== src/Release/Wire.antt =====
-- github_release.py: requests, answers and the record of what was sent.
use mt.Base.{
  ℕ, String, ◌<>◌, Bool, true, false, ◌||◌, not, Option, none, some, List, [], ◌∷◌, ℤ, pos, int_ltb,
  int_eqb, show_int,
}
use mt.Json.{Value, bool, str, list, dict, Items, nil, cons, Fields, end, field, as_int}
use mt.Errors.{exception, Result, ok, fail, refuse_if, want, ◌>>=◌, ◌>>◌}
use mt.System
use mt.System.{M, pure, raise, raise_if, observe}
use mt.Protected.{Metadata}
use mt.Config.Source.{Coordinates}

-- `ApiResponse`
pub record Response : Type 0 where
  pub status : ℤ
  pub content : Value

-- What hashing a whole stream finds: the count of bytes, the digest, and the metadata behind it.
pub record Hashed : Type 0 where
  pub total : ℤ
  pub hex : String
  pub after : Metadata

-- The transport, the disk and the interpreter's texts. `none` is an exception, or an answer that is no
-- `ApiResponse`. An open stream goes by the name of its asset.
pub record Services (W : Type 0) : Type 0 where
  pub send : String → String → Option Fields → W → Option Response × W
  pub send_asset : ℤ → String → String → ℤ → W → Option Response × W
  pub is_symlink : String → W → Option Bool × W
  pub open_asset : String → String → W → Option Metadata × W
  pub hash_asset : String → W → Option Hashed × W
  pub rewind : String → W → Option (Unit {0}) × W
  pub stat_stream : String → W → Option Metadata × W
  pub tell : String → W → Option ℤ × W
  pub casefold : String → String
  pub quote : String → String
  pub guess_type : String → Option String

pub data Request : Type 0 where
  repository enable_immutable read_immutable release_of_tag create_draft : Request
  releases : ℕ → Request
  release_of publish_draft : ℤ → Request
  assets_of : ℤ → ℕ → Request

-- A request or an upload, with its answer.
pub data Sent : Type 0 where
  asked : Request → Option Response → Sent
  uploaded : ℤ → String → Option Response → Sent

pub record Wire (W : Type 0) : Type 0 where
  pub outer : W
  pub sent : List Sent

abbrev pub G : Type 0 → Type 0 → Type 0
G W A = M (Wire W) A

unfoldable pub method : Request → String
method enable_immutable = "PUT"
method create_draft = "POST"
method (publish_draft n) = "PATCH"
method _ = "GET"

unfoldable pub payload : Coordinates → Request → Option Fields
payload c create_draft = some (
    field "tag_name" (str c.tag) (
      field "name" (str c.tag) (
        field "draft" (bool true)
          (field "prerelease" (bool false) (field "generate_release_notes" (bool false) end)))))
payload c (publish_draft n) =
    some (field "draft" (bool false) (field "prerelease" (bool false) end))
payload c _ = none

abbrev pub page_of : ℕ → String
page_of n = "?per_page=100&page=" <> show_int (pos n)

-- A call that is noted with its answer.
unfoldable pub noted :
    {W : Type 0} → (Option Response → Sent) → (W → Option Response × W) → G W (Option Response)
noted note f =
    observe λ w. let (o, next) = f w.outer in (o, record w { outer = next; sent = note o ∷ w.sent })

-- A call of the disk.
unfoldable pub on_disk : {W A : Type 0} → (W → A × W) → G W A
on_disk f = observe λ w. let (a, next) = f w.outer in (a, record w { outer = next })

unfoldable pub or_raise : {W A : Type 0} → String → Option A → G W A
or_raise t none = raise exception t
or_raise t (some a) = pure a

module _ {W : Type 0} (v : Services W) (c : Coordinates) where
  unfoldable pub repo_path : String
  repo_path = "/repos/" <> (v.quote c.owner <> ("/" <> v.quote c.repo))

  unfoldable pub endpoint : Request → String
  unfolding repo_path
  endpoint repository = repo_path
  endpoint enable_immutable = repo_path <> "/immutable-releases"
  endpoint read_immutable = repo_path <> "/immutable-releases"
  endpoint release_of_tag = repo_path <> ("/releases/tags/" <> v.quote c.tag)
  endpoint create_draft = repo_path <> "/releases"
  endpoint (releases n) = repo_path <> ("/releases" <> page_of n)
  endpoint (release_of i) = repo_path <> ("/releases/" <> show_int i)
  endpoint (publish_draft i) = repo_path <> ("/releases/" <> show_int i)
  endpoint (assets_of i n) = repo_path <> ("/releases/" <> (show_int i <> ("/assets" <> page_of n)))

  -- `_request`
  unfoldable pub request : Request → G W Response
  request r =
      System.◌>>=◌ (noted (asked r) (v.send (method r) (endpoint r) (payload c r)))
        (or_raise "GitHub transport request failed")

unfoldable pub status_in : ℤ → List ℤ → Bool
status_in n [] = false
status_in n (m ∷ l) = int_eqb n m || status_in n l

-- `_expect`
unfoldable pub expect : {W : Type 0} → Response → List ℤ → String → G W (Unit {0})
expect r statuses operation =
    raise_if (not (status_in r.status statuses)) exception ("GitHub " <> (operation <> " failed"))

-- `_object`, `_array` and `_positive_id`
unfoldable pub object : Value → Result Fields
object (dict d) = ok d
object _ = fail exception "GitHub API response object is invalid"

unfoldable pub array : Value → Result Items
array (list l) = ok l
array _ = fail exception "GitHub API response array is invalid"

unfoldable pub positive_id : Value → Result ℤ
positive_id v = do
  n ← want (as_int v) exception "GitHub release identity is invalid"
  refuse_if (int_ltb n (pos 1)) exception "GitHub release identity is invalid"
  ok n

-- The items of an array, each an object.
unfoldable pub objects : Items → Result (List Fields)
unfolding object
objects nil = ok []
objects (cons v l) = do d ← object v; rest ← objects l; ok (d ∷ rest)

unfoldable pub count : Items → ℕ
count nil = 0
count (cons v l) = ℕ.suc (count l)

abbrev pub is_false : Value → Bool
is_false (bool false) = true
is_false _ = false

abbrev pub is_true : Value → Bool
is_true (bool true) = true
is_true _ = false
