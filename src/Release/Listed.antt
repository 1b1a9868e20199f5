-- ===== src/Release/Listed.antt =====
-- github_release.py: the answers behind a list of assets, and behind a release that was found.
use mt.Base.{
  ℕ, zero, suc, ◌+◌, String, Bool, true, false, not, ◌≡◌, refl, sym, ◌∙◌, ap, not-false, Option,
  none, some, List, [], ◌∷◌, ◌++◌, ℤ, pos, ltb,
}
use mt.Json.{Fields, Python}
use mt.Errors.{Result, ok, err}
use mt.System.{Sys, pure, raise, lift, observe, ◌>>=◌}
use mt.System.Rules.{
  Hoare, Post, returned, raised, Any, Hoare-bind, Hoare-pure, Hoare-raise, Hoare-refuse, Hoare-pre,
}
use mt.Config.Source.{Coordinates}
use mt.Release.Wire.{
  Services, Response, Request, assets_of, Sent, asked, Wire, G, noted, or_raise, request, status_in,
  expect, array, objects, count,
}
use mt.Release.Assets.{asset_page, more_assets, asset_pages, list_assets, verify_asset_set}
use mt.Release.Prepare.{Prepared}
use mt.Release.Publish.{listed_complete}

abbrev pub Log : Type 0
Log = List Sent

-- One answered page of a release's assets, and whether it is full.
pub record IsPage (r : Response) (found : List Fields) (full : Bool) : Type 0 where
  pub accepted : status_in r.status (pos 200 ∷ []) ≡ true
  pub items : mt.Json.Items
  pub listed : array r.content ≡ ok items
  pub each : objects items ≡ ok found
  pub fullness : full ≡ not (ltb (count items) 100)

-- The first `n` pages of a release's assets, asked for in order from a log on: every page before
-- the last is full.
pub data Pages (i : ℤ) (base : Log) : ℕ → List Fields → Bool → Log → Type 0 where
  opened : Pages i base 0 [] true base
  turned :
      {n page : ℕ} {raw found whole : List Fields} {full : Bool} {l : Log} (r : Response)
      → Pages i base n raw true l
      → page ≡ n + 1
      → IsPage r found full
      → whole ≡ raw ++ found
      → Pages i base page whole full (asked (assets_of i page) (some r) ∷ l)

-- The whole list: the last page is not full.
abbrev pub Listing : ℤ → Log → List Fields → Log → Type 0
Listing i base raw l = (n : ℕ) × Pages i base n raw false l

-- The assets that are asked for, all listed after the log.
pub record IsComplete (py : Python) (i : ℤ) (ps : List Prepared) (base l : Log) : Type 0 where
  pub raw : List Fields
  pub present : List String
  pub listing : Listing i base raw l
  pub verified : verify_asset_set py raw ps true ≡ ok present

abbrev pub At : {W : Type 0} → Log → Sys (Wire W) → Type 0
At l s = s.world.sent ≡ l

module _ {W A : Type 0} where
  -- A triple for every log is a triple.
  pub Hoare-log :
      {I : Sys (Wire W) → Type 0} {m : G W A} {Q : A → Sys (Wire W) → Type 0}
      → ((l : Log) → Hoare I (At l) m Q)
      → Hoare I Any m Q
  Hoare-log k = record { at = λ s i p. (k s.world.sent).at s i refl }

  pub Hoare-lift :
      {P : Sys (Wire W) → Type 0} (r : Result A) → Hoare Any P (lift r) (λ a s. (r ≡ ok a) × P s)
  unfolding lift
  Hoare-lift (ok a) = record { at = λ s i p. returned tt (refl, p) }
  Hoare-lift (err e) = record { at = λ s i p. raised tt }

  -- A fact beside a precondition.
  pub given :
      {F : Type 0} {P : Sys (Wire W) → Type 0} {m : G W A} {Q : A → Sys (Wire W) → Type 0}
      → (F → Hoare Any P m Q)
      → Hoare Any (λ s. F × P s) m Q
  given k = record { at = λ s i p. (k p.0).at s i p.1 }

module _ {W : Type 0} (v : Services W) (c : Coordinates) where
  pub request-Hoare :
      (q : Request) (l : Log)
      → Hoare Any (At l) (request v c q) (λ r s. At (asked q (some r) ∷ l) s)
  unfolding request noted or_raise observe raise pure ◌>>=◌
  request-Hoare q l = record { at = λ s i p. answered s p (v.send _ _ _ s.world.outer) }
    where
      answered :
          (s : Sys (Wire W))
          → At l s
          → (o : Option Response × W)
          → Post Any
              (λ r t. At (asked q (some r) ∷ l) t)
              (or_raise "GitHub transport request failed" o.0
                (record s { world = record { outer = o.1; sent = asked q o.0 ∷ s.world.sent } }))
      answered s p (none, w) = raised tt
      answered s p (some r, w) = returned tt (ap (λ m. asked q (some r) ∷ m) p)

  pub expect-Hoare :
      {A : Type 0} {P : Sys (Wire W) → Type 0} {Q : A → Sys (Wire W) → Type 0} (r : Response)
      (l : List ℤ) (t : String) {n : G W A}
      → (status_in r.status l ≡ true → Hoare Any P n Q)
      → Hoare Any P (expect r l t >>= λ _. n) Q
  unfolding expect
  expect-Hoare r l t k = Hoare-refuse _ _ _ λ e. k (not-false _ e)

  IsPage-Hoare :
      (i : ℤ) (page : ℕ) (l : Log)
      → Hoare Any
          (At l)
          (asset_page v c i page)
          (λ f s. (r : Response) × IsPage r f.0 f.1 × At (asked (assets_of i page) (some r) ∷ l) s)
  unfolding asset_page
  IsPage-Hoare i page l = Hoare-bind (request-Hoare _ l) λ r. expect-Hoare r _ _ λ accepted.
      Hoare-bind (Hoare-lift _) λ items. given λ listed. Hoare-bind (Hoare-lift _) λ found.
        given λ each. Hoare-pure _ λ s at. (
          r,
          record {
            accepted = accepted;
            items = items;
            listed = listed;
            each = each;
            fullness = refl;
          },
          at,
        )

  module _ (i : ℤ) (base : Log) where
    abbrev Turned : ℕ → List Fields → Bool → Sys (Wire W) → Type 0
    Turned n raw full s = Pages i base n raw full s.world.sent

    more-Hoare :
        (again : List Fields → G W (List Fields)) (page : ℕ) (raw : List Fields)
        → ((m : List Fields)
            → Hoare Any
                (Turned page m true)
                (again m)
                (λ whole s. Listing i base whole s.world.sent))
        → (f : List Fields × Bool)
        → Hoare Any
            (Turned page (raw ++ f.0) f.1)
            (more_assets v c again raw f)
            (λ whole s. Listing i base whole s.world.sent)
    more-Hoare again page raw k (found, true) = k _
    more-Hoare again page raw k (found, false) = Hoare-pure _ λ s p. (page, p)

    Pages-Hoare :
        (left n page : ℕ) (raw : List Fields) (l : Log)
        → page ≡ n + 1
        → Pages i base n raw true l
        → Hoare Any
            (At l)
            (asset_pages v c i left page raw)
            (λ whole s. Listing i base whole s.world.sent)
    unfolding asset_pages
    Pages-Hoare zero n page raw l e p = Hoare-raise _ _
    Pages-Hoare (suc left) n page raw l e p = Hoare-bind (IsPage-Hoare i page l) λ f.
        Hoare-pre
          (λ s q.
            mt.Base.subst (Pages i base page (raw ++ f.0) f.1) (sym q.2) (turned q.0 p e q.1 refl))
          (more-Hoare _ page raw
            (λ m. record {
              at = λ s i t. (Pages-Hoare left page (page + 1) m s.world.sent refl t).at s i refl;
            })
            f)

    pub list_assets-Hoare :
        Hoare Any (At base) (list_assets v c i) (λ whole s. Listing i base whole s.world.sent)
    unfolding list_assets
    list_assets-Hoare = Pages-Hoare 100 0 1 [] base refl opened

  pub complete-Hoare :
      (py : Python) (i : ℤ) (ps : List Prepared) (base : Log)
      → Hoare Any
          (At base)
          (listed_complete v py c i ps)
          (λ raw s. IsComplete py i ps base s.world.sent)
  unfolding listed_complete
  complete-Hoare py i ps base = Hoare-bind (list_assets-Hoare i base) λ raw.
      Hoare-bind (Hoare-lift _) λ present. given λ verified.
        Hoare-pure _
          λ s p. record { raw = raw; present = present; listing = p; verified = verified }
