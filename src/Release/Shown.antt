-- ===== src/Release/Shown.antt =====
-- github_release.py: the answer behind a release that was found.
use mt.Base.{
  ℕ, zero, suc, ◌+◌, String, Bool, true, false, ◌≡◌, refl, sym, subst, ◌⊎◌, inl, inr, Option, some,
  List, [], ◌∷◌, ◌++◌, pos, int_eqb, if◌then◌else◌,
}
use mt.Json.{Value, Items, Fields, get, eq_text}
use mt.Errors.{ok}
use mt.System.{Sys, ◌>>=◌}
use mt.System.Rules.{
  Hoare, Any, Hoare-bind, Hoare-pure, Hoare-raise, Hoare-refuse, Hoare-if, Hoare-pre,
}
use mt.Config.Source.{Coordinates}
use mt.Release.Wire.{
  Services, Response, Request, releases, release_of_tag, Sent, asked, uploaded, Wire, G, object,
  array, objects,
}
use mt.Release.Lookup.{
  tagged, first, release_page, more_releases, release_pages, search_releases, find_release,
}
use mt.Release.Listed.{Log, At, Hoare-log, Hoare-lift, given, request-Hoare, expect-Hoare}

abbrev pub IsAnswer : Request → Response → Sent → Type 0
IsAnswer q r (asked p o) = (p ≡ q) × (o ≡ some r)
IsAnswer q r (uploaded i n o) = ⊥

-- A request of the log had this answer.
abbrev pub Got : Request → Response → Log → Type 0
Got q r [] = ⊥
Got q r (e ∷ l) = IsAnswer q r e ⊎ Got q r l

abbrev pub Member : Fields → List Fields → Type 0
Member d [] = ⊥
Member d (e ∷ l) = (e ≡ d) ⊎ Member d l

-- An object that is an answer, or that stands in an array of objects that is one.
abbrev pub Within : Fields → Value → Type 0
Within d v =
    (object v ≡ ok d)
    ⊎ ((items : Items) × (all : List Fields) × (array v ≡ ok items)
        × (objects items ≡ ok all)
        × Member d all)

abbrev pub Shown : Fields → Log → Type 0
Shown d l = (q : Request) × (r : Response) × Got q r l × Within d r.content

abbrev AllShown : List Fields → Log → Type 0
AllShown [] l = Unit
AllShown (d ∷ m) l = Shown d l × AllShown m l

all-later : (e : Sent) (m : List Fields) (l : Log) → AllShown m l → AllShown m (e ∷ l)
all-later e [] l h = tt
all-later e (d ∷ m) l h = ((h.0.0, h.0.1, inr h.0.2, h.0.3), all-later e m l h.1)

all-append : (m n : List Fields) (l : Log) → AllShown m l → AllShown n l → AllShown (m ++ n) l
all-append [] n l h k = k
all-append (d ∷ m) n l h k = (h.0, all-append m n l h.1 k)

all-tagged : (tag : String) (m : List Fields) (l : Log) → AllShown m l → AllShown (tagged tag m) l
unfolding tagged
all-tagged tag [] l h = tt
all-tagged tag (d ∷ m) l h = by_tag (eq_text (get "tag_name" d) tag) (all-tagged tag m l h.1)
  where
    by_tag :
        (b : Bool)
        → AllShown (tagged tag m) l
        → AllShown (if b then d ∷ tagged tag m else tagged tag m) l
    by_tag true rest = (h.0, rest)
    by_tag false rest = rest

module _ (q : Request) (r : Response) (l : Log) (items : Items) (all : List Fields)
    (listed : array r.content ≡ ok items) (each : objects items ≡ ok all) where
  members-shown :
      (m : List Fields)
      → ((d : Fields) → Member d m → Member d all)
      → AllShown m (asked q (some r) ∷ l)
  members-shown [] k = tt
  members-shown (d ∷ m) k = (
    (q, r, inl (refl, refl), inr (items, all, listed, each, k d (inl refl))),
    members-shown m λ e n. k e (inr n),
  )

module _ {W : Type 0} (v : Services W) (c : Coordinates) where
  release_page-Hoare :
      (page : ℕ) (l : Log)
      → Hoare Any
          (At l)
          (release_page v c page)
          (λ f s. (e : Sent) × AllShown f.0 (e ∷ l) × At (e ∷ l) s)
  unfolding release_page
  release_page-Hoare page l = Hoare-bind (request-Hoare v c _ l) λ r.
      expect-Hoare v c r _ _ λ accepted. Hoare-bind (Hoare-lift _) λ items. given λ listed.
        Hoare-bind (Hoare-lift _) λ found. given λ each. Hoare-pure _ λ s at. (
          asked (releases page) (some r),
          all-tagged c.tag found _
              (members-shown (releases page) r l items found listed each found λ d m. m),
          at,
        )

  abbrev Tagged : List Fields → Sys (Wire W) → Type 0
  Tagged m s = AllShown m s.world.sent

  more-Shown :
      (again : List Fields → G W (List Fields)) (m : List Fields)
      → ((n : List Fields) → Hoare Any (Tagged n) (again n) Tagged)
      → (f : List Fields × Bool)
      → Hoare Any (Tagged (m ++ f.0)) (more_releases v c again m f) Tagged
  more-Shown again m k (found, true) = k _
  more-Shown again m k (found, false) = Hoare-pure _ λ s h. h

  pages-Shown :
      (left page : ℕ) (m : List Fields)
      → Hoare Any (Tagged m) (release_pages v c left page m) Tagged
  unfolding release_pages
  pages-Shown zero page m = Hoare-raise _ _
  pages-Shown (suc left) page m = record {
    at = λ s i h. (turn s h (pages-Shown left (page + 1))).at s i refl;
  }
    where
      turn :
          (s : Sys (Wire W))
          → Tagged m s
          → ((n : List Fields) → Hoare Any (Tagged n) (release_pages v c left (page + 1) n) Tagged)
          → Hoare Any
              (At s.world.sent)
              (release_page v c page >>= more_releases v c (release_pages v c left (page + 1)) m)
              Tagged
      turn s h rest = Hoare-bind (release_page-Hoare page s.world.sent) λ f.
          Hoare-pre
            (λ t q.
              subst (AllShown (m ++ f.0)) (sym q.2) (all-append m f.0 _ (all-later q.0 m _ h) q.1))
            (more-Shown _ m rest f)

  abbrev pub FindsShown : Option Fields → Sys (Wire W) → Type 0
  FindsShown o s = (d : Fields) → o ≡ some d → Shown d s.world.sent

  first-Shown :
      (m : List Fields) (l : Log) → AllShown m l → (d : Fields) → first m ≡ some d → Shown d l
  first-Shown [] l h d e = cc
  first-Shown (x ∷ m) l h d e = let same : x ≡ d = cc in subst (λ y. Shown y l) same h.0

  direct-Shown :
      (r : Response) (l : Log) (d : Fields)
      → object r.content ≡ ok d
      → Shown d (asked release_of_tag (some r) ∷ l)
  direct-Shown r l d e = (release_of_tag, r, inl (refl, refl), inl e)

  pub find_release-Hoare : Hoare Any Any (find_release v c) FindsShown
  unfolding find_release search_releases
  find_release-Hoare = Hoare-log λ l. Hoare-bind (request-Hoare v c _ l) λ r.
      expect-Hoare v c r _ _ λ _.
        Hoare-if (int_eqb r.status (pos 200))
          (λ _. Hoare-bind (Hoare-lift _) λ d. given λ e. Hoare-pure _ λ s at x f.
            let same : d ≡ x = cc in
            subst (λ y. Shown y s.world.sent) same
              (subst (Shown d) (sym at) (direct-Shown r l d e)))
          (λ _.
            Hoare-pre (λ s _. tt)
              (Hoare-bind (pages-Shown 100 1 []) λ m.
                Hoare-refuse _ _ _ λ _. Hoare-pure _ λ s h d e. first-Shown m s.world.sent h d e))
