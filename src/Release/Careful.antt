-- ===== src/Release/Careful.antt =====
-- github_release.py: what stands before the request that publishes a draft.
use mt.Base.{◌⊎◌, inl, inr, String, Bool, false, ◌≡◌, refl, Option, none, some, List, [], ◌∷◌, ℤ}
use mt.Json.{Fields, Python}
use mt.Errors.{Result, ok, err}
use mt.System.{Sys, observe, ◌>>=◌, ◌>>◌}
use mt.System.Rules.{
  Keeps, Keeps-pure, Keeps-lift, Keeps-bind, Keeps-raise_if, Keeps-hoare, Hoare, Post, returned,
  raised, Any, Hoare-Keeps, Hoare-bind,
}
use mt.Config.Source.{Coordinates}
use mt.Release.Wire.{
  Services, Response, Request, repository, enable_immutable, read_immutable, release_of_tag,
  create_draft, releases, release_of, publish_draft, assets_of, Sent, asked, uploaded, Wire, G,
  noted, request,
}
use mt.Release.Prepare.{Prepared, prepare_assets}
use mt.Release.Publish.{
  PublishedRelease, published_before, draft_published, listed_complete, publish_release, settled,
  settle_release, publish,
}
use mt.Release.Keeps.{
  is_publication, IsTolerant, or_raise-Keeps, request-Keeps, expect-Keeps, prepare_assets-Keeps,
  verify_public-Keeps, enable-Keeps, find_release-Keeps, draft_of-Keeps, validate_draft-Keeps,
  validate_published-Keeps, list_assets-Keeps, upload_missing-Keeps, listed_complete-Keeps,
  confirm-Keeps,
}
use mt.Release.Listed.{Log, IsComplete, Hoare-log, complete-Hoare}

-- The log before a publication ends in a whole list of the release's assets, in which every prepared
-- asset was verified and no other stands.
abbrev pub Backed : Python → List Prepared → Sent → Log → Type 0
Backed py ps (asked (publish_draft i) o) l = (base : Log) × IsComplete py i ps base l
Backed py ps _ l = Unit

abbrev pub Careful : Python → List Prepared → Log → Type 0
Careful py ps [] = Unit
Careful py ps (e ∷ l) = Backed py ps e l × Careful py ps l

abbrev pub publishes : Sent → Bool
publishes (asked q o) = is_publication q
publishes (uploaded i n o) = false

-- A log without a publication.
abbrev pub IsUnpublished : Log → Type 0
IsUnpublished [] = Unit
IsUnpublished (e ∷ l) = (publishes e ≡ false) × IsUnpublished l

unpublished-Backed :
    (py : Python) (ps : List Prepared) (q : Request) (o : Option Response) (l : Log)
    → is_publication q ≡ false
    → Backed py ps (asked q o) l
unpublished-Backed py ps (publish_draft i) o l e = cc
unpublished-Backed py ps repository o l e = tt
unpublished-Backed py ps enable_immutable o l e = tt
unpublished-Backed py ps read_immutable o l e = tt
unpublished-Backed py ps release_of_tag o l e = tt
unpublished-Backed py ps create_draft o l e = tt
unpublished-Backed py ps (releases n) o l e = tt
unpublished-Backed py ps (release_of i) o l e = tt
unpublished-Backed py ps (assets_of i n) o l e = tt

unpublished-Careful :
    (py : Python) (ps : List Prepared) (l : Log) → IsUnpublished l → Careful py ps l
unpublished-Careful py ps [] u = tt
unpublished-Careful py ps (asked q o ∷ l) u =
    (unpublished-Backed py ps q o l u.0, unpublished-Careful py ps l u.1)
unpublished-Careful py ps (uploaded i n o ∷ l) u = (tt, unpublished-Careful py ps l u.1)

module _ {W : Type 0} where
  abbrev Unpublished : Sys (Wire W) → Type 0
  Unpublished s = IsUnpublished s.world.sent

  Unpublished-IsTolerant : IsTolerant Unpublished
  Unpublished-IsTolerant = record {
    disk = λ s w i. i;
    asks = λ s w q o e i. (e, i);
    uploads = λ s w j n o i. (refl, i);
  }

module _ {W A : Type 0} {I P : Sys (Wire W) → Type 0} where
  -- An invariant beside a triple.
  Hoare-both :
      {m : G W A} {Q : A → Sys (Wire W) → Type 0} → Keeps I m → Hoare Any P m Q → Hoare I P m Q
  Hoare-both k t = record { at = λ s h p. with_invariant (t.at s tt p) (k.at s h) }
    where
      with_invariant :
          {Q : A → Sys (Wire W) → Type 0} {o : Result A × Sys (Wire W)}
          → Post Any Q o
          → I o.1
          → Post I Q o
      with_invariant (returned i q) h = returned h q
      with_invariant (raised i) h = raised h

module _ {W : Type 0} (v : Services W) (py : Python) (c : Coordinates) (ps : List Prepared) where
  abbrev I : Sys (Wire W) → Type 0
  I s = Careful py ps s.world.sent

  tolerant : IsTolerant I
  tolerant = record {
    disk = λ s w i. i;
    asks = λ s w q o e i. (unpublished-Backed py ps q o s.world.sent e, i);
    uploads = λ s w j n o i. (tt, i);
  }

  abbrev Ready : ℤ → Sys (Wire W) → Type 0
  Ready i s = (base : Log) × IsComplete py i ps base s.world.sent

  complete-Ready : (i : ℤ) → Hoare I Any (listed_complete v py c i ps) (λ raw. Ready i)
  complete-Ready i =
      Hoare-both (listed_complete-Keeps v c I tolerant py i ps) (
        Hoare-log
          λ l. mt.System.Rules.Hoare-post (λ raw s q. (l, q)) (complete-Hoare v c py i ps l))

  publication-Hoare : (i : ℤ) → Hoare I (Ready i) (request v c (publish_draft i)) (λ _. Any)
  unfolding request noted observe
  publication-Hoare i =
      Hoare-bind {R = λ _. Any} (record { at = λ s h p. returned (p, h) tt })
        λ o. Hoare-Keeps (or_raise-Keeps I _ o)

  draft_published-Hoare : (i : ℤ) → Hoare I (Ready i) (draft_published v py c i) (λ _. Any)
  unfolding draft_published
  draft_published-Hoare i = Hoare-bind (publication-Hoare i) λ r. Hoare-Keeps (
      Keeps-bind (expect-Keeps v c I tolerant _ _ _)
        λ _. Keeps-bind (Keeps-lift _) λ d. Keeps-bind (Keeps-lift _) λ j. Keeps-raise_if _ _ _)

  publish_release-Keeps : (i : ℤ) → Keeps I (publish_release v py c ps i)
  unfolding publish_release
  publish_release-Keeps i = Keeps-bind (list_assets-Keeps v c I tolerant i) λ listed.
      Keeps-bind (Keeps-lift _) λ present.
        Keeps-bind (upload_missing-Keeps v c I tolerant py i present ps) λ _.
          Keeps-hoare {Q = λ _. Any} (
            Hoare-bind (complete-Ready i) λ raw. Hoare-bind (draft_published-Hoare i) λ _.
              Hoare-Keeps (
                Keeps-bind (request-Keeps v c I tolerant _ refl) λ r.
                  Keeps-bind (expect-Keeps v c I tolerant _ _ _) λ _. Keeps-bind (Keeps-lift _) λ d.
                    Keeps-bind (validate_published-Keeps v c I tolerant d) λ j.
                      Keeps-bind (Keeps-raise_if _ _ _) λ _.
                        Keeps-bind (listed_complete-Keeps v c I tolerant py i ps)
                          λ _. Keeps-pure _))

  settle_release-Keeps : (existing : Option Fields) → Keeps I (settle_release v py c ps existing)
  unfolding settle_release
  settle_release-Keeps existing = by_state (published_before existing)
    where
      by_state : (o : Option Fields) → Keeps I (settled v py c ps existing o)
      by_state (some r) = confirm-Keeps v c I tolerant py ps r
      by_state none =
          Keeps-bind (draft_of-Keeps v c I tolerant existing)
            λ d. Keeps-bind (validate_draft-Keeps v c I tolerant d) λ i. publish_release-Keeps i

  pub after_prepare-Keeps : Keeps I (do
    mt.Release.Lookup.verify_public_repository v c
    mt.Release.Lookup.enable_and_verify_immutability v c
    existing ← mt.Release.Lookup.find_release v c
    settle_release v py c ps existing)
  after_prepare-Keeps = Keeps-bind (verify_public-Keeps v c I tolerant) λ _.
      Keeps-bind (enable-Keeps v c I tolerant)
        λ _. Keeps-bind (find_release-Keeps v c I tolerant) settle_release-Keeps

module _ {W : Type 0} (v : Services W) (py : Python) (c : Coordinates) where
  -- From a log without a publication, however `publish` ends: no draft was published, or the assets
  -- were prepared, and every request that publishes a draft was sent directly behind a whole list of
  -- that release's assets, in which every prepared asset was verified and no other stands.
  pub publish-Careful :
      (assets : List (String × String)) (s : Sys (Wire W))
      → IsUnpublished s.world.sent
      → IsUnpublished (publish v py c assets s).1.world.sent
        ⊎ ((ps : List Prepared) × (t : Sys (Wire W)) × (prepare_assets v assets s ≡ (ok ps, t))
            × Careful py ps (publish v py c assets s).1.world.sent)
  unfolding publish ◌>>=◌
  publish-Careful assets s fresh =
      by_result (prepare_assets v assets s) refl
        ((prepare_assets-Keeps v c Unpublished Unpublished-IsTolerant assets).at s fresh)
    where
      rest : List Prepared → G W PublishedRelease
      rest ps = do
        mt.Release.Lookup.verify_public_repository v c
        mt.Release.Lookup.enable_and_verify_immutability v c
        existing ← mt.Release.Lookup.find_release v c
        settle_release v py c ps existing

      final : Result (List Prepared) × Sys (Wire W) → Log
      final o = (mt.System.continue o.0 rest (λ e u. (err e, u)) o.1).1.world.sent

      by_result :
          (o : Result (List Prepared) × Sys (Wire W))
          → prepare_assets v assets s ≡ o
          → Unpublished o.1
          → IsUnpublished (final o)
            ⊎ ((ps : List Prepared) × (t : Sys (Wire W)) × (prepare_assets v assets s ≡ (ok ps, t))
                × Careful py ps (final o))
      by_result (ok ps, t) e u =
          inr (ps, t, e, (after_prepare-Keeps v py c ps).at t (unpublished-Careful py ps _ u))
      by_result (err e, t) p u = inl u
