-- ===== src/Release/Proven.antt =====
-- github_release.py: what was answered when `publish` returns.
use mt.Base.{
  String, Bool, true, false, not, ◌≡◌, refl, ◌∙◌, ap, inl, not-false, not-true, ||_false, Option,
  none, some, List, [], ◌∷◌, ℤ, pos, int_eqb, int_eqb-eq, sorted_set, if◌then◌else◌,
}
use mt.Json.{Fields, Python, get, eq_text}
use mt.Errors.{ok}
use mt.System.{Sys, lift, pure, ◌>>=◌, ◌>>◌}
use mt.System.Rules.{
  Hoare, Any, Hoare-Keeps, Hoare-bind, Hoare-pure, Hoare-raise, Hoare-refuse, Hoare-if, Hoare-pre,
  Hoare-returned,
}
use mt.Protected.Sound.{fact}
use mt.Config.Source.{Coordinates}
use mt.Release.Wire.{
  Services, Response, Request, releases, release_of_tag, release_of, Sent, asked, uploaded, Wire, G,
  request, object, array, objects, positive_id, count, is_false, is_true,
}
use mt.Release.Prepare.{Prepared, keys, prepare_one, prepare_all, prepare_assets}
use mt.Release.Lookup.{is_published, validate_published_release}
use mt.Release.Assets.{asset_names}
use mt.Release.Publish.{
  PublishedRelease, published_before, result, confirm, publish_release, settled, settle_release,
  publish,
}
use mt.Release.Listed.{
  Log, IsComplete, At, Hoare-log, Hoare-lift, given, request-Hoare, expect-Hoare, complete-Hoare,
}
use mt.Release.Shown.{Shown, find_release-Hoare}

-- A release that is published under the tag, with this identity.
pub record IsProven (py : Python) (c : Coordinates) (ps : List Prepared) (p : PublishedRelease)
    (l : Log) : Type 0 where
  pub release : Fields
  pub base : Log
  pub identity : positive_id (get "id" release) ≡ ok p.release_id
  pub tag : eq_text (get "tag_name" release) c.tag ≡ true
  pub no_draft : is_false (get "draft" release) ≡ true
  pub no_prerelease : is_false (get "prerelease" release) ≡ true
  pub immutable : is_true (get "immutable" release) ≡ true
  pub shown : Shown release base
  pub complete : IsComplete py p.release_id ps base l
  pub reported : p ≡ result c p.release_id ps p.already_published

unconstrained : {W A : Type 0} {P : Sys (Wire W) → Type 0} (m : G W A) → Hoare Any P m (λ _. Any)
unconstrained m = Hoare-Keeps (record { at = λ s i. tt })

-- A release that is no draft and no prerelease, is immutable, and has the tag.
record IsFinal (tag : String) (r : Fields) : Type 0 where
  tagged : eq_text (get "tag_name" r) tag ≡ true
  no_draft : is_false (get "draft" r) ≡ true
  no_prerelease : is_false (get "prerelease" r) ≡ true
  immutable : is_true (get "immutable" r) ≡ true

is_published-IsFinal : (tag : String) (r : Fields) → is_published tag r ≡ true → IsFinal tag r
is_published-IsFinal tag r e =
    let (v, immutable) = ||_false _ _ (not-true _ e) in
    let (u, prerelease) = ||_false _ _ v in
    let (tagged, draft) = ||_false _ _ u in
    record {
      tagged = not-false _ tagged;
      no_draft = not-false _ draft;
      no_prerelease = not-false _ prerelease;
      immutable = not-false _ immutable;
    }

module _ {W : Type 0} where
  validate-Hoare :
      {P : Sys (Wire W) → Type 0} (c : Coordinates) (r : Fields)
      → Hoare Any P
          (validate_published_release c r)
          (λ i s. ((positive_id (get "id" r) ≡ ok i) × IsFinal c.tag r) × P s)
  unfolding validate_published_release
  validate-Hoare c r = Hoare-bind (Hoare-lift _) λ i. given λ e.
      Hoare-refuse _ _ _
        λ t. Hoare-pure i λ s p. ((e, is_published-IsFinal c.tag r (not-false _ t)), p)

module _ {W : Type 0} (v : Services W) (py : Python) (c : Coordinates) (ps : List Prepared) where
  abbrev Proves : PublishedRelease → Sys (Wire W) → Type 0
  Proves p s = IsProven py c ps p s.world.sent

  confirm-Hoare : (r : Fields) (l : Log) → Shown r l → Hoare Any (At l) (confirm v py c ps r) Proves
  unfolding confirm result
  confirm-Hoare r l shown = Hoare-bind (validate-Hoare c r) λ i. given λ (identity, published).
      Hoare-bind (complete-Hoare v c py i ps l) λ raw. Hoare-pure _ λ s complete. record {
        release = r;
        base = l;
        identity = identity;
        tag = published.tagged;
        no_draft = published.no_draft;
        no_prerelease = published.no_prerelease;
        immutable = published.immutable;
        shown = shown;
        complete = complete;
        reported = refl;
      }

  final-Hoare :
      (i : ℤ)
      → Hoare Any Any
          (do
            r ← request v c (release_of i)
            mt.Release.Wire.expect r (pos 200 ∷ []) "release verification"
            d ← lift (object r.content)
            j ← validate_published_release c d
            mt.System.raise_if
                (not (int_eqb j i))
                mt.Errors.exception
                "GitHub release identity mismatch"
            mt.Release.Publish.listed_complete v py c i ps
            pure (result c i ps false))
          Proves
  unfolding result
  final-Hoare i = Hoare-log λ l. Hoare-bind (request-Hoare v c _ l) λ r.
      expect-Hoare v c r _ _ λ accepted. Hoare-bind (Hoare-lift _) λ d. given λ body.
        Hoare-bind (validate-Hoare c d) λ j. given λ (identity, published). Hoare-refuse _ _ _ λ t.
          Hoare-bind (complete-Hoare v c py i ps (asked (release_of i) (some r) ∷ l)) λ raw.
            Hoare-pure _ λ s complete. record {
              release = d;
              base = asked (release_of i) (some r) ∷ l;
              identity = identity ∙ ap ok (int_eqb-eq j i (not-false _ t));
              tag = published.tagged;
              no_draft = published.no_draft;
              no_prerelease = published.no_prerelease;
              immutable = published.immutable;
              shown = (release_of i, r, inl (refl, refl), inl body);
              complete = complete;
              reported = refl;
            }

  publish_release-Hoare : (i : ℤ) → Hoare Any Any (publish_release v py c ps i) Proves
  unfolding publish_release
  publish_release-Hoare i = Hoare-bind (unconstrained _) λ _. Hoare-bind (unconstrained _) λ _.
      Hoare-bind (unconstrained _)
        λ _. Hoare-bind (unconstrained _) λ _. Hoare-bind (unconstrained _) λ _. final-Hoare i

  before-some : (o : Option Fields) (r : Fields) → published_before o ≡ some r → o ≡ some r
  before-some none r e = cc
  before-some (some x) r e = by_draft (is_false (get "draft" x)) e
    where
      by_draft : (b : Bool) → (if b then some x else none) ≡ some r → some x ≡ some r
      by_draft true f = f
      by_draft false f = cc

  settled-Hoare :
      (existing : Option Fields) (l : Log)
      → ((d : Fields) → existing ≡ some d → Shown d l)
      → Hoare Any (At l) (settle_release v py c ps existing) Proves
  unfolding settle_release
  settled-Hoare existing l shown = by_state (published_before existing) refl
    where
      by_state :
          (o : Option Fields)
          → published_before existing ≡ o
          → Hoare Any (At l) (settled v py c ps existing o) Proves
      by_state (some r) e = confirm-Hoare r l (shown r (before-some existing r e))
      by_state none e =
          Hoare-bind (unconstrained _) λ d. Hoare-bind (unconstrained _) publish_release-Hoare

module _ {W : Type 0} (v : Services W) (assets : List (String × String)) where
  one-named : (name path : String) → Hoare Any Any (prepare_one v name path) (λ a s. a.name ≡ name)
  unfolding prepare_one
  one-named name path = Hoare-bind (unconstrained _) λ _. Hoare-bind (unconstrained _) λ _.
      Hoare-bind (unconstrained _) λ _. Hoare-bind (unconstrained _) λ _.
        Hoare-bind (unconstrained _) λ _. Hoare-bind (unconstrained _) λ _.
          Hoare-bind (unconstrained _) λ _. Hoare-bind (unconstrained _) λ _.
            Hoare-bind (unconstrained _) λ _. Hoare-bind (unconstrained _) λ _.
              Hoare-bind (unconstrained _)
                λ _. Hoare-bind (unconstrained _) λ _. Hoare-pure _ λ s p. refl

  all-named :
      (l : List String) → Hoare Any Any (prepare_all v assets l) (λ ps s. asset_names ps ≡ l)
  unfolding prepare_all asset_names
  all-named [] = Hoare-pure _ λ s p. refl
  all-named (n ∷ l) = Hoare-bind (one-named n _) λ a.
      fact
        λ name. Hoare-bind (all-named l) λ rest. fact λ names. Hoare-pure _ λ s p. rw (name, names)

  prepare-named :
      Hoare Any Any (prepare_assets v assets) (λ ps s. asset_names ps ≡ sorted_set (keys assets))
  unfolding prepare_assets
  prepare-named =
      Hoare-refuse _ _ _
        λ _. Hoare-refuse _ _ _ λ _. Hoare-refuse _ _ _ λ _. all-named (sorted_set (keys assets))

module _ {W : Type 0} (v : Services W) (py : Python) (c : Coordinates) where
  -- When `publish` returns, with the assets of the given names: an answer showed a release that is
  -- no draft and no prerelease, has the tag and is immutable, with the identity that is returned, and
  -- behind it the last requests listed its assets in whole, in which every prepared asset was
  -- verified and no other stands.
  pub publish-IsProven :
      (assets : List (String × String)) (s t : Sys (Wire W)) (p : PublishedRelease)
      → publish v py c assets s ≡ (ok p, t)
      → (ps : List Prepared) × (asset_names ps ≡ sorted_set (keys assets))
        × IsProven py c ps p t.world.sent
  unfolding publish
  publish-IsProven assets s t p e =
      Hoare-returned
        {Q = λ q u.
          (ps : List Prepared) × (asset_names ps ≡ sorted_set (keys assets))
          × IsProven py c ps q u.world.sent}
        (Hoare-bind (prepare-named v assets) λ ps. fact λ names. Hoare-bind (unconstrained _) λ _.
          Hoare-bind (unconstrained _) λ _. Hoare-bind (find_release-Hoare v c) λ existing.
            mt.System.Rules.Hoare-post (λ q u proven. (ps, names, proven))
              (record {
                at = λ u i shown. (settled-Hoare v py c ps existing u.world.sent shown).at u i refl;
              }))
        e
