-- ===== src/Config/Rendered.antt =====
-- config.py: the sources that `source_for` returns, and what it raises.
use mt.Base.{
  String, ◌<>◌, Bool, true, false, not, ◌||◌, ◌≡◌, refl, sym, none, some, List, [], ◌∷◌, subst, ◌⊎◌,
  inl, inr, ℤ, before, after, any_char, split_at, ◌==◌, eq_iff, &&_true, ||_false, not-false,
  has_text, has_char, ends_with_lower, arith, Bool-cases, if◌then◌else◌,
}
use mt.Json.{Python}
use mt.Errors.{Error, config, ok, err}
use mt.Errors.Ensures.{Ensures, Ensures-ok, Ensures-known, Ensures-refuse, Ensures-want, Ensures-if}
use mt.Errors.Raises.{
  Raises, Raises-ok, Raises-if, Raises-bind, Raises-refuse, Raises-want, Raises-found,
}
use mt.Config.{Config}
use mt.Config.Environment.{Env, Paths}
use mt.Config.Template.{
  Piece, literal, hole, pieces, all_allowed, validate_template, Arguments, argument, render, format,
}
use mt.Config.Source.{
  Coordinates, github_release_coordinates, is_bucket, any_dots, is_delimiter, check_release,
  check_bucket, check_source, source_for,
}
use mt.Config.Load.{from_env}
use mt.Config.Bounds.{from_env-IsBounded}

-- A release of the one repository, whose owner, repository and tag have no part that is refused.
pub record IsRelease (locator : String) : Type 0 where
  pub place : Coordinates
  pub found : github_release_coordinates locator ≡ some place
  pub plain : has_text "--" place.owner ≡ false
  pub no_suffix : ends_with_lower place.repo ".git" ≡ false
  pub no_dots : has_text ".." place.tag ≡ false
  pub no_lock : ends_with_lower place.tag ".lock" ≡ false
  pub authorized : place.owner <> "/" <> place.repo ≡ "vandungtech/mt92"

-- A prefix in a bucket, with no component that is empty or dots.
pub record IsObject (scheme locator : String) : Type 0 where
  pub store : (scheme ≡ "s3") ⊎ (scheme ≡ "r2")
  pub bucket : is_bucket (before b'/' locator) ≡ true
  pub slash : has_char b'/' locator ≡ true
  pub bucket_given : (before b'/' locator == "") ≡ false
  pub prefix_given : (after b'/' locator == "") ≡ false
  pub single : has_text "//" locator ≡ false
  pub prefix : any_dots (split_at b'/' (after b'/' locator)) ≡ false

pub record IsSource (s : String) : Type 0 where
  pub clean : any_char is_delimiter s ≡ false
  pub place :
      ((before b':' s ≡ "https") × IsRelease (after b':' s))
      ⊎ IsObject (before b':' s) (after b':' s)

check_release-IsRelease :
    (s locator : String) → Ensures (λ t. (t ≡ s) × IsRelease locator) (check_release s locator)
unfolding check_release
check_release-IsRelease s locator = Ensures-want _ _ _ λ g e. Ensures-refuse _ _ _ λ t.
    Ensures-refuse _ _ _ λ u.
      let (u2, no_lock) = ||_false _ _ u in
      let (u1, no_dots) = ||_false _ _ u2 in
      let (plain, no_suffix) = ||_false _ _ u1 in
      Ensures-ok (
        refl,
        record {
          place = g;
          found = e;
          plain = plain;
          no_suffix = no_suffix;
          no_dots = no_dots;
          no_lock = no_lock;
          authorized = (eq_iff _ _).0 (not-false _ t);
        },
      )

store-cases : (s : String) → not (s == "s3" || s == "r2") ≡ false → (s ≡ "s3") ⊎ (s ≡ "r2")
store-cases s t = elim (Bool-cases (s == "s3")) [
  | inl e ↦ inl ((eq_iff _ _).0 e)
  | inr n ↦ inr ((eq_iff _ _).0 (ground arith))
]

check_bucket-IsObject :
    (s scheme locator : String)
    → Ensures (λ t. (t ≡ s) × IsObject scheme locator) (check_bucket s scheme locator)
unfolding check_bucket
check_bucket-IsObject s scheme locator = Ensures-refuse _ _ _ λ t. Ensures-refuse _ _ _ λ u.
    Ensures-refuse _ _ _ λ v. Ensures-refuse _ _ _ λ w.
      let (u2, single) = ||_false _ _ u in
      let (u1, prefix_given) = ||_false _ _ u2 in
      let (slash, bucket_given) = ||_false _ _ u1 in
      Ensures-ok (
        refl,
        record {
          store = store-cases scheme t;
          slash = not-false _ slash;
          bucket_given = bucket_given;
          prefix_given = prefix_given;
          single = single;
          bucket = not-false _ v;
          prefix = w;
        },
      )

check_source-IsSource : (s : String) → Ensures (λ t. (t ≡ s) × IsSource s) (check_source s)
unfolding check_source
check_source-IsSource s = Ensures-refuse _ _ _ λ t. Ensures-refuse _ _ _ λ u.
    Ensures-if (before b':' s == "https")
      (λ e. Ensures-known λ r f.
        let (same, place) = (check_release-IsRelease s (after b':' s)).holds r f in
        (same, record { clean = t; place = inl ((eq_iff _ _).0 e, place) }))
      λ e. Ensures-known λ r f.
        let (same, place) = (check_bucket-IsObject s (before b':' s) (after b':' s)).holds r f in
        (same, record { clean = t; place = inr place })

source_for-Ensures :
    (c : Config) (n : ℤ) (hotkey : String) → Ensures IsSource (source_for c n hotkey)
unfolding source_for
source_for-Ensures c n hotkey = Ensures-refuse _ _ _ λ t. Ensures-want _ _ _ λ s e.
    Ensures-known λ r f.
      let (same, source) = (check_source-IsSource s).holds r f in subst IsSource (sym same) source

-- A source that was returned has no delimiter and no mark of credentials in it, and is a release of
-- the authorized repository whose tag has no `..` and no suffix of a lock file, or a prefix in a
-- well-named bucket, not empty, without `//` and without a component of dots, whatever the template is.
pub source_for-IsSource :
    (c : Config) (n : ℤ) (hotkey s : String) → source_for c n hotkey ≡ ok s → IsSource s
source_for-IsSource c n hotkey = (source_for-Ensures c n hotkey).holds

one_of :
    (p q r : Bool) (s t u : String)
    → (p || q || r) ≡ true
    → (v : String) × ((if p then some s else if q then some t else if r then some u else none)
        ≡ some v)
one_of true q r s t u e = (s, refl)
one_of false true r s t u e = (t, refl)
one_of false false true s t u e = (u, refl)
one_of false false false s t u e = ground arith

argument-some :
    (a : Arguments) (name : String)
    → (name == "round" || name == "uid" || name == "hotkey") ≡ true
    → (s : String) × (argument a name ≡ some s)
unfolding argument
argument-some a name e = one_of (name == "round") (name == "uid") (name == "hotkey") _ _ _ e

render-some :
    (a : Arguments) (l : List Piece) → all_allowed l ≡ true → (s : String) × (render a l ≡ some s)
unfolding render all_allowed
render-some a [] e = ("", refl)
render-some a (literal t ∷ l) e = let (s, f) = render-some a l e in (t <> s, rw f)
render-some a (hole name ∷ l) e =
    let (allowed, rest) = &&_true _ _ e in
    let (t, g) = argument-some a name allowed in
    let (s, f) = render-some a l rest in (t <> s, rw (g, f))

format-eq :
    (a : Arguments) (template : String) {l : List Piece} {s : String}
    → pieces template ≡ some l
    → render a l ≡ some s
    → format a template ≡ some s
unfolding format
format-eq a template e f = rw e f

-- A template that was tested renders with every round.
format-some :
    (a : Arguments) (template : String)
    → validate_template template ≡ ok tt
    → (s : String) × (format a template ≡ some s)
unfolding validate_template
format-some a template e = found.holds tt e
  where
    found : Ensures (λ _. (s : String) × (format a template ≡ some s)) (validate_template template)
    found = Ensures-want _ _ _ λ l p. Ensures-refuse _ _ _ λ t.
        Ensures-known
          λ u _. let (s, f) = render-some a l (not-false _ t) in (s, format-eq a template p f)

check_source-Raises : (s : String) → Raises config (check_source s)
unfolding check_source check_release check_bucket
check_source-Raises s = Raises-bind (Raises-refuse _ _) λ _. Raises-bind (Raises-refuse _ _) λ _.
    Raises-if _
      (Raises-bind (Raises-want _ _)
        λ g. Raises-bind (Raises-refuse _ _) λ _. Raises-bind (Raises-refuse _ _) λ _. Raises-ok _)
      (Raises-bind (Raises-refuse _ _) λ _.
        Raises-bind (Raises-refuse _ _) λ _.
          Raises-bind (Raises-refuse _ _) λ _. Raises-bind (Raises-refuse _ _) λ _. Raises-ok _)

-- With a template that was tested, all that `source_for` raises is a `ConfigError`.
pub source_for-Raises_tested :
    (c : Config) (n : ℤ) (hotkey : String)
    → validate_template c.source_template ≡ ok tt
    → Raises config (source_for c n hotkey)
unfolding source_for
source_for-Raises_tested c n hotkey tested =
    let (s, f) = format-some _ c.source_template tested in
    Raises-bind (Raises-refuse _ _) λ _. Raises-bind (Raises-found _ _ _ f) check_source-Raises

-- With a configuration that was loaded, all that `source_for` raises is a `ConfigError`, for every
-- round and every hotkey: the `KeyError` of the template's rendering cannot happen.
pub source_for-Raises :
    (py : Python) (upper : String → String) (paths : Paths) (env : Env) (c : Config) (n : ℤ)
    (hotkey : String) (e : Error)
    → from_env py upper paths env ≡ ok c
    → source_for c n hotkey ≡ err e
    → e.kind ≡ config
source_for-Raises py upper paths env c n hotkey e loaded =
    (source_for-Raises_tested c n hotkey
        (from_env-IsBounded py upper paths env c loaded).template).only
      e
