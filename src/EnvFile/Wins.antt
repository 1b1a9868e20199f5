-- ===== src/EnvFile/Wins.antt =====
-- envfile.py: the environment after a file was loaded, or refused.
use mt.Base.{
  ℕ, ◌+◌, String, Bool, true, false, ◌≡◌, refl, sym, subst, ||_false, not-false, Option, none, some,
  List, [], ◌∷◌, ◌⊎◌, inl, inr, pos, ℤ, ◌==◌, eq_iff, any_char, strip, before, after, if◌then◌else◌,
}
use mt.Errors.{Result, ok, err}
use mt.EnvFile.{
  Environ, lookup, is_name, is_quoted, forbidden, Line, skipped, assignment, malformed, is_skipped,
  read_assignment, read_line, unless_there, settle, loaded, act, load_lines,
}

-- An assignment that the loader makes.
pub record IsClean (name value : String) : Type 0 where
  pub named : is_name name ≡ true
  pub trimmed : (value == strip value) ≡ true
  pub unquoted : is_quoted value ≡ false
  pub plain : any_char forbidden value ≡ false

-- After an assignment a variable is as it was before, or it is the one that was assigned.
settle-cases :
    (name value : String) (env : Environ) (k v : String)
    → lookup k (settle name value env) ≡ some v
    → (lookup k env ≡ some v) ⊎ ((name ≡ k) × (value ≡ v))
unfolding settle lookup
settle-cases name value env k v e = by_lookup (lookup name env) e
  where
    by_test :
        (b : Bool)
        → (name == k) ≡ b
        → (if b then some value else lookup k env) ≡ some v
        → (lookup k env ≡ some v) ⊎ ((name ≡ k) × (value ≡ v))
    by_test true f g = inr ((eq_iff name k).0 f, cc)
    by_test false f g = inl g

    by_lookup :
        (o : Option String)
        → lookup k (unless_there o name value env) ≡ some v
        → (lookup k env ≡ some v) ⊎ ((name ≡ k) × (value ≡ v))
    by_lookup none f = by_test (name == k) refl f
    by_lookup (some w) f = inl f

settle-keeps :
    (name value : String) (env : Environ) (k v : String)
    → lookup k env ≡ some v
    → lookup k (settle name value env) ≡ some v
unfolding settle lookup
settle-keeps name value env k v e = by_lookup (lookup name env) refl
  where
    by_test :
        (b : Bool)
        → (name == k) ≡ b
        → lookup name env ≡ none
        → (if b then some value else lookup k env) ≡ some v
    by_test true f g =
        let same : name ≡ k = (eq_iff name k).0 f in let gone : lookup k env ≡ none = cc in cc
    by_test false f g = e

    by_lookup :
        (o : Option String)
        → lookup name env ≡ o
        → lookup k (unless_there o name value env) ≡ some v
    by_lookup none f = by_test (name == k) refl f
    by_lookup (some w) f = e

loaded-keeps : (name : String) (r : Result (List String) × Environ) → (loaded name r).1 ≡ r.1
loaded-keeps name (ok names, env) = refl
loaded-keeps name (err e, env) = refl

-- A test that refuses a line did not hold where the line is an assignment.
passed :
    (b : Bool) (t : String) (r : Line) {name value : String}
    → (if b then malformed t else r) ≡ assignment name value
    → (b ≡ false) × (r ≡ assignment name value)
passed true t r e = cc
passed false t r e = (refl, e)

assignment-fst : {a b c d : String} → assignment a b ≡ assignment c d → (a ≡ c) × (b ≡ d)
assignment-fst e = (cc, cc)

read_assignment-IsClean :
    (number : ℤ) (seen : List String) (line name value : String)
    → read_assignment number seen line ≡ assignment name value
    → IsClean name value
unfolding read_assignment
read_assignment-IsClean number seen line name value f =
    let (t1, f1) = passed _ _ _ f in
    let (t2, f2) = passed _ _ _ f1 in
    let (t3, f3) = passed _ _ _ f2 in
    let (t4, f4) = passed _ _ _ f3 in
    let (t5, f5) = passed _ _ _ f4 in
    let (same_name, same_value) = assignment-fst f5 in
    let whole : IsClean (strip (before b'=' line)) (after b'=' line) = record {
      named = not-false _ ((||_false _ _ t1).1);
      trimmed = not-false _ t3;
      unquoted = t4;
      plain = t5;
    } in
    subst (λ n. IsClean n value) same_name
      (subst (λ v. IsClean (strip (before b'=' line)) v) same_value whole)

read_line-IsClean :
    (number : ℤ) (seen : List String) (line name value : String)
    → read_line number seen line ≡ assignment name value
    → IsClean name value
unfolding read_line
read_line-IsClean number seen line name value e = by_comment (is_skipped line) e
  where
    by_comment :
        (b : Bool)
        → (if b then skipped else read_assignment number seen line) ≡ assignment name value
        → IsClean name value
    by_comment true f = cc
    by_comment false f = read_assignment-IsClean number seen line name value f

-- A variable that was there before the file was read keeps its value, however the loading ends.
pub load_lines-keeps :
    (number : ℕ) (seen lines : List String) (env : Environ) (k v : String)
    → lookup k env ≡ some v
    → lookup k (load_lines number seen lines env).1 ≡ some v
unfolding load_lines
load_lines-keeps number seen [] env k v e = e
load_lines-keeps number seen (line ∷ l) env k v e =
    by_line _ (read_line (pos number) seen line)
      (λ next changed f. load_lines-keeps (number + 1) next l changed k v f)
  where
    by_line :
        (rest : List String → Environ → Result (List String) × Environ) (r : Line)
        → ((next : List String) (changed : Environ)
            → lookup k changed ≡ some v
            → lookup k (rest next changed).1 ≡ some v)
        → lookup k (act r seen env rest).1 ≡ some v
    by_line rest skipped go = go _ _ e
    by_line rest (malformed t) go = e
    by_line rest (assignment name value) go =
        subst (λ changed. lookup k changed ≡ some v) (sym (loaded-keeps name _))
          (go _ _ (settle-keeps name value env k v e))

-- Every variable after the loading was there before with that value, or has the name of an
-- environment variable and a value without quotes, edge whitespace and shell characters, however the
-- loading ends.
pub load_lines-IsClean :
    (number : ℕ) (seen lines : List String) (env : Environ) (k v : String)
    → lookup k (load_lines number seen lines env).1 ≡ some v
    → (lookup k env ≡ some v) ⊎ IsClean k v
unfolding load_lines
load_lines-IsClean number seen [] env k v e = inl e
load_lines-IsClean number seen (line ∷ l) env k v e =
    by_line _ (read_line (pos number) seen line) refl
      (λ next changed f. load_lines-IsClean (number + 1) next l changed k v f) e
  where
    after_settle :
        (name value : String)
        → IsClean name value
        → (lookup k (settle name value env) ≡ some v) ⊎ IsClean k v
        → (lookup k env ≡ some v) ⊎ IsClean k v
    after_settle name value c (inr d) = inr d
    after_settle name value c (inl f) = elim (settle-cases name value env k v f) [
      | inl g ↦ inl g
      | inr (m, n) ↦ inr (subst (λ j. IsClean j v) m (subst (IsClean name) n c))
    ]

    by_line :
        (rest : List String → Environ → Result (List String) × Environ) (r : Line)
        → read_line (pos number) seen line ≡ r
        → ((next : List String) (changed : Environ)
            → lookup k (rest next changed).1 ≡ some v
            → (lookup k changed ≡ some v) ⊎ IsClean k v)
        → lookup k (act r seen env rest).1 ≡ some v
        → (lookup k env ≡ some v) ⊎ IsClean k v
    by_line rest skipped q go f = go _ _ f
    by_line rest (malformed t) q go f = inl f
    by_line rest (assignment name value) q go f =
        after_settle name value (read_line-IsClean (pos number) seen line name value q)
          (go _ _ (subst (λ changed. lookup k changed ≡ some v) (loaded-keeps name _) f))
