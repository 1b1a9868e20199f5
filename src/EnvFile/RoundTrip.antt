-- ===== src/EnvFile/RoundTrip.antt =====
-- envfile.py: the lines that assign given values.
use Prim.Native.Char.{Char, code}
use mt.Base.{
  ℤ, if◌then◌else◌, ℕ, inl, inr, Bool-cases, ◌==◌, eq_iff, ap, starts_with, lstrip, strip, List, [],
  ◌∷◌, map, Option, none, some, pos, ◌+◌, contains, ℕ, String, ◌<>◌, true, false, ◌≡◌, refl, eqb,
  is_space, before, after, has_char, rstrip, &&_true, arith,
}
use mt.Errors.{ok}
use mt.EnvFile.Wins.{IsClean}
use text.Mathlib.TextEquality.{starts_with_iff}
use text.Mathlib.TextBridge.{IsPrefix}
use text.Mathlib.TextLemmas.{nil-append, cons-append}
use mt.EnvFile.{
  is_name, is_upper, is_skipped, Environ, lookup, assignment, read_assignment, read_line, settle,
  load_lines, name_char, all_char,
}

-- `NAME=value`
abbrev pub render_line : String × String → String
render_line (name, value) = name <> ("=" <> value)

render-name : (t : String) → "" <> ("=" <> t) ≡ String.◌∷◌ "=" t
render-name t = rw (nil-append ("=" <> t), cons-append "=" "" t, nil-append t)

name-ne-equals : (c : ℕ) → name_char c ≡ true → eqb c b'=' ≡ false
name-ne-equals c e = ground arith

name-not_space : (c : ℕ) → name_char c ≡ true → is_space c ≡ false
unfolding is_space
name-not_space c e = ground arith

before-name : (s t : String) → all_char name_char s ≡ true → before b'=' (s <> ("=" <> t)) ≡ s
unfolding before all_char
before-name String.[] t e = rw (render-name t)
before-name (String.◌∷◌ c s) t e =
    let (here, rest) = &&_true _ _ e in
    rw (cons-append c s ("=" <> t), name-ne-equals (code c) here, before-name s t rest)

after-name : (s t : String) → all_char name_char s ≡ true → after b'=' (s <> ("=" <> t)) ≡ t
unfolding after all_char
after-name String.[] t e = rw (render-name t)
after-name (String.◌∷◌ c s) t e =
    let (here, rest) = &&_true _ _ e in
    rw (cons-append c s ("=" <> t), name-ne-equals (code c) here, after-name s t rest)

has-equals : (s t : String) → all_char name_char s ≡ true → has_char b'=' (s <> ("=" <> t)) ≡ true
unfolding has_char all_char
has-equals String.[] t e = rw (render-name t)
has-equals (String.◌∷◌ c s) t e =
    let (here, rest) = &&_true _ _ e in
    rw (cons-append c s ("=" <> t), name-ne-equals (code c) here, has-equals s t rest)

rstrip-name : (s : String) → all_char name_char s ≡ true → rstrip s ≡ s
unfolding rstrip all_char
rstrip-name String.[] e = refl
rstrip-name (String.◌∷◌ c s) e =
    let (here, rest) = &&_true _ _ e in rw (name-not_space (code c) here, rstrip-name s rest)

name-all : (s : String) → is_name s ≡ true → all_char name_char s ≡ true
unfolding is_name all_char
name-all String.[] e = cc
name-all (String.◌∷◌ c s) e =
    let (upper, rest) = &&_true (is_upper (code c)) (all_char name_char s) e in
    let here : name_char (code c) ≡ true = ground arith in rw (here, rest)

strip-name : (s : String) → is_name s ≡ true → strip s ≡ s
unfolding strip lstrip is_name
strip-name String.[] e = cc
strip-name (String.◌∷◌ c s) e =
    let all = name-all (String.◌∷◌ c s) e in
    let (upper, rest) = &&_true (is_upper (code c)) (all_char name_char s) e in
    let here : name_char (code c) ≡ true = ground arith in
    rw (name-not_space (code c) here) (rstrip-name (String.◌∷◌ c s) all)

cons-ne : (c : Char) (s : String) → (String.◌∷◌ c s == "") ≡ false
cons-ne c s = elim (Bool-cases (String.◌∷◌ c s == "")) [
  | inl e ↦ absurd (not_empty ((eq_iff _ _).0 e))
  | inr e ↦ e
]
  where
    not_empty : String.◌∷◌ c s ≡ "" → ⊥
    not_empty p = cc

first : String → ℕ
first String.[] = 0
first (String.◌∷◌ c s) = code c

hash-free :
    (c : Char) (s : String) → is_upper (code c) ≡ true → starts_with (String.◌∷◌ c s) "#" ≡ false
unfolding first
hash-free c s upper = elim (Bool-cases (starts_with (String.◌∷◌ c s) "#")) [
  | inl e ↦ absurd (by_prefix ((starts_with_iff _ _).0 e))
  | inr e ↦ e
]
  where
    by_prefix : IsPrefix "#" (String.◌∷◌ c s) → ⊥
    by_prefix (t, p) =
        let same : first ("#" <> t) ≡ code c = ap first p in
        let hash : first ("#" <> t) ≡ b'#' = ap first (cons-append "#" "" t) in ground arith

lstrip-name :
    (c : Char) (s : String) → is_upper (code c) ≡ true → lstrip (String.◌∷◌ c s) ≡ String.◌∷◌ c s
unfolding lstrip
lstrip-name c s upper =
    let here : name_char (code c) ≡ true = ground arith in rw (name-not_space (code c) here)

rstrip-upper :
    (c : Char) (s : String)
    → is_upper (code c) ≡ true
    → rstrip (String.◌∷◌ c s) ≡ String.◌∷◌ c (rstrip s)
unfolding rstrip
rstrip-upper c s upper =
    let here : name_char (code c) ≡ true = ground arith in rw (name-not_space (code c) here)

strip-upper :
    (c : Char) (s : String)
    → is_upper (code c) ≡ true
    → strip (String.◌∷◌ c s) ≡ String.◌∷◌ c (rstrip s)
unfolding strip
strip-upper c s upper = rw (lstrip-name c s upper) (rstrip-upper c s upper)

not-skipped :
    (c : Char) (s : String) → is_upper (code c) ≡ true → is_skipped (String.◌∷◌ c s) ≡ false
not-skipped c s upper =
    rw (strip-upper c s upper, cons-ne c (rstrip s), hash-free c (rstrip s) upper)

line-not_skipped :
    (name value : String) → is_name name ≡ true → is_skipped (render_line (name, value)) ≡ false
unfolding is_name
line-not_skipped String.[] value e = cc
line-not_skipped (String.◌∷◌ c s) value e =
    let (upper, rest) = &&_true (is_upper (code c)) (all_char name_char s) e in
    rw (cons-append c s ("=" <> value)) (not-skipped c (s <> ("=" <> value)) upper)

-- A line that was written is read as its assignment, where its name is new.
read_line-render :
    (number : ℤ) (seen : List String) (name value : String)
    → IsClean name value
    → contains name seen ≡ false
    → read_line number seen (render_line (name, value)) ≡ assignment name value
unfolding read_line read_assignment
read_line-render number seen name value c fresh =
    let all = name-all name c.named in
    rw (
      line-not_skipped name value c.named,
      has-equals name value all,
      before-name name value all,
      after-name name value all,
      strip-name name c.named,
      c.named,
      fresh,
      c.trimmed,
      c.unquoted,
      c.plain,
    )

-- Assignments that can be written, each name once.
abbrev pub Writable : List String → Environ → Type 0
Writable seen [] = Unit
Writable seen ((name, value) ∷ l) =
    IsClean name value × (contains name seen ≡ false) × Writable (name ∷ seen) l

abbrev pub names : Environ → List String
names [] = []
names ((name, value) ∷ l) = name ∷ names l

abbrev pub or_else : Option String → Option String → Option String
or_else none o = o
or_else (some v) o = some v

settle_all : Environ → Environ → Environ
settle_all [] env = env
settle_all ((name, value) ∷ l) env = settle_all l (settle name value env)

load_lines-render :
    (number : ℕ) (seen : List String) (l env : Environ)
    → Writable seen l
    → load_lines number seen (map render_line l) env ≡ (ok (names l), settle_all l env)
unfolding load_lines settle_all
load_lines-render number seen [] env w = refl
load_lines-render number seen ((name, value) ∷ l) env w = rw (
  read_line-render (pos number) seen name value w.0 w.1,
  load_lines-render (number + 1) (name ∷ seen) l (settle name value env) w.2,
)

lookup-settle :
    (k name value : String) (env : Environ)
    → lookup k (settle name value env)
      ≡ or_else (lookup k env) (if name == k then some value else none)
unfolding settle lookup
lookup-settle k name value env = ground (arith, eq_iff name k)

lookup-settle_all :
    (k : String) (l env : Environ)
    → lookup k (settle_all l env) ≡ or_else (lookup k env) (lookup k l)
unfolding settle_all lookup
lookup-settle_all k [] env = ground arith
lookup-settle_all k ((name, value) ∷ l) env =
    rw (lookup-settle_all k l (settle name value env), lookup-settle k name value env)
      (ground arith)

-- The lines of assignments with distinct names and values that may be written, one line for each, load:
-- the names come back in order, and afterwards a variable has the value that it had before, or else
-- the one in its line.
pub load_lines_roundtrip :
    (l env : Environ)
    → Writable [] l
    → ((load_lines 1 [] (map render_line l) env).0 ≡ ok (names l))
      × ((k : String)
          → lookup k (load_lines 1 [] (map render_line l) env).1
            ≡ or_else (lookup k env) (lookup k l))
load_lines_roundtrip l env w =
    let whole = load_lines-render 1 [] l env w in
    (rw whole, λ k. rw whole (lookup-settle_all k l env))
