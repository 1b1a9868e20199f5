-- ===== src/Base/Chars.antt =====
-- Python's methods of `str` that the program calls, on the characters of a text.
use Prim.Native.Nat.{ℕ, ◌+◌}
use Prim.Native.Char.{Char, code}
use Prim.Native.String.{String}
use mathlib.Core.Bool.{Bool, true, false, ◌&&◌, ◌||◌}
use mathlib.Core.List.{List, [], ◌∷◌}
use text.Mathlib.Text.{starts_with}
use mt.Base.Tests.{leb, eqb, if◌then◌else◌}
use mt.Base.Text.{◌==◌, codes}

abbrev pub within : ℕ → ℕ → ℕ → Bool
within lo hi c = leb lo c && leb c hi

-- `c.isspace()`
unfoldable pub is_space : ℕ → Bool
is_space c =
    within 9 13 c
    || within 28 32 c
    || eqb c 133
    || eqb c 160
    || eqb c 5760
    || within 8192 8202 c
    || eqb c 8232
    || eqb c 8233
    || eqb c 8239
    || eqb c 8287
    || eqb c 12288

-- `s.lstrip()`, `s.rstrip()` and `s.strip()`
unfoldable pub lstrip : String → String
lstrip String.[] = String.[]
lstrip (String.◌∷◌ c s) = let rest = lstrip s in if is_space (code c) then rest else String.◌∷◌ c s

drop_if : Bool → Char → String → String
drop_if true c String.[] = String.[]
drop_if _ c s = String.◌∷◌ c s

unfoldable pub rstrip : String → String
unfolding drop_if
rstrip String.[] = String.[]
rstrip (String.◌∷◌ c s) = drop_if (is_space (code c)) c (rstrip s)

unfoldable pub strip : String → String
unfolding lstrip rstrip
strip s = rstrip (lstrip s)

-- `s.rstrip("/")`, for one character.
unfoldable pub rstrip_char : ℕ → String → String
unfolding drop_if
rstrip_char d String.[] = String.[]
rstrip_char d (String.◌∷◌ c s) = drop_if (eqb (code c) d) c (rstrip_char d s)

-- The parts of `s.partition(c)`.
unfoldable pub before : ℕ → String → String
before d String.[] = String.[]
before d (String.◌∷◌ c s) =
    let rest = before d s in if eqb (code c) d then String.[] else String.◌∷◌ c rest

unfoldable pub after : ℕ → String → String
after d String.[] = String.[]
after d (String.◌∷◌ c s) = let rest = after d s in if eqb (code c) d then s else rest

unfoldable pub has_char : ℕ → String → Bool
has_char d String.[] = false
has_char d (String.◌∷◌ c s) = eqb (code c) d || has_char d s

-- `any(test(c) for c in s)`
unfoldable pub any_char : (ℕ → Bool) → String → Bool
any_char p String.[] = false
any_char p (String.◌∷◌ c s) = p (code c) || any_char p s

on_first : Char → List String → List String
on_first c [] = String.◌∷◌ c String.[] ∷ []
on_first c (s ∷ l) = String.◌∷◌ c s ∷ l

-- `s.split(c)`
unfoldable pub split_at : ℕ → String → List String
unfolding on_first
split_at d String.[] = String.[] ∷ []
split_at d (String.◌∷◌ c s) =
    let rest = split_at d s in if eqb (code c) d then String.[] ∷ rest else on_first c rest

-- `p in s`
unfoldable pub has_text : String → String → Bool
has_text p String.[] = p == ""
has_text p (String.◌∷◌ c s) = starts_with (String.◌∷◌ c s) p || has_text p s

-- `s.endswith(p)`
unfoldable pub ends_with : String → String → Bool
ends_with String.[] p = p == ""
ends_with (String.◌∷◌ c s) p = String.◌∷◌ c s == p || ends_with s p

-- `s.lower()` where only the ASCII letters matter, as code points.
unfoldable pub lower_code : ℕ → ℕ
lower_code c = if within b'A' b'Z' c then c + 32 else c

same_lower : String → List ℕ → Bool
same_lower String.[] [] = true
same_lower (String.◌∷◌ c s) (d ∷ l) = eqb (lower_code (code c)) d && same_lower s l
same_lower _ _ = false

-- `s.lower() == p` for a lower-case ASCII text `p`.
unfoldable pub eq_lower : String → String → Bool
unfolding same_lower lower_code
eq_lower s p = same_lower s (codes p)

-- `s.lower().endswith(p)`
unfoldable pub ends_with_lower : String → String → Bool
ends_with_lower String.[] p = eq_lower "" p
ends_with_lower (String.◌∷◌ c s) p = eq_lower (String.◌∷◌ c s) p || ends_with_lower s p
