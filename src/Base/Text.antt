-- ===== src/Base/Text.antt =====
-- Texts: equality, code points, decimal print, membership, and the order of Python's `sorted`.
use Prim.Native.Nat.{ℕ, zero, suc, ◌/◌, ◌%◌}
use Prim.Native.Char.{code}
use Prim.Native.String.{String, ◌++◌ as ◌<>◌}
use mathlib.Core.Bool.{Bool, true, false, ◌&&◌, ◌||◌}
use mathlib.Core.List.{List, [], ◌∷◌}
use text.Mathlib.Text
use mt.Base.Tests.{ltb, leb, eqb, if◌then◌else◌}
use mt.Base.Int.{ℤ, pos, negsuc}

infix 50 ◌==◌
abbrev pub ◌==◌ : String → String → Bool
s == t = Text.◌==◌ s t

-- The code points of a text.
abbrev pub codes : String → List ℕ
codes String.[] = []
codes (String.◌∷◌ c s) = code c ∷ codes s

-- `k in l` and `k not in l`, for a list or a set of texts.
unfoldable pub contains : String → List String → Bool
contains k [] = false
contains k (j ∷ l) = k == j || contains k l

-- Lowercase hexadecimal digits, `[0-9a-f]`.
abbrev is_hex : ℕ → Bool
is_hex c = leb b'0' c && leb c b'9' || leb b'a' c && leb c b'f'

-- `[0-9a-f]{n}`, to the end of the text.
hex_exactly : ℕ → List ℕ → Bool
hex_exactly zero [] = true
hex_exactly zero (c ∷ s) = false
hex_exactly (suc n) [] = false
hex_exactly (suc n) (c ∷ s) = is_hex c && hex_exactly n s

-- `fullmatch` of the given prefix followed by exactly `n` lowercase hexadecimal digits.
matches : List ℕ → ℕ → List ℕ → Bool
matches [] n s = hex_exactly n s
matches (p ∷ ps) n [] = false
matches (p ∷ ps) n (c ∷ s) = eqb p c && matches ps n s

unfoldable pub hex_tag : String → ℕ → String → Bool
unfolding hex_exactly matches
hex_tag prefix n s = matches (codes prefix) n (codes s)

-- The order of texts, by code points.
text_ltb : List ℕ → List ℕ → Bool
text_ltb [] [] = false
text_ltb [] (d ∷ t) = true
text_ltb (c ∷ s) [] = false
text_ltb (c ∷ s) (d ∷ t) = ltb c d || eqb c d && text_ltb s t

insert_unique : String → List String → List String
insert_unique s [] = s ∷ []
insert_unique s (t ∷ l) =
    if s == t
    then t ∷ l
    else if text_ltb (codes s) (codes t)
    then s ∷ t ∷ l
    else t ∷ insert_unique s l

-- `sorted(set(l))`
unfoldable pub sorted_set : List String → List String
unfolding text_ltb insert_unique
sorted_set [] = []
sorted_set (s ∷ l) = insert_unique s (sorted_set l)

unfoldable pub same_texts : List String → List String → Bool
same_texts [] [] = true
same_texts (s ∷ l) (t ∷ m) = s == t && same_texts l m
same_texts _ _ = false

digit : ℕ → String
digit n =
    if eqb n 0
    then "0"
    else if eqb n 1
    then "1"
    else if eqb n 2
    then "2"
    else if eqb n 3
    then "3"
    else if eqb n 4
    then "4"
    else if eqb n 5
    then "5"
    else if eqb n 6
    then "6"
    else if eqb n 7
    then "7"
    else if eqb n 8
    then "8"
    else "9"

digits : ℕ → ℕ → String
digits zero n = ""
digits (suc f) n =
    let high = digits f (n / 10) in if ltb n 10 then digit n else high <> digit (n % 10)

-- `str(n)` of an integer. A number has no more digits than its successor, which is the fuel.
unfoldable pub show_int : ℤ → String
unfolding digit digits
show_int (pos n) = digits (suc n) n
show_int (negsuc n) = "-" <> digits (suc (suc n)) (suc n)
