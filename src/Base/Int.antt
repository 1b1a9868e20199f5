-- ===== src/Base/Int.antt =====
-- Python's `int` over the native numbers: `negsuc n` is -(n + 1).
use Prim.Native.Nat.{ℕ, suc, ◌+◌, ◌-◌, ◌≤◌, ◌<◌}
use mathlib.Core.Path.{◌≡◌}
use mathlib.Core.Bool.{Bool, true, false}
use native.Mathlib.Omega.{arith}
use mt.Base.Tests.{ltb-true, ltb-false, leb-true, leb-false, ltb, leb, eqb, if◌then◌else◌}

pub data ℤ : Type 0 where
  pos : ℕ → ℤ
  negsuc : ℕ → ℤ

abbrev pub pos_part : ℤ → ℕ
pos_part (pos n) = n
pos_part (negsuc n) = 0

abbrev pub neg_part : ℤ → ℕ
neg_part (pos n) = 0
neg_part (negsuc n) = suc n

-- a - b, as an integer.
abbrev pub sub_ℕ : ℕ → ℕ → ℤ
sub_ℕ a b = if leb b a then pos (a - b) else negsuc (b - a - 1)

infixl 65 ◌+ℤ◌ ◌-ℤ◌
infix 50 ◌≤ℤ◌ ◌<ℤ◌
abbrev pub ◌+ℤ◌ : ℤ → ℤ → ℤ
a +ℤ b = sub_ℕ (pos_part a + pos_part b) (neg_part a + neg_part b)

abbrev pub ◌-ℤ◌ : ℤ → ℤ → ℤ
a -ℤ b = sub_ℕ (pos_part a + neg_part b) (neg_part a + pos_part b)

abbrev pub ◌≤ℤ◌ : ℤ → ℤ → Type 0
a ≤ℤ b = pos_part a + neg_part b ≤ pos_part b + neg_part a

abbrev pub ◌<ℤ◌ : ℤ → ℤ → Type 0
a <ℤ b = pos_part a + neg_part b < pos_part b + neg_part a

-- The tests `a < b`, `a <= b` and `a == b`.
abbrev pub int_ltb : ℤ → ℤ → Bool
int_ltb a b = ltb (pos_part a + neg_part b) (pos_part b + neg_part a)

abbrev pub int_leb : ℤ → ℤ → Bool
int_leb a b = leb (pos_part a + neg_part b) (pos_part b + neg_part a)

abbrev pub int_eqb : ℤ → ℤ → Bool
int_eqb a b = eqb (pos_part a + neg_part b) (pos_part b + neg_part a)

pub int_eqb-eq : (a b : ℤ) → int_eqb a b ≡ true → a ≡ b
int_eqb-eq a b h = ground arith

pub int_eqb_refl : (a : ℤ) → int_eqb a a ≡ true
int_eqb_refl a = ground arith

-- What a test says, whichever way it went.
pub int_ltb_true : (a b : ℤ) → int_ltb a b ≡ true → a <ℤ b
int_ltb_true a b h = ltb-true (pos_part a + neg_part b) (pos_part b + neg_part a) h

pub int_ltb_false : (a b : ℤ) → int_ltb a b ≡ false → b ≤ℤ a
int_ltb_false a b h = ltb-false (pos_part a + neg_part b) (pos_part b + neg_part a) h

pub int_leb_true : (a b : ℤ) → int_leb a b ≡ true → a ≤ℤ b
int_leb_true a b h = leb-true (pos_part a + neg_part b) (pos_part b + neg_part a) h

pub int_leb_false : (a b : ℤ) → int_leb a b ≡ false → b <ℤ a
int_leb_false a b h = leb-false (pos_part a + neg_part b) (pos_part b + neg_part a) h
