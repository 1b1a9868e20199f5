-- ===== src/Base/Lists.antt =====
-- Lists over the native numbers.
use Prim.Native.Nat.{ℕ, suc, ◌+◌}
use mathlib.Core.Path.{◌≡◌}
use mathlib.Core.List.{List, [], ◌∷◌, ◌++◌}
use native.Mathlib.Omega.{arith}

abbrev pub length {ℓ} : {A : Type ℓ} → List A → ℕ
length [] = 0
length (x ∷ l) = suc (length l)

pub length-++ {ℓ} : {A : Type ℓ} (l m : List A) → length (l ++ m) ≡ length l + length m
length-++ [] m = omega arith
length-++ (x ∷ l) m = let rest = length-++ l m in omega arith
