-- ===== src/Base/Names.antt =====
-- Names as lists of character codes.
use Prim.Native.Nat.{ℕ}
use mathlib.Core.Path.{◌≡◌, refl}
use mathlib.Core.Bool.{Bool, true, false, ◌&&◌}
use mathlib.Core.List.{List, [], ◌∷◌}
use wdk_safe.Base.Tests.{◌==◌}
use native.Mathlib.Omega.{arith}

abbrev pub same_name : List ℕ → List ℕ → Bool
same_name [] [] = true
same_name [] (b ∷ bs) = false
same_name (a ∷ as') [] = false
same_name (a ∷ as') (b ∷ bs) = (a == b) && same_name as' bs

pub same_name_eq : (a b : List ℕ) → same_name a b ≡ true → a ≡ b
same_name_eq [] [] e = refl
same_name_eq [] (y ∷ b) e = ground arith
same_name_eq (x ∷ a) [] e = ground arith
same_name_eq (x ∷ a) (y ∷ b) e = ground (arith, same_name_eq a b)
