-- ===== src/Util/Equal.antt =====
-- util.c: the test for equal strings decides their equality.
use powaur.Base.{◌≡◌, refl, true, [], ◌∷◌, arith}
use powaur.Util.{Str, same_str}

pub same_str_eq : (a b : Str) → same_str a b ≡ true → a ≡ b
unfolding same_str
same_str_eq [] [] h = refl
same_str_eq [] (y ∷ b) h = cc
same_str_eq (x ∷ a) [] h = cc
same_str_eq (x ∷ a) (y ∷ b) h = ground (arith, same_str_eq a b)

pub same_str_refl : (a : Str) → same_str a a ≡ true
unfolding same_str
same_str_refl [] = refl
same_str_refl (x ∷ a) = ground (arith, same_str_refl a)
