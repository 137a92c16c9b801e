-- ===== src/Tests/Strings.antt =====
-- Tests of the strings.
use powaur.Base.{◌%◌, ◌≡◌, refl, [], ◌∷◌, some}
use powaur.Alloc.{u32_mod}
use powaur.Util.{Str, sdbm, strtrim, strtrim_ver}
use powaur.Util.Compare.{polynomial, sdbm-polynomial}

-- " gcc>=4 "
abbrev gcc : Str
gcc = 32 ∷ 103 ∷ 99 ∷ 99 ∷ 62 ∷ 61 ∷ 52 ∷ 32 ∷ []

gcc_trimmed : strtrim gcc ≡ 103 ∷ 99 ∷ 99 ∷ 62 ∷ 61 ∷ 52 ∷ []
unfolding strtrim
gcc_trimmed = refl

gcc_name : strtrim_ver gcc ≡ 103 ∷ 99 ∷ 99 ∷ []
unfolding strtrim_ver
gcc_name = refl

gcc_hash : sdbm (some (103 ∷ 99 ∷ 99 ∷ [])) ≡ 857429415
unfolding sdbm
gcc_hash = refl

sdbm-polynomial_example : sdbm (some gcc) ≡ polynomial 0 gcc % u32_mod
sdbm-polynomial_example = sdbm-polynomial gcc
