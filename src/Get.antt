-- ===== src/Get.antt =====
-- download.c: the loop of `powaur_get` that downloads the targets, then what these depend on, and so
-- on. A directory gives the file of a path, if there is one.
pub mod Ends
use powaur.Base.{ℕ, zero, suc, Bool, true, false, List, [], ◌∷◌, Option, none, some}
use powaur.Base.{Run, ok, spin, ◌>>=◌}
use powaur.Util.{Str}
use powaur.Package.Arrays.{File}
use powaur.Package.Resolve.{Known, resolve_dependencies}

abbrev pub Dir : Type 0
Dir = Str → Option File

abbrev pub has : Dir → Str → Bool
has dir path = elim (dir path) [ none ↦ false | some file ↦ true ]

-- The databases do not change; the test for a file is about the directory.
abbrev pub seen_in : Known → Dir → Known
seen_in known dir = record known { stat = has dir }

-- `download` is what a round of `threadpool_dl_extract` makes of the directory.
module _ (alpm_list_find_str : List Str → Str → Bool) (known : Known) (size : ℕ)
    (download : Dir → List Str → Dir) where
  -- `while (resolve)`, for a number of rounds.
  unfoldable pub get_loop : ℕ → Dir → List Str → Run Dir
  get_loop rounds dir [] = ok dir
  get_loop zero dir (pkg ∷ resolve) = spin
  get_loop (suc rounds) dir (pkg ∷ resolve) =
      let dir' = download dir (pkg ∷ resolve) in
      (resolve_dependencies alpm_list_find_str (seen_in known dir') size dir' (pkg ∷ resolve)
        >>= λ new_resolve. get_loop rounds dir' new_resolve)
