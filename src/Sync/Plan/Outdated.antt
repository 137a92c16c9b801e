-- ===== src/Sync/Plan/Outdated.antt =====
-- sync.c: -Su upgrades what is outdated.
use powaur.Base.{◌≢◌, Bool, true, false, List, [], ◌∷◌, Option, none, some, Ordering}
use powaur.Base.{if◌then◌else◌}
use powaur.Util.{Str}
use powaur.Sync.Plan.{from_aur}
use powaur.Sync.Plan.Sorted.{compares}

abbrev pub has_some : List Str → Bool
has_some [] = false
has_some (name ∷ names) = true

module _ {V : Type 0} (alpm_pkg_vercmp : V → V → Ordering) (query_aur : Str → Option (Str × V))
    (installed : Str → Option V) where
  -- The names that the AUR has for those of a list that are installed in an older version.
  abbrev pub outdated_names : List Str → List Str
  outdated_names [] = []
  outdated_names (target ∷ targs) = elim (query_aur target) [
    | none ↦ outdated_names targs
    | some aurpkg ↦
        if compares alpm_pkg_vercmp query_aur installed Ordering.gt target
        then aurpkg.0 ∷ outdated_names targs
        else outdated_names targs
  ]

  -- Each of the names is in the table of AUR packages.
  abbrev pub AllInstalled : List Str → Type 0
  AllInstalled [] = Unit
  AllInstalled (name ∷ names) = (installed name ≢ none) × AllInstalled names

  -- The packages whose versions -Su asks for.
  abbrev pub checked : List Str → List Str → List Str
  checked tmp_targs [] = tmp_targs
  checked tmp_targs (target ∷ targets) =
      from_aur alpm_pkg_vercmp query_aur installed (target ∷ targets)
