-- ===== src/Sync/Install/Consent.antt =====
-- sync.c: what is so when a package counts as installed, and where the code is left otherwise.
use powaur.Base.{◌≡◌, Bool, true, List, [], ◌∷◌, ◌++◌, map, Option, none, some, ◌⊎◌}
use powaur.Base.{ok}
use powaur.Util.{Str}
use powaur.Util.Wait.{Wait, wait_or_whine, IsSuccess}
use powaur.Util.Ask.{yesno}
use powaur.Sync.Install.{System, Shell, Ret, done, failure, fatal, makepkg_args}

module _ (sys : System) (noconfirm : Bool) where
  -- The arguments of makepkg, as they are handed over.
  abbrev pub makepkg_argv : List (Option Str)
  makepkg_argv = map some (makepkg_args sys noconfirm) ++ (none ∷ [])

  abbrev pub Agreed : Shell → Type 0
  Agreed s = (noconfirm ≡ true) ⊎ ((input : List Str) × (yesno input ≡ ok (true, s.input)))

  -- With noconfirm, or after a yes, makepkg is the last command, it exits with 0, and the directory is
  -- the one of before.
  pub record Installed (cwd : List Str) (s : Shell) : Type 0 where
    pub back : s.cwd ≡ cwd
    pub consent : Agreed s
    pub last : (ran : List (List (Option Str))) × (s.ran ≡ ran ++ (makepkg_argv ∷ []))
    pub succeeds :
        (waits : List Wait) × (sys.child makepkg_argv ≡ some waits)
        × IsSuccess (wait_or_whine waits)

  -- Otherwise the code is in the directory of before, or is still in that of the package.
  abbrev pub Left : List Str → Str → Shell × Ret → Type 0
  Left cwd pkgname (s, done) = Installed cwd s
  Left cwd pkgname (s, failure) = (s.cwd ≡ cwd) ⊎ (s.cwd ≡ cwd ++ (pkgname ∷ []))
  Left cwd pkgname (s, fatal) = s.cwd ≡ cwd ++ (pkgname ∷ [])

  -- Where it is before makepkg.
  abbrev Inside : List Str → Str → Shell → Type 0
  Inside cwd pkgname s = s.cwd ≡ cwd ++ (pkgname ∷ [])

  -- A command that is started and that ends.
  abbrev Started : Shell → List (Option Str) → List Wait → Shell × Bool → Type 0
  Started s argv waits r =
      (r.0 ≡ record s { ran = s.ran ++ (argv ∷ []) })
      × (r.1 ≡ true → IsSuccess (wait_or_whine waits))

  module _ (cwd : List Str) (pkgname : Str) where
    -- An editor starts and ends in the directory of the package.
    abbrev Edited : Shell × Option Ret → Type 0
    Edited (s, none) = Inside cwd pkgname s
    Edited (s, some done) = ⊥
    Edited (s, some failure) = Inside cwd pkgname s
    Edited (s, some fatal) = Inside cwd pkgname s
