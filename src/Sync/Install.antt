-- ===== src/Sync/Install.antt =====
-- sync.c: the installation of one package, and of the targets in their order. The commands that the
-- code starts and the answers of the user are parts of the state, and so is the directory.
pub mod Consent
pub mod Letters
use powaur.Base.{ℕ, zero, suc, Bool, true, false, not, List, [], ◌∷◌, ◌++◌, Option, none, some}
use powaur.Base.{if◌then◌else◌, ◌==◌, ◌||◌, map, Run, fault, ok, ◌>>=◌}
use powaur.Util.{Str}
use powaur.Util.Wait.{ℤ, Wait, wait_or_whine, is_zero_int}
use powaur.Util.Ask.{mcq, yesno, have_dotinstall}

-- NULL behind the members; no members give NULL.
unfoldable pub list_to_argv : List Str → Option (List (Option Str))
list_to_argv [] = none
list_to_argv (arg ∷ args) = some (map some (arg ∷ args) ++ (none ∷ []))

-- What lies outside: the directories, whether `getcwd` and the way back succeed, whether the user is
-- root, the command of the editor, what `waitpid` comes to for a command (`none` where `fork`
-- fails), the lines of PKGBUILD in a directory, and whether `free` comes back from what `dotinstall`
-- holds before it is set (NULL, say): C leaves that open.
pub record System : Type 0 where
  pub has_dir : List Str → Bool
  pub getcwd : Bool
  pub restore : Bool
  pub root : Bool
  pub powaur_editor : Str
  pub child : List (Option Str) → Option (List Wait)
  pub pkgbuild : List Str → Option (List Str)
  pub frees_unset : Bool

-- The directory, what the user is still to answer, and the commands so far.
pub record Shell : Type 0 where
  pub cwd : List Str
  pub input : List Str
  pub ran : List (List (Option Str))

-- 0, -1 and -2.
pub data Ret : Type 0 where
  done failure fatal : Ret

-- "ynaYNA"
abbrev pub choices : Str
choices = b'y' ∷ b'n' ∷ b'a' ∷ b'Y' ∷ b'N' ∷ b'A' ∷ []

-- "PKGBUILD"
abbrev pub pkgbuild_name : Str
pkgbuild_name = b'P' ∷ b'K' ∷ b'G' ∷ b'B' ∷ b'U' ∷ b'I' ∷ b'L' ∷ b'D' ∷ []

-- "makepkg", "-si", "--noconfirm" and "--asroot"
abbrev pub makepkg : Str
makepkg = b'm' ∷ b'a' ∷ b'k' ∷ b'e' ∷ b'p' ∷ b'k' ∷ b'g' ∷ []

abbrev pub si_opt : Str
si_opt = b'-' ∷ b's' ∷ b'i' ∷ []

abbrev pub noconfirm_opt : Str
noconfirm_opt = b'-' ∷ b'-' ∷ b'n' ∷ b'o' ∷ b'c' ∷ b'o' ∷ b'n' ∷ b'f' ∷ b'i' ∷ b'r' ∷ b'm' ∷ []

abbrev pub asroot_opt : Str
asroot_opt = b'-' ∷ b'-' ∷ b'a' ∷ b's' ∷ b'r' ∷ b'o' ∷ b'o' ∷ b't' ∷ []

abbrev pub stop_or : (Shell → Run (Shell × Ret)) → Shell × Ret → Run (Shell × Ret)
stop_or next (s, fatal) = ok (s, fatal)
stop_or next (s, done) = next s
stop_or next (s, failure) = next s

abbrev pub unless_stopped : (Shell → Run (Shell × Ret)) → Shell × Option Ret → Run (Shell × Ret)
unless_stopped next (s, none) = next s
unless_stopped next (s, some ret) = ok (s, ret)

module _ (sys : System) where
  abbrev pub editor_argv : Str → List (Option Str)
  editor_argv name = some sys.powaur_editor ∷ some name ∷ none ∷ []

  -- `fork`, the command in the child, `wait_or_whine` in the parent: whether that gives 0. A failing
  -- `fork` is -1 like another result.
  unfoldable pub start : Shell → List (Option Str) → Run (Shell × Bool)
  unfolding wait_or_whine
  start s argv = elim (sys.child argv) [
    | none ↦ ok (s, false)
    | some waits ↦ do
      ret ← wait_or_whine waits
      ok (record s { ran = s.ran ++ (argv ∷ []) }, is_zero_int ret)
  ]

  -- The editor; `none` goes on behind it.
  unfoldable pub open_editor : Shell → Str → Run (Shell × Option Ret)
  unfolding start
  open_editor s name = do
    r ← start s (editor_argv name)
    ok (r.0, (if r.1 then none else some failure))

  -- `switch (ret)` and what follows: 1 goes on, 2 stops, another answer opens the editor.
  unfoldable pub after_answer : Shell → Str → ℕ → Run (Shell × Option Ret)
  unfolding open_editor
  after_answer s name ans =
      if ans == 1
      then ok (s, none)
      else (if ans == 2 then ok (s, some fatal) else open_editor s name)

  unfoldable pub edit : Shell → Str → Run (Shell × Option Ret)
  unfolding mcq after_answer
  edit s name = do r ← mcq choices 0 s.input; after_answer (record s { input = r.1 }) name r.0

-- With `noconfirm` of the settings.
module _ (sys : System) (noconfirm : Bool) where
  abbrev pub makepkg_args : List Str
  makepkg_args =
      makepkg
      ∷ si_opt
      ∷ ((if noconfirm then noconfirm_opt ∷ [] else [])
          ++ (if sys.root then asroot_opt ∷ [] else []))

  -- From the arguments of makepkg on; `cwd` is where to go back to.
  unfoldable pub run_makepkg : List Str → Shell → Run (Shell × Ret)
  unfolding start list_to_argv
  run_makepkg cwd s = elim (list_to_argv makepkg_args) [
    | none ↦ fault
    | some argv ↦ elim (sys.child argv) [
      | none ↦ ok (s, failure)
      | some waits ↦ do
        r ← start sys s argv
        ok (
            if sys.restore
            then (record r.0 { cwd = cwd }, (if r.1 then done else failure))
            else (r.0, fatal))
    ]
  ]

  -- From the label fork_pacman on, behind `free`.
  unfoldable pub fork_pacman : List Str → Shell → Run (Shell × Ret)
  unfolding yesno run_makepkg
  fork_pacman cwd s = if noconfirm then run_makepkg cwd s else (do
    r ← yesno s.input
    (if r.0
        then run_makepkg cwd (record s { input = r.1 })
        else ok (record s { input = r.1 }, fatal)))

  unfoldable pub edit_dotinstall : List Str → Shell → Run (Shell × Ret)
  unfolding have_dotinstall edit fork_pacman
  edit_dotinstall cwd s = elim (have_dotinstall (sys.pkgbuild s.cwd)) [
    | none ↦ fork_pacman cwd s
    | some dotinstall ↦ edit sys s dotinstall >>= unless_stopped (fork_pacman cwd)
  ]

  -- With noconfirm the code frees `dotinstall` before it is set, and then goes on if it can.
  unfoldable pub install_single_package : Shell → Str → Run (Shell × Ret)
  unfolding edit edit_dotinstall fork_pacman
  install_single_package s pkgname =
      let inside = record s { cwd = s.cwd ++ (pkgname ∷ []) } in
      if not sys.getcwd || not (sys.has_dir (s.cwd ++ (pkgname ∷ [])))
      then ok (s, failure)
      else (if noconfirm
          then (if sys.frees_unset then fork_pacman s.cwd inside else fault)
          else (edit sys inside pkgbuild_name >>= unless_stopped (edit_dotinstall s.cwd)))

  -- `topo_install`: up to the first package with the result -2.
  unfoldable pub install_all : Shell → List Str → Run (Shell × Ret)
  unfolding install_single_package
  install_all s [] = ok (s, done)
  install_all s (pkg ∷ targets) =
      install_single_package s pkg >>= stop_or (λ s'. install_all s' targets)
