-- ===== src/Tests/Installs.antt =====
-- Tests of the installation of packages.
use powaur.Base.{ℕ, ◌≡◌, refl, true, false, ◌&&◌, List, [], ◌∷◌, Option, none, some, ◌↔◌}
use powaur.Base.{ok}
use powaur.Util.{Str, find_str, same_str, strtrim, starts_with, split_at}
use powaur.Util.Wait.{
  Wait, interrupted, ended, exited, wait_or_whine, Succeeds, IsSuccess, wait_or_whine-Succeeds,
}
use powaur.Util.Ask.{check_mcq_response, mcq, question, same_word, have_dotinstall}
use powaur.Sync.Install.{
  System, Shell, done, choices, pkgbuild_name, makepkg, si_opt, noconfirm_opt, edit,
  install_single_package, install_all, list_to_argv,
}
use powaur.Sync.Install.Letters.{asked, edit-asked}
use powaur.Sync.Plan.{
  Action, SyncOptions, kind_of, sync_targets, outdated_of, powaur_sync, final_targets, sort_targets,
  add_to,
}
use powaur.Sync.Plan.Sorted.{Wanted, consent, upgrade_if, sync_targets-Wanted}
use powaur.Sync.Plan.Result.{is_called, asks_for, counts, fits, powaur_sync-counts}
use Prim.Native.Nat.{compare}

install_program : Unit {0}
unfolding same_str find_str strtrim starts_with split_at wait_or_whine check_mcq_response mcq
    question same_word have_dotinstall edit install_single_package install_all list_to_argv kind_of
    sync_targets outdated_of powaur_sync final_targets sort_targets add_to
install_program = tt

-- A call of `waitpid` is interrupted, then the child exits with 0.
abbrev waits : List Wait
waits = interrupted ∷ ended (exited 0) ∷ []

wait_or_whine-Succeeds_example : IsSuccess (wait_or_whine waits) ↔ Succeeds waits
wait_or_whine-Succeeds_example = wait_or_whine-Succeeds waits tt

-- Every command exits with 0.
abbrev system : System
system = record {
  has_dir = λ path. true;
  getcwd = true;
  restore = true;
  root = false;
  powaur_editor = b'v' ∷ b'i' ∷ [];
  child = λ argv. some waits;
  pkgbuild = λ path. none;
  frees_unset = true;
}

abbrev pkg : Str
pkg = b'p' ∷ []

-- The answers "n" to the editor and "y" to the installation.
abbrev shell : Shell
shell = record { cwd = []; input = (b'n' ∷ b'\n' ∷ []) ∷ (b'y' ∷ b'\n' ∷ []) ∷ []; ran = [] }

installs :
    install_single_package system false shell pkg
    ≡ ok
        (record { cwd = []; input = []; ran = (some makepkg ∷ some si_opt ∷ none ∷ []) ∷ [] }, done)
unfolding install_program
installs = refl

-- With noconfirm nothing is asked, and makepkg asks nothing either.
installs_unasked :
    install_single_package system true shell pkg
    ≡ ok (
      record shell { ran = (some makepkg ∷ some si_opt ∷ some noconfirm_opt ∷ none ∷ []) ∷ [] },
      done,
    )
unfolding install_program
installs_unasked = refl

-- The answer "N" opens the editor.
abbrev capital : Shell
capital = record { cwd = []; input = (b'N' ∷ b'\n' ∷ []) ∷ []; ran = [] }

trimmed : strtrim (b'N' ∷ b'\n' ∷ []) ≡ b'N' ∷ []
unfolding install_program
trimmed = refl

fifth : check_mcq_response b'N' choices ≡ some 4
unfolding install_program
fifth = refl

edit-asked_example :
    edit system capital pkgbuild_name
    ≡ asked system (record capital { input = [] }) pkgbuild_name b'N'
edit-asked_example =
    edit-asked system capital pkgbuild_name (b'N' ∷ b'\n' ∷ []) [] b'N' 4 [] refl trimmed fifth

-- The AUR has "p" in version 2, and version 1 is installed.
abbrev query : Str → Option (Str × ℕ)
query target = some (target, 2)

abbrev installed_version : Str → Option ℕ
installed_version target = some 1

sync_targets-Wanted_example :
    (list : List Str) × Wanted compare query installed_version (pkg ∷ []) list
    × (sync_targets compare query installed_version true true [] (pkg ∷ [])
        ≡ upgrade_if (consent true true []) list)
sync_targets-Wanted_example =
    sync_targets-Wanted compare query installed_version true true [] (pkg ∷ [])

upgrades :
    sync_targets compare query installed_version true true [] (pkg ∷ []) ≡ ok (some (pkg ∷ []), [])
unfolding install_program
upgrades = refl

abbrev options : SyncOptions
options = record {
  op_s_search = false;
  op_s_info = false;
  op_s_check = false;
  op_s_upgrade = false;
  curl = true;
  getcwd = true;
  to_powaur_dir = true;
  restore = true;
}

powaur_sync-counts_example :
    ((action : Action)
      → is_called (powaur_sync (λ action. true) options (pkg ∷ [])).0 action ≡ (
          true
          && fits (λ action. true) options
          && asks_for (λ action. true) options (pkg ∷ []) action))
    × ((powaur_sync (λ action. true) options (pkg ∷ [])).1
        ≡ counts (λ action. true) options (powaur_sync (λ action. true) options (pkg ∷ [])).0)
powaur_sync-counts_example = powaur_sync-counts (λ action. true) options (pkg ∷ [])
