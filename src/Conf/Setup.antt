-- ===== src/Conf/Setup.antt =====
-- environment.c: `setup_powaur_config`, which looks for powaur.conf and fills in what is not set.
use powaur.Base.{
  ℕ, ◌≤◌, ◌≡◌, refl, Bool, true, false, ◌||◌, List, [], ◌∷◌, ◌++◌, Option, none, some,
}
use powaur.Base.{if◌then◌else◌, ltb, ◌==◌, take, arith, or_else}
use powaur.Util.{Str}
use powaur.Conf.{pw_def_maxthreads, Settings, parse_powaur_config}

-- A path: there is no file (`stat` fails), `fopen` fails, or it has these lines.
pub data Found : Type 0 where
  absent unreadable : Found
  opened : List Str → Found

-- "/tmp/powaur"
abbrev pub pw_def_dir : Str
pw_def_dir = b'/' ∷ b't' ∷ b'm' ∷ b'p' ∷ b'/' ∷ b'p' ∷ b'o' ∷ b'w' ∷ b'a' ∷ b'u' ∷ b'r' ∷ []

-- "vim"
abbrev pub pw_def_editor : Str
pw_def_editor = b'v' ∷ b'i' ∷ b'm' ∷ []

-- From the label check_home on; `none` is a variable of the environment that is not set.
unfoldable pub check_home : Settings → Option Found → Settings
unfolding parse_powaur_config
check_home s none = s
check_home s (some absent) = s
check_home s (some unreadable) = s
check_home s (some (opened lines)) = parse_powaur_config s lines

unfoldable pub check_xdg : Settings → Option Found → Option Found → Settings
unfolding parse_powaur_config check_home
check_xdg s none home = check_home s home
check_xdg s (some absent) home = check_home s home
check_xdg s (some unreadable) home = check_home s home
check_xdg s (some (opened lines)) home = parse_powaur_config s lines

-- The name is that of the user, if `getpwuid` has one.
unfoldable pub default_dir : Option Str → Str
default_dir none = pw_def_dir
default_dir (some pw_name) = take 4095 (pw_def_dir ++ (b'-' ∷ pw_name))

unfoldable pub default_threads : ℕ → ℕ
default_threads n = if n == 0 || ltb pw_def_maxthreads n then pw_def_maxthreads else n

-- "Use default settings for unspecified options"
unfoldable pub use_defaults : Settings → Option Str → Settings
unfolding default_dir default_threads
use_defaults s user = record s {
  powaur_dir = or_else s.powaur_dir (some (default_dir user));
  powaur_editor = or_else s.powaur_editor (some pw_def_editor);
  powaur_maxthreads = default_threads s.powaur_maxthreads;
}

-- The globals, and config->maxthreads.
unfoldable pub setup_powaur_config :
    Settings → Option Found → Option Found → Option Str → Settings × ℕ
unfolding check_xdg use_defaults
setup_powaur_config s xdg_config_home home user =
    let s' = use_defaults (check_xdg s xdg_config_home home) user in (s', s'.powaur_maxthreads)

-- The file that counts.
abbrev pub lines_of : Option Found → List Str
lines_of (some (opened lines)) = lines
lines_of _ = []

abbrev pub is_opened : Option Found → Bool
is_opened (some (opened lines)) = true
is_opened _ = false

-- Settings with which downloads can start, given those of the file.
pub record IsReady (file s : Settings) (user : Option Str) (maxthreads : ℕ) : Type 0 where
  pub dir : s.powaur_dir ≡ some (elim file.powaur_dir [ none ↦ default_dir user | some d ↦ d ])
  pub editor :
      s.powaur_editor ≡ some (elim file.powaur_editor [ none ↦ pw_def_editor | some e ↦ e ])
  pub low : 1 ≤ maxthreads
  pub high : maxthreads ≤ pw_def_maxthreads
  pub given :
      (1 ≤ file.powaur_maxthreads) × (file.powaur_maxthreads ≤ pw_def_maxthreads)
      → maxthreads ≡ file.powaur_maxthreads

no_lines : (s : Settings) → parse_powaur_config s [] ≡ s
unfolding parse_powaur_config
no_lines s = refl

check_xdg-lines_of :
    (s : Settings) (xdg home : Option Found)
    → check_xdg s xdg home
      ≡ parse_powaur_config s (if is_opened xdg then lines_of xdg else lines_of home)
unfolding check_xdg check_home parse_powaur_config
check_xdg-lines_of s (some (opened lines)) home = refl
check_xdg-lines_of s none none = refl
check_xdg-lines_of s none (some absent) = refl
check_xdg-lines_of s none (some unreadable) = refl
check_xdg-lines_of s none (some (opened lines)) = refl
check_xdg-lines_of s (some absent) none = refl
check_xdg-lines_of s (some absent) (some absent) = refl
check_xdg-lines_of s (some absent) (some unreadable) = refl
check_xdg-lines_of s (some absent) (some (opened lines)) = refl
check_xdg-lines_of s (some unreadable) none = refl
check_xdg-lines_of s (some unreadable) (some absent) = refl
check_xdg-lines_of s (some unreadable) (some unreadable) = refl
check_xdg-lines_of s (some unreadable) (some (opened lines)) = refl

use_defaults-IsReady :
    (file : Settings) (user : Option Str)
    → IsReady file (use_defaults file user) user (use_defaults file user).powaur_maxthreads
unfolding use_defaults default_threads or_else
use_defaults-IsReady file user = record {
  dir = ground arith;
  editor = ground arith;
  low = ground arith;
  high = ground arith;
  given = λ h. ground (arith, h);
}

-- Whatever the globals are before, there is a directory, an editor and a number of threads from 1 to
-- 10 afterwards, also for the configuration: those of the file where it gives them, with a number in
-- that range, or else the defaults. The file is the one of $XDG_CONFIG_HOME if that can be opened,
-- and otherwise the one of $HOME; without either, nothing is read.
pub setup_powaur_config-IsReady :
    (s : Settings) (xdg home : Option Found) (user : Option Str)
    → IsReady
        (parse_powaur_config s (if is_opened xdg then lines_of xdg else lines_of home))
        (setup_powaur_config s xdg home user).0
        user
        (setup_powaur_config s xdg home user).1
unfolding setup_powaur_config
setup_powaur_config-IsReady s xdg home user =
    rw (← check_xdg-lines_of s xdg home) (use_defaults-IsReady (check_xdg s xdg home) user)
