-- ===== src/Conf.antt =====
-- conf.c: `parse_powaur_config`. The code is handed the lines that `fgets` reads.
pub mod Lines
pub mod Pacman
pub mod Setup
use powaur.Base.{
  ℕ, ◌+◌, ◌-◌, ◌*◌, ◌%◌, ◌^◌, Bool, true, false, ◌&&◌, ◌||◌, List, [], ◌∷◌, Option, none, some,
  if◌then◌else◌, ltb, leb, ◌==◌,
}
use powaur.Util.{split_at, Str, strtrim, skip_spaces, same_str}

abbrev pub pw_def_maxthreads : ℕ
pw_def_maxthreads = 10

-- The words of the file, and "On" and "Off".
abbrev editor_key : Str
editor_key = 69 ∷ 100 ∷ 105 ∷ 116 ∷ 111 ∷ 114 ∷ []

abbrev tmp_dir_key : Str
tmp_dir_key = 84 ∷ 109 ∷ 112 ∷ 68 ∷ 105 ∷ 114 ∷ []

abbrev max_threads_key : Str
max_threads_key = 77 ∷ 97 ∷ 120 ∷ 84 ∷ 104 ∷ 114 ∷ 101 ∷ 97 ∷ 100 ∷ 115 ∷ []

abbrev color_key : Str
color_key = 67 ∷ 111 ∷ 108 ∷ 111 ∷ 114 ∷ []

abbrev no_confirm_key : Str
no_confirm_key = 78 ∷ 111 ∷ 67 ∷ 111 ∷ 110 ∷ 102 ∷ 105 ∷ 114 ∷ 109 ∷ []

abbrev on : Str
on = 79 ∷ 110 ∷ []

abbrev off : Str
off = 79 ∷ 102 ∷ 102 ∷ []

-- The globals that the file sets, and whether --threads was given. `color` is an unsigned short.
pub record Settings : Type 0 where
  pub powaur_editor : Option Str
  pub powaur_dir : Option Str
  pub powaur_maxthreads : ℕ
  pub opt_maxthreads : Bool
  pub color : ℕ
  pub noconfirm : Bool

-- The value of the digits at the front of a text.
unfoldable pub digits : ℕ → Str → ℕ
digits n [] = n
digits n (c ∷ text) =
    let more = digits (n * 10 + (c - 48)) text in if leb 48 c && leb c 57 then more else n

-- `atoi`, below the numbers that do not fit an int; `none` is a negative number.
unfoldable pub atoi_signed : Str → Option ℕ
atoi_signed [] = some 0
atoi_signed (c ∷ text) =
    if c == 45
    then (let n = digits 0 text in if n == 0 then some 0 else none)
    else (if c == 43 then some (digits 0 text) else some (digits 0 (c ∷ text)))

unfoldable pub atoi : Str → Option ℕ
atoi text = atoi_signed (skip_spaces text)

-- `powaur_maxthreads < 1 || powaur_maxthreads > PW_DEF_MAXTHREADS`
unfoldable pub threads_of : Option ℕ → ℕ
threads_of none = 0
threads_of (some n) = if ltb n 1 || ltb pw_def_maxthreads n then 0 else n

unfoldable pub set_color : Settings → Str → Settings
set_color s val =
    if same_str val off && ltb 0 s.color
    then record s { color = s.color - 1 }
    else (if same_str val on then record s { color = (s.color + 1) % 2 ^ 16 } else s)

unfoldable pub set_noconfirm : Settings → Str → Settings
set_noconfirm s val =
    if same_str val off && s.noconfirm
    then record s { noconfirm = false }
    else (if same_str val on then record s { noconfirm = true } else s)

unfoldable pub set_threads : Settings → Str → Settings
set_threads s val =
    if s.opt_maxthreads then s else record s { powaur_maxthreads = threads_of (atoi val) }

unfoldable pub set_key : Settings → Str → Str → Settings
set_key s key val =
    if same_str key editor_key
    then record s { powaur_editor = some val }
    else (if same_str key tmp_dir_key
        then record s { powaur_dir = some val }
        else (if same_str key max_threads_key
            then set_threads s val
            else (if same_str key color_key
                then set_color s val
                else (if same_str key no_confirm_key then set_noconfirm s val else s))))

-- `!len || line[0] == '#'`
unfoldable pub is_comment : Str → Bool
is_comment [] = true
is_comment (c ∷ line) = c == 35

unfoldable pub parse_line : Settings → Str → Settings
parse_line s line =
    let trimmed = strtrim line in
    if is_comment trimmed then s else (elim (split_at b'=' trimmed) [
      | none ↦ s
      | some (key, val) ↦ set_key s (strtrim key) (strtrim val)
    ])

unfoldable pub parse_powaur_config : Settings → List Str → Settings
parse_powaur_config s [] = s
parse_powaur_config s (line ∷ lines) = parse_powaur_config (parse_line s line) lines
