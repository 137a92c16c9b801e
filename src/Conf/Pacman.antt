-- ===== src/Conf/Pacman.antt =====
-- conf.c: `parse_pmconfig`, which reads the file of pacman, and environment.c:
-- `setup_pacman_environment`. The code is handed the lines that `fgets` reads.
pub mod Sections
pub mod Official
pub mod Ends
use powaur.Base.{
  ℕ, zero, suc, ◌+◌, Bool, true, false, not, ◌&&◌, ◌||◌, List, [], ◌∷◌, ◌++◌, Option, none, some,
}
use powaur.Base.{length, ◌==◌, if◌then◌else◌, Run, ok, spin, fault, ◌>>=◌}
use powaur.Util.{Str, strtrim, split_at, same_str, starts_with}

-- `ROOTDIR`, `DBPATH`, `CACHEDIR` and `OPT`.
abbrev pub root_dir : Str
root_dir = b'R' ∷ b'o' ∷ b'o' ∷ b't' ∷ b'D' ∷ b'i' ∷ b'r' ∷ []

abbrev pub db_path : Str
db_path = b'D' ∷ b'B' ∷ b'P' ∷ b'a' ∷ b't' ∷ b'h' ∷ []

abbrev pub cache_dir : Str
cache_dir = b'C' ∷ b'a' ∷ b'c' ∷ b'h' ∷ b'e' ∷ b'D' ∷ b'i' ∷ b'r' ∷ []

abbrev pub opt : Str
opt = b'o' ∷ b'p' ∷ b't' ∷ b'i' ∷ b'o' ∷ b'n' ∷ b's' ∷ []

-- A global with its two static flags: whether a line set it, and whether a commented line did.
pub record Setting {ℓ} (A : Type ℓ) : Type ℓ where
  pub flag : Bool
  pub flag_com : Bool
  pub value : A

pub record Pmconf : Type 0 where
  pub rootdir : Setting (Option Str)
  pub dbpath : Setting (Option Str)
  pub cachedirs : Setting (List Str)
  pub syncdbs : List Str

module _ {ℓ} {A : Type ℓ} where
  -- `(comment && (*flag || *flag_com)) || (!comment && *flag)`
  unfoldable pub is_set : Setting A → Bool → Bool
  is_set s comment = (comment && (s.flag || s.flag_com)) || (not comment && s.flag)

  unfoldable pub put : Setting A → Bool → A → Setting A
  put s comment a =
      if comment
      then record s { flag_com = true; value = a }
      else record s { flag = true; value = a }

-- Without '=' `strsep` leaves NULL, which `strtrim` reads.
unfoldable pub parse_pmoption_keyval :
    Setting (Option Str) → Str → Bool → Run (Setting (Option Str))
unfolding is_set put
parse_pmoption_keyval s line comment =
    if is_set s comment then ok s else (elim (split_at b'=' line) [
      | none ↦ fault
      | some (key, val) ↦ elim (strtrim val) [
        | [] ↦ ok s
        | c ∷ text ↦ ok (put s comment (some (c ∷ text)))
      ]
    ])

-- `while (ptr = strchr(line, ' '))`, for a number of rounds.
unfoldable pub words : ℕ → Str → Run (List Str)
words zero line = spin
words (suc rounds) line = elim (split_at b' ' line) [
  | none ↦ ok (line ∷ [])
  | some (word, rest) ↦ words rounds (strtrim rest) >>= λ more. ok (word ∷ more)
]

-- The old list is gone as soon as there is a '='.
unfoldable pub parse_pmoption_repeat : Setting (List Str) → Str → Bool → Run (Setting (List Str))
unfolding is_set put
parse_pmoption_repeat s line comment =
    if is_set s comment then ok s else (elim (split_at b'=' line) [
      | none ↦ ok s
      | some (key, val) ↦ elim (strtrim val) [
        | [] ↦ ok (record s { value = [] })
        | c ∷ text ↦ words (suc (length (c ∷ text))) (c ∷ text) >>= λ dirs. ok (put s comment dirs)
      ]
    ])

-- An option without a comment sign that was set by such a line before is an error, `true`.
unfoldable pub parse_option : Pmconf → Str → Bool → Run (Pmconf × Bool)
parse_option env line comment =
    if starts_with line root_dir
    then (if not comment && env.rootdir.flag
        then ok (env, true)
        else (parse_pmoption_keyval env.rootdir line comment >>= λ s.
            ok (record env { rootdir = s }, false)))
    else (if starts_with line db_path
        then (if not comment && env.dbpath.flag
            then ok (env, true)
            else (parse_pmoption_keyval env.dbpath line comment >>= λ s.
                ok (record env { dbpath = s }, false)))
        else (if starts_with line cache_dir
            then (if not comment && env.cachedirs.flag
                then ok (env, true)
                else (parse_pmoption_repeat env.cachedirs line comment >>= λ s.
                    ok (record env { cachedirs = s }, false)))
            else ok (env, false)))

-- `_parse_pmoption`
unfoldable pub parse_pmoption : Pmconf → Str → Run (Pmconf × Bool)
parse_pmoption env [] = parse_option env [] false
parse_pmoption env (c ∷ line) =
    if c == b'#'
    then (elim (strtrim line) [
      | [] ↦ ok (env, false)
      | d ∷ text ↦ parse_option env (d ∷ text) true
    ])
    else parse_option env (c ∷ line) false

pub record Scan : Type 0 where
  pub env : Pmconf
  pub in_options : Bool
  pub parsed_options : Bool

-- The text before a ']' at the end.
unfoldable pub before_bracket : Str → Option Str
before_bracket [] = none
before_bracket (c ∷ []) = if c == b']' then some [] else none
before_bracket (c ∷ d ∷ line) = elim (before_bracket (d ∷ line)) [
  | none ↦ none
  | some text ↦ some (c ∷ text)
]

-- `line[0] == '[' && line[len-1] == ']'`, with the name between the brackets.
unfoldable pub section_name : Str → Option Str
section_name [] = none
section_name (c ∷ line) =
    if c == b'['
    then (elim (before_bracket line) [ none ↦ none | some text ↦ some (strtrim text) ])
    else none

-- `len == 0 || (!in_options && line[0] == '#')`
unfoldable pub is_ignored : Bool → Str → Bool
is_ignored in_options [] = true
is_ignored in_options (c ∷ line) = not in_options && c == b'#'

unfoldable pub enter_section : Scan → Str → Scan × Bool
enter_section s name =
    if same_str name opt
    then (if s.parsed_options
        then (s, true)
        else (record s { in_options = true; parsed_options = true }, false))
    else (elim name [
      | [] ↦ (s, true)
      | c ∷ text ↦ (
        record s {
          in_options = false;
          env = record s.env { syncdbs = s.env.syncdbs ++ ((c ∷ text) ∷ []) };
        },
        false,
      )
    ])

-- One round of the loop; `true` is the result -1.
unfoldable pub parse_pmline : Scan → Str → Run (Scan × Bool)
parse_pmline s line =
    let trimmed = strtrim line in
    if is_ignored s.in_options trimmed then ok (s, false) else (elim (section_name trimmed) [
      | some name ↦ ok (enter_section s name)
      | none ↦
          if s.in_options
          then (parse_pmoption s.env trimmed >>= λ r. ok (record s { env = r.0 }, r.1))
          else ok (s, false)
    ])

unfoldable pub parse_pmlines : Scan → List Str → Run (Pmconf × Bool)
parse_pmlines s [] = ok (s.env, false)
parse_pmlines s (line ∷ lines) = parse_pmline s line >>= λ r. elim r.1 [
  | true ↦ ok (r.0.env, true)
  | false ↦ parse_pmlines r.0 lines
]

-- `none` is a file that does not open.
unfoldable pub parse_pmconfig : Pmconf → Option (List Str) → Run (Pmconf × Bool)
unfolding parse_pmlines
parse_pmconfig env none = ok (env, true)
parse_pmconfig env (some lines) =
    parse_pmlines (record { env = env; in_options = false; parsed_options = false }) lines

-- "/", "/var/lib/pacman/" and "/var/cache/pacman/pkg/"
abbrev pub def_rootdir : Str
def_rootdir = b'/' ∷ []

abbrev pub def_dbpath : Str
def_dbpath =
    b'/' ∷ b'v' ∷ b'a' ∷ b'r' ∷ b'/' ∷ b'l' ∷ b'i' ∷ b'b' ∷ b'/' ∷ b'p' ∷ b'a' ∷ b'c' ∷ b'm' ∷ b'a'
    ∷ b'n' ∷ b'/' ∷ []

abbrev pub def_cachedir : Str
def_cachedir =
    b'/' ∷ b'v' ∷ b'a' ∷ b'r' ∷ b'/' ∷ b'c' ∷ b'a' ∷ b'c' ∷ b'h' ∷ b'e' ∷ b'/' ∷ b'p' ∷ b'a' ∷ b'c'
    ∷ b'm' ∷ b'a' ∷ b'n' ∷ b'/' ∷ b'p' ∷ b'k' ∷ b'g' ∷ b'/' ∷ []

-- What the file did not set.
unfoldable pub with_defaults : Pmconf → Pmconf
with_defaults env = record env {
  rootdir = record env.rootdir {
    value = some (elim env.rootdir.value [ none ↦ def_rootdir | some dir ↦ dir ]);
  };
  dbpath = record env.dbpath {
    value = some (elim env.dbpath.value [ none ↦ def_dbpath | some dir ↦ dir ]);
  };
  cachedirs = record env.cachedirs {
    value = elim env.cachedirs.value [ [] ↦ def_cachedir ∷ [] | dir ∷ dirs ↦ dir ∷ dirs ];
  };
}

-- `alpm_initialize` and `alpm_db_register_sync` are libalpm's: whether they succeed.
module _ (alpm_initialize : Pmconf → Bool) (alpm_db_register_sync : Str → Bool) where
  unfoldable pub register_all : List Str → Bool
  register_all [] = true
  register_all (db ∷ dbs) = alpm_db_register_sync db && register_all dbs

  unfoldable pub start_alpm : Pmconf → Pmconf × Bool
  unfolding register_all
  start_alpm env = (env, not (alpm_initialize env && register_all env.syncdbs))

  unfoldable pub setup_pacman_environment : Pmconf → Option (List Str) → Bool → Run (Pmconf × Bool)
  unfolding start_alpm with_defaults
  setup_pacman_environment env file reload =
      let old =
        if reload then record env { cachedirs = record env.cachedirs { value = [] } } else env in
      (parse_pmconfig old file >>= λ r. elim r.1 [
        | true ↦ ok (record r.0 { cachedirs = record r.0.cachedirs { value = [] } }, true)
        | false ↦ ok (start_alpm (with_defaults r.0))
      ])
