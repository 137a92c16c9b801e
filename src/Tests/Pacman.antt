-- ===== src/Tests/Pacman.antt =====
-- Tests of pacman's file and of the downloads.
use powaur.Base.{◌≤◌, ◌≡◌, ◌≢◌, refl, true, false, List, [], ◌∷◌, ◌++◌, none, some}
use powaur.Base.{Run, ok, spin}
use powaur.Util.{split_at, Str, strtrim, starts_with, same_str}
use powaur.Conf.Pacman.{
  Pmconf, opt, parse_pmlines, parse_pmline, parse_pmoption, parse_option, parse_pmoption_keyval,
  parse_pmoption_repeat, words, is_set, put, enter_section, is_ignored, section_name,
  before_bracket, parse_pmconfig, setup_pacman_environment,
}
use powaur.Conf.Pacman.Sections.{repositories, option_sections, parse_pmconfig-sections}
use powaur.Conf.Pacman.Official.{Keeps, parse_pmconfig-Keeps}
use powaur.Conf.Pacman.Ends.{setup_pacman_environment-Ends}

pacman_program : Unit {0}
unfolding split_at strtrim starts_with same_str parse_pmlines parse_pmline parse_pmoption
    parse_option parse_pmoption_keyval parse_pmoption_repeat words is_set put enter_section
    is_ignored section_name before_bracket parse_pmconfig setup_pacman_environment
pacman_program = tt

abbrev unset : Pmconf
unset = record {
  rootdir = record { flag = false; flag_com = false; value = none };
  dbpath = record { flag = false; flag_com = false; value = none };
  cachedirs = record { flag = false; flag_com = false; value = [] };
  syncdbs = [];
}

-- "[options]", "#RootDir = /", "RootDir = /x", "CacheDir = /a /b" and "[core]"
abbrev lines : List Str
lines =
    (b'[' ∷ (opt ++ (b']' ∷ [])))
    ∷ (b'#' ∷ b'R' ∷ b'o' ∷ b'o' ∷ b't' ∷ b'D' ∷ b'i' ∷ b'r' ∷ b' ' ∷ b'=' ∷ b' ' ∷ b'/' ∷ [])
    ∷ (b'R' ∷ b'o' ∷ b'o' ∷ b't' ∷ b'D' ∷ b'i' ∷ b'r' ∷ b' ' ∷ b'=' ∷ b' ' ∷ b'/' ∷ b'x' ∷ [])
    ∷ (b'C' ∷ b'a' ∷ b'c' ∷ b'h' ∷ b'e' ∷ b'D' ∷ b'i' ∷ b'r' ∷ b'=' ∷ b'/' ∷ b'a' ∷ b' ' ∷ b'/'
        ∷ b'b' ∷ [])
    ∷ (b'[' ∷ b'c' ∷ b'o' ∷ b'r' ∷ b'e' ∷ b']' ∷ [])
    ∷ []

abbrev core : Str
core = b'c' ∷ b'o' ∷ b'r' ∷ b'e' ∷ []

abbrev read : Pmconf
read = record {
  rootdir = record { flag = true; flag_com = true; value = some (b'/' ∷ b'x' ∷ []) };
  dbpath = record { flag = false; flag_com = false; value = none };
  cachedirs = record {
    flag = true;
    flag_com = false;
    value = (b'/' ∷ b'a' ∷ []) ∷ (b'/' ∷ b'b' ∷ []) ∷ [];
  };
  syncdbs = core ∷ [];
}

lines_read : parse_pmconfig unset (some lines) ≡ ok (read, false)
unfolding pacman_program
lines_read = refl

parse_pmconfig-sections_example :
    (core ∷ [] ≡ [] ++ repositories lines) × (option_sections lines ≤ 1)
parse_pmconfig-sections_example = parse_pmconfig-sections unset read lines lines_read

-- A second line for the root is an error, and the root stays.
again_read : parse_pmconfig read (some lines) ≡ ok (read, true)
unfolding pacman_program
again_read = refl

parse_pmconfig-Keeps_example : Keeps read read
parse_pmconfig-Keeps_example = parse_pmconfig-Keeps read read (some lines) true again_read

-- Without an equals sign there is nothing to trim.
no_value :
    parse_pmconfig unset
      (some ((b'[' ∷ (opt ++ (b']' ∷ []))) ∷ (b'D' ∷ b'B' ∷ b'P' ∷ b'a' ∷ b't' ∷ b'h' ∷ []) ∷ []))
    ≡ Run.fault
unfolding pacman_program
no_value = refl

setup_pacman_environment-Ends_example :
    setup_pacman_environment (λ env. true) (λ db. true) unset (some lines) false ≢ spin
setup_pacman_environment-Ends_example =
    setup_pacman_environment-Ends (λ env. true) (λ db. true) unset (some lines) false
