-- ===== src/Util/Ask.antt =====
-- util.c: questions to the user, and the `.install` file that a PKGBUILD names. Input is the list of
-- what the calls of `fgets` read; behind the last it gives NULL, which `strtrim` reads.
use powaur.Base.{ℕ, suc, ◌+◌, Bool, true, false, ◌&&◌, ◌||◌, List, [], ◌∷◌, Option, none, some}
use powaur.Base.{if◌then◌else◌, leb, ◌==◌, map, Run, fault, ok}
use powaur.Util.{Str, strtrim, starts_with, same_str, split_at}

-- The index of the first choice that is the first byte of the answer, or -1.
unfoldable pub check_mcq_response : ℕ → Str → Option ℕ
check_mcq_response resp [] = none
check_mcq_response resp (choice ∷ choices) =
    let rest = check_mcq_response resp choices in
    if resp == choice then some 0 else (elim rest [ none ↦ none | some i ↦ some (suc i) ])

-- With the input that is left.
unfoldable pub mcq : Str → ℕ → List Str → Run (ℕ × List Str)
unfolding strtrim check_mcq_response
mcq choices preset [] = fault
mcq choices preset (response ∷ input) = elim (strtrim response) [
  | [] ↦ ok (preset, input)
  | c ∷ str ↦ elim (check_mcq_response c choices) [
    | some ans ↦ ok (ans, input)
    | none ↦ mcq choices preset input
  ]
]

abbrev pub to_lower : ℕ → ℕ
to_lower c = if leb b'A' c && leb c b'Z' then c + 32 else c

-- `!strcasecmp(str, word)`, for a word in small letters.
unfoldable pub same_word : Str → Str → Bool
unfolding same_str
same_word str word = same_str (map to_lower str) word

abbrev pub is_no : Str → Bool
is_no str = same_word str (b'n' ∷ []) || same_word str (b'n' ∷ b'o' ∷ [])

abbrev pub is_yes : Str → Bool
is_yes str = same_word str (b'y' ∷ []) || same_word str (b'y' ∷ b'e' ∷ b's' ∷ [])

unfoldable pub question : Bool → List Str → Run (Bool × List Str)
unfolding strtrim same_word
question preset [] = fault
question preset (response ∷ input) = elim (strtrim response) [
  | [] ↦ ok (preset, input)
  | c ∷ str ↦ elim (is_no (c ∷ str)) [
    | true ↦ ok (false, input)
    | false ↦ elim (is_yes (c ∷ str)) [ true ↦ ok (true, input) | false ↦ question preset input ]
  ]
]

unfoldable pub yesno : List Str → Run (Bool × List Str)
unfolding question
yesno = question true

-- "install"
abbrev pub install_word : Str
install_word = b'i' ∷ b'n' ∷ b's' ∷ b't' ∷ b'a' ∷ b'l' ∷ b'l' ∷ []

-- The text behind the first '='; `none` where there is none, or nothing behind it.
unfoldable pub install_value : Str → Option Str
unfolding split_at strtrim
install_value str = elim (split_at b'=' str) [
  | none ↦ none
  | some (name, value) ↦ elim (strtrim value) [ [] ↦ none | c ∷ text ↦ some (c ∷ text) ]
]

unfoldable pub dotinstall_of : List Str → Option Str
unfolding strtrim starts_with install_value
dotinstall_of [] = none
dotinstall_of (line ∷ lines) =
    if starts_with (strtrim line) install_word
    then install_value (strtrim line)
    else dotinstall_of lines

-- `none` is a file that does not open.
unfoldable pub have_dotinstall : Option (List Str) → Option Str
unfolding dotinstall_of
have_dotinstall none = none
have_dotinstall (some lines) = dotinstall_of lines
