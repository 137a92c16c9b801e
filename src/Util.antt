-- ===== src/Util.antt =====
-- util.c: the strings that the other parts hash, compare and trim. A string is the list of its
-- bytes before the terminator.
pub mod Compare
pub mod Trim
pub mod Equal
pub mod Wait
pub mod Ask
use powaur.Base.{
  ℕ, ◌+◌, ◌-◌, ◌*◌, ◌%◌, ◌^◌, ◌≡◌, Bool, true, false, ◌||◌, ◌&&◌, List, [], ◌∷◌, ◌++◌, Option, none,
  some, Ordering,
}
use powaur.Base.{ltb, leb, ◌==◌, if◌then◌else◌}
use powaur.Alloc.{u32_mod}
use Prim.Native.Nat.{compare}

abbrev pub Str : Type 0
Str = List ℕ

-- A `char` is signed: from 128 on it is negative, and in 32 bits 2 ^ 32 is added to it.
unfoldable pub char_to_u32 : ℕ → ℕ
char_to_u32 c = if ltb c 128 then c else (c + u32_mod) - 256

unfoldable pub sdbm_step : ℕ → ℕ → ℕ
unfolding char_to_u32
sdbm_step hash c =
    (char_to_u32 c + (hash * 2 ^ 6) % u32_mod + (hash * 2 ^ 16) % u32_mod + (u32_mod - hash))
    % u32_mod

-- `while (c = *str++)`
unfoldable pub sdbm_loop : ℕ → Str → ℕ
unfolding sdbm_step
sdbm_loop hash [] = hash
sdbm_loop hash (c ∷ str) = sdbm_loop (sdbm_step hash c) str

-- `none` is NULL.
unfoldable pub sdbm : Option Str → ℕ
unfolding sdbm_loop
sdbm none = 0
sdbm (some str) = sdbm_loop 0 str

-- The sign of the C library's `strcmp`.
unfoldable pub strcmp : Str → Str → Ordering
strcmp [] [] = Ordering.eq
strcmp [] (y ∷ b) = Ordering.lt
strcmp (x ∷ a) [] = Ordering.gt
strcmp (x ∷ a) (y ∷ b) = elim (compare x y) [
  | Ordering.lt ↦ Ordering.lt
  | Ordering.eq ↦ strcmp a b
  | Ordering.gt ↦ Ordering.gt
]

-- `strcmp(a, b) == 0`
unfoldable pub same_str : Str → Str → Bool
same_str [] [] = true
same_str [] (y ∷ b) = false
same_str (x ∷ a) [] = false
same_str (x ∷ a) (y ∷ b) = x == y && same_str a b

-- `strncmp(text, word, strlen(word)) == 0`
unfoldable pub starts_with : Str → Str → Bool
starts_with text [] = true
starts_with [] (y ∷ word) = false
starts_with (x ∷ text) (y ∷ word) = x == y && starts_with text word

-- The C library's `isspace`: a blank, or one of the five characters from the tab on.
unfoldable pub isspace : ℕ → Bool
isspace c = c == 32 || (leb 9 c && leb c 13)

unfoldable pub skip_spaces : Str → Str
unfolding isspace
skip_spaces [] = []
skip_spaces (c ∷ line) = if isspace c then skip_spaces line else c ∷ line

-- The second loop puts terminators over the spaces at the end.
unfoldable pub cut_spaces : Str → Str
unfolding isspace
cut_spaces [] = []
cut_spaces (c ∷ line) = elim (cut_spaces line) [
  | [] ↦ (if isspace c then [] else c ∷ [])
  | d ∷ rest ↦ c ∷ d ∷ rest
]

unfoldable pub strtrim : Str → Str
unfolding skip_spaces cut_spaces
strtrim line = cut_spaces (skip_spaces line)

-- A terminator over the first `sep`, where there is one.
unfoldable pub cut_at : ℕ → Str → Str
cut_at sep [] = []
cut_at sep (c ∷ line) = if c == sep then [] else c ∷ cut_at sep line

unfoldable pub strtrim_ver : Str → Str
unfolding cut_at strtrim
strtrim_ver line = strtrim (cut_at 61 (cut_at 62 (cut_at 60 line)))

-- The text before the first `sep` and the text behind it.
unfoldable pub split_at : ℕ → Str → Option (Str × Str)
split_at sep [] = none
split_at sep (c ∷ line) =
    let rest = split_at sep line in
    if c == sep
    then some ([], line)
    else (elim rest [ none ↦ none | some (key, val) ↦ some (c ∷ key, val) ])

-- Whether a string stands in a list.
unfoldable pub find_str : List Str → Str → Bool
unfolding same_str
find_str [] name = false
find_str (x ∷ list) name = same_str x name || find_str list name
