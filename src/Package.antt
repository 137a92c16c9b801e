-- ===== src/Package.antt =====
-- package.c: `substitute_vars`, which puts the values of bash variables into a buffer. The buffer is
-- an array of bytes with a terminator, 0; an access outside of it is a fault.
pub mod Loops
pub mod Bytes
pub mod Grows
pub mod Arrays
pub mod Pkgbuild
pub mod Words
pub mod Tokens
pub mod Behind
pub mod Resolve
pub mod Deps
use powaur.Base.{
  ℕ, zero, suc, ◌+◌, ◌-◌, ◌*◌, Bool, true, false, ◌&&◌, ◌||◌, List, [], ◌∷◌, ◌++◌, Option, none,
  some, map,
}
use powaur.Base.{
  length, ltb, leb, ◌==◌, if◌then◌else◌, take, get_or, set, replicate, Run, ok, spin, fault, ◌>>=◌,
}
use powaur.Util.{Str}

abbrev pub drop : ℕ → Str → Str
drop zero s = s
drop (suc n) [] = []
drop (suc n) (c ∷ s) = drop n s

-- `strchr`, for a byte that is not the terminator: how far away it is.
unfoldable pub find_byte : ℕ → Str → Option ℕ
find_byte c [] = none
find_byte c (x ∷ s) = elim (x == 0) [
  | true ↦ none
  | false ↦ elim (x == c) [
    | true ↦ some 0
    | false ↦ elim (find_byte c s) [ none ↦ none | some n ↦ some (suc n) ]
  ]
]

unfoldable pub strchr : Str → ℕ → ℕ → Option ℕ
unfolding find_byte
strchr str s c = elim (find_byte c (drop s str)) [ none ↦ none | some n ↦ some (s + n) ]

-- The C library's, in the C locale.
unfoldable pub isalnum : ℕ → Bool
isalnum c = (leb b'0' c && leb c b'9') || (leb b'A' c && leb c b'Z') || (leb b'a' c && leb c b'z')

-- `while (q && (*q == '_' || isalnum(*q)))`
unfoldable pub name_length : Str → ℕ
unfolding isalnum
name_length [] = 0
name_length (c ∷ s) = let rest = name_length s in if c == b'_' || isalnum c then suc rest else 0

unfoldable pub write_byte : Str → ℕ → ℕ → Run Str
write_byte str i c = if ltb i (length str) then ok (set str i c) else fault

-- `for (i = len-1; i >= st; i--) str[i+diff] = str[i]`, for a number of bytes.
unfoldable pub shift_backwards : ℕ → ℕ → ℕ → Str → Run Str
unfolding write_byte
shift_backwards zero st diff str = ok str
shift_backwards (suc n) st diff str =
    write_byte str (st + n + diff) (get_or str (st + n) 0) >>= λ moved.
    shift_backwards n st diff moved

-- `for (i = st; i < len; i++) str[i-diff] = str[i]`
unfoldable pub shift_forwards : ℕ → ℕ → ℕ → Str → Run Str
unfolding write_byte
shift_forwards zero st diff str = ok str
shift_forwards (suc n) st diff str =
    write_byte str (st - diff) (get_or str st 0) >>= λ moved. shift_forwards n (suc st) diff moved

-- `while (*sub) *p++ = *sub++`
unfoldable pub copy : Str → ℕ → Str → Run Str
unfolding write_byte
copy [] p str = ok str
copy (c ∷ sub) p str = write_byte str p c >>= λ copied. copy sub (suc p) copied

-- What the loop goes on with, or that it breaks.
pub data Scanned : Type 0 where
  go : (str : Str) (s len : ℕ) → Scanned
  stop : Str → Scanned

-- The reference is from `p` up to `q`. Where the value has the reference's length, nothing is
-- written and `p` stays.
unfoldable pub replace : ℕ → Str → ℕ → ℕ → ℕ → Str → Run Scanned
unfolding shift_backwards shift_forwards copy write_byte
replace maxlen str len p q sub =
    if ltb (q - p) (length sub)
    then (if ltb maxlen (len + (length sub - (q - p)))
        then ok (stop str)
        else (shift_backwards (len - q) q (length sub - (q - p)) str >>= λ moved.
            copy sub p moved >>= λ copied.
            ok (go copied (p + length sub) (len + (length sub - (q - p))))))
    else (if ltb (length sub) (q - p)
        then (if ltb (len + length sub) (q - p)
            then ok (stop str)
            else (shift_forwards (len - q) q (q - p - length sub) str >>= λ moved.
                copy sub p moved >>= λ copied.
                write_byte copied (len + length sub - (q - p)) 0 >>= λ cut.
                ok (go cut (p + length sub) (len + length sub - (q - p)))))
        else ok (go str p len))

-- `search` is `hashmap_search` in the table of the variables.
module _ (search : Str → Option Str) (maxlen : ℕ) where
  -- `${name}`, with the '$' at `p`.
  unfoldable pub braced : Str → ℕ → ℕ → Run Scanned
  unfolding replace strchr
  braced str len p = elim (strchr str (p + 2) b'}') [
    | none ↦ ok (stop str)
    | some q ↦
        if leb q (p + 2)
        then ok (go str (q + 1) len)
        else (elim (search (take (q - p - 2) (drop (p + 2) str))) [
          | none ↦ ok (go str (q + 1) len)
          | some sub ↦ replace maxlen str len p (q + 1) sub
        ])
  ]

  -- `$name`
  unfoldable pub plain : Str → ℕ → ℕ → Run Scanned
  unfolding replace name_length
  plain str len p = elim (name_length (drop (p + 1) str)) [
    | zero ↦ ok (go str (p + 1) len)
    | suc k ↦ elim (search (take (suc k) (drop (p + 1) str))) [
      | none ↦ ok (go str (p + 1 + suc k) len)
      | some sub ↦ replace maxlen str len p (p + 1 + suc k) sub
    ]
  ]

  unfoldable pub scan_round : Str → ℕ → ℕ → Run Scanned
  unfolding strchr braced plain
  scan_round str s len = elim (strchr str s b'$') [
    | none ↦ ok (stop str)
    | some p ↦
        if get_or str (p + 1) 0 == 0
        then ok (stop str)
        else (if get_or str (p + 1) 0 == b'{' then braced str len p else plain str len p)
  ]

  -- The loop, for a number of rounds.
  unfoldable pub substitute_loop : ℕ → Str → ℕ → ℕ → Run Str
  unfolding scan_round
  substitute_loop zero str s len = spin
  substitute_loop (suc rounds) str s len = scan_round str s len >>= λ r. elim r [
    | go str' s' len' ↦ substitute_loop rounds str' s' len'
    | stop str' ↦ ok str'
  ]

-- `strlen`
unfoldable pub strlen : Str → ℕ
strlen [] = 0
strlen (c ∷ str) = let rest = strlen str in if c == 0 then 0 else suc rest

unfoldable pub substitute_vars : (Str → Option Str) → ℕ → ℕ → Str → Run Str
unfolding strlen substitute_loop
substitute_vars search maxlen rounds str = substitute_loop search maxlen rounds str 0 (strlen str)
