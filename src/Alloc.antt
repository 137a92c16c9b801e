-- ===== src/Alloc.antt =====
-- hash.c: the sizes to which tables and arrays grow.
pub mod Bounds
use powaur.Base.{
  ℕ, suc, ◌+◌, ◌-◌, ◌*◌, ◌/◌, ◌%◌, ◌^◌, ◌<◌, ◌≤◌, ◌≡◌, List, [], ◌∷◌, Option, none, some,
}
use powaur.Base.{ltb, leb, ◌==◌, if◌then◌else◌, length, get_or, arith, ◌||◌}

abbrev pub u32_mod : ℕ
u32_mod = 2 ^ 32

abbrev pub prime_list : List ℕ
prime_list =
    109 ∷ 227 ∷ 467 ∷ 953 ∷ 2029 ∷ 4349 ∷ 4703 ∷ 10273 ∷ 22447 ∷ 45481 ∷ 92203 ∷ 202409 ∷ 410857
    ∷ 834181 ∷ 902483 ∷ 976369 ∷ 20000003 ∷ []

-- The difference of two unsigned numbers, which is zero only if they are equal.
uint_cmp : ℕ → ℕ → ℕ
uint_cmp a b = (a + (u32_mod - b)) % u32_mod

-- The library's `bsearch`: the index of an element that compares as equal.
bsearch : ℕ → List ℕ → ℕ → Option ℕ
unfolding uint_cmp
bsearch key [] i = none
bsearch key (x ∷ xs) i =
    let rest = bsearch key xs (i + 1) in if uint_cmp key x == 0 then some i else rest

-- `(old_size + 16) * 3/2` on 32 bits.
widen : ℕ → ℕ
widen old_size = (old_size + 16) % u32_mod * 3 % u32_mod / 2

-- `ptr[1]`, if there is one.
next_prime : ℕ → ℕ → ℕ
unfolding widen
next_prime old_size i =
    if leb (length prime_list) (i + 1) then widen old_size else get_or prime_list (i + 1) 0

unfoldable pub new_alloc_size : ℕ → ℕ
unfolding bsearch widen next_prime
new_alloc_size old_size = elim (bsearch old_size prime_list 0) [
  | none ↦ widen old_size
  | some i ↦ next_prime old_size i
]
