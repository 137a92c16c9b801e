-- ===== src/Alloc/Bounds.antt =====
-- hash.c: `new_alloc_size` grows a size by enough.
use powaur.Base.{ℕ, zero, suc, ◌+◌, ◌<◌, ◌≤◌, ◌≡◌, refl, List, [], ◌∷◌}
use powaur.Base.{some, Bool, true, Bool-cases, Option-cases, inl, inr, ◌&&◌}
use powaur.Base.{leb, ltb, ◌==◌, length, get_or, arith}
use powaur.Alloc.{u32_mod, prime_list, uint_cmp, bsearch, widen, next_prime, new_alloc_size}

-- The last size below which `(old_size + 16) * 3` fits 32 bits.
abbrev pub widest : ℕ
widest = 1431655749

-- The code sets each element two above the one before, below 2 ^ 32.
abbrev ascending : List ℕ → Bool
ascending [] = true
ascending (x ∷ []) = ltb x u32_mod
ascending (x ∷ y ∷ xs) = leb (x + 24) y && ascending (y ∷ xs)

primes_ascending : ascending prime_list ≡ true
primes_ascending = refl

ascending-step :
    (xs : List ℕ) (k : ℕ)
    → ascending xs ≡ true
    → suc k < length xs
    → get_or xs k 0 + 24 ≤ get_or xs (suc k) 0
ascending-step [] k a h = absurd (omega arith)
ascending-step (x ∷ []) k a h = absurd (omega arith)
ascending-step (x ∷ y ∷ xs) zero a h = ground arith
ascending-step (x ∷ y ∷ xs) (suc k) a h = ascending-step (y ∷ xs) k (ground arith) (omega arith)

uint_cmp_eq : (a b : ℕ) → a < u32_mod → b < u32_mod → uint_cmp a b ≡ 0 → a ≡ b
unfolding uint_cmp
uint_cmp_eq a b h k e = omega arith

abbrev Small : List ℕ → Type 0
Small [] = Unit
Small (x ∷ xs) = (x < u32_mod) × Small xs

-- An element that `bsearch` finds is the key.
bsearch-get_or :
    (key : ℕ) (xs : List ℕ) (i j : ℕ)
    → key < u32_mod
    → Small xs
    → bsearch key xs i ≡ some j
    → (k : ℕ) × (j ≡ i + k) × (k < length xs) × (get_or xs k 0 ≡ key)
unfolding bsearch
bsearch-get_or key [] i j lt small h = ground arith
bsearch-get_or key (x ∷ xs) i j lt small h = elim (Bool-cases (uint_cmp key x == 0)) [
  | inl e ↦ (0, ground arith, omega arith, ground (arith, uint_cmp_eq key x))
  | inr e ↦
      let (k, at, fits, found) = bsearch-get_or key xs (i + 1) j lt small.1 (rw e at h) in
      (suc k, omega arith, omega arith, found)
]

widen-grows : (n : ℕ) → n < widest → n + 24 ≤ widen n
unfolding widen
widen-grows n h = omega arith

widen-lt : (n : ℕ) → widen n < u32_mod
unfolding widen
widen-lt n = omega arith

Small-get_or : (xs : List ℕ) (k : ℕ) → Small xs → get_or xs k 0 < u32_mod
Small-get_or [] k small = omega arith
Small-get_or (x ∷ xs) zero small = small.0
Small-get_or (x ∷ xs) (suc k) small = Small-get_or xs k small.1

next_prime-lt : (n i : ℕ) → next_prime n i < u32_mod
unfolding next_prime
next_prime-lt n i = ground (arith, widen-lt n, Small-get_or prime_list (i + 1) (omega arith))

-- The new size fits 32 bits; from a size below the widest it is larger by at least 24.
pub new_alloc_size-grows :
    (n : ℕ) → (new_alloc_size n < u32_mod) × (n < widest → n + 24 ≤ new_alloc_size n)
unfolding new_alloc_size next_prime
new_alloc_size-grows n = elim (Option-cases (bsearch n prime_list 0)) [
  | inl e ↦ rw (e, new_alloc_size) (widen-lt n, widen-grows n)
  | inr (j, e) ↦
      rw (e, new_alloc_size)
        (
          next_prime-lt n j,
          λ h.
              let (k, at, fits, found) =
                bsearch-get_or n prime_list 0 j (omega arith) (omega arith) e in
              ground (arith, widen-grows n, ascending-step prime_list k primes_ascending),
        )
]
