-- ===== src/Hash/Keys.antt =====
-- The hash function and the comparison that a hash table is created with.
use powaur.Base.{ℕ, Bool, true, false, Ordering, ◌≡◌, arith, ◌⊎◌, inl, inr, refl}

-- Of a comparison's result the code reads the sign.
abbrev pub is_zero : Ordering → Bool
is_zero Ordering.eq = true
is_zero Ordering.lt = false
is_zero Ordering.gt = false

-- `hash` and `cmp` of `struct hash_table`, with what a table asks of them: keys that compare as
-- equal have one hash. They need not be the same value.
pub record KeyOps {ℓ} (K : Type ℓ) : Type ℓ where
  pub hash : K → ℕ
  pub cmp : K → K → Ordering
  pub same_refl : (a : K) → is_zero (cmp a a) ≡ true
  pub same_symm : (a b : K) → is_zero (cmp a b) ≡ is_zero (cmp b a)
  pub same_trans :
      (a b c : K) → is_zero (cmp a b) ≡ true → is_zero (cmp b c) ≡ true → is_zero (cmp a c) ≡ true
  pub hash-same : (a b : K) → is_zero (cmp a b) ≡ true → hash a ≡ hash b

pub same_congr {ℓ} :
    {K : Type ℓ} ⦃ops : KeyOps K⦄ (x a b : K)
    → is_zero (ops.cmp a b) ≡ true
    → is_zero (ops.cmp x a) ≡ is_zero (ops.cmp x b)
same_congr ⦃ops⦄ x a b e =
    ground (arith, ops.same_symm a b, ops.same_trans x a b, ops.same_trans x b a)

-- What a search tree asks of the comparison besides.
pub record Orders {ℓ} {K : Type ℓ} (ops : KeyOps K) : Type ℓ where
  pub lt-gt : (a b : K) → ops.cmp a b ≡ Ordering.lt → ops.cmp b a ≡ Ordering.gt
  pub gt-lt : (a b : K) → ops.cmp a b ≡ Ordering.gt → ops.cmp b a ≡ Ordering.lt
  pub lt_trans :
      (a b c : K)
      → ops.cmp a b ≡ Ordering.lt
      → ops.cmp b c ≡ Ordering.lt
      → ops.cmp a c ≡ Ordering.lt
  pub eq_congr : (a b c : K) → ops.cmp a b ≡ Ordering.eq → ops.cmp a c ≡ ops.cmp b c

pub Ordering-cases : (o : Ordering) → (o ≡ Ordering.lt) ⊎ (o ≡ Ordering.eq) ⊎ (o ≡ Ordering.gt)
Ordering-cases Ordering.lt = inl refl
Ordering-cases Ordering.eq = inr (inl refl)
Ordering-cases Ordering.gt = inr (inr refl)

pub same_congr_left {ℓ} :
    {K : Type ℓ} ⦃ops : KeyOps K⦄ (a b x : K)
    → is_zero (ops.cmp a b) ≡ true
    → is_zero (ops.cmp a x) ≡ is_zero (ops.cmp b x)
same_congr_left ⦃ops⦄ a b x e =
    ground (arith, same_congr x a b, ops.same_symm a x, ops.same_symm b x)
