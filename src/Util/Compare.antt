-- ===== src/Util/Compare.antt =====
-- util.c: `sdbm` and `strcmp` are what a hash table and a search tree ask for.
use powaur.Base.{
  ℕ, ◌+◌, ◌*◌, ◌%◌, ◌≡◌, refl, ap, sym, ◌∙◌, true, [], ◌∷◌, some, Ordering, inl, inr, arith,
}
use powaur.Alloc.{u32_mod}
use powaur.Hash.Keys.{KeyOps, Orders, Ordering-cases, is_zero}
use powaur.Util.{Str, char_to_u32, sdbm_step, sdbm_loop, sdbm, strcmp}

-- The hash as a polynomial in 65599 over the bytes, with no bound.
abbrev pub polynomial : ℕ → Str → ℕ
polynomial h [] = h
polynomial h (c ∷ str) = polynomial (h * 65599 + char_to_u32 c) str

sdbm_loop-polynomial :
    (str : Str) (h k : ℕ) → h ≡ k % u32_mod → sdbm_loop h str ≡ polynomial k str % u32_mod
unfolding sdbm_loop sdbm_step
sdbm_loop-polynomial [] h k e = e
sdbm_loop-polynomial (c ∷ str) h k e =
    sdbm_loop-polynomial str (sdbm_step h c) (k * 65599 + char_to_u32 c) (omega (arith, e))

-- The hash of a string is its polynomial in 65599, modulo 2 ^ 32.
pub sdbm-polynomial : (str : Str) → sdbm (some str) ≡ polynomial 0 str % u32_mod
unfolding sdbm
sdbm-polynomial str = sdbm_loop-polynomial str 0 0 refl

pub strcmp_self : (a : Str) → strcmp a a ≡ Ordering.eq
unfolding strcmp
strcmp_self [] = refl
strcmp_self (x ∷ a) = ground (arith, strcmp_self a)

pub strcmp_eq : (a b : Str) → strcmp a b ≡ Ordering.eq → a ≡ b
unfolding strcmp
strcmp_eq [] [] h = refl
strcmp_eq [] (y ∷ b) h = cc
strcmp_eq (x ∷ a) [] h = cc
strcmp_eq (x ∷ a) (y ∷ b) h = ground (arith, strcmp_eq a b)

pub strcmp-swap :
    (a b : Str)
    → (strcmp a b ≡ Ordering.lt → strcmp b a ≡ Ordering.gt)
      × (strcmp a b ≡ Ordering.gt → strcmp b a ≡ Ordering.lt)
      × (strcmp a b ≡ Ordering.eq → strcmp b a ≡ Ordering.eq)
unfolding strcmp
strcmp-swap [] [] = (λ h. cc, λ h. cc, λ h. refl)
strcmp-swap [] (y ∷ b) = (λ h. refl, λ h. cc, λ h. cc)
strcmp-swap (x ∷ a) [] = (λ h. cc, λ h. refl, λ h. cc)
strcmp-swap (x ∷ a) (y ∷ b) =
    let (l, g, e) = strcmp-swap a b in
    (λ h. ground (arith, l), λ h. ground (arith, g), λ h. ground (arith, e))

strcmp-lt_trans :
    (a b c : Str) → strcmp a b ≡ Ordering.lt → strcmp b c ≡ Ordering.lt → strcmp a c ≡ Ordering.lt
unfolding strcmp
strcmp-lt_trans [] [] c h k = cc
strcmp-lt_trans [] (y ∷ b) [] h k = cc
strcmp-lt_trans [] (y ∷ b) (z ∷ c) h k = refl
strcmp-lt_trans (x ∷ a) [] c h k = cc
strcmp-lt_trans (x ∷ a) (y ∷ b) [] h k = cc
strcmp-lt_trans (x ∷ a) (y ∷ b) (z ∷ c) h k = ground (arith, strcmp-lt_trans a b c)

pub zero_eq : (a b : Str) → is_zero (strcmp a b) ≡ true → strcmp a b ≡ Ordering.eq
zero_eq a b h = elim (Ordering-cases (strcmp a b)) [
  | inl e ↦ cc (ap is_zero e, h)
  | inr (inl e) ↦ e
  | inr (inr e) ↦ cc (ap is_zero e, h)
]

pub zero-swap : (a b : Str) → is_zero (strcmp a b) ≡ is_zero (strcmp b a)
zero-swap a b =
    let (l, g, e) = strcmp-swap a b in
    elim (Ordering-cases (strcmp a b)) [
      | inl h ↦ ap is_zero h ∙ sym (ap is_zero (l h))
      | inr (inl h) ↦ ap is_zero h ∙ sym (ap is_zero (e h))
      | inr (inr h) ↦ ap is_zero h ∙ sym (ap is_zero (g h))
    ]

-- `(pw_hash_fn) sdbm, (pw_hashcmp_fn) strcmp`
instance abbrev pub str_keys : KeyOps Str
str_keys = record {
  hash = λ s. sdbm (some s);
  cmp = strcmp;
  same_refl = λ a. ap is_zero (strcmp_self a);
  same_symm = zero-swap;
  same_trans = λ a b c h k.
      let e = strcmp_eq a b (zero_eq a b h) in ap (λ (x : Str). is_zero (strcmp x c)) e ∙ k;
  hash-same = λ a b h. ap (λ (x : Str). sdbm (some x)) (strcmp_eq a b (zero_eq a b h));
}

-- The strings are ordered by `strcmp`.
pub strcmp-Orders : Orders str_keys
strcmp-Orders = record {
  lt-gt = λ a b h. (strcmp-swap a b).0 h;
  gt-lt = λ a b h. (strcmp-swap a b).1 h;
  lt_trans = strcmp-lt_trans;
  eq_congr = λ a b c h. ap (λ (x : Str). strcmp x c) (strcmp_eq a b h);
}
