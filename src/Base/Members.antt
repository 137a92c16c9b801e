-- ===== src/Base/Members.antt =====
-- Lists of numbers: membership as a test, prefixes, and reads that may fail.
use Prim.Native.Nat.{ℕ, zero, suc, ◌<◌, ◌≤◌}
use mathlib.Core.Path.{◌≡◌, refl, ap}
use mathlib.Core.Logic.{◌⊎◌}
use mathlib.Core.Bool.{Bool, true, false, ◌||◌}
use mathlib.Core.List.{List, [], ◌∷◌, ◌++◌}
use mathlib.Core.Option.{Option, none, some}
use native.Mathlib.Omega.{arith}
use powaur.Base.Tests.{◌==◌, if◌then◌else◌}
use powaur.Base.Lists.{length, set}

abbrev pub mem : List ℕ → ℕ → Bool
mem [] a = false
mem (x ∷ xs) a = if x == a then true else mem xs a

-- No number stands twice.
abbrev pub Nodup : List ℕ → Type 0
Nodup [] = Unit
Nodup (x ∷ xs) = (mem xs x ≡ false) × Nodup xs

module _ {ℓ} {A : Type ℓ} where
  abbrev pub get_elem? : List A → ℕ → Option A
  get_elem? [] i = none
  get_elem? (x ∷ xs) zero = some x
  get_elem? (x ∷ xs) (suc i) = get_elem? xs i

  abbrev pub take : ℕ → List A → List A
  take zero xs = []
  take (suc n) [] = []
  take (suc n) (x ∷ xs) = x ∷ take n xs

  pub take_all : (n : ℕ) (xs : List A) → length xs ≤ n → take n xs ≡ xs
  take_all zero [] h = refl
  take_all zero (x ∷ xs) h = absurd (omega arith)
  take_all (suc n) [] h = refl
  take_all (suc n) (x ∷ xs) h = ap (λ t. x ∷ t) (take_all n xs (omega arith))

  pub get_elem?-lt : (xs : List A) (i : ℕ) → i < length xs → (a : A) × (get_elem? xs i ≡ some a)
  get_elem?-lt [] i h = absurd (omega arith)
  get_elem?-lt (x ∷ xs) zero h = (x, refl)
  get_elem?-lt (x ∷ xs) (suc i) h = get_elem?-lt xs i (omega arith)

  pub lt-of-get_elem? : (xs : List A) (i : ℕ) (a : A) → get_elem? xs i ≡ some a → i < length xs
  lt-of-get_elem? [] i a h = cc
  lt-of-get_elem? (x ∷ xs) zero a h = omega arith
  lt-of-get_elem? (x ∷ xs) (suc i) a h = omega (arith, lt-of-get_elem? xs i a h)

  pub get_elem?-set :
      (xs : List A) (i j : ℕ) (a : A)
      → i < length xs
      → get_elem? (set xs i a) j ≡ (if i == j then some a else get_elem? xs j)
  get_elem?-set [] i j a h = absurd (omega arith)
  get_elem?-set (x ∷ xs) zero zero a h = ground arith
  get_elem?-set (x ∷ xs) zero (suc j) a h = ground arith
  get_elem?-set (x ∷ xs) (suc i) zero a h = ground arith
  get_elem?-set (x ∷ xs) (suc i) (suc j) a h = ground (arith, get_elem?-set xs i j a)

  pub get_elem?-append :
      (xs : List A) (a : A) (j : ℕ)
      → get_elem? (xs ++ (a ∷ [])) j ≡ (if length xs == j then some a else get_elem? xs j)
  get_elem?-append [] a zero = ground arith
  get_elem?-append [] a (suc j) = ground arith
  get_elem?-append (x ∷ xs) a zero = ground arith
  get_elem?-append (x ∷ xs) a (suc j) = ground (arith, get_elem?-append xs a j)

-- A prefix that is longer by one has one member more.
pub mem-take-suc :
    (n : ℕ) (xs : List ℕ) (next y : ℕ)
    → get_elem? xs n ≡ some next
    → mem (take (suc n) xs) y ≡ true
    → (mem (take n xs) y ≡ true) ⊎ (y ≡ next)
mem-take-suc zero [] next y at h = cc
mem-take-suc (suc n) [] next y at h = cc
mem-take-suc zero (x ∷ xs) next y at h = ground arith
mem-take-suc (suc n) (x ∷ xs) next y at h = ground (arith, mem-take-suc n xs next y at)

pub mem-get_elem? : (xs : List ℕ) (i x : ℕ) → get_elem? xs i ≡ some x → mem xs x ≡ true
mem-get_elem? [] i x h = cc
mem-get_elem? (y ∷ xs) zero x h = ground arith
mem-get_elem? (y ∷ xs) (suc i) x h = ground (arith, mem-get_elem? xs i x)

pub mem-append : (xs : List ℕ) (x y : ℕ) → mem (xs ++ (x ∷ [])) y ≡ (mem xs y || x == y)
mem-append [] x y = ground arith
mem-append (z ∷ xs) x y = ground (arith, mem-append xs x y)
