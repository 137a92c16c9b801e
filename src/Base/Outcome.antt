-- ===== src/Base/Outcome.antt =====
-- How a run of the code ends.
use mathlib.Core.Path.{◌≡◌, refl}
use mathlib.Core.Logic.{◌≢◌}

-- `died`: the code calls `die`. `fault`: it reads or writes outside of an array. `spin`: a loop
-- goes round for ever.
pub data Run {ℓ} (R : Type ℓ) : Type ℓ where
  died fault spin : Run R
  ok : R → Run R

module _ {ℓ κ} {R : Type ℓ} where
  -- The code ends, with a result that satisfies `P`.
  abbrev pub Returns : Run R → (R → Type κ) → Type (ℓ ⊔ κ)
  Returns run P = (result : R) × (run ≡ ok result) × P result

  infixl 5 ◌>>=◌
  abbrev pub ◌>>=◌ : {S : Type κ} → Run R → (R → Run S) → Run S
  died >>= next = died
  fault >>= next = fault
  spin >>= next = spin
  ok result >>= next = next result

module _ {ℓ κ μ} {A : Type ℓ} {B : Type κ} {C : Type μ} where
  pub bind_assoc :
      (r : Run A) (f : A → Run B) (g : B → Run C) → (r >>= f >>= g) ≡ (r >>= λ a. (f a >>= g))
  bind_assoc died f g = refl
  bind_assoc (ok a) f g = refl
  bind_assoc _ f g = refl

module _ {ℓ κ} {A : Type ℓ} {B : Type κ} where
  pub bind_congr : (r : Run A) (f g : A → Run B) → ((a : A) → f a ≡ g a) → (r >>= f) ≡ (r >>= g)
  bind_congr died f g h = refl
  bind_congr (ok a) f g h = h a
  bind_congr _ f g h = refl

  -- Inversion of a bind that ends.
  pub >>=-ok :
      (r : Run A) (f : A → Run B) (b : B) → (r >>= f) ≡ ok b → (a : A) × (r ≡ ok a) × (f a ≡ ok b)
  >>=-ok died f b h = cc
  >>=-ok (ok a) f b h = (a, refl, h)
  >>=-ok fault f b h = cc
  >>=-ok spin f b h = cc

module _ {ℓ} {A : Type ℓ} where
  -- The code does not go round for ever.
  abbrev pub Ends : Run A → Type ℓ
  Ends run = run ≢ spin

  pub ok-Ends : (a : A) → Ends (ok a)
  ok-Ends a h = cc

module _ {ℓ κ} {A : Type ℓ} {B : Type κ} where
  pub >>=-Ends : (r : Run A) (f : A → Run B) → Ends r → ((a : A) → Ends (f a)) → Ends (r >>= f)
  >>=-Ends died f h k = λ e. cc
  >>=-Ends fault f h k = λ e. cc
  >>=-Ends spin f h k = absurd (h refl)
  >>=-Ends (ok a) f h k = k a

module _ {ℓ κ} {A : Type ℓ} {B : Type κ} where
  pub >>=-Ends_ok :
      (r : Run A) (f : A → Run B) → Ends r → ((a : A) → r ≡ ok a → Ends (f a)) → Ends (r >>= f)
  >>=-Ends_ok died f h k = λ e. cc
  >>=-Ends_ok fault f h k = λ e. cc
  >>=-Ends_ok spin f h k = absurd (h refl)
  >>=-Ends_ok (ok a) f h k = k a refl

  pub bind_congr_ok :
      (r : Run A) (f g : A → Run B) → ((a : A) → r ≡ ok a → f a ≡ g a) → (r >>= f) ≡ (r >>= g)
  bind_congr_ok died f g h = refl
  bind_congr_ok fault f g h = refl
  bind_congr_ok spin f g h = refl
  bind_congr_ok (ok a) f g h = h a refl

-- The code does not call `die`, and a result satisfies `P`.
abbrev pub Safe {ℓ} : {R : Type ℓ} → (R → Type 0) → Run R → Type 0
Safe P died = ⊥
Safe P (ok result) = P result
Safe P fault = Unit
Safe P spin = Unit

module _ {ℓ κ} {A : Type ℓ} {B : Type κ} where
  pub >>=-Safe :
      (P : A → Type 0) (Q : B → Type 0) (r : Run A) (f : A → Run B)
      → Safe P r
      → ((a : A) → P a → Safe Q (f a))
      → Safe Q (r >>= f)
  >>=-Safe P Q died f h k = elim h [ ]
  >>=-Safe P Q fault f h k = tt
  >>=-Safe P Q spin f h k = tt
  >>=-Safe P Q (ok a) f h k = k a h

pub alive-Safe {ℓ} : {A : Type ℓ} (r : Run A) → r ≢ died → Safe (λ a. Unit {0}) r
alive-Safe died h = absurd (h refl)
alive-Safe fault h = tt
alive-Safe spin h = tt
alive-Safe (ok a) h = tt

-- The code does not go round for ever, and a result satisfies `P`.
abbrev pub Finishes {ℓ} : {R : Type ℓ} → (R → Type 0) → Run R → Type 0
Finishes P spin = ⊥
Finishes P (ok result) = P result
Finishes P died = Unit
Finishes P fault = Unit

module _ {ℓ κ} {A : Type ℓ} {B : Type κ} where
  pub >>=-Finishes :
      (P : A → Type 0) (Q : B → Type 0) (r : Run A) (f : A → Run B)
      → Finishes P r
      → ((a : A) → P a → Finishes Q (f a))
      → Finishes Q (r >>= f)
  >>=-Finishes P Q spin f h k = elim h [ ]
  >>=-Finishes P Q fault f h k = tt
  >>=-Finishes P Q died f h k = tt
  >>=-Finishes P Q (ok a) f h k = k a h

-- A result, if there is one, satisfies `P`.
abbrev pub Gives {ℓ} : {R : Type ℓ} → (R → Type 0) → Run R → Type 0
Gives P (ok result) = P result
Gives P spin = Unit
Gives P died = Unit
Gives P fault = Unit

module _ {ℓ κ} {A : Type ℓ} {B : Type κ} where
  pub >>=-Gives :
      (P : A → Type 0) (Q : B → Type 0) (r : Run A) (f : A → Run B)
      → Gives P r
      → ((a : A) → r ≡ ok a → P a → Gives Q (f a))
      → Gives Q (r >>= f)
  >>=-Gives P Q spin f h k = tt
  >>=-Gives P Q fault f h k = tt
  >>=-Gives P Q died f h k = tt
  >>=-Gives P Q (ok a) f h k = k a refl h

pub any-Gives {ℓ} : {A : Type ℓ} (r : Run A) → Gives (λ a. Unit {0}) r
any-Gives spin = tt
any-Gives fault = tt
any-Gives died = tt
any-Gives (ok a) = tt
