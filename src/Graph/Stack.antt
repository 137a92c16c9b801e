-- ===== src/Graph/Stack.antt =====
-- graph.c, "Stack": a growing array used as a stack. `items` are the elements below `nr`, the last
-- one first, so that `nr` is their number; `sz` is the capacity. The doubling of the capacity, an
-- `int`, is not bounded here.
pub mod Laws
use powaur.Base.{ℕ, suc, ◌*◌, ◌≤◌, ◌≡◌, refl, Bool, true, false, List, [], ◌∷◌, Option, none, some}
use powaur.Base.{length, leb, ◌==◌, if◌then◌else◌, arith}

abbrev pub stack_init_sz : ℕ
stack_init_sz = 40

pub record Stack {ℓ} (A : Type ℓ) : Type ℓ where
  pub items : List A
  pub sz : ℕ

-- What `stack_pop` does: nothing, or it hands out the top, or it reads in front of the array.
pub data Popped {ℓ} (A : Type ℓ) : Type ℓ where
  skipped underflow : Popped A
  popped : A → Stack A → Popped A

module _ {ℓ} {A : Type ℓ} where
  unfoldable pub stack_new : Stack A
  stack_new = record { items = []; sz = stack_init_sz }

  unfoldable pub stack_empty : Stack A → Bool
  stack_empty st = length st.items == 0

  unfoldable pub stack_reset : Stack A → Stack A
  stack_reset st = record st { items = [] }

  unfoldable pub stack_grow : Stack A → Stack A
  stack_grow st = record st { sz = st.sz * 2 }

  unfoldable pub stack_push : Stack A → A → Stack A
  unfolding stack_grow
  stack_push st x =
      let roomy = if leb st.sz (length st.items) then stack_grow st else st in
      record roomy { items = x ∷ roomy.items }

  -- The guard reads the capacity, not the number of elements.
  unfoldable pub stack_pop : Stack A → Popped A
  stack_pop st =
      if st.sz == 0
      then skipped
      else elim st.items [ [] ↦ underflow | x ∷ xs ↦ popped x (record st { items = xs }) ]

  -- `none`: the variable that takes the top is left as it was.
  unfoldable pub stack_peek : Stack A → Option A
  stack_peek st = elim st.items [ [] ↦ none | x ∷ xs ↦ some x ]
