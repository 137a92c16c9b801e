-- ===== src/Graph/Stack/Laws.antt =====
-- graph.c, "Stack": last in, first out; every write is within the capacity.
use powaur.Base.{◌*◌, ◌≤◌, ◌≡◌, refl, false, List, [], ◌∷◌, none, some}
use powaur.Base.{length, leb, arith, Bool-cases, inl, inr}
use powaur.Graph.Stack.{Stack, popped, stack_push, stack_pop, stack_peek, stack_empty}

module _ {ℓ} {A : Type ℓ} where
  -- The elements fit the array, which is not empty.
  pub record Fits (st : Stack A) : Type ℓ where
    pub room : 1 ≤ st.sz
    pub within : length st.items ≤ st.sz

  pub stack_push-items : (st : Stack A) (x : A) → (stack_push st x).items ≡ x ∷ st.items
  unfolding stack_push
  stack_push-items st x = elim (Bool-cases (leb st.sz (length st.items))) [
    | inl e ↦ rw e
    | inr e ↦ rw e
  ]

  -- A push writes within the capacity: the elements fit before and after.
  pub stack_push-Fits : (st : Stack A) (x : A) → Fits st → Fits (stack_push st x)
  unfolding stack_push
  stack_push-Fits st x f = elim (Bool-cases (leb st.sz (length st.items))) [
    | inl e ↦ rw e (record { room = omega arith; within = omega arith })
    | inr e ↦ rw e (record { room = f.room; within = ground arith })
  ]

  -- On a stack whose elements fit, a pop after a push gives the element and the elements before; a peek gives the element.
  pub stack_pop-stack_push :
      (st : Stack A) (x : A)
      → Fits st
      → ((rest : Stack A) × (stack_pop (stack_push st x) ≡ popped x rest)
          × (rest.items ≡ st.items)
          × Fits rest)
        × (stack_peek (stack_push st x) ≡ some x)
        × (stack_empty (stack_push st x) ≡ false)
  unfolding stack_pop stack_push stack_peek stack_empty
  stack_pop-stack_push st x f = elim (Bool-cases (leb st.sz (length st.items))) [
    | inl e ↦ rw e (
      (
        record { items = st.items; sz = st.sz * 2 },
        ground arith,
        refl,
        record { room = omega arith; within = omega arith },
      ),
      refl,
      ground arith,
    )
    | inr e ↦ rw e ((st, ground arith, refl, f), refl, ground arith)
  ]

  pub stack_peek-nil : (st : Stack A) → st.items ≡ [] → stack_peek st ≡ none
  unfolding stack_peek
  stack_peek-nil st e = rw e

  pub stack_peek-cons :
      (st : Stack A) (x : A) (xs : List A) → st.items ≡ x ∷ xs → stack_peek st ≡ some x
  unfolding stack_peek
  stack_peek-cons st x xs e = rw e
