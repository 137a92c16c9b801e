-- ===== src/Hash/Bst/Inorder.antt =====
-- hash.c, "BST specific functions": a tree refines a sorted list without duplicates.
use powaur.Base.{
  ◌≡◌, ◌≢◌, refl, sym, ap, ◌∙◌, Option, none, or_else, List, [], ◌∷◌, ◌++◌, arith, Ordering, inl,
  inr,
}
use powaur.Hash.Keys.{KeyOps, Orders, Ordering-cases}
use powaur.Hash.Bst.{Tree, leaf, node, hashbst_tree_node_search, hashbst_bst_insert}

module _ {ℓ} {K : Type ℓ} where
  -- The values in the order in which a search visits them.
  unfoldable pub inorder : Tree K → List K
  inorder leaf = []
  inorder (node l x r) = inorder l ++ (x ∷ inorder r)

  unfoldable pub first {κ} : {R : Type κ} → (K → Option R) → List K → Option R
  first fn [] = none
  first fn (x ∷ xs) = or_else (fn x) (first fn xs)

  first-append {κ} :
      {R : Type κ} (fn : K → Option R) (xs ys : List K)
      → first fn (xs ++ ys) ≡ or_else (first fn xs) (first fn ys)
  unfolding first or_else
  first-append fn [] ys = refl
  first-append fn (x ∷ xs) ys = ground (arith, first-append fn xs ys)

  -- A search of a tree gives the first result along the values in order.
  pub hashbst_tree_node_search-first {κ} :
      {R : Type κ} (t : Tree K) (fn : K → Option R)
      → hashbst_tree_node_search t fn ≡ first fn (inorder t)
  unfolding hashbst_tree_node_search inorder first
  hashbst_tree_node_search-first leaf fn = refl
  hashbst_tree_node_search-first (node l x r) fn = rw (
    first-append fn (inorder l) (x ∷ inorder r),
    hashbst_tree_node_search-first l fn,
    hashbst_tree_node_search-first r fn,
  )

  abbrev pub Everywhere {κ} : (K → Type κ) → Tree K → Type κ
  Everywhere P leaf = Unit
  Everywhere P (node l x r) = Everywhere P l × P x × Everywhere P r

  abbrev pub Along {κ} : (K → Type κ) → List K → Type κ
  Along P [] = Unit
  Along P (x ∷ xs) = P x × Along P xs

  Along-append {κ} :
      (P : K → Type κ) (xs ys : List K) → Along P xs → Along P ys → Along P (xs ++ ys)
  Along-append P [] ys h k = k
  Along-append P (x ∷ xs) ys h k = (h.0, Along-append P xs ys h.1 k)

  Along-inorder {κ} : (P : K → Type κ) (t : Tree K) → Everywhere P t → Along P (inorder t)
  unfolding inorder
  Along-inorder P leaf h = tt
  Along-inorder P (node l x r) h =
      Along-append P (inorder l) (x ∷ inorder r) (Along-inorder P l h.0)
        (h.1, Along-inorder P r h.2)

module _ {ℓ} {K : Type ℓ} ⦃ops : KeyOps K⦄ where
  -- The values left of a node compare as smaller, those right of it as greater.
  abbrev pub IsOrdered : Tree K → Type ℓ
  IsOrdered leaf = Unit
  IsOrdered (node l y r) =
      IsOrdered l
      × IsOrdered r
      × Everywhere (λ x. ops.cmp x y ≡ Ordering.lt) l
      × Everywhere (λ x. ops.cmp x y ≡ Ordering.gt) r

  -- The specification: insertion into a sorted list, in which an equal value is kept.
  unfoldable pub insert_sorted : K → List K → List K
  insert_sorted x [] = x ∷ []
  insert_sorted x (y ∷ ys) =
      let rest = insert_sorted x ys in
      elim (ops.cmp x y) [
        | Ordering.eq ↦ y ∷ ys
        | Ordering.lt ↦ x ∷ y ∷ ys
        | Ordering.gt ↦ y ∷ rest
      ]

  insert_sorted-pass :
      (x : K) (xs ys : List K)
      → Along (λ y. ops.cmp x y ≡ Ordering.gt) xs
      → insert_sorted x (xs ++ ys) ≡ xs ++ insert_sorted x ys
  unfolding insert_sorted
  insert_sorted-pass x [] ys h = refl
  insert_sorted-pass x (z ∷ xs) ys h =
      rw (h.0, insert_sorted) (ap (λ t. z ∷ t) (insert_sorted-pass x xs ys h.1))

  insert_sorted-stop :
      (x y : K) (xs ys : List K)
      → ops.cmp x y ≡ Ordering.lt
      → insert_sorted x (xs ++ (y ∷ ys)) ≡ insert_sorted x xs ++ (y ∷ ys)
  unfolding insert_sorted
  insert_sorted-stop x y [] ys h = ground arith
  insert_sorted-stop x y (z ∷ xs) ys h = ground (arith, insert_sorted-stop x y xs ys h)

  Everywhere-insert {κ} :
      (P : K → Type κ) (t : Tree K) (x : K)
      → Everywhere P t
      → P x
      → Everywhere P (hashbst_bst_insert t x)
  unfolding hashbst_bst_insert
  Everywhere-insert P leaf x h p = (tt, p, tt)
  Everywhere-insert P (node l y r) x h p = elim (Ordering-cases (ops.cmp x y)) [
    | inl c ↦ rw (c, hashbst_bst_insert) (Everywhere-insert P l x h.0 p, h.1, h.2)
    | inr (inl c) ↦ rw (c, hashbst_bst_insert) h
    | inr (inr c) ↦ rw (c, hashbst_bst_insert) (h.0, h.1, Everywhere-insert P r x h.2 p)
  ]

  -- An insertion keeps a tree ordered.
  pub hashbst_bst_insert-IsOrdered :
      (t : Tree K) (x : K) → IsOrdered t → IsOrdered (hashbst_bst_insert t x)
  unfolding hashbst_bst_insert
  hashbst_bst_insert-IsOrdered leaf x h = (tt, tt, tt, tt)
  hashbst_bst_insert-IsOrdered (node l y r) x (hl, hr, bl, br) =
      elim (Ordering-cases (ops.cmp x y)) [
        | inl c ↦
            rw (c, hashbst_bst_insert)
              (hashbst_bst_insert-IsOrdered l x hl, hr, Everywhere-insert _ l x bl c, br)
        | inr (inl c) ↦ rw (c, hashbst_bst_insert) (hl, hr, bl, br)
        | inr (inr c) ↦
            rw (c, hashbst_bst_insert)
              (hl, hashbst_bst_insert-IsOrdered r x hr, bl, Everywhere-insert _ r x br c)
      ]

  module _ (laws : Orders ops) where
    -- What is left of a node is smaller than what is not smaller than the node.
    smaller :
        (x y : K) (xs : List K)
        → ops.cmp x y ≢ Ordering.lt
        → Along (λ z. ops.cmp z y ≡ Ordering.lt) xs
        → Along (λ z. ops.cmp x z ≡ Ordering.gt) xs
    smaller x y [] ne h = tt
    smaller x y (z ∷ xs) ne (below, h) = (
      elim (Ordering-cases (ops.cmp x y)) [
        | inl c ↦ absurd (ne c)
        | inr (inl c) ↦ laws.eq_congr x y z c ∙ laws.lt-gt z y below
        | inr (inr c) ↦ laws.lt-gt z x (laws.lt_trans z y x below (laws.gt-lt x y c))
      ],
      smaller x y xs ne h,
    )

    -- For a comparison that orders the values, insertion into an ordered tree is insertion into the sorted list of its values.
    pub inorder-hashbst_bst_insert :
        (t : Tree K) (x : K)
        → IsOrdered t
        → inorder (hashbst_bst_insert t x) ≡ insert_sorted x (inorder t)
    unfolding inorder hashbst_bst_insert
    inorder-hashbst_bst_insert leaf x h = unfold insert_sorted in refl
    inorder-hashbst_bst_insert (node l y r) x (hl, hr, bl, br) =
        let left = Along-inorder _ l bl in
        elim (Ordering-cases (ops.cmp x y)) [
          | inl c ↦
              rw (c, hashbst_bst_insert, inorder-hashbst_bst_insert l x hl)
                (sym (insert_sorted-stop x y (inorder l) (inorder r) c))
          | inr (inl c) ↦
              rw
                (
                  c,
                  hashbst_bst_insert,
                  insert_sorted-pass x (inorder l) (y ∷ inorder r)
                      (smaller x y (inorder l) (λ e. cc) left),
                )
                (ap (λ t. inorder l ++ t) (unfold insert_sorted in rw (c, insert_sorted)))
          | inr (inr c) ↦
              rw
                (
                  c,
                  hashbst_bst_insert,
                  insert_sorted-pass x (inorder l) (y ∷ inorder r)
                      (smaller x y (inorder l) (λ e. cc) left),
                  inorder-hashbst_bst_insert r x hr,
                )
                (ap (λ t. inorder l ++ t) (unfold insert_sorted in rw (c, insert_sorted)))
        ]
