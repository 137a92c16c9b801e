-- ===== src/Hash/Bst/Forest.antt =====
-- hash.c, "Hash BST": a table of trees refines a map from keys to sorted lists.
use powaur.Base.{
  ℕ, ◌+◌, ◌<◌, ◌≤◌, ◌≡◌, refl, sym, ap, ◌∙◌, Option, none, some, or_else, ok, Returns,
}
use powaur.Base.{
  Bool, Bool-cases, if◌then◌else◌, if-true, if-false, arith, get_or, Option-cases, inl, inr,
}
use powaur.Alloc.{prime_list}
use powaur.Alloc.Bounds.{widest}
use powaur.Hash.Keys.{KeyOps, is_zero, same_congr_left}
use powaur.Hash.Table.{Entry, entry_lookup, fill}
use powaur.Hash.Table.Scan.{scan, scan_congr, scan_sound}
use powaur.Hash.Table.Place.{IsPlaced, vacant-le, fill-Inserts, entry_lookup-scan}
use powaur.Hash.Table.Replace.{replaced, replaced-IsPlaced, scan-replaced}
use powaur.Hash.Table.Insert.{IsValid, alloc-IsValid, scan-alloc, slot_of-scan, with_room-runs}
use powaur.Hash.Bst.{
  Tree, leaf, Hashbst, hashbst_new, hashbst_bst_insert, hashbst_tree_node_search, plant,
  hashbst_insert, hashbst_tree_search,
}
use powaur.Hash.Bst.Inorder.{inorder, first, hashbst_tree_node_search-first}

module _ {ℓ} {K : Type ℓ} ⦃ops : KeyOps K⦄ where
  abbrev root_of : Option (Entry K (Tree K)) → Tree K
  root_of none = leaf
  root_of (some e) = e.val

  -- The tree of a key; a key that is not there has the empty tree.
  pub tree_of : Hashbst K → K → Tree K
  tree_of t key = root_of (scan t.table key)

  pub tree_of-new : (key : K) → tree_of hashbst_new key ≡ leaf
  unfolding hashbst_new tree_of
  tree_of-new key = rw (scan-alloc {V = Tree K} (get_or prime_list 0 0) key)

  pub hashbst_new-IsValid : IsValid {K = K} {V = Tree K} hashbst_new
  unfolding hashbst_new
  hashbst_new-IsValid = alloc-IsValid

  -- The value goes into the tree of every key that is the same.
  record Plants (t : Hashbst K) (key val : K) (t' : Hashbst K) : Type ℓ where
    placed : IsPlaced t'
    size : t'.sz ≡ t.sz
    count : t'.nr ≤ t.nr + 1
    trees :
        (j : K)
        → tree_of t' j
          ≡ (if is_zero (ops.cmp key j) then hashbst_bst_insert (tree_of t j) val else tree_of t j)

  grown : Option (Entry K (Tree K)) → Bool → K → K → Tree K
  grown x same key val = if same then hashbst_bst_insert (root_of x) val else root_of x

  plant-Plants :
      (t : Hashbst K) (key val : K) (p : ℕ)
      → IsPlaced t
      → t.nr < t.sz
      → entry_lookup (ops.hash key) t key ≡ ok p
      → p < t.sz
      → get_or t.table p none ≡ scan t.table key
      → Plants t key val (plant key val t p)
  unfolding plant tree_of fill or_else
  plant-Plants t key val p v room run fits at = elim (Option-cases (scan t.table key)) [
    | inl nothing ↦
        let i = fill-Inserts t key (hashbst_bst_insert leaf val) p v run fits at in
        let f : plant key val t p ≡ fill (ops.hash key) key (hashbst_bst_insert leaf val) t p =
          rw (at ∙ nothing, plant, fill) in
        let few = vacant-le (scan t.table key) in
        rw f (record {
          placed = i.valid;
          size = i.size;
          count = omega (arith, i.count);
          trees = λ j. elim (Bool-cases (is_zero (ops.cmp key j))) [
            | inl same ↦
                let gone = sym (scan_congr t.table key j same) ∙ nothing in
                rw (i.reads j, same, gone)
            | inr apart ↦ rw (i.reads j, apart) (ground arith)
          ];
        })
    | inr (e, found) ↦
        let here = at ∙ found in
        let val' = hashbst_bst_insert e.val val in
        let f : plant key val t p ≡ replaced t p e val' v here = rw (here, plant) in
        rw f (record {
          placed = replaced-IsPlaced t p e val' v here;
          size = refl;
          count = omega arith;
          trees = λ j.
              let known = (scan_sound t.table key e found).2 in
              let left = same_congr_left e.key key j known in
              let now = scan-replaced t p e val' v here j room in
              elim (Bool-cases (is_zero (ops.cmp key j))) [
                | inl same ↦
                    let was = sym (scan_congr t.table key j same) ∙ found in
                    ap root_of (now ∙ if-true _ _ (left ∙ same)) ∙ rw (same, was)
                | inr apart ↦ ap root_of (now ∙ if-false _ _ (left ∙ apart)) ∙ rw apart
              ];
        })
  ]

  -- An insertion into a valid table that can still grow ends in a valid table, in which the value
  -- is in the tree of every key that is the same as the given one; the other trees are as before.
  pub hashbst_insert-tree_of :
      (t : Hashbst K) (key val : K)
      → IsValid t
      → t.sz < widest
      → Returns (hashbst_insert t key val) (λ t'.
        IsValid t'
        × ((j : K)
            → tree_of t' j ≡ (
                if is_zero (ops.cmp key j)
                then hashbst_bst_insert (tree_of t j) val
                else tree_of t j)))
  unfolding hashbst_insert tree_of
  hashbst_insert-tree_of t key val v narrow =
      let (t₁, run, r) = with_room-runs (λ e. e.hash) t _ (λ e h. h) v narrow in
      let (p, walk, (fits, at)) = entry_lookup-scan t₁ key r.placed (omega (arith, r.load)) in
      let s = plant-Plants t₁ key val p r.placed (omega (arith, r.load)) walk fits at in
      (
        plant key val t₁ p,
        run ∙ rw walk,
        (
          record {
            placed = s.placed;
            load = omega (arith, s.count, s.size, r.load);
            size = omega (arith, s.size, r.wider, v.size);
          },
          λ j. rw (← r.reads j) (s.trees j),
        ),
      )

  -- A search of a valid table ends, and runs through the values of the key's tree in order.
  pub hashbst_tree_search-first {κ} :
      {R : Type κ} (t : Hashbst K) (key : K) (fn : K → Option R)
      → IsValid t
      → hashbst_tree_search t key fn ≡ ok (first fn (inorder (tree_of t key)))
  unfolding hashbst_tree_search tree_of hashbst_tree_node_search
  hashbst_tree_search-first t key fn v =
      rw (slot_of-scan t key v, ← hashbst_tree_node_search-first (tree_of t key) fn) (ground arith)
