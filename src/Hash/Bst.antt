-- ===== src/Hash/Bst.antt =====
-- hash.c, "HASH_BST" and "Hash BST": from a key to a binary search tree of values. Keys and values
-- are compared by the one comparison of the table.
pub mod Inorder
pub mod Forest
pub mod Sorted
use powaur.Base.{ℕ, ◌+◌, Option, none, some, Run, ok, ◌>>=◌, get_or, set, or_else, Ordering}
use powaur.Alloc.{prime_list}
use powaur.Hash.Keys.{KeyOps}
use powaur.Hash.Table.{Entry, Table, alloc, entry_lookup, entry_insert, grow, with_room, slot_of}

-- `struct hashbst_tree_node *`; NULL is `leaf`.
pub data Tree {ℓ} (K : Type ℓ) : Type ℓ where
  leaf : Tree K
  node : Tree K → K → Tree K → Tree K

abbrev pub Hashbst {ℓ} : Type ℓ → Type ℓ
Hashbst K = Table K (Tree K)

unfoldable pub hashbst_new {ℓ} : {K : Type ℓ} → Hashbst K
hashbst_new = alloc (get_or prime_list 0 0)

-- In order; the first value at which `fn` gives something other than NULL.
unfoldable pub hashbst_tree_node_search {ℓ κ} :
    {K : Type ℓ} {R : Type κ} → Tree K → (K → Option R) → Option R
hashbst_tree_node_search leaf fn = none
hashbst_tree_node_search (node l x r) fn =
    or_else (hashbst_tree_node_search l fn) (or_else (fn x) (hashbst_tree_node_search r fn))

-- `if (entry->u.tree.root)`
abbrev pub planted {ℓ} : {K : Type ℓ} → Option (Entry K (Tree K)) → Option (Tree K)
planted none = none
planted (some e) = elim e.val [ leaf ↦ none | node l x r ↦ some (node l x r) ]

module _ {ℓ} {K : Type ℓ} ⦃ops : KeyOps K⦄ where
  -- The walk down to the place of a new value; a value that compares as equal is kept.
  unfoldable pub hashbst_bst_insert : Tree K → K → Tree K
  hashbst_bst_insert leaf x = node leaf x leaf
  hashbst_bst_insert (node l y r) x =
      let to_left = hashbst_bst_insert l x in
      let to_right = hashbst_bst_insert r x in
      elim (ops.cmp x y) [
        | Ordering.eq ↦ node l y r
        | Ordering.lt ↦ node to_left y r
        | Ordering.gt ↦ node l y to_right
      ]

  unfoldable pub hash_entry_lookup_bst : ℕ → Hashbst K → K → Run ℕ
  hash_entry_lookup_bst = entry_lookup

  unfoldable pub hash_entry_graft_tree : ℕ → Hashbst K → K → Tree K → Run (Hashbst K)
  hash_entry_graft_tree = entry_insert

  -- Rehashing goes by the stored hash.
  unfoldable pub hash_grow_bst : Hashbst K → Run (Option (Hashbst K))
  hash_grow_bst = grow (λ e. e.hash)

  -- The entry of the slot `pos` for the key, made if the slot is empty, gets the value.
  unfoldable pub plant : K → K → Hashbst K → ℕ → Hashbst K
  unfolding hashbst_bst_insert
  plant key val t pos = elim (get_or t.table pos none) [
    | none ↦ record t {
      table =
          set t.table pos
            (some (record { hash = ops.hash key; key = key; val = hashbst_bst_insert leaf val }));
      nr = t.nr + 1;
    }
    | some e ↦ record t {
      table = set t.table pos (some (record e { val = hashbst_bst_insert e.val val }));
    }
  ]

  unfoldable pub hash_insert_bst : Hashbst K → K → K → Run (Hashbst K)
  unfolding plant
  hash_insert_bst t key val =
      with_room (λ e. e.hash) t
        (λ t'. do pos ← entry_lookup (ops.hash key) t' key; ok (plant key val t' pos))

  unfoldable pub hash_search_bst : Hashbst K → K → Run (Option (Tree K))
  hash_search_bst t key = do e ← slot_of t key; ok (planted e)

  -- -1, whatever the key.
  unfoldable pub hash_pos_bst : Hashbst K → K → Option ℕ
  hash_pos_bst t key = none

  unfoldable pub hashbst_insert : Hashbst K → K → K → Run (Hashbst K)
  unfolding hash_insert_bst
  hashbst_insert = hash_insert_bst

  unfoldable pub hashbst_tree_search {κ} :
      {R : Type κ} → Hashbst K → K → (K → Option R) → Run (Option R)
  unfolding hash_search_bst hashbst_tree_node_search
  hashbst_tree_search t key fn = do
    bst ← hash_search_bst t key
    ok (elim bst [ none ↦ none | some root ↦ hashbst_tree_node_search root fn ])
