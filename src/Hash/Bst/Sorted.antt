-- ===== src/Hash/Bst/Sorted.antt =====
-- hash.c, "Hash BST": an insertion as the table of sorted lists sees it.
use powaur.Base.{◌<◌, ◌≡◌, Returns, Bool-cases, inl, inr, if◌then◌else◌}
use powaur.Alloc.Bounds.{widest}
use powaur.Hash.Keys.{KeyOps, Orders, is_zero}
use powaur.Hash.Table.Insert.{IsValid}
use powaur.Hash.Bst.{Hashbst, hashbst_insert}
use powaur.Hash.Bst.Inorder.{
  inorder, IsOrdered, insert_sorted, hashbst_bst_insert-IsOrdered, inorder-hashbst_bst_insert,
}
use powaur.Hash.Bst.Forest.{tree_of, hashbst_insert-tree_of}

module _ {ℓ} {K : Type ℓ} ⦃ops : KeyOps K⦄ (laws : Orders ops) where
  -- Every tree of the table is a search tree.
  abbrev pub AllOrdered : Hashbst K → Type ℓ
  AllOrdered t = (j : K) → IsOrdered (tree_of t j)

  -- For a comparison that orders the values: an insertion into a valid table of search trees that can
  -- still grow ends in a valid table of search trees. The values of a key that is the same as the
  -- given one are those of before with the new one in its place in the order, unless an equal one is
  -- there; the values of every other key are those of before.
  pub hashbst_insert-inorder :
      (t : Hashbst K) (key val : K)
      → IsValid t
      → AllOrdered t
      → t.sz < widest
      → Returns (hashbst_insert t key val) (λ t'.
        IsValid t'
        × AllOrdered t'
        × ((j : K)
            → inorder (tree_of t' j) ≡ (
                if is_zero (ops.cmp key j)
                then insert_sorted val (inorder (tree_of t j))
                else inorder (tree_of t j))))
  hashbst_insert-inorder t key val v ordered narrow =
      let (t', run, (valid, trees)) = hashbst_insert-tree_of t key val v narrow in
      (
        t',
        run,
        (
          valid,
          λ j. elim (Bool-cases (is_zero (ops.cmp key j))) [
            | inl e ↦ rw (trees j, e) (hashbst_bst_insert-IsOrdered (tree_of t j) val (ordered j))
            | inr e ↦ rw (trees j, e) (ordered j)
          ],
          λ j. elim (Bool-cases (is_zero (ops.cmp key j))) [
            | inl e ↦
                rw (trees j, e) (inorder-hashbst_bst_insert laws (tree_of t j) val (ordered j))
            | inr e ↦ rw (trees j, e)
          ],
        ),
      )
