-- ===== src/Hash/Vindex/Index.antt =====
-- hash.c, "VINDEX": the index is a finite map, in which the first insertion of a key counts.
use powaur.Base.{ℕ, ◌<◌, ◌≡◌, Option, none, some, or_else, ok, Returns}
use powaur.Base.{if◌then◌else◌, arith, get_or}
use powaur.Alloc.{prime_list}
use powaur.Alloc.Bounds.{widest}
use powaur.Hash.Keys.{KeyOps, is_zero}
use powaur.Hash.Table.{Entry}
use powaur.Hash.Table.Scan.{scan}
use powaur.Hash.Table.Insert.{IsValid, alloc-IsValid, scan-alloc, slot_of-scan, insert-Added}
use powaur.Hash.Vindex.{Vindex, VidxNode, Idx, hash_new_vindex, hash_insert_vindex, hash_pos_vindex}

module _ {ℓ} {K : Type ℓ} ⦃ops : KeyOps K⦄ where
  abbrev idx_of : Option (Entry K Idx) → Option ℕ
  idx_of none = none
  idx_of (some e) = some e.val.idx

  -- The index as a map from keys to places.
  pub place_of : Vindex K → K → Option ℕ
  place_of t key = idx_of (scan t.table key)

  -- A search of a valid index ends, at the place of the key or at -1.
  pub hash_pos_vindex-place_of :
      (t : Vindex K) (key : K) → IsValid t → hash_pos_vindex t key ≡ ok (place_of t key)
  unfolding hash_pos_vindex place_of
  hash_pos_vindex-place_of t key v = rw (slot_of-scan t key v) (ground arith)

  pub place_of-new : (key : K) → place_of hash_new_vindex key ≡ none
  unfolding hash_new_vindex place_of
  place_of-new key = rw (scan-alloc {V = Idx} (get_or prime_list 0 0) key)

  pub hash_new_vindex-IsValid : IsValid {K = K} hash_new_vindex
  unfolding hash_new_vindex
  hash_new_vindex-IsValid = alloc-IsValid

  -- An insertion into a valid index that can still grow ends in a valid index. A key that had a
  -- place keeps it, and one that had none has the inserted one if it is the same as the node's.
  pub hash_insert_vindex-place_of :
      (t : Vindex K) (node : VidxNode K)
      → IsValid t
      → t.sz < widest
      → Returns (hash_insert_vindex t node) (λ t'.
        IsValid t'
        × ((j : K)
            → place_of t' j
              ≡ or_else
                  (place_of t j)
                  (if is_zero (ops.cmp node.value j) then some node.idx else none)))
  unfolding hash_insert_vindex place_of or_else
  hash_insert_vindex-place_of t node v narrow =
      let (t', run, a) =
        insert-Added (λ e. e.hash) t node.value (record { idx = node.idx }) (λ e h. h) v narrow in
      (t', run, (a.valid, λ j. rw (a.reads j) (ground arith)))
