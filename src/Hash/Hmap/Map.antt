-- ===== src/Hash/Hmap/Map.antt =====
-- hash.c, "Hash Map": the table refines a finite map, in which the first value of a key counts.
use powaur.Base.{◌<◌, ◌≡◌, refl, Option, none, some, or_else, ok, ◌>>=◌, Returns}
use powaur.Base.{if◌then◌else◌, arith, get_or}
use powaur.Alloc.{prime_list}
use powaur.Alloc.Bounds.{widest}
use powaur.Hash.Keys.{KeyOps, is_zero}
use powaur.Hash.Table.{Entry}
use powaur.Hash.Table.Scan.{scan}
use powaur.Hash.Table.Insert.{IsValid, alloc-IsValid, scan-alloc, slot_of-scan, insert-Added}
use powaur.Hash.Hmap.{Hashmap, hashmap_new, hashmap_insert, hashmap_search}

module _ {ℓ} {K V : Type ℓ} ⦃ops : KeyOps K⦄ where
  abbrev val_of : Option (Entry K V) → Option V
  val_of none = none
  val_of (some e) = some e.val

  -- The finite map.
  pub mapping : Hashmap K V → K → Option V
  mapping m key = val_of (scan m.table key)

  pub hashmap_search-mapping :
      (m : Hashmap K V) (key : K) → IsValid m → hashmap_search m key ≡ ok (mapping m key)
  unfolding hashmap_search mapping
  hashmap_search-mapping m key v = rw (slot_of-scan m key v) (ground arith)

  pub mapping-new : (key : K) → mapping hashmap_new key ≡ none
  unfolding hashmap_new mapping
  mapping-new key = rw (scan-alloc {V = V} (get_or prime_list 0 0) key)

  pub hashmap_new-IsValid : IsValid {K = K} {V = V} hashmap_new
  unfolding hashmap_new
  hashmap_new-IsValid = alloc-IsValid

  pub hashmap_insert-mapping :
      (m : Hashmap K V) (key : K) (val : V)
      → IsValid m
      → m.sz < widest
      → Returns (hashmap_insert m key val) (λ m'.
        IsValid m'
        × ((j : K)
            → mapping m' j
              ≡ or_else (mapping m j) (if is_zero (ops.cmp key j) then some val else none)))
  unfolding hashmap_insert mapping or_else
  hashmap_insert-mapping m key val v narrow =
      let (m', run, a) = insert-Added (λ e. ops.hash e.key) m key val (λ e h. refl) v narrow in
      (m', run, (a.valid, λ j. rw (a.reads j) (ground arith)))

  -- A search after an insertion into a valid map that can still grow: the value that the key had, or else the one inserted if the keys
  -- compare as equal.
  pub hashmap_search-hashmap_insert :
      (m : Hashmap K V) (key : K) (val : V) (j : K)
      → IsValid m
      → m.sz < widest
      → (hashmap_insert m key val >>= λ m'. hashmap_search m' j) ≡ (
          hashmap_search m j >>= λ old.
          ok (or_else old (if is_zero (ops.cmp key j) then some val else none)))
  hashmap_search-hashmap_insert m key val j v narrow =
      let (m', run, (valid, reads)) = hashmap_insert-mapping m key val v narrow in
      rw (run, hashmap_search-mapping m' j valid, hashmap_search-mapping m j v, reads j)
