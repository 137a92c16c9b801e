-- ===== src/Hash/Hmap.antt =====
-- hash.c, "HASH_MAP" and "Hash Map": from keys to values. No caller stores a NULL value.
pub mod Map
use powaur.Base.{ℕ, Option, none, some, Run, ok, ◌>>=◌, get_or}
use powaur.Alloc.{prime_list}
use powaur.Hash.Keys.{KeyOps}
use powaur.Hash.Table.{Table, alloc, entry_lookup, entry_insert, grow, insert, slot_of}

abbrev pub Hashmap {ℓ} : Type ℓ → Type ℓ → Type ℓ
Hashmap K V = Table K V

unfoldable pub hashmap_new {ℓ} : {K V : Type ℓ} → Hashmap K V
hashmap_new = alloc (get_or prime_list 0 0)

module _ {ℓ} {K V : Type ℓ} ⦃ops : KeyOps K⦄ where
  unfoldable pub hash_entry_insert_hmap : ℕ → Hashmap K V → K → V → Run (Hashmap K V)
  hash_entry_insert_hmap = entry_insert

  unfoldable pub hash_entry_lookup_hmap : ℕ → Hashmap K V → K → Run ℕ
  hash_entry_lookup_hmap = entry_lookup

  -- Rehashing calls the hash function again.
  unfoldable pub hash_grow_hmap : Hashmap K V → Run (Option (Hashmap K V))
  hash_grow_hmap = grow (λ e. ops.hash e.key)

  unfoldable pub hash_insert_hmap : Hashmap K V → K → V → Run (Hashmap K V)
  hash_insert_hmap t key val = insert (λ e. ops.hash e.key) t key val

  -- The value of an empty slot is NULL.
  unfoldable pub hash_search_hmap : Hashmap K V → K → Run (Option V)
  hash_search_hmap t key = do e ← slot_of t key; ok (elim e [ none ↦ none | some e ↦ some e.val ])

  -- `none` is -1.
  unfoldable pub hash_pos_hmap : Hashmap K V → K → Run (Option ℕ)
  hash_pos_hmap t key = do
    pos ← entry_lookup (ops.hash key) t key
    ok (elim (get_or t.table pos none) [ none ↦ none | some _ ↦ some pos ])

  unfoldable pub hashmap_insert : Hashmap K V → K → V → Run (Hashmap K V)
  unfolding hash_insert_hmap
  hashmap_insert = hash_insert_hmap

  unfoldable pub hashmap_search : Hashmap K V → K → Run (Option V)
  unfolding hash_search_hmap
  hashmap_search = hash_search_hmap
