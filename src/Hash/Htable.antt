-- ===== src/Hash/Htable.antt =====
-- hash.c, "Normal hash table": a set of data pointers. An entry has no value besides its key.
pub mod Set
use powaur.Base.{ℕ, Option, none, some, List, [], ◌∷◌, Run, ok, ◌>>=◌, get_or}
use powaur.Alloc.{prime_list}
use powaur.Hash.Keys.{KeyOps}
use powaur.Hash.Table.{Entry, Table, alloc, entry_lookup, entry_insert, grow, insert, slot_of}

abbrev pub Htable {ℓ} : Type ℓ → Type ℓ
Htable K = Table K (Unit {ℓ})

unfoldable pub hash_new_htable {ℓ} : {K : Type ℓ} → Htable K
hash_new_htable = alloc (get_or prime_list 0 0)

-- The data pointers in the order of the slots.
unfoldable pub entries {ℓ} : {K : Type ℓ} → List (Option (Entry K (Unit {ℓ}))) → List K
entries [] = []
entries (none ∷ slots) = entries slots
entries (some e ∷ slots) = e.key ∷ entries slots

-- `alpm_list_add` appends, so the list has the order of the slots. `hash_walk` visits the same
-- pointers in the same order.
unfoldable pub hash_to_list {ℓ} : {K : Type ℓ} → Htable K → List K
unfolding entries
hash_to_list t = entries t.table

module _ {ℓ} {K : Type ℓ} ⦃ops : KeyOps K⦄ where
  unfoldable pub hash_entry_insert_htable : ℕ → Htable K → K → Run (Htable K)
  hash_entry_insert_htable hash t key = entry_insert hash t key tt

  unfoldable pub hash_entry_lookup_htable : ℕ → Htable K → K → Run ℕ
  hash_entry_lookup_htable = entry_lookup

  -- Rehashing calls the hash function again.
  unfoldable pub hash_grow_htable : Htable K → Run (Option (Htable K))
  hash_grow_htable = grow (λ e. ops.hash e.key)

  unfoldable pub hash_insert_htable : Htable K → K → Run (Htable K)
  hash_insert_htable t key = insert (λ e. ops.hash e.key) t key tt

  -- The stored pointer, or NULL.
  unfoldable pub hash_search_htable : Htable K → K → Run (Option K)
  hash_search_htable t key = do e ← slot_of t key; ok (elim e [ none ↦ none | some e ↦ some e.key ])

  -- `none` is -1.
  unfoldable pub hash_pos_htable : Htable K → K → Run (Option ℕ)
  hash_pos_htable t key = do
    pos ← entry_lookup (ops.hash key) t key
    ok (elim (get_or t.table pos none) [ none ↦ none | some _ ↦ some pos ])
