-- ===== src/Hash/Vindex.antt =====
-- hash.c, "VINDEX": from a vertex's data to its place in the graph.
pub mod Index
use powaur.Base.{ℕ, Option, none, some, Run, ok, ◌>>=◌, get_or}
use powaur.Alloc.{prime_list}
use powaur.Hash.Keys.{KeyOps}
use powaur.Hash.Table.{Table, alloc, entry_lookup, entry_insert, grow, insert, slot_of}

-- `struct vidx_node`
pub record VidxNode {ℓ} (K : Type ℓ) : Type ℓ where
  pub value : K
  pub idx : ℕ

-- What a slot keeps besides the data pointer; a type at every level.
pub record Idx {ℓ} : Type ℓ where
  pub idx : ℕ

abbrev pub Vindex {ℓ} : Type ℓ → Type ℓ
Vindex K = Table K Idx

unfoldable pub hash_new_vindex {ℓ} : {K : Type ℓ} → Vindex K
hash_new_vindex = alloc (get_or prime_list 0 0)

module _ {ℓ} {K : Type ℓ} ⦃ops : KeyOps K⦄ where
  unfoldable pub hash_entry_insert_vindex : ℕ → Vindex K → K → ℕ → Run (Vindex K)
  hash_entry_insert_vindex hash t key idx = entry_insert hash t key (record { idx = idx })

  unfoldable pub hash_entry_lookup_vindex : ℕ → Vindex K → K → Run ℕ
  hash_entry_lookup_vindex = entry_lookup

  -- Rehashing goes by the stored hash.
  unfoldable pub hash_grow_vindex : Vindex K → Run (Option (Vindex K))
  hash_grow_vindex = grow (λ e. e.hash)

  unfoldable pub hash_insert_vindex : Vindex K → VidxNode K → Run (Vindex K)
  hash_insert_vindex t node = insert (λ e. e.hash) t node.value (record { idx = node.idx })

  unfoldable pub hash_search_vindex : Vindex K → K → Run (Option K)
  hash_search_vindex t key = do e ← slot_of t key; ok (elim e [ none ↦ none | some e ↦ some e.key ])

  -- The place in the graph, not the place in the table; `none` is -1.
  unfoldable pub hash_pos_vindex : Vindex K → K → Run (Option ℕ)
  hash_pos_vindex t key = do
    e ← slot_of t key
    ok (elim e [ none ↦ none | some e ↦ some e.val.idx ])
