-- ===== src/Hash/Htable/Set.antt =====
-- hash.c, "Normal hash table": the table is a finite set, of which it keeps the first member put in.
use powaur.Base.{ℕ, ◌<◌, ◌≡◌, refl, ap, ◌∙◌, Option, none, some, or_else, ok, ◌>>=◌, Returns}
use powaur.Base.{
  if◌then◌else◌, arith, get_or, Option-cases, inl, inr, List, [], ◌∷◌, length, ◌⊎◌, ◌≢◌, suc,
}
use powaur.Alloc.{prime_list}
use powaur.Alloc.Bounds.{widest}
use powaur.Hash.Keys.{KeyOps, is_zero}
use powaur.Hash.Table.{Entry}
use powaur.Hash.Table.Scan.{scan, occupied}
use powaur.Hash.Table.Place.{entry_lookup-scan}
use powaur.Hash.Table.Insert.{IsValid, alloc-IsValid, scan-alloc, slot_of-scan, insert-Added}
use powaur.Hash.Htable.{
  Htable, hash_new_htable, hash_insert_htable, hash_search_htable, hash_pos_htable, entries,
  hash_to_list,
}

module _ {ℓ} {K : Type ℓ} ⦃ops : KeyOps K⦄ where
  abbrev pub key_of : Option (Entry K (Unit {ℓ})) → Option K
  key_of none = none
  key_of (some e) = some e.key

  -- The member that compares as equal to a key.
  pub member : Htable K → K → Option K
  member t key = key_of (scan t.table key)

  -- A search of a valid table ends at the member that compares as equal to the key, or at NULL.
  pub hash_search_htable-member :
      (t : Htable K) (key : K) → IsValid t → hash_search_htable t key ≡ ok (member t key)
  unfolding hash_search_htable member
  hash_search_htable-member t key v = rw (slot_of-scan t key v) (ground arith)

  pub member-new : (key : K) → member hash_new_htable key ≡ none
  unfolding hash_new_htable member
  member-new key = rw (scan-alloc {V = Unit} (get_or prime_list 0 0) key)

  pub hash_new_htable-IsValid : IsValid {K = K} hash_new_htable
  unfolding hash_new_htable
  hash_new_htable-IsValid = alloc-IsValid

  -- An insertion into a valid table that can still grow ends in a valid table. The members of
  -- before stay, and the key is one where no member compared as equal.
  pub hash_insert_htable-member :
      (t : Htable K) (key : K)
      → IsValid t
      → t.sz < widest
      → Returns (hash_insert_htable t key) (λ t'.
        IsValid t'
        × ((j : K)
            → member t' j
              ≡ or_else (member t j) (if is_zero (ops.cmp key j) then some key else none)))
  unfolding hash_insert_htable member or_else
  hash_insert_htable-member t key v narrow =
      let (t', run, a) = insert-Added (λ e. ops.hash e.key) t key tt (λ e h. refl) v narrow in
      (t', run, (a.valid, λ j. rw (a.reads j) (ground arith)))

  -- On a valid table `hash_pos` ends, and answers -1 exactly where a search answers NULL; otherwise it gives a slot of the
  -- table, at which the member stands.
  pub hash_pos_htable-member :
      (t : Htable K) (key : K)
      → IsValid t
      → Returns (hash_pos_htable t key) (λ r.
        ((r ≡ none) × (member t key ≡ none))
        ⊎ ((pos : ℕ) × (r ≡ some pos)
            × (pos < t.sz)
            × (key_of (get_or t.table pos none) ≡ member t key)
            × (member t key ≢ none)))
  unfolding hash_pos_htable member
  hash_pos_htable-member t key v =
      let (p, run, (fits, at)) = entry_lookup-scan t key v.placed (omega (arith, v.load, v.size)) in
      elim (Option-cases (get_or t.table p none)) [
        | inl e ↦ (none, rw (run, ◌>>=◌, e), inl (refl, rw (← at, e)))
        | inr (x, e) ↦
            (some p, rw (run, ◌>>=◌, e), inr (p, refl, fits, rw at, rw (← at, e) (λ h. cc)))
      ]

  length-entries :
      (slots : List (Option (Entry K (Unit {ℓ})))) → length (entries slots) ≡ occupied slots
  unfolding entries
  length-entries [] = refl
  length-entries (none ∷ slots) = length-entries slots
  length-entries (some e ∷ slots) = ap suc (length-entries slots)

  -- `hash_to_list` gives as many pointers as a valid table counts.
  pub length-hash_to_list : (t : Htable K) → IsValid t → length (hash_to_list t) ≡ t.nr
  unfolding hash_to_list
  length-hash_to_list t v = length-entries t.table ∙ v.placed.counted
