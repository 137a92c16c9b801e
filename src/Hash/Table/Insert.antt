-- ===== src/Hash/Table/Insert.antt =====
-- hash.c: an insertion with its growth, and a search: a table refines an association list in which
-- the first entry of a key counts.
use powaur.Base.{ℕ, ◌/◌, ◌<◌, ◌≤◌, ◌≡◌, refl, ap, ◌∙◌, inl, inr}
use powaur.Base.{none, some, or_else, get_or, arith}
use powaur.Base.{Bool-cases, if◌then◌else◌, Run, ok, Returns, leb}
use powaur.Alloc.{prime_list}
use powaur.Alloc.Bounds.{widest}
use powaur.Hash.Keys.{KeyOps, is_zero}
use powaur.Hash.Table.{Entry, Table, alloc, entry_insert, with_room, insert, slot_of}
use powaur.Hash.Table.Scan.{scan, scan-replicate}
use powaur.Hash.Table.Place.{
  IsPlaced, new_entry, vacant-le, entry_insert-Inserts, entry_lookup-scan,
}
use powaur.Hash.Table.Rehash.{alloc-IsPlaced, grow-Grows}

module _ {ℓ} {K V : Type ℓ} ⦃ops : KeyOps K⦄ where
  -- A table between two calls: at most half full.
  pub record IsValid (t : Table K V) : Type ℓ where
    pub placed : IsPlaced t
    pub load : t.nr ≤ t.sz / 2
    pub size : 109 ≤ t.sz

  pub alloc-IsValid : IsValid (alloc (get_or prime_list 0 0))
  unfolding alloc
  alloc-IsValid = record { placed = alloc-IsPlaced 109; load = omega arith; size = omega arith }

  pub scan-alloc : (n : ℕ) (j : K) → scan {V = V} (alloc n).table j ≡ none
  unfolding alloc
  scan-alloc n j = scan-replicate n j

  -- A search in a valid table ends at what the array means at the key.
  pub slot_of-scan : (t : Table K V) (key : K) → IsValid t → slot_of t key ≡ ok (scan t.table key)
  unfolding slot_of
  slot_of-scan t key v =
      let (p, run, (fits, at)) = entry_lookup-scan t key v.placed (omega (arith, v.load, v.size)) in
      rw run (ap ok at)

  -- What a table with room for one more entry has in common with the one before.
  pub record HasRoom (t t' : Table K V) : Type ℓ where
    pub placed : IsPlaced t'
    pub load : t'.nr < t'.sz / 2
    pub wider : t.sz ≤ t'.sz
    pub reads : (j : K) → scan t'.table j ≡ scan t.table j

  pub with_room-runs :
      (rehash : Entry K V → ℕ) (t : Table K V) (body : Table K V → Run (Table K V))
      → ((e : Entry K V) → e.hash ≡ ops.hash e.key → rehash e ≡ ops.hash e.key)
      → IsValid t
      → t.sz < widest
      → (t' : Table K V) × (with_room rehash t body ≡ body t') × HasRoom t t'
  unfolding with_room
  with_room-runs rehash t body agrees v narrow = elim (Bool-cases (leb (t.sz / 2) t.nr)) [
    | inl full ↦
        let (r, run, (t', e, g)) =
          grow-Grows rehash t v.placed
            (λ p e h. (v.placed.hashed p e h, agrees e (v.placed.hashed p e h)))
            (omega (arith, v.load, v.size)) narrow in
        (
          t',
          rw (full, run, e),
          record {
            placed = g.valid;
            load = omega (arith, g.count, g.wider, v.load, v.size);
            wider = omega (arith, g.wider);
            reads = g.reads;
          },
        )
    | inr roomy ↦ (
      t,
      rw roomy,
      record { placed = v.placed; load = ground arith; wider = omega arith; reads = λ j. refl },
    )
  ]

  -- A table after an insertion.
  pub record Added (t : Table K V) (key : K) (val : V) (t' : Table K V) : Type ℓ where
    pub valid : IsValid t'
    pub wider : t.sz ≤ t'.sz
    pub reads :
        (j : K)
        → scan t'.table j
          ≡ or_else
              (scan t.table j)
              (if is_zero (ops.cmp key j) then some (new_entry key val) else none)

  -- An insertion into a valid table that can still grow ends in a valid table, whichever hash the
  -- growth uses. Every key means what it meant, and a key that meant nothing means the new entry
  -- if it is the same as the inserted one.
  pub insert-Added :
      (rehash : Entry K V → ℕ) (t : Table K V) (key : K) (val : V)
      → ((e : Entry K V) → e.hash ≡ ops.hash e.key → rehash e ≡ ops.hash e.key)
      → IsValid t
      → t.sz < widest
      → Returns (insert rehash t key val) (Added t key val)
  unfolding insert
  insert-Added rehash t key val agrees v narrow =
      let (t₁, run, r) =
        with_room-runs rehash t (λ u. entry_insert (ops.hash key) u key val) agrees v narrow in
      let (t', done, a) = entry_insert-Inserts t₁ key val r.placed (omega (arith, r.load)) in
      let one = vacant-le (scan t₁.table key) in
      (
        t',
        run ∙ done,
        record {
          valid = record {
            placed = a.valid;
            load = omega (arith, a.count, a.size, r.load);
            size = omega (arith, a.size, r.wider, v.size);
          };
          wider = omega (arith, a.size, r.wider);
          reads = λ j. rw (← r.reads j) (a.reads j);
        },
      )
