-- ===== src/Hash/Table.antt =====
-- hash.c: the array of slots, the probe loop, and rehashing. The source writes these out for each
-- of its four flavours of table, over the members of a union; here they are written once, over the
-- type `V` of what an entry holds besides its key. A slot whose key is NULL is `none`.
pub mod Probe
pub mod Scan
pub mod Place
pub mod Rehash
pub mod Replace
pub mod Insert
use powaur.Base.{ℕ, zero, suc, ◌+◌, ◌/◌, ◌%◌, Bool, ◌&&◌, Option, none, some, List, [], ◌∷◌}
use powaur.Base.{leb, ◌==◌, if◌then◌else◌, length, get_or, set, replicate, Run, ok, spin, ◌>>=◌}
use powaur.Alloc.{new_alloc_size}
use powaur.Hash.Keys.{KeyOps, is_zero}

pub record Entry {ℓ} (K V : Type ℓ) : Type ℓ where
  pub hash : ℕ
  pub key : K
  pub val : V

pub record Table {ℓ} (K V : Type ℓ) : Type ℓ where
  pub table : List (Option (Entry K V))
  pub sz : ℕ
  pub nr : ℕ

-- `xcalloc(sz, sizeof(struct hash_table_entry))`
unfoldable pub alloc {ℓ} : {K V : Type ℓ} → ℕ → Table K V
alloc sz = record { table = replicate sz none; sz = sz; nr = 0 }

-- `if (++pos >= htable->sz) pos = 0;`
unfoldable pub next : ℕ → ℕ → ℕ
next sz pos = if leb sz (pos + 1) then 0 else pos + 1

module _ {ℓ} {K V : Type ℓ} ⦃ops : KeyOps K⦄ where
  -- `table[pos].hash == hash && !cmp(table[pos].key, key)`
  unfoldable pub hit : ℕ → K → Entry K V → Bool
  hit hash key e = e.hash == hash && is_zero (ops.cmp e.key key)

  -- The probe loop stops at an empty slot or at a hit. It has as many rounds as there are slots:
  -- a loop that has seen every slot goes round for ever.
  unfoldable pub probe : List (Option (Entry K V)) → ℕ → ℕ → K → ℕ → ℕ → Run ℕ
  unfolding hit next
  probe slots sz hash key zero pos = spin
  probe slots sz hash key (suc rounds) pos = elim (get_or slots pos none) [
    | none ↦ ok pos
    | some e ↦
        let rest = probe slots sz hash key rounds (next sz pos) in
        if hit hash key e then ok pos else rest
  ]

  unfoldable pub entry_lookup : ℕ → Table K V → K → Run ℕ
  unfolding probe
  entry_lookup hash t key = probe t.table t.sz hash key t.sz (hash % t.sz)

  -- A slot that the probe found empty is filled; a hit is left alone.
  unfoldable pub fill : ℕ → K → V → Table K V → ℕ → Table K V
  fill hash key val t pos = elim (get_or t.table pos none) [
    | none ↦ record t {
      table = set t.table pos (some (record { hash = hash; key = key; val = val }));
      nr = t.nr + 1;
    }
    | some _ ↦ t
  ]

  unfoldable pub entry_insert : ℕ → Table K V → K → V → Run (Table K V)
  unfolding entry_lookup fill
  entry_insert hash t key val = do pos ← entry_lookup hash t key; ok (fill hash key val t pos)

  -- The loop over the old table; `rehash` gives the hash of an old entry.
  unfoldable pub reinsert :
      (Entry K V → ℕ) → List (Option (Entry K V)) → Table K V → Run (Table K V)
  unfolding entry_insert
  reinsert rehash [] t = ok t
  reinsert rehash (none ∷ old) t = reinsert rehash old t
  reinsert rehash (some e ∷ old) t = do
    t' ← entry_insert (rehash e) t e.key e.val
    reinsert rehash old t'

  -- `none` is the result -1: the size cannot grow, and the table is as it was.
  unfoldable pub grow : (Entry K V → ℕ) → Table K V → Run (Option (Table K V))
  unfolding reinsert alloc
  grow rehash t =
      let new_size = new_alloc_size t.sz in
      if leb new_size t.sz
      then ok none
      else (do t' ← reinsert rehash t.table (alloc new_size); ok (some t'))

  -- `if (htable->nr >= htable->sz / 2)` the table grows; where that fails it is as it was, and
  -- `body` is not run.
  unfoldable pub with_room :
      (Entry K V → ℕ) → Table K V → (Table K V → Run (Table K V)) → Run (Table K V)
  unfolding grow
  with_room rehash t body = do
    roomy ← if leb (t.sz / 2) t.nr then grow rehash t else ok (some t)
    elim roomy [ none ↦ ok t | some t' ↦ body t' ]

  unfoldable pub insert : (Entry K V → ℕ) → Table K V → K → V → Run (Table K V)
  unfolding with_room
  insert rehash t key val = with_room rehash t (λ t'. entry_insert (ops.hash key) t' key val)

  -- The slot at which the probe for a key ends.
  unfoldable pub slot_of : Table K V → K → Run (Option (Entry K V))
  unfolding entry_lookup
  slot_of t key = do pos ← entry_lookup (ops.hash key) t key; ok (get_or t.table pos none)
