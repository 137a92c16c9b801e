-- ===== src/Hash/Table/Rehash.antt =====
-- hash.c: growing a table keeps its meaning.
use powaur.Base.{ℕ, zero, suc, ◌+◌, ◌<◌, ◌≤◌, ◌≡◌, refl, ap, ◌∙◌, sym}
use powaur.Base.{Bool, Option, none, some, or_else, List, [], ◌∷◌, get_or, replicate, arith}
use powaur.Base.{if◌then◌else◌, Returns, length-replicate}
use powaur.Alloc.{new_alloc_size}
use powaur.Alloc.Bounds.{widest, new_alloc_size-grows}
use powaur.Hash.Keys.{KeyOps, is_zero}
use powaur.Hash.Table.{Entry, Table, alloc, reinsert, grow}
use powaur.Hash.Table.Scan.{occupied, occupied-replicate, scan, scan-replicate}
use powaur.Hash.Table.Place.{IsPlaced, vacant-le, new_entry, entry_insert-Inserts}

get_or-replicate {ℓ} : {A : Type ℓ} (n i : ℕ) (a : A) → get_or (replicate n a) i a ≡ a
get_or-replicate zero i a = refl
get_or-replicate (suc n) zero a = refl
get_or-replicate (suc n) (suc i) a = get_or-replicate n i a

module _ {ℓ} {K V : Type ℓ} ⦃ops : KeyOps K⦄ where
  pub alloc-IsPlaced : (n : ℕ) → IsPlaced {K = K} {V = V} (alloc n)
  unfolding alloc
  alloc-IsPlaced n = record {
    width = length-replicate n none;
    counted = occupied-replicate K V n;
    hashed = λ p e h. cc (get_or-replicate {A = Option (Entry K V)} n p none);
    placed = λ p e h. cc (get_or-replicate {A = Option (Entry K V)} n p none);
  }

  -- Every entry carries the hash of its key.
  abbrev pub Hashed : List (Option (Entry K V)) → (Entry K V → ℕ) → Type ℓ
  Hashed slots rehash =
      (p : ℕ) (e : Entry K V)
      → get_or slots p none ≡ some e
      → (e.hash ≡ ops.hash e.key) × (rehash e ≡ ops.hash e.key)

  -- What the loop has done when the old entries are in: the old list follows the new one.
  pub record Reinserts (old : List (Option (Entry K V))) (t t' : Table K V) : Type ℓ where
    pub valid : IsPlaced t'
    pub size : t'.sz ≡ t.sz
    pub count : t'.nr ≤ t.nr + occupied old
    pub reads : (j : K) → scan t'.table j ≡ or_else (scan t.table j) (scan old j)

  new_entry-eq : (e : Entry K V) → e.hash ≡ ops.hash e.key → new_entry e.key e.val ≡ e
  new_entry-eq e h = λ i. record { hash = sym h i; key = e.key; val = e.val }

  or_else-none : (x : Option (Entry K V)) → x ≡ or_else x none
  unfolding or_else
  or_else-none x = ground arith

  -- One more entry in front of the old list.
  or_else-step :
      (x y : Option (Entry K V)) (b : Bool) (e : Entry K V)
      → or_else (or_else x (if b then some e else none)) y ≡ or_else x (if b then some e else y)
  unfolding or_else
  or_else-step x y b e = ground arith

  pub reinsert-Reinserts :
      (rehash : Entry K V → ℕ) (old : List (Option (Entry K V))) (t : Table K V)
      → Hashed old rehash
      → IsPlaced t
      → t.nr + occupied old < t.sz
      → Returns (reinsert rehash old t) (Reinserts old t)
  unfolding reinsert scan
  reinsert-Reinserts rehash [] t hashed v room = (
    t,
    refl,
    record {
      valid = v;
      size = refl;
      count = omega arith;
      reads = λ j. or_else-none (scan t.table j);
    },
  )
  reinsert-Reinserts rehash (none ∷ old) t hashed v room =
      let (t', run, r) = reinsert-Reinserts rehash old t (λ p e h. hashed (suc p) e h) v room in
      (t', run, record { valid = r.valid; size = r.size; count = r.count; reads = r.reads })
  reinsert-Reinserts rehash (some e ∷ old) t hashed v room =
      let (carried, agrees) = hashed 0 e refl in
      let (t₁, run₁, r₁) = entry_insert-Inserts t e.key e.val v (omega arith) in
      let more = vacant-le (scan t.table e.key) in
      let (t', run, r) =
        reinsert-Reinserts rehash old t₁ (λ p x h. hashed (suc p) x h) r₁.valid
          (omega (arith, r₁.size, r₁.count)) in
      (
        t',
        rw (agrees, run₁) run,
        record {
          valid = r.valid;
          size = r.size ∙ r₁.size;
          count = omega (arith, r.count, r₁.count);
          reads = λ j.
              r.reads j
              ∙ ap (λ x. or_else x (scan old j)) (r₁.reads j)
              ∙ or_else-step _ _ _ _
              ∙ ap
                  (λ x.
                    or_else (scan t.table j)
                      (if is_zero (ops.cmp e.key j) then some x else scan old j))
                  (new_entry-eq e carried);
        },
      )

  -- A larger table with the same meaning.
  pub record Grows (t t' : Table K V) : Type ℓ where
    pub valid : IsPlaced t'
    pub wider : t.sz + 24 ≤ t'.sz
    pub count : t'.nr ≤ t.nr
    pub reads : (j : K) → scan t'.table j ≡ scan t.table j

  -- Growing a table that has a free slot and can still grow ends and succeeds, in a table that is
  -- larger by at least 24 and in which every key means the same entry.
  pub grow-Grows :
      (rehash : Entry K V → ℕ) (t : Table K V)
      → IsPlaced t
      → Hashed t.table rehash
      → t.nr < t.sz
      → t.sz < widest
      → Returns (grow rehash t) (λ r. (t' : Table K V) × (r ≡ some t') × Grows t t')
  unfolding grow alloc or_else
  grow-Grows rehash t v hashed room narrow =
      let wider = (new_alloc_size-grows t.sz).1 narrow in
      let (t', run, r) =
        reinsert-Reinserts rehash t.table (alloc (new_alloc_size t.sz)) hashed
          (alloc-IsPlaced (new_alloc_size t.sz)) (omega (arith, v.counted)) in
      (
        some t',
        ground arith,
        (
          t',
          refl,
          record {
            valid = r.valid;
            wider = omega (arith, r.size);
            count = omega (arith, r.count, v.counted);
            reads = λ j. r.reads j ∙ rw (scan-replicate (new_alloc_size t.sz) j);
          },
        ),
      )
