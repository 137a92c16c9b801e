-- ===== src/Hash/Table/Place.antt =====
-- hash.c: well-formed tables, what a lookup in one returns, and what an insertion does.
use powaur.Base.{ℕ, ◌+◌, ◌%◌, ◌<◌, ◌≤◌, ◌≡◌, refl, ap, ◌∙◌, sym, ◌≢◌, ◌⊎◌, ℕ_discrete, inl, inr}
use powaur.Base.{Bool, true, Option, none, some, or_else, length, get_or, set, arith}
use powaur.Base.{Option-cases, if◌then◌else◌, ok, Returns}
use powaur.Base.{length-set, get_or-set_self, get_or-set_ne}
use powaur.Hash.Keys.{KeyOps, is_zero}
use powaur.Hash.Table.{Entry, Table, hit, entry_lookup, fill, entry_insert}
use powaur.Hash.Table.Probe.{probe_congr, probe-stops, probe-set_ne, probe-set_self, probe_total}
use powaur.Hash.Table.Scan.{
  occupied, occupied-set, empty_slot, scan, scan_congr, scan_sound, scan_complete, scan-set,
}

module _ {ℓ} {K V : Type ℓ} ⦃ops : KeyOps K⦄ where
  -- The entry at which an array's slot `p` stands, and that the probe for its key ends there.
  pub record IsPlaced (t : Table K V) : Type ℓ where
    pub width : length t.table ≡ t.sz
    pub counted : occupied t.table ≡ t.nr
    pub hashed : (p : ℕ) (e : Entry K V) → get_or t.table p none ≡ some e → e.hash ≡ ops.hash e.key
    pub placed :
        (p : ℕ) (e : Entry K V)
        → get_or t.table p none ≡ some e
        → entry_lookup (ops.hash e.key) t e.key ≡ ok p

  pub entry_lookup_congr :
      (t : Table K V) (a b : K)
      → is_zero (ops.cmp a b) ≡ true
      → entry_lookup (ops.hash a) t a ≡ entry_lookup (ops.hash b) t b
  unfolding entry_lookup
  entry_lookup_congr t a b s =
      rw (ops.hash-same a b s)
        (probe_congr t.table t.sz (ops.hash b) a b t.sz (ops.hash b % t.sz) s)

  -- The slot at which a probe ends holds what the array means at the key.
  slot-scan :
      (t : Table K V) (key : K) (p : ℕ)
      → IsPlaced t
      → entry_lookup (ops.hash key) t key ≡ ok p
      → get_or t.table p none ≡ scan t.table key
  unfolding entry_lookup hit
  slot-scan t key p v run = elim (Option-cases (scan t.table key)) [
    | inl nothing ↦
        elim (probe-stops t.table t.sz (ops.hash key) key t.sz (ops.hash key % t.sz) p run) [
          | inl empty ↦ empty ∙ sym nothing
          | inr (e, at, s) ↦ absurd (scan_complete t.table key p e at (ground arith) nothing)
        ]
    | inr (e, found) ↦
        let (i, at, s) = scan_sound t.table key e found in
        let same_run = entry_lookup_congr t e.key key s in
        let here : i ≡ p = cc (v.placed i e at) in (rw here at at) ∙ sym found
  ]

  -- A lookup in a table that is not full ends, in range, at the slot that holds the key's entry.
  pub entry_lookup-scan :
      (t : Table K V) (key : K)
      → IsPlaced t
      → t.nr < t.sz
      → Returns
          (entry_lookup (ops.hash key) t key)
          (λ p. (p < t.sz) × (get_or t.table p none ≡ scan t.table key))
  unfolding entry_lookup
  entry_lookup-scan t key v room =
      let (i, lt, empty) = empty_slot t.table (omega (arith, v.width, v.counted)) in
      let (p, run, fits) =
        probe_total t.table t.sz (ops.hash key) key (ops.hash key % t.sz) i (omega arith)
          (omega (arith, v.width)) empty in
      (p, run, (fits, slot-scan t key p v run))

  abbrev pub vacant : Option (Entry K V) → ℕ
  vacant none = 1
  vacant (some _) = 0

  pub vacant-le : (o : Option (Entry K V)) → vacant o ≤ 1
  vacant-le none = omega arith
  vacant-le (some e) = omega arith

  abbrev pub new_entry : K → V → Entry K V
  new_entry key val = record { hash = ops.hash key; key = key; val = val }

  -- The table after a write of an entry to the empty slot `p`.
  module _ (t : Table K V) (key : K) (val : V) (p : ℕ) (v : IsPlaced t)
      (run : entry_lookup (ops.hash key) t key ≡ ok p) (empty : get_or t.table p none ≡ none)
      (fits : p < t.sz) where
    abbrev filled : Table K V
    filled = record t { table = set t.table p (some (new_entry key val)); nr = t.nr + 1 }

    filled-slot :
        (q : ℕ) (e : Entry K V)
        → get_or filled.table q none ≡ some e
        → ((q ≡ p) × (e ≡ new_entry key val)) ⊎ ((q ≢ p) × (get_or t.table q none ≡ some e))
    filled-slot q e h = elim (ℕ_discrete p q) [
      | yes same ↦ inl (
        sym same,
        cc (
          get_or-set_self t.table p (some (new_entry key val)) none (omega (arith, v.width)),
          ap (λ (i : ℕ). get_or filled.table i none) same,
        ),
      )
      | no other ↦ inr (
        (λ s. other (sym s)),
        cc (get_or-set_ne t.table p q (some (new_entry key val)) none other),
      )
    ]

    filled-hashed :
        (q : ℕ) (e : Entry K V) → get_or filled.table q none ≡ some e → e.hash ≡ ops.hash e.key
    filled-hashed q e h = elim (filled-slot q e h) [
      | inl (_, s) ↦ rw s
      | inr (_, old) ↦ v.hashed q e old
    ]

    filled-placed :
        (q : ℕ) (e : Entry K V)
        → get_or filled.table q none ≡ some e
        → entry_lookup (ops.hash e.key) filled e.key ≡ ok q
    unfolding entry_lookup hit
    filled-placed q e h = elim (filled-slot q e h) [
      | inl (at, s) ↦
          rw (at, s)
            (probe-set_self t.table t.sz (ops.hash key) key p (new_entry key val) empty t.sz
              (ops.hash key % t.sz) (omega (arith, v.width)) (ground (arith, ops.same_refl key))
              run)
      | inr (other, old) ↦
          probe-set_ne t.table t.sz (ops.hash e.key) e.key p (new_entry key val) empty t.sz
            (ops.hash e.key % t.sz) q other (v.placed q e old)
    ]

    filled-IsPlaced : IsPlaced filled
    filled-IsPlaced = record {
      width = length-set t.table p (some (new_entry key val)) ∙ v.width;
      counted = omega (
        arith,
        occupied-set t.table p (new_entry key val) (omega (arith, v.width)) empty,
        v.counted,
      );
      hashed = filled-hashed;
      placed = filled-placed;
    }

  later_entry :
      (x : Option (Entry K V)) (b : Bool) (e : Entry K V)
      → (b ≡ true → x ≡ none)
      → (if b then some e else x) ≡ or_else x (if b then some e else none)
  unfolding or_else
  later_entry x b e h = ground arith

  earlier_entry :
      (x : Option (Entry K V)) (b : Bool) (e : Entry K V)
      → (b ≡ true → x ≢ none)
      → x ≡ or_else x (if b then some e else none)
  unfolding or_else
  earlier_entry x b e h = ground arith

  -- An insertion keeps the table well-formed, counts a new key, and adds an entry at the end of
  -- the association list: what a key meant before stays.
  pub record Inserts (t : Table K V) (key : K) (val : V) (t' : Table K V) : Type ℓ where
    pub valid : IsPlaced t'
    pub size : t'.sz ≡ t.sz
    pub count : t'.nr ≡ t.nr + vacant (scan t.table key)
    pub reads :
        (j : K)
        → scan t'.table j
          ≡ or_else
              (scan t.table j)
              (if is_zero (ops.cmp key j) then some (new_entry key val) else none)

  pub fill-Inserts :
      (t : Table K V) (key : K) (val : V) (p : ℕ)
      → IsPlaced t
      → entry_lookup (ops.hash key) t key ≡ ok p
      → p < t.sz
      → get_or t.table p none ≡ scan t.table key
      → Inserts t key val (fill (ops.hash key) key val t p)
  unfolding fill
  fill-Inserts t key val p v run fits at = elim (Option-cases (scan t.table key)) [
    | inl nothing ↦
        let empty = at ∙ nothing in
        rw (empty, fill)
          (record {
            valid = filled-IsPlaced t key val p v run empty fits;
            size = refl;
            count = rw nothing;
            reads = λ j.
                let known = scan_congr t.table key j in
                scan-set t.table p (new_entry key val) j (omega (arith, v.width)) empty
                  (λ s. sym (known s) ∙ nothing)
                ∙ later_entry _ _ _ (λ s. sym (known s) ∙ nothing);
          })
    | inr (e, found) ↦
        rw (at ∙ found, fill)
          (record {
            valid = v;
            size = refl;
            count = rw found (omega arith);
            reads = λ j.
                earlier_entry (scan t.table j) (is_zero (ops.cmp key j)) (new_entry key val)
                  (λ s q. cc (scan_congr t.table key j s));
          })
  ]

  pub entry_insert-Inserts :
      (t : Table K V) (key : K) (val : V)
      → IsPlaced t
      → t.nr < t.sz
      → Returns (entry_insert (ops.hash key) t key val) (Inserts t key val)
  unfolding entry_insert
  entry_insert-Inserts t key val v room =
      let (p, run, (fits, at)) = entry_lookup-scan t key v room in
      (_, rw run, fill-Inserts t key val p v run fits at)
