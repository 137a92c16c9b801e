-- ===== src/Hash/Table/Replace.antt =====
-- hash.c: a write to the value of an entry that is there.
use powaur.Base.{ℕ, zero, suc, ◌%◌, ◌<◌, ◌≡◌, refl, ap, ◌∙◌, sym, ◌≢◌, inl, inr}
use powaur.Base.{Option, none, some, List, [], ◌∷◌, get_or, set, arith}
use powaur.Base.{Option-cases, Bool-cases, if◌then◌else◌, ℕ_discrete}
use powaur.Base.{length-set, get_or-set_self, get_or-set_ne}
use powaur.Hash.Keys.{KeyOps, is_zero}
use powaur.Hash.Table.{Entry, Table, next, hit, probe, entry_lookup}
use powaur.Hash.Table.Probe.{probe-some, probe-none, probe-stops}
use powaur.Hash.Table.Scan.{occupied, get_or-lt, scan}
use powaur.Hash.Table.Place.{IsPlaced, entry_lookup_congr, entry_lookup-scan}

module _ {ℓ} {K V : Type ℓ} ⦃ops : KeyOps K⦄ where
  occupied-replace :
      (slots : List (Option (Entry K V))) (p : ℕ) (e e' : Entry K V)
      → get_or slots p none ≡ some e
      → occupied (set slots p (some e')) ≡ occupied slots
  occupied-replace [] p e e' h = refl
  occupied-replace (none ∷ slots) zero e e' h = cc
  occupied-replace (some x ∷ slots) zero e e' h = refl
  occupied-replace (none ∷ slots) (suc p) e e' h = occupied-replace slots p e e' h
  occupied-replace (some x ∷ slots) (suc p) e e' h = ap suc (occupied-replace slots p e e' h)

  -- A probe sees of an entry its hash and its key.
  probe-replace :
      (slots : List (Option (Entry K V))) (sz hash : ℕ) (key : K) (p : ℕ) (e : Entry K V) (val : V)
      (rounds pos : ℕ)
      → get_or slots p none ≡ some e
      → probe (set slots p (some (record e { val = val }))) sz hash key rounds pos
        ≡ probe slots sz hash key rounds pos
  unfolding probe hit
  probe-replace slots sz hash key p e val zero pos at = refl
  probe-replace slots sz hash key p e val (suc rounds) pos at =
      let e' : Entry K V = record e { val = val } in
      let rest = probe-replace slots sz hash key p e val rounds (next sz pos) at in
      elim (ℕ_discrete p pos) [
        | yes here ↦
            let old : get_or slots pos none ≡ some e = rw here at at in
            let new : get_or (set slots p (some e')) pos none ≡ some e' =
              rw (← here) (get_or-set_self slots p (some e') none (get_or-lt slots p e at)) in
            probe-some _ sz hash key rounds pos e' new
            ∙ (rw rest)
            ∙ sym (probe-some slots sz hash key rounds pos e old)
        | no other ↦
            let same = get_or-set_ne slots p pos (some e') none other in
            elim (Option-cases (get_or slots pos none)) [
              | inl empty ↦
                  probe-none _ sz hash key rounds pos (same ∙ empty)
                  ∙ sym (probe-none slots sz hash key rounds pos empty)
              | inr (x, full) ↦
                  probe-some _ sz hash key rounds pos x (same ∙ full)
                  ∙ (rw rest)
                  ∙ sym (probe-some slots sz hash key rounds pos x full)
            ]
      ]

  module _ (t : Table K V) (p : ℕ) (e : Entry K V) (val : V) (v : IsPlaced t)
      (at : get_or t.table p none ≡ some e) where
    abbrev pub replaced : Table K V
    replaced = record t { table = set t.table p (some (record e { val = val })) }

    replaced-lookup :
        (hash : ℕ) (key : K) → entry_lookup hash replaced key ≡ entry_lookup hash t key
    unfolding entry_lookup
    replaced-lookup hash key = probe-replace t.table t.sz hash key p e val t.sz (hash % t.sz) at

    replaced-slot_self : get_or replaced.table p none ≡ some (record e { val = val })
    replaced-slot_self = get_or-set_self t.table p _ none (get_or-lt t.table p e at)

    replaced-slot_ne : (q : ℕ) → p ≢ q → get_or replaced.table q none ≡ get_or t.table q none
    replaced-slot_ne q ne = get_or-set_ne t.table p q _ none ne

    -- The keys stay where they were.
    replaced-key :
        (q : ℕ) (x : Entry K V)
        → get_or replaced.table q none ≡ some x
        → (y : Entry K V) × (get_or t.table q none ≡ some y) × (x.hash ≡ y.hash) × (x.key ≡ y.key)
    replaced-key q x h = elim (ℕ_discrete p q) [
      | yes here ↦
          let s : some x ≡ some (record e { val = val }) =
            sym h ∙ sym (ap (λ (i : ℕ). get_or replaced.table i none) here) ∙ replaced-slot_self in
          (e, rw here at at, ground arith, ground arith)
      | no other ↦ (x, sym (replaced-slot_ne q other) ∙ h, refl, refl)
    ]

    pub replaced-IsPlaced : IsPlaced replaced
    replaced-IsPlaced = record {
      width = length-set t.table p _ ∙ v.width;
      counted = occupied-replace t.table p e _ at ∙ v.counted;
      hashed = λ q x h.
          let (y, there, hashes, keys) = replaced-key q x h in
          hashes ∙ v.hashed q y there ∙ ap ops.hash (sym keys);
      placed = λ q x h.
          let (y, there, hashes, keys) = replaced-key q x h in
          ap (λ (k : K). entry_lookup (ops.hash k) replaced k) keys
          ∙ replaced-lookup (ops.hash y.key) y.key
          ∙ v.placed q y there;
    }

    -- The keys that are the same as the entry's mean the new value, the others what they meant.
    pub scan-replaced :
        (j : K)
        → t.nr < t.sz
        → scan replaced.table j
          ≡ (if is_zero (ops.cmp e.key j) then some (record e { val = val }) else scan t.table j)
    unfolding hit entry_lookup
    scan-replaced j room =
        let (q, run, (_, now)) = entry_lookup-scan t j v room in
        let (q', run', (_, then_now)) = entry_lookup-scan replaced j replaced-IsPlaced room in
        let here : q' ≡ q = cc (replaced-lookup (ops.hash j) j) in
        elim (Bool-cases (is_zero (ops.cmp e.key j))) [
          | inl same ↦
              let mine : q ≡ p = cc (v.placed p e at, entry_lookup_congr t e.key j same) in
              rw same (
                sym then_now
                ∙ ap (λ (i : ℕ). get_or replaced.table i none) (here ∙ mine)
                ∙ replaced-slot_self)
          | inr apart ↦
              let away : p ≢ q = λ m.
                elim (probe-stops t.table t.sz (ops.hash j) j t.sz (ops.hash j % t.sz) q run) [
                  | inl empty ↦ cc (ap (λ (i : ℕ). get_or t.table i none) m)
                  | inr (x, full, s) ↦
                      let q_e : some x ≡ some e =
                        sym full ∙ sym (ap (λ (i : ℕ). get_or t.table i none) m) ∙ at in
                      ground arith
                ] in
              rw apart (
                sym then_now
                ∙ ap (λ (i : ℕ). get_or replaced.table i none) here
                ∙ replaced-slot_ne q away
                ∙ now)
        ]
