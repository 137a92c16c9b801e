-- ===== src/Hash/Table/Probe.antt =====
-- hash.c: what the probe loop finds, that it ends, and how a write to the array changes it.
use powaur.Base.{ℕ, zero, suc, ◌+◌, ◌-◌, ◌<◌, ◌≡◌, refl, ap, ◌∙◌, ◌≢◌, ◌⊎◌, inl, inr, sym}
use powaur.Base.{true, Option, none, some, List, length, get_or, set, arith, leb}
use powaur.Base.{Option-cases, Bool-cases, get_or-set_self, get_or-set_ne, if◌then◌else◌}
use powaur.Base.{ok, Returns}
use powaur.Hash.Keys.{KeyOps, is_zero, same_congr}
use powaur.Hash.Table.{Entry, next, hit, probe}

pub next-lt : (sz pos : ℕ) → pos < sz → next sz pos < sz
unfolding next
next-lt sz pos h = ground arith

-- The rounds that the loop needs from `pos` to reach the slot `i`.
distance : ℕ → ℕ → ℕ → ℕ
distance sz pos i = if leb pos i then i - pos else i + sz - pos

distance-next :
    (sz pos i : ℕ)
    → pos < sz
    → i < sz
    → pos ≢ i
    → suc (distance sz (next sz pos) i) ≡ distance sz pos i
unfolding distance next
distance-next sz pos i h k ne = ground arith

distance-lt : (sz pos i : ℕ) → pos < sz → i < sz → distance sz pos i < sz
unfolding distance
distance-lt sz pos i h k = ground arith

module _ {ℓ} {K V : Type ℓ} ⦃ops : KeyOps K⦄ where
  hit_congr :
      (hash : ℕ) (a b : K) (e : Entry K V)
      → is_zero (ops.cmp a b) ≡ true
      → hit hash a e ≡ hit hash b e
  unfolding hit
  hit_congr hash a b e s = rw (same_congr e.key a b s)

  -- Keys that compare as equal are probed alike.
  pub probe_congr :
      (slots : List (Option (Entry K V))) (sz hash : ℕ) (a b : K) (rounds pos : ℕ)
      → is_zero (ops.cmp a b) ≡ true
      → probe slots sz hash a rounds pos ≡ probe slots sz hash b rounds pos
  unfolding probe
  probe_congr slots sz hash a b zero pos s = refl
  probe_congr slots sz hash a b (suc rounds) pos s = elim (Option-cases (get_or slots pos none)) [
    | inl e ↦ rw (e, probe)
    | inr (x, e) ↦
        rw (e, probe)
          (rw (hit_congr hash a b x s, probe_congr slots sz hash a b rounds (next sz pos) s))
  ]

module _ {ℓ} {K V : Type ℓ} ⦃ops : KeyOps K⦄ where
  -- One round at an occupied slot, which keeps the entry.
  pub probe-some :
      (slots : List (Option (Entry K V))) (sz hash : ℕ) (key : K) (rounds pos : ℕ) (e : Entry K V)
      → get_or slots pos none ≡ some e
      → probe slots sz hash key (suc rounds) pos
        ≡ (if hit hash key e then ok pos else probe slots sz hash key rounds (next sz pos))
  unfolding probe
  probe-some slots sz hash key rounds pos e at = rw (at, probe)

  pub probe-none :
      (slots : List (Option (Entry K V))) (sz hash : ℕ) (key : K) (rounds pos : ℕ)
      → get_or slots pos none ≡ none
      → probe slots sz hash key (suc rounds) pos ≡ ok pos
  unfolding probe
  probe-none slots sz hash key rounds pos at = rw (at, probe)

module _ {ℓ} {K V : Type ℓ} ⦃ops : KeyOps K⦄ (slots : List (Option (Entry K V))) (sz hash : ℕ)
    (key : K) where
  -- With an empty slot below `sz` the loop ends in range.
  probe-ends :
      (rounds pos i : ℕ)
      → pos < sz
      → i < sz
      → get_or slots i none ≡ none
      → distance sz pos i < rounds
      → Returns (probe slots sz hash key rounds pos) (λ p. p < sz)
  probe-ends zero pos i h k empty d = absurd (omega arith)
  probe-ends (suc rounds) pos i h k empty d = elim (Option-cases (get_or slots pos none)) [
    | inl e ↦ (pos, probe-none slots sz hash key rounds pos e, h)
    | inr (x, e) ↦
        let ne : pos ≢ i = λ q. cc (ap (λ (t : ℕ). get_or slots t none) q) in
        let (p, run, lt) =
          probe-ends rounds (next sz pos) i (next-lt sz pos h) k empty
            (omega (arith, distance-next sz pos i h k ne)) in
        elim (Bool-cases (hit hash key x)) [
          | inl yes_hit ↦ (pos, probe-some slots sz hash key rounds pos x e ∙ rw yes_hit, h)
          | inr no_hit ↦ (p, probe-some slots sz hash key rounds pos x e ∙ rw no_hit run, lt)
        ]
  ]

  -- The loop ends at an empty slot or at a hit.
  pub probe-stops :
      (rounds pos p : ℕ)
      → probe slots sz hash key rounds pos ≡ ok p
      → (get_or slots p none ≡ none)
        ⊎ ((e : Entry K V) × (get_or slots p none ≡ some e) × (hit hash key e ≡ true))
  unfolding probe
  probe-stops zero pos p h = cc
  probe-stops (suc rounds) pos p h = elim (Option-cases (get_or slots pos none)) [
    | inl e ↦ let q : pos ≡ p = cc (probe-none slots sz hash key rounds pos e) in inl (rw q at e)
    | inr (x, e) ↦ elim (Bool-cases (hit hash key x)) [
      | inl yes_hit ↦
          let q : pos ≡ p = ground (arith, probe-some slots sz hash key rounds pos x e) in
          inr (x, rw q at e, yes_hit)
      | inr no_hit ↦
          probe-stops rounds (next sz pos) p
            (ground (arith, probe-some slots sz hash key rounds pos x e))
    ]
  ]

  module _ (q : ℕ) (new : Entry K V) (empty : get_or slots q none ≡ none) where
    -- A write to an empty slot changes no probe that ends elsewhere.
    pub probe-set_ne :
        (rounds pos p : ℕ)
        → p ≢ q
        → probe slots sz hash key rounds pos ≡ ok p
        → probe (set slots q (some new)) sz hash key rounds pos ≡ ok p
    unfolding probe
    probe-set_ne zero pos p ne h = cc
    probe-set_ne (suc rounds) pos p ne h = elim (Option-cases (get_or slots pos none)) [
      | inl e ↦
          let here : pos ≡ p = cc (probe-none slots sz hash key rounds pos e) in
          let at = get_or-set_ne slots q pos (some new) none (λ t. ne (sym (t ∙ here))) in
          probe-none (set slots q (some new)) sz hash key rounds pos (at ∙ e) ∙ ap ok here
      | inr (x, e) ↦
          let away : q ≢ pos = λ t. cc (ap (λ (u : ℕ). get_or slots u none) t) in
          let step =
            probe-some (set slots q (some new)) sz hash key rounds pos x
              (get_or-set_ne slots q pos (some new) none away ∙ e) in
          let old = probe-some slots sz hash key rounds pos x e in
          elim (Bool-cases (hit hash key x)) [
            | inl yes_hit ↦ ground (arith, step, old)
            | inr no_hit ↦
                step ∙ rw no_hit (probe-set_ne rounds (next sz pos) p ne (ground (arith, old)))
          ]
    ]

    -- The probe that ends at the slot written ends there again, if the new entry is a hit.
    pub probe-set_self :
        (rounds pos : ℕ)
        → q < length slots
        → hit hash key new ≡ true
        → probe slots sz hash key rounds pos ≡ ok q
        → probe (set slots q (some new)) sz hash key rounds pos ≡ ok q
    unfolding probe
    probe-set_self zero pos lt s h = cc
    probe-set_self (suc rounds) pos lt s h = elim (Option-cases (get_or slots pos none)) [
      | inl e ↦
          let here : pos ≡ q = cc (probe-none slots sz hash key rounds pos e) in
          rw here (
            probe-some (set slots q (some new)) sz hash key rounds q new
              (get_or-set_self slots q (some new) none lt)
            ∙ rw s)
      | inr (x, e) ↦
          let away : q ≢ pos = λ t. cc (ap (λ (u : ℕ). get_or slots u none) t) in
          let step =
            probe-some (set slots q (some new)) sz hash key rounds pos x
              (get_or-set_ne slots q pos (some new) none away ∙ e) in
          let old = probe-some slots sz hash key rounds pos x e in
          elim (Bool-cases (hit hash key x)) [
            | inl yes_hit ↦ ground (arith, step, old)
            | inr no_hit ↦
                step ∙ rw no_hit (probe-set_self rounds (next sz pos) lt s (ground (arith, old)))
          ]
    ]

module _ {ℓ} {K V : Type ℓ} ⦃ops : KeyOps K⦄ where
  -- A table with an empty slot is probed in at most as many rounds as it has slots.
  pub probe_total :
      (slots : List (Option (Entry K V))) (sz hash : ℕ) (key : K) (pos i : ℕ)
      → pos < sz
      → i < sz
      → get_or slots i none ≡ none
      → Returns (probe slots sz hash key sz pos) (λ p. p < sz)
  probe_total slots sz hash key pos i h k empty =
      probe-ends slots sz hash key sz pos i h k empty (distance-lt sz pos i h k)
