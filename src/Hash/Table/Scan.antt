-- ===== src/Hash/Table/Scan.antt =====
-- hash.c: what an array of slots means, read from left to right with no regard to hashes.
use powaur.Base.{ℕ, zero, suc, ◌<◌, ◌≡◌, refl, ap, ◌≢◌, true, Option, none, some}
use powaur.Base.{
  List, [], ◌∷◌, length, get_or, set, replicate, if◌then◌else◌, arith, Bool-cases, inl, inr,
}
use powaur.Hash.Keys.{KeyOps, is_zero, same_congr}
use powaur.Hash.Table.{Entry}

module _ {ℓ} {K V : Type ℓ} where
  -- The occupied slots.
  abbrev pub occupied : List (Option (Entry K V)) → ℕ
  occupied [] = 0
  occupied (none ∷ slots) = occupied slots
  occupied (some _ ∷ slots) = suc (occupied slots)

  pub occupied-set :
      (slots : List (Option (Entry K V))) (i : ℕ) (e : Entry K V)
      → i < length slots
      → get_or slots i none ≡ none
      → occupied (set slots i (some e)) ≡ suc (occupied slots)
  occupied-set [] i e h empty = absurd (omega arith)
  occupied-set (none ∷ slots) zero e h empty = refl
  occupied-set (some x ∷ slots) zero e h empty = cc
  occupied-set (none ∷ slots) (suc i) e h empty = occupied-set slots i e (omega arith) empty
  occupied-set (some x ∷ slots) (suc i) e h empty =
      ap suc (occupied-set slots i e (omega arith) empty)

  -- Fewer entries than slots leave a slot empty.
  pub empty_slot :
      (slots : List (Option (Entry K V)))
      → occupied slots < length slots
      → (i : ℕ) × (i < length slots) × (get_or slots i none ≡ none)
  empty_slot [] h = absurd (omega arith)
  empty_slot (none ∷ slots) h = (0, omega arith, refl)
  empty_slot (some x ∷ slots) h =
      let (i, lt, empty) = empty_slot slots (omega arith) in (suc i, omega arith, empty)

  pub get_or-lt :
      (slots : List (Option (Entry K V))) (i : ℕ) (e : Entry K V)
      → get_or slots i none ≡ some e
      → i < length slots
  get_or-lt [] i e h = cc
  get_or-lt (x ∷ slots) zero e h = omega arith
  get_or-lt (x ∷ slots) (suc i) e h = omega (arith, get_or-lt slots i e h)

pub occupied-replicate {ℓ} :
    (K V : Type ℓ) (n : ℕ) → occupied {K = K} {V = V} (replicate n none) ≡ 0
occupied-replicate K V zero = refl
occupied-replicate K V (suc n) = occupied-replicate K V n

module _ {ℓ} {K V : Type ℓ} ⦃ops : KeyOps K⦄ where
  -- The first entry whose key compares as equal: the association list that a table stands for.
  unfoldable pub scan : List (Option (Entry K V)) → K → Option (Entry K V)
  scan [] key = none
  scan (none ∷ slots) key = scan slots key
  scan (some e ∷ slots) key = if is_zero (ops.cmp e.key key) then some e else scan slots key

  pub scan-replicate : (n : ℕ) (key : K) → scan (replicate n none) key ≡ none
  unfolding scan
  scan-replicate zero key = refl
  scan-replicate (suc n) key = scan-replicate n key

  pub scan_congr :
      (slots : List (Option (Entry K V))) (a b : K)
      → is_zero (ops.cmp a b) ≡ true
      → scan slots a ≡ scan slots b
  unfolding scan
  scan_congr [] a b s = refl
  scan_congr (none ∷ slots) a b s = scan_congr slots a b s
  scan_congr (some e ∷ slots) a b s = rw (same_congr e.key a b s, scan_congr slots a b s)

  pub scan_sound :
      (slots : List (Option (Entry K V))) (key : K) (e : Entry K V)
      → scan slots key ≡ some e
      → (i : ℕ) × (get_or slots i none ≡ some e) × (is_zero (ops.cmp e.key key) ≡ true)
  unfolding scan
  scan_sound [] key e h = cc
  scan_sound (none ∷ slots) key e h = let (i, at, s) = scan_sound slots key e h in (suc i, at, s)
  scan_sound (some x ∷ slots) key e h = elim (Bool-cases (is_zero (ops.cmp x.key key))) [
    | inl found ↦ let p : some x ≡ some e = rw found at h in (0, p, ground arith)
    | inr other ↦ let (i, at, s) = scan_sound slots key e (rw other at h) in (suc i, at, s)
  ]

  pub scan_complete :
      (slots : List (Option (Entry K V))) (key : K) (i : ℕ) (e : Entry K V)
      → get_or slots i none ≡ some e
      → is_zero (ops.cmp e.key key) ≡ true
      → scan slots key ≢ none
  unfolding scan
  scan_complete [] key i e at s h = cc
  scan_complete (none ∷ slots) key zero e at s h = cc
  scan_complete (none ∷ slots) key (suc i) e at s h = scan_complete slots key i e at s h
  scan_complete (some x ∷ slots) key zero e at s h = ground arith
  scan_complete (some x ∷ slots) key (suc i) e at s h =
      ground (arith, scan_complete slots key i e at s)

  -- A new entry is what the keys equal to its own mean, if nothing was before.
  pub scan-set :
      (slots : List (Option (Entry K V))) (i : ℕ) (e : Entry K V) (key : K)
      → i < length slots
      → get_or slots i none ≡ none
      → (is_zero (ops.cmp e.key key) ≡ true → scan slots key ≡ none)
      → scan (set slots i (some e)) key
        ≡ (if is_zero (ops.cmp e.key key) then some e else scan slots key)
  unfolding scan
  scan-set [] i e key h empty fresh = absurd (omega arith)
  scan-set (none ∷ slots) zero e key h empty fresh = refl
  scan-set (some x ∷ slots) zero e key h empty fresh = cc
  scan-set (none ∷ slots) (suc i) e key h empty fresh =
      scan-set slots i e key (omega arith) empty fresh
  scan-set (some x ∷ slots) (suc i) e key h empty fresh = ground (arith, scan-set slots i e key)
