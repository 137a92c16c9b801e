-- ===== src/Util/Trim.antt =====
-- util.c: what `strtrim` and `strtrim_ver` leave of a string.
use powaur.Base.{ℕ, ◌≡◌, refl, ap, sym, ◌∙◌, Bool, true, false, ◌&&◌, [], ◌∷◌, ◌++◌, arith}
use powaur.Base.{if◌then◌else◌, mem, Bool-cases, if-true, List-cases, inl, inr}
use powaur.Util.{Str, isspace, skip_spaces, cut_spaces, strtrim, cut_at, strtrim_ver}

abbrev all_spaces : Str → Bool
all_spaces [] = true
all_spaces (c ∷ s) = isspace c && all_spaces s

abbrev starts_solid : Str → Bool
starts_solid [] = true
starts_solid (c ∷ s) = if isspace c then false else true

abbrev ends_solid : Str → Bool
ends_solid [] = true
ends_solid (c ∷ []) = if isspace c then false else true
ends_solid (c ∷ d ∷ s) = ends_solid (d ∷ s)

-- A string is a trimmed string between two runs of spaces.
pub record IsTrim (line out : Str) : Type 0 where
  pub before : Str
  pub after : Str
  pub whole : line ≡ before ++ (out ++ after)
  pub before_spaces : all_spaces before ≡ true
  pub after_spaces : all_spaces after ≡ true
  pub starts : starts_solid out ≡ true
  pub ends : ends_solid out ≡ true

skip_spaces-splits :
    (line : Str)
    → (before : Str) × (line ≡ before ++ skip_spaces line)
      × (all_spaces before ≡ true)
      × (starts_solid (skip_spaces line) ≡ true)
unfolding skip_spaces
skip_spaces-splits [] = ([], refl, refl, refl)
skip_spaces-splits (c ∷ line) = elim (Bool-cases (isspace c)) [
  | inl e ↦
      let (before, whole, spaces, solid) = skip_spaces-splits line in
      rw e (c ∷ before, ap (λ (s : Str). c ∷ s) whole, rw e spaces, solid)
  | inr e ↦ rw e ([], refl, refl, rw e refl)
]

cut_spaces-splits :
    (line : Str)
    → (after : Str) × (line ≡ cut_spaces line ++ after)
      × (all_spaces after ≡ true)
      × (ends_solid (cut_spaces line) ≡ true)
unfolding cut_spaces
cut_spaces-splits [] = ([], refl, refl, refl)
cut_spaces-splits (c ∷ line) =
    let (after, whole, spaces, solid) = cut_spaces-splits line in
    elim (List-cases (cut_spaces line)) [
      | inl e ↦
          let same : line ≡ after = whole ∙ ap (λ (s : Str). s ++ after) e in
          elim (Bool-cases (isspace c)) [
            | inl h ↦
                rw (e, cut_spaces, h) (c ∷ after, ap (λ (s : Str). c ∷ s) same, rw h spaces, refl)
            | inr h ↦ rw (e, cut_spaces, h) (after, ap (λ (s : Str). c ∷ s) same, spaces, rw h refl)
          ]
      | inr (d, rest, e) ↦
          rw (e, cut_spaces)
            (
              after,
              ap (λ (s : Str). c ∷ s) (whole ∙ ap (λ (s : Str). s ++ after) e),
              spaces,
              sym (ap ends_solid e) ∙ solid,
            )
    ]

starts-cut_spaces : (line : Str) → starts_solid line ≡ true → starts_solid (cut_spaces line) ≡ true
unfolding cut_spaces
starts-cut_spaces [] h = refl
starts-cut_spaces (c ∷ line) h = elim (Bool-cases (isspace c)) [
  | inl e ↦ cc (sym h, if-true {b = isspace c} false true e)
  | inr e ↦ elim (List-cases (cut_spaces line)) [
    | inl k ↦ rw (k, cut_spaces, e) (rw e refl)
    | inr (d, rest, k) ↦ rw (k, cut_spaces) (rw e refl)
  ]
]

-- Trimming takes the spaces off both ends, and nothing else.
pub strtrim-IsTrim : (line : Str) → IsTrim line (strtrim line)
unfolding strtrim
strtrim-IsTrim line =
    let (before, whole, spaces, solid) = skip_spaces-splits line in
    let (after, whole', spaces', solid') = cut_spaces-splits (skip_spaces line) in
    record {
      before = before;
      after = after;
      whole = whole ∙ ap (λ (s : Str). before ++ s) whole';
      before_spaces = spaces;
      after_spaces = spaces';
      starts = starts-cut_spaces (skip_spaces line) solid;
      ends = solid';
    }

cut_at-lacks : (sep : ℕ) (line : Str) → mem (cut_at sep line) sep ≡ false
unfolding cut_at
cut_at-lacks sep [] = refl
cut_at-lacks sep (c ∷ line) = ground (arith, cut_at-lacks sep line)

cut_at-mem : (sep x : ℕ) (line : Str) → mem line x ≡ false → mem (cut_at sep line) x ≡ false
unfolding cut_at
cut_at-mem sep x [] h = refl
cut_at-mem sep x (c ∷ line) h = ground (arith, cut_at-mem sep x line)

skip_spaces-mem : (x : ℕ) (line : Str) → mem line x ≡ false → mem (skip_spaces line) x ≡ false
unfolding skip_spaces
skip_spaces-mem x [] h = refl
skip_spaces-mem x (c ∷ line) h = ground (arith, skip_spaces-mem x line)

cut_spaces-mem : (x : ℕ) (line : Str) → mem line x ≡ false → mem (cut_spaces line) x ≡ false
unfolding cut_spaces
cut_spaces-mem x [] h = refl
cut_spaces-mem x (c ∷ line) h = ground (arith, cut_spaces-mem x line)

strtrim-mem : (x : ℕ) (line : Str) → mem line x ≡ false → mem (strtrim line) x ≡ false
unfolding strtrim
strtrim-mem x line h = cut_spaces-mem x (skip_spaces line) (skip_spaces-mem x line h)

-- A trimmed dependency has none of the three signs of a version.
pub strtrim_ver-lacks :
    (line : Str)
    → (mem (strtrim_ver line) 60 ≡ false)
      × (mem (strtrim_ver line) 62 ≡ false)
      × (mem (strtrim_ver line) 61 ≡ false)
unfolding strtrim_ver
strtrim_ver-lacks line =
    let one : Str = cut_at 60 line in
    let two : Str = cut_at 62 one in
    (
      strtrim-mem 60 (cut_at 61 two)
          (cut_at-mem 61 60 two (cut_at-mem 62 60 one (cut_at-lacks 60 line))),
      strtrim-mem 62 (cut_at 61 two) (cut_at-mem 61 62 two (cut_at-lacks 62 one)),
      strtrim-mem 61 (cut_at 61 two) (cut_at-lacks 61 two),
    )
