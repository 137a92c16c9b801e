-- ===== src/Conf/Pacman/Ends.antt =====
-- conf.c: the reading of pacman's file comes to an end.
use powaur.Base.{
  ℕ, zero, suc, ◌≤◌, ◌<◌, ◌≡◌, ◌≢◌, ap, Bool, true, false, List, [], ◌∷◌, Option, none, some,
}
use powaur.Base.{
  if◌then◌else◌, length, ◌==◌, arith, inl, inr, Bool-cases, Option-cases, List-cases, Run, ok, spin,
  Ends, ok-Ends, >>=-Ends,
}
use powaur.Util.{Str, strtrim, skip_spaces, cut_spaces, split_at, starts_with}
use powaur.Conf.Pacman.{
  Pmconf, Setting, Scan, root_dir, db_path, cache_dir, is_set, words, parse_pmoption_keyval,
  parse_pmoption_repeat, parse_option, parse_pmoption, section_name, is_ignored, enter_section,
  parse_pmline, parse_pmlines, parse_pmconfig, setup_pacman_environment,
}

skip_spaces-le : (line : Str) → length (skip_spaces line) ≤ length line
unfolding skip_spaces
skip_spaces-le [] = omega arith
skip_spaces-le (c ∷ line) = ground (arith, skip_spaces-le line)

cut_spaces-le : (line : Str) → length (cut_spaces line) ≤ length line
unfolding cut_spaces
cut_spaces-le [] = omega arith
cut_spaces-le (c ∷ line) = ground (arith, cut_spaces-le line)

strtrim-le : (line : Str) → length (strtrim line) ≤ length line
unfolding strtrim
strtrim-le line = omega (arith, skip_spaces-le line, cut_spaces-le (skip_spaces line))

split_at-lt :
    (sep : ℕ) (line word rest : Str)
    → split_at sep line ≡ some (word, rest)
    → length rest < length line
unfolding split_at
split_at-lt sep [] word rest h = cc
split_at-lt sep (c ∷ line) word rest h = elim (Bool-cases (c == sep)) [
  | inl e ↦ ground (arith, h, e)
  | inr e ↦ elim (Option-cases (split_at sep line)) [
    | inl k ↦ ground (arith, h, e, k)
    | inr (r, k) ↦
        let same : r.1 ≡ rest = ground (arith, h, e, k) in
        omega (arith, split_at-lt sep line r.0 r.1 k, ap (λ (s : Str). length s) same)
  ]
]

words-Ends : (rounds : ℕ) (line : Str) → length line < rounds → Ends (words rounds line)
unfolding words
words-Ends zero line h = absurd (omega arith)
words-Ends (suc rounds) line h = elim (Option-cases (split_at b' ' line)) [
  | inl e ↦ rw (e, words) (ok-Ends (line ∷ []))
  | inr (r, e) ↦
      let shorter = split_at-lt b' ' line r.0 r.1 e in
      let rest = words-Ends rounds (strtrim r.1) (omega (arith, shorter, strtrim-le r.1)) in
      rw (e, words)
        (>>=-Ends (words rounds (strtrim r.1)) (λ (more : List Str). ok (r.0 ∷ more)) rest
          (λ more. ok-Ends (r.0 ∷ more)))
]

if-Ends {ℓ} : {A : Type ℓ} (b : Bool) (x y : Run A) → Ends x → Ends y → Ends (if b then x else y)
if-Ends true x y h k = h
if-Ends false x y h k = k

keyval-Ends :
    (s : Setting (Option Str)) (line : Str) (comment : Bool)
    → Ends (parse_pmoption_keyval s line comment)
unfolding parse_pmoption_keyval
keyval-Ends s line comment h = elim (Option-cases (split_at b'=' line)) [
  | inl e ↦ ground (arith, h, e)
  | inr (r, e) ↦ elim (List-cases (strtrim r.1)) [
    | inl k ↦ ground (arith, h, e, k)
    | inr (c, text, k) ↦ ground (arith, h, e, k)
  ]
]

repeat-Ends :
    (s : Setting (List Str)) (line : Str) (comment : Bool)
    → Ends (parse_pmoption_repeat s line comment)
unfolding parse_pmoption_repeat
repeat-Ends s line comment =
    if-Ends (is_set s comment) (ok s) _ (ok-Ends s) (elim (Option-cases (split_at b'=' line)) [
      | inl e ↦ rw e (ok-Ends s)
      | inr (r, e) ↦ elim (List-cases (strtrim r.1)) [
        | inl k ↦ rw (e, k) (ok-Ends (record s { value = [] }))
        | inr (c, text, k) ↦
            rw (e, k)
              (>>=-Ends (words (suc (length (c ∷ text))) (c ∷ text)) _
                (words-Ends (suc (length (c ∷ text))) (c ∷ text) (omega arith)) (λ dirs. ok-Ends _))
      ]
    ])

parse_option-Ends :
    (env : Pmconf) (line : Str) (comment : Bool) → Ends (parse_option env line comment)
unfolding parse_option
parse_option-Ends env line comment =
    if-Ends (starts_with line root_dir) _ _
      (if-Ends _ _ _ (ok-Ends _)
        (>>=-Ends _ _ (keyval-Ends env.rootdir line comment) (λ s. ok-Ends _)))
      (if-Ends (starts_with line db_path) _ _
        (if-Ends _ _ _ (ok-Ends _)
          (>>=-Ends _ _ (keyval-Ends env.dbpath line comment) (λ s. ok-Ends _)))
        (if-Ends (starts_with line cache_dir) _ _
          (if-Ends _ _ _ (ok-Ends _)
            (>>=-Ends _ _ (repeat-Ends env.cachedirs line comment) (λ s. ok-Ends _)))
          (ok-Ends _)))

parse_pmoption-Ends : (env : Pmconf) (line : Str) → Ends (parse_pmoption env line)
unfolding parse_pmoption
parse_pmoption-Ends env [] = parse_option-Ends env [] false
parse_pmoption-Ends env (c ∷ line) =
    if-Ends (c == b'#') _ _
      (elim (List-cases (strtrim line)) [
        | inl e ↦ rw e (ok-Ends (env, false))
        | inr (d, text, e) ↦ rw e (parse_option-Ends env (d ∷ text) true)
      ])
      (parse_option-Ends env (c ∷ line) false)

parse_pmline-Ends : (s : Scan) (line : Str) → Ends (parse_pmline s line)
unfolding parse_pmline
parse_pmline-Ends s line =
    if-Ends (is_ignored s.in_options (strtrim line)) _ _ (ok-Ends _)
      (elim (Option-cases (section_name (strtrim line))) [
        | inr (name, e) ↦ rw e (ok-Ends (enter_section s name))
        | inl e ↦ rw e (
            if-Ends s.in_options _ _
              (>>=-Ends _ _ (parse_pmoption-Ends s.env (strtrim line)) (λ r. ok-Ends _))
              (ok-Ends _))
      ])

parse_pmlines-Ends : (lines : List Str) (s : Scan) → Ends (parse_pmlines s lines)
unfolding parse_pmlines
parse_pmlines-Ends [] s = ok-Ends _
parse_pmlines-Ends (line ∷ lines) s =
    >>=-Ends (parse_pmline s line) _ (parse_pmline-Ends s line) λ r. elim (Bool-cases r.1) [
      | inl stop ↦ rw stop (ok-Ends _)
      | inr go ↦ rw go (parse_pmlines-Ends lines r.0)
    ]

parse_pmconfig-Ends : (env : Pmconf) (file : Option (List Str)) → Ends (parse_pmconfig env file)
unfolding parse_pmconfig
parse_pmconfig-Ends env none = ok-Ends _
parse_pmconfig-Ends env (some lines) = parse_pmlines-Ends lines _

-- Whatever pacman's file holds and whatever libalpm answers, the setting up of pacman's environment
-- comes to an end, at the start and on a reload: the loop that cuts the cache directories out of a
-- line does not run out of the rounds that the line's length gives.
pub setup_pacman_environment-Ends :
    (alpm_initialize : Pmconf → Bool) (alpm_db_register_sync : Str → Bool) (env : Pmconf)
    (file : Option (List Str)) (reload : Bool)
    → setup_pacman_environment alpm_initialize alpm_db_register_sync env file reload ≢ spin
unfolding setup_pacman_environment
setup_pacman_environment-Ends alpm_initialize alpm_db_register_sync env file reload =
    >>=-Ends _ _ (parse_pmconfig-Ends _ file)
      λ r. elim (Bool-cases r.1) [ inl stop ↦ rw stop (ok-Ends _) | inr go ↦ rw go (ok-Ends _) ]
