-- ===== src/Conf/Pacman/Sections.antt =====
-- conf.c: the sections of pacman's file are its repositories, and [options] at most once.
use powaur.Base.{
  ℕ, ◌+◌, ◌≤◌, ◌≡◌, refl, sym, ap, ◌∙◌, Bool, true, false, List, [], ◌∷◌, ◌++◌, Option, none, some,
}
use powaur.Base.{
  if◌then◌else◌, if-true, arith, inl, inr, Bool-cases, Option-cases, List-cases, ◌==◌, ok, >>=-ok,
}
use powaur.Util.{Str, strtrim, same_str}
use powaur.Conf.Pacman.{
  Pmconf, Scan, opt, parse_option, parse_pmoption, section_name, is_ignored, enter_section,
  parse_pmline, parse_pmlines, parse_pmconfig,
}
use mathlib.Core.List.{append-nil, append_assoc}

-- The repository that a section names.
abbrev pub repository : Option Str → List Str
repository none = []
repository (some name) = if same_str name opt then [] else name ∷ []

abbrev pub is_options : Option Str → ℕ
is_options none = 0
is_options (some name) = if same_str name opt then 1 else 0

-- The repositories that the lines name, in order, and how many sections are the options.
abbrev pub repositories : List Str → List Str
repositories [] = []
repositories (line ∷ lines) = repository (section_name (strtrim line)) ++ repositories lines

abbrev pub option_sections : List Str → ℕ
option_sections [] = 0
option_sections (line ∷ lines) = is_options (section_name (strtrim line)) + option_sections lines

abbrev seen : Bool → ℕ
seen parsed = if parsed then 1 else 0

-- What a line that is no error does to the repositories and the count of sections.
record Reads (s : Scan) (name : Option Str) (s' : Scan) : Type 0 where
  repos : s'.env.syncdbs ≡ s.env.syncdbs ++ repository name
  counted : seen s'.parsed_options ≡ seen s.parsed_options + is_options name

still : (s : Scan) → Reads s none s
still s = record { repos = sym (append-nil s.env.syncdbs); counted = omega arith }

enter_section-Reads :
    (s s' : Scan) (name : Str) → enter_section s name ≡ (s', false) → Reads s (some name) s'
unfolding enter_section
enter_section-Reads s s' [] h = record {
  repos = ground (arith, h, append-nil s.env.syncdbs);
  counted = ground (arith, h);
}
enter_section-Reads s s' (c ∷ text) h = record {
  repos = ground (arith, h, append-nil s.env.syncdbs);
  counted = ground (arith, h);
}

parse_option-syncdbs :
    (env env' : Pmconf) (line : Str) (comment b : Bool)
    → parse_option env line comment ≡ ok (env', b)
    → env'.syncdbs ≡ env.syncdbs
unfolding parse_option
parse_option-syncdbs env env' line comment b h = ground arith

parse_pmoption-syncdbs :
    (env env' : Pmconf) (line : Str) (b : Bool)
    → parse_pmoption env line ≡ ok (env', b)
    → env'.syncdbs ≡ env.syncdbs
unfolding parse_pmoption
parse_pmoption-syncdbs env env' [] b h = parse_option-syncdbs env env' [] false b h
parse_pmoption-syncdbs env env' (c ∷ line) b h = elim (Bool-cases (c == b'#')) [
  | inl e ↦ elim (List-cases (strtrim line)) [
    | inl none_left ↦ ground (arith, h, e, none_left)
    | inr (d, text, k) ↦ parse_option-syncdbs env env' (d ∷ text) true b (rw (e, k) at h)
  ]
  | inr e ↦ parse_option-syncdbs env env' (c ∷ line) false b (rw e at h)
]

ignored-section :
    (in_options : Bool) (line : Str) → is_ignored in_options line ≡ true → section_name line ≡ none
unfolding is_ignored section_name
ignored-section in_options [] h = refl
ignored-section in_options (c ∷ line) h = ground arith

parse_pmline-Reads :
    (s s' : Scan) (line : Str)
    → parse_pmline s line ≡ ok (s', false)
    → Reads s (section_name (strtrim line)) s'
unfolding parse_pmline
parse_pmline-Reads s s' line h = elim (Bool-cases (is_ignored s.in_options (strtrim line))) [
  | inl e ↦
      let same : s ≡ s' = ground (arith, h, e) in
      let nothing = ignored-section s.in_options (strtrim line) e in
      rw (nothing, sym same) (still s)
  | inr e ↦ elim (Option-cases (section_name (strtrim line))) [
    | inr (name, k) ↦ rw k (enter_section-Reads s s' name (ground (arith, h, e, k)))
    | inl k ↦ elim (Bool-cases s.in_options) [
      | inr out ↦ let same : s ≡ s' = ground (arith, h, e, k, out) in rw (k, sym same) (still s)
      | inl within ↦
          let (r, run, done) =
            >>=-ok (parse_pmoption s.env (strtrim line))
              (λ (r : Pmconf × Bool). ok (record s { env = r.0 }, r.1)) (s', false)
              (sym (if-true _ (ok (s, false)) within) ∙ (rw (e, k) at h)) in
          let same : record s { env = r.0 } ≡ s' = ground (arith, done) in
          let kept = parse_pmoption-syncdbs s.env r.0 (strtrim line) r.1 run in
          rw (k, sym same)
            (record { repos = kept ∙ sym (append-nil s.env.syncdbs); counted = omega arith })
    ]
  ]
]

parse_pmlines-sections :
    (lines : List Str) (s : Scan) (env' : Pmconf)
    → parse_pmlines s lines ≡ ok (env', false)
    → (env'.syncdbs ≡ s.env.syncdbs ++ repositories lines)
      × (seen s.parsed_options + option_sections lines ≤ 1)
unfolding parse_pmlines
parse_pmlines-sections [] s env' h =
    let same : s.env ≡ env' = ground (arith, h) in
    (rw (sym same) (sym (append-nil s.env.syncdbs)), ground arith)
parse_pmlines-sections (line ∷ lines) s env' h =
    let (r, run, more) =
      >>=-ok (parse_pmline s line)
        (λ (r : Scan × Bool). elim r.1 [
          | true ↦ ok (r.0.env, true)
          | false ↦ parse_pmlines r.0 lines
        ])
        (env', false) h in
    elim (Bool-cases r.1) [
      | inl stop ↦ ground (arith, more, stop)
      | inr go ↦
          let one = parse_pmline-Reads s r.0 line (run ∙ ap (λ (b : Bool). ok (r.0, b)) go) in
          let (repos, count) = parse_pmlines-sections lines r.0 env' (rw go at more) in
          (
            repos
                ∙ ap (λ (l : List Str). l ++ repositories lines) one.repos
                ∙ append_assoc s.env.syncdbs (repository (section_name (strtrim line)))
                    (repositories lines),
            omega (arith, one.counted),
          )
    ]

-- Where the file of pacman is read without an error, the repositories are those of before and the
-- names of the file's sections, in order, and no more than one section is the options.
pub parse_pmconfig-sections :
    (env env' : Pmconf) (lines : List Str)
    → parse_pmconfig env (some lines) ≡ ok (env', false)
    → (env'.syncdbs ≡ env.syncdbs ++ repositories lines) × (option_sections lines ≤ 1)
unfolding parse_pmconfig
parse_pmconfig-sections env env' lines h =
    let (repos, count) =
      parse_pmlines-sections lines
        (record { env = env; in_options = false; parsed_options = false }) env' h in
    (repos, omega (arith, count))
