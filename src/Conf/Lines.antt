-- ===== src/Conf/Lines.antt =====
-- conf.c: what the lines of powaur.conf may set.
use powaur.Base.{
  ℕ, ◌≤◌, ◌≡◌, ◌⊎◌, refl, ap, ◌∙◌, true, List, [], ◌∷◌, ◌++◌, Option, none, some, arith, Bool-cases,
  Option-cases, inl, inr,
}
use powaur.Util.{Str, split_at, strtrim}
use powaur.Conf.{
  Settings, pw_def_maxthreads, threads_of, atoi, set_color, set_noconfirm, set_threads, set_key,
  is_comment, parse_line, parse_powaur_config,
}

threads_of-le : (n : Option ℕ) → threads_of n ≤ pw_def_maxthreads
unfolding threads_of
threads_of-le none = omega arith
threads_of-le (some n) = ground arith

-- The number of threads is in its range, and an option of the command line stays.
pub record Sound (s s' : Settings) : Type 0 where
  pub threads : s.powaur_maxthreads ≤ pw_def_maxthreads → s'.powaur_maxthreads ≤ pw_def_maxthreads
  pub option : s'.opt_maxthreads ≡ s.opt_maxthreads
  pub kept : s.opt_maxthreads ≡ true → s'.powaur_maxthreads ≡ s.powaur_maxthreads

set_key-Sound : (s : Settings) (key val : Str) → Sound s (set_key s key val)
unfolding set_key set_threads set_color set_noconfirm
set_key-Sound s key val = record {
  threads = λ h. ground (arith, threads_of-le (atoi val));
  option = ground arith;
  kept = λ h. ground arith;
}

same-Sound : (s : Settings) → Sound s s
same-Sound s = record { threads = λ h. h; option = refl; kept = λ h. refl }

parse_line-Sound : (s : Settings) (line : Str) → Sound s (parse_line s line)
unfolding parse_line
parse_line-Sound s line = elim (Bool-cases (is_comment (strtrim line))) [
  | inl h ↦ rw h (same-Sound s)
  | inr h ↦ elim (Option-cases (split_at b'=' (strtrim line))) [
    | inl e ↦ rw (h, e) (same-Sound s)
    | inr (pair, e) ↦ rw (h, e) (set_key-Sound s (strtrim pair.0) (strtrim pair.1))
  ]
]

-- However a file reads, the number of threads stays in the range of 0 to 10, and a number that the
-- command line gave stays as it is.
pub parse_powaur_config-Sound :
    (lines : List Str) (s : Settings) → Sound s (parse_powaur_config s lines)
unfolding parse_powaur_config
parse_powaur_config-Sound [] s = same-Sound s
parse_powaur_config-Sound (line ∷ lines) s =
    let one = parse_line-Sound s line in
    let rest = parse_powaur_config-Sound lines (parse_line s line) in
    record {
      threads = λ h. rest.threads (one.threads h);
      option = rest.option ∙ one.option;
      kept = λ h. rest.kept (one.option ∙ h) ∙ one.kept h;
    }

parse_line-ignored :
    (line : Str) (s : Settings)
    → (is_comment (strtrim line) ≡ true) ⊎ (split_at b'=' (strtrim line) ≡ none)
    → parse_line s line ≡ s
unfolding parse_line
parse_line-ignored line s (inl h) = rw h
parse_line-ignored line s (inr e) = elim (Bool-cases (is_comment (strtrim line))) [
  | inl h ↦ rw h
  | inr h ↦ rw (h, e)
]

-- A line that is blank, a comment or without '=' says nothing, wherever it stands.
pub parse_powaur_config-ignored :
    (before after : List Str) (line : Str) (s : Settings)
    → (is_comment (strtrim line) ≡ true) ⊎ (split_at b'=' (strtrim line) ≡ none)
    → parse_powaur_config s (before ++ (line ∷ after)) ≡ parse_powaur_config s (before ++ after)
unfolding parse_powaur_config
parse_powaur_config-ignored [] after line s h =
    ap (λ (r : Settings). parse_powaur_config r after) (parse_line-ignored line s h)
parse_powaur_config-ignored (first ∷ before) after line s h =
    parse_powaur_config-ignored before after line (parse_line s first) h
