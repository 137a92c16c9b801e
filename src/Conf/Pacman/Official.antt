-- ===== src/Conf/Pacman/Official.antt =====
-- conf.c: a setting of pacman's file that stands in a line without a comment sign is final.
use powaur.Base.{◌≡◌, refl, sym, ◌∙◌, Bool, true, false, List, [], ◌∷◌, Option, none, some}
use powaur.Base.{◌==◌, if-true, arith, inl, inr, Bool-cases, Option-cases, List-cases, ok, >>=-ok}
use powaur.Util.{Str, strtrim}
use powaur.Conf.Pacman.{
  Pmconf, Setting, Scan, is_set, parse_pmoption_keyval, parse_pmoption_repeat, parse_option,
  parse_pmoption, section_name, is_ignored, enter_section, parse_pmline, parse_pmlines,
  parse_pmconfig,
}

is_set-flag {ℓ} :
    {A : Type ℓ} (s : Setting A) (comment : Bool) → s.flag ≡ true → is_set s comment ≡ true
unfolding is_set
is_set-flag s comment h = ground (arith, h)

keyval-set :
    (s : Setting (Option Str)) (line : Str) (comment : Bool)
    → s.flag ≡ true
    → parse_pmoption_keyval s line comment ≡ ok s
unfolding parse_pmoption_keyval
keyval-set s line comment f = rw (is_set-flag s comment f) refl

repeat-set :
    (s : Setting (List Str)) (line : Str) (comment : Bool)
    → s.flag ≡ true
    → parse_pmoption_repeat s line comment ≡ ok s
unfolding parse_pmoption_repeat
repeat-set s line comment f = rw (is_set-flag s comment f) refl

-- What lines without a comment sign have set stays as it is.
pub record Keeps (env env' : Pmconf) : Type 0 where
  pub rootdir : env.rootdir.flag ≡ true → env'.rootdir ≡ env.rootdir
  pub dbpath : env.dbpath.flag ≡ true → env'.dbpath ≡ env.dbpath
  pub cachedirs : env.cachedirs.flag ≡ true → env'.cachedirs ≡ env.cachedirs

same-Keeps : (env : Pmconf) → Keeps env env
same-Keeps env = record { rootdir = λ h. refl; dbpath = λ h. refl; cachedirs = λ h. refl }

eq-Keeps : {env env' : Pmconf} → env ≡ env' → Keeps env env'
eq-Keeps {env} e = rw (sym e) (same-Keeps env)

Keeps-trans : {a b c : Pmconf} → Keeps a b → Keeps b c → Keeps a c
Keeps-trans p q = record {
  rootdir = λ h. ground (arith, p.rootdir h, q.rootdir);
  dbpath = λ h. ground (arith, p.dbpath h, q.dbpath);
  cachedirs = λ h. ground (arith, p.cachedirs h, q.cachedirs);
}

parse_option-Keeps :
    (env env' : Pmconf) (line : Str) (comment b : Bool)
    → parse_option env line comment ≡ ok (env', b)
    → Keeps env env'
unfolding parse_option
parse_option-Keeps env env' line comment b h = record {
  rootdir = λ f. ground (arith, h, f, keyval-set env.rootdir line comment f);
  dbpath = λ f. ground (arith, h, f, keyval-set env.dbpath line comment f);
  cachedirs = λ f. ground (arith, h, f, repeat-set env.cachedirs line comment f);
}

parse_pmoption-Keeps :
    (env env' : Pmconf) (line : Str) (b : Bool)
    → parse_pmoption env line ≡ ok (env', b)
    → Keeps env env'
unfolding parse_pmoption
parse_pmoption-Keeps env env' [] b h = parse_option-Keeps env env' [] false b h
parse_pmoption-Keeps env env' (c ∷ line) b h = elim (Bool-cases (c == b'#')) [
  | inl e ↦ elim (List-cases (strtrim line)) [
    | inl none_left ↦ eq-Keeps (ground (arith, h, e, none_left))
    | inr (d, text, k) ↦ parse_option-Keeps env env' (d ∷ text) true b (rw (e, k) at h)
  ]
  | inr e ↦ parse_option-Keeps env env' (c ∷ line) false b (rw e at h)
]

enter_section-Keeps : (s : Scan) (name : Str) → Keeps s.env (enter_section s name).0.env
unfolding enter_section
enter_section-Keeps s [] = record {
  rootdir = λ f. ground arith;
  dbpath = λ f. ground arith;
  cachedirs = λ f. ground arith;
}
enter_section-Keeps s (c ∷ text) = record {
  rootdir = λ f. ground arith;
  dbpath = λ f. ground arith;
  cachedirs = λ f. ground arith;
}

parse_pmline-Keeps :
    (s s' : Scan) (line : Str) (b : Bool) → parse_pmline s line ≡ ok (s', b) → Keeps s.env s'.env
unfolding parse_pmline
parse_pmline-Keeps s s' line b h = elim (Bool-cases (is_ignored s.in_options (strtrim line))) [
  | inl e ↦ eq-Keeps (ground (arith, h, e))
  | inr e ↦ elim (Option-cases (section_name (strtrim line))) [
    | inr (name, k) ↦
        let same : (enter_section s name).0 ≡ s' = ground (arith, h, e, k) in
        rw (sym same) (enter_section-Keeps s name)
    | inl k ↦ elim (Bool-cases s.in_options) [
      | inr out ↦ eq-Keeps (ground (arith, h, e, k, out))
      | inl within ↦
          let (r, run, done) =
            >>=-ok (parse_pmoption s.env (strtrim line))
              (λ (r : Pmconf × Bool). ok (record s { env = r.0 }, r.1)) (s', b)
              (sym (if-true _ (ok (s, false)) within) ∙ (rw (e, k) at h)) in
          let same : r.0 ≡ s'.env = ground (arith, done) in
          rw (sym same) (parse_pmoption-Keeps s.env r.0 (strtrim line) r.1 run)
    ]
  ]
]

parse_pmlines-Keeps :
    (lines : List Str) (s : Scan) (env' : Pmconf) (b : Bool)
    → parse_pmlines s lines ≡ ok (env', b)
    → Keeps s.env env'
unfolding parse_pmlines
parse_pmlines-Keeps [] s env' b h = eq-Keeps (ground (arith, h))
parse_pmlines-Keeps (line ∷ lines) s env' b h =
    let (r, run, more) =
      >>=-ok (parse_pmline s line)
        (λ (r : Scan × Bool). elim r.1 [
          | true ↦ ok (r.0.env, true)
          | false ↦ parse_pmlines r.0 lines
        ])
        (env', b) h in
    let one = parse_pmline-Keeps s r.0 line r.1 run in
    elim (Bool-cases r.1) [
      | inl stop ↦ let same : r.0.env ≡ env' = ground (arith, more, stop) in rw (sym same) one
      | inr go ↦ Keeps-trans one (parse_pmlines-Keeps lines r.0 env' b (rw go at more))
    ]

-- Whether the reading of pacman's file ends with an error or not, each of the root, the database
-- path and the list of cache directories that a line without a comment sign had set before stays as
-- it is.
pub parse_pmconfig-Keeps :
    (env env' : Pmconf) (file : Option (List Str)) (b : Bool)
    → parse_pmconfig env file ≡ ok (env', b)
    → Keeps env env'
unfolding parse_pmconfig
parse_pmconfig-Keeps env env' none b h = eq-Keeps (ground (arith, h))
parse_pmconfig-Keeps env env' (some lines) b h =
    parse_pmlines-Keeps lines (record { env = env; in_options = false; parsed_options = false })
      env' b h
