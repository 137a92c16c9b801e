-- ===== src/Package/Behind.antt =====
-- package.c: the line behind an array that ends on the line that it begins on.
use powaur.Base.{
  ℕ, suc, ◌≡◌, ◌⊎◌, refl, sym, ap, ◌∙◌, Bool, true, false, ◌||◌, List, [], ◌∷◌, ◌++◌, some,
}
use powaur.Base.{◌==◌, Run, ok, >>=-ok, bind_congr_ok, arith, inl, inr, List-cases}
use powaur.Util.{Str, strtrim, starts_with}
use powaur.Package.{drop, find_byte}
use powaur.Package.Arrays.{
  Token, skip, close, element, read_token, preamble, drop_last_if, tokens_from, parse_tokens,
  parse_array_line, read_array,
}
use powaur.Package.Pkgbuild.{
  Pkgbuild, depends_word, provides_word, conflicts_word, replaces_word, arch_word,
  parse_pkgbuild_line, pkgbuild_loop, parse_pkgbuild,
}

abbrev pub is_close : ℕ → Bool
is_close c = c == b')'

Token-cases :
    (t : Token)
    → (t ≡ skip) ⊎ ((t ≡ close) ⊎ ((text : Str) × (last : Bool) × (t ≡ element text last)))
Token-cases skip = inl refl
Token-cases close = inr (inl refl)
Token-cases (element text last) = inr (inr (text, last, refl))

module _ (convert : Str → Run Str) where
  parse_tokens-closed :
      (tokens list : List Str) (r : List Str × Bool)
      → parse_tokens convert list true tokens ≡ ok r
      → r.1 ≡ true
  unfolding parse_tokens
  parse_tokens-closed [] list r h = ground (arith, h)
  parse_tokens-closed (token ∷ tokens) list r h = elim (Token-cases (read_token (strtrim token))) [
    | inl e ↦ parse_tokens-closed tokens list r (rw (e, parse_tokens) at h)
    | inr (inl e) ↦ ground (arith, h, e)
    | inr (inr (text, last, e)) ↦
        let (added, run, rest) =
          >>=-ok (convert text)
            (λ (added : Str). parse_tokens convert (list ++ (added ∷ [])) true tokens) r
            (rw (e, parse_tokens) at h) in
        parse_tokens-closed tokens (list ++ (added ∷ [])) r rest
  ]

  array_line-closed :
      (list : List Str) (line before : Str) (r : List Str × Bool)
      → drop_last_if is_close (strtrim line) ≡ some before
      → parse_array_line convert list line ≡ ok r
      → r.1 ≡ true
  unfolding parse_array_line
  array_line-closed list line before r e h = elim (List-cases (strtrim line)) [
    | inl k ↦ unfold drop_last_if in ground (arith, e, k)
    | inr (c, text, k) ↦
        let ends : drop_last_if is_close (c ∷ text) ≡ some before =
          ap (drop_last_if is_close) (sym k) ∙ e in
        parse_tokens-closed (tokens_from [] (c ∷ text)) list r (rw (k, parse_array_line, ends) at h)
  ]

  read_array-behind :
      (list rest : List Str) (line l l' before : Str) (n : ℕ) (newline : Bool)
      → find_byte b'(' line ≡ some n
      → drop_last_if is_close (strtrim (drop (suc n) line)) ≡ some before
      → read_array convert list line (record { lines = l ∷ rest; newline = newline; eof = false })
        ≡ read_array convert list line
            (record { lines = l' ∷ rest; newline = newline; eof = false })
  unfolding read_array
  read_array-behind list rest line l l' before n newline e h =
      rw (e, preamble)
        (bind_congr_ok (parse_array_line convert list (drop (suc n) line)) _ _ λ r k.
          let closed = array_line-closed list (drop (suc n) line) before r h k in rw closed refl)

abbrev pub names_array : Str → Bool
names_array line =
    starts_with line depends_word
    || (starts_with line provides_word
        || (starts_with line conflicts_word
            || (starts_with line replaces_word || starts_with line arch_word)))

pkgbuild_line-behind :
    (pkg : Pkgbuild) (rest : List Str) (line l l' before : Str) (n : ℕ) (newline : Bool)
    → names_array line ≡ true
    → find_byte b'(' line ≡ some n
    → drop_last_if is_close (strtrim (drop (suc n) line)) ≡ some before
    → parse_pkgbuild_line pkg line (record { lines = l ∷ rest; newline = newline; eof = false })
      ≡ parse_pkgbuild_line pkg line (record { lines = l' ∷ rest; newline = newline; eof = false })
unfolding parse_pkgbuild_line
pkgbuild_line-behind pkg rest line l l' before n newline w e h =
    let same = λ (list : List Str). read_array-behind ok list rest line l l' before n newline e h in
    ground (
      arith,
      w,
      same pkg.depends,
      same pkg.provides,
      same pkg.conflicts,
      same pkg.replaces,
      same pkg.arch,
    )

-- In a PKGBUILD the line behind an array that ends on the line where it begins is never looked at:
-- whatever stands there, another array's beginning included, the result is the same.
pub parse_pkgbuild-behind :
    (pkg : Pkgbuild) (rest : List Str) (line l l' before : Str) (n : ℕ) (newline : Bool)
    → names_array (strtrim line) ≡ true
    → find_byte b'(' (strtrim line) ≡ some n
    → drop_last_if is_close (strtrim (drop (suc n) (strtrim line))) ≡ some before
    → parse_pkgbuild pkg (record { lines = line ∷ l ∷ rest; newline = newline; eof = false })
      ≡ parse_pkgbuild pkg (record { lines = line ∷ l' ∷ rest; newline = newline; eof = false })
unfolding parse_pkgbuild
parse_pkgbuild-behind pkg rest line l l' before n newline w e h = elim (List-cases (strtrim line)) [
  | inl k ↦ unfold find_byte in ground (arith, e, k)
  | inr (c, text, k) ↦
      let same =
        pkgbuild_line-behind pkg rest (c ∷ text) l l' before n newline (rw k at w) (rw k at e)
          (rw k at h) in
      rw (k, pkgbuild_loop, same) refl
]
