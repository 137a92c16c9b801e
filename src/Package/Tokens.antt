-- ===== src/Package/Tokens.antt =====
-- package.c: an array of quoted names on one line.
use powaur.Base.{◌≡◌, refl, sym, ap, ◌∙◌, Bool, true, false, ◌||◌, List, [], ◌∷◌, ◌++◌}
use powaur.Base.{ok, arith}
use powaur.Util.{starts_with, Str, strtrim, isspace}
use powaur.Package.{find_byte}
use powaur.Package.Arrays.{read_array, tokens_from, parse_tokens, parse_array_line}
use powaur.Package.Pkgbuild.{Pkgbuild, more, parse_pkgbuild_line, parse_pkgbuild, depends_word}
use mathlib.Core.List.{append-nil, append_assoc}
use powaur.Package.Words.{
  AllNames, print_names, strtrim-ends, tokens_from-word, tokens_from-words, quoted_token,
  last_token, quoted-solid,
}

only_paren :
    (list : List Str) (can_break : Bool)
    → parse_tokens ok list can_break (tokens_from [] (b')' ∷ [])) ≡ ok (list, true)
unfolding parse_tokens tokens_from strtrim
only_paren list can_break = refl

-- The tokens that print_names makes, with the list that they are write_byte behind.
tokens-print_names :
    (names list : List Str) (can_break : Bool)
    → AllNames names
    → parse_tokens ok list can_break (tokens_from [] (print_names names)) ≡ ok (list ++ names, true)
unfolding parse_tokens
tokens-print_names [] list can_break h =
    only_paren list can_break ∙ ap (λ (l : List Str). ok (l, true)) (sym (append-nil list))
tokens-print_names (name ∷ []) list can_break h =
    let at : isspace 39 ≡ false = unfold isspace in refl in
    let end : isspace b')' ≡ false = unfold isspace in refl in
    let word =
      tokens_from-word 39 (name ++ (39 ∷ b')' ∷ []))
        (quoted-solid name (39 ∷ b')' ∷ []) h.0 (ground (arith, at, end))) in
    rw word (ground (arith, last_token name h.0))
tokens-print_names (name ∷ other ∷ names) list can_break h =
    let at : isspace 39 ≡ false = unfold isspace in refl in
    let split = append_assoc name (39 ∷ []) (b' ' ∷ print_names (other ∷ names)) in
    let word : tokens_from [] (39 ∷ (name ++ (39 ∷ b' ' ∷ print_names (other ∷ names))))
        ≡ (39 ∷ (name ++ (39 ∷ []))) ∷ tokens_from [] (print_names (other ∷ names)) =
      rw (sym split) (
        tokens_from-words 39 (name ++ (39 ∷ [])) (print_names (other ∷ names))
          (quoted-solid name (39 ∷ []) h.0 (ground (arith, at)))) in
    let rest = tokens-print_names (other ∷ names) (list ++ (name ∷ [])) (can_break || false) h.1 in
    let regroup = append_assoc list (name ∷ []) (other ∷ names) in
    rw word (ground (arith, quoted_token name h.0, rest, regroup))

-- What is printed ends with its ')'.
print_names-form : (names : List Str) → (text : Str) × (print_names names ≡ text ++ (b')' ∷ []))
print_names-form [] = ([], refl)
print_names-form (name ∷ []) = (
  39 ∷ (name ++ (39 ∷ [])),
  ap (λ (s : Str). 39 ∷ s) (sym (append_assoc name (39 ∷ []) (b')' ∷ []))),
)
print_names-form (name ∷ other ∷ names) =
    let (text, form) = print_names-form (other ∷ names) in
    (
      39 ∷ (name ++ (39 ∷ b' ' ∷ text)),
      ap (λ (s : Str). 39 ∷ (name ++ (39 ∷ b' ' ∷ s))) form
          ∙ ap (λ (s : Str). 39 ∷ s) (sym (append_assoc name (39 ∷ b' ' ∷ text) (b')' ∷ []))),
    )

trim_first : (names : List Str) → strtrim (print_names names) ≡ print_names names
unfolding strtrim
trim_first [] = refl
trim_first (name ∷ []) =
    let split = append_assoc name (39 ∷ []) (b')' ∷ []) in
    let trim =
      strtrim-ends 39 (name ++ (39 ∷ [])) b')' (unfold isspace in refl) (unfold isspace in refl) in
    rw (sym split) trim
trim_first (name ∷ other ∷ names) =
    let (text, form) = print_names-form (other ∷ names) in
    let split = append_assoc name (39 ∷ b' ' ∷ text) (b')' ∷ []) in
    let trim =
      strtrim-ends 39 (name ++ (39 ∷ b' ' ∷ text)) b')' (unfold isspace in refl)
        (unfold isspace in refl) in
    rw form (rw (sym split) trim)

array_line-print_names :
    (names list : List Str)
    → AllNames names
    → parse_array_line ok list (print_names names) ≡ ok (list ++ names, true)
unfolding parse_array_line
array_line-print_names [] list h =
    rw (trim_first [], parse_array_line) (tokens-print_names [] list _ h)
array_line-print_names (name ∷ []) list h =
    rw (trim_first (name ∷ []), parse_array_line) (tokens-print_names (name ∷ []) list _ h)
array_line-print_names (name ∷ other ∷ names) list h =
    rw (trim_first (name ∷ other ∷ names), parse_array_line)
      (tokens-print_names (name ∷ other ∷ names) list _ h)

-- "depends=("
abbrev pub depends_line : List Str → Str
depends_line names = depends_word ++ (b'=' ∷ b'(' ∷ print_names names)

trim_line : (names : List Str) → strtrim (depends_line names) ≡ depends_line names
trim_line names =
    let (text, form) = print_names-form names in
    rw form (
      strtrim-ends b'd' (b'e' ∷ b'p' ∷ b'e' ∷ b'n' ∷ b'd' ∷ b's' ∷ b'=' ∷ b'(' ∷ text) b')'
        (unfold isspace in refl) (unfold isspace in refl))

depends_line-parsed :
    (pkg : Pkgbuild) (names : List Str)
    → AllNames names
    → parse_pkgbuild_line pkg
        (depends_line names)
        (record { lines = []; newline = true; eof = false })
      ≡ ok (
          more
            (record pkg { depends = pkg.depends ++ names })
            (record { lines = []; newline = true; eof = true }))
unfolding parse_pkgbuild_line read_array starts_with find_byte
depends_line-parsed pkg names h = rw (array_line-print_names names pkg.depends h) refl

-- Any names without blanks, quotes and ')', quoted and put into a depends array on one line of a
-- PKGBUILD, are what `parse_pkgbuild` adds to the package's dependencies, in order and no others.
pub parse_pkgbuild-depends_line :
    (pkg : Pkgbuild) (names : List Str)
    → AllNames names
    → parse_pkgbuild pkg (record { lines = depends_line names ∷ []; newline = true; eof = false })
      ≡ ok (record pkg { depends = pkg.depends ++ names })
unfolding parse_pkgbuild
parse_pkgbuild-depends_line pkg names h =
    ground (arith, trim_line names, depends_line-parsed pkg names h)
