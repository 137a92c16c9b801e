-- ===== src/Package/Words.antt =====
-- package.c: the tokens of a line, and what is read of a quoted name.
use powaur.Base.{
  ℕ, ◌≡◌, refl, sym, ap, ◌∙◌, Bool, true, false, not, ◌&&◌, List, [], ◌∷◌, ◌++◌, none, some,
}
use powaur.Base.{if◌then◌else◌, ◌==◌, arith}
use powaur.Util.{Str, strtrim, isspace, cut_spaces}
use powaur.Package.Arrays.{element, is_quote, read_token, closing, drop_last_if, tokens_from}
use mathlib.Core.List.{append-nil, append_assoc}

-- A byte of a name: no blank, no quote and no ')'.
abbrev pub plain_byte : ℕ → Bool
plain_byte c = not (isspace c) && (not (is_quote c) && not (c == b')'))

abbrev pub plain_bytes : Str → Bool
plain_bytes [] = true
plain_bytes (c ∷ text) = plain_byte c && plain_bytes text

-- A name has a byte, and all its bytes are of this kind.
abbrev pub IsName : Str → Type 0
IsName [] = ⊥
IsName (c ∷ text) = plain_bytes (c ∷ text) ≡ true

abbrev pub AllNames : List Str → Type 0
AllNames [] = Unit {0}
AllNames (name ∷ names) = IsName name × AllNames names

-- "'a' 'b')"
abbrev pub print_names : List Str → Str
print_names [] = b')' ∷ []
print_names (name ∷ []) = 39 ∷ (name ++ (39 ∷ b')' ∷ []))
print_names (name ∷ other ∷ names) = 39 ∷ (name ++ (39 ∷ b' ' ∷ print_names (other ∷ names)))

abbrev solid : Str → Bool
solid [] = true
solid (c ∷ text) = not (isspace c) && solid text

tokens_from-byte :
    (word line : Str) (c : ℕ)
    → isspace c ≡ false
    → tokens_from word (c ∷ line) ≡ tokens_from (word ++ (c ∷ [])) line
unfolding tokens_from isspace
tokens_from-byte [] line c h = ground (arith, h)
tokens_from-byte (d ∷ word) line c h = ground (arith, h)

tokens_from-blank :
    (d : ℕ) (word line : Str)
    → tokens_from (d ∷ word) (b' ' ∷ line) ≡ (d ∷ word) ∷ tokens_from [] line
unfolding tokens_from
tokens_from-blank d word line = refl

tokens_from-solid :
    (text word rest : Str)
    → solid text ≡ true
    → tokens_from word (text ++ rest) ≡ tokens_from (word ++ text) rest
tokens_from-solid [] word rest h = ap (λ (w : Str). tokens_from w rest) (sym (append-nil word))
tokens_from-solid (c ∷ text) word rest h =
    tokens_from-byte word (text ++ rest) c (ground (arith, h))
    ∙ tokens_from-solid text (word ++ (c ∷ [])) rest (ground (arith, h))
    ∙ ap (λ (w : Str). tokens_from w rest) (append_assoc word (c ∷ []) text)

cut_spaces-last :
    (text : Str) (c : ℕ) → isspace c ≡ false → cut_spaces (text ++ (c ∷ [])) ≡ text ++ (c ∷ [])
unfolding cut_spaces
cut_spaces-last [] c h = ground (arith, h)
cut_spaces-last (x ∷ []) c h = ground (arith, h)
cut_spaces-last (x ∷ y ∷ text) c h = ground (arith, cut_spaces-last (y ∷ text) c h)

-- A text that begins and ends with no blank.
pub strtrim-ends :
    (x : ℕ) (text : Str) (c : ℕ)
    → isspace x ≡ false
    → isspace c ≡ false
    → strtrim (x ∷ (text ++ (c ∷ []))) ≡ x ∷ (text ++ (c ∷ []))
unfolding strtrim
strtrim-ends x text c h k = ground (arith, h, cut_spaces-last (x ∷ text) c k)

drop_last_if-last :
    (test : ℕ → Bool) (text : Str) (c : ℕ)
    → drop_last_if test (text ++ (c ∷ [])) ≡ (if test c then some text else none)
unfolding drop_last_if
drop_last_if-last test [] c = refl
drop_last_if-last test (x ∷ []) c = ground arith
drop_last_if-last test (x ∷ y ∷ text) c = ground (arith, drop_last_if-last test (y ∷ text) c)

no_paren : (text : Str) → plain_bytes text ≡ true → drop_last_if (λ d. d == b')') text ≡ none
unfolding drop_last_if
no_paren [] h = refl
no_paren (c ∷ []) h = ground (arith, h)
no_paren (c ∷ d ∷ text) h = ground (arith, h, no_paren (d ∷ text))

plain-solid : (text : Str) → plain_bytes text ≡ true → solid text ≡ true
plain-solid [] h = refl
plain-solid (c ∷ text) h = ground (arith, h, plain-solid text)

-- A quoted name, in the middle and at the end.
read_token-quoted :
    (name : Str) → IsName name → read_token (39 ∷ (name ++ (39 ∷ []))) ≡ element name false
unfolding read_token
read_token-quoted [] h = elim h [ ]
read_token-quoted (c ∷ text) h =
    ground (arith, h, drop_last_if-last is_quote (c ∷ text) 39, no_paren (c ∷ text) h)

closing-quoted :
    (c : ℕ) (text : Str) → plain_byte c ≡ true → closing (c ∷ (text ++ (39 ∷ []))) ≡ c ∷ text
unfolding closing
closing-quoted c text h =
    let same : strtrim (c ∷ (text ++ (39 ∷ []))) ≡ c ∷ (text ++ (39 ∷ [])) =
      strtrim-ends c text 39 (ground (arith, h)) (unfold isspace in refl) in
    ground (arith, h, same, drop_last_if-last is_quote (c ∷ text) 39)

read_token-last :
    (name : Str) → IsName name → read_token (39 ∷ (name ++ (39 ∷ b')' ∷ []))) ≡ element name true
unfolding read_token
read_token-last [] h = elim h [ ]
read_token-last (c ∷ text) h =
    let split = append_assoc (c ∷ text) (39 ∷ []) (b')' ∷ []) in
    rw (sym split) (
      ground (
        arith,
        h,
        drop_last_if-last is_quote (c ∷ (text ++ (39 ∷ []))) b')',
        drop_last_if-last (λ (d : ℕ). d == b')') (c ∷ (text ++ (39 ∷ []))) b')',
        closing-quoted c text (ground (arith, h)),
      ))

solid-append : (a b : Str) → solid (a ++ b) ≡ (solid a && solid b)
solid-append [] b = refl
solid-append (c ∷ a) b = ground (arith, solid-append a b)

name-solid : (name rest : Str) → IsName name → solid rest ≡ true → solid (name ++ rest) ≡ true
name-solid [] rest h k = elim h [ ]
name-solid (c ∷ text) rest h k =
    ground (arith, h, k, plain-solid (c ∷ text) h, solid-append (c ∷ text) rest)

pub tokens_from-word :
    (c : ℕ) (text : Str) → solid (c ∷ text) ≡ true → tokens_from [] (c ∷ text) ≡ (c ∷ text) ∷ []
tokens_from-word c text h =
    ap (tokens_from []) (sym (append-nil (c ∷ text)))
    ∙ tokens_from-solid (c ∷ text) [] [] h
    ∙ unfold tokens_from in refl

pub tokens_from-words :
    (c : ℕ) (text rest : Str)
    → solid (c ∷ text) ≡ true
    → tokens_from [] ((c ∷ text) ++ (b' ' ∷ rest)) ≡ (c ∷ text) ∷ tokens_from [] rest
tokens_from-words c text rest h =
    tokens_from-solid (c ∷ text) [] (b' ' ∷ rest) h ∙ tokens_from-blank c text rest

pub quoted_token :
    (name : Str)
    → IsName name
    → read_token (strtrim (39 ∷ (name ++ (39 ∷ [])))) ≡ element name false
quoted_token name h =
    ap read_token (strtrim-ends 39 name 39 (unfold isspace in refl) (unfold isspace in refl))
    ∙ read_token-quoted name h

pub last_token :
    (name : Str)
    → IsName name
    → read_token (strtrim (39 ∷ (name ++ (39 ∷ b')' ∷ [])))) ≡ element name true
last_token name h =
    let split = append_assoc name (39 ∷ []) (b')' ∷ []) in
    let trim =
      strtrim-ends 39 (name ++ (39 ∷ [])) b')' (unfold isspace in refl) (unfold isspace in refl) in
    let same : strtrim (39 ∷ (name ++ (39 ∷ b')' ∷ []))) ≡ 39 ∷ (name ++ (39 ∷ b')' ∷ [])) =
      rw (sym split) trim in
    ap read_token same ∙ read_token-last name h

pub quoted-solid :
    (name rest : Str) → IsName name → solid rest ≡ true → solid (39 ∷ (name ++ rest)) ≡ true
quoted-solid name rest h k =
    let at : isspace 39 ≡ false = unfold isspace in refl in
    ground (arith, at, name-solid name rest h k)
