-- ===== src/Package/Arrays.antt =====
-- package.c: `parse_bash_array` with its preamble. A file is the lines that are left in it; the code's
-- test `feof` is part of its state.
use powaur.Base.{ℕ, suc, Bool, true, false, not, ◌||◌, List, [], ◌∷◌, ◌++◌, Option, none, some}
use powaur.Base.{◌==◌, if◌then◌else◌, Run, ok, ◌>>=◌}
use powaur.Util.{Str, strtrim}
use powaur.Package.{drop, find_byte}

-- `newline` tells whether the last line ends with one: if not, reading it sets `eof` at once.
pub record File : Type 0 where
  pub lines : List Str
  pub newline : Bool
  pub eof : Bool

-- `feof` behind a line, when `rest` is left.
abbrev pub eof_behind : Bool → List Str → Bool
eof_behind newline [] = not newline
eof_behind newline (line ∷ rest) = false

-- PARSE_BASH_ARRAY_PREAMBLE: the text behind the first '(', and `none` for NULL.
unfoldable pub preamble : Bool → Bool → Str → List Str → Option Str × File
unfolding find_byte
preamble newline eof line [] = elim (find_byte b'(' line) [
  | some n ↦ (some (drop (suc n) line), record { lines = []; newline = newline; eof = eof })
  | none ↦ (none, record { lines = []; newline = newline; eof = true })
]
preamble newline eof line (l ∷ rest) = elim (find_byte b'(' line) [
  | some n ↦ (some (drop (suc n) line), record { lines = l ∷ rest; newline = newline; eof = eof })
  | none ↦ elim (eof_behind newline rest) [
    | true ↦ (some l, record { lines = rest; newline = newline; eof = true })
    | false ↦ preamble newline false (strtrim l) rest
  ]
]

-- `strtok_r` with a blank: the words of a line, with the word read so far.
unfoldable pub tokens_from : Str → Str → List Str
tokens_from [] [] = []
tokens_from (d ∷ word) [] = (d ∷ word) ∷ []
tokens_from word (c ∷ line) = elim (c == b' ') [
  | true ↦ elim word [ [] ↦ tokens_from [] line | d ∷ w ↦ (d ∷ w) ∷ tokens_from [] line ]
  | false ↦ tokens_from (word ++ (c ∷ [])) line
]

abbrev pub is_quote : ℕ → Bool
is_quote c = c == 39 || c == 34

-- A string without its last byte, where that byte satisfies the test.
unfoldable pub drop_last_if : (ℕ → Bool) → Str → Option Str
drop_last_if test [] = none
drop_last_if test (c ∷ []) = if test c then some [] else none
drop_last_if test (c ∷ d ∷ text) = elim (drop_last_if test (d ∷ text)) [
  | none ↦ none
  | some rest ↦ some (c ∷ rest)
]

abbrev pub or_whole : Option Str → Str → Str
or_whole none text = text
or_whole (some rest) text = rest

-- What the loop does with a token.
pub data Token : Type 0 where
  skip close : Token
  element : Str → Bool → Token

-- The text before a ')' at the end is trimmed. The test for a quote still counts from the length of
-- before, so that it meets the quote only where no blank was cut at the front.
unfoldable pub closing : Str → Str
unfolding drop_last_if
closing text = elim (strtrim text) [
  | [] ↦ []
  | d ∷ trimmed ↦ elim text [
    | [] ↦ []
    | c ∷ rest ↦
        if c == d then or_whole (drop_last_if is_quote (c ∷ rest)) (d ∷ trimmed) else d ∷ trimmed
  ]
]

-- The token behind its first quote, if any.
unfoldable pub read_body : Str → Token
unfolding drop_last_if closing
read_body body = elim (or_whole (drop_last_if is_quote body) body) [
  | [] ↦ skip
  | c ∷ text ↦ elim (c == b')') [
    | true ↦ close
    | false ↦ elim (drop_last_if (λ d. d == b')') (c ∷ text)) [
      | none ↦ element (c ∷ text) false
      | some before ↦ element (closing before) true
    ]
  ]
]

-- For a token that is one quote the length becomes -1, which is not the 0 that is left out.
unfoldable pub read_token : Str → Token
unfolding read_body
read_token [] = skip
read_token (c ∷ text) =
    if is_quote c
    then (elim text [ [] ↦ element [] false | d ∷ rest ↦ read_body (d ∷ rest) ])
    else read_body (c ∷ text)

-- `convert` is what happens to a token before it is put into the list.
module _ (convert : Str → Run Str) where
  -- The list, and whether a ')' was met; only a token that begins with it ends the line's loop.
  unfoldable pub parse_tokens : List Str → Bool → List Str → Run (List Str × Bool)
  unfolding read_token
  parse_tokens list can_break [] = ok (list, can_break)
  parse_tokens list can_break (token ∷ tokens) = elim (read_token (strtrim token)) [
    | skip ↦ parse_tokens list can_break tokens
    | close ↦ ok (list, true)
    | element text last ↦
        convert text >>= λ added. parse_tokens (list ++ (added ∷ [])) (can_break || last) tokens
  ]

  unfoldable pub parse_array_line : List Str → Str → Run (List Str × Bool)
  unfolding parse_tokens tokens_from drop_last_if
  parse_array_line list line = elim (strtrim line) [
    | [] ↦ ok (list, false)
    | c ∷ text ↦
        parse_tokens list
          (elim (drop_last_if (λ d. d == b')') (c ∷ text)) [ none ↦ false | some before ↦ true ])
          (tokens_from [] (c ∷ text))
  ]

  -- The loop reads the next line before it tests `can_break`, so the line behind the array is gone.
  unfoldable pub parse_bash_array :
      List Str → Bool → Bool → Option Str → List Str → Run (List Str × File)
  unfolding parse_array_line
  parse_bash_array list newline true line lines =
      ok (list, record { lines = lines; newline = newline; eof = true })
  parse_bash_array list newline false none lines = Run.fault
  parse_bash_array list newline false (some line) [] = parse_array_line list line >>= λ r.
      ok (r.0, record { lines = []; newline = newline; eof = true })
  parse_bash_array list newline false (some line) (l ∷ rest) = parse_array_line list line >>= λ r.
      elim r.1 [
        | true ↦ ok (r.0, record { lines = rest; newline = newline; eof = eof_behind newline rest })
        | false ↦ parse_bash_array r.0 newline (eof_behind newline rest) (some l) rest
      ]

-- The preamble and the array, from the line that names it.
unfoldable pub read_array : (Str → Run Str) → List Str → Str → File → Run (List Str × File)
unfolding preamble parse_bash_array
read_array convert list line file =
    let (start, behind) = preamble file.newline file.eof line file.lines in
    parse_bash_array convert list behind.newline behind.eof start behind.lines
