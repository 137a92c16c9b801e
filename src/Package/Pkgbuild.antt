-- ===== src/Package/Pkgbuild.antt =====
-- package.c: `parse_pkgbuild` and `grab_dependencies`.
use powaur.Base.{
  ℕ, zero, suc, ◌+◌, ◌-◌, ◌*◌, Bool, true, false, List, [], ◌∷◌, ◌++◌, Option, none, some,
}
use powaur.Base.{length, ◌==◌, if◌then◌else◌, take, replicate, Run, ok, spin, ◌>>=◌}
use powaur.Util.{Str, strtrim, strtrim_ver, same_str, starts_with, split_at}
use powaur.Package.{substitute_vars}
use powaur.Package.Arrays.{File, eof_behind, read_array}

pub record Pkgbuild : Type 0 where
  pub depends : List Str
  pub provides : List Str
  pub conflicts : List Str
  pub replaces : List Str
  pub arch : List Str

abbrev pub depends_word : Str
depends_word = b'd' ∷ b'e' ∷ b'p' ∷ b'e' ∷ b'n' ∷ b'd' ∷ b's' ∷ []

abbrev pub provides_word : Str
provides_word = b'p' ∷ b'r' ∷ b'o' ∷ b'v' ∷ b'i' ∷ b'd' ∷ b'e' ∷ b's' ∷ []

abbrev pub conflicts_word : Str
conflicts_word = b'c' ∷ b'o' ∷ b'n' ∷ b'f' ∷ b'l' ∷ b'i' ∷ b'c' ∷ b't' ∷ b's' ∷ []

abbrev pub replaces_word : Str
replaces_word = b'r' ∷ b'e' ∷ b'p' ∷ b'l' ∷ b'a' ∷ b'c' ∷ b'e' ∷ b's' ∷ []

abbrev pub arch_word : Str
arch_word = b'a' ∷ b'r' ∷ b'c' ∷ b'h' ∷ []

abbrev pub build_word : Str
build_word = b'b' ∷ b'u' ∷ b'i' ∷ b'l' ∷ b'd' ∷ []

-- Where `parse_pkgbuild` is after a line: it goes on with the file, or has met the build function.
pub data Went : Type 0 where
  more : Pkgbuild → File → Went
  built : Pkgbuild → Went

unfoldable pub parse_pkgbuild_line : Pkgbuild → Str → File → Run Went
parse_pkgbuild_line pkg line file =
    if starts_with line depends_word
    then (read_array ok pkg.depends line file >>= λ r. ok (more (record pkg { depends = r.0 }) r.1))
    else (if starts_with line provides_word
        then (read_array ok pkg.provides line file >>= λ r.
            ok (more (record pkg { provides = r.0 }) r.1))
        else (if starts_with line conflicts_word
            then (read_array ok pkg.conflicts line file >>= λ r.
                ok (more (record pkg { conflicts = r.0 }) r.1))
            else (if starts_with line replaces_word
                then (read_array ok pkg.replaces line file >>= λ r.
                    ok (more (record pkg { replaces = r.0 }) r.1))
                else (if starts_with line arch_word
                    then (read_array ok pkg.arch line file >>= λ r.
                        ok (more (record pkg { arch = r.0 }) r.1))
                    else ok (if starts_with line build_word then built pkg else more pkg file)))))

-- `while (line = fgets(...))`, for a number of rounds.
unfoldable pub pkgbuild_loop : ℕ → Pkgbuild → Bool → Bool → List Str → Run Pkgbuild
unfolding parse_pkgbuild_line
pkgbuild_loop zero pkg newline eof lines = spin
pkgbuild_loop (suc rounds) pkg newline eof [] = ok pkg
pkgbuild_loop (suc rounds) pkg newline eof (line ∷ rest) = elim (strtrim line) [
  | [] ↦ pkgbuild_loop rounds pkg newline (eof_behind newline rest) rest
  | c ∷ text ↦
      parse_pkgbuild_line pkg (c ∷ text)
        (record { lines = rest; newline = newline; eof = eof_behind newline rest })
      >>= λ r. elim r [
        | more pkg' file ↦ pkgbuild_loop rounds pkg' file.newline file.eof file.lines
        | built pkg' ↦ ok pkg'
      ]
]

unfoldable pub parse_pkgbuild : Pkgbuild → File → Run Pkgbuild
unfolding pkgbuild_loop
parse_pkgbuild pkg file =
    pkgbuild_loop (suc (length file.lines)) pkg file.newline file.eof file.lines

-- The first value of a variable counts, as in a hash map of hash.c.
unfoldable pub value_of : List (Str × Str) → Str → Option Str
value_of [] name = none
value_of ((var, val) ∷ vars) name = if same_str var name then some val else value_of vars name

-- The text before the terminator.
unfoldable pub text_of : Str → Str
text_of [] = []
text_of (c ∷ str) = let rest = text_of str in if c == 0 then [] else c ∷ rest

-- `size` is PATH_MAX.
module _ (size : ℕ) where
  -- `memset`, `strncpy`, `substitute_vars` and `strdup`.
  unfoldable pub substituted : List (Str × Str) → Str → Run Str
  unfolding value_of text_of
  substituted vars text =
      substitute_vars (value_of vars) (size - 1) ((size + 1) * (size + 1))
        (take size (text ++ replicate size 0))
      >>= λ str. ok (text_of str)

  unfoldable pub grab_loop : List (Str × Str) → Bool → List Str → Run (List Str)
  unfolding substituted
  grab_loop vars newline [] = ok []
  grab_loop vars newline (line ∷ rest) = elim (strtrim line) [
    | [] ↦ grab_loop vars newline rest
    | c ∷ text ↦
        if starts_with (c ∷ text) depends_word
        then (read_array (λ token. substituted vars (strtrim_ver token)) [] (c ∷ text)
              (record { lines = rest; newline = newline; eof = eof_behind newline rest })
            >>= λ r. ok r.0)
        else (elim (c == b'#') [
          | true ↦ grab_loop vars newline rest
          | false ↦ elim (split_at b'=' (c ∷ text)) [
            | none ↦ grab_loop vars newline rest
            | some (var, val) ↦
                substituted vars val >>= λ y. grab_loop (vars ++ ((var, y) ∷ [])) newline rest
          ]
        ])
  ]

  -- `none` is a file that does not open.
  unfoldable pub grab_dependencies : Option File → Run (List Str)
  unfolding grab_loop
  grab_dependencies none = ok []
  grab_dependencies (some file) = grab_loop [] file.newline file.lines
