-- ===== src/Tests/Packages.antt =====
-- Tests of the reading of a PKGBUILD.
use powaur.Base.{
  ℕ, zero, suc, ◌+◌, ◌≤◌, ◌<◌, ◌≡◌, refl, true, false, not, ◌&&◌, List, [], ◌∷◌, ◌++◌, Option, none,
  some,
}
use powaur.Base.{length, get_or, replicate, if◌then◌else◌, arith, ok, spin, Returns}
use powaur.Util.{find_str, isspace, Str, same_str, strtrim, split_at, starts_with, strtrim_ver}
use powaur.Package.{drop, find_byte, substitute_vars, strlen}
use powaur.Package.Loops.{with_reference, substitute_vars-spins}
use powaur.Package.Bytes.{Wide}
use powaur.Package.Grows.{substitute_vars-Returns}
use powaur.Package.Arrays.{File, read_array, drop_last_if}
use powaur.Package.Pkgbuild.{Pkgbuild, parse_pkgbuild, parse_pkgbuild_line, grab_dependencies}
use powaur.Package.Words.{IsName}
use powaur.Package.Tokens.{depends_line, parse_pkgbuild-depends_line}
use powaur.Package.Behind.{is_close, names_array, parse_pkgbuild-behind}
use powaur.Package.Resolve.{Known, needs_no_download, resolve_dependencies}
use powaur.Package.Deps.{Distinct, Grabbed, resolve_dependencies-Distinct}

pkgbuild_program : Unit {0}
unfolding find_str substitute_vars same_str strtrim split_at starts_with strtrim_ver find_byte
    parse_pkgbuild parse_pkgbuild_line read_array grab_dependencies resolve_dependencies
    drop_last_if
pkgbuild_program = tt

abbrev a : Str
a = b'a' ∷ []

-- The value of every variable is "abcd", as long as "${a}".
abbrev four_bytes : Str → Option Str
four_bytes name = some (b'a' ∷ b'b' ∷ b'c' ∷ b'd' ∷ [])

substitute_vars-spins_example :
    substitute_vars four_bytes 4095 1000 (with_reference (b'x' ∷ []) a (0 ∷ [])) ≡ spin
substitute_vars-spins_example =
    substitute_vars-spins four_bytes 4095 (b'x' ∷ []) a (0 ∷ []) (b'a' ∷ b'b' ∷ b'c' ∷ b'd' ∷ [])
      b'a' [] refl refl refl refl (omega arith) 1000

-- "b" stands for "stone", and nothing else has a value.
abbrev stone : Str
stone = b's' ∷ b't' ∷ b'o' ∷ b'n' ∷ b'e' ∷ []

abbrev search_b : Str → Option Str
search_b name = if same_str name (b'b' ∷ []) then some stone else none

search_b-longer : (name sub : Str) → search_b name ≡ some sub → length name + 3 < length sub
unfolding same_str
search_b-longer [] sub h = cc
search_b-longer (x ∷ []) sub h = ground (arith, h)
search_b-longer (x ∷ y ∷ name) sub h = ground (arith, h)

-- "$b" in a buffer of eight bytes.
abbrev buffer : Str
buffer = b'$' ∷ b'b' ∷ replicate 6 0

zeros_behind : (n i : ℕ) → get_or (replicate {A = ℕ} n 0) i 0 ≡ 0
zeros_behind zero i = refl
zeros_behind (suc n) zero = refl
zeros_behind (suc n) (suc i) = zeros_behind n i

buffer_zeros : (i : ℕ) → 2 ≤ i → get_or buffer i 0 ≡ 0
buffer_zeros zero h = absurd (omega arith)
buffer_zeros (suc zero) h = absurd (omega arith)
buffer_zeros (suc (suc i)) h = zeros_behind 6 i

buffer-Wide : Wide (7 + 1) (strlen buffer) buffer
unfolding strlen
buffer-Wide = record { whole = refl; zeros = buffer_zeros }

buffer_fits : (strlen buffer ≤ 7) × (strlen buffer < 3)
unfolding strlen
buffer_fits = omega arith

substitute_vars-Returns_example : Returns (substitute_vars search_b 7 3 buffer) (Wide (7 + 1) 7)
substitute_vars-Returns_example =
    substitute_vars-Returns search_b 7 search_b-longer 3 buffer buffer-Wide (buffer_fits.0)
      (buffer_fits.1)

stone_put : substitute_vars search_b 7 3 buffer ≡ ok (stone ++ replicate 3 0)
unfolding pkgbuild_program
stone_put = refl

abbrev nothing_yet : Pkgbuild
nothing_yet = record { depends = []; provides = []; conflicts = []; replaces = []; arch = [] }

names_plain : IsName a × IsName stone
unfolding isspace
names_plain = (refl, refl)

depends_known :
    (names_array (strtrim (depends_line (a ∷ []))) ≡ true)
    × (find_byte b'(' (strtrim (depends_line (a ∷ []))) ≡ some 8)
    × (drop_last_if is_close (strtrim (drop 9 (strtrim (depends_line (a ∷ [])))))
        ≡ some (39 ∷ b'a' ∷ 39 ∷ []))
unfolding pkgbuild_program
depends_known = (refl, refl, refl)

parse_pkgbuild-depends_line_example :
    parse_pkgbuild nothing_yet
      (record { lines = depends_line (a ∷ stone ∷ []) ∷ []; newline = true; eof = false })
    ≡ ok (record nothing_yet { depends = a ∷ stone ∷ [] })
parse_pkgbuild-depends_line_example =
    parse_pkgbuild-depends_line nothing_yet (a ∷ stone ∷ []) (names_plain.0, (names_plain.1, tt))

-- "provides=('x')"
abbrev provides_x : Str
provides_x =
    b'p' ∷ b'r' ∷ b'o' ∷ b'v' ∷ b'i' ∷ b'd' ∷ b'e' ∷ b's' ∷ b'=' ∷ b'(' ∷ 39 ∷ b'x' ∷ 39 ∷ b')' ∷ []

parse_pkgbuild-behind_example :
    parse_pkgbuild nothing_yet
      (record { lines = depends_line (a ∷ []) ∷ provides_x ∷ []; newline = true; eof = false })
    ≡ parse_pkgbuild nothing_yet
        (record { lines = depends_line (a ∷ []) ∷ [] ∷ []; newline = true; eof = false })
parse_pkgbuild-behind_example =
    parse_pkgbuild-behind nothing_yet [] (depends_line (a ∷ [])) provides_x [] (39 ∷ b'a' ∷ 39 ∷ [])
      8 true depends_known.0 depends_known.1 depends_known.2

-- The array behind the first one is lost.
provides_lost :
    parse_pkgbuild nothing_yet
      (record { lines = depends_line (a ∷ []) ∷ provides_x ∷ []; newline = true; eof = false })
    ≡ ok (record nothing_yet { depends = a ∷ [] })
unfolding pkgbuild_program
provides_lost = refl

-- Only "a" is installed; a PKGBUILD wants "a" and "stone".
abbrev known : Known
known = record {
  local = λ name. same_str name a;
  sync = λ name. false;
  local_provides = λ name. false;
  sync_provides = λ name. false;
  stat = λ path. false;
}

abbrev open_all : Str → Option File
open_all path =
    some (record { lines = depends_line (a ∷ stone ∷ []) ∷ []; newline = true; eof = false })

resolved : resolve_dependencies find_str known 16 open_all (a ∷ stone ∷ []) ≡ ok (stone ∷ [])
unfolding pkgbuild_program
resolved = refl

resolve_dependencies-Distinct_example :
    Distinct (stone ∷ [])
    × ((all : List Str) × Grabbed 16 open_all (a ∷ stone ∷ []) all
        × ((name : Str)
            → find_str (stone ∷ []) name
              ≡ (find_str all name && not (needs_no_download known name))))
resolve_dependencies-Distinct_example =
    resolve_dependencies-Distinct find_str (λ list name. refl) known 16 open_all (a ∷ stone ∷ [])
      (stone ∷ []) resolved
