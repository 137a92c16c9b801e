-- ===== src/Tests/Gets.antt =====
-- Tests of the downloads with their dependencies.
use powaur.Base.{◌≡◌, ◌≢◌, refl, sym, ◌∙◌, true, false, List, [], ◌∷◌, none, some}
use powaur.Base.{if◌then◌else◌, Bool-cases, inl, inr, ok, spin, ok-Ends}
use powaur.Util.{Str, find_str, same_str, strtrim, starts_with, strtrim_ver}
use powaur.Package.{substitute_vars}
use powaur.Package.Arrays.{File, read_array}
use powaur.Package.Pkgbuild.{grab_dependencies}
use powaur.Package.Resolve.{Known}
use powaur.Package.Tokens.{depends_line}
use powaur.Get.{Dir, has, get_loop}
use powaur.Get.Ends.{IsDownload, Readable, get_loop-Ends}

-- The package "a" depends on "b", which the AUR does not have.
abbrev name_a : Str
name_a = b'a' ∷ []

abbrev nothing_known : Known
nothing_known = record {
  local = λ name. false;
  sync = λ name. false;
  local_provides = λ name. false;
  sync_provides = λ name. false;
  stat = λ path. false;
}

abbrev path_a : Str
path_a = b'a' ∷ b'/' ∷ b'P' ∷ b'K' ∷ b'G' ∷ b'B' ∷ b'U' ∷ b'I' ∷ b'L' ∷ b'D' ∷ []

abbrev pkgbuild_a : File
pkgbuild_a = record { lines = depends_line ((b'b' ∷ []) ∷ []) ∷ []; newline = true; eof = false }

-- Only the PKGBUILD of "a" is ever in a directory.
abbrev fetch_a : Dir → List Str → Dir
fetch_a dir names path = if same_str path_a path then some pkgbuild_a else dir path

abbrev empty_dir : Dir
empty_dir path = none

fetch_a-keeps :
    (dir : Dir) (names : List Str) (path : Str)
    → has dir path ≡ true
    → has (fetch_a dir names) path ≡ true
fetch_a-keeps dir names path h = elim (Bool-cases (same_str path_a path)) [
  | inl e ↦ rw (has, e) refl
  | inr e ↦ rw (has, e) h
]

fetch_a-adds :
    (dir : Dir) (names : List Str) (path : Str)
    → has dir path ≡ false
    → has (fetch_a dir names) path ≡ true
    → find_str (path_a ∷ []) path ≡ true
unfolding find_str
fetch_a-adds dir names path h k = elim (Bool-cases (same_str path_a path)) [
  | inl e ↦ rw e refl
  | inr e ↦
      let same : has (fetch_a dir names) path ≡ has dir path = rw (has, e) refl in
      cc (sym k ∙ same ∙ h)
]

fetch_a-IsDownload : IsDownload (path_a ∷ []) fetch_a
fetch_a-IsDownload = record { keeps = fetch_a-keeps; adds = fetch_a-adds }

pkgbuild_a_read : grab_dependencies 16 (some pkgbuild_a) ≡ ok ((b'b' ∷ []) ∷ [])
unfolding grab_dependencies strtrim starts_with read_array substitute_vars strtrim_ver
pkgbuild_a_read = refl

fetch_a-Readable :
    (dir : Dir) (names : List Str) → Readable 16 dir → Readable 16 (fetch_a dir names)
fetch_a-Readable dir names r path = elim (Bool-cases (same_str path_a path)) [
  | inl e ↦ rw (e, pkgbuild_a_read) (ok-Ends ((b'b' ∷ []) ∷ []))
  | inr e ↦ rw e (r path)
]

empty-Readable : Readable 16 empty_dir
unfolding grab_dependencies
empty-Readable path = ok-Ends []

get_loop-Ends_example : get_loop find_str nothing_known 16 fetch_a 3 empty_dir (name_a ∷ []) ≢ spin
get_loop-Ends_example =
    get_loop-Ends find_str (λ list name. refl) nothing_known 16 (path_a ∷ []) fetch_a
      fetch_a-IsDownload fetch_a-Readable empty_dir (name_a ∷ []) empty-Readable
