-- ===== src/Get/Ends.antt =====
-- download.c: the loop of `powaur_get` comes to an end.
use powaur.Base.{
  ℕ, zero, suc, ◌≤◌, ◌<◌, ◌≡◌, ◌≢◌, refl, sym, ap, ◌∙◌, Bool, true, false, List, [], ◌∷◌,
}
use powaur.Base.{
  length, if◌then◌else◌, arith, inl, inr, Bool-cases, Option-cases, ok, spin, Ends, ok-Ends,
  >>=-Ends, >>=-Ends_ok, List-cases,
}
use powaur.Util.{Str, find_str, same_str}
use powaur.Util.Equal.{same_str_eq, same_str_refl}
use powaur.Package.Pkgbuild.{grab_dependencies}
use powaur.Package.Resolve.{
  Known, needs_no_download, pkgbuild_path, resolve_from, resolve_dependencies,
}
use powaur.Package.Deps.{Grabbed, resolve_dependencies-Distinct}
use powaur.Get.{Dir, has, seen_in, get_loop}

-- How many of the paths are not in the directory.
abbrev pub missing : Dir → List Str → ℕ
missing dir [] = 0
missing dir (path ∷ paths) = if has dir path then missing dir paths else suc (missing dir paths)

-- A round of downloads keeps what is there, and what it adds is one of a finite number of files.
pub record IsDownload (paths : List Str) (download : Dir → List Str → Dir) : Type 0 where
  pub keeps :
      (dir : Dir) (names : List Str) (path : Str)
      → has dir path ≡ true
      → has (download dir names) path ≡ true
  pub adds :
      (dir : Dir) (names : List Str) (path : Str)
      → has dir path ≡ false
      → has (download dir names) path ≡ true
      → find_str paths path ≡ true

missing-le :
    (dir dir' : Dir) (paths : List Str)
    → ((path : Str) → has dir path ≡ true → has dir' path ≡ true)
    → missing dir' paths ≤ missing dir paths
missing-le dir dir' [] h = omega arith
missing-le dir dir' (path ∷ paths) h = ground (arith, h path, missing-le dir dir' paths h)

missing-lt :
    (dir dir' : Dir) (paths : List Str) (one : Str)
    → ((path : Str) → has dir path ≡ true → has dir' path ≡ true)
    → find_str paths one ≡ true
    → has dir one ≡ false
    → has dir' one ≡ true
    → missing dir' paths < missing dir paths
unfolding find_str
missing-lt dir dir' [] one h m a b = cc
missing-lt dir dir' (path ∷ paths) one h m a b = elim (Bool-cases (same_str path one)) [
  | inl e ↦
      let same = same_str_eq path one e in
      let before : has dir path ≡ false = ap (has dir) same ∙ a in
      let now : has dir' path ≡ true = ap (has dir') same ∙ b in
      ground (arith, before, now, missing-le dir dir' paths h)
  | inr e ↦
      let rest = missing-lt dir dir' paths one h (ground (arith, m, e)) a b in
      ground (arith, rest, h path)
]

missing-length : (dir : Dir) (paths : List Str) → missing dir paths ≤ length paths
missing-length dir [] = omega arith
missing-length dir (path ∷ paths) = ground (arith, missing-length dir paths)

-- A dependency is read from a file that is there.
Grabbed-has :
    (size : ℕ) (dir : Dir) (packages all : List Str) (name : Str) (rest : List Str)
    → Grabbed size dir packages all
    → all ≡ name ∷ rest
    → (pkg : Str) × (find_str packages pkg ≡ true) × (has dir (pkgbuild_path pkg) ≡ true)
unfolding find_str grab_dependencies
Grabbed-has size dir [] all name rest g e = absurd (cc (g, e))
Grabbed-has size dir (pkg ∷ packages) all name rest (deps, more, run, got, split) e =
    elim (Option-cases (dir (pkgbuild_path pkg))) [
      | inr (file, k) ↦ (pkg, ground (arith, same_str_refl pkg), rw (k, has) refl)
      | inl k ↦
          let none_read : deps ≡ [] = ground (arith, run, k) in
          let same : more ≡ name ∷ rest = (rw none_read at (sym split)) ∙ e in
          let (found, m, h) = Grabbed-has size dir packages more name rest got same in
          (found, ground (arith, m), h)
    ]

-- Every file of a directory can be read to the end.
abbrev pub Readable : ℕ → Dir → Type 0
Readable size dir = (path : Str) → Ends (grab_dependencies size (dir path))

abbrev Absent : Dir → List Str → Type 0
Absent dir names = (name : Str) → find_str names name ≡ true → has dir (pkgbuild_path name) ≡ false

module _ (alpm_list_find_str : List Str → Str → Bool)
    (finds : (list : List Str) (name : Str) → alpm_list_find_str list name ≡ find_str list name)
    (known : Known) (size : ℕ) where
  resolve_from-Ends :
      (dir : Dir) (packages newdeps : List Str)
      → Readable size dir
      → Ends (resolve_from alpm_list_find_str (seen_in known dir) size dir newdeps packages)
  unfolding resolve_from
  resolve_from-Ends dir [] newdeps r = ok-Ends newdeps
  resolve_from-Ends dir (pkg ∷ packages) newdeps r =
      >>=-Ends (grab_dependencies size (dir (pkgbuild_path pkg))) _ (r (pkgbuild_path pkg))
        (λ deps. resolve_from-Ends dir packages _ r)

  -- What a round lists is not in the directory, and where it lists something, one of the round's
  -- packages is there.
  record Next (dir : Dir) (packages new : List Str) : Type 0 where
    absent : Absent dir new
    reader :
        (name : Str)
        → find_str new name ≡ true
        → (pkg : Str) × (find_str packages pkg ≡ true) × (has dir (pkgbuild_path pkg) ≡ true)

  member_cons :
      (all : List Str) (name : Str)
      → find_str all name ≡ true
      → (first : Str) × (rest : List Str) × (all ≡ first ∷ rest)
  unfolding find_str
  member_cons [] name h = absurd (cc h)
  member_cons (first ∷ rest) name h = (first, rest, refl)

  resolve-Next :
      (dir : Dir) (packages new : List Str)
      → resolve_dependencies alpm_list_find_str (seen_in known dir) size dir packages ≡ ok new
      → Next dir packages new
  resolve-Next dir packages new h =
      let (distinct, (all, got, names)) =
        resolve_dependencies-Distinct alpm_list_find_str finds (seen_in known dir) size dir packages
          new h in
      record {
        absent = λ name m. unfold needs_no_download in ground (arith, m, names name);
        reader = λ name m.
            let (first, rest, e) = member_cons all name (ground (arith, m, names name)) in
            Grabbed-has size dir packages all first rest got e;
      }

  module _ (paths : List Str) (download : Dir → List Str → Dir) (d : IsDownload paths download)
      (readable : (dir : Dir) (names : List Str)
        → Readable size dir
        → Readable size (download dir names)) where
    done :
        (rounds : ℕ) (dir : Dir)
        → Ends (get_loop alpm_list_find_str known size download rounds dir [])
    unfolding get_loop
    done zero dir = ok-Ends dir
    done (suc rounds) dir = ok-Ends dir

    -- A round that is followed by rounds that end.
    round-Ends :
        (rounds : ℕ) (dir : Dir) (pkg : Str) (resolve : List Str)
        → Readable size dir
        → ((x : Str) (new : List Str)
            → Next (download dir (pkg ∷ resolve)) (pkg ∷ resolve) (x ∷ new)
            → Ends (
                get_loop alpm_list_find_str known size download rounds
                  (download dir (pkg ∷ resolve))
                  (x ∷ new)))
        → Ends (get_loop alpm_list_find_str known size download (suc rounds) dir (pkg ∷ resolve))
    unfolding get_loop resolve_dependencies
    round-Ends rounds dir pkg resolve r more =
        >>=-Ends_ok
          (resolve_dependencies alpm_list_find_str (seen_in known (download dir (pkg ∷ resolve)))
            size (download dir (pkg ∷ resolve)) (pkg ∷ resolve))
          _
          (resolve_from-Ends (download dir (pkg ∷ resolve)) (pkg ∷ resolve) []
            (readable dir (pkg ∷ resolve) r))
          (λ new e. elim (List-cases new) [
            | inl k ↦ rw k (done rounds (download dir (pkg ∷ resolve)))
            | inr (x, rest, k) ↦ rw k (
                more x rest
                  (rw (← k) (resolve-Next (download dir (pkg ∷ resolve)) (pkg ∷ resolve) new e)))
          ])

    loop-Ends :
        (rounds : ℕ) (dir : Dir) (resolve : List Str)
        → Readable size dir
        → Absent dir resolve
        → missing dir paths < rounds
        → Ends (get_loop alpm_list_find_str known size download rounds dir resolve)
    loop-Ends rounds dir [] r a h = done rounds dir
    loop-Ends zero dir (pkg ∷ resolve) r a h = absurd (omega arith)
    loop-Ends (suc rounds) dir (pkg ∷ resolve) r a h =
        round-Ends rounds dir pkg resolve r λ x new next.
          let (source, m, there) =
            next.reader x (unfold find_str in ground (arith, same_str_refl x)) in
          let before = a source m in
          let path = pkgbuild_path source in
          let fewer =
            missing-lt dir (download dir (pkg ∷ resolve)) paths path (d.keeps dir (pkg ∷ resolve))
              (d.adds dir (pkg ∷ resolve) path before there) before there in
          loop-Ends rounds (download dir (pkg ∷ resolve)) (x ∷ new) (readable dir (pkg ∷ resolve) r)
            next.absent (omega (arith, fewer))

    -- The loop of `powaur_get` that downloads the targets, then their dependencies, and so on, comes
    -- to an end, whichever downloads fail: it goes round twice more than there are files to be had,
    -- at most. This supposes that a download takes no file away and adds one of these files, that
    -- `alpm_list_find_str` finds the strings that are in its list, and no others, and that the
    -- reading of each single PKGBUILD comes to an end.
    pub get_loop-Ends :
        (dir : Dir) (targets : List Str)
        → Readable size dir
        → get_loop alpm_list_find_str known size download (suc (suc (length paths))) dir targets
          ≢ spin
    get_loop-Ends dir [] r = done (suc (suc (length paths))) dir
    get_loop-Ends dir (pkg ∷ resolve) r =
        round-Ends (suc (length paths)) dir pkg resolve r λ x new next.
          let few = missing-length (download dir (pkg ∷ resolve)) paths in
          loop-Ends (suc (length paths)) (download dir (pkg ∷ resolve)) (x ∷ new)
            (readable dir (pkg ∷ resolve) r) next.absent (omega (arith, few))
