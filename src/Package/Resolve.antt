-- ===== src/Package/Resolve.antt =====
-- package.c: `resolve_dependencies`, which lists what is to be downloaded next, and `which_db`.
use powaur.Base.{ℕ, Bool, ◌||◌, List, [], ◌∷◌, ◌++◌, Option, none, some}
use powaur.Base.{if◌then◌else◌, Run, ok, ◌>>=◌, take}
use powaur.Util.{Str, same_str}
use powaur.Package.Arrays.{File}
use powaur.Package.Pkgbuild.{grab_dependencies}

-- What the tables of the databases and the directory answer: whether a package of that name is
-- installed or in a sync database, whether one of those provides it, whether the file is there.
pub record Known : Type 0 where
  pub local : Str → Bool
  pub sync : Str → Bool
  pub local_provides : Str → Bool
  pub sync_provides : Str → Bool
  pub stat : Str → Bool

-- "/PKGBUILD"
abbrev pub slash_pkgbuild : Str
slash_pkgbuild = b'/' ∷ b'P' ∷ b'K' ∷ b'G' ∷ b'B' ∷ b'U' ∷ b'I' ∷ b'L' ∷ b'D' ∷ []

unfoldable pub pkgbuild_path : Str → Str
pkgbuild_path name = take 4095 (name ++ slash_pkgbuild)

unfoldable pub needs_no_download : Known → Str → Bool
unfolding pkgbuild_path
needs_no_download known name =
    known.local name
    || (known.sync name
        || (known.local_provides name
            || (known.sync_provides name || known.stat (pkgbuild_path name))))

-- `alpm_list_find_str` is libalpm's, and `open_file` is the file of that path, if it opens.
module _ (alpm_list_find_str : List Str → Str → Bool) (known : Known) where
  -- The loop over the dependencies of one package.
  unfoldable pub add_newdeps : List Str → List Str → List Str
  unfolding needs_no_download
  add_newdeps newdeps [] = newdeps
  add_newdeps newdeps (name ∷ deps) =
      add_newdeps
        (if alpm_list_find_str newdeps name || needs_no_download known name
          then newdeps
          else newdeps ++ (name ∷ []))
        deps

  module _ (size : ℕ) (open_file : Str → Option File) where
    unfoldable pub resolve_from : List Str → List Str → Run (List Str)
    unfolding add_newdeps pkgbuild_path
    resolve_from newdeps [] = ok newdeps
    resolve_from newdeps (pkgname ∷ packages) =
        grab_dependencies size (open_file (pkgbuild_path pkgname)) >>= λ deps.
        resolve_from (add_newdeps newdeps deps) packages

    unfoldable pub resolve_dependencies : List Str → Run (List Str)
    unfolding resolve_from
    resolve_dependencies packages = resolve_from [] packages

-- A sync database: its name, and its packages with their groups.
pub record Syncdb : Type 0 where
  pub name : Str
  pub pkgcache : List (Str × List Str)

unfoldable pub pkg_groups : List (Str × List Str) → Str → Option (List Str)
pkg_groups [] pkgname = none
pkg_groups ((name, groups) ∷ cache) pkgname =
    if same_str name pkgname then some groups else pkg_groups cache pkgname

-- The name of the first database with the package, and its groups; "local" where there is none.
unfoldable pub which_db : List Syncdb → Str → Str × List Str
unfolding pkg_groups
which_db [] pkgname = (b'l' ∷ b'o' ∷ b'c' ∷ b'a' ∷ b'l' ∷ [], [])
which_db (db ∷ sdbs) pkgname = elim (pkg_groups db.pkgcache pkgname) [
  | none ↦ which_db sdbs pkgname
  | some groups ↦ (db.name, groups)
]
