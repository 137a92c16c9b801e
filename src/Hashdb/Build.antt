-- ===== src/Hashdb/Build.antt =====
-- hashdb.c: the database of packages that is built from the caches of libalpm. A hash table is the
-- list of its members in the order of insertion, of which the first with a key counts, and a table
-- of trees gives the tree of a key; libalpm's packages and their accessors are parameters.
pub mod Found
pub mod Sound
use powaur.Base.{Bool, true, false, List, [], ◌∷◌, ◌++◌, Option, none, some, if◌then◌else◌, take}
use powaur.Util.{Str, same_str, strtrim_ver, find_str}
use powaur.Util.Compare.{str_keys}
use powaur.Hash.Bst.{Tree, leaf, hashbst_bst_insert, hashbst_tree_node_search}
use powaur.Hashdb.{Pkgpair}
use powaur.Query.{PkgFrom, Tables, Caches}

-- `hashbst_insert` puts the value into the tree of the key.
abbrev pub Provides : Type 0
Provides = Str → Tree Str

abbrev pub no_provides : Provides
no_provides name = leaf

unfoldable pub provides_insert : Provides → Str → Str → Provides
unfolding hashbst_bst_insert
provides_insert provides key val name =
    if same_str key name then hashbst_bst_insert (provides name) val else provides name

-- The fields of `struct pw_hashdb` that `build_hashdb` fills.
pub record Hashdb (P : Type 0) : Type 0 where
  pub local : List (Pkgpair P)
  pub sync : List (Pkgpair P)
  pub aur : List (Pkgpair P)
  pub local_provides : Provides
  pub sync_provides : Provides
  pub pkg_from : List (Str × PkgFrom)

module _ {P : Type 0} where
  unfoldable pub hashdb_new : Hashdb P
  hashdb_new = record {
    local = [];
    sync = [];
    aur = [];
    local_provides = no_provides;
    sync_provides = no_provides;
    pkg_from = [];
  }

  -- `hash_search` by the name of a package.
  unfoldable pub pkgpair_search : List (Pkgpair P) → Str → Option (Pkgpair P)
  unfolding same_str
  pkgpair_search [] pkgname = none
  pkgpair_search (pair ∷ table) pkgname =
      if same_str pair.pkgname pkgname then some pair else pkgpair_search table pkgname

  unfoldable pub has_pkg : List (Pkgpair P) → Str → Bool
  unfolding pkgpair_search
  has_pkg table pkgname = elim (pkgpair_search table pkgname) [ none ↦ false | some pair ↦ true ]

  -- `hashbst_tree_search(provides, pkgname, table, provides_search)`, and the name of what it finds.
  unfoldable pub provider : Provides → List (Pkgpair P) → Str → Option Str
  unfolding hashbst_tree_node_search pkgpair_search
  provider provides table pkgname =
      elim (hashbst_tree_node_search (provides pkgname) (pkgpair_search table)) [
        | none ↦ none
        | some pair ↦ some pair.pkgname
      ]

  -- The database as `normalize_package` sees it, with the packages of `aur_outdated`.
  unfoldable pub tables_of : Hashdb P → List Str → Tables
  unfolding has_pkg provider find_str
  tables_of hashdb aur_outdated = record {
    in_local = has_pkg hashdb.local;
    in_sync = has_pkg hashdb.sync;
    in_aur = has_pkg hashdb.aur;
    outdated = find_str aur_outdated;
    local_provider = provider hashdb.local_provides hashdb.local;
    sync_provider_local = provider hashdb.sync_provides hashdb.local;
    sync_provider_sync = provider hashdb.sync_provides hashdb.sync;
  }

  unfoldable pub caches_of : Hashdb P → Caches
  caches_of hashdb = record { pkg_from = hashdb.pkg_from; provides_cache = []; aur_downloaded = [] }

module _ {P : Type 0} (alpm_pkg_get_name : P → Str) (alpm_pkg_get_provides : P → List Str) where
  abbrev pub pair_of : P → Pkgpair P
  pair_of pkg = record { pkgname = alpm_pkg_get_name pkg; pkg = some pkg }

  -- The buffer has room for 1023 bytes. `strtrim_ver` gives its argument, which is not NULL.
  unfoldable pub hash_provides : Provides → Str → List Str → Provides
  unfolding provides_insert strtrim_ver
  hash_provides provides pkgname [] = provides
  hash_provides provides pkgname (dep ∷ deps) =
      hash_provides (provides_insert provides (strtrim_ver (take 1023 dep)) pkgname) pkgname deps

  unfoldable pub hash_packages : List P → List (Pkgpair P) → Provides → List (Pkgpair P) × Provides
  unfolding hash_provides
  hash_packages [] htable provides = (htable, provides)
  hash_packages (pkg ∷ dbcache) htable provides =
      hash_packages dbcache (htable ++ (pair_of pkg ∷ []))
        (hash_provides provides (alpm_pkg_get_name pkg) (alpm_pkg_get_provides pkg))

  -- The loop over the sync databases, each as its cache.
  unfoldable pub hash_syncdbs : List (List P) → Hashdb P → Hashdb P
  unfolding hash_packages
  hash_syncdbs [] hashdb = hashdb
  hash_syncdbs (dbcache ∷ syncdbs) hashdb =
      let r = hash_packages dbcache hashdb.sync hashdb.sync_provides in
      hash_syncdbs syncdbs (record hashdb { sync = r.0; sync_provides = r.1 })

  abbrev pub insert_aur : Hashdb P → P → Hashdb P
  insert_aur hashdb pkg = record hashdb {
    aur = hashdb.aur ++ (pair_of pkg ∷ []);
    pkg_from = hashdb.pkg_from ++ ((alpm_pkg_get_name pkg, PkgFrom.aur) ∷ []);
  }

  -- "Compute AUR packages"
  unfoldable pub compute_aur : List P → Hashdb P → Hashdb P
  unfolding has_pkg
  compute_aur [] hashdb = hashdb
  compute_aur (pkg ∷ dbcache) hashdb =
      compute_aur dbcache
        (if has_pkg hashdb.sync (alpm_pkg_get_name pkg) then hashdb else insert_aur hashdb pkg)

  -- `none` is NULL; the cache of a database is NULL where it is empty.
  unfoldable pub build_hashdb : Option (List P) → List (List P) → Option (Hashdb P)
  unfolding hashdb_new hash_packages hash_syncdbs compute_aur
  build_hashdb none syncdbs = none
  build_hashdb (some []) syncdbs = none
  build_hashdb (some (pkg ∷ dbcache)) syncdbs =
      let r = hash_packages (pkg ∷ dbcache) [] no_provides in
      some (
        compute_aur (pkg ∷ dbcache)
          (hash_syncdbs syncdbs (record hashdb_new { local = r.0; local_provides = r.1 })))
