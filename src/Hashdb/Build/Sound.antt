-- ===== src/Hashdb/Build/Sound.antt =====
-- hashdb.c: what the database that is built holds.
use powaur.Base.{
  ◌≡◌, refl, sym, ap, ◌∙◌, Bool, true, false, not, ◌&&◌, ◌||◌, List, [], ◌∷◌, ◌++◌, map, Option,
  none, some, ◌⊎◌,
}
use powaur.Base.{if◌then◌else◌, arith, inl, inr, Bool-cases}
use mathlib.Core.Path.{subst}
use powaur.Util.{Str, same_str, find_str}
use powaur.Util.Equal.{same_str_eq}
use powaur.Hashdb.{Pkgpair}
use powaur.Query.{PkgFrom, map_search}
use powaur.Query.Known.{Honest, IsLocating, Sits, map_search-append}
use powaur.Hashdb.Build.{
  Hashdb, Provides, no_provides, pkgpair_search, has_pkg, hash_provides, tables_of, caches_of,
  pair_of, hash_packages, hash_syncdbs, insert_aur, compute_aur, build_hashdb, hashdb_new,
}
use powaur.Hashdb.Build.Found.{empty_has_pkg, provider-has_pkg, has_pkg-append}

module _ {P : Type 0} (alpm_pkg_get_name : P → Str) (alpm_pkg_get_provides : P → List Str) where
  -- Whether a package of that name is in the cache of a database, and in one of several.
  abbrev pub in_cache : List P → Str → Bool
  in_cache dbcache name = find_str (map alpm_pkg_get_name dbcache) name

  abbrev pub in_some : List (List P) → Str → Bool
  in_some [] name = false
  in_some (dbcache ∷ syncdbs) name = in_cache dbcache name || in_some syncdbs name

  hash_packages-has_pkg :
      (dbcache : List P) (htable : List (Pkgpair P)) (provides : Provides) (name : Str)
      → has_pkg
          (hash_packages alpm_pkg_get_name alpm_pkg_get_provides dbcache htable provides).0
          name
        ≡ (has_pkg htable name || in_cache dbcache name)
  unfolding hash_packages find_str
  hash_packages-has_pkg [] htable provides name = ground arith
  hash_packages-has_pkg (pkg ∷ dbcache) htable provides name = ground (
    arith,
    hash_packages-has_pkg dbcache
        (htable ++ (pair_of alpm_pkg_get_name alpm_pkg_get_provides pkg ∷ []))
        (hash_provides alpm_pkg_get_name alpm_pkg_get_provides provides (alpm_pkg_get_name pkg)
          (alpm_pkg_get_provides pkg))
        name,
    has_pkg-append htable (pair_of alpm_pkg_get_name alpm_pkg_get_provides pkg) name,
  )

  -- The loop over the sync databases is about two fields.
  record Synced (before after : Hashdb P) (syncdbs : List (List P)) : Type 0 where
    local : after.local ≡ before.local
    local_provides : after.local_provides ≡ before.local_provides
    aur : after.aur ≡ before.aur
    pkg_from : after.pkg_from ≡ before.pkg_from
    sync :
        (name : Str) → has_pkg after.sync name ≡ (has_pkg before.sync name || in_some syncdbs name)

  hash_syncdbs-Synced :
      (syncdbs : List (List P)) (hashdb : Hashdb P)
      → Synced hashdb (hash_syncdbs alpm_pkg_get_name alpm_pkg_get_provides syncdbs hashdb) syncdbs
  unfolding hash_syncdbs
  hash_syncdbs-Synced [] hashdb = record {
    local = refl;
    local_provides = refl;
    aur = refl;
    pkg_from = refl;
    sync = λ name. ground arith;
  }
  hash_syncdbs-Synced (dbcache ∷ syncdbs) hashdb =
      let r =
        hash_packages alpm_pkg_get_name alpm_pkg_get_provides dbcache hashdb.sync
          hashdb.sync_provides in
      let rest = hash_syncdbs-Synced syncdbs (record hashdb { sync = r.0; sync_provides = r.1 }) in
      record {
        local = rest.local;
        local_provides = rest.local_provides;
        aur = rest.aur;
        pkg_from = rest.pkg_from;
        sync = λ name. ground (
          arith,
          rest.sync name,
          hash_packages-has_pkg dbcache hashdb.sync hashdb.sync_provides name,
        );
      }

  -- Each package of the local database that no sync database has is put in, and known to be from the AUR.
  record Computed (before after : Hashdb P) (dbcache : List P) : Type 0 where
    local : after.local ≡ before.local
    sync : after.sync ≡ before.sync
    aur :
        (name : Str)
        → has_pkg after.aur name
          ≡ (has_pkg before.aur name || (in_cache dbcache name && not (has_pkg before.sync name)))
    known :
        (name : Str)
        → map_search after.pkg_from name
          ≡ (if has_pkg after.aur name then some PkgFrom.aur else none)

  same_sync :
      (hashdb : Hashdb P) (a name : Str)
      → same_str a name ≡ true
      → has_pkg hashdb.sync name ≡ has_pkg hashdb.sync a
  same_sync hashdb a name h = ap (has_pkg hashdb.sync) (sym (same_str_eq a name h))

  insert_aur-known :
      (hashdb : Hashdb P) (pkg : P)
      → ((name : Str)
          → map_search hashdb.pkg_from name
            ≡ (if has_pkg hashdb.aur name then some PkgFrom.aur else none))
      → (name : Str)
      → map_search (hashdb.pkg_from ++ ((alpm_pkg_get_name pkg, PkgFrom.aur) ∷ [])) name ≡ (
          if has_pkg (hashdb.aur ++ (pair_of alpm_pkg_get_name alpm_pkg_get_provides pkg ∷ [])) name
          then some PkgFrom.aur
          else none)
  insert_aur-known hashdb pkg known name = ground (
    arith,
    known name,
    map_search-append hashdb.pkg_from (alpm_pkg_get_name pkg) name PkgFrom.aur,
    has_pkg-append hashdb.aur (pair_of alpm_pkg_get_name alpm_pkg_get_provides pkg) name,
  )

  compute_aur-Computed :
      (dbcache : List P) (hashdb : Hashdb P)
      → ((name : Str)
          → map_search hashdb.pkg_from name
            ≡ (if has_pkg hashdb.aur name then some PkgFrom.aur else none))
      → Computed hashdb (compute_aur alpm_pkg_get_name alpm_pkg_get_provides dbcache hashdb) dbcache
  unfolding compute_aur find_str
  compute_aur-Computed [] hashdb known = record {
    local = refl;
    sync = refl;
    aur = λ name. ground arith;
    known = known;
  }
  compute_aur-Computed (pkg ∷ dbcache) hashdb known =
      elim (Bool-cases (has_pkg hashdb.sync (alpm_pkg_get_name pkg))) [
        | inl e ↦
            let rest = compute_aur-Computed dbcache hashdb known in
            rw e (record {
              local = rest.local;
              sync = rest.sync;
              aur = λ name.
                  ground (arith, rest.aur name, same_sync hashdb (alpm_pkg_get_name pkg) name, e);
              known = rest.known;
            })
        | inr e ↦
            let next = insert_aur alpm_pkg_get_name alpm_pkg_get_provides hashdb pkg in
            let rest = compute_aur-Computed dbcache next (insert_aur-known hashdb pkg known) in
            rw e (record {
              local = rest.local;
              sync = rest.sync;
              aur = λ name. ground (
                arith,
                rest.aur name,
                same_sync hashdb (alpm_pkg_get_name pkg) name,
                e,
                has_pkg-append hashdb.aur (pair_of alpm_pkg_get_name alpm_pkg_get_provides pkg)
                    name,
              );
              known = rest.known;
            })
      ]

  -- The database for a local database whose cache is not empty, and for the caches of the sync databases.
  pub record Built (hashdb : Hashdb P) (dbcache : List P) (syncdbs : List (List P))
      (outdated : List Str) : Type 0 where
    pub in_local : (name : Str) → (tables_of hashdb outdated).in_local name ≡ in_cache dbcache name
    pub in_sync : (name : Str) → (tables_of hashdb outdated).in_sync name ≡ in_some syncdbs name
    pub in_aur :
        (name : Str)
        → (tables_of hashdb outdated).in_aur name
          ≡ (in_cache dbcache name && not (in_some syncdbs name))
    pub known :
        (name : Str)
        → map_search (caches_of hashdb).pkg_from name
          ≡ (if (tables_of hashdb outdated).in_aur name then some PkgFrom.aur else none)
    pub honest : Honest (tables_of hashdb outdated)
    pub locating : IsLocating (tables_of hashdb outdated) (caches_of hashdb)

  tables_of-Honest : (hashdb : Hashdb P) (outdated : List Str) → Honest (tables_of hashdb outdated)
  unfolding tables_of
  tables_of-Honest hashdb outdated = record {
    local_provider = λ name p h. provider-has_pkg hashdb.local_provides hashdb.local name p h;
    sync_provider_local = λ name p h. provider-has_pkg hashdb.sync_provides hashdb.local name p h;
    sync_provider_sync = λ name p h. provider-has_pkg hashdb.sync_provides hashdb.sync name p h;
  }

  known-IsLocating :
      (hashdb : Hashdb P) (outdated : List Str)
      → ((name : Str)
          → map_search hashdb.pkg_from name
            ≡ (if has_pkg hashdb.aur name then some PkgFrom.aur else none))
      → IsLocating (tables_of hashdb outdated) (caches_of hashdb)
  unfolding tables_of caches_of map_search
  known-IsLocating hashdb outdated known = record {
    entry = λ name from h. elim (Bool-cases (has_pkg hashdb.aur name)) [
      | inl e ↦
          let same : PkgFrom.aur ≡ from = ground (arith, h, e, known name) in
          subst (λ (f : PkgFrom). Sits (tables_of hashdb outdated) f name) same tt
      | inr e ↦ absurd (ground (arith, h, e, known name))
    ];
    of_aur = λ name h. (PkgFrom.aur, ground (arith, known name, h), tt);
    cached = λ name p h. absurd (cc h);
  }

  fresh-known :
      (hashdb : Hashdb P)
      → hashdb.aur ≡ []
      → hashdb.pkg_from ≡ []
      → (name : Str)
      → map_search hashdb.pkg_from name
        ≡ (if has_pkg hashdb.aur name then some PkgFrom.aur else none)
  unfolding map_search has_pkg pkgpair_search
  fresh-known hashdb e k name = rw (e, k) refl

  -- NULL for no local database and for one without packages.
  abbrev pub Builds : Option (List P) → List (List P) → List Str → Option (Hashdb P) → Type 0
  Builds localdb syncdbs outdated none = (localdb ≡ none) ⊎ (localdb ≡ some [])
  Builds localdb syncdbs outdated (some hashdb) =
      (pkg : P) × (dbcache : List P) × (localdb ≡ some (pkg ∷ dbcache))
      × Built hashdb (pkg ∷ dbcache) syncdbs outdated

  -- `build_hashdb` gives NULL exactly if there is no local database or its cache is empty. Otherwise
  -- the tables of the local and of the sync packages hold exactly the names in their caches, the
  -- table of the AUR packages holds exactly the names of local packages that no sync database has,
  -- the searches for a provider find packages of the table that they search, and `pkg_from` says of
  -- exactly the AUR packages that they are from the AUR: what `normalize_package` supposes. This is
  -- so for every list of outdated packages.
  pub build_hashdb-Builds :
      (localdb : Option (List P)) (syncdbs : List (List P)) (outdated : List Str)
      → Builds localdb syncdbs outdated
          (build_hashdb alpm_pkg_get_name alpm_pkg_get_provides localdb syncdbs)
  unfolding build_hashdb tables_of caches_of hashdb_new
  build_hashdb-Builds none syncdbs outdated = inl refl
  build_hashdb-Builds (some []) syncdbs outdated = inr refl
  build_hashdb-Builds (some (pkg ∷ dbcache)) syncdbs outdated =
      let r =
        hash_packages alpm_pkg_get_name alpm_pkg_get_provides (pkg ∷ dbcache) [] no_provides in
      let start : Hashdb P = record hashdb_new { local = r.0; local_provides = r.1 } in
      let synced = hash_syncdbs alpm_pkg_get_name alpm_pkg_get_provides syncdbs start in
      let s = hash_syncdbs-Synced syncdbs start in
      let c = compute_aur-Computed (pkg ∷ dbcache) synced (fresh-known synced s.aur s.pkg_from) in
      let locals = hash_packages-has_pkg (pkg ∷ dbcache) [] no_provides in
      let locals' : (name : Str) → has_pkg start.local name ≡ in_cache (pkg ∷ dbcache) name =
        λ name. ground (arith, locals name, empty_has_pkg P name) in
      let built = compute_aur alpm_pkg_get_name alpm_pkg_get_provides (pkg ∷ dbcache) synced in
      (
        pkg,
        dbcache,
        refl,
        record {
          in_local = λ name.
              ap (λ (t : List (Pkgpair P)). has_pkg t name) (c.local ∙ s.local) ∙ locals' name;
          in_sync = λ name.
              ap (λ (t : List (Pkgpair P)). has_pkg t name) c.sync
              ∙ ground (arith, s.sync name, empty_has_pkg P name);
          in_aur = λ name.
              c.aur name
              ∙ ground (
                arith,
                ap (λ (t : List (Pkgpair P)). has_pkg t name) s.aur,
                s.sync name,
                empty_has_pkg P name,
              );
          known = c.known;
          honest = tables_of-Honest built outdated;
          locating = known-IsLocating built outdated c.known;
        },
      )
