-- ===== src/Query.antt =====
-- query.c: where a package comes from, and which package stands for a name.
pub mod Known
pub mod Crawl
pub mod Print
use powaur.Base.{ℕ, Bool, true, false, not, ◌&&◌, ◌||◌, List, [], ◌∷◌, ◌++◌, Option, none, some}
use powaur.Base.{if◌then◌else◌, ◌==◌}
use powaur.Util.{Str, same_str, find_str, split_at}

-- The first '>' ends the string; without one the first '<' does, and without one the first '='.
unfoldable pub chompversion : Str → Str
chompversion str = elim (split_at b'>' str) [
  | some (name, rest) ↦ name
  | none ↦ elim (split_at b'<' str) [
    | some (name, rest) ↦ name
    | none ↦ elim (split_at b'=' str) [ some (name, rest) ↦ name | none ↦ str ]
  ]
]

pub data PkgFrom : Type 0 where
  unknown local sync aur : PkgFrom

abbrev pub is_aur : PkgFrom → Bool
is_aur aur = true
is_aur _ = false

pub data ResolveLvl : Type 0 where
  immediate thorough : ResolveLvl

abbrev pub is_thorough : ResolveLvl → Bool
is_thorough thorough = true
is_thorough immediate = false

-- The tables that stay as they are: whether a package of that name is in one, and the name of the
-- package that a search for a provider finds.
pub record Tables : Type 0 where
  pub in_local : Str → Bool
  pub in_sync : Str → Bool
  pub in_aur : Str → Bool
  pub outdated : Str → Bool
  pub local_provider : Str → Option Str
  pub sync_provider_local : Str → Option Str
  pub sync_provider_sync : Str → Option Str

-- The tables that `normalize_package` fills: two maps, in which the first value of a key counts, and
-- `aur_downloaded`.
pub record Caches : Type 0 where
  pub pkg_from : List (Str × PkgFrom)
  pub provides_cache : List (Str × Str)
  pub aur_downloaded : List Str

-- `hashmap_search`
unfoldable pub map_search {ℓ} : {A : Type ℓ} → List (Str × A) → Str → Option A
map_search [] key = none
map_search ((k, a) ∷ entries) key = if same_str k key then some a else map_search entries key

-- `hashmap_insert`, for `pkg_from`.
unfoldable pub know : Caches → Str → PkgFrom → Caches
know c name from = record c { pkg_from = c.pkg_from ++ ((name, from) ∷ []) }

unfoldable pub cache_provider : Caches → Str → Str → Caches
cache_provider c name provider = record c {
  provides_cache = c.provides_cache ++ ((name, provider) ∷ []);
}

-- `download` tells whether `dl_extract_single_package` returns 0 for a name.
module _ (t : Tables) (download : Str → Bool) where
  -- From the label search_aur on.
  unfoldable pub search_aur : ResolveLvl → Caches → Str → Caches × Option Str
  unfolding know
  search_aur lvl c pkgname =
      if not (is_thorough lvl) && (t.in_aur pkgname && not (t.outdated pkgname))
      then (c, some pkgname)
      else (if download pkgname
          then (
            know (record c { aur_downloaded = pkgname ∷ c.aur_downloaded }) pkgname aur,
            some pkgname,
          )
          else (c, none))

  -- Behind the search in the local database and in the cache of providers.
  unfoldable pub search_providers : ResolveLvl → Caches → Str → Caches × Option Str
  unfolding search_aur cache_provider
  search_providers lvl c pkgname = elim (t.local_provider pkgname) [
    | some provider ↦ (know (cache_provider c pkgname provider) provider local, some provider)
    | none ↦ elim (t.sync_provider_local pkgname) [
      | some provider ↦ (know c provider local, some provider)
      | none ↦
          if t.in_sync pkgname
          then (know c pkgname sync, some pkgname)
          else (elim (t.sync_provider_sync pkgname) [
            | some provider ↦
                (cache_provider (know c provider sync) pkgname provider, some provider)
            | none ↦ search_aur lvl c pkgname
          ])
    ]
  ]

  unfoldable pub search_unknown : ResolveLvl → Caches → Str → Caches × Option Str
  unfolding search_providers map_search
  search_unknown lvl c pkgname =
      if t.in_local pkgname
      then (if t.in_aur pkgname
          then search_aur lvl c pkgname
          else (know c pkgname local, some pkgname))
      else (elim (map_search c.provides_cache pkgname) [
        | some provider ↦ (c, some provider)
        | none ↦ search_providers lvl c pkgname
      ])

  unfoldable pub normalize_package : ResolveLvl → Caches → Str → Caches × Option Str
  unfolding search_unknown find_str
  normalize_package lvl c pkgname = elim (map_search c.pkg_from pkgname) [
    | none ↦ search_unknown lvl c pkgname
    | some from ↦
        if not (is_aur from) || find_str c.aur_downloaded pkgname
        then (c, some pkgname)
        else search_aur lvl c pkgname
  ]

  -- NULL is not found in `aur_downloaded`, whose entries are names.
  unfoldable pub should_we_continue_resolving :
      ResolveLvl → Caches → List Str → Str → Caches × List Str
  unfolding normalize_package
  should_we_continue_resolving lvl c stack deppkg =
      if is_thorough lvl
      then (c, deppkg ∷ stack)
      else (let r = normalize_package lvl c deppkg in
          elim r.1 [
            | none ↦ (r.0, stack)
            | some pkgname ↦
                (r.0, if find_str r.0.aur_downloaded pkgname then deppkg ∷ stack else stack)
          ])

  -- The list `immediate_deps` with the table `immediate` of the same names.
  unfoldable pub add_deps : List Str → List Str → List Str → List Str × List Str
  unfolding find_str
  add_deps found seen [] = (found, seen)
  add_deps found seen (dep ∷ deps) =
      add_deps (if find_str seen dep then found else found ++ (dep ∷ []))
        (if find_str seen dep then seen else dep ∷ seen) deps

  unfoldable pub add_immediate_deps :
      Caches → Str → List Str → List Str → List Str → List Str × List Str
  unfolding add_deps map_search
  add_immediate_deps c pkgname deps found seen = elim (map_search c.pkg_from pkgname) [
    | none ↦ (found, seen)
    | some from ↦
        if is_aur from && (not (t.in_aur pkgname) || t.outdated pkgname)
        then add_deps found seen deps
        else (found, seen)
  ]
