-- ===== src/Query/Crawl/Universe.antt =====
-- query.c: the names that `crawl_resolve` can come to, where those of the databases and of the
-- PKGBUILDs are among finitely many.
use powaur.Base.{ℕ, ◌≡◌, sym, ap, ◌∙◌, Bool, true, not, ◌&&◌, ◌||◌, List, Option, none, some}
use powaur.Base.{if-true, arith, inl, inr, Bool-cases, Option-cases, Finishes}
use mathlib.Core.Path.{subst}
use powaur.Util.{Str, find_str, same_str}
use powaur.Package.Arrays.{File}
use powaur.Package.Pkgbuild.{grab_dependencies}
use powaur.Query.{
  sync, is_aur, ResolveLvl, is_thorough, Tables, Caches, map_search, chompversion, know,
  cache_provider, search_aur, search_providers, search_unknown, normalize_package,
}
use powaur.Query.Known.{map_search-append}
use powaur.Query.Crawl.{Surroundings}

-- Each name of the one list is in the other.
abbrev pub Among : List Str → List Str → Type 0
Among all list = (name : Str) → find_str list name ≡ true → find_str all name ≡ true

-- The names that come from outside.
pub record IsUniverse (t : Tables) (o : Surroundings) (size : ℕ) (all : List Str) : Type 0 where
  pub local_provider : (name p : Str) → t.local_provider name ≡ some p → find_str all p ≡ true
  pub sync_provider_local :
      (name p : Str) → t.sync_provider_local name ≡ some p → find_str all p ≡ true
  pub sync_provider_sync :
      (name p : Str) → t.sync_provider_sync name ≡ some p → find_str all p ≡ true
  pub local_depends :
      (name s : Str)
      → find_str (o.local_depends name) s ≡ true
      → find_str all (chompversion s) ≡ true
  pub sync_depends :
      (name s : Str)
      → find_str (o.sync_depends name) s ≡ true
      → find_str all (chompversion s) ≡ true
  pub aur_depends :
      (name s : Str) → find_str (o.aur_depends name) s ≡ true → find_str all (chompversion s) ≡ true
  pub grabbed :
      (name : Str) (file : Option File)
      → o.enter name ≡ some file
      → Finishes (Among all) (grab_dependencies size file)

-- The cached providers are such names.
abbrev pub Cached : List Str → Caches → Type 0
Cached all c = (name p : Str) → map_search c.provides_cache name ≡ some p → find_str all p ≡ true

module _ (t : Tables) (download : Str → Bool) (o : Surroundings) (lvl : ResolveLvl) (size : ℕ)
    (all : List Str) (u : IsUniverse t o size all) where
  -- The caches and the name that a normalization gives.
  abbrev pub Names : Caches × Option Str → Type 0
  Names (c, none) = Cached all c
  Names (c, some name) = Cached all c × (find_str all name ≡ true)

  cache-Cached :
      (c : Caches) (name p : Str)
      → Cached all c
      → find_str all p ≡ true
      → Cached all (cache_provider c name p)
  unfolding cache_provider
  cache-Cached c name p v m other q h = elim (Option-cases (map_search c.provides_cache other)) [
    | inr (g, e) ↦
        let same : g ≡ q = ground (arith, h, e, map_search-append c.provides_cache name other p) in
        v other q (e ∙ ap some same)
    | inl e ↦ elim (Bool-cases (same_str name other)) [
      | inl k ↦
          let same : p ≡ q =
            ground (arith, h, e, k, map_search-append c.provides_cache name other p) in
          ap (find_str all) (sym same) ∙ m
      | inr k ↦ absurd (ground (arith, h, e, k, map_search-append c.provides_cache name other p))
    ]
  ]

  search_aur-Names :
      (c : Caches) (name : Str)
      → Cached all c
      → find_str all name ≡ true
      → Names (search_aur t download lvl c name)
  unfolding search_aur know
  search_aur-Names c name v m =
      elim (Bool-cases (not (is_thorough lvl) && (t.in_aur name && not (t.outdated name)))) [
        | inl e ↦ rw e (v, m)
        | inr e ↦ elim (Bool-cases (download name)) [
          | inl k ↦ rw (e, k) (v, m)
          | inr k ↦ rw (e, k) v
        ]
      ]

  search_providers-Names :
      (c : Caches) (name : Str)
      → Cached all c
      → find_str all name ≡ true
      → Names (search_providers t download lvl c name)
  unfolding search_providers know
  search_providers-Names c name v m = elim (Option-cases (t.local_provider name)) [
    | inr (p, e) ↦
        let known = u.local_provider name p e in
        rw (e, search_providers) (cache-Cached c name p v known, known)
    | inl e ↦ elim (Option-cases (t.sync_provider_local name)) [
      | inr (p, k) ↦ rw (e, k, search_providers) (v, u.sync_provider_local name p k)
      | inl k ↦ elim (Bool-cases (t.in_sync name)) [
        | inl n ↦ rw (e, k, n, search_providers) (v, m)
        | inr n ↦ elim (Option-cases (t.sync_provider_sync name)) [
          | inr (p, q) ↦
              let known = u.sync_provider_sync name p q in
              rw (e, k, n, q, search_providers) (cache-Cached (know c p sync) name p v known, known)
          | inl q ↦ rw (e, k, n, q, search_providers) (search_aur-Names c name v m)
        ]
      ]
    ]
  ]

  search_unknown-Names :
      (c : Caches) (name : Str)
      → Cached all c
      → find_str all name ≡ true
      → Names (search_unknown t download lvl c name)
  unfolding search_unknown know
  search_unknown-Names c name v m = elim (Bool-cases (t.in_local name)) [
    | inl e ↦ elim (Bool-cases (t.in_aur name)) [
      | inl k ↦ subst Names (sym (if-true _ _ e ∙ if-true _ _ k)) (search_aur-Names c name v m)
      | inr k ↦ rw (e, k) (v, m)
    ]
    | inr e ↦ elim (Option-cases (map_search c.provides_cache name)) [
      | inr (p, k) ↦ rw (e, k, search_unknown) (v, v name p k)
      | inl k ↦ rw (e, k, search_unknown) (search_providers-Names c name v m)
    ]
  ]

  pub normalize_package-Names :
      (c : Caches) (name : Str)
      → Cached all c
      → find_str all name ≡ true
      → Names (normalize_package t download lvl c name)
  unfolding normalize_package
  normalize_package-Names c name v m = elim (Option-cases (map_search c.pkg_from name)) [
    | inl e ↦ rw (e, normalize_package) (search_unknown-Names c name v m)
    | inr (f, e) ↦ elim (Bool-cases (not (is_aur f) || find_str c.aur_downloaded name)) [
      | inl k ↦ rw (e, normalize_package, k) (v, m)
      | inr k ↦ rw (e, normalize_package, k) (search_aur-Names c name v m)
    ]
  ]
