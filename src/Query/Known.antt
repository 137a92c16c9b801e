-- ===== src/Query/Known.antt =====
-- query.c: `crawl_resolve` asks where a normalized package is from.
use powaur.Base.{
  ◌≡◌, refl, sym, ap, ◌∙◌, Bool, true, not, ◌&&◌, ◌||◌, List, [], ◌∷◌, ◌++◌, Option, none, some,
}
use powaur.Base.{if◌then◌else◌, if-true, arith, inl, inr, Bool-cases, Option-cases}
use mathlib.Core.Path.{subst}
use powaur.Util.{Str, find_str, same_str}
use powaur.Util.Equal.{same_str_eq, same_str_refl}
use powaur.Query.{
  PkgFrom, unknown, local, sync, aur, is_aur, ResolveLvl, is_thorough, Tables, Caches, map_search,
  know, cache_provider, search_aur, search_providers, search_unknown, normalize_package,
}

pub map_search-append {ℓ} :
    {A : Type ℓ} (l : List (Str × A)) (key name : Str) (a : A)
    → map_search (l ++ ((key, a) ∷ [])) name ≡ (elim (map_search l name) [
      | some b ↦ some b
      | none ↦ if same_str key name then some a else none
    ])
unfolding map_search
map_search-append [] key name a = refl
map_search-append ((k, b) ∷ l) key name a = ground (arith, map_search-append l key name a)

-- What the searches for a provider answer is a package of the database that they are in.
pub record Honest (t : Tables) : Type 0 where
  pub local_provider : (name p : Str) → t.local_provider name ≡ some p → t.in_local p ≡ true
  pub sync_provider_local :
      (name p : Str) → t.sync_provider_local name ≡ some p → t.in_local p ≡ true
  pub sync_provider_sync : (name p : Str) → t.sync_provider_sync name ≡ some p → t.in_sync p ≡ true

-- A package is where the map says that it is from.
abbrev pub Sits : Tables → PkgFrom → Str → Type 0
Sits t unknown name = ⊥
Sits t local name = t.in_local name ≡ true
Sits t sync name = t.in_sync name ≡ true
Sits t aur name = Unit {0}

abbrev pub Located : Tables → Caches → Str → Type 0
Located t c name = (from : PkgFrom) × (map_search c.pkg_from name ≡ some from) × Sits t from name

-- What `build_hashdb` sets up and `normalize_package` keeps.
pub record IsLocating (t : Tables) (c : Caches) : Type 0 where
  pub entry :
      (name : Str) (from : PkgFrom) → map_search c.pkg_from name ≡ some from → Sits t from name
  pub of_aur : (name : Str) → t.in_aur name ≡ true → Located t c name
  pub cached : (name p : Str) → map_search c.provides_cache name ≡ some p → Located t c p

-- The caches after a normalization, and where the result is.
abbrev pub Locates : Tables → Caches × Option Str → Type 0
Locates t r = IsLocating t r.0 × ((name : Str) → r.1 ≡ some name → Located t r.0 name)

module _ (t : Tables) where
  Sits-same : (from : PkgFrom) (a b : Str) → same_str a b ≡ true → Sits t from a → Sits t from b
  Sits-same from a b h s = subst (Sits t from) (same_str_eq a b h) s

  Located-know :
      (c : Caches) (name : Str) (from : PkgFrom) (other : Str)
      → Located t c other
      → Located t (know c name from) other
  unfolding know
  Located-know c name from other (f, e, s) =
      (f, ground (arith, map_search-append c.pkg_from name other from, e), s)

  -- What the map knows of a name after an insertion.
  know-entry :
      (c : Caches) (name : Str) (from : PkgFrom) (other : Str) (f : PkgFrom)
      → IsLocating t c
      → Sits t from name
      → map_search (know c name from).pkg_from other ≡ some f
      → Sits t f other
  unfolding know
  know-entry c name from other f v s h = elim (Option-cases (map_search c.pkg_from other)) [
    | inr (g, e) ↦
        let same : g ≡ f = ground (arith, h, e, map_search-append c.pkg_from name other from) in
        v.entry other f (e ∙ ap some same)
    | inl e ↦ elim (Bool-cases (same_str name other)) [
      | inl k ↦
          let same : from ≡ f =
            ground (arith, h, e, k, map_search-append c.pkg_from name other from) in
          subst (λ (g : PkgFrom). Sits t g other) same (Sits-same from name other k s)
      | inr k ↦ absurd (ground (arith, h, e, k, map_search-append c.pkg_from name other from))
    ]
  ]

  know-Located :
      (c : Caches) (name : Str) (from : PkgFrom)
      → IsLocating t c
      → Sits t from name
      → Located t (know c name from) name
  unfolding know
  know-Located c name from v s = elim (Option-cases (map_search c.pkg_from name)) [
    | inr (f, e) ↦ Located-know c name from name (f, e, v.entry name f e)
    | inl e ↦ (
      from,
      ground (arith, e, map_search-append c.pkg_from name name from, same_str_refl name),
      s,
    )
  ]

  know-IsLocating :
      (c : Caches) (name : Str) (from : PkgFrom)
      → IsLocating t c
      → Sits t from name
      → IsLocating t (know c name from)
  know-IsLocating c name from v s = record {
    entry = λ other f h. know-entry c name from other f v s h;
    of_aur = λ other h. Located-know c name from other (v.of_aur other h);
    cached = λ other p h. Located-know c name from p (v.cached other p (unfold know in h));
  }

  cache-IsLocating :
      (c : Caches) (name p : Str)
      → IsLocating t c
      → Located t c p
      → IsLocating t (cache_provider c name p)
  unfolding cache_provider
  cache-IsLocating c name p v l = record {
    entry = v.entry;
    of_aur = v.of_aur;
    cached = λ other q h. elim (Option-cases (map_search c.provides_cache other)) [
      | inr (g, e) ↦
          let same : g ≡ q =
            ground (arith, h, e, map_search-append c.provides_cache name other p) in
          v.cached other q (e ∙ ap some same)
      | inl e ↦ elim (Bool-cases (same_str name other)) [
        | inl k ↦
            let same : p ≡ q =
              ground (arith, h, e, k, map_search-append c.provides_cache name other p) in
            subst (Located t c) same l
        | inr k ↦ absurd (ground (arith, h, e, k, map_search-append c.provides_cache name other p))
      ]
    ];
  }

  found_one :
      (c : Caches) (name : Str) → IsLocating t c → Located t c name → Locates t (c, some name)
  found_one c name v l =
      (v, λ other h. let same : name ≡ other = ground (arith, h) in subst (Located t c) same l)

  found_new :
      (c : Caches) (name : Str) (from : PkgFrom)
      → IsLocating t c
      → Sits t from name
      → Locates t (know c name from, some name)
  found_new c name from v s =
      found_one (know c name from) name (know-IsLocating c name from v s)
        (know-Located c name from v s)

  module _ (download : Str → Bool) (h : Honest t) where
    search_aur-Locates :
        (lvl : ResolveLvl) (c : Caches) (name : Str)
        → IsLocating t c
        → Locates t (search_aur t download lvl c name)
    unfolding search_aur
    search_aur-Locates lvl c name v =
        elim (Bool-cases (not (is_thorough lvl) && (t.in_aur name && not (t.outdated name)))) [
          | inl e ↦ rw e (found_one c name v (v.of_aur name (ground (arith, e))))
          | inr e ↦ elim (Bool-cases (download name)) [
            | inl k ↦
                rw (e, k)
                  (found_new (record c { aur_downloaded = name ∷ c.aur_downloaded }) name aur
                    (record { entry = v.entry; of_aur = v.of_aur; cached = v.cached }) tt)
            | inr k ↦ rw (e, k) (v, λ other m. absurd (cc m))
          ]
        ]

    search_providers-Locates :
        (lvl : ResolveLvl) (c : Caches) (name : Str)
        → IsLocating t c
        → Locates t (search_providers t download lvl c name)
    unfolding search_providers
    search_providers-Locates lvl c name v = elim (Option-cases (t.local_provider name)) [
      | inr (p, e) ↦
          let here = h.local_provider name p e in
          let l = know-Located c p local v here in
          let cached : IsLocating t (know (cache_provider c name p) p local) =
            unfold know cache_provider in
            cache-IsLocating (know c p local) name p (know-IsLocating c p local v here) l in
          rw (e, search_providers)
            (found_one (know (cache_provider c name p) p local) p cached
              (unfold know cache_provider in l))
      | inl e ↦ elim (Option-cases (t.sync_provider_local name)) [
        | inr (p, k) ↦
            rw (e, k, search_providers) (found_new c p local v (h.sync_provider_local name p k))
        | inl k ↦ elim (Bool-cases (t.in_sync name)) [
          | inl m ↦ rw (e, k, m, search_providers) (found_new c name sync v m)
          | inr m ↦ elim (Option-cases (t.sync_provider_sync name)) [
            | inr (p, n) ↦
                let here = h.sync_provider_sync name p n in
                let l = know-Located c p sync v here in
                rw (e, k, m, n, search_providers)
                  (found_one (cache_provider (know c p sync) name p) p
                    (cache-IsLocating (know c p sync) name p (know-IsLocating c p sync v here) l)
                    (unfold cache_provider in l))
            | inl n ↦ rw (e, k, m, n, search_providers) (search_aur-Locates lvl c name v)
          ]
        ]
      ]
    ]

    search_unknown-Locates :
        (lvl : ResolveLvl) (c : Caches) (name : Str)
        → IsLocating t c
        → Locates t (search_unknown t download lvl c name)
    unfolding search_unknown
    search_unknown-Locates lvl c name v = elim (Bool-cases (t.in_local name)) [
      | inl e ↦ elim (Bool-cases (t.in_aur name)) [
        | inl k ↦
            subst (Locates t) (sym (if-true _ _ e ∙ if-true _ _ k))
              (search_aur-Locates lvl c name v)
        | inr k ↦ rw (e, k) (found_new c name local v e)
      ]
      | inr e ↦ elim (Option-cases (map_search c.provides_cache name)) [
        | inr (p, k) ↦ rw (e, k, search_unknown) (found_one c p v (v.cached name p k))
        | inl k ↦ rw (e, k, search_unknown) (search_providers-Locates lvl c name v)
      ]
    ]

    -- The caches stay such that the map knows each package of the AUR table and each cached provider,
    -- and knows of no package that it is where it is not; and the package that `normalize_package`
    -- returns, if it returns one, is known to be from the AUR, or from the local or a sync database
    -- that does have it, so that `crawl_resolve` does not die over it. This supposes that a search
    -- for a provider finds packages of its own database.
    pub normalize_package-Locates :
        (lvl : ResolveLvl) (c : Caches) (name : Str)
        → IsLocating t c
        → Locates t (normalize_package t download lvl c name)
    unfolding normalize_package
    normalize_package-Locates lvl c name v = elim (Option-cases (map_search c.pkg_from name)) [
      | inl e ↦ rw (e, normalize_package) (search_unknown-Locates lvl c name v)
      | inr (f, e) ↦ elim (Bool-cases (not (is_aur f) || find_str c.aur_downloaded name)) [
        | inl k ↦ rw (e, normalize_package, k) (found_one c name v (f, e, v.entry name f e))
        | inr k ↦ rw (e, normalize_package, k) (search_aur-Locates lvl c name v)
      ]
    ]
