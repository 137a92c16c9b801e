-- ===== src/Query/Crawl/Stale.antt =====
-- query.c: which dependencies `crawl_resolve` can list without the address of its own array.
use powaur.Base.{
  ◌≡◌, refl, sym, ap, ◌∙◌, Bool, true, false, List, [], ◌∷◌, ◌++◌, Option, some, map, or_else,
}
use powaur.Base.{
  ltb, length, arith, Run, spin, fault, died, ok, inl, inr, ◌⊎◌, Bool-cases, Option-cases, Gives,
}
use mathlib.Core.List.{append-nil, append_assoc}
use powaur.Util.{Str}
use powaur.Download.{path_max}
use powaur.Query.{
  ResolveLvl, Tables, Caches, map_search, chompversion, normalize_package, search_aur, know,
  cache_provider,
}
use powaur.Query.Crawl.{Crawl, failed, stale, resolved, Surroundings, keeps_argument, get_deps}

Gives-map :
    (P Q : Caches × Crawl → Type 0) (run : Run (Caches × Crawl))
    → ((r : Caches × Crawl) → P r → Q r)
    → Gives P run
    → Gives Q run
Gives-map P Q spin f h = tt
Gives-map P Q fault f h = tt
Gives-map P Q died f h = tt
Gives-map P Q (ok r) f h = f r h

module _ (t : Tables) (download : Str → Bool) (o : Surroundings) (lvl : ResolveLvl) where
  -- The provider of a name: the one that is remembered, or the one that is installed for a name that
  -- the sync databases provide.
  abbrev pub taken : List (Str × Str) → Str → Option Str
  taken provides_cache name = or_else (map_search provides_cache name) (t.sync_provider_local name)

  -- No package of that name is installed.
  abbrev pub NoneLocal : List Str → Type 0
  NoneLocal [] = Unit
  NoneLocal (s ∷ depmod_list) = (t.in_local (chompversion s) ≡ false) × NoneLocal depmod_list

  normalize_package-taken :
      (c : Caches) (name depname : Str)
      → keeps_argument t c name ≡ false
      → (normalize_package t download lvl c name).1 ≡ some depname
      → ((normalize_package t download lvl c name).0.provides_cache ≡ c.provides_cache)
        × (taken c.provides_cache name ≡ some depname)
        × (t.in_local name ≡ false)
  unfolding keeps_argument normalize_package or_else
  normalize_package-taken c name depname k e = elim (Option-cases (map_search c.pkg_from name)) [
    | inr (from, m) ↦ absurd (ground (arith, m, k))
    | inl m ↦ elim (Bool-cases (t.in_local name)) [
      | inl n ↦ absurd (ground (arith, m, n, k))
      | inr n ↦ elim (Option-cases (map_search c.provides_cache name)) [
        | inr (p, q) ↦ (ground (arith, m, n, q), ground (arith, m, n, q, e), n)
        | inl q ↦ elim (Option-cases (t.local_provider name)) [
          | inr (p, l) ↦ absurd (ground (arith, m, n, q, l, k))
          | inl l ↦ elim (Option-cases (t.sync_provider_local name)) [
            | inl s ↦ absurd (ground (arith, m, n, q, l, s, k))
            | inr (p, s) ↦ (ground (arith, m, n, q, l, s), ground (arith, m, n, q, l, s, e), n)
          ]
        ]
      ]
    ]
  ]

  search_aur-argument :
      (c : Caches) (name depname : Str)
      → (search_aur t download lvl c name).1 ≡ some depname
      → depname ≡ name
  unfolding search_aur
  search_aur-argument c name depname e = ground (arith, e)

  -- Where `keeps_argument` says so and `normalize_package` finds a package, that is its argument, or
  -- its argument is a key that is put into `provides_cache`.
  normalize_package-kept :
      (c : Caches) (name depname : Str)
      → keeps_argument t c name ≡ true
      → (normalize_package t download lvl c name).1 ≡ some depname
      → (depname ≡ name)
        ⊎ ((normalize_package t download lvl c name).0.provides_cache
            ≡ c.provides_cache ++ ((name, depname) ∷ []))
  unfolding keeps_argument normalize_package cache_provider know
  normalize_package-kept c name depname k e =
      let aur_name = search_aur-argument c name depname in
      elim (Option-cases (map_search c.pkg_from name)) [
        | inr (from, m) ↦ inl (ground (arith, m, e, aur_name))
        | inl m ↦ elim (Bool-cases (t.in_local name)) [
          | inl n ↦ inl (ground (arith, m, n, e, aur_name))
          | inr n ↦ elim (Option-cases (map_search c.provides_cache name)) [
            | inr (p, q) ↦ absurd (ground (arith, m, n, q, k))
            | inl q ↦ elim (Option-cases (t.local_provider name)) [
              | inr (p, l) ↦ inr (ground (arith, m, n, q, l, e))
              | inl l ↦ elim (Option-cases (t.sync_provider_local name)) [
                | inr (p, s) ↦ absurd (ground (arith, m, n, q, l, s, k))
                | inl s ↦ elim (Bool-cases (t.in_sync name)) [
                  | inl y ↦ inl (ground (arith, m, n, q, l, s, y, e))
                  | inr y ↦ elim (Option-cases (t.sync_provider_sync name)) [
                    | inr (p, z) ↦ inr (ground (arith, m, n, q, l, s, y, z, e))
                    | inl z ↦ inl (ground (arith, m, n, q, l, s, y, z, e, aur_name))
                  ]
                ]
              ]
            ]
          ]
        ]
      ]

  abbrev pub Taken : List (Str × Str) → List Str → List (Option Str) → Caches × Crawl → Type 0
  Taken provides_cache depmod_list deps (c, failed) = Unit
  Taken provides_cache depmod_list deps (c, stale) = Unit
  Taken provides_cache depmod_list deps (c, resolved found) =
      (c.provides_cache ≡ provides_cache)
      × NoneLocal depmod_list
      × (found ≡ deps ++ map (λ s. taken provides_cache (chompversion s)) depmod_list)

  more-Taken :
      (provides_cache : List (Str × Str)) (s depname : Str) (depmod_list : List Str)
      (deps : List (Option Str)) (r : Caches × Crawl)
      → taken provides_cache (chompversion s) ≡ some depname
      → t.in_local (chompversion s) ≡ false
      → Taken provides_cache depmod_list (deps ++ (some depname ∷ [])) r
      → Taken provides_cache (s ∷ depmod_list) deps r
  more-Taken provides_cache s depname depmod_list deps (c, failed) e k h = tt
  more-Taken provides_cache s depname depmod_list deps (c, stale) e k h = tt
  more-Taken provides_cache s depname depmod_list deps (c, resolved found) e k h =
      let rest = map (λ x. taken provides_cache (chompversion x)) depmod_list in
      (
        h.0,
        (k, h.1),
        h.2
            ∙ append_assoc deps (some depname ∷ []) rest
            ∙ ap (λ (x : Option Str). deps ++ (x ∷ rest)) (sym e),
      )

  -- Where the loop over the dependencies ends with a list in which there is no address of the array,
  -- no dependency is an installed package by its own name, nothing is added to `provides_cache`, and
  -- behind what was listed before stand, in order, the providers of the dependencies: those that
  -- `provides_cache` has or, for names that are not in it, those of the sync databases that are
  -- installed.
  pub get_deps-Taken :
      (c : Caches) (depmod_list : List Str) (deps : List (Option Str))
      → Gives
          (Taken c.provides_cache depmod_list deps)
          (get_deps t download o lvl c depmod_list deps)
  unfolding get_deps
  get_deps-Taken c [] deps = (refl, tt, sym (append-nil deps))
  get_deps-Taken c (s ∷ depmod_list) deps =
      let r = normalize_package t download lvl c (chompversion s) in
      elim (Bool-cases (ltb (length s) path_max)) [
        | inr e ↦ rw (e, get_deps) tt
        | inl e ↦ elim (Option-cases r.1) [
          | inl k ↦ rw (e, k, get_deps) tt
          | inr (depname, k) ↦ elim (Bool-cases (keeps_argument t c (chompversion s))) [
            | inl n ↦ rw (e, k, n, get_deps) tt
            | inr n ↦
                let (same, found, away) = normalize_package-taken c (chompversion s) depname n k in
                let next = deps ++ (some depname ∷ []) in
                let rest = get_deps-Taken r.0 depmod_list next in
                rw (e, k, n, get_deps)
                  (Gives-map (Taken c.provides_cache depmod_list next)
                    (Taken c.provides_cache (s ∷ depmod_list) deps)
                    (get_deps t download o lvl r.0 depmod_list next)
                    (λ x h. more-Taken c.provides_cache s depname depmod_list deps x found away h)
                    (rw same at rest))
          ]
        ]
      ]
