-- ===== src/Query/Crawl/Within.antt =====
-- query.c: what `crawl_resolve` lists is among the names of the databases and of the PKGBUILDs.
use powaur.Base.{
  ℕ, ◌≡◌, refl, sym, ap, ◌∙◌, Bool, true, not, ◌&&◌, ◌||◌, List, [], ◌∷◌, ◌++◌, Option, none, some,
}
use powaur.Base.{ltb, length, arith, inl, inr, Bool-cases, Option-cases, Finishes, >>=-Finishes}
use powaur.Util.{Str, find_str, same_str}
use powaur.Util.Equal.{same_str_eq, same_str_refl}
use powaur.Download.{path_max}
use powaur.Package.Pkgbuild.{grab_dependencies}
use powaur.Query.{
  PkgFrom, unknown, local, sync, aur, ResolveLvl, is_thorough, Tables, Caches, map_search,
  chompversion, normalize_package,
}
use powaur.Query.Crawl.{
  Crawl, failed, stale, resolved, Surroundings, keeps_argument, get_deps, normalize_deps,
  read_pkgbuild, aur_deps, crawl_from, crawl_resolve, dep_names,
}
use powaur.Query.Crawl.Universe.{Among, IsUniverse, Cached, Names, normalize_package-Names}

names-append :
    (deps : List (Option Str)) (x : Option Str) (name : Str)
    → find_str (dep_names (deps ++ (x ∷ []))) name
      ≡ (find_str (dep_names deps) name || find_str (dep_names (x ∷ [])) name)
unfolding find_str
names-append [] x name = refl
names-append (none ∷ deps) x name = names-append deps x name
names-append (some y ∷ deps) x name = ground (arith, names-append deps x name)

module _ (t : Tables) (download : Str → Bool) (o : Surroundings) (lvl : ResolveLvl) (size : ℕ)
    (all : List Str) (u : IsUniverse t o size all) where
  abbrev pub Within : Caches × Crawl → Type 0
  Within (c, failed) = Cached all c
  Within (c, stale) = Cached all c
  Within (c, resolved deps) = Cached all c × Among all (dep_names deps)

  pub Names-Cached :
      (r : Caches × Option Str) → Names t download o lvl size all u r → Cached all r.0
  Names-Cached (c, none) v = v
  Names-Cached (c, some name) v = v.0

  add-Among :
      (r : Caches × Option Str) (deps : List (Option Str))
      → Names t download o lvl size all u r
      → Among all (dep_names deps)
      → Among all (dep_names (deps ++ (r.1 ∷ [])))
  unfolding find_str
  add-Among (c, none) deps v a name h = ground (arith, h, names-append deps none name, a name)
  add-Among (c, some x) deps v a name h = elim (Bool-cases (same_str x name)) [
    | inl e ↦ ap (find_str all) (sym (same_str_eq x name e)) ∙ v.1
    | inr e ↦ ground (arith, h, e, names-append deps (some x) name, a name)
  ]

  get_deps-Within :
      (c : Caches) (depmod_list : List Str) (deps : List (Option Str))
      → Cached all c
      → ((s : Str) → find_str depmod_list s ≡ true → find_str all (chompversion s) ≡ true)
      → Among all (dep_names deps)
      → Finishes Within (get_deps t download o lvl c depmod_list deps)
  unfolding get_deps find_str
  get_deps-Within c [] deps v m a = (v, a)
  get_deps-Within c (s ∷ depmod_list) deps v m a =
      let r = normalize_package t download lvl c (chompversion s) in
      let w =
        normalize_package-Names t download o lvl size all u c (chompversion s) v
          (m s (ground (arith, same_str_refl s))) in
      let kept = Names-Cached r w in
      elim (Bool-cases (ltb (length s) path_max)) [
        | inr e ↦ rw (e, get_deps) tt
        | inl e ↦ elim (Option-cases r.1) [
          | inl k ↦ rw (e, k, get_deps) kept
          | inr (depname, k) ↦ elim (Bool-cases (keeps_argument t c (chompversion s))) [
            | inl n ↦ rw (e, k, n, get_deps) kept
            | inr n ↦
                let more = add-Among r deps w a in
                rw (e, k, n, get_deps)
                  (get_deps-Within r.0 depmod_list (deps ++ (some depname ∷ [])) kept
                    (λ x h. m x (ground (arith, h))) (rw k at more))
          ]
        ]
      ]

  normalize_deps-Within :
      (c : Caches) (deps : List Str) (new_deps : List (Option Str))
      → Cached all c
      → Among all deps
      → Among all (dep_names new_deps)
      → Within (
        (normalize_deps t download o lvl c deps new_deps).0,
        resolved (normalize_deps t download o lvl c deps new_deps).1,
      )
  unfolding normalize_deps find_str
  normalize_deps-Within c [] new_deps v m a = (v, a)
  normalize_deps-Within c (dep ∷ deps) new_deps v m a =
      let r = normalize_package t download lvl c dep in
      let w =
        normalize_package-Names t download o lvl size all u c dep v
          (m dep (ground (arith, same_str_refl dep))) in
      normalize_deps-Within r.0 deps (new_deps ++ (r.1 ∷ [])) (Names-Cached r w)
        (λ x h. m x (ground (arith, h))) (add-Among r new_deps w a)

  read_pkgbuild-Within :
      (c : Caches) (name : Str)
      → Cached all c
      → Finishes Within (read_pkgbuild t download o lvl size c name)
  unfolding read_pkgbuild find_str
  read_pkgbuild-Within c name v = elim (Bool-cases o.getcwd) [
    | inr e ↦ rw e v
    | inl e ↦ elim (Option-cases (o.enter name)) [
      | inl k ↦ rw (e, k) v
      | inr (file, k) ↦
          rw (e, k)
            (>>=-Finishes (Among all) Within (grab_dependencies size file) _ (u.grabbed name file k)
              (λ deps a. elim (Bool-cases o.restore) [
                | inr n ↦ rw n v
                | inl n ↦ rw n (normalize_deps-Within c deps [] v a (λ x h. absurd (cc h)))
              ]))
    ]
  ]

  nothing-Among : Among all (dep_names [])
  unfolding find_str
  nothing-Among name h = absurd (cc h)

  aur_deps-Within :
      (c : Caches) (name : Str)
      → Cached all c
      → Finishes Within (aur_deps t download o lvl size c name)
  unfolding aur_deps
  aur_deps-Within c name v =
      elim (Bool-cases (not (is_thorough lvl) && (t.in_aur name && not (t.outdated name)))) [
        | inl e ↦
            rw e (get_deps-Within c (o.aur_depends name) [] v (u.aur_depends name) nothing-Among)
        | inr e ↦ rw e (read_pkgbuild-Within c name v)
      ]

  crawl_from-Within :
      (c : Caches) (name : Str) (from : PkgFrom)
      → Cached all c
      → Finishes Within (crawl_from t download o lvl size c name from)
  unfolding crawl_from
  crawl_from-Within c name unknown v = aur_deps-Within c name v
  crawl_from-Within c name aur v = aur_deps-Within c name v
  crawl_from-Within c name local v = elim (Bool-cases (t.in_local name)) [
    | inl e ↦
        rw e (get_deps-Within c (o.local_depends name) [] v (u.local_depends name) nothing-Among)
    | inr e ↦ rw e tt
  ]
  crawl_from-Within c name sync v = elim (Bool-cases (t.in_sync name)) [
    | inl e ↦
        rw e (get_deps-Within c (o.sync_depends name) [] v (u.sync_depends name) nothing-Among)
    | inr e ↦ rw e tt
  ]

  pub crawl_resolve-Within :
      (c : Caches) (name : Str)
      → Cached all c
      → find_str all name ≡ true
      → Finishes Within (crawl_resolve t download o lvl size c name)
  unfolding crawl_resolve
  crawl_resolve-Within c name v m =
      let r = normalize_package t download lvl c name in
      let kept = Names-Cached r (normalize_package-Names t download o lvl size all u c name v m) in
      elim (Option-cases r.1) [
        | inl e ↦ rw (e, crawl_resolve) kept
        | inr (final, e) ↦ elim (Option-cases (map_search r.0.pkg_from final)) [
          | inl k ↦ rw (e, k, crawl_resolve) tt
          | inr (from, k) ↦ rw (e, k, crawl_resolve) (crawl_from-Within r.0 final from kept)
        ]
      ]
