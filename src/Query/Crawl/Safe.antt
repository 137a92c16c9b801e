-- ===== src/Query/Crawl/Safe.antt =====
-- query.c: `crawl_resolve` finds the package that it was told where to find.
use powaur.Base.{ℕ, ◌≡◌, ◌≢◌, Bool, not, ◌&&◌, List, [], ◌∷◌, Option, some}
use powaur.Base.{
  ltb, length, inl, inr, Bool-cases, Option-cases, died, Safe, alive-Safe, >>=-Safe, alive-Safe,
}
use powaur.Util.{Str}
use powaur.Download.{path_max}
use powaur.Package.Arrays.{File}
use powaur.Package.Pkgbuild.{grab_dependencies}
use powaur.Query.{
  PkgFrom, local, sync, aur, unknown, ResolveLvl, is_thorough, Tables, Caches, chompversion,
  normalize_package,
}
use powaur.Query.Known.{Honest, IsLocating, Sits, normalize_package-Locates}
use powaur.Query.Crawl.{
  Crawl, Surroundings, keeps_argument, get_deps, normalize_deps, read_pkgbuild, aur_deps,
  crawl_from, crawl_resolve,
}

module _ (t : Tables) (download : Str → Bool) (h : Honest t) (o : Surroundings)
    (lvl : ResolveLvl) where
  abbrev pub Kept : Caches × Crawl → Type 0
  Kept r = IsLocating t r.0

  get_deps-Safe :
      (c : Caches) (depmod_list : List Str) (deps : List (Option Str))
      → IsLocating t c
      → Safe Kept (get_deps t download o lvl c depmod_list deps)
  unfolding get_deps
  get_deps-Safe c [] deps v = v
  get_deps-Safe c (s ∷ depmod_list) deps v =
      let r = normalize_package t download lvl c (chompversion s) in
      let w = normalize_package-Locates t download h lvl c (chompversion s) v in
      elim (Bool-cases (ltb (length s) path_max)) [
        | inr e ↦ rw (e, get_deps) tt
        | inl e ↦ elim (Option-cases r.1) [
          | inl k ↦ rw (e, k, get_deps) w.0
          | inr (depname, k) ↦ elim (Bool-cases (keeps_argument t c (chompversion s))) [
            | inl m ↦ rw (e, k, m, get_deps) w.0
            | inr m ↦ rw (e, k, m, get_deps) (get_deps-Safe r.0 depmod_list _ w.0)
          ]
        ]
      ]

  normalize_deps-IsLocating :
      (c : Caches) (deps : List Str) (new_deps : List (Option Str))
      → IsLocating t c
      → IsLocating t (normalize_deps t download o lvl c deps new_deps).0
  unfolding normalize_deps
  normalize_deps-IsLocating c [] new_deps v = v
  normalize_deps-IsLocating c (dep ∷ deps) new_deps v =
      normalize_deps-IsLocating (normalize_package t download lvl c dep).0 deps _
        (normalize_package-Locates t download h lvl c dep v).0

  module _ (size : ℕ)
      (readable : (name : Str) (file : Option File)
        → o.enter name ≡ some file
        → grab_dependencies size file ≢ died) where
    read_pkgbuild-Safe :
        (c : Caches) (final_pkgname : Str)
        → IsLocating t c
        → Safe Kept (read_pkgbuild t download o lvl size c final_pkgname)
    unfolding read_pkgbuild
    read_pkgbuild-Safe c final_pkgname v = elim (Bool-cases o.getcwd) [
      | inr e ↦ rw e v
      | inl e ↦ elim (Option-cases (o.enter final_pkgname)) [
        | inl k ↦ rw (e, k) v
        | inr (file, k) ↦
            let read : Safe (λ (deps : List Str). Unit {0}) (grab_dependencies size file) =
              alive-Safe (grab_dependencies size file) (readable final_pkgname file k) in
            rw (e, k)
              (>>=-Safe (λ deps. Unit {0}) Kept (grab_dependencies size file) _ read
                (λ deps u. elim (Bool-cases o.restore) [
                  | inr m ↦ rw m v
                  | inl m ↦ rw m (normalize_deps-IsLocating c deps [] v)
                ]))
      ]
    ]

    aur_deps-Safe :
        (c : Caches) (final_pkgname : Str)
        → IsLocating t c
        → Safe Kept (aur_deps t download o lvl size c final_pkgname)
    unfolding aur_deps
    aur_deps-Safe c final_pkgname v =
        elim (Bool-cases
          (not (is_thorough lvl) && (t.in_aur final_pkgname && not (t.outdated final_pkgname)))) [
            | inl e ↦ rw e (get_deps-Safe c (o.aur_depends final_pkgname) [] v)
            | inr e ↦ rw e (read_pkgbuild-Safe c final_pkgname v)
          ]

    crawl_from-Safe :
        (c : Caches) (final_pkgname : Str) (from : PkgFrom)
        → IsLocating t c
        → Sits t from final_pkgname
        → Safe Kept (crawl_from t download o lvl size c final_pkgname from)
    unfolding crawl_from
    crawl_from-Safe c name unknown v s = elim s [ ]
    crawl_from-Safe c name local v s = rw s (get_deps-Safe c (o.local_depends name) [] v)
    crawl_from-Safe c name sync v s = rw s (get_deps-Safe c (o.sync_depends name) [] v)
    crawl_from-Safe c name aur v s = aur_deps-Safe c name v

    -- Where the caches are right, `crawl_resolve` never dies over a package that `pkg_from` or a table
    -- does not have, and it leaves the caches right. This supposes that a search for a provider finds
    -- packages of its own database, and that the reading of a PKGBUILD does not die.
    pub crawl_resolve-Safe :
        (c : Caches) (pkgname : Str)
        → IsLocating t c
        → Safe Kept (crawl_resolve t download o lvl size c pkgname)
    unfolding crawl_resolve
    crawl_resolve-Safe c pkgname v =
        let r = normalize_package t download lvl c pkgname in
        let w = normalize_package-Locates t download h lvl c pkgname v in
        elim (Option-cases r.1) [
          | inl e ↦ rw (e, crawl_resolve) w.0
          | inr (name, e) ↦
              let (from, k, s) = w.1 name e in
              rw (e, k, crawl_resolve) (crawl_from-Safe r.0 name from w.0 s)
        ]
