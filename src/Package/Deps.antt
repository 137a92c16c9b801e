-- ===== src/Package/Deps.antt =====
-- package.c: what `resolve_dependencies` puts into its list.
use powaur.Base.{
  ℕ, ◌≡◌, refl, sym, ap, Bool, true, false, not, ◌&&◌, ◌||◌, List, [], ◌∷◌, ◌++◌, Option,
}
use powaur.Base.{if◌then◌else◌, ok, >>=-ok, arith, inl, inr, Bool-cases}
use powaur.Util.{Str, find_str, same_str}
use powaur.Util.Equal.{same_str_eq, same_str_refl}
use powaur.Package.Arrays.{File}
use powaur.Package.Pkgbuild.{grab_dependencies}
use powaur.Package.Resolve.{
  Known, needs_no_download, pkgbuild_path, add_newdeps, resolve_from, resolve_dependencies,
}

-- No name stands twice.
abbrev pub Distinct : List Str → Type 0
Distinct [] = Unit {0}
Distinct (name ∷ list) = (find_str list name ≡ false) × Distinct list

-- The dependencies of the packages, one behind the other, as the files give them.
abbrev pub Grabbed : ℕ → (Str → Option File) → List Str → List Str → Type 0
Grabbed size open_file [] all = all ≡ []
Grabbed size open_file (pkgname ∷ packages) all =
    (deps : List Str) × (rest : List Str) × (grab_dependencies size
        (open_file (pkgbuild_path pkgname))
      ≡ ok deps)
    × Grabbed size open_file packages rest
    × (all ≡ deps ++ rest)

find_str-append :
    (list more : List Str) (name : Str)
    → find_str (list ++ more) name ≡ (find_str list name || find_str more name)
unfolding find_str
find_str-append [] more name = refl
find_str-append (x ∷ list) more name = ground (arith, find_str-append list more name)

same_str-sym : (a b : Str) → same_str a b ≡ false → same_str b a ≡ false
same_str-sym a b h = elim (Bool-cases (same_str b a)) [
  | inr e ↦ e
  | inl e ↦
      let same = same_str_eq b a e in
      ground (arith, h, same_str_refl a, ap (λ (s : Str). same_str a s) same)
]

Distinct-append :
    (list : List Str) (name : Str)
    → Distinct list
    → find_str list name ≡ false
    → Distinct (list ++ (name ∷ []))
unfolding find_str
Distinct-append [] name d h = (refl, tt)
Distinct-append (x ∷ list) name d h =
    let apart : same_str name x ≡ false = same_str-sym x name (ground (arith, h)) in
    let found = find_str-append list (name ∷ []) x in
    (ground (arith, found, apart, d.0), Distinct-append list name d.1 (ground (arith, h)))

-- What a list has after the loop: what it had, and the dependencies that are to be downloaded.
record Collects (known : Known) (before deps after : List Str) : Type 0 where
  distinct : Distinct before → Distinct after
  names :
      (name : Str)
      → find_str after name
        ≡ (find_str before name || (find_str deps name && not (needs_no_download known name)))

known-same :
    (known : Known) (a b : Str)
    → same_str a b ≡ true
    → needs_no_download known a ≡ needs_no_download known b
known-same known a b h = ap (needs_no_download known) (same_str_eq a b h)

find_str-same :
    (list : List Str) (a b : Str) → same_str a b ≡ true → find_str list a ≡ find_str list b
find_str-same list a b h = ap (find_str list) (same_str_eq a b h)

add_one :
    (known : Known) (newdeps : List Str) (name : Str)
    → Collects known newdeps (name ∷ []) (
        if find_str newdeps name || needs_no_download known name
        then newdeps
        else newdeps ++ (name ∷ []))
unfolding find_str
add_one known newdeps name =
    elim (Bool-cases (find_str newdeps name || needs_no_download known name)) [
      | inl e ↦ rw e (record {
        distinct = λ d. d;
        names = λ other. elim (Bool-cases (same_str name other)) [
          | inl k ↦
              ground
                (arith, e, k, known-same known name other k, find_str-same newdeps name other k)
          | inr k ↦ ground (arith, k)
        ];
      })
      | inr e ↦ rw e (record {
        distinct = λ d. Distinct-append newdeps name d (ground (arith, e));
        names = λ other. elim (Bool-cases (same_str name other)) [
          | inl k ↦ ground (
            arith,
            e,
            k,
            known-same known name other k,
            find_str-append newdeps (name ∷ []) other,
          )
          | inr k ↦ ground (arith, k, find_str-append newdeps (name ∷ []) other)
        ];
      })
    ]

Collects-trans :
    (known : Known) (a b c deps more : List Str)
    → Collects known a deps b
    → Collects known b more c
    → Collects known a (deps ++ more) c
Collects-trans known a b c deps more p q = record {
  distinct = λ d. q.distinct (p.distinct d);
  names = λ name. ground (arith, p.names name, q.names name, find_str-append deps more name);
}

module _ (alpm_list_find_str : List Str → Str → Bool)
    (finds : (list : List Str) (name : Str) → alpm_list_find_str list name ≡ find_str list name)
    (known : Known) where
  add_newdeps-Collects :
      (deps newdeps : List Str)
      → Collects known newdeps deps (add_newdeps alpm_list_find_str known newdeps deps)
  unfolding add_newdeps
  add_newdeps-Collects [] newdeps = record {
    distinct = λ d. d;
    names = λ name. unfold find_str in ground arith;
  }
  add_newdeps-Collects (name ∷ deps) newdeps = rw (finds newdeps name) (
      Collects-trans known newdeps _ _ (name ∷ []) deps (add_one known newdeps name)
        (add_newdeps-Collects deps _))

  module _ (size : ℕ) (open_file : Str → Option File) where
    resolve_from-Collects :
        (packages newdeps result : List Str)
        → resolve_from alpm_list_find_str known size open_file newdeps packages ≡ ok result
        → (all : List Str) × Grabbed size open_file packages all × Collects known newdeps all result
    unfolding resolve_from
    resolve_from-Collects [] newdeps result h =
        let same : newdeps ≡ result = ground (arith, h) in
        ([], refl, rw (sym same) (add_newdeps-Collects [] newdeps))
    resolve_from-Collects (pkgname ∷ packages) newdeps result h =
        let (deps, grabbed, more) =
          >>=-ok (grab_dependencies size (open_file (pkgbuild_path pkgname)))
            (λ (deps : List Str).
              resolve_from alpm_list_find_str known size open_file
                (add_newdeps alpm_list_find_str known newdeps deps) packages)
            result h in
        let (rest, got, collects) =
          resolve_from-Collects packages (add_newdeps alpm_list_find_str known newdeps deps) result
            more in
        (
          deps ++ rest,
          (deps, rest, grabbed, got, refl),
          Collects-trans known newdeps _ _ deps rest (add_newdeps-Collects deps newdeps) collects,
        )

    -- Where the reading of the files ends, `resolve_dependencies` lists no name twice, and it lists
    -- exactly the names among the dependencies of the packages that are not installed, not in a sync
    -- database, not provided by a package of either, and whose file is not in the directory. This
    -- supposes that `alpm_list_find_str` finds the strings that are in its list, and no others.
    pub resolve_dependencies-Distinct :
        (packages result : List Str)
        → resolve_dependencies alpm_list_find_str known size open_file packages ≡ ok result
        → Distinct result
          × ((all : List Str) × Grabbed size open_file packages all
              × ((name : Str)
                  → find_str result name
                    ≡ (find_str all name && not (needs_no_download known name))))
    unfolding resolve_dependencies
    resolve_dependencies-Distinct packages result h =
        let (all, got, c) = resolve_from-Collects packages [] result h in
        (c.distinct tt, (all, got, λ name. unfold find_str in c.names name))
