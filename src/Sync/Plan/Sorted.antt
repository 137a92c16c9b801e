-- ===== src/Sync/Plan/Sorted.antt =====
-- sync.c: the targets of -S that are upgraded, told by the versions and not by the lists of the code.
use powaur.Base.{
  ◌≡◌, refl, sym, ap, ◌∙◌, Bool, true, false, ◌&&◌, ◌||◌, List, [], ◌∷◌, ◌++◌, Option, none, some,
  Ordering,
}
use powaur.Base.{if◌then◌else◌, arith, inl, inr, Bool-cases, Option-cases, Run, ok, ◌>>=◌, not}
use mathlib.Core.List.{append-nil, append_assoc}
use powaur.Util.Ask.{yesno}
use powaur.Util.{Str, find_str, same_str}
use powaur.Util.Equal.{same_str_eq}
use powaur.Sync.Plan.{
  Kind, Plan, no_plan, add_to, final_targets, kind_of, sort_targets, sync_targets,
}

-- The members that a test keeps, in order.
abbrev pub filter : (Str → Bool) → List Str → List Str
filter test [] = []
filter test (x ∷ xs) = if test x then x ∷ filter test xs else filter test xs

abbrev pub is_kind : Kind → Kind → Bool
is_kind Kind.not_aur Kind.not_aur = true
is_kind Kind.upgrade Kind.upgrade = true
is_kind Kind.reinstall Kind.reinstall = true
is_kind Kind.downgrade Kind.downgrade = true
is_kind Kind.new_package Kind.new_package = true
is_kind _ _ = false

-- One of the five lists.
abbrev pub list_of : Kind → Plan → List Str
list_of Kind.not_aur p = p.not_aur
list_of Kind.upgrade p = p.upgrade
list_of Kind.reinstall p = p.reinstall
list_of Kind.downgrade p = p.downgrade
list_of Kind.new_package p = p.new_packages

add_to-list_of :
    (p : Plan) (name : Str) (rest : List Str) (k kind : Kind)
    → list_of kind (add_to p name k) ++ rest
      ≡ list_of kind p ++ (if is_kind k kind then name ∷ rest else rest)
unfolding add_to
add_to-list_of p name rest k kind = ground (
  arith,
  append_assoc p.not_aur (name ∷ []) rest,
  append_assoc p.upgrade (name ∷ []) rest,
  append_assoc p.reinstall (name ∷ []) rest,
  append_assoc p.downgrade (name ∷ []) rest,
  append_assoc p.new_packages (name ∷ []) rest,
)

find_str-append :
    (xs ys : List Str) (name : Str)
    → find_str (xs ++ ys) name ≡ (find_str xs name || find_str ys name)
unfolding find_str
find_str-append [] ys name = refl
find_str-append (x ∷ xs) ys name = ground (arith, find_str-append xs ys name)

find_str-filter :
    (test : Str → Bool) (xs : List Str) (name : Str)
    → find_str (filter test xs) name ≡ (find_str xs name && test name)
unfolding find_str
find_str-filter test [] name = refl
find_str-filter test (x ∷ xs) name = elim (Bool-cases (same_str x name)) [
  | inl e ↦
      let same = ap test (same_str_eq x name e) in
      ground (arith, e, same, find_str-filter test xs name)
  | inr e ↦ ground (arith, e, find_str-filter test xs name)
]

abbrev pub is_order : Ordering → Ordering → Bool
is_order Ordering.lt Ordering.lt = true
is_order Ordering.eq Ordering.eq = true
is_order Ordering.gt Ordering.gt = true
is_order _ _ = false

-- Whether to upgrade, and the input that is left: never without something to upgrade, at once with
-- noconfirm, and else as the user says.
abbrev pub consent : Bool → Bool → List Str → Run (Bool × List Str)
consent false noconfirm input = ok (false, input)
consent true true input = ok (true, input)
consent true false input = yesno input

-- The list is upgraded, or nothing.
abbrev pub upgrade_if : Run (Bool × List Str) → List Str → Run (Option (List Str) × List Str)
upgrade_if run list = run >>= λ r. ok ((if r.0 then some list else none), r.1)

module _ {V : Type 0} (alpm_pkg_vercmp : V → V → Ordering) (query_aur : Str → Option (Str × V))
    (installed : Str → Option V) where
  abbrev pub of_kind : Kind → Str → Bool
  of_kind kind name = is_kind (kind_of alpm_pkg_vercmp query_aur installed name) kind

  -- Each of the five lists of `sync_targets` is the targets of its kind, in order, behind what it
  -- held before.
  sort_targets-list_of :
      (p : Plan) (targets : List Str) (kind : Kind)
      → list_of kind (sort_targets alpm_pkg_vercmp query_aur installed p targets)
        ≡ list_of kind p ++ filter (of_kind kind) targets
  unfolding sort_targets
  sort_targets-list_of p [] kind = sym (append-nil (list_of kind p))
  sort_targets-list_of p (target ∷ targets) kind =
      let k = kind_of alpm_pkg_vercmp query_aur installed target in
      sort_targets-list_of (add_to p target k) targets kind
      ∙ add_to-list_of p target (filter (of_kind kind) targets) k kind

  -- How the version of the AUR compares with the installed one, where there are both.
  abbrev pub compares : Ordering → Str → Bool
  compares order name = elim (query_aur name) [
    | none ↦ false
    | some aurpkg ↦ elim (installed name) [
      | none ↦ false
      | some pkgver ↦ is_order (alpm_pkg_vercmp aurpkg.1 pkgver) order
    ]
  ]

  abbrev pub is_in_aur : Str → Bool
  is_in_aur name = elim (query_aur name) [ none ↦ false | some aurpkg ↦ true ]

  -- The AUR has it, and it is not installed from there.
  abbrev pub is_new : Str → Bool
  is_new name = is_in_aur name && (elim (installed name) [ none ↦ true | some pkgver ↦ false ])

  -- The AUR has it, not in a version older than an installed one.
  abbrev pub is_wanted : Str → Bool
  is_wanted name = is_in_aur name && not (compares Ordering.lt name)

  kind_tests :
      (name : Str)
      → (of_kind Kind.reinstall name ≡ compares Ordering.eq name)
        × (of_kind Kind.upgrade name ≡ compares Ordering.gt name)
        × (of_kind Kind.new_package name ≡ is_new name)
        × ((of_kind Kind.reinstall name
              || of_kind Kind.upgrade name
              || of_kind Kind.new_package name)
            ≡ is_wanted name)
  unfolding kind_of
  kind_tests name = elim (Option-cases (query_aur name)) [
    | inl e ↦ (ground (arith, e), ground (arith, e), ground (arith, e), ground (arith, e))
    | inr (aurpkg, e) ↦ elim (Option-cases (installed name)) [
      | inl k ↦
          (ground (arith, e, k), ground (arith, e, k), ground (arith, e, k), ground (arith, e, k))
      | inr (pkgver, k) ↦
          (ground (arith, e, k), ground (arith, e, k), ground (arith, e, k), ground (arith, e, k))
    ]
  ]

  -- First the targets of the same version, then those with a newer one, then the new ones, each in
  -- order; and its members.
  abbrev pub Wanted : List Str → List Str → Type 0
  Wanted targets list =
      (list
        ≡ (filter (compares Ordering.eq) targets ++ filter (compares Ordering.gt) targets)
          ++ filter is_new targets)
      × ((name : Str) → find_str list name ≡ (find_str targets name && is_wanted name))

  final-Wanted :
      (targets : List Str)
      → Wanted targets
          (final_targets (sort_targets alpm_pkg_vercmp query_aur installed no_plan targets))
  unfolding final_targets
  final-Wanted targets =
      let same = sort_targets-list_of no_plan targets Kind.reinstall in
      let older = sort_targets-list_of no_plan targets Kind.upgrade in
      let new = sort_targets-list_of no_plan targets Kind.new_package in
      let is_same : of_kind Kind.reinstall ≡ compares Ordering.eq =
        λ i name. (kind_tests name).0 i in
      let is_newer : of_kind Kind.upgrade ≡ compares Ordering.gt =
        λ i name. (kind_tests name).1 i in
      let is_fresh : of_kind Kind.new_package ≡ is_new = λ i name. (kind_tests name).2 i in
      (
        rw (same, older, new, is_same, is_newer, is_fresh) refl,
        λ name.
            rw (same, older, new)
              (ground (
                arith,
                (kind_tests name).3,
                find_str-append
                    (filter (of_kind Kind.reinstall) targets
                      ++ filter (of_kind Kind.upgrade) targets)
                    (filter (of_kind Kind.new_package) targets) name,
                find_str-append (filter (of_kind Kind.reinstall) targets)
                    (filter (of_kind Kind.upgrade) targets) name,
                find_str-filter (of_kind Kind.reinstall) targets name,
                find_str-filter (of_kind Kind.upgrade) targets name,
                find_str-filter (of_kind Kind.new_package) targets name,
              )),
      )

  -- -S without a database calls no upgrade and asks nothing. With one it upgrades a list, at once with
  -- noconfirm, otherwise exactly if the user says yes. In the list are exactly the targets that the
  -- AUR has, and has not in an older version than the one that is installed from there: first those
  -- that it has in the installed version, then those that it has in a newer one, then those that are
  -- not installed from there, each as the user gave them in order.
  pub sync_targets-Wanted :
      (hashdb noconfirm : Bool) (input targets : List Str)
      → (list : List Str) × Wanted targets list
        × (sync_targets alpm_pkg_vercmp query_aur installed hashdb noconfirm input targets
            ≡ upgrade_if (consent hashdb noconfirm input) list)
  unfolding sync_targets
  sync_targets-Wanted hashdb noconfirm input targets = (
    final_targets (sort_targets alpm_pkg_vercmp query_aur installed no_plan targets),
    final-Wanted targets,
    ground arith,
  )
