-- ===== src/Hashdb/Build/Found.antt =====
-- hashdb.c: what the searches of the tables of packages find.
use powaur.Base.{◌≡◌, refl, true, false, ◌||◌, List, [], ◌∷◌, ◌++◌, some, or_else}
use powaur.Base.{arith, inl, inr, Bool-cases, Option-cases}
use powaur.Util.{Str, same_str}
use powaur.Util.Equal.{same_str_refl}
use powaur.Hash.Bst.{Tree, leaf, node, hashbst_tree_node_search}
use powaur.Hashdb.{Pkgpair}
use powaur.Hashdb.Build.{Provides, pkgpair_search, has_pkg, provider}

pub empty_has_pkg : (P : Type 0) (name : Str) → has_pkg {P = P} [] name ≡ false
unfolding has_pkg pkgpair_search
empty_has_pkg P name = refl

module _ {P : Type 0} where
  -- What a search finds has the name that it is searched by, so that a search for that finds it too.
  pub found-has_pkg :
      (table : List (Pkgpair P)) (name : Str) (pair : Pkgpair P)
      → pkgpair_search table name ≡ some pair
      → has_pkg table pair.pkgname ≡ true
  unfolding pkgpair_search has_pkg
  found-has_pkg [] name pair h = cc
  found-has_pkg (first ∷ table) name pair h = elim (Bool-cases (same_str first.pkgname name)) [
    | inl e ↦
        let one : first ≡ pair = ground (arith, h, e) in
        rw (← one) (ground (arith, same_str_refl first.pkgname))
    | inr e ↦ ground (arith, h, e, found-has_pkg table name pair)
  ]

  pub node_search-has_pkg :
      (table : List (Pkgpair P)) (tree : Tree Str) (pair : Pkgpair P)
      → hashbst_tree_node_search tree (pkgpair_search table) ≡ some pair
      → has_pkg table pair.pkgname ≡ true
  unfolding hashbst_tree_node_search or_else
  node_search-has_pkg table leaf pair h = cc
  node_search-has_pkg table (node l x r) pair h = ground (
    arith,
    h,
    node_search-has_pkg table l pair,
    node_search-has_pkg table r pair,
    found-has_pkg table x pair,
  )

  pub provider-has_pkg :
      (provides : Provides) (table : List (Pkgpair P)) (name p : Str)
      → provider provides table name ≡ some p
      → has_pkg table p ≡ true
  unfolding provider
  provider-has_pkg provides table name p h =
      elim (Option-cases (hashbst_tree_node_search (provides name) (pkgpair_search table))) [
        | inl e ↦ absurd (ground (arith, h, e))
        | inr (pair, e) ↦
            let same : pair.pkgname ≡ p = ground (arith, h, e) in
            rw (← same) (node_search-has_pkg table (provides name) pair e)
      ]

  pub has_pkg-append :
      (table : List (Pkgpair P)) (pair : Pkgpair P) (name : Str)
      → has_pkg (table ++ (pair ∷ [])) name ≡ (has_pkg table name || same_str pair.pkgname name)
  unfolding has_pkg pkgpair_search
  has_pkg-append [] pair name = ground arith
  has_pkg-append (first ∷ table) pair name = ground (arith, has_pkg-append table pair name)
