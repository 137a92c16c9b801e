-- ===== src/Sync.antt =====
-- sync.c: the packages that are to be installed from the AUR, in the order of a topological sort.
pub mod Order
pub mod Install
pub mod Plan
pub mod Upgrade
use powaur.Base.{
  ℕ, zero, suc, Bool, true, false, not, ◌&&◌, ◌||◌, List, [], ◌∷◌, ◌++◌, Option, none, some,
}
use powaur.Base.{length, if◌then◌else◌, Run, ok, spin, fault, ◌>>=◌}
use powaur.Util.{Str}
use powaur.Graph.Stack.{Stack, skipped, underflow, popped, stack_pop, stack_empty}
use powaur.Graph.Defs.{Graph, graph_get_vertex_data}
use powaur.Query.{PkgFrom, is_aur, Tables, Caches, map_search}

-- Outdated packages of the AUR, and those that are not installed.
unfoldable pub is_target : Tables → PkgFrom → Str → Bool
is_target t from pkgname = is_aur from && (t.outdated pkgname || not (t.in_aur pkgname))

-- -1 is no place of a vertex, and NULL is no key of the map.
unfoldable pub from_of : Caches → Graph Str → Option ℕ → Option (Str × PkgFrom)
unfolding map_search graph_get_vertex_data
from_of c graph none = none
from_of c graph (some vertex) = elim (graph_get_vertex_data graph vertex) [
  | none ↦ none
  | some pkgname ↦ elim (map_search c.pkg_from pkgname) [
    | none ↦ none
    | some from ↦ some (pkgname, from)
  ]
]

module _ (t : Tables) (c : Caches) (graph : Graph Str) where
  -- `while (!stack_empty(topost))`, for a number of rounds.
  unfoldable pub targets_loop : ℕ → Stack (Option ℕ) → List Str → Run (Option (List Str))
  unfolding stack_empty stack_pop from_of is_target
  targets_loop zero topost final_targets = spin
  targets_loop (suc rounds) topost final_targets = elim (stack_empty topost) [
    | true ↦ ok (some final_targets)
    | false ↦ elim (stack_pop topost) [
      | skipped ↦ fault
      | underflow ↦ fault
      | popped vertex rest ↦ elim (from_of c graph vertex) [
        | none ↦ ok none
        | some (pkgname, from) ↦
            targets_loop rounds rest
              (if is_target t from pkgname then final_targets ++ (pkgname ∷ []) else final_targets)
      ]
    ]
  ]

  -- `none` is NULL.
  unfoldable pub topo_get_targets : Stack (Option ℕ) → Run (Option (List Str))
  unfolding targets_loop
  topo_get_targets topost = targets_loop (suc (length topost.items)) topost []

-- `installs` tells whether `install_single_package` returns another result than -2. The packages for
-- which it is called, up to the first one with the result -2; and whether there is one.
module _ (installs : Str → Bool) where
  unfoldable pub topo_install : List Str → List Str × Bool
  topo_install [] = ([], false)
  topo_install (pkg ∷ targets) =
      let rest = topo_install targets in
      if installs pkg then (pkg ∷ rest.0, rest.1) else (pkg ∷ [], true)
