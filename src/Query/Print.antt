-- ===== src/Query/Print.antt =====
-- query.c: `powaur_crawl` resolves the dependencies of each target and prints their order.
pub mod Joined
use powaur.Base.{
  ℕ, zero, suc, ◌+◌, Bool, true, false, not, ◌||◌, List, [], ◌∷◌, ◌++◌, Option, none, some,
}
use powaur.Base.{if◌then◌else◌, ltb, length, Run, fault, spin, ok, ◌>>=◌}
use powaur.Util.{Str}
use powaur.Util.Compare.{str_keys}
use powaur.Graph.Stack.{
  Stack, skipped, underflow, popped, stack_new, stack_reset, stack_pop, stack_empty,
}
use powaur.Graph.Defs.{Graph, graph_new, graph_get_vertex_data}
use powaur.Graph.Sort.{graph_toposort}
use powaur.Hashdb.Build.{Hashdb, tables_of, caches_of}
use powaur.Query.{thorough, Caches}
use powaur.Query.Crawl.{Surroundings, build_dep_graph}

-- " -> "
abbrev pub arrow : Str
arrow = b' ' ∷ b'-' ∷ b'>' ∷ b' ' ∷ []

-- -1 is no place of a vertex.
unfoldable pub vertex_at : Graph Str → Option ℕ → Option Str
unfolding graph_get_vertex_data
vertex_at graph none = none
vertex_at graph (some idx) = graph_get_vertex_data graph idx

-- `while (!stack_empty(topost))`, for a number of rounds, with the output so far.
unfoldable pub print_loop : Graph Str → ℕ → Stack (Option ℕ) → ℕ → Str → Run Str
unfolding stack_empty stack_pop vertex_at
print_loop graph zero topost cnt out = spin
print_loop graph (suc rounds) topost cnt out = elim (stack_empty topost) [
  | true ↦ ok (out ++ (b'\n' ∷ []))
  | false ↦ elim (stack_pop topost) [
    | skipped ↦ fault
    | underflow ↦ fault
    | popped idx rest ↦ elim (vertex_at graph idx) [
      | none ↦ print_loop graph rounds rest cnt out
      | some curpkg ↦
          print_loop graph rounds rest (suc cnt)
            (out ++ ((if ltb 0 cnt then arrow else []) ++ curpkg))
    ]
  ]
]

unfoldable pub print_topo_order : Graph Str → Stack (Option ℕ) → Run Str
unfolding print_loop
print_topo_order graph topost = print_loop graph (suc (length topost.items)) topost 0 []

-- What is said of a target: that it has a cycle, that it has no dependencies, or their order.
pub data Message : Type 0 where
  cyclic no_dependencies : Str → Message
  topological : Str → Str → Message

-- `have_cycles` is never set. The list `immediate_deps` is not read here.
module _ {P : Type 0} (hashdb : Hashdb P) (download : Str → Bool) (o : Surroundings)
    (size rounds : ℕ) (curl have_cycles : Bool) where
  unfoldable pub crawl_target : Caches → Str → Run (Caches × List Message)
  unfolding tables_of build_dep_graph graph_toposort print_topo_order stack_empty
  crawl_target c target = do
    r ←
        build_dep_graph (tables_of hashdb []) download o thorough size curl rounds graph_new c
          (target ∷ [])
    q ← graph_toposort r.0 stack_new
    order ←
        (if stack_empty q.1
          then ok (no_dependencies target)
          else (print_topo_order q.0 q.1 >>= λ out. ok (topological target out)))
    ok (r.1.caches, (if have_cycles then cyclic target ∷ order ∷ [] else order ∷ []))

  unfoldable pub crawl_targets : Caches → List Str → Run (List Message)
  unfolding crawl_target
  crawl_targets c [] = ok []
  crawl_targets c (target ∷ targets) = do
    r ← crawl_target c target
    rest ← crawl_targets r.0 targets
    ok (r.1 ++ rest)

-- The messages, and whether the result is 0. Where the database cannot be built the first target
-- reads it through NULL.
module _ {P : Type 0} (download : Str → Bool) (o : Surroundings) (size rounds : ℕ)
    (curl have_cycles getcwd to_dir restore : Bool) where
  unfoldable pub powaur_crawl : Option (Hashdb P) → List Str → Run (List Message × Bool)
  unfolding crawl_targets caches_of
  powaur_crawl hashdb targets = if not getcwd || not to_dir then ok ([], false) else (elim hashdb [
    | none ↦ (elim targets [ [] ↦ ok ([], false) | target ∷ rest ↦ fault ])
    | some db ↦
        (crawl_targets db download o size rounds curl have_cycles (caches_of db) targets >>= λ out.
        ok (out, restore))
  ])
