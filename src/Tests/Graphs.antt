-- ===== src/Tests/Graphs.antt =====
-- Tests of the graph: two packages that depend on one another.
use powaur.Base.{
  ℕ, ◌<◌, ◌≡◌, refl, sym, ◌∙◌, Bool, true, false, List, [], ◌∷◌, Option, none, some, get_elem?,
}
use powaur.Base.{Run, ok, spin, died, fault, ltb, ◌&&◌, zero, suc, Returns, ◌>>=◌, arith, or_else}
use powaur.Alloc.{new_alloc_size}
use powaur.Alloc.Bounds.{widest}
use powaur.Hash.Table.{alloc, grow, insert, slot_of}
use powaur.Hash.Vindex.{hash_new_vindex, hash_insert_vindex, hash_pos_vindex}
use powaur.Graph.Stack.{stack_new, stack_push, stack_pop, stack_peek}
use powaur.Graph.Defs.{Graph, Vertex, graph_new, graph_add_vertex, graph_add_edge, vertex_dfs_reset}
use powaur.Graph.Sort.{graph_toposort}
use mathlib.Core.Path.{subst}
use powaur.Graph.Stack.{Stack}
use powaur.Graph.Defs.{graph_get_vertex_data}
use powaur.Graph.Sort.Roomy.{Roomy}
use powaur.Query.{aur, Tables, Caches, map_search}
use powaur.Util.{same_str}
use powaur.Sync.Upgrade.Topo.{AllKnown, Installs, graph_toposort-Installs}
use powaur.Graph.Sort.Correct.{Decides}
use powaur.Graph.Build.{IsBuilt, IsNarrow}
use powaur.Graph.Edges.{Linked, graph_add_edge-Linked}
use powaur.Graph.Reach.{Made, fresh, edge, Made-IsBuilt, graph_toposort-Made-Decides}
use powaur.Util.{Str, sdbm, strcmp}
use powaur.Util.Compare.{str_keys}

program : Unit {0}
unfolding alloc grow insert slot_of hash_insert_vindex hash_pos_vindex graph_new hash_new_vindex
    graph_add_edge stack_new stack_push stack_pop stack_peek graph_toposort sdbm strcmp or_else
    new_alloc_size vertex_dfs_reset
program = tt

abbrev a : Str
a = 97 ∷ []

abbrev b : Str
b = 98 ∷ []

abbrev got : Run (Graph Str) → Graph Str
got (ok g) = g
got spin = graph_new
got died = graph_new
got fault = graph_new

abbrev one : Graph Str
one = got (graph_add_vertex graph_new a)

abbrev pair : Graph Str
pair = got (graph_add_edge graph_new a b)

abbrev loop : Graph Str
loop = got (graph_add_edge pair b a)

one_runs : graph_add_vertex graph_new a ≡ ok one
unfolding program
one_runs = refl

pair_runs : graph_add_edge graph_new a b ≡ ok pair
unfolding program
pair_runs = refl

loop_runs : graph_add_edge pair b a ≡ ok loop
unfolding program
loop_runs = refl

abbrev short : List (Vertex Str) → Bool
short [] = true
short (v ∷ vs) = ltb v.sz widest && short vs

short-lt :
    (vs : List (Vertex Str)) (i : ℕ) (v : Vertex Str)
    → short vs ≡ true
    → get_elem? vs i ≡ some v
    → v.sz < widest
short-lt [] i v h e = cc
short-lt (u ∷ vs) zero v h e = ground arith
short-lt (u ∷ vs) (suc i) v h e = ground (arith, short-lt vs i v)

IsNarrow-of :
    (g : Graph Str) → g.vidx.sz < widest → g.sz < widest → short g.vertices ≡ true → IsNarrow g
IsNarrow-of g x y h = record { index = x; vertices = y; adj = λ i v e. short-lt g.vertices i v h e }

new_IsNarrow : IsNarrow {K = Str} graph_new
unfolding program
new_IsNarrow = IsNarrow-of graph_new (omega arith) (omega arith) refl

one-IsNarrow : IsNarrow one
unfolding program
one-IsNarrow = IsNarrow-of one (omega arith) (omega arith) refl

pair-IsNarrow : IsNarrow pair
unfolding program
pair-IsNarrow = IsNarrow-of pair (omega arith) (omega arith) refl

run_IsNarrow :
    (r : Run (Graph Str)) (g : Graph Str)
    → IsNarrow g
    → r ≡ ok g
    → (g' : Graph Str) → r ≡ ok g'
    → IsNarrow g'
run_IsNarrow r g n e g' e' = let same : g ≡ g' = ground (arith, sym e ∙ e') in rw (sym same) n

-- `b` is there already.
pair_same : graph_add_vertex pair b ≡ ok pair
unfolding program
pair_same = refl

pair-Made : Made pair
pair-Made =
    edge graph_new pair a b fresh new_IsNarrow
      (run_IsNarrow (graph_add_vertex graph_new a) one one-IsNarrow one_runs) pair_runs

loop-Made : Made loop
loop-Made =
    edge pair loop b a pair-Made pair-IsNarrow
      (run_IsNarrow (graph_add_vertex pair b) pair pair-IsNarrow pair_same) loop_runs

abbrev sorted : Graph Str → Run (List (Option ℕ) × Bool)
sorted g = do r ← graph_toposort g stack_new; ok (r.1.items, r.2)

-- The order that the sort of the pair leaves on the stack, and the cycle.
pair-sorted : sorted pair ≡ ok (some 0 ∷ some 1 ∷ [], false)
unfolding program
pair-sorted = refl

loop-sorted : sorted loop ≡ ok ([], true)
unfolding program
loop-sorted = refl

new_empty : (stack_new {A = Option ℕ}).items ≡ []
unfolding program
new_empty = refl

graph_toposort-Made-Decides_example :
    Returns (graph_toposort loop stack_new) (λ r. Decides loop r.1 r.2)
graph_toposort-Made-Decides_example = graph_toposort-Made-Decides loop stack_new loop-Made new_empty

Made-IsBuilt_example : IsBuilt loop
Made-IsBuilt_example = Made-IsBuilt loop loop-Made

graph_add_edge-Linked_example : Returns (graph_add_edge pair b a) (λ g'. Linked pair b a g')
graph_add_edge-Linked_example =
    graph_add_edge-Linked pair b a (Made-IsBuilt pair pair-Made) pair-IsNarrow
      (run_IsNarrow (graph_add_vertex pair b) pair pair-IsNarrow pair_same)

-- Both packages are from the AUR, and none is installed.
abbrev nothing_installed : Tables
nothing_installed = record {
  in_local = λ name. false;
  in_sync = λ name. false;
  in_aur = λ name. false;
  outdated = λ name. false;
  local_provider = λ name. none;
  sync_provider_local = λ name. none;
  sync_provider_sync = λ name. none;
}

abbrev both_aur : Caches
both_aur = record { pkg_from = (a, aur) ∷ (b, aur) ∷ []; provides_cache = []; aur_downloaded = [] }

abbrev result_of : Run (Graph Str × Stack (Option ℕ) × Bool) → Graph Str × Stack (Option ℕ) × Bool
result_of (ok r) = r
result_of spin = (graph_new, stack_new, true)
result_of died = (graph_new, stack_new, true)
result_of fault = (graph_new, stack_new, true)

abbrev sorted_pair : Graph Str × Stack (Option ℕ) × Bool
sorted_pair = result_of (graph_toposort pair stack_new)

pair_sorts : graph_toposort pair stack_new ≡ ok sorted_pair
unfolding program
pair_sorts = refl

both_known : AllKnown both_aur sorted_pair.0
unfolding program graph_get_vertex_data map_search same_str
both_known name zero h = let same : a ≡ name = ground (arith, h) in (aur, rw (sym same) refl)
both_known name (suc zero) h = let same : b ≡ name = ground (arith, h) in (aur, rw (sym same) refl)
both_known name (suc (suc i)) h = absurd (cc h)

new_room : Roomy stack_new
unfolding program
new_room = omega arith

graph_toposort-Installs_example :
    Returns (graph_toposort pair stack_new) (Installs nothing_installed both_aur)
graph_toposort-Installs_example =
    graph_toposort-Installs nothing_installed both_aur pair stack_new pair-Made new_empty new_room
      (λ r run.
        let same : sorted_pair ≡ r = ground (arith, sym pair_sorts ∙ run) in
        subst (λ (q : Graph Str × Stack (Option ℕ) × Bool). AllKnown both_aur q.0) same both_known)
