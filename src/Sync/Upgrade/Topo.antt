-- ===== src/Sync/Upgrade/Topo.antt =====
-- sync.c: from the graph of the dependencies to the order of installation.
use powaur.Base.{
  ℕ, ◌<◌, ◌≡◌, refl, sym, ap, ◌∙◌, Bool, true, false, ◌&&◌, List, [], Option, some, ◌≢◌,
}
use powaur.Base.{length, mem, ltb, ok, Returns, Gives}
use mathlib.Core.Path.{subst, fun_ext}
use powaur.Util.{Str}
use powaur.Util.Compare.{str_keys}
use powaur.Graph.Stack.{Stack}
use powaur.Graph.Defs.{Graph, white, graph_get_vertex_data}
use powaur.Graph.Sort.{graph_toposort}
use powaur.Graph.Sort.View.{adj_of, color_of}
use powaur.Graph.Sort.Inv.{IsTopo}
use powaur.Graph.Sort.Loop.{Rest}
use powaur.Graph.Sort.Outer.{Sorted, all_finished, has_cycle, graph_toposort-Sorted}
use powaur.Graph.Sort.Correct.{IsOrder, IsWf, finished_all}
use powaur.Graph.Sort.Roomy.{Roomy, graph_toposort-Roomy}
use powaur.Graph.Reach.{Made, Made-IsBuilt}
use powaur.Query.{PkgFrom, Tables, Caches, map_search}
use powaur.Sync.{topo_get_targets}
use powaur.Sync.Order.{keep, chosen, names_at, topo_get_targets-IsTopo}

-- The map knows where each vertex is from.
abbrev pub AllKnown : Caches → Graph Str → Type 0
AllKnown c graph =
    (name : Str) (i : ℕ)
    → graph_get_vertex_data graph i ≡ some name
    → (from : PkgFrom) × (map_search c.pkg_from name ≡ some from)

-- What is installed for a sorted graph, if there is no cycle.
abbrev pub Installs : Tables → Caches → Graph Str × Stack (Option ℕ) × Bool → Type 0
Installs t c (graph, topost, true) = Unit
Installs t c (graph, topost, false) =
    (p : List ℕ) × (topo_get_targets t c graph topost ≡ ok (some (names_at t c graph p)))
    × IsTopo (λ i. keep (chosen t c graph) (adj_of graph.vertices i)) p
    × ((i : ℕ) → mem p i ≡ (ltb i (length graph.vertices) && chosen t c graph i))

-- The order holds of the sorted graph, which has the edges of before.
Rest-IsOrder :
    (g : Graph Str) (wf : IsWf g) (g' : Graph Str) (topost : Stack (Option ℕ)) (o : List ℕ)
    → Rest (adj_of g.vertices) (length g.vertices) wf.targets g' topost o
    → ((j : ℕ) → j < length g.vertices → color_of g'.vertices j ≢ white)
    → IsOrder g' o
Rest-IsOrder g wf g' topost o rest seen = record {
  topo = subst (λ (adj : ℕ → List ℕ). IsTopo adj o) (sym (fun_ext rest.keeps.same)) rest.abs.topo;
  all = λ i.
      finished_all g g' topost wf o rest seen i ∙ ap (λ (n : ℕ). ltb i n) (sym rest.keeps.size);
}

Sorted-Installs :
    (t : Tables) (c : Caches) (g : Graph Str) (wf : IsWf g) (g' : Graph Str)
    (topost : Stack (Option ℕ)) (b : Bool)
    → Sorted (adj_of g.vertices) (length g.vertices) wf.targets g' topost b
    → Roomy topost
    → AllKnown c g'
    → Installs t c (g', topost, b)
Sorted-Installs t c g wf g' topost _ (has_cycle cyc) r known = tt
Sorted-Installs t c g wf g' topost _ (all_finished o rest seen) r known =
    topo_get_targets-IsTopo t c g' o topost (Rest-IsOrder g wf g' topost o rest seen) rest.written r
      known

-- For every graph that calls of graph_new, graph_add_vertex and graph_add_edge make, `graph_toposort`
-- ends from an empty stack, and where it gives 0, `topo_get_targets` ends on what it leaves and lists
-- exactly the vertices that are to be installed, packages of the AUR that are outdated or not
-- installed, in an order in which each edge between two of them leads forward: a dependency is
-- installed before the package that needs it. This supposes that the map knows where each vertex of
-- the sorted graph is from.
pub graph_toposort-Installs :
    (t : Tables) (c : Caches) (g : Graph Str) (st : Stack (Option ℕ))
    → Made g
    → st.items ≡ []
    → Roomy st
    → ((r : Graph Str × Stack (Option ℕ) × Bool) → graph_toposort g st ≡ ok r → AllKnown c r.0)
    → Returns (graph_toposort g st) (Installs t c)
graph_toposort-Installs t c g st m e roomy known =
    let wf = (Made-IsBuilt g m).wf in
    let (r, run, s) =
      graph_toposort-Sorted (adj_of g.vertices) (length g.vertices) wf.targets g st
        (record { size = refl; same = λ i. refl; indexed = wf.indexed }) e in
    let room : Gives (λ (q : Graph Str × Stack (Option ℕ) × Bool). Roomy q.1) (ok r) =
      subst (Gives (λ (q : Graph Str × Stack (Option ℕ) × Bool). Roomy q.1)) run
        (graph_toposort-Roomy g st roomy) in
    (r, run, Sorted-Installs t c g wf r.0 r.1 r.2 s room (known r run))
