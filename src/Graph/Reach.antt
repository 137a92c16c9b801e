-- ===== src/Graph/Reach.antt =====
-- graph.c: the graphs that calls of `graph_add_vertex` and `graph_add_edge` make.
use powaur.Base.{◌≡◌, sym, ◌∙◌, ok, Returns, [], Option, ℕ, arith}
use powaur.Hash.Keys.{KeyOps}
use powaur.Graph.Stack.{Stack}
use powaur.Graph.Defs.{Graph, graph_new, graph_add_vertex, graph_add_edge}
use powaur.Graph.Sort.{graph_toposort}
use powaur.Graph.Sort.Correct.{Decides, graph_toposort-Decides}
use powaur.Graph.Build.{IsBuilt, IsNarrow, graph_new-IsBuilt, graph_add_vertex-AddedVertex}
use powaur.Graph.Edges.{graph_add_edge-Linked}

module _ {ℓ} {K : Type ℓ} ⦃ops : KeyOps K⦄ where
  -- Each call finds the arrays short enough to grow.
  pub data Made : Graph K → Type ℓ where
    fresh : Made graph_new
    vertex :
        (g g' : Graph K) (value : K)
        → Made g
        → IsNarrow g
        → graph_add_vertex g value ≡ ok g'
        → Made g'
    edge :
        (g g' : Graph K) (from to : K)
        → Made g
        → IsNarrow g
        → ((g₁ : Graph K) → graph_add_vertex g from ≡ ok g₁ → IsNarrow g₁)
        → graph_add_edge g from to ≡ ok g'
        → Made g'

  -- A graph made by calls of the operations is well formed: its index and its vertices agree,
  -- edges lead to vertices, and all fit their arrays.
  pub Made-IsBuilt : (g : Graph K) → Made g → IsBuilt g
  Made-IsBuilt g fresh = graph_new-IsBuilt
  Made-IsBuilt g' (vertex g _ value m narrow run) =
      let (g₁, runs, a) = graph_add_vertex-AddedVertex g value (Made-IsBuilt g m) narrow in
      let same : g₁ ≡ g' = ground (arith, sym runs ∙ run) in rw (sym same) a.built
  Made-IsBuilt g' (edge g _ from to m narrow next run) =
      let (g₁, runs, l) = graph_add_edge-Linked g from to (Made-IsBuilt g m) narrow next in
      let same : g₁ ≡ g' = ground (arith, sym runs ∙ run) in rw (sym same) l.built

  -- From an empty stack, the sort of a graph made by calls of the operations ends: with 0 and a
  -- topological order of all vertices on the stack, or with -1, exactly if there is a cycle.
  pub graph_toposort-Made-Decides :
      (g : Graph K) (t : Stack (Option ℕ))
      → Made g
      → t.items ≡ []
      → Returns (graph_toposort g t) (λ r. Decides g r.1 r.2)
  graph_toposort-Made-Decides g t m e = graph_toposort-Decides g t (Made-IsBuilt g m).wf e
