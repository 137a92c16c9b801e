-- ===== src/Graph/Defs.antt =====
-- graph.c: vertices, edges, depth-first search. `adj` are the entries of a vertex's adjacency list
-- below its `nr`, and `vertices` those of the graph below its `nr`; `sz` is a capacity.
use powaur.Base.{ℕ, List, [], ◌∷◌, ◌++◌, Option, none, some}
use powaur.Base.{length, leb, if◌then◌else◌, get_elem?, set, mem}
use powaur.Base.{Run, ok, died, fault, ◌>>=◌}
use powaur.Alloc.{new_alloc_size}
use powaur.Hash.Keys.{KeyOps}
use powaur.Hash.Vindex.{Vindex, hash_new_vindex, hash_insert_vindex, hash_pos_vindex}

abbrev pub graph_init_vertices : ℕ
graph_init_vertices = 40

abbrev pub vertex_adj_init_sz : ℕ
vertex_adj_init_sz = 20

pub data Color : Type 0 where
  white gray black : Color

pub record Vertex {ℓ} (K : Type ℓ) : Type ℓ where
  pub value : K
  pub adj : List ℕ
  pub sz : ℕ
  pub dfs_idx : ℕ
  pub color : Color

pub record Graph {ℓ} (K : Type ℓ) : Type ℓ where
  pub vertices : List (Vertex K)
  pub vidx : Vindex K
  pub sz : ℕ

module _ {ℓ} {K : Type ℓ} where
  unfoldable pub vertex_init : K → Vertex K
  vertex_init value = record {
    value = value;
    adj = [];
    sz = vertex_adj_init_sz;
    dfs_idx = 0;
    color = white;
  }

  unfoldable pub vertex_dfs_reset : Vertex K → Vertex K
  vertex_dfs_reset v = record v { color = white; dfs_idx = 0 }

  -- The list grows before the edge is looked for.
  unfoldable pub vertex_add_edge : Vertex K → ℕ → Run (Vertex K)
  vertex_add_edge v edge = do
    roomy ←
        (if leb v.sz (length v.adj)
          then (let new_size = new_alloc_size v.sz in
              if leb new_size v.sz then died else ok (record v { sz = new_size }))
          else ok v)
    ok (if mem roomy.adj edge then roomy else record roomy { adj = roomy.adj ++ (edge ∷ []) })

  unfoldable pub graph_new : Graph K
  graph_new = record { vertices = []; vidx = hash_new_vindex; sz = graph_init_vertices }

  unfoldable pub graph_grow : Graph K → Graph K
  graph_grow g = record g { sz = new_alloc_size g.sz }

  unfoldable pub graph_get_vertex_data : Graph K → ℕ → Option K
  graph_get_vertex_data g pos = elim (get_elem? g.vertices pos) [
    | none ↦ none
    | some v ↦ some v.value
  ]

module _ {ℓ} {K : Type ℓ} ⦃ops : KeyOps K⦄ where
  -- `none` is -1.
  unfoldable pub vindex_lookup : Graph K → K → Run (Option ℕ)
  vindex_lookup g value = hash_pos_vindex g.vidx value

  unfoldable pub graph_add_vertex : Graph K → K → Run (Graph K)
  unfolding vindex_lookup graph_grow vertex_init
  graph_add_vertex g value = do
    pos ← vindex_lookup g value
    elim pos [
      | some _ ↦ ok g
      | none ↦
          let roomy = if leb g.sz (length g.vertices) then graph_grow g else g in
          (hash_insert_vindex roomy.vidx (record { value = value; idx = length roomy.vertices })
            >>= λ vidx. ok (record roomy {
              vertices = roomy.vertices ++ (vertex_init value ∷ []);
              vidx = vidx;
            }))
    ]

  -- `graph->vertices[from_pos]` is read at whatever place the index gives.
  unfoldable pub add_edge_at : Graph K → Option ℕ → Option ℕ → Run (Graph K)
  unfolding vertex_add_edge
  add_edge_at g none to_pos = fault
  add_edge_at g (some from_pos) none = fault
  add_edge_at g (some from_pos) (some to_pos) = elim (get_elem? g.vertices from_pos) [
    | none ↦ fault
    | some v ↦
        vertex_add_edge v to_pos >>= λ v'. ok (record g { vertices = set g.vertices from_pos v' })
  ]

  unfoldable pub graph_add_edge : Graph K → K → K → Run (Graph K)
  unfolding graph_add_vertex add_edge_at
  graph_add_edge g from to = do
    g₁ ← graph_add_vertex g from
    g₂ ← graph_add_vertex g₁ to
    from_pos ← vindex_lookup g₂ from
    to_pos ← vindex_lookup g₂ to
    add_edge_at g₂ from_pos to_pos
