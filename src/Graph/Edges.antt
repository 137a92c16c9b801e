-- ===== src/Graph/Edges.antt =====
-- graph.c: what `graph_add_edge` makes of a graph.
use powaur.Base.{ℕ, ◌<◌, ◌≤◌, ◌≡◌, refl, sym, ap, ◌∙◌, false, ◌||◌, ◌&&◌, inl, inr}
use powaur.Base.{
  List, [], ◌∷◌, ◌++◌, some, length, length-append, length-set, get_elem?, set, get_elem?-lt,
}
use powaur.Base.{get_elem?-set, lt-of-get_elem?, mem, mem-append, leb, ◌==◌, if◌then◌else◌}
use powaur.Base.{arith, Bool-cases, if-true, if-false, ok, ◌>>=◌, Returns}
use powaur.Alloc.{new_alloc_size}
use powaur.Alloc.Bounds.{widest, new_alloc_size-grows}
use powaur.Hash.Keys.{KeyOps, is_zero}
use powaur.Hash.Vindex.Index.{place_of}
use powaur.Graph.Defs.{
  Graph, Vertex, vertex_init, vertex_add_edge, vindex_lookup, graph_add_vertex, add_edge_at,
  graph_add_edge,
}
use powaur.Graph.Sort.View.{adj_of, adj?}
use powaur.Graph.Build.{
  IsBuilt, IsNarrow, AddedVertex, lookup-place_of, graph_add_vertex-AddedVertex,
}

-- A vertex with one edge more, unless it had that edge.
record Widened {ℓ} {K : Type ℓ} (v : Vertex K) (edge : ℕ) (v' : Vertex K) : Type ℓ where
  value : v'.value ≡ v.value
  adj : (y : ℕ) → mem v'.adj y ≡ (mem v.adj y || edge == y)
  fits : length v'.adj ≤ v'.sz

append_edge {ℓ} :
    {K : Type ℓ} (v : Vertex K) (sz edge : ℕ)
    → length v.adj < sz
    → Widened v edge (
        if mem v.adj edge
        then record v { sz = sz }
        else record v { sz = sz; adj = v.adj ++ (edge ∷ []) })
append_edge v sz edge room = elim (Bool-cases (mem v.adj edge)) [
  | inl old ↦ rw old record {
    value = refl;
    adj = λ y. elim (Bool-cases (edge == y)) [
      | inl e ↦ let same : edge ≡ y = ground arith in ground (arith, old, ap (mem v.adj) same)
      | inr e ↦ ground (arith, e)
    ];
    fits = omega arith;
  }
  | inr new ↦ rw new record {
    value = refl;
    adj = λ y. mem-append v.adj edge y;
    fits = omega (arith, length-append v.adj (edge ∷ []));
  }
]

vertex_add_edge-Widened {ℓ} :
    {K : Type ℓ} (v : Vertex K) (edge : ℕ)
    → length v.adj ≤ v.sz
    → v.sz < widest
    → Returns (vertex_add_edge v edge) (λ v'. Widened v edge v')
unfolding vertex_add_edge
vertex_add_edge-Widened v edge fits narrow = elim (Bool-cases (leb v.sz (length v.adj))) [
  | inl full ↦
      let grows = (new_alloc_size-grows v.sz).1 narrow in
      let small : leb (new_alloc_size v.sz) v.sz ≡ false = ground (arith, grows) in
      (
        _,
        rw (full, small) refl,
        append_edge v (new_alloc_size v.sz) edge (ground (arith, grows, fits)),
      )
  | inr roomy ↦ (_, rw roomy refl, append_edge v v.sz edge (ground (arith, roomy)))
]

module _ {ℓ} {K : Type ℓ} ⦃ops : KeyOps K⦄ where
  -- What an edge between two places adds to a graph.
  pub record AddedEdge (g : Graph K) (p q : ℕ) (g' : Graph K) : Type ℓ where
    pub built : IsBuilt g'
    pub index : (j : K) → place_of g'.vidx j ≡ place_of g.vidx j
    pub size : length g'.vertices ≡ length g.vertices
    pub edges :
        (i y : ℕ)
        → mem (adj_of g'.vertices i) y ≡ (mem (adj_of g.vertices i) y || (p == i && q == y))

  module _ (g : Graph K) (p q : ℕ) (v v' : Vertex K) (built : IsBuilt g)
      (q_lt : q < length g.vertices) (at : get_elem? g.vertices p ≡ some v)
      (w : Widened v q v') where
    abbrev wider : List (Vertex K)
    wider = set g.vertices p v'

    wider_at : (i : ℕ) → get_elem? wider i ≡ (if p == i then some v' else get_elem? g.vertices i)
    wider_at i = get_elem?-set g.vertices p i v' (lt-of-get_elem? g.vertices p v at)

    write_adj :
        (i y : ℕ) → mem (adj_of wider i) y ≡ (mem (adj_of g.vertices i) y || (p == i && q == y))
    write_adj i y = elim (Bool-cases (p == i)) [
      | inl e ↦
          let same : p ≡ i = ground arith in
          let old : adj_of g.vertices i ≡ v.adj = ap (adj_of g.vertices) (sym same) ∙ ap adj? at in
          let new : adj_of wider i ≡ v'.adj = ap adj? (wider_at i ∙ if-true {b = p == i} _ _ e) in
          ap (λ (l : List ℕ). mem l y) new ∙ w.adj y ∙ rw (old, e) refl
      | inr e ↦
          let new : adj_of wider i ≡ adj_of g.vertices i =
            ap adj? (wider_at i ∙ if-false {b = p == i} _ _ e) in
          ap (λ (l : List ℕ). mem l y) new ∙ ground (arith, e)
    ]

    -- A vertex that is there afterwards was there before, but for its edges.
    was_there :
        (i : ℕ) (u : Vertex K)
        → get_elem? wider i ≡ some u
        → (u₀ : Vertex K) × (get_elem? g.vertices i ≡ some u₀)
          × (u.value ≡ u₀.value)
          × (length u.adj ≤ u.sz)
    was_there i u e = elim (Bool-cases (p == i)) [
      | inl h ↦
          let same : p ≡ i = ground arith in
          let new : v' ≡ u = ground (arith, e, wider_at i, h) in
          (
            v,
            ap (get_elem? g.vertices) (sym same) ∙ at,
            ap (λ (x : Vertex K). x.value) (sym new) ∙ w.value,
            rw (sym new) w.fits,
          )
      | inr h ↦
          let old : get_elem? g.vertices i ≡ some u =
            sym (if-false {b = p == i} _ _ h) ∙ sym (wider_at i) ∙ e in
          (u, old, refl, built.adj_fits i u old)
    ]

    write_edge : AddedEdge g p q (record g { vertices = wider })
    write_edge = record {
      built = record {
        wf = record {
          targets = λ i y m.
              ground (arith, write_adj i y, m, built.wf.targets i y, length-set g.vertices p v');
          indexed = λ i u e.
              let (u₀, there, same, fits) = was_there i u e in
              lookup-place_of (record g { vertices = wider }) u.value built.index
              ∙ sym (lookup-place_of g u.value built.index)
              ∙ ap (vindex_lookup g) same
              ∙ built.wf.indexed i u₀ there;
        };
        index = built.index;
        known = λ j r e.
            let (u, there, alike) = built.known j r e in
            elim (Bool-cases (p == r)) [
              | inl h ↦
                  let same : p ≡ r = ground arith in
                  let one : u ≡ v = ground (arith, there, ap (get_elem? g.vertices) same, at) in
                  (
                    v',
                    wider_at r ∙ if-true {b = p == r} _ _ h,
                    ap (λ (x : K). is_zero (ops.cmp x j))
                          (w.value ∙ ap (λ (x : Vertex K). x.value) (sym one))
                        ∙ alike,
                  )
              | inr h ↦ (u, wider_at r ∙ if-false {b = p == r} _ _ h ∙ there, alike)
            ];
        fits = omega (arith, built.fits, length-set g.vertices p v');
        adj_fits = λ i u e. (was_there i u e).3;
      };
      index = λ j. refl;
      size = length-set g.vertices p v';
      edges = write_adj;
    }

  add_edge_at-AddedEdge :
      (g : Graph K) (p q : ℕ)
      → IsBuilt g
      → p < length g.vertices
      → q < length g.vertices
      → ((i : ℕ) (v : Vertex K) → get_elem? g.vertices i ≡ some v → v.sz < widest)
      → Returns (add_edge_at g (some p) (some q)) (λ g'. AddedEdge g p q g')
  unfolding add_edge_at
  add_edge_at-AddedEdge g p q built p_lt q_lt narrow =
      let (v, at) = get_elem?-lt g.vertices p p_lt in
      let (v', run, w) = vertex_add_edge-Widened v q (built.adj_fits p v at) (narrow p v at) in
      (
        record g { vertices = set g.vertices p v' },
        rw (at, add_edge_at, run) refl,
        write_edge g p q v v' built q_lt at w,
      )

  -- What an edge between two vertices, which are added where they are missing, makes of a graph.
  pub record Linked (g : Graph K) (from to : K) (g' : Graph K) : Type ℓ where
    pub built : IsBuilt g'
    pub from_pos : ℕ
    pub to_pos : ℕ
    pub from_at : place_of g'.vidx from ≡ some from_pos
    pub to_at : place_of g'.vidx to ≡ some to_pos
    pub keeps : (j : K) (p : ℕ) → place_of g.vidx j ≡ some p → place_of g'.vidx j ≡ some p
    pub edges :
        (i y : ℕ)
        → mem (adj_of g'.vertices i) y
          ≡ (mem (adj_of g.vertices i) y || (from_pos == i && to_pos == y))

  still_narrow :
      (g g' : Graph K) (value : K)
      → AddedVertex g value g'
      → IsNarrow g
      → (i : ℕ) (v : Vertex K) → get_elem? g'.vertices i ≡ some v
      → v.sz < widest
  unfolding vertex_init
  still_narrow g g' value a narrow i v at = elim (a.old i v at) [
    | inl old ↦ narrow.adj i v old
    | inr new ↦ rw new (omega arith)
  ]

  -- The second vertex comes, then the edge.
  after_from :
      (g g₁ : Graph K) (from to : K)
      → AddedVertex g from g₁
      → IsNarrow g₁
      → Returns
          (graph_add_vertex g₁ to >>= λ g₂. vindex_lookup g₂ from >>= λ from_pos.
            vindex_lookup g₂ to >>= λ to_pos. add_edge_at g₂ from_pos to_pos)
          (λ g'. Linked g from to g')
  after_from g g₁ from to a narrow =
      let (g₂, run, b) = graph_add_vertex-AddedVertex g₁ to a.built narrow in
      let (p, p_at) = a.place in
      let (q, q_at) = b.place in
      let from_at = b.keeps from p p_at in
      let (u, u_at, _) = b.built.known from p from_at in
      let (v, v_at, _) = b.built.known to q q_at in
      let (g', runs, e) =
        add_edge_at-AddedEdge g₂ p q b.built (lt-of-get_elem? g₂.vertices p u u_at)
          (lt-of-get_elem? g₂.vertices q v v_at)
          (λ i w at. still_narrow g₁ g₂ to b narrow i w at) in
      (
        g',
        rw
            (
              run,
              lookup-place_of g₂ from b.built.index,
              from_at,
              lookup-place_of g₂ to b.built.index,
              q_at,
            )
            runs,
        record {
          built = e.built;
          from_pos = p;
          to_pos = q;
          from_at = e.index from ∙ from_at;
          to_at = e.index to ∙ q_at;
          keeps = λ j r h. e.index j ∙ b.keeps j r (a.keeps j r h);
          edges = λ i y.
              e.edges i y
              ∙ ap (λ (l : List ℕ). mem l y || (p == i && q == y)) (b.edges i ∙ a.edges i);
        },
      )

  -- Adding an edge to a well-formed graph that can still grow, also once the first vertex is in,
  -- ends in a well-formed graph: the index knows both vertices, and the edges are those of before
  -- and the one between them.
  pub graph_add_edge-Linked :
      (g : Graph K) (from to : K)
      → IsBuilt g
      → IsNarrow g
      → ((g₁ : Graph K) → graph_add_vertex g from ≡ ok g₁ → IsNarrow g₁)
      → Returns (graph_add_edge g from to) (λ g'. Linked g from to g')
  unfolding graph_add_edge
  graph_add_edge-Linked g from to built narrow next =
      let (g₁, run, a) = graph_add_vertex-AddedVertex g from built narrow in
      let (g', runs, l) = after_from g g₁ from to a (next g₁ run) in (g', rw run runs, l)
