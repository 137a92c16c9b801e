-- ===== src/Graph/Build.antt =====
-- graph.c: a graph as the operations build it.
use powaur.Base.{ℕ, suc, ◌<◌, ◌≤◌, ◌≡◌, ◌⊎◌, refl, sym, ap, ◌∙◌, true, inl, inr}
use powaur.Base.{List, [], ◌∷◌, ◌++◌, none, some, or_else, length, length-append, get_elem?}
use powaur.Base.{get_elem?-append, lt-of-get_elem?, leb, ◌==◌, if◌then◌else◌}
use powaur.Base.{arith, Bool-cases, if-true, if-false, Option-cases, ok, ◌>>=◌, Returns}
use powaur.Alloc.{new_alloc_size}
use powaur.Alloc.Bounds.{widest, new_alloc_size-grows}
use powaur.Hash.Keys.{KeyOps, is_zero}
use powaur.Hash.Table.Insert.{IsValid}
use powaur.Hash.Vindex.{Vindex, hash_insert_vindex}
use powaur.Hash.Vindex.Index.{
  place_of, hash_pos_vindex-place_of, place_of-new, hash_new_vindex-IsValid,
  hash_insert_vindex-place_of,
}
use powaur.Graph.Defs.{
  Graph, Vertex, vertex_init, vindex_lookup, graph_new, graph_grow, graph_add_vertex,
}
use powaur.Graph.Sort.View.{adj_of, adj?}
use powaur.Graph.Sort.Correct.{IsWf}

module _ {ℓ} {K : Type ℓ} ⦃ops : KeyOps K⦄ where
  -- Between two calls: the index and the vertices agree, and the arrays have room for what is in
  -- them.
  pub record IsBuilt (g : Graph K) : Type ℓ where
    pub wf : IsWf g
    pub index : IsValid g.vidx
    pub known :
        (j : K) (p : ℕ)
        → place_of g.vidx j ≡ some p
        → (v : Vertex K) × (get_elem? g.vertices p ≡ some v) × (is_zero (ops.cmp v.value j) ≡ true)
    pub fits : length g.vertices ≤ g.sz
    pub adj_fits : (i : ℕ) (v : Vertex K) → get_elem? g.vertices i ≡ some v → length v.adj ≤ v.sz

  -- The capacities can still grow.
  pub record IsNarrow (g : Graph K) : Type ℓ where
    pub index : g.vidx.sz < widest
    pub vertices : g.sz < widest
    pub adj : (i : ℕ) (v : Vertex K) → get_elem? g.vertices i ≡ some v → v.sz < widest

  pub lookup-place_of :
      (g : Graph K) (j : K) → IsValid g.vidx → vindex_lookup g j ≡ ok (place_of g.vidx j)
  unfolding vindex_lookup
  lookup-place_of g j v = hash_pos_vindex-place_of g.vidx j v

  pub graph_new-IsBuilt : IsBuilt graph_new
  unfolding graph_new
  graph_new-IsBuilt = record {
    wf = record { targets = λ i y m. cc; indexed = λ i v e. cc };
    index = hash_new_vindex-IsValid;
    known = λ j p e. cc (place_of-new j, e);
    fits = omega arith;
    adj_fits = λ i v e. cc;
  }

  -- What `graph_add_vertex` makes of a graph.
  pub record AddedVertex (g : Graph K) (value : K) (g' : Graph K) : Type ℓ where
    pub built : IsBuilt g'
    pub place : (p : ℕ) × (place_of g'.vidx value ≡ some p)
    pub keeps : (j : K) (p : ℕ) → place_of g.vidx j ≡ some p → place_of g'.vidx j ≡ some p
    pub edges : (i : ℕ) → adj_of g'.vertices i ≡ adj_of g.vertices i
    pub old :
        (i : ℕ) (v : Vertex K)
        → get_elem? g'.vertices i ≡ some v
        → (get_elem? g.vertices i ≡ some v) ⊎ (v ≡ vertex_init value)

  module _ (g : Graph K) (value : K) (built : IsBuilt g) (absent : place_of g.vidx value ≡ none)
      (vidx : Vindex K) (sz : ℕ) (valid : IsValid vidx)
      (reads : (j : K)
        → place_of vidx j
          ≡ or_else
              (place_of g.vidx j)
              (if is_zero (ops.cmp value j) then some (length g.vertices) else none)) where
    longer : List (Vertex K)
    longer = g.vertices ++ (vertex_init value ∷ [])

    longer_at :
        (i : ℕ)
        → get_elem? longer i
          ≡ (if length g.vertices == i then some (vertex_init value) else get_elem? g.vertices i)
    unfolding longer
    longer_at i = get_elem?-append g.vertices (vertex_init value) i

    longer_old :
        (i : ℕ) (v : Vertex K)
        → get_elem? longer i ≡ some v
        → (get_elem? g.vertices i ≡ some v) ⊎ ((i ≡ length g.vertices) × (v ≡ vertex_init value))
    longer_old i v e = elim (Bool-cases (length g.vertices == i)) [
      | inl h ↦ inr (ground (arith, h), ground (arith, e, longer_at i, h))
      | inr h ↦ inl (sym (if-false _ _ h) ∙ sym (longer_at i) ∙ e)
    ]

    longer_adj : (i : ℕ) → adj_of longer i ≡ adj_of g.vertices i
    unfolding vertex_init
    longer_adj i = elim (Bool-cases (length g.vertices == i)) [
      | inl h ↦ elim (Option-cases (get_elem? g.vertices i)) [
        | inl e ↦ ap adj? (longer_at i ∙ if-true _ _ h) ∙ sym (ap adj? e)
        | inr (v, e) ↦ absurd (ground (arith, lt-of-get_elem? g.vertices i v e))
      ]
      | inr h ↦ ap adj? (longer_at i ∙ if-false _ _ h)
    ]

    longer-length : length longer ≡ suc (length g.vertices)
    unfolding longer
    longer-length = omega (arith, length-append g.vertices (vertex_init value ∷ []))

    old_place : (j : K) (p : ℕ) → place_of g.vidx j ≡ some p → place_of vidx j ≡ some p
    unfolding or_else
    old_place j p e = rw (reads j, e) refl

    new_place : place_of vidx value ≡ some (length g.vertices)
    unfolding or_else
    new_place = rw (reads value, absent, ops.same_refl value) refl

    longer_before :
        (p : ℕ) (v : Vertex K) → get_elem? g.vertices p ≡ some v → get_elem? longer p ≡ some v
    longer_before p v e =
        longer_at p
        ∙ if-false {b = length g.vertices == p} _ _
            (ground (arith, lt-of-get_elem? g.vertices p v e))
        ∙ e

    new_known :
        (j : K) (p : ℕ)
        → place_of vidx j ≡ some p
        → (v : Vertex K) × (get_elem? longer p ≡ some v) × (is_zero (ops.cmp v.value j) ≡ true)
    unfolding or_else vertex_init
    new_known j p e = elim (Option-cases (place_of g.vidx j)) [
      | inr (q, was) ↦
          let same : q ≡ p = ground (arith, sym (old_place j q was) ∙ e) in
          let (v, there, alike) = built.known j p (was ∙ ap some same) in
          (v, longer_before p v there, alike)
      | inl none_yet ↦ elim (Bool-cases (is_zero (ops.cmp value j))) [
        | inl alike ↦
            let here : length g.vertices ≡ p = ground (arith, sym (reads j) ∙ e, none_yet, alike) in
            (
              vertex_init value,
              longer_at p ∙ if-true {b = length g.vertices == p} _ _ (ground (arith, here)),
              alike,
            )
        | inr other ↦ ground (arith, sym (reads j) ∙ e, none_yet, other)
      ]
    ]

    new_indexed :
        (i : ℕ) (v : Vertex K) → get_elem? longer i ≡ some v → place_of vidx v.value ≡ some i
    unfolding vertex_init
    new_indexed i v e = elim (longer_old i v e) [
      | inl old ↦
          old_place v.value i
            (ground (arith, sym (lookup-place_of g v.value built.index) ∙ built.wf.indexed i v old))
      | inr (at, new) ↦
          ap (λ (w : Vertex K). place_of vidx w.value) new ∙ new_place ∙ ap some (sym at)
    ]

    new-IsBuilt :
        length g.vertices < sz → IsBuilt (record { vertices = longer; vidx = vidx; sz = sz })
    unfolding vertex_init
    new-IsBuilt room = record {
      wf = record {
        targets =
            λ i y m. ground (arith, built.wf.targets i y (rw (longer_adj i) at m), longer-length);
        indexed = λ i v e.
            lookup-place_of (record { vertices = longer; vidx = vidx; sz = sz }) v.value valid
            ∙ ap ok (new_indexed i v e);
      };
      index = valid;
      known = new_known;
      fits = omega (arith, longer-length);
      adj_fits = λ i v e. elim (longer_old i v e) [
        | inl old ↦ built.adj_fits i v old
        | inr (at, new) ↦ rw new (omega arith)
      ];
    }

    new_AddedVertex :
        length g.vertices < sz
        → AddedVertex g value (record { vertices = longer; vidx = vidx; sz = sz })
    new_AddedVertex room = record {
      built = new-IsBuilt room;
      place = (length g.vertices, new_place);
      keeps = old_place;
      edges = longer_adj;
      old = λ i v e. elim (longer_old i v e) [ inl old ↦ inl old | inr (at, new) ↦ inr new ];
    }

  -- A new vertex ends up behind the others.
  append_vertex :
      (g : Graph K) (value : K) (sz : ℕ)
      → IsBuilt g
      → g.vidx.sz < widest
      → place_of g.vidx value ≡ none
      → length g.vertices < sz
      → Returns
          (hash_insert_vindex g.vidx (record { value = value; idx = length g.vertices }) >>= λ vidx.
            ok (record { vertices = g.vertices ++ (vertex_init value ∷ []); vidx = vidx; sz = sz }))
          (λ g'. AddedVertex g value g')
  unfolding longer
  append_vertex g value sz built narrow absent room =
      let (vidx, run, (valid, reads)) =
        hash_insert_vindex-place_of g.vidx (record { value = value; idx = length g.vertices })
          built.index narrow in
      (
        record { vertices = g.vertices ++ (vertex_init value ∷ []); vidx = vidx; sz = sz },
        rw run refl,
        new_AddedVertex g value built absent vidx sz valid reads room,
      )

  -- Adding a vertex to a well-formed graph that can still grow ends in a well-formed graph, whose
  -- index knows the vertex; the places and the edges of before stay.
  pub graph_add_vertex-AddedVertex :
      (g : Graph K) (value : K)
      → IsBuilt g
      → IsNarrow g
      → Returns (graph_add_vertex g value) (λ g'. AddedVertex g value g')
  unfolding graph_add_vertex graph_grow
  graph_add_vertex-AddedVertex g value built narrow = elim (Option-cases (place_of g.vidx value)) [
    | inr (p, at) ↦ (
      g,
      rw (lookup-place_of g value built.index, at) refl,
      record {
        built = built;
        place = (p, at);
        keeps = λ j q e. e;
        edges = λ i. refl;
        old = λ i v e. inl e;
      },
    )
    | inl absent ↦ elim (Bool-cases (leb g.sz (length g.vertices))) [
      | inl full ↦
          rw (lookup-place_of g value built.index, absent, full)
            (append_vertex g value (new_alloc_size g.sz) built narrow.index absent
              (ground (arith, built.fits, (new_alloc_size-grows g.sz).1 narrow.vertices)))
      | inr roomy ↦
          rw (lookup-place_of g value built.index, absent, roomy)
            (append_vertex g value g.sz built narrow.index absent (ground arith))
    ]
  ]
