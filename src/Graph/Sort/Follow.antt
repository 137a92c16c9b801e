-- ===== src/Graph/Sort/Follow.antt =====
-- graph.c: a round that follows an edge, and the rounds together.
use powaur.Base.{ℕ, suc, ◌+◌, ◌-◌, ◌<◌, ◌≡◌, refl, sym, ap, ◌∙◌, true, inl, inr}
use powaur.Base.{
  List, ◌∷◌, some, length, get_elem?, get_elem?-lt, set, mem, ◌==◌, if◌then◌else◌, arith, leb,
}
use powaur.Base.{Returns, Option-cases, Bool-cases, mem-get_elem?}
use powaur.Hash.Keys.{KeyOps}
use powaur.Graph.Stack.{stack_push}
use powaur.Graph.Stack.Laws.{stack_push-items, stack_push-Fits}
use powaur.Graph.Defs.{Graph, Vertex, white, gray}
use powaur.Graph.Sort.{Search, more, visit, follow, dfs_round}
use powaur.Graph.Sort.View.{
  color_of, idx_of, color_of-write, idx_of-write, cost, work, work-set, if-same,
}
use powaur.Graph.Sort.Inv.{is_gray, push-Abs, skip-Abs, gray-Cycle}
use powaur.Graph.Sort.Step.{
  Color-cases, Keeps, Inv, Paints, After, onward, broken, write-Keeps, write-Paints, topped,
  own_adj, own_idx, finish-After,
}

module _ {ℓ} {K : Type ℓ} ⦃ops : KeyOps K⦄ where
  module _ (adj : ℕ → List ℕ) (n : ℕ) (s : Search K) (o : List ℕ) (cur : ℕ) (below : List ℕ)
      (v : Vertex K) (inv : Inv adj n s o) (top : s.st.items ≡ cur ∷ below)
      (at : get_elem? s.graph.vertices cur ≡ some v) where
    open inv use {keeps, fits, written}

    abbrev edges : v.adj ≡ adj cur
    edges = own_adj adj n s o cur below v inv top at

    abbrev counter : idx_of s.graph.vertices cur ≡ v.dfs_idx
    counter = own_idx adj n s o cur below v inv top at

    module _ (targets : (i y : ℕ) → mem (adj i) y ≡ true → y < n)
        (left : v.dfs_idx < length v.adj) where
      abbrev v₁ : Vertex K
      v₁ = record v { dfs_idx = v.dfs_idx + 1 }

      abbrev g₁ : Graph K
      g₁ = record s.graph { vertices = set s.graph.vertices cur v₁ }

      keeps₁ : Keeps adj n g₁
      keeps₁ = write-Keeps adj n s.graph cur v v₁ keeps at refl refl

      next_edge : (next : ℕ) × (get_elem? v.adj v.dfs_idx ≡ some next)
      next_edge = get_elem?-lt v.adj v.dfs_idx left

      next_vertex : (w : Vertex K) × (get_elem? g₁.vertices next_edge.0 ≡ some w)
      next_vertex = get_elem?-lt g₁.vertices next_edge.0 (
          omega (
            arith,
            keeps₁.size,
            targets cur next_edge.0
                (rw (← edges) (mem-get_elem? v.adj v.dfs_idx next_edge.0 next_edge.1)),
          ))

      color₁ : (i : ℕ) → color_of g₁.vertices i ≡ color_of s.graph.vertices i
      color₁ i =
          color_of-write s.graph.vertices cur v v₁ at i
          ∙ if-same (color_of s.graph.vertices) cur i v.color (rw at)

      idx₁ :
          (i : ℕ)
          → idx_of g₁.vertices i
            ≡ (if cur == i then suc (idx_of s.graph.vertices cur) else idx_of s.graph.vertices i)
      idx₁ i = idx_of-write s.graph.vertices cur v v₁ at i ∙ rw counter (ground arith)

      at_idx : get_elem? (adj cur) (idx_of s.graph.vertices cur) ≡ some next_edge.0
      at_idx = rw (counter, ← edges) next_edge.1

      work₁ : work g₁.vertices < work s.graph.vertices
      work₁ = omega (arith, work-set s.graph.vertices cur v v₁ at)

      paints₁ : Paints s.graph g₁
      paints₁ = write-Paints s.graph cur v v₁ at (λ e. e)

      abbrev s₁ : Search K
      s₁ = record s { graph = g₁ }

      push-After :
          (w : Vertex K)
          → get_elem? g₁.vertices next_edge.0 ≡ some w
          → color_of s.graph.vertices next_edge.0 ≡ white
          → w.color ≡ white
          → After adj n s (
              more (record {
                graph = record g₁ {
                  vertices = set g₁.vertices next_edge.0 (record w { color = gray });
                };
                st = stack_push s.st next_edge.0;
                topost = s.topost;
              }))
      push-After w there was e =
          let w' : Vertex K = record w { color = gray } in
          let next = next_edge.0 in
          let even : cost w ≡ (length w.adj - w.dfs_idx) + 1 = rw e in
          let less = work-set g₁.vertices next w w' there in
          let less₁ = work₁ in
          onward o
            (record {
              keeps = write-Keeps adj n g₁ next w w' keeps₁ there refl refl;
              fits = stack_push-Fits s.st next fits;
              written = written;
              abs =
                  rw (stack_push-items s.st next, top)
                    (push-Abs adj _ _ _ _ cur next below o (topped adj n s o cur below v inv top at)
                      at_idx
                      (λ i.
                        idx_of-write g₁.vertices next w w' there i
                        ∙ if-same (idx_of g₁.vertices) next i w.dfs_idx (rw there)
                        ∙ idx₁ i)
                      was (λ i. color_of-write g₁.vertices next w w' there i ∙ rw (color₁ i)));
            })
            (omega arith) (λ j p. write-Paints g₁ next w w' there (λ t. cc) j (paints₁ j p))

      -- What the color of the next vertex decides.
      visit-After :
          (w : Vertex K)
          → get_elem? g₁.vertices next_edge.0 ≡ some w
          → After adj n s (visit s₁ next_edge.0 w)
      unfolding visit
      visit-After w there =
          let here : color_of s.graph.vertices next_edge.0 ≡ w.color =
            sym (color₁ next_edge.0) ∙ rw there in
          let stack = topped adj n s o cur below v inv top at in
          elim (Color-cases w.color) [
            | inl e ↦ rw (e, visit) (push-After w there (here ∙ e) e)
            | inr (inl e) ↦
                rw (e, visit)
                  (broken (
                    gray-Cycle adj _ (color_of g₁.vertices) _ (idx_of g₁.vertices) cur next_edge.0
                      below o stack at_idx idx₁ (here ∙ e)))
            | inr (inr e) ↦
                rw (e, visit)
                  (onward {s' = s₁} o
                    (record {
                      keeps = keeps₁;
                      fits = fits;
                      written = written;
                      abs = rw top (
                          skip-Abs adj _ _ _ _ cur next_edge.0 below o stack at_idx idx₁ (here ∙ e)
                            color₁);
                    })
                    work₁ paints₁)
          ]

      follow-After : Returns (follow s cur v) (After adj n s)
      unfolding follow
      follow-After = (
        visit s₁ next_edge.0 next_vertex.0,
        rw (next_edge.1, follow, next_vertex.1),
        visit-After next_vertex.0 next_vertex.1,
      )

  -- A round ends; it keeps the invariant and comes nearer to the end, or it has found a cycle.
  pub dfs_round-After :
      (adj : ℕ → List ℕ) (n : ℕ) (s : Search K) (o : List ℕ) (cur : ℕ) (below : List ℕ)
      → Inv adj n s o
      → s.st.items ≡ cur ∷ below
      → ((i y : ℕ) → mem (adj i) y ≡ true → y < n)
      → Returns (dfs_round s cur) (After adj n s)
  unfolding dfs_round
  dfs_round-After adj n s o cur below inv top targets =
      elim (Option-cases (get_elem? s.graph.vertices cur)) [
        | inl e ↦
            let g : is_gray (color_of s.graph.vertices cur) ≡ mem (cur ∷ below) cur =
              inv.abs.grays cur ∙ ap (λ (l : List ℕ). mem l cur) top in
            absurd (ground (arith, g))
        | inr (v, at) ↦ elim (Bool-cases (leb (length v.adj) v.dfs_idx)) [
          | inl e ↦
              let (r, run, a) = finish-After adj n s o cur below v inv top at (ground arith) in
              (r, rw (at, dfs_round, e) run, a)
          | inr e ↦
              let (r, run, a) =
                follow-After adj n s o cur below v inv top at targets (ground arith) in
              (r, rw (at, dfs_round, e) run, a)
        ]
      ]
