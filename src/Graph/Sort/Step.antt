-- ===== src/Graph/Sort/Step.antt =====
-- graph.c: one round of the loop of `graph_dfs`.
use powaur.Base.{ℕ, ◌+◌, ◌-◌, ◌<◌, ◌≤◌, ◌≡◌, ◌≢◌, ◌⊎◌, refl, sym, ap, ◌∙◌, inl, inr}
use powaur.Base.{List, ◌∷◌, some, length, get_elem?, set, ◌==◌, arith, map}
use powaur.Base.{ok, Returns, Bool-cases, length-set, if-true, if-false}
use powaur.Hash.Keys.{KeyOps}
use powaur.Hash.Vindex.{hash_pos_vindex}
use powaur.Graph.Stack.{Stack, stack_push, stack_pop}
use powaur.Graph.Stack.Laws.{Fits, stack_push-items}
use powaur.Graph.Defs.{Graph, Vertex, Color, white, gray, black, vindex_lookup}
use powaur.Graph.Sort.{Search, Round, more, cycle, drop_top, finish}
use powaur.Graph.Sort.View.{
  color_of, idx_of, adj_of, get_elem?-write, color_of-write, idx_of-write, adj_of-write, cost, work,
  work-set, if-same,
}
use powaur.Graph.Sort.Inv.{Abs, Cycle, finish-Abs}

pub Color-cases : (c : Color) → (c ≡ white) ⊎ (c ≡ gray) ⊎ (c ≡ black)
Color-cases white = inl refl
Color-cases gray = inr (inl refl)
Color-cases black = inr (inr refl)

module _ {ℓ} {K : Type ℓ} ⦃ops : KeyOps K⦄ where
  -- What stays of a graph while it is searched: the edges `adj` of its `n` vertices, and that the
  -- index gives the place of each vertex.
  pub record Keeps (adj : ℕ → List ℕ) (n : ℕ) (g : Graph K) : Type ℓ where
    pub size : length g.vertices ≡ n
    pub same : (i : ℕ) → adj_of g.vertices i ≡ adj i
    pub indexed :
        (i : ℕ) (v : Vertex K)
        → get_elem? g.vertices i ≡ some v
        → vindex_lookup g v.value ≡ ok (some i)

  pub record Inv (adj : ℕ → List ℕ) (n : ℕ) (s : Search K) (o : List ℕ) : Type ℓ where
    pub keeps : Keeps adj n s.graph
    pub fits : Fits s.st
    pub written : s.topost.items ≡ map some o
    pub abs : Abs adj (color_of s.graph.vertices) (idx_of s.graph.vertices) s.st.items o

  -- No vertex becomes white.
  abbrev pub Paints : Graph K → Graph K → Type 0
  Paints g g' = (j : ℕ) → color_of g.vertices j ≢ white → color_of g'.vertices j ≢ white

  -- A round that goes on keeps the invariant and brings the end nearer; one that breaks off has
  -- found a cycle.
  pub data After (adj : ℕ → List ℕ) (n : ℕ) (s : Search K) : Round K → Type ℓ where
    onward :
        {s' : Search K} (o' : List ℕ)
        → Inv adj n s' o'
        → work s'.graph.vertices < work s.graph.vertices
        → Paints s.graph s'.graph
        → After adj n s (more s')
    broken : {s' : Search K} → Cycle adj → After adj n s (cycle s')

  -- A write to a vertex that keeps its data and its edges.
  pub write-Keeps :
      (adj : ℕ → List ℕ) (n : ℕ) (g : Graph K) (i : ℕ) (v v' : Vertex K)
      → Keeps adj n g
      → get_elem? g.vertices i ≡ some v
      → v'.adj ≡ v.adj
      → v'.value ≡ v.value
      → Keeps adj n (record g { vertices = set g.vertices i v' })
  unfolding vindex_lookup
  write-Keeps adj n g i v v' k at same_adj same_value = record {
    size = length-set g.vertices i v' ∙ k.size;
    same = λ j. adj_of-write g.vertices i v v' at same_adj j ∙ k.same j;
    indexed = λ j w h.
        let now = get_elem?-write g.vertices i v v' at j in
        elim (Bool-cases (i == j)) [
          | inl e ↦
              let here : i ≡ j = ground arith in
              let wrote : w ≡ v' = cc (now ∙ if-true _ _ e, h) in
              ap (λ (u : Vertex K). hash_pos_vindex g.vidx u.value) wrote
              ∙ ap (λ (u : K). hash_pos_vindex g.vidx u) same_value
              ∙ k.indexed i v at
              ∙ ap (λ (t : ℕ). ok (some t)) here
          | inr e ↦ k.indexed j w (sym (if-false _ _ e) ∙ sym now ∙ h)
        ];
  }

  -- A write of a color other than white makes no vertex white.
  pub write-Paints :
      (g : Graph K) (i : ℕ) (v v' : Vertex K)
      → get_elem? g.vertices i ≡ some v
      → (v'.color ≡ white → v.color ≡ white)
      → Paints g (record g { vertices = set g.vertices i v' })
  write-Paints g i v v' at keep j painted w = elim (Bool-cases (i == j)) [
    | inl e ↦
        let here : i ≡ j = ground arith in
        painted (
          ap (λ (t : ℕ). color_of g.vertices t) (sym here)
          ∙ rw at (keep (sym (color_of-write g.vertices i v v' at j ∙ if-true _ _ e) ∙ w)))
    | inr e ↦ painted (sym (color_of-write g.vertices i v v' at j ∙ if-false _ _ e) ∙ w)
  ]

  module _ (adj : ℕ → List ℕ) (n : ℕ) (s : Search K) (o : List ℕ) (cur : ℕ) (below : List ℕ)
      (v : Vertex K) (inv : Inv adj n s o) (top : s.st.items ≡ cur ∷ below)
      (at : get_elem? s.graph.vertices cur ≡ some v) where
    open inv use {keeps, fits, written, abs}

    pub topped : Abs adj (color_of s.graph.vertices) (idx_of s.graph.vertices) (cur ∷ below) o
    topped = rw top at abs

    pub top_color : v.color ≡ gray
    top_color =
        let c : color_of s.graph.vertices cur ≡ v.color = rw at in ground (arith, topped.grays cur)

    pub own_adj : v.adj ≡ adj cur
    own_adj = sym (rw at) ∙ keeps.same cur

    pub own_idx : idx_of s.graph.vertices cur ≡ v.dfs_idx
    own_idx = rw at

    popped_top : (rest : Stack ℕ) × (drop_top s.st ≡ ok rest) × (rest.items ≡ below) × Fits rest
    unfolding drop_top stack_pop
    popped_top = (
      record s.st { items = below },
      ground (arith, top, fits.room),
      refl,
      record { room = fits.room; within = omega (arith, ap length top, fits.within) },
    )

    pub looked_up :
        vindex_lookup
          (record s.graph { vertices = set s.graph.vertices cur (record v { color = black }) })
          v.value
        ≡ ok (some cur)
    unfolding vindex_lookup
    looked_up = keeps.indexed cur v at

    pub finish-After : length v.adj ≤ v.dfs_idx → Returns (finish s cur v) (After adj n s)
    unfolding finish
    finish-After all =
        let v' : Vertex K = record v { color = black } in
        let (rest, run, items, f) = popped_top in
        let spent : cost v ≡ (length v.adj - v.dfs_idx) + 1 = rw top_color in
        let less = work-set s.graph.vertices cur v v' at in
        let recolor = color_of-write s.graph.vertices cur v v' at in
        let recount = idx_of-write s.graph.vertices cur v v' at in
        let s' : Search K = record {
          graph = record s.graph { vertices = set s.graph.vertices cur v' };
          st = rest;
          topost = stack_push s.topost (some cur);
        } in
        (
          more s',
          rw (looked_up, run),
          onward {s' = s'} (cur ∷ o)
              (record {
                keeps = write-Keeps adj n s.graph cur v v' keeps at refl refl;
                fits = f;
                written = stack_push-items s.topost (some cur) ∙ ap (λ t. some cur ∷ t) written;
                abs = rw items (
                    finish-Abs adj _ _ _ _ cur cur below o topped
                      (omega (arith, own_idx, ap length own_adj)) recolor
                      (λ i. recount i ∙ if-same (idx_of s.graph.vertices) cur i v.dfs_idx own_idx));
              })
              (omega arith) (write-Paints s.graph cur v v' at (λ e. cc)),
        )
