-- ===== src/Graph/Sort/Outer.antt =====
-- graph.c: the loop of `graph_toposort` over the vertices.
use powaur.Base.{ℕ, zero, suc, ◌+◌, ◌<◌, ◌≡◌, ◌≢◌, refl, ap, ◌∙◌, Bool, true, false, inl, inr}
use powaur.Base.{
  List, [], Option, length, get_elem?-lt, mem, ◌==◌, if◌then◌else◌, arith, map, length-map,
  Bool-cases,
}
use powaur.Base.{ok, Returns}
use powaur.Hash.Keys.{KeyOps}
use powaur.Hash.Vindex.{hash_pos_vindex}
use powaur.Graph.Stack.{Stack}
use powaur.Graph.Defs.{Graph, white, vertex_dfs_reset, vindex_lookup}
use powaur.Graph.Sort.{toposort_loop, graph_toposort}
use powaur.Graph.Sort.View.{color_of, adj_of-reset, color_of-reset, idx_of-reset, get_elem?-reset}
use powaur.Graph.Sort.Inv.{is_gray, is_black, Cycle}
use powaur.Graph.Sort.Step.{Color-cases, Keeps}
use powaur.Graph.Sort.Loop.{Rest, Searched, done, cyclic_too, graph_dfs-Searched}

module _ {ℓ} {K : Type ℓ} ⦃ops : KeyOps K⦄ (adj : ℕ → List ℕ) (n : ℕ)
    (targets : (i y : ℕ) → mem (adj i) y ≡ true → y < n) where
  -- How the sort ends: with every vertex finished, or at a cycle.
  pub data Sorted (g' : Graph K) (t' : Stack (Option ℕ)) : Bool → Type ℓ where
    all_finished :
        (o : List ℕ)
        → Rest adj n targets g' t' o
        → ((j : ℕ) → j < n → color_of g'.vertices j ≢ white)
        → Sorted g' t' false
    has_cycle : Cycle adj → Sorted g' t' true

  past_one :
      (g : Graph K) (i : ℕ)
      → ((j : ℕ) → j < i → color_of g.vertices j ≢ white)
      → color_of g.vertices i ≢ white
      → (j : ℕ) → j < i + 1
      → color_of g.vertices j ≢ white
  past_one g i past now j lt h = elim (Bool-cases (i == j)) [
    | inl e ↦ let same : i ≡ j = ground arith in now (ap (color_of g.vertices) same ∙ h)
    | inr e ↦ past j (ground arith) h
  ]

  -- What follows a search, given how the loop ends from where the search leads.
  after_search :
      (left i : ℕ) (g g' : Graph K) (t' : Stack (Option ℕ)) (b : Bool)
      → ((j : ℕ) → j < i → color_of g.vertices j ≢ white)
      → Searched adj n targets g i g' t' b
      → ((g₁ : Graph K) (t₁ : Stack (Option ℕ)) (o₁ : List ℕ)
          → Rest adj n targets g₁ t₁ o₁
          → ((j : ℕ) → j < i + 1 → color_of g₁.vertices j ≢ white)
          → Returns (toposort_loop left (i + 1) g₁ t₁) (λ r. Sorted r.0 r.1 r.2))
      → Returns
          (if b then ok (g', t', b) else toposort_loop left (i + 1) g' t')
          (λ r. Sorted r.0 r.1 r.2)
  after_search left i g g' t' b past (done o' rest p now) loops =
      loops g' t' o' rest (past_one g' i (λ j lt. p j (past j lt)) now)
  after_search left i g g' t' b past (cyclic_too c) loops = ((g', t', true), refl, has_cycle c)

  toposort_loop-Sorted :
      (left i : ℕ) (g : Graph K) (t : Stack (Option ℕ)) (o : List ℕ)
      → Rest adj n targets g t o
      → i + left ≡ n
      → ((j : ℕ) → j < i → color_of g.vertices j ≢ white)
      → Returns (toposort_loop left i g t) (λ r. Sorted r.0 r.1 r.2)
  unfolding toposort_loop
  toposort_loop-Sorted zero i g t o rest e past =
      ((g, t, false), refl, all_finished o rest (λ j h. past j (omega arith)))
  toposort_loop-Sorted (suc left) i g t o rest e past =
      let (v, at) = get_elem?-lt g.vertices i (omega (arith, rest.keeps.size)) in
      let c : color_of g.vertices i ≡ v.color = rw at in
      elim (Color-cases v.color) [
        | inr (inl w) ↦
            rw (at, toposort_loop, w)
              (toposort_loop-Sorted left (i + 1) g t o rest (omega arith)
                (past_one g i past (λ h. cc)))
        | inr (inr w) ↦
            rw (at, toposort_loop, w)
              (toposort_loop-Sorted left (i + 1) g t o rest (omega arith)
                (past_one g i past (λ h. cc)))
        | inl w ↦
            let (r, run, s) = graph_dfs-Searched adj n targets g i v t o rest at w in
            let (end, runs, d) = after_search left i g r.0 r.1 r.2 past s (λ g' t' o' rest' past'.
              toposort_loop-Sorted left (i + 1) g' t' o' rest' (omega arith) past') in
            (end, rw (at, toposort_loop, w, run) runs, d)
      ]

  -- From any graph of `n` vertices and the edges `adj`, whatever an earlier sort left there.
  pub graph_toposort-Sorted :
      (g : Graph K) (t : Stack (Option ℕ))
      → Keeps adj n g
      → t.items ≡ []
      → Returns (graph_toposort g t) (λ r. Sorted r.0 r.1 r.2)
  unfolding graph_toposort vindex_lookup
  graph_toposort-Sorted g t k e =
      let g' : Graph K = record g { vertices = map vertex_dfs_reset g.vertices } in
      let rest : Rest adj n targets g' t [] = record {
        keeps = record {
          size = length-map vertex_dfs_reset g.vertices ∙ k.size;
          same = λ i. adj_of-reset g.vertices i ∙ k.same i;
          indexed = λ i v h.
              let (u, there, same) = get_elem?-reset g.vertices i v h in
              ap (λ (x : K). hash_pos_vindex g.vidx x) same ∙ k.indexed i u there;
        };
        written = e;
        abs = record {
          grays = λ i. ap is_gray (color_of-reset g.vertices i);
          blacks = λ i. ap is_black (color_of-reset g.vertices i);
          nodup = tt;
          fresh = λ i w. idx_of-reset g.vertices i;
          chain = tt;
          explored = tt;
          topo = tt;
        };
      } in
      toposort_loop-Sorted (length g'.vertices) 0 g' t [] rest (omega (arith, rest.keeps.size))
        (λ j h. absurd (omega arith))
