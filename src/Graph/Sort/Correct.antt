-- ===== src/Graph/Sort/Correct.antt =====
-- graph.c: `graph_toposort` decides whether the graph has a cycle, and where it has none gives a
-- topological order.
use powaur.Base.{ℕ, ◌<◌, ◌≡◌, ◌≢◌, ◌↔◌, refl, ap, ◌∙◌, Bool, true, false, inl, inr}
use powaur.Base.{
  List, [], ◌∷◌, Option, some, length, get_elem?, lt-of-get_elem?, mem, ltb, ◌==◌, arith, ∥∥₁_elim,
  map, Bool-cases, Option-cases,
}
use powaur.Base.{ok, Returns}
use powaur.Hash.Keys.{KeyOps}
use powaur.Graph.Stack.{Stack}
use powaur.Graph.Defs.{Graph, Vertex, white, vindex_lookup}
use powaur.Graph.Sort.{graph_toposort}
use powaur.Graph.Sort.View.{color_of, adj_of, color?, adj?}
use powaur.Graph.Sort.Inv.{IsTopo, Walk, here, step, Cycle}
use powaur.Graph.Sort.Step.{Color-cases}
use powaur.Graph.Sort.Loop.{Rest}
use powaur.Graph.Sort.Outer.{Sorted, all_finished, has_cycle, graph_toposort-Sorted}

module _ (adj : ℕ → List ℕ) where
  -- What a vertex of an order leads to is in the order.
  topo_closed :
      (o : List ℕ) (a b : ℕ) → IsTopo adj o → mem o a ≡ true → mem (adj a) b ≡ true → mem o b ≡ true
  topo_closed [] a b t m e = cc
  topo_closed (x ∷ o) a b t m e = elim (Bool-cases (x == a)) [
    | inl h ↦ let same : x ≡ a = ground arith in ground (arith, t.0 b (rw same e))
    | inr h ↦ ground (arith, topo_closed o a b t.2 (rw h at m) e)
  ]

  topo-Walk : (o : List ℕ) (a b : ℕ) → IsTopo adj o → mem o a ≡ true → Walk adj a b → mem o b ≡ true
  topo-Walk o a b t m here = m
  topo-Walk o a b t m (step {b = c} w e) = topo_closed o c b t (topo-Walk o a c t m w) e

  -- A vertex of a topological order is on no cycle.
  pub topo_acyclic : (o : List ℕ) (c : Cycle adj) → IsTopo adj o → mem o c.vertex ≡ true → ⊥
  topo_acyclic [] c t m = cc
  topo_acyclic (x ∷ o) c t m = elim (Bool-cases (x == c.vertex)) [
    | inl h ↦
        let same : x ≡ c.vertex = ground arith in
        let again = topo-Walk o c.next c.vertex t.2 (t.0 c.next (rw same c.edge)) c.back in
        ground (arith, t.1, again)
    | inr h ↦ topo_acyclic o c t.2 (rw h at m)
  ]

module _ {ℓ} {K : Type ℓ} ⦃ops : KeyOps K⦄ where
  -- A graph as the operations build it: edges lead to vertices, and the index gives the place of
  -- each vertex.
  pub record IsWf (g : Graph K) : Type ℓ where
    pub targets : (i y : ℕ) → mem (adj_of g.vertices i) y ≡ true → y < length g.vertices
    pub indexed :
        (i : ℕ) (v : Vertex K)
        → get_elem? g.vertices i ≡ some v
        → vindex_lookup g v.value ≡ ok (some i)

  -- The places of the graph's vertices, each once, so that edges lead from the front to the back.
  pub record IsOrder (g : Graph K) (o : List ℕ) : Type ℓ where
    pub topo : IsTopo (adj_of g.vertices) o
    pub all : (i : ℕ) → mem o i ≡ ltb i (length g.vertices)

  -- The result 0 comes with a topological order on the stack, the first vertex on top; the result
  -- -1 comes exactly if the graph has a cycle.
  pub record Decides (g : Graph K) (topost : Stack (Option ℕ)) (b : Bool) : Type ℓ where
    pub order : b ≡ false → (o : List ℕ) × (topost.items ≡ map some o) × IsOrder g o
    pub cycle_iff : (b ≡ true) ↔ ∥ Cycle (adj_of g.vertices) ∥₁

  -- A vertex with an edge is one of the graph's.
  source_lt :
      (vs : List (Vertex K)) (i y : ℕ) → mem (adj_of vs i) y ≡ true → ltb i (length vs) ≡ true
  source_lt vs i y m = elim (Option-cases (get_elem? vs i)) [
    | inl e ↦ cc (m, ap adj? e)
    | inr (v, at) ↦ ground (arith, lt-of-get_elem? vs i v at)
  ]

  pub finished_all :
      (g g' : Graph K) (t' : Stack (Option ℕ)) (wf : IsWf g) (o : List ℕ)
      → Rest (adj_of g.vertices) (length g.vertices) wf.targets g' t' o
      → ((j : ℕ) → j < length g.vertices → color_of g'.vertices j ≢ white)
      → (i : ℕ) → mem o i ≡ ltb i (length g.vertices)
  finished_all g g' t' wf o rest seen i = elim (Bool-cases (ltb i (length g.vertices))) [
    | inl lt ↦ elim (Color-cases (color_of g'.vertices i)) [
      | inl w ↦ absurd (seen i (ground (arith, lt)) w)
      | inr (inl w) ↦ cc (rest.abs.grays i, w)
      | inr (inr w) ↦ cc (rest.abs.blacks i, w, lt)
    ]
    | inr ge ↦ elim (Option-cases (get_elem? g'.vertices i)) [
      | inl e ↦ cc (rest.abs.blacks i, ap color? e, ge)
      | inr (v, at) ↦
          absurd (ground (arith, lt-of-get_elem? g'.vertices i v at, rest.keeps.size, ge))
    ]
  ]

  conclude :
      (g g' : Graph K) (t' : Stack (Option ℕ)) (b : Bool) (wf : IsWf g)
      → Sorted (adj_of g.vertices) (length g.vertices) wf.targets g' t' b
      → Decides g t' b
  conclude g g' t' b wf (all_finished o rest seen) = record {
    order = λ e. (
      o,
      rest.written,
      record { topo = rest.abs.topo; all = finished_all g g' t' wf o rest seen },
    );
    cycle_iff = (
      λ e. cc,
      λ e. absurd (
          ∥∥₁_elim {P = ⊥} e (hlevel) (λ c. topo_acyclic (adj_of g.vertices) o c rest.abs.topo (
            finished_all g g' t' wf o rest seen c.vertex
            ∙ source_lt g.vertices c.vertex c.next c.edge))),
    );
  }
  conclude g g' t' b wf (has_cycle c) = record {
    order = λ e. cc;
    cycle_iff = (λ e. ∣ c ∣₁, λ e. refl);
  }

  -- From an empty stack, the sort of a graph whose edges lead to vertices and whose index is right
  -- ends, whatever colors an earlier sort left, and decides whether there is a cycle.
  pub graph_toposort-Decides :
      (g : Graph K) (t : Stack (Option ℕ))
      → IsWf g
      → t.items ≡ []
      → Returns (graph_toposort g t) (λ r. Decides g r.1 r.2)
  graph_toposort-Decides g t wf e =
      let (r, run, s) =
        graph_toposort-Sorted (adj_of g.vertices) (length g.vertices) wf.targets g t
          (record { size = refl; same = λ i. refl; indexed = wf.indexed }) e in
      (r, run, conclude g r.0 r.1 r.2 wf s)
