-- ===== src/Graph/Sort/Loop.antt =====
-- graph.c: the loop of `graph_dfs`, and `graph_dfs`, which starts it at one vertex.
use powaur.Base.{ℕ, zero, suc, ◌<◌, ◌≡◌, ◌≢◌, refl, ap, ◌∙◌, Bool, true, false, inl, inr}
use powaur.Base.{
  List, [], ◌∷◌, Option, some, get_elem?, set, mem, ◌==◌, if◌then◌else◌, arith, map, List-cases,
}
use powaur.Base.{Run, ok, Returns, if-true, ==_refl, take}
use powaur.Hash.Keys.{KeyOps}
use powaur.Graph.Stack.{Stack, stack_new, stack_push}
use powaur.Graph.Stack.Laws.{stack_push-items, stack_push-Fits, stack_peek-nil, stack_peek-cons}
use powaur.Graph.Defs.{Graph, Vertex, Color, white, gray}
use powaur.Graph.Sort.{Search, Round, more, cycle, dfs_loop, rounds_of, graph_dfs}
use powaur.Graph.Sort.View.{
  color_of, idx_of, color_of-write, idx_of-write, cost, work, work-set, if-same,
}
use powaur.Graph.Sort.Inv.{Abs, Cycle}
use powaur.Graph.Sort.Step.{Keeps, Inv, Paints, After, onward, broken, write-Keeps, write-Paints}
use powaur.Graph.Sort.Follow.{dfs_round-After}

work-lt-rounds_of {ℓ} : {K : Type ℓ} (vs : List (Vertex K)) → work vs < rounds_of vs
unfolding rounds_of
work-lt-rounds_of [] = omega arith
work-lt-rounds_of (v ∷ vs) = ground (arith, work-lt-rounds_of vs)

start-Abs :
    (adj : ℕ → List ℕ) (col col' : ℕ → Color) (idx idx' : ℕ → ℕ) (root : ℕ) (o : List ℕ)
    → Abs adj col idx [] o
    → col root ≡ white
    → ((i : ℕ) → col' i ≡ (if root == i then gray else col i))
    → ((i : ℕ) → idx' i ≡ idx i)
    → Abs adj col' idx' (root ∷ []) o
start-Abs adj col col' idx idx' root o a w recolor recount = record {
  grays = λ i. ground (arith, a.grays i, recolor i);
  blacks = λ i. ground (arith, a.blacks i, recolor i, w);
  nodup = (refl, tt);
  fresh = λ i e. ground (arith, recolor i, recount i, a.fresh i);
  chain = (tt, tt);
  explored = (
    λ y m.
        let e : idx' root ≡ 0 = recount root ∙ a.fresh root w in
        cc (ap (λ (k : ℕ). mem (take k (adj root)) y) e),
    tt,
  );
  topo = a.topo;
}

module _ {ℓ} {K : Type ℓ} ⦃ops : KeyOps K⦄ (adj : ℕ → List ℕ) (n : ℕ)
    (targets : (i y : ℕ) → mem (adj i) y ≡ true → y < n) where
  -- How the loop ends.
  data Ended (s s' : Search K) : Bool → Type ℓ where
    finished :
        (o' : List ℕ)
        → Inv adj n s' o'
        → s'.st.items ≡ []
        → Paints s.graph s'.graph
        → Ended s s' false
    cyclic : Cycle adj → Ended s s' true

  earlier : (s s₁ s' : Search K) (b : Bool) → Paints s.graph s₁.graph → Ended s₁ s' b → Ended s s' b
  earlier s s₁ s' b p (finished o' i e q) = finished o' i e (λ j h. q j (p j h))
  earlier s s₁ s' b p (cyclic c) = cyclic c

  -- What follows a round, given how the loop ends from where the round leads.
  After-dfs_round :
      (rounds : ℕ) (s : Search K) (r : Round K)
      → After adj n s r
      → work s.graph.vertices < suc rounds
      → ((s' : Search K) (o' : List ℕ)
          → Inv adj n s' o'
          → work s'.graph.vertices < rounds
          → Returns (dfs_loop rounds s') (λ t. Ended s' t.0 t.1))
      → Returns
          (elim r as (λ _. Run (Search K × Bool)) [
            | cycle s' ↦ ok (s', true)
            | more s' ↦ dfs_loop rounds s'
          ])
          (λ t. Ended s t.0 t.1)
  After-dfs_round rounds s (more s') (onward o' inv' less p) few loops =
      let (t, ends, d) = loops s' o' inv' (omega arith) in (t, ends, earlier s s' t.0 t.1 p d)
  After-dfs_round rounds s (cycle s') (broken c) few loops = ((s', true), refl, cyclic c)

  -- The loop ends in as many rounds as there is work.
  dfs_loop-Ended :
      (rounds : ℕ) (s : Search K) (o : List ℕ)
      → Inv adj n s o
      → work s.graph.vertices < rounds
      → Returns (dfs_loop rounds s) (λ r. Ended s r.0 r.1)
  unfolding dfs_loop
  dfs_loop-Ended zero s o inv few = absurd (omega arith)
  dfs_loop-Ended (suc rounds) s o inv few = elim (List-cases s.st.items) [
    | inl e ↦ ((s, false), rw (stack_peek-nil s.st e, dfs_loop), finished o inv e (λ j h. h))
    | inr (cur, below, e) ↦
        let (r, run, a) = dfs_round-After adj n s o cur below inv e targets in
        let (t, ends, d) = After-dfs_round rounds s r a few (dfs_loop-Ended rounds) in
        (t, rw (stack_peek-cons s.st cur below e, dfs_loop, run) ends, d)
  ]

  -- A graph between two searches, with the vertices `o` finished.
  pub record Rest (g : Graph K) (topost : Stack (Option ℕ)) (o : List ℕ) : Type ℓ where
    pub keeps : Keeps adj n g
    pub written : topost.items ≡ map some o
    pub abs : Abs adj (color_of g.vertices) (idx_of g.vertices) [] o

  -- How a search from a white vertex ends: with that vertex finished, or at a cycle.
  pub data Searched (g : Graph K) (root : ℕ) (g' : Graph K) (t' : Stack (Option ℕ))
      : Bool → Type ℓ where
    done :
        (o' : List ℕ)
        → Rest g' t' o'
        → Paints g g'
        → color_of g'.vertices root ≢ white
        → Searched g root g' t' false
    cyclic_too : Cycle adj → Searched g root g' t' true

  conclude :
      (g : Graph K) (root : ℕ) (s s' : Search K) (b : Bool)
      → Paints g s.graph
      → color_of s.graph.vertices root ≢ white
      → Ended s s' b
      → Searched g root s'.graph s'.topost b
  conclude g root s s' b p c (finished o' inv e q) =
      done o' (record { keeps = inv.keeps; written = inv.written; abs = rw e at inv.abs })
        (λ j h. q j (p j h)) (q root c)
  conclude g root s s' b p c (cyclic found) = cyclic_too found

  pub graph_dfs-Searched :
      (g : Graph K) (root : ℕ) (v : Vertex K) (t : Stack (Option ℕ)) (o : List ℕ)
      → Rest g t o
      → get_elem? g.vertices root ≡ some v
      → v.color ≡ white
      → Returns (graph_dfs g root t) (λ r. Searched g root r.0 r.1 r.2)
  unfolding graph_dfs stack_new
  graph_dfs-Searched g root v t o rest at w =
      let v' : Vertex K = record v { color = gray } in
      let s : Search K = record {
        graph = record g { vertices = set g.vertices root v' };
        st = stack_push stack_new root;
        topost = t;
      } in
      let inv : Inv adj n s o = record {
        keeps = write-Keeps adj n g root v v' rest.keeps at refl refl;
        fits = stack_push-Fits stack_new root (record { room = omega arith; within = omega arith });
        written = rest.written;
        abs = rw (stack_push-items stack_new root) (
            start-Abs adj _ _ _ _ root o rest.abs (rw at w) (color_of-write g.vertices root v v' at)
              (λ i.
                idx_of-write g.vertices root v v' at i
                ∙ if-same (idx_of g.vertices) root i v.dfs_idx (rw at)));
      } in
      let even : cost v ≡ cost v' = rw w in
      let (r, run, e) =
        dfs_loop-Ended (rounds_of g.vertices) s o inv
          (omega (arith, work-set g.vertices root v v' at, work-lt-rounds_of g.vertices)) in
      (
        (r.0.graph, r.0.topost, r.1),
        rw (at, graph_dfs, run),
        conclude g root s r.0 r.1 (write-Paints g root v v' at (λ h. cc))
            (λ h. cc (h, color_of-write g.vertices root v v' at root ∙ if-true _ _ (==_refl root)))
            e,
      )
