-- ===== src/Graph/Sort/Roomy.antt =====
-- graph.c: the stack that `graph_toposort` fills keeps a capacity, so that pops are not skipped.
use powaur.Base.{ℕ, zero, suc, ◌+◌, ◌≤◌, Bool, true, Option, map, set, length, leb, get_elem?}
use powaur.Base.{arith, Bool-cases, Option-cases, inl, inr, Run, ok, Gives, >>=-Gives, any-Gives}
use powaur.Hash.Keys.{KeyOps}
use powaur.Graph.Stack.{Stack, stack_new, stack_push, stack_peek}
use powaur.Graph.Defs.{Graph, Vertex, gray, black, vindex_lookup, vertex_dfs_reset}
use powaur.Graph.Sort.Step.{Color-cases}
use powaur.Graph.Sort.{
  Search, Round, more, cycle, drop_top, visit, follow, finish, dfs_round, dfs_loop, rounds_of,
  graph_dfs, toposort_loop, graph_toposort, with_vertex,
}

-- The stack has room for an element.
abbrev pub Roomy : Stack (Option ℕ) → Type 0
Roomy st = 1 ≤ st.sz

push-Roomy : (st : Stack (Option ℕ)) (x : Option ℕ) → Roomy st → Roomy (stack_push st x)
unfolding stack_push
push-Roomy st x h = ground arith

module _ {K : Type 0} where
  abbrev After : Round K → Type 0
  After (more s) = Roomy s.topost
  After (cycle s) = Roomy s.topost

  visit-After : (s : Search K) (next : ℕ) (v : Vertex K) → Roomy s.topost → After (visit s next v)
  unfolding visit
  visit-After s next v h = elim (Color-cases v.color) [
    | inl e ↦ rw (e, visit) h
    | inr (inl e) ↦ rw (e, visit) h
    | inr (inr e) ↦ rw (e, visit) h
  ]

  follow-After :
      (s : Search K) (cur : ℕ) (v : Vertex K) → Roomy s.topost → Gives After (follow s cur v)
  unfolding follow
  follow-After s cur v h = elim (Option-cases (get_elem? v.adj v.dfs_idx)) [
    | inl e ↦ rw (e, follow) tt
    | inr (next, e) ↦
        let s' = with_vertex s cur (record v { dfs_idx = v.dfs_idx + 1 }) in
        elim (Option-cases (get_elem? s'.graph.vertices next)) [
          | inl k ↦ rw (e, k, follow) tt
          | inr (w, k) ↦ rw (e, k, follow) (visit-After s' next w h)
        ]
  ]

module _ {K : Type 0} ⦃ops : KeyOps K⦄ where
  finish-After :
      (s : Search K) (cur : ℕ) (v : Vertex K) → Roomy s.topost → Gives After (finish s cur v)
  unfolding finish
  finish-After s cur v h =
      let s' = with_vertex s cur (record v { color = black }) in
      >>=-Gives (λ pos. Unit {0}) After (vindex_lookup s'.graph v.value) _
        (any-Gives (vindex_lookup s'.graph v.value))
        (λ pos e u.
          >>=-Gives (λ st. Unit {0}) After (drop_top s'.st) _ (any-Gives (drop_top s'.st))
            (λ st k w. push-Roomy s'.topost pos h))

  round-After : (s : Search K) (cur : ℕ) → Roomy s.topost → Gives After (dfs_round s cur)
  unfolding dfs_round
  round-After s cur h = elim (Option-cases (get_elem? s.graph.vertices cur)) [
    | inl e ↦ rw (e, dfs_round) tt
    | inr (v, e) ↦ elim (Bool-cases (leb (length v.adj) v.dfs_idx)) [
      | inl k ↦ rw (e, dfs_round, k) (finish-After s cur v h)
      | inr k ↦ rw (e, dfs_round, k) (follow-After s cur v h)
    ]
  ]

  loop-Roomy :
      (rounds : ℕ) (s : Search K)
      → Roomy s.topost
      → Gives (λ r. Roomy r.0.topost) (dfs_loop rounds s)
  unfolding dfs_loop
  loop-Roomy zero s h = tt
  loop-Roomy (suc rounds) s h = elim (Option-cases (stack_peek s.st)) [
    | inl e ↦ rw (e, dfs_loop) h
    | inr (cur, e) ↦
        rw (e, dfs_loop)
          (>>=-Gives After (λ r. Roomy r.0.topost) (dfs_round s cur) _ (round-After s cur h)
            (λ r k a. goes_on r (λ s' h'. loop-Roomy rounds s' h') a))
  ]
    where
      goes_on :
          (r : Round K)
          → ((s' : Search K)
              → Roomy s'.topost
              → Gives (λ (q : Search K × Bool). Roomy q.0.topost) (dfs_loop rounds s'))
          → After r
          → Gives
              (λ (q : Search K × Bool). Roomy q.0.topost)
              (elim r as (λ x. Run (Search K × Bool)) [
                | cycle s' ↦ ok (s', true)
                | more s' ↦ dfs_loop rounds s'
              ])
      goes_on (cycle s') k a = a
      goes_on (more s') k a = k s' a

  dfs-Roomy :
      (g : Graph K) (root : ℕ) (t : Stack (Option ℕ))
      → Roomy t
      → Gives (λ r. Roomy r.1) (graph_dfs g root t)
  unfolding graph_dfs
  dfs-Roomy g root t h = elim (Option-cases (get_elem? g.vertices root)) [
    | inl e ↦ rw (e, graph_dfs) tt
    | inr (v, e) ↦
        let g' = record g { vertices = set g.vertices root (record v { color = gray }) } in
        let s : Search K = record { graph = g'; st = stack_push stack_new root; topost = t } in
        rw (e, graph_dfs)
          (>>=-Gives (λ r. Roomy r.0.topost) (λ r. Roomy r.1) (dfs_loop (rounds_of g.vertices) s) _
            (loop-Roomy (rounds_of g.vertices) s h) (λ r k a. a))
  ]

  toposort_loop-Roomy :
      (left i : ℕ) (g : Graph K) (t : Stack (Option ℕ))
      → Roomy t
      → Gives (λ r. Roomy r.1) (toposort_loop left i g t)
  unfolding toposort_loop
  toposort_loop-Roomy zero i g t h = h
  toposort_loop-Roomy (suc left) i g t h = elim (Option-cases (get_elem? g.vertices i)) [
    | inl e ↦ rw (e, toposort_loop) tt
    | inr (v, e) ↦ elim (Color-cases v.color) [
      | inl w ↦
          rw (e, toposort_loop, w)
            (>>=-Gives (λ r. Roomy r.1) (λ r. Roomy r.1) (graph_dfs g i t) _ (dfs-Roomy g i t h)
              (λ r k a. elim (Bool-cases r.2) [
                | inl m ↦ rw m a
                | inr m ↦ rw m (toposort_loop-Roomy left (i + 1) r.0 r.1 a)
              ]))
      | inr (inl w) ↦ rw (e, toposort_loop, w) (toposort_loop-Roomy left (i + 1) g t h)
      | inr (inr w) ↦ rw (e, toposort_loop, w) (toposort_loop-Roomy left (i + 1) g t h)
    ]
  ]

  pub graph_toposort-Roomy :
      (g : Graph K) (t : Stack (Option ℕ)) → Roomy t → Gives (λ r. Roomy r.1) (graph_toposort g t)
  unfolding graph_toposort
  graph_toposort-Roomy g t h =
      let reset = map vertex_dfs_reset g.vertices in
      toposort_loop-Roomy (length reset) 0 (record g { vertices = reset }) t h
