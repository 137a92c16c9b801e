-- ===== src/Graph/Sort.antt =====
-- graph.c: `graph_dfs` and `graph_toposort`. The stack holds the places of vertices for the
-- pointers of the source; the topological stack holds what `vindex_lookup` answers, `none` for -1.
pub mod View
pub mod Inv
pub mod Step
pub mod Follow
pub mod Loop
pub mod Outer
pub mod Roomy
pub mod Correct
use powaur.Base.{ℕ, zero, suc, ◌+◌, Bool, true, false, List, [], ◌∷◌, Option, none, some}
use powaur.Base.{length, leb, if◌then◌else◌, get_elem?, set, map}
use powaur.Base.{Run, ok, spin, died, fault, ◌>>=◌}
use powaur.Hash.Keys.{KeyOps}
use powaur.Hash.Vindex.{Vindex, hash_pos_vindex}
use powaur.Graph.Stack.{
  Stack, stack_new, stack_push, stack_pop, stack_peek, popped, skipped, underflow,
}
use powaur.Graph.Defs.{Graph, Vertex, Color, white, gray, black, vertex_dfs_reset, vindex_lookup}

pub record Search {ℓ} (K : Type ℓ) : Type ℓ where
  pub graph : Graph K
  pub st : Stack ℕ
  pub topost : Stack (Option ℕ)

-- One round of the loop goes on, or breaks off at a cycle.
pub data Round {ℓ} (K : Type ℓ) : Type ℓ where
  more cycle : Search K → Round K

-- `stack_pop(st, &curv)`, where the vertex taken off is not looked at again.
unfoldable pub drop_top : Stack ℕ → Run (Stack ℕ)
drop_top st = elim (stack_pop st) [ skipped ↦ ok st | underflow ↦ fault | popped _ rest ↦ ok rest ]

module _ {ℓ} {K : Type ℓ} where
  -- `graph->vertices[i] = v`
  abbrev pub with_vertex : Search K → ℕ → Vertex K → Search K
  with_vertex s i v = record s { graph = record s.graph { vertices = set s.graph.vertices i v } }

  -- What the color of the next vertex decides.
  unfoldable pub visit : Search K → ℕ → Vertex K → Round K
  visit s next v = elim v.color [
    | gray ↦ cycle s
    | white ↦
        let s' = with_vertex s next (record v { color = gray }) in
        more (record s' { st = stack_push s'.st next })
    | black ↦ more s
  ]

  -- `vertex_get_next_edge`: the edge at `dfs_idx`, which is counted up before the color is read.
  unfoldable pub follow : Search K → ℕ → Vertex K → Run (Round K)
  unfolding visit
  follow s cur v = elim (get_elem? v.adj v.dfs_idx) [
    | none ↦ fault
    | some next ↦
        let s' = with_vertex s cur (record v { dfs_idx = v.dfs_idx + 1 }) in
        elim (get_elem? s'.graph.vertices next) [ none ↦ fault | some w ↦ ok (visit s' next w) ]
  ]

module _ {ℓ} {K : Type ℓ} ⦃ops : KeyOps K⦄ where
  -- A vertex with no edge left is black, and its place goes onto the topological stack.
  unfoldable pub finish : Search K → ℕ → Vertex K → Run (Round K)
  unfolding drop_top
  finish s cur v =
      let s' = with_vertex s cur (record v { color = black }) in
      (vindex_lookup s'.graph v.value >>= λ pos.
      drop_top s'.st >>= λ st. ok (more (record s' { st = st; topost = stack_push s'.topost pos })))

  unfoldable pub dfs_round : Search K → ℕ → Run (Round K)
  unfolding follow finish
  dfs_round s cur = elim (get_elem? s.graph.vertices cur) [
    | none ↦ fault
    | some v ↦ if leb (length v.adj) v.dfs_idx then finish s cur v else follow s cur v
  ]

  -- `while (!stack_empty(st))`, for a number of rounds; `true` is the result -1.
  unfoldable pub dfs_loop : ℕ → Search K → Run (Search K × Bool)
  unfolding dfs_round
  dfs_loop zero s = spin
  dfs_loop (suc rounds) s = elim (stack_peek s.st) [
    | none ↦ ok (s, false)
    | some cur ↦
        dfs_round s cur >>= λ r. elim r [ cycle s' ↦ ok (s', true) | more s' ↦ dfs_loop rounds s' ]
  ]

-- A round counts an edge or blackens a vertex, so a search takes at most so many rounds.
unfoldable pub rounds_of {ℓ} : {K : Type ℓ} → List (Vertex K) → ℕ
rounds_of [] = 1
rounds_of (v ∷ vs) = 1 + length v.adj + rounds_of vs

module _ {ℓ} {K : Type ℓ} ⦃ops : KeyOps K⦄ where
  unfoldable pub graph_dfs :
      Graph K → ℕ → Stack (Option ℕ) → Run (Graph K × Stack (Option ℕ) × Bool)
  unfolding dfs_loop rounds_of
  graph_dfs g root topost = elim (get_elem? g.vertices root) [
    | none ↦ fault
    | some v ↦
        let g' = record g { vertices = set g.vertices root (record v { color = gray }) } in
        (dfs_loop (rounds_of g.vertices)
            (record { graph = g'; st = stack_push stack_new root; topost = topost })
          >>= λ r. ok (r.0.graph, r.0.topost, r.1))
  ]

  -- The second loop of `graph_toposort`, at the vertex `i` with `left` vertices to go.
  unfoldable pub toposort_loop :
      ℕ → ℕ → Graph K → Stack (Option ℕ) → Run (Graph K × Stack (Option ℕ) × Bool)
  unfolding graph_dfs
  toposort_loop zero i g topost = ok (g, topost, false)
  toposort_loop (suc left) i g topost = elim (get_elem? g.vertices i) [
    | none ↦ fault
    | some v ↦
        let rest = λ (g' : Graph K) (t : Stack (Option ℕ)). toposort_loop left (i + 1) g' t in
        elim v.color [
          | white ↦ graph_dfs g i topost >>= λ r. if r.2 then ok r else rest r.0 r.1
          | gray ↦ rest g topost
          | black ↦ rest g topost
        ]
  ]

  -- The result -1 is `true`.
  unfoldable pub graph_toposort :
      Graph K → Stack (Option ℕ) → Run (Graph K × Stack (Option ℕ) × Bool)
  unfolding toposort_loop
  graph_toposort g topost =
      let g' = record g { vertices = map vertex_dfs_reset g.vertices } in
      toposort_loop (length g'.vertices) 0 g' topost
