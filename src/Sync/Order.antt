-- ===== src/Sync/Order.antt =====
-- sync.c: the list of `topo_get_targets` follows the topological order of the graph.
use powaur.Base.{
  ℕ, zero, suc, ◌<◌, ◌≤◌, ◌≡◌, refl, ap, ◌∙◌, Bool, true, false, ◌&&◌, List, [], ◌∷◌, ◌++◌, map,
  Option, none, some,
}
use powaur.Base.{
  length-map, length, mem, ltb, ◌==◌, get_elem?-lt, if◌then◌else◌, arith, inl, inr, Bool-cases, ok,
}
use powaur.Util.{Str}
use powaur.Util.Compare.{str_keys}
use powaur.Graph.Stack.{Stack}
use powaur.Graph.Defs.{Graph, graph_get_vertex_data}
use powaur.Graph.Sort.View.{adj_of}
use powaur.Graph.Sort.Inv.{IsTopo}
use powaur.Graph.Sort.Correct.{IsOrder}
use powaur.Query.{PkgFrom, Tables, Caches, map_search}
use powaur.Sync.{is_target, from_of, targets_loop, topo_get_targets}
use mathlib.Core.List.{append-nil, append_assoc}

-- The members that a test keeps.
abbrev pub keep : (ℕ → Bool) → List ℕ → List ℕ
keep test [] = []
keep test (x ∷ xs) = if test x then x ∷ keep test xs else keep test xs

mem-keep : (test : ℕ → Bool) (xs : List ℕ) (y : ℕ) → mem (keep test xs) y ≡ (mem xs y && test y)
mem-keep test [] y = refl
mem-keep test (x ∷ xs) y = elim (Bool-cases (x == y)) [
  | inl e ↦
      let same : x ≡ y = ground (arith, e) in ground (arith, e, ap test same, mem-keep test xs y)
  | inr e ↦ ground (arith, e, mem-keep test xs y)
]

-- What is kept of a topological order is one, for the edges between the vertices that are kept.
IsTopo-keep :
    (adj : ℕ → List ℕ) (test : ℕ → Bool) (o : List ℕ)
    → IsTopo adj o
    → IsTopo (λ i. keep test (adj i)) (keep test o)
IsTopo-keep adj test [] h = tt
IsTopo-keep adj test (x ∷ o) h = elim (Bool-cases (test x)) [
  | inr e ↦ rw e (IsTopo-keep adj test o h.2)
  | inl e ↦ rw e (
    λ y m. ground (arith, m, mem-keep test (adj x) y, mem-keep test o y, h.0 y),
    ground (arith, h.1, mem-keep test o x),
    IsTopo-keep adj test o h.2,
  )
]

-- Where the vertex at a place is from.
abbrev Placed : Caches → Graph Str → ℕ → Type 0
Placed c graph i =
    (name : Str) × (from : PkgFrom) × (graph_get_vertex_data graph i ≡ some name)
    × (from_of c graph (some i) ≡ some (name, from))

module _ (t : Tables) (c : Caches) (graph : Graph Str) where
  -- Whether the vertex at a place is to be installed, and its name.
  abbrev pub chosen : ℕ → Bool
  chosen i = elim (from_of c graph (some i)) [
    | none ↦ false
    | some (name, from) ↦ is_target t from name
  ]

  abbrev pub names_at : List ℕ → List Str
  names_at [] = []
  names_at (i ∷ o) = elim (graph_get_vertex_data graph i) [
    | none ↦ names_at o
    | some name ↦ name ∷ names_at o
  ]

  loop-names_at :
      (o : List ℕ) (rounds : ℕ) (st : Stack (Option ℕ)) (final_targets : List Str)
      → st.items ≡ map some o
      → 1 ≤ st.sz
      → length o < rounds
      → ((i : ℕ) → mem o i ≡ true → Placed c graph i)
      → targets_loop t c graph rounds st final_targets
        ≡ ok (some (final_targets ++ names_at (keep chosen o)))
  unfolding targets_loop
  loop-names_at o zero st final_targets e r h k = absurd (omega arith)
  loop-names_at [] (suc rounds) st final_targets e r h k =
      ground (arith, e, append-nil final_targets)
  loop-names_at (i ∷ o) (suc rounds) st final_targets e r h k =
      let (name, from, at, known) = k i (ground arith) in
      let rest =
        loop-names_at o rounds (record st { items = map some o })
          (if is_target t from name then final_targets ++ (name ∷ []) else final_targets) refl r
          (omega arith) (λ j m. k j (ground (arith, m))) in
      let regroup = append_assoc final_targets (name ∷ []) (names_at (keep chosen o)) in
      ground (arith, e, r, at, known, rest, regroup)

  placed :
      ((name : Str) (i : ℕ)
        → graph_get_vertex_data graph i ≡ some name
        → (from : PkgFrom) × (map_search c.pkg_from name ≡ some from))
      → (i : ℕ) → i < length graph.vertices
      → Placed c graph i
  unfolding from_of graph_get_vertex_data
  placed known i h =
      let (v, at) = get_elem?-lt graph.vertices i h in
      let (from, found) = known v.value i (ground (arith, at)) in
      (v.value, from, ground (arith, at), ground (arith, at, found))

  -- With a topological order of the graph's vertices on the stack, as `graph_toposort` leaves it, and
  -- where the map knows where each vertex is from, `topo_get_targets` ends and lists exactly the
  -- vertices that are to be installed: packages of the AUR that are outdated or not installed. An
  -- edge between two of them, from a dependency to a package that needs it, leads forward in the
  -- list, so that each dependency is installed before the package.
  pub topo_get_targets-IsTopo :
      (o : List ℕ) (st : Stack (Option ℕ))
      → IsOrder graph o
      → st.items ≡ map some o
      → 1 ≤ st.sz
      → ((name : Str) (i : ℕ)
          → graph_get_vertex_data graph i ≡ some name
          → (from : PkgFrom) × (map_search c.pkg_from name ≡ some from))
      → (p : List ℕ) × (topo_get_targets t c graph st ≡ ok (some (names_at p)))
        × IsTopo (λ i. keep chosen (adj_of graph.vertices i)) p
        × ((i : ℕ) → mem p i ≡ (ltb i (length graph.vertices) && chosen i))
  unfolding topo_get_targets
  topo_get_targets-IsTopo o st order e r known =
      let size = ap (λ (l : List (Option ℕ)). length l) e ∙ length-map some o in
      (
        keep chosen o,
        loop-names_at o (suc (length st.items)) st [] e r (omega (arith, size))
            (λ i m. placed known i (ground (arith, m, order.all i))),
        IsTopo-keep (adj_of graph.vertices) chosen o order.topo,
        λ i. mem-keep chosen o i ∙ ap (λ (b : Bool). b && chosen i) (order.all i),
      )
