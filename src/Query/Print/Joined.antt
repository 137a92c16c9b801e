-- ===== src/Query/Print/Joined.antt =====
-- query.c: what `print_topo_order` prints.
use powaur.Base.{
  ℕ, zero, suc, ◌<◌, ◌≤◌, ◌≡◌, refl, sym, ap, ◌∙◌, true, List, [], ◌∷◌, ◌++◌, map, Option, none,
  some,
}
use powaur.Base.{if◌then◌else◌, ltb, length, length-map, arith, inl, inr, Option-cases, ok}
use mathlib.Core.List.{append_assoc}
use powaur.Util.{Str}
use powaur.Util.Compare.{str_keys}
use powaur.Graph.Stack.{Stack}
use powaur.Graph.Defs.{Graph, graph_get_vertex_data}
use powaur.Query.Print.{arrow, vertex_at, print_loop, print_topo_order}

-- The names at the places that have a vertex.
abbrev pub vertex_names : Graph Str → List ℕ → List Str
vertex_names graph [] = []
vertex_names graph (i ∷ o) = elim (graph_get_vertex_data graph i) [
  | none ↦ vertex_names graph o
  | some name ↦ name ∷ vertex_names graph o
]

-- Texts with an arrow in front of each, and with arrows between them.
abbrev pub with_arrows : List Str → Str
with_arrows [] = []
with_arrows (name ∷ names) = arrow ++ (name ++ with_arrows names)

abbrev pub joined : List Str → Str
joined [] = []
joined (name ∷ names) = name ++ with_arrows names

-- What is still to be printed, behind some names or at the front.
abbrev rest_of : ℕ → List Str → Str
rest_of cnt names = if ltb 0 cnt then with_arrows names else joined names

-- A name that is printed is the first one or has an arrow in front.
regroup :
    (cnt : ℕ) (out name : Str) (names : List Str)
    → (out ++ ((if ltb 0 cnt then arrow else []) ++ name)) ++ (with_arrows names ++ (b'\n' ∷ []))
      ≡ out ++ (rest_of cnt (name ∷ names) ++ (b'\n' ∷ []))
regroup zero out name names =
    append_assoc out name _
    ∙ ap (λ (t : Str). out ++ t) (sym (append_assoc name (with_arrows names) _))
regroup (suc cnt) out name names =
    let more : ltb 0 (suc cnt) ≡ true = ground arith in
    rw more (
      append_assoc out (arrow ++ name) _
      ∙ ap (λ (t : Str). out ++ (arrow ++ t)) (sym (append_assoc name (with_arrows names) _)))

module _ (graph : Graph Str) where
  loop-joined :
      (o : List ℕ) (rounds : ℕ) (st : Stack (Option ℕ)) (cnt : ℕ) (out : Str)
      → st.items ≡ map some o
      → 1 ≤ st.sz
      → length o < rounds
      → print_loop graph rounds st cnt out
        ≡ ok (out ++ (rest_of cnt (vertex_names graph o) ++ (b'\n' ∷ [])))
  unfolding print_loop vertex_at
  loop-joined o zero st cnt out e r h = absurd (omega arith)
  loop-joined [] (suc rounds) st cnt out e r h = ground (arith, e)
  loop-joined (i ∷ o) (suc rounds) st cnt out e r h =
      elim (Option-cases (graph_get_vertex_data graph i)) [
        | inl k ↦
            let rest =
              loop-joined o rounds (record st { items = map some o }) cnt out refl r
                (omega arith) in
            ground (arith, e, r, k, rest)
        | inr (name, k) ↦
            let sep : Str = if ltb 0 cnt then arrow else [] in
            let rest =
              loop-joined o rounds (record st { items = map some o }) (suc cnt)
                (out ++ (sep ++ name)) refl r (omega arith) in
            ground (arith, e, r, k, rest, ap ok (regroup cnt out name (vertex_names graph o)))
      ]

  -- With places on the stack, such as `graph_toposort` leaves, `print_topo_order` ends, and prints the
  -- names of the vertices in the order in which they are popped, with an arrow between each two of
  -- them, and a line end.
  pub print_topo_order-joined :
      (o : List ℕ) (st : Stack (Option ℕ))
      → st.items ≡ map some o
      → 1 ≤ st.sz
      → print_topo_order graph st ≡ ok (joined (vertex_names graph o) ++ (b'\n' ∷ []))
  unfolding print_topo_order
  print_topo_order-joined o st e r =
      let size = ap (λ (l : List (Option ℕ)). length l) e ∙ length-map some o in
      loop-joined o (suc (length st.items)) st 0 [] e r (omega (arith, size))
