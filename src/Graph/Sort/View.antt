-- ===== src/Graph/Sort/View.antt =====
-- graph.c: the color, the counter and the edges of the vertex at a place, and writes to a vertex.
use powaur.Base.{ℕ, zero, suc, ◌+◌, ◌-◌, ◌≡◌, refl, sym, ap, ◌∙◌}
use powaur.Base.{
  List, [], ◌∷◌, Option, none, some, length, get_elem?, set, ◌==◌, if◌then◌else◌, arith,
  get_elem?-set, lt-of-get_elem?, map, Bool-cases, inl, inr,
}
use powaur.Graph.Defs.{Vertex, Color, white, gray, black, vertex_dfs_reset}

-- An edge that is not counted, and a vertex that is not finished, want a round each.
abbrev unfinished : Color → ℕ
unfinished white = 1
unfinished gray = 1
unfinished black = 0

module _ {ℓ} {K : Type ℓ} where
  abbrev pub color? : Option (Vertex K) → Color
  color? none = white
  color? (some v) = v.color

  abbrev idx? : Option (Vertex K) → ℕ
  idx? none = 0
  idx? (some v) = v.dfs_idx

  abbrev pub adj? : Option (Vertex K) → List ℕ
  adj? none = []
  adj? (some v) = v.adj

  -- A place with no vertex reads as a white vertex with no edge.
  abbrev pub color_of : List (Vertex K) → ℕ → Color
  color_of vs i = color? (get_elem? vs i)

  abbrev pub idx_of : List (Vertex K) → ℕ → ℕ
  idx_of vs i = idx? (get_elem? vs i)

  abbrev pub adj_of : List (Vertex K) → ℕ → List ℕ
  adj_of vs i = adj? (get_elem? vs i)

  module _ (vs : List (Vertex K)) (i : ℕ) (v v' : Vertex K) (at : get_elem? vs i ≡ some v) where
    pub get_elem?-write :
        (j : ℕ) → get_elem? (set vs i v') j ≡ (if i == j then some v' else get_elem? vs j)
    get_elem?-write j = get_elem?-set vs i j v' (lt-of-get_elem? vs i v at)

    pub color_of-write :
        (j : ℕ) → color_of (set vs i v') j ≡ (if i == j then v'.color else color_of vs j)
    color_of-write j = rw (get_elem?-write j) (ground arith)

    pub idx_of-write :
        (j : ℕ) → idx_of (set vs i v') j ≡ (if i == j then v'.dfs_idx else idx_of vs j)
    idx_of-write j = rw (get_elem?-write j) (ground arith)

    pub adj_of-write : v'.adj ≡ v.adj → (j : ℕ) → adj_of (set vs i v') j ≡ adj_of vs j
    adj_of-write same j = rw (get_elem?-write j) (ground (arith, at))

  -- The rounds that a search still has to go for a vertex.
  abbrev pub cost : Vertex K → ℕ
  cost v = (length v.adj - v.dfs_idx) + unfinished v.color

  abbrev pub work : List (Vertex K) → ℕ
  work [] = 0
  work (v ∷ vs) = cost v + work vs

  pub work-set :
      (vs : List (Vertex K)) (i : ℕ) (v v' : Vertex K)
      → get_elem? vs i ≡ some v
      → work (set vs i v') + cost v ≡ work vs + cost v'
  work-set [] i v v' at = cc
  work-set (x ∷ vs) zero v v' at = let e : x ≡ v = ground arith in rw e (omega arith)
  work-set (x ∷ vs) (suc i) v v' at = omega (arith, work-set vs i v v' at)

  -- The vertices after the reset: white, with no edge counted, and otherwise as they were.
  abbrev pub reset : List (Vertex K) → List (Vertex K)
  reset vs = map vertex_dfs_reset vs

  pub color_of-reset : (vs : List (Vertex K)) (i : ℕ) → color_of (reset vs) i ≡ white
  unfolding vertex_dfs_reset
  color_of-reset [] i = refl
  color_of-reset (v ∷ vs) zero = refl
  color_of-reset (v ∷ vs) (suc i) = color_of-reset vs i

  pub idx_of-reset : (vs : List (Vertex K)) (i : ℕ) → idx_of (reset vs) i ≡ 0
  unfolding vertex_dfs_reset
  idx_of-reset [] i = refl
  idx_of-reset (v ∷ vs) zero = refl
  idx_of-reset (v ∷ vs) (suc i) = idx_of-reset vs i

  pub adj_of-reset : (vs : List (Vertex K)) (i : ℕ) → adj_of (reset vs) i ≡ adj_of vs i
  unfolding vertex_dfs_reset
  adj_of-reset [] i = refl
  adj_of-reset (v ∷ vs) zero = refl
  adj_of-reset (v ∷ vs) (suc i) = adj_of-reset vs i

  pub get_elem?-reset :
      (vs : List (Vertex K)) (i : ℕ) (v : Vertex K)
      → get_elem? (reset vs) i ≡ some v
      → (u : Vertex K) × (get_elem? vs i ≡ some u) × (v.value ≡ u.value)
  unfolding vertex_dfs_reset
  get_elem?-reset [] i v h = cc
  get_elem?-reset (u ∷ vs) zero v h = (u, refl, ground arith)
  get_elem?-reset (u ∷ vs) (suc i) v h = get_elem?-reset vs i v h

-- A write of what is there changes nothing.
pub if-same {ℓ} :
    {A : Type ℓ} (f : ℕ → A) (i j : ℕ) (a : A) → f i ≡ a → (if i == j then a else f j) ≡ f j
if-same f i j a e = elim (Bool-cases (i == j)) [
  | inl h ↦ let same : i ≡ j = ground arith in rw h (sym e ∙ ap f same)
  | inr h ↦ rw h
]
