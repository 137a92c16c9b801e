-- ===== src/Graph/Sort/Inv.antt =====
-- graph.c: the invariant of the depth-first search, over the colors and the counters of the
-- vertices, the stack and the vertices that are finished, the last one first.
use powaur.Base.{ℕ, suc, ◌≤◌, ◌≡◌, sym, ap, ◌∙◌, ◌⊎◌, inl, inr, Bool, true, false}
use powaur.Base.{
  List, [], ◌∷◌, Option, none, some, length, take, take_all, mem, Nodup, mem-take-suc,
}
use powaur.Base.{get_elem?, mem-get_elem?, ◌==◌, if◌then◌else◌, arith, Bool-cases, if-false}
use powaur.Graph.Defs.{Color, white, gray, black}

abbrev pub is_gray : Color → Bool
is_gray gray = true
is_gray white = false
is_gray black = false

abbrev pub is_black : Color → Bool
is_black black = true
is_black white = false
is_black gray = false

-- A list is a topological order, read from its head: what a vertex leads to stands behind it, and
-- no vertex stands twice.
module _ (adj : ℕ → List ℕ) where
  abbrev pub IsTopo : List ℕ → Type 0
  IsTopo [] = Unit
  IsTopo (x ∷ o) = ((y : ℕ) → mem (adj x) y ≡ true → mem o y ≡ true) × (mem o x ≡ false) × IsTopo o

  -- The walks with at least no edge.
  pub data Walk (a : ℕ) : ℕ → Type 0 where
    here : Walk a a
    step : {b c : ℕ} → Walk a b → mem (adj b) c ≡ true → Walk a c

  abbrev LeadsTo : List ℕ → ℕ → Type 0
  LeadsTo [] x = Unit
  LeadsTo (b ∷ s) x = mem (adj b) x ≡ true

  -- Each vertex of the stack leads to the one above it.
  abbrev pub Chain : List ℕ → Type 0
  Chain [] = Unit
  Chain (x ∷ s) = LeadsTo s x × Chain s

  -- The edges of a vertex on the stack that are counted lead to finished vertices, or to the
  -- vertex above it.
  abbrev pub Explored : (ℕ → ℕ) → List ℕ → Option ℕ → List ℕ → Type 0
  Explored idx o above [] = Unit
  Explored idx o above (b ∷ s) =
      ((y : ℕ) → mem (take (idx b) (adj b)) y ≡ true → (mem o y ≡ true) ⊎ (above ≡ some y))
      × Explored idx o (some b) s

  pub record Abs (col : ℕ → Color) (idx : ℕ → ℕ) (s o : List ℕ) : Type 0 where
    pub grays : (i : ℕ) → is_gray (col i) ≡ mem s i
    pub blacks : (i : ℕ) → is_black (col i) ≡ mem o i
    pub nodup : Nodup s
    pub fresh : (i : ℕ) → col i ≡ white → idx i ≡ 0
    pub chain : Chain s
    pub explored : Explored idx o none s
    pub topo : IsTopo o

  -- A vertex from which a walk with at least one edge leads back.
  pub record Cycle : Type 0 where
    pub vertex : ℕ
    pub next : ℕ
    pub edge : mem (adj vertex) next ≡ true
    pub back : Walk next vertex

  Chain-Walk : (x cur : ℕ) (s : List ℕ) → Chain (cur ∷ s) → mem (cur ∷ s) x ≡ true → Walk x cur
  Chain-Walk x cur [] c m = let same : cur ≡ x = ground arith in rw same here
  Chain-Walk x cur (b ∷ s) c m = elim (Bool-cases (cur == x)) [
    | inl e ↦ let same : cur ≡ x = ground arith in rw same here
    | inr e ↦ step (Chain-Walk x b s c.1 (rw e at m)) c.0
  ]

  Explored-widen :
      (idx : ℕ → ℕ) (o o' : List ℕ) (above : Option ℕ) (s : List ℕ)
      → ((y : ℕ) → mem o y ≡ true → mem o' y ≡ true)
      → Explored idx o above s
      → Explored idx o' above s
  Explored-widen idx o o' above [] w e = tt
  Explored-widen idx o o' above (b ∷ s) w (now, e) =
      (λ y m. ground (arith, now y, w y), Explored-widen idx o o' (some b) s w e)

  -- The vertex above is finished.
  Explored-settle :
      (idx : ℕ → ℕ) (o : List ℕ) (x : ℕ) (s : List ℕ)
      → Explored idx o (some x) s
      → Explored idx (x ∷ o) none s
  Explored-settle idx o x [] e = tt
  Explored-settle idx o x (b ∷ s) (now, e) = (
    λ y m. ground (arith, now y),
    Explored-widen idx o (x ∷ o) (some b) s (λ y m. ground arith) e,
  )

  Explored-congr :
      (idx idx' : ℕ → ℕ) (o : List ℕ) (above : Option ℕ) (s : List ℕ)
      → ((i : ℕ) → mem s i ≡ true → idx' i ≡ idx i)
      → Explored idx o above s
      → Explored idx' o above s
  Explored-congr idx idx' o above [] k e = tt
  Explored-congr idx idx' o above (b ∷ s) k (now, e) = (
    rw (k b (ground arith)) now,
    Explored-congr idx idx' o (some b) s (λ i m. k i (ground arith)) e,
  )

  module _ (col col' : ℕ → Color) (idx idx' : ℕ → ℕ) (cur next : ℕ) (s o : List ℕ)
      (inv : Abs col idx (cur ∷ s) o) where
    cur_gray : col cur ≡ gray
    cur_gray = ground (arith, inv.grays cur)

    -- The top has no edge left.
    pub finish-Abs :
        length (adj cur) ≤ idx cur
        → ((i : ℕ) → col' i ≡ (if cur == i then black else col i))
        → ((i : ℕ) → idx' i ≡ idx i)
        → Abs col' idx' s (cur ∷ o)
    finish-Abs all recolor recount = record {
      grays = λ i. ground (arith, inv.grays i, recolor i, inv.nodup.0);
      blacks = λ i. ground (arith, inv.blacks i, recolor i);
      nodup = inv.nodup.1;
      fresh = λ i e. ground (arith, recolor i, recount i, inv.fresh i);
      chain = inv.chain.1;
      explored =
          Explored-congr idx idx' (cur ∷ o) none s (λ i m. recount i)
            (Explored-settle idx o cur s inv.explored.1);
      topo = (
        λ y m. ground (arith, inv.explored.0 y (rw (take_all (idx cur) (adj cur) all) m)),
        ground (arith, cur_gray, inv.blacks cur),
        inv.topo,
      );
    }

    module _ (at : get_elem? (adj cur) (idx cur) ≡ some next)
        (recount : (i : ℕ) → idx' i ≡ (if cur == i then suc (idx cur) else idx i)) where
      -- The stack below the top has no vertex that is counted up.
      rest-Explored : Explored idx' o (some cur) s
      rest-Explored =
          Explored-congr idx idx' o (some cur) s (λ i m. ground (arith, recount i, inv.nodup.0))
            inv.explored.1

      counted : (y : ℕ) → mem (take (idx' cur) (adj cur)) y ≡ true → (mem o y ≡ true) ⊎ (y ≡ next)
      counted y m =
          let e : idx' cur ≡ suc (idx cur) = ground (arith, recount cur) in
          ground (arith, mem-take-suc (idx cur) (adj cur) next y at (rw e at m), inv.explored.0 y)

      next_unread : col next ≡ white → idx' next ≡ 0
      next_unread w = elim (Bool-cases (cur == next)) [
        | inl e ↦ let same : cur ≡ next = ground arith in cc (cur_gray, ap col same)
        | inr e ↦ recount next ∙ if-false _ _ e ∙ inv.fresh next w
      ]

      -- The next edge leads to a white vertex.
      pub push-Abs :
          col next ≡ white
          → ((i : ℕ) → col' i ≡ (if next == i then gray else col i))
          → Abs col' idx' (next ∷ cur ∷ s) o
      push-Abs w recolor = record {
        grays = λ i. ground (arith, inv.grays i, recolor i);
        blacks = λ i. ground (arith, inv.blacks i, recolor i, w);
        nodup = (ground (arith, w, inv.grays next), inv.nodup);
        fresh = λ i e. ground (arith, recolor i, recount i, inv.fresh i, cur_gray);
        chain = (mem-get_elem? (adj cur) (idx cur) next at, inv.chain);
        explored = (
          λ y m. let e : idx' next ≡ 0 = next_unread w in cc (rw e at m),
          (
            λ y m. elim (counted y m) [ inl old ↦ inl old | inr e ↦ inr (ap some (sym e)) ],
            rest-Explored,
          ),
        );
        topo = inv.topo;
      }

      -- The next edge leads to a finished vertex.
      pub skip-Abs : col next ≡ black → ((i : ℕ) → col' i ≡ col i) → Abs col' idx' (cur ∷ s) o
      skip-Abs b recolor = record {
        grays = λ i. ground (arith, inv.grays i, recolor i);
        blacks = λ i. ground (arith, inv.blacks i, recolor i);
        nodup = inv.nodup;
        fresh = λ i e. ground (arith, recolor i, recount i, inv.fresh i, cur_gray);
        chain = inv.chain;
        explored = (λ y m. ground (arith, counted y m, inv.blacks next, b), rest-Explored);
        topo = inv.topo;
      }

      -- The next edge leads to a vertex of the stack.
      pub gray-Cycle : col next ≡ gray → Cycle
      gray-Cycle g = record {
        vertex = cur;
        next = next;
        edge = mem-get_elem? (adj cur) (idx cur) next at;
        back = Chain-Walk next cur s inv.chain (ground (arith, inv.grays next, g));
      }
