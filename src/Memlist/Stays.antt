-- ===== src/Memlist/Stays.antt =====
-- memlist.c: elements stay where they are put.
use powaur.Base.{
  ℕ, suc, ◌≤◌, ◌<◌, ◌≡◌, refl, ap, ◌∙◌, true, false, List, [], ◌∷◌, ◌++◌, some, length, leb, ltb,
  ◌==◌, if◌then◌else◌, get_elem?,
}
use powaur.Base.{
  Returns, arith, Bool-cases, inl, inr, length-append, get_elem?-append, lt-of-get_elem?, if-true,
  if-false,
}
use powaur.Memlist.{
  Memlist, Address, Handle, dest, stored, with_pool, append, memlist_add, pool_at, load,
}

module _ {ℓ} {A : Type ℓ} where
  -- The current pool holds no more than there is room for.
  pub record Fits (memlist : Memlist A) : Type ℓ where
    pub some_room : 1 ≤ memlist.max_elems
    pub within : length memlist.pool ≤ memlist.max_elems

  -- What an addition does: every address reads as before, the new one reads the element, and a
  -- list of pointers frees one more.
  pub record Adds (memlist : Memlist A) (x : A) (memlist' : Memlist A) (h : Handle A) : Type ℓ where
    pub fits : Fits memlist'
    pub keeps : (a : Address) (y : A) → load memlist a ≡ some y → load memlist' a ≡ some y
    pub handle :
        (memlist.free_inner ≡ true → h ≡ stored x)
        × (memlist.free_inner ≡ false → (a : Address) × (h ≡ dest a) × (load memlist' a ≡ some x))

  abbrev longer : Memlist A → A → Memlist A
  longer memlist x = record memlist { pool = memlist.pool ++ (x ∷ []) }

  abbrev handed : Memlist A → A → Handle A
  handed memlist x =
      if memlist.free_inner
      then stored x
      else dest (record { pools = length memlist.older; place = length memlist.pool })

  longer-keeps :
      (memlist : Memlist A) (x : A) (a : Address) (y : A)
      → load memlist a ≡ some y
      → load (longer memlist x) a ≡ some y
  unfolding load pool_at
  longer-keeps memlist x a y h = elim (Bool-cases (length memlist.older == a.pools)) [
    | inl e ↦
        let old : get_elem? memlist.pool a.place ≡ some y = rw e at h in
        let later : length memlist.pool == a.place ≡ false =
          ground (arith, lt-of-get_elem? memlist.pool a.place y old) in
        rw e (get_elem?-append memlist.pool x a.place ∙ if-false _ _ later ∙ old)
    | inr e ↦ rw e (rw e at h)
  ]

  longer-load :
      (memlist : Memlist A) (x : A)
      → load
          (longer memlist x)
          (record { pools = length memlist.older; place = length memlist.pool })
        ≡ some x
  unfolding load pool_at
  longer-load memlist x =
      let here : length memlist.older == length memlist.older ≡ true = ground arith in
      let there : length memlist.pool == length memlist.pool ≡ true = ground arith in
      rw here (get_elem?-append memlist.pool x (length memlist.pool) ∙ if-true _ _ there)

  append-Adds :
      (memlist : Memlist A) (x : A)
      → 1 ≤ memlist.max_elems
      → length memlist.pool < memlist.max_elems
      → Returns (append memlist x) (λ r. Adds memlist x r.0 r.1)
  unfolding append
  append-Adds memlist x room within =
      let test : ltb (length memlist.pool) memlist.max_elems ≡ true = ground (arith, within) in
      (
        (longer memlist x, handed memlist x),
        rw test refl,
        record {
          fits = record {
            some_room = room;
            within = omega (arith, length-append memlist.pool (x ∷ []));
          };
          keeps = longer-keeps memlist x;
          handle = (
            λ h. rw h refl,
            λ h. (
              record { pools = length memlist.older; place = length memlist.pool },
              rw h refl,
              longer-load memlist x,
            ),
          );
        },
      )

  pool_at-beyond : (pools : List (List A)) (n : ℕ) → length pools ≤ n → pool_at pools n ≡ []
  unfolding pool_at
  pool_at-beyond [] n h = refl
  pool_at-beyond (pool ∷ pools) n h =
      let other : length pools == n ≡ false = ground (arith, h) in
      rw other (pool_at-beyond pools n (omega arith))

  fresh-keeps :
      (memlist : Memlist A) (a : Address) (y : A)
      → load memlist a ≡ some y
      → load (record memlist { pool = []; older = memlist.pool ∷ memlist.older }) a ≡ some y
  unfolding load pool_at
  fresh-keeps memlist a y h = elim (Bool-cases (suc (length memlist.older) == a.pools)) [
    | inl e ↦
        let none_there =
          pool_at-beyond (memlist.pool ∷ memlist.older) a.pools (ground (arith, e)) in
        cc (h, ap (λ (p : List A). get_elem? p a.place) none_there)
    | inr e ↦ rw e h
  ]

  -- Adding to a list whose pools have room for an element ends within the pools. What stood at an
  -- address stays there; the handle is the pointer itself, or an address at which the element is.
  pub memlist_add-Adds :
      (memlist : Memlist A) (x : A)
      → Fits memlist
      → Returns (memlist_add memlist x) (λ r. Adds memlist x r.0 r.1)
  unfolding memlist_add with_pool
  memlist_add-Adds memlist x f = elim (Bool-cases (leb memlist.max_elems (length memlist.pool))) [
    | inl full ↦
        let next : Memlist A = record memlist { pool = []; older = memlist.pool ∷ memlist.older } in
        let (r, run, a) = append-Adds next x f.some_room (omega (arith, f.some_room)) in
        (
          r,
          rw full run,
          record {
            fits = a.fits;
            keeps = λ b y h. a.keeps b y (fresh-keeps memlist b y h);
            handle = a.handle;
          },
        )
    | inr roomy ↦
        let (r, run, a) = append-Adds memlist x f.some_room (ground arith) in (r, rw roomy run, a)
  ]
