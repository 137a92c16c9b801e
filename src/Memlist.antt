-- ===== src/Memlist.antt =====
-- memlist.c: pools of one size for the elements. A pool is the list of its elements below `nr`.
pub mod Stays
use powaur.Base.{
  ℕ, ◌+◌, ◌≡◌, Bool, true, false, List, [], ◌∷◌, ◌++◌, Option, none, some, length, leb, ltb, ◌==◌,
  if◌then◌else◌, get_elem?,
}
use powaur.Base.{Run, ok, fault, ◌>>=◌}

-- `pool` is the newest one, and `older` the ones behind it. `free_inner` is `MEMLIST_PTR`.
pub record Memlist {ℓ} (A : Type ℓ) : Type ℓ where
  pub pool : List A
  pub older : List (List A)
  pub max_elems : ℕ
  pub free_inner : Bool

-- Where an element stands: the number of pools that are older than its own, and its place there.
pub record Address : Type 0 where
  pub pools : ℕ
  pub place : ℕ

-- What is handed out: the address, or the pointer that is stored there.
pub data Handle {ℓ} (A : Type ℓ) : Type ℓ where
  dest : Address → Handle A
  stored : A → Handle A

module _ {ℓ} {A : Type ℓ} where
  -- A flag other than 0 and 1 counts as `MEMLIST_NORM`.
  unfoldable pub memlist_new : ℕ → ℕ → Memlist A
  memlist_new max_elems free_inner = record {
    pool = [];
    older = [];
    max_elems = max_elems;
    free_inner = free_inner == 1;
  }

  -- `if (curpool->nr >= memlist->max_elems)`
  unfoldable pub with_pool : Memlist A → Memlist A
  with_pool memlist =
      if leb memlist.max_elems (length memlist.pool)
      then record memlist { pool = []; older = memlist.pool ∷ memlist.older }
      else memlist

  -- The element is copied behind the others of its pool, which has room for `max_elems`.
  unfoldable pub append : Memlist A → A → Run (Memlist A × Handle A)
  append memlist data_ =
      if ltb (length memlist.pool) memlist.max_elems
      then ok (
        record memlist { pool = memlist.pool ++ (data_ ∷ []) },
        if memlist.free_inner
            then stored data_
            else dest (record { pools = length memlist.older; place = length memlist.pool }),
      )
      else fault

  unfoldable pub memlist_add : Memlist A → A → Run (Memlist A × Handle A)
  unfolding append with_pool
  memlist_add memlist data_ = append (with_pool memlist) data_

  unfoldable pub concat : List (List A) → List A
  concat [] = []
  concat (pool ∷ pools) = pool ++ concat pools

  -- The pointers that `memlist_free_inner` frees, in its order; `memlist_free` frees none
  -- otherwise.
  unfoldable pub memlist_free : Memlist A → List A
  unfolding concat
  memlist_free memlist = if memlist.free_inner then concat (memlist.pool ∷ memlist.older) else []

  -- The pool with so many older ones.
  unfoldable pub pool_at : List (List A) → ℕ → List A
  pool_at [] n = []
  pool_at (pool ∷ older) n = let rest = pool_at older n in if length older == n then pool else rest

  -- What stands at an address.
  unfoldable pub load : Memlist A → Address → Option A
  unfolding pool_at
  load memlist address =
      get_elem? (pool_at (memlist.pool ∷ memlist.older) address.pools) address.place
