-- ===== src/Download/Weights.antt =====
-- download.c: a number for the steps that are left to the threads.
use powaur.Base.{ℕ, zero, suc, ◌+◌, ◌*◌, ◌≤◌, ◌≡◌, List, [], ◌∷◌, none, some}
use powaur.Base.{length, get_elem?, set, arith}
use powaur.Download.{Thread, starting, ready, having, storing, fetching, finished, Jobs}

-- How many steps are left, at most, for `n` threads and a queue of the given length. A thread that
-- is about to store `l` targets may give all the others these targets again.
unfoldable pub reload : ℕ → ℕ → ℕ
reload n zero = 5
reload n (suc l) = suc ((n + 1) * (reload n l + 3))

abbrev pub pred : ℕ → ℕ
pred zero = zero
pred (suc l) = l

unfoldable pub last_store : ℕ → ℕ → ℕ
last_store n zero = 1
last_store n (suc l) = reload n (suc l)

unfoldable pub ready_weight : ℕ → ℕ → ℕ
ready_weight n zero = 3
ready_weight n (suc l) = reload n l + 2

unfoldable pub weight : ℕ → ℕ → Thread → ℕ
unfolding reload last_store ready_weight
weight n l starting = suc (ready_weight n l)
weight n l ready = ready_weight n l
weight n l (having none) = suc (last_store n (pred l))
weight n l (having (some pkg)) = suc (reload n (pred l))
weight n l (storing none rest) = last_store n (length rest)
weight n l (storing (some pkg) rest) = reload n (length rest)
weight n l (fetching pkg) = suc (ready_weight n l)
weight n l finished = 0

unfoldable pub total : ℕ → ℕ → List Thread → ℕ
unfolding weight
total n l [] = 0
total n l (t ∷ threads) = weight n l t + total n l threads

unfoldable pub measure : Jobs → ℕ
unfolding total
measure s = total (length s.threads) (length s.queue) s.threads

reload_pos : (n l : ℕ) → 5 ≤ reload n l
unfolding reload
reload_pos n zero = omega arith
reload_pos n (suc l) = grind (arith, reload_pos n l)

last_store_bounds : (n l : ℕ) → (1 ≤ last_store n l) × (last_store n l ≤ reload n l)
unfolding last_store
last_store_bounds n zero = omega (arith, reload_pos n 0)
last_store_bounds n (suc l) = omega (arith, reload_pos n (suc l))

ready_weight_bounds :
    (n l : ℕ) → (3 ≤ ready_weight n l) × (ready_weight n l ≤ reload n (pred l) + 2)
unfolding ready_weight
ready_weight_bounds n zero = omega (arith, reload_pos n 0)
ready_weight_bounds n (suc l) = omega (arith, reload_pos n l)

-- The weight with an empty queue is the least.
pub weight_empty : (n l : ℕ) (t : Thread) → weight n 0 t ≤ weight n l t
unfolding weight ready_weight last_store reload
weight_empty n l starting = omega (arith, ready_weight_bounds n l)
weight_empty n l ready = omega (arith, ready_weight_bounds n l)
weight_empty n l (having none) = omega (arith, last_store_bounds n (pred l))
weight_empty n l (having (some pkg)) = omega (arith, reload_pos n (pred l))
weight_empty n l (storing none rest) = omega arith
weight_empty n l (storing (some pkg) rest) = omega arith
weight_empty n l (fetching pkg) = omega (arith, ready_weight_bounds n l)
weight_empty n l finished = omega arith

-- A new queue gives a thread this much at most.
pub weight-suc_le : (n l m : ℕ) (t : Thread) → weight n (suc l) t ≤ weight n m t + (reload n l + 3)
unfolding weight ready_weight
weight-suc_le n l m starting = omega arith
weight-suc_le n l m ready = omega arith
weight-suc_le n l m (having none) = omega (arith, last_store_bounds n l)
weight-suc_le n l m (having (some pkg)) = omega arith
weight-suc_le n l m (storing none rest) = omega arith
weight-suc_le n l m (storing (some pkg) rest) = omega arith
weight-suc_le n l m (fetching pkg) = omega arith
weight-suc_le n l m finished = omega arith

total-le :
    (n l m c : ℕ)
    → ((t : Thread) → weight n m t ≤ weight n l t + c)
    → (threads : List Thread) → total n m threads ≤ total n l threads + c * length threads
unfolding total
total-le n l m c each [] = omega arith
total-le n l m c each (t ∷ threads) = grind (arith, each t, total-le n l m c each threads)

-- The total after a thread has moved and the others were given `c` at most.
pub total-set :
    (n l m c : ℕ)
    → ((t : Thread) → weight n m t ≤ weight n l t + c)
    → (threads : List Thread) (i : ℕ) (t t' : Thread) → get_elem? threads i ≡ some t
    → total n m (set threads i t') + weight n l t
      ≤ total n l threads + weight n m t' + c * length threads
unfolding total
total-set n l m c each [] i t t' at = cc
total-set n l m c each (u ∷ threads) zero t t' at =
    let same : weight n l u ≡ weight n l t = ground (arith, at) in
    grind (arith, same, total-le n l m c each threads)
total-set n l m c each (u ∷ threads) (suc i) t t' at =
    grind (arith, each u, total-set n l m c each threads i t t' at)
