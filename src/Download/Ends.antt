-- ===== src/Download/Ends.antt =====
-- download.c: however the threads of `threadpool_dl_extract` take turns, they come to an end.
use powaur.Base.{
  ℕ, zero, suc, ◌+◌, ◌*◌, ◌≤◌, ◌<◌, ◌≡◌, refl, ap, Bool, true, List, [], ◌∷◌, ◌++◌, Option, none,
  some,
}
use powaur.Base.{length, get_elem?, set, arith, ◌⊎◌, inl, inr, length-set}
use powaur.Util.{Str}
use powaur.Download.{
  Thread, starting, ready, having, storing, fetching, finished, getdata, next_link, Jobs,
  after_store, Move, no_curl, has_curl, take_head, take_next, store, fetch_ok, fetch_failed, Step,
  move, Steps, here, later, threadpool,
}
use powaur.Download.Weights.{
  reload, pred, last_store, ready_weight, weight, measure, weight_empty, weight-suc_le, total-set,
}

length-next_link : (q : List Str) → length (next_link q) ≡ pred (length q)
length-next_link [] = refl
length-next_link (pkg ∷ q) = refl

-- A move that leaves the queue alone costs its thread a step.
abbrev Cheaper : ℕ → List Str → Thread → List Str → Thread → Type 0
Cheaper n q t q' t' =
    (c : ℕ) × ((u : Thread) → weight n (length q') u ≤ weight n (length q) u + c)
    × (weight n (length q') t' + c * n < weight n (length q) t)

still :
    (n : ℕ) (q : List Str) (t t' : Thread)
    → weight n (length q) t' < weight n (length q) t
    → Cheaper n q t q t'
still n q t t' h = (0, λ u. omega arith, omega arith)

store-Cheaper :
    (n : ℕ) (q rest : List Str) (pkg : Option Str)
    → Cheaper n q (storing pkg rest) rest (after_store pkg)
unfolding weight last_store reload ready_weight
store-Cheaper n q [] none = (0, λ u. omega (arith, weight_empty n (length q) u), omega arith)
store-Cheaper n q [] (some pkg) = (0, λ u. omega (arith, weight_empty n (length q) u), omega arith)
store-Cheaper n q (x ∷ rest) none =
    (reload n (length rest) + 3, weight-suc_le n (length rest) (length q), grind arith)
store-Cheaper n q (x ∷ rest) (some pkg) =
    (reload n (length rest) + 3, weight-suc_le n (length rest) (length q), grind arith)

head-cheaper :
    (n : ℕ) (q : List Str) → weight n (length q) (having (getdata q)) < weight n (length q) ready
unfolding weight ready_weight last_store
head-cheaper n [] = omega arith
head-cheaper n (x ∷ q) = omega arith

next-cheaper :
    (n : ℕ) (q : List Str) (pkg : Option Str)
    → weight n (length q) (storing pkg (next_link q)) < weight n (length q) (having pkg)
unfolding weight
next-cheaper n q none = omega (arith, ap (last_store n) (length-next_link q))
next-cheaper n q (some pkg) = omega (arith, ap (reload n) (length-next_link q))

Move-Cheaper :
    (n : ℕ) {t t' : Thread} {q q' : List Str} {log : List (Str × Bool)}
    → Move t q q' log t'
    → Cheaper n q t q' t'
unfolding weight
Move-Cheaper n (no_curl {q}) = still n q starting finished (omega arith)
Move-Cheaper n (has_curl {q}) = still n q starting ready (omega arith)
Move-Cheaper n (take_head {q}) = still n q ready (having (getdata q)) (head-cheaper n q)
Move-Cheaper n (take_next {q} {pkg}) =
    still n q (having pkg) (storing pkg (next_link q)) (next-cheaper n q pkg)
Move-Cheaper n (store {q} {rest} {pkg}) = store-Cheaper n q rest pkg
Move-Cheaper n (fetch_ok {q} {pkg}) = still n q (fetching pkg) ready (omega arith)
Move-Cheaper n (fetch_failed {q} {pkg}) = still n q (fetching pkg) finished (omega arith)

Step-measure : {s t : Jobs} → Step s t → measure t < measure s
unfolding measure
Step-measure {s} (move i {t} {t'} {q'} at m) =
    let (c, each, own) = Move-Cheaper (length s.threads) m in
    let count = length-set s.threads i t' in
    let sum =
      total-set (length s.threads) (length s.queue) (length q') c each s.threads i t t' at in
    rw count (omega (arith, own, sum))

Steps-measure : {s t : Jobs} {n : ℕ} → Steps s n t → n + measure t ≤ measure s
Steps-measure here = omega arith
Steps-measure (later r st) = omega (arith, Steps-measure r, Step-measure st)

-- However the threads take turns between the reading of the queue, the reading of its next link and
-- the writing of it, and whichever downloads fail, the threads that are made for the targets make no
-- more steps than a number that is fixed by the targets and the setting for the threads.
pub threadpool-Steps_bound :
    (maxthreads : ℕ) (targets : List Str) (n : ℕ) (t : Jobs)
    → Steps (threadpool maxthreads targets) n t
    → n ≤ measure (threadpool maxthreads targets)
threadpool-Steps_bound maxthreads targets n t r = omega (arith, Steps-measure r)

abbrev pub AllEnded : List Thread → Type 0
AllEnded [] = Unit
AllEnded (t ∷ threads) = (t ≡ finished) × AllEnded threads

-- A thread that is not finished has a move.
Thread-moves :
    (q : List Str) (t : Thread)
    → (t ≡ finished)
      ⊎ ((q' : List Str) × (log : List (Str × Bool)) × (t' : Thread) × Move t q q' log t')
Thread-moves q starting = inr (q, [], ready, has_curl)
Thread-moves q ready = inr (q, [], having (getdata q), take_head)
Thread-moves q (having pkg) = inr (q, [], storing pkg (next_link q), take_next)
Thread-moves q (storing pkg rest) = inr (rest, [], after_store pkg, store)
Thread-moves q (fetching pkg) = inr (q, (pkg, true) ∷ [], ready, fetch_ok)
Thread-moves q finished = inl refl

Threads-moves :
    (q : List Str) (threads : List Thread)
    → AllEnded threads
      ⊎ ((i : ℕ) × (t : Thread) × (get_elem? threads i ≡ some t)
          × (q' : List Str) × (log : List (Str × Bool)) × (t' : Thread) × Move t q q' log t')
Threads-moves q [] = inl tt
Threads-moves q (t ∷ threads) = elim (Thread-moves q t) [
  | inr (q', log, t', m) ↦ inr (0, t, refl, q', log, t', m)
  | inl e ↦ elim (Threads-moves q threads) [
    | inl rest ↦ inl (e, rest)
    | inr (i, u, at, q', log, u', m) ↦ inr (suc i, u, at, q', log, u', m)
  ]
]

Jobs-moves : (s : Jobs) → AllEnded s.threads ⊎ ((t : Jobs) × Step s t)
Jobs-moves s = elim (Threads-moves s.queue s.threads) [
  | inl e ↦ inl e
  | inr (i, t, at, q', log, t', m) ↦
      inr (
        record { queue = q'; threads = set s.threads i t'; fetched = log ++ s.fetched },
        move i at m,
      )
]

prepend : {s t u : Jobs} {n : ℕ} → Step s t → Steps t n u → Steps s (suc n) u
prepend st here = later here st
prepend st (later r last) = later (prepend st r) last

run_on :
    (k : ℕ) (s : Jobs) → measure s < k → (n : ℕ) × (t : Jobs) × Steps s n t × AllEnded t.threads
run_on zero s h = absurd (omega arith)
run_on (suc k) s h = elim (Jobs-moves s) [
  | inl e ↦ (0, s, here, e)
  | inr (t, st) ↦
      let (n, u, r, e) = run_on k t (omega (arith, Step-measure st)) in (suc n, u, prepend st r, e)
]

-- From every state of the download, however it was reached, the threads can run on until all have
-- finished, so that the joining of the threads returns; and a state that has no step is such a state.
pub Jobs-finish :
    (s : Jobs)
    → ((n : ℕ) × (t : Jobs) × Steps s n t × AllEnded t.threads)
      × (((t : Jobs) → ¬ Step s t) → AllEnded s.threads)
Jobs-finish s = (
  run_on (suc (measure s)) s (omega arith),
  λ stuck. elim (Jobs-moves s) [ inl e ↦ e | inr (t, st) ↦ absurd (stuck t st) ],
)
