-- ===== src/Download/Targets.antt =====
-- download.c: the threads fetch no other packages than the targets.
use powaur.Base.{ℕ, zero, suc, ◌≡◌, refl, sym, Bool, List, [], ◌∷◌, ◌++◌, Option, none, some}
use powaur.Base.{get_elem?, set, replicate, arith, ◌⊎◌, inl, inr}
use powaur.Util.{Str}
use powaur.Download.{
  Thread, starting, having, storing, fetching, getdata, next_link, Jobs, after_store, Move, no_curl,
  has_curl, take_head, take_next, store, fetch_ok, fetch_failed, Step, move, Steps, here, later,
  threadpool,
}

abbrev pub Among : List Str → Str → Type 0
Among [] pkg = ⊥
Among (target ∷ targets) pkg = (pkg ≡ target) ⊎ Among targets pkg

module _ (targets : List Str) where
  abbrev Within : List Str → Type 0
  Within [] = Unit {0}
  Within (pkg ∷ q) = Among targets pkg × Within q

  abbrev Head : Option Str → Type 0
  Head none = Unit {0}
  Head (some pkg) = Among targets pkg

  abbrev Holds : Thread → Type 0
  Holds (having pkg) = Head pkg
  Holds (storing pkg rest) = Head pkg × Within rest
  Holds (fetching pkg) = Among targets pkg
  Holds _ = Unit {0}

  abbrev AllHold : List Thread → Type 0
  AllHold [] = Unit {0}
  AllHold (t ∷ threads) = Holds t × AllHold threads

  abbrev pub OnlyTargets : List (Str × Bool) → Type 0
  OnlyTargets [] = Unit {0}
  OnlyTargets (d ∷ fetched) = Among targets d.0 × OnlyTargets fetched

  record IsSound (s : Jobs) : Type 0 where
    queue : Within s.queue
    threads : AllHold s.threads
    fetched : OnlyTargets s.fetched

  getdata-Head : (q : List Str) → Within q → Head (getdata q)
  getdata-Head [] h = tt
  getdata-Head (pkg ∷ q) h = h.0

  next_link-Within : (q : List Str) → Within q → Within (next_link q)
  next_link-Within [] h = tt
  next_link-Within (pkg ∷ q) h = h.1

  get_elem?-Holds :
      (threads : List Thread) (i : ℕ) (t : Thread)
      → AllHold threads
      → get_elem? threads i ≡ some t
      → Holds t
  get_elem?-Holds [] i t h at = cc
  get_elem?-Holds (u ∷ threads) zero t h at =
      let same : u ≡ t = ground (arith, at) in rw (sym same) h.0
  get_elem?-Holds (u ∷ threads) (suc i) t h at = get_elem?-Holds threads i t h.1 at

  set-Holds :
      (threads : List Thread) (i : ℕ) (t : Thread)
      → AllHold threads
      → Holds t
      → AllHold (set threads i t)
  set-Holds [] i t h k = tt
  set-Holds (u ∷ threads) zero t h k = (k, h.1)
  set-Holds (u ∷ threads) (suc i) t h k = (h.0, set-Holds threads i t h.1 k)

  after_store-Holds : (pkg : Option Str) → Head pkg → Holds (after_store pkg)
  after_store-Holds none h = tt
  after_store-Holds (some pkg) h = h

  Move-sound :
      {t t' : Thread} {q q' : List Str} {log : List (Str × Bool)}
      → Move t q q' log t'
      → Within q
      → Holds t
      → Within q' × Holds t' × OnlyTargets log
  Move-sound no_curl w h = (w, tt, tt)
  Move-sound has_curl w h = (w, tt, tt)
  Move-sound (take_head {q}) w h = (w, getdata-Head q w, tt)
  Move-sound (take_next {q}) w h = (w, (h, next_link-Within q w), tt)
  Move-sound (store {q} {rest} {pkg}) w h = (h.1, after_store-Holds pkg h.0, tt)
  Move-sound fetch_ok w h = (w, tt, (h, tt))
  Move-sound fetch_failed w h = (w, tt, (h, tt))

  OnlyTargets-append :
      (log fetched : List (Str × Bool))
      → OnlyTargets log
      → OnlyTargets fetched
      → OnlyTargets (log ++ fetched)
  OnlyTargets-append [] fetched h k = k
  OnlyTargets-append (d ∷ log) fetched h k = (h.0, OnlyTargets-append log fetched h.1 k)

  Step-IsSound : {s t : Jobs} → Step s t → IsSound s → IsSound t
  Step-IsSound {s} (move i {t} {t'} {q'} {log} at m) v =
      let (w, h, l) = Move-sound m v.queue (get_elem?-Holds s.threads i t v.threads at) in
      record {
        queue = w;
        threads = set-Holds s.threads i t' v.threads h;
        fetched = OnlyTargets-append log s.fetched l v.fetched;
      }

  Steps-IsSound : {s t : Jobs} {n : ℕ} → Steps s n t → IsSound s → IsSound t
  Steps-IsSound here v = v
  Steps-IsSound (later r st) v = Step-IsSound st (Steps-IsSound r v)

  starting-Holds : (n : ℕ) → AllHold (replicate n starting)
  starting-Holds zero = tt
  starting-Holds (suc n) = (tt, starting-Holds n)

Within-grows :
    (target : Str) (targets q : List Str) → Within targets q → Within (target ∷ targets) q
Within-grows target targets [] h = tt
Within-grows target targets (pkg ∷ q) h = (inr h.0, Within-grows target targets q h.1)

Within-self : (targets : List Str) → Within targets targets
Within-self [] = tt
Within-self (target ∷ targets) =
    (inl refl, Within-grows target targets targets (Within-self targets))

-- However the threads take turns on the queue that they share, every package whose download ended,
-- well or with an error, is one of the targets.
pub threadpool-OnlyTargets :
    (maxthreads : ℕ) (targets : List Str) (n : ℕ) (t : Jobs)
    → Steps (threadpool maxthreads targets) n t
    → OnlyTargets targets t.fetched
unfolding threadpool
threadpool-OnlyTargets maxthreads targets n t r =
    (Steps-IsSound targets r (record {
      queue = Within-self targets;
      threads = starting-Holds targets _;
      fetched = tt;
    })).fetched
