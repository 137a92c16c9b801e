-- ===== src/Download/Alone.antt =====
-- download.c: a thread that is alone on its queue takes the targets in order.
use powaur.Base.{
  ℕ, zero, suc, ◌≡◌, refl, sym, ◌∙◌, Bool, true, false, ◌&&◌, List, [], ◌∷◌, ◌++◌, Option, none,
  some,
}
use powaur.Base.{arith, ◌⊎◌, inl, inr}
use powaur.Util.{Str}
use powaur.Download.{
  Thread, starting, ready, having, storing, fetching, finished, getdata, next_link, Jobs,
  after_store, Move, no_curl, has_curl, take_head, take_next, store, fetch_ok, fetch_failed, Step,
  move, Steps, here, later,
}
use mathlib.Core.Path.{subst}
use mathlib.Core.List.{append-nil, append_assoc}

-- The packages of the downloads that ended, the first one first.
abbrev pub in_order : List (Str × Bool) → List Str
in_order [] = []
in_order (d ∷ fetched) = in_order fetched ++ (d.0 ∷ [])

abbrev pub all_ok : List (Str × Bool) → Bool
all_ok [] = true
all_ok (d ∷ fetched) = d.1 && all_ok fetched

-- The last download failed, and those before it did not.
abbrev pub LastFailed : List (Str × Bool) → Type 0
LastFailed [] = ⊥
LastFailed (d ∷ fetched) = (d.1 ≡ false) × (all_ok fetched ≡ true)

-- What a thread that has ended leaves of its targets.
abbrev pub Ended : List Str → List (Str × Bool) → Type 0
Ended targets fetched =
    ((targets ≡ in_order fetched) × (all_ok fetched ≡ true))
    ⊎ (((rest : List Str) × (targets ≡ in_order fetched ++ rest)) × LastFailed fetched)

module _ (targets : List Str) where
  -- What is left of the targets, for each place of the one thread.
  abbrev Line : Thread → List Str → List (Str × Bool) → Type 0
  Line starting q f = ⊥
  Line ready q f = (targets ≡ in_order f ++ q) × (all_ok f ≡ true)
  Line (having pkg) q f = (targets ≡ in_order f ++ q) × (all_ok f ≡ true) × (pkg ≡ getdata q)
  Line (storing pkg rest) q f =
      (targets ≡ in_order f ++ q) × (all_ok f ≡ true) × (pkg ≡ getdata q) × (rest ≡ next_link q)
  Line (fetching pkg) q f = (targets ≡ in_order f ++ (pkg ∷ q)) × (all_ok f ≡ true)
  Line finished q f = Ended targets f

  store-Line :
      (q f_rest : List Str) (pkg : Option Str) (f : List (Str × Bool))
      → Line (storing pkg f_rest) q f
      → Line (after_store pkg) f_rest f
  store-Line [] rest none f h = inl (h.0 ∙ append-nil (in_order f), h.1)
  store-Line [] rest (some pkg) f h = absurd (cc (h.2))
  store-Line (x ∷ q) rest none f h = absurd (cc (h.2))
  store-Line (x ∷ q) rest (some pkg) f h =
      let same : pkg ≡ x = ground (arith, h.2) in (rw (same, h.3) h.0, h.1)

  Move-Line :
      {t t' : Thread} {q q' : List Str} {log : List (Str × Bool)}
      → Move t q q' log t'
      → (f : List (Str × Bool)) → Line t q f
      → Line t' q' (log ++ f)
  Move-Line no_curl f h = elim h [ ]
  Move-Line has_curl f h = elim h [ ]
  Move-Line take_head f h = (h.0, h.1, refl)
  Move-Line take_next f h = (h.0, h.1, h.2, refl)
  Move-Line (store {q} {rest} {pkg}) f h = store-Line q rest pkg f h
  Move-Line (fetch_ok {q} {pkg}) f h = (h.0 ∙ sym (append_assoc (in_order f) (pkg ∷ []) q), h.1)
  Move-Line (fetch_failed {q} {pkg}) f h =
      inr ((q, h.0 ∙ sym (append_assoc (in_order f) (pkg ∷ []) q)), (refl, h.1))

  record IsAlone (s : Jobs) : Type 0 where
    thread : Thread
    only : s.threads ≡ thread ∷ []
    line : Line thread s.queue s.fetched

  Step-IsAlone : {s t : Jobs} → Step s t → IsAlone s → IsAlone t
  Step-IsAlone {s} (move zero {t} {t'} {q'} {log} at m) v =
      let same : v.thread ≡ t = ground (arith, at, v.only) in
      let line : Line t s.queue s.fetched = rw (sym same) v.line in
      record { thread = t'; only = rw v.only refl; line = Move-Line m s.fetched line }
  Step-IsAlone {s} (move (suc i) at m) v = absurd (ground (arith, at, v.only))

  Steps-IsAlone : {s t : Jobs} {n : ℕ} → Steps s n t → IsAlone s → IsAlone t
  Steps-IsAlone here v = v
  Steps-IsAlone (later r st) v = Step-IsAlone st (Steps-IsAlone r v)

-- A thread that has its curl handle and is alone on the queue fetches the targets in order: when it
-- has ended, either every target has been fetched, once and in order, and no download failed, or the
-- last download failed, no other did, and the targets that were fetched are the first ones.
pub alone-Ended :
    (targets : List Str) (n : ℕ) (t : Jobs)
    → Steps (record { queue = targets; threads = ready ∷ []; fetched = [] }) n t
    → t.threads ≡ finished ∷ []
    → Ended targets t.fetched
alone-Ended targets n t r h =
    let v = Steps-IsAlone targets r (record { thread = ready; only = refl; line = (refl, refl) }) in
    let same : v.thread ≡ finished = ground (arith, v.only, h) in
    let line : Line targets finished t.queue t.fetched =
      subst (λ (x : Thread). Line targets x t.queue t.fetched) same v.line in
    line
