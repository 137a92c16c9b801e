-- ===== src/Download/Races.antt =====
-- download.c: two threads on one queue, each with a mutex of its own.
use powaur.Base.{ℕ, ◌≡◌, refl, true, [], ◌∷◌}
use powaur.Util.{Str}
use powaur.Download.{
  finished, Jobs, has_curl, take_head, take_next, store, fetch_ok, move, Steps, here, later,
  threadpool,
}

-- For two targets and two threads there is a run in which every download ends well and both threads
-- end, but the first target is fetched twice and the second one never.
pub threadpool_loses :
    (a b : Str)
    → (n : ℕ) × (t : Jobs) × Steps (threadpool 2 (a ∷ b ∷ [])) n t
      × (t.threads ≡ finished ∷ finished ∷ [])
      × (t.fetched ≡ (a, true) ∷ (a, true) ∷ [])
unfolding threadpool
threadpool_loses a b = (
  _,
  _,
  later
      (later
        (later
          (later
            (later
              (later
                (later
                  (later
                    (later
                      (later
                        (later
                          (later
                            (later
                              (later
                                (later (later here (move 0 refl has_curl)) (move 1 refl has_curl))
                                (move 0 refl take_head))
                              (move 1 refl take_head))
                            (move 0 refl take_next))
                          (move 0 refl store))
                        (move 1 refl take_next))
                      (move 1 refl store))
                    (move 0 refl fetch_ok))
                  (move 1 refl fetch_ok))
                (move 0 refl take_head))
              (move 1 refl take_head))
            (move 0 refl take_next))
          (move 1 refl take_next))
        (move 0 refl store))
      (move 1 refl store),
  refl,
  refl,
)
