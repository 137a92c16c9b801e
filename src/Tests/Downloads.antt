-- ===== src/Tests/Downloads.antt =====
-- Tests of the downloads.
use powaur.Base.{ℕ, ◌≤◌, ◌≡◌, refl, true, false, List, [], ◌∷◌}
use powaur.Util.{Str}
use powaur.Download.{
  Outside, done, failed, ArchiveEntry, ready, finished, Jobs, Step, move, Steps, here, later,
  take_head, take_next, store, fetch_ok, has_curl, threadpool,
}
use powaur.Download.Weights.{measure}
use powaur.Download.Ends.{AllEnded, threadpool-Steps_bound, Jobs-finish}
use powaur.Download.Races.{threadpool_loses}

abbrev a : Str
a = b'a' ∷ []

-- An entry "b" that is written, and one "c" that fails and is not.
abbrev two_entries : List ArchiveEntry
two_entries =
    record { pathname = b'b' ∷ []; extracted = done; written = true }
    ∷ record { pathname = b'c' ∷ []; extracted = failed; written = false }
    ∷ []

abbrev outside : Outside
outside = record {
  fopen = λ f. true;
  curl_easy_perform = λ u. 0;
  response_code = λ u. 200;
  archive_read_new = λ f. true;
  archive_read_open = λ f. true;
  archive_entries = λ f. two_entries;
}

abbrev after_one : Jobs
after_one = record { queue = a ∷ []; threads = ready ∷ []; fetched = [] }

one_step : Steps (threadpool 10 (a ∷ [])) 1 after_one
unfolding threadpool
one_step = later here (move 0 refl has_curl)

threadpool-Steps_bound_example : 1 ≤ measure (threadpool 10 (a ∷ []))
threadpool-Steps_bound_example = threadpool-Steps_bound 10 (a ∷ []) 1 after_one one_step

Jobs-finish_example :
    ((n : ℕ) × (t : Jobs) × Steps after_one n t × AllEnded t.threads)
    × (((t : Jobs) → ¬ Step after_one t) → AllEnded after_one.threads)
Jobs-finish_example = Jobs-finish after_one

abbrev fetched_one : Jobs
fetched_one = record { queue = []; threads = finished ∷ []; fetched = (a, true) ∷ [] }

one_fetched : Steps (threadpool 10 (a ∷ [])) 8 fetched_one
unfolding threadpool
one_fetched =
    later
      (later
        (later
          (later
            (later
              (later (later (later here (move 0 refl has_curl)) (move 0 refl take_head))
                (move 0 refl take_next))
              (move 0 refl store))
            (move 0 refl fetch_ok))
          (move 0 refl take_head))
        (move 0 refl take_next))
      (move 0 refl store)

alone_fetches : Steps after_one 7 fetched_one
alone_fetches =
    later
      (later
        (later
          (later
            (later (later (later here (move 0 refl take_head)) (move 0 refl take_next))
              (move 0 refl store))
            (move 0 refl fetch_ok))
          (move 0 refl take_head))
        (move 0 refl take_next))
      (move 0 refl store)

threadpool_loses_example :
    (n : ℕ) × (t : Jobs) × Steps (threadpool 2 (a ∷ (b'b' ∷ []) ∷ [])) n t
    × (t.threads ≡ finished ∷ finished ∷ [])
    × (t.fetched ≡ (a, true) ∷ (a, true) ∷ [])
threadpool_loses_example = threadpool_loses a (b'b' ∷ [])
