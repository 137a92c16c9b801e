-- ===== src/Download.antt =====
-- download.c: the download of one package, and the threads that share the queue of targets; util.c:
-- `extract_file`. The directory is the list of the names of the files in it.
pub mod Files
pub mod Weights
pub mod Ends
pub mod Targets
pub mod Alone
pub mod Races
use powaur.Base.{
  ℕ, zero, suc, ◌+◌, ◌-◌, Bool, true, false, ◌&&◌, List, [], ◌∷◌, ◌++◌, Option, none, some,
}
use powaur.Base.{length, ltb, ◌==◌, if◌then◌else◌, take, get_elem?, set, replicate, ◌≡◌}
use powaur.Util.{Str, same_str}

abbrev pub path_max : ℕ
path_max = 4096

abbrev pub aur_packages : Str
aur_packages =
    b'h' ∷ b't' ∷ b't' ∷ b'p' ∷ b':' ∷ b'/' ∷ b'/' ∷ b'a' ∷ b'u' ∷ b'r' ∷ b'.' ∷ b'a' ∷ b'r' ∷ b'c'
    ∷ b'h' ∷ b'l' ∷ b'i' ∷ b'n' ∷ b'u' ∷ b'x' ∷ b'.' ∷ b'o' ∷ b'r' ∷ b'g' ∷ b'/' ∷ b'p' ∷ b'a'
    ∷ b'c' ∷ b'k' ∷ b'a' ∷ b'g' ∷ b'e' ∷ b's' ∷ b'/' ∷ []

abbrev pub tar_gz : Str
tar_gz = b'.' ∷ b't' ∷ b'a' ∷ b'r' ∷ b'.' ∷ b'g' ∷ b'z' ∷ []

-- `snprintf` into a buffer of `PATH_MAX` bytes keeps the last byte for the terminator.
unfoldable pub archive_name : Str → Str
archive_name pkgname = take (path_max - 1) (pkgname ++ tar_gz)

unfoldable pub package_url : Str → Str
package_url pkgname =
    take (path_max - 1) (aur_packages ++ (pkgname ++ (b'/' ∷ (pkgname ++ tar_gz))))

unfoldable pub unlink : Str → List Str → List Str
unlink name [] = []
unlink name (file ∷ files) =
    if same_str file name then unlink name files else file ∷ unlink name files

-- What `archive_read_extract` answers; `warn` is ARCHIVE_WARN with another errno than ENOSPC.
pub data Extracted : Type 0 where
  done warn failed : Extracted

-- An entry of an archive: its pathname, what its extraction answers, and whether a file of that name is
-- in the directory from then on.
pub record ArchiveEntry : Type 0 where
  pub pathname : Str
  pub extracted : Extracted
  pub written : Bool

-- What the system, libcurl and libarchive answer for a file or an address.
pub record Outside : Type 0 where
  pub fopen : Str → Bool
  pub curl_easy_perform : Str → ℕ
  pub response_code : Str → ℕ
  pub archive_read_new : Str → Bool
  pub archive_read_open : Str → Bool
  pub archive_entries : Str → List ArchiveEntry

-- An `int` that is returned: -1, or a number from 0 on.
pub data Code : Type 0 where
  minus_one : Code
  code : ℕ → Code

abbrev pub is_success : Code → Bool
is_success minus_one = false
is_success (code n) = n == 0

abbrev pub is_error : Extracted → Bool
is_error failed = true
is_error _ = false

-- The loop of `extract_file`: the errors, and the directory.
unfoldable pub extract_entries : List ArchiveEntry → ℕ → List Str → ℕ × List Str
extract_entries [] errors files = (errors, files)
extract_entries (entry ∷ entries) errors files =
    extract_entries entries (if is_error entry.extracted then suc errors else errors)
      (if entry.written then entry.pathname ∷ files else files)

module _ (o : Outside) where
  unfoldable pub extract_file : Str → List Str → Code × List Str
  unfolding unlink extract_entries
  extract_file filename files =
      if o.archive_read_new filename
      then (if o.archive_read_open filename
          then (let r = extract_entries (o.archive_entries filename) 0 files in
              (code r.0, unlink filename r.1))
          else (minus_one, files))
      else (minus_one, files)

  unfoldable pub download_single_file : Str → Code
  download_single_file url =
      if o.curl_easy_perform url == 0 && o.response_code url == 200 then code 0 else minus_one

  -- A file that opens for writing is in the directory from then on.
  unfoldable pub download_single_package : Str → List Str → Code × List Str
  unfolding download_single_file archive_name package_url
  download_single_package pkgname files =
      if o.fopen (archive_name pkgname)
      then (download_single_file (package_url pkgname), archive_name pkgname ∷ files)
      else (minus_one, files)

  unfoldable pub dl_extract_single_package : Str → List Str → Code × List Str
  unfolding download_single_package extract_file unlink archive_name
  dl_extract_single_package pkgname files =
      let r = download_single_package pkgname files in
      if is_success r.0
      then extract_file (archive_name pkgname) r.1
      else (r.0, unlink (archive_name pkgname) r.1)

-- Where a thread of `thread_dl_extract` stands. The queue is shared and the mutex is not: each thread
-- has its own, so another thread may run between the reading of the queue's head, the reading of its
-- next link and the writing of the queue.
pub data Thread : Type 0 where
  starting : Thread
  ready : Thread
  having : Option Str → Thread
  storing : Option Str → List Str → Thread
  fetching : Str → Thread
  finished : Thread

-- `alpm_list_getdata` and `alpm_list_next`, which take NULL to NULL.
abbrev pub getdata : List Str → Option Str
getdata [] = none
getdata (pkg ∷ rest) = some pkg

abbrev pub next_link : List Str → List Str
next_link [] = []
next_link (pkg ∷ rest) = rest

-- `queue` is `pw_jobq`; `fetched` has the downloads that ended, the last one first, each with whether
-- its result was 0.
pub record Jobs : Type 0 where
  pub queue : List Str
  pub threads : List Thread
  pub fetched : List (Str × Bool)

abbrev pub after_store : Option Str → Thread
after_store none = finished
after_store (some pkg) = fetching pkg

-- A move of one thread, with the queue before and behind it and the downloads that it ends.
pub data Move : Thread → List Str → List Str → List (Str × Bool) → Thread → Type 0 where
  no_curl : {q : List Str} → Move starting q q [] finished
  has_curl : {q : List Str} → Move starting q q [] ready
  take_head : {q : List Str} → Move ready q q [] (having (getdata q))
  take_next :
      {q : List Str} {pkg : Option Str} → Move (having pkg) q q [] (storing pkg (next_link q))
  store :
      {q rest : List Str} {pkg : Option Str} → Move (storing pkg rest) q rest [] (after_store pkg)
  fetch_ok : {q : List Str} {pkg : Str} → Move (fetching pkg) q q ((pkg, true) ∷ []) ready
  fetch_failed : {q : List Str} {pkg : Str} → Move (fetching pkg) q q ((pkg, false) ∷ []) finished

pub data Step (s : Jobs) : Jobs → Type 0 where
  move :
      (i : ℕ) {t t' : Thread} {q' : List Str} {log : List (Str × Bool)}
      → get_elem? s.threads i ≡ some t
      → Move t s.queue q' log t'
      → Step s (record { queue = q'; threads = set s.threads i t'; fetched = log ++ s.fetched })

-- `Steps s n t`: from `s` to `t` in `n` steps.
pub data Steps (s : Jobs) : ℕ → Jobs → Type 0 where
  here : Steps s zero s
  later : {n : ℕ} {t u : Jobs} → Steps s n t → Step t u → Steps s (suc n) u

-- `threadpool_dl_extract`, once the threads are made.
unfoldable pub threadpool : ℕ → List Str → Jobs
threadpool maxthreads targets = record {
  queue = targets;
  threads =
      replicate (if ltb maxthreads (length targets) then maxthreads else length targets) starting;
  fetched = [];
}
