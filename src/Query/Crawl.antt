-- ===== src/Query/Crawl.antt =====
-- query.c: `crawl_resolve` lists what a package needs, and `build_dep_graph` follows the lists from
-- the targets on. Names are values here, but for the array `buf` of `crawl_resolve`, which is gone
-- when that returns: once the list or a table holds its address the result is `stale`.
pub mod Safe
pub mod Loop
pub mod Universe
pub mod Within
pub mod Ends
pub mod Stale
use powaur.Base.{
  ℕ, zero, suc, Bool, true, false, not, ◌&&◌, List, [], ◌∷◌, ◌++◌, Option, none, some,
}
use powaur.Base.{if◌then◌else◌, ltb, length, Run, died, fault, spin, ok, ◌>>=◌}
use powaur.Util.{Str, find_str}
use powaur.Util.Compare.{str_keys}
use powaur.Download.{path_max}
use powaur.Graph.Defs.{Graph, graph_add_edge}
use powaur.Package.Arrays.{File}
use powaur.Package.Pkgbuild.{grab_dependencies}
use powaur.Query.{
  PkgFrom, local, sync, aur, unknown, ResolveLvl, is_thorough, Tables, Caches, map_search,
  chompversion, normalize_package, should_we_continue_resolving, add_immediate_deps,
}

-- What `crawl_resolve` comes to: -1; 0 with the dependencies, of which a NULL is `none`; or 0 where
-- the address of `buf` is kept.
pub data Crawl : Type 0 where
  failed stale : Crawl
  resolved : List (Option Str) → Crawl

-- What lies outside: the strings of the dependencies of a package in the local, a sync and the AUR
-- table, the PKGBUILD in the directory of a package if that can be entered, and whether `getcwd` and
-- the way back succeed.
pub record Surroundings : Type 0 where
  pub local_depends : Str → List Str
  pub sync_depends : Str → List Str
  pub aur_depends : Str → List Str
  pub enter : Str → Option (Option File)
  pub getcwd : Bool
  pub restore : Bool

-- Whether `normalize_package` gives its argument itself and not a name out of a table, or puts it into
-- a table: `provides_cache` has the argument as the key of a provider that is found. Only a provider
-- out of `provides_cache`, and one of the sync databases that is in the local one, leave no trace of
-- it. This is read where the result is not NULL.
unfoldable pub keeps_argument : Tables → Caches → Str → Bool
unfolding map_search
keeps_argument t c pkgname = elim (map_search c.pkg_from pkgname) [
  | some from ↦ true
  | none ↦ if t.in_local pkgname then true else (elim (map_search c.provides_cache pkgname) [
    | some provided ↦ false
    | none ↦ elim (t.local_provider pkgname) [
      | some provider ↦ true
      | none ↦ elim (t.sync_provider_local pkgname) [ some provider ↦ false | none ↦ true ]
    ]
  ])
]

module _ (t : Tables) (download : Str → Bool) (o : Surroundings) (lvl : ResolveLvl) where
  -- The loop behind the label get_deps. A string that fills `buf` has no terminator there.
  unfoldable pub get_deps : Caches → List Str → List (Option Str) → Run (Caches × Crawl)
  unfolding chompversion normalize_package keeps_argument
  get_deps c [] deps = ok (c, resolved deps)
  get_deps c (s ∷ depmod_list) deps = elim (ltb (length s) path_max) [
    | false ↦ fault
    | true ↦
        let r = normalize_package t download lvl c (chompversion s) in
        elim r.1 [
          | none ↦ ok (r.0, failed)
          | some depname ↦ elim (keeps_argument t c (chompversion s)) [
            | true ↦ ok (r.0, stale)
            | false ↦ get_deps r.0 depmod_list (deps ++ (some depname ∷ []))
          ]
        ]
  ]

  -- "Transfer control to memlist and normalize packages"
  unfoldable pub normalize_deps : Caches → List Str → List (Option Str) → Caches × List (Option Str)
  unfolding normalize_package
  normalize_deps c [] new_deps = (c, new_deps)
  normalize_deps c (dep ∷ deps) new_deps =
      let r = normalize_package t download lvl c dep in
      normalize_deps r.0 deps (new_deps ++ (r.1 ∷ []))

  -- "Download pkgbuild and extract deps"; `dep_list` is not NULL.
  unfoldable pub read_pkgbuild : ℕ → Caches → Str → Run (Caches × Crawl)
  unfolding grab_dependencies normalize_deps
  read_pkgbuild size c final_pkgname =
      if not o.getcwd then ok (c, failed) else (elim (o.enter final_pkgname) [
        | none ↦ ok (c, failed)
        | some file ↦ do
          deps ← grab_dependencies size file
          (if not o.restore
              then ok (c, failed)
              else (let r = normalize_deps c deps [] in ok (r.0, resolved r.1)))
      ])

  unfoldable pub aur_deps : ℕ → Caches → Str → Run (Caches × Crawl)
  unfolding get_deps read_pkgbuild
  aur_deps size c final_pkgname =
      if not (is_thorough lvl) && (t.in_aur final_pkgname && not (t.outdated final_pkgname))
      then get_deps c (o.aur_depends final_pkgname) []
      else read_pkgbuild size c final_pkgname

  -- The `switch`.
  unfoldable pub crawl_from : ℕ → Caches → Str → PkgFrom → Run (Caches × Crawl)
  unfolding get_deps aur_deps
  crawl_from size c final_pkgname local =
      if t.in_local final_pkgname then get_deps c (o.local_depends final_pkgname) [] else died
  crawl_from size c final_pkgname sync =
      if t.in_sync final_pkgname then get_deps c (o.sync_depends final_pkgname) [] else died
  crawl_from size c final_pkgname aur = aur_deps size c final_pkgname
  crawl_from size c final_pkgname unknown = aur_deps size c final_pkgname

  unfoldable pub crawl_resolve : ℕ → Caches → Str → Run (Caches × Crawl)
  unfolding normalize_package map_search crawl_from
  crawl_resolve size c pkgname =
      let r = normalize_package t download lvl c pkgname in
      elim r.1 [
        | none ↦ ok (r.0, failed)
        | some final_pkgname ↦ elim (map_search r.0.pkg_from final_pkgname) [
          | none ↦ died
          | some from ↦ crawl_from size r.0 final_pkgname from
        ]
      ]

-- The state of the loop. `edges` are the calls of `graph_add_edge`: the graph is not read here.
pub record Resolving : Type 0 where
  pub caches : Caches
  pub st : List Str
  pub edges : List (Str × Str)
  pub seen : List Str
  pub immediate_deps : List Str
  pub immediate : List Str

-- How the loop goes on: at its test, or behind it with or without the message of an error.
pub data Turn : Type 0 where
  goes_on : Resolving → Turn
  breaks_off : Resolving → Turn

abbrev pub dep_names : List (Option Str) → List Str
dep_names [] = []
dep_names (none ∷ deps) = dep_names deps
dep_names (some dep ∷ deps) = dep ∷ dep_names deps

-- "Push all packages down stack"
unfoldable pub push_all : List Str → List Str → List Str
push_all [] st = st
push_all (target ∷ targets) st = push_all targets (target ∷ st)

abbrev pub at_start : Caches → List Str → Resolving
at_start c targets = record {
  caches = c;
  st = push_all targets [];
  edges = [];
  seen = [];
  immediate_deps = [];
  immediate = [];
}

abbrev pub reached : Turn → Resolving
reached (goes_on b) = b
reached (breaks_off b) = b

-- The calls of `graph_add_edge`, in order.
unfoldable pub add_edges : List (Str × Str) → Graph Str → Run (Graph Str)
unfolding graph_add_edge
add_edges [] graph = ok graph
add_edges ((from, to) ∷ edges) graph = graph_add_edge graph from to >>= add_edges edges

-- `goto cleanup` after an error.
abbrev pub go_on : (Resolving → Run Turn) → Turn → Run Turn
go_on loop (goes_on b) = loop b
go_on loop (breaks_off b) = ok (breaks_off b)

module _ (t : Tables) (download : Str → Bool) (o : Surroundings) (lvl : ResolveLvl) (size : ℕ) where
  -- The loop over `deps`. A NULL among them is used as a name from here on: the model stops there.
  unfoldable pub follow_deps : Resolving → Str → List (Option Str) → Run Resolving
  unfolding should_we_continue_resolving
  follow_deps b pkgname [] = ok b
  follow_deps b pkgname (none ∷ deps) = fault
  follow_deps b pkgname (some dep ∷ deps) =
      let r = should_we_continue_resolving t download lvl b.caches b.st dep in
      follow_deps (record b { caches = r.0; st = r.1; edges = b.edges ++ ((dep, pkgname) ∷ []) })
        pkgname deps

  -- Behind the loop over `deps`.
  unfoldable pub mark_resolved : Resolving → Str → List (Option Str) → Resolving
  unfolding add_immediate_deps
  mark_resolved b pkgname deps =
      let r =
        add_immediate_deps t download b.caches pkgname (dep_names deps) b.immediate_deps
          b.immediate in
      record b { seen = pkgname ∷ b.seen; immediate_deps = r.0; immediate = r.1 }

  unfoldable pub after_crawl : Resolving → Str → Crawl → Run Turn
  unfolding follow_deps mark_resolved
  after_crawl b pkgname failed = ok (breaks_off b)
  after_crawl b pkgname stale = fault
  after_crawl b pkgname (resolved deps) =
      follow_deps b pkgname deps >>= λ b'. ok (goes_on (mark_resolved b' pkgname deps))

  -- One round, for the name that was popped.
  unfoldable pub resolve_round : Resolving → Str → Run Turn
  unfolding find_str crawl_resolve after_crawl
  resolve_round b pkgname =
      if find_str b.seen pkgname
      then ok (goes_on b)
      else (crawl_resolve t download o lvl size b.caches pkgname >>= λ r.
          after_crawl (record b { caches = r.0 }) pkgname r.1)

  -- `while (!stack_empty(st))`, for a number of rounds; the stack is an argument of its own.
  unfoldable pub resolve_loop : ℕ → List Str → Resolving → Run Turn
  unfolding resolve_round
  resolve_loop rounds [] b = ok (goes_on (record b { st = [] }))
  resolve_loop zero (pkgname ∷ st) b = spin
  resolve_loop (suc rounds) (pkgname ∷ st) b =
      resolve_round (record b { st = st }) pkgname >>= go_on (λ b'. resolve_loop rounds b'.st b')

  -- `curl` tells whether there is a handle; without one nothing happens.
  unfoldable pub build_dep_graph :
      Bool → ℕ → Graph Str → Caches → List Str → Run (Graph Str × Resolving)
  unfolding resolve_loop push_all add_edges
  build_dep_graph curl rounds graph c targets =
      if curl
      then (do
        r ← resolve_loop rounds (push_all targets []) (at_start c targets)
        graph' ← add_edges (reached r).edges graph
        ok (graph', reached r))
      else ok (graph, at_start c [])
