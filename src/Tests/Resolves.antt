-- ===== src/Tests/Resolves.antt =====
-- Tests of the building of the database and of the resolution of dependencies.
use powaur.Base.{Gives}
use powaur.Base.{
  ℕ, zero, suc, or_else, ◌≡◌, ◌≢◌, refl, ap, true, false, List, [], ◌∷◌, Option, none, some,
}
use powaur.Base.{if◌then◌else◌, Bool-cases, inl, inr, arith, ok, died, Ends, Safe, Finishes}
use powaur.Util.{Str, find_str, same_str, strtrim, starts_with, strtrim_ver, split_at}
use powaur.Package.{substitute_vars}
use powaur.Package.Arrays.{File, read_array}
use powaur.Package.Pkgbuild.{grab_dependencies}
use powaur.Package.Tokens.{depends_line}
use powaur.Hash.Bst.{hashbst_bst_insert, hashbst_tree_node_search}
use powaur.Query.{
  PkgFrom, local, immediate, thorough, Tables, Caches, map_search, chompversion, normalize_package,
  know, cache_provider, should_we_continue_resolving, add_immediate_deps,
}
use powaur.Query.Known.{Honest, IsLocating}
use powaur.Query.Crawl.{
  stale, resolved, Surroundings, Resolving, goes_on, at_start, push_all, crawl_resolve,
  resolve_loop, get_deps, resolve_round,
}
use powaur.Query.Crawl.Loop.{resolve_loop-Done}
use powaur.Query.Crawl.Universe.{IsUniverse}
use powaur.Query.Crawl.Ends.{resolve_loop-Ends}
use powaur.Query.Crawl.Stale.{Taken, get_deps-Taken}
use powaur.Hashdb.Build.{
  build_hashdb, tables_of, caches_of, has_pkg, provider, provides_insert, pkgpair_search,
}
use powaur.Hashdb.Build.Sound.{Builds, build_hashdb-Builds}

resolve_program : Unit {0}
unfolding split_at same_str find_str map_search chompversion normalize_package know cache_provider
    should_we_continue_resolving add_immediate_deps resolve_loop crawl_resolve get_deps push_all
    build_hashdb tables_of caches_of has_pkg provider hashbst_bst_insert hashbst_tree_node_search
    pkgpair_search provides_insert
resolve_program = tt

abbrev name_a : Str
name_a = b'a' ∷ []

abbrev name_b : Str
name_b = b'b' ∷ []

-- Two packages of libalpm: 0 is "a", which provides "b=1"; the others are "b".
abbrev pkg_name : ℕ → Str
pkg_name zero = name_a
pkg_name (suc n) = name_b

abbrev pkg_provides : ℕ → List Str
pkg_provides zero = (b'b' ∷ b'=' ∷ b'1' ∷ []) ∷ []
pkg_provides (suc n) = []

build_hashdb-Builds_example :
    Builds pkg_name pkg_provides
      (some (0 ∷ 1 ∷ []))
      ((1 ∷ []) ∷ [])
      []
      (build_hashdb pkg_name pkg_provides (some (0 ∷ 1 ∷ [])) ((1 ∷ []) ∷ []))
build_hashdb-Builds_example =
    build_hashdb-Builds pkg_name pkg_provides (some (0 ∷ 1 ∷ [])) ((1 ∷ []) ∷ []) []

-- Nothing is installed; "a" and "b" of the AUR need each other.
abbrev nothing : Tables
nothing = record {
  in_local = λ name. false;
  in_sync = λ name. false;
  in_aur = λ name. false;
  outdated = λ name. false;
  local_provider = λ name. none;
  sync_provider_local = λ name. none;
  sync_provider_sync = λ name. none;
}

abbrev needs : Str → File
needs name = record { lines = depends_line (name ∷ []) ∷ []; newline = true; eof = false }

abbrev cycle : Surroundings
cycle = record {
  local_depends = λ name. [];
  sync_depends = λ name. [];
  aur_depends = λ name. [];
  enter = λ name. some (some (if same_str name name_a then needs name_b else needs name_a));
  getcwd = true;
  restore = true;
}

abbrev empty : Caches
empty = record { pkg_from = []; provides_cache = []; aur_downloaded = [] }

abbrev both : List Str
both = name_a ∷ name_b ∷ []

read_a : grab_dependencies 16 (some (needs name_a)) ≡ ok (name_a ∷ [])
unfolding grab_dependencies strtrim starts_with read_array substitute_vars strtrim_ver
read_a = refl

read_b : grab_dependencies 16 (some (needs name_b)) ≡ ok (name_b ∷ [])
unfolding grab_dependencies strtrim starts_with read_array substitute_vars strtrim_ver
read_b = refl

nothing-Honest : Honest nothing
nothing-Honest = record {
  local_provider = λ name p h. absurd (cc h);
  sync_provider_local = λ name p h. absurd (cc h);
  sync_provider_sync = λ name p h. absurd (cc h);
}

start-IsLocating : IsLocating nothing empty
unfolding map_search
start-IsLocating = record {
  entry = λ name from h. absurd (cc h);
  of_aur = λ name h. absurd (cc h);
  cached = λ name p h. absurd (cc h);
}

cycle-read :
    (name : Str) (file : Option File)
    → cycle.enter name ≡ some file
    → Finishes
        (λ deps. (x : Str) → find_str deps x ≡ true → find_str both x ≡ true)
        (grab_dependencies 16 file)
unfolding find_str
cycle-read name file h = elim (Bool-cases (same_str name name_a)) [
  | inl e ↦
      let same : some (needs name_b) ≡ file = ground (arith, h, e) in
      rw (← same, read_b) (λ x m. ground (arith, m))
  | inr e ↦
      let same : some (needs name_a) ≡ file = ground (arith, h, e) in
      rw (← same, read_a) (λ x m. ground (arith, m))
]

cycle-alive :
    (name : Str) (file : Option File)
    → cycle.enter name ≡ some file
    → grab_dependencies 16 file ≢ died
cycle-alive name file h e = elim (Bool-cases (same_str name name_a)) [
  | inl k ↦
      let same : some (needs name_b) ≡ file = ground (arith, h, k) in
      cc (ap (grab_dependencies 16) same, e, read_b)
  | inr k ↦
      let same : some (needs name_a) ≡ file = ground (arith, h, k) in
      cc (ap (grab_dependencies 16) same, e, read_a)
]

cycle-IsUniverse : IsUniverse nothing cycle 16 both
unfolding find_str
cycle-IsUniverse = record {
  local_provider = λ name p h. absurd (cc h);
  sync_provider_local = λ name p h. absurd (cc h);
  sync_provider_sync = λ name p h. absurd (cc h);
  local_depends = λ name s h. absurd (cc h);
  sync_depends = λ name s h. absurd (cc h);
  aur_depends = λ name s h. absurd (cc h);
  grabbed = cycle-read;
}

resolve_loop-Done_example :
    Safe
      (powaur.Query.Crawl.Loop.Done nothing thorough
        (name_a ∷ [])
        (λ name. true)
        nothing-Honest
        cycle
        16
        cycle-alive)
      (resolve_loop nothing
        (λ name. true)
        cycle
        thorough
        16
        9
        (push_all (name_a ∷ []) [])
        (at_start empty (name_a ∷ [])))
resolve_loop-Done_example =
    resolve_loop-Done nothing thorough (name_a ∷ []) (λ name. true) nothing-Honest cycle 16
      cycle-alive 9 empty start-IsLocating

resolve_loop-Ends_example :
    (rounds : ℕ) × Ends (
      resolve_loop nothing
        (λ name. true)
        cycle
        thorough
        16
        rounds
        (name_a ∷ [])
        (at_start empty (name_a ∷ [])))
resolve_loop-Ends_example =
    resolve_loop-Ends nothing (λ name. true) cycle thorough 16 both cycle-IsUniverse (name_a ∷ [])
      (at_start empty (name_a ∷ [])) (λ name m. unfold find_str in ground (arith, m))
      (λ name p h. unfold map_search in absurd (cc h))

-- "a" and "b" are installed, and "a" needs "b".
abbrev installed : Tables
installed = record nothing { in_local = λ name. true }

abbrev known : Caches
known = record empty { pkg_from = (name_a, local) ∷ (name_b, local) ∷ [] }

abbrev needs_b : Surroundings
needs_b = record cycle { local_depends = λ name. name_b ∷ [] }

ends_stale :
    crawl_resolve installed (λ name. true) needs_b immediate 16 known name_a ≡ ok (known, stale)
unfolding resolve_program
ends_stale = refl

-- It is remembered that "a" provides "b", and "b" is not installed.
abbrev remembered : Caches
remembered = record empty { provides_cache = (name_b, name_a) ∷ [] }

get_deps-Taken_example :
    Gives
      (Taken nothing (λ name. true) needs_b immediate remembered.provides_cache (name_b ∷ []) [])
      (get_deps nothing (λ name. true) needs_b immediate remembered (name_b ∷ []) [])
get_deps-Taken_example =
    get_deps-Taken nothing (λ name. true) needs_b immediate remembered (name_b ∷ []) []

lists_provider :
    get_deps nothing (λ name. true) needs_b immediate remembered (name_b ∷ []) []
    ≡ ok (remembered, resolved (some name_a ∷ []))
unfolding resolve_program
lists_provider = refl

-- "b" is in the sync database, so that only "a" is from the AUR.
only_a_aur :
    elim (build_hashdb pkg_name pkg_provides (some (0 ∷ 1 ∷ [])) ((1 ∷ []) ∷ [])) as (λ r. Type 0) [
      | none ↦ ⊥
      | some hashdb ↦
          (hashdb.pkg_from ≡ (name_a, PkgFrom.aur) ∷ [])
          × ((tables_of hashdb []).local_provider name_b ≡ some name_a)
    ]
unfolding resolve_program strtrim_ver or_else
only_a_aur = (refl, refl)
