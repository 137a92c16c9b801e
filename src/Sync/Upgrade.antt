-- ===== src/Sync/Upgrade.antt =====
-- sync.c: `upgrade_pkgs`, from the names of the targets to their installation.
pub mod Topo
use powaur.Base.{ℕ, Bool, not, ◌||◌, List, [], ◌∷◌, Option, none, some}
use powaur.Base.{if◌then◌else◌, Run, ok, ◌>>=◌}
use powaur.Util.{Str}
use powaur.Util.Compare.{str_keys}
use powaur.Graph.Stack.{stack_new}
use powaur.Graph.Defs.{Graph, graph_new, graph_add_vertex}
use powaur.Graph.Sort.{graph_toposort}
use powaur.Hashdb.Build.{Hashdb, tables_of, caches_of}
use powaur.Query.{immediate}
use powaur.Query.Crawl.{Surroundings, build_dep_graph}
use powaur.Sync.{topo_get_targets}
use powaur.Sync.Install.{System, Shell, Ret, done, failure, install_all}

-- "Add the targets into graph"
unfoldable pub add_target_vertices : Graph Str → List Str → Run (Graph Str)
unfolding graph_add_vertex
add_target_vertices graph [] = ok graph
add_target_vertices graph (target ∷ targets) =
    graph_add_vertex graph target >>= λ g. add_target_vertices g targets

-- `to_dir` tells whether the directory `powaur_dir` can be entered.
module _ {P : Type 0} (hashdb : Hashdb P) (download : Str → Bool) (o : Surroundings)
    (size rounds : ℕ) (curl noconfirm : Bool) (sys : System) (powaur_dir : List Str)
    (to_dir : Bool) where
  -- From the label cleanup on.
  unfoldable pub cleanup : List Str → Shell × Ret → Shell × Ret
  cleanup cwd r = if sys.restore then (record r.0 { cwd = cwd }, r.1) else (r.0, failure)

  -- The result of `topo_install` is not looked at.
  unfoldable pub install_targets : Shell → Option (List Str) → Run (Shell × Ret)
  unfolding install_all
  install_targets s none = ok (s, done)
  install_targets s (some []) = ok (s, done)
  install_targets s (some (target ∷ targets)) =
      install_all sys noconfirm s (target ∷ targets) >>= λ r. ok (r.0, done)

  -- The graph of the dependencies with its caches, as the targets are outdated.
  unfoldable pub upgrade_in_dir : Shell → List Str → Run (Shell × Ret)
  unfolding tables_of caches_of add_target_vertices build_dep_graph graph_toposort topo_get_targets
      install_targets
  upgrade_in_dir s targets = do
    graph ← add_target_vertices graph_new targets
    r ←
        build_dep_graph (tables_of hashdb targets) download o immediate size curl rounds graph
          (caches_of hashdb) targets
    q ← graph_toposort r.0 stack_new
    (if q.2
        then ok (s, failure)
        else (topo_get_targets (tables_of hashdb targets) r.1.caches q.0 q.1 >>= install_targets s))

  unfoldable pub upgrade_pkgs : Shell → List Str → Run (Shell × Ret)
  unfolding upgrade_in_dir cleanup
  upgrade_pkgs s [] = ok (s, done)
  upgrade_pkgs s (target ∷ targets) =
      if not sys.getcwd || not to_dir
      then ok (s, failure)
      else (upgrade_in_dir (record s { cwd = powaur_dir }) (target ∷ targets) >>= λ r.
          ok (cleanup s.cwd r))
