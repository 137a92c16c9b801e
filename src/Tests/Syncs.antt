-- ===== src/Tests/Syncs.antt =====
-- Tests of the order of installation.
use powaur.Base.{ℕ, ◌≡◌, refl, true, false, [], ◌∷◌, Option, none, some}
use powaur.Base.{ok}
use powaur.Util.{Str, same_str}
use powaur.Util.Compare.{str_keys}
use powaur.Hash.Vindex.{hash_new_vindex}
use powaur.Graph.Stack.{Stack}
use powaur.Graph.Defs.{Graph, white, graph_get_vertex_data}
use powaur.Query.{aur, Tables, Caches, map_search}
use powaur.Query.Print.{print_topo_order}
use powaur.Sync.{topo_get_targets, topo_install}

abbrev lib : Str
lib = b'l' ∷ []

abbrev app : Str
app = b'a' ∷ []

-- An edge from "l" to "a", which needs it.
abbrev graph : Graph Str
graph = record {
  vertices =
      record { value = lib; color = white; adj = 1 ∷ []; dfs_idx = 0; sz = 4 }
      ∷ record { value = app; color = white; adj = []; dfs_idx = 0; sz = 4 }
      ∷ [];
  vidx = hash_new_vindex;
  sz = 4;
}

abbrev order : Stack (Option ℕ)
order = record { items = some 0 ∷ some 1 ∷ []; sz = 40 }

abbrev nothing_installed : Tables
nothing_installed = record {
  in_local = λ name. false;
  in_sync = λ name. false;
  in_aur = λ name. false;
  outdated = λ name. false;
  local_provider = λ name. none;
  sync_provider_local = λ name. none;
  sync_provider_sync = λ name. none;
}

abbrev both_aur : Caches
both_aur = record {
  pkg_from = (lib, aur) ∷ (app, aur) ∷ [];
  provides_cache = [];
  aur_downloaded = [];
}

both_listed : topo_get_targets nothing_installed both_aur graph order ≡ ok (some (lib ∷ app ∷ []))
unfolding topo_get_targets graph_get_vertex_data map_search same_str
both_listed = refl

-- The second installation gives -2.
stops : topo_install (λ name. same_str name lib) (lib ∷ app ∷ lib ∷ []) ≡ (lib ∷ app ∷ [], true)
unfolding topo_install same_str
stops = refl

-- "l -> a" and a line end.
order_printed :
    print_topo_order graph order ≡ ok (b'l' ∷ b' ' ∷ b'-' ∷ b'>' ∷ b' ' ∷ b'a' ∷ b'\n' ∷ [])
unfolding print_topo_order graph_get_vertex_data
order_printed = refl
