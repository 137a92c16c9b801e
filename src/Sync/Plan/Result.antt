-- ===== src/Sync/Plan/Result.antt =====
-- sync.c: what `powaur_sync` calls, and its result.
use powaur.Base.{◌≡◌, Bool, true, false, not, ◌&&◌, ◌||◌, List, [], ◌∷◌, Option, none, some}
use powaur.Base.{arith}
use powaur.Util.{Str}
use powaur.Sync.Plan.{
  Action, upgrading, dump_search, dump_info, searching, info, syncing, SyncOptions, is_syncing,
  without_targets, sync_in_dir, powaur_sync,
}

abbrev pub is_empty : List Str → Bool
is_empty [] = true
is_empty (target ∷ targets) = false

abbrev pub same_action : Action → Action → Bool
same_action upgrading upgrading = true
same_action dump_search dump_search = true
same_action dump_info dump_info = true
same_action searching searching = true
same_action info info = true
same_action syncing syncing = true
same_action _ _ = false

abbrev pub is_called : Option Action → Action → Bool
is_called none action = false
is_called (some called) action = same_action called action

module _ (returns : Action → Bool) where
  -- Whether a called action makes the result 0.
  abbrev pub counts : SyncOptions → Option Action → Bool
  counts c none = false
  counts c (some action) = returns action && (not (is_syncing action) || c.restore)

  -- Options that fit together.
  abbrev pub fits : SyncOptions → Bool
  fits c = not (c.op_s_search && c.op_s_info) && (not c.op_s_check || c.op_s_upgrade)

  -- What each action is for: the targets and options that ask for it.
  abbrev pub asks_for : SyncOptions → List Str → Action → Bool
  asks_for c targets upgrading = c.op_s_upgrade
  asks_for c targets dump_search = not c.op_s_upgrade && is_empty targets && c.op_s_search
  asks_for c targets dump_info = not c.op_s_upgrade && is_empty targets && c.op_s_info
  asks_for c targets searching = not c.op_s_upgrade && not (is_empty targets) && c.op_s_search
  asks_for c targets info = not c.op_s_upgrade && not (is_empty targets) && c.op_s_info
  asks_for c targets syncing =
      not c.op_s_upgrade
      && not (is_empty targets)
      && not (c.op_s_search || c.op_s_info)
      && (c.getcwd && c.to_powaur_dir)

  calls_bare :
      (c : SyncOptions) (action : Action)
      → is_called (powaur_sync returns c []).0 action ≡ (c.curl && fits c && asks_for c [] action)
  unfolding powaur_sync without_targets
  calls_bare c upgrading = ground arith
  calls_bare c dump_search = ground arith
  calls_bare c dump_info = ground arith
  calls_bare c searching = ground arith
  calls_bare c info = ground arith
  calls_bare c syncing = ground arith

  calls_targets :
      (c : SyncOptions) (target : Str) (targets : List Str) (action : Action)
      → is_called (powaur_sync returns c (target ∷ targets)).0 action
        ≡ (c.curl && fits c && asks_for c (target ∷ targets) action)
  unfolding powaur_sync sync_in_dir
  calls_targets c target targets upgrading = ground arith
  calls_targets c target targets dump_search = ground arith
  calls_targets c target targets dump_info = ground arith
  calls_targets c target targets searching = ground arith
  calls_targets c target targets info = ground arith
  calls_targets c target targets syncing = ground arith

  -- `powaur_sync` calls an action exactly with a handle of curl, options that fit together (not -s with
  -- -i, and --check only with -u) and where the action is asked for: the upgrade with -u, with and
  -- without targets; without -u and targets the listings of the search with -s and of the
  -- informations with -i; without -u and with targets the search with -s, the informations with -i,
  -- and with neither the installation, if the directory of the program can be entered. It
  -- returns 0 exactly if it calls one of them and that returns 0, where the installation has to come
  -- back to the directory of before too.
  pub powaur_sync-counts :
      (c : SyncOptions) (targets : List Str)
      → ((action : Action)
          → is_called (powaur_sync returns c targets).0 action
            ≡ (c.curl && fits c && asks_for c targets action))
        × ((powaur_sync returns c targets).1 ≡ counts c (powaur_sync returns c targets).0)
  unfolding powaur_sync without_targets sync_in_dir
  powaur_sync-counts c [] = (calls_bare c, ground arith)
  powaur_sync-counts c (target ∷ targets) = (calls_targets c target targets, ground arith)
