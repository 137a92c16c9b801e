-- ===== src/Sync/Plan.antt =====
-- sync.c: which of the targets of -S and -Su are to be upgraded.
pub mod Sorted
pub mod Outdated
pub mod Result
use powaur.Base.{
  Bool, true, false, not, ◌&&◌, ◌||◌, List, [], ◌∷◌, ◌++◌, Option, none, some, Ordering,
}
use powaur.Base.{if◌then◌else◌, Run, fault, ok, ◌>>=◌}
use powaur.Util.{Str}
use powaur.Util.Ask.{yesno}

-- What a target is: not in the AUR, installed from there with an older, the same or a newer version,
-- or not installed from there.
pub data Kind : Type 0 where
  not_aur upgrade reinstall downgrade new_package : Kind

-- The lists of `sync_targets`.
pub record Plan : Type 0 where
  pub not_aur : List Str
  pub upgrade : List Str
  pub reinstall : List Str
  pub downgrade : List Str
  pub new_packages : List Str

abbrev pub no_plan : Plan
no_plan = record { not_aur = []; upgrade = []; reinstall = []; downgrade = []; new_packages = [] }

unfoldable pub add_to : Plan → Str → Kind → Plan
add_to p name Kind.not_aur = record p { not_aur = p.not_aur ++ (name ∷ []) }
add_to p name Kind.upgrade = record p { upgrade = p.upgrade ++ (name ∷ []) }
add_to p name Kind.reinstall = record p { reinstall = p.reinstall ++ (name ∷ []) }
add_to p name Kind.downgrade = record p { downgrade = p.downgrade ++ (name ∷ []) }
add_to p name Kind.new_package = record p { new_packages = p.new_packages ++ (name ∷ []) }

-- `alpm_list_join(reinstall, upgrade)`, joined with the new packages.
unfoldable pub final_targets : Plan → List Str
final_targets p = (p.reinstall ++ p.upgrade) ++ p.new_packages

-- `query_aur` gives the first package of the answer of the AUR, with its name and version; `installed`
-- is the version of the package of that name in the table of AUR packages.
module _ {V : Type 0} (alpm_pkg_vercmp : V → V → Ordering) (query_aur : Str → Option (Str × V))
    (installed : Str → Option V) where
  unfoldable pub kind_of : Str → Kind
  kind_of name = elim (query_aur name) [
    | none ↦ Kind.not_aur
    | some aurpkg ↦ elim (installed name) [
      | none ↦ Kind.new_package
      | some pkgver ↦ elim (alpm_pkg_vercmp aurpkg.1 pkgver) [
        | Ordering.gt ↦ Kind.upgrade
        | Ordering.eq ↦ Kind.reinstall
        | Ordering.lt ↦ Kind.downgrade
      ]
    ]
  ]

  -- The loop of `sync_targets`.
  unfoldable pub sort_targets : Plan → List Str → Plan
  unfolding kind_of add_to
  sort_targets p [] = p
  sort_targets p (target ∷ targets) = sort_targets (add_to p target (kind_of target)) targets

  -- The list that `upgrade_pkgs` is called with, if it is called, and the input that is left.
  -- `hashdb` tells whether the database could be built; the result is 0 where it could not.
  unfoldable pub sync_targets :
      Bool → Bool → List Str → List Str → Run (Option (List Str) × List Str)
  unfolding sort_targets final_targets yesno
  sync_targets hashdb noconfirm input targets =
      let list = final_targets (sort_targets no_plan targets) in
      if not hashdb
      then ok (none, input)
      else (if noconfirm
          then ok (some list, input)
          else (yesno input >>= λ r. ok ((if r.0 then some list else none), r.1)))

  -- The loop of `get_outdated_pkgs`, which gives the names of the answers. A package that is not in
  -- the table is a NULL that is read.
  unfoldable pub outdated_loop : List Str → List Str → Run (List Str)
  outdated_loop outdated_pkgs [] = ok outdated_pkgs
  outdated_loop outdated_pkgs (target ∷ targs) = elim (query_aur target) [
    | none ↦ outdated_loop outdated_pkgs targs
    | some aurpkg ↦ elim (installed target) [
      | none ↦ fault
      | some pkgver ↦
          outdated_loop
            (elim (alpm_pkg_vercmp aurpkg.1 pkgver) [
              | Ordering.gt ↦ outdated_pkgs ++ (aurpkg.0 ∷ [])
              | Ordering.eq ↦ outdated_pkgs
              | Ordering.lt ↦ outdated_pkgs
            ])
            targs
    ]
  ]

  -- `tmp_targs` are the names in the table of AUR packages; no targets are NULL.
  unfoldable pub get_outdated_pkgs : List Str → List Str → Run (List Str)
  unfolding outdated_loop
  get_outdated_pkgs tmp_targs [] = outdated_loop [] tmp_targs
  get_outdated_pkgs tmp_targs (target ∷ targets) = outdated_loop [] (target ∷ targets)

  -- "Make sure that packages are from AUR"
  unfoldable pub from_aur : List Str → List Str
  from_aur [] = []
  from_aur (target ∷ targets) =
      let rest = from_aur targets in
      elim (installed target) [ none ↦ rest | some pkgver ↦ target ∷ rest ]

  -- What is outdated among the targets, or among all packages of the AUR.
  unfoldable pub outdated_of : List Str → List Str → Run (List Str)
  unfolding get_outdated_pkgs from_aur
  outdated_of tmp_targs [] = get_outdated_pkgs tmp_targs []
  outdated_of tmp_targs (target ∷ targets) = elim (from_aur (target ∷ targets)) [
    | [] ↦ ok []
    | first ∷ rest ↦ get_outdated_pkgs tmp_targs (first ∷ rest)
  ]

  -- The list that `upgrade_pkgs` is called with, if it is called, and the input that is left.
  unfoldable pub sync_upgrade :
      Bool → Bool → List Str → List Str → List Str → Run (Option (List Str) × List Str)
  unfolding outdated_of yesno
  sync_upgrade noconfirm op_s_check input tmp_targs targets = do
    list ← outdated_of tmp_targs targets
    elim list [
      | [] ↦ ok (none, input)
      | first ∷ rest ↦
          if op_s_check
          then ok (none, input)
          else (if noconfirm
              then ok (some (first ∷ rest), input)
              else (yesno input >>= λ r. ok ((if r.0 then some (first ∷ rest) else none), r.1)))
    ]

-- What `powaur_sync` may call.
pub data Action : Type 0 where
  upgrading dump_search dump_info searching info syncing : Action

-- The options, and whether `getcwd` and the changes of the directory succeed.
pub record SyncOptions : Type 0 where
  pub op_s_search : Bool
  pub op_s_info : Bool
  pub op_s_check : Bool
  pub op_s_upgrade : Bool
  pub curl : Bool
  pub getcwd : Bool
  pub to_powaur_dir : Bool
  pub restore : Bool

-- `returns` tells whether an action returns 0. The action that is called, if any, and whether the
-- result is 0.
module _ (returns : Action → Bool) where
  abbrev pub call : Action → Option Action × Bool
  call action = (some action, returns action)

  unfoldable pub without_targets : SyncOptions → Option Action × Bool
  without_targets c =
      if c.op_s_search
      then call dump_search
      else (if c.op_s_info then call dump_info else (none, false))

  unfoldable pub sync_in_dir : SyncOptions → Option Action × Bool
  sync_in_dir c =
      if not c.getcwd
      then (none, false)
      else (if c.to_powaur_dir
          then (some syncing, (c.restore && returns syncing))
          else (none, false))

  unfoldable pub powaur_sync : SyncOptions → List Str → Option Action × Bool
  unfolding without_targets sync_in_dir
  powaur_sync c targets =
      if not c.curl
      then (none, false)
      else (if (c.op_s_search && c.op_s_info) || (c.op_s_check && not c.op_s_upgrade)
          then (none, false)
          else (if c.op_s_upgrade then call upgrading else (elim targets [
            | [] ↦ without_targets c
            | target ∷ rest ↦
                if c.op_s_search
                then call searching
                else (if c.op_s_info then call info else sync_in_dir c)
          ])))

-- Whether the code goes back to the directory of before after an action.
abbrev pub is_syncing : Action → Bool
is_syncing syncing = true
is_syncing _ = false
