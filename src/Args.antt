-- ===== src/Args.antt =====
-- powaur.c: the options of the command line. `getopt_long` is the C library's: the code is handed
-- the options that it recognises, with their arguments, and the remaining words.
pub mod Operation
use powaur.Base.{
  ℕ, ◌+◌, ◌-◌, ◌%◌, ◌^◌, Bool, true, false, ◌||◌, List, [], ◌∷◌, ◌++◌, Option, none, some, or_else,
  if◌then◌else◌,
}
use powaur.Util.{Str}

-- `PW_OP_INVAL` to `PW_OP_LISTAUR`
pub data Op : Type 0 where
  inval main sync query get maintainer backup crawl listaur : Op

-- What `getopt_long` answers; `unknown` is '?', and `other` a letter that no case has, 'w'.
pub data Opt : Type 0 where
  op_get op_sync op_query op_maintainer op_backup op_crawl op_listaur : Opt
  help version info search upgrade check_only resolve_deps : Opt
  debug sort_vote verbose color nocolor noconfirm other unknown : Opt
  target_dir maxthreads : Str → Opt

-- `config` and `powaur_maxthreads`, the latter as the text that `atoi` reads. `color` is an
-- unsigned short.
pub record Config : Type 0 where
  pub op : Op
  pub debug : Bool
  pub target_dir : Option Str
  pub color : ℕ
  pub help : Bool
  pub version : Bool
  pub op_q_info : Bool
  pub op_q_search : Bool
  pub op_s_info : Bool
  pub op_s_search : Bool
  pub op_s_upgrade : Bool
  pub op_s_check : Bool
  pub op_g_resolve : Bool
  pub sort_votes : Bool
  pub verbose : Bool
  pub opt_maxthreads : Option Str
  pub color_set : Bool
  pub nocolor_set : Bool
  pub noconfirm : Bool

unfoldable pub config_init : Config
config_init = record {
  op = main;
  debug = false;
  target_dir = none;
  color = 1;
  help = false;
  version = false;
  op_q_info = false;
  op_q_search = false;
  op_s_info = false;
  op_s_search = false;
  op_s_upgrade = false;
  op_s_check = false;
  op_g_resolve = false;
  sort_votes = false;
  verbose = false;
  opt_maxthreads = none;
  color_set = false;
  nocolor_set = false;
  noconfirm = false;
}

-- The operation that an option stands for.
unfoldable pub op_of : Opt → Option Op
op_of op_get = some get
op_of op_sync = some sync
op_of op_query = some query
op_of op_maintainer = some maintainer
op_of op_backup = some backup
op_of op_crawl = some crawl
op_of op_listaur = some listaur
op_of _ = none

-- `config->op == PW_OP_MAIN ? op : PW_OP_INVAL`
unfoldable pub choose : Op → Op → Op
choose main op = op
choose _ op = inval

-- `none` is the result -1.
unfoldable pub parsearg_op : Config → Opt → Bool → Option Config
parsearg_op config help dry_run = some (if dry_run then config else record config { help = true })
parsearg_op config version dry_run =
    some (if dry_run then config else record config { version = true })
parsearg_op config option dry_run = elim (op_of option) [
  | none ↦ none
  | some op ↦ some (if dry_run then config else record config { op = choose config.op op })
]

unfoldable pub parsearg_sync : Config → Opt → Option Config
parsearg_sync config info = some (record config { op_s_info = true })
parsearg_sync config search = some (record config { op_s_search = true })
parsearg_sync config upgrade = some (record config { op_s_upgrade = true })
parsearg_sync config check_only = some (record config { op_s_check = true })
parsearg_sync config _ = none

unfoldable pub parsearg_query : Config → Opt → Option Config
parsearg_query config info = some (record config { op_q_info = true })
parsearg_query config search = some (record config { op_q_search = true })
parsearg_query config _ = none

unfoldable pub parsearg_get : Config → Opt → Option Config
parsearg_get config resolve_deps = some (record config { op_g_resolve = true })
parsearg_get config _ = none

unfoldable pub parsearg_global : Config → Opt → Option Config
parsearg_global config debug = some (record config { debug = true })
parsearg_global config sort_vote = some (record config { sort_votes = true })
parsearg_global config verbose = some (record config { verbose = true })
parsearg_global config (target_dir dir) = some (record config { target_dir = some dir })
parsearg_global config (maxthreads text) = some (record config { opt_maxthreads = some text })
parsearg_global config color = some (
    if config.color_set
    then config
    else record config { color = (config.color + 1) % 2 ^ 16; color_set = true })
parsearg_global config nocolor = some (
    if config.nocolor_set
    then config
    else record config { color = (config.color + (2 ^ 16 - 1)) % 2 ^ 16; nocolor_set = true })
parsearg_global config noconfirm = some (record config { noconfirm = true })
parsearg_global config _ = none

-- How `parseargs` ends: with one of its errors, with a text and the end of the program, or with
-- the settings and the targets.
pub data Parsed : Type 0 where
  op_unknown op_multi op_null shows_version : Parsed
  shows_help : Op → Parsed
  parsed : Config → List Str → Parsed

-- The first loop; `none` is the error at '?'.
unfoldable pub get_operation : Config → List Opt → Option Config
get_operation config [] = some config
get_operation config (unknown ∷ options) = none
get_operation config (option ∷ options) = elim (parsearg_op config option false) [
  | none ↦ get_operation config options
  | some config' ↦ get_operation config' options
]

-- `switch (config->op)`
unfoldable pub parsearg_for : Config → Opt → Option Config
parsearg_for config option = elim config.op [
  | sync ↦ parsearg_sync config option
  | query ↦ parsearg_query config option
  | get ↦ parsearg_get config option
  | _ ↦ none
]

-- One round of the second loop; `none` is the error at '?' and at an option that no case takes.
unfoldable pub parse_one : Config → Opt → Option Config
parse_one config unknown = none
parse_one config option =
    or_else (parsearg_op config option true)
      (or_else (parsearg_for config option) (parsearg_global config option))

unfoldable pub parse_rest : Config → List Opt → Option Config
parse_rest config [] = some config
parse_rest config (option ∷ options) = elim (parse_one config option) [
  | none ↦ none
  | some config' ↦ parse_rest config' options
]

-- `alpm_list_find_str` is libalpm's.
module _ (alpm_list_find_str : List Str → Str → Bool) where
  -- A word is taken once.
  unfoldable pub add_targets : List Str → List Str → List Str
  add_targets targets [] = targets
  add_targets targets (word ∷ words) =
      add_targets (if alpm_list_find_str targets word then targets else targets ++ (word ∷ []))
        words

  -- What follows the first loop, if it found one operation.
  unfoldable pub finish_args : Config → List Opt → List Str → Parsed
  finish_args config options words = elim (parse_rest config options) [
    | none ↦ op_unknown
    | some config' ↦ parsed config' (add_targets [] words)
  ]

  unfoldable pub check_operation : Config → List Opt → List Str → Parsed
  check_operation config options words =
      let known =
        (if config.version
          then shows_version
          else (if config.help then shows_help config.op else finish_args config options words)) in
      elim config.op [
        | inval ↦ op_multi
        | main ↦
            (if config.version
              then shows_version
              else (if config.help then shows_help main else op_null))
        | _ ↦ known
      ]

  unfoldable pub parseargs : List Opt → List Str → Parsed
  parseargs options words = elim (get_operation config_init options) [
    | none ↦ op_unknown
    | some config ↦ check_operation config options words
  ]
