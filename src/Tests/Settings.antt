-- ===== src/Tests/Settings.antt =====
-- Tests of the command line, powaur.conf, the answers of the AUR, and the pools.
use powaur.Base.{some, ℕ, ◌||◌, false, Bool, ◌≡◌, refl, true, false, List, [], ◌∷◌, none, or_else}
use powaur.Base.{Returns, arith}
use powaur.Util.{split_at, Str, strtrim, starts_with, same_str}
use powaur.Json.{JsonCtx, find_field, set_field, callback, callbacks, yajl_init}
use powaur.Json.Parse.{answer_events, listed, callbacks-answer_events}
use powaur.Args.{
  Opt, Config, op_sync, search, color, op_of, choose, config_init, parsearg_op, parsearg_for,
  parsearg_sync, parsearg_global, parse_one, parse_rest, get_operation, add_targets, finish_args,
  check_operation, parseargs, Parsed, parsed, op_multi, op_query,
}
use powaur.Args.Operation.{operations, parseargs-one_operation}
use powaur.Conf.{
  Settings, digits, atoi_signed, atoi, threads_of, set_color, set_noconfirm, set_threads, set_key,
  is_comment, parse_line, parse_powaur_config,
}
use powaur.Conf.Setup.{
  unreadable, opened, setup_powaur_config, IsReady, setup_powaur_config-IsReady,
}
use powaur.Memlist.{Memlist, memlist_new, memlist_add}
use powaur.Memlist.Stays.{Fits, Adds, memlist_add-Adds}

program : Unit {0}
unfolding find_field set_field starts_with callback callbacks yajl_init same_str op_of choose
    config_init parsearg_op parsearg_for parsearg_sync parsearg_global parse_one parse_rest
    get_operation add_targets finish_args check_operation parseargs digits atoi_signed atoi
    threads_of split_at set_color set_noconfirm set_threads set_key is_comment parse_line
    parse_powaur_config strtrim memlist_new memlist_add or_else
program = tt

abbrev old_ctx : JsonCtx
old_ctx = record { pkglist = none ∷ []; curpkg = none; curkey = 65 ∷ []; jsondepth = 3 }

-- One package: "ID" is "1", and "Name" is "a".
abbrev packages : List (List (Str × Str))
packages = ((73 ∷ 68 ∷ [], 49 ∷ []) ∷ (78 ∷ 97 ∷ 109 ∷ 101 ∷ [], 97 ∷ []) ∷ []) ∷ []

callbacks-answer_events_example :
    Returns
      (callbacks (yajl_init old_ctx) (answer_events (105 ∷ []) (114 ∷ []) packages))
      (λ p. (p.pkglist ≡ listed packages) × (p.curpkg ≡ none) × (p.jsondepth ≡ 0))
callbacks-answer_events_example =
    callbacks-answer_events old_ctx (105 ∷ []) (114 ∷ []) packages (omega arith)
      ((omega arith, (omega arith, tt)), tt)

abbrev find : List Str → Str → Bool
find [] word = false
find (target ∷ targets) word = same_str word target || find targets word

-- -S -s --color vim vim
abbrev options : List Opt
options = op_sync ∷ search ∷ color ∷ []

abbrev vim : Str
vim = 118 ∷ 105 ∷ 109 ∷ []

abbrev parsed_config : Parsed → Config
parsed_config (parsed config targets) = config
parsed_config _ = config_init

abbrev sync_config : Config
sync_config = parsed_config (parseargs find options (vim ∷ vim ∷ []))

sync_parses : parseargs find options (vim ∷ vim ∷ []) ≡ parsed sync_config (vim ∷ [])
unfolding program
sync_parses = refl

two_operations : parseargs find (op_sync ∷ op_query ∷ []) [] ≡ op_multi
unfolding program
two_operations = refl

parseargs-one_operation_example :
    (operations options ≡ sync_config.op ∷ []) × (vim ∷ [] ≡ add_targets find [] (vim ∷ vim ∷ []))
parseargs-one_operation_example =
    parseargs-one_operation find options (vim ∷ vim ∷ []) (vim ∷ []) sync_config sync_parses

abbrev defaults : Settings
defaults = record {
  powaur_editor = none;
  powaur_dir = none;
  powaur_maxthreads = 10;
  opt_maxthreads = false;
  color = 1;
  noconfirm = false;
}

-- "MaxThreads = 4"
abbrev four : Str
four = 77 ∷ 97 ∷ 120 ∷ 84 ∷ 104 ∷ 114 ∷ 101 ∷ 97 ∷ 100 ∷ 115 ∷ 32 ∷ 61 ∷ 32 ∷ 52 ∷ []

-- " #a"
abbrev comment : Str
comment = 32 ∷ 35 ∷ 97 ∷ []

comment_ignored : is_comment (strtrim comment) ≡ true
unfolding program
comment_ignored = refl

four_threads :
    parse_powaur_config defaults (comment ∷ four ∷ []) ≡ record defaults { powaur_maxthreads = 4 }
unfolding program
four_threads = refl

setup_powaur_config-IsReady_example :
    IsReady
      (parse_powaur_config defaults (comment ∷ four ∷ []))
      (setup_powaur_config defaults (some unreadable) (some (opened (comment ∷ four ∷ []))) none).0
      none
      (setup_powaur_config defaults (some unreadable) (some (opened (comment ∷ four ∷ []))) none).1
setup_powaur_config-IsReady_example =
    setup_powaur_config-IsReady defaults (some unreadable) (some (opened (comment ∷ four ∷ [])))
      none

-- A full pool of two pointers.
abbrev full : Memlist ℕ
full = record { pool = 5 ∷ 6 ∷ []; older = []; max_elems = 2; free_inner = false }

full-Fits : Fits full
full-Fits = record { some_room = omega arith; within = omega arith }

memlist_add-Adds_example : Returns (memlist_add full 7) (λ r. Adds full 7 r.0 r.1)
memlist_add-Adds_example = memlist_add-Adds full 7 full-Fits
