-- ===== src/Args/Operation.antt =====
-- powaur.c: `parseargs` goes on only with one operation.
use powaur.Base.{
  Bool, ◌≡◌, refl, ap, sym, ◌∙◌, true, false, List, [], ◌∷◌, Option, none, some, arith,
  Option-cases, List-cases, or_else, ◌≢◌, inl, inr,
}
use powaur.Util.{Str}
use powaur.Args.{
  Op, inval, main, Opt, op_get, unknown, Config, config_init, op_of, choose, parsearg_op,
  get_operation, parsearg_sync, parsearg_query, parsearg_get, parsearg_for, parsearg_global,
  parse_one, parse_rest, sync, query, get, color, nocolor, parsed, finish_args, check_operation,
  parseargs, add_targets,
}

-- The operations among the options.
abbrev pub operations : List Opt → List Op
operations [] = []
operations (option ∷ options) = elim (op_of option) [
  | none ↦ operations options
  | some op ↦ op ∷ operations options
]

-- What a list of operations makes of the operation before.
abbrev after : Op → List Op → Op
after op [] = op
after op (next ∷ ops) = after (choose op next) ops

-- The settings after the option, which are as before where it is not for `parsearg_op`.
abbrev or_same : Config → Option Config → Config
or_same config none = config
or_same config (some config') = config'

parsearg_op-op :
    (config : Config) (option : Opt)
    → (or_same config (parsearg_op config option false)).op
      ≡ elim (op_of option) [ none ↦ config.op | some op ↦ choose config.op op ]
unfolding parsearg_op op_of
parsearg_op-op config op_get = refl
parsearg_op-op config _ = refl

get_operation-step :
    (config config' : Config) (option : Opt) (options : List Opt)
    → get_operation config (option ∷ options) ≡ some config'
    → get_operation (or_same config (parsearg_op config option false)) options ≡ some config'
unfolding get_operation parsearg_op op_of
get_operation-step config config' op_get options h = h
get_operation-step config config' unknown options h = cc
get_operation-step config config' _ options h = h

after-step :
    (op : Op) (option : Opt) (options : List Opt)
    → after (elim (op_of option) [ none ↦ op | some next ↦ choose op next ]) (operations options)
      ≡ after op (operations (option ∷ options))
unfolding op_of
after-step op op_get options = refl
after-step op _ options = refl

get_operation-after :
    (config config' : Config) (options : List Opt)
    → get_operation config options ≡ some config'
    → config'.op ≡ after config.op (operations options)
unfolding get_operation
get_operation-after config config' [] h = ground (arith, h)
get_operation-after config config' (option ∷ options) h =
    get_operation-after (or_same config (parsearg_op config option false)) config' options
      (get_operation-step config config' option options h)
    ∙ ap (λ (op : Op). after op (operations options)) (parsearg_op-op config option)
    ∙ after-step config.op option options

-- No option stands for `PW_OP_MAIN`.
op_of-main : (option : Opt) → op_of option ≢ some main
unfolding op_of
op_of-main op_get = λ h. cc
op_of-main _ = λ h. cc

choose-inval : (x y : Op) → x ≢ main → choose x y ≡ inval
unfolding choose
choose-inval main y h = absurd (h refl)
choose-inval _ y h = refl

after-inval : (ops : List Op) → after inval ops ≡ inval
unfolding choose
after-inval [] = refl
after-inval (op ∷ ops) = after-inval ops

operations-head :
    (options : List Opt) (x : Op) (rest : List Op) → operations options ≡ x ∷ rest → x ≢ main
operations-head [] x rest h = λ e. cc
operations-head (option ∷ options) x rest h = elim (Option-cases (op_of option)) [
  | inl e ↦ operations-head options x rest (rw (operations, e) at h)
  | inr (op, e) ↦ λ m.
      let heads : op ∷ operations options ≡ x ∷ rest = rw (operations, e) at h in
      let same : op ≡ x = ground (arith, heads) in op_of-main option (e ∙ ap some (same ∙ m))
]

-- With the operation that the first loop ends with, there is just that one.
only-one :
    (options : List Opt) (op : Op)
    → op ≡ after main (operations options)
    → op ≢ main
    → op ≢ inval
    → operations options ≡ op ∷ []
unfolding choose
only-one options op h m i = elim (List-cases (operations options)) [
  | inl e ↦ absurd (m (h ∙ ap (after main) e))
  | inr (x, rest, e) ↦ elim (List-cases rest) [
    | inl r ↦
        let whole : operations options ≡ x ∷ [] = e ∙ ap (λ (ops : List Op). x ∷ ops) r in
        let same : op ≡ x = h ∙ ap (after main) whole in whole ∙ ap (λ (o : Op). o ∷ []) (sym same)
    | inr (y, more, r) ↦
        let whole : operations options ≡ x ∷ y ∷ more = e ∙ ap (λ (ops : List Op). x ∷ ops) r in
        let bad : choose x y ≡ inval = choose-inval x y (operations-head options x rest e) in
        absurd
          (i (h ∙ ap (after main) whole ∙ ap (λ (o : Op). after o more) bad ∙ after-inval more))
  ]
]

parsearg_sync-op :
    (config : Config) (option : Opt) → (or_same config (parsearg_sync config option)).op ≡ config.op
unfolding parsearg_sync
parsearg_sync-op config op_get = refl
parsearg_sync-op config _ = refl

parsearg_query-op :
    (config : Config) (option : Opt)
    → (or_same config (parsearg_query config option)).op ≡ config.op
unfolding parsearg_query
parsearg_query-op config op_get = refl
parsearg_query-op config _ = refl

parsearg_get-op :
    (config : Config) (option : Opt) → (or_same config (parsearg_get config option)).op ≡ config.op
unfolding parsearg_get
parsearg_get-op config op_get = refl
parsearg_get-op config _ = refl

parsearg_global-op :
    (config : Config) (option : Opt)
    → (or_same config (parsearg_global config option)).op ≡ config.op
unfolding parsearg_global
parsearg_global-op config color = ground arith
parsearg_global-op config nocolor = ground arith
parsearg_global-op config _ = refl

parsearg_for-op :
    (config : Config) (option : Opt) (op : Op)
    → (or_same config (elim op [
      | sync ↦ parsearg_sync config option
      | query ↦ parsearg_query config option
      | get ↦ parsearg_get config option
      | _ ↦ none
    ])).op
      ≡ config.op
parsearg_for-op config option sync = parsearg_sync-op config option
parsearg_for-op config option query = parsearg_query-op config option
parsearg_for-op config option get = parsearg_get-op config option
parsearg_for-op config option _ = refl

parsearg_op-dry :
    (config : Config) (option : Opt)
    → (or_same config (parsearg_op config option true)).op ≡ config.op
unfolding parsearg_op op_of
parsearg_op-dry config op_get = refl
parsearg_op-dry config _ = refl

-- If neither of two results changes the operation, nor does the first that there is.
or_else-op :
    (config : Config) (x y : Option Config)
    → (or_same config x).op ≡ config.op
    → (or_same config y).op ≡ config.op
    → (or_same config (or_else x y)).op ≡ config.op
unfolding or_else
or_else-op config none y h k = k
or_else-op config (some c) y h k = h

parse_one-op :
    (config : Config) (option : Opt) → (or_same config (parse_one config option)).op ≡ config.op
unfolding parse_one parsearg_for
parse_one-op config unknown = refl
parse_one-op config option =
    or_else-op config (parsearg_op config option true)
      (or_else (parsearg_for config option) (parsearg_global config option))
      (parsearg_op-dry config option)
      (or_else-op config (parsearg_for config option) (parsearg_global config option)
        (parsearg_for-op config option config.op) (parsearg_global-op config option))

parse_rest-op :
    (config config' : Config) (options : List Opt)
    → parse_rest config options ≡ some config'
    → config'.op ≡ config.op
unfolding parse_rest
parse_rest-op config config' [] h = ground (arith, h)
parse_rest-op config config' (option ∷ options) h = elim (Option-cases (parse_one config option)) [
  | inl e ↦ ground (arith, h, e)
  | inr (c, e) ↦
      parse_rest-op c config' options (ground (arith, h, e))
      ∙ sym (ap (λ (o : Option Config). (or_same config o).op) e)
      ∙ parse_one-op config option
]

module _ (find_str : List Str → Str → Bool) where
  finish_args-parsed :
      (config config' : Config) (options : List Opt) (words targets : List Str)
      → finish_args find_str config options words ≡ parsed config' targets
      → (config'.op ≡ config.op) × (targets ≡ add_targets find_str [] words)
  unfolding finish_args
  finish_args-parsed config config' options words targets h =
      elim (Option-cases (parse_rest config options)) [
        | inl e ↦ ground (arith, h, e)
        | inr (c, e) ↦
            let same : parsed c (add_targets find_str [] words) ≡ parsed config' targets =
              ground (arith, h, e) in
            let one : c ≡ config' = ground (arith, same) in
            (
              ap (λ (x : Config). x.op) (sym one) ∙ parse_rest-op config c options e,
              ground (arith, same),
            )
      ]

  -- The checks between the two loops let only one operation pass.
  check-finish :
      (config config' : Config) (op : Op) (options : List Opt) (words targets : List Str)
      → config.op ≡ op
      → check_operation find_str config options words ≡ parsed config' targets
      → (op ≢ main)
        × (op ≢ inval)
        × (finish_args find_str config options words ≡ parsed config' targets)
  unfolding check_operation
  check-finish config config' inval options words targets e h = ground (arith, h, e)
  check-finish config config' main options words targets e h = ground (arith, h, e)
  check-finish config config' op options words targets e h =
      (λ k. cc, λ k. cc, ground (arith, h, e))

  -- Whatever the search for a word answers, where `parseargs` succeeds the options name one
  -- operation, which is the one of the settings, and the targets are the words that the search did
  -- not find among those before.
  pub parseargs-one_operation :
      (options : List Opt) (words targets : List Str) (config : Config)
      → parseargs find_str options words ≡ parsed config targets
      → (operations options ≡ config.op ∷ []) × (targets ≡ add_targets find_str [] words)
  unfolding parseargs config_init
  parseargs-one_operation options words targets config h =
      elim (Option-cases (get_operation config_init options)) [
        | inl e ↦ ground (arith, h, e)
        | inr (first, e) ↦
            let checks : check_operation find_str first options words ≡ parsed config targets =
              ground (arith, h, e) in
            let (m, i, done) =
              check-finish first config first.op options words targets refl checks in
            let (same, words_once) = finish_args-parsed first config options words targets done in
            let ops =
              only-one options first.op (get_operation-after config_init first options e) m i in
            (ops ∙ ap (λ (o : Op). o ∷ []) (sym same), words_once)
      ]
