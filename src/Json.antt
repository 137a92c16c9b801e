-- ===== src/Json.antt =====
-- json.c: the callbacks of the yajl parser, as a machine over the parser's events.
pub mod Parse
use powaur.Base.{
  ℕ, zero, suc, ◌+◌, ◌-◌, ◌*◌, ◌≡◌, Bool, true, false, ◌&&◌, List, [], ◌∷◌, ◌++◌, Option, none,
  some, length,
}
use powaur.Base.{ltb, leb, ◌==◌, if◌then◌else◌, Run, ok, fault, ◌>>=◌}
use powaur.Util.{Str, same_str, starts_with}

abbrev pub json_key_len : ℕ
json_key_len = 40

-- `struct aurpkg_t`; NULL is `none`. The two counts keep the text that `atoi` reads.
pub record Aurpkg : Type 0 where
  pub id : Option Str
  pub name : Option Str
  pub version : Option Str
  pub category : Option Str
  pub desc : Option Str
  pub url : Option Str
  pub urlpath : Option Str
  pub license : Option Str
  pub votes : Option Str
  pub outofdate : Option Str

abbrev pub aurpkg_new : Aurpkg
aurpkg_new = record {
  id = none;
  name = none;
  version = none;
  category = none;
  desc = none;
  url = none;
  urlpath = none;
  license = none;
  votes = none;
  outofdate = none;
}

-- The names that `json_string` knows besides "type".
pub data Field : Type 0 where
  id name version category desc url urlpath license votes outofdate : Field

-- "ID" to "OutOfDate", in the order of the tests.
abbrev pub field_names : List (Str × Field)
field_names =
    (73 ∷ 68 ∷ [], Field.id)
    ∷ (78 ∷ 97 ∷ 109 ∷ 101 ∷ [], Field.name)
    ∷ (86 ∷ 101 ∷ 114 ∷ 115 ∷ 105 ∷ 111 ∷ 110 ∷ [], Field.version)
    ∷ (67 ∷ 97 ∷ 116 ∷ 101 ∷ 103 ∷ 111 ∷ 114 ∷ 121 ∷ 73 ∷ 68 ∷ [], Field.category)
    ∷ (68 ∷ 101 ∷ 115 ∷ 99 ∷ 114 ∷ 105 ∷ 112 ∷ 116 ∷ 105 ∷ 111 ∷ 110 ∷ [], Field.desc)
    ∷ (85 ∷ 82 ∷ 76 ∷ [], Field.url)
    ∷ (85 ∷ 82 ∷ 76 ∷ 80 ∷ 97 ∷ 116 ∷ 104 ∷ [], Field.urlpath)
    ∷ (76 ∷ 105 ∷ 99 ∷ 101 ∷ 110 ∷ 115 ∷ 101 ∷ [], Field.license)
    ∷ (78 ∷ 117 ∷ 109 ∷ 86 ∷ 111 ∷ 116 ∷ 101 ∷ 115 ∷ [], Field.votes)
    ∷ (79 ∷ 117 ∷ 116 ∷ 79 ∷ 102 ∷ 68 ∷ 97 ∷ 116 ∷ 101 ∷ [], Field.outofdate)
    ∷ []

-- "type" and "error"
abbrev pub type_key : Str
type_key = 116 ∷ 121 ∷ 112 ∷ 101 ∷ []

abbrev pub error_word : Str
error_word = 101 ∷ 114 ∷ 114 ∷ 111 ∷ 114 ∷ []

unfoldable pub find_field : List (Str × Field) → Str → Option Field
unfolding same_str
find_field [] key = none
find_field ((word, f) ∷ names) key =
    let rest = find_field names key in if same_str key word then some f else rest

unfoldable pub set_field : Field → Str → Aurpkg → Aurpkg
set_field Field.id val pkg = record pkg { id = some val }
set_field Field.name val pkg = record pkg { name = some val }
set_field Field.version val pkg = record pkg { version = some val }
set_field Field.category val pkg = record pkg { category = some val }
set_field Field.desc val pkg = record pkg { desc = some val }
set_field Field.url val pkg = record pkg { url = some val }
set_field Field.urlpath val pkg = record pkg { urlpath = some val }
set_field Field.license val pkg = record pkg { license = some val }
set_field Field.votes val pkg = record pkg { votes = some val }
set_field Field.outofdate val pkg = record pkg { outofdate = some val }

-- `struct json_ctx_t`. The depth is an `int`; a map is closed only after it is opened.
pub record JsonCtx : Type 0 where
  pub pkglist : List (Option Aurpkg)
  pub curpkg : Option Aurpkg
  pub curkey : Str
  pub jsondepth : ℕ

-- `yajl_init`; the key of an earlier query is not cleared.
unfoldable pub yajl_init : JsonCtx → JsonCtx
yajl_init parser = record parser { pkglist = []; curpkg = none; jsondepth = 0 }

-- A field is written through the pointer to the package, which may be NULL.
unfoldable pub json_string : JsonCtx → Str → Run JsonCtx
json_string parser val =
    if same_str parser.curkey type_key && starts_with val error_word
    then ok parser
    else elim (find_field field_names parser.curkey) [
      | none ↦ ok parser
      | some f ↦ elim parser.curpkg [
        | none ↦ fault
        | some pkg ↦ ok (record parser { curpkg = some (set_field f val pkg) })
      ]
    ]

unfoldable pub json_start_map : JsonCtx → JsonCtx
json_start_map parser =
    let deeper = record parser { jsondepth = parser.jsondepth + 1 } in
    if ltb 0 parser.jsondepth then record deeper { curpkg = some aurpkg_new } else deeper

-- The key and a terminator are copied into an array of 40 characters.
unfoldable pub json_map_key : JsonCtx → Str → Run JsonCtx
json_map_key parser key =
    if ltb (length key) json_key_len then ok (record parser { curkey = key }) else fault

unfoldable pub json_end_map : JsonCtx → JsonCtx
json_end_map parser =
    let higher = record parser { jsondepth = parser.jsondepth - 1 } in
    if ltb 0 higher.jsondepth
    then record higher { pkglist = higher.pkglist ++ (higher.curpkg ∷ []); curpkg = none }
    else higher

-- The events for which there is a callback.
pub data Event : Type 0 where
  string map_key : Str → Event
  start_map end_map : Event

unfoldable pub callback : JsonCtx → Event → Run JsonCtx
callback parser (string val) = json_string parser val
callback parser (map_key key) = json_map_key parser key
callback parser start_map = ok (json_start_map parser)
callback parser end_map = ok (json_end_map parser)

unfoldable pub callbacks : JsonCtx → List Event → Run JsonCtx
unfolding callback
callbacks parser [] = ok parser
callbacks parser (e ∷ events) = do parser' ← callback parser e; callbacks parser' events
