-- ===== src/Json/Parse.antt =====
-- json.c: the callbacks read the packages of an answer.
use powaur.Base.{
  bind_assoc, bind_congr, ℕ, ◌<◌, ◌≡◌, refl, ap, sym, ◌∙◌, true, ◌&&◌, List, [], ◌∷◌, ◌++◌, Option,
  none, some, length,
}
use powaur.Base.{ltb, arith, Run, Returns, ok, ◌>>=◌, Bool-cases, Option-cases, inl, inr}
use powaur.Util.{Str, same_str, starts_with}
use powaur.Util.Equal.{same_str_eq}
use powaur.Json.{
  JsonCtx, Aurpkg, aurpkg_new, field_names, find_field, set_field, type_key, error_word,
  json_string, json_start_map, json_map_key, json_end_map, Event, string, map_key, start_map,
  end_map, callback, callbacks, yajl_init, json_key_len,
}

callbacks-append :
    (parser : JsonCtx) (xs ys : List Event)
    → callbacks parser (xs ++ ys) ≡ (callbacks parser xs >>= λ p. callbacks p ys)
unfolding callbacks
callbacks-append parser [] ys = refl
callbacks-append parser (e ∷ xs) ys =
    bind_congr (callback parser e) (λ p. callbacks p (xs ++ ys))
      (λ p. (callbacks p xs >>= λ q. callbacks q ys)) (λ p. callbacks-append p xs ys)
    ∙ sym (bind_assoc (callback parser e) (λ p. callbacks p xs) (λ p. callbacks p ys))

-- What an entry of a package does to it: an unknown name nothing, and so a "type" that is an error.
abbrev pub apply_entry : Aurpkg → Str × Str → Aurpkg
apply_entry pkg (key, val) = elim (find_field field_names key) [
  | none ↦ pkg
  | some f ↦ set_field f val pkg
]

abbrev pub apply_entries : Aurpkg → List (Str × Str) → Aurpkg
apply_entries pkg [] = pkg
apply_entries pkg (e ∷ entries) = apply_entries (apply_entry pkg e) entries

-- The keys of the entries fit the array.
abbrev pub KeysFit : List (Str × Str) → Type 0
KeysFit [] = Unit
KeysFit (e ∷ entries) = (length e.0 < json_key_len) × KeysFit entries

abbrev pub entry_events : List (Str × Str) → List Event
entry_events [] = []
entry_events ((key, val) ∷ entries) = map_key key ∷ string val ∷ entry_events entries

abbrev pub package_events : List (List (Str × Str)) → List Event
package_events [] = []
package_events (p ∷ packages) = start_map ∷ (entry_events p ++ (end_map ∷ package_events packages))

abbrev pub AllFit : List (List (Str × Str)) → Type 0
AllFit [] = Unit
AllFit (p ∷ packages) = KeysFit p × AllFit packages

no_field : find_field field_names type_key ≡ none
unfolding find_field
no_field = refl

-- The state while a package is read.
abbrev reading : List (Option Aurpkg) → Aurpkg → Str → ℕ → JsonCtx
reading l pkg key d = record { pkglist = l; curpkg = some pkg; curkey = key; jsondepth = d }

string-run :
    (l : List (Option Aurpkg)) (pkg : Aurpkg) (key val : Str) (d : ℕ)
    → json_string (reading l pkg key d) val ≡ ok (reading l (apply_entry pkg (key, val)) key d)
unfolding json_string
string-run l pkg key val d =
    elim (Bool-cases (same_str key type_key && starts_with val error_word)) [
      | inl h ↦
          let e : key ≡ type_key = same_str_eq key type_key (ground (arith, h)) in
          let known = ap (find_field field_names) e ∙ no_field in
          let same : apply_entry pkg (key, val) ≡ pkg = rw (apply_entry, known) refl in
          rw h (ap (λ (q : Aurpkg). ok (reading l q key d)) (sym same))
      | inr h ↦ elim (Option-cases (find_field field_names key)) [
        | inl e ↦ rw (h, apply_entry, e) refl
        | inr (f, e) ↦ rw (h, apply_entry, e) refl
      ]
    ]

entries-run :
    (l : List (Option Aurpkg)) (pkg : Aurpkg) (key : Str) (d : ℕ) (entries : List (Str × Str))
    → KeysFit entries
    → (last : Str) × (callbacks (reading l pkg key d) (entry_events entries)
        ≡ ok (reading l (apply_entries pkg entries) last d))
unfolding callbacks callback json_map_key
entries-run l pkg key d [] fit = (key, refl)
entries-run l pkg key d ((k, val) ∷ entries) fit =
    let (last, run) = entries-run l (apply_entry pkg (k, val)) k d entries fit.1 in
    let short : ltb (length k) json_key_len ≡ true = ground (arith, fit.0) in
    (last, rw (short, string-run l pkg k val d) run)

-- What is listed once the packages are read.
abbrev pub listed : List (List (Str × Str)) → List (Option Aurpkg)
listed [] = []
listed (p ∷ packages) = some (apply_entries aurpkg_new p) ∷ listed packages

append-listed :
    (l m : List (Option Aurpkg)) (x : Option Aurpkg) → (l ++ (x ∷ [])) ++ m ≡ l ++ (x ∷ m)
append-listed [] m x = refl
append-listed (y ∷ l) m x = ap (λ (r : List (Option Aurpkg)). y ∷ r) (append-listed l m x)

append-nil : (l : List (Option Aurpkg)) → l ++ [] ≡ l
append-nil [] = refl
append-nil (x ∷ l) = ap (λ (r : List (Option Aurpkg)). x ∷ r) (append-nil l)

-- The state between two packages.
abbrev between : List (Option Aurpkg) → Str → JsonCtx
between l key = record { pkglist = l; curpkg = none; curkey = key; jsondepth = 1 }

packages-run :
    (l : List (Option Aurpkg)) (key : Str) (packages : List (List (Str × Str)))
    → AllFit packages
    → (last : Str) × (callbacks (between l key) (package_events packages)
        ≡ ok (between (l ++ listed packages) last))
unfolding callbacks callback json_start_map json_end_map
packages-run l key [] fit =
    (key, ap (λ (r : List (Option Aurpkg)). ok (between r key)) (sym (append-nil l)))
packages-run l key (p ∷ packages) fit =
    let (last, run) = entries-run l aurpkg_new key 2 p fit.0 in
    let pkg : Option Aurpkg = some (apply_entries aurpkg_new p) in
    let (end, runs) = packages-run (l ++ (pkg ∷ [])) last packages fit.1 in
    (
      end,
      callbacks-append (reading l aurpkg_new key 2) (entry_events p)
            (end_map ∷ package_events packages)
          ∙ ap (λ (r : Run JsonCtx). r >>= λ q. callbacks q (end_map ∷ package_events packages)) run
          ∙ runs
          ∙ ap (λ (r : List (Option Aurpkg)). ok (between r end))
              (append-listed l (listed packages) pkg),
    )

type-run : (kind : Str) → json_string (between [] type_key) kind ≡ ok (between [] type_key)
unfolding json_string
type-run kind = elim (Bool-cases (same_str type_key type_key && starts_with kind error_word)) [
  | inl h ↦ rw h refl
  | inr h ↦ rw (h, no_field) refl
]

-- The events of an answer: its type, its packages, and the end.
abbrev pub answer_events : Str → Str → List (List (Str × Str)) → List Event
answer_events kind results packages =
    start_map
    ∷ map_key type_key
    ∷ string kind
    ∷ map_key results
    ∷ (package_events packages ++ (end_map ∷ []))

-- Where all names are shorter than 40, the callbacks read an answer whose maps are its packages to
-- the end, and list the packages in order, each with the last value of each name it knows.
pub callbacks-answer_events :
    (parser : JsonCtx) (kind results : Str) (packages : List (List (Str × Str)))
    → length results < json_key_len
    → AllFit packages
    → Returns
        (callbacks (yajl_init parser) (answer_events kind results packages))
        (λ p. (p.pkglist ≡ listed packages) × (p.curpkg ≡ none) × (p.jsondepth ≡ 0))
unfolding callbacks callback json_start_map json_end_map json_map_key json_string yajl_init
callbacks-answer_events parser kind results packages short fit =
    let (last, run) = packages-run [] results packages fit in
    let fits : ltb (length results) json_key_len ≡ true = ground (arith, short) in
    (
      record { pkglist = listed packages; curpkg = none; curkey = last; jsondepth = 0 },
      rw (type-run kind, fits)
          (callbacks-append (between [] results) (package_events packages) (end_map ∷ [])
            ∙ ap (λ (r : Run JsonCtx). r >>= λ q. callbacks q (end_map ∷ [])) run),
      (refl, refl, refl),
    )
