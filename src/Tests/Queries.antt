-- ===== src/Tests/Queries.antt =====
-- Tests of the names that stand for packages.
use powaur.Base.{◌≡◌, refl, true, false, [], ◌∷◌, none, some}
use powaur.Util.{Str, same_str, split_at}
use powaur.Query.{
  Tables, Caches, immediate, local, map_search, chompversion, normalize_package, know,
  cache_provider,
}
use powaur.Query.Known.{Honest, IsLocating, Locates, normalize_package-Locates}

query_program : Unit {0}
unfolding split_at same_str map_search chompversion normalize_package know cache_provider
query_program = tt

-- "sh", which "bash" provides.
abbrev sh : Str
sh = b's' ∷ b'h' ∷ []

abbrev bash : Str
bash = b'b' ∷ b'a' ∷ b's' ∷ b'h' ∷ []

abbrev tables : Tables
tables = record {
  in_local = λ name. true;
  in_sync = λ name. false;
  in_aur = λ name. false;
  outdated = λ name. false;
  local_provider = λ name. some bash;
  sync_provider_local = λ name. none;
  sync_provider_sync = λ name. none;
}

abbrev empty : Caches
empty = record { pkg_from = []; provides_cache = []; aur_downloaded = [] }

tables-Honest : Honest tables
tables-Honest = record {
  local_provider = λ name p h. refl;
  sync_provider_local = λ name p h. cc h;
  sync_provider_sync = λ name p h. cc h;
}

empty-IsLocating : IsLocating tables empty
unfolding map_search
empty-IsLocating = record {
  entry = λ name from h. absurd (cc h);
  of_aur = λ name h. absurd (cc h);
  cached = λ name p h. absurd (cc h);
}

normalize_package-Locates_example :
    Locates tables (normalize_package tables (λ name. false) immediate empty sh)
normalize_package-Locates_example =
    normalize_package-Locates tables (λ name. false) tables-Honest immediate empty sh
      empty-IsLocating

sh_local :
    normalize_package tables (λ name. false) immediate empty sh
    ≡ (record empty { pkg_from = (sh, local) ∷ [] }, some sh)
unfolding query_program
sh_local = refl

-- "sh>=1"
version_gone : chompversion (b's' ∷ b'h' ∷ b'>' ∷ b'=' ∷ b'1' ∷ []) ≡ sh
unfolding query_program
version_gone = refl
