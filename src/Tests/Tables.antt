-- ===== src/Tests/Tables.antt =====
-- Tests of the hash tables, the search trees, the growing sizes and the stack.
use powaur.Base.{ℕ, ◌+◌, ◌<◌, ◌≤◌, ◌≡◌, refl, sym, ◌∙◌, [], ◌∷◌, none, some}
use powaur.Base.{Run, ok, Returns, ◌>>=◌, arith, or_else, if◌then◌else◌}
use powaur.Alloc.{u32_mod, new_alloc_size}
use powaur.Alloc.Bounds.{widest, new_alloc_size-grows}
use powaur.Hash.Keys.{is_zero}
use powaur.Hash.Table.{alloc, grow, insert, slot_of}
use powaur.Hash.Table.Insert.{IsValid}
use powaur.Hash.Htable.{
  Htable, hash_new_htable, hash_insert_htable, hash_search_htable, hash_pos_htable, hash_to_list,
}
use powaur.Hash.Htable.Set.{
  member, hash_new_htable-IsValid, hash_insert_htable-member, hash_search_htable-member,
}
use powaur.Hash.Vindex.{Vindex, hash_new_vindex, hash_insert_vindex}
use powaur.Hash.Vindex.Index.{place_of, hash_new_vindex-IsValid, hash_insert_vindex-place_of}
use powaur.Hash.Hmap.{Hashmap, hashmap_new, hashmap_insert, hashmap_search}
use powaur.Hash.Hmap.Map.{
  hashmap_new-IsValid, hashmap_insert-mapping, hashmap_search-hashmap_insert,
}
use powaur.Hash.Bst.{Hashbst, hashbst_new, hashbst_insert, hashbst_tree_search, hashbst_bst_insert}
use powaur.Hash.Bst.Inorder.{inorder, insert_sorted}
use powaur.Hash.Bst.Sorted.{AllOrdered, hashbst_insert-inorder}
use powaur.Hash.Bst.Forest.{tree_of, tree_of-new, hashbst_new-IsValid}
use powaur.Graph.Stack.{stack_new, stack_push}
use powaur.Util.{Str, sdbm, strcmp}
use powaur.Hashdb.{Pkgpair, pkgpair_keys, provides_search}
use powaur.Util.Compare.{str_keys, strcmp-Orders}

program : Unit {0}
unfolding alloc grow insert slot_of hash_new_vindex hash_insert_vindex hash_new_htable
    hash_insert_htable hash_search_htable hash_pos_htable hash_to_list hashmap_new hashmap_insert
    hashmap_search hashbst_new hashbst_insert hashbst_tree_search hashbst_bst_insert sdbm strcmp
    or_else new_alloc_size stack_new stack_push
program = tt

abbrev a : Str
a = 97 ∷ []

abbrev b : Str
b = 98 ∷ []

abbrev got {ℓ} : {A : Type ℓ} → A → Run A → A
got d (ok x) = x
got d _ = d

abbrev set_a : Htable Str
set_a = got hash_new_htable (hash_insert_htable hash_new_htable a)

set_runs : hash_insert_htable hash_new_htable a ≡ ok set_a
unfolding program
set_runs = refl

short : (set_a.sz < widest) × ((hashmap_new {K = Str} {V = ℕ}).sz < widest)
unfolding program
short = (omega arith, omega arith)

new_short : (hash_new_htable {K = Str}).sz < widest
unfolding program
new_short = omega arith

set_IsValid : IsValid set_a
set_IsValid =
    let (t, run, (v, _)) =
      hash_insert_htable-member hash_new_htable a hash_new_htable-IsValid new_short in
    let eq : t ≡ set_a = ground (arith, sym run ∙ set_runs) in rw (sym eq) v

hash_insert_htable-member_example : Returns (hash_insert_htable set_a b) (λ t'.
    IsValid t'
    × ((j : Str)
        → member t' j ≡ or_else (member set_a j) (if is_zero (strcmp b j) then some b else none)))
hash_insert_htable-member_example = hash_insert_htable-member set_a b set_IsValid short.0

hash_search_htable-member_example : hash_search_htable set_a a ≡ ok (member set_a a)
hash_search_htable-member_example = hash_search_htable-member set_a a set_IsValid

-- A search for `b` finds nothing, one for `a` the member.
set_searches : hash_search_htable set_a a ≡ ok (some a)
unfolding program
set_searches = refl

set_misses : hash_search_htable set_a b ≡ ok none
unfolding program
set_misses = refl

abbrev idx_a : Vindex Str
idx_a = got hash_new_vindex (hash_insert_vindex hash_new_vindex (record { value = a; idx = 7 }))

idx_runs : hash_insert_vindex hash_new_vindex (record { value = a; idx = 7 }) ≡ ok idx_a
unfolding program
idx_runs = refl

idx_short : ((hash_new_vindex {K = Str}).sz < widest) × (idx_a.sz < widest)
unfolding program
idx_short = (omega arith, omega arith)

idx_IsValid : IsValid idx_a
idx_IsValid =
    let (t, run, (v, _)) =
      hash_insert_vindex-place_of hash_new_vindex (record { value = a; idx = 7 })
        hash_new_vindex-IsValid idx_short.0 in
    let eq : t ≡ idx_a = ground (arith, sym run ∙ idx_runs) in rw (sym eq) v

hash_insert_vindex-place_of_example :
    Returns (hash_insert_vindex idx_a (record { value = b; idx = 8 })) (λ t'.
      IsValid t'
      × ((j : Str)
          → place_of t' j
            ≡ or_else (place_of idx_a j) (if is_zero (strcmp b j) then some 8 else none)))
hash_insert_vindex-place_of_example =
    hash_insert_vindex-place_of idx_a (record { value = b; idx = 8 }) idx_IsValid idx_short.1

abbrev map_a : Hashmap Str Str
map_a = got hashmap_new (hashmap_insert hashmap_new a b)

map_runs : hashmap_insert hashmap_new a b ≡ ok map_a
unfolding program
map_runs = refl

map_short : ((hashmap_new {K = Str} {V = Str}).sz < widest) × (map_a.sz < widest)
unfolding program
map_short = (omega arith, omega arith)

map_IsValid : IsValid map_a
map_IsValid =
    let (t, run, (v, _)) = hashmap_insert-mapping hashmap_new a b hashmap_new-IsValid map_short.0 in
    let eq : t ≡ map_a = ground (arith, sym run ∙ map_runs) in rw (sym eq) v

hashmap_search-hashmap_insert_example : (hashmap_insert map_a a a >>= λ m'. hashmap_search m' a) ≡ (
    hashmap_search map_a a >>= λ old.
    ok (or_else old (if is_zero (strcmp a a) then some a else none)))
hashmap_search-hashmap_insert_example =
    hashmap_search-hashmap_insert map_a a a a map_IsValid map_short.1

abbrev forest : Hashbst Str
forest = got hashbst_new (hashbst_insert hashbst_new a b)

forest_runs : hashbst_insert hashbst_new a b ≡ ok forest
unfolding program
forest_runs = refl

forest_short : ((hashbst_new {K = Str}).sz < widest) × (forest.sz < widest)
unfolding program
forest_short = (omega arith, omega arith)

new-AllOrdered : AllOrdered strcmp-Orders hashbst_new
new-AllOrdered j = rw (tree_of-new j) tt

forest_facts : IsValid forest × AllOrdered strcmp-Orders forest
forest_facts =
    let (t, run, (v, ordered, _)) =
      hashbst_insert-inorder strcmp-Orders hashbst_new a b hashbst_new-IsValid new-AllOrdered
        forest_short.0 in
    let eq : t ≡ forest = ground (arith, sym run ∙ forest_runs) in rw (sym eq) (v, ordered)

hashbst_insert-inorder_example : Returns (hashbst_insert forest a a) (λ t'.
    IsValid t'
    × AllOrdered strcmp-Orders t'
    × ((j : Str)
        → inorder (tree_of t' j) ≡ (
            if is_zero (strcmp a j)
            then insert_sorted a (inorder (tree_of forest j))
            else inorder (tree_of forest j))))
hashbst_insert-inorder_example =
    hashbst_insert-inorder strcmp-Orders forest a a forest_facts.0 forest_facts.1 forest_short.1

idx_few : idx_a.nr < idx_a.sz
unfolding program
idx_few = omega arith

new_alloc_size-grows_example :
    (new_alloc_size 109 < u32_mod) × (109 < widest → 109 + 24 ≤ new_alloc_size 109)
new_alloc_size-grows_example = new_alloc_size-grows 109

abbrev pair_a : Pkgpair ℕ
pair_a = record { pkgname = a; pkg = some 3 }

abbrev db : Htable (Pkgpair ℕ)
db = got hash_new_htable (hash_insert_htable hash_new_htable pair_a)

db_runs : hash_insert_htable hash_new_htable pair_a ≡ ok db
unfolding program
db_runs = refl

db_short : (hash_new_htable {K = Pkgpair ℕ}).sz < widest
unfolding program
db_short = omega arith

db-IsValid : IsValid db
db-IsValid =
    let (t, run, (v, _)) =
      hash_insert_htable-member hash_new_htable pair_a hash_new_htable-IsValid db_short in
    let eq : t ≡ db = ground (arith, sym run ∙ db_runs) in rw (sym eq) v

db_finds : provides_search db a ≡ ok (some pair_a)
unfolding program provides_search
db_finds = refl
