-- ===== src/Hashdb/Search.antt =====
-- hashdb.c: what a search by name finds.
use powaur.Base.{none, some, ◌≡◌, refl, ap, sym, ◌∙◌, arith, Returns, Option-cases, inl, inr}
use powaur.Hash.Table.Insert.{IsValid, slot_of-scan}
use powaur.Hash.Table.Scan.{scan, scan_sound}
use powaur.Hash.Htable.{Htable, hash_search_htable}
use powaur.Util.{Str}
use powaur.Util.Compare.{strcmp_eq, zero_eq}
use powaur.Hashdb.{Pkgpair, pkgpair_keys, provides_search}

module _ {ℓ} {P : Type ℓ} where
  -- A search of a valid table of packages ends, and what it finds has the name searched for.
  pub provides_search-pkgname :
      (hash : Htable (Pkgpair P)) (val : Str)
      → IsValid hash
      → Returns
          (provides_search hash val)
          (λ r. (pair : Pkgpair P) → r ≡ some pair → pair.pkgname ≡ val)
  unfolding provides_search hash_search_htable
  provides_search-pkgname hash val v =
      let key : Pkgpair P = record { pkgname = val; pkg = none } in
      elim (Option-cases (scan hash.table key)) [
        | inl e ↦ (none, rw (slot_of-scan hash key v, e) refl, λ pair h. cc)
        | inr (entry, e) ↦ (
          some entry.key,
          rw (slot_of-scan hash key v, e) refl,
          λ pair h.
              let one : entry.key ≡ pair = ground (arith, h) in
              ap (λ (x : Pkgpair P). x.pkgname) (sym one)
              ∙ strcmp_eq entry.key.pkgname val
                  (zero_eq entry.key.pkgname val (scan_sound hash.table key entry e).2),
        )
      ]
