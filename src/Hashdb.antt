-- ===== src/Hashdb.antt =====
-- hashdb.c: the tables of packages, whose keys are pairs of a name and libalpm's package.
pub mod Search
pub mod Build
use powaur.Base.{ℕ, Option, none, some, Ordering, ap, sym, ◌∙◌, Run}
use powaur.Hash.Keys.{KeyOps, is_zero}
use powaur.Hash.Htable.{Htable, hash_search_htable}
use powaur.Util.{Str, sdbm, strcmp}
use powaur.Util.Compare.{str_keys}

-- `struct pkgpair`; a pair to search for has no package.
pub record Pkgpair {ℓ} (P : Type ℓ) : Type ℓ where
  pub pkgname : Str
  pub pkg : Option P

module _ {ℓ} {P : Type ℓ} where
  abbrev pub pkgpair_sdbm : Pkgpair P → ℕ
  pkgpair_sdbm pair = sdbm (some pair.pkgname)

  -- `none` is NULL.
  abbrev pub pkgpair_cmp : Option (Pkgpair P) → Option (Pkgpair P) → Ordering
  pkgpair_cmp none b = Ordering.gt
  pkgpair_cmp (some a) none = Ordering.gt
  pkgpair_cmp (some a) (some b) = strcmp a.pkgname b.pkgname

  -- `hash_new(HASH_TABLE, pkgpair_sdbm, pkgpair_cmp)`; a table holds no NULL.
  instance abbrev pub pkgpair_keys : KeyOps (Pkgpair P)
  pkgpair_keys = record {
    hash = pkgpair_sdbm;
    cmp = λ a b. pkgpair_cmp (some a) (some b);
    same_refl = λ a. str_keys.same_refl a.pkgname;
    same_symm = λ a b. str_keys.same_symm a.pkgname b.pkgname;
    same_trans = λ a b c h k. str_keys.same_trans a.pkgname b.pkgname c.pkgname h k;
    hash-same = λ a b h. str_keys.hash-same a.pkgname b.pkgname h;
  }

  unfoldable pub provides_search : Htable (Pkgpair P) → Str → Run (Option (Pkgpair P))
  provides_search hash val = hash_search_htable hash (record { pkgname = val; pkg = none })
