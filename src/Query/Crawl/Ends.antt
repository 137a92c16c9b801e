-- ===== src/Query/Crawl/Ends.antt =====
-- query.c: the loop of `build_dep_graph` comes to an end.
use powaur.Base.{
  ℕ, zero, suc, ◌≤◌, ◌<◌, ◌≡◌, refl, ap, ◌∙◌, Bool, true, false, List, [], ◌∷◌, ◌++◌, Option, none,
  some,
}
use powaur.Base.{
  if◌then◌else◌, arith, inl, inr, Bool-cases, Option-cases, Run, died, fault, spin, ok, ◌>>=◌, Ends,
  ok-Ends, Finishes, >>=-Finishes,
}
use powaur.Util.{Str, find_str, same_str}
use powaur.Util.Equal.{same_str_eq, same_str_refl}
use powaur.Query.{
  ResolveLvl, is_thorough, Tables, Caches, normalize_package, should_we_continue_resolving,
}
use powaur.Query.Crawl.Universe.{Among, IsUniverse, Cached, normalize_package-Names}
use powaur.Query.Crawl.Within.{Within, Names-Cached, crawl_resolve-Within}
use powaur.Query.Crawl.{
  Crawl, failed, stale, resolved, Surroundings, crawl_resolve, Resolving, Turn, goes_on, breaks_off,
  go_on, dep_names, follow_deps, after_crawl, mark_resolved, resolve_round, resolve_loop,
}

-- How many of the names are not in the list.
abbrev pub unresolved : List Str → List Str → ℕ
unresolved seen [] = 0
unresolved seen (name ∷ all) =
    if find_str seen name then unresolved seen all else suc (unresolved seen all)

unresolved-le :
    (seen all : List Str) (name : Str) → unresolved (name ∷ seen) all ≤ unresolved seen all
unfolding find_str
unresolved-le seen [] name = omega arith
unresolved-le seen (x ∷ all) name = ground (arith, unresolved-le seen all name)

unresolved-lt :
    (seen all : List Str) (name : Str)
    → find_str all name ≡ true
    → find_str seen name ≡ false
    → unresolved (name ∷ seen) all < unresolved seen all
unfolding find_str
unresolved-lt seen [] name h k = cc
unresolved-lt seen (x ∷ all) name h k = elim (Bool-cases (same_str x name)) [
  | inl e ↦
      let same = same_str_eq x name e in
      let here : find_str seen x ≡ false = ap (find_str seen) same ∙ k in
      let mark : same_str name x ≡ true =
        ap (λ (y : Str). same_str name y) same ∙ same_str_refl name in
      ground (arith, here, mark, unresolved-le seen all name)
  | inr e ↦ let rest = unresolved-lt seen all name (ground (arith, h, e)) k in ground (arith, rest)
]

same_member : (all : List Str) (a b : Str) → same_str a b ≡ true → find_str all a ≡ find_str all b
same_member all a b h = ap (find_str all) (same_str_eq a b h)

module _ (t : Tables) (download : Str → Bool) (o : Surroundings) (lvl : ResolveLvl) (size : ℕ)
    (all : List Str) (u : IsUniverse t o size all) where
  -- The results of `crawl_resolve` of this section.
  abbrev Listed : Caches × Crawl → Type 0
  Listed = Within t download o lvl size all u

  continue-Cached :
      (c : Caches) (st : List Str) (dep : Str)
      → Cached all c
      → find_str all dep ≡ true
      → Cached all (should_we_continue_resolving t download lvl c st dep).0
  unfolding should_we_continue_resolving
  continue-Cached c st dep v m =
      let r = normalize_package t download lvl c dep in
      let kept =
        Names-Cached t download o lvl size all u r
          (normalize_package-Names t download o lvl size all u c dep v m) in
      elim (Bool-cases (is_thorough lvl)) [
        | inl e ↦ rw e v
        | inr e ↦ elim (Option-cases r.1) [
          | inl k ↦ rw (e, k, should_we_continue_resolving) kept
          | inr (found, k) ↦ rw (e, k, should_we_continue_resolving) kept
        ]
      ]

  continue-Among :
      (c : Caches) (st : List Str) (dep : Str)
      → Among all st
      → find_str all dep ≡ true
      → Among all (should_we_continue_resolving t download lvl c st dep).1
  unfolding should_we_continue_resolving find_str
  continue-Among c st dep a m = elim (Bool-cases (is_thorough lvl)) [
    | inl e ↦ rw e (λ name h. ground (arith, h, a name, m, same_member all dep name))
    | inr e ↦ elim (Option-cases (normalize_package t download lvl c dep).1) [
      | inl k ↦ rw (e, k, should_we_continue_resolving) a
      | inr (found, k) ↦
          rw (e, k, should_we_continue_resolving)
            (λ name h. ground (arith, h, a name, m, same_member all dep name))
    ]
  ]

  -- The stack holds names of the list still, and `seen` is as it was.
  abbrev pub Follows : List Str → Resolving → Type 0
  Follows seen b = Among all b.st × (b.seen ≡ seen) × Cached all b.caches

  follow_deps-Follows :
      (b : Resolving) (pkgname : Str) (deps : List (Option Str))
      → Among all b.st
      → Cached all b.caches
      → Among all (dep_names deps)
      → Finishes (Follows b.seen) (follow_deps t download o lvl size b pkgname deps)
  unfolding follow_deps find_str
  follow_deps-Follows b pkgname [] a v m = (a, refl, v)
  follow_deps-Follows b pkgname (none ∷ deps) a v m = tt
  follow_deps-Follows b pkgname (some dep ∷ deps) a v m =
      let here = m dep (ground (arith, same_str_refl dep)) in
      let r = should_we_continue_resolving t download lvl b.caches b.st dep in
      follow_deps-Follows
        (record b { caches = r.0; st = r.1; edges = b.edges ++ ((dep, pkgname) ∷ []) }) pkgname deps
        (continue-Among b.caches b.st dep a here) (continue-Cached b.caches b.st dep v here)
        (λ name h. m name (ground (arith, h)))

  -- A round for a name that is not resolved yet goes on with that name resolved.
  abbrev pub Advances : List Str → Turn → Type 0
  Advances seen (goes_on b) = Among all b.st × (b.seen ≡ seen) × Cached all b.caches
  Advances seen (breaks_off b) = Unit

  after_crawl-Advances :
      (b : Resolving) (pkgname : Str) (crawl : Crawl)
      → Among all b.st
      → Listed (b.caches, crawl)
      → Finishes (Advances (pkgname ∷ b.seen)) (after_crawl t download o lvl size b pkgname crawl)
  unfolding after_crawl mark_resolved
  after_crawl-Advances b pkgname failed a w = tt
  after_crawl-Advances b pkgname stale a w = tt
  after_crawl-Advances b pkgname (resolved deps) a w =
      >>=-Finishes (Follows b.seen) (Advances (pkgname ∷ b.seen))
        (follow_deps t download o lvl size b pkgname deps) _
        (follow_deps-Follows b pkgname deps a w.0 w.1)
        (λ b' f. (f.0, ap (λ (l : List Str). pkgname ∷ l) f.1, f.2))

  round-Advances :
      (b : Resolving) (pkgname : Str)
      → Among all b.st
      → Cached all b.caches
      → find_str all pkgname ≡ true
      → find_str b.seen pkgname ≡ false
      → Finishes (Advances (pkgname ∷ b.seen)) (resolve_round t download o lvl size b pkgname)
  unfolding resolve_round
  round-Advances b pkgname a v in_all m = rw m (
      >>=-Finishes Listed (Advances (pkgname ∷ b.seen))
        (crawl_resolve t download o lvl size b.caches pkgname) _
        (crawl_resolve-Within t download o lvl size all u b.caches pkgname v in_all)
        (λ r w. after_crawl-Advances (record b { caches = r.0 }) pkgname r.1 a w))

  -- A number of rounds that is enough.
  abbrev Enough : List Str → Resolving → Type 0
  Enough st b = (rounds : ℕ) × Ends (resolve_loop t download o lvl size rounds st b)

  go_on-Enough :
      (r : Run Turn) (seen : List Str)
      → Finishes (Advances seen) r
      → ((b : Resolving) → Advances seen (goes_on b) → Enough b.st b)
      → (rounds : ℕ) × Ends (r >>= go_on (λ b. resolve_loop t download o lvl size rounds b.st b))
  go_on-Enough died seen h k = (0, λ e. cc)
  go_on-Enough fault seen h k = (0, λ e. cc)
  go_on-Enough spin seen h k = elim h [ ]
  go_on-Enough (ok (breaks_off b)) seen h k = (0, λ e. cc)
  go_on-Enough (ok (goes_on b)) seen h k = k b h

  -- A name that was resolved before costs one round.
  skip-Enough :
      (pkgname : Str) (st : List Str) (b : Resolving)
      → find_str b.seen pkgname ≡ true
      → Enough st (record b { st = st })
      → Enough (pkgname ∷ st) b
  unfolding resolve_loop resolve_round
  skip-Enough pkgname st b m (rounds, ends) = (suc rounds, rw m ends)

  loop-Enough :
      (n : ℕ) (st : List Str) (b : Resolving)
      → unresolved b.seen all ≤ n
      → Among all st
      → Cached all b.caches
      → Enough st b
  unfolding resolve_loop find_str
  loop-Enough n [] b h a v = (0, ok-Ends (goes_on (record b { st = [] })))
  loop-Enough zero (pkgname ∷ st) b h a v = elim (Bool-cases (find_str b.seen pkgname)) [
    | inl e ↦
        skip-Enough pkgname st b e
          (loop-Enough zero st (record b { st = st }) h (λ name m. a name (ground (arith, m))) v)
    | inr e ↦
        let in_all = a pkgname (ground (arith, same_str_refl pkgname)) in
        absurd (omega (arith, h, unresolved-lt b.seen all pkgname in_all e))
  ]
  loop-Enough (suc n) (pkgname ∷ st) b h a v = elim (Bool-cases (find_str b.seen pkgname)) [
    | inl e ↦
        skip-Enough pkgname st b e
          (loop-Enough (suc n) st (record b { st = st }) h (λ name m. a name (ground (arith, m))) v)
    | inr e ↦
        let in_all = a pkgname (ground (arith, same_str_refl pkgname)) in
        let (rounds, ends) =
          go_on-Enough (resolve_round t download o lvl size (record b { st = st }) pkgname)
            (pkgname ∷ b.seen)
            (round-Advances (record b { st = st }) pkgname (λ name m. a name (ground (arith, m))) v
              in_all e)
            (λ b' f.
              let fewer : unresolved b'.seen all ≤ n = omega (
                arith,
                h,
                unresolved-lt b.seen all pkgname in_all e,
                ap (λ (l : List Str). unresolved l all) f.1,
              ) in
              loop-Enough n b'.st b' fewer f.0 f.2) in
        (suc rounds, ends)
  ]

  -- The loop of `build_dep_graph` comes to an end, however the packages depend on one another: for
  -- each stack of names there is a number of rounds in which it is empty, or the code breaks off, or
  -- `crawl_resolve` keeps the address of its own array or lists a NULL, where the model stops.
  -- This supposes a finite list with the names of the stack, the cached providers, the packages that
  -- a search for a provider finds, and the names that the dependencies in the databases and in the
  -- PKGBUILDs have; and that the reading of each PKGBUILD comes to an end.
  pub resolve_loop-Ends :
      (st : List Str) (b : Resolving)
      → Among all st
      → Cached all b.caches
      → (rounds : ℕ) × Ends (resolve_loop t download o lvl size rounds st b)
  resolve_loop-Ends st b a v = loop-Enough (unresolved b.seen all) st b (omega arith) a v
