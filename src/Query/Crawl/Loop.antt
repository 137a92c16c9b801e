-- ===== src/Query/Crawl/Loop.antt =====
-- query.c: what the loop of `build_dep_graph` reaches.
use powaur.Base.{
  ℕ, zero, suc, ◌≡◌, ◌≢◌, refl, sym, ap, Bool, true, false, ◌&&◌, ◌||◌, List, [], ◌∷◌, ◌++◌, Option,
  none, some,
}
use powaur.Base.{arith, inl, inr, Bool-cases, Option-cases, Run, died, Safe, >>=-Safe}
use mathlib.Core.Path.{subst}
use powaur.Util.{Str, find_str, same_str}
use powaur.Util.Equal.{same_str_eq, same_str_refl}
use powaur.Package.Arrays.{File}
use powaur.Package.Pkgbuild.{grab_dependencies}
use powaur.Package.Deps.{Distinct}
use powaur.Query.{
  ResolveLvl, is_thorough, Tables, Caches, normalize_package, should_we_continue_resolving,
}
use powaur.Query.Known.{Honest, IsLocating, normalize_package-Locates}
use powaur.Query.Crawl.{
  Crawl, failed, stale, resolved, Surroundings, crawl_resolve, Resolving, Turn, goes_on, breaks_off,
  go_on, follow_deps, after_crawl, mark_resolved, resolve_round, resolve_loop, push_all, at_start,
}
use powaur.Query.Crawl.Safe.{Kept, crawl_resolve-Safe}

abbrev pub has_edge : List (Str × Str) → Str → Str → Bool
has_edge [] from to = false
has_edge ((a, b) ∷ edges) from to = (same_str a from && same_str b to) || has_edge edges from to

has_edge-append :
    (edges : List (Str × Str)) (a b from to : Str)
    → has_edge (edges ++ ((a, b) ∷ [])) from to
      ≡ (has_edge edges from to || (same_str a from && same_str b to))
has_edge-append [] a b from to = ground arith
has_edge-append ((x, y) ∷ edges) a b from to = ground (arith, has_edge-append edges a b from to)

find_str-push_all :
    (targets st : List Str) (name : Str)
    → find_str (push_all targets st) name ≡ (find_str targets name || find_str st name)
unfolding push_all find_str
find_str-push_all [] st name = refl
find_str-push_all (target ∷ targets) st name =
    ground (arith, find_str-push_all targets (target ∷ st) name)

same_seen : (seen : List Str) (a b : Str) → same_str a b ≡ true → find_str seen a ≡ find_str seen b
same_seen seen a b h = ap (find_str seen) (same_str_eq a b h)

module _ (t : Tables) (lvl : ResolveLvl) (targets : List Str) where
  -- Where the names of `seen` count as resolved: no name stands there twice, and an edge leads to a
  -- resolved package.
  pub record IsPart (b : Resolving) (seen : List Str) : Type 0 where
    pub locating : IsLocating t b.caches
    pub distinct : Distinct seen
    pub to_seen : (from to : Str) → has_edge b.edges from to ≡ true → find_str seen to ≡ true

  -- A target, and for RESOLVE_THOROUGH each dependency, is resolved or on the stack.
  pub record IsWhole (b : Resolving) (seen : List Str) : Type 0 where
    pub part : IsPart b seen
    pub targets_met :
        (name : Str)
        → find_str targets name ≡ true
        → (find_str seen name || find_str b.st name) ≡ true
    pub closed :
        (from to : Str)
        → is_thorough lvl ≡ true
        → has_edge b.edges from to ≡ true
        → (find_str seen from || find_str b.st from) ≡ true

  module _ (download : Str → Bool) (h : Honest t) (o : Surroundings) (size : ℕ) where
    continue-Safe :
        (c : Caches) (st : List Str) (dep : Str)
        → IsLocating t c
        → IsLocating t (should_we_continue_resolving t download lvl c st dep).0
    unfolding should_we_continue_resolving
    continue-Safe c st dep v = elim (Bool-cases (is_thorough lvl)) [
      | inl e ↦ rw e v
      | inr e ↦ elim (Option-cases (normalize_package t download lvl c dep).1) [
        | inl k ↦
            rw (e, k, should_we_continue_resolving)
              (normalize_package-Locates t download h lvl c dep v).0
        | inr (name, k) ↦
            rw (e, k, should_we_continue_resolving)
              (normalize_package-Locates t download h lvl c dep v).0
      ]
    ]

    -- The stack only grows, and for RESOLVE_THOROUGH by the dependency.
    continue-st :
        (c : Caches) (st : List Str) (dep name : Str)
        → (find_str st name ≡ true
            → find_str (should_we_continue_resolving t download lvl c st dep).1 name ≡ true)
          × (is_thorough lvl ≡ true
              → same_str dep name ≡ true
              → find_str (should_we_continue_resolving t download lvl c st dep).1 name ≡ true)
    unfolding should_we_continue_resolving find_str
    continue-st c st dep name = elim (Bool-cases (is_thorough lvl)) [
      | inl e ↦ rw e (λ m. ground (arith, m), λ th m. ground (arith, m))
      | inr e ↦ elim (Option-cases (normalize_package t download lvl c dep).1) [
        | inl k ↦ rw (e, k, should_we_continue_resolving) (λ m. m, λ th. cc)
        | inr (found, k) ↦
            rw (e, k, should_we_continue_resolving) (λ m. ground (arith, m), λ th. cc)
      ]
    ]

    follow_deps-Safe :
        (b : Resolving) (pkgname : Str) (seen : List Str) (deps : List (Option Str))
        → IsWhole b seen
        → find_str seen pkgname ≡ true
        → Safe
            (λ b'. IsWhole b' seen × (b'.seen ≡ b.seen))
            (follow_deps t download o lvl size b pkgname deps)
    unfolding follow_deps
    follow_deps-Safe b pkgname seen [] w m = (w, refl)
    follow_deps-Safe b pkgname seen (none ∷ deps) w m = tt
    follow_deps-Safe b pkgname seen (some dep ∷ deps) w m =
        let r = should_we_continue_resolving t download lvl b.caches b.st dep in
        follow_deps-Safe
          (record b { caches = r.0; st = r.1; edges = b.edges ++ ((dep, pkgname) ∷ []) }) pkgname
          seen deps
          (record {
            part = record {
              locating = continue-Safe b.caches b.st dep w.part.locating;
              distinct = w.part.distinct;
              to_seen = λ from to k. ground (
                arith,
                k,
                has_edge-append b.edges dep pkgname from to,
                m,
                w.part.to_seen from to,
                same_seen seen pkgname to,
              );
            };
            targets_met = λ name k.
                ground (arith, w.targets_met name k, (continue-st b.caches b.st dep name).0);
            closed = λ from to th k. ground (
              arith,
              th,
              k,
              has_edge-append b.edges dep pkgname from to,
              w.closed from to th,
              (continue-st b.caches b.st dep from).0,
              (continue-st b.caches b.st dep from).1,
            );
          })
          m

    -- The package that was popped counts as resolved from its dependencies on.
    popped-IsWhole :
        (b : Resolving) (pkgname : Str) (c : Caches)
        → IsWhole (record b { st = pkgname ∷ b.st }) b.seen
        → find_str b.seen pkgname ≡ false
        → IsLocating t c
        → IsWhole (record b { caches = c }) (pkgname ∷ b.seen)
    unfolding find_str
    popped-IsWhole b pkgname c w m v = record {
      part = record {
        locating = v;
        distinct = (m, w.part.distinct);
        to_seen = λ from to k. ground (arith, k, w.part.to_seen from to);
      };
      targets_met = λ name k. ground (arith, w.targets_met name k);
      closed = λ from to th k. ground (arith, w.closed from to th k);
    }

    -- A name that was resolved before leaves the stack.
    skipped-IsWhole :
        (b : Resolving) (pkgname : Str)
        → IsWhole (record b { st = pkgname ∷ b.st }) b.seen
        → find_str b.seen pkgname ≡ true
        → IsWhole b b.seen
    unfolding find_str
    skipped-IsWhole b pkgname w m = record {
      part = record {
        locating = w.part.locating;
        distinct = w.part.distinct;
        to_seen = w.part.to_seen;
      };
      targets_met =
          λ name k. ground (arith, w.targets_met name k, m, same_seen b.seen pkgname name);
      closed =
          λ from to th k. ground (arith, w.closed from to th k, m, same_seen b.seen pkgname from);
    }

    module _
        (readable : (name : Str) (file : Option File)
          → o.enter name ≡ some file
          → grab_dependencies size file ≢ died) where
      abbrev pub Met : Turn → Type 0
      Met (goes_on b) = IsWhole b b.seen
      Met (breaks_off b) = IsPart b b.seen

      marked-IsWhole :
          (b : Resolving) (pkgname : Str) (deps : List (Option Str)) (seen : List Str)
          → IsWhole b (pkgname ∷ seen)
          → b.seen ≡ seen
          → Met (goes_on (mark_resolved t download o lvl size b pkgname deps))
      unfolding mark_resolved
      marked-IsWhole b pkgname deps seen w e =
          let w' : IsWhole b (pkgname ∷ b.seen) =
            subst (λ (l : List Str). IsWhole b (pkgname ∷ l)) (sym e) w in
          record {
            part = record {
              locating = w'.part.locating;
              distinct = w'.part.distinct;
              to_seen = w'.part.to_seen;
            };
            targets_met = w'.targets_met;
            closed = w'.closed;
          }

      crawled-Safe :
          (b : Resolving) (pkgname : Str) (c : Caches) (crawl : Crawl)
          → IsWhole (record b { st = pkgname ∷ b.st }) b.seen
          → find_str b.seen pkgname ≡ false
          → IsLocating t c
          → Safe Met (after_crawl t download o lvl size (record b { caches = c }) pkgname crawl)
      unfolding after_crawl mark_resolved find_str
      crawled-Safe b pkgname c failed w m v = record {
        locating = v;
        distinct = w.part.distinct;
        to_seen = w.part.to_seen;
      }
      crawled-Safe b pkgname c stale w m v = tt
      crawled-Safe b pkgname c (resolved deps) w m v =
          >>=-Safe (λ b'. IsWhole b' (pkgname ∷ b.seen) × (b'.seen ≡ b.seen)) Met
            (follow_deps t download o lvl size (record b { caches = c }) pkgname deps) _
            (follow_deps-Safe (record b { caches = c }) pkgname (pkgname ∷ b.seen) deps
              (popped-IsWhole b pkgname c w m v) (ground (arith, same_str_refl pkgname)))
            (λ b' w'. marked-IsWhole b' pkgname deps b.seen w'.0 w'.1)

      round-Safe :
          (b : Resolving) (pkgname : Str)
          → IsWhole (record b { st = pkgname ∷ b.st }) b.seen
          → Safe Met (resolve_round t download o lvl size b pkgname)
      unfolding resolve_round
      round-Safe b pkgname w = elim (Bool-cases (find_str b.seen pkgname)) [
        | inl e ↦ rw e (skipped-IsWhole b pkgname w e)
        | inr e ↦ rw e (
            >>=-Safe (Kept t download h o lvl) Met
              (crawl_resolve t download o lvl size b.caches pkgname) _
              (crawl_resolve-Safe t download h o lvl size readable b.caches pkgname w.part.locating)
              (λ r v. crawled-Safe b pkgname r.0 r.1 w e v))
      ]

      -- Where the loop ends, and where it breaks off.
      abbrev pub Done : Turn → Type 0
      Done (goes_on b) = IsWhole b b.seen × (b.st ≡ [])
      Done (breaks_off b) = IsPart b b.seen

      go_on-Safe :
          (loop : Resolving → Run Turn) (r : Turn)
          → Met r
          → ((b : Resolving) → IsWhole b b.seen → Safe Done (loop b))
          → Safe Done (go_on loop r)
      go_on-Safe loop (goes_on b) m k = k b m
      go_on-Safe loop (breaks_off b) m k = m

      loop-Safe :
          (rounds : ℕ) (st : List Str) (b : Resolving)
          → IsWhole (record b { st = st }) b.seen
          → Safe Done (resolve_loop t download o lvl size rounds st b)
      unfolding resolve_loop
      loop-Safe zero [] b w = (w, refl)
      loop-Safe (suc rounds) [] b w = (w, refl)
      loop-Safe zero (pkgname ∷ st) b w = tt
      loop-Safe (suc rounds) (pkgname ∷ st) b w =
          >>=-Safe Met Done (resolve_round t download o lvl size (record b { st = st }) pkgname) _
            (round-Safe (record b { st = st }) pkgname w)
            (λ r m.
              go_on-Safe (λ b'. resolve_loop t download o lvl size rounds b'.st b') r m
                (λ b' w'. loop-Safe rounds b'.st b' w'))

      -- From the targets on, `build_dep_graph` never dies over a package that it cannot find, whatever
      -- the number of its rounds. No name is resolved twice, and each edge leads to a resolved
      -- package. Where the loop gets to its end, each target is resolved, and for RESOLVE_THOROUGH so
      -- is each dependency, so that the edges are closed. This supposes that the caches are right at
      -- the start, that a search for a provider finds packages of its own database, and that the
      -- reading of a PKGBUILD does not die. It says nothing of what follows where `crawl_resolve`
      -- keeps the address of its own array or lists a NULL.
      pub resolve_loop-Done :
          (rounds : ℕ) (c : Caches)
          → IsLocating t c
          → Safe Done
              (resolve_loop t download o lvl size rounds (push_all targets []) (at_start c targets))
      unfolding find_str
      resolve_loop-Done rounds c v =
          loop-Safe rounds (push_all targets []) (at_start c targets) (record {
            part = record { locating = v; distinct = tt; to_seen = λ from to k. absurd (cc k) };
            targets_met = λ name k. ground (arith, k, find_str-push_all targets [] name);
            closed = λ from to th k. absurd (cc k);
          })
