-- ===== src/Package/Loops.antt =====
-- package.c: a value as long as the reference that it stands for.
use powaur.Base.{
  ℕ, zero, suc, ◌+◌, ◌-◌, ◌≡◌, refl, ap, ◌∙◌, Bool, true, false, ◌&&◌, not, [], ◌∷◌, ◌++◌, Option,
  some,
}
use powaur.Base.{length, get_or, take, ◌==◌, arith, ok, spin}
use powaur.Util.{Str}
use powaur.Package.{
  drop, find_byte, strchr, replace, go, braced, scan_round, substitute_loop, strlen,
  substitute_vars,
}

-- The byte `c` and the terminator do not stand in a string.
abbrev pub lacks : ℕ → Str → Bool
lacks c [] = true
lacks c (x ∷ s) = not (x == 0) && (not (x == c) && lacks c s)

find_byte-append :
    (c : ℕ) (pre rest : Str)
    → lacks c pre ≡ true
    → c == 0 ≡ false
    → find_byte c (pre ++ (c ∷ rest)) ≡ some (length pre)
unfolding find_byte
find_byte-append c [] rest h k = ground (arith, k)
find_byte-append c (x ∷ pre) rest h k =
    ground (arith, h, find_byte-append c pre rest (ground (arith, h)) k)

drop-append : (pre rest : Str) (n : ℕ) → drop (length pre + n) (pre ++ rest) ≡ drop n rest
drop-append [] rest n = let e : 0 + n ≡ n = omega arith in ap (λ (m : ℕ). drop m rest) e
drop-append (x ∷ pre) rest n =
    let e : suc (length pre) + n ≡ suc (length pre + n) = omega arith in
    ap (λ (m : ℕ). drop m (x ∷ (pre ++ rest))) e ∙ drop-append pre rest n

get_or-append :
    (pre rest : Str) (n d : ℕ) → get_or (pre ++ rest) (length pre + n) d ≡ get_or rest n d
get_or-append [] rest n d = let e : 0 + n ≡ n = omega arith in ap (λ (m : ℕ). get_or rest m d) e
get_or-append (x ∷ pre) rest n d =
    let e : suc (length pre) + n ≡ suc (length pre + n) = omega arith in
    ap (λ (m : ℕ). get_or (x ∷ (pre ++ rest)) m d) e ∙ get_or-append pre rest n d

take-append : (pre rest : Str) → take (length pre) (pre ++ rest) ≡ pre
take-append [] rest = refl
take-append (x ∷ pre) rest = ap (λ (s : Str). x ∷ s) (take-append pre rest)

-- A text with a reference `${name}` behind `pre`.
abbrev pub with_reference : Str → Str → Str → Str
with_reference pre name post = pre ++ (b'$' ∷ b'{' ∷ (name ++ (b'}' ∷ post)))

module _ (search : Str → Option Str) (maxlen : ℕ) (pre name post sub : Str) where
  replace-same :
      (str : Str) (len p q : ℕ)
      → q ≡ p + length sub
      → replace maxlen str len p q sub ≡ ok (go str p len)
  unfolding replace
  replace-same str len p q h = ground (arith, h)

  braced-same :
      (len c : ℕ) (rest : Str)
      → name ≡ c ∷ rest
      → lacks b'}' name ≡ true
      → search name ≡ some sub
      → length sub ≡ length name + 3
      → braced search maxlen (with_reference pre name post) len (length pre)
        ≡ ok (go (with_reference pre name post) (length pre) len)
  unfolding braced strchr
  braced-same len c rest e h k l =
      let text : drop (length pre + 2) (with_reference pre name post) ≡ name ++ (b'}' ∷ post) =
        drop-append pre (b'$' ∷ b'{' ∷ (name ++ (b'}' ∷ post))) 2 in
      let close = find_byte-append b'}' name post h refl in
      let some_left = ap (λ (s : Str). length s) e in
      let size : length pre + 2 + length name - length pre - 2 ≡ length name = omega arith in
      let key : take (length pre + 2 + length name - length pre - 2) (name ++ (b'}' ∷ post))
          ≡ name =
        rw size (take-append name (b'}' ∷ post)) in
      let same =
        replace-same (with_reference pre name post) len (length pre)
          (length pre + 2 + length name + 1) (omega (arith, l)) in
      ground (arith, some_left, text, close, key, k, same)

  round-same :
      (s len c : ℕ) (rest : Str)
      → name ≡ c ∷ rest
      → lacks b'}' name ≡ true
      → search name ≡ some sub
      → length sub ≡ length name + 3
      → strchr (with_reference pre name post) s b'$' ≡ some (length pre)
      → scan_round search maxlen (with_reference pre name post) s len
        ≡ ok (go (with_reference pre name post) (length pre) len)
  unfolding scan_round
  round-same s len c rest e h k l at =
      let next : get_or (with_reference pre name post) (length pre + 1) 0 ≡ b'{' =
        get_or-append pre (b'$' ∷ b'{' ∷ (name ++ (b'}' ∷ post))) 1 0 in
      let same = braced-same len c rest e h k l in ground (arith, at, next, same)

  loop-spins :
      (c : ℕ) (rest : Str)
      → name ≡ c ∷ rest
      → lacks b'}' name ≡ true
      → search name ≡ some sub
      → length sub ≡ length name + 3
      → (rounds s len : ℕ) → strchr (with_reference pre name post) s b'$' ≡ some (length pre)
      → substitute_loop search maxlen rounds (with_reference pre name post) s len ≡ spin
  unfolding substitute_loop strchr
  loop-spins c rest e h k l zero s len at = refl
  loop-spins c rest e h k l (suc rounds) s len at =
      let found : strchr (with_reference pre name post) (length pre) b'$' ≡ some (length pre) =
        (let none_left : length pre + 0 ≡ length pre = omega arith in
          let text : drop (length pre) (with_reference pre name post)
              ≡ b'$' ∷ b'{' ∷ (name ++ (b'}' ∷ post)) =
            rw (← none_left) (drop-append pre (b'$' ∷ b'{' ∷ (name ++ (b'}' ∷ post))) 0) in
          ground (arith, text)) in
      let again = loop-spins c rest e h k l rounds (length pre) len found in
      let once = round-same s len c rest e h k l at in ground (arith, once, again)

  -- Where the text has a first reference `${name}` to a variable whose value is as long as the
  -- reference itself, the loop of `substitute_vars` never ends: after any number of rounds, and for
  -- any size of the buffer, it is still at that reference.
  pub substitute_vars-spins :
      (c : ℕ) (rest : Str)
      → name ≡ c ∷ rest
      → lacks b'}' name ≡ true
      → lacks b'$' pre ≡ true
      → search name ≡ some sub
      → length sub ≡ length name + 3
      → (rounds : ℕ) → substitute_vars search maxlen rounds (with_reference pre name post) ≡ spin
  unfolding substitute_vars strchr
  substitute_vars-spins c rest e h g k l rounds =
      let first = find_byte-append b'$' pre (b'{' ∷ (name ++ (b'}' ∷ post))) g refl in
      let zero_more : 0 + length pre ≡ length pre = omega arith in
      let at : strchr (with_reference pre name post) 0 b'$' ≡ some (length pre) =
        ground (arith, first) in
      loop-spins c rest e h k l rounds 0 (strlen (with_reference pre name post)) at
