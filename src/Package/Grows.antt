-- ===== src/Package/Grows.antt =====
-- package.c: values that are longer than the references to them.
use powaur.Base.{ℕ, zero, suc, ◌+◌, ◌-◌, ◌≤◌, ◌<◌, ◌≡◌, refl, true, Option, some}
use powaur.Base.{
  length, get_or, take, ◌==◌, ltb, leb, arith, inl, inr, Bool-cases, Option-cases, ℕ-cases, Run, ok,
  Returns,
}
use powaur.Util.{Str}
use powaur.Package.{
  drop, strchr, name_length, replace, Scanned, go, stop, braced, plain, scan_round, substitute_loop,
  strlen, substitute_vars,
}
use powaur.Package.Bytes.{
  Wide, Wide-le, shift-Wide, copy-Wide, get_or-drop, strchr-within, name-nonzero, length-take,
  length-drop,
}

-- What a round leaves, for a buffer of `maxlen + 1` bytes: closer to the end of a text that fits.
abbrev Closer : ℕ → ℕ → ℕ → Scanned → Type 0
Closer maxlen s len (go str' s' len') =
    Wide (maxlen + 1) len' str' × (len' ≤ maxlen) × (s' ≤ len') × (len' - s' < len - s)
Closer maxlen s len (stop str') = Wide (maxlen + 1) maxlen str'

replace-Closer :
    (maxlen : ℕ) (str : Str) (s len p q : ℕ) (sub : Str)
    → Wide (maxlen + 1) len str
    → len ≤ maxlen
    → s ≤ p
    → p < q
    → q ≤ len
    → q - p < length sub
    → Returns (replace maxlen str len p q sub) (Closer maxlen s len)
unfolding replace
replace-Closer maxlen str s len p q sub w m a b c d =
    let longer : ltb (q - p) (length sub) ≡ true = ground (arith, d) in
    elim (Bool-cases (ltb maxlen (len + (length sub - (q - p))))) [
      | inl full ↦ (stop str, rw (longer, full) refl, Wide-le m w)
      | inr room ↦
          let fits : len + (length sub - (q - p)) ≤ maxlen = ground (arith, room) in
          let (moved, e, v) =
            shift-Wide (len - q) q (length sub - (q - p)) str (Wide-le (omega arith) w)
              (omega arith) (omega (arith, fits)) in
          let (copied, e', v') = copy-Wide sub p moved v (omega arith) (omega (arith, fits)) in
          (
            go copied (p + length sub) (len + (length sub - (q - p))),
            rw (longer, room, e, e') refl,
            (v', fits, omega arith, omega arith),
          )
    ]

-- What the loop does with a round's result.
loop_after :
    {maxlen : ℕ} (loop : Str → ℕ → ℕ → Run Str) (s len : ℕ) (r : Scanned)
    → Closer maxlen s len r
    → ((str' : Str) (s' len' : ℕ)
        → Closer maxlen s len (go str' s' len')
        → Returns (loop str' s' len') (Wide (maxlen + 1) maxlen))
    → Returns
        (elim r [ go str' s' len' ↦ loop str' s' len' | stop str' ↦ ok str' ])
        (Wide (maxlen + 1) maxlen)
loop_after loop s len (go str' s' len') c next = next str' s' len' c
loop_after loop s len (stop str') c next = (str', refl, c)

module _ (search : Str → Option Str) (maxlen : ℕ)
    (grows : (name sub : Str) → search name ≡ some sub → length name + 3 < length sub) where
  reference-longer :
      (str sub : Str) (from n len : ℕ)
      → Wide (maxlen + 1) len str
      → len ≤ maxlen
      → from + n ≤ len
      → search (take n (drop from str)) ≡ some sub
      → n + 3 < length sub
  reference-longer str sub from n len w m h e =
      let size = length-take n (drop from str) (omega (arith, length-drop from str, w.whole)) in
      omega (arith, size, grows (take n (drop from str)) sub e)

  braced-Closer :
      (str : Str) (s len p : ℕ)
      → Wide (maxlen + 1) len str
      → len ≤ maxlen
      → s ≤ p
      → p < len
      → Returns (braced search maxlen str len p) (Closer maxlen s len)
  unfolding braced
  braced-Closer str s len p w m a b = elim (Option-cases (strchr str (p + 2) b'}')) [
    | inl e ↦ (stop str, rw (e, braced) refl, Wide-le m w)
    | inr (q, e) ↦
        let (after, before) = strchr-within (maxlen + 1) len (p + 2) q b'}' str w e in
        elim (Bool-cases (leb q (p + 2))) [
          | inl k ↦ (go str (q + 1) len, ground (arith, e, k), (w, m, omega arith, omega arith))
          | inr k ↦ elim (Option-cases (search (take (q - p - 2) (drop (p + 2) str)))) [
            | inl none_found ↦ (
              go str (q + 1) len,
              ground (arith, e, k, none_found),
              (w, m, omega arith, omega arith),
            )
            | inr (sub, found) ↦
                let far : p + 2 < q = ground (arith, k) in
                let longer =
                  reference-longer str sub (p + 2) (q - p - 2) len w m (omega (arith, far)) found in
                let (r, run, closer) =
                  replace-Closer maxlen str s len p (q + 1) sub w m a (omega arith) (omega arith)
                    (omega (arith, longer, far)) in
                (r, ground (arith, e, k, found, run), closer)
          ]
        ]
  ]

  plain-Closer :
      (str : Str) (s len p : ℕ)
      → Wide (maxlen + 1) len str
      → len ≤ maxlen
      → s ≤ p
      → p < len
      → Returns (plain search maxlen str len p) (Closer maxlen s len)
  unfolding plain
  plain-Closer str s len p w m a b = elim (ℕ-cases (name_length (drop (p + 1) str))) [
    | inl e ↦ (go str (p + 1) len, rw (e, plain) refl, (w, m, omega arith, omega arith))
    | inr (k, e) ↦
        let byte = name-nonzero (drop (p + 1) str) k e in
        let same = get_or-drop (p + 1) k str in
        let inside : p + 1 + k < len = ground (arith, byte, same, w.zeros (p + 1 + k)) in
        elim (Option-cases (search (take (suc k) (drop (p + 1) str)))) [
          | inl none_found ↦ (
            go str (p + 1 + suc k) len,
            ground (arith, e, none_found),
            (w, m, omega (arith, inside), omega (arith, inside)),
          )
          | inr (sub, found) ↦
              let longer =
                reference-longer str sub (p + 1) (suc k) len w m (omega (arith, inside)) found in
              let (r, run, closer) =
                replace-Closer maxlen str s len p (p + 1 + suc k) sub w m a (omega arith)
                  (omega (arith, inside)) (omega (arith, longer)) in
              (r, ground (arith, e, found, run), closer)
        ]
  ]

  round-Closer :
      (str : Str) (s len : ℕ)
      → Wide (maxlen + 1) len str
      → len ≤ maxlen
      → Returns (scan_round search maxlen str s len) (Closer maxlen s len)
  unfolding scan_round
  round-Closer str s len w m = elim (Option-cases (strchr str s b'$')) [
    | inl e ↦ (stop str, rw (e, scan_round) refl, Wide-le m w)
    | inr (p, e) ↦
        let (after, before) = strchr-within (maxlen + 1) len s p b'$' str w e in
        elim (Bool-cases (get_or str (p + 1) 0 == 0)) [
          | inl k ↦ (stop str, ground (arith, e, k), Wide-le m w)
          | inr k ↦ elim (Bool-cases (get_or str (p + 1) 0 == b'{')) [
            | inl open_brace ↦
                let (r, run, closer) = braced-Closer str s len p w m after before in
                (r, ground (arith, e, k, open_brace, run), closer)
            | inr no_brace ↦
                let (r, run, closer) = plain-Closer str s len p w m after before in
                (r, ground (arith, e, k, no_brace, run), closer)
          ]
        ]
  ]

  loop-Returns :
      (rounds : ℕ) (str : Str) (s len : ℕ)
      → Wide (maxlen + 1) len str
      → len ≤ maxlen
      → len - s < rounds
      → Returns (substitute_loop search maxlen rounds str s len) (Wide (maxlen + 1) maxlen)
  unfolding substitute_loop
  loop-Returns zero str s len w m h = absurd (omega arith)
  loop-Returns (suc rounds) str s len w m h =
      let (r, run, closer) = round-Closer str s len w m in
      rw run (
        loop_after (λ str' s' len'. substitute_loop search maxlen rounds str' s' len') s len r
          closer (λ str' s' len' c. loop-Returns rounds str' s' len' c.0 c.1 (omega arith)))

  -- Where each variable's value is longer than the reference `${name}` to it, the substitution in a
  -- text comes to an end, in no more rounds than the text has bytes and one: for a buffer of
  -- `maxlen + 1` bytes, of which all behind the text are 0, no byte outside of the buffer is written,
  -- and its last byte is a terminator in the end.
  pub substitute_vars-Returns :
      (rounds : ℕ) (str : Str)
      → Wide (maxlen + 1) (strlen str) str
      → strlen str ≤ maxlen
      → strlen str < rounds
      → Returns (substitute_vars search maxlen rounds str) (Wide (maxlen + 1) maxlen)
  unfolding substitute_vars
  substitute_vars-Returns rounds str w m h =
      loop-Returns rounds str 0 (strlen str) w m (omega arith)
