-- ===== src/Package/Bytes.antt =====
-- package.c: writes into a buffer, and what a search finds in it.
use powaur.Base.{ℕ, zero, suc, ◌+◌, ◌-◌, ◌≤◌, ◌<◌, ◌≡◌, refl, ap, ◌∙◌, true, false, [], ◌∷◌, some}
use powaur.Base.{
  length, get_or, set, take, ◌==◌, ltb, if-true, arith, inl, inr, Option-cases, Run, ok, ◌>>=◌,
  Returns, length-set, get_or-set_ne,
}
use powaur.Util.{Str}
use powaur.Package.{drop, find_byte, strchr, name_length, write_byte, shift_backwards, copy}

-- A buffer of `size` bytes that are all 0 from `n` on.
pub record Wide (size n : ℕ) (str : Str) : Type 0 where
  pub whole : length str ≡ size
  pub zeros : (i : ℕ) → n ≤ i → get_or str i 0 ≡ 0

pub Wide-le : {size n m : ℕ} {str : Str} → n ≤ m → Wide size n str → Wide size m str
Wide-le h w = record { whole = w.whole; zeros = λ i k. w.zeros i (omega arith) }

abbrev Wider : ℕ → ℕ → Run Str → Type 0
Wider size n run = Returns run (Wide size n)

write_byte-Wide :
    {size n : ℕ} (str : Str) (i c : ℕ)
    → Wide size n str
    → i < n
    → n ≤ size
    → Wider size n (write_byte str i c)
unfolding write_byte
write_byte-Wide {size} {n} str i c w h k =
    let inside : ltb i (length str) ≡ true = ground (arith, w.whole) in
    (
      set str i c,
      if-true (ok (set str i c)) Run.fault inside,
      record {
        whole = length-set str i c ∙ w.whole;
        zeros = λ j m. get_or-set_ne str i j c 0 (λ e. omega arith) ∙ w.zeros j m;
      },
    )

>>=-Wider :
    {size n : ℕ} (run : Run Str) (next : Str → Run Str)
    → Wider size n run
    → ((str : Str) → Wide size n str → Wider size n (next str))
    → Wider size n (run >>= next)
>>=-Wider run next (str, e, w) then_ = rw e (then_ str w)

pub shift-Wide :
    {size n : ℕ} (k st diff : ℕ) (str : Str)
    → Wide size n str
    → st + k + diff ≤ n
    → n ≤ size
    → Wider size n (shift_backwards k st diff str)
unfolding shift_backwards
shift-Wide zero st diff str w h m = (str, refl, w)
shift-Wide (suc k) st diff str w h m =
    >>=-Wider (write_byte str (st + k + diff) (get_or str (st + k) 0))
      (λ (moved : Str). shift_backwards k st diff moved)
      (write_byte-Wide str (st + k + diff) (get_or str (st + k) 0) w (omega arith) m)
      (λ moved v. shift-Wide k st diff moved v (omega arith) m)

pub copy-Wide :
    {size n : ℕ} (sub : Str) (p : ℕ) (str : Str)
    → Wide size n str
    → p + length sub ≤ n
    → n ≤ size
    → Wider size n (copy sub p str)
unfolding copy
copy-Wide [] p str w h m = (str, refl, w)
copy-Wide (c ∷ sub) p str w h m =
    >>=-Wider (write_byte str p c) (λ (copied : Str). copy sub (suc p) copied)
      (write_byte-Wide str p c w (omega arith) m)
      (λ copied v. copy-Wide sub (suc p) copied v (omega arith) m)

pub get_or-drop : (s n : ℕ) (str : Str) → get_or (drop s str) n 0 ≡ get_or str (s + n) 0
get_or-drop zero n str = let e : n ≡ 0 + n = omega arith in ap (λ (m : ℕ). get_or str m 0) e
get_or-drop (suc s) n [] = refl
get_or-drop (suc s) n (c ∷ str) =
    let e : suc (s + n) ≡ suc s + n = omega arith in
    get_or-drop s n str ∙ ap (λ (m : ℕ). get_or (c ∷ str) m 0) e

find_byte-nonzero : (c n : ℕ) (str : Str) → find_byte c str ≡ some n → get_or str n 0 == 0 ≡ false
unfolding find_byte
find_byte-nonzero c n [] h = cc
find_byte-nonzero c zero (x ∷ str) h = ground (arith, h)
find_byte-nonzero c (suc n) (x ∷ str) h = ground (arith, h, find_byte-nonzero c n str)

pub strchr-within :
    (size len s p c : ℕ) (str : Str)
    → Wide size len str
    → strchr str s c ≡ some p
    → (s ≤ p) × (p < len)
unfolding strchr
strchr-within size len s p c str w h = elim (Option-cases (find_byte c (drop s str))) [
  | inl e ↦ ground (arith, h, e)
  | inr (n, e) ↦
      let at : s + n ≡ p = ground (arith, h, e) in
      let byte = find_byte-nonzero c n (drop s str) e in
      let same = get_or-drop s n str in ground (arith, at, byte, same, w.zeros (s + n))
]

pub name-nonzero : (str : Str) (k : ℕ) → name_length str ≡ suc k → (get_or str k 0 == 0 ≡ false)
unfolding name_length
name-nonzero [] k h = ground (arith, h)
name-nonzero (c ∷ str) zero h = ground (arith, h)
name-nonzero (c ∷ str) (suc k) h = ground (arith, h, name-nonzero str k)

pub length-take : (n : ℕ) (str : Str) → n ≤ length str → length (take n str) ≡ n
length-take zero str h = refl
length-take (suc n) [] h = absurd (omega arith)
length-take (suc n) (c ∷ str) h = ap suc (length-take n str (omega arith))

pub length-drop : (n : ℕ) (str : Str) → length (drop n str) ≡ length str - n
length-drop zero str = omega arith
length-drop (suc n) [] = omega arith
length-drop (suc n) (c ∷ str) = omega (arith, length-drop n str)
