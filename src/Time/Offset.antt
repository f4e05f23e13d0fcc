-- ===== src/Time/Offset.antt =====
-- The offsets that `parse_tz` of src/time.c takes.
use mathlib.Core.Path.{subst}
use streem.Base.{
  if_case, zero, ℕ, suc, List, [], ◌∷◌, ◌≡◌, ◌≢◌, refl, ◌+◌, ◌*◌, ◌-◌, ◌%◌, ◌≤◌, ◌<◌, arith, true,
  false, some, none, Bool-cases, inl, inr, ◌==◌, ap, ◌∙◌, if◌then◌else◌, sym, ltb, Option, Bool,
  ◌||◌, ◌^◌, length, Option-cases, leb,
}
use streem.Base.Int.{ℤ, pos, negsuc, magnitude}
use streem.Time.{
  scan_digit, int_of, wrapped, no_colon, scan_from, scan_num, minutes_from, checked_offset,
  offset_of, too_many, signed_offset, parse_tz, tz_none,
}
use streem.Time.Zone.{signed-magnitude, wrapped-small}

-- An offset that a zone can have.
abbrev pub IsOffset : ℤ → Type 0
IsOffset z = (magnitude z ≤ 53940) × (magnitude z % 60 ≡ 0)

-- Minutes that have not overflowed: -1 is the only negative number that `scan_num` then gives.
abbrev Fits : ℤ → Type 0
Fits (pos m) = Unit
Fits (negsuc k) = k ≡ 0

offset_of-IsOffset :
    (h : ℕ) (m : ℤ) → Fits m → ltb 14 h || too_many m ≡ false → IsOffset (offset_of h m)
offset_of-IsOffset h (negsuc k) f e = rw f (ground (arith, e))
offset_of-IsOffset h (pos m) f e =
    let a : h ≤ 14 = ground (arith, e) in
    let b : m ≤ 59 = ground (arith, e) in (omega arith, omega arith)

abbrev pow10 : ℕ → ℕ
pow10 zero = 1
pow10 (suc j) = 10 * pow10 j

pow10_grows : (k j : ℕ) → pow10 j ≤ pow10 (k + j)
pow10_grows zero j = let e : 0 + j ≡ j = omega arith in omega (arith, ap pow10 e)
pow10_grows (suc k) j =
    let e : suc k + j ≡ suc (k + j) = omega arith in omega (arith, pow10_grows k j, ap pow10 e)

pow10_le : (j : ℕ) → j ≤ 9 → pow10 j ≤ 10 ^ 9
pow10_le j h =
    let e : 9 - j + j ≡ 9 = omega arith in omega (arith, pow10_grows (9 - j) j, ap pow10 e)

scan_digit_lt : (c i : ℕ) → scan_digit c ≡ some i → i < 10
scan_digit_lt c i e = ground (arith, e)

-- Nine digits do not overflow.
scan_from_lt : (j n : ℕ) (s : List ℕ) → n < pow10 j → j + length s ≤ 9 → (scan_from n s).0 < 2 ^ 31
unfolding scan_from
scan_from_lt j n [] l k = omega (arith, l, pow10_le j (omega (arith, k)))
scan_from_lt j n (c ∷ s) l k = elim (Option-cases (scan_digit c)) [
  | inl e ↦ rw (e, scan_from) (omega (arith, l, pow10_le j (omega (arith, k))))
  | inr (i, e) ↦
      let d = scan_digit_lt c i e in
      let p = pow10_le (suc j) (omega (arith, k)) in
      let w : (10 * n + i) % 2 ^ 32 ≡ 10 * n + i = omega (arith, l, d, p) in
      rw (e, scan_from)
        (rw w (scan_from_lt (suc j) (10 * n + i) s (omega (arith, l, d)) (omega (arith, k))))
]

length-scan_from : (n : ℕ) (s : List ℕ) → length (scan_from n s).1 ≤ length s
unfolding scan_from
length-scan_from n [] = omega arith
length-scan_from n (c ∷ s) = elim (Option-cases (scan_digit c)) [
  | inl e ↦ rw (e, scan_from) (omega arith)
  | inr (i, e) ↦ rw (e, scan_from) (omega (arith, length-scan_from ((10 * n + i) % 2 ^ 32) s))
]

scan_num-none : (c : ℕ) (s : List ℕ) → scan_digit c ≡ none → scan_num (c ∷ s) ≡ (negsuc 0, c ∷ s)
scan_num-none c s e = rw (e, scan_num) refl

scan_num-some :
    (c i : ℕ) (s : List ℕ)
    → scan_digit c ≡ some i
    → scan_num (c ∷ s) ≡ (int_of (scan_from i s).0, (scan_from i s).1)
scan_num-some c i s e = rw (e, scan_num) refl

length-scan_num : (s : List ℕ) → length (scan_num s).1 ≤ length s
length-scan_num [] = omega arith
length-scan_num (c ∷ s) = elim (Option-cases (scan_digit c)) [
  | inl e ↦ let q = ap (λ (p : ℤ × List ℕ). length p.1) (scan_num-none c s e) in omega (arith, q)
  | inr (i, e) ↦
      let q = ap (λ (p : ℤ × List ℕ). length p.1) (scan_num-some c i s e) in
      omega (arith, q, length-scan_from i s)
]

int_of-Fits : (n : ℕ) → n < 2 ^ 31 → Fits (int_of n)
int_of-Fits n h = let p : ltb n (2 ^ 31) ≡ true = ground (arith, h) in rw p tt

scan_num-Fits : (s : List ℕ) → length s ≤ 9 → Fits (scan_num s).0
scan_num-Fits [] l = tt
scan_num-Fits (c ∷ s) l = elim (Option-cases (scan_digit c)) [
  | inl e ↦ subst (λ p. Fits p.0) (sym (scan_num-none c s e)) refl
  | inr (i, e) ↦
      let d = scan_digit_lt c i e in
      let b = scan_from_lt 1 i s (omega (arith, d)) (omega (arith, l)) in
      subst (λ p. Fits p.0) (sym (scan_num-some c i s e)) (int_of-Fits (scan_from i s).0 b)
]

abbrev AllFit : Option (ℕ × ℤ) → Type 0
AllFit none = Unit
AllFit (some (h, m)) = Fits m

no_colon-Fits : (n : ℕ) → Fits (no_colon n).1
no_colon-Fits n = if_case (λ (q : ℕ × ℤ). Fits q.1) (leb 100 n) _ _ tt tt

minutes_from-AllFit : (p : ℤ × List ℕ) → length p.1 ≤ 10 → AllFit (minutes_from p)
minutes_from-AllFit (negsuc k, r) l = tt
minutes_from-AllFit (pos n, []) l = no_colon-Fits n
minutes_from-AllFit (pos n, c ∷ r) l =
    if_case (λ (q : ℕ × ℤ). Fits q.1) (c == b':') _ _ (scan_num-Fits r (omega (arith, l)))
      (no_colon-Fits n)

checked_none :
    (minus : Bool) (h : ℕ) (m : ℤ)
    → ltb 14 h || too_many m ≡ true
    → checked_offset minus (some (h, m)) ≡ none
checked_none minus h m t = rw t refl

checked_some :
    (minus : Bool) (h : ℕ) (m : ℤ)
    → ltb 14 h || too_many m ≡ false
    → checked_offset minus (some (h, m)) ≡ some (wrapped (signed_offset minus (offset_of h m)))
checked_some minus h m t = rw t refl

checked-IsOffset :
    (minus : Bool) (o : Option (ℕ × ℤ)) (z : ℤ)
    → AllFit o
    → checked_offset minus o ≡ some z
    → IsOffset z
checked-IsOffset minus none z f e = absurd (cc e)
checked-IsOffset minus (some (h, m)) z f e = elim (Bool-cases (ltb 14 h || too_many m)) [
  | inl t ↦ absurd (cc (checked_none minus h m t, e))
  | inr t ↦
      let y = offset_of h m in
      let i = offset_of-IsOffset h m f t in
      let j : IsOffset (signed_offset minus y) = rw (signed-magnitude minus y) i in
      let q : wrapped (signed_offset minus y) ≡ z = cc (checked_some minus h m t, e) in
      let w : signed_offset minus y ≡ z =
        sym (wrapped-small (signed_offset minus y) (omega (arith, j.0))) ∙ q in
      subst (λ x. IsOffset x) w j
]

parsed-IsOffset : (s : List ℕ) (z : ℤ) → length s ≤ 10 → parse_tz s ≡ some z → IsOffset z
unfolding parse_tz
parsed-IsOffset [] z l h = absurd (cc h)
parsed-IsOffset (c ∷ s) z l h =
    let P : Option ℤ → Type 0 = λ o. o ≡ some z → IsOffset z in
    let f = minutes_from-AllFit (scan_num s) (omega (arith, l, length-scan_num s)) in
    let o = checked_offset (c == b'-') (minutes_from (scan_num s)) in
    let zero_is : P (some (pos 0)) =
      λ e. (let q : pos 0 ≡ z = cc e in subst (λ x. IsOffset x) q (omega arith, refl)) in
    if_case P (c == b'Z') (some (pos 0)) (if (c == b'+') || (c == b'-') then o else none) zero_is
      (if_case P ((c == b'+') || (c == b'-')) o none
        (λ e. checked-IsOffset (c == b'-') (minutes_from (scan_num s)) z f e) (λ e. absurd (cc e)))
      h

-- What `parse_tz` takes of a text of at most ten bytes, in which no number overflows an int, is an
-- offset of whole minutes, of 14 hours and 59 minutes at most either way, so it is neither TZ_NONE nor
-- TZ_FAIL.
pub parse_tz-IsOffset :
    (s : List ℕ) (z : ℤ)
    → length s ≤ 10
    → parse_tz s ≡ some z
    → (magnitude z ≤ 53940) × (magnitude z % 60 ≡ 0) × (z ≢ tz_none) × (z ≢ pos 60000)
parse_tz-IsOffset s z l h =
    let (a, b) = parsed-IsOffset s z l h in
    (a, b, λ e. omega (arith, ap magnitude e), λ e. omega (arith, ap magnitude e))
