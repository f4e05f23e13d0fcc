-- ===== src/Time/Zone.antt =====
-- The zones that src/time.c reads and writes.

use streem.Base.{
  zero, ℕ, suc, List, [], ◌∷◌, ◌++◌, ◌≡◌, refl, ◌+◌, ◌*◌, ◌-◌, ◌/◌, ◌%◌, ◌≤◌, ◌<◌, arith, true,
  false, some, ◌==◌, ap, ◌∙◌, if◌then◌else◌, sym, ltb, Bool, ◌^◌,
}
use streem.Base.Int.{ℤ, pos, negsuc, magnitude, ◌-ℤ◌, int_laws}
use streem.Time.{
  scan_digit, int_of, wrapped, scan_from, scan_num, minutes_from, checked_offset, signed_offset,
  parse_tz, zone_text, two_digits,
}

scan_digit-digit : (d : ℕ) → d < 10 → scan_digit (48 + d) ≡ some d
scan_digit-digit d h = ground arith

scan_from-digit :
    (n d : ℕ) (s : List ℕ)
    → d < 10
    → scan_from n ((48 + d) ∷ s) ≡ scan_from ((10 * n + d) % 2 ^ 32) s
unfolding scan_from
scan_from-digit n d s h = rw (scan_digit-digit d h, scan_from) refl

scan_num-digit :
    (d : ℕ) (s : List ℕ)
    → d < 10
    → scan_num ((48 + d) ∷ s) ≡ (int_of (scan_from d s).0, (scan_from d s).1)
scan_num-digit d s h = rw (scan_digit-digit d h, scan_num) refl

-- Two digits are read back up to bytes that go on with no digit.
two-digits : (n : ℕ) → n < 100 → int_of ((10 * (n / 10) + n % 10) % 2 ^ 32) ≡ pos n
two-digits n h =
    let e : (10 * (n / 10) + n % 10) % 2 ^ 32 ≡ n = omega arith in
    let p : ltb n (2 ^ 31) ≡ true = ground (arith, h) in
    let q : int_of n ≡ pos n = rw p refl in ap int_of e ∙ q

scan_two-end : (n : ℕ) → n < 100 → scan_num (two_digits n) ≡ (pos n, [])
unfolding scan_from
scan_two-end n h =
    scan_num-digit (n / 10) ((48 + n % 10) ∷ []) (omega arith)
    ∙ ap (λ p. (int_of p.0, p.1)) (scan_from-digit (n / 10) (n % 10) [] (omega arith))
    ∙ ap (λ k. (k, [])) (two-digits n h)

scan_two-colon :
    (n : ℕ) (s : List ℕ) → n < 100 → scan_num (two_digits n ++ (b':' ∷ s)) ≡ (pos n, b':' ∷ s)
unfolding scan_from
scan_two-colon n s h =
    scan_num-digit (n / 10) ((48 + n % 10) ∷ b':' ∷ s) (omega arith)
    ∙ ap (λ p. (int_of p.0, p.1)) (scan_from-digit (n / 10) (n % 10) (b':' ∷ s) (omega arith))
    ∙ ap (λ k. (k, b':' ∷ s)) (two-digits n h)

minutes_from-text :
    (h m : ℕ)
    → h < 100
    → m < 100
    → minutes_from (scan_num (two_digits h ++ (b':' ∷ two_digits m))) ≡ some (h, pos m)
minutes_from-text h m p q =
    ap minutes_from (scan_two-colon h (two_digits m) p) ∙ ap (λ r. some (h, r.0)) (scan_two-end m q)

pub signed-magnitude : (minus : Bool) (y : ℤ) → magnitude (signed_offset minus y) ≡ magnitude y
unfolding ◌-ℤ◌
signed-magnitude minus y = ground arith

-- An int that 32 bits hold.
pub wrapped-small : (z : ℤ) → magnitude z < 2 ^ 31 → wrapped z ≡ z
wrapped-small (pos n) h =
    let e : n % 2 ^ 32 ≡ n = omega arith in
    let p : ltb n (2 ^ 31) ≡ true = ground (arith, h) in
    let q : int_of n ≡ pos n = rw p refl in ap int_of e ∙ q
wrapped-small (negsuc k) h =
    let e : 2 ^ 32 - 1 - k % 2 ^ 32 ≡ 2 ^ 32 - 1 - k = omega arith in
    let p : ltb (2 ^ 32 - 1 - k) (2 ^ 31) ≡ false = ground (arith, h) in
    let c : 2 ^ 32 - 1 - (2 ^ 32 - 1 - k) ≡ k = omega arith in
    let q : int_of (2 ^ 32 - 1 - k) ≡ negsuc (2 ^ 32 - 1 - (2 ^ 32 - 1 - k)) = rw p refl in
    ap int_of e ∙ q ∙ ap negsuc c

-- The sign, the hours and the minutes of an offset of so many minutes.
checked-minutes :
    (minus : Bool) (k : ℕ)
    → k ≤ 899
    → checked_offset minus (some (k / 60, pos (k % 60))) ≡ some (signed_offset minus (pos (60 * k)))
checked-minutes minus k h =
    let a : ltb 14 (k / 60) ≡ false = ground arith in
    let b : ltb 59 (k % 60) ≡ false = ground arith in
    let e : (k / 60 * 60 + k % 60) * 60 ≡ 60 * k = omega arith in
    let w : wrapped (signed_offset minus (pos (60 * k))) ≡ signed_offset minus (pos (60 * k)) =
      wrapped-small _ (rw (signed-magnitude minus (pos (60 * k))) (omega arith)) in
    rw a (rw b (ap (λ n. some (wrapped (signed_offset minus (pos n)))) e ∙ ap some w))

parse_tz-sign :
    (minus : Bool) (k : ℕ)
    → k ≤ 899
    → parse_tz
        ((if minus then b'-' else b'+') ∷ two_digits (k / 60) ++ (b':' ∷ two_digits (k % 60)))
      ≡ some (signed_offset minus (pos (60 * k)))
unfolding parse_tz
parse_tz-sign true k h =
    ap (checked_offset true) (minutes_from-text (k / 60) (k % 60) (omega arith) (omega arith))
    ∙ checked-minutes true k h
parse_tz-sign false k h =
    ap (checked_offset false) (minutes_from-text (k / 60) (k % 60) (omega arith) (omega arith))
    ∙ checked-minutes false k h

pub zone_text-plus :
    (k : ℕ)
    → 0 < k
    → zone_text (pos (60 * k)) ≡ b'+' ∷ two_digits (k / 60) ++ (b':' ∷ two_digits (k % 60))
unfolding zone_text
zone_text-plus k h =
    let e : (60 * k + 0) / 60 ≡ k = omega arith in
    let p : ltb 0 k ≡ true = ground arith in
    let z : (60 * k + 0 == 0) ≡ false = ground arith in
    rw (z, zone_text) (rw (e, zone_text) (rw p refl))

pub zone_text-minus :
    (k : ℕ)
    → 0 < k
    → zone_text (negsuc (60 * k - 1)) ≡ b'-' ∷ two_digits (k / 60) ++ (b':' ∷ two_digits (k % 60))
unfolding zone_text
zone_text-minus k h =
    let e : (0 + suc (60 * k - 1)) / 60 ≡ k = omega arith in
    let z : (0 + suc (60 * k - 1) == 0) ≡ false = ground arith in
    rw (z, zone_text) (rw (e, zone_text) refl)

pub negated : (n : ℕ) → 0 < n → pos 0 -ℤ pos n ≡ negsuc (n - 1)
negated n h = omega int_laws

pub zero_offset : (minus : Bool) → signed_offset minus (pos (60 * 0)) ≡ pos 0
zero_offset true = omega int_laws
zero_offset false = refl

parse_tz-zero : parse_tz (zone_text (pos 0)) ≡ some (pos 0)
unfolding zone_text parse_tz
parse_tz-zero = refl

-- An offset of whole minutes below fifteen hours is read back from the zone that a time is written
-- with.
pub parse_tz-zone_text :
    (k : ℕ) (minus : Bool)
    → k ≤ 899
    → parse_tz (zone_text (signed_offset minus (pos (60 * k))))
      ≡ some (signed_offset minus (pos (60 * k)))
parse_tz-zone_text zero minus h =
    let e = zero_offset minus in
    ap (λ z. parse_tz (zone_text z)) e ∙ parse_tz-zero ∙ ap some (sym e)
parse_tz-zone_text (suc k) false h =
    ap parse_tz (zone_text-plus (suc k) (omega arith)) ∙ parse_tz-sign false (suc k) h
parse_tz-zone_text (suc k) true h =
    ap parse_tz
      (ap zone_text (negated (60 * suc k) (omega arith)) ∙ zone_text-minus (suc k) (omega arith))
    ∙ parse_tz-sign true (suc k) h
