-- ===== src/Time.antt =====
-- src/time.c: time zones, the arithmetic of times, and the parts of a time.
--
-- Seconds and offsets are integers, and what `parse_tz` computes is an int modulo 2 ^ 32. Elsewhere, where the C type is too small for one, the code's behaviour is
-- undefined and the model goes on. The calendar (mktime, gmtime, strptime, strftime) is a parameter.
mod Tests
pub mod Zone
pub mod Offset
pub mod Parse
pub mod Make
pub mod Reading
pub mod Carry
use streem.Base.{
  ℕ, zero, suc, Bool, true, false, Option, none, some, List, [], ◌∷◌, ◌++◌, if◌then◌else◌, ◌==◌,
  ◌&&◌, ◌||◌, ◌+◌, ◌*◌, ◌-◌, ◌/◌, ◌%◌, ◌^◌, ltb, leb,
}
use streem.Base.Int.{ℤ, pos, negsuc, ◌+ℤ◌, ◌-ℤ◌, sub_ℕ, magnitude}

-- `scan_digit`, where none is TZ_FAIL.
abbrev pub scan_digit : ℕ → Option ℕ
scan_digit c = if leb 48 c && leb c 57 then some (c - 48) else none

-- The int whose 32 bits are those of the number n.
abbrev pub int_of : ℕ → ℤ
int_of n = if ltb n (2 ^ 31) then pos n else negsuc (2 ^ 32 - 1 - n)

-- An int that the machine computes modulo 2 ^ 32.
abbrev pub wrapped : ℤ → ℤ
wrapped (pos n) = int_of (n % 2 ^ 32)
wrapped (negsuc k) = int_of (2 ^ 32 - 1 - k % 2 ^ 32)

-- The loop of `scan_num`: the bits of the number, and the bytes from the first that is no digit on.
unfoldable pub scan_from : ℕ → List ℕ → ℕ × List ℕ
scan_from n [] = (n, [])
scan_from n (c ∷ s) = elim (scan_digit c) [
  | none ↦ (n, c ∷ s)
  | some i ↦ scan_from ((10 * n + i) % 2 ^ 32) s
]

-- `scan_num`: -1 for bytes that start with no digit. No bytes are the number 0.
abbrev pub scan_num : List ℕ → ℤ × List ℕ
scan_num [] = (pos 0, [])
scan_num (c ∷ s) = elim (scan_digit c) [
  | none ↦ (negsuc 0, c ∷ s)
  | some i ↦ let (n, r) = scan_from i s in (int_of n, r)
]

-- The offset of a zone of so many minutes.
abbrev pub signed_offset : (minus : Bool) → ℤ → ℤ
signed_offset minus z = if minus then pos 0 -ℤ z else z

-- `(h*60+m) * 60`, where the minutes may be negative.
abbrev pub offset_of : ℕ → ℤ → ℤ
offset_of h (negsuc k) = sub_ℕ (h * 3600) (suc k * 60)
offset_of h (pos m) = pos ((h * 60 + m) * 60)

-- The test of the minutes, which lets negative ones pass.
abbrev pub too_many : ℤ → Bool
too_many (negsuc k) = false
too_many (pos m) = ltb 59 m

-- A number that no colon follows: three digits or more have the minutes in the last two.
abbrev pub no_colon : ℕ → ℕ × ℤ
no_colon n = if leb 100 n then (n / 100, pos (n % 100)) else (n, pos 0)

-- The hours and the minutes, behind the first number.
abbrev pub minutes_from : ℤ × List ℕ → Option (ℕ × ℤ)
minutes_from (negsuc k, r) = none
minutes_from (pos n, []) = some (no_colon n)
minutes_from (pos n, c ∷ r) = some (if c == b':' then (n, (scan_num r).0) else no_colon n)

-- The result of `parse_tz` for these hours and minutes.
abbrev pub checked_offset : (minus : Bool) → Option (ℕ × ℤ) → Option ℤ
checked_offset minus none = none
checked_offset minus (some (h, m)) =
    if ltb 14 h || too_many m then none else some (wrapped (signed_offset minus (offset_of h m)))

-- `parse_tz`; none is TZ_FAIL. What stands behind the zone is not looked at.
unfoldable pub parse_tz : List ℕ → Option ℤ
unfolding scan_from
parse_tz [] = none
parse_tz (c ∷ s) =
    if c == b'Z'
    then some (pos 0)
    else if (c == b'+') || (c == b'-')
    then checked_offset (c == b'-') (minutes_from (scan_num s))
    else none

-- TZ_NONE
abbrev pub tz_none : ℤ
tz_none = pos 50000

-- `%02d` of a number below 100.
abbrev pub two_digits : ℕ → List ℕ
two_digits n = (48 + n / 10) ∷ (48 + n % 10) ∷ []

-- The zone at the end of `time_str`: the quotient by 60 is cut off towards 0.
unfoldable pub zone_text : ℤ → List ℕ
zone_text z =
    let off = magnitude z / 60 in
    let plus : Bool = elim z [ pos n ↦ ltb 0 off | negsuc n ↦ false ] in
    if magnitude z == 0
    then b'Z' ∷ []
    else (if plus then b'+' else b'-') ∷ two_digits (off / 60) ++ (b':' ∷ two_digits (off % 60))

-- `struct timeval`
pub record Timeval : Type 0 where
  pub sec : ℤ
  pub usec : ℤ

-- `struct strm_time`
pub record StrmTime : Type 0 where
  pub tv : Timeval
  pub utc_offset : ℤ

-- The loops of `timeradd` and `timersub`.
unfoldable pub carry_up : ℕ → Timeval → Timeval
carry_up zero t = t
carry_up (suc f) t = elim t.usec [
  | negsuc n ↦ t
  | pos n ↦ elim (leb 1000000 n) [
    | true ↦ carry_up f (record { sec = t.sec +ℤ pos 1; usec = pos (n - 1000000) })
    | false ↦ t
  ]
]

unfoldable pub carry_down : ℕ → Timeval → Timeval
carry_down zero t = t
carry_down (suc f) t = elim t.usec [
  | pos n ↦ t
  | negsuc n ↦ carry_down f (record { sec = t.sec -ℤ pos 1; usec = t.usec +ℤ pos 1000000 })
]

-- `timeradd` and `timersub`, with a turn for each million that the microseconds may be off.
abbrev pub timeradd : Timeval → Timeval → Timeval
timeradd a b =
    let u = a.usec +ℤ b.usec in carry_up (magnitude u) (record { sec = a.sec +ℤ b.sec; usec = u })

abbrev pub timersub : Timeval → Timeval → Timeval
timersub a b =
    let u = a.usec -ℤ b.usec in carry_down (magnitude u) (record { sec = a.sec -ℤ b.sec; usec = u })
