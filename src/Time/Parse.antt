-- ===== src/Time/Parse.antt =====
-- Reading and making times in src/time.c.
use streem.Base.{
  ℕ, Bool, true, false, Option, none, some, List, [], ◌∷◌, if◌then◌else◌, ◌==◌, ◌||◌, ltb,
}
use streem.Base.Int.{ℤ, pos, negsuc, ◌+ℤ◌, ◌-ℤ◌}
use streem.Time.{scan_num, parse_tz, tz_none}

-- The members of the C library's `struct tm` that the code uses.
pub record Tm : Type 0 where
  pub year : ℤ
  pub mon : ℤ
  pub mday : ℤ
  pub hour : ℤ
  pub minute : ℤ
  pub second : ℤ
  pub wday : ℤ

abbrev pub no_tm : Tm
no_tm = record {
  year = pos 0;
  mon = pos 0;
  mday = pos 0;
  hour = pos 0;
  minute = pos 0;
  second = pos 0;
  wday = pos 0;
}

-- The formats that are given to `strptime`, in the order of the code.
pub data Format : Type 0 where
  ymd_dots ymd_dashes ymd_slashes ymd_digits month_day_year month_day : Format
  hms_colons hms_digits hm_colons : Format

-- The C library's calendar: `strptime`, which may change the time and yet fail, `mktime`, `gmtime`, the
-- year of the local time, and the offset that `time_localoffset` finds with them.
pub record Calendar : Type 0 where
  pub strptime : Format → List ℕ → Tm → Tm × Option (List ℕ)
  pub mktime : Tm → ℤ
  pub gmtime : ℤ → Tm
  pub local_year : ℤ
  pub local_offset : ℤ
  -- The microseconds of the digits behind a dot, by the library's log10 and pow.
  pub fraction : ℕ → ℤ

-- What `strm_time_parse_time` stores.
pub record Parsed : Type 0 where
  pub sec : ℤ
  pub usec : ℤ
  pub offset : ℤ

-- The next format, where there is no result yet.
abbrev pub or_else : Tm × Option (List ℕ) → (Tm → Tm × Option (List ℕ)) → Tm × Option (List ℕ)
or_else (tm, some t) next = (tm, some t)
or_else (tm, none) next = next tm

-- A result is dropped unless its rest is as the test wants it.
abbrev pub only_if : (List ℕ → Bool) → Tm × Option (List ℕ) → Tm × Option (List ℕ)
only_if test (tm, none) = (tm, none)
only_if test (tm, some t) = (tm, if test t then some t else none)

abbrev pub starts_with : ℕ → List ℕ → Bool
starts_with b [] = false
starts_with b (c ∷ t) = c == b

abbrev pub skip_spaces : List ℕ → List ℕ
skip_spaces [] = []
skip_spaces (c ∷ t) = if c == 32 then skip_spaces t else c ∷ t

module _ (cal : Calendar) where
  -- The date, in one of six formats.
  unfoldable pub parse_date : List ℕ → Tm × Option (List ℕ)
  parse_date s = or_else (cal.strptime ymd_dots s no_tm) (λ t1.
      or_else (cal.strptime ymd_dashes s t1) (λ t2. or_else (cal.strptime ymd_slashes s t2) (λ t3.
        or_else
          (only_if (λ t. starts_with b'T' t || starts_with 32 t) (cal.strptime ymd_digits s t3))
          (λ t4.
            or_else
              (only_if (λ t. if starts_with b':' t then false else true)
                (cal.strptime month_day_year s t4))
              (λ t5. cal.strptime month_day s (record t5 { year = cal.local_year }))))))

  -- The time of the day, in one of three formats.
  unfoldable pub parse_hours : List ℕ → Tm → Tm × Option (List ℕ)
  parse_hours s tm =
      or_else (cal.strptime hms_colons s tm)
        (λ t1. or_else (cal.strptime hms_digits s t1) (λ t2. cal.strptime hm_colons s t2))

  -- The zone at the end, for the time tt.
  abbrev pub parse_end : ℤ → ℤ → List ℕ → Option Parsed
  parse_end tt usec [] = some (record { sec = tt; usec = usec; offset = cal.local_offset })
  parse_end tt usec (c ∷ t) =
      if c == b'Z'
      then some (record { sec = tt +ℤ cal.local_offset; usec = usec; offset = pos 0 })
      else if (c == b'+') || (c == b'-')
      then elim (parse_tz (c ∷ t)) [
        | none ↦ none
        | some n ↦ some (record { sec = tt +ℤ cal.local_offset -ℤ n; usec = usec; offset = n })
      ]
      else none

  -- The digits behind a dot, and the zone.
  abbrev pub parse_fraction : ℤ → List ℕ → Option Parsed
  parse_fraction tt [] = parse_end tt (pos 0) []
  parse_fraction tt (c ∷ t) =
      let (n, r) = scan_num t in
      if c == b'.'
      then elim n [
        | negsuc k ↦ none
        | pos k ↦ parse_end tt (if ltb 0 k then cal.fraction k else pos 0) r
      ]
      else parse_end tt (pos 0) (c ∷ t)

  abbrev pub after_hours : Tm × Option (List ℕ) → Option Parsed
  after_hours (tm, none) = none
  after_hours (tm, some t) = parse_fraction (cal.mktime tm) t

  abbrev pub parse_day : Tm → List ℕ → Option Parsed
  parse_day tm t = after_hours (parse_hours t tm)

  -- What follows the date.
  abbrev pub parse_rest : Tm → List ℕ → Option Parsed
  parse_rest tm [] =
      some (record { sec = cal.mktime tm +ℤ cal.local_offset; usec = pos 0; offset = tz_none })
  parse_rest tm (c ∷ t) =
      if c == b'T' then parse_day tm t else if c == 32 then parse_day tm (skip_spaces t) else none

  abbrev pub after_date : Tm × Option (List ℕ) → Option Parsed
  after_date (tm, none) = none
  after_date (tm, some t) = parse_rest tm t

  -- `strm_time_parse_time`; none is -1.
  unfoldable pub strm_time_parse_time : List ℕ → Option Parsed
  unfolding parse_date parse_hours
  strm_time_parse_time s = after_date (parse_date s)
