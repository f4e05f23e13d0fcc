-- ===== src/Time/Tests.antt =====
-- Times of src/time.c at concrete values.
use streem.Base.{[], ◌∷◌, ◌≡◌, ◌≢◌, ◌≤◌, ◌%◌, refl, some, none, arith}
use streem.Base.Int.{pos, negsuc, magnitude}
use streem.Time.{Timeval, parse_tz, zone_text, tz_none, timeradd, timersub, scan_from}
use streem.Time.Offset.{parse_tz-IsOffset}
use streem.Time.Carry.{Normal, timersub-timeradd}
use streem.Time.Parse.{Calendar, no_tm, ymd_dashes, hm_colons}

abbrev late : Timeval
late = record { sec = negsuc 4; usec = pos 700000 }

abbrev later : Timeval
later = record { sec = pos 9; usec = pos 800000 }

timersub-timeradd_example :
    Normal (timeradd late later) × (timersub (timeradd late later) later ≡ late)
timersub-timeradd_example =
    timersub-timeradd late later (omega arith, omega arith) (omega arith, omega arith)

nine : parse_tz (b'+' ∷ b'0' ∷ b'9' ∷ []) ≡ some (pos 32400)
unfolding parse_tz scan_from
nine = refl

parse_tz-IsOffset_example :
    (magnitude (pos 32400) ≤ 53940)
    × (magnitude (pos 32400) % 60 ≡ 0)
    × (pos 32400 ≢ tz_none)
    × (pos 32400 ≢ pos 60000)
parse_tz-IsOffset_example =
    parse_tz-IsOffset (b'+' ∷ b'0' ∷ b'9' ∷ []) (pos 32400) (omega arith) nine

-- `+00:4294965596`: the minutes overflow to -1700. `-00:4294966296` is taken, and gives TZ_FAIL.
overflown :
    parse_tz (
      b'+' ∷ b'0' ∷ b'0' ∷ b':' ∷ b'4' ∷ b'2' ∷ b'9' ∷ b'4' ∷ b'9' ∷ b'6' ∷ b'5' ∷ b'5' ∷ b'9'
      ∷ b'6' ∷ [])
    ≡ some (negsuc 101999)
unfolding parse_tz scan_from
overflown = refl

-- A library that knows one date, with dashes, and one time of the day, without seconds.
abbrev few : Calendar
few = record {
  strptime = λ f s tm. elim f [
    | ymd_dashes ↦ (tm, some (b'T' ∷ []))
    | hm_colons ↦ (tm, some (zone_text (pos 32400)))
    | _ ↦ (tm, none)
  ];
  mktime = λ tm. pos 86400;
  gmtime = λ t. no_tm;
  local_year = pos 120;
  local_offset = pos 3600;
  fraction = λ n. pos 0;
}
