-- ===== src/Time/Reading.antt =====
-- A time with its zone, as `time_str` of src/time.c writes it, read by `strm_time_parse_time`.
use streem.Base.{Option, some}
use streem.Base.Int.{ℤ, pos, ◌+ℤ◌, ◌-ℤ◌}
use streem.Time.Parse.{Calendar, Parsed}

module _ (cal : Calendar) where
  -- What is stored for the local time tt, where the zone has the offset z.
  abbrev pub at_offset : ℤ → ℤ → Option Parsed
  at_offset tt z = some (record { sec = tt +ℤ cal.local_offset -ℤ z; usec = pos 0; offset = z })
