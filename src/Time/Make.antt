-- ===== src/Time/Make.antt =====
-- Making times, their parts and their arithmetic in src/time.c.
use streem.Base.{
  ℕ, suc, Bool, true, false, Option, none, some, List, [], ◌∷◌, ◌++◌, if◌then◌else◌, ◌==◌, ◌&&◌,
  ◌*◌, ◌-◌, ◌/◌, ◌%◌, ◌^◌,
}
use streem.Base.Int.{ℤ, pos, negsuc, ◌+ℤ◌, ◌-ℤ◌, sub_ℕ, magnitude}
use streem.Value.{Value, int, float, number_p, value_float}
use streem.Number.{Arith}
use streem.Time.{parse_tz, tz_none, Timeval, StrmTime, timeradd, timersub, zone_text}
use streem.Time.Parse.{Tm, no_tm, Calendar, strm_time_parse_time}

-- Division of C: towards 0.
abbrev pub div_ℤ : ℤ → ℕ → ℤ
div_ℤ (pos n) k = pos (n / k)
div_ℤ (negsuc n) k = sub_ℕ 0 (suc n / k)

-- The pattern of an `int32_t` that an integer is stored as.
abbrev pub i32_of : ℤ → ℕ
i32_of (pos n) = n % 2 ^ 32
i32_of (negsuc n) = 2 ^ 32 - 1 - n % 2 ^ 32

module _ (cal : Calendar) where
  -- `time_time` of a string; none is "bad time format".
  unfoldable pub time_of_str : List ℕ → Option StrmTime
  time_of_str s = elim (strm_time_parse_time cal s) [
    | none ↦ none
    | some p ↦ some (record { tv = record { sec = p.sec; usec = p.usec }; utc_offset = p.offset })
  ]

  -- `time_time` of integers and of a zone if there are eight arguments; none is an error. The month of
  -- a date without a time is counted from 1, any other from 0.
  unfoldable pub time_time : List ℤ → Option (List ℕ) → Option StrmTime
  time_time (y ∷ m ∷ d ∷ []) none =
      let tm : Tm = record no_tm { year = y; mon = m -ℤ pos 1; mday = d } in
      some (record {
        tv = record { sec = cal.mktime tm +ℤ cal.local_offset; usec = pos 0 };
        utc_offset = tz_none;
      })
  time_time (y ∷ m ∷ d ∷ h ∷ []) none =
      let tm : Tm = record no_tm { year = y; mon = m; mday = d; hour = h } in
      some (record {
        tv = record { sec = cal.mktime tm; usec = pos 0 };
        utc_offset = cal.local_offset;
      })
  time_time (y ∷ m ∷ d ∷ h ∷ mi ∷ []) none =
      let tm : Tm = record no_tm { year = y; mon = m; mday = d; hour = h; minute = mi } in
      some (record {
        tv = record { sec = cal.mktime tm; usec = pos 0 };
        utc_offset = cal.local_offset;
      })
  time_time (y ∷ m ∷ d ∷ h ∷ mi ∷ s ∷ []) none =
      let tm : Tm = record no_tm {
        year = y;
        mon = m;
        mday = d;
        hour = h;
        minute = mi;
        second = s;
      } in
      some (record {
        tv = record { sec = cal.mktime tm; usec = pos 0 };
        utc_offset = cal.local_offset;
      })
  time_time (y ∷ m ∷ d ∷ h ∷ mi ∷ s ∷ ns ∷ []) tz =
      let tm : Tm = record no_tm {
        year = y;
        mon = m;
        mday = d;
        hour = h;
        minute = mi;
        second = s;
      } in
      elim tz [
        | none ↦ some (record {
          tv = record { sec = cal.mktime tm; usec = div_ℤ ns 1000 };
          utc_offset = cal.local_offset;
        })
        | some z ↦ elim (parse_tz z) [
          | none ↦ none
          | some n ↦ some (record {
            tv = record { sec = cal.mktime tm +ℤ cal.local_offset -ℤ n; usec = div_ℤ ns 1000 };
            utc_offset = n;
          })
        ]
      ]
  time_time _ _ = none

  -- `time_now`, at the time tv, with a zone or without one.
  unfoldable pub time_now : Timeval → Option (List ℕ) → Option StrmTime
  time_now tv none = some (record { tv = tv; utc_offset = cal.local_offset })
  time_now tv (some z) = elim (parse_tz z) [
    | none ↦ none
    | some n ↦ some (record { tv = tv; utc_offset = n })
  ]

  -- `get_tm`
  abbrev pub get_tm : ℤ → ℤ → Tm
  get_tm t utc_offset = cal.gmtime (t +ℤ utc_offset)

  -- `time_func`, for a part of the time: TZ_NONE is taken for an offset.
  abbrev pub time_func : (Tm → ℤ) → StrmTime → Value
  time_func part t = int (i32_of (part (get_tm t.tv.sec t.utc_offset)))

  abbrev pub time_year : StrmTime → Value
  time_year t = time_func (λ tm. tm.year +ℤ pos 1900) t

  abbrev pub time_month : StrmTime → Value
  time_month t = time_func (λ tm. tm.mon +ℤ pos 1) t

abbrev pub time_nanosec : StrmTime → Value
time_nanosec t =
    int (i32_of (elim t.tv.usec [ pos n ↦ pos (n * 1000) | negsuc n ↦ sub_ℕ 0 (suc n * 1000) ]))

-- What `time_str` has of strftime and snprintf: the text of a date, of a date and a time, and of
-- microseconds as a fraction of three digits.
pub record Texts : Type 0 where
  pub date_text : Tm → List ℕ
  pub full_text : Tm → List ℕ
  pub fraction_text : ℤ → List ℕ

abbrev pub zero_ℤ : ℤ → Bool
zero_ℤ z = magnitude z == 0

module _ (cal : Calendar) (txt : Texts) where
  -- The text of a time at an offset.
  abbrev pub full_str : Timeval → ℤ → List ℕ
  full_str tv off =
      txt.full_text (get_tm cal tv.sec off)
      ++ ((if zero_ℤ tv.usec then [] else txt.fraction_text tv.usec) ++ zone_text off)

  -- `time_str`, with the text of a zone or without one; none is an error.
  unfoldable pub time_str : StrmTime → Option (List ℕ) → Option (List ℕ)
  time_str t zone =
      let off : Option ℤ = elim zone [ none ↦ some t.utc_offset | some z ↦ parse_tz z ] in
      elim off [
        | none ↦ none
        | some n ↦
            let tm = get_tm cal t.tv.sec (pos 0) in
            if zero_ℤ (n -ℤ tz_none)
            then if zero_ℤ tm.hour && (zero_ℤ tm.minute && zero_ℤ tm.second)
              then some (txt.date_text tm)
              else some (full_str t.tv (pos 0))
            else some (full_str t.tv n)
      ]

-- The operations on doubles that times need: `floor`, the conversions to and from `long`, and 1000000.
pub record TimeOps : Type 0 where
  pub ar : Arith
  pub ffloor : ℕ → ℕ
  pub to_long : ℕ → ℤ
  pub of_long : ℤ → ℕ
  pub million : ℕ

-- The second argument of `+` and `-`.
pub data Operand : Type 0 where
  plain : Value → Operand
  time : StrmTime → Operand

-- What `time_minus` gives: a time, or the seconds between two.
pub data Difference : Type 0 where
  earlier : StrmTime → Difference
  seconds : ℕ → Difference

module _ (ops : TimeOps) where
  -- `num_to_timeval` and `timeval_to_num`
  abbrev pub num_to_timeval : ℕ → Timeval
  num_to_timeval d =
      let s = ops.ffloor d in
      record { sec = ops.to_long s; usec = ops.to_long (ops.ar.fmul (ops.ar.fsub d s) ops.million) }

  abbrev pub timeval_to_num : Timeval → ℕ
  timeval_to_num tv =
      ops.ar.ops.fadd (ops.of_long tv.sec) (ops.ar.fdiv (ops.of_long tv.usec) ops.million)

  abbrev pub plus_double : StrmTime → ℕ → StrmTime
  plus_double t d = record t { tv = timeradd t.tv (num_to_timeval d) }

  -- `time_plus`; none is an error.
  unfoldable pub time_plus : StrmTime → Value → Option StrmTime
  time_plus t v = elim (number_p v) [
    | false ↦ none
    | true ↦ elim (value_float ops.ar.ops v) [ none ↦ none | some d ↦ some (plus_double t d) ]
  ]

  -- `time_minus`; a value that is no number and no time fails an assertion, and gives none.
  unfoldable pub time_minus : StrmTime → Operand → Option Difference
  time_minus t (time u) = some (seconds (timeval_to_num (timersub t.tv u.tv)))
  time_minus t (plain v) = elim (number_p v) [
    | false ↦ none
    | true ↦ elim (value_float ops.ar.ops v) [
      | none ↦ none
      | some d ↦ some (earlier (plus_double t (ops.ar.fneg d)))
    ]
  ]

  -- `time_num`
  abbrev pub time_num : StrmTime → Value
  time_num t = if zero_ℤ t.tv.usec then int (i32_of t.tv.sec) else float (timeval_to_num t.tv)
