-- ===== src/Datetime.antt =====
-- Points in time: hikyuu/utilities/datetime/Datetime.h and Datetime.cpp, over Boost's calendar. A `none`
-- is an exception.
pub mod Boost
pub mod Made
pub mod Periods
pub mod Numbering
pub mod Months
pub mod Ends
pub mod Previous
pub mod RoundTrip
use hku_utils.Base.{
  ℕ, ◌+◌, ◌-◌, ◌*◌, ◌/◌, ◌%◌, Option, none, some, Bool, true, false, ◌&&◌, ◌||◌, not, leb, ltb,
  ◌==◌, if◌then◌else◌, u64_mod,
}
use hku_utils.Base.Int.{ℤ, pos, negsuc, ◌-ℤ◌}
use hku_utils.Datetime.Boost.{Calendar}

infixl 5 ◌>>=◌
abbrev pub ◌>>=◌ {ℓ κ} : {A : Type ℓ} {B : Type κ} → Option A → (A → Option B) → Option B
none >>= f = none
some a >>= f = f a

-- `Null<unsigned long long>()`.
abbrev pub null_u64 : ℕ
null_u64 = u64_mod - 1

abbrev pub u64 : ℕ → ℕ
u64 n = n % u64_mod

module _ (c : Calendar) where
  -- `m_data`: the positive infinity, or a date with the microseconds of its day.
  pub data Datetime : Type 0 where
    null : Datetime
    at : c.Date → ℕ → Datetime

  abbrev pub of_date : c.Date → Datetime
  of_date t = at t 0

  -- The constructor, with `unsigned short` for the parts of the date.
  unfoldable pub of_ymd : ℕ → ℕ → ℕ → Option Datetime
  of_ymd year month day = do
    t ← c.make (year % 65536) (month % 65536) (day % 65536)
    some (of_date t)

  unfoldable pub of_parts : ℕ → ℕ → ℕ → ℕ → ℕ → ℕ → ℕ → ℕ → Option Datetime
  of_parts year month day hh mm sec millisec microsec =
      if leb millisec 999 && leb microsec 999
      then (do
        t ← c.make (year % 65536) (month % 65536) (day % 65536)
        let p = c.ptime t ((hh * 3600 + mm * 60 + sec) * 1_000_000 + (millisec * 1000 + microsec))
        some (at p.0 p.1))
      else none

  abbrev pub min_datetime : Option Datetime
  min_datetime = of_ymd 1400 1 1

  abbrev pub max_datetime : Option Datetime
  max_datetime = of_ymd 9999 12 31

  -- `a > b`.
  unfoldable pub later : Datetime → Datetime → Bool
  later null null = false
  later null (at t u) = true
  later (at s v) null = false
  later (at s v) (at t u) = c.before t s || (not (c.before s t) && ltb u v)

  -- The constructor from YYYYMMDD, YYYYMMDDhhmm or YYYYMMDDhhmmss.
  unfoldable pub of_number : ℕ → Option Datetime
  of_number datetime =
      if datetime == null_u64
      then some null
      else (if leb datetime 99_999_999
          then (let year = datetime / 10000 in
              of_ymd year ((datetime - year * 10000) / 100) (datetime - datetime / 100 * 100))
          else (if leb datetime 999_999_999_999
              then (let year = datetime / 100_000_000 in
                  let hh = (datetime - datetime / 10000 * 10000) / 100 in
                  let mm = datetime - datetime / 100 * 100 in
                  if ltb hh 24 && ltb mm 60
                  then of_parts year ((datetime - year * 100_000_000) / 1_000_000)
                      ((datetime - datetime / 1_000_000 * 1_000_000) / 10000) hh mm 0 0 0
                  else none)
              else (if leb datetime 99_999_999_999_999
                  then (let year = datetime / 10_000_000_000 in
                      let hh = (datetime - datetime / 1_000_000 * 1_000_000) / 10000 in
                      let mm = (datetime - datetime / 10000 * 10000) / 100 in
                      if ltb hh 24 && ltb mm 60
                      then of_parts year ((datetime - year * 10_000_000_000) / 100_000_000)
                          ((datetime - datetime / 100_000_000 * 100_000_000) / 1_000_000) hh mm
                          (datetime - datetime / 100 * 100) 0 0
                      else none)
                  else none)))

  unfoldable pub year : Datetime → Option ℕ
  year null = none
  year (at t u) = some (c.year t)

  unfoldable pub month : Datetime → Option ℕ
  month null = none
  month (at t u) = some (c.month t)

  unfoldable pub day : Datetime → Option ℕ
  day null = none
  day (at t u) = some (c.day t)

  unfoldable pub hour : Datetime → Option ℕ
  hour null = none
  hour (at t u) = some (c.hours u)

  unfoldable pub minute : Datetime → Option ℕ
  minute null = none
  minute (at t u) = some (c.minutes u)

  unfoldable pub second : Datetime → Option ℕ
  second null = none
  second (at t u) = some (c.seconds u)

  unfoldable pub millisecond : Datetime → Option ℕ
  millisecond null = none
  millisecond (at t u) = some (c.fractional_seconds u / 1000)

  unfoldable pub microsecond : Datetime → Option ℕ
  microsecond null = none
  microsecond (at t u) = some (c.fractional_seconds u % 1000)

  -- The numbers. Of a date that is not null no part throws.
  unfoldable pub ym : Datetime → ℕ
  ym null = null_u64
  ym (at t u) = u64 (c.year t * 100 + c.month t)

  unfoldable pub ymd : Datetime → ℕ
  ymd null = null_u64
  ymd (at t u) = u64 (c.year t * 10000 + c.month t * 100 + c.day t)

  unfoldable pub ymdh : Datetime → ℕ
  ymdh null = null_u64
  ymdh (at t u) = u64 (c.year t * 1_000_000 + c.month t * 10000 + c.day t * 100 + c.hours u)

  unfoldable pub ymdhm : Datetime → ℕ
  ymdhm null = null_u64
  ymdhm (at t u) = u64 (
      c.year t * 100_000_000
      + c.month t * 1_000_000
      + c.day t * 10000
      + c.hours u * 100
      + c.minutes u)

  unfoldable pub number : Datetime → ℕ
  number null = null_u64
  number (at t u) = u64 (
      c.year t * 100_000_000
      + c.month t * 1_000_000
      + c.day t * 10000
      + c.hours u * 100
      + c.minutes u)

  unfoldable pub ymdhms : Datetime → ℕ
  ymdhms null = null_u64
  ymdhms (at t u) = u64 (
      c.year t * 10_000_000_000
      + c.month t * 100_000_000
      + c.day t * 1_000_000
      + c.hours u * 10000
      + c.minutes u * 100
      + c.seconds u)

  -- Where an exception leaves the block, the least date.
  unfoldable pub or_min : Option Datetime → Option Datetime
  or_min none = min_datetime
  or_min (some d) = some d

  unfoldable pub at_most_max : Datetime → Option Datetime
  at_most_max d = do hi ← max_datetime; some (if later d hi then hi else d)

  unfoldable pub at_least_min : Datetime → Option Datetime
  at_least_min d = do lo ← min_datetime; some (if later lo d then lo else d)

  -- `Datetime(d.date() + date_duration(1))`, with the last lines of the next… functions.
  unfoldable pub day_after : Datetime → Option Datetime
  day_after null = some null
  day_after (at t u) = at_most_max (of_date (c.plus t (pos 1)))
