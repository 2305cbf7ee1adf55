-- ===== src/TimeDelta.antt =====
-- Durations: hikyuu/utilities/datetime/TimeDelta.h and TimeDelta.cpp. A TimeDelta is its ticks, a whole
-- number of microseconds. An operation that throws returns `none`.
pub mod Values
pub mod Parts
use hku_utils.Base.{
  ℕ, ◌+◌, ◌-◌, ◌*◌, ◌/◌, ◌%◌, Option, none, some, Bool, true, false, ◌&&◌, if◌then◌else◌, ◌≡◌,
}
use hku_utils.Base.Int.{
  ℤ, pos, negsuc, ◌+ℤ◌, ◌-ℤ◌, ◌*ℤ◌, leb_ℤ, quot, rem, is_negative, is_zero, abs, neg,
}

abbrev pub one_day_ticks : ℕ
one_day_ticks = 24 * 60 * 60 * 1_000_000

-- `m_max_micro_seconds` and `m_min_micro_seconds`.
abbrev pub max_ticks : ℤ
max_ticks = pos (100_000_000 * 24 * 60 * 60 * 1_000_000 - 1)

abbrev pub min_ticks : ℤ
min_ticks = neg (pos (99_999_999 * 24 * 60 * 60 * 1_000_000))

-- `lo <= x && x <= hi`, as the range checks write it.
abbrev pub within : ℤ → ℤ → ℤ → Bool
within lo hi x = leb_ℤ x hi && leb_ℤ lo x

-- `HKU_CHECK`.
abbrev pub check {ℓ} : {A : Type ℓ} → Bool → Option A → Option A
check true x = x
check false x = none

-- `fromTicks`, and the constructor from a `bt::time_duration`.
unfoldable pub from_ticks : ℤ → Option ℤ
from_ticks ticks = check (within min_ticks max_ticks ticks) (some ticks)

-- `total` of the constructor.
unfoldable pub total_of : ℤ → ℤ → ℤ → ℤ → ℤ → ℤ → ℤ
total_of days hours minutes seconds milliseconds microseconds =
    ((((days *ℤ 24 +ℤ hours) *ℤ 60 +ℤ minutes) *ℤ 60 +ℤ seconds) *ℤ 1000 +ℤ milliseconds) *ℤ 1000
    +ℤ microseconds

abbrev pub bounded : ℕ → ℤ → Bool
bounded n x = within (neg (pos n)) (pos n) x

-- The range checks of the constructor's arguments.
abbrev pub args_fit : ℤ → ℤ → ℤ → ℤ → ℤ → ℤ → Bool
args_fit days hours minutes seconds milliseconds microseconds =
    bounded 99_999_999 days
    && (bounded 100_000 hours
        && (bounded 100_000 minutes
            && (bounded 8_639_900 seconds
                && (bounded 86_399_000_000 milliseconds && bounded 86_399_000_000 microseconds))))

-- The constructor from days, hours and so on.
unfoldable pub of_parts : ℤ → ℤ → ℤ → ℤ → ℤ → ℤ → Option ℤ
of_parts days hours minutes seconds milliseconds microseconds =
    let total = total_of days hours minutes seconds milliseconds microseconds in
    check (args_fit days hours minutes seconds milliseconds microseconds)
      (check (within min_ticks max_ticks total) (some total))

-- The calls of `bt::time_duration` that the parts make, and what Boost documents of them: the hours,
-- minutes and seconds of a duration that is not negative.
pub record Duration : Type 0 where
  pub hours : ℤ → ℤ
  pub minutes : ℤ → ℤ
  pub seconds : ℤ → ℤ
  pub hours_lem : (t : ℕ) → hours (pos t) ≡ pos (t / 3_600_000_000)
  pub minutes_lem : (t : ℕ) → minutes (pos t) ≡ pos (t / 60_000_000 % 60)
  pub seconds_lem : (t : ℕ) → seconds (pos t) ≡ pos (t / 1_000_000 % 60)

-- `std::abs((ticks() / m_one_day_ticks - 1) * m_one_day_ticks) + ticks()`.
unfoldable pub pos_ticks : ℤ → ℤ
pos_ticks t = abs ((quot t one_day_ticks -ℤ pos 1) *ℤ one_day_ticks) +ℤ t

abbrev pub whole_days : ℤ → Bool
whole_days t = is_zero (rem t one_day_ticks)

unfoldable pub microseconds : ℤ → ℤ
microseconds t =
    if is_negative t
    then (if whole_days t
        then pos 0
        else (let micro = rem t 1000 in if is_zero micro then micro else pos 1000 +ℤ micro))
    else abs (rem t 1000)

unfoldable pub milliseconds : ℤ → ℤ
milliseconds t =
    if is_negative t
    then (if whole_days t
        then pos 0
        else (let milli = rem (pos_ticks t) 1_000_000 in
            if is_zero milli then pos 0 else quot (milli -ℤ microseconds t) 1000))
    else quot (rem (abs t) 1_000_000 -ℤ microseconds t) 1000

module _ (d : Duration) where
  unfoldable pub days : ℤ → ℤ
  days t =
      if is_negative t
      then (if whole_days t then quot t one_day_ticks else quot t one_day_ticks -ℤ pos 1)
      else abs (quot (d.hours t) 24)

  unfoldable pub hours : ℤ → ℤ
  hours t =
      if is_negative t
      then (if whole_days t then pos 0 else d.hours (pos_ticks t))
      else rem (abs (d.hours t)) 24

  unfoldable pub minutes : ℤ → ℤ
  minutes t =
      if is_negative t
      then (if whole_days t then pos 0 else d.minutes (pos_ticks t))
      else abs (d.minutes t)

  unfoldable pub seconds : ℤ → ℤ
  seconds t =
      if is_negative t
      then (if whole_days t then pos 0 else d.seconds (pos_ticks t))
      else abs (d.seconds t)

-- The operators. Each makes its result by `fromTicks` or by the constructor from a duration, which check
-- the range alike. The remainder is by a number that is not 0.
unfoldable pub add : ℤ → ℤ → Option ℤ
unfolding from_ticks
add t td = from_ticks (td +ℤ t)

unfoldable pub sub : ℤ → ℤ → Option ℤ
unfolding from_ticks
sub t td = from_ticks (t -ℤ td)

unfoldable pub negate : ℤ → Option ℤ
unfolding from_ticks
negate t = from_ticks (neg t)

unfoldable pub abs_delta : ℤ → Option ℤ
unfolding from_ticks
abs_delta t = from_ticks (abs t)

-- `Hours`, `Minutes`, `Seconds` and `Milliseconds` are one function of the ticks of their unit.
unfoldable pub in_unit : ℕ → ℤ → Option ℤ
unfolding from_ticks
in_unit unit n =
    check (within (quot min_ticks unit) (quot max_ticks unit) n) (from_ticks (n *ℤ unit))

abbrev pub hours_delta : ℤ → Option ℤ
hours_delta = in_unit 3_600_000_000

abbrev pub minutes_delta : ℤ → Option ℤ
minutes_delta = in_unit 60_000_000

abbrev pub seconds_delta : ℤ → Option ℤ
seconds_delta = in_unit 1_000_000

abbrev pub milliseconds_delta : ℤ → Option ℤ
milliseconds_delta = in_unit 1000
