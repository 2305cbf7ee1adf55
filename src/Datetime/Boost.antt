-- ===== src/Datetime/Boost.antt =====
-- What hikyuu/utilities/datetime/Datetime.cpp calls of Boost's gregorian calendar and posix time, with
-- what Boost documents of it.
use hku_utils.Base.{
  ℕ, ◌+◌, ◌*◌, ◌/◌, ◌%◌, ◌<◌, ◌≡◌, Option, some, Bool, true, ◌&&◌, ◌||◌, not, leb, ltb, ◌==◌,
  if◌then◌else◌, false, none,
}
use hku_utils.Base.Int.{ℤ, pos}

abbrev pub is_leap : ℕ → Bool
is_leap y = y % 4 == 0 && (not (y % 100 == 0) || y % 400 == 0)

unfoldable pub month_length : ℕ → ℕ → ℕ
month_length y m =
    if m == 2
    then (if is_leap y then 29 else 28)
    else (if m == 4 || (m == 6 || (m == 9 || m == 11)) then 30 else 31)

-- The dates that a `date` can be made of.
unfoldable pub valid : ℕ → ℕ → ℕ → Bool
unfolding month_length
valid y m d =
    (leb 1400 y && leb y 9999) && ((leb 1 m && leb m 12) && (leb 1 d && leb d (month_length y m)))

-- The order of dates goes by year, month and day.
abbrev pub key : ℕ → ℕ → ℕ → ℕ
key y m d = y * 10000 + m * 100 + d

abbrev pub day_ticks : ℕ
day_ticks = 24 * 3600 * 1_000_000

pub record Calendar : Type 1 where
  pub Date : Type 0
  -- `date(y, m, d)`; `none` is its exception.
  pub make : ℕ → ℕ → ℕ → Option Date
  pub year : Date → ℕ
  pub month : Date → ℕ
  pub day : Date → ℕ
  -- `date + date_duration(n)`.
  pub plus : Date → ℤ → Date
  pub end_of_month : Date → Date
  pub day_of_week : Date → ℕ
  -- `a < b`.
  pub before : Date → Date → Bool
  -- `ptime(date, duration)`, with a duration in microseconds: the date and the time of day that come of it.
  pub ptime : Date → ℕ → Date × ℕ
  -- The parts of a time of day.
  pub hours : ℕ → ℕ
  pub minutes : ℕ → ℕ
  pub seconds : ℕ → ℕ
  pub fractional_seconds : ℕ → ℕ
  pub make_lem :
      (y m d : ℕ)
      → valid y m d ≡ true
      → (t : Date) × (make y m d ≡ some t) × (year t ≡ y) × (month t ≡ m) × (day t ≡ d)
  pub make_throws : (y m d : ℕ) → valid y m d ≡ false → make y m d ≡ none
  pub make_own :
      (t : Date)
      → valid (year t) (month t) (day t) ≡ true
      → make (year t) (month t) (day t) ≡ some t
  pub end_of_month_lem :
      (t : Date)
      → valid (year t) (month t) (day t) ≡ true
      → make (year t) (month t) (month_length (year t) (month t)) ≡ some (end_of_month t)
  pub next_day_lem :
      (t : Date)
      → valid (year t) (month t) (day t) ≡ true
      → day t ≡ month_length (year t) (month t)
      → key (year t) (month t) (day t) < key 9999 12 31
      → make
          (if month t == 12 then year t + 1 else year t)
          (if month t == 12 then 1 else month t + 1)
          1
        ≡ some (plus t (pos 1))
  pub before_lem :
      (s t : Date)
      → valid (year s) (month s) (day s) ≡ true
      → valid (year t) (month t) (day t) ≡ true
      → before s t ≡ ltb (key (year s) (month s) (day s)) (key (year t) (month t) (day t))
  pub next_day_later :
      (t : Date) → valid (year t) (month t) (day t) ≡ true → before t (plus t (pos 1)) ≡ true
  pub ptime_lem : (t : Date) (ticks : ℕ) → ticks < day_ticks → ptime t ticks ≡ (t, ticks)
  pub hours_lem : (ticks : ℕ) → hours ticks ≡ ticks / 3_600_000_000
  pub minutes_lem : (ticks : ℕ) → minutes ticks ≡ ticks / 60_000_000 % 60
  pub seconds_lem : (ticks : ℕ) → seconds ticks ≡ ticks / 1_000_000 % 60
  pub fractional_seconds_lem : (ticks : ℕ) → fractional_seconds ticks ≡ ticks % 1_000_000
