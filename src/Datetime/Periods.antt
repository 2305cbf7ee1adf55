-- ===== src/Datetime/Periods.antt =====
-- The functions of hikyuu/utilities/datetime/Datetime.cpp from a point in time to the bounds of its
-- day, week, month, quarter, half-year or year, and to the next and the previous of these.
use hku_utils.Base.{
  ℕ, ◌+◌, ◌-◌, Option, none, some, Bool, false, ◌&&◌, not, leb, ◌==◌, if◌then◌else◌,
}
use hku_utils.Base.Int.{ℤ, pos, negsuc, ◌-ℤ◌}
use hku_utils.Datetime.Boost.{Calendar}
use hku_utils.Datetime.{
  Datetime, null, at, of_date, of_ymd, of_parts, min_datetime, max_datetime, later, month, ◌>>=◌,
  or_min, at_most_max, at_least_min, day_after,
}

-- `year - 1`, on its way to an `unsigned short`.
abbrev pub year_before : ℕ → ℕ
year_before y = y + 65535

module _ (c : Calendar) where
  unfoldable pub start_of_day : Datetime c → Datetime c
  start_of_day null = null
  start_of_day (at t u) = of_date c t

  -- `date() != bd::date(bd::max_date_time)`.
  unfoldable pub is_last_date : c.Date → Bool
  is_last_date t = c.year t == 9999 && (c.month t == 12 && c.day t == 31)

  unfoldable pub end_of_day : Datetime c → Option (Datetime c)
  end_of_day null = some null
  end_of_day (at t u) =
      if not (is_last_date t)
      then of_parts c (c.year t) (c.month t) (c.day t) 23 59 59 0 0
      else max_datetime c

  unfoldable pub clamp_day : ℤ → ℕ
  clamp_day (negsuc n) = 0
  clamp_day (pos n) = if leb n 6 then n else 6

  unfoldable pub date_of_week : Datetime c → ℤ → Option (Datetime c)
  date_of_week null dd = some null
  date_of_week (at t u) dd =
      let result = of_date c (c.plus t (pos (clamp_day dd) -ℤ pos (c.day_of_week t))) in
      (do hi ← max_datetime c; if later c result hi then some hi else at_least_min c result)

  unfoldable pub start_of_week : Datetime c → Option (Datetime c)
  start_of_week null = some null
  start_of_week (at t u) =
      let today = c.day_of_week t in
      at_least_min c
        (of_date c (if today == 0 then c.plus t (negsuc 5) else c.plus t (pos 1 -ℤ pos today)))

  unfoldable pub end_of_week : Datetime c → Option (Datetime c)
  end_of_week null = some null
  end_of_week (at t u) =
      let today = c.day_of_week t in
      at_most_max c (of_date c (if today == 0 then t else c.plus t (pos 7 -ℤ pos today)))

  unfoldable pub start_of_month : Datetime c → Option (Datetime c)
  start_of_month null = some null
  start_of_month (at t u) = of_ymd c (c.year t) (c.month t) 1

  unfoldable pub end_of_month : Datetime c → Option (Datetime c)
  end_of_month null = some null
  end_of_month (at t u) = some (of_date c (c.end_of_month t))

  unfoldable pub start_of_quarter : Datetime c → Option (Datetime c)
  start_of_quarter null = some null
  start_of_quarter (at t u) =
      if leb (c.month t) 3
      then of_ymd c (c.year t) 1 1
      else (if leb (c.month t) 6
          then of_ymd c (c.year t) 4 1
          else (if leb (c.month t) 9
              then of_ymd c (c.year t) 7 1
              else (if leb (c.month t) 12 then of_ymd c (c.year t) 10 1 else some null)))

  unfoldable pub end_of_quarter : Datetime c → Option (Datetime c)
  end_of_quarter null = some null
  end_of_quarter (at t u) =
      if leb (c.month t) 3
      then of_ymd c (c.year t) 3 31
      else (if leb (c.month t) 6
          then of_ymd c (c.year t) 6 30
          else (if leb (c.month t) 9
              then of_ymd c (c.year t) 9 30
              else (if leb (c.month t) 12 then of_ymd c (c.year t) 12 31 else some null)))

  unfoldable pub start_of_halfyear : Datetime c → Option (Datetime c)
  start_of_halfyear null = some null
  start_of_halfyear (at t u) =
      if leb (c.month t) 6 then of_ymd c (c.year t) 1 1 else of_ymd c (c.year t) 7 1

  unfoldable pub end_of_halfyear : Datetime c → Option (Datetime c)
  end_of_halfyear null = some null
  end_of_halfyear (at t u) =
      if leb (c.month t) 6 then of_ymd c (c.year t) 6 30 else of_ymd c (c.year t) 12 31

  unfoldable pub start_of_year : Datetime c → Option (Datetime c)
  start_of_year null = some null
  start_of_year (at t u) = of_ymd c (c.year t) 1 1

  unfoldable pub end_of_year : Datetime c → Option (Datetime c)
  end_of_year null = some null
  end_of_year (at t u) = of_ymd c (c.year t) 12 31

  -- `d == Datetime::max()` and `d == Datetime::min()`.
  unfoldable pub is : Option (Datetime c) → Datetime c → Bool
  is none d = false
  is (some b) d = not (later c b d) && not (later c d b)

  unfoldable pub next_day : Datetime c → Option (Datetime c)
  next_day null = some null
  next_day (at t u) =
      if is (max_datetime c) (at t u) then some (at t u) else some (of_date c (c.plus t (pos 1)))

  unfoldable pub next_week : Datetime c → Option (Datetime c)
  next_week d = end_of_week d >>= day_after c

  unfoldable pub next_month : Datetime c → Option (Datetime c)
  next_month d = end_of_month d >>= day_after c

  unfoldable pub next_quarter : Datetime c → Option (Datetime c)
  next_quarter d = end_of_quarter d >>= day_after c

  unfoldable pub next_halfyear : Datetime c → Option (Datetime c)
  next_halfyear d = end_of_halfyear d >>= day_after c

  unfoldable pub next_year : Datetime c → Option (Datetime c)
  next_year d = end_of_year d >>= day_after c

  unfoldable pub pre_day : Datetime c → Option (Datetime c)
  pre_day null = some null
  pre_day (at t u) =
      if is (min_datetime c) (at t u) then some (at t u) else some (of_date c (c.plus t (negsuc 0)))

  unfoldable pub pre_week : Datetime c → Option (Datetime c)
  pre_week null = some null
  pre_week (at t u) = or_min c (start_of_week (of_date c (c.plus t (negsuc 6))))

  unfoldable pub pre_month : Datetime c → Option (Datetime c)
  pre_month null = some null
  pre_month (at t u) = or_min c (
      if c.month t == 1
      then of_ymd c (year_before (c.year t)) 12 1
      else of_ymd c (c.year t) (c.month t - 1) 1)

  unfoldable pub pre_quarter : Datetime c → Option (Datetime c)
  pre_quarter null = some null
  pre_quarter (at t u) = or_min c (do
    start ← start_of_quarter (at t u)
    m ← month c start
    if m == 1 then of_ymd c (year_before (c.year t)) 10 1 else of_ymd c (c.year t) (m - 3) 1)

  unfoldable pub pre_halfyear : Datetime c → Option (Datetime c)
  pre_halfyear null = some null
  pre_halfyear (at t u) = or_min c (do
    start ← start_of_halfyear (at t u)
    m ← month c start
    if leb m 6 then of_ymd c (year_before (c.year t)) 7 1 else of_ymd c (c.year t) 1 1)

  unfoldable pub pre_year : Datetime c → Option (Datetime c)
  pre_year null = some null
  pre_year (at t u) = or_min c (of_ymd c (year_before (c.year t)) 1 1)
