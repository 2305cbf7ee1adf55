-- ===== src/Datetime/RoundTrip.antt =====
-- The numbers of a point in time, of hikyuu/utilities/datetime/Datetime.cpp, and the constructor from one.
use hku_utils.Base.{ℕ, ◌+◌, ◌*◌, ◌/◌, ◌%◌, ◌≤◌, ◌<◌, ◌≡◌, ap, ◌∙◌, some, arith}
use hku_utils.Datetime.Boost.{Calendar, day_ticks}
use hku_utils.Datetime.{at, of_ymd, of_parts, of_number, ymd, ymdhms, number, u64}
use hku_utils.Datetime.Made.{IsDate, valid-bounds, of_ymd-make, short}

-- The fields of a time of day.
pub day_fields :
    (u : ℕ)
    → u < day_ticks
    → (u / 3_600_000_000 < 24) × (u / 60_000_000 % 60 < 60) × (u / 1_000_000 % 60 < 60)
day_fields u h = (omega arith, omega arith, omega arith)

module _ (c : Calendar) where
  of_number-seconds :
      (y m d hh mm ss : ℕ)
      → 1400 ≤ y
      → y ≤ 9999
      → m ≤ 12
      → d ≤ 31
      → hh < 24
      → mm < 60
      → ss < 60
      → of_number c
          (u64 (y * 10_000_000_000 + m * 100_000_000 + d * 1_000_000 + hh * 10000 + mm * 100 + ss))
        ≡ of_parts c y m d hh mm ss 0 0
  unfolding of_number
  of_number-seconds y m d hh mm ss h₁ h₂ h₃ h₄ h₅ h₆ h₇ = ground arith

  of_number-minutes :
      (y m d hh mm : ℕ)
      → 1400 ≤ y
      → y ≤ 9999
      → m ≤ 12
      → d ≤ 31
      → hh < 24
      → mm < 60
      → of_number c (u64 (y * 100_000_000 + m * 1_000_000 + d * 10000 + hh * 100 + mm))
        ≡ of_parts c y m d hh mm 0 0 0
  unfolding of_number
  of_number-minutes y m d hh mm h₁ h₂ h₃ h₄ h₅ h₆ = ground arith

  of_number-days :
      (y m d : ℕ)
      → 1400 ≤ y
      → y ≤ 9999
      → m ≤ 12
      → d ≤ 31
      → of_number c (u64 (y * 10000 + m * 100 + d)) ≡ of_ymd c y m d
  unfolding of_number
  of_number-days y m d h₁ h₂ h₃ h₄ = ground arith

  of_parts-own :
      (t : c.Date) (hh mm ss : ℕ)
      → IsDate c t
      → hh < 24
      → mm < 60
      → ss < 60
      → of_parts c (c.year t) (c.month t) (c.day t) hh mm ss 0 0
        ≡ some (at t ((hh * 3600 + mm * 60 + ss) * 1_000_000))
  unfolding of_parts
  of_parts-own t hh mm ss v h₁ h₂ h₃ =
      let b = valid-bounds (c.year t) (c.month t) (c.day t) v in
      let ticks : (hh * 3600 + mm * 60 + ss) * 1_000_000 + (0 * 1000 + 0)
          ≡ (hh * 3600 + mm * 60 + ss) * 1_000_000 =
        omega arith in
      rw (
        short (c.year t) b.1,
        short (c.month t) (omega arith),
        short (c.day t) (omega arith),
        c.make_own t v,
        ticks,
        c.ptime_lem t ((hh * 3600 + mm * 60 + ss) * 1_000_000) (omega arith),
      )

  -- The numbers of a point in time, read back, give its second, its minute and its day.
  pub of_number-number :
      (t : c.Date) (u : ℕ)
      → IsDate c t
      → u < day_ticks
      → (of_number c (ymdhms c (at t u)) ≡ some (at t (u / 1_000_000 * 1_000_000)))
        × (of_number c (number c (at t u)) ≡ some (at t (u / 60_000_000 * 60_000_000)))
        × (of_number c (ymd c (at t u)) ≡ some (at t 0))
  unfolding ymdhms number ymd
  of_number-number t u v h =
      let b = valid-bounds (c.year t) (c.month t) (c.day t) v in
      let f = day_fields u h in
      let hh = u / 3_600_000_000 in
      let mm = u / 60_000_000 % 60 in
      let ss = u / 1_000_000 % 60 in
      (
        rw
            (
              c.hours_lem u,
              c.minutes_lem u,
              c.seconds_lem u,
              of_number-seconds (c.year t) (c.month t) (c.day t) hh mm ss b.0 b.1 b.3 b.5 f.0 f.1
                  f.2,
              of_parts-own t hh mm ss v f.0 f.1 f.2,
            )
            (ap (λ k. some (at t k)) (omega arith)),
        rw
            (
              c.hours_lem u,
              c.minutes_lem u,
              of_number-minutes (c.year t) (c.month t) (c.day t) hh mm b.0 b.1 b.3 b.5 f.0 f.1,
              of_parts-own t hh mm 0 v f.0 f.1 (omega arith),
            )
            (ap (λ k. some (at t k)) (omega arith)),
        of_number-days (c.year t) (c.month t) (c.day t) b.0 b.1 b.3 b.5
            ∙ of_ymd-make c (c.year t) (c.month t) (c.day t) t v (c.make_own t v),
      )
