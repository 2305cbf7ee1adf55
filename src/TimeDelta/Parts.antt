-- ===== src/TimeDelta/Parts.antt =====
-- The parts of a duration, hikyuu/utilities/datetime/TimeDelta.cpp: they are in their ranges, and they
-- add up to the duration.
use hku_utils.Base.{ℕ, suc, ◌/◌, ◌%◌, ◌<◌, true, false, ◌≡◌, refl, inl, inr, arith, Bool-cases}
use hku_utils.Base.Int.{ℤ, pos, negsuc, ◌-ℤ◌, ◌≤ℤ◌, quot, rem, is_zero}
use hku_utils.TimeDelta.{
  Duration, one_day_ticks, days, hours, minutes, seconds, milliseconds, microseconds, total_of,
}
use hku_utils.TimeDelta.Values.{
  total_lem, days_pos, hours_pos, minutes_pos, seconds_pos, microseconds_pos, milliseconds_pos,
  days_whole, rest_whole, above, days_neg, hours_neg, minutes_neg, seconds_neg, microseconds_neg,
  milliseconds_neg, above_bound, whole_balance, above_balance,
}

-- Between 0 and a bound.
abbrev pub UpTo : ℕ → ℤ → Type 0
UpTo n x = (pos 0 ≤ℤ x) × (x ≤ℤ pos n)

up_to : (n k : ℕ) → k < suc n → UpTo n (pos k)
up_to n k h = (omega arith, omega arith)

-- The parts other than the days, as numbers in their ranges.
pub record Parts (d : Duration) (t : ℤ) : Type 0 where
  pub h : ℕ
  pub min : ℕ
  pub sec : ℕ
  pub milli : ℕ
  pub micro : ℕ
  pub hours_eq : hours d t ≡ pos h
  pub minutes_eq : minutes d t ≡ pos min
  pub seconds_eq : seconds d t ≡ pos sec
  pub milliseconds_eq : milliseconds t ≡ pos milli
  pub microseconds_eq : microseconds t ≡ pos micro
  pub hours_bound : h < 24
  pub minutes_bound : min < 60
  pub seconds_bound : sec < 60
  pub milliseconds_bound : milli < 1000
  pub microseconds_bound : micro < 1000
  pub adds_up : total_of (days d t) (pos h) (pos min) (pos sec) (pos milli) (pos micro) ≡ t

module _ (d : Duration) where
  Parts-pos : (n : ℕ) → Parts d (pos n)
  Parts-pos n = record {
    h = n / 3_600_000_000 % 24;
    min = n / 60_000_000 % 60;
    sec = n / 1_000_000 % 60;
    milli = n % 1_000_000 / 1000;
    micro = n % 1000;
    hours_eq = hours_pos d n;
    minutes_eq = minutes_pos d n;
    seconds_eq = seconds_pos d n;
    milliseconds_eq = milliseconds_pos n;
    microseconds_eq = microseconds_pos n;
    hours_bound = omega arith;
    minutes_bound = omega arith;
    seconds_bound = omega arith;
    milliseconds_bound = omega arith;
    microseconds_bound = omega arith;
    adds_up = rw (days_pos d n) (
        total_lem (pos (n / 3_600_000_000 / 24)) (n / 3_600_000_000 % 24) (n / 60_000_000 % 60)
          (n / 1_000_000 % 60) (n % 1_000_000 / 1000) (n % 1000) (pos n) (omega arith));
  }

  Parts-whole : (n : ℕ) → is_zero (rem (negsuc n) one_day_ticks) ≡ true → Parts d (negsuc n)
  Parts-whole n w =
      let (h, m, s, ms, us) = rest_whole d n w in
      record {
        h = 0;
        min = 0;
        sec = 0;
        milli = 0;
        micro = 0;
        hours_eq = h;
        minutes_eq = m;
        seconds_eq = s;
        milliseconds_eq = ms;
        microseconds_eq = us;
        hours_bound = omega arith;
        minutes_bound = omega arith;
        seconds_bound = omega arith;
        milliseconds_bound = omega arith;
        microseconds_bound = omega arith;
        adds_up =
            rw (days_whole d n w)
              (total_lem (quot (negsuc n) one_day_ticks) 0 0 0 0 0 (negsuc n) (whole_balance n w));
      }

  Parts-neg : (n : ℕ) → is_zero (rem (negsuc n) one_day_ticks) ≡ false → Parts d (negsuc n)
  Parts-neg n w = record {
    h = above d n w / 3_600_000_000;
    min = above d n w / 60_000_000 % 60;
    sec = above d n w / 1_000_000 % 60;
    milli = above d n w % 1_000_000 / 1000;
    micro = above d n w % 1000;
    hours_eq = hours_neg d n w;
    minutes_eq = minutes_neg d n w;
    seconds_eq = seconds_neg d n w;
    milliseconds_eq = milliseconds_neg d n w;
    microseconds_eq = microseconds_neg d n w;
    hours_bound = above_bound n w;
    minutes_bound = omega arith;
    seconds_bound = omega arith;
    milliseconds_bound = omega arith;
    microseconds_bound = omega arith;
    adds_up = rw (days_neg d n w) (
        total_lem (quot (negsuc n) one_day_ticks -ℤ pos 1) (above d n w / 3_600_000_000)
          (above d n w / 60_000_000 % 60) (above d n w / 1_000_000 % 60)
          (above d n w % 1_000_000 / 1000) (above d n w % 1000) (negsuc n)
          (above_balance n (above d n w) refl w));
  }

  pub Parts-lem : (t : ℤ) → Parts d t
  Parts-lem (pos n) = Parts-pos n
  Parts-lem (negsuc n) = elim (Bool-cases (is_zero (rem (negsuc n) one_day_ticks))) [
    | inl w ↦ Parts-whole n w
    | inr w ↦ Parts-neg n w
  ]

  -- Of every duration, negative ones included, the hours are in [0, 23], the minutes and seconds in
  -- [0, 59], the milliseconds and microseconds in [0, 999], and days, hours, minutes, seconds,
  -- milliseconds and microseconds add up to the duration.
  pub parts_normal :
      (t : ℤ)
      → UpTo 23 (hours d t)
        × UpTo 59 (minutes d t)
        × UpTo 59 (seconds d t)
        × UpTo 999 (milliseconds t)
        × UpTo 999 (microseconds t)
        × (total_of
              (days d t)
              (hours d t)
              (minutes d t)
              (seconds d t)
              (milliseconds t)
              (microseconds t)
            ≡ t)
  parts_normal t =
      let p = Parts-lem t in
      rw (p.hours_eq, p.minutes_eq, p.seconds_eq, p.milliseconds_eq, p.microseconds_eq)
        (
          up_to 23 p.h p.hours_bound,
          up_to 59 p.min p.minutes_bound,
          up_to 59 p.sec p.seconds_bound,
          up_to 999 p.milli p.milliseconds_bound,
          up_to 999 p.micro p.microseconds_bound,
          p.adds_up,
        )
