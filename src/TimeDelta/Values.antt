-- ===== src/TimeDelta/Values.antt =====
-- The value of each part of a duration: hikyuu/utilities/datetime/TimeDelta.cpp.
use hku_utils.Base.{
  ℕ, suc, ◌+◌, ◌-◌, ◌*◌, ◌/◌, ◌%◌, ◌<◌, true, false, ◌≡◌, refl, arith, if◌then◌else◌,
}
use hku_utils.Base.Int.{
  ℤ, pos, negsuc, ◌+ℤ◌, ◌-ℤ◌, ◌*ℤ◌, quot, rem, is_zero, pos_part, neg_part, +ℤ_parts, *ℤ_parts,
  -ℤ_parts, eq_of_parts,
}
use hku_utils.TimeDelta.{
  Duration, one_day_ticks, pos_ticks, days, hours, minutes, seconds, milliseconds, microseconds,
  total_of,
}

pos_ticks_neg :
    (n : ℕ)
    → is_zero (rem (negsuc n) one_day_ticks) ≡ false
    → pos_ticks (negsuc n) ≡ pos (one_day_ticks - suc n % one_day_ticks)
unfolding pos_ticks quot rem ◌+ℤ◌ ◌-ℤ◌ ◌*ℤ◌
pos_ticks_neg n h = ground arith

-- A sum of parts whose weighted parts balance is the duration.
module _ (a : ℤ) (h m s ms us : ℕ) (t : ℤ) where
  abbrev in_hours : ℤ
  in_hours = a *ℤ 24 +ℤ pos h

  abbrev in_minutes : ℤ
  in_minutes = in_hours *ℤ 60 +ℤ pos m

  abbrev in_seconds : ℤ
  in_seconds = in_minutes *ℤ 60 +ℤ pos s

  abbrev in_millis : ℤ
  in_millis = in_seconds *ℤ 1000 +ℤ pos ms

  total_parts :
      pos_part (in_millis *ℤ 1000 +ℤ pos us) + neg_part a * one_day_ticks
      ≡ neg_part (in_millis *ℤ 1000 +ℤ pos us)
        + pos_part a * one_day_ticks
        + h * 3_600_000_000
        + m * 60_000_000
        + s * 1_000_000
        + ms * 1000
        + us
  total_parts =
      let p1 = *ℤ_parts a 24 in
      let q1 = +ℤ_parts (a *ℤ 24) (pos h) in
      let p2 = *ℤ_parts in_hours 60 in
      let q2 = +ℤ_parts (in_hours *ℤ 60) (pos m) in
      let p3 = *ℤ_parts in_minutes 60 in
      let q3 = +ℤ_parts (in_minutes *ℤ 60) (pos s) in
      let p4 = *ℤ_parts in_seconds 1000 in
      let q4 = +ℤ_parts (in_seconds *ℤ 1000) (pos ms) in
      let p5 = *ℤ_parts in_millis 1000 in
      let q5 = +ℤ_parts (in_millis *ℤ 1000) (pos us) in omega arith

  pub total_lem :
      pos_part a * one_day_ticks
          + h * 3_600_000_000
          + m * 60_000_000
          + s * 1_000_000
          + ms * 1000
          + us
          + neg_part t
        ≡ neg_part a * one_day_ticks + pos_part t
      → total_of a (pos h) (pos m) (pos s) (pos ms) (pos us) ≡ t
  unfolding total_of
  total_lem e = let p = total_parts in eq_of_parts (in_millis *ℤ 1000 +ℤ pos us) t (omega arith)

-- Of a duration that is not negative.
module _ (d : Duration) (n : ℕ) where
  pub days_pos : days d (pos n) ≡ pos (n / 3_600_000_000 / 24)
  unfolding days quot
  days_pos = rw (d.hours_lem n) (ground arith)

  pub hours_pos : hours d (pos n) ≡ pos (n / 3_600_000_000 % 24)
  unfolding hours rem
  hours_pos = rw (d.hours_lem n) (ground arith)

  pub minutes_pos : minutes d (pos n) ≡ pos (n / 60_000_000 % 60)
  unfolding minutes
  minutes_pos = rw (d.minutes_lem n) refl

  pub seconds_pos : seconds d (pos n) ≡ pos (n / 1_000_000 % 60)
  unfolding seconds
  seconds_pos = rw (d.seconds_lem n) refl

pub microseconds_pos : (n : ℕ) → microseconds (pos n) ≡ pos (n % 1000)
unfolding microseconds rem
microseconds_pos n = ground arith

milli_of :
    (p : ℕ)
    → (if is_zero (rem (pos p) 1_000_000)
        then pos 0
        else quot (rem (pos p) 1_000_000 -ℤ pos (p % 1000)) 1000)
      ≡ pos (p % 1_000_000 / 1000)
unfolding rem quot ◌-ℤ◌
milli_of p = ground arith

pub milliseconds_pos : (n : ℕ) → milliseconds (pos n) ≡ pos (n % 1_000_000 / 1000)
unfolding milliseconds rem quot ◌-ℤ◌
milliseconds_pos n = rw (microseconds_pos n) (ground arith)

-- Of a negative duration that is a whole number of days.
module _ (d : Duration) (n : ℕ) (w : is_zero (rem (negsuc n) one_day_ticks) ≡ true) where
  pub days_whole : days d (negsuc n) ≡ quot (negsuc n) one_day_ticks
  unfolding days
  days_whole = rw w refl

  pub rest_whole :
      (hours d (negsuc n) ≡ pos 0)
      × (minutes d (negsuc n) ≡ pos 0)
      × (seconds d (negsuc n) ≡ pos 0)
      × (milliseconds (negsuc n) ≡ pos 0)
      × (microseconds (negsuc n) ≡ pos 0)
  unfolding hours minutes seconds milliseconds microseconds
  rest_whole = (rw w refl, rw w refl, rw w refl, rw w refl, rw w refl)

-- Of any other negative duration: with `p` what is missing to the next lower whole day.
module _ (d : Duration) (n : ℕ) (w : is_zero (rem (negsuc n) one_day_ticks) ≡ false) where
  abbrev pub above : ℕ
  above = one_day_ticks - suc n % one_day_ticks

  pub days_neg : days d (negsuc n) ≡ quot (negsuc n) one_day_ticks -ℤ pos 1
  unfolding days
  days_neg = rw w refl

  pub hours_neg : hours d (negsuc n) ≡ pos (above / 3_600_000_000)
  unfolding hours
  hours_neg = rw (w, pos_ticks_neg n w) (d.hours_lem above)

  pub minutes_neg : minutes d (negsuc n) ≡ pos (above / 60_000_000 % 60)
  unfolding minutes
  minutes_neg = rw (w, pos_ticks_neg n w) (d.minutes_lem above)

  pub seconds_neg : seconds d (negsuc n) ≡ pos (above / 1_000_000 % 60)
  unfolding seconds
  seconds_neg = rw (w, pos_ticks_neg n w) (d.seconds_lem above)

  pub microseconds_neg : microseconds (negsuc n) ≡ pos (above % 1000)
  unfolding microseconds rem ◌+ℤ◌
  microseconds_neg = ground arith

  pub milliseconds_neg : milliseconds (negsuc n) ≡ pos (above % 1_000_000 / 1000)
  unfolding milliseconds
  milliseconds_neg = rw (w, pos_ticks_neg n w, microseconds_neg) (milli_of above)

quot_parts :
    (n : ℕ)
    → pos_part (quot (negsuc n) one_day_ticks) + suc n / one_day_ticks
      ≡ neg_part (quot (negsuc n) one_day_ticks)
unfolding quot
quot_parts n = ground arith

whole_rem : (n : ℕ) → is_zero (rem (negsuc n) one_day_ticks) ≡ true → suc n % one_day_ticks ≡ 0
unfolding rem
whole_rem n h = ground arith

pub above_bound :
    (n : ℕ)
    → is_zero (rem (negsuc n) one_day_ticks) ≡ false
    → (one_day_ticks - suc n % one_day_ticks) / 3_600_000_000 < 24
unfolding rem
above_bound n h = ground arith

pub whole_balance :
    (n : ℕ)
    → is_zero (rem (negsuc n) one_day_ticks) ≡ true
    → pos_part (quot (negsuc n) one_day_ticks) * one_day_ticks
        + 0 * 3_600_000_000
        + 0 * 60_000_000
        + 0 * 1_000_000
        + 0 * 1000
        + 0
        + suc n
      ≡ neg_part (quot (negsuc n) one_day_ticks) * one_day_ticks + 0
whole_balance n h = let q = quot_parts n in let r = whole_rem n h in omega arith

pub above_balance :
    (n k : ℕ)
    → k ≡ one_day_ticks - suc n % one_day_ticks
    → is_zero (rem (negsuc n) one_day_ticks) ≡ false
    → pos_part (quot (negsuc n) one_day_ticks -ℤ pos 1) * one_day_ticks
        + k / 3_600_000_000 * 3_600_000_000
        + k / 60_000_000 % 60 * 60_000_000
        + k / 1_000_000 % 60 * 1_000_000
        + k % 1_000_000 / 1000 * 1000
        + k % 1000
        + suc n
      ≡ neg_part (quot (negsuc n) one_day_ticks -ℤ pos 1) * one_day_ticks + 0
above_balance n k e h =
    let q = quot_parts n in let p = -ℤ_parts (quot (negsuc n) one_day_ticks) (pos 1) in omega arith
