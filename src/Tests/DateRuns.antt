-- ===== src/Tests/DateRuns.antt =====
-- A calendar that counts days by their year, month and day, and the properties of Datetime at some dates.
use hku_utils.Base.{
  ℕ, zero, suc, ◌+◌, ◌-◌, ◌*◌, ◌/◌, ◌%◌, ◌≤◌, ◌<◌, ◌≡◌, refl, Option, none, some, true, false, ltb,
  ◌&&◌, ◌==◌, if◌then◌else◌, arith, Bool-cases, inl, inr,
}
use hku_utils.Base.Int.{ℤ, pos, negsuc}
use hku_utils.Datetime.Boost.{Calendar, valid, month_length, key, day_ticks}
use hku_utils.Datetime
use hku_utils.Datetime.{Datetime, at, later, ymd, ymdhms, number, of_number, ◌>>=◌}
use hku_utils.Datetime.Numbering.{quarters, first, start_of, end_of, next_of, pre_of, number_of}
use hku_utils.Datetime.Made.{valid-bounds, month_length-valid, next_month-valid}
use hku_utils.Datetime.Ends.{start_of-end_of}
use hku_utils.Datetime.Previous.{pre_of-first, next_of-pre_of}
use hku_utils.Datetime.RoundTrip.{of_number-number}

abbrev Triple : Type 0
Triple = ℕ × ℕ × ℕ

make_triple : ℕ → ℕ → ℕ → Option Triple
make_triple y m d = if valid y m d then some (y, m, d) else none

abbrev month_after : ℕ → ℕ → Triple
month_after y m = (if m == 12 then y + 1 else y, if m == 12 then 1 else m + 1, 1)

next_triple : Triple → Triple
next_triple (y, m, d) = if ltb d (month_length y m) then (y, m, d + 1) else month_after y m

abbrev last_of_month_before : ℕ → ℕ → Triple
last_of_month_before y m = if m == 1 then (y - 1, 12, 31) else (y, m - 1, month_length y (m - 1))

abbrev previous_triple : Triple → Triple
previous_triple (y, m, d) = if ltb 1 d then (y, m, d - 1) else last_of_month_before y m

abbrev plus_days : ℕ → Triple → Triple
plus_days zero t = t
plus_days (suc n) t = next_triple (plus_days n t)

abbrev minus_days : ℕ → Triple → Triple
minus_days zero t = t
minus_days (suc n) t = previous_triple (minus_days n t)

abbrev plus_triple : Triple → ℤ → Triple
plus_triple t (pos n) = plus_days n t
plus_triple t (negsuc n) = minus_days (suc n) t

-- Monday is 1 and Sunday is 0, as the days of the years before and the days of the months before say.
abbrev days_before : ℕ → ℕ → ℕ
days_before y zero = 0
days_before y (suc m) = days_before y m + month_length y (suc m)

abbrev day_of_week_triple : Triple → ℕ
day_of_week_triple (y, m, d) =
    (365 * (y - 1) + (y - 1) / 4 - (y - 1) / 100 + (y - 1) / 400 + days_before y (m - 1) + d) % 7

abbrev triple_key : Triple → ℕ
triple_key (y, m, d) = key y m d

make_triple_lem :
    (y m d : ℕ)
    → valid y m d ≡ true
    → (t : Triple) × (make_triple y m d ≡ some t) × (t.0 ≡ y) × (t.1 ≡ m) × (t.2 ≡ d)
unfolding make_triple
make_triple_lem y m d v = ((y, m, d), rw (v), refl, refl, refl)

make_triple_throws : (y m d : ℕ) → valid y m d ≡ false → make_triple y m d ≡ none
unfolding make_triple
make_triple_throws y m d v = rw (v)

make_triple_own : (t : Triple) → valid t.0 t.1 t.2 ≡ true → make_triple t.0 t.1 t.2 ≡ some t
unfolding make_triple
make_triple_own t v = rw (v)

not_before : (d l : ℕ) → d ≡ l → ltb d l ≡ false
not_before d l e = ground arith

next_month_own :
    (t : Triple)
    → valid t.0 t.1 t.2 ≡ true
    → t.2 ≡ month_length t.0 t.1
    → key t.0 t.1 t.2 < key 9999 12 31
    → make_triple (if t.1 == 12 then t.0 + 1 else t.0) (if t.1 == 12 then 1 else t.1 + 1) 1
      ≡ some (next_triple t)
unfolding make_triple next_triple
next_month_own (y, m, d) v e h =
    rw (next_month-valid y m d v e h, not_before d (month_length y m) e)

next_day_later_own :
    (t : Triple) → valid t.0 t.1 t.2 ≡ true → ltb (triple_key t) (triple_key (next_triple t)) ≡ true
unfolding next_triple
next_day_later_own (y, m, d) v =
    let b = valid-bounds y m d v in
    elim (Bool-cases (ltb d (month_length y m))) [
      | inl e ↦ rw (e) (ground arith)
      | inr e ↦ rw (e) (ground arith)
    ]

end_of_month_own :
    (t : Triple)
    → valid t.0 t.1 t.2 ≡ true
    → make_triple t.0 t.1 (month_length t.0 t.1) ≡ some (t.0, t.1, month_length t.0 t.1)
unfolding make_triple
end_of_month_own (y, m, d) v = rw (month_length-valid y m d v)

ptime_own :
    (t : Triple) (u : ℕ)
    → u < day_ticks
    → ◌≡◌ {A = Triple × ℕ} (plus_days (u / day_ticks) t, u % day_ticks) (t, u)
ptime_own t u h =
    let q : u / day_ticks ≡ 0 = omega arith in let r : u % day_ticks ≡ u = omega arith in rw (q, r)

abbrev triples : Calendar
triples = record {
  Date = Triple;
  make = make_triple;
  year = λ t. t.0;
  month = λ t. t.1;
  day = λ t. t.2;
  plus = plus_triple;
  end_of_month = λ t. (t.0, t.1, month_length t.0 t.1);
  day_of_week = day_of_week_triple;
  before = λ s t. ltb (triple_key s) (triple_key t);
  ptime = λ t u. (plus_days (u / day_ticks) t, u % day_ticks);
  hours = λ u. u / 3_600_000_000;
  minutes = λ u. u / 60_000_000 % 60;
  seconds = λ u. u / 1_000_000 % 60;
  fractional_seconds = λ u. u % 1_000_000;
  make_lem = make_triple_lem;
  make_throws = make_triple_throws;
  make_own = make_triple_own;
  end_of_month_lem = end_of_month_own;
  next_day_lem = next_month_own;
  before_lem = λ s t v w. refl;
  next_day_later = next_day_later_own;
  ptime_lem = ptime_own;
  hours_lem = λ u. refl;
  minutes_lem = λ u. refl;
  seconds_lem = λ u. refl;
  fractional_seconds_lem = λ u. refl;
}

-- Friday, 2024-05-17, 10:20:30.
abbrev friday : Datetime triples
friday = at (2024, 5, 17) 37_230_000_000

friday-valid : valid 2024 5 17 ≡ true
unfolding valid month_length
friday-valid = refl

third_quarter : first triples quarters 8098 ≡ some (at (2024, 7, 1) 0)
unfolding first Datetime.of_ymd make_triple valid month_length
third_quarter = refl

pre_of-first_example : pre_of triples quarters friday ≡ first triples quarters 8096
pre_of-first_example = pre_of-first triples quarters (2024, 5, 17) 37_230_000_000 friday-valid

next_of-pre_of_example :
    (next_of triples quarters friday >>= pre_of triples quarters) ≡ start_of triples quarters friday
next_of-pre_of_example =
    next_of-pre_of triples quarters (2024, 5, 17) 37_230_000_000 friday-valid (omega arith)

start_of-end_of_example :
    (s e : Triple) × (start_of triples quarters friday ≡ some (at s 0))
    × (end_of triples quarters friday ≡ some (at e 0))
    × (triple_key s ≤ 20_240_517)
    × (later triples (at s 0) friday ≡ false)
    × (20_240_517 ≤ triple_key e)
    × (later triples friday (at e 0) ≡ ((20_240_517 == triple_key e) && ltb 0 37_230_000_000))
    × (number_of triples quarters s ≡ 8097)
    × (number_of triples quarters e ≡ 8097)
    × (s.2 ≡ 1)
    × (e.2 ≡ month_length e.0 e.1)
start_of-end_of_example = start_of-end_of triples quarters (2024, 5, 17) 37_230_000_000 friday-valid

of_number-number_example :
    (of_number triples (ymdhms triples friday) ≡ some (at (2024, 5, 17) 37_230_000_000))
    × (of_number triples (number triples friday) ≡ some (at (2024, 5, 17) 37_200_000_000))
    × (of_number triples (ymd triples friday) ≡ some (at (2024, 5, 17) 0))
of_number-number_example =
    of_number-number triples (2024, 5, 17) 37_230_000_000 friday-valid (omega arith)
