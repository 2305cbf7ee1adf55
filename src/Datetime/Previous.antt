-- ===== src/Datetime/Previous.antt =====
-- The previous months, quarters, half-years and years of hikyuu/utilities/datetime/Datetime.cpp, by their
-- numbers.
use hku_utils.Base.{
  ℕ, suc, ◌+◌, ◌-◌, ◌*◌, ◌/◌, ◌%◌, ◌≤◌, ◌<◌, ◌≡◌, refl, sym, ap, ◌∙◌, Option, none, some, false,
  ◌==◌, if◌then◌else◌, dec_lt, arith, inl, inr, Bool-cases,
}
use hku_utils.Datetime.Boost.{Calendar, valid, month_length}
use hku_utils.Datetime.{Datetime, at, of_date, of_ymd, or_min, month, ◌>>=◌}
use hku_utils.Datetime.Made.{IsDate, valid-bounds, valid-early, of_ymd-Made}
use hku_utils.Datetime.Periods.{pre_month, pre_quarter, pre_halfyear, pre_year, year_before}
use hku_utils.Datetime.Numbering.{
  start_month-bounds, Period, months, quarters, halfyears, years, per_year, width, index,
  start_month, halfyear_cases, first, start_of, next_of, pre_of, number_of, start_month_of,
  start_of-first, first-Made,
}
use hku_utils.Datetime.Months.{years_start}
use hku_utils.Datetime.Ends.{next_of-first}

before_short : (y : ℕ) → 1400 ≤ y → y ≤ 9999 → year_before y % 65536 ≡ (y - 1) % 65536
before_short y h₁ h₂ = omega arith

before_1400-valid : (y m : ℕ) → y < 1400 → valid (y % 65536) (m % 65536) (1 % 65536) ≡ false
unfolding valid month_length
before_1400-valid y m h = ground arith

before-year :
    (p : Period) (y m : ℕ)
    → 1400 ≤ y
    → 1 ≤ m
    → m ≤ 12
    → (index p y m - 1) / per_year p ≡ (if start_month p m == 1 then y - 1 else y)
before-year months y m h₀ h₁ h₂ = ground arith
before-year quarters y m h₀ h₁ h₂ = ground arith
before-year halfyears y m h₀ h₁ h₂ = ground arith
before-year years y m h₀ h₁ h₂ = ground arith

before-month :
    (p : Period) (y m : ℕ)
    → 1400 ≤ y
    → 1 ≤ m
    → m ≤ 12
    → (index p y m - 1) % per_year p * width p + 1
      ≡ (if start_month p m == 1 then 13 - width p else start_month p m - width p)
before-month months y m h₀ h₁ h₂ = ground arith
before-month quarters y m h₀ h₁ h₂ = ground arith
before-month halfyears y m h₀ h₁ h₂ = ground arith
before-month years y m h₀ h₁ h₂ = ground arith

months_start : (m : ℕ) → 1 ≤ m → start_month months m ≡ m
months_start m h = omega arith

before_suc : (k n : ℕ) → k ≤ n → (if suc n == k then suc n else suc n - 1) ≡ n
before_suc k n h = ground arith

number-bounds :
    (p : Period) (y m : ℕ)
    → 1400 ≤ y
    → y ≤ 9999
    → 1 ≤ m
    → m ≤ 12
    → (1400 * per_year p ≤ index p y m) × (index p y m < 10000 * per_year p)
number-bounds months y m h₁ h₂ h₃ h₄ = (omega arith, omega arith)
number-bounds quarters y m h₁ h₂ h₃ h₄ = (omega arith, omega arith)
number-bounds halfyears y m h₁ h₂ h₃ h₄ = (omega arith, omega arith)
number-bounds years y m h₁ h₂ h₃ h₄ = (omega arith, omega arith)

module _ (c : Calendar) where
  -- A year before 1400 makes no date, since Boost throws.
  of_ymd-throws : (y m : ℕ) → y < 1400 → m ≤ 12 → of_ymd c y m 1 ≡ none
  unfolding of_ymd
  of_ymd-throws y m h₁ h₂ =
      rw (c.make_throws (y % 65536) (m % 65536) (1 % 65536) (before_1400-valid y m h₁))

  of_ymd-year_before :
      (y m : ℕ) → 1400 ≤ y → y ≤ 9999 → of_ymd c (year_before y) m 1 ≡ of_ymd c (y - 1) m 1
  unfolding of_ymd
  of_ymd-year_before y m h₁ h₂ = rw (before_short y h₁ h₂)

  -- What the four functions compute from the month that the period starts with.
  before_start : Period → ℕ → ℕ → Option (Datetime c)
  before_start p y s =
      if s == 1 then of_ymd c (year_before y) (13 - width p) 1 else of_ymd c y (s - width p) 1

  before_start-first :
      (p : Period) (y m : ℕ)
      → 1400 ≤ y
      → y ≤ 9999
      → 1 ≤ m
      → m ≤ 12
      → before_start p y (start_month p m) ≡ first c p (index p y m - 1)
  unfolding first before_start
  before_start-first p y m h₁ h₂ h₃ h₄ =
      rw (before-year p y m h₁ h₃ h₄, before-month p y m h₁ h₃ h₄)
        (elim (Bool-cases (start_month p m == 1)) [
          | inl e ↦ rw (e) (of_ymd-year_before y (13 - width p) h₁ h₂)
          | inr e ↦ rw (e)
        ])

  start_Made :
      (p : Period) (t : c.Date) (u : ℕ)
      → IsDate c t
      → (s : c.Date) × (start_of c p (at t u) ≡ some (of_date c s))
        × (c.month s ≡ start_month p (c.month t))
  start_Made p t u v =
      let b = valid-bounds (c.year t) (c.month t) (c.day t) v in
      let k = start_month-bounds p (c.month t) b.2 b.3 in
      let m = start_month p (c.month t) in
      let r =
        of_ymd-Made c (c.year t) m 1
          (valid-early (c.year t) m 1 b.0 b.1 k.0 k.1 (omega arith) (omega arith)) in
      (r.0, start_month_of c p t u v ∙ r.1.0, r.1.2)

  pre_of-or_min :
      (p : Period) (t : c.Date) (u : ℕ)
      → IsDate c t
      → pre_of c p (at t u) ≡ or_min c (before_start p (c.year t) (start_month p (c.month t)))
  unfolding pre_month pre_quarter pre_halfyear pre_year before_start month
  pre_of-or_min months t u v =
      let b = valid-bounds (c.year t) (c.month t) (c.day t) v in rw (months_start (c.month t) b.2)
  pre_of-or_min quarters t u v = let r = start_Made quarters t u v in rw (r.1, r.2)
  pre_of-or_min halfyears t u v =
      let b = valid-bounds (c.year t) (c.month t) (c.day t) v in
      let r = start_Made halfyears t u v in
      elim (halfyear_cases (c.month t) b.2 b.3) [
        | inl (e, s) ↦ rw (r.1, r.2, s)
        | inr (e, s) ↦ rw (r.1, r.2, s)
      ]
  pre_of-or_min years t u v =
      let b = valid-bounds (c.year t) (c.month t) (c.day t) v in
      rw (years_start (c.month t) b.2 b.3)

  lowest-first :
      (p : Period) → or_min c (first c p (1400 * per_year p - 1)) ≡ first c p (1400 * per_year p)
  unfolding first or_min
  lowest-first months = rw (of_ymd-throws 1399 12 (omega arith) (omega arith))
  lowest-first quarters = rw (of_ymd-throws 1399 10 (omega arith) (omega arith))
  lowest-first halfyears = rw (of_ymd-throws 1399 7 (omega arith) (omega arith))
  lowest-first years = rw (of_ymd-throws 1399 1 (omega arith) (omega arith))

  or_min-some : (s : c.Date) → or_min c (some (of_date c s)) ≡ some (of_date c s)
  unfolding or_min
  or_min-some s = refl

  or_min-first :
      (p : Period) (n : ℕ)
      → 1400 * per_year p ≤ n
      → n < 10000 * per_year p
      → or_min c (first c p (n - 1)) ≡ first c p (if n == 1400 * per_year p then n else n - 1)
  or_min-first p n h₁ h₂ = elim (dec_lt (1400 * per_year p) n) [
    | yes l ↦
        let r = first-Made c p (n - 1) (omega arith) (omega arith) in
        ap (or_min c) r.1 ∙ or_min-some r.0 ∙ sym r.1 ∙ ap (first c p) (ground arith)
    | no g ↦
        ap (λ k. or_min c (first c p (k - 1))) (omega arith)
        ∙ lowest-first p
        ∙ ap (first c p) (ground arith)
  ]

  -- The previous month, quarter, half-year or year starts on the first day of the period with the previous
  -- number, and in the first one of the year 1400 on that one's first day.
  pub pre_of-first :
      (p : Period) (t : c.Date) (u : ℕ)
      → IsDate c t
      → pre_of c p (at t u)
        ≡ first c p
            (if number_of c p t == 1400 * per_year p then number_of c p t else number_of c p t - 1)
  pre_of-first p t u v =
      let b = valid-bounds (c.year t) (c.month t) (c.day t) v in
      let n = number-bounds p (c.year t) (c.month t) b.0 b.1 b.2 b.3 in
      pre_of-or_min p t u v
      ∙ ap (or_min c) (before_start-first p (c.year t) (c.month t) b.0 b.1 b.2 b.3)
      ∙ or_min-first p (number_of c p t) n.0 n.1

  -- Unless the present period is the last one of the year 9999, the period before the next one is the present
  -- one: the previous one of the start of the next one starts where the present one does.
  pub next_of-pre_of :
      (p : Period) (t : c.Date) (u : ℕ)
      → IsDate c t
      → suc (number_of c p t) < 10000 * per_year p
      → (next_of c p (at t u) >>= pre_of c p) ≡ start_of c p (at t u)
  next_of-pre_of p t u v h =
      let b = valid-bounds (c.year t) (c.month t) (c.day t) v in
      let n = number-bounds p (c.year t) (c.month t) b.0 b.1 b.2 b.3 in
      let s = first-Made c p (suc (number_of c p t)) (omega arith) h in
      ap (λ o. o >>= pre_of c p) (next_of-first c p t u v h ∙ s.1)
      ∙ pre_of-first p s.0 0 s.2
      ∙ ap (first c p) (rw (s.3) (before_suc (1400 * per_year p) (number_of c p t) n.0))
      ∙ sym (start_of-first c p t u v)
