-- ===== src/Datetime/Numbering.antt =====
-- The months, quarters, half-years and years of hikyuu/utilities/datetime/Datetime.cpp by their numbers:
-- the periods of one kind, counted from the year 0.
use hku_utils.Base.{
  ℕ, ◌+◌, ◌-◌, ◌*◌, ◌/◌, ◌%◌, ◌≤◌, ◌<◌, ◌≡◌, sym, ap, ◌∙◌, Option, some, true, false, leb, arith,
  inl, inr, ◌⊎◌,
}
use hku_utils.Datetime.Boost.{Calendar}
use hku_utils.Datetime.{Datetime, at, of_date, of_ymd}
use hku_utils.Datetime.Made.{IsDate, valid-bounds, valid-early, of_ymd-Made, Made-IsDate}
use hku_utils.Datetime.Periods.{
  start_of_month, start_of_quarter, start_of_halfyear, start_of_year, end_of_month, end_of_quarter,
  end_of_halfyear, end_of_year, next_month, next_quarter, next_halfyear, next_year, pre_month,
  pre_quarter, pre_halfyear, pre_year,
}

pub data Period : Type 0 where
  months : Period
  quarters : Period
  halfyears : Period
  years : Period

-- How many there are in a year, and the months of one.
abbrev pub per_year : Period → ℕ
per_year months = 12
per_year quarters = 4
per_year halfyears = 2
per_year years = 1

abbrev pub width : Period → ℕ
width months = 1
width quarters = 3
width halfyears = 6
width years = 12

abbrev pub index : Period → ℕ → ℕ → ℕ
index p y m = y * per_year p + (m - 1) / width p

abbrev pub start_month : Period → ℕ → ℕ
start_month p m = (m - 1) / width p * width p + 1

pub index-year : (p : Period) (y m : ℕ) → 1 ≤ m → m ≤ 12 → index p y m / per_year p ≡ y
index-year months y m h₁ h₂ = omega arith
index-year quarters y m h₁ h₂ = omega arith
index-year halfyears y m h₁ h₂ = omega arith
index-year years y m h₁ h₂ = omega arith

pub index-month :
    (p : Period) (y m : ℕ)
    → 1 ≤ m
    → m ≤ 12
    → index p y m % per_year p * width p + 1 ≡ start_month p m
index-month months y m h₁ h₂ = omega arith
index-month quarters y m h₁ h₂ = omega arith
index-month halfyears y m h₁ h₂ = omega arith
index-month years y m h₁ h₂ = omega arith

-- The tests of the code on a month, with the first month of its quarter and of its half-year.
pub quarter_cases :
    (m : ℕ)
    → 1 ≤ m
    → m ≤ 12
    → ((leb m 3 ≡ true) × (start_month quarters m ≡ 1))
      ⊎ (((leb m 3 ≡ false) × (leb m 6 ≡ true) × (start_month quarters m ≡ 4))
          ⊎ (((leb m 3 ≡ false)
                × (leb m 6 ≡ false)
                × (leb m 9 ≡ true)
                × (start_month quarters m ≡ 7))
              ⊎ ((leb m 3 ≡ false)
                  × (leb m 6 ≡ false)
                  × (leb m 9 ≡ false)
                  × (leb m 12 ≡ true)
                  × (start_month quarters m ≡ 10))))
quarter_cases m h₁ h₂ = ground arith

pub halfyear_cases :
    (m : ℕ)
    → 1 ≤ m
    → m ≤ 12
    → ((leb m 6 ≡ true) × (start_month halfyears m ≡ 1))
      ⊎ ((leb m 6 ≡ false) × (start_month halfyears m ≡ 7))
halfyear_cases m h₁ h₂ = ground arith

pub split_index :
    (p : Period) (i : ℕ)
    → 1400 * per_year p ≤ i
    → i < 10000 * per_year p
    → let m = i % per_year p * width p + 1 in
      (1400 ≤ i / per_year p)
      × (i / per_year p ≤ 9999)
      × (m ≤ 12)
      × (index p (i / per_year p) m ≡ i)
split_index months i h₁ h₂ = (omega arith, omega arith, omega arith, omega arith)
split_index quarters i h₁ h₂ = (omega arith, omega arith, omega arith, omega arith)
split_index halfyears i h₁ h₂ = (omega arith, omega arith, omega arith, omega arith)
split_index years i h₁ h₂ = (omega arith, omega arith, omega arith, omega arith)

pub start_month-bounds :
    (p : Period) (m : ℕ) → 1 ≤ m → m ≤ 12 → (1 ≤ start_month p m) × (start_month p m ≤ 12)
start_month-bounds months m h₁ h₂ = (omega arith, omega arith)
start_month-bounds quarters m h₁ h₂ = (omega arith, omega arith)
start_month-bounds halfyears m h₁ h₂ = (omega arith, omega arith)
start_month-bounds years m h₁ h₂ = (omega arith, omega arith)

module _ (c : Calendar) where
  -- The first day of a period.
  unfoldable pub first : Period → ℕ → Option (Datetime c)
  first p i = of_ymd c (i / per_year p) (i % per_year p * width p + 1) 1

  abbrev pub start_of : Period → Datetime c → Option (Datetime c)
  start_of months = start_of_month c
  start_of quarters = start_of_quarter c
  start_of halfyears = start_of_halfyear c
  start_of years = start_of_year c

  abbrev pub end_of : Period → Datetime c → Option (Datetime c)
  end_of months = end_of_month c
  end_of quarters = end_of_quarter c
  end_of halfyears = end_of_halfyear c
  end_of years = end_of_year c

  abbrev pub next_of : Period → Datetime c → Option (Datetime c)
  next_of months = next_month c
  next_of quarters = next_quarter c
  next_of halfyears = next_halfyear c
  next_of years = next_year c

  abbrev pub pre_of : Period → Datetime c → Option (Datetime c)
  pre_of months = pre_month c
  pre_of quarters = pre_quarter c
  pre_of halfyears = pre_halfyear c
  pre_of years = pre_year c

  abbrev pub number_of : Period → c.Date → ℕ
  number_of p t = index p (c.year t) (c.month t)

  pub first-index :
      (p : Period) (y m : ℕ)
      → 1 ≤ m
      → m ≤ 12
      → first p (index p y m) ≡ of_ymd c y (start_month p m) 1
  unfolding first
  first-index p y m h₁ h₂ = rw (index-year p y m h₁ h₂, index-month p y m h₁ h₂)

  pub start_month_of :
      (p : Period) (t : c.Date) (u : ℕ)
      → IsDate c t
      → start_of p (at t u) ≡ of_ymd c (c.year t) (start_month p (c.month t)) 1
  unfolding start_of_month start_of_quarter start_of_halfyear start_of_year
  start_month_of months t u v =
      let b = valid-bounds (c.year t) (c.month t) (c.day t) v in
      ap (λ m. of_ymd c (c.year t) m 1) (omega arith)
  start_month_of quarters t u v =
      let b = valid-bounds (c.year t) (c.month t) (c.day t) v in
      elim (quarter_cases (c.month t) b.2 b.3) [
        | inl (e, s) ↦ rw (e, s)
        | inr (inl (e₁, e₂, s)) ↦ rw (e₁, e₂, s)
        | inr (inr (inl (e₁, e₂, e₃, s))) ↦ rw (e₁, e₂, e₃, s)
        | inr (inr (inr (e₁, e₂, e₃, e₄, s))) ↦ rw (e₁, e₂, e₃, e₄, s)
      ]
  start_month_of halfyears t u v =
      let b = valid-bounds (c.year t) (c.month t) (c.day t) v in
      elim (halfyear_cases (c.month t) b.2 b.3) [ inl (e, s) ↦ rw (e, s) | inr (e, s) ↦ rw (e, s) ]
  start_month_of years t u v =
      let b = valid-bounds (c.year t) (c.month t) (c.day t) v in
      ap (λ m. of_ymd c (c.year t) m 1) (omega arith)

  -- The start of a month, quarter, half-year or year is the first day of the period with its number.
  pub start_of-first :
      (p : Period) (t : c.Date) (u : ℕ) → IsDate c t → start_of p (at t u) ≡ first p (number_of p t)
  start_of-first p t u v =
      let b = valid-bounds (c.year t) (c.month t) (c.day t) v in
      start_month_of p t u v ∙ sym (first-index p (c.year t) (c.month t) b.2 b.3)

  -- The first day of a numbered period is a date with that number.
  pub first-Made :
      (p : Period) (i : ℕ)
      → 1400 * per_year p ≤ i
      → i < 10000 * per_year p
      → (s : c.Date) × (first p i ≡ some (of_date c s))
        × IsDate c s
        × (number_of p s ≡ i)
        × (c.day s ≡ 1)
  unfolding first
  first-Made p i h₁ h₂ =
      let y = i / per_year p in
      let m = i % per_year p * width p + 1 in
      let k = split_index p i h₁ h₂ in
      let v = valid-early y m 1 k.0 k.1 (omega arith) k.2 (omega arith) (omega arith) in
      let r = of_ymd-Made c y m 1 v in
      (r.0, r.1.0, Made-IsDate c y m 1 r.0 v r.1, rw (r.1.1, r.1.2) k.3, r.1.3)
