-- ===== src/Datetime/Months.antt =====
-- The months of the periods of hikyuu/utilities/datetime/Datetime.cpp: numbers, first and last days.
use hku_utils.Base.{
  ℕ, suc, ◌+◌, ◌-◌, ◌*◌, ◌/◌, ◌%◌, ◌≤◌, ◌<◌, ◌≡◌, refl, true, ◌==◌, if◌then◌else◌, dec_lt, arith,
}
use hku_utils.Datetime.Boost.{valid, month_length, key}
use hku_utils.Datetime.Made.{valid-early}
use hku_utils.Datetime.Numbering.{
  start_month-bounds, Period, months, quarters, halfyears, years, per_year, width, index,
  start_month,
}

-- The last days of the periods that the code names.
pub valid-last_days :
    (y : ℕ)
    → 1400 ≤ y
    → y ≤ 9999
    → (valid y 3 31 ≡ true) × (valid y 6 30 ≡ true) × (valid y 9 30 ≡ true) × (valid y 12 31 ≡ true)
unfolding valid month_length
valid-last_days y h₁ h₂ = (ground arith, ground arith, ground arith, ground arith)

pub last_days :
    (y : ℕ)
    → (31 ≡ month_length y 3)
      × (30 ≡ month_length y 6)
      × (30 ≡ month_length y 9)
      × (31 ≡ month_length y 12)
unfolding month_length
last_days y = (refl, refl, refl, refl)

pub years_start : (m : ℕ) → 1 ≤ m → m ≤ 12 → start_month years m ≡ 1
years_start m h₁ h₂ = omega arith

pub years_last : (m : ℕ) → 1 ≤ m → m ≤ 12 → start_month years m + 11 ≡ 12
years_last m h₁ h₂ = omega arith

pub suc-year :
    (p : Period) (y m : ℕ)
    → 1 ≤ m
    → m ≤ 12
    → suc (index p y m) / per_year p ≡ (if start_month p m + (width p - 1) == 12 then y + 1 else y)
suc-year months y m h₁ h₂ = ground arith
suc-year quarters y m h₁ h₂ = ground arith
suc-year halfyears y m h₁ h₂ = ground arith
suc-year years y m h₁ h₂ = ground arith

pub suc-month :
    (p : Period) (y m : ℕ)
    → 1 ≤ m
    → m ≤ 12
    → suc (index p y m) % per_year p * width p + 1
      ≡ (if start_month p m + (width p - 1) == 12 then 1 else start_month p m + (width p - 1) + 1)
suc-month months y m h₁ h₂ = ground arith
suc-month quarters y m h₁ h₂ = ground arith
suc-month halfyears y m h₁ h₂ = ground arith
suc-month years y m h₁ h₂ = ground arith

pub last_key :
    (p : Period) (y m d : ℕ)
    → 1 ≤ m
    → m ≤ 12
    → y ≤ 9999
    → d ≤ 31
    → suc (index p y m) < 10000 * per_year p
    → key y (start_month p m + (width p - 1)) d < key 9999 12 31
last_key months y m d h₁ h₂ h₃ h₄ h₅ = omega arith
last_key quarters y m d h₁ h₂ h₃ h₄ h₅ = omega arith
last_key halfyears y m d h₁ h₂ h₃ h₄ h₅ = omega arith
last_key years y m d h₁ h₂ h₃ h₄ h₅ = omega arith

pub start_order :
    (p : Period) (y m d : ℕ)
    → 1 ≤ m
    → m ≤ 12
    → 1 ≤ d
    → let l = start_month p m + (width p - 1) in
      (key y (start_month p m) 1 ≤ key y m d)
      × (m ≤ l)
      × (index p y (start_month p m) ≡ index p y m)
      × (index p y l ≡ index p y m)
start_order months y m d h₁ h₂ h₃ = (omega arith, omega arith, omega arith, omega arith)
start_order quarters y m d h₁ h₂ h₃ = (omega arith, omega arith, omega arith, omega arith)
start_order halfyears y m d h₁ h₂ h₃ = (omega arith, omega arith, omega arith, omega arith)
start_order years y m d h₁ h₂ h₃ = (omega arith, omega arith, omega arith, omega arith)

pub end_order :
    (y m d l k : ℕ)
    → m ≤ l
    → d ≤ 31
    → d ≤ month_length y m
    → k ≡ month_length y l
    → key y m d ≤ key y l k
end_order y m d l k h₁ h₂ h₃ e = elim (dec_lt m l) [
  | yes lt ↦ omega arith
  | no ge ↦ let q : m ≡ l = omega arith in let h : d ≤ k = rw (e, ← q) h₃ in omega arith
]

pub start_month-valid :
    (p : Period) (y m : ℕ)
    → 1400 ≤ y
    → y ≤ 9999
    → 1 ≤ m
    → m ≤ 12
    → valid y (start_month p m) 1 ≡ true
start_month-valid p y m h₁ h₂ h₃ h₄ =
    let b = start_month-bounds p m h₃ h₄ in
    valid-early y (start_month p m) 1 h₁ h₂ b.0 b.1 (omega arith) (omega arith)
