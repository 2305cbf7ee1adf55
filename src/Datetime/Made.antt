-- ===== src/Datetime/Made.antt =====
-- The dates that can be made: lemmas of hikyuu/utilities/datetime/Datetime.cpp on the constructors and on
-- the limits of the range.
use hku_utils.Base.{
  ℕ, ◌+◌, ◌%◌, ◌≤◌, ◌<◌, ◌≡◌, refl, sym, ap, ◌∙◌, none, some, Bool, true, false, ◌&&◌, not, ◌==◌,
  if◌then◌else◌, arith,
}
use hku_utils.Base.Int.{pos}
use hku_utils.Datetime.Boost.{Calendar, valid, month_length, key}
use hku_utils.Datetime.{at, of_date, of_ymd, later, at_most_max, day_after}

-- What `valid` says of a date.
pub valid-bounds :
    (y m d : ℕ)
    → valid y m d ≡ true
    → (1400 ≤ y) × (y ≤ 9999) × (1 ≤ m) × (m ≤ 12) × (1 ≤ d) × (d ≤ 31)
unfolding valid month_length
valid-bounds y m d h =
    (ground arith, ground arith, ground arith, ground arith, ground arith, ground arith)

-- Days up to the 28th are in every month.
pub valid-early :
    (y m d : ℕ) → 1400 ≤ y → y ≤ 9999 → 1 ≤ m → m ≤ 12 → 1 ≤ d → d ≤ 28 → valid y m d ≡ true
unfolding valid month_length
valid-early y m d h₁ h₂ h₃ h₄ h₅ h₆ = ground arith

pub valid-day : (y m d : ℕ) → valid y m d ≡ true → d ≤ month_length y m
unfolding valid month_length
valid-day y m d h = ground arith

pub month_length-valid : (y m d : ℕ) → valid y m d ≡ true → valid y m (month_length y m) ≡ true
unfolding valid month_length
month_length-valid y m d h = ground arith

valid-last : valid 9999 12 31 ≡ true
unfolding valid month_length
valid-last = refl

and_false : (b : Bool) → (b && false) ≡ false
and_false true = refl
and_false false = refl

some-injective : {A : Type 0} {a b : A} → some a ≡ some b → a ≡ b
some-injective {a = a} e = ap (λ o. elim o [ none ↦ a | some x ↦ x ]) e

-- An `unsigned short` holds these.
pub short : (n : ℕ) → n ≤ 9999 → n % 65536 ≡ n
short n h = omega arith

pub next_month-valid :
    (y m d : ℕ)
    → valid y m d ≡ true
    → d ≡ month_length y m
    → key y m d < key 9999 12 31
    → valid (if m == 12 then y + 1 else y) (if m == 12 then 1 else m + 1) 1 ≡ true
unfolding valid month_length
next_month-valid y m d v e h = ground arith

module _ (c : Calendar) where
  -- A date with the fields of the calendar's days.
  abbrev pub IsDate : c.Date → Type 0
  IsDate t = valid (c.year t) (c.month t) (c.day t) ≡ true

  -- What it is to have made a date from its parts.
  abbrev pub Made : ℕ → ℕ → ℕ → c.Date → Type 0
  Made y m d t =
      (of_ymd c y m d ≡ some (of_date c t)) × (c.year t ≡ y) × (c.month t ≡ m) × (c.day t ≡ d)

  pub of_ymd-make :
      (y m d : ℕ) (t : c.Date)
      → valid y m d ≡ true
      → c.make y m d ≡ some t
      → of_ymd c y m d ≡ some (of_date c t)
  unfolding of_ymd
  of_ymd-make y m d t v e =
      let b = valid-bounds y m d v in
      rw (short y (omega arith), short m (omega arith), short d (omega arith), e)

  pub of_ymd-Made : (y m d : ℕ) → valid y m d ≡ true → (t : c.Date) × Made y m d t
  of_ymd-Made y m d v =
      (let r = c.make_lem y m d v in (r.0, (of_ymd-make y m d r.0 v r.1, r.2, r.3, r.4)))

  pub make-fields :
      (y m d : ℕ) (t : c.Date)
      → valid y m d ≡ true
      → c.make y m d ≡ some t
      → (c.year t ≡ y) × (c.month t ≡ m) × (c.day t ≡ d)
  make-fields y m d t v e =
      let r = c.make_lem y m d v in
      let q = some-injective (sym e ∙ r.1) in
      (ap (λ x. c.year x) q ∙ r.2, ap (λ x. c.month x) q ∙ r.3, ap (λ x. c.day x) q ∙ r.4)

  pub make-IsDate : (y m d : ℕ) (t : c.Date) → valid y m d ≡ true → c.make y m d ≡ some t → IsDate t
  make-IsDate y m d t v e = let r = make-fields y m d t v e in rw (r.0, r.1, r.2) v

  pub Made-IsDate : (y m d : ℕ) (t : c.Date) → valid y m d ≡ true → Made y m d t → IsDate t
  Made-IsDate y m d t v h = rw (h.1, h.2, h.3) v

  max-latest : (t : c.Date) → IsDate t → (s : c.Date) → Made 9999 12 31 s → c.before s t ≡ false
  max-latest t v s h =
      let b = valid-bounds (c.year t) (c.month t) (c.day t) v in
      let e = c.before_lem s t (Made-IsDate 9999 12 31 s valid-last h) v in
      rw (e, h.1, h.2, h.3) (ground arith)

  -- No date is later than the last one.
  pub at_most_max-date : (t : c.Date) → IsDate t → at_most_max c (of_date c t) ≡ some (of_date c t)
  unfolding at_most_max later
  at_most_max-date t v =
      let hi = of_ymd-Made 9999 12 31 valid-last in
      let hi-IsDate = Made-IsDate 9999 12 31 hi.0 valid-last hi.1 in
      rw (hi.1.0, max-latest t v hi.0 hi.1, and_false (not (c.before t hi.0)))

  -- The day after the last day of a month is the first of the next one.
  pub day_after-month :
      (t : c.Date)
      → IsDate t
      → c.day t ≡ month_length (c.year t) (c.month t)
      → key (c.year t) (c.month t) (c.day t) < key 9999 12 31
      → (u : ℕ)
      → day_after c (at t u)
        ≡ of_ymd c
            (if c.month t == 12 then c.year t + 1 else c.year t)
            (if c.month t == 12 then 1 else c.month t + 1)
            1
  unfolding day_after
  day_after-month t v e h u =
      let b = valid-bounds (c.year t) (c.month t) (c.day t) v in
      let y = if c.month t == 12 then c.year t + 1 else c.year t in
      let m = if c.month t == 12 then 1 else c.month t + 1 in
      let v₁ = next_month-valid (c.year t) (c.month t) (c.day t) v e h in
      let made = c.next_day_lem t v e h in
      at_most_max-date (c.plus t (pos 1)) (make-IsDate y m 1 (c.plus t (pos 1)) v₁ made)
      ∙ sym (of_ymd-make y m 1 (c.plus t (pos 1)) v₁ made)
