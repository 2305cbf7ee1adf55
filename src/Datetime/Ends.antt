-- ===== src/Datetime/Ends.antt =====
-- The ends of the months, quarters, half-years and years of hikyuu/utilities/datetime/Datetime.cpp, and
-- the next ones.
use hku_utils.Base.{
  ℕ, suc, ◌+◌, ◌-◌, ◌*◌, ◌≤◌, ◌<◌, ◌≡◌, refl, sym, ap, subst, ◌∙◌, Option, some, true, ◌==◌, false,
  ◌&&◌, ◌||◌, not, ltb, if◌then◌else◌, arith, inl, inr,
}
use hku_utils.Datetime.Boost.{Calendar, valid, month_length, key}
use hku_utils.Datetime.{Datetime, at, of_date, of_ymd, later, day_after, ◌>>=◌}
use hku_utils.Datetime.Made.{
  IsDate, valid-bounds, valid-day, of_ymd-Made, Made-IsDate, make-fields, month_length-valid,
  day_after-month,
}
use hku_utils.Datetime.Periods.{
  end_of_month, end_of_quarter, end_of_halfyear, end_of_year, next_month, next_quarter,
  next_halfyear, next_year,
}
use hku_utils.Datetime.Numbering.{
  Period, months, quarters, halfyears, years, per_year, width, index, start_month, quarter_cases,
  halfyear_cases, first, start_of, end_of, next_of, number_of, start_month_of,
}
use hku_utils.Datetime.Months.{
  valid-last_days, last_days, years_last, suc-year, suc-month, last_key, start_order, end_order,
  start_month-valid,
}

module _ (c : Calendar) where
  -- `e` is the last day of the month m of the year y, and `r` makes it.
  abbrev pub LastDay : Option (Datetime c) → ℕ → ℕ → c.Date → Type 0
  LastDay r y m e =
      (r ≡ some (of_date c e))
      × IsDate c e
      × (c.year e ≡ y)
      × (c.month e ≡ m)
      × (c.day e ≡ month_length (c.year e) (c.month e))

  made_last :
      (y m d : ℕ)
      → valid y m d ≡ true
      → d ≡ month_length y m
      → (e : c.Date) × LastDay (of_ymd c y m d) y m e
  made_last y m d v l =
      let r = of_ymd-Made c y m d v in
      (r.0, (r.1.0, Made-IsDate c y m d r.0 v r.1, r.1.1, r.1.2, rw (r.1.1, r.1.2, r.1.3) l))

  end_of_last :
      (p : Period) (t : c.Date) (u : ℕ)
      → IsDate c t
      → (e : c.Date) × LastDay
          (end_of c p (at t u))
          (c.year t)
          (start_month p (c.month t) + (width p - 1))
          e
  unfolding end_of_month end_of_quarter end_of_halfyear end_of_year
  end_of_last months t u v =
      let b = valid-bounds (c.year t) (c.month t) (c.day t) v in
      let v₁ = month_length-valid (c.year t) (c.month t) (c.day t) v in
      let f =
        make-fields c (c.year t) (c.month t) (month_length (c.year t) (c.month t))
          (c.end_of_month t) v₁ (c.end_of_month_lem t v) in
      (
        c.end_of_month t,
        (refl, rw (f.0, f.1, f.2) v₁, f.0, f.1 ∙ omega arith, rw (f.0, f.1, f.2) refl),
      )
  end_of_last quarters t u v =
      let y = c.year t in
      let b = valid-bounds y (c.month t) (c.day t) v in
      let ok = valid-last_days y b.0 b.1 in
      let l = last_days y in
      elim (quarter_cases (c.month t) b.2 b.3) [
        | inl (e, s) ↦ rw (e, s) (made_last y 3 31 ok.0 l.0)
        | inr (inl (e₁, e₂, s)) ↦ rw (e₁, e₂, s) (made_last y 6 30 ok.1 l.1)
        | inr (inr (inl (e₁, e₂, e₃, s))) ↦ rw (e₁, e₂, e₃, s) (made_last y 9 30 ok.2 l.2)
        | inr (inr (inr (e₁, e₂, e₃, e₄, s))) ↦ rw (e₁, e₂, e₃, e₄, s) (made_last y 12 31 ok.3 l.3)
      ]
  end_of_last halfyears t u v =
      let y = c.year t in
      let b = valid-bounds y (c.month t) (c.day t) v in
      let ok = valid-last_days y b.0 b.1 in
      elim (halfyear_cases (c.month t) b.2 b.3) [
        | inl (e, s) ↦ rw (e, s) (made_last y 6 30 ok.1 (last_days y).1)
        | inr (e, s) ↦ rw (e, s) (made_last y 12 31 ok.3 (last_days y).3)
      ]
  end_of_last years t u v =
      let y = c.year t in
      let b = valid-bounds y (c.month t) (c.day t) v in
      rw (years_last (c.month t) b.2 b.3)
        (made_last y 12 31 (valid-last_days y b.0 b.1).3 (last_days y).3)

  -- The first day after a period is the first one of the next period.
  first-suc :
      (p : Period) (y m : ℕ)
      → 1 ≤ m
      → m ≤ 12
      → let l = start_month p m + (width p - 1) in
        of_ymd c (if l == 12 then y + 1 else y) (if l == 12 then 1 else l + 1) 1
        ≡ first c p (suc (index p y m))
  unfolding first
  first-suc p y m h₁ h₂ = rw (suc-year p y m h₁ h₂, suc-month p y m h₁ h₂)

  next_of-end :
      (p : Period) (t : c.Date) (u : ℕ)
      → next_of c p (at t u) ≡ (end_of c p (at t u) >>= day_after c)
  unfolding next_month next_quarter next_halfyear next_year
  next_of-end months t u = refl
  next_of-end quarters t u = refl
  next_of-end halfyears t u = refl
  next_of-end years t u = refl

  -- The next month, quarter, half-year or year starts on the first day of the period with the next number,
  -- unless this one is the last of the year 9999.
  pub next_of-first :
      (p : Period) (t : c.Date) (u : ℕ)
      → IsDate c t
      → suc (number_of c p t) < 10000 * per_year p
      → next_of c p (at t u) ≡ first c p (suc (number_of c p t))
  next_of-first p t u v h =
      let b = valid-bounds (c.year t) (c.month t) (c.day t) v in
      let r = end_of_last p t u v in
      let e = r.0 in
      let be = valid-bounds (c.year e) (c.month e) (c.day e) r.1.1 in
      let k =
        subst (λ m. key (c.year e) m (c.day e) < key 9999 12 31) (sym r.1.3)
          (last_key p (c.year e) (c.month t) (c.day e) b.2 b.3 be.1 be.5
            (subst (λ y. suc (index p y (c.month t)) < 10000 * per_year p) (sym r.1.2) h)) in
      next_of-end p t u
      ∙ ap (λ o. o >>= day_after c) r.1.0
      ∙ day_after-month c e r.1.1 r.1.4 k 0
      ∙ rw (r.1.2, r.1.3) (first-suc p (c.year t) (c.month t) b.2 b.3)

  later-key :
      (s t : c.Date) (v u : ℕ)
      → IsDate c s
      → IsDate c t
      → let ks = key (c.year s) (c.month s) (c.day s) in
        let kt = key (c.year t) (c.month t) (c.day t) in
        later c (at s v) (at t u) ≡ (ltb kt ks || (not (ltb ks kt) && ltb u v))
  unfolding later
  later-key s t v u hs ht = rw (c.before_lem t s ht hs, c.before_lem s t hs ht) refl

  at_start : (ks kt u : ℕ) → ks ≤ kt → (ltb kt ks || (not (ltb ks kt) && ltb u 0)) ≡ false
  at_start ks kt u h = ground arith

  at_end :
      (kt ke u : ℕ)
      → kt ≤ ke
      → (ltb ke kt || (not (ltb kt ke) && ltb 0 u)) ≡ ((kt == ke) && ltb 0 u)
  at_end kt ke u h = ground arith

  -- The start of the month, quarter, half-year or year of a point in time is not after it, and the end, which
  -- is the midnight that its last day begins with, is not on an earlier day: the point in time is after the
  -- end exactly if it is on the last day and not at midnight. Both are days of the period with the same
  -- number, the first one the first of its month, the last one as long as its month is.
  pub start_of-end_of :
      (p : Period) (t : c.Date) (u : ℕ)
      → IsDate c t
      → (s e : c.Date) × (start_of c p (at t u) ≡ some (of_date c s))
        × (end_of c p (at t u) ≡ some (of_date c e))
        × (key (c.year s) (c.month s) (c.day s) ≤ key (c.year t) (c.month t) (c.day t))
        × (later c (of_date c s) (at t u) ≡ false)
        × (key (c.year t) (c.month t) (c.day t) ≤ key (c.year e) (c.month e) (c.day e))
        × (later c (at t u) (of_date c e) ≡ (
            (key (c.year t) (c.month t) (c.day t) == key (c.year e) (c.month e) (c.day e))
            && ltb 0 u))
        × (number_of c p s ≡ number_of c p t)
        × (number_of c p e ≡ number_of c p t)
        × (c.day s ≡ 1)
        × (c.day e ≡ month_length (c.year e) (c.month e))
  start_of-end_of p t u v =
      let y = c.year t in
      let m = c.month t in
      let b = valid-bounds y m (c.day t) v in
      let o = start_order p y m (c.day t) b.2 b.3 b.4 in
      let k = start_month-valid p y m b.0 b.1 b.2 b.3 in
      let r = of_ymd-Made c y (start_month p m) 1 k in
      let l = end_of_last p t u v in
      let from : key (c.year r.0) (c.month r.0) (c.day r.0) ≤ key y m (c.day t) =
        rw (r.1.1, r.1.2, r.1.3) o.0 in
      let up : key y m (c.day t) ≤ key (c.year l.0) (c.month l.0) (c.day l.0) =
        rw (l.1.2, l.1.3)
          (end_order y m (c.day t) (start_month p m + (width p - 1)) (c.day l.0) o.1 b.5
            (valid-day y m (c.day t) v) (rw (l.1.4, l.1.2, l.1.3) refl)) in
      (
        r.0,
        l.0,
        start_month_of c p t u v ∙ r.1.0,
        l.1.0,
        from,
        later-key r.0 t 0 u (Made-IsDate c y (start_month p m) 1 r.0 k r.1) v ∙ at_start _ _ u from,
        up,
        later-key t l.0 u 0 v l.1.1 ∙ at_end _ _ u up,
        rw (r.1.1, r.1.2) o.2,
        rw (l.1.2, l.1.3) o.3,
        r.1.3,
        l.1.4,
      )
