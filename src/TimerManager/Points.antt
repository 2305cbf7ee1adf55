-- ===== src/TimerManager/Points.antt =====
-- The time of the next run of a timer of hikyuu/utilities/TimerManager.h.
use hku_utils.Base.{
  ℕ, ◌+◌, ◌-◌, ◌%◌, ◌≤◌, ◌<◌, ◌≡◌, refl, not, ◌&&◌, leb, ltb, arith, ◌⊎◌, if◌then◌else◌,
}
use hku_utils.Base.Int.{pos, negsuc}
use hku_utils.TimerManager.{Timer, one_day, start_of_day, shift}
use hku_utils.TimerManager.Calls.{next_point}

-- What the code computes from the parts of a timer that repeats within the day.
repeated : ℕ → ℕ → ℕ → ℕ → ℕ → ℕ
repeated a b d now s =
    let p = if ltb (s + d) now then now else s + d in
    if not (leb (a + 0) (b + 0) && leb (b + 0) (a + 0)) && ltb (start_of_day now + b) p
    then start_of_day now + a + one_day
    else p

module _ {F : Type 0} where
  next_point-repeated :
      (timer : Timer F) (now s a b d : ℕ)
      → timer.start_time ≡ pos a
      → timer.end_time ≡ pos b
      → timer.duration ≡ pos d
      → next_point timer now s ≡ repeated a b d now s
  unfolding next_point shift repeated
  next_point-repeated timer now s a b d e₁ e₂ e₃ = rw (e₁, e₂, e₃) refl

next_point-daily :
    {F : Type 0} (timer : Timer F) (now s a : ℕ)
    → timer.start_time ≡ negsuc a
    → next_point timer now s ≡ s + (start_of_day now + one_day) - start_of_day s
unfolding next_point
next_point-daily timer now s a e = rw (e)

-- The later one of two points in time.
abbrev pub IsLater : ℕ → ℕ → ℕ → Type 0
IsLater x y p = (x ≤ p) × (y ≤ p) × ((p ≡ x) ⊎ (p ≡ y))

-- The next run is at the later one of now and a duration after the run, which is in the span of today, or, after
-- a run that was due before the span of today, still before that span; or that one is after the span of
-- today, and the next run is at the start of the one of tomorrow.
abbrev pub Placed : ℕ → ℕ → ℕ → ℕ → ℕ → ℕ → Type 0
Placed a b d now s p =
    (IsLater now (s + d) p × (start_of_day now + a ≤ p) × (p ≤ start_of_day now + b))
    ⊎ (((p ≡ start_of_day now + one_day + a)
          × ((start_of_day now + b < now) ⊎ (start_of_day now + b < s + d)))
        ⊎ (IsLater now (s + d) p × (s < start_of_day now + a) × (p < start_of_day now + a)))

repeated-due :
    (a b d now s : ℕ)
    → (now ≤ repeated a b d now s)
      × (((a ≡ b) × IsLater now (s + d) (repeated a b d now s))
          ⊎ Placed a b d now s (repeated a b d now s))
unfolding repeated
repeated-due a b d now s = (ground arith, ground arith)

module _ {F : Type 0} where
  -- The next run of a timer with a time span from a to b is not before now. It is at the later one of
  -- now and a duration after the run, where the span is not a proper one, a ≡ b, or that one is in the
  -- span of today, or, only after a run that was due before the span of today, before that span. Where
  -- that one is after a proper span of today, the next run is at the start of the span of tomorrow.
  pub next_point-due :
      (timer : Timer F) (now s a b d : ℕ)
      → timer.start_time ≡ pos a
      → timer.end_time ≡ pos b
      → timer.duration ≡ pos d
      → (now ≤ next_point timer now s)
        × (((a ≡ b) × IsLater now (s + d) (next_point timer now s))
            ⊎ Placed a b d now s (next_point timer now s))
  next_point-due timer now s a b d e₁ e₂ e₃ =
      rw (next_point-repeated timer now s a b d e₁ e₂ e₃) (repeated-due a b d now s)

  -- A timer for one time of the day runs next at that time tomorrow.
  next_point-tomorrow :
      (timer : Timer F) (now s a : ℕ)
      → timer.start_time ≡ negsuc a
      → next_point timer now s ≡ start_of_day now + one_day + s % one_day
  next_point-tomorrow timer now s a e = rw (next_point-daily timer now s a e) (omega arith)
